-- ===== src/Schedule/Groups/Draw.antt =====
-- The draw in groups loses no team, and the groups differ by at most one team.
use bracket_craft.Prelude.{
  ℕ, ◌≤◌, ◌≡◌, sym, ◌⊎◌, inl, inr, Bool, true, false, ◌&&◌, ◌||◌, not, List, [], ◌∷◌, arith, ltb,
  ◌==◌, ==_iff, Bool-cases, length, keep, any, elem, Distinct,
}
use bracket_craft.Prelude.Int.{ℤ, pos_part}
use bracket_craft.Prelude.Errors.{ok, raise_if, went_on}
use bracket_craft.Prelude.Teams.{Uuid, SameTeams, count-append, count-chosen_then_rest}
use bracket_craft.Schedule.{
  negative_seed, too_few_teams, bad_group_count, bad_heads, foreign_heads, small_group, Shuffler,
  all_distinct, all_distinct→Distinct, validate_team_ids, is_negative,
}
use bracket_craft.Schedule.Groups.{Group, first_groups, deal_blocks, distribute_groups}
use bracket_craft.Schedule.Groups.Balanced.{members}
use bracket_craft.Schedule.Groups.Blocks.{Balanced, members-deal_blocks, Balanced-deal_blocks}
use bracket_craft.Schedule.Groups.Heads.{
  Fitting, first_groups-length, first_groups-members, first_groups-Even,
}

any_none :
    (f : Uuid → Bool) (xs : List Uuid)
    → any f xs ≡ false
    → (t : Uuid) → elem t xs ≡ true
    → f t ≡ false
any_none f [] h t m = absurd (ground arith)
any_none f (x ∷ xs) h t m = elim (Bool-cases (t == x)) [
  | inl e ↦ rw ((==_iff t x).0 e) (ground arith)
  | inr e ↦ any_none f xs (ground arith) t (ground arith)
]

record Checked (team_ids : List Uuid) (n : ℕ) (heads : List Uuid) : Type 0 where
  two : 2 ≤ n
  fitting : Fitting n heads
  heads_apart : Distinct heads
  teams_apart : Distinct team_ids
  inside : (t : Uuid) → elem t heads ≡ true → elem t team_ids ≡ true

module _ (rng : Shuffler) where
  dealt : List Uuid → ℕ → ℤ → List Uuid → List Group
  dealt team_ids n seed heads =
      let others = keep (λ t. not (elem t heads)) team_ids in
      let state = rng.seeded (pos_part seed) in
      let remaining = rng.shuffle state others in
      deal_blocks rng (length remaining) (rng.next state others) n remaining (first_groups n heads)

  drawn :
      (team_ids : List Uuid) (n : ℕ) (seed : ℤ) (heads : List Uuid) (groups : List Group)
      → distribute_groups rng team_ids n seed heads ≡ ok groups
      → Checked team_ids n heads
        × (groups ≡ dealt team_ids n seed heads)
        × (any (λ g. ltb (length g) 2) groups ≡ false)
  unfolding distribute_groups validate_team_ids dealt
  drawn team_ids n seed heads groups returned =
      let made = dealt team_ids n seed heads in
      let (_, valid, r1) = went_on (validate_team_ids team_ids 2) _ returned in
      let (_, counts, r2) =
        went_on (raise_if (ltb n 2 || ltb (length team_ids) n) bad_group_count) _ r1 in
      let (_, _, r3) = went_on (raise_if (is_negative seed) negative_seed) _ r2 in
      let (_, head_count, r4) =
        went_on (raise_if (not (length heads == 0) && not (length heads == n)) bad_heads) _ r3 in
      let (_, inside, r5) =
        went_on
          (raise_if (not (all_distinct heads) || any (λ t. not (elem t team_ids)) heads)
            foreign_heads)
          _ r4 in
      let (_, sized, r6) = went_on (raise_if (any (λ g. ltb (length g) 2) made) small_group) _ r5 in
      let (_, _, apart) = went_on (raise_if (ltb (length team_ids) 2) too_few_teams) _ valid in
      let same : made ≡ groups = cc in
      let fits : (length heads ≡ 0) ⊎ (length heads ≡ n) = ground arith in
      let heads_apart : all_distinct heads ≡ true = ground arith in
      let teams_apart : all_distinct team_ids ≡ true = ground arith in
      let known : any (λ t. not (elem t team_ids)) heads ≡ false = ground arith in
      (
        record {
          two = ground arith;
          fitting = fits;
          heads_apart = all_distinct→Distinct heads heads_apart;
          teams_apart = all_distinct→Distinct team_ids teams_apart;
          inside = λ t m. ground (arith, any_none (λ t. not (elem t team_ids)) heads known t m);
        },
        sym same,
        ground arith,
      )

  -- The groups of a draw hold each team of the phase exactly once, and nothing else.
  pub distribute_groups-SameTeams :
      (team_ids : List Uuid) (n : ℕ) (seed : ℤ) (heads : List Uuid) (groups : List Group)
      → distribute_groups rng team_ids n seed heads ≡ ok groups
      → SameTeams (members groups) team_ids
  unfolding dealt
  distribute_groups-SameTeams team_ids n seed heads groups returned t =
      let (c, made, _) = drawn team_ids n seed heads groups returned in
      let others = keep (λ t. not (elem t heads)) team_ids in
      let state = rng.seeded (pos_part seed) in
      let remaining = rng.shuffle state others in
      let first = first_groups n heads in
      let all_in =
        members-deal_blocks rng (length remaining) (rng.next state others) n remaining first
          (omega (arith, c.two)) (first_groups-length n heads c.fitting) (omega arith) t in
      let chosen = count-chosen_then_rest t heads team_ids c.heads_apart c.teams_apart c.inside in
      ground (
        arith,
        made,
        all_in,
        chosen,
        first_groups-members n heads,
        count-append t heads others,
        rng.shuffle-SameTeams state others t,
      )

  -- The sizes of two groups of a draw differ by at most one.
  pub distribute_groups-Balanced :
      (team_ids : List Uuid) (n : ℕ) (seed : ℤ) (heads : List Uuid) (groups : List Group)
      → distribute_groups rng team_ids n seed heads ≡ ok groups
      → Balanced n groups
  unfolding dealt
  distribute_groups-Balanced team_ids n seed heads groups returned =
      let (c, made, _) = drawn team_ids n seed heads groups returned in
      let others = keep (λ t. not (elem t heads)) team_ids in
      let state = rng.seeded (pos_part seed) in
      let remaining = rng.shuffle state others in
      rw made (
        Balanced-deal_blocks rng (length remaining) (rng.next state others) n remaining
          (first_groups n heads) (omega (arith, c.two)) (first_groups-length n heads c.fitting)
          (first_groups-Even n heads c.fitting))
