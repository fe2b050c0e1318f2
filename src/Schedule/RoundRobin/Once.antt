-- ===== src/Schedule/RoundRobin/Once.antt =====
-- In each leg of a round robin every two teams of the phase meet once.
use bracket_craft.Prelude.{
  ℕ, zero, suc, ◌+◌, ◌-◌, ◌*◌, ◌/◌, ◌%◌, ◌≤◌, ◌<◌, ◌≡◌, refl, ap, ◌∙◌, ◌≢◌, inl, inr, Bool, true,
  ◌&&◌, ◌||◌, not, none, List, [], ◌∷◌, ◌++◌, map, arith, ltb, ◌==◌, ==_iff, Bool-cases, length,
  length-append, elem, count,
}
use bracket_craft.Prelude.Int.{ℤ, pos_part}
use bracket_craft.Prelude.Errors.{ok, raise_if, went_on}
use bracket_craft.Prelude.Teams.{Uuid, Distinct-count}
use bracket_craft.Schedule.{
  bad_legs, bad_round_interval, bad_match_interval, negative_seed, too_few_teams, Shuffler,
  all_distinct, all_distinct→Distinct, validate_team_ids, is_negative, below_one,
}
use bracket_craft.Schedule.RoundRobin.{
  Place, BaseMatch, base_matches, RoundRobinMatch, RoundRobinSchedule, Dates, leg_match,
  leg_matches, places, initial_rotation, build_round_robin_schedule,
}
use bracket_craft.Schedule.RoundRobin.Circle.{faced_once}
use bracket_craft.Schedule.RoundRobin.Positions.{occurs, position, position-lt, position-injective}
use bracket_craft.Schedule.RoundRobin.Meetings.{base_meets, tally, tally-append, base_matches-faced}

occurs-places : (t : Uuid) (ts : List Uuid) → occurs t (places ts) ≡ count t ts
occurs-places t [] = refl
occurs-places t (x ∷ ts) = ground (arith, occurs-places t ts)

occurs-append : (t : Uuid) (xs ys : List Place) → occurs t (xs ++ ys) ≡ occurs t xs + occurs t ys
occurs-append t [] ys = omega arith
occurs-append t (x ∷ xs) ys = omega (arith, occurs-append t xs ys)

length-places : (ts : List Uuid) → length (places ts) ≡ length ts
length-places [] = refl
length-places (t ∷ ts) = ap suc (length-places ts)

length-initial : (ts : List Uuid) → length (initial_rotation ts) ≡ 2 * ((length ts + 1) / 2)
unfolding initial_rotation
length-initial ts = elim (Bool-cases (length ts % 2 == 0)) [
  | inl e ↦ rw (e, length-places ts) (ground arith)
  | inr e ↦ rw (e, length-append (places ts) (none ∷ []), length-places ts) (ground arith)
]

occurs-initial : (t : Uuid) (ts : List Uuid) → occurs t (initial_rotation ts) ≡ count t ts
unfolding initial_rotation
occurs-initial t ts = elim (Bool-cases (length ts % 2 == 0)) [
  | inl e ↦ rw (e, occurs-places t ts) refl
  | inr e ↦ rw (e, occurs-append t (places ts) (none ∷ []), occurs-places t ts) (omega arith)
]

-- Whether a match is between the two teams, whatever the sides.
abbrev pub meets : Uuid → Uuid → RoundRobinMatch → Bool
meets s t m =
    s == m.home_team_id && t == m.away_team_id || t == m.home_team_id && s == m.away_team_id

leg-meets :
    (s t : Uuid) (d : Dates) (rc leg : ℕ) (base : List BaseMatch)
    → tally (meets s t) (map (leg_match d rc leg) base) ≡ tally (base_meets s t) base
unfolding leg_match
leg-meets s t d rc leg [] = refl
leg-meets s t d rc leg (m ∷ base) = elim (Bool-cases (leg == 0)) [
  | inl e ↦ rw (e, leg-meets s t d rc leg base) refl
  | inr e ↦ rw (e, leg-meets s t d rc leg base) (ground arith)
]

legs-meets :
    (s t : Uuid) (d : Dates) (rc legs leg : ℕ) (base : List BaseMatch)
    → tally (meets s t) (leg_matches d rc legs leg base) ≡ legs * tally (base_meets s t) base
unfolding leg_matches
legs-meets s t d rc zero leg base = omega arith
legs-meets s t d rc (suc legs) leg base =
    rw
      (
        tally-append (meets s t) (map (leg_match d rc leg) base)
            (leg_matches d rc legs (leg + 1) base),
        leg-meets s t d rc leg base,
        legs-meets s t d rc legs (leg + 1) base,
      )
      (ground arith)

base_matches-once :
    (s t : Uuid) (ts : List Uuid)
    → s ≢ t
    → count s ts ≡ 1
    → count t ts ≡ 1
    → 2 ≤ length ts
    → tally
        (base_meets s t)
        (base_matches (length (initial_rotation ts) - 1) 1 (initial_rotation ts))
      ≡ 1
base_matches-once s t ts ne os ot two =
    let r = initial_rotation ts in
    let os' : occurs s r ≡ 1 = occurs-initial s ts ∙ os in
    let ot' : occurs t r ≡ 1 = occurs-initial t ts ∙ ot in
    let size = length-initial ts in
    let h = (length ts + 1) / 2 - 1 in
    let apart : position s r ≢ position t r =
      λ e. ne (position-injective s t r (omega (arith, os')) e) in
    base_matches-faced s t (length r - 1) 1 h r ne (omega (arith, size)) os' ot'
    ∙ faced_once (length r - 1) (position s r) (position t r) (omega (arith, size))
        (omega (arith, position-lt s r (omega (arith, os'))))
        (omega (arith, position-lt t r (omega (arith, ot')))) apart

counted_apart :
    (s t : Uuid) (xs : List Uuid) → s ≢ t → 0 < count s xs → 0 < count t xs → 2 ≤ length xs
counted_apart s t [] ne hs ht = absurd (omega arith)
counted_apart s t (x ∷ []) ne hs ht = ground (arith, ==_iff s x, ==_iff t x)
counted_apart s t (x ∷ y ∷ xs) ne hs ht = omega arith

valid_once :
    (team_ids : List Uuid) (minimum : ℕ) {u : Unit {0}}
    → validate_team_ids team_ids minimum ≡ ok u
    → (t : Uuid) → elem t team_ids ≡ true
    → count t team_ids ≡ 1
unfolding validate_team_ids
valid_once team_ids minimum valid t h =
    let (_, _, rest) = went_on (raise_if (ltb (length team_ids) minimum) too_few_teams) _ valid in
    let all_apart : all_distinct team_ids ≡ true = ground arith in
    ground (arith, Distinct-count t team_ids (all_distinct→Distinct team_ids all_apart))

module _ (rng : Shuffler) where
  -- Two different teams of a generated round robin meet exactly once per leg.
  pub build_round_robin_schedule-meets_per_leg :
      (team_ids : List Uuid) (seed : ℤ) (d : Dates) (legs : ℕ) (schedule : RoundRobinSchedule)
      → build_round_robin_schedule rng team_ids seed d legs ≡ ok schedule
      → (s t : Uuid) → elem s team_ids ≡ true
      → elem t team_ids ≡ true
      → s ≢ t
      → tally (meets s t) schedule.matches ≡ legs
  unfolding build_round_robin_schedule
  build_round_robin_schedule-meets_per_leg team_ids seed d legs schedule returned s t hs ht ne =
      let shuffled = rng.shuffle (rng.seeded (pos_part seed)) team_ids in
      let same = rng.shuffle-SameTeams (rng.seeded (pos_part seed)) team_ids in
      let (_, valid, r1) = went_on (validate_team_ids team_ids 2) _ returned in
      let (_, _, r2) = went_on (raise_if (is_negative seed) negative_seed) _ r1 in
      let (_, _, r3) = went_on (raise_if (not (legs == 1 || legs == 2)) bad_legs) _ r2 in
      let (_, _, r4) =
        went_on (raise_if (below_one d.round_interval_days) bad_round_interval) _ r3 in
      let (_, _, r5) =
        went_on (raise_if (below_one d.match_interval_hours) bad_match_interval) _ r4 in
      let base =
        base_matches (length (initial_rotation shuffled) - 1) 1 (initial_rotation shuffled) in
      let made : schedule.matches
          ≡ leg_matches d (length (initial_rotation shuffled) - 1) legs 0 base =
        cc in
      let cs : count s shuffled ≡ 1 = same s ∙ valid_once team_ids 2 valid s hs in
      let ct : count t shuffled ≡ 1 = same t ∙ valid_once team_ids 2 valid t ht in
      let two = counted_apart s t shuffled ne (omega (arith, cs)) (omega (arith, ct)) in
      rw
        (
          made,
          legs-meets s t d (length (initial_rotation shuffled) - 1) legs 0 base,
          base_matches-once s t shuffled ne cs ct two,
        )
        (omega arith)
