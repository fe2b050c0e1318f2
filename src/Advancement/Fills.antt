-- ===== src/Advancement/Fills.antt =====
-- What an advance does to the rows of the store: each link fills the side it names, and nothing else
-- changes.
use bracket_craft.Prelude.{
  ℕ, ◌≡◌, refl, sym, ◌∙◌, subst, ◌⊎◌, inl, inr, true, false, not, Option, none, some, List, [], ◌∷◌,
  arith, ◌==◌, Bool-cases, Option-cases,
}
use bracket_craft.Prelude.Errors.{ok, raise, went_on, went_past, ok_injective}
use bracket_craft.Prelude.Teams.{Uuid}
use bracket_craft.Advancement.{
  StoredStatus, scheduled, cancelled, other_status, Side, home, away, StoredMatch, AdvancementLink,
  target_unavailable, no_team, is_scheduled, is_null, team_at, with_team, update_where, rowcount,
  is_open, link_team, fill_side, advance_links, same_stage,
}

-- `R` between the rows at the same place
abbrev pub Rows :
    (StoredMatch → StoredMatch → Type 0) → List StoredMatch → List StoredMatch → Type 0
Rows R [] [] = Unit
Rows R [] (n ∷ ns) = ⊥
Rows R (m ∷ ms) [] = ⊥
Rows R (m ∷ ms) (n ∷ ns) = R m n × Rows R ms ns

pub Rows-trans :
    (R S T : StoredMatch → StoredMatch → Type 0)
    → ((a b c : StoredMatch) → R a b → S b c → T a c)
    → (xs ys zs : List StoredMatch) → Rows R xs ys
    → Rows S ys zs
    → Rows T xs zs
Rows-trans R S T f [] [] [] h k = tt
Rows-trans R S T f [] [] (c ∷ zs) h k = k
Rows-trans R S T f [] (b ∷ ys) zs h k = absurd h
Rows-trans R S T f (a ∷ xs) [] zs h k = absurd h
Rows-trans R S T f (a ∷ xs) (b ∷ ys) [] h k = k
Rows-trans R S T f (a ∷ xs) (b ∷ ys) (c ∷ zs) h k =
    (f a b c h.0 k.0, Rows-trans R S T f xs ys zs h.1 k.1)

pub Rows-refl :
    (R : StoredMatch → StoredMatch → Type 0)
    → ((a : StoredMatch) → R a a)
    → (xs : List StoredMatch) → Rows R xs xs
Rows-refl R f [] = tt
Rows-refl R f (a ∷ xs) = (f a, Rows-refl R f xs)

-- The link gives the side of a scheduled row this team.
abbrev pub Assigns : Uuid → Option Uuid → Uuid → Side → Uuid → AdvancementLink → Type 0
Assigns won lost target side team l =
    (l.target_match_id ≡ target)
    × (l.target_side ≡ side)
    × (link_team l.outcome won lost ≡ some team)

-- Some item of the list
abbrev pub Some : {A : Type 0} → (A → Type 0) → List A → Type 0
Some P [] = ⊥
Some P (x ∷ xs) = P x ⊎ Some P xs

-- A side of a row before and after
pub data SideKept (won : Uuid) (lost : Option Uuid) (links : List AdvancementLink) (side : Side)
    (m n : StoredMatch) : Type 0 where
  kept : team_at side n ≡ team_at side m → SideKept won lost links side m n
  filled :
      (team : Uuid)
      → m.status ≡ scheduled
      → team_at side m ≡ none
      → team_at side n ≡ some team
      → Some (Assigns won lost m.id side team) links
      → SideKept won lost links side m n

-- A row keeps all but the empty sides that a link fills, and these only while it is scheduled.
pub record RowKept (won : Uuid) (lost : Option Uuid) (links : List AdvancementLink)
    (m n : StoredMatch) : Type 0 where
  pub id_kept : n.id ≡ m.id
  pub stage_kept : same_stage m n ≡ true
  pub code_kept : n.bracket_code ≡ m.bracket_code
  pub status_kept : n.status ≡ m.status
  pub sides_kept : (side : Side) → SideKept won lost links side m n

pub open_parts :
    (target : Uuid) (side : Side) (m : StoredMatch)
    → is_open target side m ≡ true
    → (m.id ≡ target) × (m.status ≡ scheduled) × (team_at side m ≡ none)
unfolding is_open
open_parts target side m h = (
  ground arith,
  scheduled_status m.status (ground arith),
  null_side (team_at side m) (ground arith),
)
  where
    scheduled_status : (x : StoredStatus) → is_scheduled x ≡ true → x ≡ scheduled
    scheduled_status scheduled e = refl
    scheduled_status cancelled e = cc
    scheduled_status other_status e = cc

    null_side : (x : Option Uuid) → is_null x ≡ true → x ≡ none
    null_side none e = refl
    null_side (some t) e = cc

same_stage_refl : (m : StoredMatch) → same_stage m m ≡ true
same_stage_refl m = ground arith

same_stage_trans :
    (a b c : StoredMatch) → same_stage a b ≡ true → same_stage b c ≡ true → same_stage a c ≡ true
same_stage_trans a b c h k = ground arith

with_team_rest :
    (side : Side) (t : Uuid) (m : StoredMatch)
    → ((with_team side t m).id ≡ m.id)
      × ((same_stage m (with_team side t m) ≡ true)
          × (((with_team side t m).bracket_code ≡ m.bracket_code)
              × ((with_team side t m).status ≡ m.status)))
with_team_rest home t m = (refl, (same_stage_refl m, (refl, refl)))
with_team_rest away t m = (refl, (same_stage_refl m, (refl, refl)))

module _ (won : Uuid) (lost : Option Uuid) where
  RowKept-refl : (links : List AdvancementLink) (m : StoredMatch) → RowKept won lost links m m
  RowKept-refl links m = record {
    id_kept = refl;
    stage_kept = same_stage_refl m;
    code_kept = refl;
    status_kept = refl;
    sides_kept = λ side. kept refl;
  }

  SideKept-trans :
      (l : AdvancementLink) (links : List AdvancementLink) (side : Side) (a b c : StoredMatch)
      → RowKept won lost (l ∷ []) a b
      → SideKept won lost (l ∷ []) side a b
      → SideKept won lost links side b c
      → SideKept won lost (l ∷ links) side a c
  SideKept-trans l links side a b c r (kept e) (kept f) = kept (f ∙ e)
  SideKept-trans l links side a b c r (kept e) (filled team s n f q) =
      filled team (sym r.status_kept ∙ s) (sym e ∙ n) f
        (inr (subst (λ i. Some (Assigns won lost i side team) links) r.id_kept q))
  SideKept-trans l links side a b c r (filled team s n f (inl q)) (kept e) =
      filled team s n (e ∙ f) (inl q)
  SideKept-trans l links side a b c r (filled team s n f (inr q)) (kept e) = absurd q
  SideKept-trans l links side a b c r (filled team s n f q) (filled team' s' n' f' q') = absurd cc

  RowKept-trans :
      (l : AdvancementLink) (links : List AdvancementLink) (a b c : StoredMatch)
      → RowKept won lost (l ∷ []) a b
      → RowKept won lost links b c
      → RowKept won lost (l ∷ links) a c
  RowKept-trans l links a b c r q = record {
    id_kept = q.id_kept ∙ r.id_kept;
    stage_kept = same_stage_trans a b c r.stage_kept q.stage_kept;
    code_kept = q.code_kept ∙ r.code_kept;
    status_kept = q.status_kept ∙ r.status_kept;
    sides_kept =
        λ side. SideKept-trans l links side a b c r (r.sides_kept side) (q.sides_kept side);
  }

  with_team-SideKept :
      (l : AdvancementLink) (target : Uuid) (side asked : Side) (t : Uuid) (m : StoredMatch)
      → (m.status ≡ scheduled) × (team_at side m ≡ none)
      → Assigns won lost m.id side t l
      → SideKept won lost (l ∷ []) asked m (with_team side t m)
  with_team-SideKept l target home home t m o q = filled t o.0 o.1 refl (inl q)
  with_team-SideKept l target home away t m o q = kept refl
  with_team-SideKept l target away home t m o q = kept refl
  with_team-SideKept l target away away t m o q = filled t o.0 o.1 refl (inl q)

  with_team-RowKept :
      (l : AdvancementLink) (t : Uuid) (m : StoredMatch)
      → is_open l.target_match_id l.target_side m ≡ true
      → link_team l.outcome won lost ≡ some t
      → RowKept won lost (l ∷ []) m (with_team l.target_side t m)
  with_team-RowKept l t m o e =
      let (i, st, n) = open_parts l.target_match_id l.target_side m o in
      let (same_id, (same, (code, status))) = with_team_rest l.target_side t m in
      record {
        id_kept = same_id;
        stage_kept = same;
        code_kept = code;
        status_kept = status;
        sides_kept = λ asked.
            with_team-SideKept l l.target_match_id l.target_side asked t m (st, n) (sym i, refl, e);
      }

  pub fill-Rows :
      (l : AdvancementLink) (t : Uuid) (ms : List StoredMatch)
      → link_team l.outcome won lost ≡ some t
      → Rows
          (RowKept won lost (l ∷ []))
          ms
          (update_where (is_open l.target_match_id l.target_side) (with_team l.target_side t) ms)
  fill-Rows l t [] e = tt
  fill-Rows l t (m ∷ ms) e = elim (Bool-cases (is_open l.target_match_id l.target_side m)) [
    | inl o ↦ rw o (with_team-RowKept l t m o e, fill-Rows l t ms e)
    | inr o ↦ rw o (RowKept-refl (l ∷ []) m, fill-Rows l t ms e)
  ]

  -- What a fill that returned did
  pub fill_side-returned :
      (l : AdvancementLink) (ms : List StoredMatch) {next : List StoredMatch}
      → fill_side l.target_match_id l.target_side (link_team l.outcome won lost) ms ≡ ok next
      → (t : Uuid) × (link_team l.outcome won lost ≡ some t)
        × (rowcount (is_open l.target_match_id l.target_side) ms ≡ 1)
        × (next
            ≡ update_where (is_open l.target_match_id l.target_side) (with_team l.target_side t) ms)
  unfolding fill_side
  fill_side-returned l ms h = elim (Option-cases (link_team l.outcome won lost)) [
    | inl e ↦ absurd (not_raised (rw e at h))
    | inr (t, e) ↦
        let past =
          went_past (not (rowcount (is_open l.target_match_id l.target_side) ms == 1))
            target_unavailable
            (ok (
              update_where (is_open l.target_match_id l.target_side) (with_team l.target_side t)
                ms))
            (rw e at h) in
        (
          t,
          e,
          one_row (rowcount (is_open l.target_match_id l.target_side) ms) past.0,
          sym (ok_injective past.1),
        )
  ]
    where
      not_raised : {x : List StoredMatch} → raise no_team ≡ ok x → ⊥
      not_raised e = cc

      one_row : (n : ℕ) → not (n == 1) ≡ false → n ≡ 1
      one_row n e = ground arith

  pub advance_links-Rows :
      (links : List AdvancementLink) (ms : List StoredMatch) {next : List StoredMatch}
      → advance_links won lost links ms ≡ ok next
      → Rows (RowKept won lost links) ms next
  unfolding advance_links
  advance_links-Rows [] ms h =
      subst (Rows (RowKept won lost []) ms) (ok_injective h) (Rows-refl _ (RowKept-refl []) ms)
  advance_links-Rows (l ∷ links) ms h =
      let (next, e, f) =
        went_on (fill_side l.target_match_id l.target_side (link_team l.outcome won lost) ms)
          (λ next. advance_links won lost links next) h in
      let (t, g, one, eq) = fill_side-returned l ms e in
      Rows-trans _ _ _ (RowKept-trans l links) ms next _
        (subst (Rows (RowKept won lost (l ∷ [])) ms) (sym eq) (fill-Rows l t ms g))
        (advance_links-Rows links next f)
