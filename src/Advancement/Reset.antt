-- ===== src/Advancement/Reset.antt =====
-- The second grand final: when it is activated, and that it is activated once.
use bracket_craft.Prelude.{
  ℕ, ◌≡◌, refl, sym, ap, ◌∙◌, subst, ◌≢◌, ◌⊎◌, inl, inr, Bool, true, false, ◌&&◌, not, Option, none,
  some, List, [], ◌∷◌, ◌++◌, arith, ◌==◌, Bool-cases, keep, elem, Distinct,
}
use bracket_craft.Prelude.Errors.{ok, ◌>>◌, raise_if, went_on, went_past, ok_injective}
use bracket_craft.Prelude.Teams.{Uuid}
use bracket_craft.Advancement.{
  scheduled, StoredMatch, Store, no_reset, reset_unavailable, is_grand_final, is_cancelled,
  same_side, update_where, rowcount, is_stage_reset, is_dormant, both_teams, one_or_none, activated,
  with_reset, activate_row, activate_reset, activate_double_elimination_reset,
}
use bracket_craft.Advancement.Locks.{match_ids}
use bracket_craft.Advancement.Fills.{Rows}
use bracket_craft.Advancement.Once.{Raises}

abbrev pub dormant_reset : StoredMatch → StoredMatch → Bool
dormant_reset m r = is_stage_reset m r && is_cancelled r.status

abbrev pub dormant_resets : StoredMatch → Store → List StoredMatch
dormant_resets m s = keep (dormant_reset m) s.matches

-- A row before and after the activation: the reset of the stage gets both teams of the grand final.
pub data RowActivated (m reset : StoredMatch) (r n : StoredMatch) : Type 0 where
  untouched : r.id ≢ reset.id → n ≡ r → RowActivated m reset r n
  played_again :
      r ≡ reset
      → n.id ≡ r.id
      → n.status ≡ scheduled
      → n.home_team_id ≡ m.home_team_id
      → n.away_team_id ≡ m.away_team_id
      → RowActivated m reset r n

-- The effect of the activation on the store
pub record IsActivated (m : StoredMatch) (s next : Store) : Type 0 where
  pub reset : StoredMatch
  pub only_reset : dormant_resets m s ≡ reset ∷ []
  pub rows : Rows (RowActivated m reset) s.matches next.matches
  pub none_left : dormant_resets m next ≡ []
  pub links_kept : next.links ≡ s.links
  pub announced :
      next.outbox ≡ s.outbox ++ record { match_id = reset.id; tournament_id = m.tournament_id } ∷ []

one_or_none-ok : (rs : List StoredMatch) {r : StoredMatch} → one_or_none rs ≡ ok r → rs ≡ r ∷ []
one_or_none-ok [] h = cc
one_or_none-ok (r ∷ []) h = cc
one_or_none-ok (r ∷ q ∷ more) h = cc

both_teams-ok :
    (x y : Option Uuid) {t : Uuid × Uuid} → both_teams x y ≡ ok t → (x ≡ some t.0) × (y ≡ some t.1)
both_teams-ok none y h = cc
both_teams-ok (some a) none h = cc
both_teams-ok (some a) (some b) h =
    let e = ok_injective h in (ap (λ t. some t.0) e, ap (λ t. some t.1) e)

-- What an activation that returned found and did
record Found (m : StoredMatch) (s next : Store) : Type 0 where
  reset : StoredMatch
  teams : Uuid × Uuid
  only : dormant_resets m s ≡ reset ∷ []
  first : m.home_team_id ≡ some teams.0
  second : m.away_team_id ≡ some teams.1
  one : rowcount (is_dormant reset.id) s.matches ≡ 1
  stored : with_reset m reset.id teams s ≡ next

activate_reset-Found :
    (m : StoredMatch) (s : Store) {next : Store} → activate_reset m s ≡ ok next → Found m s next
unfolding activate_reset activate_row
activate_reset-Found m s h =
    let (r, e, f) = went_on (one_or_none (dormant_resets m s)) (λ r. activate_row m s r) h in
    let (teams, g, k) =
      went_on (both_teams m.home_team_id m.away_team_id)
        (λ teams.
          raise_if (not (rowcount (is_dormant r.id) s.matches == 1)) reset_unavailable
          >> ok (with_reset m r.id teams s))
        f in
    let past =
      went_past (not (rowcount (is_dormant r.id) s.matches == 1)) reset_unavailable
        (ok (with_reset m r.id teams s)) k in
    let sides = both_teams-ok m.home_team_id m.away_team_id g in
    record {
      reset = r;
      teams = teams;
      only = one_or_none-ok (dormant_resets m s) e;
      first = sides.0;
      second = sides.1;
      one = one_row (rowcount (is_dormant r.id) s.matches) past.0;
      stored = ok_injective past.1;
    }
  where
    one_row : (n : ℕ) → not (n == 1) ≡ false → n ≡ 1
    one_row n e = ground arith

keep_found :
    {A : Type 0} (p : A → Bool) (x : A) (xs : List A) {r : A}
    → keep p (x ∷ xs) ≡ r ∷ []
    → ((p x ≡ true) × (x ≡ r) × (keep p xs ≡ [])) ⊎ ((p x ≡ false) × (keep p xs ≡ r ∷ []))
keep_found p x xs h = elim (Bool-cases (p x)) [
  | inl e ↦ let here = head_tail (rw e at h) in inl (e, here.0, here.1)
  | inr e ↦ inr (e, rw e at h)
]
  where
    head_tail :
        {B : Type 0} {a b : B} {as' bs' : List B} → a ∷ as' ≡ b ∷ bs' → (a ≡ b) × (as' ≡ bs')
    head_tail q = (cc, cc)

-- In a store without repeated identifiers: `r` is the only row with `p`, and `f` changes one row,
-- which has the identifier of `r`.
module _ (p d : StoredMatch → Bool) (f : StoredMatch → StoredMatch) (r : StoredMatch)
    (own : (x : StoredMatch) → d x ≡ true → x.id ≡ r.id)
    (ends : (x : StoredMatch) → d x ≡ true → p (f x) ≡ false) where
  no_d : (ms : List StoredMatch) → elem r.id (match_ids ms) ≡ false → rowcount d ms ≡ 0
  no_d [] e = refl
  no_d (x ∷ ms) e = ground (arith, own x, no_d ms)

  unchanged : (ms : List StoredMatch) → elem r.id (match_ids ms) ≡ false → update_where d f ms ≡ ms
  unchanged [] e = refl
  unchanged (x ∷ ms) e = ground (arith, own x, unchanged ms)

  found_elem : (ms : List StoredMatch) → keep p ms ≡ r ∷ [] → elem r.id (match_ids ms) ≡ true
  found_elem [] h = cc
  found_elem (x ∷ ms) h = elim (keep_found p x ms h) [
    | inl (e, here, none_more) ↦ rw here (ground arith)
    | inr (e, later) ↦ ground (arith, found_elem ms later)
  ]

  module _ (R : StoredMatch → StoredMatch → Type 0)
      (stays : (x : StoredMatch) → x.id ≢ r.id → R x x) (moves : d r ≡ true → R r (f r)) where
    others_stay : (ms : List StoredMatch) → elem r.id (match_ids ms) ≡ false → Rows R ms ms
    others_stay [] e = tt
    others_stay (x ∷ ms) e = (stays x (λ q. ground arith), others_stay ms (ground arith))

    one_changed :
        (ms : List StoredMatch)
        → Distinct (match_ids ms)
        → keep p ms ≡ r ∷ []
        → rowcount d ms ≡ 1
        → Rows R ms (update_where d f ms) × (keep p (update_where d f ms) ≡ [])
    one_changed [] u h one = cc
    one_changed (x ∷ ms) u h one = elim (keep_found p x ms h) [
      | inl (e, here, none_more) ↦
          let gone : elem r.id (match_ids ms) ≡ false =
            subst (λ y. elem y.id (match_ids ms) ≡ false) here u.0 in
          let changed : d x ≡ true = ground (arith, no_d ms gone, one) in
          rw (changed, unchanged ms gone, ends x changed)
            (
              (
                subst (λ y. R y (f y)) (sym here) (moves (subst (λ y. d y ≡ true) here changed)),
                others_stay ms gone,
              ),
              none_more,
            )
      | inr (e, later) ↦
          let other : d x ≡ false = ground (arith, own x, found_elem ms later, u.0) in
          let (rows, none_left) = one_changed ms u.1 later (rw other at one) in
          rw (other, e) ((stays x (λ q. ground (arith, found_elem ms later, u.0)), rows), none_left)
    ]

activate_reset-IsActivated :
    (m : StoredMatch) (s : Store) {next : Store}
    → Distinct (match_ids s.matches)
    → activate_reset m s ≡ ok next
    → IsActivated m s next
unfolding is_dormant
activate_reset-IsActivated m s u h =
    let found = activate_reset-Found m s h in
    let r = found.reset in
    let (rows, none_left) =
      one_changed (dormant_reset m) (is_dormant r.id) (activated found.teams.0 found.teams.1) r
        (λ x e. ground arith) (λ x e. ground arith) (RowActivated m r) (λ x e. untouched e refl)
        (λ e. played_again refl refl refl (sym found.first) (sym found.second)) s.matches u
        found.only found.one in
    subst (IsActivated m s) found.stored (record {
      reset = r;
      only_reset = found.only;
      rows = rows;
      none_left = none_left;
      links_kept = refl;
      announced = refl;
    })

activate_reset-twice :
    (m : StoredMatch) (s : Store) → dormant_resets m s ≡ [] → Raises (activate_reset m s)
unfolding activate_reset
activate_reset-twice m s e = rw e (no_reset, refl)

activation_runs :
    (m : StoredMatch) (champion : Option Uuid) (s : Store)
    → is_grand_final m.bracket_code ≡ true
    → same_side champion m.away_team_id ≡ true
    → activate_double_elimination_reset m champion s ≡ activate_reset m s
unfolding activate_double_elimination_reset
activation_runs m champion s g w = rw (g, w)

-- When the away side wins the first grand final and the activation returns, in a store without
-- repeated identifiers, there was exactly one cancelled reset in the stage; it becomes a scheduled
-- match of the same two teams, every other match stays as it was, no cancelled reset is left, and one
-- message is added. A second activation then raises.
pub activate_double_elimination_reset_once :
    (m : StoredMatch) (champion : Option Uuid) (s : Store) {next : Store}
    → is_grand_final m.bracket_code ≡ true
    → same_side champion m.away_team_id ≡ true
    → Distinct (match_ids s.matches)
    → activate_double_elimination_reset m champion s ≡ ok next
    → IsActivated m s next × Raises (activate_double_elimination_reset m champion next)
activate_double_elimination_reset_once m champion s {next} g w u h =
    let effect = activate_reset-IsActivated m s u (sym (activation_runs m champion s g w) ∙ h) in
    (
      effect,
      rw (activation_runs m champion next g w) (activate_reset-twice m next effect.none_left),
    )
