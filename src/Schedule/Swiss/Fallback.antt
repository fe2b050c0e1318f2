-- ===== src/Schedule/Swiss/Fallback.antt =====
-- The fallback: what it pairs is a draw of all the teams it was given.
use bracket_craft.Prelude.{
  ℕ, zero, suc, ◌+◌, ◌≡◌, refl, sym, ◌∙◌, subst, ◌⊎◌, inl, inr, Bool, true, false, ◌&&◌, not,
  Option, none, List, [], ◌∷◌, arith, ltb, ◌==◌, ==_iff, Bool-cases, keep, All, elem, Distinct,
}
use bracket_craft.Prelude.Teams.{Uuid, SameTeams, count-keep, Distinct-count}
use bracket_craft.Schedule.Swiss.{
  SwissInput, Counts, add_one, is_allowed, orientation_options, has_met, candidates_for, exhausted,
}
use bracket_craft.Schedule.Swiss.Sound.{IsPairing, IsOrientation, orientation_options-All, add_pair}
use bracket_craft.Schedule.Swiss.Search.{elem-candidates}
use bracket_craft.Schedule.Swiss.Draw.{
  Pick, picked, nobody, first_option, Attempt, paired, unpaired, stopped, prepend, pick_candidate,
  after_pick, greedy,
}

elem-keep : (p : Uuid → Bool) (t : Uuid) (xs : List Uuid) → elem t (keep p xs) ≡ (elem t xs && p t)
elem-keep p t [] = refl
elem-keep p t (x ∷ xs) = elim (Bool-cases (t == x)) [
  | inl e ↦ rw (← (==_iff t x).0 e) (ground (arith, elem-keep p t xs))
  | inr e ↦ ground (arith, elem-keep p t xs)
]

keep-Distinct : (p : Uuid → Bool) (xs : List Uuid) → Distinct xs → Distinct (keep p xs)
keep-Distinct p [] d = tt
keep-Distinct p (x ∷ xs) d = elim (Bool-cases (p x)) [
  | inl e ↦ rw e (elem-keep p x xs ∙ rw d.0 refl, keep-Distinct p xs d.1)
  | inr e ↦ rw e (keep-Distinct p xs d.1)
]

-- The teams that a round of the fallback leaves
abbrev two_out : Uuid → Uuid → List Uuid → List Uuid
two_out first second = keep (λ t. not (t == first) && not (t == second))

two_taken_out :
    (first second : Uuid) (others : List Uuid)
    → Distinct (first ∷ others)
    → elem second others ≡ true
    → SameTeams (first ∷ second ∷ two_out first second (first ∷ others)) (first ∷ others)
two_taken_out first second others d e t = ground (
  arith,
  count-keep (λ t. not (t == first) && not (t == second)) t (first ∷ others),
  Distinct-count t others d.1,
  ==_iff t first,
  ==_iff t second,
  d.0,
)

-- A candidate that the fallback takes
record IsPick (i : SwissInput) (h a : Counts) (first : Uuid) (candidates : List Uuid)
    (second : Uuid) (pair : Uuid × Uuid) : Type 0 where
  candidate : elem second candidates ≡ true
  fresh : has_met i first second ≡ false
  orientation : IsOrientation first second pair
  allowed : is_allowed i h a pair ≡ true

picked_parts :
    {t s : Uuid} {q p : Uuid × Uuid} {n m : ℕ} → picked t q n ≡ picked s p m → (t ≡ s) × (q ≡ p)
picked_parts e = (cc, cc)

module _ (i : SwissInput) (h a : Counts) (first : Uuid) where
  first_option-picked :
      (second : Uuid) (options : List (Uuid × Uuid)) (n : ℕ) (next : Pick) (s : Uuid)
      (p : Uuid × Uuid) (m : ℕ)
      → All (IsOrientation first second) options
      → All (λ p. is_allowed i h a p ≡ true) options
      → first_option second options n next ≡ picked s p m
      → ((second ≡ s) × (IsOrientation first s p) × (is_allowed i h a p ≡ true))
        ⊎ (next ≡ picked s p m)
  unfolding first_option
  first_option-picked second [] n next s p m o k e = inr e
  first_option-picked second (q ∷ options) n next s p m o k e =
      let (same, pair) = picked_parts e in
      inl (
        same,
        subst (λ t. IsOrientation first t p) same (subst (IsOrientation first second) pair o.0),
        subst (λ r. is_allowed i h a r ≡ true) pair k.0,
      )

  pick_candidate-IsPick :
      (candidates : List Uuid) (n : ℕ) (s : Uuid) (p : Uuid × Uuid) (m : ℕ)
      → pick_candidate i first candidates h a n ≡ picked s p m
      → IsPick i h a first candidates s p
  unfolding pick_candidate
  pick_candidate-IsPick [] n s p m e = cc
  pick_candidate-IsPick (second ∷ more) n s p m e = elim (Bool-cases (ltb n i.total_limit)) [
    | inr over ↦ absurd (not_picked (rw over at e))
    | inl under ↦ elim (Bool-cases (has_met i first second)) [
      | inl met ↦ later (pick_candidate-IsPick more (n + 1) s p m (rw (under, met) at e))
      | inr fresh ↦
          let options = orientation_options-All i first second h a in
          elim (first_option-picked second (orientation_options i first second h a) (n + 1)
            (pick_candidate i first more h a (n + 1)) s p m options.0 options.1
            (rw (under, fresh) at e)) [
              | inl (same, o, k) ↦ record {
                candidate = ground (arith, same);
                fresh = subst (λ t. has_met i first t ≡ false) same fresh;
                orientation = o;
                allowed = k;
              }
              | inr e' ↦ later (pick_candidate-IsPick more (n + 1) s p m e')
            ]
    ]
  ]
    where
      not_picked : {k : ℕ} → nobody k ≡ picked s p m → ⊥
      not_picked e = cc

      later : IsPick i h a first more s p → IsPick i h a first (second ∷ more) s p
      later q = record {
        candidate = ground (arith, q.candidate);
        fresh = q.fresh;
        orientation = q.orientation;
        allowed = q.allowed;
      }

pub elem-All : (P : Uuid → Type 0) (t : Uuid) (xs : List Uuid) → All P xs → elem t xs ≡ true → P t
elem-All P t [] h e = cc
elem-All P t (x ∷ xs) h e = elim (Bool-cases (t == x)) [
  | inl q ↦ subst P (sym ((==_iff t x).0 q)) h.0
  | inr q ↦ elem-All P t xs h.1 (ground arith)
]

-- A fallback that is sound for the teams that are left
abbrev pub IsSoundGreedy :
    SwissInput → (List Uuid → Counts → Counts → ℕ → Attempt) → List Uuid → Type 0
IsSoundGreedy i recurse teams =
    (h a : Counts) (n : ℕ) (pairs : List (Uuid × Uuid)) (bye : Option Uuid) (m : ℕ)
    → recurse teams h a n ≡ paired pairs bye m
    → IsPairing i h a teams pairs × (bye ≡ none)

prepend-paired :
    (p : Uuid × Uuid) (r : Attempt) (pairs : List (Uuid × Uuid)) (bye : Option Uuid) (m : ℕ)
    → prepend p r ≡ paired pairs bye m
    → (ps : List (Uuid × Uuid)) × (r ≡ paired ps bye m) × (p ∷ ps ≡ pairs)
unfolding prepend
prepend-paired p (paired ps b k) pairs bye m e = (ps, cc, cc)
prepend-paired p (unpaired k) pairs bye m e = cc
prepend-paired p (stopped k) pairs bye m e = cc

module _ (i : SwissInput) (recurse : List Uuid → Counts → Counts → ℕ → Attempt) (first : Uuid)
    (others : List Uuid) (distinct : Distinct (first ∷ others))
    (sound : (second : Uuid)
      → IsSoundGreedy i recurse (two_out first second (first ∷ others))) where
  after_pick-IsPairing :
      (h a : Counts) (candidates : List Uuid) (pick : Pick) (pairs : List (Uuid × Uuid))
      (bye : Option Uuid) (m : ℕ)
      → All (λ t. elem t others ≡ true) candidates
      → ((s : Uuid) (p : Uuid × Uuid) (k : ℕ)
          → pick ≡ picked s p k
          → IsPick i h a first candidates s p)
      → after_pick i recurse first others h a pick ≡ paired pairs bye m
      → IsPairing i h a (first ∷ others) pairs × (bye ≡ none)
  unfolding after_pick
  after_pick-IsPairing h a candidates (nobody k) pairs bye m c good e = cc
  after_pick-IsPairing h a candidates (picked second p k) pairs bye m c good e =
      let rest = two_out first second (first ∷ others) in
      let q = good second p k refl in
      let (ps, f, g) =
        prepend-paired p (recurse rest (add_one p.0 h) (add_one p.1 a) k) pairs bye m e in
      let (pairing, no_bye) = sound second (add_one p.0 h) (add_one p.1 a) k ps bye m f in
      let whole =
        add_pair i (λ teams h a n. exhausted n) first second rest q.fresh
          (λ h a n ps m e. absurd cc) h a p ps q.orientation q.allowed pairing in
      let member = elem-All (λ t. elem t others ≡ true) second candidates c q.candidate in
      (
        subst (IsPairing i h a (first ∷ others)) g (record {
          once = λ t. whole.once t ∙ two_taken_out first second others distinct member t;
          fresh = whole.fresh;
          allowed = whole.allowed;
        }),
        no_bye,
      )

pub greedy-IsPairing :
    (i : SwissInput) (fuel : ℕ) (teams : List Uuid)
    → Distinct teams
    → IsSoundGreedy i (greedy i fuel) teams
unfolding greedy
greedy-IsPairing i fuel [] d h a n pairs bye m e =
    let none_paired : [] ≡ pairs = cc in
    (
      subst (IsPairing i h a []) none_paired
          (record { once = λ t. refl; fresh = tt; allowed = tt }),
      cc,
    )
greedy-IsPairing i fuel (first ∷ []) d h a n pairs bye m e = cc
greedy-IsPairing i zero (first ∷ second ∷ others) d h a n pairs bye m e = cc
greedy-IsPairing i (suc fuel) (first ∷ second ∷ others) d h a n pairs bye m e =
    after_pick-IsPairing i (greedy i fuel) first (second ∷ others) d
      (λ t.
        greedy-IsPairing i fuel (two_out first t (first ∷ second ∷ others))
          (keep-Distinct (λ x. not (x == first) && not (x == t)) (first ∷ second ∷ others) d))
      h a (candidates_for i first (second ∷ others))
      (pick_candidate i first (candidates_for i first (second ∷ others)) h a n) pairs bye m
      (elem-candidates i first (second ∷ others))
      (λ s p k.
        pick_candidate-IsPick i h a first (candidates_for i first (second ∷ others)) n s p k)
      e
