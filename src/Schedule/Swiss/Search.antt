-- ===== src/Schedule/Swiss/Search.antt =====
-- The search as a whole: what it finds is a draw of all the teams it was given.
use bracket_craft.Prelude.{
  ℕ, zero, suc, ◌+◌, ◌≡◌, refl, ap, ◌∙◌, subst, ◌⊎◌, inl, inr, true, List, [], ◌∷◌, arith, ltb,
  ◌==◌, if◌then◌else◌, Bool-cases, all, All, elem, count, Distinct,
}
use bracket_craft.Prelude.Sort.{sort_by-All}
use bracket_craft.Prelude.Teams.{Uuid}
use bracket_craft.Schedule.Swiss.{
  SwissInput, Counts, candidate_le, orientation_options, has_met, candidates_for, others_than,
  SearchOutcome, found, exhausted, limit_reached, after_options, Search, try_options,
  try_candidates, pair_remaining,
}
use bracket_craft.Schedule.Swiss.Sound.{
  IsPairing, orientation_options-All, others_than-Distinct, taken_out, IsSoundFor, found_pairs,
  try_options-IsPairing,
}

-- The outcome of the options of a candidate, or what comes next
after_options-found :
    (r : SearchOutcome) (next : ℕ → SearchOutcome) (pairs : List (Uuid × Uuid)) (m : ℕ)
    → after_options r next ≡ found pairs m
    → (r ≡ found pairs m) ⊎ ((k : ℕ) × (next k ≡ found pairs m))
unfolding after_options
after_options-found (found ps k) next pairs m e = inl e
after_options-found (exhausted k) next pairs m e = inr (k, e)
after_options-found (limit_reached k) next pairs m e = cc

module _ (i : SwissInput) (recurse : Search) (first : Uuid) (others : List Uuid)
    (distinct : Distinct others)
    (sound : (second : Uuid) → IsSoundFor i recurse (others_than second others)) where
  not_found : {k : ℕ} {ps : List (Uuid × Uuid)} {m : ℕ} → limit_reached k ≡ found ps m → ⊥
  not_found e = cc

  all_teams :
      (second : Uuid) {h a : Counts} {ps : List (Uuid × Uuid)}
      → IsPairing i h a (first ∷ second ∷ others_than second others) ps
      → elem second others ≡ true
      → IsPairing i h a (first ∷ others) ps
  all_teams second p e = record {
    once = λ t. p.once t ∙ one_more t (taken_out second others distinct e t);
    fresh = p.fresh;
    allowed = p.allowed;
  }
    where
      one_more :
          (t : Uuid)
          → count t (second ∷ others_than second others) ≡ count t others
          → count t (first ∷ second ∷ others_than second others) ≡ count t (first ∷ others)
      one_more t e = ap (λ n. if t == first then suc n else n) e

  pub try_candidates-IsPairing :
      (candidates : List Uuid) (h a : Counts) (n : ℕ) (pairs : List (Uuid × Uuid)) (m : ℕ)
      → All (λ t. elem t others ≡ true) candidates
      → try_candidates i recurse first others candidates h a n ≡ found pairs m
      → IsPairing i h a (first ∷ others) pairs
  unfolding try_candidates
  try_candidates-IsPairing [] h a n pairs m c e = cc
  try_candidates-IsPairing (second ∷ more) h a n pairs m c e =
      elim (Bool-cases (ltb n i.search_limit)) [
        | inr over ↦ absurd (not_found (rw over at e))
        | inl under ↦ elim (Bool-cases (has_met i first second)) [
          | inl met ↦ try_candidates-IsPairing more h a (n + 1) pairs m c.1 (rw (under, met) at e)
          | inr fresh ↦
              let options = orientation_options-All i first second h a in
              let outcome =
                try_options recurse (others_than second others)
                  (orientation_options i first second h a) h a (n + 1) in
              elim (after_options-found outcome
                (λ k. try_candidates i recurse first others more h a k) pairs m
                (rw (under, fresh) at e)) [
                  | inl here ↦
                      all_teams second
                        (try_options-IsPairing i recurse first second (others_than second others)
                          fresh (sound second) (orientation_options i first second h a) h a (n + 1)
                          pairs m options.0 options.1 here)
                        c.0
                  | inr (k, later) ↦ try_candidates-IsPairing more h a k pairs m c.1 later
                ]
        ]
      ]

pub elem-candidates :
    (i : SwissInput) (first : Uuid) (others : List Uuid)
    → All (λ t. elem t others ≡ true) (candidates_for i first others)
unfolding candidates_for
elem-candidates i first others =
    sort_by-All (candidate_le i first) (λ t. elem t others ≡ true) others
      (members others others (λ t e. e))
  where
    members :
        (all xs : List Uuid)
        → ((t : Uuid) → elem t xs ≡ true → elem t all ≡ true)
        → All (λ t. elem t all ≡ true) xs
    members all [] f = tt
    members all (x ∷ xs) f = (f x (ground arith), members all xs (λ t e. f t (ground arith)))

pub pair_remaining-IsPairing :
    (i : SwissInput) (fuel : ℕ) (teams : List Uuid)
    → Distinct teams
    → IsSoundFor i (pair_remaining i fuel) teams
unfolding pair_remaining
pair_remaining-IsPairing i fuel [] d h a n pairs m e =
    subst (IsPairing i h a []) (found_pairs e)
      (record { once = λ t. refl; fresh = tt; allowed = tt })
pair_remaining-IsPairing i zero (first ∷ others) d h a n pairs m e = cc
pair_remaining-IsPairing i (suc fuel) (first ∷ others) d h a n pairs m e =
    try_candidates-IsPairing i (pair_remaining i fuel) first others d.1
      (λ second.
        pair_remaining-IsPairing i fuel (others_than second others)
          (others_than-Distinct second others d.1))
      (candidates_for i first others) h a n pairs m (elem-candidates i first others) e
