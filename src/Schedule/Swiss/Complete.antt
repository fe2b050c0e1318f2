-- ===== src/Schedule/Swiss/Complete.antt =====
-- A search that ends without a pairing has seen them all: there is none.
use bracket_craft.Prelude.{
  ℕ, ◌+◌, ◌≡◌, refl, sym, ◌∙◌, subst, inl, inr, Bool, true, false, List, [], ◌∷◌, ltb, Bool-cases,
  keep, all, All,
}
use bracket_craft.Prelude.Sort.{insort, sort_by}
use bracket_craft.Prelude.Teams.{Uuid}
use bracket_craft.Schedule.Swiss.{
  SwissInput, Counts, add_one, orientation_le, is_allowed, orientation_options, has_met,
  others_than, SearchOutcome, found, exhausted, limit_reached, after_result, after_options, Search,
  try_options, try_candidates,
}
use bracket_craft.Schedule.Swiss.Sound.{IsOrientation}

insort-All_back :
    {A : Type 0} (le : A → A → Bool) (P : A → Type 0) (x : A) (xs : List A)
    → All P (insort le x xs)
    → P x × All P xs
unfolding insort
insort-All_back le P x [] h = h
insort-All_back le P x (y ∷ ys) h = elim (Bool-cases (le x y)) [
  | inl e ↦ rw e at h
  | inr e ↦
      let h' : P y × All P (insort le x ys) = rw e at h in
      let (px, pys) = insort-All_back le P x ys h'.1 in (px, (h'.0, pys))
]

pub sort_by-All_back :
    {A : Type 0} (le : A → A → Bool) (P : A → Type 0) (xs : List A)
    → All P (sort_by le xs)
    → All P xs
unfolding sort_by
sort_by-All_back le P [] h = tt
sort_by-All_back le P (x ∷ xs) h =
    let (px, rest) = insort-All_back le P x (sort_by le xs) h in (px, sort_by-All_back le P xs rest)

keep-All_back :
    {A : Type 0} (p : A → Bool) (P : A → Type 0) (xs : List A)
    → All P (keep p xs)
    → All (λ x. p x ≡ true → P x) xs
keep-All_back p P [] h = tt
keep-All_back p P (x ∷ xs) h = elim (Bool-cases (p x)) [
  | inl e ↦ let h' : P x × All P (keep p xs) = rw e at h in (λ q. h'.0, keep-All_back p P xs h'.1)
  | inr e ↦ (λ q. absurd (true_false (sym q ∙ e)), keep-All_back p P xs (rw e at h))
]
  where
    true_false : true ≡ false → ⊥
    true_false q = cc

-- An allowed orientation is among the options.
pub is_option :
    (i : SwissInput) (P : Uuid × Uuid → Type 0) (first second : Uuid) (h a : Counts)
    (p : Uuid × Uuid)
    → IsOrientation first second p
    → is_allowed i h a p ≡ true
    → All P (orientation_options i first second h a)
    → P p
unfolding orientation_options
is_option i P first second h a p o k all = by_side o (
    sort_by-All_back (orientation_le i h a) (λ q. is_allowed i h a q ≡ true → P q)
      ((first, second) ∷ (second, first) ∷ [])
      (keep-All_back (is_allowed i h a) P
        (sort_by (orientation_le i h a) ((first, second) ∷ (second, first) ∷ [])) all))
  where
    by_side :
        IsOrientation first second p
        → All (λ q. is_allowed i h a q ≡ true → P q) ((first, second) ∷ (second, first) ∷ [])
        → P p
    by_side (inl e) both = subst P (sym e) (both.0 (subst (λ q. is_allowed i h a q ≡ true) e k))
    by_side (inr e) both = subst P (sym e) (both.1.0 (subst (λ q. is_allowed i h a q ≡ true) e k))

-- A call that ended without a pairing
abbrev pub Ended : SearchOutcome → Type 0
Ended r = (m : ℕ) × (r ≡ exhausted m)

pub after_result-Ended :
    (p : Uuid × Uuid) (r : SearchOutcome) (next : ℕ → SearchOutcome)
    → Ended (after_result p r next)
    → Ended r × ((k : ℕ) × Ended (next k))
unfolding after_result
after_result-Ended p (found ps k) next (m, e) = cc
after_result-Ended p (exhausted k) next e = ((k, refl), (k, e))
after_result-Ended p (limit_reached k) next (m, e) = cc

after_options-Ended :
    (r : SearchOutcome) (next : ℕ → SearchOutcome)
    → Ended (after_options r next)
    → Ended r × ((k : ℕ) × Ended (next k))
unfolding after_options
after_options-Ended (found ps k) next (m, e) = cc
after_options-Ended (exhausted k) next e = ((k, refl), (k, e))
after_options-Ended (limit_reached k) next (m, e) = cc

module _ (recurse : Search) (h a : Counts) where
  -- The call for an orientation ended, for some number of evaluations before it.
  abbrev pub HasEnded : List Uuid → Uuid × Uuid → Type 0
  HasEnded rest p = (k : ℕ) × Ended (recurse rest (add_one p.0 h) (add_one p.1 a) k)

  try_options-Ended :
      (rest : List Uuid) (options : List (Uuid × Uuid)) (n : ℕ)
      → Ended (try_options recurse rest options h a n)
      → All (HasEnded rest) options
  unfolding try_options
  try_options-Ended rest [] n e = tt
  try_options-Ended rest (p ∷ options) n e =
      let (here, (k, later)) =
        after_result-Ended p (recurse rest (add_one p.0 h) (add_one p.1 a) n)
          (λ m. try_options recurse rest options h a m) e in
      ((n, here), try_options-Ended rest options k later)

  pub try_candidates-Ended :
      (i : SwissInput) (first : Uuid) (others candidates : List Uuid) (n : ℕ)
      → Ended (try_candidates i recurse first others candidates h a n)
      → All
          (λ second.
            has_met i first second ≡ false
            → All (HasEnded (others_than second others)) (orientation_options i first second h a))
          candidates
  unfolding try_candidates
  try_candidates-Ended i first others [] n e = tt
  try_candidates-Ended i first others (second ∷ more) n e =
      elim (Bool-cases (ltb n i.search_limit)) [
        | inr over ↦ absurd (not_ended (rw over at e))
        | inl under ↦ elim (Bool-cases (has_met i first second)) [
          | inl met ↦ (
            λ q. absurd (true_false (sym met ∙ q)),
            try_candidates-Ended i first others more (n + 1) (rw (under, met) at e),
          )
          | inr fresh ↦
              let (here, (k, later)) =
                after_options-Ended
                  (try_options recurse (others_than second others)
                    (orientation_options i first second h a) h a (n + 1))
                  (λ m. try_candidates i recurse first others more h a m)
                  (rw (under, fresh) at e) in
              (
                λ q.
                    try_options-Ended (others_than second others)
                      (orientation_options i first second h a) (n + 1) here,
                try_candidates-Ended i first others more k later,
              )
        ]
      ]
    where
      true_false : true ≡ false → ⊥
      true_false q = cc

      not_ended : {j : ℕ} → Ended (limit_reached j) → ⊥
      not_ended (m, q) = cc
