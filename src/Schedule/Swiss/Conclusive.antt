-- ===== src/Schedule/Swiss/Conclusive.antt =====
-- What the search has tried when it ends without a pairing and without reaching its limit.
use bracket_craft.Prelude.{
  ℕ, zero, suc, ◌≤◌, ◌≡◌, refl, sym, ap, ◌∙◌, subst, inl, inr, true, false, not, List, [], ◌∷◌,
  ◌++◌, arith, ◌==◌, ==_iff, Bool-cases, length, All, length-keep, elem, count, Distinct,
  count-eq_zero,
}
use bracket_craft.Prelude.Teams.{
  Uuid, SameTeams, count-append, Distinct-count, elem-eq_false, SameTeams-elem,
}
use bracket_craft.Schedule.Swiss.{
  SwissInput, Counts, add_one, candidate_le, is_allowed, orientation_options, has_met,
  candidates_for, others_than, pair_remaining,
}
use bracket_craft.Schedule.Swiss.Sound.{
  teams_of, IsPairing, count_of-add_one, IsOrientation, others_than-count, others_than-Distinct,
  has_met_comm,
}
use bracket_craft.Schedule.Swiss.Fallback.{elem-All}
use bracket_craft.Schedule.Swiss.Complete.{
  sort_by-All_back, is_option, Ended, HasEnded, try_candidates-Ended,
}

-- A pairing taken apart at the pair of one team
record Extracted (first : Uuid) (pairs : List (Uuid × Uuid)) : Type 1 where
  second : Uuid
  pair : Uuid × Uuid
  rest : List (Uuid × Uuid)
  orientation : IsOrientation first second pair
  same : SameTeams (first ∷ second ∷ teams_of rest) (teams_of pairs)
  holds : (P : Uuid × Uuid → Type 0) → All P pairs → P pair × All P rest

extract_home : (x y : Uuid) (pairs : List (Uuid × Uuid)) → Extracted x ((x, y) ∷ pairs)
extract_home x y pairs = record {
  second = y;
  pair = (x, y);
  rest = pairs;
  orientation = inl refl;
  same = λ t. refl;
  holds = λ P h. h;
}

extract_away : (x y : Uuid) (pairs : List (Uuid × Uuid)) → Extracted y ((x, y) ∷ pairs)
extract_away x y pairs = record {
  second = x;
  pair = (x, y);
  rest = pairs;
  orientation = inr refl;
  same = λ t. ground arith;
  holds = λ P h. h;
}

later_same :
    (t a b x y : Uuid) (rest teams : List Uuid)
    → count t (a ∷ b ∷ rest) ≡ count t teams
    → count t (a ∷ b ∷ x ∷ y ∷ rest) ≡ count t (x ∷ y ∷ teams)
later_same t a b x y rest teams e = ground (arith, e)

extract_later :
    (first x y : Uuid) (pairs : List (Uuid × Uuid))
    → Extracted first pairs
    → Extracted first ((x, y) ∷ pairs)
extract_later first x y pairs later = record {
  second = later.second;
  pair = later.pair;
  rest = (x, y) ∷ later.rest;
  orientation = later.orientation;
  same = λ t.
      later_same t first later.second x y (teams_of later.rest) (teams_of pairs) (later.same t);
  holds = λ P h. let both = later.holds P h.1 in (both.0, (h.0, both.1));
}

elem_later :
    (t x y : Uuid) (ts : List Uuid)
    → (t == x) ≡ false
    → (t == y) ≡ false
    → elem t (x ∷ y ∷ ts) ≡ true
    → elem t ts ≡ true
elem_later t x y ts e f h = ground arith

extract :
    (first : Uuid) (pairs : List (Uuid × Uuid))
    → elem first (teams_of pairs) ≡ true
    → Extracted first pairs
extract first [] e = absurd cc
extract first ((x, y) ∷ pairs) e = elim (Bool-cases (first == x)) [
  | inl q ↦
      subst (λ z. Extracted z ((x, y) ∷ pairs)) (sym ((==_iff first x).0 q))
        (extract_home x y pairs)
  | inr q ↦ elim (Bool-cases (first == y)) [
    | inl r ↦
        subst (λ z. Extracted z ((x, y) ∷ pairs)) (sym ((==_iff first y).0 r))
          (extract_away x y pairs)
    | inr r ↦
        extract_later first x y pairs
          (extract first pairs (elem_later first x y (teams_of pairs) q r e))
  ]
]

allowed_after :
    (i : SwissInput) (h a : Counts) (p : Uuid × Uuid) (rest : List (Uuid × Uuid))
    → elem p.0 (teams_of rest) ≡ false
    → elem p.1 (teams_of rest) ≡ false
    → All (λ q. is_allowed i h a q ≡ true) rest
    → All (λ q. is_allowed i (add_one p.0 h) (add_one p.1 a) q ≡ true) rest
allowed_after i h a p [] e f k = tt
allowed_after i h a p ((x, y) ∷ rest) e f k = (
  rw (count_of-add_one x p.0 h, count_of-add_one y p.1 a) (ground arith),
  allowed_after i h a p rest (ground arith) (ground arith) k.1,
)

not_twice :
    (t : Uuid) (xs teams rest : List Uuid)
    → Distinct teams
    → SameTeams (xs ++ rest) teams
    → elem t xs ≡ true
    → elem t rest ≡ false
not_twice t xs teams rest d same e = ground (
  arith,
  Distinct-count t teams d,
  same t,
  count-append t xs rest,
  elem-eq_false t xs,
  elem-eq_false t rest,
)

pub others_left :
    (t first second : Uuid) (others rest : List Uuid)
    → Distinct (first ∷ others)
    → elem second others ≡ true
    → count t (first ∷ second ∷ rest) ≡ count t (first ∷ others)
    → count t rest ≡ count t (others_than second others)
others_left t first second others rest d e h =
    ground
      (arith, h, others_than-count t second others, Distinct-count t others d.1, ==_iff t second)

module _ (i : SwissInput) (h a : Counts) (first : Uuid) (others : List Uuid)
    (distinct : Distinct (first ∷ others)) (pairs : List (Uuid × Uuid))
    (pairing : IsPairing i h a (first ∷ others) pairs) (x : Extracted first pairs) where
  whole : SameTeams (first ∷ x.second ∷ teams_of x.rest) (first ∷ others)
  whole t = x.same t ∙ pairing.once t

  second_is_other : elem x.second others ≡ true
  second_is_other = ground (
    arith,
    whole x.second,
    count-eq_zero x.second others,
    count-eq_zero first others,
    distinct.0,
    ==_iff x.second first,
  )

  used : (t : Uuid) → elem t (first ∷ x.second ∷ []) ≡ true → elem t (teams_of x.rest) ≡ false
  used t e = not_twice t (first ∷ x.second ∷ []) (first ∷ others) (teams_of x.rest) distinct whole e

  home_of : IsOrientation first x.second x.pair → elem x.pair.0 (first ∷ x.second ∷ []) ≡ true
  home_of (inl e) = ground (arith, ap (λ q. q.0) e)
  home_of (inr e) = ground (arith, ap (λ q. q.0) e)

  away_of : IsOrientation first x.second x.pair → elem x.pair.1 (first ∷ x.second ∷ []) ≡ true
  away_of (inl e) = ground (arith, ap (λ q. q.1) e)
  away_of (inr e) = ground (arith, ap (λ q. q.1) e)

  rest-IsPairing :
      IsPairing i (add_one x.pair.0 h) (add_one x.pair.1 a) (others_than x.second others) x.rest
  rest-IsPairing = record {
    once = λ t.
        others_left t first x.second others (teams_of x.rest) distinct second_is_other (whole t);
    fresh = (x.holds (λ q. has_met i q.0 q.1 ≡ false) pairing.fresh).1;
    allowed =
        allowed_after i h a x.pair x.rest (used x.pair.0 (home_of x.orientation))
          (used x.pair.1 (away_of x.orientation))
          (x.holds (λ q. is_allowed i h a q ≡ true) pairing.allowed).1;
  }

fresh_pair :
    (i : SwissInput) (first second : Uuid) (p : Uuid × Uuid)
    → IsOrientation first second p
    → has_met i p.0 p.1 ≡ false
    → has_met i first second ≡ false
fresh_pair i first second p (inl e) h = subst (λ q. has_met i q.0 q.1 ≡ false) e h
fresh_pair i first second p (inr e) h =
    has_met_comm first second i.prior_pairs ∙ subst (λ q. has_met i q.0 q.1 ≡ false) e h

-- The whole search
pub pair_remaining_conclusive :
    (i : SwissInput) (fuel : ℕ) (teams : List Uuid) (h a : Counts) (n : ℕ)
    (pairs : List (Uuid × Uuid))
    → Distinct teams
    → length teams ≤ fuel
    → IsPairing i h a teams pairs
    → Ended (pair_remaining i fuel teams h a n)
    → ⊥
unfolding pair_remaining
pair_remaining_conclusive i fuel [] h a n pairs d l p (m, e) = absurd cc
pair_remaining_conclusive i zero (first ∷ others) h a n pairs d l p e = omega (arith, l)
pair_remaining_conclusive i (suc fuel) (first ∷ others) h a n pairs d l p e =
    let x = extract first pairs (first_there others) in
    let other = second_is_other i h a first others d pairs p x in
    let candidates =
      sort_by-All_back (candidate_le i first)
        (λ second.
          has_met i first second ≡ false
          → All (HasEnded (pair_remaining i fuel) h a (others_than second others))
              (orientation_options i first second h a))
        others
        (try_candidates-Ended (pair_remaining i fuel) h a i first others
          (candidates_for i first others) n e) in
    let (k, ended) =
      is_option i (HasEnded (pair_remaining i fuel) h a (others_than x.second others)) first
        x.second h a x.pair x.orientation (x.holds (λ q. is_allowed i h a q ≡ true) p.allowed).0
        (elem-All
          (λ second.
            has_met i first second ≡ false
            → All (HasEnded (pair_remaining i fuel) h a (others_than second others))
                (orientation_options i first second h a))
          x.second others candidates other
          (fresh_pair i first x.second x.pair x.orientation
            (x.holds (λ q. has_met i q.0 q.1 ≡ false) p.fresh).0)) in
    pair_remaining_conclusive i fuel (others_than x.second others) (add_one x.pair.0 h)
      (add_one x.pair.1 a) k x.rest (others_than-Distinct x.second others d.1)
      (fewer (length-keep (λ t. not (t == x.second)) others))
      (rest-IsPairing i h a first others d pairs p x) ended
  where
    fewer : {m : ℕ} → m ≤ length others → m ≤ fuel
    fewer h = omega (arith, h, l)

    first_there : (xs : List Uuid) → elem first (teams_of pairs) ≡ true
    first_there xs = SameTeams-elem first (teams_of pairs) (first ∷ others) p.once ∙ ground arith
