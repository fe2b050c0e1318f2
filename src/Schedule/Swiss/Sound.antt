-- ===== src/Schedule/Swiss/Sound.antt =====
-- Every pairing that the search finds is a draw: each team once, no repeated match, no side over its
-- target.
use bracket_craft.Prelude.{
  ℕ, ◌+◌, ◌≤◌, ◌≡◌, refl, sym, ap, ◌∙◌, subst, ◌⊎◌, inl, inr, Bool, true, false, ◌&&◌, ◌||◌, not,
  Option, none, some, List, [], ◌∷◌, arith, ◌==◌, if◌then◌else◌, ==_iff, Bool-cases, keep, any, All,
  All-mono, elem, count, Distinct,
}
use bracket_craft.Prelude.Dict.{lookup_or-insert}
use bracket_craft.Prelude.Sort.{sort_by, sort_by-All}
use bracket_craft.Prelude.Teams.{Uuid, SameTeams, count-keep, Distinct-count}
use bracket_craft.Schedule.Swiss.{
  SwissInput, Counts, count_of, add_one, below, orientation_le, is_allowed, orientation_options,
  has_met, others_than, SearchOutcome, found, exhausted, limit_reached, after_result, Search,
  try_options,
}

abbrev pub teams_of : List (Uuid × Uuid) → List Uuid
teams_of [] = []
teams_of (pair ∷ pairs) = pair.0 ∷ pair.1 ∷ teams_of pairs

-- The pairs of these teams: each team once, in a match that has not been played, and with its side
-- below the target.
pub record IsPairing (i : SwissInput) (h a : Counts) (teams : List Uuid)
    (pairs : List (Uuid × Uuid)) : Type 0 where
  pub once : SameTeams (teams_of pairs) teams
  pub fresh : All (λ p. has_met i p.0 p.1 ≡ false) pairs
  pub allowed : All (λ p. is_allowed i h a p ≡ true) pairs

pub count_of-add_one :
    (t x : Uuid) (c : Counts)
    → count_of t (add_one x c) ≡ (if t == x then count_of x c + 1 else count_of t c)
count_of-add_one t x c = lookup_or-insert t x (count_of x c + 1) c

below_mono : (target : Option ℕ) (m n : ℕ) → m ≤ n → below target n ≡ true → below target m ≡ true
below_mono none m n le h = refl
below_mono (some t) m n le h = ground arith

pub count_grows : (t x : Uuid) (c : Counts) → count_of t c ≤ count_of t (add_one x c)
count_grows t x c = elim (Bool-cases (t == x)) [
  | inl e ↦ rw (count_of-add_one t x c, e) (rw ((==_iff t x).0 e) (omega arith))
  | inr e ↦ rw (count_of-add_one t x c, e) (omega arith)
]

allowed_before :
    (i : SwissInput) (h a : Counts) (x y : Uuid) (p : Uuid × Uuid)
    → is_allowed i (add_one x h) (add_one y a) p ≡ true
    → is_allowed i h a p ≡ true
allowed_before i h a x y (z, w) e = ground (
  arith,
  below_mono i.home_target (count_of z h) (count_of z (add_one x h)) (count_grows z x h),
  below_mono i.away_target (count_of w a) (count_of w (add_one y a)) (count_grows w y a),
)

pub All-keep :
    {A : Type 0} (P : A → Type 0) (p : A → Bool) (xs : List A) → All P xs → All P (keep p xs)
All-keep P p [] h = tt
All-keep P p (x ∷ xs) h = elim (Bool-cases (p x)) [
  | inl e ↦ rw e (h.0, All-keep P p xs h.1)
  | inr e ↦ rw e (All-keep P p xs h.1)
]

pub keep-All : {A : Type 0} (p : A → Bool) (xs : List A) → All (λ x. p x ≡ true) (keep p xs)
keep-All p [] = tt
keep-All p (x ∷ xs) = elim (Bool-cases (p x)) [
  | inl e ↦ rw e (e, keep-All p xs)
  | inr e ↦ rw e (keep-All p xs)
]

-- The two orientations of a pair
abbrev pub IsOrientation : Uuid → Uuid → Uuid × Uuid → Type 0
IsOrientation first second p = (p ≡ (first, second)) ⊎ (p ≡ (second, first))

pub orientation_options-All :
    (i : SwissInput) (first second : Uuid) (h a : Counts)
    → All (IsOrientation first second) (orientation_options i first second h a)
      × All (λ p. is_allowed i h a p ≡ true) (orientation_options i first second h a)
unfolding orientation_options
orientation_options-All i first second h a = (
  All-keep (IsOrientation first second) (is_allowed i h a)
      (sort_by (orientation_le i h a) ((first, second) ∷ (second, first) ∷ []))
      (sort_by-All (orientation_le i h a) (IsOrientation first second)
        ((first, second) ∷ (second, first) ∷ []) (inl refl, (inr refl, tt))),
  keep-All (is_allowed i h a)
      (sort_by (orientation_le i h a) ((first, second) ∷ (second, first) ∷ [])),
)

pub others_than-count :
    (t x : Uuid) (xs : List Uuid) → count t (others_than x xs) ≡ (if t == x then 0 else count t xs)
others_than-count t x xs = count-keep (λ y. not (y == x)) t xs ∙ ground arith

pub elem-others_than :
    (t x : Uuid) (xs : List Uuid) → elem t (others_than x xs) ≡ (elem t xs && not (t == x))
elem-others_than t x [] = refl
elem-others_than t x (y ∷ ys) = elim (Bool-cases (t == y)) [
  | inl e ↦ rw (← (==_iff t y).0 e) (ground (arith, elem-others_than t x ys))
  | inr e ↦ ground (arith, elem-others_than t x ys)
]

pub others_than-Distinct : (x : Uuid) (xs : List Uuid) → Distinct xs → Distinct (others_than x xs)
others_than-Distinct x [] d = tt
others_than-Distinct x (y ∷ ys) d = elim (Bool-cases (y == x)) [
  | inl e ↦ rw e (others_than-Distinct x ys d.1)
  | inr e ↦ rw e (elem-others_than y x ys ∙ rw d.0 refl, others_than-Distinct x ys d.1)
]

-- A team of the list, and the others
pub taken_out :
    (x : Uuid) (xs : List Uuid)
    → Distinct xs
    → elem x xs ≡ true
    → SameTeams (x ∷ others_than x xs) xs
taken_out x xs d e t = ground (arith, others_than-count t x xs, Distinct-count t xs d, ==_iff t x)

pub has_met_comm :
    (x y : Uuid) (prior : List (Uuid × Uuid))
    → any (λ p. p.0 == x && p.1 == y || p.0 == y && p.1 == x) prior
      ≡ any (λ p. p.0 == y && p.1 == x || p.0 == x && p.1 == y) prior
has_met_comm x y [] = refl
has_met_comm x y (p ∷ prior) = ground (arith, has_met_comm x y prior)

-- A search that is sound for the teams that are left
abbrev pub IsSoundFor : SwissInput → Search → List Uuid → Type 0
IsSoundFor i recurse rest =
    (h a : Counts) (n : ℕ) (pairs : List (Uuid × Uuid)) (m : ℕ)
    → recurse rest h a n ≡ found pairs m
    → IsPairing i h a rest pairs

pub found_pairs : {ps qs : List (Uuid × Uuid)} {m n : ℕ} → found ps m ≡ found qs n → ps ≡ qs
found_pairs e = cc

module _ (i : SwissInput) (recurse : Search) (first second : Uuid) (rest : List Uuid)
    (not_met : has_met i first second ≡ false) (sound : IsSoundFor i recurse rest) where
  orientation_fresh : (p : Uuid × Uuid) → IsOrientation first second p → has_met i p.0 p.1 ≡ false
  orientation_fresh p (inl e) = subst (λ q. has_met i q.0 q.1 ≡ false) (sym e) not_met
  orientation_fresh p (inr e) =
      subst (λ q. has_met i q.0 q.1 ≡ false) (sym e)
        (has_met_comm second first i.prior_pairs ∙ not_met)

  orientation_once :
      (p : Uuid × Uuid) (ps : List (Uuid × Uuid))
      → IsOrientation first second p
      → SameTeams (teams_of ps) rest
      → SameTeams (teams_of (p ∷ ps)) (first ∷ second ∷ rest)
  orientation_once p ps (inl e) same t =
      rw (ap (λ q. q.0) e, ap (λ q. q.1) e) (ground (arith, same t))
  orientation_once p ps (inr e) same t =
      rw (ap (λ q. q.0) e, ap (λ q. q.1) e) (ground (arith, same t))

  pub add_pair :
      (h a : Counts) (p : Uuid × Uuid) (ps : List (Uuid × Uuid))
      → IsOrientation first second p
      → is_allowed i h a p ≡ true
      → IsPairing i (add_one p.0 h) (add_one p.1 a) rest ps
      → IsPairing i h a (first ∷ second ∷ rest) (p ∷ ps)
  add_pair h a p ps o here later = record {
    once = orientation_once p ps o later.once;
    fresh = (orientation_fresh p o, later.fresh);
    allowed = (here, All-mono _ _ ps (λ q. allowed_before i h a p.0 p.1 q) later.allowed);
  }

  -- What follows a call for the orientation `p`
  after_result-IsPairing :
      (h a : Counts) (p : Uuid × Uuid) (r : SearchOutcome) (next : ℕ → SearchOutcome)
      (pairs : List (Uuid × Uuid)) (m : ℕ)
      → ((ps : List (Uuid × Uuid)) (k : ℕ)
          → r ≡ found ps k
          → IsPairing i h a (first ∷ second ∷ rest) (p ∷ ps))
      → ((k : ℕ) → next k ≡ found pairs m → IsPairing i h a (first ∷ second ∷ rest) pairs)
      → after_result p r next ≡ found pairs m
      → IsPairing i h a (first ∷ second ∷ rest) pairs
  unfolding after_result
  after_result-IsPairing h a p (found ps k) next pairs m here later e =
      subst (IsPairing i h a (first ∷ second ∷ rest)) (found_pairs e) (here ps k refl)
  after_result-IsPairing h a p (exhausted k) next pairs m here later e = later k e
  after_result-IsPairing h a p (limit_reached k) next pairs m here later e = cc

  pub try_options-IsPairing :
      (options : List (Uuid × Uuid)) (h a : Counts) (n : ℕ) (pairs : List (Uuid × Uuid)) (m : ℕ)
      → All (IsOrientation first second) options
      → All (λ p. is_allowed i h a p ≡ true) options
      → try_options recurse rest options h a n ≡ found pairs m
      → IsPairing i h a (first ∷ second ∷ rest) pairs
  unfolding try_options
  try_options-IsPairing [] h a n pairs m o k e = cc
  try_options-IsPairing (p ∷ options) h a n pairs m o k e =
      after_result-IsPairing h a p (recurse rest (add_one p.0 h) (add_one p.1 a) n)
        (λ m. try_options recurse rest options h a m) pairs m
        (λ ps j f. add_pair h a p ps o.0 k.0 (sound (add_one p.0 h) (add_one p.1 a) n ps j f))
        (λ j. try_options-IsPairing options h a j pairs m o.1 k.1) e
