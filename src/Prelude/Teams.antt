-- ===== src/Prelude/Teams.antt =====
-- Lists of identifiers as multisets: two lists name the same identifiers as often.
use bracket_craft.Prelude.{
  ℕ, suc, ◌+◌, ◌<◌, length, ◌≡◌, refl, Bool, true, false, not, ◌||◌, List, [], ◌∷◌, ◌++◌, arith,
  ◌==◌, ==_iff, if◌then◌else◌, Bool-cases, inl, inr, keep, elem, count, Distinct, count-eq_zero,
}
use bracket_craft.Prelude.Sort.{insort, sort_by}

-- A `uuid.UUID`. It is only compared, and its text, 32 hexadecimal digits, sorts as the number.
abbrev pub Uuid : Type 0
Uuid = ℕ

abbrev pub SameTeams : List ℕ → List ℕ → Type 0
SameTeams xs ys = (t : ℕ) → count t xs ≡ count t ys

pub count-append : (t : ℕ) (xs ys : List ℕ) → count t (xs ++ ys) ≡ count t xs + count t ys
count-append t [] ys = omega arith
count-append t (x ∷ xs) ys = ground (arith, count-append t xs ys)

pub count-insort :
    (le : ℕ → ℕ → Bool) (t x : ℕ) (xs : List ℕ) → count t (insort le x xs) ≡ count t (x ∷ xs)
unfolding insort
count-insort le t x [] = refl
count-insort le t x (y ∷ ys) = ground (arith, count-insort le t x ys)

pub count-sort_by : (le : ℕ → ℕ → Bool) (t : ℕ) (xs : List ℕ) → count t (sort_by le xs) ≡ count t xs
unfolding sort_by
count-sort_by le t [] = refl
count-sort_by le t (x ∷ xs) =
    ground (arith, count-insort le t x (sort_by le xs), count-sort_by le t xs)

pub count-keep :
    (p : ℕ → Bool) (t : ℕ) (xs : List ℕ) → count t (keep p xs) ≡ (if p t then count t xs else 0)
count-keep p t [] = ground arith
count-keep p t (x ∷ xs) = elim (Bool-cases (t == x)) [
  | inl e ↦ rw ((==_iff t x).0 e) (ground (arith, count-keep p x xs))
  | inr e ↦ ground (arith, count-keep p t xs)
]

pub Distinct-count : (t : ℕ) (xs : List ℕ) → Distinct xs → count t xs ≡ (if elem t xs then 1 else 0)
Distinct-count t [] d = refl
Distinct-count t (x ∷ xs) d = ground (arith, Distinct-count t xs d.1, count-eq_zero x xs d.0)

pub elem-append : (t : ℕ) (xs ys : List ℕ) → elem t (xs ++ ys) ≡ (elem t xs || elem t ys)
elem-append t [] ys = refl
elem-append t (x ∷ xs) ys = ground (arith, elem-append t xs ys)

pub elem-eq_false : (t : ℕ) (xs : List ℕ) → count t xs ≡ 0 → elem t xs ≡ false
elem-eq_false t [] h = refl
elem-eq_false t (x ∷ xs) h = ground (arith, elem-eq_false t xs)

-- Same identifiers, same membership.
pub SameTeams-elem : (t : ℕ) (xs ys : List ℕ) → SameTeams xs ys → elem t xs ≡ elem t ys
SameTeams-elem t xs ys h = elim (Bool-cases (elem t xs)) [
  | inl a ↦ elim (Bool-cases (elem t ys)) [
    | inl b ↦ rw (a, b)
    | inr b ↦ ground (arith, h t, count-eq_zero t ys, elem-eq_false t xs)
  ]
  | inr a ↦ ground (arith, h t, count-eq_zero t xs, elem-eq_false t ys)
]

-- Taking the chosen ones first and the others behind loses and repeats nobody.
pub count-chosen_then_rest :
    (t : ℕ) (chosen all : List ℕ)
    → Distinct chosen
    → Distinct all
    → ((x : ℕ) → elem x chosen ≡ true → elem x all ≡ true)
    → count t (chosen ++ keep (λ x. not (elem x chosen)) all) ≡ count t all
count-chosen_then_rest t chosen all dc da sub =
    rw (count-append, count-keep)
      (ground (arith, sub t, Distinct-count t chosen dc, Distinct-count t all da))

-- The list without the first `x`.
abbrev without : ℕ → List ℕ → List ℕ
without x [] = []
without x (y ∷ ys) = if x == y then ys else y ∷ without x ys

count-without : (t x : ℕ) (ys : List ℕ) → 0 < count x ys → count t (x ∷ without x ys) ≡ count t ys
count-without t x [] h = absurd (omega arith)
count-without t x (y ∷ ys) h = elim (Bool-cases (x == y)) [
  | inl e ↦ rw ((==_iff x y).0 e) (ground arith)
  | inr e ↦ ground (arith, count-without t x ys (ground arith))
]

length-without : (x : ℕ) (ys : List ℕ) → 0 < count x ys → suc (length (without x ys)) ≡ length ys
length-without x [] h = absurd (omega arith)
length-without x (y ∷ ys) h = ground (arith, length-without x ys)

pub SameTeams-length : (xs ys : List ℕ) → SameTeams xs ys → length xs ≡ length ys
SameTeams-length [] [] h = refl
SameTeams-length [] (y ∷ ys) h = absurd (ground (arith, h y))
SameTeams-length (x ∷ xs) ys h =
    let here : 0 < count x ys = ground (arith, h x) in
    let rest : SameTeams xs (without x ys) = λ t. ground (arith, h t, count-without t x ys here) in
    omega (arith, SameTeams-length xs (without x ys) rest, length-without x ys here)
