-- ===== src/Prelude/Sort.antt =====
-- Python's `sorted`: a stable sort by a total preorder. Insertion from the right is one, and any
-- two stable sorts agree.
use mathlib.Core.List.Perm
use mathlib.Core.List.{Permᴰ}
use mathlib.Core.Logic.{∥∥₁_elim}
use mathlib.Core.Path.{ap₂}
use bracket_craft.Prelude.{
  refl, arith, ◌&&◌, subst, ◌∙◌, ◌≡◌, Bool, true, false, List, [], ◌∷◌, Perm, if◌then◌else◌, All,
  Bool-cases, inl, inr,
}

module _ {A : Type 0} (le : A → A → Bool) where
  -- `x` stands before what it ties with, since it stood before it in the input.
  unfoldable pub insort : A → List A → List A
  insort x [] = x ∷ []
  insort x (y ∷ ys) = if le x y then x ∷ y ∷ ys else y ∷ insort x ys

  unfoldable pub sort_by : List A → List A
  unfolding insort
  sort_by [] = []
  sort_by (x ∷ xs) = insort x (sort_by xs)

  -- Each item is at most every later one.
  abbrev pub IsSorted : List A → Type 0
  IsSorted [] = Unit
  IsSorted (x ∷ xs) = All (λ y. le x y ≡ true) xs × IsSorted xs

  pub insort-perm : (x : A) (xs : List A) → Perm (insort x xs) (x ∷ xs)
  unfolding insort
  insort-perm x [] = Perm.rfl
  insort-perm x (y ∷ ys) = elim (Bool-cases (le x y)) [
    | inl e ↦ rw e Perm.rfl
    | inr e ↦ rw e (Perm.trans (Perm.cons y (insort-perm x ys)) (Perm.swap x y ys))
  ]

  pub sort_by-perm : (xs : List A) → Perm (sort_by xs) xs
  unfolding sort_by
  sort_by-perm [] = Perm.rfl
  sort_by-perm (x ∷ xs) = Perm.trans (insort-perm x (sort_by xs)) (Perm.cons x (sort_by-perm xs))

  pub insort-All {κ} : (P : A → Type κ) (x : A) (xs : List A) → P x → All P xs → All P (insort x xs)
  unfolding insort
  insort-All P x [] p h = (p, tt)
  insort-All P x (y ∷ ys) p h = elim (Bool-cases (le x y)) [
    | inl e ↦ rw e (p, h)
    | inr e ↦ rw e (h.0, insort-All P x ys p h.1)
  ]

  pub sort_by-All {κ} : (P : A → Type κ) (xs : List A) → All P xs → All P (sort_by xs)
  unfolding sort_by
  sort_by-All P [] h = tt
  sort_by-All P (x ∷ xs) h = insort-All P x (sort_by xs) h.0 (sort_by-All P xs h.1)

  module _ (total : (x y : A) → le x y ≡ false → le y x ≡ true)
      (trans : (x y z : A) → le x y ≡ true → le y z ≡ true → le x z ≡ true) where
    All-trans :
        (x y : A) (ys : List A)
        → le x y ≡ true
        → All (λ z. le y z ≡ true) ys
        → All (λ z. le x z ≡ true) ys
    All-trans x y [] h k = tt
    All-trans x y (z ∷ zs) h k = (trans x y z h k.0, All-trans x y zs h k.1)

    pub insort-IsSorted : (x : A) (xs : List A) → IsSorted xs → IsSorted (insort x xs)
    unfolding insort
    insort-IsSorted x [] h = (tt, tt)
    insort-IsSorted x (y ∷ ys) h = elim (Bool-cases (le x y)) [
      | inl e ↦ rw e ((e, All-trans x y ys e h.0), h)
      | inr e ↦
          rw e (insort-All (λ z. le y z ≡ true) x ys (total x y e) h.0, insort-IsSorted x ys h.1)
    ]

    pub sort_by-IsSorted : (xs : List A) → IsSorted (sort_by xs)
    unfolding sort_by
    sort_by-IsSorted [] = tt
    sort_by-IsSorted (x ∷ xs) = insort-IsSorted x (sort_by xs) (sort_by-IsSorted xs)

-- No two items of the list tie.
abbrev pub NoTies : {A : Type 0} → (A → A → Bool) → List A → Type 0
NoTies le [] = Unit
NoTies le (x ∷ xs) = All (λ y. (le x y && le y x) ≡ false) xs × NoTies le xs

All-Permᴰ : {A : Type 0} (P : A → Type 0) {xs ys : List A} → Permᴰ xs ys → All P xs → All P ys
All-Permᴰ P Permᴰ.nil h = tt
All-Permᴰ P (Permᴰ.cons e p) h = (subst P e h.0, All-Permᴰ P p h.1)
All-Permᴰ P (Permᴰ.swap e f) h = (subst P f h.1.0, (subst P e h.0, h.1.1))
All-Permᴰ P (Permᴰ.trans p q) h = All-Permᴰ P q (All-Permᴰ P p h)

module _ {A : Type 0} (le : A → A → Bool) (total : (x y : A) → le x y ≡ false → le y x ≡ true)
    (trans : (x y z : A) → le x y ≡ true → le y z ≡ true → le x z ≡ true) where
  insort_comm :
      (a b : A) (xs : List A)
      → (le a b && le b a) ≡ false
      → insort le a (insort le b xs) ≡ insort le b (insort le a xs)
  unfolding insort
  insort_comm a b [] h = ground (arith, total a b)
  insort_comm a b (y ∷ ys) h =
      ground (arith, total a b, trans a b y, trans b a y, insort_comm a b ys h)

  NoTies-Permᴰ : {xs ys : List A} → Permᴰ xs ys → NoTies le xs → NoTies le ys
  NoTies-Permᴰ Permᴰ.nil h = tt
  NoTies-Permᴰ (Permᴰ.cons {a = a} {b = b} {l₂ = l} e p) h = (
    subst (λ c. All (λ y. (le c y && le y c) ≡ false) l) e (All-Permᴰ _ p h.0),
    NoTies-Permᴰ p h.1,
  )
  NoTies-Permᴰ (Permᴰ.swap {a = a} {b = b} {a' = a'} {b' = b'} {l = l} e f) h =
      subst (λ c. NoTies le (c ∷ b' ∷ l)) f
        (subst (λ c. NoTies le (b ∷ c ∷ l)) e
          ((flip (le a b) (le b a) h.0.0, h.1.0), (h.0.1, h.1.1)))
    where
      flip : (p q : Bool) → (p && q) ≡ false → (q && p) ≡ false
      flip p q k = ground arith
  NoTies-Permᴰ (Permᴰ.trans p q) h = NoTies-Permᴰ q (NoTies-Permᴰ p h)

  sort_by-Permᴰ : {xs ys : List A} → Permᴰ xs ys → NoTies le xs → sort_by le xs ≡ sort_by le ys
  unfolding sort_by
  sort_by-Permᴰ Permᴰ.nil h = refl
  sort_by-Permᴰ (Permᴰ.cons e p) h = ap₂ (insort le) e (sort_by-Permᴰ p h.1)
  sort_by-Permᴰ (Permᴰ.swap {a = a} {b = b} {l = l} e f) h =
      insort_comm a b (sort_by le l) h.0.0
      ∙ ap₂ (λ c d. insort le c (insort le d (sort_by le l))) f e
  sort_by-Permᴰ (Permᴰ.trans p q) h = sort_by-Permᴰ p h ∙ sort_by-Permᴰ q (NoTies-Permᴰ p h)

  -- The sorted list does not depend on the order of the input, where nothing ties.
  pub sort_by-eq_of_perm :
      IsSet (List A) → {xs ys : List A} → Perm xs ys → NoTies le xs → sort_by le xs ≡ sort_by le ys
  sort_by-eq_of_perm set p h = ∥∥₁_elim p (set _ _) (λ q. sort_by-Permᴰ q h)
