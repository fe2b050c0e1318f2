-- ===== src/Prelude/Grouping.antt =====
-- A `defaultdict(list)`: the items under each key, the keys in the order of their first item.
use bracket_craft.Prelude.{
  ◌≡◌, subst, inl, inr, Bool, true, false, List, [], ◌∷◌, ◌++◌, Perm, append-nil, append_assoc,
  if◌then◌else◌, Bool-cases, All, All-append,
}
use mathlib.Core.List.{perm_middle}
use mathlib.Core.List.Perm

abbrev pub Groups {ℓ κ} : Type ℓ → Type κ → Type (ℓ ⊔ κ)
Groups K A = List (K × List A)

module _ {K A : Type 0} (eq : K → K → Bool) where
  -- `groups[key].append(item)`
  unfoldable pub add_to : K → A → Groups K A → Groups K A
  add_to k x [] = (k, x ∷ []) ∷ []
  add_to k x ((j, xs) ∷ more) =
      if eq k j then (j, xs ++ x ∷ []) ∷ more else (j, xs) ∷ add_to k x more

  -- `groups[key]`
  unfoldable pub group : K → Groups K A → List A
  group k [] = []
  group k ((j, xs) ∷ more) = if eq k j then xs else group k more

  unfoldable pub add_all : (A → K) → List A → Groups K A → Groups K A
  unfolding add_to
  add_all key [] groups = groups
  add_all key (x ∷ xs) groups = add_all key xs (add_to (key x) x groups)

  unfoldable pub group_by : (A → K) → List A → Groups K A
  unfolding add_all
  group_by key xs = add_all key xs []

-- The items of all groups
abbrev pub flatten {ℓ} : {A : Type ℓ} → List (List A) → List A
flatten [] = []
flatten (xs ∷ more) = xs ++ flatten more

abbrev pub parts {ℓ κ} : {K : Type ℓ} {A : Type κ} → Groups K A → List (List A)
parts [] = []
parts ((k, xs) ∷ more) = xs ∷ parts more

module _ {K A : Type 0} (eq : K → K → Bool) (key : A → K) where
  -- Every item stands under a key that equals its own.
  abbrev pub Keyed : K × List A → Type 0
  Keyed (k, xs) = All (λ x. eq (key x) k ≡ true) xs

  -- No key comes twice.
  abbrev pub Apart : Groups K A → Type 0
  Apart [] = Unit
  Apart ((k, xs) ∷ more) = All (λ e. eq e.0 k ≡ false) more × Apart more

  module _ (P : A → Type 0) where
    add_to-All :
        (k : K) (x : A) (groups : Groups K A)
        → P x
        → All (All P) (parts groups)
        → All (All P) (parts (add_to eq k x groups))
    unfolding add_to
    add_to-All k x [] p h = ((p, tt), tt)
    add_to-All k x ((j, xs) ∷ more) p h = elim (Bool-cases (eq k j)) [
      | inl e ↦ rw e (All-append P xs (x ∷ []) h.0 (p, tt), h.1)
      | inr e ↦ rw e (h.0, add_to-All k x more p h.1)
    ]

    add_all-All :
        (xs : List A) (groups : Groups K A)
        → All P xs
        → All (All P) (parts groups)
        → All (All P) (parts (add_all eq key xs groups))
    unfolding add_all
    add_all-All [] groups p h = h
    add_all-All (x ∷ xs) groups p h =
        add_all-All xs (add_to eq (key x) x groups) p.1 (add_to-All (key x) x groups p.0 h)

    pub group_by-All : (xs : List A) → All P xs → All (All P) (parts (group_by eq key xs))
    unfolding group_by
    group_by-All xs p = add_all-All xs [] p tt

  module _ (equal_refl : (k : K) → eq k k ≡ true) where
    add_to-Keyed :
        (x : A) (groups : Groups K A) → All Keyed groups → All Keyed (add_to eq (key x) x groups)
    unfolding add_to
    add_to-Keyed x [] h = ((equal_refl (key x), tt), tt)
    add_to-Keyed x ((j, xs) ∷ more) h = elim (Bool-cases (eq (key x) j)) [
      | inl e ↦ rw e (All-append (λ y. eq (key y) j ≡ true) xs (x ∷ []) h.0 (e, tt), h.1)
      | inr e ↦ rw e (h.0, add_to-Keyed x more h.1)
    ]

    add_all-Keyed :
        (xs : List A) (groups : Groups K A)
        → All Keyed groups
        → All Keyed (add_all eq key xs groups)
    unfolding add_all
    add_all-Keyed [] groups h = h
    add_all-Keyed (x ∷ xs) groups h = add_all-Keyed xs _ (add_to-Keyed x groups h)

    pub group_by-Keyed : (xs : List A) → All Keyed (group_by eq key xs)
    unfolding group_by
    group_by-Keyed xs = add_all-Keyed xs [] tt

  add_to-differs :
      (j k : K) (x : A) (groups : Groups K A)
      → eq k j ≡ false
      → All (λ e. eq e.0 j ≡ false) groups
      → All (λ e. eq e.0 j ≡ false) (add_to eq k x groups)
  unfolding add_to
  add_to-differs j k x [] ne h = (ne, tt)
  add_to-differs j k x ((i, xs) ∷ more) ne h = elim (Bool-cases (eq k i)) [
    | inl e ↦ rw e h
    | inr e ↦ rw e (h.0, add_to-differs j k x more ne h.1)
  ]

  add_to-Apart : (k : K) (x : A) (groups : Groups K A) → Apart groups → Apart (add_to eq k x groups)
  unfolding add_to
  add_to-Apart k x [] h = (tt, tt)
  add_to-Apart k x ((j, xs) ∷ more) h = elim (Bool-cases (eq k j)) [
    | inl e ↦ rw e h
    | inr e ↦ rw e (add_to-differs j k x more e h.0, add_to-Apart k x more h.1)
  ]

  add_all-Apart :
      (xs : List A) (groups : Groups K A) → Apart groups → Apart (add_all eq key xs groups)
  unfolding add_all
  add_all-Apart [] groups h = h
  add_all-Apart (x ∷ xs) groups h = add_all-Apart xs _ (add_to-Apart (key x) x groups h)

  pub group_by-Apart : (xs : List A) → Apart (group_by eq key xs)
  unfolding group_by
  group_by-Apart xs = add_all-Apart xs [] tt

  add_to-perm :
      (k : K) (x : A) (groups : Groups K A)
      → Perm (flatten (parts (add_to eq k x groups))) (x ∷ flatten (parts groups))
  unfolding add_to
  add_to-perm k x [] = Perm.rfl
  add_to-perm k x ((j, xs) ∷ more) = elim (Bool-cases (eq k j)) [
    | inl e ↦ rw (e, append_assoc) (perm_middle xs (flatten (parts more)))
    | inr e ↦ rw e (
        Perm.trans (Perm.append_left xs (add_to-perm k x more))
          (perm_middle xs (flatten (parts more))))
  ]

  add_all-perm :
      (xs : List A) (groups : Groups K A)
      → Perm (flatten (parts (add_all eq key xs groups))) (xs ++ flatten (parts groups))
  unfolding add_all
  add_all-perm [] groups = Perm.rfl
  add_all-perm (x ∷ xs) groups = Perm.trans (add_all-perm xs (add_to eq (key x) x groups)) (
      Perm.trans (Perm.append_left xs (add_to-perm (key x) x groups))
        (perm_middle xs (flatten (parts groups))))

  -- The groups hold the items of the list, each as often as it does.
  pub group_by-perm : (xs : List A) → Perm (flatten (parts (group_by eq key xs))) xs
  unfolding group_by
  group_by-perm xs =
      subst (λ ys. Perm (flatten (parts (add_all eq key xs []))) ys) (append-nil xs)
        (add_all-perm xs [])
