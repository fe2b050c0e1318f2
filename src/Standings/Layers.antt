-- ===== src/Standings/Layers.antt =====
-- What `split_bucket` of backend/app/modules/standings/service.py does to the order: a bucket that a
-- key splits falls into layers, each strictly above the next.
use bracket_craft.Prelude.{
  ◌≡◌, inl, inr, Bool, true, false, ◌&&◌, not, List, [], ◌∷◌, ◌++◌, map, Perm, arith, Bool-cases,
  All,
}
use bracket_craft.Prelude.Sort.{
  insort, sort_by, IsSorted, insort-All, sort_by-All, sort_by-IsSorted, NoTies,
}
use mathlib.Core.List.{perm_middle}
use mathlib.Core.List.Perm
use bracket_craft.Prelude.Grouping.{
  Groups, group_by, flatten, parts, Keyed, Apart, group_by-All, group_by-Keyed, group_by-Apart,
  group_by-perm,
}
use bracket_craft.Standings.Pipeline.{same, split_by}

-- `R` holds of each item of the one list with each of the other.
abbrev pub Every : {A : Type 0} → (A → A → Type 0) → List A → List A → Type 0
Every R xs ys = All (λ x. All (R x) ys) xs

-- `T` holds inside each bucket, and `R` between it and every later one.
abbrev pub Layers : {A : Type 0} → (A → A → Type 0) → (A → A → Type 0) → List (List A) → Type 0
Layers R T [] = Unit
Layers R T (b ∷ bs) = Every T b b × (All (Every R b) bs × Layers R T bs)

module _ {A : Type 0} (above : A → A → Bool) where
  abbrev pub Above : A → A → Type 0
  Above x y = above x y ≡ true

  abbrev pub Tied : A → A → Type 0
  Tied x y = (above x y ≡ false) × (above y x ≡ false)

  -- The later one is not above the earlier one.
  abbrev pub NotBelow : A → A → Type 0
  NotBelow x y = above y x ≡ false

  -- Nothing in a bucket is above anything in it, and all of it is above every later bucket.
  abbrev pub Layered : List (List A) → Type 0
  Layered = Layers Above Tied

-- The lists of a split hold what the bucket holds.
abbrev pub Within : {A : Type 0} → List A → List (List A) → Type 1
Within {A = A} bucket split = (P : A → Type 0) → All P bucket → All (All P) split

insort-NoTies :
    {A : Type 0} (le : A → A → Bool) (x : A) (xs : List A)
    → All (λ y. (le x y && le y x) ≡ false) xs
    → NoTies le xs
    → NoTies le (insort le x xs)
unfolding insort
insort-NoTies le x [] h n = (tt, tt)
insort-NoTies le x (y ∷ ys) h n = elim (Bool-cases (le x y)) [
  | inl e ↦ rw e (h, n)
  | inr e ↦ rw e (
    insort-All le (λ z. (le y z && le z y) ≡ false) x ys (flip (le x y) (le y x) h.0) n.0,
    insort-NoTies le x ys h.1 n.1,
  )
]
  where
    flip : (p q : Bool) → (p && q) ≡ false → (q && p) ≡ false
    flip p q k = ground arith

sort_by-NoTies :
    {A : Type 0} (le : A → A → Bool) (xs : List A) → NoTies le xs → NoTies le (sort_by le xs)
unfolding sort_by
sort_by-NoTies le [] n = tt
sort_by-NoTies le (x ∷ xs) n =
    insort-NoTies le x (sort_by le xs) (sort_by-All le (λ y. (le x y && le y x) ≡ false) xs n.0)
      (sort_by-NoTies le xs n.1)

parts-All :
    {K A : Type 0} (P : A → Type 0) (groups : Groups K A)
    → All (All P) (parts groups)
    → All (λ e. All P e.1) groups
parts-All P [] h = tt
parts-All P ((k, xs) ∷ more) h = (h.0, parts-All P more h.1)

map-All :
    {K A : Type 0} (P : A → Type 0) (groups : Groups K A)
    → All (λ e. All P e.1) groups
    → All (All P) (map (λ e. e.1) groups)
map-All P [] h = tt
map-All P ((k, xs) ∷ more) h = (h.0, map-All P more h.1)

module _ {K A : Type 0} (le : K → K → Bool) (key : A → K) where
  pub split_by-Within : (bucket : List A) → Within bucket (split_by le key bucket)
  split_by-Within bucket P h = map-All P _ (
      sort_by-All (λ a b. le b.0 a.0) (λ e. All P e.1) _
        (parts-All P _ (group_by-All (same le) key P bucket h)))

  -- A strictly greater key
  abbrev pub key_above : A → A → Bool
  key_above x y = not (le (key x) (key y))

  module _ (total : (j k : K) → le j k ≡ false → le k j ≡ true)
      (trans : (i j k : K) → le i j ≡ true → le j k ≡ true → le i k ≡ true) where
    le_refl : (k : K) → le k k ≡ true
    le_refl k = ground (arith, total k k)

    Apart-NoTies :
        (groups : Groups K A) → Apart (same le) key groups → NoTies (λ a b. le b.0 a.0) groups
    Apart-NoTies [] h = tt
    Apart-NoTies ((k, xs) ∷ more) h = (h.0, Apart-NoTies more h.1)

    same_bucket :
        (k : K) (xs ys : List A)
        → All (λ x. same le (key x) k ≡ true) xs
        → All (λ x. same le (key x) k ≡ true) ys
        → Every (Tied key_above) xs ys
    same_bucket k [] ys hx hy = tt
    same_bucket k (x ∷ xs) ys hx hy = (row ys hy, same_bucket k xs ys hx.1 hy)
      where
        row : (zs : List A) → All (λ z. same le (key z) k ≡ true) zs → All (Tied key_above x) zs
        row [] h = tt
        row (z ∷ zs) h = (
          (
            ground (arith, trans (key x) k (key z), hx.0, h.0),
            ground (arith, trans (key z) k (key x), hx.0, h.0),
          ),
          row zs h.1,
        )

    higher_bucket :
        (j k : K) (xs ys : List A)
        → le j k ≡ false
        → All (λ x. same le (key x) j ≡ true) xs
        → All (λ x. same le (key x) k ≡ true) ys
        → Every (Above key_above) xs ys
    higher_bucket j k [] ys lt hx hy = tt
    higher_bucket j k (x ∷ xs) ys lt hx hy = (row ys hy, higher_bucket j k xs ys lt hx.1 hy)
      where
        row : (zs : List A) → All (λ z. same le (key z) k ≡ true) zs → All (Above key_above x) zs
        row [] h = tt
        row (z ∷ zs) h =
            (ground (arith, trans j (key x) (key z), trans j (key z) k, hx.0, h.0), row zs h.1)

    layers :
        (groups : Groups K A)
        → IsSorted (λ a b. le b.0 a.0) groups
        → NoTies (λ a b. le b.0 a.0) groups
        → All (Keyed (same le) key) groups
        → Layered key_above (map (λ e. e.1) groups)
    layers [] s n h = tt
    layers ((j, xs) ∷ more) s n h =
        (same_bucket j xs xs h.0 h.0, (later more s.0 n.0 h.1, layers more s.1 n.1 h.1))
      where
        later :
            (es : Groups K A)
            → All (λ e. le e.0 j ≡ true) es
            → All (λ e. (le e.0 j && le j e.0) ≡ false) es
            → All (Keyed (same le) key) es
            → All (Every (Above key_above) xs) (map (λ e. e.1) es)
        later [] s n h' = tt
        later ((k, ys) ∷ es) s n h' =
            (higher_bucket j k xs ys (ground (arith, s.0, n.0)) h.0 h'.0, later es s.1 n.1 h'.1)

    pub split_by-Layered : (bucket : List A) → Layered key_above (split_by le key bucket)
    split_by-Layered bucket =
        layers _
          (sort_by-IsSorted (λ a b. le b.0 a.0) (λ x y h. total y.0 x.0 h)
            (λ x y z h k. trans z.0 y.0 x.0 k h) groups)
          (sort_by-NoTies (λ a b. le b.0 a.0) groups
            (Apart-NoTies groups (group_by-Apart (same le) key bucket)))
          (sort_by-All (λ a b. le b.0 a.0) (Keyed (same le) key) groups
            (group_by-Keyed (same le) key same_refl bucket))
      where
        groups : Groups K A
        groups = group_by (same le) key bucket

        same_refl : (k : K) → same le k k ≡ true
        same_refl k = rw (le_refl k)

abbrev entries_flat : {K A : Type 0} → Groups K A → List A
entries_flat groups = flatten (map (λ e. e.1) groups)

swap_front : {A : Type 0} (xs ys zs : List A) → Perm (xs ++ (ys ++ zs)) (ys ++ (xs ++ zs))
swap_front [] ys zs = Perm.rfl
swap_front (x ∷ xs) ys zs =
    Perm.trans (Perm.cons x (swap_front xs ys zs)) (Perm.symm (perm_middle ys (xs ++ zs)))

module _ {K A : Type 0} (le : K × List A → K × List A → Bool) where
  insort-flat :
      (e : K × List A) (groups : Groups K A)
      → Perm (entries_flat (insort le e groups)) (e.1 ++ entries_flat groups)
  unfolding insort
  insort-flat e [] = Perm.rfl
  insort-flat e (f ∷ groups) = elim (Bool-cases (le e f)) [
    | inl h ↦ rw h Perm.rfl
    | inr h ↦ rw h (
        Perm.trans (Perm.append_left f.1 (insort-flat e groups))
          (swap_front f.1 e.1 (entries_flat groups)))
  ]

  sort_by-flat :
      (groups : Groups K A) → Perm (entries_flat (sort_by le groups)) (flatten (parts groups))
  unfolding sort_by
  sort_by-flat [] = Perm.rfl
  sort_by-flat ((k, xs) ∷ groups) =
      Perm.trans (insort-flat (k, xs) (sort_by le groups))
        (Perm.append_left xs (sort_by-flat groups))

pub split_by-perm :
    {K A : Type 0} (le : K → K → Bool) (key : A → K) (bucket : List A)
    → Perm (flatten (split_by le key bucket)) bucket
split_by-perm le key bucket =
    Perm.trans (sort_by-flat (λ a b. le b.0 a.0) _) (group_by-perm (same le) key bucket)
