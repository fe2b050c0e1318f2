-- ===== src/Prelude/Dict.antt =====
-- A Python dict keyed by identifiers, in insertion order.
use bracket_craft.Prelude.{
  ℕ, ◌+◌, ◌≡◌, refl, Option, none, some, List, [], ◌∷◌, arith, ◌==◌, if◌then◌else◌,
}

abbrev pub Dict {ℓ} : Type ℓ → Type ℓ
Dict V = List (ℕ × V)

module _ {ℓ} {V : Type ℓ} where
  -- `table[key] = value`, where the key keeps its place
  abbrev pub insert : ℕ → V → Dict V → Dict V
  insert key value [] = (key, value) ∷ []
  insert key value ((other, old) ∷ more) =
      if key == other then (key, value) ∷ more else (other, old) ∷ insert key value more

  -- `table.get(key)`
  abbrev pub lookup : ℕ → Dict V → Option V
  lookup key [] = none
  lookup key ((other, value) ∷ more) = if key == other then some value else lookup key more

  -- `table.get(key, default)`
  abbrev pub lookup_or : V → ℕ → Dict V → V
  lookup_or default key table = elim (lookup key table) [ none ↦ default | some value ↦ value ]

  abbrev pub keys : Dict V → List ℕ
  keys [] = []
  keys ((k, v) ∷ d) = k ∷ keys d

  abbrev pub values : Dict V → List V
  values [] = []
  values ((k, v) ∷ d) = v ∷ values d

  pub lookup-insert :
      (j k : ℕ) (v : V) (d : Dict V)
      → lookup j (insert k v d) ≡ (if j == k then some v else lookup j d)
  lookup-insert j k v [] = refl
  lookup-insert j k v ((i, w) ∷ d) = ground (arith, lookup-insert j k v d)

module _ {ℓ} {V : Type ℓ} where
  -- `d[k]` changed in place: the attributes of the object that `k` names are assigned.
  abbrev pub modify : ℕ → (V → V) → Dict V → Dict V
  modify k f [] = []
  modify k f ((j, w) ∷ d) = if k == j then (j, f w) ∷ d else (j, w) ∷ modify k f d

  pub keys-modify : (k : ℕ) (f : V → V) (d : Dict V) → keys (modify k f d) ≡ keys d
  keys-modify k f [] = refl
  keys-modify k f ((j, w) ∷ d) = ground (arith, keys-modify k f d)

-- `{x: i for i, x in enumerate(xs, start)}`, for distinct `xs`
abbrev pub enumerate : ℕ → List ℕ → Dict ℕ
enumerate i [] = []
enumerate i (x ∷ xs) = (x, i) ∷ enumerate (i + 1) xs

module _ {ℓ} {V : Type ℓ} where
  -- What an in-place change shows under each key.
  pub lookup-modify :
      (j k : ℕ) (f : V → V) (d : Dict V)
      → lookup j (modify k f d)
        ≡ (if j == k then elim (lookup j d) [ none ↦ none | some v ↦ some (f v) ] else lookup j d)
  lookup-modify j k f [] = ground arith
  lookup-modify j k f ((i, w) ∷ d) = ground (arith, lookup-modify j k f d)

pub lookup_or-insert :
    (j k v : ℕ) (d : Dict ℕ)
    → lookup_or 0 j (insert k v d) ≡ (if j == k then v else lookup_or 0 j d)
lookup_or-insert j k v [] = ground arith
lookup_or-insert j k v ((i, w) ∷ d) = ground (arith, lookup_or-insert j k v d)
