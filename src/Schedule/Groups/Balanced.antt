-- ===== src/Schedule/Groups/Balanced.antt =====
-- What dealing a block does to the members and the sizes of the groups.
use bracket_craft.Prelude.{
  ℕ, zero, suc, ◌+◌, ◌≤◌, ◌<◌, ◌≡◌, refl, ap, ◌∙◌, ◌&&◌, List, [], ◌∷◌, ◌++◌, arith, ltb, leb, ◌==◌,
  if◌then◌else◌, length, take, All, length-append, count,
}
use bracket_craft.Prelude.Teams.{Uuid, count-append}
use bracket_craft.Schedule.Groups.{Group, append_at, deal_block, range_from}

-- All the teams of the groups.
abbrev pub members : List Group → List Uuid
members [] = []
members (g ∷ gs) = g ++ members gs

-- The size of group `i`.
abbrev pub size_at : ℕ → List Group → ℕ
size_at i [] = 0
size_at zero (g ∷ gs) = length g
size_at (suc i) (g ∷ gs) = size_at i gs

abbrev pub Below : ℕ → List ℕ → Type 0
Below n = All (λ i. i < n)

length-append_at : (i : ℕ) (t : Uuid) (gs : List Group) → length (append_at i t gs) ≡ length gs
unfolding append_at
length-append_at i t [] = refl
length-append_at zero t (g ∷ gs) = refl
length-append_at (suc i) t (g ∷ gs) = ap suc (length-append_at i t gs)

members-append_at :
    (s i : ℕ) (t : Uuid) (gs : List Group)
    → i < length gs
    → count s (members (append_at i t gs)) ≡ count s (t ∷ members gs)
unfolding append_at
members-append_at s i t [] h = absurd (omega arith)
members-append_at s zero t (g ∷ gs) h =
    rw
      (
        count-append s (g ++ t ∷ []) (members gs),
        count-append s g (t ∷ []),
        count-append s g (members gs),
      )
      (ground arith)
members-append_at s (suc i) t (g ∷ gs) h =
    rw
      (
        count-append s g (members (append_at i t gs)),
        count-append s g (members gs),
        members-append_at s i t gs (omega arith),
      )
      (ground arith)

size-append_at :
    (j i : ℕ) (t : Uuid) (gs : List Group)
    → i < length gs
    → size_at j (append_at i t gs) ≡ (if j == i then suc (size_at j gs) else size_at j gs)
unfolding append_at
size-append_at j i t [] h = absurd (omega arith)
size-append_at zero zero t (g ∷ gs) h = rw (length-append g (t ∷ [])) (ground arith)
size-append_at (suc j) zero t (g ∷ gs) h = ground arith
size-append_at zero (suc i) t (g ∷ gs) h = ground arith
size-append_at (suc j) (suc i) t (g ∷ gs) h = ground (arith, size-append_at j i t gs (omega arith))

pub length-deal_block :
    (order : List ℕ) (block : List Uuid) (gs : List Group)
    → length (deal_block order block gs) ≡ length gs
unfolding deal_block
length-deal_block [] block gs = refl
length-deal_block (i ∷ order) [] gs = refl
length-deal_block (i ∷ order) (t ∷ block) gs =
    length-deal_block order block (append_at i t gs) ∙ length-append_at i t gs

pub members-deal_block :
    (s : ℕ) (order : List ℕ) (block : List Uuid) (gs : List Group)
    → Below (length gs) order
    → length block ≤ length order
    → count s (members (deal_block order block gs)) ≡ count s block + count s (members gs)
unfolding deal_block
members-deal_block s [] [] gs b h = omega arith
members-deal_block s [] (t ∷ block) gs b h = absurd (omega arith)
members-deal_block s (i ∷ order) [] gs b h = omega arith
members-deal_block s (i ∷ order) (t ∷ block) gs b h =
    let b' : Below (length (append_at i t gs)) order = rw (length-append_at i t gs) b.1 in
    ground (
      arith,
      members-deal_block s order block (append_at i t gs) b' (omega arith),
      members-append_at s i t gs b.0,
    )

-- A block gives group `j` a team each time `j` is among the first places of the order.
pub size-deal_block :
    (j : ℕ) (order : List ℕ) (block : List Uuid) (gs : List Group)
    → Below (length gs) order
    → size_at j (deal_block order block gs) ≡ count j (take (length block) order) + size_at j gs
unfolding deal_block
size-deal_block j [] [] gs b = omega arith
size-deal_block j [] (t ∷ block) gs b = omega arith
size-deal_block j (i ∷ order) [] gs b = omega arith
size-deal_block j (i ∷ order) (t ∷ block) gs b =
    let b' : Below (length (append_at i t gs)) order = rw (length-append_at i t gs) b.1 in
    ground (arith, size-deal_block j order block (append_at i t gs) b', size-append_at j i t gs b.0)

pub count-range :
    (j i n : ℕ) → count j (range_from i n) ≡ (if leb i j && ltb j (i + n) then 1 else 0)
unfolding range_from
count-range j i zero = ground arith
count-range j i (suc n) = ground (arith, count-range j (suc i) n)

pub length-range : (i n : ℕ) → length (range_from i n) ≡ n
unfolding range_from
length-range i zero = refl
length-range i (suc n) = ap suc (length-range (suc i) n)

pub count-take : (j n : ℕ) (xs : List ℕ) → count j (take n xs) ≤ count j xs
count-take j zero xs = omega arith
count-take j (suc n) [] = omega arith
count-take j (suc n) (x ∷ xs) = ground (arith, count-take j n xs)

pub take-all : (n : ℕ) (xs : List ℕ) → length xs ≡ n → take n xs ≡ xs
take-all zero [] h = refl
take-all zero (x ∷ xs) h = absurd (omega arith)
take-all (suc n) [] h = absurd (omega arith)
take-all (suc n) (x ∷ xs) h = ap (λ r. x ∷ r) (take-all n xs (omega arith))

pub Below-counts : (n : ℕ) (xs : List ℕ) → ((j : ℕ) → n ≤ j → count j xs ≡ 0) → Below n xs
Below-counts n [] h = tt
Below-counts n (x ∷ xs) h =
    (ground (arith, h x), Below-counts n xs (λ j le. ground (arith, h j le)))
