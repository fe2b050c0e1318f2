-- ===== src/Schedule/Groups/Heads.antt =====
-- The groups before the draw: their size, their members, one head each or none.
use bracket_craft.Prelude.{
  ℕ, zero, suc, ◌<◌, ◌≡◌, refl, sym, ap, ◌∙◌, ◌⊎◌, inl, inr, List, [], ◌∷◌, map, arith, length,
  replicate,
}
use bracket_craft.Prelude.Teams.{Uuid}
use bracket_craft.Schedule.Groups.{Group, first_groups}
use bracket_craft.Schedule.Groups.Balanced.{members, size_at}
use bracket_craft.Schedule.Groups.Blocks.{Even}

length-replicate : (n : ℕ) → length (replicate {A = Group} n []) ≡ n
length-replicate zero = refl
length-replicate (suc n) = ap suc (length-replicate n)

members-replicate : (n : ℕ) → members (replicate n []) ≡ []
members-replicate zero = refl
members-replicate (suc n) = members-replicate n

size-replicate : (n i : ℕ) → size_at i (replicate n []) ≡ 0
size-replicate zero i = refl
size-replicate (suc n) zero = refl
size-replicate (suc n) (suc i) = size-replicate n i

length-alone : (hs : List Uuid) → length (map {B = Group} (λ t. t ∷ []) hs) ≡ length hs
length-alone [] = refl
length-alone (h ∷ hs) = ap suc (length-alone hs)

members-alone : (hs : List Uuid) → members (map (λ t. t ∷ []) hs) ≡ hs
members-alone [] = refl
members-alone (h ∷ hs) = ap (λ r. h ∷ r) (members-alone hs)

size-alone : (hs : List Uuid) (i : ℕ) → i < length hs → size_at i (map (λ t. t ∷ []) hs) ≡ 1
size-alone [] i h = absurd (omega arith)
size-alone (x ∷ hs) zero h = refl
size-alone (x ∷ hs) (suc i) h = size-alone hs i (omega arith)

-- Heads, if there are any, one for each group.
abbrev pub Fitting : ℕ → List Uuid → Type 0
Fitting n heads = (length heads ≡ 0) ⊎ (length heads ≡ n)

pub first_groups-length :
    (n : ℕ) (heads : List Uuid) → Fitting n heads → length (first_groups n heads) ≡ n
unfolding first_groups
first_groups-length n [] f = length-replicate n
first_groups-length n (h ∷ hs) (inl e) = absurd (omega arith)
first_groups-length n (h ∷ hs) (inr e) = length-alone (h ∷ hs) ∙ e

pub first_groups-members : (n : ℕ) (heads : List Uuid) → members (first_groups n heads) ≡ heads
unfolding first_groups
first_groups-members n [] = members-replicate n
first_groups-members n (h ∷ hs) = members-alone (h ∷ hs)

pub first_groups-Even :
    (n : ℕ) (heads : List Uuid) → Fitting n heads → Even n (first_groups n heads)
unfolding first_groups
first_groups-Even n [] f i j hi hj = size-replicate n i ∙ sym (size-replicate n j)
first_groups-Even n (h ∷ hs) (inl e) i j hi hj = absurd (omega arith)
first_groups-Even n (h ∷ hs) (inr e) i j hi hj =
    size-alone (h ∷ hs) i (omega arith) ∙ sym (size-alone (h ∷ hs) j (omega arith))
