-- ===== src/Schedule/Groups/Blocks.antt =====
-- Dealing all the blocks loses no team and keeps the sizes of the groups within one team.
use bracket_craft.Prelude.{
  ℕ, zero, suc, ◌+◌, ◌-◌, ◌≤◌, ◌<◌, min, ◌≡◌, refl, sym, ◌∙◌, inl, inr, List, [], ◌∷◌, arith, ltb,
  leb, if◌then◌else◌, Bool-cases, length, take, drop, count,
}
use bracket_craft.Prelude.Teams.{Uuid, SameTeams-length}
use bracket_craft.Schedule.{Shuffler}
use bracket_craft.Schedule.Groups.{Group, deal_block, range_from, deal_blocks}
use bracket_craft.Schedule.Groups.Balanced.{
  members, size_at, Below, members-deal_block, size-deal_block, length-deal_block, count-range,
  length-range, count-take, take-all, Below-counts,
}

length-take : (n : ℕ) (xs : List ℕ) → length (take n xs) ≡ min n (length xs)
length-take zero xs = ground arith
length-take (suc n) [] = ground arith
length-take (suc n) (x ∷ xs) = ground (arith, length-take n xs)

length-drop : (n : ℕ) (xs : List ℕ) → length (drop n xs) ≡ length xs - n
length-drop zero xs = omega arith
length-drop (suc n) [] = omega arith
length-drop (suc n) (x ∷ xs) = omega (arith, length-drop n xs)

count-take-drop : (t n : ℕ) (xs : List ℕ) → count t (take n xs) + count t (drop n xs) ≡ count t xs
count-take-drop t zero xs = omega arith
count-take-drop t (suc n) [] = omega arith
count-take-drop t (suc n) (x ∷ xs) = ground (arith, count-take-drop t n xs)

-- Groups of one size, and groups whose sizes differ by at most one.
abbrev pub Even : ℕ → List Group → Type 0
Even n gs = (i j : ℕ) → i < n → j < n → size_at i gs ≡ size_at j gs

abbrev pub Balanced : ℕ → List Group → Type 0
Balanced n gs = (i j : ℕ) → i < n → j < n → size_at i gs ≤ suc (size_at j gs)

module _ (rng : Shuffler) where
  order-counts :
      (s : rng.State) (n j : ℕ)
      → count j (rng.shuffle s (range_from 0 n)) ≡ (if ltb j n then 1 else 0)
  order-counts s n j =
      rng.shuffle-SameTeams s (range_from 0 n) j ∙ (count-range j 0 n ∙ ground arith)

  order-Below : (s : rng.State) (n : ℕ) → Below n (rng.shuffle s (range_from 0 n))
  order-Below s n = Below-counts n _ (λ j le. ground (arith, order-counts s n j))

  order-length : (s : rng.State) (n : ℕ) → length (rng.shuffle s (range_from 0 n)) ≡ n
  order-length s n =
      SameTeams-length _ _ (rng.shuffle-SameTeams s (range_from 0 n)) ∙ length-range 0 n

  length-deal_blocks :
      (k : ℕ) (s : rng.State) (n : ℕ) (ts : List Uuid) (gs : List Group)
      → length (deal_blocks rng k s n ts gs) ≡ length gs
  unfolding deal_blocks
  length-deal_blocks zero s n ts gs = refl
  length-deal_blocks (suc k) s n [] gs = refl
  length-deal_blocks (suc k) s n (t ∷ ts) gs =
      length-deal_blocks k _ n _ _
      ∙ length-deal_block (rng.shuffle s (range_from 0 n)) (take n (t ∷ ts)) gs

  pub members-deal_blocks :
      (k : ℕ) (s : rng.State) (n : ℕ) (ts : List Uuid) (gs : List Group)
      → 0 < n
      → length gs ≡ n
      → length ts ≤ k
      → (u : Uuid)
      → count u (members (deal_blocks rng k s n ts gs)) ≡ count u ts + count u (members gs)
  unfolding deal_blocks
  members-deal_blocks zero s n [] gs pn l h u = omega arith
  members-deal_blocks zero s n (t ∷ ts) gs pn l h u = absurd (omega arith)
  members-deal_blocks (suc k) s n [] gs pn l h u = omega arith
  members-deal_blocks (suc k) s n (t ∷ ts) gs pn l h u =
      let order = rng.shuffle s (range_from 0 n) in
      let block = take n (t ∷ ts) in
      let below : Below (length gs) order = rw l (order-Below s n) in
      let fits : length block ≤ length order =
        ground (arith, length-take n (t ∷ ts), order-length s n) in
      let rest =
        members-deal_blocks k (rng.next s (range_from 0 n)) n (drop n (t ∷ ts))
          (deal_block order block gs) pn (length-deal_block order block gs ∙ l)
          (ground (arith, length-drop n (t ∷ ts))) u in
      rest
      ∙ ground (arith, members-deal_block u order block gs below fits, count-take-drop u n (t ∷ ts))

  size-full :
      (s : rng.State) (n : ℕ) (block : List Uuid) (gs : List Group) (i : ℕ)
      → length gs ≡ n
      → length block ≡ n
      → i < n
      → size_at i (deal_block (rng.shuffle s (range_from 0 n)) block gs) ≡ suc (size_at i gs)
  size-full s n block gs i l full h =
      let order = rng.shuffle s (range_from 0 n) in
      let below : Below (length gs) order = rw l (order-Below s n) in
      let whole : take (length block) order ≡ order =
        take-all (length block) order (order-length s n ∙ sym full) in
      size-deal_block i order block gs below ∙ (rw whole (ground (arith, order-counts s n i)))

  size-part :
      (s : rng.State) (n : ℕ) (block : List Uuid) (gs : List Group) (i : ℕ)
      → length gs ≡ n
      → i < n
      → (size_at i gs ≤ size_at i (deal_block (rng.shuffle s (range_from 0 n)) block gs))
        × (size_at i (deal_block (rng.shuffle s (range_from 0 n)) block gs) ≤ suc (size_at i gs))
  size-part s n block gs i l h =
      let order = rng.shuffle s (range_from 0 n) in
      let below : Below (length gs) order = rw l (order-Below s n) in
      let size = size-deal_block i order block gs below in
      let few = count-take i (length block) order in
      (ground arith, ground (arith, order-counts s n i))

  last_block :
      (k : ℕ) (s : rng.State) (n : ℕ) (ts : List Uuid) (gs : List Group)
      → length ts ≡ 0
      → Balanced n gs
      → Balanced n (deal_blocks rng k s n ts gs)
  unfolding deal_blocks
  last_block zero s n ts gs h b = b
  last_block (suc k) s n [] gs h b = b
  last_block (suc k) s n (t ∷ ts) gs h b = absurd (omega arith)

  pub Balanced-deal_blocks :
      (k : ℕ) (s : rng.State) (n : ℕ) (ts : List Uuid) (gs : List Group)
      → 0 < n
      → length gs ≡ n
      → Even n gs
      → Balanced n (deal_blocks rng k s n ts gs)
  unfolding deal_blocks
  Balanced-deal_blocks zero s n ts gs pn l e = λ i j hi hj. omega (arith, e i j hi hj)
  Balanced-deal_blocks (suc k) s n [] gs pn l e = λ i j hi hj. omega (arith, e i j hi hj)
  Balanced-deal_blocks (suc k) s n (t ∷ ts) gs pn l e =
      let order = rng.shuffle s (range_from 0 n) in
      let block = take n (t ∷ ts) in
      let dealt = deal_block order block gs in
      elim (Bool-cases (leb n (length (t ∷ ts)))) [
        | inl full ↦
            let size : length block ≡ n = length-take n (t ∷ ts) ∙ ground arith in
            Balanced-deal_blocks k (rng.next s (range_from 0 n)) n (drop n (t ∷ ts)) dealt pn
              (length-deal_block order block gs ∙ l)
              (λ i j hi hj. ground (
                arith,
                size-full s n block gs i l size hi,
                size-full s n block gs j l size hj,
                e i j hi hj,
              ))
        | inr part ↦
            last_block k (rng.next s (range_from 0 n)) n (drop n (t ∷ ts)) dealt
              (length-drop n (t ∷ ts) ∙ ground arith)
              (λ i j hi hj.
                ground (
                  arith,
                  size-part s n block gs i l hi,
                  size-part s n block gs j l hj,
                  e i j hi hj,
                ))
      ]
