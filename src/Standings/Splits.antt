-- ===== src/Standings/Splits.antt =====
-- How splitting bucket after bucket refines the layers that are there.
use bracket_craft.Prelude.{List, [], ◌∷◌, ◌++◌, All, All-append, All-mono}
use bracket_craft.Standings.Layers.{Every, Layers, Within}

module _ {A : Type 0} (R : A → A → Type 0) where
  Every-swap :
      (xs : List A) (bs : List (List A)) → All (λ x. All (All (R x)) bs) xs → All (Every R xs) bs
  Every-swap xs [] h = tt
  Every-swap xs (b ∷ bs) h =
      (All-mono _ _ xs (λ x k. k.0) h, Every-swap xs bs (All-mono _ _ xs (λ x k. k.1) h))

  Every-row :
      (xs : List A) (bs : List (List A)) → All (Every R xs) bs → All (λ x. All (All (R x)) bs) xs
  Every-row [] bs h = tt
  Every-row (x ∷ xs) bs h =
      (All-mono _ _ bs (λ b k. k.0) h, Every-row xs bs (All-mono _ _ bs (λ b k. k.1) h))

  -- A relation to the whole bucket holds to each part of it.
  Every-parts :
      (xs b : List A) (split : List (List A))
      → Within b split
      → Every R xs b
      → All (Every R xs) split
  Every-parts xs b split w h = Every-swap xs split (All-mono _ _ xs (λ x k. w (R x) k) h)

  parts-Every :
      (b : List A) (split bs : List (List A))
      → Within b split
      → All (Every R b) bs
      → All (λ s. All (Every R s) bs) split
  parts-Every b split bs w h =
      All-mono _ _ split (λ s k. Every-swap s bs k) (w _ (Every-row b bs h))

  pub parts-parts :
      (b : List A) (split : List (List A))
      → Within b split
      → Every R b b
      → All (λ s. All (Every R s) split) split
  parts-parts b split w h = parts-Every b split split w (Every-parts b b split w h)

-- Each bucket of the first list is split, and `Q` holds of its parts.
pub data Splits {A : Type 0} (Q : List (List A) → Type 0)
    : List (List A) → List (List A) → Type 1 where
  nil : Splits Q [] []
  cons :
      {b : List A} {split bs rest : List (List A)}
      → Within b split
      → Q split
      → Splits Q bs rest
      → Splits Q (b ∷ bs) (split ++ rest)

module _ {A : Type 0} (R T : A → A → Type 0) where
  Layers-append :
      (bs cs : List (List A))
      → Layers R T bs
      → All (λ b. All (Every R b) cs) bs
      → Layers R T cs
      → Layers R T (bs ++ cs)
  Layers-append [] cs h k l = l
  Layers-append (b ∷ bs) cs h k l =
      (h.0, (All-append _ bs cs h.1.0 k.0, Layers-append bs cs h.1.1 k.1 l))

  Splits-Every :
      {Q : List (List A) → Type 0} (xs : List A) {bs rest : List (List A)}
      → Splits Q bs rest
      → All (Every R xs) bs
      → All (Every R xs) rest
  Splits-Every xs nil h = tt
  Splits-Every xs (cons {b = b} {split = split} w q sp) h =
      All-append _ split _ (Every-parts R xs b split w h.0) (Splits-Every xs sp h.1)

module _ {A : Type 0} (R T R' T' : A → A → Type 0) (Q : List (List A) → Type 0)
    (weaken : (x y : A) → R x y → R' x y)
    (inside : (b : List A) (split : List (List A))
      → Within b split
      → Q split
      → Every T b b
      → Layers R' T' split) where
  pub Splits-Layers :
      {bs rest : List (List A)} → Splits Q bs rest → Layers R T bs → Layers R' T' rest
  Splits-Layers nil h = tt
  Splits-Layers (cons {b = b} {split = split} {bs = bs} {rest = rest} w q sp) h =
      Layers-append R' T' split rest (inside b split w q h.0)
        (All-mono _ _ split
          (λ s k. All-mono _ _ rest (λ r. All-mono _ _ s (λ x. All-mono _ _ r (weaken x))) k)
          (parts-Every R b split rest w (Splits-Every R T b sp h.1.0)))
        (Splits-Layers sp h.1.1)

pub Splits-All :
    {A : Type 0} {Q : List (List A) → Type 0} (P : A → Type 0) {bs rest : List (List A)}
    → Splits Q bs rest
    → All (All P) bs
    → All (All P) rest
Splits-All P nil h = tt
Splits-All P (cons {split = split} w q sp) h =
    All-append (All P) split _ (w P h.0) (Splits-All P sp h.1)
