-- ===== src/Standings/Order.antt =====
-- Rows that the leading criteria tell apart come out of the pipeline in that order.
use bracket_craft.Prelude.{◌≡◌, Bool, true, false, ◌&&◌, ◌||◌, not, List, [], ◌∷◌, All, All-mono}
use bracket_craft.Standings.Layers.{Every, Layers, Above, Tied, NotBelow, Layered}
use bracket_craft.Standings.Splits.{Splits, parts-parts, Splits-Layers}

-- Asymmetric: of two rows one at most is above.
abbrev pub Asym : {A : Type 0} → (A → A → Bool) → Type 0
Asym {A = A} above = (a b : A) → above a b ≡ true → above b a ≡ false

-- One criterion more, which decides where the order so far does not.
abbrev pub then_by : {A : Type 0} → (A → A → Bool) → (A → A → Bool) → A → A → Bool
then_by above next a b = above a b || (not (above b a) && next a b)

All-both :
    {A : Type 0} (P Q S : A → Type 0) (xs : List A)
    → ((x : A) → P x → Q x → S x)
    → All P xs
    → All Q xs
    → All S xs
All-both P Q S [] f h k = tt
All-both P Q S (x ∷ xs) f h k = (f x h.0 k.0, All-both P Q S xs f h.1 k.1)

module _ {A : Type 0} (P R S : A → A → Type 0) (f : (x y : A) → P x y → R x y → S x y) where
  Every-both : (xs ys : List A) → Every P xs ys → Every R xs ys → Every S xs ys
  Every-both xs ys = All-both _ _ _ xs (λ x. All-both _ _ _ ys (f x))

  first-row :
      (b : List A) (bs : List (List A))
      → All (Every P b) bs
      → All (Every R b) bs
      → All (Every S b) bs
  first-row b bs = All-both _ _ _ bs (λ c. Every-both b c)

-- Whatever holds of all pairs of the parts can be used to change both relations.
module _ {A : Type 0} (P R S T U : A → A → Type 0) (f : (x y : A) → P x y → R x y → S x y)
    (g : (x y : A) → P x y → T x y → U x y) where
  Layers-both :
      (split : List (List A))
      → All (λ s. All (Every P s) split) split
      → Layers R T split
      → Layers S U split
  Layers-both [] h l = tt
  Layers-both (b ∷ bs) h l = (
    Every-both P T U g b b h.0.0 l.0,
    (first-row P R S f b bs h.0.1 l.1.0, Layers-both bs (All-mono _ _ bs (λ s k. k.1) h.1) l.1.1),
  )

abbrev Anything : {A : Type 0} → A → A → Type 0
Anything x y = Unit

module _ {A : Type 0} where
  Every-Anything : (xs ys : List A) → Every Anything xs ys
  Every-Anything [] ys = tt
  Every-Anything (x ∷ xs) ys = (row ys, Every-Anything xs ys)
    where
      row : (zs : List A) → All (Anything x) zs
      row [] = tt
      row (z ∷ zs) = (tt, row zs)

  Layers-Anything : (bs : List (List A)) → Layers Anything Anything bs
  Layers-Anything [] = tt
  Layers-Anything (b ∷ bs) = (Every-Anything b b, (later bs, Layers-Anything bs))
    where
      later : (cs : List (List A)) → All (Every Anything b) cs
      later [] = tt
      later (c ∷ cs) = (Every-Anything b c, later cs)

module _ {A : Type 0} (above next : A → A → Bool) where
  -- A step by `next` refines the layers.
  pub refined :
      {bs rest : List (List A)}
      → Splits (Layered next) bs rest
      → Layered above bs
      → Layered (then_by above next) rest
  refined =
      Splits-Layers (Above above) (Tied above) (Above (then_by above next))
        (Tied (then_by above next)) (Layered next) (λ x y h. rw h)
        (λ b split w q t.
          Layers-both (Tied above) (Above next) (Above (then_by above next)) (Tied next)
            (Tied (then_by above next)) (λ x y h k. rw (h.0, h.1) k)
            (λ x y h k. (rw (h.0, h.1) k.0, rw (h.1, h.0) k.1)) split
            (parts-parts (Tied above) b split w t) q)

  -- Any other step keeps what they say of the order.
  pub kept :
      (Q : List (List A) → Type 0) {bs rest : List (List A)}
      → Splits Q bs rest
      → Layers (NotBelow above) (Tied above) bs
      → Layers (NotBelow above) (Tied above) rest
  kept Q =
      Splits-Layers (NotBelow above) (Tied above) (NotBelow above) (Tied above) Q (λ x y h. h)
        (λ b split w q t.
          Layers-both (Tied above) Anything (NotBelow above) Anything (Tied above) (λ x y h k. h.1)
            (λ x y h k. h) split (parts-parts (Tied above) b split w t) (Layers-Anything split))
