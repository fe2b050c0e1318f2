-- ===== src/Standings/Ranking.antt =====
-- The ranks of a group: the order of the pipeline, and each row once.
use bracket_craft.Prelude.{
  ℕ, ◌≡◌, refl, ◌∙◌, subst, inl, inr, Bool, false, ◌&&◌, ◌||◌, not, List, [], ◌∷◌, ◌++◌, arith,
  if◌then◌else◌, Bool-cases, All, All-append, All-mono,
}
use bracket_craft.Prelude.Sort.{IsSorted}
use mathlib.Core.Path.{fun_ext}
use bracket_craft.Prelude.Errors.{ok, went_on, ok_injective}
use bracket_craft.Prelude.Teams.{Uuid}
use bracket_craft.Rules.{Criterion, PipelineStep}
use bracket_craft.HeadToHead.{Scoring}
use bracket_craft.Standings.{StandingRow, Records}
use bracket_craft.Standings.Pipeline.{Bucket, split_buckets, run_pipeline}
use bracket_craft.Standings.Layers.{Every, Layers, Tied, NotBelow, Layered}
use bracket_craft.Standings.Splits.{Splits}
use bracket_craft.Standings.Lexicographic.{
  is_head_to_head, leading, better, outranks, better-asym, Parts, split_buckets-Splits,
}
use bracket_craft.Standings.Order.{Asym, then_by, refined, kept}
use bracket_craft.Prelude.Grouping.{flatten}

-- Each criterion in turn refines the order so far.
abbrev refine_all :
    (Uuid → ℕ)
    → (StandingRow → StandingRow → Bool)
    → List Criterion
    → StandingRow
    → StandingRow
    → Bool
refine_all tie_value above [] = above
refine_all tie_value above (c ∷ cs) = refine_all tie_value (then_by above (better tie_value c)) cs

then_by-Asym :
    {A : Type 0} (above next : A → A → Bool) → Asym above → Asym next → Asym (then_by above next)
then_by-Asym above next p q a b h = ground (arith, p a b, q a b)

module _ {A : Type 0} (above : A → A → Bool) where
  -- An earlier row is never outranked by a later one.
  abbrev pub InOrder : List A → Type 0
  InOrder = IsSorted (λ a b. not (above b a))

  InOrder-append :
      (xs ys : List A) → InOrder xs → InOrder ys → Every (NotBelow above) xs ys → InOrder (xs ++ ys)
  InOrder-append [] ys h k e = k
  InOrder-append (x ∷ xs) ys h k e =
      (All-append _ xs ys h.0 (All-mono _ _ ys (λ y n. rw n) e.0), InOrder-append xs ys h.1 k e.1)

  Tied-InOrder : (xs : List A) → Every (Tied above) xs xs → InOrder xs
  Tied-InOrder [] h = tt
  Tied-InOrder (x ∷ xs) h =
      (All-mono _ _ xs (λ y n. rw n.1) h.0.1, Tied-InOrder xs (All-mono _ _ xs (λ y k. k.1) h.1))

  Every-flatten :
      (xs : List A) (bs : List (List A))
      → All (Every (NotBelow above) xs) bs
      → Every (NotBelow above) xs (flatten bs)
  Every-flatten [] bs h = tt
  Every-flatten (x ∷ xs) bs h = (
    row bs (All-mono _ _ bs (λ b k. k.0) h),
    Every-flatten xs bs (All-mono _ _ bs (λ b k. k.1) h),
  )
    where
      row :
          (cs : List (List A))
          → All (All (NotBelow above x)) cs
          → All (NotBelow above x) (flatten cs)
      row [] k = tt
      row (c ∷ cs) k = All-append _ c (flatten cs) k.0 (row cs k.1)

  flatten-InOrder :
      (bs : List (List A)) → Layers (NotBelow above) (Tied above) bs → InOrder (flatten bs)
  flatten-InOrder [] h = tt
  flatten-InOrder (b ∷ bs) h =
      InOrder-append b (flatten bs) (Tied-InOrder b h.0) (flatten-InOrder bs h.1.1)
        (Every-flatten b bs h.1.0)

  Layered-weak :
      Asym above → (bs : List (List A)) → Layered above bs → Layers (NotBelow above) (Tied above) bs
  Layered-weak asym [] h = tt
  Layered-weak asym (b ∷ bs) h = (
    h.0,
    (
      All-mono _ _ bs (λ c. All-mono _ _ b (λ x. All-mono _ _ c (asym x))) h.1.0,
      Layered-weak asym bs h.1.1,
    ),
  )

module _ (tie_value : Uuid → ℕ) (s : Scoring) (records : Records) where
  pub run_pipeline-cons :
      (step : PipelineStep) (steps : List PipelineStep) (bs : List Bucket) {final : List Bucket}
      → run_pipeline tie_value s records (step ∷ steps) bs ≡ ok final
      → (next : List Bucket) × (split_buckets tie_value s records step bs ≡ ok next)
        × (run_pipeline tie_value s records steps next ≡ ok final)
  unfolding run_pipeline
  run_pipeline-cons step steps bs h =
      went_on (split_buckets tie_value s records step bs)
        (λ next. run_pipeline tie_value s records steps next) h

  pub run_pipeline-nil :
      (bs : List Bucket) {final : List Bucket}
      → run_pipeline tie_value s records [] bs ≡ ok final
      → bs ≡ final
  unfolding run_pipeline
  run_pipeline-nil bs h = ok_injective h

  run_pipeline-kept :
      (above : StandingRow → StandingRow → Bool) (steps : List PipelineStep) (bs : List Bucket)
      {final : List Bucket}
      → run_pipeline tie_value s records steps bs ≡ ok final
      → Layers (NotBelow above) (Tied above) bs
      → Layers (NotBelow above) (Tied above) final
  run_pipeline-kept above [] bs h l =
      subst (Layers (NotBelow above) (Tied above)) (run_pipeline-nil bs h) l
  run_pipeline-kept above (step ∷ steps) bs h l =
      let (next, e, g) = run_pipeline-cons step steps bs h in
      run_pipeline-kept above steps next g (
        kept above above (Parts tie_value s records step)
          (split_buckets-Splits tie_value s records step bs e) l)

  run_pipeline-Layers :
      (above : StandingRow → StandingRow → Bool) (steps : List PipelineStep) (bs : List Bucket)
      {final : List Bucket}
      → Asym above
      → run_pipeline tie_value s records steps bs ≡ ok final
      → Layered above bs
      → Layers
          (NotBelow (refine_all tie_value above (leading steps)))
          (Tied (refine_all tie_value above (leading steps)))
          final
  run_pipeline-Layers above [] bs asym h l =
      run_pipeline-kept above [] bs h (Layered-weak above asym bs l)
  run_pipeline-Layers above (step ∷ steps) bs {final} asym h l =
      elim (Bool-cases (is_head_to_head step)) [
        | inl e ↦ rw e (run_pipeline-kept above (step ∷ steps) bs h (Layered-weak above asym bs l))
        | inr e ↦ rw e (
            let (next, f, g) = run_pipeline-cons step steps bs h in
            let split : Splits (Layered (better tie_value step.criterion)) bs next =
              subst
                (λ c.
                  Splits
                    (λ parts. if c then Unit else Layered (better tie_value step.criterion) parts)
                    bs next)
                e (split_buckets-Splits tie_value s records step bs f) in
            run_pipeline-Layers (then_by above (better tie_value step.criterion)) steps next
              (then_by-Asym above (better tie_value step.criterion) asym
                (better-asym tie_value step.criterion))
              g (refined above (better tie_value step.criterion) split l))
      ]

  refine_all-outranks :
      (above : StandingRow → StandingRow → Bool) (cs : List Criterion) (a b : StandingRow)
      → refine_all tie_value above cs a b
        ≡ (above a b || (not (above b a) && outranks tie_value cs a b))
  unfolding outranks
  refine_all-outranks above [] a b = ground arith
  refine_all-outranks above (c ∷ cs) a b =
      refine_all-outranks (then_by above (better tie_value c)) cs a b ∙ ground arith

  abbrev nothing : StandingRow → StandingRow → Bool
  nothing a b = false

  one_bucket : (items : Bucket) → Layered nothing (items ∷ [])
  one_bucket items = (rows items, (tt, tt))
    where
      row : (x : StandingRow) (ys : Bucket) → All (Tied nothing x) ys
      row x [] = tt
      row x (y ∷ ys) = ((refl, refl), row x ys)

      rows : (xs : Bucket) → Every (Tied nothing) xs items
      rows [] = tt
      rows (x ∷ xs) = (row x items, rows xs)

  refined_is_outranks :
      (cs : List Criterion) → refine_all tie_value nothing cs ≡ outranks tie_value cs
  refined_is_outranks cs = fun_ext λ a. fun_ext λ b. refine_all-outranks nothing cs a b

  pub run_pipeline-InOrder :
      (steps : List PipelineStep) (items : Bucket) {final : List Bucket}
      → run_pipeline tie_value s records steps (items ∷ []) ≡ ok final
      → InOrder (outranks tie_value (leading steps)) (flatten final)
  run_pipeline-InOrder steps items {final} h =
      subst (λ above. InOrder above (flatten final)) (refined_is_outranks (leading steps))
        (flatten-InOrder _ final
          (run_pipeline-Layers nothing steps (items ∷ []) (λ a b e. refl) h (one_bucket items)))
