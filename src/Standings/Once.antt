-- ===== src/Standings/Once.antt =====
-- The pipeline reorders the rows of a group, and loses and repeats none.
use bracket_craft.Prelude.{
  ℕ, ◌≡◌, refl, sym, ap, ◌∙◌, subst, inl, inr, Option, none, some, List, [], ◌∷◌, ◌++◌, Perm,
  append-nil, append_assoc, ltb, leb, Bool-cases, length, All,
}
use bracket_craft.Prelude.Int.{ℤ, leb_ℤ}
use mathlib.Core.List.Perm
use bracket_craft.Prelude.Errors.{ok, ◌>>=◌, went_on, ok_injective}
use bracket_craft.Prelude.Teams.{Uuid}
use bracket_craft.Prelude.Grouping.{group}
use bracket_craft.Rules.{Criterion, random_draw, PipelineStep}
use bracket_craft.HeadToHead.{Scoring, calculate_head_to_head_stats}
use bracket_craft.Standings.{StandingRow, same_group, Records}
use bracket_craft.Standings.Pipeline.{Bucket, split_buckets, run_pipeline}
use bracket_craft.Standings.Splits.{Splits-All}
use bracket_craft.Standings.Lexicographic.{is_head_to_head, split_buckets-Splits}
use bracket_craft.Standings.Pipeline.{
  mini_le, mini_key, split_stats, ids_of, group_of, rounds_of, update_of, split_values,
  split_mini_table, split_bucket,
}
use bracket_craft.Standings.Layers.{split_by-perm}
use bracket_craft.Standings.Ranking.{run_pipeline-cons, run_pipeline-nil}
use bracket_craft.Prelude.Grouping.{flatten}
use bracket_craft.Rules.Validation.{same_criterion}

flatten-append :
    {A : Type 0} (xs ys : List (List A)) → flatten (xs ++ ys) ≡ flatten xs ++ flatten ys
flatten-append [] ys = refl
flatten-append (x ∷ xs) ys =
    ap (λ zs. x ++ zs) (flatten-append xs ys) ∙ sym (append_assoc x (flatten xs) (flatten ys))

module _ (tie_value : Uuid → ℕ) (s : Scoring) (records : Records) where
  split_stats-perm :
      (bucket : Bucket) (stats : Option _) → Perm (flatten (split_stats bucket stats)) bucket
  unfolding split_stats
  split_stats-perm bucket none = rw append-nil Perm.rfl
  split_stats-perm bucket (some table) = split_by-perm mini_le (mini_key table) bucket

  split_values-perm :
      (c : Criterion) (bucket : Bucket) → Perm (flatten (split_values tie_value c bucket)) bucket
  unfolding split_values
  split_values-perm c bucket = elim (Bool-cases (same_criterion c random_draw)) [
    | inl e ↦ rw e (split_by-perm leb (λ row. tie_value row.team_id) bucket)
    | inr e ↦ rw e (split_by-perm leb_ℤ _ bucket)
  ]

  split_mini_table-perm :
      (rounds : Option ℤ) (bucket : Bucket) {split : List Bucket}
      → split_mini_table tie_value s records rounds bucket ≡ ok split
      → Perm (flatten split) bucket
  unfolding split_mini_table
  split_mini_table-perm rounds bucket h =
      let (stats, e, f) =
        went_on
          (calculate_head_to_head_stats (ids_of bucket) (group same_group (group_of bucket) records)
            (rounds_of rounds) (some (update_of s)))
          (λ t. ok (split_stats bucket t)) h in
      subst (λ bs. Perm (flatten bs) bucket) (ok_injective f) (split_stats-perm bucket stats)

  split_bucket-perm :
      (step : PipelineStep) (bucket : Bucket) {split : List Bucket}
      → split_bucket tie_value s records step bucket ≡ ok split
      → Perm (flatten split) bucket
  unfolding split_bucket
  split_bucket-perm step bucket {split} h = elim (Bool-cases (ltb (length bucket) 2)) [
    | inl e ↦
        let whole : bucket ∷ [] ≡ split = ok_injective (rw e at h) in
        subst (λ bs. Perm (flatten bs) bucket) whole (rw append-nil Perm.rfl)
    | inr e ↦ elim (Bool-cases (is_head_to_head step)) [
      | inl f ↦ split_mini_table-perm step.total_rounds_expected bucket (rw (e, f) at h)
      | inr f ↦
          let parts : split_values tie_value step.criterion bucket ≡ split =
            ok_injective (rw (e, f) at h) in
          subst (λ bs. Perm (flatten bs) bucket) parts (split_values-perm step.criterion bucket)
    ]
  ]

  split_buckets-perm :
      (step : PipelineStep) (bs : List Bucket) {rest : List Bucket}
      → split_buckets tie_value s records step bs ≡ ok rest
      → Perm (flatten rest) (flatten bs)
  unfolding split_buckets
  split_buckets-perm step [] h = subst (λ bs. Perm (flatten bs) []) (ok_injective h) Perm.rfl
  split_buckets-perm step (b ∷ bs) h =
      let (first, e, g) =
        went_on (split_bucket tie_value s records step b)
          (λ first. split_buckets tie_value s records step bs >>= (λ rest. ok (first ++ rest))) h in
      let (rest, f, k) =
        went_on (split_buckets tie_value s records step bs) (λ rest. ok (first ++ rest)) g in
      subst (λ cs. Perm (flatten cs) (b ++ flatten bs)) (ok_injective k)
        (rw (flatten-append first rest)
          (Perm.append (split_bucket-perm step b e) (split_buckets-perm step bs f)))

  pub run_pipeline-perm :
      (steps : List PipelineStep) (bs : List Bucket) {final : List Bucket}
      → run_pipeline tie_value s records steps bs ≡ ok final
      → Perm (flatten final) (flatten bs)
  run_pipeline-perm [] bs h =
      subst (λ cs. Perm (flatten cs) (flatten bs)) (run_pipeline-nil tie_value s records bs h)
        Perm.rfl
  run_pipeline-perm (step ∷ steps) bs h =
      let (next, e, g) = run_pipeline-cons tie_value s records step steps bs h in
      Perm.trans (run_pipeline-perm steps next g) (split_buckets-perm step bs e)

  -- What holds of all rows before holds of all rows after.
  pub run_pipeline-All :
      (P : StandingRow → Type 0) (steps : List PipelineStep) (bs : List Bucket)
      {final : List Bucket}
      → run_pipeline tie_value s records steps bs ≡ ok final
      → All (All P) bs
      → All (All P) final
  run_pipeline-All P [] bs h k = subst (All (All P)) (run_pipeline-nil tie_value s records bs h) k
  run_pipeline-All P (step ∷ steps) bs h k =
      let (next, e, g) = run_pipeline-cons tie_value s records step steps bs h in
      run_pipeline-All P steps next g
        (Splits-All P (split_buckets-Splits tie_value s records step bs e) k)
