-- ===== src/Standings/Lexicographic.antt =====
-- The order that the pipeline gives: lexicographic by the criteria before the first `head_to_head`.
use bracket_craft.Prelude.{
  ltb→lt, ℕ, ◌<◌, ◌≡◌, subst, inl, inr, Bool, true, false, ◌&&◌, ◌||◌, not, Option, none, some,
  List, [], ◌∷◌, ◌++◌, arith, ltb, leb, if◌then◌else◌, Bool-cases, length,
}
use bracket_craft.Prelude.Int.{ℤ, leb_ℤ}
use bracket_craft.Prelude.Errors.{Result, ok, ◌>>=◌, went_on, ok_injective}
use bracket_craft.Prelude.Teams.{Uuid}
use bracket_craft.Prelude.Grouping.{group}
use bracket_craft.Rules.{Criterion, head_to_head, random_draw, PipelineStep}
use bracket_craft.HeadToHead.{
  MatchRecord, HeadToHeadStats, PointsUpdate, HeadToHeadError, Scoring, Verdict, home_wins,
  away_wins, drawn, names, calculate_head_to_head_stats,
}
use bracket_craft.Standings.{StandingRow, same_group, Records}
use bracket_craft.HeadToHead
use bracket_craft.Rules.Validation.{same_criterion}
use bracket_craft.Standings.Pipeline.{
  ranking_value, mini_le, mini_key, split_stats, group_of, ids_of, rounds_of, update_of, Bucket,
  split_values, split_mini_table, split_bucket, split_buckets,
}
use bracket_craft.Standings.Layers.{Layered, Within, key_above, split_by-Within, split_by-Layered}
use bracket_craft.Standings.Splits.{Splits, nil, cons}

abbrev pub is_head_to_head : PipelineStep → Bool
is_head_to_head s = same_criterion s.criterion head_to_head

-- The criteria before the first `head_to_head`
abbrev pub leading : List PipelineStep → List Criterion
leading [] = []
leading (s ∷ steps) = if is_head_to_head s then [] else s.criterion ∷ leading steps

leb_total : (j k : ℕ) → leb j k ≡ false → leb k j ≡ true
leb_total j k h = ground arith

leb_trans : (i j k : ℕ) → leb i j ≡ true → leb j k ≡ true → leb i k ≡ true
leb_trans i j k h g = ground arith

leb_ℤ_total : (j k : ℤ) → leb_ℤ j k ≡ false → leb_ℤ k j ≡ true
leb_ℤ_total j k h = ground arith

leb_ℤ_trans : (i j k : ℤ) → leb_ℤ i j ≡ true → leb_ℤ j k ≡ true → leb_ℤ i k ≡ true
leb_ℤ_trans i j k h g = ground arith

module _ (tie_value : Uuid → ℕ) where
  -- Strictly better by one criterion
  unfoldable pub better : Criterion → StandingRow → StandingRow → Bool
  better criterion =
      if same_criterion criterion random_draw
      then key_above leb (λ row. tie_value row.team_id)
      else key_above leb_ℤ (ranking_value criterion)

  -- Strictly better by the first criterion that tells the two rows apart
  unfoldable pub outranks : List Criterion → StandingRow → StandingRow → Bool
  unfolding better
  outranks [] a b = false
  outranks (c ∷ cs) a b = better c a b || (not (better c b a) && outranks cs a b)

  pub better-asym : (c : Criterion) (a b : StandingRow) → better c a b ≡ true → better c b a ≡ false
  unfolding better
  better-asym c a b = elim (Bool-cases (same_criterion c random_draw)) [
    | inl e ↦ rw e (λ h. ground (arith, leb_total (tie_value a.team_id) (tie_value b.team_id)))
    | inr e ↦ rw e (λ h. ground (arith, leb_ℤ_total (ranking_value c a) (ranking_value c b)))
  ]

  split_values-Within :
      (c : Criterion) (bucket : Bucket) → Within bucket (split_values tie_value c bucket)
  unfolding split_values
  split_values-Within c bucket = elim (Bool-cases (same_criterion c random_draw)) [
    | inl e ↦ rw e (split_by-Within leb (λ row. tie_value row.team_id) bucket)
    | inr e ↦ rw e (split_by-Within leb_ℤ (ranking_value c) bucket)
  ]

  split_values-Layered :
      (c : Criterion) (bucket : Bucket) → Layered (better c) (split_values tie_value c bucket)
  unfolding split_values better
  split_values-Layered c bucket = elim (Bool-cases (same_criterion c random_draw)) [
    | inl e ↦ rw e (split_by-Layered leb (λ row. tie_value row.team_id) leb_total leb_trans bucket)
    | inr e ↦ rw e (split_by-Layered leb_ℤ (ranking_value c) leb_ℤ_total leb_ℤ_trans bucket)
  ]

  single-Within : (bucket : Bucket) → Within bucket (bucket ∷ [])
  single-Within bucket P h = (h, tt)

  single-Layered :
      (c : Criterion) (bucket : Bucket) → length bucket < 2 → Layered (better c) (bucket ∷ [])
  single-Layered c [] h = (tt, (tt, tt))
  single-Layered c (a ∷ []) h = ((((self, self), tt), tt), (tt, tt))
    where
      self : better c a a ≡ false
      self = ground (arith, better-asym c a a)
  single-Layered c (a ∷ b ∷ rest) h = absurd (omega arith)

  split_stats-Within :
      (bucket : Bucket) (stats : Option HeadToHead.Table) → Within bucket (split_stats bucket stats)
  unfolding split_stats
  split_stats-Within bucket none = single-Within bucket
  split_stats-Within bucket (some table) = split_by-Within mini_le (mini_key table) bucket

  module _ (s : Scoring) (records : Records) where
    abbrev mini_stats : Option ℤ → Bucket → Result HeadToHeadError (Option HeadToHead.Table)
    mini_stats rounds bucket =
        calculate_head_to_head_stats (ids_of bucket) (group same_group (group_of bucket) records)
          (rounds_of rounds) (some (update_of s))

    split_mini_table-Within :
        (rounds : Option ℤ) (bucket : Bucket) {split : List Bucket}
        → split_mini_table tie_value s records rounds bucket ≡ ok split
        → Within bucket split
    unfolding split_mini_table
    split_mini_table-Within rounds bucket {split} h =
        let (stats, e, f) = went_on (mini_stats rounds bucket) (λ t. ok (split_stats bucket t)) h in
        subst (Within bucket) (ok_injective f) (split_stats-Within bucket stats)

    -- What is known of the parts of a bucket after a step
    abbrev pub Parts : PipelineStep → List Bucket → Type 0
    Parts step split = if is_head_to_head step then Unit else Layered (better step.criterion) split

    single-Parts :
        (step : PipelineStep) (bucket : Bucket) → length bucket < 2 → Parts step (bucket ∷ [])
    single-Parts step bucket h = elim (Bool-cases (is_head_to_head step)) [
      | inl e ↦ rw e tt
      | inr e ↦ rw e (single-Layered step.criterion bucket h)
    ]

    split_bucket-Splits :
        (step : PipelineStep) (bucket : Bucket) {split : List Bucket}
        → split_bucket tie_value s records step bucket ≡ ok split
        → Within bucket split × Parts step split
    unfolding split_bucket
    split_bucket-Splits step bucket {split} h = elim (Bool-cases (ltb (length bucket) 2)) [
      | inl e ↦
          let same_bucket : bucket ∷ [] ≡ split = ok_injective (rw e at h) in
          subst (λ bs. Within bucket bs × Parts step bs) same_bucket
            (single-Within bucket, single-Parts step bucket (ltb→lt _ _ e))
      | inr e ↦ elim (Bool-cases (is_head_to_head step)) [
        | inl f ↦
            let whole : split_mini_table tie_value s records step.total_rounds_expected bucket
                ≡ ok split =
              rw (e, f) at h in
            (split_mini_table-Within step.total_rounds_expected bucket whole, rw f tt)
        | inr f ↦
            let parts : split_values tie_value step.criterion bucket ≡ split =
              ok_injective (rw (e, f) at h) in
            subst (λ bs. Within bucket bs × Parts step bs) parts
              (
                split_values-Within step.criterion bucket,
                rw f (split_values-Layered step.criterion bucket),
              )
      ]
    ]

    pub split_buckets-Splits :
        (step : PipelineStep) (bs : List Bucket) {rest : List Bucket}
        → split_buckets tie_value s records step bs ≡ ok rest
        → Splits (Parts step) bs rest
    unfolding split_buckets
    split_buckets-Splits step [] h = subst (Splits (Parts step) []) (ok_injective h) nil
    split_buckets-Splits step (b ∷ bs) h =
        let (first, e, g) =
          went_on (split_bucket tie_value s records step b)
            (λ first. split_buckets tie_value s records step bs >>= (λ rest. ok (first ++ rest)))
            h in
        let (rest, f, k) =
          went_on (split_buckets tie_value s records step bs) (λ rest. ok (first ++ rest)) g in
        let (w, q) = split_bucket-Splits step b e in
        subst (Splits (Parts step) (b ∷ bs)) (ok_injective k)
          (cons w q (split_buckets-Splits step bs f))
