-- ===== src/Standings/Validated.antt =====
-- What the validation of the rules gives the recalculation: it returns, and points come first.
use bracket_craft.Prelude.{
  ℕ, ◌≡◌, refl, inl, inr, true, false, ◌||◌, not, Option, none, some, List, [], ◌∷◌, ◌++◌, map,
  arith, ltb, leb, ◌==◌, Bool-cases, length, any, All, All-mono,
}
use bracket_craft.Prelude.Int.{ℤ, pos, leb_ℤ}
use bracket_craft.Prelude.Sort.{IsSorted}
use bracket_craft.Prelude.Errors.{Result, ok, went_past}
use bracket_craft.Prelude.Teams.{Uuid}
use bracket_craft.Prelude.Grouping.{Groups, group_by}
use bracket_craft.Rules.{Criterion, head_to_head, PipelineStep, RulesConfig}
use bracket_craft.HeadToHead.{Scoring, calculate_head_to_head_stats}
use bracket_craft.Standings.{
  StandingRow, StageTeam, CardRow, MatchRow, same_group, Records, Tally, with_difference,
  scoring_of,
}
use bracket_craft.Standings.Pipeline.{ranking_value, Bucket, split_buckets, run_pipeline}
use bracket_craft.Standings.Lexicographic.{leading, better, outranks}
use bracket_craft.Standings.Pipeline.{rounds_of, split_mini_table, split_bucket}
use bracket_craft.Standings.Ranking.{InOrder}
use bracket_craft.Standings.Recalculate.{
  Ranked, number_rows, standings_tally, rank_group, rank_groups, rank_table, recalculate,
}
use bracket_craft.Prelude.Grouping.{flatten}
use bracket_craft.Standings.Ranks.{rows_of, recalculate_steps, recalculate-IsStandings}
use bracket_craft.Rules.Schema.{schema_ok}
use bracket_craft.Rules.Validation.{
  validate_effective_rules, sequential, no_repeats, draw_before_end, players_conflict, bad_schema,
  bad_players, bad_steps, repeated_criterion, points_not_first, draw_not_last, bad_rounds_expected,
  validate_rules_config, same_criterion, one_or_two, rounds_missing, first_is_points,
}
use bracket_craft.Rules.{points}

abbrev Returns : {E A : Type 0} → Result E A → Type 0
Returns {A = A} r = (a : A) × (r ≡ ok a)

rounds_of-valid :
    (rounds : Option ℤ)
    → one_or_two rounds ≡ true
    → (rounds_of rounds == 1 || rounds_of rounds == 2) ≡ true
rounds_of-valid none h = cc
rounds_of-valid (some z) h = ground arith

module _ (tie_value : Uuid → ℕ) (s : Scoring) (records : Records) where
  split_mini_table-Returns :
      (rounds : Option ℤ) (bucket : Bucket)
      → one_or_two rounds ≡ true
      → Returns (split_mini_table tie_value s records rounds bucket)
  unfolding split_mini_table calculate_head_to_head_stats
  split_mini_table-Returns rounds bucket h = rw (rounds_of-valid rounds h) (_, refl)

  split_bucket-Returns :
      (step : PipelineStep) (bucket : Bucket)
      → rounds_missing step ≡ false
      → Returns (split_bucket tie_value s records step bucket)
  unfolding split_bucket
  split_bucket-Returns step bucket h = elim (Bool-cases (ltb (length bucket) 2)) [
    | inl e ↦ rw e (_, refl)
    | inr e ↦ elim (Bool-cases (same_criterion step.criterion head_to_head)) [
      | inl f ↦
          rw (e, f) (split_mini_table-Returns step.total_rounds_expected bucket (ground arith))
      | inr f ↦ rw (e, f) (_, refl)
    ]
  ]

  split_buckets-Returns :
      (step : PipelineStep) (bs : List Bucket)
      → rounds_missing step ≡ false
      → Returns (split_buckets tie_value s records step bs)
  unfolding split_buckets
  split_buckets-Returns step [] h = (_, refl)
  split_buckets-Returns step (b ∷ bs) h =
      let (first, e) = split_bucket-Returns step b h in
      let (rest, f) = split_buckets-Returns step bs h in (first ++ rest, rw (e, f))

  run_pipeline-Returns :
      (steps : List PipelineStep) (bs : List Bucket)
      → any rounds_missing steps ≡ false
      → Returns (run_pipeline tie_value s records steps bs)
  unfolding run_pipeline
  run_pipeline-Returns [] bs h = (_, refl)
  run_pipeline-Returns (step ∷ steps) bs h =
      let (next, e) = split_buckets-Returns step bs (ground arith) in
      let (final, f) = run_pipeline-Returns steps next (ground arith) in (final, rw e f)

  rank_groups-Returns :
      (steps : List PipelineStep) (groups : Groups (Option Uuid) StandingRow)
      → any rounds_missing steps ≡ false
      → Returns (rank_groups tie_value s records steps groups)
  unfolding rank_groups rank_group
  rank_groups-Returns steps [] h = (_, refl)
  rank_groups-Returns steps ((g, items) ∷ more) h =
      let (final, e) = run_pipeline-Returns steps (items ∷ []) h in
      let (rest, f) = rank_groups-Returns steps more h in
      ((g, number_rows 1 (flatten final)) ∷ rest, rw (e, f))

validate_rules_config-pipeline :
    (config : RulesConfig)
    → validate_rules_config config ≡ ok tt
    → (first_is_points config.ranking_pipeline ≡ true)
      × (any rounds_missing config.ranking_pipeline ≡ false)
unfolding validate_rules_config
validate_rules_config-pipeline config h =
    let h1 = went_past (not (schema_ok config)) bad_schema _ h in
    let h2 =
      went_past (players_conflict config.min_players_per_team config.max_players_per_team)
        bad_players _ h1.1 in
    let h3 = went_past (not (sequential 1 config.ranking_pipeline)) bad_steps _ h2.1 in
    let h4 = went_past (not (no_repeats config.ranking_pipeline)) repeated_criterion _ h3.1 in
    let h5 = went_past (not (first_is_points config.ranking_pipeline)) points_not_first _ h4.1 in
    let h6 = went_past (draw_before_end config.ranking_pipeline) draw_not_last _ h5.1 in
    let h7 =
      went_past (any rounds_missing config.ranking_pipeline) bad_rounds_expected
        (validate_effective_rules config) h6.1 in
    (ground (arith, h5.0), h7.0)

-- Under rules that pass their validation the recalculation always returns, whatever the rows of its
-- queries are; in particular no head-to-head step of the pipeline raises.
pub recalculate_returns :
    (tie_value : Uuid → ℕ) (config : RulesConfig) (teams : List StageTeam) (cards : List CardRow)
    (matches : List MatchRow)
    → validate_rules_config config ≡ ok tt
    → (groups : Groups (Option Uuid) Ranked) × (recalculate tie_value
          (some config)
          teams
          cards
          matches
        ≡ ok groups)
unfolding recalculate rank_table
recalculate_returns tie_value config teams cards matches h =
    let (groups, e) =
      rank_groups-Returns tie_value scoring tally.records config.ranking_pipeline
        (group_by same_group (λ row. row.group_id) (map with_difference tally.table))
        (validate_rules_config-pipeline config h).1 in
    (groups, rw (h, e))
  where
    scoring : Scoring
    scoring = scoring_of config.points_system

    tally : Tally
    tally = standings_tally scoring config.discipline.fair_play_penalties teams cards matches

pos_below : (a b : ℕ) → not (leb_ℤ (pos b) (pos a)) ≡ false → leb b a ≡ true
pos_below a b h = ground arith

is_points : (c : Criterion) → same_criterion c points ≡ true → c ≡ points
is_points points h = refl
is_points Criterion.head_to_head h = cc
is_points Criterion.goal_difference h = cc
is_points Criterion.goals_for h = cc
is_points Criterion.goals_against h = cc
is_points Criterion.fair_play_points h = cc
is_points Criterion.random_draw h = cc

points_decide :
    (tie_value : Uuid → ℕ) (cs : List Criterion) (a b : StandingRow)
    → not (outranks tie_value (points ∷ cs) b a) ≡ true
    → leb b.points a.points ≡ true
unfolding outranks better ranking_value
points_decide tie_value cs a b h = pos_below a.points b.points (ground arith)

-- Equal or fewer points below
abbrev pub ByPoints : Bucket → Type 0
ByPoints = IsSorted (λ a b. leb b.points a.points)

leading-points :
    (tie_value : Uuid → ℕ) (pipeline : List PipelineStep) (rows : Bucket)
    → first_is_points pipeline ≡ true
    → InOrder (outranks tie_value (leading pipeline)) rows
    → ByPoints rows
unfolding first_is_points
leading-points tie_value [] rows f h = cc
leading-points tie_value (step ∷ steps) rows f h =
    sorted rows (rw (is_points step.criterion f) at h)
  where
    sorted :
        (rows : Bucket) → InOrder (outranks tie_value (points ∷ leading steps)) rows → ByPoints rows
    sorted [] h = tt
    sorted (row ∷ rows) h = (
      All-mono _ _ rows (λ b. points_decide tie_value (leading steps) row b) h.0,
      sorted rows h.1,
    )

-- Whenever a recalculation returns, in every group no row is placed below one with fewer points.
pub recalculate-ByPoints :
    (tie_value : Uuid → ℕ) (config : RulesConfig) (teams : List StageTeam) (cards : List CardRow)
    (matches : List MatchRow) {groups : Groups (Option Uuid) Ranked}
    → recalculate tie_value (some config) teams cards matches ≡ ok groups
    → All (λ e. ByPoints (rows_of e.1)) groups
recalculate-ByPoints tie_value config teams cards matches {groups} h =
    All-mono _ _ groups
      (λ e r. leading-points tie_value config.ranking_pipeline (rows_of e.1) first r.order)
      (recalculate-IsStandings tie_value config teams cards matches h).ranked
  where
    first : first_is_points config.ranking_pipeline ≡ true
    first =
        (validate_rules_config-pipeline config
          (recalculate_steps tie_value config teams cards matches h).0).0
