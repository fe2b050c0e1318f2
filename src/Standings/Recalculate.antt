-- ===== src/Standings/Recalculate.antt =====
-- `recalculate` of backend/app/modules/standings/service.py: what it writes to the table of a stage,
-- from the rows its queries read. The locks are not modelled.
use bracket_craft.Prelude.{ℕ, ◌+◌, Option, none, some, List, [], ◌∷◌, map}
use bracket_craft.Prelude.Errors.{Result, ok, raise, ◌>>=◌, ◌>>◌}
use bracket_craft.Prelude.Teams.{Uuid}
use bracket_craft.Prelude.Grouping.{flatten, Groups, group_by}
use bracket_craft.Rules.{FairPlayPenalties, PipelineStep, RulesConfig}
use bracket_craft.HeadToHead.{HeadToHeadError, Scoring}
use bracket_craft.Standings.{
  StandingRow, StageTeam, CardRow, MatchRow, same_group, empty_rows, penalize_all, Records, Tally,
  tally_matches, with_difference, scoring_of,
}
use bracket_craft.Rules.Validation.{RulesError, validate_rules_config}
use bracket_craft.Standings.Pipeline.{Bucket, run_pipeline}

pub data StandingsError : Type 0 where
  missing_stage : StandingsError
  bad_rules : RulesError → StandingsError
  bad_head_to_head : HeadToHeadError → StandingsError

abbrev pub reraise {ℓ} : {E F : Type 0} {A : Type ℓ} → (E → F) → Result E A → Result F A
reraise f (ok a) = ok a
reraise f (raise e) = raise (f e)

-- The rows of a group with their ranks, from `rank` on.
pub record Ranked : Type 0 where
  pub rank : ℕ
  pub row : StandingRow

unfoldable pub number_rows : ℕ → Bucket → List Ranked
number_rows rank [] = []
number_rows rank (row ∷ rows) = record { rank = rank; row = row } ∷ number_rows (rank + 1) rows

-- The table after the loops over teams, cards and matches
unfoldable pub standings_tally :
    Scoring → FairPlayPenalties → List StageTeam → List CardRow → List MatchRow → Tally
unfolding tally_matches penalize_all empty_rows
standings_tally s penalties teams cards matches =
    tally_matches s matches
      (record { table = penalize_all penalties cards (empty_rows teams []); records = [] })

module _ (tie_value : Uuid → ℕ) where
  unfoldable pub rank_group :
      Scoring → Records → List PipelineStep → Bucket → Result HeadToHeadError (List Ranked)
  unfolding run_pipeline number_rows
  rank_group s records pipeline items = do
    buckets ← run_pipeline tie_value s records pipeline (items ∷ [])
    ok (number_rows 1 (flatten buckets))

  unfoldable pub rank_groups :
      Scoring
      → Records
      → List PipelineStep
      → Groups (Option Uuid) StandingRow
      → Result HeadToHeadError (Groups (Option Uuid) Ranked)
  unfolding rank_group
  rank_groups s records pipeline [] = ok []
  rank_groups s records pipeline ((g, items) ∷ more) = do
    ranked ← rank_group s records pipeline items
    rest ← rank_groups s records pipeline more
    ok ((g, ranked) ∷ rest)

  -- `teams_by_group` and the loop over it
  unfoldable pub rank_table :
      Scoring → List PipelineStep → Tally → Result HeadToHeadError (Groups (Option Uuid) Ranked)
  unfolding rank_groups group_by with_difference
  rank_table s pipeline t =
      rank_groups s t.records pipeline
        (group_by same_group (λ row. row.group_id) (map with_difference t.table))

  -- The new rows of `standings`, by group; nothing is written when it raises.
  unfoldable pub recalculate :
      Option RulesConfig
      → List StageTeam
      → List CardRow
      → List MatchRow
      → Result StandingsError (Groups (Option Uuid) Ranked)
  unfolding standings_tally rank_table
  recalculate none teams cards matches = raise missing_stage
  recalculate (some config) teams cards matches = do
    reraise bad_rules (validate_rules_config config)
    reraise bad_head_to_head (
        rank_table (scoring_of config.points_system) config.ranking_pipeline (
          standings_tally (scoring_of config.points_system) config.discipline.fair_play_penalties
            teams cards matches))
