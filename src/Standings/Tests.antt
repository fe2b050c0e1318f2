-- ===== src/Standings/Tests.antt =====
-- A stage with three teams in one group, and the witnesses of the standings.
use bracket_craft.Prelude.{ℕ, ◌*◌, ◌%◌, ◌≡◌, refl, true, Option, none, some, List, [], ◌∷◌, All}
use bracket_craft.Prelude.Int.{◌+ℤ◌, ◌-ℤ◌}
use bracket_craft.Prelude.Sort.{insort, sort_by}
use bracket_craft.Prelude.Errors.{ok, raise}
use bracket_craft.Prelude.Teams.{Uuid}
use bracket_craft.Prelude.Grouping.{Groups, add_to, group, add_all, group_by}
use bracket_craft.HeadToHead.{calculate_head_to_head_stats}
use bracket_craft.Standings.{
  StageTeam, red_card, CardRow, MatchRow, empty_row, empty_rows, penalty, fine, penalize,
  penalize_all, match_verdict, count_match, add_win, add_loss, add_draw, home_result, away_result,
  apply_match, record_of, counted, add_record, tally_match, tally_matches, with_difference,
  scoring_of,
}
use bracket_craft.Standings.Pipeline.{split_buckets, run_pipeline}
use bracket_craft.Standings.Pipeline.{
  split_stats, ids_of, split_values, split_mini_table, split_bucket,
}
use bracket_craft.Standings.Recalculate.{
  Ranked, number_rows, standings_tally, rank_group, rank_groups, rank_table, recalculate,
}
use bracket_craft.Standings.Ranks.{
  rows_of, all_rows, IsStandings, final_table, recalculate-IsStandings,
}
use bracket_craft.Rules.Validation.{validate_rules_config}
use bracket_craft.HeadToHead.{
  mini_table, count_pairs, relevant, initial_counts, is_complete, score_all, score_match,
  away_points, credit, empty_table, home_points, scoring, verdict,
}
use bracket_craft.Standings.Pipeline.{ranking_value}
use bracket_craft.Rules.Tests.{league, league-valid}
use bracket_craft.Standings.Consistent.{Sound, final_table-Sound}
use bracket_craft.Standings.Validated.{ByPoints, recalculate_returns, recalculate-ByPoints}

abbrev tie : Uuid → ℕ
tie t = t * 7 % 5

abbrev three_teams : List StageTeam
three_teams =
    record { team_id = 1; group_id = some 9 }
    ∷ record { team_id = 2; group_id = some 9 }
    ∷ record { team_id = 3; group_id = some 9 }
    ∷ []

abbrev one_card : List CardRow
one_card = record { team_id = some 2; event_type = red_card; is_double_yellow_red = true } ∷ []

abbrev result : Uuid → Uuid → ℕ → ℕ → MatchRow
result h a x y = record {
  group_id = some 9;
  home_team_id = some h;
  away_team_id = some a;
  home_score = some x;
  away_score = some y;
  winner_team_id = none;
}

-- Teams 1 and 2 have four points each, and their match was drawn.
abbrev three_matches : List MatchRow
three_matches = result 1 2 1 1 ∷ result 3 1 0 2 ∷ result 2 3 1 0 ∷ []

abbrev written : Groups (Option Uuid) Ranked
unfolding recalculate validate_rules_config tally_match penalize empty_row fine add_draw add_win
    add_loss ranking_value calculate_head_to_head_stats mini_table count_pairs relevant
    initial_counts is_complete score_all score_match away_points credit empty_table home_points
    scoring verdict add_all add_to group group_by ◌+ℤ◌ ◌-ℤ◌ insort sort_by run_pipeline split_bucket
    split_buckets split_mini_table split_stats split_values number_rows rank_group rank_groups
    rank_table standings_tally add_record apply_match away_result count_match counted empty_rows
    home_result match_verdict penalize_all penalty record_of tally_matches with_difference
written = elim (recalculate tie (some league) three_teams one_card three_matches) [
  | ok groups ↦ groups
  | raise e ↦ []
]

ran : recalculate tie (some league) three_teams one_card three_matches ≡ ok written
unfolding recalculate validate_rules_config tally_match penalize empty_row fine add_draw add_win
    add_loss ranking_value calculate_head_to_head_stats mini_table count_pairs relevant
    initial_counts is_complete score_all score_match away_points credit empty_table home_points
    scoring verdict add_all add_to group group_by ◌+ℤ◌ ◌-ℤ◌ insort sort_by run_pipeline split_bucket
    split_buckets split_mini_table split_stats split_values number_rows rank_group rank_groups
    rank_table standings_tally add_record apply_match away_result count_match counted empty_rows
    home_result match_verdict penalize_all penalty record_of tally_matches with_difference
ran = refl

recalculate-IsStandings_example :
    IsStandings tie league.ranking_pipeline
      (final_table league three_teams one_card three_matches)
      written
recalculate-IsStandings_example =
    recalculate-IsStandings tie league three_teams one_card three_matches ran

recalculate-ByPoints_example : All (λ e. ByPoints (rows_of e.1)) written
recalculate-ByPoints_example =
    recalculate-ByPoints tie league three_teams one_card three_matches ran

recalculate_returns_example :
    (groups : Groups (Option Uuid) Ranked) × (recalculate tie
        (some league)
        three_teams
        one_card
        three_matches
      ≡ ok groups)
recalculate_returns_example =
    recalculate_returns tie league three_teams one_card three_matches league-valid

final_table-Sound_example :
    Sound (scoring_of league.points_system) (final_table league three_teams one_card three_matches)
final_table-Sound_example = final_table-Sound league three_teams one_card three_matches

-- The draw decides between 1 and 2, since their mini-table is level.
order_of_three : ids_of (all_rows written) ≡ 2 ∷ 1 ∷ 3 ∷ []
unfolding recalculate validate_rules_config tally_match penalize empty_row fine add_draw add_win
    add_loss ranking_value calculate_head_to_head_stats mini_table count_pairs relevant
    initial_counts is_complete score_all score_match away_points credit empty_table home_points
    scoring verdict add_all add_to group group_by ◌+ℤ◌ ◌-ℤ◌ insort sort_by run_pipeline split_bucket
    split_buckets split_mini_table split_stats split_values number_rows rank_group rank_groups
    rank_table standings_tally add_record apply_match away_result count_match counted empty_rows
    home_result match_verdict penalize_all penalty record_of tally_matches with_difference
order_of_three = refl
