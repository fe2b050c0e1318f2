-- ===== src/Schedule/DoubleElimination/Tests.antt =====
-- Runs of the double elimination.
use bracket_craft.Prelude.{◌≡◌, refl, List, [], ◌∷◌}
use bracket_craft.Prelude.Int.{pos}
use bracket_craft.Prelude.Errors.{Result, ok, raise}
use bracket_craft.Prelude.Teams.{Uuid}
use bracket_craft.Schedule.{
  ScheduleError, not_power_of_two, in_order, all_distinct, validate_team_ids, schedule_date,
}
use bracket_craft.Schedule.Brackets.{
  MatchCode, winners_match, losers_match, grand_final, GeneratedMatch, bit_length, bit_length_in,
}
use bracket_craft.Schedule.RoundRobin.{Dates}
use bracket_craft.Schedule.DoubleElimination.{
  DoubleBracket, bit_and, bit_and_in, new_match, pair_round, winners_rounds, major_round,
  losers_rounds, losers_bracket, last_match, last_loser, play_double,
  build_double_elimination_bracket,
}
use bracket_craft.Schedule.DoubleElimination.Built.{
  IsDoubleElimination, build_double_elimination_bracket-IsDoubleElimination,
}

abbrev four_teams : List Uuid
four_teams = 11 ∷ 12 ∷ 13 ∷ 14 ∷ []

abbrev weekly : Dates
weekly = record { start_date = 1000; round_interval_days = pos 7; match_interval_hours = pos 2 }

abbrev codes : List GeneratedMatch → List MatchCode
codes [] = []
codes (m ∷ ms) = m.code ∷ codes ms

abbrev codes_of : Result ScheduleError DoubleBracket → List MatchCode
codes_of (ok b) = codes b.bracket.matches
codes_of (raise problem) = []

codes_of_four :
    codes_of (build_double_elimination_bracket in_order four_teams (pos 5) weekly)
    ≡ winners_match 1 1
      ∷ winners_match 1 2
      ∷ winners_match 2 1
      ∷ losers_match 3 1
      ∷ losers_match 4 1
      ∷ grand_final
      ∷ []
unfolding build_double_elimination_bracket validate_team_ids all_distinct bit_length bit_length_in
    bit_and bit_and_in play_double winners_rounds pair_round new_match losers_bracket losers_rounds
    major_round last_match last_loser schedule_date
codes_of_four = refl

five_raised :
    build_double_elimination_bracket in_order (15 ∷ four_teams) (pos 5) weekly
    ≡ raise not_power_of_two
unfolding build_double_elimination_bracket validate_team_ids all_distinct bit_and bit_and_in
five_raised = refl

build_double_elimination_bracket-IsDoubleElimination_example :
    (b : DoubleBracket) × (build_double_elimination_bracket in_order four_teams (pos 5) weekly
      ≡ ok b)
    × IsDoubleElimination four_teams b
unfolding all_distinct
build_double_elimination_bracket-IsDoubleElimination_example =
    build_double_elimination_bracket-IsDoubleElimination in_order four_teams (pos 5) weekly
      (record {
        exponent = 0;
        power_of_two = refl;
        apart = refl;
        seed_known = refl;
        days = refl;
        hours = refl;
      })
