-- ===== src/Schedule/Tests.antt =====
-- Runs of the schedule builders on small draws.
use bracket_craft.Prelude.{
  suc, ◌+◌, ◌≤◌, ◌≡◌, refl, Bool, true, false, List, [], ◌∷◌, arith, length, count,
}
use bracket_craft.Prelude.Int.{pos}
use bracket_craft.Prelude.Errors.{Result, ok, raise}
use bracket_craft.Prelude.Teams.{Uuid}
use bracket_craft.Schedule.{ScheduleError, too_few_teams, foreign_heads, in_order, all_distinct}
use bracket_craft.Schedule.RoundRobin.{
  RoundRobinMatch, RoundRobinSchedule, Dates, build_round_robin_schedule,
}
use bracket_craft.Schedule.RoundRobin.Once.{meets, build_round_robin_schedule-meets_per_leg}
use bracket_craft.Schedule.RoundRobin.Meetings.{tally}
use bracket_craft.Schedule.Groups.{Group, distribute_groups}
use bracket_craft.Schedule.Groups.Balanced.{members, size_at}
use bracket_craft.Schedule.Groups.Draw.{distribute_groups-SameTeams, distribute_groups-Balanced}
use bracket_craft.Schedule.Brackets.{MatchCode, semifinal, Outcome, Bracket}
use bracket_craft.Schedule.SingleElimination.{ends_in_final, build_single_elimination_bracket}
use bracket_craft.Schedule.SingleElimination.Entrants.{is_team, sides_with, link_from, won}
use bracket_craft.Schedule.SingleElimination.Champion.{
  BracketArguments, build_single_elimination_bracket_total,
  build_single_elimination_bracket-enters_once, build_single_elimination_bracket-winners_go_on,
}

abbrev five : List Uuid
five = 11 ∷ 12 ∷ 13 ∷ 14 ∷ 15 ∷ []

abbrev weekly : Dates
weekly = record { start_date = 1000; round_interval_days = pos 7; match_interval_hours = pos 2 }

abbrev drawn : Result ScheduleError RoundRobinSchedule → List RoundRobinMatch
drawn (ok schedule) = schedule.matches
drawn (raise problem) = []

abbrev the_schedule : RoundRobinSchedule
unfolding build_round_robin_schedule all_distinct
the_schedule = record {
  seed = pos 4;
  legs = 2;
  round_count = 10;
  bye_count = 10;
  matches = drawn (build_round_robin_schedule in_order five (pos 4) weekly 2);
}

the_schedule-returned : build_round_robin_schedule in_order five (pos 4) weekly 2 ≡ ok the_schedule
unfolding build_round_robin_schedule all_distinct
the_schedule-returned = refl

build_round_robin_schedule-meets_per_leg_example : tally (meets 12 15) the_schedule.matches ≡ 2
build_round_robin_schedule-meets_per_leg_example =
    build_round_robin_schedule-meets_per_leg in_order five (pos 4) weekly 2 the_schedule
      the_schedule-returned 12 15 refl refl (ground arith)

too_few : build_round_robin_schedule in_order (11 ∷ []) (pos 4) weekly 1 ≡ raise too_few_teams
unfolding build_round_robin_schedule all_distinct
too_few = refl

abbrev two_groups : List Group
two_groups = (13 ∷ 11 ∷ 15 ∷ []) ∷ (12 ∷ 14 ∷ []) ∷ []

two_groups-returned : distribute_groups in_order five 2 (pos 9) (13 ∷ 12 ∷ []) ≡ ok two_groups
unfolding distribute_groups
two_groups-returned = refl

distribute_groups-SameTeams_example : count 15 (members two_groups) ≡ count 15 five
distribute_groups-SameTeams_example =
    distribute_groups-SameTeams in_order five 2 (pos 9) (13 ∷ 12 ∷ []) two_groups
      two_groups-returned 15

distribute_groups-Balanced_example : size_at 0 two_groups ≤ suc (size_at 1 two_groups)
distribute_groups-Balanced_example =
    distribute_groups-Balanced in_order five 2 (pos 9) (13 ∷ 12 ∷ []) two_groups two_groups-returned
      0 1 (omega arith) (omega arith)

foreign : distribute_groups in_order five 2 (pos 9) (13 ∷ 99 ∷ []) ≡ raise foreign_heads
unfolding distribute_groups
foreign = refl

abbrev bracket_or : Bracket → Result ScheduleError Bracket → Bracket
bracket_or b (ok bracket) = bracket
bracket_or b (raise problem) = b

abbrev no_bracket : Bracket
no_bracket = record {
  seed = pos 0;
  bracket_size = 0;
  round_count = 0;
  matches = [];
  advancement_links = [];
}

five_bracket : Bracket
unfolding build_single_elimination_bracket all_distinct
five_bracket = bracket_or no_bracket (build_single_elimination_bracket in_order five (pos 4) weekly)

five_bracket-returned :
    build_single_elimination_bracket in_order five (pos 4) weekly ≡ ok five_bracket
unfolding build_single_elimination_bracket all_distinct five_bracket
five_bracket-returned = refl

five-BracketArguments : BracketArguments five (pos 4) weekly
unfolding all_distinct
five-BracketArguments = record {
  two = omega arith;
  not_too_many = omega arith;
  apart = refl;
  seed_known = refl;
  days = refl;
  hours = refl;
}

build_single_elimination_bracket_total_example :
    (bracket : Bracket) × (build_single_elimination_bracket in_order five (pos 4) weekly
      ≡ ok bracket)
    × (ends_in_final bracket.matches ≡ true)
    × (suc (length bracket.matches) ≡ length five)
build_single_elimination_bracket_total_example =
    build_single_elimination_bracket_total in_order five (pos 4) weekly five-BracketArguments

build_single_elimination_bracket-enters_once_example :
    sides_with (is_team 15) five_bracket.matches ≡ 1
build_single_elimination_bracket-enters_once_example =
    build_single_elimination_bracket-enters_once in_order five (pos 4) weekly five_bracket
      five_bracket-returned 15

abbrev is_semifinal : MatchCode → Outcome → Bool
is_semifinal (semifinal n) o = true
is_semifinal code o = false

build_single_elimination_bracket-winners_go_on_example :
    tally (link_from is_semifinal) five_bracket.advancement_links + 0
    ≡ tally (won is_semifinal) five_bracket.matches
build_single_elimination_bracket-winners_go_on_example =
    build_single_elimination_bracket-winners_go_on in_order five (pos 4) weekly five_bracket
      five_bracket-returned is_semifinal
