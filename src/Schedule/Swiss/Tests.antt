-- ===== src/Schedule/Swiss/Tests.antt =====
-- Runs of the Swiss draw.
use bracket_craft.Prelude.{ℕ, ◌≡◌, refl, none, some, List, [], ◌∷◌}
use bracket_craft.Prelude.Int.{pos}
use bracket_craft.Prelude.Sort.{insort, sort_by}
use bracket_craft.Prelude.Errors.{ok, raise}
use bracket_craft.Prelude.Teams.{Uuid}
use bracket_craft.Schedule.{no_valid_pairing, budget_exhausted, all_distinct, validate_team_ids}
use bracket_craft.Schedule.Swiss.{
  SwissStanding, score_le, candidate_le, orientation_le, orientation_options, after_result,
  after_options, try_options, try_candidates, pair_remaining,
}
use bracket_craft.Schedule.Swiss.Draw.{
  SwissPairing, default_budget, first_option, prepend, pick_candidate, after_pick, greedy,
  attempt_of, search_byes, fallback_of, greedy_byes, bye_le, search_draw, fallback_draw, assemble,
  assemble_fallback, assemble_search, SwissRequest, input_of, build_swiss_pairings,
}
use bracket_craft.Schedule.Swiss.Built.{IsSwissRound, build_swiss_pairings-IsSwissRound}
use bracket_craft.Schedule.Swiss.Failure.{RoundExists, build_swiss_pairings_conclusive}

abbrev row : Uuid → ℕ → ℕ → ℕ → SwissStanding
row t points won rank = record { team_id = t; points = points; won = won; rank = rank }

-- Five teams after one round: 1 has beaten 2, 3 and 4 have drawn, and 5 had the bye.
abbrev five_teams : List Uuid
five_teams = 1 ∷ 2 ∷ 3 ∷ 4 ∷ 5 ∷ []

abbrev second_round : SwissRequest
second_round = record {
  standings = row 1 3 1 1 ∷ row 5 3 1 2 ∷ row 3 1 0 3 ∷ row 4 1 0 4 ∷ row 2 0 0 5 ∷ [];
  prior_pairs = (1, 2) ∷ (3, 4) ∷ [];
  home_counts = (1, 1) ∷ (3, 1) ∷ [];
  away_counts = (2, 1) ∷ (4, 1) ∷ [];
  home_target = some 2;
  away_target = some 2;
  bye_counts = (5, 1) ∷ [];
  budget = default_budget;
}

abbrev in_turn : ℕ → ℕ → ℕ
in_turn seed n = n

abbrev match : Uuid → Uuid → SwissPairing
match x y = record { home_team_id = some x; away_team_id = some y; bye_team_id = none }

abbrev rests : Uuid → SwissPairing
rests t = record { home_team_id = none; away_team_id = none; bye_team_id = some t }

abbrev the_pairings : List SwissPairing
the_pairings = match 1 3 ∷ match 4 5 ∷ rests 2 ∷ []

the_pairings-returned :
    build_swiss_pairings in_turn five_teams (pos 7) (pos 2) second_round ≡ ok the_pairings
unfolding build_swiss_pairings validate_team_ids all_distinct sort_by insort score_le candidate_le
    orientation_le orientation_options search_draw search_byes attempt_of pair_remaining
    try_candidates try_options after_options after_result bye_le assemble_search assemble_fallback
    fallback_draw greedy_byes fallback_of greedy after_pick pick_candidate first_option prepend
    assemble
the_pairings-returned = refl

build_swiss_pairings-IsSwissRound_example :
    IsSwissRound
      (input_of (in_turn 7) five_teams second_round)
      second_round.home_counts
      second_round.away_counts
      five_teams
      the_pairings
build_swiss_pairings-IsSwissRound_example =
    build_swiss_pairings-IsSwissRound in_turn five_teams (pos 7) (pos 2) second_round
      the_pairings-returned

-- A budget of one evaluation for the search: the fallback draws.
abbrev short_search : SwissRequest
short_search = record second_round {
  prior_pairs = (1, 2) ∷ [];
  budget = record { search_limit = 1; total_limit = 100; evaluations = 0 };
}

fallback_returned :
    build_swiss_pairings in_turn five_teams (pos 7) (pos 2) short_search
    ≡ ok (match 5 1 ∷ match 4 3 ∷ rests 2 ∷ [])
unfolding build_swiss_pairings validate_team_ids all_distinct sort_by insort score_le candidate_le
    orientation_le orientation_options search_draw search_byes attempt_of pair_remaining
    try_candidates try_options after_options after_result bye_le assemble_search assemble_fallback
    fallback_draw greedy_byes fallback_of greedy after_pick pick_candidate first_option prepend
    assemble
fallback_returned = refl

budget_used :
    build_swiss_pairings in_turn five_teams
      (pos 7)
      (pos 2)
      record second_round { budget = record { search_limit = 0; total_limit = 0; evaluations = 0 } }
    ≡ raise budget_exhausted
unfolding build_swiss_pairings validate_team_ids all_distinct sort_by insort score_le candidate_le
    orientation_le orientation_options search_draw search_byes attempt_of pair_remaining
    try_candidates try_options after_options after_result bye_le assemble_search assemble_fallback
    fallback_draw greedy_byes fallback_of greedy after_pick pick_candidate first_option prepend
    assemble
budget_used = refl

-- Three of the four teams have all met each other.
abbrev four_teams : List Uuid
four_teams = 1 ∷ 2 ∷ 3 ∷ 4 ∷ []

abbrev late_round : SwissRequest
late_round = record second_round { prior_pairs = (1, 2) ∷ (2, 3) ∷ (3, 1) ∷ [] }

late_round_raised :
    build_swiss_pairings in_turn four_teams (pos 7) (pos 4) late_round ≡ raise no_valid_pairing
unfolding build_swiss_pairings validate_team_ids all_distinct sort_by insort score_le candidate_le
    orientation_le orientation_options search_draw search_byes attempt_of pair_remaining
    try_candidates try_options after_options after_result bye_le assemble_search assemble_fallback
    fallback_draw greedy_byes fallback_of greedy after_pick pick_candidate first_option prepend
    assemble
late_round_raised = refl

build_swiss_pairings_conclusive_example :
    ¬ RoundExists
      (input_of (in_turn 7) four_teams late_round)
      late_round.home_counts
      late_round.away_counts
      four_teams
build_swiss_pairings_conclusive_example =
    build_swiss_pairings_conclusive in_turn four_teams (pos 7) (pos 4) late_round late_round_raised
