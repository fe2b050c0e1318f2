-- ===== src/Rules/Tests.antt =====
-- Runs of the rules engine and of the minutes and walkovers of a match.
use bracket_craft.Prelude.{
  ◌<◌, All, ◌++◌, Option, ℕ, ◌+◌, ◌/◌, ◌≤◌, ◌≡◌, refl, ◌↔◌, ◌⊎◌, Bool, true, false, none, some,
  List, [], ◌∷◌, arith, elem,
}
use bracket_craft.Prelude.Int.{pos, leb_ℤ}
use bracket_craft.Prelude.Errors.{ok, raise}
use bracket_craft.Prelude.Teams.{Uuid}
use bracket_craft.Rules.{
  v3_2_0, effective_substitutions, effective_roster_lock_matchday, effective_stage_rules, v3_3_0,
  eleven_a_side, points, head_to_head, random_draw, DisciplineRules, RulesConfig,
  default_substitutions,
}
use bracket_craft.Events.{EventType, own_goal, regular, extra_time}
use bracket_craft.Rules.Validation.{validate_rules_config}
use bracket_craft.Rules.Outcome.{
  lt_ℤ, MatchOutcome, ScoredEvent, ReportedScore, compute_match_outcome,
}
use bracket_craft.Events.{EventType, goal, yellow_card, red_card, foul}
use bracket_craft.Rules.Outcome.Goals.{score_of, compute_match_outcome-score}
use bracket_craft.Rules.Validation.{bad_extra_time, validate_walkover_score}
use bracket_craft.Rules.Suspensions.{DisciplineEvent, double_yellow_players, evaluate_suspensions}
use bracket_craft.Rules.Suspensions.Thresholds.{yellows_of, evaluate_suspensions_same_yellows}
use bracket_craft.Rules.Suspensions.Absorption.{accumulations, evaluate_suspensions-thresholds}
use bracket_craft.MatchRules.{
  effective_match_minutes, maximum_minute_for_resolution, validate_event_minute, WalkoverScore,
  is_coherent, derive_walkover_score, match_rules,
}
use bracket_craft.MatchRules.Range.{maximum_minute_for_resolution-bounds, validate_event_minute_iff}
use bracket_craft.MatchRules.Walkover.{
  walkover_report, walkover_match_outcome, compute_match_outcome-derived_walkover,
}
use bracket_craft.MatchRules.Coherent.{derive_walkover_score_ahead}
use bracket_craft.Rules.Normalize.{normalize_rules_config}
use bracket_craft.Rules.Normalize.Stable.{normalize_rules_config-effective}
use bracket_craft.Rules.Normalize.Again.{normalize_rules_config_again}
use bracket_craft.Rules.Suspensions.Expulsions.{
  expulsions, red_cards, evaluate_suspensions-red_cards,
}
use bracket_craft.MatchRules.DoubleYellow.{
  ActaEvent, acta_le, double_yellow_violations, yellows_in, double_yellow_violations_none,
}
use bracket_craft.Prelude.Sort.{sort_by}
use bracket_craft.MatchRules.Segments.{
  other_status, interrupted, completed, StoredSegment, StoredInterruption, SegmentProposal,
  next_segment_proposal, next_segment_proposal-above,
}

abbrev league_discipline : DisciplineRules
league_discipline = record {
  yellow_card_limit = pos 3;
  yellow_card_suspension_matches = pos 1;
  direct_red_suspension_matches = pos 2;
  clear_yellows_on_stage_change = true;
  fair_play_penalties = record {
    yellow_card = pos 1;
    double_yellow_red = pos 3;
    direct_red = pos 3;
  };
}

-- `DEFAULT_RULES_CONFIG` with extra time in stage 7
abbrev pub league : RulesConfig
league = record {
  schema_version = v3_3_0;
  game_format = some eleven_a_side;
  min_players_per_team = some (pos 0);
  max_players_per_team = some (pos 0);
  points_system = record { win = pos 3; draw = pos 1; loss = pos 0 };
  ranking_pipeline =
      record { step = pos 1; criterion = points; total_rounds_expected = none }
      ∷ record { step = pos 2; criterion = head_to_head; total_rounds_expected = some (pos 1) }
      ∷ record { step = pos 3; criterion = random_draw; total_rounds_expected = none }
      ∷ [];
  substitutions = some default_substitutions;
  discipline = league_discipline;
  roster_lock_matchday = none;
  transfers = none;
  stage_defaults = record {
    extra_time_enabled = some false;
    penalties_enabled = some true;
    regular_time_minutes = some (pos 90);
    extra_time_minutes = some (pos 120);
    walkover_score = some (record { winner = pos 3; loser = pos 0 });
  };
  stage_overrides =
      (
        7,
        record {
          extra_time_enabled = some true;
          penalties_enabled = none;
          regular_time_minutes = none;
          extra_time_minutes = none;
          walkover_score = some (record { winner = pos 2; loser = pos 0 });
        },
      )
      ∷ [];
}

pub league-valid : validate_rules_config league ≡ ok tt
unfolding validate_rules_config
league-valid = refl

maximum_minute_for_resolution-bounds_example :
    (leb_ℤ
        (pos 1)
        (maximum_minute_for_resolution (effective_match_minutes league (some 7)) (some extra_time))
      ≡ true)
    × (leb_ℤ
          (maximum_minute_for_resolution
            (effective_match_minutes league (some 7))
            (some extra_time))
          (pos 180)
        ≡ true)
    × (leb_ℤ (effective_match_minutes league (some 7)).regular_time_minutes (
          maximum_minute_for_resolution (effective_match_minutes league (some 7)) (some extra_time))
        ≡ true)
    × (leb_ℤ
          (maximum_minute_for_resolution
            (effective_match_minutes league (some 7))
            (some extra_time))
          (effective_match_minutes league (some 7)).max_minute
        ≡ true)
maximum_minute_for_resolution-bounds_example =
    maximum_minute_for_resolution-bounds league league-valid (some 7) (some extra_time)

abbrev last_minute : ℕ
last_minute = 90

validate_event_minute_iff_example :
    (validate_event_minute last_minute 12 90 ≡ ok tt)
    ↔ ((last_minute + 12 ≤ 90) ⊎ (last_minute ≡ 90)) × (12 ≤ 30)
validate_event_minute_iff_example = validate_event_minute_iff last_minute 12 90

abbrev away_team : Uuid
away_team = 2

abbrev two_nil : WalkoverScore
two_nil = record {
  home_score = pos 0;
  away_score = pos 2;
  winner_score = pos 2;
  loser_score = pos 0;
}

two_nil-derived :
    derive_walkover_score (match_rules league 7) (some 7) (some 1) (some 2) (some 2) ≡ some two_nil
unfolding derive_walkover_score match_rules
two_nil-derived = refl

match_league-valid : validate_rules_config (match_rules league 7) ≡ ok tt
unfolding validate_rules_config match_rules
match_league-valid = refl

compute_match_outcome-derived_walkover_example :
    compute_match_outcome (match_rules league 7) [] (walkover_report 1 2 2 two_nil)
    ≡ ok (walkover_match_outcome 2 two_nil)
compute_match_outcome-derived_walkover_example =
    compute_match_outcome-derived_walkover league 7 1 2 2 two_nil match_league-valid (ground arith)
      two_nil-derived

league-walkover : validate_walkover_score league ≡ ok tt
unfolding validate_walkover_score
league-walkover = refl

derive_walkover_score_ahead_example :
    (is_coherent two_nil ≡ true)
    × (away_team ≡ 1 → lt_ℤ two_nil.away_score two_nil.home_score ≡ true)
    × (away_team ≡ 2 → lt_ℤ two_nil.home_score two_nil.away_score ≡ true)
derive_walkover_score_ahead_example =
    derive_walkover_score_ahead league 7 1 2 2 two_nil league-walkover (ground arith)
      two_nil-derived

-- One all after an own goal of the home team.
abbrev one_all : List ScoredEvent
one_all =
    record { event_type = goal; team_id = 1; beneficiary_team_id = none }
    ∷ record { event_type = own_goal; team_id = 1; beneficiary_team_id = some 2 }
    ∷ record { event_type = foul; team_id = 2; beneficiary_team_id = none }
    ∷ []

abbrev drawn_report : ReportedScore
drawn_report = record {
  resolution_type = regular;
  home_team_id = 1;
  away_team_id = 2;
  home_score_regular = pos 1;
  away_score_regular = pos 1;
  home_score = none;
  away_score = none;
  home_penalties = none;
  away_penalties = none;
  winner_team_id = none;
}

abbrev drawn_outcome : MatchOutcome
drawn_outcome = record {
  home_score = pos 1;
  away_score = pos 1;
  winner_team_id = none;
  home_penalties = none;
  away_penalties = none;
}

drawn_returned : compute_match_outcome league one_all drawn_report ≡ ok drawn_outcome
unfolding compute_match_outcome
drawn_returned = refl

compute_match_outcome-score_example :
    (drawn_outcome.home_score ≡ pos (score_of 1 one_all))
    × (drawn_outcome.away_score ≡ pos (score_of 2 one_all))
    × (drawn_outcome.home_score ≡ pos 1)
    × (drawn_outcome.away_score ≡ pos 1)
compute_match_outcome-score_example =
    compute_match_outcome-score league one_all drawn_report drawn_outcome drawn_returned refl

abbrev card : Uuid → EventType → Uuid → Bool → DisciplineEvent
card id kind player two = record {
  id = id;
  event_type = kind;
  player_id = some player;
  double_yellow = two;
  match_date = some 100;
  match_id = 50;
  minute = 10;
  added_minute = 0;
}

abbrev two_before : List DisciplineEvent
two_before =
    card 1 yellow_card 9 false ∷ card 2 yellow_card 9 false ∷ card 3 yellow_card 8 false ∷ []

abbrev other_order : List DisciplineEvent
other_order =
    card 3 yellow_card 8 false
    ∷ card 9 red_card 8 false
    ∷ card 2 yellow_card 9 false
    ∷ card 1 yellow_card 9 false
    ∷ []

abbrev report : List DisciplineEvent
report =
    card 4 yellow_card 9 false
    ∷ card 5 yellow_card 8 false
    ∷ card 6 yellow_card 8 false
    ∷ card 7 red_card 8 true
    ∷ []

evaluate_suspensions-thresholds_example :
    (elem 9 (double_yellow_players report) ≡ true
      → accumulations 9 (evaluate_suspensions league_discipline report two_before) ≡ 0)
    × (elem 9 (double_yellow_players report) ≡ false
        → accumulations 9 (evaluate_suspensions league_discipline report two_before)
            + yellows_of 9 two_before / 3
          ≡ (yellows_of 9 report + yellows_of 9 two_before) / 3)
evaluate_suspensions-thresholds_example =
    evaluate_suspensions-thresholds league_discipline report two_before 9 (omega arith)

evaluate_suspensions_same_yellows_example :
    evaluate_suspensions league_discipline report two_before
    ≡ evaluate_suspensions league_discipline report other_order
evaluate_suspensions_same_yellows_example =
    evaluate_suspensions_same_yellows league_discipline report two_before other_order
      (λ t. ground arith)

-- Extra time that ends with regular time is refused.
short_extra_time :
    validate_rules_config (record league {
      stage_defaults = record {
        extra_time_enabled = some true;
        penalties_enabled = some true;
        regular_time_minutes = some (pos 90);
        extra_time_minutes = some (pos 90);
        walkover_score = some (record { winner = pos 3; loser = pos 0 });
      };
    })
    ≡ raise bad_extra_time
unfolding validate_rules_config
short_extra_time = refl

-- A configuration of the older schema: no minutes, no substitutions, the lock in `transfers`.
abbrev old_league : RulesConfig
old_league = record league {
  schema_version = v3_2_0;
  substitutions = none;
  transfers = some (record { roster_lock_matchday = some (pos 4) });
  stage_defaults = record {
    extra_time_enabled = some true;
    penalties_enabled = some true;
    regular_time_minutes = none;
    extra_time_minutes = none;
    walkover_score = some (record { winner = pos 3; loser = pos 0 });
  };
}

abbrev new_league : RulesConfig
new_league = record league {
  roster_lock_matchday = some (pos 4);
  stage_defaults = record {
    extra_time_enabled = some true;
    penalties_enabled = some true;
    regular_time_minutes = some (pos 90);
    extra_time_minutes = some (pos 120);
    walkover_score = some (record { winner = pos 3; loser = pos 0 });
  };
}

old_league-normal : normalize_rules_config old_league ≡ ok new_league
unfolding normalize_rules_config
old_league-normal = refl

normalize_rules_config-effective_example :
    ((stage : Option Uuid)
      → effective_stage_rules new_league stage ≡ effective_stage_rules old_league stage)
    × (effective_substitutions new_league ≡ effective_substitutions old_league)
    × (effective_roster_lock_matchday new_league ≡ effective_roster_lock_matchday old_league)
normalize_rules_config-effective_example =
    normalize_rules_config-effective old_league new_league old_league-normal

normalize_rules_config_again_example :
    (validate_rules_config new_league ≡ ok tt) × (normalize_rules_config new_league ≡ ok new_league)
normalize_rules_config_again_example =
    normalize_rules_config_again old_league new_league old_league-normal

evaluate_suspensions-red_cards_example :
    expulsions (evaluate_suspensions league_discipline report two_before)
    ≡ red_cards league_discipline report
evaluate_suspensions-red_cards_example =
    evaluate_suspensions-red_cards league_discipline report two_before

abbrev acta : ℕ → EventType → Bool → ℕ → ActaEvent
acta index kind two minute = record {
  index = index;
  event_type = kind;
  player_id = some 9;
  double_yellow = two;
  minute = minute;
  added_minute = 0;
}

abbrev sending_off : List ActaEvent
sending_off =
    acta 0 yellow_card false 40 ∷ acta 1 red_card true 40 ∷ acta 2 yellow_card false 10 ∷ []

sending_off-clear : double_yellow_violations sending_off ≡ []
unfolding double_yellow_violations
sending_off-clear = refl

sending_off-order :
    sort_by acta_le sending_off
    ≡ (acta 2 yellow_card false 10 ∷ acta 0 yellow_card false 40 ∷ [])
      ++ acta 1 red_card true 40 ∷ []
unfolding sort_by acta_le
sending_off-order = refl

double_yellow_violations_none_example :
    yellows_in 9 (acta 2 yellow_card false 10 ∷ acta 0 yellow_card false 40 ∷ []) ≡ 2
double_yellow_violations_none_example =
    double_yellow_violations_none sending_off
      (acta 2 yellow_card false 10 ∷ acta 0 yellow_card false 40 ∷ []) (acta 1 red_card true 40) []
      9 sending_off-clear sending_off-order refl refl refl

abbrev two_segments : List StoredSegment
two_segments =
    record { id = 21; segment_number = 2; status = interrupted; minute_end = none }
    ∷ record { id = 20; segment_number = 1; status = completed; minute_end = some 45 }
    ∷ []

abbrev stopped : List StoredInterruption
stopped =
    record { id = 31; segment_id = 21; minute = 60; created_at = 5 }
    ∷ record { id = 32; segment_id = 21; minute = 63; created_at = 6 }
    ∷ []

abbrev third : SegmentProposal
third = record { segment_number = 3; minute_start = some 63; derived = true }

third-proposed : next_segment_proposal other_status true two_segments stopped ≡ some third
unfolding next_segment_proposal
third-proposed = refl

next_segment_proposal-above_example :
    (false ≡ false)
    × (true ≡ true)
    × All (λ s. s.segment_number < third.segment_number) two_segments
next_segment_proposal-above_example =
    next_segment_proposal-above other_status true two_segments stopped third third-proposed
