-- ===== src/Rules/Outcome.antt =====
-- `compute_match_outcome` of backend/app/modules/rules_engine/engine.py.
pub mod Sound
pub mod Goals
use bracket_craft.Prelude.{
  ℕ, ◌+◌, Bool, true, false, ◌&&◌, ◌||◌, not, Option, none, some, List, [], ◌∷◌, Perm, ◌==◌,
  if◌then◌else◌,
}
use bracket_craft.Prelude.Int.{ℤ, pos, leb_ℤ}
use bracket_craft.Prelude.Dict.{Dict, lookup_or, insert}
use mathlib.Core.List.Perm
use bracket_craft.Prelude.Errors.{Result, ok, raise, ◌>>=◌, ◌>>◌, raise_if}
use bracket_craft.Prelude.Teams.{Uuid}
use bracket_craft.Rules.{WalkoverPair, RulesConfig, updated}
use bracket_craft.Events.{
  EventType, own_goal, is_goal, ResolutionType, regular, extra_time, penalties, walkover,
  administrative,
}
use bracket_craft.Rules.Validation.{
  RulesError, bad_schema, foreign_winner, extra_time_disabled, penalties_disabled, winner_required,
  walkover_mismatch, administrative_needs_score, administrative_needs_one_score,
  unknown_beneficiary, goals_mismatch, regular_with_final_score, below_regular_score,
  penalties_need_draw, penalties_need_winner, winner_mismatch, validate_rules_config,
}

abbrev pub eq_ℤ : ℤ → ℤ → Bool
eq_ℤ a b = leb_ℤ a b && leb_ℤ b a

abbrev pub lt_ℤ : ℤ → ℤ → Bool
lt_ℤ a b = not (leb_ℤ b a)

pub record MatchOutcome : Type 0 where
  pub home_score : ℤ
  pub away_score : ℤ
  pub winner_team_id : Option Uuid
  pub home_penalties : Option ℤ
  pub away_penalties : Option ℤ

-- What of an event the outcome reads.
pub record ScoredEvent : Type 0 where
  pub event_type : EventType
  pub team_id : Uuid
  pub beneficiary_team_id : Option Uuid

-- The team that a goal counts for: the one that gains by an own goal, else the scorer's.
unfoldable pub credited_team : EventType → Uuid → Option Uuid → Result RulesError Uuid
credited_team own_goal team none = raise unknown_beneficiary
credited_team own_goal team (some beneficiary) = ok beneficiary
credited_team _ team beneficiary = ok team

-- `_goal_credit`
unfoldable pub goal_credit : ScoredEvent → Result RulesError Uuid
unfolding credited_team
goal_credit event = credited_team event.event_type event.team_id event.beneficiary_team_id

unfoldable pub count_goals : List ScoredEvent → Dict ℕ → Result RulesError (Dict ℕ)
unfolding goal_credit
count_goals [] counted = ok counted
count_goals (event ∷ events) counted =
    if is_goal event.event_type
    then goal_credit event
      >>= (λ team. count_goals events (insert team (lookup_or 0 team counted + 1) counted))
    else count_goals events counted

-- The arguments of `compute_match_outcome` that the report gives.
pub record ReportedScore : Type 0 where
  pub resolution_type : ResolutionType
  pub home_team_id : Uuid
  pub away_team_id : Uuid
  pub home_score_regular : ℤ
  pub away_score_regular : ℤ
  pub home_score : Option ℤ
  pub away_score : Option ℤ
  pub home_penalties : Option ℤ
  pub away_penalties : Option ℤ
  pub winner_team_id : Option Uuid

-- `value is not None and value != expected`
abbrev pub differs : Option ℤ → ℤ → Bool
differs none expected = false
differs (some value) expected = not (eq_ℤ value expected)

abbrev pub is_enabled : Option Bool → Bool
is_enabled (some true) = true
is_enabled _ = false

abbrev pub outsider : Uuid → Uuid → Option Uuid → Bool
outsider home away none = false
outsider home away (some t) = not (t == home || t == away)

-- `score["winner"] if winner_team_id == team else score["loser"]`
abbrev pub share : WalkoverPair → Uuid → Uuid → ℤ
share pair winner team = if winner == team then pair.winner else pair.loser

unfoldable pub walkover_outcome :
    WalkoverPair → ReportedScore → Uuid → Result RulesError MatchOutcome
walkover_outcome pair r winner = do
  raise_if
      (not (
        eq_ℤ r.home_score_regular (share pair winner r.home_team_id)
        && eq_ℤ r.away_score_regular (share pair winner r.away_team_id)))
      walkover_mismatch
  raise_if (differs r.home_score (share pair winner r.home_team_id)) walkover_mismatch
  raise_if (differs r.away_score (share pair winner r.away_team_id)) walkover_mismatch
  ok (record {
    home_score = share pair winner r.home_team_id;
    away_score = share pair winner r.away_team_id;
    winner_team_id = some winner;
    home_penalties = none;
    away_penalties = none;
  })

-- With both final scores, or with one missing.
unfoldable pub administrative_outcome :
    Option ℤ → Option ℤ → ReportedScore → Uuid → Result RulesError MatchOutcome
administrative_outcome none away r winner = raise administrative_needs_score
administrative_outcome (some home) none r winner = raise administrative_needs_score
administrative_outcome (some home) (some away) r winner = do
  raise_if (not (eq_ℤ r.home_score_regular home && eq_ℤ r.away_score_regular away))
      administrative_needs_one_score
  ok (record {
    home_score = home;
    away_score = away;
    winner_team_id = some winner;
    home_penalties = none;
    away_penalties = none;
  })

-- The team ahead, if one is.
unfoldable pub leader : Uuid → Uuid → ℤ → ℤ → Option Uuid
leader home away home_score away_score =
    if eq_ℤ home_score away_score
    then none
    else if lt_ℤ away_score home_score
    then some home
    else some away

unfoldable pub shootout :
    ReportedScore → Bool → Option ℤ → Option ℤ → Result RulesError (Option Uuid)
shootout r level none away = raise penalties_need_draw
shootout r level (some home) none = raise penalties_need_draw
shootout r level (some home) (some away) = do
  raise_if (not level) penalties_need_draw
  raise_if (eq_ℤ home away) penalties_need_winner
  ok (if lt_ℤ away home then some r.home_team_id else some r.away_team_id)

abbrev pub is_regular : ResolutionType → Bool
is_regular regular = true
is_regular _ = false

unfoldable pub played_winner :
    ResolutionType → ReportedScore → ℤ → ℤ → Result RulesError (Option Uuid)
unfolding shootout leader
played_winner penalties r home away = shootout r (eq_ℤ home away) r.home_penalties r.away_penalties
played_winner _ r home away = ok (leader r.home_team_id r.away_team_id home away)

-- `winner_team_id is not None and winner_team_id != winner`
abbrev pub contradicts : Option Uuid → Option Uuid → Bool
contradicts none winner = false
contradicts (some t) none = true
contradicts (some t) (some winner) = not (t == winner)

-- From the goal counts on, for a match that was played.
unfoldable pub played_outcome : ReportedScore → ℤ → ℤ → Result RulesError MatchOutcome
unfolding played_winner
played_outcome r event_home_goals event_away_goals =
    let final_home = updated event_home_goals r.home_score in
    let final_away = updated event_away_goals r.away_score in
    do
      raise_if
          (is_regular r.resolution_type
            && not (
                eq_ℤ event_home_goals r.home_score_regular
                && eq_ℤ event_away_goals r.away_score_regular))
          goals_mismatch
      raise_if
          (is_regular r.resolution_type
            && (differs r.home_score r.home_score_regular
                || differs r.away_score r.away_score_regular))
          regular_with_final_score
      raise_if (lt_ℤ final_home r.home_score_regular || lt_ℤ final_away r.away_score_regular)
          below_regular_score
      winner ← played_winner r.resolution_type r final_home final_away
      raise_if (contradicts r.winner_team_id winner) winner_mismatch
      ok (record {
        home_score = final_home;
        away_score = final_away;
        winner_team_id = winner;
        home_penalties = r.home_penalties;
        away_penalties = r.away_penalties;
      })

abbrev pub is_extra_time : ResolutionType → Bool
is_extra_time extra_time = true
is_extra_time _ = false

abbrev pub is_penalties : ResolutionType → Bool
is_penalties penalties = true
is_penalties _ = false

unfoldable pub played_result : List ScoredEvent → ReportedScore → Result RulesError MatchOutcome
unfolding count_goals played_outcome
played_result events r = do
  counted ← count_goals events []
  played_outcome r (pos (lookup_or 0 r.home_team_id counted))
      (pos (lookup_or 0 r.away_team_id counted))

-- The schema has made sure of a walkover score.
unfoldable pub walkover_result :
    Option WalkoverPair → ReportedScore → Option Uuid → Result RulesError MatchOutcome
unfolding walkover_outcome
walkover_result pair r none = raise winner_required
walkover_result none r (some winner) = raise bad_schema
walkover_result (some pair) r (some winner) = walkover_outcome pair r winner

unfoldable pub administrative_result : ReportedScore → Option Uuid → Result RulesError MatchOutcome
unfolding administrative_outcome
administrative_result r none = raise winner_required
administrative_result r (some winner) = administrative_outcome r.home_score r.away_score r winner

-- What follows the checks that all resolutions share.
unfoldable pub resolved_outcome :
    ResolutionType → RulesConfig → List ScoredEvent → ReportedScore → Result RulesError MatchOutcome
unfolding played_result walkover_result administrative_result
resolved_outcome walkover config events r =
    walkover_result config.stage_defaults.walkover_score r r.winner_team_id
resolved_outcome administrative config events r = administrative_result r r.winner_team_id
resolved_outcome _ config events r = played_result events r

unfoldable pub compute_match_outcome :
    RulesConfig → List ScoredEvent → ReportedScore → Result RulesError MatchOutcome
unfolding validate_rules_config resolved_outcome
compute_match_outcome config events r = do
  validate_rules_config config
  raise_if (outsider r.home_team_id r.away_team_id r.winner_team_id) foreign_winner
  raise_if
      (is_extra_time r.resolution_type && not (is_enabled config.stage_defaults.extra_time_enabled))
      extra_time_disabled
  raise_if
      (is_penalties r.resolution_type && not (is_enabled config.stage_defaults.penalties_enabled))
      penalties_disabled
  resolved_outcome r.resolution_type config events r
