-- ===== src/MatchRules.antt =====
-- The minutes and the walkover score of a match, of backend/app/modules/matches/service.py.
pub mod Range
pub mod Walkover
pub mod Coherent
pub mod DoubleYellow
pub mod Segments
use bracket_craft.Prelude.{
  ℕ, ◌+◌, Bool, true, false, ◌&&◌, not, Option, none, some, List, Perm, ltb, ◌==◌, if◌then◌else◌,
}
use bracket_craft.Prelude.Int.{ℤ, leb_ℤ}
use bracket_craft.Prelude.Dict.{lookup}
use mathlib.Core.List.Perm
use bracket_craft.Prelude.Errors.{Result, ◌>>=◌, ◌>>◌, raise_if}
use bracket_craft.Prelude.Teams.{Uuid}
use bracket_craft.Rules.{StageRules, RulesConfig, effective_stage_rules, or_else}
use bracket_craft.Events.{ResolutionType, extra_time, penalties}

abbrev pub structural_max_added_minute : ℕ
structural_max_added_minute = 30

pub record MatchMinutes : Type 0 where
  pub regular_time_minutes : ℤ
  pub extra_time_minutes : ℤ
  pub extra_time_enabled : Bool
  pub penalties_enabled : Bool
  pub max_minute : ℤ
  pub added_minute_max : ℕ

-- The defaults give every stage its extra time minutes, so that these are never missing.
unfoldable pub effective_match_minutes : RulesConfig → Option Uuid → MatchMinutes
unfolding effective_stage_rules
effective_match_minutes config stage_id =
    let effective = effective_stage_rules config stage_id in
    record {
      regular_time_minutes = effective.regular_time_minutes;
      extra_time_minutes = effective.extra_time_minutes;
      extra_time_enabled = effective.extra_time_enabled;
      penalties_enabled = effective.penalties_enabled;
      max_minute =
          if effective.extra_time_enabled
          then effective.extra_time_minutes
          else effective.regular_time_minutes;
      added_minute_max = structural_max_added_minute;
    }

-- `resolution_type in RESOLUTIONS_WITH_EXTRA_TIME`
abbrev pub with_extra_time : Option ResolutionType → Bool
with_extra_time (some extra_time) = true
with_extra_time (some penalties) = true
with_extra_time _ = false

unfoldable pub maximum_minute_for_resolution : MatchMinutes → Option ResolutionType → ℤ
maximum_minute_for_resolution minutes resolution_type =
    if with_extra_time resolution_type && minutes.extra_time_enabled
    then minutes.extra_time_minutes
    else minutes.regular_time_minutes

unfoldable pub resolution_enabled : MatchMinutes → Option ResolutionType → Bool
resolution_enabled minutes (some extra_time) = minutes.extra_time_enabled
resolution_enabled minutes (some penalties) = minutes.penalties_enabled
resolution_enabled minutes _ = true

pub data MinuteError : Type 0 where
  above_maximum added_above_limit : MinuteError

-- The maximum is positive under rules that are valid.
unfoldable pub validate_event_minute : ℕ → ℕ → ℕ → Result MinuteError (Unit {0})
validate_event_minute minute added_minute maximum = do
  raise_if (ltb maximum minute) above_maximum
  raise_if (ltb minute maximum && ltb maximum (minute + added_minute)) above_maximum
  raise_if (ltb structural_max_added_minute added_minute) added_above_limit

pub record WalkoverScore : Type 0 where
  pub home_score : ℤ
  pub away_score : ℤ
  pub winner_score : ℤ
  pub loser_score : ℤ

unfoldable pub is_coherent : WalkoverScore → Bool
is_coherent score = not (leb_ℤ score.winner_score score.loser_score)

-- `winner_team_id is not None and winner_team_id == team`
abbrev pub names : Option Uuid → Option Uuid → Bool
names (some w) (some team) = w == team
names _ _ = false

unfoldable pub derive_walkover_score :
    RulesConfig → Option Uuid → Option Uuid → Option Uuid → Option Uuid → Option WalkoverScore
unfolding effective_stage_rules
derive_walkover_score config stage_id home away w =
    let pair = (effective_stage_rules config stage_id).walkover_score in
    if names w home
    then some (record {
      home_score = pair.winner;
      away_score = pair.loser;
      winner_score = pair.winner;
      loser_score = pair.loser;
    })
    else if names w away
    then some (record {
      home_score = pair.loser;
      away_score = pair.winner;
      winner_score = pair.winner;
      loser_score = pair.loser;
    })
    else none

-- `{**stage_defaults, **stage_override}`
unfoldable pub overridden : StageRules → StageRules → StageRules
overridden defaults override = record {
  extra_time_enabled = or_else override.extra_time_enabled defaults.extra_time_enabled;
  penalties_enabled = or_else override.penalties_enabled defaults.penalties_enabled;
  regular_time_minutes = or_else override.regular_time_minutes defaults.regular_time_minutes;
  extra_time_minutes = or_else override.extra_time_minutes defaults.extra_time_minutes;
  walkover_score = or_else override.walkover_score defaults.walkover_score;
}

unfoldable pub with_override : RulesConfig → Option StageRules → RulesConfig
unfolding overridden
with_override config none = config
with_override config (some override) = record config {
  stage_defaults = overridden config.stage_defaults override;
}

-- The rules that `_lock_match` reads for a match: the override of its stage stands in the
-- stage defaults.
unfoldable pub match_rules : RulesConfig → Uuid → RulesConfig
unfolding with_override
match_rules config stage_id = with_override config (lookup stage_id config.stage_overrides)
