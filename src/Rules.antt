-- ===== src/Rules.antt =====
-- The rules configuration of backend/app/modules/rules_engine (engine.py, defaults.py): its keys as
-- they are stored, the defaults, and the rules that apply to a stage.
pub mod Schema
pub mod Tests
pub mod Validation
pub mod Outcome
pub mod Suspensions
pub mod Normalize
use bracket_craft.Prelude.{Bool, false, Option, none, some, List, Perm}
use bracket_craft.Prelude.Int.{ℤ, pos}
use bracket_craft.Prelude.Dict.{Dict, lookup}
use mathlib.Core.List.Perm
use bracket_craft.Prelude.Teams.{Uuid}

pub data SchemaVersion : Type 0 where
  v3_2_0 v3_3_0 : SchemaVersion

pub data GameFormat : Type 0 where
  five_a_side seven_a_side nine_a_side eleven_a_side : GameFormat

pub data Criterion : Type 0 where
  points head_to_head goal_difference goals_for goals_against fair_play_points random_draw :
      Criterion

pub record PointsSystem : Type 0 where
  pub win : ℤ
  pub draw : ℤ
  pub loss : ℤ

-- A step of `ranking_pipeline`. Of `params` only an integer `total_rounds_expected` is read.
pub record PipelineStep : Type 0 where
  pub step : ℤ
  pub criterion : Criterion
  pub total_rounds_expected : Option ℤ

pub record SubstitutionRules : Type 0 where
  pub max_per_team : Option ℤ
  pub max_windows : Option ℤ
  pub allow_reentry : Option Bool

pub record FairPlayPenalties : Type 0 where
  pub yellow_card : ℤ
  pub double_yellow_red : ℤ
  pub direct_red : ℤ

pub record DisciplineRules : Type 0 where
  pub yellow_card_limit : ℤ
  pub yellow_card_suspension_matches : ℤ
  pub direct_red_suspension_matches : ℤ
  pub clear_yellows_on_stage_change : Bool
  pub fair_play_penalties : FairPlayPenalties

pub record WalkoverPair : Type 0 where
  pub winner : ℤ
  pub loser : ℤ

-- `stage_defaults`, and each value of `stage_overrides`: a key may be missing.
pub record StageRules : Type 0 where
  pub extra_time_enabled : Option Bool
  pub penalties_enabled : Option Bool
  pub regular_time_minutes : Option ℤ
  pub extra_time_minutes : Option ℤ
  pub walkover_score : Option WalkoverPair

pub record Transfers : Type 0 where
  pub roster_lock_matchday : Option ℤ

-- `engine_version` has one value and is left out. A missing `roster_lock_matchday` and a null
-- one are read alike; missing `stage_defaults` are an object without keys.
pub record RulesConfig : Type 0 where
  pub schema_version : SchemaVersion
  pub game_format : Option GameFormat
  pub min_players_per_team : Option ℤ
  pub max_players_per_team : Option ℤ
  pub points_system : PointsSystem
  pub ranking_pipeline : List PipelineStep
  pub substitutions : Option SubstitutionRules
  pub discipline : DisciplineRules
  pub roster_lock_matchday : Option ℤ
  pub transfers : Option Transfers
  pub stage_defaults : StageRules
  pub stage_overrides : Dict StageRules

-- A stage with every key, as `DEFAULT_STAGE_RULES` has and each merge keeps.
pub record EffectiveStage : Type 0 where
  pub extra_time_enabled : Bool
  pub penalties_enabled : Bool
  pub regular_time_minutes : ℤ
  pub extra_time_minutes : ℤ
  pub walkover_score : WalkoverPair

abbrev pub default_regular_time_minutes : ℤ
default_regular_time_minutes = pos 90

abbrev pub default_extra_time_minutes : ℤ
default_extra_time_minutes = pos 120

abbrev pub default_stage_rules : EffectiveStage
default_stage_rules = record {
  extra_time_enabled = false;
  penalties_enabled = false;
  regular_time_minutes = default_regular_time_minutes;
  extra_time_minutes = default_extra_time_minutes;
  walkover_score = record { winner = pos 3; loser = pos 0 };
}

-- The value of a key after `update`.
abbrev pub updated {ℓ} : {A : Type ℓ} → A → Option A → A
updated old none = old
updated old (some new) = new

-- `effective.update(rules)`
unfoldable pub update : EffectiveStage → StageRules → EffectiveStage
update effective rules = record {
  extra_time_enabled = updated effective.extra_time_enabled rules.extra_time_enabled;
  penalties_enabled = updated effective.penalties_enabled rules.penalties_enabled;
  regular_time_minutes = updated effective.regular_time_minutes rules.regular_time_minutes;
  extra_time_minutes = updated effective.extra_time_minutes rules.extra_time_minutes;
  walkover_score = updated effective.walkover_score rules.walkover_score;
}

unfoldable pub merged_stage_rules : RulesConfig → Option StageRules → EffectiveStage
unfolding update
merged_stage_rules config none = update default_stage_rules config.stage_defaults
merged_stage_rules config (some override) =
    update (update default_stage_rules config.stage_defaults) override

unfoldable pub effective_stage_rules : RulesConfig → Option Uuid → EffectiveStage
unfolding merged_stage_rules
effective_stage_rules config none = merged_stage_rules config none
effective_stage_rules config (some stage_id) =
    merged_stage_rules config (lookup stage_id config.stage_overrides)

abbrev pub default_substitutions : SubstitutionRules
default_substitutions = record {
  max_per_team = some (pos 5);
  max_windows = some (pos 3);
  allow_reentry = some false;
}

-- `first or second` for a key: the second if the first is missing
abbrev pub or_else {ℓ} : {A : Type ℓ} → Option A → Option A → Option A
or_else none second = second
or_else (some value) second = some value

-- `{**DEFAULT_SUBSTITUTIONS, **(declared or {})}`
unfoldable pub with_defaults : Option SubstitutionRules → SubstitutionRules
with_defaults none = default_substitutions
with_defaults (some declared) = record {
  max_per_team = or_else declared.max_per_team default_substitutions.max_per_team;
  max_windows = or_else declared.max_windows default_substitutions.max_windows;
  allow_reentry = or_else declared.allow_reentry default_substitutions.allow_reentry;
}

unfoldable pub effective_substitutions : RulesConfig → SubstitutionRules
unfolding with_defaults
effective_substitutions config = with_defaults config.substitutions

unfoldable pub inherited_lock : Option Transfers → Option ℤ
inherited_lock none = none
inherited_lock (some transfers) = transfers.roster_lock_matchday

unfoldable pub effective_roster_lock_matchday : RulesConfig → Option ℤ
unfolding inherited_lock
effective_roster_lock_matchday config =
    or_else config.roster_lock_matchday (inherited_lock config.transfers)
