-- ===== src/Rules/Normalize.antt =====
-- `normalize_rules_config` of backend/app/modules/rules_engine/engine.py: the 3.3.0 form of a
-- configuration, with the defaults written out.
pub mod Stable
pub mod Again
use bracket_craft.Prelude.{Bool, true, false, Option, none, some, List, Perm, if◌then◌else◌}
use bracket_craft.Prelude.Int.{ℤ, pos}
use mathlib.Core.List.Perm
use bracket_craft.Prelude.Errors.{Result, ok, ◌>>=◌, ◌>>◌}
use bracket_craft.Rules.{
  v3_3_0, eleven_a_side, SubstitutionRules, StageRules, RulesConfig, default_regular_time_minutes,
  default_extra_time_minutes, updated, or_else, effective_substitutions,
  effective_roster_lock_matchday,
}
use bracket_craft.Rules.Validation.{RulesError, validate_rules_config}

abbrev pub enabled : Option Bool → Bool
enabled (some true) = true
enabled _ = false

-- The defaults that are written into the stage defaults after the validation.
unfoldable pub materialized : StageRules → StageRules
materialized d = record d {
  regular_time_minutes = or_else d.regular_time_minutes (some default_regular_time_minutes);
  extra_time_minutes =
      if enabled d.extra_time_enabled
      then or_else d.extra_time_minutes (some default_extra_time_minutes)
      else d.extra_time_minutes;
}

-- The configuration with these substitutions, this lock and these stage defaults.
abbrev pub assembled : RulesConfig → SubstitutionRules → Option ℤ → StageRules → RulesConfig
assembled raw substitutions lock stage_defaults = record raw {
  schema_version = v3_3_0;
  game_format = some (updated eleven_a_side raw.game_format);
  min_players_per_team = some (updated (pos 0) raw.min_players_per_team);
  max_players_per_team = some (updated (pos 0) raw.max_players_per_team);
  substitutions = some substitutions;
  roster_lock_matchday = lock;
  transfers = none;
  stage_defaults = stage_defaults;
}

-- What is validated, before any stage default is written.
unfoldable pub prepared : RulesConfig → RulesConfig
unfolding effective_substitutions effective_roster_lock_matchday
prepared raw =
    assembled raw (effective_substitutions raw) (effective_roster_lock_matchday raw)
      raw.stage_defaults

abbrev pub with_stage_defaults : RulesConfig → StageRules → RulesConfig
with_stage_defaults c d = record c { stage_defaults = d }

unfoldable pub normalize_rules_config : RulesConfig → Result RulesError RulesConfig
unfolding prepared materialized validate_rules_config
normalize_rules_config raw = do
  validate_rules_config (prepared raw)
  ok (with_stage_defaults (prepared raw) (materialized raw.stage_defaults))
