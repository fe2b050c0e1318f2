-- ===== src/Rules/Schema.antt =====
-- `RULES_SCHEMA` of backend/app/modules/rules_engine/engine.py: what it demands besides the types.
use bracket_craft.Prelude.{
  ◌≡◌, arith, ℕ, Bool, true, false, ◌&&◌, not, Option, none, some, List, ◌==◌, length, all,
}
use bracket_craft.Prelude.Int.{ℤ, pos, leb_ℤ}
use bracket_craft.Prelude.Dict.{Dict}
use bracket_craft.Rules.{
  PipelineStep, SubstitutionRules, DisciplineRules, WalkoverPair, StageRules, RulesConfig,
}

abbrev pub at_least : ℕ → ℤ → Bool
at_least n z = leb_ℤ (pos n) z

abbrev pub optional_at_least : ℕ → Option ℤ → Bool
optional_at_least n none = true
optional_at_least n (some z) = at_least n z

-- `"minimum": 1, "maximum": 179`
abbrev pub optional_minutes : Option ℤ → Bool
optional_minutes none = true
optional_minutes (some z) = at_least 1 z && leb_ℤ z (pos 179)

abbrev pub is_some {ℓ} : {A : Type ℓ} → Option A → Bool
is_some none = false
is_some (some value) = true

abbrev pub optional_pair : Option WalkoverPair → Bool
optional_pair none = true
optional_pair (some pair) = at_least 0 pair.winner && at_least 0 pair.loser

-- Without a block nothing is demanded of it; in a block all keys are required.
abbrev pub substitutions_ok : Option SubstitutionRules → Bool
substitutions_ok none = true
substitutions_ok (some s) =
    is_some s.max_per_team
    && is_some s.max_windows
    && is_some s.allow_reentry
    && (optional_at_least 0 s.max_per_team && optional_at_least 0 s.max_windows)

abbrev pub discipline_ok : DisciplineRules → Bool
discipline_ok d =
    at_least 1 d.yellow_card_limit
    && at_least 1 d.yellow_card_suspension_matches
    && (at_least 1 d.direct_red_suspension_matches
        && (at_least 0 d.fair_play_penalties.yellow_card
            && (at_least 0 d.fair_play_penalties.double_yellow_red
                && at_least 0 d.fair_play_penalties.direct_red)))

-- The values of a stage, with or without the required keys.
unfoldable pub stage_values_ok : StageRules → Bool
stage_values_ok r = optional_minutes r.regular_time_minutes && optional_pair r.walkover_score

unfoldable pub stage_defaults_ok : StageRules → Bool
unfolding stage_values_ok
stage_defaults_ok r =
    is_some r.extra_time_enabled
    && is_some r.penalties_enabled
    && is_some r.walkover_score
    && stage_values_ok r

abbrev pub overrides_ok : Dict StageRules → Bool
unfolding stage_values_ok
overrides_ok overrides = all (λ entry. stage_values_ok entry.1) overrides

abbrev pub pipeline_ok : List PipelineStep → Bool
pipeline_ok steps = not (length steps == 0) && all (λ s. at_least 1 s.step) steps

unfoldable pub schema_ok : RulesConfig → Bool
unfolding stage_defaults_ok overrides_ok
schema_ok c =
    optional_at_least 0 c.min_players_per_team
    && optional_at_least 0 c.max_players_per_team
    && (at_least 0 c.points_system.win
        && at_least 0 c.points_system.draw
        && at_least 0 c.points_system.loss
        && pipeline_ok c.ranking_pipeline
        && (substitutions_ok c.substitutions
            && discipline_ok c.discipline
            && (optional_at_least 1 c.roster_lock_matchday
                && stage_defaults_ok c.stage_defaults
                && overrides_ok c.stage_overrides)))

pub schema-stage_defaults :
    (config : RulesConfig)
    → schema_ok config ≡ true
    → stage_defaults_ok config.stage_defaults ≡ true
unfolding schema_ok
schema-stage_defaults config h = ground arith
