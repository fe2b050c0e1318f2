-- ===== src/Rules/Validation/Minutes.antt =====
-- The minutes of every stage under rules that the validation accepts.
use bracket_craft.Prelude.{
  ◌≡◌, sym, subst, inl, inr, true, false, ◌&&◌, not, Option, none, some, [], ◌∷◌, arith, ◌==◌,
  Bool-cases, Option-cases, any,
}
use bracket_craft.Prelude.Int.{pos, leb_ℤ}
use bracket_craft.Prelude.Dict.{Dict, lookup}
use bracket_craft.Prelude.Errors.{ok, raise_if, went_on}
use bracket_craft.Prelude.Teams.{Uuid}
use bracket_craft.Rules.{
  StageRules, RulesConfig, EffectiveStage, merged_stage_rules, effective_stage_rules,
}
use bracket_craft.Rules.Schema.{schema_ok}
use bracket_craft.Rules.Validation.{
  bad_schema, bad_players, bad_steps, repeated_criterion, points_not_first, draw_not_last,
  bad_rounds_expected, bad_regular_time, validate_stage_minutes, validate_overrides,
  validate_effective_rules, players_conflict, sequential, no_repeats, first_is_points,
  draw_before_end, rounds_missing, validate_rules_config,
}

-- Regular time has 1 to 179 minutes; extra time, where it is enabled, ends later, by 180.
pub record MinutesAdmitted (effective : EffectiveStage) : Type 0 where
  pub regular_low : leb_ℤ (pos 1) effective.regular_time_minutes ≡ true
  pub regular_high : leb_ℤ effective.regular_time_minutes (pos 179) ≡ true
  pub extra_after :
      effective.extra_time_enabled ≡ true
      → leb_ℤ effective.extra_time_minutes effective.regular_time_minutes ≡ false
  pub extra_high :
      effective.extra_time_enabled ≡ true → leb_ℤ effective.extra_time_minutes (pos 180) ≡ true

stage-MinutesAdmitted :
    (effective : EffectiveStage) {u : Unit {0}}
    → validate_stage_minutes effective ≡ ok u
    → MinutesAdmitted effective
unfolding validate_stage_minutes
stage-MinutesAdmitted e h =
    let (_, time, r1) =
      went_on
        (raise_if
          (not (leb_ℤ (pos 1) e.regular_time_minutes && leb_ℤ e.regular_time_minutes (pos 179)))
          bad_regular_time)
        _ h in
    let extra : (e.extra_time_enabled
          && not (
              not (leb_ℤ e.extra_time_minutes e.regular_time_minutes)
              && leb_ℤ e.extra_time_minutes (pos 180)))
        ≡ false =
      ground arith in
    record {
      regular_low = ground arith;
      regular_high = ground arith;
      extra_after = λ on. ground (arith, extra);
      extra_high = λ on. ground (arith, extra);
    }

override-MinutesAdmitted :
    (config : RulesConfig) (overrides : Dict StageRules) (s : Uuid) (override : StageRules)
    {u : Unit {0}}
    → validate_overrides config overrides ≡ ok u
    → lookup s overrides ≡ some override
    → MinutesAdmitted (merged_stage_rules config (some override))
unfolding validate_overrides
override-MinutesAdmitted config [] s override h look = absurd cc
override-MinutesAdmitted config ((k, o) ∷ more) s override h look =
    let (_, now, rest) =
      went_on (validate_stage_minutes (merged_stage_rules config (some o))) _ h in
    elim (Bool-cases (s == k)) [
      | inl here ↦
          let same : o ≡ override = ground arith in
          subst (λ o. MinutesAdmitted (merged_stage_rules config (some o))) same
            (stage-MinutesAdmitted (merged_stage_rules config (some o)) now)
      | inr there ↦ override-MinutesAdmitted config more s override rest (ground arith)
    ]

pub effective-MinutesAdmitted :
    (config : RulesConfig) {u : Unit {0}}
    → validate_effective_rules config ≡ ok u
    → (stage : Option Uuid) → MinutesAdmitted (effective_stage_rules config stage)
unfolding validate_effective_rules effective_stage_rules
effective-MinutesAdmitted config h none =
    let (_, now, rest) = went_on (validate_stage_minutes (merged_stage_rules config none)) _ h in
    stage-MinutesAdmitted (merged_stage_rules config none) now
effective-MinutesAdmitted config h (some s) =
    let (_, now, rest) = went_on (validate_stage_minutes (merged_stage_rules config none)) _ h in
    elim (Option-cases (lookup s config.stage_overrides)) [
      | inl missing ↦
          subst (λ o. MinutesAdmitted (merged_stage_rules config o)) (sym missing)
            (stage-MinutesAdmitted (merged_stage_rules config none) now)
      | inr (override, found) ↦
          subst (λ o. MinutesAdmitted (merged_stage_rules config o)) (sym found)
            (override-MinutesAdmitted config config.stage_overrides s override rest found)
    ]

pub rules-MinutesAdmitted :
    (config : RulesConfig) {u : Unit {0}}
    → validate_rules_config config ≡ ok u
    → (stage : Option Uuid) → MinutesAdmitted (effective_stage_rules config stage)
unfolding validate_rules_config
rules-MinutesAdmitted config h stage =
    let (_, _, r1) = went_on (raise_if (not (schema_ok config)) bad_schema) _ h in
    let (_, _, r2) =
      went_on
        (raise_if (players_conflict config.min_players_per_team config.max_players_per_team)
          bad_players)
        _ r1 in
    let (_, _, r3) =
      went_on (raise_if (not (sequential 1 config.ranking_pipeline)) bad_steps) _ r2 in
    let (_, _, r4) =
      went_on (raise_if (not (no_repeats config.ranking_pipeline)) repeated_criterion) _ r3 in
    let (_, _, r5) =
      went_on (raise_if (not (first_is_points config.ranking_pipeline)) points_not_first) _ r4 in
    let (_, _, r6) =
      went_on (raise_if (draw_before_end config.ranking_pipeline) draw_not_last) _ r5 in
    let (_, _, r7) =
      went_on (raise_if (any rounds_missing config.ranking_pipeline) bad_rounds_expected) _ r6 in
    effective-MinutesAdmitted config r7 stage
