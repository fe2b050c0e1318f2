-- ===== src/Rules/Normalize/Again.antt =====
-- A normal form is valid, and normalizing it again changes nothing.
use bracket_craft.Prelude.{
  ◌≡◌, refl, sym, ap, ◌∙◌, inl, inr, true, not, Option, none, some, [], ◌∷◌, arith, Bool-cases,
  Option-cases, any,
}
use bracket_craft.Prelude.Dict.{Dict}
use bracket_craft.Prelude.Errors.{Result, ok, ◌>>◌, raise_if, went_on}
use bracket_craft.Rules.{
  StageRules, RulesConfig, default_regular_time_minutes, default_extra_time_minutes,
  merged_stage_rules, effective_substitutions, effective_roster_lock_matchday,
}
use bracket_craft.Rules.Schema.{
  schema_ok, schema-stage_defaults, stage_values_ok, stage_defaults_ok,
}
use bracket_craft.Rules.Validation.{
  RulesError, bad_schema, bad_players, bad_steps, repeated_criterion, points_not_first,
  draw_not_last, bad_rounds_expected, validate_stage_minutes, validate_overrides,
  validate_effective_rules, players_conflict, sequential, no_repeats, first_is_points,
  draw_before_end, rounds_missing, validate_rules_config,
}
use bracket_craft.Rules.Normalize.{
  with_stage_defaults, enabled, materialized, assembled, prepared, normalize_rules_config,
}
use bracket_craft.Rules.Normalize.Stable.{
  normal, or_else-again, prepared-merged, normal-merged, made_normal, normal-substitutions,
  normal-lock,
}

both-merged :
    (raw : RulesConfig) (o : Option StageRules)
    → merged_stage_rules (normal raw) o ≡ merged_stage_rules (prepared raw) o
both-merged raw o = normal-merged raw o ∙ sym (prepared-merged raw o)

-- The validation sees the normal form as it sees what was validated.
overrides-normal :
    (raw : RulesConfig) (overrides : Dict StageRules)
    → validate_overrides (normal raw) overrides ≡ validate_overrides (prepared raw) overrides
unfolding validate_overrides
overrides-normal raw [] = refl
overrides-normal raw ((k, o) ∷ more) =
    ap (λ e. validate_stage_minutes e >> validate_overrides (normal raw) more)
      (both-merged raw (some o))
    ∙ ap (λ v. validate_stage_minutes (merged_stage_rules (prepared raw) (some o)) >> v)
        (overrides-normal raw more)

effective-normal :
    (raw : RulesConfig)
    → validate_effective_rules (normal raw) ≡ validate_effective_rules (prepared raw)
unfolding validate_effective_rules normal prepared
effective-normal raw =
    ap (λ e. validate_stage_minutes e >> validate_overrides (normal raw) raw.stage_overrides)
      (both-merged raw none)
    ∙ ap (λ v. validate_stage_minutes (merged_stage_rules (prepared raw) none) >> v)
        (overrides-normal raw raw.stage_overrides)

stage-materialized :
    (d : StageRules) → stage_defaults_ok d ≡ true → stage_defaults_ok (materialized d) ≡ true
unfolding stage_defaults_ok stage_values_ok materialized
stage-materialized d h = elim (Option-cases d.regular_time_minutes) [
  | inl missing ↦ rw missing (rw missing at h)
  | inr (r, found) ↦ rw found (rw found at h)
]

schema-normal :
    (raw : RulesConfig) → schema_ok (prepared raw) ≡ true → schema_ok (normal raw) ≡ true
unfolding schema_ok normal prepared
schema-normal raw h =
    let e : stage_defaults_ok raw.stage_defaults ≡ true = schema-stage_defaults (prepared raw) h in
    rw (stage-materialized raw.stage_defaults e) (rw e at h)

-- The checks between the schema and the minutes.
abbrev checks : RulesConfig → Result RulesError (Unit {0}) → Result RulesError (Unit {0})
checks c after = do
  raise_if (players_conflict c.min_players_per_team c.max_players_per_team) bad_players
  raise_if (not (sequential 1 c.ranking_pipeline)) bad_steps
  raise_if (not (no_repeats c.ranking_pipeline)) repeated_criterion
  raise_if (not (first_is_points c.ranking_pipeline)) points_not_first
  raise_if (draw_before_end c.ranking_pipeline) draw_not_last
  raise_if (any rounds_missing c.ranking_pipeline) bad_rounds_expected
  after

valid-normal :
    (raw : RulesConfig)
    → validate_rules_config (prepared raw) ≡ ok tt
    → validate_rules_config (normal raw) ≡ ok tt
unfolding validate_rules_config normal prepared
valid-normal raw h =
    let (_, schema, rest) = went_on (raise_if (not (schema_ok (prepared raw))) bad_schema) _ h in
    let fine : schema_ok (prepared raw) ≡ true = ground arith in
    rw (schema-normal raw fine) (ap (checks (prepared raw)) (effective-normal raw) ∙ rest)

materialized-again : (d : StageRules) → materialized (materialized d) ≡ materialized d
unfolding materialized
materialized-again d = elim (Bool-cases (enabled d.extra_time_enabled)) [
  | inl on ↦
      rw
        (
          on,
          or_else-again d.regular_time_minutes default_regular_time_minutes,
          or_else-again d.extra_time_minutes default_extra_time_minutes,
        )
        refl
  | inr off ↦ rw (off, or_else-again d.regular_time_minutes default_regular_time_minutes) refl
]

prepared-normal : (raw : RulesConfig) → prepared (normal raw) ≡ normal raw
unfolding prepared normal
prepared-normal raw =
    let d = materialized raw.stage_defaults in
    ap (λ s. assembled (normal raw) s (effective_roster_lock_matchday (normal raw)) d)
      (normal-substitutions raw)
    ∙ ap (λ l. assembled (normal raw) (effective_substitutions raw) l d) (normal-lock raw)

normal-normal : (raw : RulesConfig) → normal (normal raw) ≡ normal raw
unfolding normal
normal-normal raw =
    ap (λ c. with_stage_defaults c (materialized (materialized raw.stage_defaults)))
      (prepared-normal raw)
    ∙ ap (with_stage_defaults (normal raw)) (materialized-again raw.stage_defaults)

repeated :
    (raw : RulesConfig)
    → validate_rules_config (prepared (normal raw)) ≡ ok tt
    → normalize_rules_config (normal raw) ≡ ok (normal raw)
unfolding normalize_rules_config normal
repeated raw seen = ap (λ v. v >> ok (normal (normal raw))) seen ∙ ap ok (normal-normal raw)

-- A normal form is valid, and it is its own normal form.
pub normalize_rules_config_again :
    (raw c : RulesConfig)
    → normalize_rules_config raw ≡ ok c
    → (validate_rules_config c ≡ ok tt) × (normalize_rules_config c ≡ ok c)
normalize_rules_config_again raw c h =
    let (is_normal, valid) = made_normal raw c h in
    let again = valid-normal raw valid in
    let seen : validate_rules_config (prepared (normal raw)) ≡ ok tt =
      ap validate_rules_config (prepared-normal raw) ∙ again in
    rw is_normal (again, repeated raw seen)
