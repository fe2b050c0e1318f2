-- ===== src/Rules/Normalize/Stable.antt =====
-- Normalizing keeps the rules that apply.
use bracket_craft.Prelude.{◌≡◌, refl, sym, ap, inl, inr, false, Option, none, some, Bool-cases}
use bracket_craft.Prelude.Int.{pos}
use bracket_craft.Prelude.Dict.{lookup}
use bracket_craft.Prelude.Errors.{ok, went_on}
use bracket_craft.Prelude.Teams.{Uuid}
use bracket_craft.Rules.{
  SubstitutionRules, StageRules, RulesConfig, default_regular_time_minutes,
  default_extra_time_minutes, default_stage_rules, updated, update, merged_stage_rules,
  effective_stage_rules, or_else, with_defaults, effective_substitutions, inherited_lock,
  effective_roster_lock_matchday,
}
use bracket_craft.Rules.Validation.{validate_rules_config}
use bracket_craft.Rules.Normalize.{
  with_stage_defaults, enabled, materialized, prepared, normalize_rules_config,
}

unfoldable pub normal : RulesConfig → RulesConfig
normal raw = with_stage_defaults (prepared raw) (materialized raw.stage_defaults)

updated-default : {A : Type 0} (d : A) (o : Option A) → updated d (or_else o (some d)) ≡ updated d o
updated-default d none = refl
updated-default d (some a) = refl

update-materialized :
    (d : StageRules) → update default_stage_rules (materialized d) ≡ update default_stage_rules d
unfolding update materialized
update-materialized d =
    let regular = updated-default default_regular_time_minutes d.regular_time_minutes in
    let extra = updated-default default_extra_time_minutes d.extra_time_minutes in
    elim (Bool-cases (enabled d.extra_time_enabled)) [
      | inl on ↦ rw (on, regular, extra) refl
      | inr off ↦ rw (off, regular) refl
    ]

pub normal-merged :
    (raw : RulesConfig) (o : Option StageRules)
    → merged_stage_rules (normal raw) o ≡ merged_stage_rules raw o
unfolding normal prepared merged_stage_rules
normal-merged raw none = update-materialized raw.stage_defaults
normal-merged raw (some o) = ap (λ e. update e o) (update-materialized raw.stage_defaults)

pub prepared-merged :
    (raw : RulesConfig) (o : Option StageRules)
    → merged_stage_rules (prepared raw) o ≡ merged_stage_rules raw o
unfolding prepared merged_stage_rules
prepared-merged raw none = refl
prepared-merged raw (some o) = refl

pub made_normal :
    (raw c : RulesConfig)
    → normalize_rules_config raw ≡ ok c
    → (c ≡ normal raw) × (validate_rules_config (prepared raw) ≡ ok tt)
unfolding normalize_rules_config normal
made_normal raw c h =
    let (_, valid, rest) = went_on (validate_rules_config (prepared raw)) _ h in
    let same : normal raw ≡ c = cc in (sym same, valid)

normal-stages :
    (raw : RulesConfig) (stage : Option Uuid)
    → effective_stage_rules (normal raw) stage ≡ effective_stage_rules raw stage
unfolding effective_stage_rules normal prepared
normal-stages raw none = normal-merged raw none
normal-stages raw (some s) = normal-merged raw (lookup s raw.stage_overrides)

pub or_else-again :
    {A : Type 0} (o : Option A) (a : A) → or_else (or_else o (some a)) (some a) ≡ or_else o (some a)
or_else-again none a = refl
or_else-again (some b) a = refl

with_defaults-again :
    (o : Option SubstitutionRules) → with_defaults (some (with_defaults o)) ≡ with_defaults o
unfolding with_defaults
with_defaults-again none = refl
with_defaults-again (some s) =
    rw
      (
        or_else-again s.max_per_team (pos 5),
        or_else-again s.max_windows (pos 3),
        or_else-again s.allow_reentry false,
      )
      refl

or_else-none : {A : Type 0} (o : Option A) → or_else o none ≡ o
or_else-none none = refl
or_else-none (some a) = refl

pub normal-substitutions :
    (raw : RulesConfig) → effective_substitutions (normal raw) ≡ effective_substitutions raw
unfolding effective_substitutions normal prepared
normal-substitutions raw = with_defaults-again raw.substitutions

pub normal-lock :
    (raw : RulesConfig)
    → effective_roster_lock_matchday (normal raw) ≡ effective_roster_lock_matchday raw
unfolding effective_roster_lock_matchday normal prepared inherited_lock
normal-lock raw = or_else-none (or_else raw.roster_lock_matchday (inherited_lock raw.transfers))

-- The normal form of a configuration gives every stage the same rules as the configuration, and
-- has the same substitution limits and the same roster lock.
pub normalize_rules_config-effective :
    (raw c : RulesConfig)
    → normalize_rules_config raw ≡ ok c
    → ((stage : Option Uuid) → effective_stage_rules c stage ≡ effective_stage_rules raw stage)
      × (effective_substitutions c ≡ effective_substitutions raw)
      × (effective_roster_lock_matchday c ≡ effective_roster_lock_matchday raw)
normalize_rules_config-effective raw c h =
    rw ((made_normal raw c h).0) (normal-stages raw, normal-substitutions raw, normal-lock raw)
