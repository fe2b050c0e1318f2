-- ===== src/Rules/Validation.antt =====
-- The validations of backend/app/modules/rules_engine/engine.py.
pub mod Minutes
use bracket_craft.Prelude.{
  last, ℕ, ◌+◌, Bool, true, false, ◌&&◌, ◌||◌, not, Option, none, some, List, [], ◌∷◌, Perm, leb,
  any,
}
use bracket_craft.Prelude.Int.{ℤ, pos, leb_ℤ}
use bracket_craft.Prelude.Dict.{Dict, lookup, keys}
use bracket_craft.Prelude.Sort.{sort_by}
use mathlib.Core.List.Perm
use bracket_craft.Prelude.Errors.{Result, ok, ◌>>=◌, ◌>>◌, raise_if}
use bracket_craft.Prelude.Teams.{Uuid}
use bracket_craft.Rules.{
  Criterion, points, head_to_head, goal_difference, goals_for, goals_against, fair_play_points,
  random_draw, PipelineStep, WalkoverPair, StageRules, RulesConfig, EffectiveStage, updated,
  merged_stage_rules,
}
use bracket_craft.Rules.Schema.{schema_ok}

pub data RulesError : Type 0 where
  bad_schema bad_players bad_steps repeated_criterion points_not_first draw_not_last
        bad_rounds_expected bad_regular_time bad_extra_time negative_walkover walkover_not_ahead
        foreign_winner extra_time_disabled penalties_disabled winner_required walkover_mismatch
        administrative_needs_score administrative_needs_one_score unknown_beneficiary goals_mismatch
        regular_with_final_score below_regular_score penalties_need_draw penalties_need_winner
        winner_mismatch :
      RulesError

-- `_validate_stage_minutes`; the values are integers already.
unfoldable pub validate_stage_minutes : EffectiveStage → Result RulesError (Unit {0})
validate_stage_minutes effective = do
  raise_if
      (not (
        leb_ℤ (pos 1) effective.regular_time_minutes
        && leb_ℤ effective.regular_time_minutes (pos 179)))
      bad_regular_time
  raise_if
      (effective.extra_time_enabled
        && not (
            not (leb_ℤ effective.extra_time_minutes effective.regular_time_minutes)
            && leb_ℤ effective.extra_time_minutes (pos 180)))
      bad_extra_time

unfoldable pub validate_overrides : RulesConfig → Dict StageRules → Result RulesError (Unit {0})
unfolding validate_stage_minutes merged_stage_rules
validate_overrides config [] = ok tt
validate_overrides config ((stage_id, override) ∷ more) = do
  validate_stage_minutes (merged_stage_rules config (some override))
  validate_overrides config more

unfoldable pub validate_effective_rules : RulesConfig → Result RulesError (Unit {0})
unfolding validate_stage_minutes validate_overrides merged_stage_rules
validate_effective_rules config = do
  validate_stage_minutes (merged_stage_rules config none)
  validate_overrides config config.stage_overrides

-- The check of one scope in `validate_walkover_score`
unfoldable pub validate_walkover_pair : WalkoverPair → Result RulesError (Unit {0})
validate_walkover_pair pair = do
  raise_if (not (leb_ℤ (pos 0) pair.winner) || not (leb_ℤ (pos 0) pair.loser)) negative_walkover
  raise_if (leb_ℤ pair.winner pair.loser) walkover_not_ahead

unfoldable pub validate_walkover_overrides :
    RulesConfig → Dict StageRules → List Uuid → Result RulesError (Unit {0})
unfolding validate_walkover_pair merged_stage_rules
validate_walkover_overrides config overrides [] = ok tt
validate_walkover_overrides config overrides (stage_id ∷ more) = do
  validate_walkover_pair (merged_stage_rules config (lookup stage_id overrides)).walkover_score
  validate_walkover_overrides config overrides more

unfoldable pub validate_walkover_score : RulesConfig → Result RulesError (Unit {0})
unfolding validate_walkover_pair validate_walkover_overrides merged_stage_rules sort_by
validate_walkover_score config = do
  validate_walkover_pair (merged_stage_rules config none).walkover_score
  validate_walkover_overrides config config.stage_overrides
      (sort_by leb (keys config.stage_overrides))

abbrev pub same_criterion : Criterion → Criterion → Bool
same_criterion points points = true
same_criterion head_to_head head_to_head = true
same_criterion goal_difference goal_difference = true
same_criterion goals_for goals_for = true
same_criterion goals_against goals_against = true
same_criterion fair_play_points fair_play_points = true
same_criterion random_draw random_draw = true
same_criterion _ _ = false

-- `steps == list(range(1, len(pipeline) + 1))`, from step `n` on
unfoldable pub sequential : ℕ → List PipelineStep → Bool
sequential n [] = true
sequential n (s ∷ steps) =
    (leb_ℤ s.step (pos n) && leb_ℤ (pos n) s.step) && sequential (n + 1) steps

unfoldable pub no_repeats : List PipelineStep → Bool
no_repeats [] = true
no_repeats (s ∷ steps) =
    not (any (λ t. same_criterion s.criterion t.criterion) steps) && no_repeats steps

unfoldable pub first_is_points : List PipelineStep → Bool
first_is_points [] = false
first_is_points (s ∷ steps) = same_criterion s.criterion points

-- `random_draw` in the pipeline, but not at its end
unfoldable pub draw_before_end : List PipelineStep → Bool
draw_before_end [] = false
draw_before_end (s ∷ []) = false
draw_before_end (s ∷ t ∷ steps) =
    any (λ s. same_criterion s.criterion random_draw) (s ∷ t ∷ steps)
    && not (same_criterion (last t steps).criterion random_draw)

abbrev pub one_or_two : Option ℤ → Bool
one_or_two none = false
one_or_two (some z) = leb_ℤ (pos 1) z && leb_ℤ z (pos 2)

abbrev pub rounds_missing : PipelineStep → Bool
rounds_missing s =
    same_criterion s.criterion head_to_head && not (one_or_two s.total_rounds_expected)

abbrev pub limit_of : Option ℤ → ℤ
limit_of = updated (pos 0)

-- Both limits are set and the lower one is above the upper one.
unfoldable pub players_conflict : Option ℤ → Option ℤ → Bool
players_conflict minimum maximum =
    not (leb_ℤ (limit_of minimum) (pos 0))
    && not (leb_ℤ (limit_of maximum) (pos 0))
    && not (leb_ℤ (limit_of minimum) (limit_of maximum))

unfoldable pub validate_rules_config : RulesConfig → Result RulesError (Unit {0})
unfolding schema_ok players_conflict sequential no_repeats first_is_points draw_before_end
    validate_effective_rules
validate_rules_config config = do
  raise_if (not (schema_ok config)) bad_schema
  raise_if (players_conflict config.min_players_per_team config.max_players_per_team) bad_players
  raise_if (not (sequential 1 config.ranking_pipeline)) bad_steps
  raise_if (not (no_repeats config.ranking_pipeline)) repeated_criterion
  raise_if (not (first_is_points config.ranking_pipeline)) points_not_first
  raise_if (draw_before_end config.ranking_pipeline) draw_not_last
  raise_if (any rounds_missing config.ranking_pipeline) bad_rounds_expected
  validate_effective_rules config
