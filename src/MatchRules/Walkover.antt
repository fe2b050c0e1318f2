-- ===== src/MatchRules/Walkover.antt =====
-- A walkover derived from the rules is one that the rules engine accepts.
use bracket_craft.Prelude.{
  ◌≡◌, refl, sym, ap, ◌∙◌, ◌≢◌, ◌⊎◌, inl, inr, true, false, not, Option, none, some, [], arith,
  ◌==◌, ==_iff, Bool-cases, Option-cases,
}
use bracket_craft.Prelude.Int.{ℤ}
use bracket_craft.Prelude.Dict.{lookup}
use bracket_craft.Prelude.Errors.{ok, raise_if, went_on}
use bracket_craft.Prelude.Teams.{Uuid}
use bracket_craft.Rules.{
  WalkoverPair, StageRules, RulesConfig, default_stage_rules, updated, update, merged_stage_rules,
  effective_stage_rules, or_else,
}
use bracket_craft.Rules.Schema.{schema-stage_defaults, schema_ok, stage_defaults_ok}
use bracket_craft.Events.{walkover}
use bracket_craft.Rules.Validation.{bad_schema, validate_rules_config}
use bracket_craft.Rules.Outcome.{
  eq_ℤ, MatchOutcome, ReportedScore, outsider, share, walkover_outcome, walkover_result,
  resolved_outcome, compute_match_outcome,
}
use bracket_craft.MatchRules.{
  WalkoverScore, derive_walkover_score, overridden, with_override, match_rules,
}

-- What a walkover report gives the engine.
abbrev pub walkover_report : Uuid → Uuid → Uuid → WalkoverScore → ReportedScore
walkover_report home away w score = record {
  resolution_type = walkover;
  home_team_id = home;
  away_team_id = away;
  home_score_regular = score.home_score;
  away_score_regular = score.away_score;
  home_score = some score.home_score;
  away_score = some score.away_score;
  home_penalties = none;
  away_penalties = none;
  winner_team_id = some w;
}

abbrev pub walkover_match_outcome : Uuid → WalkoverScore → MatchOutcome
walkover_match_outcome w score = record {
  home_score = score.home_score;
  away_score = score.away_score;
  winner_team_id = some w;
  home_penalties = none;
  away_penalties = none;
}

updated-or_else :
    (base pair : WalkoverPair) (new old : Option WalkoverPair)
    → or_else new old ≡ some pair
    → updated (updated base (or_else new old)) new ≡ pair
updated-or_else base pair none old h = ap (updated base) h
updated-or_else base pair (some q) old h = cc

with_override-pair :
    (config : RulesConfig) (o : Option StageRules) (pair : WalkoverPair)
    → (with_override config o).stage_defaults.walkover_score ≡ some pair
    → (merged_stage_rules (with_override config o) o).walkover_score ≡ pair
unfolding with_override merged_stage_rules update overridden
with_override-pair config none pair h = ap (updated default_stage_rules.walkover_score) h
with_override-pair config (some o) pair h =
    updated-or_else default_stage_rules.walkover_score pair o.walkover_score
      config.stage_defaults.walkover_score h

pub with_override-overrides :
    (config : RulesConfig) (o : Option StageRules)
    → (with_override config o).stage_overrides ≡ config.stage_overrides
unfolding with_override
with_override-overrides config none = refl
with_override-overrides config (some o) = refl

-- The rules of a match give its stage the pair of its stage defaults.
match_rules-pair :
    (config : RulesConfig) (stage : Uuid) (pair : WalkoverPair)
    → (match_rules config stage).stage_defaults.walkover_score ≡ some pair
    → (effective_stage_rules (match_rules config stage) (some stage)).walkover_score ≡ pair
unfolding match_rules effective_stage_rules
match_rules-pair config stage pair h =
    let o = lookup stage config.stage_overrides in
    ap (λ d. (merged_stage_rules (with_override config o) (lookup stage d)).walkover_score)
      (with_override-overrides config o)
    ∙ with_override-pair config o pair h

eq_ℤ-refl : (z : ℤ) → eq_ℤ z z ≡ true
eq_ℤ-refl z = ground arith

walkover_outcome-derived :
    (pair : WalkoverPair) (home away w : Uuid) (score : WalkoverScore)
    → score.home_score ≡ share pair w home
    → score.away_score ≡ share pair w away
    → walkover_outcome pair (walkover_report home away w score) w
      ≡ ok (walkover_match_outcome w score)
unfolding walkover_outcome
walkover_outcome-derived pair home away w score hs as_ =
    rw (sym hs, sym as_, eq_ℤ-refl score.home_score, eq_ℤ-refl score.away_score) refl

pub derived-share :
    (config : RulesConfig) (stage : Option Uuid) (home away w : Uuid) (score : WalkoverScore)
    → home ≢ away
    → derive_walkover_score config stage (some home) (some away) (some w) ≡ some score
    → ((w ≡ home) ⊎ (w ≡ away))
      × (score.home_score ≡ share (effective_stage_rules config stage).walkover_score w home)
      × (score.away_score ≡ share (effective_stage_rules config stage).walkover_score w away)
      × (score.winner_score ≡ (effective_stage_rules config stage).walkover_score.winner)
      × (score.loser_score ≡ (effective_stage_rules config stage).walkover_score.loser)
unfolding derive_walkover_score
derived-share config stage home away w score ne h = elim (Bool-cases (w == home)) [
  | inl is_home ↦
      let made = rw is_home at h in
      let other : (w == away) ≡ false = ground arith in
      (inl ((==_iff w home).0 is_home), rw is_home cc, rw other cc, cc, cc)
  | inr not_home ↦ elim (Bool-cases (w == away)) [
    | inl is_away ↦
        let made = rw (not_home, is_away) at h in
        (inr ((==_iff w away).0 is_away), rw not_home cc, rw is_away cc, cc, cc)
    | inr not_away ↦ let made = rw (not_home, not_away) at h in absurd cc
  ]
]

valid-pair :
    (config : RulesConfig) {u : Unit {0}}
    → validate_rules_config config ≡ ok u
    → (pair : WalkoverPair) × (config.stage_defaults.walkover_score ≡ some pair)
unfolding validate_rules_config stage_defaults_ok
valid-pair config h =
    let (_, schema, _) = went_on (raise_if (not (schema_ok config)) bad_schema) _ h in
    let fine : schema_ok config ≡ true = ground arith in
    let stage = schema-stage_defaults config fine in
    elim (Option-cases config.stage_defaults.walkover_score) [
      | inl missing ↦ absurd (ground (arith, missing, stage))
      | inr found ↦ found
    ]

-- Between two different teams and with rules that are valid for the match, the engine accepts the walkover score derived for a
-- participant and returns it, with that team as the winner.
pub compute_match_outcome-derived_walkover :
    (config : RulesConfig) (stage home away w : Uuid) (score : WalkoverScore)
    → validate_rules_config (match_rules config stage) ≡ ok tt
    → home ≢ away
    → derive_walkover_score (match_rules config stage) (some stage) (some home) (some away) (some w)
      ≡ some score
    → compute_match_outcome (match_rules config stage) [] (walkover_report home away w score)
      ≡ ok (walkover_match_outcome w score)
unfolding compute_match_outcome resolved_outcome walkover_result
compute_match_outcome-derived_walkover config stage home away w score valid ne derived =
    let rules = match_rules config stage in
    let (pair, is_pair) = valid-pair rules valid in
    let shown = match_rules-pair config stage pair is_pair in
    let (who, home_is, away_is, _, _) =
      derived-share rules (some stage) home away w score ne derived in
    let inside : outsider home away (some w) ≡ false = ground arith in
    let hs = home_is ∙ ap (λ p. share p w home) shown in
    let as_ = away_is ∙ ap (λ p. share p w away) shown in
    rw (valid, inside, is_pair) (walkover_outcome-derived pair home away w score hs as_)
