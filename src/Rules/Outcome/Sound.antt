-- ===== src/Rules/Outcome/Sound.antt =====
-- What an accepted outcome says: who won, by which scores, and whose goals they are.
use bracket_craft.Prelude.{◌≡◌, true, false, ◌&&◌, not, some, List, arith, if◌then◌else◌}
use bracket_craft.Prelude.Int.{ℤ, eq_of_parts}
use bracket_craft.Prelude.Errors.{ok, raise_if, went_on}
use bracket_craft.Prelude.Teams.{Uuid}
use bracket_craft.Rules.{RulesConfig}
use bracket_craft.Events.{ResolutionType, regular, extra_time, penalties, walkover, administrative}
use bracket_craft.Rules.Validation.{
  foreign_winner, extra_time_disabled, penalties_disabled, validate_rules_config,
}
use bracket_craft.Rules.Outcome.{
  eq_ℤ, lt_ℤ, MatchOutcome, ScoredEvent, ReportedScore, is_enabled, outsider, leader, is_extra_time,
  is_penalties, resolved_outcome, compute_match_outcome,
}

pub eq_ℤ→≡ : (a b : ℤ) → eq_ℤ a b ≡ true → a ≡ b
eq_ℤ→≡ a b h = eq_of_parts a b (ground arith)

-- Who the penalties name: both counts are there and differ.
pub record WonOnPenalties (r : ReportedScore) (o : MatchOutcome) : Type 0 where
  pub home : ℤ
  pub away : ℤ
  pub home_is : o.home_penalties ≡ some home
  pub away_is : o.away_penalties ≡ some away
  pub apart : eq_ℤ home away ≡ false
  pub winner_is :
      o.winner_team_id ≡ (if lt_ℤ away home then some r.home_team_id else some r.away_team_id)

-- What decides a match under each resolution.
abbrev pub Verdict : ResolutionType → ReportedScore → MatchOutcome → Type 0
Verdict regular r o =
    o.winner_team_id ≡ leader r.home_team_id r.away_team_id o.home_score o.away_score
Verdict extra_time r o =
    o.winner_team_id ≡ leader r.home_team_id r.away_team_id o.home_score o.away_score
Verdict penalties r o = (o.home_score ≡ o.away_score) × WonOnPenalties r o
Verdict walkover r o = o.winner_team_id ≡ r.winner_team_id
Verdict administrative r o = o.winner_team_id ≡ r.winner_team_id

-- The reported winner, if there is one, is the winner.
abbrev pub Confirmed : ReportedScore → MatchOutcome → Type 0
Confirmed r o = (t : Uuid) → r.winner_team_id ≡ some t → o.winner_team_id ≡ some t

-- An accepted outcome is the one of its resolution.
pub compute_match_outcome_resolved :
    (config : RulesConfig) (events : List ScoredEvent) (r : ReportedScore) (o : MatchOutcome)
    → compute_match_outcome config events r ≡ ok o
    → (validate_rules_config config ≡ ok tt)
      × (resolved_outcome r.resolution_type config events r ≡ ok o)
unfolding compute_match_outcome
compute_match_outcome_resolved config events r o h =
    let (_, valid, r1) = went_on (validate_rules_config config) _ h in
    let (_, _, r2) =
      went_on (raise_if (outsider r.home_team_id r.away_team_id r.winner_team_id) foreign_winner) _
        r1 in
    let (_, _, r3) =
      went_on
        (raise_if
          (is_extra_time r.resolution_type
            && not (is_enabled config.stage_defaults.extra_time_enabled))
          extra_time_disabled)
        _ r2 in
    let (_, _, r4) =
      went_on
        (raise_if
          (is_penalties r.resolution_type
            && not (is_enabled config.stage_defaults.penalties_enabled))
          penalties_disabled)
        _ r3 in
    (valid, r4)
