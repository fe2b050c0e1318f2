-- ===== src/Rules/Outcome/Goals.antt =====
-- The final score of a regular match is its goals.
use bracket_craft.Prelude.{
  ℕ, suc, ◌+◌, ◌≡◌, refl, sym, ap, ◌∙◌, subst, inl, inr, Bool, true, false, ◌&&◌, ◌||◌, not, Option,
  none, some, List, [], ◌∷◌, arith, ◌==◌, if◌then◌else◌, ==_iff, Bool-cases, count,
}
use bracket_craft.Prelude.Int.{ℤ, pos}
use bracket_craft.Prelude.Dict.{Dict, lookup_or, insert, lookup_or-insert}
use bracket_craft.Prelude.Errors.{ok, raise_if, went_on}
use bracket_craft.Prelude.Teams.{Uuid}
use bracket_craft.Rules.{RulesConfig, updated}
use bracket_craft.Events.{
  EventType, goal, penalty_goal, yellow_card, red_card, substitution, foul, own_goal, is_goal,
  regular,
}
use bracket_craft.Rules.Validation.{
  goals_mismatch, regular_with_final_score, below_regular_score, winner_mismatch,
}
use bracket_craft.Rules.Outcome.{
  eq_ℤ, lt_ℤ, MatchOutcome, ScoredEvent, goal_credit, credited_team, count_goals, ReportedScore,
  differs, is_regular, played_winner, contradicts, played_outcome, played_result, resolved_outcome,
  compute_match_outcome,
}
use bracket_craft.Rules.Outcome.Sound.{eq_ℤ→≡, compute_match_outcome_resolved}

-- Whether an event is a goal for the team: scored by it, or an own goal in its favour.
abbrev counts_for : Uuid → EventType → Uuid → Option Uuid → Bool
counts_for t own_goal team none = false
counts_for t own_goal team (some beneficiary) = t == beneficiary
counts_for t goal team beneficiary = t == team
counts_for t penalty_goal team beneficiary = t == team
counts_for t _ team beneficiary = false

-- The number of goals for the team.
abbrev pub score_of : Uuid → List ScoredEvent → ℕ
score_of t [] = 0
score_of t (e ∷ events) =
    if counts_for t e.event_type e.team_id e.beneficiary_team_id
    then suc (score_of t events)
    else score_of t events

goal-counts_for :
    (kind : EventType) (own : Uuid) (beneficiary : Option Uuid) (team t : Uuid)
    → credited_team kind own beneficiary ≡ ok team
    → is_goal kind ≡ true
    → counts_for t kind own beneficiary ≡ (t == team)
unfolding credited_team
goal-counts_for goal own b team t h g = let same : own ≡ team = cc in ap (λ u. t == u) same
goal-counts_for penalty_goal own b team t h g = let same : own ≡ team = cc in ap (λ u. t == u) same
goal-counts_for own_goal own none team t h g = absurd cc
goal-counts_for own_goal own (some b) team t h g = let same : b ≡ team = cc in ap (λ u. t == u) same
goal-counts_for yellow_card own b team t h g = absurd cc
goal-counts_for red_card own b team t h g = absurd cc
goal-counts_for substitution own b team t h g = absurd cc
goal-counts_for foul own b team t h g = absurd cc

other-counts_for :
    (kind : EventType) (own : Uuid) (b : Option Uuid) (t : Uuid)
    → is_goal kind ≡ false
    → counts_for t kind own b ≡ false
other-counts_for goal own b t g = absurd cc
other-counts_for penalty_goal own b t g = absurd cc
other-counts_for own_goal own b t g = absurd cc
other-counts_for yellow_card own b t g = refl
other-counts_for red_card own b t g = refl
other-counts_for substitution own b t g = refl
other-counts_for foul own b t g = refl

count_goals-score_of :
    (events : List ScoredEvent) (counted result : Dict ℕ) (t : Uuid)
    → count_goals events counted ≡ ok result
    → lookup_or 0 t result ≡ score_of t events + lookup_or 0 t counted
unfolding count_goals goal_credit
count_goals-score_of [] counted result t h =
    let same : counted ≡ result = cc in rw (sym same) (omega arith)
count_goals-score_of (e ∷ events) counted result t h = elim (Bool-cases (is_goal e.event_type)) [
  | inl scored ↦
      let (team, credit, rest) = went_on (goal_credit e) _ (rw scored at h) in
      let next = insert team (lookup_or 0 team counted + 1) counted in
      let here =
        goal-counts_for e.event_type e.team_id e.beneficiary_team_id team t credit scored in
      let look = lookup_or-insert t team (lookup_or 0 team counted + 1) counted in
      let after = count_goals-score_of events next result t rest in
      elim (Bool-cases (t == team)) [
        | inl same ↦ rw ((==_iff t team).0 same) (ground arith)
        | inr apart ↦ rw (here, apart) (after ∙ ground arith)
      ]
  | inr other ↦
      let rest = count_goals-score_of events counted result t (rw other at h) in
      rw (other-counts_for e.event_type e.team_id e.beneficiary_team_id t other) rest
]

differs-same :
    (given : Option ℤ) (expected : ℤ)
    → differs given expected ≡ false
    → updated expected given ≡ expected
differs-same none expected h = refl
differs-same (some z) expected h = eq_ℤ→≡ z expected (ground arith)

played_outcome-score :
    (r : ReportedScore) (home away : ℤ) (o : MatchOutcome)
    → is_regular r.resolution_type ≡ true
    → played_outcome r home away ≡ ok o
    → (o.home_score ≡ home)
      × (o.away_score ≡ away)
      × (home ≡ r.home_score_regular)
      × (away ≡ r.away_score_regular)
unfolding played_outcome
played_outcome-score r home away o e h =
    let final_home = updated home r.home_score in
    let final_away = updated away r.away_score in
    let (_, agree, r1) =
      went_on
        (raise_if
          (is_regular r.resolution_type
            && not (eq_ℤ home r.home_score_regular && eq_ℤ away r.away_score_regular))
          goals_mismatch)
        _ h in
    let (_, one, r2) =
      went_on
        (raise_if
          (is_regular r.resolution_type
            && (differs r.home_score r.home_score_regular
                || differs r.away_score r.away_score_regular))
          regular_with_final_score)
        _ r1 in
    let (_, _, r3) =
      went_on
        (raise_if (lt_ℤ final_home r.home_score_regular || lt_ℤ final_away r.away_score_regular)
          below_regular_score)
        _ r2 in
    let (w, _, r4) = went_on (played_winner r.resolution_type r final_home final_away) _ r3 in
    let (_, _, r5) = went_on (raise_if (contradicts r.winner_team_id w) winner_mismatch) _ r4 in
    let home_ok : eq_ℤ home r.home_score_regular ≡ true = ground (arith, e, agree) in
    let away_ok : eq_ℤ away r.away_score_regular ≡ true = ground (arith, e, agree) in
    let home_one : differs r.home_score r.home_score_regular ≡ false = ground (arith, e, one) in
    let away_one : differs r.away_score r.away_score_regular ≡ false = ground (arith, e, one) in
    let home_is = eq_ℤ→≡ home r.home_score_regular home_ok in
    let away_is = eq_ℤ→≡ away r.away_score_regular away_ok in
    let same_home : final_home ≡ o.home_score = cc in
    let same_away : final_away ≡ o.away_score = cc in
    let kept_home = differs-same r.home_score r.home_score_regular home_one in
    let kept_away = differs-same r.away_score r.away_score_regular away_one in
    (
      sym same_home ∙ (ap (λ g. updated g r.home_score) home_is ∙ (kept_home ∙ sym home_is)),
      sym same_away ∙ (ap (λ g. updated g r.away_score) away_is ∙ (kept_away ∙ sym away_is)),
      home_is,
      away_is,
    )

-- The final score of an accepted regular match is the goals of its events, own goals counted
-- for the other team, and it is the reported score.
pub compute_match_outcome-score :
    (config : RulesConfig) (events : List ScoredEvent) (r : ReportedScore) (o : MatchOutcome)
    → compute_match_outcome config events r ≡ ok o
    → r.resolution_type ≡ regular
    → (o.home_score ≡ pos (score_of r.home_team_id events))
      × (o.away_score ≡ pos (score_of r.away_team_id events))
      × (o.home_score ≡ r.home_score_regular)
      × (o.away_score ≡ r.away_score_regular)
unfolding resolved_outcome played_result
compute_match_outcome-score config events r o h e =
    let resolved = (compute_match_outcome_resolved config events r o h).1 in
    let played : played_result events r ≡ ok o =
      subst (λ rt. resolved_outcome rt config events r ≡ ok o) e resolved in
    let (counted, count, rest) = went_on (count_goals events []) _ played in
    let home = lookup_or 0 r.home_team_id counted in
    let away = lookup_or 0 r.away_team_id counted in
    let (home_is, away_is, home_given, away_given) =
      played_outcome-score r (pos home) (pos away) o (ap is_regular e) rest in
    let home_goals : home ≡ score_of r.home_team_id events =
      count_goals-score_of events [] counted r.home_team_id count ∙ omega arith in
    let away_goals : away ≡ score_of r.away_team_id events =
      count_goals-score_of events [] counted r.away_team_id count ∙ omega arith in
    (
      home_is ∙ ap pos home_goals,
      away_is ∙ ap pos away_goals,
      home_is ∙ home_given,
      away_is ∙ away_given,
    )
