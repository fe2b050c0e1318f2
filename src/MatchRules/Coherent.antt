-- ===== src/MatchRules/Coherent.antt =====
-- Rules published with a coherent walkover pair give every match a walkover that its winner wins.
use bracket_craft.Prelude.{
  ◌≡◌, refl, sym, ap, ◌∙◌, subst, ◌≢◌, inl, inr, true, false, ◌||◌, not, Option, none, some, List,
  [], ◌∷◌, arith, leb, ◌==◌, ==_iff, Bool-cases, Option-cases, elem,
}
use bracket_craft.Prelude.Int.{pos, leb_ℤ}
use bracket_craft.Prelude.Dict.{Dict, lookup, keys}
use bracket_craft.Prelude.Sort.{sort_by}
use bracket_craft.Prelude.Errors.{ok, raise_if, went_on}
use bracket_craft.Prelude.Teams.{Uuid, count-sort_by, SameTeams-elem}
use bracket_craft.Rules.{
  WalkoverPair, StageRules, RulesConfig, default_stage_rules, updated, update, merged_stage_rules,
  effective_stage_rules, or_else,
}
use bracket_craft.Rules.Outcome.{lt_ℤ}
use bracket_craft.Rules.Validation.{
  validate_walkover_pair, validate_walkover_overrides, validate_walkover_score, negative_walkover,
}
use bracket_craft.MatchRules.{
  WalkoverScore, is_coherent, derive_walkover_score, overridden, with_override, match_rules,
}
use bracket_craft.MatchRules.Walkover.{derived-share, with_override-overrides}

abbrev Ahead : WalkoverPair → Type 0
Ahead pair = leb_ℤ pair.winner pair.loser ≡ false

pair-Ahead : (pair : WalkoverPair) {u : Unit {0}} → validate_walkover_pair pair ≡ ok u → Ahead pair
unfolding validate_walkover_pair
pair-Ahead pair h =
    let (_, _, r1) =
      went_on
        (raise_if (not (leb_ℤ (pos 0) pair.winner) || not (leb_ℤ (pos 0) pair.loser))
          negative_walkover)
        _ h in
    ground arith

overrides-Ahead :
    (config : RulesConfig) (overrides : Dict StageRules) (ids : List Uuid) (s : Uuid) {u : Unit {0}}
    → validate_walkover_overrides config overrides ids ≡ ok u
    → elem s ids ≡ true
    → Ahead (merged_stage_rules config (lookup s overrides)).walkover_score
unfolding validate_walkover_overrides
overrides-Ahead config overrides [] s h m = absurd cc
overrides-Ahead config overrides (i ∷ ids) s h m =
    let (_, now, rest) =
      went_on
        (validate_walkover_pair (merged_stage_rules config (lookup i overrides)).walkover_score) _
        h in
    elim (Bool-cases (s == i)) [
      | inl here ↦
          subst (λ i. Ahead (merged_stage_rules config (lookup i overrides)).walkover_score)
            (sym ((==_iff s i).0 here))
            (pair-Ahead (merged_stage_rules config (lookup i overrides)).walkover_score now)
      | inr there ↦ overrides-Ahead config overrides ids s rest (ground arith)
    ]

lookup-keys :
    (s : Uuid) (d : Dict StageRules) (o : StageRules) → lookup s d ≡ some o → elem s (keys d) ≡ true
lookup-keys s [] o h = absurd cc
lookup-keys s ((k, v) ∷ d) o h = elim (Bool-cases (s == k)) [
  | inl here ↦ rw here refl
  | inr there ↦ rw there (lookup-keys s d o (rw there at h))
]

effective-Ahead :
    (config : RulesConfig) {u : Unit {0}}
    → validate_walkover_score config ≡ ok u
    → (s : Uuid) → Ahead (effective_stage_rules config (some s)).walkover_score
unfolding validate_walkover_score effective_stage_rules
effective-Ahead config h s =
    let d = config.stage_overrides in
    let (_, now, rest) =
      went_on (validate_walkover_pair (merged_stage_rules config none).walkover_score) _ h in
    elim (Option-cases (lookup s d)) [
      | inl missing ↦
          subst (λ o. Ahead (merged_stage_rules config o).walkover_score) (sym missing)
            (pair-Ahead (merged_stage_rules config none).walkover_score now)
      | inr (o, found) ↦ overrides-Ahead config d (sort_by leb (keys d)) s rest (
          SameTeams-elem s (sort_by leb (keys d)) (keys d) (λ t. count-sort_by leb t (keys d))
          ∙ lookup-keys s d o found)
    ]

updated-twice :
    (base : WalkoverPair) (new old : Option WalkoverPair)
    → updated (updated base (or_else new old)) new ≡ updated (updated base old) new
updated-twice base none old = refl
updated-twice base (some q) old = refl

with_override-effective :
    (config : RulesConfig) (o : Option StageRules)
    → (merged_stage_rules (with_override config o) o).walkover_score
      ≡ (merged_stage_rules config o).walkover_score
unfolding with_override merged_stage_rules update overridden
with_override-effective config none = refl
with_override-effective config (some o) =
    updated-twice default_stage_rules.walkover_score o.walkover_score
      config.stage_defaults.walkover_score

match_rules-effective :
    (config : RulesConfig) (s : Uuid)
    → (effective_stage_rules (match_rules config s) (some s)).walkover_score
      ≡ (effective_stage_rules config (some s)).walkover_score
unfolding match_rules effective_stage_rules
match_rules-effective config s =
    let o = lookup s config.stage_overrides in
    ap (λ d. (merged_stage_rules (with_override config o) (lookup s d)).walkover_score)
      (with_override-overrides config o)
    ∙ with_override-effective config o

-- Under rules whose walkover pairs were accepted, a walkover score derived for a match of any
-- stage between two different teams is coherent, and the declared winner has more goals than
-- its opponent.
pub derive_walkover_score_ahead :
    (config : RulesConfig) (stage home away w : Uuid) (score : WalkoverScore)
    → validate_walkover_score config ≡ ok tt
    → home ≢ away
    → derive_walkover_score (match_rules config stage) (some stage) (some home) (some away) (some w)
      ≡ some score
    → (is_coherent score ≡ true)
      × (w ≡ home → lt_ℤ score.away_score score.home_score ≡ true)
      × (w ≡ away → lt_ℤ score.home_score score.away_score ≡ true)
unfolding is_coherent
derive_walkover_score_ahead config stage home away w score valid ne derived =
    let rules = match_rules config stage in
    let pair = (effective_stage_rules rules (some stage)).walkover_score in
    let ahead : Ahead pair =
      subst Ahead (sym (match_rules-effective config stage)) (effective-Ahead config valid stage) in
    let (who, home_is, away_is, winner_is, loser_is) =
      derived-share rules (some stage) home away w score ne derived in
    (
      rw (winner_is, loser_is, ahead) refl,
      λ e.
          let here : (w == home) ≡ true = ground arith in
          let apart : (w == away) ≡ false = ground arith in
          rw (rw here at home_is, rw apart at away_is, ahead) refl,
      λ e.
          let here : (w == away) ≡ true = ground arith in
          let apart : (w == home) ≡ false = ground arith in
          rw (rw apart at home_is, rw here at away_is, ahead) refl,
    )
