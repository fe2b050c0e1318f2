-- ===== src/MatchRules/Range.antt =====
-- Which minutes a match admits.
use bracket_craft.Prelude.{
  ℕ, ◌+◌, ◌≤◌, ◌≡◌, refl, ◌↔◌, ◌⊎◌, inl, inr, true, false, ◌&&◌, Option, arith, ltb, Bool-cases,
}
use bracket_craft.Prelude.Int.{pos, leb_ℤ}
use bracket_craft.Prelude.Errors.{ok, raise_if, went_on}
use bracket_craft.Prelude.Teams.{Uuid}
use bracket_craft.Rules.{RulesConfig, effective_stage_rules}
use bracket_craft.Events.{ResolutionType}
use bracket_craft.Rules.Validation.{validate_rules_config}
use bracket_craft.Rules.Validation.Minutes.{rules-MinutesAdmitted}
use bracket_craft.MatchRules.{
  structural_max_added_minute, effective_match_minutes, with_extra_time,
  maximum_minute_for_resolution, above_maximum, validate_event_minute,
}

-- Under accepted rules the maximum minute of every resolution of every stage is between 1 and
-- 180, at least the regular time and at most the maximum of the stage.
pub maximum_minute_for_resolution-bounds :
    (config : RulesConfig) {u : Unit {0}}
    → validate_rules_config config ≡ ok u
    → (stage : Option Uuid) (resolution : Option ResolutionType)
    → (leb_ℤ
          (pos 1)
          (maximum_minute_for_resolution (effective_match_minutes config stage) resolution)
        ≡ true)
      × (leb_ℤ
            (maximum_minute_for_resolution (effective_match_minutes config stage) resolution)
            (pos 180)
          ≡ true)
      × (leb_ℤ
            (effective_match_minutes config stage).regular_time_minutes
            (maximum_minute_for_resolution (effective_match_minutes config stage) resolution)
          ≡ true)
      × (leb_ℤ
            (maximum_minute_for_resolution (effective_match_minutes config stage) resolution)
            (effective_match_minutes config stage).max_minute
          ≡ true)
unfolding maximum_minute_for_resolution effective_match_minutes
maximum_minute_for_resolution-bounds config valid stage resolution =
    let a = rules-MinutesAdmitted config valid stage in
    let e = effective_stage_rules config stage in
    elim (Bool-cases e.extra_time_enabled) [
      | inl on ↦ elim (Bool-cases (with_extra_time resolution)) [
        | inl w ↦
            rw (on, w)
              (
                ground (arith, a.regular_low, a.regular_high, a.extra_after on, a.extra_high on),
                ground (arith, a.extra_high on),
                ground (arith, a.extra_after on),
                ground arith,
              )
        | inr w ↦
            rw (on, w)
              (
                ground (arith, a.regular_low),
                ground (arith, a.regular_high),
                ground arith,
                ground (arith, a.extra_after on),
              )
      ]
      | inr off ↦ elim (Bool-cases (with_extra_time resolution)) [
        | inl w ↦
            rw (off, w) (a.regular_low, ground (arith, a.regular_high), ground arith, ground arith)
        | inr w ↦
            rw (off, w) (a.regular_low, ground (arith, a.regular_high), ground arith, ground arith)
      ]
    ]

-- An event is accepted exactly when its minute with the added minutes does not pass the
-- maximum, or the minute is the maximum itself, and at most 30 minutes are added.
pub validate_event_minute_iff :
    (minute added maximum : ℕ)
    → (validate_event_minute minute added maximum ≡ ok tt)
      ↔ ((minute + added ≤ maximum) ⊎ (minute ≡ maximum)) × (added ≤ 30)
unfolding validate_event_minute
validate_event_minute_iff minute added maximum = (accepted, accept)
  where
    accepted :
        validate_event_minute minute added maximum ≡ ok tt
        → ((minute + added ≤ maximum) ⊎ (minute ≡ maximum)) × (added ≤ 30)
    accepted h =
        let (_, a, r1) = went_on (raise_if (ltb maximum minute) above_maximum) _ h in
        let (_, b, r2) =
          went_on (raise_if (ltb minute maximum && ltb maximum (minute + added)) above_maximum) _
            r1 in
        (ground arith, ground arith)

    accept :
        ((minute + added ≤ maximum) ⊎ (minute ≡ maximum)) × (added ≤ 30)
        → validate_event_minute minute added maximum ≡ ok tt
    accept (fits, few) =
        let a : ltb maximum minute ≡ false = ground arith in
        let b : (ltb minute maximum && ltb maximum (minute + added)) ≡ false = ground arith in
        let c : ltb structural_max_added_minute added ≡ false = ground arith in rw (a, b, c) refl
