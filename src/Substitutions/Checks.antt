-- ===== src/Substitutions/Checks.antt =====
-- The checks of backend/app/modules/rules_engine/substitutions.py, in the order of their raises.
use bracket_craft.Prelude.{
  ℕ, ◌+◌, Bool, true, false, ◌&&◌, ◌||◌, not, Option, none, some, List, [], ◌∷◌, ltb, ◌==◌,
}
use bracket_craft.Prelude.Errors.{Result, ◌>>◌, raise_if}
use bracket_craft.Prelude.Teams.{Uuid}
use bracket_craft.Substitutions.{
  SubstitutionErrorCode, team_mismatch, player_not_in_roster, same_player, player_ejected,
  player_out_not_on_field, player_in_already_on_field, reentry_not_allowed, player_not_on_field,
  roster_minutes_conflict, assist_player_invalid, Interval, SubstitutionLimits, OnFieldState,
  intervals_for, is_in_roster, is_on_field, is_ejected, has_been_on_field, is_on_field_at,
}
use bracket_craft.Substitutions.Limits.{TeamUsage, is_some, check_substitution_limits}

abbrev pub other_team : Option Uuid → Uuid → Bool
other_team none team = false
other_team (some t) team = not (t == team)

unfoldable pub validate_substitution :
    OnFieldState
    → SubstitutionLimits
    → TeamUsage
    → Uuid
    → Uuid
    → Option Uuid
    → Result SubstitutionErrorCode (Unit {0})
validate_substitution s l u out in_ team = do
  check_substitution_limits l u
  raise_if (other_team team s.team_id) team_mismatch
  raise_if (not (is_in_roster s out)) player_not_in_roster
  raise_if (not (is_in_roster s in_)) player_not_in_roster
  raise_if (out == in_) same_player
  raise_if (is_ejected s out) player_ejected
  raise_if (is_ejected s in_) player_ejected
  raise_if (not (is_on_field s out)) player_out_not_on_field
  raise_if (is_on_field s in_) player_in_already_on_field
  raise_if (not l.allow_reentry && has_been_on_field s in_) reentry_not_allowed

unfoldable pub validate_player_on_field :
    OnFieldState → Uuid → ℕ → ℕ → Result SubstitutionErrorCode (Unit {0})
validate_player_on_field s p minute added =
    raise_if (not (is_on_field_at s p (minute + added))) player_not_on_field

unfoldable pub validate_assist_player :
    OnFieldState → Uuid → ℕ → ℕ → Option Uuid → Result SubstitutionErrorCode (Unit {0})
validate_assist_player s p minute added team = do
  raise_if (other_team team s.team_id) assist_player_invalid
  raise_if (not (is_in_roster s p)) assist_player_invalid
  raise_if (not (is_on_field_at s p (minute + added))) assist_player_invalid

-- `value is not None and value != expected`
abbrev pub differs : Option ℕ → Option ℕ → Bool
differs none expected = false
differs (some v) none = true
differs (some v) (some e) = not (v == e)

-- The minutes of the sheet against the intervals: none, one, or several (re-entry).
unfoldable pub minutes_conflict : List Interval → Option ℕ → Option ℕ → Bool
minutes_conflict [] entered left = is_some entered || is_some left
minutes_conflict (i ∷ []) entered left =
    ltb 0 i.start && differs entered (some i.start) || differs left i.end
minutes_conflict (i ∷ j ∷ is) entered left = false

unfoldable pub validate_roster_minutes :
    OnFieldState → Uuid → Option ℕ → Option ℕ → Result SubstitutionErrorCode (Unit {0})
validate_roster_minutes s p entered left =
    raise_if (minutes_conflict (intervals_for s p) entered left) roster_minutes_conflict
