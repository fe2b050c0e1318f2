-- ===== src/Substitutions.antt =====
-- backend/app/modules/rules_engine/substitutions.py: the records of the engine, the sets and dicts
-- that it keeps, and the canonical order of the events.
pub mod Field
pub mod Limits
pub mod Checks
pub mod Canonical
pub mod Intervals
pub mod Stoppage
pub mod Windows
use bracket_craft.Prelude.{
  ℕ, ◌+◌, Bool, true, false, ◌&&◌, not, Option, none, some, List, [], ◌∷◌, ◌++◌, Perm, ltb, leb,
  ◌==◌, if◌then◌else◌, keep, any, elem,
}
use bracket_craft.Prelude.Dict.{Dict, lookup_or, keys}
use bracket_craft.Prelude.Sort.{sort_by}
use mathlib.Core.List.Perm
use bracket_craft.Prelude.Teams.{Uuid}
use bracket_craft.Events.{EventType, is_substitution}

pub data SubstitutionErrorCode : Type 0 where
  no_lineup team_mismatch player_not_in_roster same_player player_ejected player_out_not_on_field
        player_in_already_on_field reentry_not_allowed substitutions_exhausted windows_exhausted
        player_not_on_field roster_minutes_conflict assist_player_invalid :
      SubstitutionErrorCode

-- The role is only compared with "starter".
pub data Role : Type 0 where
  starter other_role : Role

pub record RosterEntry : Type 0 where
  pub player_id : Uuid
  pub team_id : Uuid
  pub role : Role
  pub is_valid : Bool
  pub entered_minute : Option ℕ
  pub left_minute : Option ℕ

pub record MatchEvent : Type 0 where
  pub event_type : EventType
  pub team_id : Uuid
  pub minute : ℕ
  pub added_minute : ℕ
  pub index : ℕ
  pub player_id : Option Uuid
  pub player_out_id : Option Uuid
  pub player_in_id : Option Uuid
  pub assist_player_id : Option Uuid
  pub segment_id : Option Uuid

abbrev pub effective_minute : MatchEvent → ℕ
effective_minute e = e.minute + e.added_minute

abbrev pub both : Option Uuid → Option Uuid → Option (Uuid × Uuid)
both (some a) (some b) = some (a, b)
both (some a) none = none
both none _ = none

-- `is_substitution_with_pair`, with the pair: who leaves and who enters.
unfoldable pub substitution_pair : MatchEvent → Option (Uuid × Uuid)
substitution_pair e =
    if is_substitution e.event_type then both e.player_out_id e.player_in_id else none

-- Half-open: `end` is `none` while the player is on the field.
pub record Interval : Type 0 where
  pub start : ℕ
  pub end : Option ℕ

abbrev pub before_end : ℕ → Option ℕ → Bool
before_end minute none = true
before_end minute (some e) = ltb minute e

abbrev pub contains : ℕ → Interval → Bool
contains minute i = leb i.start minute && before_end minute i.end

pub record SubstitutionLimits : Type 0 where
  pub max_per_team : ℕ
  pub max_windows : ℕ
  pub allow_reentry : Bool

-- One window is one `(segment_id, minute, added_minute)`.
pub record Window : Type 0 where
  pub segment_id : Option Uuid
  pub minute : ℕ
  pub added_minute : ℕ

pub record OnFieldState : Type 0 where
  pub team_id : Uuid
  pub roster : Dict RosterEntry
  pub intervals : Dict (List Interval)
  pub on_field : List Uuid
  pub ejected : List Uuid

-- A Python set of identifiers: `discard` and `add`.
abbrev pub discard : Uuid → List Uuid → List Uuid
discard p s = keep (λ q. not (p == q)) s

abbrev pub add : Uuid → List Uuid → List Uuid
add p s = if elem p s then s else s ++ p ∷ []

unfoldable pub intervals_for : OnFieldState → Uuid → List Interval
intervals_for s p = lookup_or [] p s.intervals

unfoldable pub is_in_roster : OnFieldState → Uuid → Bool
is_in_roster s p = elem p (keys s.roster)

abbrev pub is_on_field : OnFieldState → Uuid → Bool
is_on_field s p = elem p s.on_field

abbrev pub is_ejected : OnFieldState → Uuid → Bool
is_ejected s p = elem p s.ejected

abbrev pub is_empty {ℓ} : {A : Type ℓ} → List A → Bool
is_empty [] = true
is_empty (x ∷ xs) = false

unfoldable pub has_been_on_field : OnFieldState → Uuid → Bool
unfolding intervals_for
has_been_on_field s p = not (is_empty (intervals_for s p))

unfoldable pub is_on_field_at : OnFieldState → Uuid → ℕ → Bool
unfolding intervals_for
is_on_field_at s p minute = any (contains minute) (intervals_for s p)

-- The keys of the roster that are neither on the field nor ejected.
unfoldable pub bench : OnFieldState → List Uuid
bench s = keep (λ p. not (elem p s.on_field) && not (elem p s.ejected)) (keys s.roster)

-- `order_key`, compared as a tuple
unfoldable pub event_le : MatchEvent → MatchEvent → Bool
event_le a b =
    if ltb a.minute b.minute
    then true
    else if ltb b.minute a.minute
    then false
    else if ltb a.added_minute b.added_minute
    then true
    else if ltb b.added_minute a.added_minute
    then false
    else leb a.index b.index

unfoldable pub canonical_event_order : List MatchEvent → List MatchEvent
canonical_event_order = sort_by event_le
