-- ===== src/Replay.antt =====
-- The replay of a report at its closing: `replay_report_state` of
-- backend/app/modules/matches/service.py, over the substitution engine. The loop keeps the state
-- and the usage of each team, and the first assist error, which it raises only at the end.
mod Tests
pub mod Agreement
pub mod Sound
pub mod Usage
use bracket_craft.Prelude.{
  not, Option, none, some, List, [], ◌∷◌, ◌++◌, Perm, if◌then◌else◌, keep, elem,
}
use bracket_craft.Prelude.Dict.{Dict, lookup, lookup_or, insert}
use mathlib.Core.List.Perm
use bracket_craft.Prelude.Errors.{Result, ok, raise, ◌>>=◌, ◌>>◌, raise_if}
use bracket_craft.Prelude.Teams.{Uuid}
use bracket_craft.Events.{is_red_card, is_substitution}
use bracket_craft.Substitutions.{
  SubstitutionErrorCode, team_mismatch, player_not_in_roster, RosterEntry, MatchEvent,
  effective_minute, substitution_pair, SubstitutionLimits, Window, OnFieldState, is_in_roster,
  canonical_event_order,
}
use bracket_craft.Substitutions.Field.{build_on_field, apply_substitution, apply_red_card}
use bracket_craft.Substitutions.Limits.{
  window_eq, has_window, TeamUsage, no_usage, merge, window_of, fresh_usage,
}
use bracket_craft.Substitutions.Checks.{
  validate_substitution, validate_player_on_field, validate_assist_player, validate_roster_minutes,
}

pub record Replay : Type 0 where
  pub states : Dict OnFieldState
  pub usage : Dict TeamUsage
  pub deferred_assist_error : Option SubstitutionErrorCode

pub record ReportState : Type 0 where
  pub limits : SubstitutionLimits
  pub states : Dict OnFieldState
  pub usage : Dict TeamUsage

-- `tuple(dict.fromkeys(team_ids))`: the first of each stays.
abbrev pub unique : List Uuid → List Uuid → List Uuid
unique seen [] = seen
unique seen (t ∷ ts) = unique (if elem t seen then seen else seen ++ t ∷ []) ts

unfoldable pub initial_states :
    List RosterEntry → List Uuid → Result SubstitutionErrorCode (Dict OnFieldState)
initial_states entries [] = ok []
initial_states entries (t ∷ ts) = do
  s ← build_on_field entries [] t
  rest ← initial_states entries ts
  ok ((t, s) ∷ rest)

-- `{entry.player_id: entry for entry in entries}`
abbrev pub by_player : List RosterEntry → Dict RosterEntry → Dict RosterEntry
by_player [] d = d
by_player (e ∷ es) d = by_player es (insert e.player_id e d)

abbrev pub team_of : Option RosterEntry → Option Uuid
team_of none = none
team_of (some e) = some e.team_id

-- A window that is already used is not counted again against `max_windows`.
unfoldable pub usage_to_check : TeamUsage → Window → TeamUsage
usage_to_check u w =
    if has_window w u.windows
    then record u { windows = keep (λ v. not (window_eq w v)) u.windows }
    else u

abbrev pub first_error :
    Option SubstitutionErrorCode
    → Result SubstitutionErrorCode (Unit {0})
    → Option SubstitutionErrorCode
first_error (some e) r = some e
first_error none (ok _) = none
first_error none (raise e) = some e

unfoldable pub replay_substitution :
    SubstitutionLimits
    → MatchEvent
    → OnFieldState
    → Uuid
    → Uuid
    → Replay
    → Result SubstitutionErrorCode Replay
replay_substitution l e s out in_ r =
    let current = lookup_or no_usage e.team_id r.usage in
    do
      validate_substitution s l (usage_to_check current (window_of e)) out in_ (some e.team_id)
      ok (record r {
        states = insert e.team_id (apply_substitution s out in_ (effective_minute e)) r.states;
        usage =
            insert e.team_id
              (merge current (record { substitutions = 1; windows = window_of e ∷ [] })) r.usage;
      })

unfoldable pub replay_player :
    Dict RosterEntry
    → MatchEvent
    → OnFieldState
    → Uuid
    → Replay
    → Result SubstitutionErrorCode Replay
replay_player entries e s p r = do
  raise_if (not (is_in_roster s p)) player_not_in_roster
  validate_player_on_field s p e.minute e.added_minute
  ok (record r {
    states =
        if is_red_card e.event_type
        then insert e.team_id (apply_red_card s p (effective_minute e)) r.states
        else r.states;
    deferred_assist_error = elim e.assist_player_id [
      | none ↦ r.deferred_assist_error
      | some a ↦
          first_error r.deferred_assist_error
            (validate_assist_player s a e.minute e.added_minute (team_of (lookup a entries)))
    ];
  })

-- One round of the loop.
unfoldable pub replay_event :
    SubstitutionLimits
    → Dict RosterEntry
    → MatchEvent
    → Replay
    → Result SubstitutionErrorCode Replay
replay_event l entries e r = elim (lookup e.team_id r.states) [
  | none ↦ raise team_mismatch
  | some s ↦
      if is_substitution e.event_type
      then elim (substitution_pair e) [
        | none ↦ ok r
        | some (out, in_) ↦ replay_substitution l e s out in_ r
      ]
      else elim e.player_id [ none ↦ ok r | some p ↦ replay_player entries e s p r ]
]

unfoldable pub replay_events :
    SubstitutionLimits
    → Dict RosterEntry
    → List MatchEvent
    → Replay
    → Result SubstitutionErrorCode Replay
replay_events l entries [] r = ok r
replay_events l entries (e ∷ es) r = do
  next ← replay_event l entries e r
  replay_events l entries es next

unfoldable pub check_minutes :
    List RosterEntry → Dict OnFieldState → Result SubstitutionErrorCode (Unit {0})
check_minutes [] states = ok tt
check_minutes (e ∷ es) states =
    elim (lookup e.team_id states) [
      | none ↦ ok tt
      | some s ↦ validate_roster_minutes s e.player_id e.entered_minute e.left_minute
    ]
    >> check_minutes es states

abbrev pub raise_deferred : Option SubstitutionErrorCode → Result SubstitutionErrorCode (Unit {0})
raise_deferred none = ok tt
raise_deferred (some e) = raise e

unfoldable pub replay_report_state :
    List RosterEntry
    → List MatchEvent
    → List Uuid
    → SubstitutionLimits
    → Result SubstitutionErrorCode ReportState
replay_report_state rosters events team_ids l =
    let teams = unique [] team_ids in
    do
      states ← initial_states rosters teams
      r ←
          replay_events l (by_player rosters []) (canonical_event_order events)
            (record { states = states; usage = fresh_usage teams; deferred_assist_error = none })
      check_minutes rosters r.states
      raise_deferred r.deferred_assist_error
      ok (record { limits = l; states = r.states; usage = r.usage })
