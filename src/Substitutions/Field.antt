-- ===== src/Substitutions/Field.antt =====
-- The state on the field: `build_on_field` and the two transitions of
-- backend/app/modules/rules_engine/substitutions.py.
use bracket_craft.Prelude.{
  ℕ, max, Bool, true, false, ◌&&◌, not, Option, none, some, List, [], ◌∷◌, ◌++◌, leb, ◌==◌,
  if◌then◌else◌,
}
use bracket_craft.Prelude.Dict.{Dict, lookup_or, insert, modify}
use bracket_craft.Prelude.Sort.{sort_by}
use bracket_craft.Prelude.Errors.{Result, ok, raise}
use bracket_craft.Prelude.Teams.{Uuid}
use bracket_craft.Events.{is_red_card}
use bracket_craft.Substitutions.{
  SubstitutionErrorCode, no_lineup, Role, starter, other_role, RosterEntry, MatchEvent,
  effective_minute, substitution_pair, Interval, OnFieldState, discard, add, is_empty,
  canonical_event_order,
}

abbrev pub closed_at : ℕ → ℕ → Option ℕ → Option ℕ
closed_at minute start none = some (max minute start)
closed_at minute start (some e) = some e

abbrev pub clamp_end : ℕ → Interval → Interval
clamp_end minute i = record i { end = closed_at minute i.start i.end }

-- The last interval of the history is closed if it is open, never before its start.
abbrev pub close_last : ℕ → List Interval → List Interval
close_last minute [] = []
close_last minute (i ∷ []) = clamp_end minute i ∷ []
close_last minute (i ∷ j ∷ is) = i ∷ close_last minute (j ∷ is)

unfoldable pub close_interval : Dict (List Interval) → Uuid → ℕ → Dict (List Interval)
close_interval d p minute = modify p (close_last minute) d

-- `intervals.setdefault(p, []).append(Interval(start=minute))`
unfoldable pub open_interval : Dict (List Interval) → Uuid → ℕ → Dict (List Interval)
open_interval d p minute =
    insert p (lookup_or [] p d ++ record { start = minute; end = none } ∷ []) d

-- `_valid_entries`: a later row of a player replaces the earlier one.
unfoldable pub valid_entries : List RosterEntry → Uuid → Dict RosterEntry → Dict RosterEntry
valid_entries [] team d = d
valid_entries (e ∷ es) team d =
    valid_entries es team (if e.is_valid && e.team_id == team then insert e.player_id e d else d)

abbrev pub is_starter : Role → Bool
is_starter starter = true
is_starter other_role = false

unfoldable pub starters : Dict RosterEntry → List Uuid
starters [] = []
starters ((p, e) ∷ d) = if is_starter e.role then p ∷ starters d else starters d

unfoldable pub starter_player_ids : List RosterEntry → Uuid → List Uuid
starter_player_ids roster team = sort_by leb (starters (valid_entries roster team []))

unfoldable pub has_lineup : List RosterEntry → Uuid → Bool
has_lineup roster team = not (is_empty (starter_player_ids roster team))

abbrev pub initial_intervals : List Uuid → Dict (List Interval)
initial_intervals [] = []
initial_intervals (p ∷ ps) = (p, record { start = 0; end = none } ∷ []) ∷ initial_intervals ps

-- The body of the loop of `build_on_field`, behind its test of the team.
unfoldable pub play_event : MatchEvent → OnFieldState → OnFieldState
play_event e s =
    if is_red_card e.event_type
    then elim e.player_id [
      | none ↦ s
      | some p ↦ record s {
        intervals = close_interval s.intervals p (effective_minute e);
        on_field = discard p s.on_field;
        ejected = add p s.ejected;
      }
    ]
    else elim (substitution_pair e) [
      | none ↦ s
      | some (out, in_) ↦ record s {
        intervals =
            open_interval (close_interval s.intervals out (effective_minute e)) in_
              (effective_minute e);
        on_field = add in_ (discard out s.on_field);
      }
    ]

unfoldable pub play : Uuid → List MatchEvent → OnFieldState → OnFieldState
play team [] s = s
play team (e ∷ es) s = play team es (if e.team_id == team then play_event e s else s)

unfoldable pub kick_off : Uuid → Dict RosterEntry → OnFieldState
kick_off team entries = record {
  team_id = team;
  roster = entries;
  intervals = initial_intervals (starters entries);
  on_field = starters entries;
  ejected = [];
}

unfoldable pub build_on_field :
    List RosterEntry → List MatchEvent → Uuid → Result SubstitutionErrorCode OnFieldState
build_on_field roster events team =
    let entries = valid_entries roster team [] in
    if is_empty (starters entries)
    then raise no_lineup
    else ok (play team (canonical_event_order events) (kick_off team entries))

unfoldable pub apply_substitution : OnFieldState → Uuid → Uuid → ℕ → OnFieldState
apply_substitution s out in_ minute = record s {
  intervals = open_interval (close_interval s.intervals out minute) in_ minute;
  on_field = add in_ (discard out s.on_field);
}

unfoldable pub apply_red_card : OnFieldState → Uuid → ℕ → OnFieldState
apply_red_card s p minute = record s {
  intervals = close_interval s.intervals p minute;
  on_field = discard p s.on_field;
  ejected = add p s.ejected;
}
