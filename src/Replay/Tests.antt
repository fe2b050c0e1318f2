-- ===== src/Replay/Tests.antt =====
-- A report run through the engine and the replay, and the theorems at that report.
use bracket_craft.Prelude.{
  ℕ, ◌≤◌, ◌≡◌, refl, true, false, Option, none, some, List, [], ◌∷◌, arith, length, drop,
}
use bracket_craft.Prelude.Dict.{Dict, lookup}
use bracket_craft.Prelude.Sort.{insort, sort_by}
use mathlib.Core.List.Perm
use bracket_craft.Prelude.Errors.{ok, raise}
use bracket_craft.Prelude.Teams.{Uuid}
use bracket_craft.Events.{EventType}
use bracket_craft.Substitutions.{
  reentry_not_allowed, player_not_on_field, Role, starter, other_role, RosterEntry, MatchEvent,
  substitution_pair, Interval, SubstitutionLimits, OnFieldState, intervals_for, is_in_roster,
  has_been_on_field, is_on_field_at, bench, event_le, canonical_event_order,
}
use bracket_craft.Substitutions.Field.{
  close_interval, open_interval, valid_entries, starters, play_event, play, kick_off,
  build_on_field, apply_substitution, apply_red_card,
}
use bracket_craft.Substitutions.Limits.{
  window_eq, window_le, has_window, add_window, window_set, sorted_windows, TeamUsage, no_usage,
  merge, team_usage, remaining_limits, check_substitution_limits, team_rows, segment_rows,
  segment_balances,
}
use bracket_craft.Substitutions.Checks.{
  validate_substitution, validate_player_on_field, validate_assist_player, minutes_conflict,
  validate_roster_minutes,
}
use bracket_craft.Replay.{
  ReportState, initial_states, usage_to_check, replay_substitution, replay_player, replay_event,
  replay_events, check_minutes, replay_report_state,
}
use bracket_craft.Substitutions.Windows.{WindowsDistinct}
use bracket_craft.Events.{substitution, red_card, goal, yellow_card}
use bracket_craft.Substitutions.Canonical.{build_on_field-perm}
use bracket_craft.Substitutions.Intervals.{AllForward, build_on_field-AllForward}
use bracket_craft.Substitutions.Stoppage.{stoppage_entry_refused}
use bracket_craft.Replay.Agreement.{replay_report_state-build}
use bracket_craft.Replay.Sound.{Sound, starting, replay_report_state-Sound}
use bracket_craft.Replay.Usage.{replay_report_state-limits}

abbrev player : Uuid → Uuid → Role → RosterEntry
player p t r = record {
  player_id = p;
  team_id = t;
  role = r;
  is_valid = true;
  entered_minute = none;
  left_minute = none;
}

-- Team 1 has the starters 11 and 12 and the reserve 13, team 2 the starter 21.
abbrev sheet : List RosterEntry
sheet =
    player 11 1 starter ∷ player 12 1 starter ∷ player 13 1 other_role ∷ player 21 2 starter ∷ []

abbrev event : EventType → Uuid → ℕ → ℕ → ℕ → Option Uuid → MatchEvent
event kind team minute added index p = record {
  event_type = kind;
  team_id = team;
  minute = minute;
  added_minute = added;
  index = index;
  player_id = p;
  player_out_id = none;
  player_in_id = none;
  assist_player_id = none;
  segment_id = none;
}

abbrev swap_event : Uuid → ℕ → ℕ → ℕ → Uuid → Uuid → MatchEvent
swap_event team minute added index out in_ =
    record (event substitution team minute added index (some out)) {
      player_out_id = some out;
      player_in_id = some in_;
    }

-- 12 is sent off in minute 60 and listed first; 11 leaves for 13 in minute 30, who scores in 50.
abbrev report : List MatchEvent
report =
    event red_card 1 60 0 0 (some 12)
    ∷ swap_event 1 30 0 1 11 13
    ∷ event goal 1 50 0 2 (some 13)
    ∷ event yellow_card 2 70 0 3 (some 21)
    ∷ []

abbrev allowed : SubstitutionLimits
allowed = record { max_per_team = 5; max_windows = 3; allow_reentry = false }

abbrev span : ℕ → Option ℕ → Interval
span a b = record { start = a; end = b }

runs : Unit {0}
unfolding replay_report_state initial_states build_on_field valid_entries starters play play_event
    kick_off canonical_event_order sort_by insort event_le replay_events replay_event
    replay_substitution replay_player substitution_pair usage_to_check has_window window_eq
    validate_substitution check_substitution_limits validate_player_on_field validate_assist_player
    validate_roster_minutes minutes_conflict is_in_roster has_been_on_field is_on_field_at
    intervals_for apply_substitution apply_red_card open_interval close_interval merge
    sorted_windows window_set add_window window_le check_minutes team_usage segment_balances
    segment_rows team_rows remaining_limits bench
runs = tt

abbrev entries_1 : Dict RosterEntry
entries_1 =
    (11, player 11 1 starter) ∷ (12, player 12 1 starter) ∷ (13, player 13 1 other_role) ∷ []

abbrev state_1 : OnFieldState
state_1 = record {
  team_id = 1;
  roster = entries_1;
  intervals =
      (11, span 0 (some 30) ∷ []) ∷ (12, span 0 (some 60) ∷ []) ∷ (13, span 30 none ∷ []) ∷ [];
  on_field = 13 ∷ [];
  ejected = 12 ∷ [];
}

abbrev state_2 : OnFieldState
state_2 = record {
  team_id = 2;
  roster = (21, player 21 2 starter) ∷ [];
  intervals = (21, span 0 none ∷ []) ∷ [];
  on_field = 21 ∷ [];
  ejected = [];
}

abbrev used_1 : TeamUsage
used_1 = record {
  substitutions = 1;
  windows = record { segment_id = none; minute = 30; added_minute = 0 } ∷ [];
}

abbrev accepted : ReportState
accepted = record {
  limits = allowed;
  states = (1, state_1) ∷ (2, state_2) ∷ [];
  usage = (1, used_1) ∷ (2, no_usage) ∷ [];
}

build_report : build_on_field sheet report 1 ≡ ok state_1
unfolding runs
build_report = refl

replay_report : replay_report_state sheet report (1 ∷ 2 ∷ 1 ∷ []) allowed ≡ ok accepted
unfolding runs
replay_report = refl

bench_report : bench state_1 ≡ 11 ∷ []
unfolding runs
bench_report = refl

-- 13 is not yet on the field in minute 20, and 11 may not come back.
replay_early :
    replay_report_state sheet (event goal 1 20 0 9 (some 13) ∷ report) (1 ∷ 2 ∷ []) allowed
    ≡ raise player_not_on_field
unfolding runs
replay_early = refl

replay_reentry :
    replay_report_state sheet (swap_event 1 65 0 9 13 11 ∷ report) (1 ∷ 2 ∷ []) allowed
    ≡ raise reentry_not_allowed
unfolding runs
replay_reentry = refl

-- Two changes in the same minute take one window.
one_window :
    (remaining_limits allowed
      (team_usage (swap_event 1 30 0 0 11 13 ∷ swap_event 1 30 0 1 12 14 ∷ []) 1)).windows_remaining
    ≡ 2
unfolding runs
one_window = refl

balances_report :
    segment_balances
      (record { id = 8; segment_number = 2 } ∷ record { id = 9; segment_number = 1 } ∷ [])
      (record (swap_event 1 30 0 1 11 13) { segment_id = some 9 } ∷ [])
      (1 ∷ [])
      allowed
    ≡ record {
      segment_id = 9;
      segment_number = 1;
      team_id = 1;
      substitutions_remaining = 4;
      substitution_windows_remaining = 2;
    }
      ∷ record {
        segment_id = 8;
        segment_number = 2;
        team_id = 1;
        substitutions_remaining = 4;
        substitution_windows_remaining = 2;
      }
      ∷ []
unfolding runs
balances_report = refl

build_on_field-perm_example :
    build_on_field sheet report 1
    ≡ build_on_field sheet
        (swap_event 1 30 0 1 11 13 ∷ event red_card 1 60 0 0 (some 12) ∷ drop 2 report)
        1
build_on_field-perm_example =
    build_on_field-perm sheet report _ 1 (Perm.swap _ _ (drop 2 report))
      (refl, (refl, (refl, (refl, tt))))

build_on_field-AllForward_example : AllForward state_1.intervals
build_on_field-AllForward_example = build_on_field-AllForward sheet report 1 state_1 build_report

replay_report_state-build_example :
    (s : OnFieldState) × (lookup 1 accepted.states ≡ some s)
    × (build_on_field sheet report 1 ≡ ok s)
replay_report_state-build_example =
    replay_report_state-build sheet report (1 ∷ 2 ∷ 1 ∷ []) allowed accepted 1 replay_report refl

replay_report_state-Sound_example : Sound (starting sheet 1) state_1
replay_report_state-Sound_example =
    replay_report_state-Sound sheet report (1 ∷ 2 ∷ 1 ∷ []) allowed accepted 1 state_1 replay_report
      refl

replay_report_state-limits_example :
    (u : TeamUsage) × (lookup 1 accepted.usage ≡ some u)
    × (u.substitutions ≡ (team_usage report 1).substitutions)
    × (u.substitutions ≤ 5)
    × (length u.windows ≤ 3)
    × WindowsDistinct u.windows
replay_report_state-limits_example =
    replay_report_state-limits sheet report (1 ∷ 2 ∷ 1 ∷ []) allowed accepted 1 replay_report refl

-- 13 enters at 45+5 and scores in minute 46.
abbrev kicked_off : OnFieldState
kicked_off = record {
  team_id = 1;
  roster = entries_1;
  intervals = (11, span 0 none ∷ []) ∷ (12, span 0 none ∷ []) ∷ [];
  on_field = 11 ∷ 12 ∷ [];
  ejected = [];
}

never_on : has_been_on_field kicked_off 13 ≡ false
unfolding runs
never_on = refl

stoppage_entry_refused_example :
    (event_le (swap_event 1 45 5 0 11 13) (event goal 1 46 0 1 (some 13)) ≡ true)
    × (validate_player_on_field (apply_substitution kicked_off 11 13 50) 13 46 0
        ≡ raise player_not_on_field)
stoppage_entry_refused_example =
    stoppage_entry_refused kicked_off (swap_event 1 45 5 0 11 13) (event goal 1 46 0 1 (some 13)) 11
      13 (omega arith) never_on (omega arith) (omega arith)
