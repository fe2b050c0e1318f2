-- ===== src/Substitutions/Limits.antt =====
-- The counters of substitutions and windows, and their balances, of
-- backend/app/modules/rules_engine/substitutions.py.
use bracket_craft.Prelude.{
  ℕ, ◌+◌, ◌-◌, Bool, true, false, ◌&&◌, ◌||◌, Option, none, some, List, [], ◌∷◌, ◌++◌, map, ltb,
  leb, ◌==◌, if◌then◌else◌, length, keep, any, elem,
}
use bracket_craft.Prelude.Dict.{Dict, lookup_or, insert}
use bracket_craft.Prelude.Sort.{sort_by}
use bracket_craft.Prelude.Errors.{Result, ◌>>◌, raise_if}
use bracket_craft.Prelude.Teams.{Uuid}
use bracket_craft.Substitutions.{
  SubstitutionErrorCode, substitutions_exhausted, windows_exhausted, MatchEvent, substitution_pair,
  SubstitutionLimits, Window,
}

abbrev pub optional_eq : Option Uuid → Option Uuid → Bool
optional_eq none none = true
optional_eq (some a) (some b) = a == b
optional_eq _ _ = false

unfoldable pub window_eq : Window → Window → Bool
window_eq a b =
    optional_eq a.segment_id b.segment_id
    && (a.minute == b.minute && a.added_minute == b.added_minute)

-- `str(segment_id)`, or the empty text, which is below all
abbrev pub optional_lt : Option Uuid → Option Uuid → Bool
optional_lt none (some b) = true
optional_lt (some a) (some b) = ltb a b
optional_lt _ none = false

-- `_window_key`, compared as a tuple
unfoldable pub window_le : Window → Window → Bool
window_le a b =
    if optional_lt a.segment_id b.segment_id
    then true
    else if optional_lt b.segment_id a.segment_id
    then false
    else if ltb a.minute b.minute
    then true
    else if ltb b.minute a.minute
    then false
    else leb a.added_minute b.added_minute

unfoldable pub has_window : Window → List Window → Bool
has_window w ws = any (window_eq w) ws

unfoldable pub add_window : Window → List Window → List Window
add_window w ws = if has_window w ws then ws else w ∷ ws

-- The set of the windows of a list.
unfoldable pub window_set : List Window → List Window
window_set [] = []
window_set (w ∷ ws) = add_window w (window_set ws)

unfoldable pub sorted_windows : List Window → List Window
sorted_windows = sort_by window_le

pub record TeamUsage : Type 0 where
  pub substitutions : ℕ
  pub windows : List Window

abbrev pub no_usage : TeamUsage
no_usage = record { substitutions = 0; windows = [] }

unfoldable pub merge : TeamUsage → TeamUsage → TeamUsage
merge a b = record {
  substitutions = a.substitutions + b.substitutions;
  windows = sorted_windows (window_set (a.windows ++ b.windows));
}

abbrev pub window_of : MatchEvent → Window
window_of e = record { segment_id = e.segment_id; minute = e.minute; added_minute = e.added_minute }

abbrev pub is_some {ℓ} : {A : Type ℓ} → Option A → Bool
is_some none = false
is_some (some a) = true

abbrev pub counts_for : Uuid → MatchEvent → Bool
counts_for team e = e.team_id == team && is_some (substitution_pair e)

unfoldable pub team_usage : List MatchEvent → Uuid → TeamUsage
team_usage events team =
    let subs = keep (counts_for team) events in
    record {
      substitutions = length subs;
      windows = sorted_windows (window_set (map window_of subs));
    }

pub record LimitBalance : Type 0 where
  pub max_per_team : ℕ
  pub max_windows : ℕ
  pub substitutions_used : ℕ
  pub windows_used : ℕ
  pub substitutions_remaining : ℕ
  pub windows_remaining : ℕ

-- `max(limit - used, 0)` is the truncated difference.
unfoldable pub remaining_limits : SubstitutionLimits → TeamUsage → LimitBalance
remaining_limits l u = record {
  max_per_team = l.max_per_team;
  max_windows = l.max_windows;
  substitutions_used = u.substitutions;
  windows_used = length u.windows;
  substitutions_remaining = l.max_per_team - u.substitutions;
  windows_remaining = l.max_windows - length u.windows;
}

unfoldable pub is_exhausted : LimitBalance → Bool
is_exhausted b = leb b.substitutions_remaining 0 || leb b.windows_remaining 0

unfoldable pub check_substitution_limits :
    SubstitutionLimits → TeamUsage → Result SubstitutionErrorCode (Unit {0})
check_substitution_limits l u = do
  raise_if (leb l.max_per_team u.substitutions) substitutions_exhausted
  raise_if (leb l.max_windows (length u.windows)) windows_exhausted

pub record Segment : Type 0 where
  pub id : Uuid
  pub segment_number : ℕ

pub record SegmentBalance : Type 0 where
  pub segment_id : Uuid
  pub segment_number : ℕ
  pub team_id : Uuid
  pub substitutions_remaining : ℕ
  pub substitution_windows_remaining : ℕ

abbrev pub segment_le : Segment → Segment → Bool
segment_le a b =
    if ltb a.segment_number b.segment_number
    then true
    else if ltb b.segment_number a.segment_number
    then false
    else leb a.id b.id

abbrev pub in_segment : Uuid → Uuid → MatchEvent → Bool
in_segment segment team e = optional_eq e.segment_id (some segment) && e.team_id == team

-- `sorted(set(team_ids), key=str)`
abbrev pub dedupe : List Uuid → List Uuid
dedupe [] = []
dedupe (t ∷ ts) = let rest = dedupe ts in if elem t rest then rest else t ∷ rest

-- The inner loop of `segment_balances`: every team in one segment, with the running usage.
unfoldable pub team_rows :
    SubstitutionLimits
    → List MatchEvent
    → Segment
    → List Uuid
    → Dict TeamUsage
    → List SegmentBalance × Dict TeamUsage
team_rows l events g [] cumulative = ([], cumulative)
team_rows l events g (t ∷ ts) cumulative =
    let used =
      merge (lookup_or no_usage t cumulative) (team_usage (keep (in_segment g.id t) events) t) in
    let balance = remaining_limits l used in
    let row : SegmentBalance = record {
      segment_id = g.id;
      segment_number = g.segment_number;
      team_id = t;
      substitutions_remaining = balance.substitutions_remaining;
      substitution_windows_remaining = balance.windows_remaining;
    } in
    let (rows, after) = team_rows l events g ts (insert t used cumulative) in (row ∷ rows, after)

unfoldable pub segment_rows :
    SubstitutionLimits
    → List MatchEvent
    → List Segment
    → List Uuid
    → Dict TeamUsage
    → List SegmentBalance
segment_rows l events [] teams cumulative = []
segment_rows l events (g ∷ gs) teams cumulative =
    let (rows, after) = team_rows l events g teams cumulative in
    rows ++ segment_rows l events gs teams after

abbrev pub fresh_usage : List Uuid → Dict TeamUsage
fresh_usage [] = []
fresh_usage (t ∷ ts) = (t, no_usage) ∷ fresh_usage ts

unfoldable pub segment_balances :
    List Segment → List MatchEvent → List Uuid → SubstitutionLimits → List SegmentBalance
segment_balances segments events team_ids l =
    let teams = sort_by leb (dedupe team_ids) in
    segment_rows l events (sort_by segment_le segments) teams (fresh_usage teams)
