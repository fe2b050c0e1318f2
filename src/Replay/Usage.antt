-- ===== src/Replay/Usage.antt =====
-- The counters of an accepted report: each substitution is counted, and no limit is passed.
use bracket_craft.Prelude.{
  ℕ, ◌+◌, ◌≤◌, ◌<◌, ◌≡◌, refl, sym, subst, inl, inr, Bool, true, false, Option, none, some, List,
  [], ◌∷◌, arith, ◌==◌, ==_iff, Bool-cases, Option-cases, length, keep, elem,
}
use bracket_craft.Prelude.Dict.{Dict, lookup, lookup_or, lookup-insert}
use bracket_craft.Prelude.Sort.{insort, sort_by}
use bracket_craft.Prelude.Errors.{ok, went_on}
use bracket_craft.Prelude.Teams.{Uuid}
use bracket_craft.Events.{is_substitution}
use bracket_craft.Substitutions.{
  RosterEntry, MatchEvent, substitution_pair, SubstitutionLimits, Window, OnFieldState, event_le,
  canonical_event_order,
}
use bracket_craft.Substitutions.Limits.{
  TeamUsage, no_usage, merge, window_of, counts_for, team_usage, check_substitution_limits,
  fresh_usage,
}
use bracket_craft.Substitutions.Checks.{validate_substitution}
use bracket_craft.Replay.Agreement.{elem-unique}
use bracket_craft.Replay.{
  Replay, ReportState, unique, initial_states, by_player, usage_to_check, replay_substitution,
  replay_player, replay_event, replay_events, replay_report_state,
}
use bracket_craft.Substitutions.Windows.{
  WindowsDistinct, length-merge_one, merge-WindowsDistinct, keep-distinct,
}

-- The counters of a team after the events `seen`.
record Within (l : SubstitutionLimits) (u : TeamUsage) : Type 0 where
  few : u.substitutions ≤ l.max_per_team
  few_windows : length u.windows ≤ l.max_windows
  distinct : WindowsDistinct u.windows

no_usage-Within : (l : SubstitutionLimits) → Within l no_usage
no_usage-Within l = record { few = omega arith; few_windows = omega arith; distinct = tt }

limits_left :
    (s : OnFieldState) (l : SubstitutionLimits) (u : TeamUsage) (out in_ : Uuid) (t : Option Uuid)
    → validate_substitution s l u out in_ t ≡ ok tt
    → (u.substitutions < l.max_per_team) × (length u.windows < l.max_windows)
unfolding validate_substitution check_substitution_limits
limits_left s l u out in_ t h = (ground arith, ground arith)

abbrev with_window : TeamUsage → Window → TeamUsage
with_window u w = merge u (record { substitutions = 1; windows = w ∷ [] })

with_window-substitutions :
    (u : TeamUsage) (w : Window) → (with_window u w).substitutions ≡ u.substitutions + 1
unfolding merge
with_window-substitutions u w = refl

few_after :
    (l : SubstitutionLimits) (u : TeamUsage) (w : Window)
    → (usage_to_check u w).substitutions < l.max_per_team
    → (with_window u w).substitutions ≤ l.max_per_team
unfolding usage_to_check
few_after l u w k = ground (arith, with_window-substitutions u w)

few_windows_after :
    (l : SubstitutionLimits) (u : TeamUsage) (w : Window)
    → WindowsDistinct u.windows
    → length (usage_to_check u w).windows < l.max_windows
    → length (with_window u w).windows ≤ l.max_windows
unfolding usage_to_check
few_windows_after l u w d k = ground (arith, length-merge_one w u 1, keep-distinct w u.windows d)

-- An accepted substitution keeps within the limits, in a new window or in one already used.
with_window-Within :
    (s : OnFieldState) (l : SubstitutionLimits) (u : TeamUsage) (w : Window) (out in_ : Uuid)
    (t : Option Uuid)
    → validate_substitution s l (usage_to_check u w) out in_ t ≡ ok tt
    → Within l u
    → Within l (with_window u w)
with_window-Within s l u w out in_ t v h =
    let (left, left_windows) = limits_left s l (usage_to_check u w) out in_ t v in
    record {
      few = few_after l u w left;
      few_windows = few_windows_after l u w h.distinct left_windows;
      distinct = merge-WindowsDistinct u _;
    }

abbrev one_if : Bool → ℕ
one_if true = 1
one_if false = 0

-- What a round does to the counters of a team.
abbrev Counts : SubstitutionLimits → Uuid → TeamUsage → ℕ → Replay → Type 0
Counts l t u n r =
    (u' : TeamUsage) × (lookup t r.usage ≡ some u')
    × Within l u'
    × (u'.substitutions ≡ u.substitutions + n)

unchanged :
    (l : SubstitutionLimits) (t : Uuid) (u : TeamUsage) (r r' : Replay)
    → lookup t r.usage ≡ some u
    → Within l u
    → r.usage ≡ r'.usage
    → Counts l t u 0 r'
unchanged l t u r r' h w e = (u, subst (λ x. lookup t x ≡ some u) e h, w, omega arith)

lookup_or_found :
    {V : Type 0} (v : V) (k : ℕ) (d : Dict V) (u : V) → lookup k d ≡ some u → lookup_or v k d ≡ u
lookup_or_found v k d u h = ground arith

replay_substitution-Counts :
    (l : SubstitutionLimits) (e : MatchEvent) (s : OnFieldState) (out in_ : Uuid) (r r' : Replay)
    (t : Uuid) (u : TeamUsage)
    → lookup t r.usage ≡ some u
    → Within l u
    → replay_substitution l e s out in_ r ≡ ok r'
    → Counts l t u (one_if (e.team_id == t)) r'
unfolding replay_substitution
replay_substitution-Counts l e s out in_ r r' t u hu w h = elim (Bool-cases (e.team_id == t)) [
  | inl own ↦
      let current : lookup_or no_usage e.team_id r.usage ≡ u =
        lookup_or_found no_usage e.team_id r.usage u
          (subst (λ k. lookup k r.usage ≡ some u) (sym ((==_iff e.team_id t).0 own)) hu) in
      let v : validate_substitution s l (usage_to_check u (window_of e)) out in_ (some e.team_id)
          ≡ ok tt =
        ground arith in
      rw own (
        with_window u (window_of e),
        ground (
          arith,
          lookup-insert t e.team_id (with_window u (window_of e)) r.usage,
          ==_iff e.team_id t,
          ==_iff t e.team_id,
        ),
        with_window-Within s l u (window_of e) out in_ (some e.team_id) v w,
        with_window-substitutions u (window_of e),
      )
  | inr other ↦ rw other (
    u,
    ground (
      arith,
      lookup-insert t e.team_id (with_window (lookup_or no_usage e.team_id r.usage) (window_of e))
          r.usage,
      ==_iff e.team_id t,
      ==_iff t e.team_id,
    ),
    w,
    omega arith,
  )
]

replay_player-usage :
    (entries : Dict RosterEntry) (e : MatchEvent) (s : OnFieldState) (p : Uuid) (r r' : Replay)
    → replay_player entries e s p r ≡ ok r'
    → r.usage ≡ r'.usage
unfolding replay_player
replay_player-usage entries e s p r r' h = ground arith

-- Whether an event counts for a team.
counted : Uuid → MatchEvent → ℕ
counted t e = one_if (counts_for t e)

counted-pair :
    (t : Uuid) (e : MatchEvent) (p : Uuid × Uuid)
    → substitution_pair e ≡ some p
    → one_if (e.team_id == t) ≡ counted t e
unfolding counted
counted-pair t e p h = ground arith

counted-none : (t : Uuid) (e : MatchEvent) → substitution_pair e ≡ none → 0 ≡ counted t e
unfolding counted
counted-none t e h = ground arith

pair-is_substitution :
    (e : MatchEvent) → is_substitution e.event_type ≡ false → substitution_pair e ≡ none
unfolding substitution_pair
pair-is_substitution e h = ground arith

replay_event-Counts :
    (l : SubstitutionLimits) (entries : Dict RosterEntry) (e : MatchEvent) (r r' : Replay)
    (t : Uuid) (u : TeamUsage)
    → lookup t r.usage ≡ some u
    → Within l u
    → replay_event l entries e r ≡ ok r'
    → Counts l t u (counted t e) r'
unfolding replay_event
replay_event-Counts l entries e r r' t u hu w h = elim (Option-cases (lookup e.team_id r.states)) [
  | inl none_e ↦ absurd (ground arith)
  | inr (s, hs) ↦ elim (Bool-cases (is_substitution e.event_type)) [
    | inl sub ↦ elim (Option-cases (substitution_pair e)) [
      | inl legacy ↦ rw (← counted-none t e legacy) (unchanged l t u r r' hu w (ground arith))
      | inr ((out, in_), hp) ↦
          rw (← counted-pair t e (out, in_) hp)
            (replay_substitution-Counts l e s out in_ r r' t u hu w (ground arith))
    ]
    | inr other ↦ rw (← counted-none t e (pair-is_substitution e other)) (
        unchanged l t u r r' hu w (elim (Option-cases e.player_id) [
          | inl anonymous ↦ ground arith
          | inr (p, hp) ↦ replay_player-usage entries e s p r r' (ground arith)
        ]))
  ]
]

count_events : Uuid → List MatchEvent → ℕ
count_events t es = length (keep (counts_for t) es)

replay_events-Counts :
    (l : SubstitutionLimits) (entries : Dict RosterEntry) (es : List MatchEvent) (r r' : Replay)
    (t : Uuid) (u : TeamUsage)
    → lookup t r.usage ≡ some u
    → Within l u
    → replay_events l entries es r ≡ ok r'
    → Counts l t u (count_events t es) r'
unfolding replay_events count_events counted
replay_events-Counts l entries [] r r' t u hu w h = unchanged l t u r r' hu w (ground arith)
replay_events-Counts l entries (e ∷ es) r r' t u hu w h =
    let (next, hn, hr) = went_on (replay_event l entries e r) _ h in
    let (u1, hu1, w1, c1) = replay_event-Counts l entries e r next t u hu w hn in
    let (u2, hu2, w2, c2) = replay_events-Counts l entries es next r' t u1 hu1 w1 hr in
    (u2, hu2, w2, ground arith)

count_events-insort :
    (t : Uuid) (e : MatchEvent) (es : List MatchEvent)
    → count_events t (insort event_le e es) ≡ counted t e + count_events t es
unfolding insort count_events counted
count_events-insort t e [] = ground arith
count_events-insort t e (f ∷ es) = ground (arith, count_events-insort t e es)

count_events-canonical :
    (t : Uuid) (es : List MatchEvent) → count_events t (sort_by event_le es) ≡ count_events t es
unfolding sort_by count_events counted
count_events-canonical t [] = refl
count_events-canonical t (e ∷ es) =
    ground (arith, count_events-insort t e (sort_by event_le es), count_events-canonical t es)

lookup-fresh_usage :
    (t : Uuid) (ts : List Uuid) → elem t ts ≡ true → lookup t (fresh_usage ts) ≡ some no_usage
lookup-fresh_usage t [] h = cc
lookup-fresh_usage t (u ∷ ts) h = ground (arith, lookup-fresh_usage t ts)

-- For every participating team of an accepted report: the substitutions counted are those of the
-- report, they are at most `max_per_team`, and the windows, counted once each, are at most
-- `max_windows`.
pub replay_report_state-limits :
    (rosters : List RosterEntry) (events : List MatchEvent) (team_ids : List Uuid)
    (l : SubstitutionLimits) (report : ReportState) (t : Uuid)
    → replay_report_state rosters events team_ids l ≡ ok report
    → elem t team_ids ≡ true
    → (u : TeamUsage) × (lookup t report.usage ≡ some u)
      × (u.substitutions ≡ (team_usage events t).substitutions)
      × (u.substitutions ≤ l.max_per_team)
      × (length u.windows ≤ l.max_windows)
      × WindowsDistinct u.windows
unfolding replay_report_state team_usage canonical_event_order count_events
replay_report_state-limits rosters events team_ids l report t h m =
    let (d, hd, h1) = went_on (initial_states rosters (unique [] team_ids)) _ h in
    let (r, hr, h2) =
      went_on (replay_events l (by_player rosters []) (canonical_event_order events) _) _ h1 in
    let (u, hu, w, c) =
      replay_events-Counts l (by_player rosters []) (canonical_event_order events) _ r t no_usage
        (lookup-fresh_usage t (unique [] team_ids) (elem-unique t [] team_ids m))
        (no_usage-Within l) hr in
    (
      u,
      ground arith,
      omega (arith, c, count_events-canonical t events),
      w.few,
      w.few_windows,
      w.distinct,
    )
