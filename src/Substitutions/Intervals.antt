-- ===== src/Substitutions/Intervals.antt =====
-- The intervals of a derived state: none is inverted, whatever the report holds.
use bracket_craft.Prelude.{
  ℕ, ◌≤◌, ◌≡◌, subst, inl, inr, Option, none, some, List, [], ◌∷◌, arith, ◌==◌, Bool-cases,
  Option-cases, All, All-append,
}
use bracket_craft.Prelude.Dict.{Dict, lookup_or, insert, values, modify}
use bracket_craft.Prelude.Errors.{Result, ok, raise}
use bracket_craft.Prelude.Teams.{Uuid}
use bracket_craft.Events.{is_red_card}
use bracket_craft.Substitutions.{
  SubstitutionErrorCode, RosterEntry, MatchEvent, effective_minute, substitution_pair, Interval,
  OnFieldState, is_empty, canonical_event_order,
}
use bracket_craft.Substitutions.Field.{
  closed_at, clamp_end, close_last, close_interval, open_interval, valid_entries, starters,
  initial_intervals, play_event, play, kick_off, build_on_field,
}

abbrev pub FromStart : ℕ → Option ℕ → Type 0
FromStart s none = Unit
FromStart s (some e) = s ≤ e

abbrev pub IsForward : Interval → Type 0
IsForward i = FromStart i.start i.end

abbrev pub AllForward : Dict (List Interval) → Type 0
AllForward d = All (All IsForward) (values d)

closed_at-FromStart : (m s : ℕ) (o : Option ℕ) → FromStart s o → FromStart s (closed_at m s o)
closed_at-FromStart m s none h = omega arith
closed_at-FromStart m s (some e) h = h

clamp_end-IsForward : (m : ℕ) (i : Interval) → IsForward i → IsForward (clamp_end m i)
clamp_end-IsForward m i h = closed_at-FromStart m i.start i.end h

close_last-IsForward :
    (m : ℕ) (is : List Interval) → All IsForward is → All IsForward (close_last m is)
close_last-IsForward m [] h = tt
close_last-IsForward m (i ∷ []) h = (clamp_end-IsForward m i h.0, tt)
close_last-IsForward m (i ∷ j ∷ is) h = (h.0, close_last-IsForward m (j ∷ is) h.1)

modify-values {ℓ} :
    {V : Type 0} (P : V → Type ℓ) (k : ℕ) (f : V → V) (d : Dict V)
    → ((v : V) → P v → P (f v))
    → All P (values d)
    → All P (values (modify k f d))
modify-values P k f [] g h = tt
modify-values P k f ((j, w) ∷ d) g h = elim (Bool-cases (k == j)) [
  | inl e ↦ rw e (g w h.0, h.1)
  | inr e ↦ rw e (h.0, modify-values P k f d g h.1)
]

insert-values {ℓ} :
    {V : Type 0} (P : V → Type ℓ) (k : ℕ) (v : V) (d : Dict V)
    → P v
    → All P (values d)
    → All P (values (insert k v d))
insert-values P k v [] p h = (p, tt)
insert-values P k v ((j, w) ∷ d) p h = elim (Bool-cases (k == j)) [
  | inl e ↦ rw e (p, h.1)
  | inr e ↦ rw e (h.0, insert-values P k v d p h.1)
]

lookup_or-values {ℓ} :
    {V : Type 0} (P : V → Type ℓ) (v : V) (k : ℕ) (d : Dict V)
    → P v
    → All P (values d)
    → P (lookup_or v k d)
lookup_or-values P v k [] p h = p
lookup_or-values P v k ((j, w) ∷ d) p h = elim (Bool-cases (k == j)) [
  | inl e ↦ rw (e, lookup_or) h.0
  | inr e ↦ rw (e, lookup_or) (lookup_or-values P v k d p h.1)
]

close_interval-AllForward :
    (d : Dict (List Interval)) (p m : ℕ) → AllForward d → AllForward (close_interval d p m)
unfolding close_interval
close_interval-AllForward d p m h =
    modify-values (All IsForward) p (close_last m) d (close_last-IsForward m) h

open_interval-AllForward :
    (d : Dict (List Interval)) (p m : ℕ) → AllForward d → AllForward (open_interval d p m)
unfolding open_interval
open_interval-AllForward d p m h =
    insert-values (All IsForward) p _ d
      (All-append IsForward (lookup_or [] p d) _ (lookup_or-values (All IsForward) [] p d tt h)
        (tt, tt))
      h

play_event-AllForward :
    (e : MatchEvent) (s : OnFieldState)
    → AllForward s.intervals
    → AllForward (play_event e s).intervals
unfolding play_event
play_event-AllForward e s h = elim (Bool-cases (is_red_card e.event_type)) [
  | inl red ↦ elim (Option-cases e.player_id) [
    | inl q ↦ rw (red, q) h
    | inr (p, q) ↦ rw (red, q) (close_interval-AllForward s.intervals p (effective_minute e) h)
  ]
  | inr calm ↦ elim (Option-cases (substitution_pair e)) [
    | inl q ↦ rw (calm, q) h
    | inr ((out, in_), q) ↦
        rw (calm, q)
          (open_interval-AllForward (close_interval s.intervals out (effective_minute e)) in_
            (effective_minute e) (close_interval-AllForward s.intervals out (effective_minute e) h))
  ]
]

play-AllForward :
    (team : Uuid) (es : List MatchEvent) (s : OnFieldState)
    → AllForward s.intervals
    → AllForward (play team es s).intervals
unfolding play
play-AllForward team [] s h = h
play-AllForward team (e ∷ es) s h = elim (Bool-cases (e.team_id == team)) [
  | inl own ↦
      rw (own, play) (play-AllForward team es (play_event e s) (play_event-AllForward e s h))
  | inr other ↦ rw (other, play) (play-AllForward team es s h)
]

initial_intervals-AllForward : (ps : List Uuid) → AllForward (initial_intervals ps)
initial_intervals-AllForward [] = tt
initial_intervals-AllForward (p ∷ ps) = ((tt, tt), initial_intervals-AllForward ps)

-- In every state that is derived, from any roster and any events, each interval of each player
-- ends no earlier than it starts.
pub build_on_field-AllForward :
    (roster : List RosterEntry) (es : List MatchEvent) (team : Uuid) (s : OnFieldState)
    → build_on_field roster es team ≡ ok s
    → AllForward s.intervals
unfolding build_on_field kick_off
build_on_field-AllForward roster es team s h = elim (Bool-cases (is_empty (starters entries))) [
  | inl e ↦ absurd (ground arith)
  | inr e ↦
      subst (λ r. AllForward (state_or s r).intervals) (rw e at h)
        (play-AllForward team (canonical_event_order es) (kick_off team entries)
          (initial_intervals-AllForward (starters entries)))
]
  where
    entries : Dict RosterEntry
    entries = valid_entries roster team []

    state_or : OnFieldState → Result SubstitutionErrorCode OnFieldState → OnFieldState
    state_or d (ok x) = x
    state_or d (raise e) = d
