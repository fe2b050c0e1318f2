-- ===== src/Substitutions/Stoppage.antt =====
-- Stoppage time of a first half against the start of the second. Events are ordered by
-- `(minute, added_minute, index)`, and intervals are measured in `minute + added_minute`.
use bracket_craft.Prelude.{
  ℕ, ◌+◌, ◌<◌, ◌≡◌, ◌≢◌, inl, inr, true, false, none, [], ◌∷◌, ◌++◌, arith, Option-cases,
}
use bracket_craft.Prelude.Dict.{lookup, lookup_or, lookup-insert, lookup-modify, modify}
use bracket_craft.Prelude.Errors.{raise}
use bracket_craft.Prelude.Teams.{Uuid}
use bracket_craft.Substitutions.{
  player_not_on_field, MatchEvent, effective_minute, OnFieldState, intervals_for, has_been_on_field,
  is_on_field_at, event_le,
}
use bracket_craft.Substitutions.Field.{
  close_last, close_interval, open_interval, apply_substitution,
}
use bracket_craft.Substitutions.Checks.{validate_player_on_field}

-- The event 45+5 stands before 46 in the canonical order, and its effective minute, 50, above.
ordered_before :
    (e f : MatchEvent) → e.minute < f.minute → (event_le e f ≡ true) × (event_le f e ≡ false)
unfolding event_le
ordered_before e f h = (ground arith, ground arith)

fresh_interval :
    (s : OnFieldState) (out in_ m : ℕ)
    → out ≢ in_
    → has_been_on_field s in_ ≡ false
    → intervals_for (apply_substitution s out in_ m) in_ ≡ record { start = m; end = none } ∷ []
unfolding apply_substitution intervals_for has_been_on_field open_interval close_interval
fresh_interval s out in_ m ne h = elim (Option-cases (lookup in_ s.intervals)) [
  | inl e ↦ ground (
    arith,
    lookup-insert in_ in_
        (lookup_or [] in_ (modify out (close_last m) s.intervals)
          ++ record { start = m; end = none } ∷ [])
        (modify out (close_last m) s.intervals),
    lookup-modify in_ out (close_last m) s.intervals,
  )
  | inr (is, e) ↦ ground (
    arith,
    lookup-insert in_ in_
        (lookup_or [] in_ (modify out (close_last m) s.intervals)
          ++ record { start = m; end = none } ∷ [])
        (modify out (close_last m) s.intervals),
    lookup-modify in_ out (close_last m) s.intervals,
  )
]

-- A player who first enters in stoppage time, at `minute + added`, and has an event in a later
-- minute of the report that is below that sum, is refused as not on the field, though the entry
-- stands before the event in the canonical order.
pub stoppage_entry_refused :
    (s : OnFieldState) (e f : MatchEvent) (out in_ : Uuid)
    → out ≢ in_
    → has_been_on_field s in_ ≡ false
    → e.minute < f.minute
    → f.minute + f.added_minute < e.minute + e.added_minute
    → (event_le e f ≡ true)
      × (validate_player_on_field
            (apply_substitution s out in_ (effective_minute e))
            in_
            f.minute
            f.added_minute
          ≡ raise player_not_on_field)
unfolding validate_player_on_field is_on_field_at
stoppage_entry_refused s e f out in_ ne new later below = (
  (ordered_before e f later).0,
  rw (fresh_interval s out in_ (effective_minute e) ne new) (ground arith),
)
