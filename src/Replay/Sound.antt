-- ===== src/Replay/Sound.antt =====
-- The invariant of an accepted report: who is on the field, who is sent off, and how many play.
use bracket_craft.Prelude.{
  ℕ, suc, ◌≤◌, ◌≡◌, refl, subst, inl, inr, Bool, true, false, ◌&&◌, ◌||◌, not, Option, none, some,
  List, [], ◌∷◌, ◌++◌, arith, ◌==◌, ==_iff, Bool-cases, Option-cases, length, length-append,
  length-keep, elem,
}
use bracket_craft.Prelude.Dict.{Dict, lookup, lookup_or, insert, keys, lookup-insert, lookup-modify}
use bracket_craft.Prelude.Sort.{sort_by}
use bracket_craft.Prelude.Errors.{ok, went_on}
use bracket_craft.Prelude.Teams.{Uuid, elem-append}
use bracket_craft.Events.{is_red_card, is_substitution}
use bracket_craft.Substitutions.{
  RosterEntry, MatchEvent, effective_minute, substitution_pair, Interval, SubstitutionLimits,
  OnFieldState, discard, add, is_in_roster, canonical_event_order,
}
use bracket_craft.Substitutions.Field.{
  closed_at, close_last, close_interval, open_interval, valid_entries, starters, initial_intervals,
  play, kick_off, build_on_field, apply_substitution, apply_red_card,
}
use bracket_craft.Substitutions.Limits.{TeamUsage, no_usage, window_of, is_some}
use bracket_craft.Substitutions.Checks.{validate_substitution}
use bracket_craft.Replay.{
  Replay, ReportState, unique, initial_states, by_player, usage_to_check, replay_substitution,
  replay_player, replay_event, replay_events, replay_report_state,
}

-- The player's last interval is open.
abbrev pub is_open : List Interval → Bool
is_open [] = false
is_open (i ∷ []) = not (is_some i.end)
is_open (i ∷ j ∷ is) = is_open (j ∷ is)

-- `n` players started.
pub record Sound (n : ℕ) (s : OnFieldState) : Type 0 where
  pub sent_off : (p : Uuid) → elem p s.on_field ≡ true → elem p s.ejected ≡ false
  pub enrolled : (p : Uuid) → elem p s.on_field ≡ true → elem p (keys s.roster) ≡ true
  pub playing : (p : Uuid) → elem p s.on_field ≡ is_open (lookup_or [] p s.intervals)
  pub size : length s.on_field ≤ n

elem-discard : (p q : ℕ) (s : List ℕ) → elem p (discard q s) ≡ (not (q == p) && elem p s)
elem-discard p q [] = ground arith
elem-discard p q (x ∷ s) = ground (arith, elem-discard p q s)

elem-add : (p q : ℕ) (s : List ℕ) → elem p (add q s) ≡ (p == q || elem p s)
elem-add p q s = ground (arith, elem-append p s (q ∷ []), ==_iff p q)

length-discard : (p : ℕ) (s : List ℕ) → elem p s ≡ true → suc (length (discard p s)) ≤ length s
length-discard p [] h = cc
length-discard p (x ∷ s) h = ground (arith, length-keep (λ q. not (p == q)) s, length-discard p s)

length-add : (p : ℕ) (s : List ℕ) → length (add p s) ≤ suc (length s)
length-add p s = ground (arith, length-append s (p ∷ []))

is_open-close_last : (m : ℕ) (is : List Interval) → is_open (close_last m is) ≡ false
is_open-close_last m [] = refl
is_open-close_last m (i ∷ []) = closed i.end
  where
    closed : (o : Option ℕ) → not (is_some (closed_at m i.start o)) ≡ false
    closed none = refl
    closed (some e) = refl
is_open-close_last m (i ∷ j ∷ []) = is_open-close_last m (j ∷ [])
is_open-close_last m (i ∷ j ∷ k ∷ is) = is_open-close_last m (j ∷ k ∷ is)

is_open-append :
    (is : List Interval) (m : ℕ) → is_open (is ++ record { start = m; end = none } ∷ []) ≡ true
is_open-append [] m = refl
is_open-append (i ∷ []) m = refl
is_open-append (i ∷ j ∷ is) m = is_open-append (j ∷ is) m

open_after_close :
    (d : Dict (List Interval)) (p q m : ℕ)
    → is_open (lookup_or [] p (close_interval d q m)) ≡ (not (q == p) && is_open (lookup_or [] p d))
unfolding close_interval
open_after_close d p q m = elim (Option-cases (lookup p d)) [
  | inl e ↦ ground (arith, lookup-modify p q (close_last m) d, ==_iff p q)
  | inr (is, e) ↦
      ground (arith, lookup-modify p q (close_last m) d, ==_iff p q, is_open-close_last m is)
]

open_after_open :
    (d : Dict (List Interval)) (p q m : ℕ)
    → is_open (lookup_or [] p (open_interval d q m)) ≡ (p == q || is_open (lookup_or [] p d))
unfolding open_interval
open_after_open d p q m = ground (
  arith,
  lookup-insert p q (lookup_or [] q d ++ record { start = m; end = none } ∷ []) d,
  is_open-append (lookup_or [] q d) m,
)

-- What a validated substitution may rely on.
record Allowed (s : OnFieldState) (out in_ : Uuid) : Type 0 where
  leaves : elem out s.on_field ≡ true
  enters : elem in_ s.on_field ≡ false
  clean : elem in_ s.ejected ≡ false
  listed : elem in_ (keys s.roster) ≡ true

validated :
    (s : OnFieldState) (l : SubstitutionLimits) (u : TeamUsage) (out in_ : Uuid)
    (team : Option Uuid)
    → validate_substitution s l u out in_ team ≡ ok tt
    → Allowed s out in_
unfolding validate_substitution is_in_roster
validated s l u out in_ team h = record {
  leaves = ground arith;
  enters = ground arith;
  clean = ground arith;
  listed = ground arith;
}

apply_substitution-Sound :
    (n : ℕ) (s : OnFieldState) (out in_ : Uuid) (m : ℕ)
    → Allowed s out in_
    → Sound n s
    → Sound n (apply_substitution s out in_ m)
unfolding apply_substitution
apply_substitution-Sound n s out in_ m a h = record {
  sent_off = λ p e. ground (
    arith,
    elem-add p in_ (discard out s.on_field),
    elem-discard p out s.on_field,
    h.sent_off p,
    a.clean,
    ==_iff p in_,
  );
  enrolled = λ p e. ground (
    arith,
    elem-add p in_ (discard out s.on_field),
    elem-discard p out s.on_field,
    h.enrolled p,
    a.listed,
    ==_iff p in_,
  );
  playing = λ p. ground (
    arith,
    elem-add p in_ (discard out s.on_field),
    elem-discard p out s.on_field,
    h.playing p,
    open_after_open (close_interval s.intervals out m) p in_ m,
    open_after_close s.intervals p out m,
  );
  size = omega (
    arith,
    length-add in_ (discard out s.on_field),
    length-discard out s.on_field a.leaves,
    h.size,
  );
}

apply_red_card-Sound :
    (n : ℕ) (s : OnFieldState) (q m : ℕ) → Sound n s → Sound n (apply_red_card s q m)
unfolding apply_red_card
apply_red_card-Sound n s q m h = record {
  sent_off = λ p e. ground (
    arith,
    elem-discard p q s.on_field,
    elem-add p q s.ejected,
    h.sent_off p,
    ==_iff p q,
    ==_iff q p,
  );
  enrolled = λ p e. ground (arith, elem-discard p q s.on_field, h.enrolled p);
  playing = λ p.
      ground (arith, elem-discard p q s.on_field, h.playing p, open_after_close s.intervals p q m);
  size = omega (arith, length-keep (λ x. not (q == x)) s.on_field, h.size);
}

elem-starters :
    (p : Uuid) (d : Dict RosterEntry) → elem p (starters d) ≡ true → elem p (keys d) ≡ true
unfolding starters
elem-starters p [] h = cc
elem-starters p ((q, e) ∷ d) h = ground (arith, elem-starters p d)

starts_playing :
    (p : Uuid) (ps : List Uuid) → elem p ps ≡ is_open (lookup_or [] p (initial_intervals ps))
starts_playing p [] = refl
starts_playing p (q ∷ ps) = ground (arith, starts_playing p ps)

kick_off-Sound :
    (team : Uuid) (d : Dict RosterEntry) → Sound (length (starters d)) (kick_off team d)
unfolding kick_off
kick_off-Sound team d = record {
  sent_off = λ p e. refl;
  enrolled = λ p e. elem-starters p d e;
  playing = λ p. starts_playing p (starters d);
  size = omega arith;
}

-- The number of valid starters of a team.
abbrev pub starting : List RosterEntry → Uuid → ℕ
starting rosters t = length (starters (valid_entries rosters t []))

abbrev AllSound : List RosterEntry → Dict OnFieldState → Type 0
AllSound rosters d =
    (t : Uuid) (s : OnFieldState) → lookup t d ≡ some s → Sound (starting rosters t) s

insert-AllSound :
    (rosters : List RosterEntry) (d : Dict OnFieldState) (t : Uuid) (s : OnFieldState)
    → Sound (starting rosters t) s
    → AllSound rosters d
    → AllSound rosters (insert t s d)
insert-AllSound rosters d t s h sound u v e = elim (Bool-cases (u == t)) [
  | inl same ↦
      let u_t = (==_iff u t).0 same in
      let v_s : s ≡ v = ground (arith, lookup-insert u t s d) in
      subst (Sound (starting rosters u)) v_s (rw u_t h)
  | inr other ↦ sound u v (ground (arith, lookup-insert u t s d))
]

replay_event-AllSound :
    (rosters : List RosterEntry) (l : SubstitutionLimits) (entries : Dict RosterEntry)
    (e : MatchEvent) (r r' : Replay)
    → AllSound rosters r.states
    → replay_event l entries e r ≡ ok r'
    → AllSound rosters r'.states
unfolding replay_event replay_substitution replay_player
replay_event-AllSound rosters l entries e r r' sound h =
    elim (Option-cases (lookup e.team_id r.states)) [
      | inl none_e ↦ absurd (ground arith)
      | inr (s, hs) ↦ elim (Bool-cases (is_substitution e.event_type)) [
        | inl sub ↦ elim (Option-cases (substitution_pair e)) [
          | inl legacy ↦
              let same : r ≡ r' = ground arith in
              subst (λ (x : Replay). AllSound rosters x.states) same sound
          | inr ((out, in_), hp) ↦
              let u = usage_to_check (lookup_or no_usage e.team_id r.usage) (window_of e) in
              let v : validate_substitution s l u out in_ (some e.team_id) ≡ ok tt = ground arith in
              let next = apply_substitution s out in_ (effective_minute e) in
              let same : insert e.team_id next r.states ≡ r'.states = ground arith in
              subst (AllSound rosters) same (
                insert-AllSound rosters r.states e.team_id next
                  (apply_substitution-Sound _ s out in_ _ (validated s l u out in_ _ v)
                    (sound e.team_id s hs))
                  sound)
        ]
        | inr other ↦ elim (Option-cases e.player_id) [
          | inl anonymous ↦
              let same : r ≡ r' = ground arith in
              subst (λ (x : Replay). AllSound rosters x.states) same sound
          | inr (p, hp) ↦ elim (Bool-cases (is_red_card e.event_type)) [
            | inl red ↦
                let next = apply_red_card s p (effective_minute e) in
                let same : insert e.team_id next r.states ≡ r'.states = ground arith in
                subst (AllSound rosters) same (
                  insert-AllSound rosters r.states e.team_id next
                    (apply_red_card-Sound _ s p _ (sound e.team_id s hs)) sound)
            | inr calm ↦
                let same : r.states ≡ r'.states = ground arith in
                subst (AllSound rosters) same sound
          ]
        ]
      ]
    ]

replay_events-AllSound :
    (rosters : List RosterEntry) (l : SubstitutionLimits) (entries : Dict RosterEntry)
    (es : List MatchEvent) (r r' : Replay)
    → AllSound rosters r.states
    → replay_events l entries es r ≡ ok r'
    → AllSound rosters r'.states
unfolding replay_events
replay_events-AllSound rosters l entries [] r r' sound h =
    let same : r ≡ r' = ground arith in subst (λ (x : Replay). AllSound rosters x.states) same sound
replay_events-AllSound rosters l entries (e ∷ es) r r' sound h =
    let (next, hn, hr) = went_on (replay_event l entries e r) _ h in
    replay_events-AllSound rosters l entries es next r'
      (replay_event-AllSound rosters l entries e r next sound hn) hr

build-Sound :
    (rosters : List RosterEntry) (t : Uuid) (s : OnFieldState)
    → build_on_field rosters [] t ≡ ok s
    → Sound (starting rosters t) s
unfolding build_on_field canonical_event_order sort_by play
build-Sound rosters t s h =
    let k : kick_off t (valid_entries rosters t []) ≡ s = ground arith in
    subst (Sound (starting rosters t)) k (kick_off-Sound t (valid_entries rosters t []))

initial_states-AllSound :
    (rosters : List RosterEntry) (teams : List Uuid) (d : Dict OnFieldState)
    → initial_states rosters teams ≡ ok d
    → AllSound rosters d
unfolding initial_states
initial_states-AllSound rosters [] d h t s e = absurd (ground arith)
initial_states-AllSound rosters (u ∷ ts) d h t s e =
    let (s0, hs, rest) = went_on (build_on_field rosters [] u) _ h in
    let (d', hd, last) = went_on (initial_states rosters ts) _ rest in
    elim (Bool-cases (t == u)) [
      | inl same ↦
          let s_s0 : s0 ≡ s = ground arith in
          subst (Sound (starting rosters t)) s_s0
            (rw ((==_iff t u).0 same) (build-Sound rosters u s0 hs))
      | inr other ↦ initial_states-AllSound rosters ts d' hd t s (ground arith)
    ]

-- In every state of an accepted report: nobody on the field has been sent off, everybody on it
-- is in the roster, a player is on it exactly when his last interval is open, and no more
-- players are on it than started.
pub replay_report_state-Sound :
    (rosters : List RosterEntry) (events : List MatchEvent) (team_ids : List Uuid)
    (l : SubstitutionLimits) (report : ReportState) (t : Uuid) (s : OnFieldState)
    → replay_report_state rosters events team_ids l ≡ ok report
    → lookup t report.states ≡ some s
    → Sound (starting rosters t) s
unfolding replay_report_state
replay_report_state-Sound rosters events team_ids l report t s h look =
    let (d, hd, h1) = went_on (initial_states rosters (unique [] team_ids)) _ h in
    let (r, hr, h2) =
      went_on (replay_events l (by_player rosters []) (canonical_event_order events) _) _ h1 in
    replay_events-AllSound rosters l (by_player rosters []) (canonical_event_order events) _ r
      (initial_states-AllSound rosters (unique [] team_ids) d hd) hr t s (ground arith)
