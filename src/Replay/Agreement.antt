-- ===== src/Replay/Agreement.antt =====
-- The replay and the engine agree: a report that is accepted leaves each team in the state that
-- `build_on_field` derives from the same events.
use bracket_craft.Prelude.{
  ◌≡◌, inl, inr, true, false, ◌||◌, none, some, List, [], ◌∷◌, ◌++◌, arith, ◌==◌, if◌then◌else◌,
  ==_iff, Bool-cases, Option-cases, elem,
}
use bracket_craft.Prelude.Dict.{Dict, lookup, insert, lookup-insert}
use bracket_craft.Prelude.Sort.{sort_by}
use bracket_craft.Prelude.Errors.{ok, went_on}
use bracket_craft.Prelude.Teams.{Uuid, elem-append}
use bracket_craft.Events.{is_red_card, is_substitution}
use bracket_craft.Substitutions.{
  RosterEntry, MatchEvent, effective_minute, substitution_pair, SubstitutionLimits, OnFieldState,
  canonical_event_order,
}
use bracket_craft.Substitutions.Field.{
  play_event, play, build_on_field, apply_substitution, apply_red_card,
}
use bracket_craft.Replay.{
  Replay, ReportState, unique, initial_states, by_player, replay_substitution, replay_player,
  replay_event, replay_events, replay_report_state,
}

play_event-pair :
    (e : MatchEvent) (s : OnFieldState) (out in_ : Uuid)
    → substitution_pair e ≡ some (out, in_)
    → play_event e s ≡ apply_substitution s out in_ (effective_minute e)
unfolding play_event substitution_pair apply_substitution
play_event-pair e s out in_ h = ground arith

play_event-idle :
    (e : MatchEvent) (s : OnFieldState)
    → is_red_card e.event_type ≡ false
    → substitution_pair e ≡ none
    → play_event e s ≡ s
unfolding play_event
play_event-idle e s h k = ground arith

play_event-red :
    (e : MatchEvent) (s : OnFieldState) (p : Uuid)
    → is_red_card e.event_type ≡ true
    → e.player_id ≡ some p
    → play_event e s ≡ apply_red_card s p (effective_minute e)
unfolding play_event apply_red_card
play_event-red e s p h k = ground arith

play_event-anonymous :
    (e : MatchEvent) (s : OnFieldState)
    → is_substitution e.event_type ≡ false
    → e.player_id ≡ none
    → play_event e s ≡ s
unfolding play_event substitution_pair
play_event-anonymous e s h k = ground arith

pair-is_substitution :
    (e : MatchEvent) → is_substitution e.event_type ≡ false → substitution_pair e ≡ none
unfolding substitution_pair
pair-is_substitution e h = ground arith

red-is_substitution :
    (e : MatchEvent) → is_substitution e.event_type ≡ true → is_red_card e.event_type ≡ false
red-is_substitution e h = ground arith

-- What one round does to the state of a team.
abbrev Stepped : Uuid → MatchEvent → OnFieldState → Replay → Type 0
Stepped t e s r = lookup t r.states ≡ some (if e.team_id == t then play_event e s else s)

insert-Stepped :
    (t : Uuid) (e : MatchEvent) (s' own next : OnFieldState) (d : Dict OnFieldState)
    → lookup t d ≡ some s'
    → lookup e.team_id d ≡ some own
    → play_event e own ≡ next
    → lookup t (insert e.team_id next d) ≡ some (if e.team_id == t then play_event e s' else s')
insert-Stepped t e s' own next d h k eq =
    ground (arith, lookup-insert t e.team_id next d, ==_iff e.team_id t)

replay_substitution-Stepped :
    (l : SubstitutionLimits) (e : MatchEvent) (own : OnFieldState) (out in_ : Uuid) (r r' : Replay)
    (t : Uuid) (s : OnFieldState)
    → lookup e.team_id r.states ≡ some own
    → substitution_pair e ≡ some (out, in_)
    → lookup t r.states ≡ some s
    → replay_substitution l e own out in_ r ≡ ok r'
    → Stepped t e s r'
unfolding replay_substitution
replay_substitution-Stepped l e own out in_ r r' t s ho hp hs h = ground (
  arith,
  insert-Stepped t e s own (apply_substitution own out in_ (effective_minute e)) r.states hs ho
      (play_event-pair e own out in_ hp),
)

replay_player-Stepped :
    (l : Dict RosterEntry) (e : MatchEvent) (own : OnFieldState) (p : Uuid) (r r' : Replay)
    (t : Uuid) (s : OnFieldState)
    → lookup e.team_id r.states ≡ some own
    → is_substitution e.event_type ≡ false
    → e.player_id ≡ some p
    → lookup t r.states ≡ some s
    → replay_player l e own p r ≡ ok r'
    → Stepped t e s r'
unfolding replay_player
replay_player-Stepped l e own p r r' t s ho hn hp hs h =
    elim (Bool-cases (is_red_card e.event_type)) [
      | inl red ↦ ground (
        arith,
        insert-Stepped t e s own (apply_red_card own p (effective_minute e)) r.states hs ho
            (play_event-red e own p red hp),
      )
      | inr calm ↦ ground (arith, play_event-idle e s calm (pair-is_substitution e hn))
    ]

replay_event-Stepped :
    (l : SubstitutionLimits) (entries : Dict RosterEntry) (e : MatchEvent) (r r' : Replay)
    (t : Uuid) (s : OnFieldState)
    → lookup t r.states ≡ some s
    → replay_event l entries e r ≡ ok r'
    → Stepped t e s r'
unfolding replay_event
replay_event-Stepped l entries e r r' t s hs h = elim (Option-cases (lookup e.team_id r.states)) [
  | inl none_e ↦ ground arith
  | inr (own, ho) ↦ elim (Bool-cases (is_substitution e.event_type)) [
    | inl sub ↦ elim (Option-cases (substitution_pair e)) [
      | inl legacy ↦ ground (arith, play_event-idle e s (red-is_substitution e sub) legacy)
      | inr ((out, in_), hp) ↦
          ground (arith, replay_substitution-Stepped l e own out in_ r r' t s ho hp hs)
    ]
    | inr other ↦ elim (Option-cases e.player_id) [
      | inl anonymous ↦ ground (arith, play_event-anonymous e s other anonymous)
      | inr (p, hp) ↦ ground (arith, replay_player-Stepped entries e own p r r' t s ho other hp hs)
    ]
  ]
]

replay_events-play :
    (l : SubstitutionLimits) (entries : Dict RosterEntry) (es : List MatchEvent) (r r' : Replay)
    (t : Uuid) (s : OnFieldState)
    → lookup t r.states ≡ some s
    → replay_events l entries es r ≡ ok r'
    → lookup t r'.states ≡ some (play t es s)
unfolding replay_events play
replay_events-play l entries [] r r' t s hs h = ground arith
replay_events-play l entries (e ∷ es) r r' t s hs h =
    let (next, hn, hr) = went_on (replay_event l entries e r) _ h in
    replay_events-play l entries es next r' t _ (replay_event-Stepped l entries e r next t s hs hn)
      hr

-- The state with which the replay starts is the state with no event.
initial_states-build :
    (entries : List RosterEntry) (teams : List Uuid) (d : Dict OnFieldState) (t : Uuid)
    → initial_states entries teams ≡ ok d
    → elem t teams ≡ true
    → (s : OnFieldState) × (lookup t d ≡ some s) × (build_on_field entries [] t ≡ ok s)
unfolding initial_states
initial_states-build entries [] d t h m = cc
initial_states-build entries (u ∷ ts) d t h m =
    let (s, hs, rest) = went_on (build_on_field entries [] u) _ h in
    let (d', hd, last) = went_on (initial_states entries ts) _ rest in
    elim (Bool-cases (t == u)) [
      | inl e ↦ (s, ground arith, rw ((==_iff t u).0 e) hs)
      | inr e ↦
          let (s', l', b') = initial_states-build entries ts d' t hd (ground arith) in
          (s', ground arith, b')
    ]

build_from_start :
    (entries : List RosterEntry) (events : List MatchEvent) (t : Uuid) (s : OnFieldState)
    → build_on_field entries [] t ≡ ok s
    → build_on_field entries events t ≡ ok (play t (canonical_event_order events) s)
unfolding build_on_field canonical_event_order sort_by play
build_from_start entries events t s h = ground arith

pub elem-unique :
    (t : Uuid) (seen ts : List Uuid)
    → (elem t seen || elem t ts) ≡ true
    → elem t (unique seen ts) ≡ true
elem-unique t seen [] h = ground arith
elem-unique t seen (u ∷ ts) h = elim (Bool-cases (elem u seen)) [
  | inl e ↦ rw e (elem-unique t seen ts (ground (arith, ==_iff t u)))
  | inr e ↦ rw e (elem-unique t (seen ++ u ∷ []) ts (ground (arith, elem-append t seen (u ∷ []))))
]

-- When a report is accepted, the state that the replay gives to each participating team is the
-- one that `build_on_field` derives from the roster and the same events.
pub replay_report_state-build :
    (rosters : List RosterEntry) (events : List MatchEvent) (team_ids : List Uuid)
    (l : SubstitutionLimits) (report : ReportState) (t : Uuid)
    → replay_report_state rosters events team_ids l ≡ ok report
    → elem t team_ids ≡ true
    → (s : OnFieldState) × (lookup t report.states ≡ some s)
      × (build_on_field rosters events t ≡ ok s)
unfolding replay_report_state
replay_report_state-build rosters events team_ids l report t h m =
    let (d, hd, h1) = went_on (initial_states rosters (unique [] team_ids)) _ h in
    let (r, hr, h2) =
      went_on (replay_events l (by_player rosters []) (canonical_event_order events) _) _ h1 in
    let (s, look, start) =
      initial_states-build rosters (unique [] team_ids) d t hd
        (elem-unique t [] team_ids (ground arith)) in
    (
      play t (canonical_event_order events) s,
      ground (
        arith,
        replay_events-play l (by_player rosters []) (canonical_event_order events) _ r t s look hr,
      ),
      build_from_start rosters events t s start,
    )
