-- ===== src/Rules/Suspensions/Expulsions.antt =====
-- The expulsions of a report: one for each red card.
use bracket_craft.Prelude.{
  ℕ, ◌%◌, ◌≡◌, refl, ap, ◌∙◌, inl, inr, true, false, not, Option, none, some, List, [], ◌∷◌, ◌++◌,
  ◌==◌, if◌then◌else◌, Bool-cases, keep, elem,
}
use bracket_craft.Prelude.Int.{ℤ, pos_part}
use bracket_craft.Prelude.Dict.{Dict, lookup_or}
use bracket_craft.Prelude.Teams.{Uuid}
use bracket_craft.Rules.{DisciplineRules}
use bracket_craft.Events.{
  EventType, is_yellow_card, is_red_card, yellow_card, red_card, goal, own_goal, penalty_goal,
  substitution, foul,
}
use bracket_craft.Rules.Suspensions.{
  DisciplineEvent, order_discipline_history, Suspension, is_accumulation, count_yellow,
  count_yellows, sanctions_of, derive_suspensions, double_yellow_players, is_absorbed,
  evaluate_suspensions,
}

-- The source event and the length of each sanction that is not an accumulation.
abbrev pub expulsions : List Suspension → List (Uuid × ℤ)
expulsions [] = []
expulsions (s ∷ ss) =
    if is_accumulation s.reason
    then expulsions ss
    else (s.source_event_id, s.matches_suspended) ∷ expulsions ss

abbrev red_card_of : DisciplineRules → DisciplineEvent → Option Uuid → List (Uuid × ℤ)
red_card_of d e none = []
red_card_of d e (some player) =
    if is_red_card e.event_type then (e.id, d.direct_red_suspension_matches) ∷ [] else []

-- The red cards of known players, with the configured length.
abbrev pub red_cards : DisciplineRules → List DisciplineEvent → List (Uuid × ℤ)
red_cards d [] = []
red_cards d (e ∷ events) = red_card_of d e e.player_id ++ red_cards d events

expulsions-append :
    (xs ys : List Suspension) → expulsions (xs ++ ys) ≡ expulsions xs ++ expulsions ys
expulsions-append [] ys = refl
expulsions-append (x ∷ xs) ys = elim (Bool-cases (is_accumulation x.reason)) [
  | inl a ↦ rw a (expulsions-append xs ys)
  | inr n ↦ rw n (ap (λ r. (x.source_event_id, x.matches_suspended) ∷ r) (expulsions-append xs ys))
]

not_both : (kind : EventType) → is_yellow_card kind ≡ true → is_red_card kind ≡ false
not_both yellow_card h = refl
not_both red_card h = absurd cc
not_both goal h = refl
not_both own_goal h = refl
not_both penalty_goal h = refl
not_both substitution h = refl
not_both foul h = refl

expulsions-sanctions_of :
    (d : DisciplineRules) (e : DisciplineEvent) (p : Option Uuid) (y : Dict ℕ)
    → expulsions (sanctions_of d e p y) ≡ red_card_of d e p
unfolding sanctions_of
expulsions-sanctions_of d e none y = refl
expulsions-sanctions_of d e (some p) y = elim (Bool-cases (is_yellow_card e.event_type)) [
  | inl yellow ↦ elim (Bool-cases (lookup_or 0 p y % pos_part d.yellow_card_limit == 0)) [
    | inl m ↦ rw (yellow, m, not_both e.event_type yellow) refl
    | inr m ↦ rw (yellow, m, not_both e.event_type yellow) refl
  ]
  | inr other ↦ elim (Bool-cases (is_red_card e.event_type)) [
    | inl red ↦ elim (Bool-cases e.double_yellow) [
      | inl two ↦ rw (other, red, two) refl
      | inr one ↦ rw (other, red, one) refl
    ]
    | inr none_of_them ↦ rw (other, none_of_them) refl
  ]
]

expulsions-derive_suspensions :
    (d : DisciplineRules) (events : List DisciplineEvent) (y : Dict ℕ)
    → expulsions (derive_suspensions d events y) ≡ red_cards d events
unfolding derive_suspensions
expulsions-derive_suspensions d [] y = refl
expulsions-derive_suspensions d (e ∷ events) y =
    let now = count_yellow e.event_type e.player_id y in
    expulsions-append (sanctions_of d e e.player_id now) (derive_suspensions d events now)
    ∙ rw (expulsions-sanctions_of d e e.player_id now, expulsions-derive_suspensions d events now)
        refl

expulsions-kept :
    (players : List Uuid) (ss : List Suspension)
    → expulsions (keep (λ s. not (is_absorbed players s)) ss) ≡ expulsions ss
expulsions-kept players [] = refl
expulsions-kept players (s ∷ ss) = elim (Bool-cases (is_accumulation s.reason)) [
  | inl a ↦ elim (Bool-cases (elem s.player_id players)) [
    | inl m ↦ rw (a, m) (expulsions-kept players ss)
    | inr m ↦ rw (a, m, a) (expulsions-kept players ss)
  ]
  | inr n ↦
      rw (n, n)
        (ap (λ r. (s.source_event_id, s.matches_suspended) ∷ r) (expulsions-kept players ss))
]

-- Every red card of a known player in the report gives exactly one sanction besides the
-- accumulations, in the order of the report and with the configured number of matches, whatever
-- the history holds.
pub evaluate_suspensions-red_cards :
    (d : DisciplineRules) (current history : List DisciplineEvent)
    → expulsions (evaluate_suspensions d current history) ≡ red_cards d current
unfolding evaluate_suspensions
evaluate_suspensions-red_cards d current history =
    let before = count_yellows (order_discipline_history history) [] in
    expulsions-kept (double_yellow_players current) (derive_suspensions d current before)
    ∙ expulsions-derive_suspensions d current before
