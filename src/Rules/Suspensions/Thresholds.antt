-- ===== src/Rules/Suspensions/Thresholds.antt =====
-- The history matters only by the number of yellow cards of each player.
use bracket_craft.Prelude.{
  ℕ, suc, ◌+◌, ◌≡◌, refl, sym, ap, ◌∙◌, inl, inr, Bool, false, ◌&&◌, not, Option, none, some, List,
  [], ◌∷◌, arith, ◌==◌, if◌then◌else◌, ==_iff, Bool-cases, keep,
}
use bracket_craft.Prelude.Dict.{Dict, lookup_or, lookup_or-insert}
use bracket_craft.Prelude.Sort.{insort, sort_by}
use bracket_craft.Prelude.Teams.{Uuid}
use bracket_craft.Rules.{DisciplineRules}
use bracket_craft.Events.{EventType, is_yellow_card}
use bracket_craft.Rules.Suspensions.{
  DisciplineEvent, history_le, order_discipline_history, count_yellow, count_yellows, sanctions_of,
  derive_suspensions, double_yellow_players, is_absorbed, evaluate_suspensions,
}

abbrev pub is_yellow_of : Uuid → EventType → Option Uuid → Bool
is_yellow_of t kind none = false
is_yellow_of t kind (some player) = is_yellow_card kind && t == player

-- The yellow cards of a player.
abbrev pub yellows_of : Uuid → List DisciplineEvent → ℕ
yellows_of t [] = 0
yellows_of t (e ∷ events) =
    if is_yellow_of t e.event_type e.player_id
    then suc (yellows_of t events)
    else yellows_of t events

pub lookup_or-count_yellow :
    (t : Uuid) (kind : EventType) (player : Option Uuid) (yellows : Dict ℕ)
    → lookup_or 0 t (count_yellow kind player yellows)
      ≡ (if is_yellow_of t kind player then suc (lookup_or 0 t yellows) else lookup_or 0 t yellows)
unfolding count_yellow
lookup_or-count_yellow t kind none yellows = refl
lookup_or-count_yellow t kind (some p) yellows =
    ground (arith, lookup_or-insert t p (lookup_or 0 p yellows + 1) yellows, ==_iff t p)

lookup_or-count_yellows :
    (t : Uuid) (events : List DisciplineEvent) (yellows : Dict ℕ)
    → lookup_or 0 t (count_yellows events yellows) ≡ yellows_of t events + lookup_or 0 t yellows
unfolding count_yellows
lookup_or-count_yellows t [] yellows = omega arith
lookup_or-count_yellows t (e ∷ events) yellows = ground (
  arith,
  lookup_or-count_yellows t events (count_yellow e.event_type e.player_id yellows),
  lookup_or-count_yellow t e.event_type e.player_id yellows,
)

yellows_of-insort :
    (t : Uuid) (e : DisciplineEvent) (events : List DisciplineEvent)
    → yellows_of t (insort history_le e events) ≡ yellows_of t (e ∷ events)
unfolding insort
yellows_of-insort t e [] = refl
yellows_of-insort t e (f ∷ events) = elim (Bool-cases (history_le e f)) [
  | inl le ↦ rw le refl
  | inr more ↦ rw more (ground (arith, yellows_of-insort t e events))
]

yellows_of-sort_by :
    (t : Uuid) (events : List DisciplineEvent)
    → yellows_of t (sort_by history_le events) ≡ yellows_of t events
unfolding sort_by
yellows_of-sort_by t [] = refl
yellows_of-sort_by t (e ∷ events) =
    ground (arith, yellows_of-insort t e (sort_by history_le events), yellows_of-sort_by t events)

-- After the history the balance of each player is the number of its yellow cards.
pub history-yellows_of :
    (t : Uuid) (history : List DisciplineEvent)
    → lookup_or 0 t (count_yellows (order_discipline_history history) []) ≡ yellows_of t history
unfolding order_discipline_history
history-yellows_of t history =
    lookup_or-count_yellows t (sort_by history_le history) []
    ∙ ground (arith, yellows_of-sort_by t history)

-- Equal balances give equal sanctions.
sanctions_of_ext :
    (d : DisciplineRules) (e : DisciplineEvent) (p : Option Uuid) (a b : Dict ℕ)
    → ((t : Uuid) → lookup_or 0 t a ≡ lookup_or 0 t b)
    → sanctions_of d e p a ≡ sanctions_of d e p b
unfolding sanctions_of
sanctions_of_ext d e none a b h = refl
sanctions_of_ext d e (some p) a b h = rw (h p) refl

derive_suspensions_ext :
    (d : DisciplineRules) (events : List DisciplineEvent) (a b : Dict ℕ)
    → ((t : Uuid) → lookup_or 0 t a ≡ lookup_or 0 t b)
    → derive_suspensions d events a ≡ derive_suspensions d events b
unfolding derive_suspensions
derive_suspensions_ext d [] a b h = refl
derive_suspensions_ext d (e ∷ events) a b h =
    let now_a = count_yellow e.event_type e.player_id a in
    let now_b = count_yellow e.event_type e.player_id b in
    let same : (t : Uuid) → lookup_or 0 t now_a ≡ lookup_or 0 t now_b = λ t. ground (
      arith,
      lookup_or-count_yellow t e.event_type e.player_id a,
      lookup_or-count_yellow t e.event_type e.player_id b,
      h t,
    ) in
    rw
      (
        sanctions_of_ext d e e.player_id now_a now_b same,
        derive_suspensions_ext d events now_a now_b same,
      )
      refl

-- Two histories that hold as many yellow cards of each player give the same sanctions: their
-- order, their other cards and the cards of unknown players do not matter.
pub evaluate_suspensions_same_yellows :
    (d : DisciplineRules) (current a b : List DisciplineEvent)
    → ((t : Uuid) → yellows_of t a ≡ yellows_of t b)
    → evaluate_suspensions d current a ≡ evaluate_suspensions d current b
unfolding evaluate_suspensions
evaluate_suspensions_same_yellows d current a b h =
    ap (λ derived. keep (λ s. not (is_absorbed (double_yellow_players current) s)) derived)
      (derive_suspensions_ext d current (count_yellows (order_discipline_history a) [])
        (count_yellows (order_discipline_history b) [])
        (λ t. history-yellows_of t a ∙ (h t ∙ sym (history-yellows_of t b))))
