-- ===== src/MatchRules/DoubleYellow.antt =====
-- `double_yellow_violations` of backend/app/modules/matches/service.py: a red card for two yellow
-- cards needs exactly two earlier ones.
use bracket_craft.Prelude.{
  ℕ, suc, ◌+◌, ◌≡◌, refl, subst, inl, inr, Bool, true, ◌&&◌, not, Option, none, some, List, [], ◌∷◌,
  ◌++◌, arith, ltb, leb, ◌==◌, if◌then◌else◌, ==_iff, Bool-cases,
}
use bracket_craft.Prelude.Dict.{Dict, lookup_or}
use bracket_craft.Prelude.Sort.{sort_by}
use bracket_craft.Prelude.Teams.{Uuid}
use bracket_craft.Events.{EventType, is_red_card}
use bracket_craft.Rules.Suspensions.{count_yellow}
use bracket_craft.Rules.Suspensions.Thresholds.{is_yellow_of, lookup_or-count_yellow}

-- An event of the report with its index.
pub record ActaEvent : Type 0 where
  pub index : ℕ
  pub event_type : EventType
  pub player_id : Option Uuid
  pub double_yellow : Bool
  pub minute : ℕ
  pub added_minute : ℕ

unfoldable pub acta_le : ActaEvent → ActaEvent → Bool
acta_le a b =
    if a.minute == b.minute
    then if a.added_minute == b.added_minute
      then leb a.index b.index
      else ltb a.added_minute b.added_minute
    else ltb a.minute b.minute

-- The index of a red card for two yellow cards whose player has not exactly two so far.
unfoldable pub violation_of : ActaEvent → Option Uuid → Dict ℕ → List ℕ
violation_of e none yellows = []
violation_of e (some player) yellows =
    if is_red_card e.event_type && e.double_yellow && not (lookup_or 0 player yellows == 2)
    then e.index ∷ []
    else []

unfoldable pub violations_from : List ActaEvent → Dict ℕ → List ℕ
unfolding violation_of count_yellow
violations_from [] yellows = []
violations_from (e ∷ events) yellows =
    violation_of e e.player_id yellows
    ++ violations_from events (count_yellow e.event_type e.player_id yellows)

unfoldable pub double_yellow_violations : List ActaEvent → List ℕ
unfolding violations_from sort_by acta_le
double_yellow_violations events = violations_from (sort_by acta_le events) []

-- The yellow cards of a player among the events.
abbrev pub yellows_in : Uuid → List ActaEvent → ℕ
yellows_in t [] = 0
yellows_in t (e ∷ events) =
    if is_yellow_of t e.event_type e.player_id
    then suc (yellows_in t events)
    else yellows_in t events

nothing_in : (xs ys : List ℕ) → xs ++ ys ≡ [] → (xs ≡ []) × (ys ≡ [])
nothing_in [] ys h = (refl, h)
nothing_in (x ∷ xs) ys h = absurd cc

violation_of-none :
    (e : ActaEvent) (q : Option Uuid) (p : Uuid) (y : Dict ℕ)
    → violation_of e q y ≡ []
    → q ≡ some p
    → is_red_card e.event_type ≡ true
    → e.double_yellow ≡ true
    → lookup_or 0 p y ≡ 2
unfolding violation_of
violation_of-none e none p y h q red two = absurd cc
violation_of-none e (some r) p y h q red two =
    let same : r ≡ p = cc in
    elim (Bool-cases (lookup_or 0 r y == 2)) [
      | inl fits ↦ subst (λ r. lookup_or 0 r y ≡ 2) same ((==_iff (lookup_or 0 r y) 2).0 fits)
      | inr wrong ↦ let bad = rw (red, two, wrong) at h in absurd cc
    ]

violations_from-none :
    (before : List ActaEvent) (e : ActaEvent) (after : List ActaEvent) (p : Uuid) (y : Dict ℕ)
    → violations_from (before ++ e ∷ after) y ≡ []
    → e.player_id ≡ some p
    → is_red_card e.event_type ≡ true
    → e.double_yellow ≡ true
    → yellows_in p before + lookup_or 0 p y ≡ 2
unfolding violations_from
violations_from-none [] e after p y h q red two =
    let (here, _) = nothing_in (violation_of e e.player_id y) _ h in
    let fits = violation_of-none e e.player_id p y here q red two in omega (arith, fits)
violations_from-none (b ∷ before) e after p y h q red two =
    let now = count_yellow b.event_type b.player_id y in
    let (_, rest) = nothing_in (violation_of b b.player_id y) _ h in
    let later = violations_from-none before e after p now rest q red two in
    ground (arith, later, lookup_or-count_yellow p b.event_type b.player_id y)

-- In a report without violations, every red card for two yellow cards has in the canonical order
-- exactly two yellow cards of its player before it.
pub double_yellow_violations_none :
    (events before : List ActaEvent) (e : ActaEvent) (after : List ActaEvent) (p : Uuid)
    → double_yellow_violations events ≡ []
    → sort_by acta_le events ≡ before ++ e ∷ after
    → e.player_id ≡ some p
    → is_red_card e.event_type ≡ true
    → e.double_yellow ≡ true
    → yellows_in p before ≡ 2
unfolding double_yellow_violations
double_yellow_violations_none events before e after p clear split q red two =
    let clear' : violations_from (before ++ e ∷ after) [] ≡ [] =
      subst (λ es. violations_from es [] ≡ []) split clear in
    let fits = violations_from-none before e after p [] clear' q red two in omega (arith, fits)
