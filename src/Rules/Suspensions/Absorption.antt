-- ===== src/Rules/Suspensions/Absorption.antt =====
-- The accumulation sanctions of a report: one for each threshold that the yellow cards of a player
-- pass, and none for a player sent off for two of them.
use bracket_craft.Prelude.{
  ℕ, suc, ◌+◌, ◌/◌, ◌%◌, ◌<◌, ◌≡◌, refl, sym, ap, ◌∙◌, subst, ◌⊎◌, inl, inr, true, false, ◌&&◌, not,
  Option, none, some, List, [], ◌∷◌, ◌++◌, arith, ◌==◌, if◌then◌else◌, ==_iff, Bool-cases, keep,
  elem,
}
use bracket_craft.Prelude.Int.{pos_part}
use bracket_craft.Prelude.Dict.{Dict, lookup_or}
use bracket_craft.Prelude.Teams.{Uuid}
use bracket_craft.Rules.{DisciplineRules}
use bracket_craft.Events.{is_yellow_card, is_red_card}
use bracket_craft.Rules.Suspensions.{
  DisciplineEvent, order_discipline_history, Suspension, is_accumulation, count_yellow,
  count_yellows, accumulation, expulsion, sanctions_of, derive_suspensions, double_yellow_players,
  is_absorbed, evaluate_suspensions,
}
use bracket_craft.Rules.Suspensions.Thresholds.{
  is_yellow_of, yellows_of, lookup_or-count_yellow, history-yellows_of,
}
use bracket_craft.Rules.Suspensions.Steps.{Steps-all}

-- The accumulation sanctions of a player.
abbrev pub accumulations : Uuid → List Suspension → ℕ
accumulations t [] = 0
accumulations t (s ∷ ss) =
    if is_accumulation s.reason && t == s.player_id
    then suc (accumulations t ss)
    else accumulations t ss

accumulations-append :
    (t : Uuid) (xs ys : List Suspension)
    → accumulations t (xs ++ ys) ≡ accumulations t xs + accumulations t ys
accumulations-append t [] ys = omega arith
accumulations-append t (x ∷ xs) ys = ground (arith, accumulations-append t xs ys)

-- What one event adds to the accumulations of a player.
accumulations-sanctions_of :
    (t : Uuid) (d : DisciplineRules) (e : DisciplineEvent) (p : Option Uuid) (y : Dict ℕ)
    → accumulations t (sanctions_of d e p y) ≡ (
        if is_yellow_of t e.event_type p && lookup_or 0 t y % pos_part d.yellow_card_limit == 0
        then 1
        else 0)
unfolding sanctions_of
accumulations-sanctions_of t d e none y = refl
accumulations-sanctions_of t d e (some p) y = elim (Bool-cases (is_yellow_card e.event_type)) [
  | inl yellow ↦ rw yellow (yellow_case (Bool-cases (t == p)))
  | inr not_yellow ↦
      rw not_yellow
        (other_case (Bool-cases (is_red_card e.event_type)) (Bool-cases e.double_yellow))
]
  where
    yellow_case :
        (t == p ≡ true) ⊎ (t == p ≡ false)
        → accumulations t (
            if lookup_or 0 p y % pos_part d.yellow_card_limit == 0
            then accumulation d e p ∷ []
            else [])
          ≡ (if (t == p) && lookup_or 0 t y % pos_part d.yellow_card_limit == 0 then 1 else 0)
    yellow_case (inl same) =
        let e : t ≡ p = (==_iff t p).0 same in
        let self : (p == p) ≡ true = ground arith in
        elim (Bool-cases (lookup_or 0 p y % pos_part d.yellow_card_limit == 0)) [
          | inl m ↦ rw (e, m, self) refl
          | inr m ↦ rw (e, m, self) refl
        ]
    yellow_case (inr apart) =
        elim (Bool-cases (lookup_or 0 p y % pos_part d.yellow_card_limit == 0)) [
          | inl m ↦ rw (m, apart) refl
          | inr m ↦ rw (m, apart) refl
        ]

    other_case :
        (is_red_card e.event_type ≡ true) ⊎ (is_red_card e.event_type ≡ false)
        → (e.double_yellow ≡ true) ⊎ (e.double_yellow ≡ false)
        → accumulations t (if is_red_card e.event_type then expulsion d e p ∷ [] else []) ≡ 0
    other_case (inl red) (inl two) = rw (red, two) refl
    other_case (inl red) (inr one) = rw (red, one) refl
    other_case (inr other) _ = rw other refl

derive_suspensions-thresholds :
    (t : Uuid) (d : DisciplineRules) (events : List DisciplineEvent) (y : Dict ℕ)
    → 0 < pos_part d.yellow_card_limit
    → accumulations t (derive_suspensions d events y)
        + lookup_or 0 t y / pos_part d.yellow_card_limit
      ≡ (yellows_of t events + lookup_or 0 t y) / pos_part d.yellow_card_limit
unfolding derive_suspensions
derive_suspensions-thresholds t d [] y h =
    let limit = pos_part d.yellow_card_limit in
    let left : 0 + lookup_or 0 t y / limit ≡ lookup_or 0 t y / limit = omega arith in
    let right : lookup_or 0 t y ≡ 0 + lookup_or 0 t y = omega arith in
    left ∙ ap (λ n. n / limit) right
derive_suspensions-thresholds t d (e ∷ events) y h =
    let limit = pos_part d.yellow_card_limit in
    let now = count_yellow e.event_type e.player_id y in
    let added = sanctions_of d e e.player_id now in
    let later = derive_suspensions d events now in
    let before = lookup_or 0 t y in
    let after = lookup_or 0 t now in
    let more = yellows_of t events in
    let rest = derive_suspensions-thresholds t d events now h in
    let here = accumulations-sanctions_of t d e e.player_id now in
    let look = lookup_or-count_yellow t e.event_type e.player_id y in
    let sum = accumulations-append t added later in
    let step = Steps-all (suc before) limit before h (omega arith) in
    elim (Bool-cases (is_yellow_of t e.event_type e.player_id)) [
      | inl yellow ↦
          let suc_now : after ≡ suc before = look ∙ rw yellow refl in
          let fits : suc more + before ≡ more + after = omega (arith, suc_now) in
          let right : (suc more + before) / limit ≡ accumulations t later + suc before / limit =
            ap (λ n. n / limit) fits
            ∙ (sym rest ∙ ap (λ n. accumulations t later + n / limit) suc_now) in
          elim (Bool-cases (suc before % limit == 0)) [
            | inl hit ↦
                let one : accumulations t added ≡ 1 = here ∙ rw (yellow, suc_now, hit) refl in
                let up : suc before / limit ≡ suc (before / limit) = step ∙ rw hit refl in
                rw yellow (omega (arith, sum, one, right, up))
            | inr miss ↦
                let none_added : accumulations t added ≡ 0 =
                  here ∙ rw (yellow, suc_now, miss) refl in
                let same : suc before / limit ≡ before / limit = step ∙ rw miss refl in
                rw yellow (omega (arith, sum, none_added, right, same))
          ]
      | inr other ↦
          let same_now : after ≡ before = look ∙ rw other refl in
          let none_added : accumulations t added ≡ 0 = here ∙ rw other refl in
          let left : accumulations t later + before / limit ≡ (more + before) / limit =
            ap (λ n. accumulations t later + n / limit) (sym same_now)
            ∙ (rest ∙ ap (λ n. (more + n) / limit) same_now) in
          rw other (omega (arith, sum, none_added, left))
    ]

-- Absorption drops the accumulations of the given players and keeps those of the others.
accumulations-absorbed :
    (t : Uuid) (players : List Uuid) (ss : List Suspension)
    → accumulations t (keep (λ s. not (is_absorbed players s)) ss)
      ≡ (if elem t players then 0 else accumulations t ss)
accumulations-absorbed t players [] = elim (Bool-cases (elem t players)) [
  | inl m ↦ rw m refl
  | inr m ↦ rw m refl
]
accumulations-absorbed t players (s ∷ ss) =
    let rest = accumulations-absorbed t players ss in
    elim (Bool-cases (is_accumulation s.reason)) [
      | inl a ↦ elim (Bool-cases (t == s.player_id)) [
        | inl mine ↦
            let e : s.player_id ≡ t = sym ((==_iff t s.player_id).0 mine) in
            elim (Bool-cases (elem s.player_id players)) [
              | inl m ↦
                  let mt : elem t players ≡ true = subst (λ p. elem p players ≡ true) e m in
                  rw (a, m, mt) (rest ∙ rw mt refl)
              | inr m ↦
                  let mt : elem t players ≡ false = subst (λ p. elem p players ≡ false) e m in
                  rw (a, m, mt, a, mine) (ap suc (rest ∙ rw mt refl))
            ]
        | inr others ↦ elim (Bool-cases (elem s.player_id players)) [
          | inl m ↦ rw (a, m, others) rest
          | inr m ↦ rw (a, m, a, others) rest
        ]
      ]
      | inr n ↦ rw (n, n) rest
    ]

-- With a positive limit, a player that the report sends off for two yellow cards gets no accumulation sanction. Every
-- other one gets one for each multiple of the limit between its yellow cards before the report
-- and those after it.
pub evaluate_suspensions-thresholds :
    (d : DisciplineRules) (current history : List DisciplineEvent) (t : Uuid)
    → 0 < pos_part d.yellow_card_limit
    → (elem t (double_yellow_players current) ≡ true
        → accumulations t (evaluate_suspensions d current history) ≡ 0)
      × (elem t (double_yellow_players current) ≡ false
          → accumulations t (evaluate_suspensions d current history)
              + yellows_of t history / pos_part d.yellow_card_limit
            ≡ (yellows_of t current + yellows_of t history) / pos_part d.yellow_card_limit)
unfolding evaluate_suspensions
evaluate_suspensions-thresholds d current history t h =
    let limit = pos_part d.yellow_card_limit in
    let before = count_yellows (order_discipline_history history) [] in
    let derived = derive_suspensions d current before in
    let absorbed = accumulations-absorbed t (double_yellow_players current) derived in
    let counted = derive_suspensions-thresholds t d current before h in
    let balance = history-yellows_of t history in
    (
      λ m. absorbed ∙ rw m refl,
      λ m.
          let kept = absorbed ∙ rw m refl in
          subst
            (λ n.
              accumulations t (evaluate_suspensions d current history) + n / limit
              ≡ (yellows_of t current + n) / limit)
            balance (ap (λ k. k + lookup_or 0 t before / limit) kept ∙ counted),
    )
