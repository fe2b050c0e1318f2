-- ===== src/Schedule/RoundRobin/Meetings.antt =====
-- How often two teams meet in a round, and in a run of rounds of the circle method.
use bracket_craft.Prelude.{
  all_but_last, last, ℕ, zero, suc, ◌+◌, ◌-◌, ◌/◌, ◌%◌, ◌≤◌, ◌<◌, ◌≡◌, refl, sym, ap, ◌∙◌, ◌≢◌, inl,
  inr, Bool, true, false, ◌&&◌, ◌||◌, none, some, List, [], ◌∷◌, ◌++◌, arith, ◌==◌, Bool-cases,
  length,
}
use bracket_craft.Prelude.Teams.{Uuid}
use bracket_craft.Schedule.RoundRobin.{
  Place, round_pairs, rotate, BaseMatch, base_match, round_matches, base_matches,
}
use bracket_craft.Schedule.RoundRobin.Circle.{one_if, faced}
use bracket_craft.Schedule.RoundRobin.Positions.{
  holds, occurs, position, length-all_but_last, occurs-last, position-inner, position-last,
  position-lt, occurs-rotate, length-rotate, position-rotate,
}

abbrev met : Uuid → Uuid → Place × Place → Bool
met s t (l, r) = holds s l && holds t r || holds t l && holds s r

abbrev facing : Uuid → Uuid → List (Place × Place) → ℕ
facing s t [] = 0
facing s t (p ∷ ps) = one_if (met s t p) + facing s t ps

facing_comm : (s t : Uuid) (ps : List (Place × Place)) → facing s t ps ≡ facing t s ps
facing_comm s t [] = refl
facing_comm s t ((l, r) ∷ ps) = ground (arith, facing_comm s t ps)

facing_absent :
    (s t : Uuid) (h : ℕ) (xs : List Place) → occurs s xs ≡ 0 → facing s t (round_pairs h xs) ≡ 0
unfolding round_pairs
facing_absent s t zero xs o = refl
facing_absent s t (suc h) [] o = refl
facing_absent s t (suc h) (x ∷ []) o = ground arith
facing_absent s t (suc h) (x ∷ y ∷ ys) o =
    ground (arith, occurs-last s y ys, facing_absent s t h (all_but_last y ys))

holds_unique : (s t : Uuid) (x : Place) → s ≢ t → holds s x ≡ true → holds t x ≡ false
holds_unique s t none ne h = refl
holds_unique s t (some x) ne h = ground arith

abbrev Opposite : ℕ → List Place → Uuid → Uuid → Type 0
Opposite h xs s t =
    facing s t (round_pairs h xs) ≡ one_if (position s xs + position t xs == length xs - 1)

Opposite-comm : (h : ℕ) (xs : List Place) (s t : Uuid) → Opposite h xs t s → Opposite h xs s t
Opposite-comm h xs s t e =
    let sum : position t xs + position s xs ≡ position s xs + position t xs = omega arith in
    facing_comm s t (round_pairs h xs) ∙ (e ∙ ap (λ n. one_if (n == length xs - 1)) sum)

module _ (s t : Uuid) (h : ℕ) (x y : Place) (ys : List Place) (ne : s ≢ t)
    (one_s : occurs s (x ∷ y ∷ ys) ≡ 1) (one_t : occurs t (x ∷ y ∷ ys) ≡ 1) where
  first-Opposite : holds s x ≡ true → Opposite (suc h) (x ∷ y ∷ ys) s t
  unfolding round_pairs
  first-Opposite sx =
      let not_t = holds_unique s t x ne sx in
      let gone : occurs s (all_but_last y ys) ≡ 0 = ground (arith, occurs-last s y ys) in
      elim (Bool-cases (holds t (last y ys))) [
        | inl tl ↦
            let gone_t : occurs t (all_but_last y ys) ≡ 0 = ground (arith, occurs-last t y ys) in
            ground
              (arith, facing_absent s t h (all_but_last y ys) gone, position-last t y ys gone_t tl)
        | inr tl ↦
            let here : 0 < occurs t (all_but_last y ys) = ground (arith, occurs-last t y ys) in
            ground (
              arith,
              facing_absent s t h (all_but_last y ys) gone,
              position-inner t y ys here,
              position-lt t (all_but_last y ys) here,
              length-all_but_last y ys,
              occurs-last s y ys,
            )
      ]

  last-Opposite :
      holds s x ≡ false
      → holds t x ≡ false
      → holds s (last y ys) ≡ true
      → Opposite (suc h) (x ∷ y ∷ ys) s t
  unfolding round_pairs
  last-Opposite sx tx sl =
      let gone : occurs s (all_but_last y ys) ≡ 0 = ground (arith, occurs-last s y ys) in
      ground (arith, facing_absent s t h (all_but_last y ys) gone, position-last s y ys gone sl)

  inside-Opposite :
      (occurs s (all_but_last y ys) ≡ 1
        → occurs t (all_but_last y ys) ≡ 1
        → Opposite h (all_but_last y ys) s t)
      → holds s x ≡ false
      → holds t x ≡ false
      → holds s (last y ys) ≡ false
      → holds t (last y ys) ≡ false
      → Opposite (suc h) (x ∷ y ∷ ys) s t
  unfolding round_pairs
  inside-Opposite rest sx tx sl tl =
      let is : occurs s (all_but_last y ys) ≡ 1 = ground (arith, occurs-last s y ys) in
      let it : occurs t (all_but_last y ys) ≡ 1 = ground (arith, occurs-last t y ys) in
      ground (
        arith,
        rest is it,
        position-inner s y ys (omega (arith, is)),
        position-inner t y ys (omega (arith, it)),
        position-lt s (all_but_last y ys) (omega (arith, is)),
        length-all_but_last y ys,
      )

-- In one round two teams face each other when their places are opposite.
facing-positions :
    (s t : Uuid) (h : ℕ) (xs : List Place)
    → s ≢ t
    → length xs ≡ h + h
    → occurs s xs ≡ 1
    → occurs t xs ≡ 1
    → Opposite h xs s t
unfolding round_pairs
facing-positions s t zero [] ne l os ot = absurd (omega arith)
facing-positions s t zero (x ∷ xs) ne l os ot = absurd (omega arith)
facing-positions s t (suc h) [] ne l os ot = absurd (omega arith)
facing-positions s t (suc h) (x ∷ []) ne l os ot = absurd (omega arith)
facing-positions s t (suc h) (x ∷ y ∷ ys) ne l os ot =
    let ne' : t ≢ s = λ e. ne (sym e) in
    let swap = Opposite-comm (suc h) (x ∷ y ∷ ys) s t in
    elim (Bool-cases (holds s x)) [
      | inl sx ↦ first-Opposite s t h x y ys ne os ot sx
      | inr sx ↦ elim (Bool-cases (holds t x)) [
        | inl tx ↦ swap (first-Opposite t s h x y ys ne' ot os tx)
        | inr tx ↦ elim (Bool-cases (holds s (last y ys))) [
          | inl sl ↦ last-Opposite s t h x y ys ne os ot sx tx sl
          | inr sl ↦ elim (Bool-cases (holds t (last y ys))) [
            | inl tl ↦ swap (last-Opposite t s h x y ys ne' ot os tx sx tl)
            | inr tl ↦
                let size = length-all_but_last y ys in
                let rest = facing-positions s t h (all_but_last y ys) ne (omega (arith, size)) in
                inside-Opposite s t h x y ys ne os ot rest sx tx sl tl
          ]
        ]
      ]
    ]

-- The matches between two teams, whatever the sides.
abbrev pub base_meets : Uuid → Uuid → BaseMatch → Bool
base_meets s t m = s == m.home && t == m.away || t == m.home && s == m.away

abbrev pub tally {ℓ} : {A : Type ℓ} → (A → Bool) → List A → ℕ
tally f [] = 0
tally f (x ∷ xs) = one_if (f x) + tally f xs

pub tally-append {ℓ} :
    {A : Type ℓ} (f : A → Bool) (xs ys : List A) → tally f (xs ++ ys) ≡ tally f xs + tally f ys
tally-append f [] ys = omega arith
tally-append f (x ∷ xs) ys = omega (arith, tally-append f xs ys)

base_match-meets :
    (s t : Uuid) (round index number : ℕ) (l r : Uuid)
    → base_meets s t (base_match round index number l r) ≡ met s t (some l, some r)
unfolding base_match
base_match-meets s t round index number l r = elim (Bool-cases ((round + index) % 2 == 0)) [
  | inl e ↦ ground arith
  | inr e ↦ ground arith
]

round_matches-facing :
    (s t : Uuid) (round index number : ℕ) (ps : List (Place × Place))
    → tally (base_meets s t) (round_matches round index number ps) ≡ facing s t ps
unfolding round_matches
round_matches-facing s t round index number [] = refl
round_matches-facing s t round index number ((some l, some r) ∷ ps) = ground (
  arith,
  base_match-meets s t round index (number + 1) l r,
  round_matches-facing s t round (index + 1) (number + 1) ps,
)
round_matches-facing s t round index number ((some l, none) ∷ ps) =
    ground (arith, round_matches-facing s t round (index + 1) number ps)
round_matches-facing s t round index number ((none, r) ∷ ps) =
    ground (arith, round_matches-facing s t round (index + 1) number ps)

pub base_matches-faced :
    (s t : Uuid) (k round h : ℕ) (xs : List Place)
    → s ≢ t
    → length xs ≡ suc h + suc h
    → occurs s xs ≡ 1
    → occurs t xs ≡ 1
    → tally (base_meets s t) (base_matches k round xs)
      ≡ faced (length xs - 1) k (position s xs) (position t xs)
unfolding base_matches faced
base_matches-faced s t zero round h xs ne l os ot = refl
base_matches-faced s t (suc k) round h xs ne l os ot =
    let half : length xs / 2 ≡ suc h = omega arith in
    let two : 2 ≤ length xs = omega arith in
    let rest =
      base_matches-faced s t k (round + 1) h (rotate xs) ne (length-rotate xs two ∙ l)
        (occurs-rotate s xs two ∙ os) (occurs-rotate t xs two ∙ ot) in
    rw
      (
        half,
        tally-append (base_meets s t) (round_matches round 0 0 (round_pairs (suc h) xs))
            (base_matches k (round + 1) (rotate xs)),
        round_matches-facing s t round 0 0 (round_pairs (suc h) xs),
        facing-positions s t (suc h) xs ne l os ot,
        rest,
        length-rotate xs two,
        position-rotate s xs two os,
        position-rotate t xs two ot,
      )
      refl
