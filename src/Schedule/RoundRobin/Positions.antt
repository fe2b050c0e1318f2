-- ===== src/Schedule/RoundRobin/Positions.antt =====
-- Where a team stands in the rotation, and how a round and a step of the rotation act on that.
use bracket_craft.Prelude.{
  all_but_last, last, ℕ, suc, ◌+◌, ◌-◌, ◌≤◌, ◌<◌, ◌≡◌, refl, ap, inl, inr, Bool, true, false, none,
  some, List, [], ◌∷◌, arith, ◌==◌, if◌then◌else◌, ==_iff, Bool-cases, length,
}
use bracket_craft.Prelude.Teams.{Uuid}
use bracket_craft.Schedule.RoundRobin.{Place, rotate}
use bracket_craft.Schedule.RoundRobin.Circle.{one_if, moved}

abbrev pub holds : Uuid → Place → Bool
holds t none = false
holds t (some s) = t == s

-- How many places hold the team.
abbrev pub occurs : Uuid → List Place → ℕ
occurs t [] = 0
occurs t (x ∷ xs) = one_if (holds t x) + occurs t xs

-- The first place that holds the team, or the length.
abbrev pub position : Uuid → List Place → ℕ
position t [] = 0
position t (x ∷ xs) = if holds t x then 0 else suc (position t xs)

pub length-all_but_last : (y : Place) (ys : List Place) → length (all_but_last y ys) ≡ length ys
length-all_but_last y [] = refl
length-all_but_last y (z ∷ ys) = ap suc (length-all_but_last z ys)

pub occurs-last :
    (t : Uuid) (y : Place) (ys : List Place)
    → occurs t (all_but_last y ys) + one_if (holds t (last y ys)) ≡ occurs t (y ∷ ys)
occurs-last t y [] = omega arith
occurs-last t y (z ∷ ys) = omega (arith, occurs-last t z ys)

pub position-inner :
    (t : Uuid) (y : Place) (ys : List Place)
    → 0 < occurs t (all_but_last y ys)
    → position t (y ∷ ys) ≡ position t (all_but_last y ys)
position-inner t y [] h = absurd (omega arith)
position-inner t y (z ∷ ys) h = ground (arith, position-inner t z ys)

pub position-last :
    (t : Uuid) (y : Place) (ys : List Place)
    → occurs t (all_but_last y ys) ≡ 0
    → holds t (last y ys) ≡ true
    → position t (y ∷ ys) ≡ length ys
position-last t y [] h k = ground arith
position-last t y (z ∷ ys) h k = ground (arith, position-last t z ys)

pub position-lt : (t : Uuid) (xs : List Place) → 0 < occurs t xs → position t xs < length xs
position-lt t [] h = absurd (omega arith)
position-lt t (x ∷ xs) h = ground (arith, position-lt t xs)

pub position-injective :
    (s t : Uuid) (xs : List Place) → 0 < occurs s xs → position s xs ≡ position t xs → s ≡ t
position-injective s t [] h e = absurd (omega arith)
position-injective s t (none ∷ xs) h e = position-injective s t xs (omega arith) (omega arith)
position-injective s t (some x ∷ xs) h e = elim (Bool-cases (s == x)) [
  | inl a ↦ elim (Bool-cases (t == x)) [
    | inl b ↦ ground (arith, ==_iff s x, ==_iff t x)
    | inr b ↦ absurd (ground arith)
  ]
  | inr a ↦ elim (Bool-cases (t == x)) [
    | inl b ↦ absurd (ground arith)
    | inr b ↦ position-injective s t xs (ground arith) (ground arith)
  ]
]

pub occurs-rotate :
    (t : Uuid) (xs : List Place) → 2 ≤ length xs → occurs t (rotate xs) ≡ occurs t xs
unfolding rotate
occurs-rotate t [] h = absurd (omega arith)
occurs-rotate t (x ∷ []) h = absurd (omega arith)
occurs-rotate t (x ∷ y ∷ ys) h = omega (arith, occurs-last t y ys)

pub length-rotate : (xs : List Place) → 2 ≤ length xs → length (rotate xs) ≡ length xs
unfolding rotate
length-rotate [] h = absurd (omega arith)
length-rotate (x ∷ []) h = absurd (omega arith)
length-rotate (x ∷ y ∷ ys) h = omega (arith, length-all_but_last y ys)

-- A step of the rotation moves each team by one place, round the first.
pub position-rotate :
    (t : Uuid) (xs : List Place)
    → 2 ≤ length xs
    → occurs t xs ≡ 1
    → position t (rotate xs) ≡ moved (length xs - 1) (position t xs)
unfolding rotate moved
position-rotate t [] h o = absurd (omega arith)
position-rotate t (x ∷ []) h o = absurd (omega arith)
position-rotate t (x ∷ y ∷ ys) h o = elim (Bool-cases (holds t x)) [
  | inl first ↦ ground arith
  | inr not_first ↦ elim (Bool-cases (holds t (last y ys))) [
    | inl at_end ↦
        let gone : occurs t (all_but_last y ys) ≡ 0 = ground (arith, occurs-last t y ys) in
        ground (arith, position-last t y ys gone at_end)
    | inr inside ↦
        let here : 0 < occurs t (all_but_last y ys) = ground (arith, occurs-last t y ys) in
        ground (
          arith,
          position-inner t y ys here,
          position-lt t (all_but_last y ys) here,
          length-all_but_last y ys,
        )
  ]
]
