-- ===== src/Schedule/RoundRobin/Circle.antt =====
-- The circle method on positions alone: two places meet exactly once in a full turn.
use bracket_craft.Prelude.{
  ℕ, zero, suc, ◌+◌, ◌-◌, ◌*◌, ◌/◌, ◌%◌, ◌≤◌, ◌<◌, ◌≡◌, ◌≢◌, inl, inr, Bool, true, false, arith,
  ltb, leb, ◌==◌, if◌then◌else◌, ==_iff, Bool-cases,
}

abbrev pub one_if : Bool → ℕ
one_if true = 1
one_if false = 0

-- Where the place at `p` stands after a rotation of `m + 1` places.
unfoldable pub moved : ℕ → ℕ → ℕ
moved m p = if p == 0 then 0 else if p == m then 1 else p + 1

-- How often `p` and `q` stand opposite in `k` rounds: opposite places add up to `m`.
unfoldable pub faced : ℕ → ℕ → ℕ → ℕ → ℕ
faced m zero p q = 0
faced m (suc k) p q = one_if (p + q == m) + faced m k (moved m p) (moved m q)

-- In how many rounds they face each other next, for `m` odd.
until : ℕ → ℕ → ℕ → ℕ
until m p q =
    if p == 0
    then m - q
    else if q == 0
    then m - p
    else if (p + q) % 2 == 0
    then (2 * m - (p + q)) / 2
    else if leb (p + q) m
    then (m - (p + q)) / 2
    else (3 * m - (p + q)) / 2

record Apart (m p q : ℕ) : Type 0 where
  odd : m % 2 ≡ 1
  fits_p : p ≤ m
  fits_q : q ≤ m
  apart : p ≢ q

moved-Apart : (m p q : ℕ) → Apart m p q → Apart m (moved m p) (moved m q)
unfolding moved
moved-Apart m p q a = record {
  odd = a.odd;
  fits_p = ground arith;
  fits_q = ground arith;
  apart = ground arith;
}

until-zero : (m p q : ℕ) → Apart m p q → p + q ≡ m → until m p q ≡ 0
unfolding until
until-zero m p q a h = ground arith

until-pos : (m p q : ℕ) → Apart m p q → p + q ≢ m → 0 < until m p q
unfolding until
until-pos m p q a h = ground arith

until-moved :
    (m p q : ℕ) → Apart m p q → p + q ≢ m → until m p q ≡ suc (until m (moved m p) (moved m q))
unfolding until moved
until-moved m p q a h = elim (Bool-cases (p == 0)) [
  | inl p0 ↦
      rw p0 (elim (Bool-cases (q == m)) [
        | inl qm ↦ rw qm (ground arith)
        | inr qm ↦ rw qm (ground arith)
      ])
  | inr p0 ↦ elim (Bool-cases (q == 0)) [
    | inl q0 ↦
        rw (p0, q0)
          (elim (Bool-cases (p == m)) [
            | inl pm ↦ rw pm (ground arith)
            | inr pm ↦ rw pm (ground arith)
          ])
    | inr q0 ↦ elim (Bool-cases (p == m)) [
      | inl pm ↦ rw (p0, q0, pm) (ground arith)
      | inr pm ↦ elim (Bool-cases (q == m)) [
        | inl qm ↦ rw (p0, q0, pm, qm) (ground arith)
        | inr qm ↦ rw (p0, q0, pm, qm) (ground arith)
      ]
    ]
  ]
]

until-again : (m p q : ℕ) → Apart m p q → p + q ≡ m → m ≡ suc (until m (moved m p) (moved m q))
unfolding until moved
until-again m p q a h = ground arith

until-lt : (m p q : ℕ) → Apart m p q → until m p q < m
unfolding until
until-lt m p q a = ground arith

faced-until : (m k p q : ℕ) → Apart m p q → k ≤ m → faced m k p q ≡ one_if (ltb (until m p q) k)
unfolding faced
faced-until m zero p q a h = ground arith
faced-until m (suc k) p q a h =
    let rest = faced-until m k (moved m p) (moved m q) (moved-Apart m p q a) (omega arith) in
    elim (Bool-cases (p + q == m)) [
      | inl met ↦
          let e = (==_iff (p + q) m).0 met in
          ground (arith, rest, until-zero m p q a e, until-again m p q a e)
      | inr not_met ↦
          let ne : p + q ≢ m = ground arith in ground (arith, rest, until-moved m p q a ne)
    ]

-- In the `m` rounds of a full turn two places face each other once.
pub faced_once : (m p q : ℕ) → m % 2 ≡ 1 → p ≤ m → q ≤ m → p ≢ q → faced m m p q ≡ 1
faced_once m p q odd fp fq ne =
    let a : Apart m p q = record { odd = odd; fits_p = fp; fits_q = fq; apart = ne } in
    ground (arith, faced-until m m p q a, until-lt m p q a)
