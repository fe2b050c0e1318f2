-- ===== src/Rules/Suspensions/Steps.antt =====
-- How the number of passed thresholds grows with a balance.
use bracket_craft.Prelude.{
  ℕ, zero, suc, ◌+◌, ◌-◌, ◌/◌, ◌%◌, ◌≤◌, ◌<◌, ◌≡◌, refl, ap, ◌∙◌, subst, inl, inr, arith, ltb, ◌==◌,
  if◌then◌else◌, ==_iff, Bool-cases,
}
use native.Mathlib.Nat.{
  div-eq_of_lt, mod-eq_of_lt, div_self, mod_self, div-eq-sub-div, mod-eq-sub-mod,
}

-- One more yellow card passes a threshold when the new balance is a multiple of the limit.
abbrev pub Steps : ℕ → ℕ → Type 0
Steps limit y = suc y / limit ≡ (if suc y % limit == 0 then suc (y / limit) else y / limit)

Steps-low : (limit y : ℕ) → y < limit → Steps limit y
Steps-low limit y h = elim (Bool-cases (suc y == limit)) [
  | inl hit ↦
      let e : suc y ≡ limit = (==_iff (suc y) limit).0 hit in
      let new : suc y / limit ≡ 1 = subst (λ l. suc y / l ≡ 1) e (div_self (omega arith)) in
      let old : y / limit ≡ 0 = div-eq_of_lt (omega arith) in
      let rest : suc y % limit ≡ 0 = subst (λ l. suc y % l ≡ 0) e (mod_self (suc y)) in
      rw (new, old, rest) refl
  | inr below ↦
      let new : suc y / limit ≡ 0 = div-eq_of_lt (ground arith) in
      let old : y / limit ≡ 0 = div-eq_of_lt (omega arith) in
      let rest : suc y % limit ≡ suc y = mod-eq_of_lt (ground arith) in
      rw (new, old, rest) (ground arith)
]

Steps-next : (limit y : ℕ) → 0 < limit → limit ≤ y → Steps limit (y - limit) → Steps limit y
Steps-next limit y h le before =
    let shift : suc y - limit ≡ suc (y - limit) = omega arith in
    let new : suc y / limit ≡ suc (y - limit) / limit + 1 =
      div-eq-sub-div h (omega arith) ∙ ap (λ n. n / limit + 1) shift in
    let old : y / limit ≡ (y - limit) / limit + 1 = div-eq-sub-div h le in
    let rest : suc y % limit ≡ suc (y - limit) % limit =
      mod-eq-sub-mod (omega arith) ∙ ap (λ n. n % limit) shift in
    elim (Bool-cases (suc (y - limit) % limit == 0)) [
      | inl hit ↦
          let b : suc (y - limit) / limit ≡ suc ((y - limit) / limit) = before ∙ rw hit refl in
          rw (new, old, rest, hit) (ap (λ n. n + 1) b ∙ omega arith)
      | inr miss ↦
          let b : suc (y - limit) / limit ≡ (y - limit) / limit = before ∙ rw miss refl in
          rw (new, old, rest, miss) (ap (λ n. n + 1) b)
    ]

pub Steps-all : (fuel limit y : ℕ) → 0 < limit → y < fuel → Steps limit y
Steps-all zero limit y h f = absurd (omega arith)
Steps-all (suc fuel) limit y h f = elim (Bool-cases (ltb y limit)) [
  | inl low ↦ Steps-low limit y (ground arith)
  | inr high ↦
      Steps-next limit y h (ground arith) (Steps-all fuel limit (y - limit) h (ground arith))
]
