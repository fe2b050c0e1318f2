-- ===== src/Schedule/SingleElimination/Sizes.antt =====
-- The size of a bracket and the number of its rounds.
use bracket_craft.Prelude.{
  ℕ, zero, suc, ◌-◌, ◌*◌, ◌/◌, ◌^◌, ◌≤◌, ◌<◌, ◌≡◌, refl, ap, subst, inl, inr, false, arith, ◌==◌,
  Bool-cases,
}
use bracket_craft.Schedule.Brackets.{bit_length_in, bit_length, next_power_of_two}

pub pow_suc : (k : ℕ) → 2 ^ suc k ≡ 2 * 2 ^ k
pow_suc k = omega arith

pub pow_pos : (k : ℕ) → 0 < 2 ^ k
pow_pos zero = omega arith
pow_pos (suc k) = omega (arith, pow_suc k, pow_pos k)

bit_length_in-zero : (fuel : ℕ) → bit_length_in fuel 0 ≡ 0
unfolding bit_length_in
bit_length_in-zero zero = refl
bit_length_in-zero (suc fuel) = refl

bit_length_in-bounds :
    (fuel n : ℕ)
    → n ≤ fuel
    → (n < 2 ^ bit_length_in fuel n) × (0 < n → 2 ^ bit_length_in fuel n ≤ 2 * n)
unfolding bit_length_in
bit_length_in-bounds zero n h = (omega arith, λ p. absurd (omega arith))
bit_length_in-bounds (suc fuel) n h = elim (Bool-cases (n == 0)) [
  | inl e ↦ (rw e (ground arith), λ p. absurd (ground arith))
  | inr e ↦
      let (up, down) = bit_length_in-bounds fuel (n / 2) (ground arith) in
      let step = pow_suc (bit_length_in fuel (n / 2)) in
      elim (Bool-cases (n / 2 == 0)) [
        | inl one ↦
            let z : n / 2 ≡ 0 = ground arith in
            let low = bit_length_in-zero fuel in
            (rw (e, z, low) (ground arith), λ p. rw (e, z, low) (ground arith))
        | inr more ↦ (rw e (ground arith), λ p. rw e (ground arith))
      ]
]

pub bit_length_in-pow : (fuel k : ℕ) → 2 ^ k ≤ fuel → bit_length_in fuel (2 ^ k) ≡ suc k
unfolding bit_length_in
bit_length_in-pow zero k h = absurd (omega (arith, pow_pos k))
bit_length_in-pow (suc fuel) zero h = ap suc (bit_length_in-zero fuel)
bit_length_in-pow (suc fuel) (suc k) h =
    let half : 2 ^ suc k / 2 ≡ 2 ^ k = omega (arith, pow_suc k) in
    let positive : (2 ^ suc k == 0) ≡ false = ground (arith, pow_pos (suc k)) in
    rw (positive, half) (ap suc (bit_length_in-pow fuel k (omega (arith, pow_suc k, pow_pos k))))

-- A bracket for two or more teams has room for them, less than twice as much, and its rounds
-- halve it down to one.
pub size-bounds :
    (n : ℕ)
    → 2 ≤ n
    → (k : ℕ) × (next_power_of_two n ≡ 2 ^ suc k)
      × (bit_length (next_power_of_two n) - 1 ≡ suc k)
      × (n ≤ 2 ^ suc k)
      × (2 ^ k < n)
unfolding next_power_of_two bit_length
size-bounds n two = go (bit_length_in (n - 1) (n - 1)) refl
  where
    go :
        (b : ℕ)
        → bit_length_in (n - 1) (n - 1) ≡ b
        → (k : ℕ) × (2 ^ bit_length_in (n - 1) (n - 1) ≡ 2 ^ suc k)
          × (bit_length_in (2 ^ bit_length_in (n - 1) (n - 1)) (2 ^ bit_length_in (n - 1) (n - 1))
                - 1
              ≡ suc k)
          × (n ≤ 2 ^ suc k)
          × (2 ^ k < n)
    go zero e =
        let (up, down) = bit_length_in-bounds (n - 1) (n - 1) (omega arith) in
        let bad : n - 1 < 2 ^ 0 = subst (λ b. n - 1 < 2 ^ b) e up in absurd (omega arith)
    go (suc k) e =
        let (up, down) = bit_length_in-bounds (n - 1) (n - 1) (omega arith) in
        let low : n - 1 < 2 ^ suc k = subst (λ b. n - 1 < 2 ^ b) e up in
        let high : 2 ^ suc k ≤ 2 * (n - 1) =
          subst (λ b. 2 ^ b ≤ 2 * (n - 1)) e (down (omega arith)) in
        (
          k,
          ap (λ b. 2 ^ b) e,
          rw (e, bit_length_in-pow (2 ^ suc k) (suc k) (omega arith)) (omega arith),
          omega arith,
          omega (arith, pow_suc k),
        )
