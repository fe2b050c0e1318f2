-- ===== src/Prelude/Errors.antt =====
-- Code that raises: the value, or the exception, with `do` blocks.
use bracket_craft.Prelude.{◌≡◌, refl, Bool, true, false}

pub data Result {ℓ} (E : Type 0) (A : Type ℓ) : Type ℓ where
  ok : A → Result E A
  raise : E → Result E A

-- A statement after which the code only goes on if it raised nothing.
infixl 5 ◌>>=◌ ◌>>◌
abbrev pub ◌>>=◌ {ℓ κ} :
    {E : Type 0} {X : Type ℓ} {Y : Type κ} → Result E X → (X → Result E Y) → Result E Y
raise problem >>= after = raise problem
ok value >>= after = after value

abbrev pub ◌>>◌ {κ} : {E : Type 0} {Y : Type κ} → Result E (Unit {0}) → Result E Y → Result E Y
check >> after = check >>= λ _. after

-- `if bad: raise problem`
abbrev pub raise_if : {E : Type 0} → Bool → E → Result E (Unit {0})
raise_if false problem = ok tt
raise_if true problem = raise problem

-- A `do` block that returned went through its first statement.
pub went_on {ℓ κ} :
    {E : Type 0} {X : Type ℓ} {Y : Type κ} (first : Result E X) (after : X → Result E Y) {y : Y}
    → (first >>= after) ≡ ok y
    → (x : X) × (first ≡ ok x) × (after x ≡ ok y)
went_on (raise problem) after returned = cc
went_on (ok value) after returned = (value, refl, returned)

pub ok_injective {ℓ} :
    {E : Type 0} {X : Type ℓ} {x y : X} → ◌≡◌ {A = Result E X} (ok x) (ok y) → x ≡ y
ok_injective h = cc

-- Code that returned passed its guard.
pub went_past {κ} :
    {E : Type 0} {Y : Type κ} (bad : Bool) (problem : E) (after : Result E Y) {y : Y}
    → (raise_if bad problem >> after) ≡ ok y
    → (bad ≡ false) × (after ≡ ok y)
went_past true problem after returned = cc
went_past false problem after returned = (refl, returned)
