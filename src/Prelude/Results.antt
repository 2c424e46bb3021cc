-- ===== src/Prelude/Results.antt =====
-- Results of C code that may leave the defined behaviour: a fault is a value.

pub data Fault : Type 0 where
  out_of_bounds division_by_zero undefined_shift signed_overflow : Fault

pub data Result {ℓ} (A : Type ℓ) : Type ℓ where
  ok : A → Result A
  fault : Fault → Result A

infixl 5 ◌>>=◌
abbrev pub ◌>>=◌ {ℓ κ} : {A : Type ℓ} {B : Type κ} → Result A → (A → Result B) → Result B
ok a >>= f = f a
fault e >>= f = fault e
