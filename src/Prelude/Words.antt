-- ===== src/Prelude/Words.antt =====
-- Facts about `bit_or` at variables: the digit recursion, and the union of two words whose ones
-- stand in different places.
use Prim.Native.Nat.{
  ℕ, zero, suc, ◌+◌, ◌-◌, ◌*◌, ◌/◌, ◌%◌, ◌^◌, ◌≤◌, ◌<◌, max, bit_or, digits, bit_or-bitwise,
}
use mathlib.Core.Path.{◌≡◌, refl}
use native.Mathlib.Omega.{arith}
use native.Mathlib.Nat.{pow-suc}

-- The digits of the union, with fuel for the first word.
abbrev or_digits : ℕ → ℕ → ℕ → ℕ
or_digits n a b = digits (λ b. b) max n a b

or_digits_once : (n x y : ℕ) → x ≤ n → or_digits (suc n) x y ≡ or_digits n x y
or_digits_once zero zero y h = refl
or_digits_once (suc n) zero y h = refl
or_digits_once zero (suc x) y h = absurd (omega arith)
or_digits_once (suc n) (suc x) y h =
    omega (arith, or_digits_once n (suc x / 2) (y / 2) (omega arith))

or_digits_enough : (more m n x y : ℕ) → m ≡ n + more → x ≤ n → or_digits m x y ≡ or_digits n x y
or_digits_enough zero m n x y e h = let same : m ≡ n = omega arith in rw same refl
or_digits_enough (suc more) zero n x y e h = absurd (omega arith)
or_digits_enough (suc more) (suc m) n x y e h =
    omega (arith, or_digits_once m x y (omega arith), or_digits_enough more m n x y (omega arith) h)

zero-bit_or : (b : ℕ) → bit_or 0 b ≡ b
zero-bit_or b = bit_or-bitwise 0 b

pub bit_or_step : (a b : ℕ) → bit_or a b ≡ bit_or (a / 2) (b / 2) * 2 + max (a % 2) (b % 2)
bit_or_step zero b = omega (arith, zero-bit_or b, zero-bit_or (b / 2))
bit_or_step (suc a) b = omega (
  arith,
  bit_or-bitwise (suc a) b,
  bit_or-bitwise (suc a / 2) (b / 2),
  or_digits_enough (a - suc a / 2) a (suc a / 2) (suc a / 2) (b / 2) (omega arith) (omega arith),
)

bit_or-zero_below : (n a : ℕ) → a ≤ n → bit_or a 0 ≡ a
bit_or-zero_below zero a h = let e : a ≡ 0 = omega arith in rw e (zero-bit_or 0)
bit_or-zero_below (suc n) zero h = zero-bit_or 0
bit_or-zero_below (suc n) (suc a) h =
    omega (arith, bit_or_step (suc a) 0, bit_or-zero_below n (suc a / 2) (omega arith))

bit_or-zero : (a : ℕ) → bit_or a 0 ≡ a
bit_or-zero a = bit_or-zero_below a a (omega arith)

-- The word `a << k` and a word below `2 ^ k`: their union is their sum.
pub bit_or_disjoint : (k a b : ℕ) → b < 2 ^ k → bit_or (a * 2 ^ k) b ≡ a * 2 ^ k + b
bit_or_disjoint zero a b h =
    let e : b ≡ 0 = omega arith in
    let f : a * 2 ^ 0 ≡ a = omega arith in rw (e, f) (rw (bit_or-zero a) (omega arith))
bit_or_disjoint (suc k) a b h =
    let half : a * 2 ^ suc k / 2 ≡ a * 2 ^ k = rw (pow-suc 2 k) (omega arith) in
    let even : a * 2 ^ suc k % 2 ≡ 0 = rw (pow-suc 2 k) (omega arith) in
    let low : b / 2 < 2 ^ k = omega (arith, pow-suc 2 k) in
    let rest : bit_or (a * 2 ^ suc k / 2) (b / 2) ≡ a * 2 ^ k + b / 2 =
      rw half (bit_or_disjoint k a (b / 2) low) in
    omega (arith, bit_or_step (a * 2 ^ suc k) b, pow-suc 2 k)
