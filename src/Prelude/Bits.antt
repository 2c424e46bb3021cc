-- ===== src/Prelude/Bits.antt =====
-- Masks and shifts of machine words: those that cut a field out of a word in the form that the
-- arithmetic reads, and the others by a table over all bytes.
use Prim.Native.Nat.{ℕ, zero, suc, ◌/◌, ◌%◌, ◌^◌, ◌<◌}
use mathlib.Core.Path.{◌≡◌}
use mathlib.Core.Bool.{Bool, true, ◌&&◌}
use native.Mathlib.Omega.{arith}
use foodie_note.Prelude.Tests.{◌==◌, ==_iff}

-- x >> k.
abbrev pub shr : ℕ → ℕ → ℕ
shr x k = x / 2 ^ k

-- x & (2 ^ k - 1).
abbrev pub low_bits : ℕ → ℕ → ℕ
low_bits x k = x % 2 ^ k

-- (x & mask) >> shift, where the mask has `width` ones above `shift` zeros.
abbrev pub field : ℕ → ℕ → ℕ → ℕ
field x shift width = (x / 2 ^ shift) % 2 ^ width

abbrev pub Byte : ℕ → Type 0
Byte x = x < 256

-- Over a small range, a test that holds by evaluation at every number below `n`.
unfoldable pub all_below : ℕ → (ℕ → Bool) → Bool
all_below zero test = true
all_below (suc n) test = all_below n test && test n

pub all_below_sound :
    (bound : ℕ) (test : ℕ → Bool) (value : ℕ)
    → all_below bound test ≡ true
    → value < bound
    → test value ≡ true
unfolding all_below
all_below_sound zero test value all small = absurd (omega arith)
all_below_sound (suc n) test value all small = ground (arith, all_below_sound n test value)

-- Two functions that agree by evaluation below `n` agree there.
pub eq_below :
    (n : ℕ) (f g : ℕ → ℕ) (x : ℕ) → all_below n (λ y. f y == g y) ≡ true → x < n → f x ≡ g x
eq_below n f g x h lt = (==_iff (f x) (g x)).0 (all_below_sound n (λ y. f y == g y) x h lt)
