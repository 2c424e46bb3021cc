-- ===== src/Clock/Time.antt =====
-- What the clock's timestamp and wrap count stand for: ticks since the start, through the wraps of a
-- 32-bit timestamp.
use native.Mathlib.Nat.{mod-lt, mod-add-div', mod-eq_of_lt}
use foodie_note.Clock.Converter.{Clock, done, set_timescale, update_clock, split, scale_up}
use foodie_note.Clock.Invariant.{IsClock}
use foodie_note.Prelude.{
  ℕ, ◌+◌, ◌-◌, ◌*◌, ◌/◌, ◌%◌, ◌^◌, ◌≤◌, ◌<◌, ◌≡◌, ◌⊎◌, refl, arith, true, false, ◌==◌,
}

abbrev pub ticks : Clock → ℕ
ticks c = c.wrap_count * 2 ^ 32 + c.current_ts

-- A timestamp that is `d` ticks ahead of the clock, modulo 2 ^ 32, with d below 2 ^ 31, is taken: the
-- ticks grow by `d`, also through a wrap of the timestamp, or they start again behind `timescale`
-- wraps.
pub update_clock_forward :
    (c : Clock) (d : ℕ)
    → IsClock c
    → d < 2 ^ 31
    → ((update_clock c ((c.current_ts + d) % 2 ^ 32)).0 ≡ true)
      × ((ticks (update_clock c ((c.current_ts + d) % 2 ^ 32)).1 ≡ ticks c + d)
          ⊎ (ticks (update_clock c ((c.current_ts + d) % 2 ^ 32)).1 + c.timescale * 2 ^ 32
              ≡ ticks c + d))
unfolding update_clock
update_clock_forward c d h small =
    let scaled = h.scaled in
    let timescale_word = h.timescale_word in
    let ts_word = h.ts_word in let wrapped = h.wrapped in ground arith

-- A timestamp that is `d` ticks behind the clock, modulo 2 ^ 32, with d from 1 to 2 ^ 31, is refused:
-- the clock stays as it is.
pub update_clock_backward :
    (c : Clock) (d : ℕ)
    → IsClock c
    → 0 < d
    → d ≤ 2 ^ 31
    → update_clock c ((2 ^ 32 + c.current_ts - d) % 2 ^ 32) ≡ (false, c)
unfolding update_clock
update_clock_backward c d h some_ticks small = let ts_word = h.ts_word in ground arith

-- A rounded quotient: the least multiple of `t` from `x` on is q * t.
round_up : (x t : ℕ) → 0 < t → (x ≤ (x + (t - 1)) / t * t) × ((x + (t - 1)) / t * t < x + t)
round_up x t pos = omega (arith, mod-add-div' (x + (t - 1)) t, mod-lt (x + (t - 1)) pos)

-- A change of the timescale to `n`, where the scaled ticks fit into 64 bits and the new wrap count
-- stays below `n`: the new ticks, at the new scale, are those of the old scale, rounded up.
pub set_timescale-ticks :
    (c : Clock) (n : ℕ)
    → IsClock c
    → 0 < n
    → ticks c * n + c.timescale < 2 ^ 64
    → (ticks c * n + (c.timescale - 1)) / c.timescale < n * 2 ^ 32
    → n < 2 ^ 32
    → (d : Clock) × (set_timescale c n ≡ done d)
      × (d.timescale ≡ n)
      × (ticks c * n ≤ ticks d * c.timescale)
      × (ticks d * c.timescale < ticks c * n + c.timescale)
unfolding set_timescale split scale_up
set_timescale-ticks c n h pos fits wraps word =
    let x = ticks c * n in
    let q = (x + (c.timescale - 1)) / c.timescale in
    let scaled = h.scaled in
    let whole : (x + (c.timescale - 1)) % 2 ^ 64 ≡ x + (c.timescale - 1) = omega arith in
    let high : q / 2 ^ 32 % 2 ^ 32 % n ≡ q / 2 ^ 32 =
      (let below : q / 2 ^ 32 < n = omega arith in
        let e : q / 2 ^ 32 % 2 ^ 32 ≡ q / 2 ^ 32 = omega arith in rw e (mod-eq_of_lt below)) in
    let same : q / 2 ^ 32 * 2 ^ 32 + q % 2 ^ 32 ≡ q = omega arith in
    let old : (c.timescale == 0) ≡ false = ground arith in
    let new : (n == 0) ≡ false = ground arith in
    let d : Clock = record { timescale = n; current_ts = q % 2 ^ 32; wrap_count = q / 2 ^ 32 } in
    let bounds = round_up x c.timescale scaled in
    (d, rw (new, old, whole, high) refl, refl, rw same bounds.0, rw same bounds.1)
