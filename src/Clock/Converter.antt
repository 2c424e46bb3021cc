-- ===== src/Clock/Converter.antt =====
-- listener/src/main/jni/pvmi/media_clock_converter.h and .cpp: MediaClockConverter. A uint32 or
-- uint64 is its value, with the wrap of the arithmetic written out; OSCL_LEAVE ends the call with a
-- value of its own, and the assertions in front of it are left out.
use foodie_note.Prelude.{
  ℕ, ◌+◌, ◌-◌, ◌*◌, ◌/◌, ◌%◌, ◌^◌, Bool, true, false, List, [], ◌∷◌, ltb, leb, ◌==◌, if◌then◌else◌,
}

pub record Clock : Type 0 where
  pub timescale : ℕ
  pub current_ts : ℕ
  pub wrap_count : ℕ

-- OSCL_LEAVE (OsclErrArgument) and OSCL_LEAVE (OsclErrCorrupt).
pub data Leave : Type 0 where
  err_argument err_corrupt : Leave

pub data Outcome {ℓ} (A : Type ℓ) : Type ℓ where
  done : A → Outcome A
  leave : Leave → Outcome A

abbrev pub wrap_threshold : ℕ
wrap_threshold = 0x80000000

abbrev pub misorder_threshold : ℕ
misorder_threshold = 0x80000000

-- A scaled value, rounded up: (value * mul + (div - 1)) / div in uint64.
unfoldable pub scale_up : ℕ → ℕ → ℕ → ℕ
scale_up value mul div = (value * mul + (div - 1)) % 2 ^ 64 / div

-- The two last lines of the setters: the wrap count from the high word, the timestamp from the low.
unfoldable pub split : ℕ → ℕ → Clock
split timescale value = record {
  timescale = timescale;
  current_ts = value % 2 ^ 32;
  wrap_count = value / 2 ^ 32 % 2 ^ 32 % timescale;
}

-- The constructors.
unfoldable pub new_clock : ℕ → ℕ → Outcome Clock
new_clock in_timescale init_ts =
    if in_timescale == 0
    then leave err_argument
    else done (record { timescale = in_timescale; current_ts = init_ts; wrap_count = 0 })

unfoldable pub copy_clock : Clock → Outcome Clock
copy_clock a = if a.timescale == 0 then leave err_corrupt else done a

-- The assignment operator, from another clock.
unfoldable pub assign : Clock → Clock → Outcome Clock
assign c a = if a.timescale == 0 then leave err_corrupt else done a

-- set_clock: how it ends, and the clock, whose timestamp is set before the timescale is looked at.
unfoldable pub set_clock : Clock → ℕ → ℕ → Outcome (Unit {0}) × Clock
set_clock c init_ts in_wrap_count =
    let set = record c { current_ts = init_ts } in
    if c.timescale == 0
    then (leave err_corrupt, set)
    else (done tt, record set { wrap_count = in_wrap_count % c.timescale })

-- set_value.
unfoldable pub set_value : Clock → Clock → Outcome Clock
unfolding scale_up split
set_value c src =
    if src.timescale == 0
    then leave err_corrupt
    else if c.timescale == 0
    then leave err_corrupt
    else done (
        split c.timescale
          (scale_up (src.wrap_count * 2 ^ 32 + src.current_ts) c.timescale src.timescale))

-- set_timescale.
unfoldable pub set_timescale : Clock → ℕ → Outcome Clock
unfolding scale_up split
set_timescale c new_timescale =
    if new_timescale == 0
    then leave err_argument
    else if c.timescale == 0
    then leave err_corrupt
    else done (
        split new_timescale
          (scale_up (c.wrap_count * 2 ^ 32 + c.current_ts) new_timescale c.timescale))

-- set_clock_other_timescale.
unfoldable pub set_clock_other_timescale : Clock → ℕ → ℕ → Outcome Clock
unfolding scale_up split
set_clock_other_timescale c value in_timescale =
    if in_timescale == 0
    then leave err_argument
    else if c.timescale == 0
    then leave err_corrupt
    else done (split c.timescale (scale_up value c.timescale in_timescale))

-- update_clock: the result, and the clock behind the call.
unfoldable pub update_clock : Clock → ℕ → Bool × Clock
update_clock c new_ts =
    let diff = (2 ^ 32 + new_ts - c.current_ts) % 2 ^ 32 in
    let next = (c.wrap_count + 1) % 2 ^ 32 in
    if ltb new_ts c.current_ts
    then (if ltb diff wrap_threshold
        then (
          true,
          record c { current_ts = new_ts; wrap_count = if leb c.timescale next then 0 else next },
        )
        else (false, c))
    else (if ltb diff misorder_threshold
        then (true, record c { current_ts = new_ts })
        else (false, c))

-- get_timediff_and_update_clock (value, output_timescale): the difference, and the clock.
unfoldable pub get_timediff : Clock → ℕ → ℕ → Outcome (ℕ × Clock)
unfolding scale_up update_clock
get_timediff c value output_timescale =
    let diff = (2 ^ 32 + value - c.current_ts) % 2 ^ 32 in
    let updated = update_clock c value in
    if c.timescale == 0
    then leave err_corrupt
    else done
        (if updated.0 then scale_up diff output_timescale c.timescale % 2 ^ 32 else 0, updated.1)

-- get_timediff_and_update_clock (value, in_timescale, output_timescale).
unfoldable pub get_timediff_from : Clock → ℕ → ℕ → ℕ → Outcome (ℕ × Clock)
unfolding get_timediff
get_timediff_from c value in_timescale output_timescale =
    if in_timescale == 0
    then leave err_argument
    else get_timediff c (scale_up value c.timescale in_timescale % 2 ^ 32) output_timescale

-- get_converted_ts.
unfoldable pub get_converted_ts : Clock → ℕ → Outcome ℕ
unfolding scale_up
get_converted_ts c new_timescale =
    if c.timescale == 0
    then leave err_corrupt
    else done (scale_up (c.wrap_count * 2 ^ 32 + c.current_ts) new_timescale c.timescale % 2 ^ 32)

-- The operations of the class that change a clock, and a call of one.
pub data Call : Type 0 where
  call_set_clock call_set_clock_other_timescale call_get_timediff : ℕ → ℕ → Call
  call_set_timescale call_update_clock : ℕ → Call
  call_get_timediff_from : ℕ → ℕ → ℕ → Call
  call_set_value call_assign : Clock → Call

-- The clock behind a call that changes nothing where it leaves.
abbrev kept : Clock → Outcome Clock → Clock
kept c (done d) = d
kept c (leave e) = c

abbrev kept_with : Clock → Outcome (ℕ × Clock) → Clock
kept_with c (done (x, d)) = d
kept_with c (leave e) = c

unfoldable pub step : Clock → Call → Clock
unfolding set_clock set_clock_other_timescale get_timediff set_timescale update_clock
    get_timediff_from set_value assign
step c (call_set_clock ts wraps) = (set_clock c ts wraps).1
step c (call_set_clock_other_timescale value scale) =
    kept c (set_clock_other_timescale c value scale)
step c (call_get_timediff value out) = kept_with c (get_timediff c value out)
step c (call_set_timescale scale) = kept c (set_timescale c scale)
step c (call_update_clock ts) = (update_clock c ts).1
step c (call_get_timediff_from value scale out) = kept_with c (get_timediff_from c value scale out)
step c (call_set_value src) = kept c (set_value c src)
step c (call_assign a) = kept c (assign c a)

unfoldable pub run : Clock → List Call → Clock
unfolding step
run c [] = c
run c (call ∷ calls) = run (step c call) calls
