-- ===== src/Clock/Invariant.antt =====
-- The state of a clock that was constructed stays well-formed under every sequence of calls.
use native.Mathlib.Nat.{mod-lt}
use foodie_note.Clock.Converter.{
  Clock, Outcome, done, leave, err_corrupt, new_clock, set_clock, set_value, set_timescale,
  set_clock_other_timescale, update_clock, get_timediff, get_timediff_from, assign, split, Call,
  call_set_clock, call_set_clock_other_timescale, call_get_timediff, call_set_timescale,
  call_update_clock, call_get_timediff_from, call_set_value, call_assign, step, run,
}
use foodie_note.Prelude.{
  ℕ, ◌/◌, ◌%◌, ◌^◌, ◌<◌, ◌≡◌, arith, Bool, false, sym, subst, if◌then◌else◌, List, [], ◌∷◌,
  Bool-cases, inl, inr, ◌==◌, All,
}

-- Words of 32 bits, a timescale that is not 0, and a wrap count below it.
pub record IsClock (c : Clock) : Type 0 where
  pub scaled : 0 < c.timescale
  pub timescale_word : c.timescale < 2 ^ 32
  pub ts_word : c.current_ts < 2 ^ 32
  pub wrapped : c.wrap_count < c.timescale

-- The arguments of a call are words, and a clock that is assigned is well-formed.
abbrev pub IsCall : Call → Type 0
IsCall (call_set_clock ts wraps) = ts < 2 ^ 32
IsCall (call_set_clock_other_timescale value scale) = Unit
IsCall (call_get_timediff value out) = value < 2 ^ 32
IsCall (call_set_timescale scale) = scale < 2 ^ 32
IsCall (call_update_clock ts) = ts < 2 ^ 32
IsCall (call_get_timediff_from value scale out) = Unit
IsCall (call_set_value src) = Unit
IsCall (call_assign a) = IsClock a

split-IsClock : (t v : ℕ) → 0 < t → t < 2 ^ 32 → IsClock (split t v)
unfolding split
split-IsClock t v pos word = record {
  scaled = pos;
  timescale_word = word;
  ts_word = omega arith;
  wrapped = mod-lt (v / 2 ^ 32 % 2 ^ 32) pos;
}

pub update_clock-IsClock :
    (c : Clock) (ts : ℕ) → IsClock c → ts < 2 ^ 32 → IsClock (update_clock c ts).1
unfolding update_clock
update_clock-IsClock c ts h word =
    let scaled = h.scaled in
    let timescale_word = h.timescale_word in
    let ts_word = h.ts_word in
    let wrapped = h.wrapped in
    record {
      scaled = ground arith;
      timescale_word = ground arith;
      ts_word = ground arith;
      wrapped = ground arith;
    }

scaled_test : (c : Clock) → IsClock c → (c.timescale == 0) ≡ false
scaled_test c h = let scaled = h.scaled in ground arith

set_clock-IsClock :
    (c : Clock) (ts wraps : ℕ) → IsClock c → ts < 2 ^ 32 → IsClock (set_clock c ts wraps).1
unfolding set_clock
set_clock-IsClock c ts wraps h word =
    let set : Clock = record c { current_ts = ts } in
    let out : Bool → Outcome (Unit {0}) × Clock = λ b.
      if b
      then (leave err_corrupt, set)
      else (done tt, record set { wrap_count = wraps % c.timescale }) in
    let good : IsClock (out false).1 = record {
      scaled = h.scaled;
      timescale_word = h.timescale_word;
      ts_word = word;
      wrapped = mod-lt wraps h.scaled;
    } in
    subst (λ b. IsClock (out b).1) (sym (scaled_test c h)) good

step-IsClock : (c : Clock) (call : Call) → IsClock c → IsCall call → IsClock (step c call)
unfolding step set_value set_timescale set_clock_other_timescale get_timediff get_timediff_from
    assign
step-IsClock c (call_set_clock ts wraps) h word = set_clock-IsClock c ts wraps h word
step-IsClock c (call_set_clock_other_timescale value scale) h word =
    elim (Bool-cases (scale == 0)) [
      | inl z ↦ rw z h
      | inr z ↦ rw (z, scaled_test c h) (split-IsClock c.timescale _ h.scaled h.timescale_word)
    ]
step-IsClock c (call_get_timediff value out) h word =
    rw (scaled_test c h) (update_clock-IsClock c value h word)
step-IsClock c (call_set_timescale scale) h word = elim (Bool-cases (scale == 0)) [
  | inl z ↦ rw z h
  | inr z ↦ rw (z, scaled_test c h) (split-IsClock scale _ (ground arith) word)
]
step-IsClock c (call_update_clock ts) h word = update_clock-IsClock c ts h word
step-IsClock c (call_get_timediff_from value scale out) h word = elim (Bool-cases (scale == 0)) [
  | inl z ↦ rw z h
  | inr z ↦ rw (z, scaled_test c h) (update_clock-IsClock c _ h (omega arith))
]
step-IsClock c (call_set_value src) h word = elim (Bool-cases (src.timescale == 0)) [
  | inl z ↦ rw z h
  | inr z ↦ rw (z, scaled_test c h) (split-IsClock c.timescale _ h.scaled h.timescale_word)
]
step-IsClock c (call_assign a) h other = rw (scaled_test a other) other

-- A well-formed clock stays well-formed under every sequence of calls with 32-bit arguments and
-- assignments of well-formed clocks, also of those that leave.
pub run-IsClock :
    (c : Clock) (calls : List Call) → IsClock c → All IsCall calls → IsClock (run c calls)
unfolding run
run-IsClock c [] h words = h
run-IsClock c (call ∷ calls) h (word, words) =
    run-IsClock (step c call) calls (step-IsClock c call h word) words

-- What a constructor makes of a timescale other than 0 is well-formed.
pub new_clock-IsClock :
    (scale ts : ℕ)
    → 0 < scale
    → scale < 2 ^ 32
    → ts < 2 ^ 32
    → (c : Clock) × (new_clock scale ts ≡ done c) × IsClock c
unfolding new_clock
new_clock-IsClock scale ts pos word ts_small = (
  record { timescale = scale; current_ts = ts; wrap_count = 0 },
  ground arith,
  record { scaled = pos; timescale_word = word; ts_word = ts_small; wrapped = pos },
)
