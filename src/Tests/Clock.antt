-- ===== src/Tests/Clock.antt =====
-- Runs of the media clock.
use foodie_note.Clock.Converter.{
  Clock, done, set_timescale, update_clock, Call, call_get_timediff, call_set_timescale,
  call_update_clock, run,
}
use foodie_note.Clock.Invariant.{IsClock, run-IsClock}
use foodie_note.Clock.Time.{ticks, update_clock_forward, update_clock_backward, set_timescale-ticks}
use foodie_note.Prelude.{
  ◌+◌, ◌-◌, ◌*◌, ◌%◌, ◌^◌, ◌≤◌, ◌<◌, ◌≡◌, ◌⊎◌, arith, true, false, List, [], ◌∷◌,
}

-- Milliseconds, just in front of a wrap of the timestamp.
abbrev late : Clock
late = record { timescale = 1000; current_ts = 0xfffffff0; wrap_count = 999 }

late-IsClock : IsClock late
late-IsClock = record {
  scaled = omega arith;
  timescale_word = omega arith;
  ts_word = omega arith;
  wrapped = omega arith;
}

abbrev calls : List Call
calls =
    call_update_clock 16
    ∷ call_set_timescale 44100
    ∷ call_get_timediff 32 1000
    ∷ call_set_timescale 0
    ∷ []

run-IsClock_example : IsClock (run late calls)
run-IsClock_example =
    run-IsClock late calls late-IsClock
      (omega arith, (omega arith, (omega arith, (omega arith, tt))))

update_clock_forward_example :
    ((update_clock late ((0xfffffff0 + 32) % 2 ^ 32)).0 ≡ true)
    × ((ticks (update_clock late ((0xfffffff0 + 32) % 2 ^ 32)).1 ≡ ticks late + 32)
        ⊎ (ticks (update_clock late ((0xfffffff0 + 32) % 2 ^ 32)).1 + 1000 * 2 ^ 32
            ≡ ticks late + 32))
update_clock_forward_example = update_clock_forward late 32 late-IsClock (omega arith)

update_clock_backward_example :
    update_clock late ((2 ^ 32 + 0xfffffff0 - 5) % 2 ^ 32) ≡ (false, late)
update_clock_backward_example =
    update_clock_backward late 5 late-IsClock (omega arith) (omega arith)

-- One second and a half and one wrap.
abbrev early : Clock
early = record { timescale = 1000; current_ts = 1500; wrap_count = 1 }

early-IsClock : IsClock early
early-IsClock = record {
  scaled = omega arith;
  timescale_word = omega arith;
  ts_word = omega arith;
  wrapped = omega arith;
}

set_timescale-ticks_example :
    (d : Clock) × (set_timescale early 90000 ≡ done d)
    × (d.timescale ≡ 90000)
    × (ticks early * 90000 ≤ ticks d * 1000)
    × (ticks d * 1000 < ticks early * 90000 + 1000)
set_timescale-ticks_example =
    set_timescale-ticks early 90000 early-IsClock (omega arith) (omega arith) (omega arith)
      (omega arith)
