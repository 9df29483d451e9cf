-- ===== src/Pit/Tests.antt =====
-- Runs of KluxOS/src/kernel/timer/pit.c.
use klux_os.Pit.Divisor.{init-programmed, programmed}
use klux_os.Pit.{pit_frequency, ticks_to_wait, clamp, wait_until, Timer, init, sleep_ms}
use klux_os.Base.{◌/◌, ◌≡◌, ◌≤◌, refl, [], ◌∷◌, some}

abbrev stopped : Timer
stopped = record { ticks = 0; frequency = 0; ms_per_tick = 0; uptime_ms = 0 }

abbrev hundred : Timer
hundred = record { ticks = 5; frequency = 100; ms_per_tick = 10; uptime_ms = 50 }

at_hundred :
    init 100 stopped
    ≡ ((0x36, 0x9B, 0x2E), record { ticks = 0; frequency = 100; ms_per_tick = 10; uptime_ms = 0 })
unfolding init clamp
at_hundred = refl

slept : sleep_ms 15 hundred (5 ∷ 6 ∷ 7 ∷ 8 ∷ []) ≡ some (8 ∷ [])
unfolding sleep_ms wait_until ticks_to_wait
slept = refl

init-programmed_example :
    let (bytes, t') = init 10 stopped in
    (t'.frequency ≡ 18)
    × (t'.ms_per_tick ≡ 1000 / t'.frequency)
    × (1 ≤ t'.ms_per_tick)
    × (programmed bytes ≡ 751)
    × (pit_frequency / programmed bytes ≡ 1588)
init-programmed_example = init-programmed 10 stopped
