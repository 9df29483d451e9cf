-- ===== src/Pit.antt =====
-- KluxOS/src/kernel/timer/pit.c: the timer's frequency, its ticks and the wait of sleep_ms. The
-- callback and the registration of the handler are left out.
pub mod Divisor
mod Tests
use klux_os.Base.{
  Option, bit_and, ◌-◌, List, ltb, ◌%◌, ◌/◌, ◌^◌, ℕ, ◌+◌, zero, suc, [], ◌∷◌, none, some, true,
  false, if◌then◌else◌,
}

-- `timer_info_t`.
pub record Timer : Type 0 where
  pub ticks : ℕ
  pub frequency : ℕ
  pub ms_per_tick : ℕ
  pub uptime_ms : ℕ

abbrev pub pit_frequency : ℕ
pit_frequency = 1193180

pub handler : Timer → Timer
handler t = record t {
  ticks = (t.ticks + 1) % 2 ^ 32;
  uptime_ms = (t.uptime_ms + t.ms_per_tick) % 2 ^ 64;
}

unfoldable pub clamp : ℕ → ℕ
clamp frequency =
    let at_least = if ltb frequency 18 then 18 else frequency in
    if ltb 1000 at_least then 1000 else at_least

-- The command byte, the two bytes of the divisor, low first, and the timer.
unfoldable pub init : ℕ → Timer → (ℕ × ℕ × ℕ) × Timer
init frequency t =
    let f = clamp frequency in
    let divisor = pit_frequency / f in
    (
      (0x36, bit_and divisor 0xFF, bit_and (divisor / 2 ^ 8) 0xFF),
      record t { frequency = f; ms_per_tick = 1000 / f },
    )

-- The ticks that `sleep_ms` waits for.
unfoldable pub ticks_to_wait : (ms : ℕ) → Timer → ℕ
ticks_to_wait ms t = (ms + t.ms_per_tick + 2 ^ 32 - 1) % 2 ^ 32 / t.ms_per_tick

-- The loop of `sleep_ms` on the readings of `get_ticks`: the readings that are left after it, none
-- when they end first.
unfoldable pub wait_until : (end_tick : ℕ) → List ℕ → Option (List ℕ)
wait_until end_tick [] = none
wait_until end_tick (now ∷ later) =
    let again = wait_until end_tick later in if ltb now end_tick then again else some later

unfoldable pub sleep_ms : (ms : ℕ) → Timer → List ℕ → Option (List ℕ)
sleep_ms ms t readings = wait_until ((t.ticks + ticks_to_wait ms t) % 2 ^ 32) readings
