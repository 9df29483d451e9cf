-- ===== src/Wifi/States.antt =====
-- The states between the calls of KluxOS/src/drivers/network/wifi.c.
use klux_os.Base.{
  Option-cases, ap, false, refl, none, true, ◌%◌, ◌-◌, ltb, Bool-cases, replicate, ◌^◌, ◌+◌, ◌∷◌,
  List, ◌≤◌, ℕ, ◌<◌, ◌≢◌, ◌≡◌, Option, zero, suc, arith, [], some, inl, inr,
}
use klux_os.Wifi.{
  params_of, strncpy, is_connected, is_down, connecting, pause, unsupported, failed, Status,
  connect_result, disconnect_result, connect, disconnect, wait_from, Device, Driver, scan_result,
  scan, down, ready, connected, ok, refused,
}

-- `wifi_scan` of a device that is not down leaves it ready, whatever the driver did to it, whether
-- the scan is not supported, fails or succeeds, and does not answer -1.
pub scan_lem :
    (v : Option Driver) (d : Device)
    → d.current_state ≢ down
    → let (s, d') = scan v d in (d'.current_state ≡ ready) × (s ≢ refused)
unfolding scan scan_result
scan_lem v d up = ground (arith, up)

-- A tick counter that grows by one from each reading to the next.
abbrev pub count_from : ℕ → ℕ → List ℕ
count_from t zero = []
count_from t (suc n) = t ∷ count_from (t + 1) n

-- The waiting loop ends when the tick counter goes on: with `n` readings, at least one, that grow by
-- one from `t` on, no earlier than the start, it returns if they go past the start by more than
-- `wait` ticks and the counter does not wrap in between.
pub wait_from_ends :
    (start wait t n : ℕ)
    → start ≤ t
    → 1 ≤ n
    → start + wait + 2 ≤ t + n
    → t + n < 2 ^ 32
    → (later : List ℕ) × (wait_from start wait (count_from t n) ≡ some later)
unfolding wait_from
wait_from_ends start wait t zero low one enough room = absurd (omega arith)
wait_from_ends start wait t (suc zero) low one enough room = ([], ground arith)
wait_from_ends start wait t (suc (suc n)) low one enough room =
    elim (Bool-cases (ltb ((t + 2 ^ 32 - start) % 2 ^ 32) wait)) [
      | inl e ↦ rw e (
          wait_from_ends start wait (t + 1 + 1) n (omega arith) (ground arith) (omega arith)
            (omega arith))
      | inr e ↦ ((t + 1) ∷ count_from (t + 1 + 1) n, rw e)
    ]

-- Readings that are enough for a wait from `start`: they grow by one from `t` on.
pub record IsLongEnough (start wait t n : ℕ) : Type 0 where
  pub low : start ≤ t
  pub one : 1 ≤ n
  pub enough : start + wait + 2 ≤ t + n
  pub room : t + n < 2 ^ 32

-- What a device is after a connection attempt.
abbrev pub Attempted : Status → Device → Type 0
Attempted ok d =
    (d.current_state ≡ connected)
    × (d.ip_address ≡ (192, 168, 1, 100))
    × (d.signal_strength ≡ 75)
    × (d.connected_channel ≡ 6)
Attempted refused d = d.current_state ≡ down
Attempted unsupported d = d.current_state ≡ ready
Attempted failed d = d.current_state ≡ ready

connect_result_returns :
    (ticks later : List ℕ) (r : Option ℕ × Device)
    → pause 300 ticks ≡ some later
    → (s : Status) × (d' : Device) × (connect_result ticks r ≡ some (s, d'))
      × (s ≢ refused)
      × Attempted s d'
unfolding connect_result
connect_result_returns ticks later (none, d) e =
    (failed, record d { current_state = ready }, refl, ground arith, refl)
connect_result_returns ticks later (some n, d) e = (
  ok,
  record d {
    ip_address = (192, 168, 1, 100);
    current_state = connected;
    signal_strength = 75;
    connected_channel = 6;
  },
  rw (connect_result, e) refl,
  ground arith,
  (refl, refl, refl, refl),
)

-- `wifi_connect` of a device that is not down returns when the tick counter goes on for 302 ticks,
-- and does not answer -1. The device is connected then, with the fixed address, strength and
-- channel, if the call succeeded, and is ready if it is not supported or failed, whatever the
-- driver did to it.
pub connect_returns :
    (v : Option Driver) (now start t n : ℕ) (ssid password : List ℕ) (d : Device)
    → d.current_state ≢ down
    → IsLongEnough start 300 t n
    → (s : Status) × (d' : Device) × (connect v now (start ∷ count_from t n) ssid password d
        ≡ some (s, d'))
      × (s ≢ refused)
      × Attempted s d'
unfolding connect pause
connect_returns none now start t n ssid password d up long =
    let off : is_down d.current_state ≡ false = ground (arith, up) in
    (
      unsupported,
      record d {
        ssid = strncpy d.ssid ssid 31;
        password = strncpy d.password password 63;
        current_state = ready;
      },
      rw (connect, off) refl,
      ground arith,
      refl,
    )
connect_returns (some v) now start t n ssid password d up long =
    let off : is_down d.current_state ≡ false = ground (arith, up) in
    let d' : Device = record d {
      ssid = strncpy d.ssid ssid 31;
      password = strncpy d.password password 63;
      current_state = connecting;
    } in
    let (later, waited) = wait_from_ends start 300 t n long.low long.one long.enough long.room in
    elim (Option-cases v.connect) [
      | inl missing ↦ (
        unsupported,
        record d' { current_state = ready },
        rw (connect, off) (rw (connect, missing) refl),
        ground arith,
        refl,
      )
      | inr (call, there) ↦
          let (s, after_it, e, answered, settled) =
            connect_result_returns (start ∷ count_from t n) later
              (call (record d' { connection_timeout = 10000; connection_start_time = now })
                (params_of ssid password))
              waited in
          (s, after_it, rw (connect, off) (rw (connect, there) e), answered, settled)
    ]

-- What a device is after an attempt to disconnect that was connected.
abbrev pub Released : Status → Device → Type 0
Released ok d =
    (d.current_state ≡ ready)
    × (d.ip_address ≡ (0, 0, 0, 0))
    × (d.signal_strength ≡ 0)
    × (d.connected_channel ≡ 0)
    × (d.ssid ≡ replicate 32 0)
    × (d.password ≡ replicate 64 0)
Released refused d = d.current_state ≢ connected
Released unsupported d = d.current_state ≡ connected
Released failed d = zero ≤ d.networks_found

disconnect_result_returns :
    (ticks later : List ℕ) (r : Option ℕ × Device)
    → pause 100 ticks ≡ some later
    → (s : Status) × (d' : Device) × (disconnect_result ticks r ≡ some (s, d'))
      × (s ≢ refused)
      × Released s d'
unfolding disconnect_result
disconnect_result_returns ticks later (none, d) e = (failed, d, refl, ground arith, omega arith)
disconnect_result_returns ticks later (some n, d) e = (
  ok,
  record d {
    ip_address = (0, 0, 0, 0);
    signal_strength = 0;
    connected_channel = 0;
    ssid = replicate 32 0;
    password = replicate 64 0;
    current_state = ready;
  },
  rw (disconnect_result, e) refl,
  ground arith,
  (refl, refl, refl, refl, refl, refl),
)

-- `wifi_disconnect` of a connected device returns when the tick counter goes on for 102 ticks, and
-- does not answer -1. If the call succeeded the device is ready then, with no address, strength and
-- channel and with the name and the password of the network erased; if it is not supported the
-- device is still connected.
pub disconnect_returns :
    (v : Option Driver) (start t n : ℕ) (d : Device)
    → d.current_state ≡ connected
    → IsLongEnough start 100 t n
    → (s : Status) × (d' : Device) × (disconnect v (start ∷ count_from t n) d ≡ some (s, d'))
      × (s ≢ refused)
      × Released s d'
unfolding disconnect pause
disconnect_returns none start t n d online long =
    let on : is_connected d.current_state ≡ true = ap is_connected online in
    (unsupported, d, rw (disconnect, on) refl, ground arith, online)
disconnect_returns (some v) start t n d online long =
    let on : is_connected d.current_state ≡ true = ap is_connected online in
    let (later, waited) = wait_from_ends start 100 t n long.low long.one long.enough long.room in
    elim (Option-cases v.disconnect) [
      | inl missing ↦ (
        unsupported,
        d,
        rw (disconnect, on) (rw (disconnect, missing) refl),
        ground arith,
        online,
      )
      | inr (call, there) ↦
          let (s, after_it, e, answered, settled) =
            disconnect_result_returns (start ∷ count_from t n) later (call d) waited in
          (s, after_it, rw (disconnect, on) (rw (disconnect, there) e), answered, settled)
    ]
