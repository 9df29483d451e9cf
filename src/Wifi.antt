-- ===== src/Wifi.antt =====
-- KluxOS/src/drivers/network/wifi.c: the state machine of the wireless device. The card's driver and
-- the search for a card on the bus are arguments, and so are the readings of the tick counter, one
-- for each call of `get_tick_count` in order. A C string is the list of its characters.
pub mod States
pub mod Stuck
mod Tests
use klux_os.Base.{
  ◌-◌, ◌^◌, ◌||◌, drop, ◌+◌, ◌==◌, length, ltb, ◌++◌, if◌then◌else◌, replicate, take, ◌%◌, ◌∷◌,
  Bool, List, Option, ℕ, zero, suc, [], none, some, true, false,
}

-- The `WIFI_STATE_…` constants.
pub data State : Type 0 where
  down ready scanning connecting connected : State

-- The `WIFI_SECURITY_…` constants that the code stores.
pub data Security : Type 0 where
  open_network wep wpa2_psk : Security

-- `wifi_device_t`, without its driver. `ssid` and `password` are the arrays of 32 and 64 characters
-- of `config`.
pub record Device : Type 0 where
  pub current_state : State
  pub signal_strength : ℕ
  pub ip_address : ℕ × ℕ × ℕ × ℕ
  pub connected_channel : ℕ
  pub connection_timeout : ℕ
  pub connection_start_time : ℕ
  pub networks_found : ℕ
  pub ssid : List ℕ
  pub password : List ℕ

-- `wifi_connection_params_t`
pub record Params : Type 0 where
  pub ssid : List ℕ
  pub password : List ℕ
  pub security_type : Security

-- `wifi_driver_t`: a function pointer may be null. A negative result is `none`.
pub record Driver : Type 0 where
  pub scan : Option (Device → Option ℕ × Device)
  pub connect : Option (Device → Params → Option ℕ × Device)
  pub disconnect : Option (Device → Option ℕ × Device)

-- The values that the calls return: 0, and -1, -2 and -3.
pub data Status : Type 0 where
  ok refused unsupported failed : Status

-- `strncpy` into an array: `n` characters of the text, filled up with 0.
abbrev pub strncpy : List ℕ → List ℕ → ℕ → List ℕ
strncpy dst src n = take n (src ++ replicate n 0) ++ drop n dst

pub init : Bool → Device → Status × Device
init found d =
    if found then (ok, record d { current_state = down; signal_strength = 0 }) else (refused, d)

abbrev scan_method : Option Driver → Option (Device → Option ℕ × Device)
scan_method none = none
scan_method (some v) = v.scan

abbrev connect_method : Option Driver → Option (Device → Params → Option ℕ × Device)
connect_method none = none
connect_method (some v) = v.connect

abbrev disconnect_method : Option Driver → Option (Device → Option ℕ × Device)
disconnect_method none = none
disconnect_method (some v) = v.disconnect

abbrev pub is_down : State → Bool
is_down down = true
is_down _ = false

abbrev pub is_connected : State → Bool
is_connected connected = true
is_connected _ = false

-- The end of `wifi_scan`, from the driver's result on.
pub scan_result : Option ℕ × Device → Status × Device
scan_result (none, d) = (failed, record d { current_state = ready })
scan_result (some n, d) = (ok, record d { networks_found = n % 256; current_state = ready })

pub scan : Option Driver → Device → Status × Device
scan v d =
    if is_down d.current_state
    then (refused, d)
    else (let d' = record d { current_state = scanning } in
        elim (scan_method v) [
          | none ↦ (unsupported, record d' { current_state = ready })
          | some call ↦ scan_result (call d')
        ])

-- The wait of `wait` ticks from `start` on: each round takes one reading for the test and one for
-- the dot. The readings that are left; `none` if they run out, so that the loop still waits.
pub wait_from : ℕ → ℕ → List ℕ → Option (List ℕ)
wait_from start wait [] = none
wait_from start wait (t ∷ []) = if ltb ((t + 2 ^ 32 - start) % 2 ^ 32) wait then none else some []
wait_from start wait (t ∷ dot ∷ later) =
    let again = wait_from start wait later in
    if ltb ((t + 2 ^ 32 - start) % 2 ^ 32) wait then again else some (dot ∷ later)

-- `start_time = get_tick_count()` and the loop.
pub pause : ℕ → List ℕ → Option (List ℕ)
pause wait [] = none
pause wait (start ∷ later) = wait_from start wait later

pub security_of : List ℕ → Security
security_of password =
    if length password == 0
    then open_network
    else if length password == 5 || length password == 13
    then wep
    else wpa2_psk

pub params_of : List ℕ → List ℕ → Params
params_of ssid password = record {
  ssid = take 31 (ssid ++ replicate 31 0) ++ 0 ∷ [];
  password = take 63 (password ++ replicate 63 0) ++ 0 ∷ [];
  security_type = security_of password;
}

-- The end of `wifi_connect`, from the driver's result on.
pub connect_result : List ℕ → Option ℕ × Device → Option (Status × Device)
connect_result ticks (none, d) = some (failed, record d { current_state = ready })
connect_result ticks (some n, d) = elim (pause 300 ticks) [
  | none ↦ none
  | some later ↦ some (
    ok,
    record d {
      ip_address = (192, 168, 1, 100);
      current_state = connected;
      signal_strength = 75;
      connected_channel = 6;
    },
  )
]

-- `wifi_connect`. `now` is the first reading of the tick counter, `ticks` are the later ones.
pub connect : Option Driver → ℕ → List ℕ → List ℕ → List ℕ → Device → Option (Status × Device)
connect v now ticks ssid password d =
    if is_down d.current_state
    then some (refused, d)
    else (let d' = record d {
      ssid = strncpy d.ssid ssid 31;
      password = strncpy d.password password 63;
      current_state = connecting;
    } in
        elim (connect_method v) [
          | none ↦ some (unsupported, record d' { current_state = ready })
          | some call ↦ connect_result ticks (
              call (record d' { connection_timeout = 10000; connection_start_time = now })
                (params_of ssid password))
        ])

-- The end of `wifi_disconnect`, from the driver's result on.
pub disconnect_result : List ℕ → Option ℕ × Device → Option (Status × Device)
disconnect_result ticks (none, d) = some (failed, d)
disconnect_result ticks (some n, d) = elim (pause 100 ticks) [
  | none ↦ none
  | some later ↦ some (
    ok,
    record d {
      ip_address = (0, 0, 0, 0);
      signal_strength = 0;
      connected_channel = 0;
      ssid = replicate 32 0;
      password = replicate 64 0;
      current_state = ready;
    },
  )
]

pub disconnect : Option Driver → List ℕ → Device → Option (Status × Device)
disconnect v ticks d =
    if is_connected d.current_state
    then elim (disconnect_method v) [
      | none ↦ some (unsupported, d)
      | some call ↦ disconnect_result ticks (call d)
    ]
    else some (refused, d)
