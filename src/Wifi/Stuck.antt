-- ===== src/Wifi/Stuck.antt =====
-- From the state at boot no sequence of calls of KluxOS/src/drivers/network/wifi.c gets anywhere.
use klux_os.Base.{List, ℕ, Option, ◌≡◌, Bool, arith, some}
use klux_os.Wifi.{Driver, disconnect, Status, connect, Device, init, scan, down, refused}

-- A call of the module, with what its surroundings give it.
pub data Call : Type 0 where
  call_init : Bool → Call
  call_scan : Option Driver → Call
  call_connect : Option Driver → ℕ → List ℕ → List ℕ → List ℕ → Call
  call_disconnect : Option Driver → List ℕ → Call

-- The result of a call; `none` if it does not return.
abbrev pub perform : Call → Device → Option (Status × Device)
perform (call_init found) d = some (init found d)
perform (call_scan v) d = some (scan v d)
perform (call_connect v now ticks ssid password) d = connect v now ticks ssid password d
perform (call_disconnect v ticks) d = disconnect v ticks d

-- One call after the other.
pub data Reach (d : Device) : Device → Type 0 where
  start : Reach d d
  then_call :
      {e f : Device} (c : Call) (s : Status) → Reach d e → perform c e ≡ some (s, f) → Reach d f

stays_down :
    (c : Call) (s : Status) (e f : Device)
    → e.current_state ≡ down
    → perform c e ≡ some (s, f)
    → f.current_state ≡ down
unfolding init scan connect disconnect
stays_down (call_init found) s e f h p = ground arith
stays_down (call_scan v) s e f h p = ground arith
stays_down (call_connect v now ticks ssid password) s e f h p = ground arith
stays_down (call_disconnect v ticks) s e f h p = ground arith

Reach-down : {d e : Device} → d.current_state ≡ down → Reach d e → e.current_state ≡ down
Reach-down h start = h
Reach-down h (then_call c s r p) = stays_down c s _ _ (Reach-down h r) p

-- A device that is down never leaves that state: whatever calls are made, with whatever driver and
-- whatever card is found, the device is still down after them, `wifi_scan` and `wifi_connect` answer
-- -1 without calling the driver, and `wifi_disconnect` answers -1.
pub down_for_ever :
    {d e : Device} (v : Option Driver) (now : ℕ) (ticks ssid password : List ℕ)
    → d.current_state ≡ down
    → Reach d e
    → (e.current_state ≡ down)
      × (scan v e ≡ (refused, e))
      × (connect v now ticks ssid password e ≡ some (refused, e))
      × (disconnect v ticks e ≡ some (refused, e))
unfolding scan connect disconnect
down_for_ever v now ticks ssid password h r =
    let s = Reach-down h r in (s, ground arith, ground arith, ground arith)
