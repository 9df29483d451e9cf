-- ===== src/Wifi/Tests.antt =====
-- Runs of the wireless device.
use klux_os.Wifi.States.{IsLongEnough}
use klux_os.Base.{arith, ◌∷◌, ap, replicate, ◌≡◌, refl, [], some, true}
use klux_os.Wifi.{
  params_of, pause, wait_from, connect_result, disconnect_result, scan_result, strncpy, Device,
  Driver, connect, disconnect, init, scan, security_of, down, ready, connected, ok, refused, wep,
  open_network, wpa2_psk,
}
use klux_os.Wifi.Stuck.{down_for_ever, Reach, start, then_call, call_init}

-- The device as the static variable is at boot.
abbrev boot : Device
boot = record {
  current_state = down;
  signal_strength = 0;
  ip_address = (0, 0, 0, 0);
  connected_channel = 0;
  connection_timeout = 0;
  connection_start_time = 0;
  networks_found = 0;
  ssid = replicate 32 0;
  password = replicate 64 0;
}

-- A driver that always succeeds.
abbrev eager : Driver
eager = record {
  scan = some (λ d. (some 3, d));
  connect = some (λ d p. (some 0, d));
  disconnect = some (λ d. (some 0, d));
}

abbrev idle : Device
idle = record boot { current_state = ready }

scans : (scan (some eager) idle).1.networks_found ≡ 3
unfolding scan scan_result
scans = refl

security_types :
    (security_of [] ≡ open_network)
    × (security_of (replicate 13 b'a') ≡ wep)
    × (security_of (replicate 8 b'a') ≡ wpa2_psk)
unfolding security_of
security_types = (refl, refl, refl)

init-boot : init true boot ≡ (ok, boot)
unfolding init
init-boot = refl

after_init : Reach boot boot
after_init = then_call (call_init true) ok start (ap some init-boot)

down_for_ever_example :
    (boot.current_state ≡ down)
    × (scan (some eager) boot ≡ (refused, boot))
    × (connect (some eager) 0 [] [] [] boot ≡ some (refused, boot))
    × (disconnect (some eager) [] boot ≡ some (refused, boot))
down_for_ever_example = down_for_ever (some eager) 0 [] [] [] refl after_init

abbrev online : Device
online = record idle {
  ssid = strncpy (replicate 32 0) (b'k' ∷ []) 31;
  password = strncpy (replicate 64 0) [] 63;
  connection_timeout = 10000;
  connection_start_time = 5;
  ip_address = (192, 168, 1, 100);
  current_state = connected;
  signal_strength = 75;
  connected_channel = 6;
}

connects : connect (some eager) 5 (7 ∷ 7 ∷ 8 ∷ 400 ∷ []) (b'k' ∷ []) [] idle ≡ some (ok, online)
unfolding connect connect_result pause wait_from params_of security_of
connects = refl

long_enough : IsLongEnough 7 300 8 400
long_enough = omega arith

disconnects :
    disconnect (some eager) (7 ∷ 107 ∷ []) online
    ≡ some (ok, record idle { connection_timeout = 10000; connection_start_time = 5 })
unfolding disconnect disconnect_result pause wait_from
disconnects = refl

short_enough : IsLongEnough 7 100 8 200
short_enough = omega arith
