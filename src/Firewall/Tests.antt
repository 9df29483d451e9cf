-- ===== src/Firewall/Tests.antt =====
-- Runs of the packet filter.
use klux_os.Base.{◌≡◌, refl, true, [], ◌∷◌, some, replicate, arith}
use klux_os.Firewall.{
  Rule, Packet, Firewall, init, matches, check_from, check_packet, enable, disable,
}
use klux_os.Firewall.Rules.{IsValid, decide_by, load, check_packet-load}

abbrev http : Rule
http = record { src_ip = 0; dst_ip = 0; src_port = 0; dst_port = 80; protocol = 6; action = 1 }

abbrev no_ssh : Rule
no_ssh = record { src_ip = 0; dst_ip = 0; src_port = 0; dst_port = 22; protocol = 0; action = 0 }

abbrev blank : Rule
blank = record { src_ip = 0; dst_ip = 0; src_port = 0; dst_port = 0; protocol = 0; action = 0 }

abbrev web : Packet
web = record { src_ip = 7; dst_ip = 9; src_port = 4000; dst_port = 80; protocol = 6 }

abbrev boot : Firewall
boot = record { rules = http ∷ no_ssh ∷ replicate 254 blank; rule_count = 2; enabled = true }

abbrev closed : Firewall
closed = record boot { rule_count = 0 }

boot-IsValid : IsValid boot
boot-IsValid = omega arith

closed-IsValid : IsValid closed
closed-IsValid = omega arith

web_allowed : check_packet boot web ≡ some 1
unfolding check_packet check_from matches
web_allowed = refl

web_denied_by_default : check_packet (enable (init (disable boot))) web ≡ some 0
unfolding check_packet check_from matches enable init disable
web_denied_by_default = refl

check_packet-load_example :
    check_packet (load (init boot) (no_ssh ∷ http ∷ [])) web
    ≡ some (decide_by (no_ssh ∷ http ∷ []) web)
check_packet-load_example = check_packet-load (no_ssh ∷ http ∷ []) web boot-IsValid (omega arith)
