-- ===== src/Network/Tests.antt =====
-- Runs of the network.
use klux_os.Base.{
  some, if◌then◌else◌, ◌==◌, length, length, false, ◌≡◌, ◌==◌, if◌then◌else◌, refl, [], ◌∷◌, none,
  some, replicate, arith, ℕ, List,
}
use klux_os.Firewall.{Rule, rule_deny, Firewall}
use klux_os.Firewall.Rules.{IsValid}
use klux_os.Network.{
  find_bus, pci_find_network_card, pci_read, card_at, find_device, pci_read, card_at, find_device,
  Net, Device, send_packet, receive_packet, network_init, no_device, rtl8139_init, loaded,
  wait_reset,
}
use klux_os.Network.Cards.{network_init-none}
use klux_os.Firewall

abbrev web : Rule
web = record { src_ip = 0; dst_ip = 0; src_port = 0; dst_port = 80; protocol = 6; action = 1 }

abbrev empty_rule : Rule
empty_rule = record { src_ip = 0; dst_ip = 0; src_port = 0; dst_port = 0; protocol = 0; action = 0 }

abbrev filter : Firewall.Firewall
filter = record { rules = replicate 256 empty_rule; rule_count = 0; enabled = false }

filter-IsValid : IsValid filter
filter-IsValid = omega arith

abbrev card : Device
card = record {
  mac_address = 1 ∷ 2 ∷ 3 ∷ 4 ∷ 5 ∷ 6 ∷ [];
  ip_address = 0;
  send = λ bytes. 0;
  receive = λ bytes. 7;
}

abbrev with_card : Net
with_card = record { firewall = filter; current_device = some card }

abbrev no_card : Net
no_card = record with_card { current_device = none }

-- A packet to port 80, with protocol 6.
abbrev packet : List ℕ
packet =
    0x45 ∷ 0 ∷ 0 ∷ 40 ∷ 0 ∷ 0 ∷ 0 ∷ 0 ∷ 64 ∷ 6 ∷ 0 ∷ 0 ∷ 10 ∷ 0 ∷ 0 ∷ 1 ∷ 10 ∷ 0 ∷ 0 ∷ 2 ∷ 0 ∷ 16
    ∷ 80 ∷ 0 ∷ []

network_init-none_example :
    let started : Net = record no_card { firewall = Firewall.init filter } in
    (network_init (λ sent. length sent) (λ bytes. 0) (λ bytes. 0) [] [] [] no_card ≡ some started)
    × (send_packet packet started ≡ no_device)
    × (receive_packet packet started ≡ no_device)
network_init-none_example =
    network_init-none (λ sent. length sent) (λ bytes. 0) (λ bytes. 0) [] [] [] packet no_card refl

-- A bus that answers a number, the class 2 and the subclass 0, in this order: a card is found.
found_card :
    (pci_find_network_card
      (λ sent. if length sent == 1 then 5 else (if length sent == 2 then 2 else 0))
      []).0
    ≡ some (record { vendor_id = 5; device_id = 0 })
unfolding pci_find_network_card find_bus find_device card_at pci_read
found_card = refl

-- A card that answers the reset at its third turn is loaded.
loads_its_card :
    rtl8139_init
      (λ bytes. 0)
      (λ bytes. 7)
      (0x10 ∷ 0x1C ∷ 0x0C ∷ [])
      (1 ∷ 2 ∷ 3 ∷ 4 ∷ 5 ∷ 6 ∷ [])
      (record { vendor_id = 0x10EC; device_id = 0x8139 })
    ≡ loaded card
unfolding rtl8139_init wait_reset
loads_its_card = refl
