-- ===== src/Network/Cards.antt =====
-- The searches for cards of KluxOS/src/kernel/pci.c and KluxOS/src/kernel/pcie.c.
use klux_os.Firewall
use klux_os.Network.{
  rtl8139_device_id, rtl8139_vendor_id, Net, receive_packet, Card, card_at, find_bus, find_device,
  network_init, pci_find_network_card, pci_read, rtl8139_init, send_packet, other_card, waiting,
  loaded, no_device,
}
use klux_os.Base.{
  ◌||◌, not, ◌&&◌, Bool-cases, if_true, Option-cases, bit_and-ones, bit_and, ◌+◌, ◌==◌, ◌^◌, Option,
  ℕ, ◌<◌, ◌≡◌, List, zero, suc, refl, arith, none, some, false, inl, inr, ap,
}

-- What holds of every card that a search may meet holds of the one that it finds.
abbrev Holds : (P : Card → Type 0) → Option Card → Type 0
Holds P none = Unit
Holds P (some card) = P card

find_device-Holds :
    (P : Card → Type 0) (look : (bus device : ℕ) → List ℕ → Option Card × List ℕ)
    → ((bus device : ℕ) (sent : List ℕ) → Holds P (look bus device sent).0)
    → (left bus device : ℕ) (sent : List ℕ) → Holds P (find_device look left bus device sent).0
unfolding find_device
find_device-Holds P look each zero bus device sent = tt
find_device-Holds P look each (suc left) bus device sent =
    elim (Option-cases (look bus device sent).0) [
      | inl e ↦
          rw (e, find_device)
            (find_device-Holds P look each left bus (device + 1) (look bus device sent).1)
      | inr (card, e) ↦ rw (e, find_device) (rw e at (each bus device sent))
    ]

find_bus-Holds :
    (P : Card → Type 0) (look : (bus device : ℕ) → List ℕ → Option Card × List ℕ)
    → ((bus device : ℕ) (sent : List ℕ) → Holds P (look bus device sent).0)
    → (left bus : ℕ) (sent : List ℕ) → Holds P (find_bus look left bus sent).0
unfolding find_bus
find_bus-Holds P look each zero bus sent = tt
find_bus-Holds P look each (suc left) bus sent =
    let met = find_device-Holds P look each 32 bus 0 sent in
    elim (Option-cases (find_device look 32 bus 0 sent).0) [
      | inl e ↦
          rw (e, find_bus)
            (find_bus-Holds P look each left (bus + 1) (find_device look 32 bus 0 sent).1)
      | inr (card, e) ↦ rw (e, find_bus) (rw e at met)
    ]

-- A card whose word was read as one byte.
abbrev IsByteCard : Card → Type 0
IsByteCard card = card.vendor_id < 2 ^ 8

pci_read-lt :
    (inb : List ℕ → ℕ) (bus device func offset : ℕ) (sent : List ℕ)
    → (pci_read inb bus device func offset sent).0 < 2 ^ 8
unfolding pci_read
pci_read-lt inb bus device func offset sent = omega arith

-- Any read of registers that gives one byte.
card_at-IsByteCard :
    (read : (bus device offset : ℕ) → List ℕ → ℕ × List ℕ) (class subclass bus device : ℕ)
    (sent : List ℕ)
    → (read bus device 0 sent).0 < 2 ^ 8
    → Holds IsByteCard (card_at read class subclass bus device sent).0
unfolding card_at
card_at-IsByteCard read class subclass bus device sent byte =
    let id = (read bus device 0 sent).0 in
    let sent1 = (read bus device 0 sent).1 in
    let class_code = (read bus device 0x0B sent1).0 in
    let subclass_code = (read bus device 0x0A (read bus device 0x0B sent1).1).0 in
    let small : bit_and id 0xFFFF < 2 ^ 8 = omega (arith, bit_and-ones 16 id, byte) in
    elim (Bool-cases (bit_and id 0xFFFF == 0xFFFF)) [
      | inl t ↦ rw t tt
      | inr f ↦
          elim (Bool-cases
            ((bit_and class_code 0xFF == class) && (bit_and subclass_code 0xFF == subclass))) [
              | inl t ↦ rw f (rw t small)
              | inr g ↦ rw f (rw g tt)
            ]
    ]

other_vendor :
    (send receive : List ℕ → ℕ) (answers mac : List ℕ) (card : Card)
    → IsByteCard card
    → rtl8139_init send receive answers mac card ≡ other_card
unfolding rtl8139_init
other_vendor send receive answers mac card small =
    let f : (card.vendor_id == rtl8139_vendor_id) ≡ false = ground (arith, small) in
    if_true _ _ (ap (λ b. not b || not (card.device_id == rtl8139_device_id)) f)

-- The start of the network with what the search found.
abbrev init_with :
    (send receive : List ℕ → ℕ) (answers mac : List ℕ) → Net → Option Card → Option Net
init_with send receive answers mac net card = elim card [
  | none ↦ some (record net { firewall = Firewall.init net.firewall })
  | some card ↦ elim (rtl8139_init send receive answers mac card) [
    | other_card ↦ some (record net { firewall = Firewall.init net.firewall })
    | waiting ↦ none
    | loaded device ↦
        some (record net { firewall = Firewall.init net.firewall; current_device = some device })
  ]
]

no_card :
    (send receive : List ℕ → ℕ) (answers mac : List ℕ) (net : Net) (card : Option Card)
    → Holds IsByteCard card
    → init_with send receive answers mac net card
      ≡ some (record net { firewall = Firewall.init net.firewall })
no_card send receive answers mac net none small = refl
no_card send receive answers mac net (some card) small =
    rw (other_vendor send receive answers mac card small, init_with) refl

started :
    (inb : List ℕ → ℕ) (send receive : List ℕ → ℕ) (sent answers mac : List ℕ) (net : Net)
    → Holds IsByteCard (pci_find_network_card inb sent).0
    → network_init inb send receive sent answers mac net
      ≡ some (record net { firewall = Firewall.init net.firewall })
unfolding network_init
started inb send receive sent answers mac net small =
    no_card send receive answers mac net (pci_find_network_card inb sent).0 small

unset_device :
    (bytes : List ℕ) (net : Net)
    → net.current_device ≡ none
    → (send_packet bytes net ≡ no_device) × (receive_packet bytes net ≡ no_device)
unfolding send_packet receive_packet
unset_device bytes net unset = (rw unset refl, rw unset refl)

-- Whatever the bus answers to each read, also where an answer depends on all reads before it, the
-- network comes up without a card: `pci_read` reads one byte where a vendor's number has 16 bits,
-- so that a card that the search meets is not the driver's. Every later send or receive fails.
pub network_init-none :
    (inb : List ℕ → ℕ) (send receive : List ℕ → ℕ) (sent answers mac bytes : List ℕ) (net : Net)
    → net.current_device ≡ none
    → let net' : Net = record net { firewall = Firewall.init net.firewall } in
      (network_init inb send receive sent answers mac net ≡ some net')
      × (send_packet bytes net' ≡ no_device)
      × (receive_packet bytes net' ≡ no_device)
unfolding pci_find_network_card
network_init-none inb send receive sent answers mac bytes net unset =
    let net' : Net = record net { firewall = Firewall.init net.firewall } in
    let read : (bus device offset : ℕ) → List ℕ → ℕ × List ℕ =
      λ b d offset. pci_read inb b d 0 offset in
    let found =
      find_bus-Holds IsByteCard (card_at read 0x02 0x00)
        (λ b d s. card_at-IsByteCard read 0x02 0x00 b d s (pci_read-lt inb b d 0 0 s)) 256 0 sent in
    (
      started inb send receive sent answers mac net found,
      (unset_device bytes net' unset).0,
      (unset_device bytes net' unset).1,
    )
