-- ===== src/Network.antt =====
-- The network of KluxOS: KluxOS/src/kernel/pci.c, KluxOS/src/drivers/network/rtl8139.c and
-- KluxOS/src/kernel/net/network.c, and the search for wireless cards of KluxOS/src/kernel/pcie.c.
pub mod Cards
mod Tests
use klux_os.Firewall
use klux_os.Base.{
  leb, length, ltb, take, ◌&&◌, ◌*◌, ◌/◌, ◌^◌, ◌||◌, bit_and, bit_or, get_or, not, ◌%◌, ◌+◌, ◌==◌,
  List, Option, ℕ, zero, suc, refl, arith, [], ◌∷◌, none, some, true, false, if◌then◌else◌,
}

-- The configuration address of a register, a 32-bit word.
pub pci_address : (bus device func offset : ℕ) → ℕ
pci_address bus device func offset =
    bit_or
      (bit_or (bit_or (bit_or (bus * 2 ^ 16) (device * 2 ^ 11)) (func * 2 ^ 8))
        (bit_and offset 0xFC))
      0x8000_0000

-- `pci_read`: `outb` writes one byte of the address, and `inb` reads one byte. `inb` stands for the
-- byte that the data port gives after the bytes that were written to the address port, the last one
-- first, so that an answer may depend on all that went before. The bytes written come back.
unfoldable pub pci_read : (inb : List ℕ → ℕ) (bus device func offset : ℕ) → List ℕ → ℕ × List ℕ
pci_read inb bus device func offset sent =
    let sent' = pci_address bus device func offset % 2 ^ 8 ∷ sent in (inb sent' % 2 ^ 8, sent')

-- The two bytes that `pci_write` writes, to the ports 0xCF8 and 0xCFC.
unfoldable pub pci_write : (bus device func offset value : ℕ) → (ℕ × ℕ) × (ℕ × ℕ)
pci_write bus device func offset value =
    ((0xCF8, pci_address bus device func offset % 2 ^ 8), (0xCFC, value % 2 ^ 8))

-- The fields of `struct pci_device` and `struct pcie_device` that a search sets.
pub record Card : Type 0 where
  pub vendor_id : ℕ
  pub device_id : ℕ

-- What a search does at one place of a bus, with the classes it looks for. `read` reads a register.
unfoldable pub card_at :
    (read : (bus device offset : ℕ) → List ℕ → ℕ × List ℕ)
    → (class subclass : ℕ) → (bus device : ℕ) → List ℕ
    → Option Card × List ℕ
card_at read class subclass bus device sent =
    let (id, sent1) = read bus device 0 sent in
    let (class_code, sent2) = read bus device 0x0B sent1 in
    let (subclass_code, sent3) = read bus device 0x0A sent2 in
    let card : Card = record {
      vendor_id = bit_and id 0xFFFF;
      device_id = bit_and (id / 2 ^ 16) 0xFFFF;
    } in
    if bit_and id 0xFFFF == 0xFFFF
    then (none, sent1)
    else if (bit_and class_code 0xFF == class) && (bit_and subclass_code 0xFF == subclass)
    then (some card, sent3)
    else (none, sent3)

-- The inner and the outer loop of a search, for the turns left.
unfoldable pub find_device :
    (look : (bus device : ℕ) → List ℕ → Option Card × List ℕ)
    → (left bus device : ℕ) → List ℕ
    → Option Card × List ℕ
find_device look zero bus device sent = (none, sent)
find_device look (suc left) bus device sent =
    let (found, sent') = look bus device sent in
    elim found [
      | some card ↦ (some card, sent')
      | none ↦ find_device look left bus (device + 1) sent'
    ]

unfoldable pub find_bus :
    (look : (bus device : ℕ) → List ℕ → Option Card × List ℕ)
    → (left bus : ℕ) → List ℕ
    → Option Card × List ℕ
find_bus look zero bus sent = (none, sent)
find_bus look (suc left) bus sent =
    let (found, sent') = find_device look 32 bus 0 sent in
    elim found [ some card ↦ (some card, sent') | none ↦ find_bus look left (bus + 1) sent' ]

-- Class 2, subclass 0. The counter `bus` has 16 bits and `device` 8, so that both loops end.
unfoldable pub pci_find_network_card : (inb : List ℕ → ℕ) → List ℕ → Option Card × List ℕ
pci_find_network_card inb =
    find_bus (card_at (λ bus device offset. pci_read inb bus device 0 offset) 0x02 0x00) 256 0

-- The address of `pcie_read_config`, which is written as a 32-bit word; `inl` stands for the word
-- that the data port gives after the words that were written.
unfoldable pub pcie_read_config :
    (inl : List ℕ → ℕ) (bus device function offset : ℕ) → List ℕ → ℕ × List ℕ
pcie_read_config inl bus device function offset sent =
    let address =
      bit_or
        (bit_or (bit_or (bit_or 0xE000_0000 (bus * 2 ^ 20)) (device * 2 ^ 15)) (function * 2 ^ 12))
        offset in
    (inl (address ∷ sent) % 2 ^ 32, address ∷ sent)

-- Class 2, subclass 0x80. The name of the card is only printed.
unfoldable pub pcie_find_wifi_card : (inl : List ℕ → ℕ) → List ℕ → Option Card × List ℕ
pcie_find_wifi_card inl =
    find_bus (card_at (λ bus device offset. pcie_read_config inl bus device 0 offset) 0x02 0x80) 256
      0

-- `struct network_device`, without its name, mask and gateway, which no code uses: `send` and
-- `receive` stand for functions of the card's driver that the sources declare and do not have; they
-- return an int.
pub record Device : Type 0 where
  pub mac_address : List ℕ
  pub ip_address : ℕ
  pub send : List ℕ → ℕ
  pub receive : List ℕ → ℕ

abbrev pub rtl8139_vendor_id : ℕ
rtl8139_vendor_id = 0x10EC

abbrev pub rtl8139_device_id : ℕ
rtl8139_device_id = 0x8139

-- The loop that waits for the end of the reset, over what the card's command port answers; none
-- when the answers are over.
unfoldable pub wait_reset : (answers : List ℕ) → Option (List ℕ)
wait_reset [] = none
wait_reset (answer ∷ answers) =
    let later = wait_reset answers in if bit_and answer 0x10 == 0 then some answers else later

-- What `rtl8139_init` returns: -1, 0 with the device that becomes the current one, or nothing while
-- it waits. `mac` is what the six address ports answer.
pub data Loaded : Type 0 where
  other_card : Loaded
  waiting : Loaded
  loaded : Device → Loaded

unfoldable pub rtl8139_init : (send receive : List ℕ → ℕ) (answers mac : List ℕ) → Card → Loaded
rtl8139_init send receive answers mac card =
    if not (card.vendor_id == rtl8139_vendor_id) || not (card.device_id == rtl8139_device_id)
    then other_card
    else elim (wait_reset answers) [
      | none ↦ waiting
      | some rest ↦
          loaded
            (record { mac_address = take 6 mac; ip_address = 0; send = send; receive = receive })
    ]

-- `current_device` and the packet filter. Network.c has a `current_device` of its own, which is
-- static; this is the one that the header declares.
pub record Net : Type 0 where
  pub current_device : Option Device
  pub firewall : Firewall.Firewall

-- `network_init`, none while the card's driver waits; `sent` is what the address port got before.
unfoldable pub network_init :
    (inb : List ℕ → ℕ) (send receive : List ℕ → ℕ) (sent answers mac : List ℕ) → Net → Option Net
network_init inb send receive sent answers mac net =
    let filtered : Net = record net { firewall = Firewall.init net.firewall } in
    elim (pci_find_network_card inb sent).0 [
      | none ↦ some filtered
      | some card ↦ elim (rtl8139_init send receive answers mac card) [
        | other_card ↦ some filtered
        | waiting ↦ none
        | loaded device ↦ some (record filtered { current_device = some device })
      ]
    ]

-- The words of a packet, the lowest byte first. A packet has the bytes that are read.
unfoldable pub word16_at : List ℕ → ℕ → ℕ
word16_at bytes i = get_or bytes i 0 + get_or bytes (i + 1) 0 * 2 ^ 8

unfoldable pub word32_at : List ℕ → ℕ → ℕ
word32_at bytes i = word16_at bytes i + word16_at bytes (i + 2) * 2 ^ 16

-- The five numbers of a packet that `network_send_packet` hands to the packet filter.
unfoldable pub packet_of : (ip_address : ℕ) → List ℕ → Firewall.Packet
packet_of ip_address bytes = record {
  src_ip = ip_address;
  dst_ip = word32_at bytes 16;
  src_port = word16_at bytes 20;
  dst_port = word16_at bytes 22;
  protocol = get_or bytes 9 0;
}

-- What the two calls return: -1, -2, -3, -4, and the card's answer. `unknown` is for a search of the
-- packet filter that reads outside its table.
pub data Sent : Type 0 where
  no_device : Sent
  refused : Sent
  bad_type : Sent
  bad_version : Sent
  passed_on : (answer : ℕ) → Sent
  unknown : Sent

unfoldable pub send_packet : List ℕ → Net → Sent
send_packet bytes net = elim net.current_device [
  | none ↦ no_device
  | some device ↦ elim (Firewall.check_packet net.firewall (packet_of device.ip_address bytes)) [
    | none ↦ unknown
    | some action ↦ if action == Firewall.rule_deny then refused else passed_on (device.send bytes)
  ]
]

-- The buffer is not a null pointer.
unfoldable pub receive_packet : List ℕ → Net → Sent
receive_packet bytes net = elim net.current_device [
  | none ↦ no_device
  | some device ↦
      let eth_type = bit_or (get_or bytes 12 0 * 2 ^ 8) (get_or bytes 13 0) % 2 ^ 16 in
      let version = bit_and (get_or bytes 14 0 / 2 ^ 4) 0x0F in
      if ltb (length bytes) 14
      then refused
      else if not (eth_type == 0x0800) && not (eth_type == 0x0806)
      then bad_type
      else if (eth_type == 0x0800) && leb 34 (length bytes) && not (version == 4)
      then bad_version
      else passed_on (device.receive bytes)
]
