-- ===== src/Pic.antt =====
-- KluxOS/src/kernel/interrupt/pic.c: the two interrupt controllers and the masks that are kept for
-- them. A write to a port is a pair of the port and the byte.
pub mod Masks
mod Tests
use klux_os.Base.{
  ◌%◌, ◌-◌, bit_and, ◌*◌, ◌^◌, bit_or, leb, ltb, List, ℕ, zero, suc, [], ◌∷◌, true, false,
  if◌then◌else◌,
}

-- The variables `pic1_mask` and `pic2_mask`.
pub record Pic : Type 0 where
  pub pic1_mask : ℕ
  pub pic2_mask : ℕ

abbrev pub pic1_command : ℕ
pic1_command = 0x20

abbrev pub pic1_data : ℕ
pic1_data = 0x21

abbrev pub pic2_command : ℕ
pic2_command = 0xA0

abbrev pub pic2_data : ℕ
pic2_data = 0xA1

-- The masks are read from the ports: `data1` and `data2` are the answers. The writes to port 0x80 of
-- `io_wait` are left out.
pub init : (offset1 offset2 data1 data2 : ℕ) → Pic → List (ℕ × ℕ) × Pic
init offset1 offset2 data1 data2 p = (
  (pic1_command, 0x11)
      ∷ (pic2_command, 0x11)
      ∷ (pic1_data, offset1)
      ∷ (pic2_data, offset2)
      ∷ (pic1_data, 4)
      ∷ (pic2_data, 2)
      ∷ (pic1_data, 1)
      ∷ (pic2_data, 1)
      ∷ (pic1_data, 0xFF)
      ∷ (pic2_data, 0xFF)
      ∷ [],
  record { pic1_mask = data1; pic2_mask = data2 },
)

pub send_eoi : ℕ → List (ℕ × ℕ)
send_eoi irq =
    if leb 8 irq
    then (pic2_command, 0x20) ∷ (pic1_command, 0x20) ∷ []
    else (pic1_command, 0x20) ∷ []

unfoldable pub set_mask : ℕ → Pic → (ℕ × ℕ) × Pic
set_mask irq p =
    if ltb irq 8
    then (let mask = bit_or p.pic1_mask (2 ^ irq) % 2 ^ 8 in
        ((pic1_data, mask), record p { pic1_mask = mask }))
    else (let mask = bit_or p.pic2_mask (2 ^ (irq - 8)) % 2 ^ 8 in
        ((pic2_data, mask), record p { pic2_mask = mask }))

-- `~(1 << n)` on a byte is all ones but bit `n`.
unfoldable pub clear_mask : ℕ → Pic → (ℕ × ℕ) × Pic
clear_mask irq p =
    if ltb irq 8
    then (let mask = bit_and p.pic1_mask (2 ^ 8 - 1 - 2 ^ irq) in
        ((pic1_data, mask), record p { pic1_mask = mask }))
    else (let mask = bit_and p.pic2_mask (2 ^ 8 - 1 - 2 ^ (irq - 8)) in
        ((pic2_data, mask), record p { pic2_mask = mask }))

-- `in1` and `in2` are what the command ports answer after the request.
pub get_irr : (in1 in2 : ℕ) → List (ℕ × ℕ) × ℕ
get_irr in1 in2 =
    ((pic1_command, 0x0A) ∷ (pic2_command, 0x0A) ∷ [], bit_or (in2 * 2 ^ 8) in1 % 2 ^ 16)

pub get_isr : (in1 in2 : ℕ) → List (ℕ × ℕ) × ℕ
get_isr in1 in2 =
    ((pic1_command, 0x0B) ∷ (pic2_command, 0x0B) ∷ [], bit_or (in2 * 2 ^ 8) in1 % 2 ^ 16)

pub disable : List (ℕ × ℕ)
disable = (pic1_data, 0xFF) ∷ (pic2_data, 0xFF) ∷ []
