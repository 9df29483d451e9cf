-- ===== src/Memory/Paging/Mapped.antt =====
-- What a virtual address is translated to after map_page of KluxOS/src/kernel/mm/memory_ext.c.
use klux_os.Memory.Paging.{directory_slot, table_slot, Tables, map_page, get_physaddr}
use klux_os.Base.{
  bit_and-page, bit_or_step, bit_or-lt, bit_or-low, ◌*◌, bit_and-ones, ◌+◌, ◌/◌, ◌==◌, bit_and,
  bit_or, ◌≡◌, ◌≢◌, ◌%◌, ◌^◌, ◌<◌, ℕ, refl, arith, true, false, ◌∙◌, ap,
}

-- An entry that map_page writes for a page-aligned address.
entry_bits :
    (physaddr flags : ℕ)
    → physaddr < 2 ^ 32
    → physaddr % 4096 ≡ 0
    → let entry = bit_or (bit_or physaddr (bit_and flags 0xFFF)) 1 in
      (bit_and entry 1 ≡ 1) × (bit_and entry 0xFFFF_F000 ≡ physaddr)
entry_bits physaddr flags lt aligned =
    let p = physaddr / 4096 in
    let f = flags % 4096 in
    let e : bit_and flags 0xFFF ≡ f = bit_and-ones 12 flags in
    let at : physaddr ≡ 2 ^ 12 * p + 0 = omega arith in
    let one : bit_or physaddr f ≡ 2 ^ 12 * p + bit_or 0 f =
      ap (λ w. bit_or w f) at ∙ bit_or-low 12 p 0 f (omega arith) (omega arith) in
    let low : bit_or 0 f < 2 ^ 12 = bit_or-lt 12 0 f (omega arith) (omega arith) in
    let g = bit_or 0 f in
    let two : bit_or (2 ^ 12 * p + g) 1 ≡ 2 ^ 12 * p + bit_or g 1 =
      bit_or-low 12 p g 1 low (omega arith) in
    let low2 : bit_or g 1 < 2 ^ 12 = bit_or-lt 12 g 1 low (omega arith) in
    let whole : bit_or (bit_or physaddr (bit_and flags 0xFFF)) 1 ≡ 2 ^ 12 * p + bit_or g 1 =
      ap (λ w. bit_or (bit_or physaddr w) 1) e ∙ ap (λ w. bit_or w 1) one ∙ two in
    rw whole (
      bit_and-ones 1 (2 ^ 12 * p + bit_or g 1) ∙ omega (arith, bit_or_step g 1),
      bit_and-page (2 ^ 12 * p + bit_or g 1) (omega arith) ∙ omega arith,
    )

-- After map_page of a page-aligned address through a present directory entry, whose table does not
-- hold that entry itself, get_physaddr finds the address and the offset in the page.
pub get_physaddr-map_page :
    (t : Tables) (physaddr virtualaddr flags : ℕ)
    → physaddr < 2 ^ 32
    → physaddr % 4096 ≡ 0
    → bit_and (t.word (directory_slot t virtualaddr)) 1 ≡ 1
    → directory_slot t virtualaddr ≢ table_slot t virtualaddr
    → get_physaddr (map_page physaddr virtualaddr flags t) virtualaddr
      ≡ physaddr + virtualaddr % 4096
unfolding get_physaddr map_page
get_physaddr-map_page t physaddr virtualaddr flags lt aligned present apart =
    let (bit, page) = entry_bits physaddr flags lt aligned in
    let d : (directory_slot t virtualaddr == table_slot t virtualaddr) ≡ false =
      ground (arith, apart) in
    let s : (table_slot t virtualaddr == table_slot t virtualaddr) ≡ true = ground arith in
    let off : bit_and virtualaddr 0xFFF ≡ virtualaddr % 4096 = bit_and-ones 12 virtualaddr in
    rw d (rw present (rw s (rw bit (rw page (rw off (omega arith))))))

-- map_page changes the translation of no address with another slot, as long as the slot it writes
-- is not that address's directory entry.
pub get_physaddr-map_page_ne :
    (t : Tables) (physaddr virtualaddr flags other : ℕ)
    → table_slot t other ≢ table_slot t virtualaddr
    → directory_slot t other ≢ table_slot t virtualaddr
    → get_physaddr (map_page physaddr virtualaddr flags t) other ≡ get_physaddr t other
unfolding get_physaddr map_page
get_physaddr-map_page_ne t physaddr virtualaddr flags other slot_ne entry_ne =
    let d : (directory_slot t other == table_slot t virtualaddr) ≡ false =
      ground (arith, entry_ne) in
    let s : (table_slot t other == table_slot t virtualaddr) ≡ false = ground (arith, slot_ne) in
    rw d (rw s refl)

-- map_page writes its slot and no other word.
pub map_page_other :
    (t : Tables) (physaddr virtualaddr flags a : ℕ)
    → a ≢ table_slot t virtualaddr
    → (map_page physaddr virtualaddr flags t).word a ≡ t.word a
unfolding map_page
map_page_other t physaddr virtualaddr flags a ne =
    let s : (a == table_slot t virtualaddr) ≡ false = ground (arith, ne) in rw s refl
