-- ===== src/Memory/Paging.antt =====
-- The page tables of KluxOS/src/kernel/mm/memory_ext.c: get_physaddr and map_page on the words of
-- memory, by byte address.
pub mod Mapped
use klux_os.Base.{
  ◌%◌, ◌*◌, ◌==◌, ◌^◌, bit_and, bit_or, ◌+◌, ◌/◌, ℕ, zero, suc, [], none, some, true, false,
  if◌then◌else◌,
}

-- Memory by words, and the pointer `page_directory`, which boot code sets.
pub record Tables : Type 0 where
  pub word : ℕ → ℕ
  pub page_directory : ℕ

abbrev pub pdindex : ℕ → ℕ
pdindex virtualaddr = virtualaddr / 2 ^ 22

abbrev pub ptindex : ℕ → ℕ
ptindex virtualaddr = bit_and (virtualaddr / 2 ^ 12) 0x3FF

-- `&page_directory[pdindex]`.
abbrev pub directory_slot : Tables → ℕ → ℕ
directory_slot t virtualaddr = t.page_directory + 4 * pdindex virtualaddr

-- `&pt[ptindex]`, where `pt` is the table that the directory's entry points to.
abbrev pub table_slot : Tables → ℕ → ℕ
table_slot t virtualaddr =
    bit_and (t.word (directory_slot t virtualaddr)) 0xFFFF_F000 + 4 * ptindex virtualaddr

-- 0 is the null pointer.
pub get_physaddr : Tables → ℕ → ℕ
get_physaddr t virtualaddr =
    if bit_and (t.word (directory_slot t virtualaddr)) 1 == 0
    then 0
    else (let entry = t.word (table_slot t virtualaddr) in
        if bit_and entry 1 == 0
        then 0
        else (bit_and entry 0xFFFF_F000 + bit_and virtualaddr 0xFFF) % 2 ^ 32)

pub map_page : (physaddr virtualaddr flags : ℕ) → Tables → Tables
map_page physaddr virtualaddr flags t =
    let slot = table_slot t virtualaddr in
    let entry = bit_or (bit_or physaddr (bit_and flags 0xFFF)) 1 in
    record t { word = λ a. if a == slot then entry else t.word a }
