-- ===== src/Memory/Setup/Boot.antt =====
-- The page tables that are there before init_paging of KluxOS/src/kernel/mm/memory.c, into which
-- map_page of KluxOS/src/kernel/mm/memory_ext.c writes.
use klux_os.Memory.Paging.{directory_slot, table_slot, map_page}
use klux_os.Memory.Paging.Mapped.{map_page_other}
use klux_os.Memory.Setup.{tables_of, cleared}
use klux_os.Base.{◌^◌, ◌+◌, ◌<◌, ◌≤◌, ◌≡◌, ◌≢◌, leb, ltb, ◌&&◌, ℕ, refl, arith, false, sym}

-- Every address has its entries below `low`, and no entry of the directory is one of a table.
abbrev pub IsBoot : (low page_directory : ℕ) (word : ℕ → ℕ) → Type 0
IsBoot low page_directory word =
    let t = tables_of page_directory word in
    (v w : ℕ)
    → v < 2 ^ 32
    → w < 2 ^ 32
    → (directory_slot t v < low) × (table_slot t v < low) × (directory_slot t v ≢ table_slot t w)

-- A change of words that are not in the directory.
pub unchanged-IsBoot :
    (low page_directory : ℕ) (word word' : ℕ → ℕ)
    → IsBoot low page_directory word
    → ((v : ℕ)
        → v < 2 ^ 32
        → word' (directory_slot (tables_of page_directory word) v)
          ≡ word (directory_slot (tables_of page_directory word) v))
    → IsBoot low page_directory word'
unchanged-IsBoot low page_directory word word' boot same v w hv hw =
    let (below, table, apart) = boot v w hv hw in
    (below, rw (sym (same v hv)) at table, rw (sym (same w hw)) at apart)

-- A word at or above `low` is not written by map_page.
pub map_page_above :
    (low page_directory : ℕ) (word : ℕ → ℕ) (physaddr v flags a : ℕ)
    → IsBoot low page_directory word
    → v < 2 ^ 32
    → low ≤ a
    → (map_page physaddr v flags (tables_of page_directory word)).word a ≡ word a
map_page_above low page_directory word physaddr v flags a boot hv high =
    map_page_other (tables_of page_directory word) physaddr v flags a
      (λ e. omega (arith, e, (boot v v hv hv).1, high))

pub map_page-IsBoot :
    (low page_directory : ℕ) (word : ℕ → ℕ) (physaddr v flags : ℕ)
    → IsBoot low page_directory word
    → v < 2 ^ 32
    → IsBoot low page_directory (map_page physaddr v flags (tables_of page_directory word)).word
map_page-IsBoot low page_directory word physaddr v flags boot hv =
    unchanged-IsBoot low page_directory word
      (map_page physaddr v flags (tables_of page_directory word)).word boot
      (λ u hu. map_page_other (tables_of page_directory word) physaddr v flags _ (boot u v hu hv).2)

cleared_below : (word : ℕ → ℕ) (s n a : ℕ) → a < s → cleared word s n a ≡ word a
cleared_below word s n a h =
    let e : (leb s a && ltb a (s + n)) ≡ false = ground (arith, h) in rw e refl

pub cleared-IsBoot :
    (low page_directory : ℕ) (word : ℕ → ℕ) (s n : ℕ)
    → IsBoot low page_directory word
    → low ≤ s
    → IsBoot low page_directory (cleared word s n)
cleared-IsBoot low page_directory word s n boot above =
    unchanged-IsBoot low page_directory word (cleared word s n) boot
      (λ u hu. cleared_below word s n _ (omega (arith, (boot u u hu hu).0, above)))
