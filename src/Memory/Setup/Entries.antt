-- ===== src/Memory/Setup/Entries.antt =====
-- The table of the first 4 MB as init_paging of KluxOS/src/kernel/mm/memory.c leaves it.
use klux_os.Memory.Setup.{Setup, cleared, kmalloc_aligned_physical}
use klux_os.Base.{set, bit_or, ◌*◌, ◌<◌, ◌≤◌, ◌≡◌, ℕ}

-- The state after the first call of `get_page`.
abbrev with_table : (g : ℕ → ℕ) → Setup → Setup
with_table g s =
    let (start, phys, rest) = kmalloc_aligned_physical g (4 * 1024) s.heap in
    record s {
      heap = rest;
      word = cleared s.word start (4 * 1024);
      tables = set s.tables 0 start;
      tables_physical = set s.tables_physical 0 (bit_or (bit_or (bit_or phys 1) 2) 4);
    }

abbrev table_start : (g : ℕ → ℕ) → Setup → ℕ
table_start g s = (kmalloc_aligned_physical g (4 * 1024) s.heap).0

-- No word from `low` to `limit` was written.
abbrev pub IsUnwritten : (low limit : ℕ) → (ℕ → ℕ) → Type 0
IsUnwritten low limit word = (a : ℕ) → low ≤ a → a < limit → word a ≡ 0
