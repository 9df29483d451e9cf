-- ===== src/Memory/Setup/Turns.antt =====
-- The turns of the loop of init_paging in KluxOS/src/kernel/mm/memory.c.
use mathlib.Core.Path.{subst}
use klux_os.Memory.Setup.Fresh.{IsTaken, alloc_frame-IsTaken}
use klux_os.Memory.Setup.Boot.{IsBoot, unchanged-IsBoot, map_page-IsBoot, map_page_above}
use klux_os.Memory.Paging.{map_page}
use klux_os.Memory.Setup.{
  tables_of, Setup, get_page, page_at, setup_page, take_page, setup_pages, store_page,
}
use klux_os.Memory.Frames.{Mapping, PageFrame, page_size, flags_of}
use klux_os.Base.{
  ◌^◌, get_or, leb, ◌&&◌, ◌%◌, ◌*◌, ◌==◌, ◌+◌, ◌/◌, ◌<◌, ◌≤◌, ◌≡◌, ◌≢◌, ℕ_discrete, List, ℕ, zero,
  suc, refl, arith, [], ◌∷◌, some, true, false, ◌∙◌, ap, sym, if◌then◌else◌,
}

-- The calls of `map_page` for the first `n` pages of a table, the last one first.
abbrev pub requests_of : (table n : ℕ) → List (ℕ × Mapping)
requests_of table zero = []
requests_of table (suc n) =
    (table + 4 * n, record { physaddr = (256 + n) * page_size; flags = flags_of true false })
    ∷ requests_of table n

requests_more :
    (table n : ℕ)
    → requests_of table (n + 1)
      ≡ (table + 4 * n, record { physaddr = (256 + n) * page_size; flags = flags_of true false })
        ∷ requests_of table n
requests_more table n = let e : n + 1 ≡ suc n = omega arith in ap (requests_of table) e

-- The words of a table whose first `n` pages were set up.
abbrev pub word_after : (n j : ℕ) → ℕ
word_after n j = if leb 1 j && leb j n then 7 else 0

-- The first `n` pages are set up, in a table at `table`; map_page writes below `low`.
abbrev pub IsSetUp : (low table n : ℕ) → Setup → Type 0
IsSetUp low table n s =
    IsBoot low s.page_directory s.word
    × (get_or s.tables 0 0 ≡ table)
    × (s.physical_addr ≡ 0)
    × ((j : ℕ) → j ≤ 1024 → s.word (table + 4 * j) ≡ word_after n j)
    × IsTaken (256 + n) s.frames
    × (s.requests ≡ requests_of table n)

pub get_page_lem :
    (g : ℕ → ℕ) (table i : ℕ) (s : Setup)
    → 0 < table
    → i < 1024
    → get_or s.tables 0 0 ≡ table
    → get_page g (i * page_size) true s ≡ (table + 4 * i, s)
unfolding get_page
get_page_lem g table i s pos few held =
    let a : i * page_size / page_size ≡ i = omega arith in
    let b : i / 1024 ≡ 0 = omega arith in
    let c : i % 1024 ≡ i = omega arith in
    let d : (table == 0) ≡ false = ground (arith, pos) in rw a (rw b (rw c (rw held (rw d refl))))

page_at_unused :
    (word : ℕ → ℕ) (address : ℕ) → word (address + 4) ≡ 0 → (page_at word address).used ≡ false
unfolding page_at
page_at_unused word address e = rw e refl

store_page_self :
    (word : ℕ → ℕ) (address : ℕ)
    → word (address + 4) ≡ 0
    → store_page address
        (record { used = true; kernel_page = true; ref_count = 1 })
        word
        (address + 4)
      ≡ 7
unfolding store_page
store_page_self word address e =
    let t : (address + 4 == address + 4) ≡ true = ground arith in rw t (rw e refl)

store_page_other :
    (word : ℕ → ℕ) (address a : ℕ) (page : PageFrame)
    → a ≢ address + 4
    → store_page address page word a ≡ word a
unfolding store_page
store_page_other word address a page ne =
    let t : (a == address + 4) ≡ false = ground (arith, ne) in rw t refl

stored :
    (word : ℕ → ℕ) (table n : ℕ)
    → n < 1024
    → ((j : ℕ) → j ≤ 1024 → word (table + 4 * j) ≡ word_after n j)
    → (j : ℕ) → j ≤ 1024
    → store_page
        (table + 4 * n)
        (record { used = true; kernel_page = true; ref_count = 1 })
        word
        (table + 4 * j)
      ≡ word_after (n + 1) j
stored word table n few words j h = elim (ℕ_discrete j (n + 1)) [
  | yes e ↦
      let at : table + 4 * j ≡ table + 4 * n + 4 = omega (arith, e) in
      let next : table + 4 * (n + 1) ≡ table + 4 * n + 4 = omega arith in
      let clear : word (table + 4 * n + 4) ≡ 0 =
        ap word (sym next) ∙ words (n + 1) (omega arith) ∙ ground arith in
      ap
        (store_page (table + 4 * n) (record { used = true; kernel_page = true; ref_count = 1 })
          word)
        at
      ∙ store_page_self word (table + 4 * n) clear
      ∙ ground (arith, e)
  | no ne ↦
      store_page_other word (table + 4 * n) (table + 4 * j) _ (λ e. ne (omega (arith, e)))
      ∙ words j h
      ∙ ground (arith, ne)
]

-- A table on or above `low` that ends with the address space at most.
abbrev pub IsTable : (low table : ℕ) → Type 0
IsTable low table = (0 < table) × (low ≤ table) × (table + 4 * 1024 < 2 ^ 32)

-- The page that alloc_frame makes of an unused one.
abbrev kept_page : PageFrame
kept_page = record { used = true; kernel_page = true; ref_count = 1 }

-- What alloc_frame notes in memory for page `n`, before its call of map_page and after it.
abbrev noted : (table n : ℕ) → Setup → ℕ → ℕ
noted table n s = store_page (table + 4 * n) kept_page s.word

abbrev request : (n : ℕ) → Mapping
request n = record { physaddr = (256 + n) * page_size; flags = flags_of true false }

abbrev mapped_word : (table n : ℕ) → Setup → ℕ → ℕ
mapped_word table n s =
    (map_page (request n).physaddr (table + 4 * n) (request n).flags
      (tables_of s.page_directory (noted table n s))).word

noted-IsBoot :
    (low table n : ℕ) (s : Setup)
    → IsTable low table
    → IsBoot low s.page_directory s.word
    → IsBoot low s.page_directory (noted table n s)
noted-IsBoot low table n s place boot =
    unchanged-IsBoot low s.page_directory s.word (noted table n s) boot (λ v hv.
      store_page_other s.word (table + 4 * n) _ kept_page
        (λ e. omega (arith, e, (boot v v hv hv).0, place.1)))

-- One turn of the loop.
setup_page_lem :
    (g : ℕ → ℕ) (low table n : ℕ) (s : Setup)
    → IsTable low table
    → n < 1024
    → IsSetUp low table n s
    → (s' : Setup) × (setup_page g n s ≡ some s') × IsSetUp low table (n + 1) s'
unfolding setup_page take_page
setup_page_lem g low table n s place few (boot, held, physical, words, taken, asked) =
    let next : table + 4 * (n + 1) ≡ table + 4 * n + 4 = omega arith in
    let clear : s.word (table + 4 * n + 4) ≡ 0 =
      ap s.word (sym next) ∙ words (n + 1) (omega arith) ∙ ground arith in
    let (frames, done, rest) =
      alloc_frame-IsTaken (256 + n) s.frames (page_at s.word (table + 4 * n)) true false
        (omega arith) taken (page_at_unused s.word (table + 4 * n) clear) in
    let address : table + 4 * n < 2 ^ 32 = omega (arith, place.2, few) in
    let boot' = noted-IsBoot low table n s place boot in
    (
      record s {
        word = mapped_word table n s;
        frames = frames;
        requests = (table + 4 * n, request n) ∷ s.requests;
      },
      rw (get_page_lem g table n s place.0 few held) (rw (done, take_page) refl),
      (
        map_page-IsBoot low s.page_directory (noted table n s) _ (table + 4 * n) _ boot' address,
        held,
        physical,
        λ j h.
            map_page_above low s.page_directory (noted table n s) _ (table + 4 * n) _
              (table + 4 * j) boot' address (omega (arith, place.1))
            ∙ stored s.word table n few words j h,
        subst (λ m. IsTaken m frames) (omega arith) rest,
        ap (λ r. (table + 4 * n, request n) ∷ r) asked ∙ sym (requests_more table n),
      ),
    )

pub setup_pages_lem :
    (g : ℕ → ℕ) (left low table n : ℕ) (s : Setup)
    → IsTable low table
    → n + left ≡ 1024
    → IsSetUp low table n s
    → (s' : Setup) × (setup_pages g left n s ≡ some s') × IsSetUp low table 1024 s'
unfolding setup_pages
setup_pages_lem g zero low table n s place total ready =
    (s, refl, subst (λ m. IsSetUp low table m s) (omega (arith, total)) ready)
setup_pages_lem g (suc left) low table n s place total ready =
    let (s1, step, ready1) = setup_page_lem g low table n s place (omega (arith, total)) ready in
    let (s2, steps, ready2) =
      setup_pages_lem g left low table (n + 1) s1 place (omega (arith, total)) ready1 in
    (s2, rw (step, setup_pages) steps, ready2)
