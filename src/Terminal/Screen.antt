-- ===== src/Terminal/Screen.antt =====
-- Where the characters that KluxOS/src/drivers/terminal.c prints go on the screen, and the cursor.
use klux_os.Terminal.Scroll.{scroll_lem, scrolled}
use klux_os.Terminal.{
  tab, vga_entry, vga_height, vga_width, blank, putentryat, Terminal, move_cursor, newline,
  place_char, putchar, show_cursor,
}
use klux_os.Base.{
  length-drop, length-replicate, replicate, drop, length-append, ◌||◌, dec_lt, leb, length-set, ◌%◌,
  ◌-◌, ◌==◌, ◌^◌, List, length, ltb, set, ◌*◌, ◌+◌, ◌/◌, ◌<◌, ◌≡◌, ◌≢◌, ℕ, refl, arith, true, false,
  ◌∙◌, ap, if◌then◌else◌,
}

-- All the cells are there, and the place is on the screen.
abbrev pub IsValid : Terminal → Type 0
IsValid t =
    (length t.cells ≡ vga_height * vga_width) × (t.row < vga_height) × (t.column < vga_width)

-- The place as the index of a cell.
abbrev pub position : Terminal → ℕ
position t = t.row * vga_width + t.column

-- The hardware's cursor is at the place.
abbrev pub IsShown : Terminal → Type 0
IsShown t = t.cursor_high * 2 ^ 8 + t.cursor_low ≡ position t

-- A character with no meaning of its own to `terminal_putchar`.
abbrev pub IsPlain : ℕ → Type 0
IsPlain c = (c ≢ 8) × (c ≢ 9) × (c ≢ 10) × (c ≢ 13)

-- The place and the hardware's cursor set to the cell `p`.
abbrev pub at : (p : ℕ) → Terminal → Terminal
at p t = record t {
  row = p / vga_width;
  column = p % vga_width;
  cursor_high = p / 2 ^ 8;
  cursor_low = p % 2 ^ 8;
}

abbrev cursor_at : (row column high low : ℕ) → Terminal → Terminal
cursor_at row column high low t = record t {
  row = row;
  column = column;
  cursor_high = high;
  cursor_low = low;
}

cursor_at_ext :
    {a a' b b' c c' d d' : ℕ} (t : Terminal)
    → a ≡ a'
    → b ≡ b'
    → c ≡ c'
    → d ≡ d'
    → cursor_at a b c d t ≡ cursor_at a' b' c' d' t
cursor_at_ext {a} {a'} {b} {b'} {c} {c'} {d} {d'} t p q r s =
    ap (λ x. cursor_at x b c d t) p
    ∙ ap (λ x. cursor_at a' x c d t) q
    ∙ ap (λ x. cursor_at a' b' x d t) r
    ∙ ap (λ x. cursor_at a' b' c' x t) s

pub move_cursor_lem :
    (x y : ℕ) (t : Terminal)
    → x < vga_width
    → y < vga_height
    → move_cursor x y t ≡ at (y * vga_width + x) t
unfolding move_cursor
move_cursor_lem x y t hx hy =
    let inside : (leb vga_width x || leb vga_height y) ≡ false = ground (arith, hx, hy) in
    rw inside (cursor_at_ext t (omega arith) (omega arith) (omega arith) (omega arith))

pub show_cursor_lem : (t : Terminal) → IsValid t → show_cursor t ≡ at (position t) t
unfolding show_cursor
show_cursor_lem t valid = move_cursor_lem t.column t.row t valid.2 valid.1

pub at-IsValid :
    (p : ℕ) (t : Terminal)
    → length t.cells ≡ vga_height * vga_width
    → p < vga_height * vga_width
    → IsValid (at p t)
at-IsValid p t all lt = (all, omega arith, omega arith)

pub at-IsShown : (p : ℕ) (t : Terminal) → p < vga_height * vga_width → IsShown (at p t)
at-IsShown p t lt = omega arith

-- A new line from a column on the screen or just past it, before the cursor is shown.
abbrev next_line : Terminal → Terminal
next_line t =
    if ltb (t.row + 1) vga_height
    then record t { column = 0; row = t.row + 1 }
    else record t { column = 0; row = vga_height - 1; cells = scrolled 1 (blank t) t.cells }

newline_lem :
    (t : Terminal)
    → length t.cells ≡ vga_height * vga_width
    → t.row < vga_height
    → newline t ≡ next_line t
unfolding newline blank
newline_lem t all low =
    let small : (t.row + 1) % 2 ^ 16 ≡ t.row + 1 = omega arith in
    elim (dec_lt (t.row + 1) vga_height) [
      | yes room ↦
          let go : ((t.row + 1) % 2 ^ 16 == vga_height) ≡ false = ground (arith, room) in
          let so : ltb (t.row + 1) vga_height ≡ true = ground (arith, room) in
          rw go (rw so (ap (λ r. record t { column = 0; row = r }) small))
      | no last ↦
          let go : ((t.row + 1) % 2 ^ 16 == vga_height) ≡ true = ground (arith, last) in
          let so : ltb (t.row + 1) vga_height ≡ false = ground (arith, last) in
          let below : Terminal = record t { column = 0; row = (t.row + 1) % 2 ^ 16 } in
          rw go (
            rw so (
              ap (λ (s : Terminal). record s { row = vga_height - 1 })
                (scroll_lem 1 below all (omega arith) (omega arith))))
    ]

pub length-scrolled :
    (entry : ℕ) (cells : List ℕ)
    → length cells ≡ vga_height * vga_width
    → length (scrolled 1 entry cells) ≡ vga_height * vga_width
length-scrolled entry cells all = omega (
  arith,
  length-append (drop (1 * vga_width) cells) (replicate (1 * vga_width) entry),
  length-replicate (1 * vga_width) entry,
  length-drop (1 * vga_width) cells,
)

pub newline-IsValid :
    (t : Terminal)
    → length t.cells ≡ vga_height * vga_width
    → t.row < vga_height
    → IsValid (newline t)
newline-IsValid t all low = rw (newline_lem t all low) (elim (dec_lt (t.row + 1) vga_height) [
  | yes room ↦
      let so : ltb (t.row + 1) vga_height ≡ true = ground (arith, room) in
      rw so (all, room, omega arith)
  | no last ↦
      let so : ltb (t.row + 1) vga_height ≡ false = ground (arith, last) in
      rw so (length-scrolled (blank t) t.cells all, omega arith, omega arith)
])

-- The cells after a plain character is stored at the place.
abbrev pub with_char : ℕ → Terminal → Terminal
with_char c t = record t { cells = set t.cells (position t) (vga_entry c t.color) }

place_char_plain :
    (tab : Terminal → Terminal) (c : ℕ) (t : Terminal)
    → IsPlain c
    → t.column < vga_width
    → place_char tab c t ≡ (
        let next : Terminal = record (with_char c t) { column = t.column + 1 } in
        if t.column + 1 == vga_width then newline next else next)
unfolding place_char putentryat
place_char_plain tab c t plain lt =
    let n8 : (c == 8) ≡ false = ground (arith, plain) in
    let n9 : (c == 9) ≡ false = ground (arith, plain) in
    let n10 : (c == 10) ≡ false = ground (arith, plain) in
    let n13 : (c == 13) ≡ false = ground (arith, plain) in
    let small : (t.column + 1) % 2 ^ 16 ≡ t.column + 1 = omega arith in
    rw n10 (
      rw n13 (
        rw n8 (
          rw n9 (
            ap
              (λ (n : ℕ).
                let next : Terminal = record (with_char c t) { column = n } in
                if n == vga_width then newline next else next)
              small))))

-- A plain character with room after it: it is stored at the place, and the place and the cursor
-- move on by one cell.
pub putchar-room :
    (c : ℕ) (t : Terminal)
    → IsPlain c
    → IsValid t
    → position t + 1 < vga_height * vga_width
    → putchar c t ≡ at (position t + 1) (with_char c t)
unfolding putchar
putchar-room c t plain valid room =
    let s = with_char c t in
    let len : length s.cells ≡ vga_height * vga_width =
      length-set t.cells (position t) (vga_entry c t.color) ∙ valid.0 in
    ap show_cursor (place_char_plain tab c t plain valid.2)
    ∙ elim (dec_lt (t.column + 1) vga_width) [
      | yes more ↦
          let go : (t.column + 1 == vga_width) ≡ false = ground (arith, more) in
          rw go (
            show_cursor_lem (record s { column = t.column + 1 }) (len, valid.1, more)
            ∙ ap (λ n. at n s) (omega arith))
      | no full ↦
          let end : (t.column + 1 == vga_width) ≡ true = ground (arith, full, valid.2) in
          let next : Terminal = record s { column = t.column + 1 } in
          let so : ltb (t.row + 1) vga_height ≡ true = ground (arith, full, room, valid) in
          let below : newline next ≡ record s { column = 0; row = t.row + 1 } =
            newline_lem next len valid.1 ∙ rw so refl in
          rw end (
            ap show_cursor below
            ∙ show_cursor_lem (record s { column = 0; row = t.row + 1 })
                (len, omega arith, omega arith)
            ∙ ap (λ n. at n s) (omega arith))
    ]

-- A plain character in the last cell: it is stored, the screen scrolls by one row, and the place
-- and the cursor are at the start of the last row.
pub putchar-last :
    (c : ℕ) (t : Terminal)
    → IsPlain c
    → IsValid t
    → position t + 1 ≡ vga_height * vga_width
    → putchar c t
      ≡ at
          ((vga_height - 1) * vga_width)
          (record t { cells = scrolled 1 (blank t) (with_char c t).cells })
unfolding putchar blank
putchar-last c t plain valid last =
    let s = with_char c t in
    let len : length s.cells ≡ vga_height * vga_width =
      length-set t.cells (position t) (vga_entry c t.color) ∙ valid.0 in
    let end : (t.column + 1 == vga_width) ≡ true = ground (arith, last, valid) in
    let next : Terminal = record s { column = t.column + 1 } in
    let so : ltb (t.row + 1) vga_height ≡ false = ground (arith, last, valid) in
    let after : Terminal = record s {
      column = 0;
      row = vga_height - 1;
      cells = scrolled 1 (blank t) s.cells;
    } in
    let below : newline next ≡ after = newline_lem next len valid.1 ∙ rw so refl in
    ap show_cursor (place_char_plain tab c t plain valid.2)
    ∙ rw end (
        ap show_cursor below
        ∙ show_cursor_lem after (length-scrolled (blank t) s.cells len, omega arith, omega arith))
