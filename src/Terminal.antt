-- ===== src/Terminal.antt =====
-- KluxOS/src/drivers/terminal.c: the text screen of 80 columns and 25 rows, and its cursor.
pub mod Format
pub mod Input
pub mod Scroll
pub mod Screen
pub mod Text
pub mod Block
pub mod Digits
pub mod Numbers
pub mod Line
pub mod Erase
pub mod Older
mod Tests
use klux_os.Base.{
  get_or, ◌*◌, ◌^◌, ◌||◌, bit_and, bit_or, leb, set, ◌%◌, ◌/◌, ◌==◌, Bool, List, ltb, ℕ, ◌+◌, ◌-◌,
  zero, suc, refl, arith, [], ◌∷◌, none, some, true, false, if◌then◌else◌,
}

abbrev pub vga_width : ℕ
vga_width = 80

abbrev pub vga_height : ℕ
vga_height = 25

abbrev pub tab_size : ℕ
tab_size = 4

-- ' '
abbrev pub space : ℕ
space = 32

-- The video memory and the static variables, with the registers 10, 11, 14 and 15 of the CRT
-- controller: the shape of the hardware's cursor and the two bytes of its place.
pub record Terminal : Type 0 where
  pub cells : List ℕ
  pub color : ℕ
  pub row : ℕ
  pub column : ℕ
  pub cursor_visible : Bool
  pub cursor_start : ℕ
  pub cursor_end : ℕ
  pub cursor_high : ℕ
  pub cursor_low : ℕ

-- `enum vga_color` is its numbers, from 0 to 15.
pub vga_entry_color : (fg bg : ℕ) → ℕ
vga_entry_color fg bg = bit_or fg (bg * 2 ^ 4) % 2 ^ 8

pub vga_entry : (uc color : ℕ) → ℕ
vga_entry uc color = bit_or (uc % 2 ^ 8) (color * 2 ^ 8) % 2 ^ 16

-- What the code fills the screen with.
unfoldable pub blank : Terminal → ℕ
blank t = vga_entry space t.color

-- Both numbers are below 2^16, so that the index is below 2^32.
unfoldable pub putentryat : (c color x y : ℕ) → Terminal → Terminal
putentryat c color x y t = record t { cells = set t.cells (y * vga_width + x) (vga_entry c color) }

unfoldable pub move_cursor : (x y : ℕ) → Terminal → Terminal
move_cursor x y t =
    if leb vga_width x || leb vga_height y
    then t
    else (let pos = (y * vga_width + x) % 2 ^ 16 in
        record t {
          column = x;
          row = y;
          cursor_low = pos % 2 ^ 8;
          cursor_high = pos / 2 ^ 8 % 2 ^ 8;
        })

unfoldable pub set_cursor_visible : Bool → Terminal → Terminal
set_cursor_visible visible t = record t {
  cursor_visible = visible;
  cursor_start = if visible then 14 else 0x1F;
  cursor_end = if visible then 15 else 0x1F;
}

-- The inner loop of `terminal_scroll` that moves the row `y` up, from the column `x`. The cells
-- are all there, so that the 0 is never read.
unfoldable pub copy_row : (lines left x y : ℕ) → List ℕ → List ℕ
copy_row lines zero x y cells = cells
copy_row lines (suc left) x y cells =
    copy_row lines left (x + 1) y
      (set cells ((y - lines) * vga_width + x) (get_or cells (y * vga_width + x) 0))

unfoldable pub move_rows : (lines left y : ℕ) → List ℕ → List ℕ
move_rows lines zero y cells = cells
move_rows lines (suc left) y cells =
    move_rows lines left (y + 1) (copy_row lines vga_width 0 y cells)

-- The loops that store one entry over the row `y`, and over the rows from `y` on.
unfoldable pub fill_row : (entry left x y : ℕ) → List ℕ → List ℕ
fill_row entry zero x y cells = cells
fill_row entry (suc left) x y cells =
    fill_row entry left (x + 1) y (set cells (y * vga_width + x) entry)

unfoldable pub fill_rows : (entry left y : ℕ) → List ℕ → List ℕ
fill_rows entry zero y cells = cells
fill_rows entry (suc left) y cells =
    fill_rows entry left (y + 1) (fill_row entry vga_width 0 y cells)

-- `lines` is a 32-bit word, negative from 2^31 on. Past 25 lines, `VGA_HEIGHT - lines` is negative
-- and a huge number as a `size_t`, so that neither loop has a turn.
unfoldable pub scroll : (lines : ℕ) → Terminal → Terminal
scroll lines t =
    if (lines == 0) || leb (2 ^ 31) lines
    then t
    else (let moved = move_rows lines (vga_height - lines) lines t.cells in
        record t {
          cells =
              if leb lines vga_height
              then fill_rows (blank t) lines (vga_height - lines) moved
              else moved;
        })

unfoldable pub newline : Terminal → Terminal
newline t =
    let row = (t.row + 1) % 2 ^ 16 in
    if row == vga_height
    then record (scroll 1 (record t { column = 0; row = row })) { row = vga_height - 1 }
    else record t { column = 0; row = row }

-- The two stores of a backspace, once the column and the row are set.
unfoldable pub erase_at : (column row : ℕ) → Terminal → Terminal
erase_at column row t =
    move_cursor column row
      (putentryat space t.color column row (record t { column = column; row = row }))

unfoldable pub backspace : Terminal → Terminal
backspace t =
    if ltb 0 t.column
    then erase_at (t.column - 1) t.row t
    else if ltb 0 t.row
    then erase_at (vga_width - 1) (t.row - 1) t
    else t

pub delete : Terminal → Terminal
delete t = putentryat space t.color t.column t.row t

-- `terminal_putchar` before it shows the cursor. `tab` stands for `terminal_tab`, which calls
-- `terminal_putchar` with a space and so never itself.
unfoldable pub place_char : (tab : Terminal → Terminal) → ℕ → Terminal → Terminal
place_char tab c t =
    let stored = putentryat c t.color t.column t.row t in
    let next : Terminal = record stored { column = (t.column + 1) % 2 ^ 16 } in
    if c == 10
    then newline t
    else if c == 13
    then record t { column = 0 }
    else if c == 8
    then backspace t
    else if c == 9
    then tab t
    else if (t.column + 1) % 2 ^ 16 == vga_width
    then newline next
    else next

unfoldable pub show_cursor : Terminal → Terminal
show_cursor t = move_cursor t.column t.row t

-- The loop of `terminal_tab`.
unfoldable pub put_spaces : ℕ → Terminal → Terminal
put_spaces zero t = t
put_spaces (suc left) t = put_spaces left (show_cursor (place_char (λ s. s) space t))

pub tab : Terminal → Terminal
tab t = put_spaces tab_size t

-- Characters are bytes.
unfoldable pub putchar : ℕ → Terminal → Terminal
putchar c t = show_cursor (place_char tab c t)

-- `terminal_write`, and `terminal_writestring` with the bytes before the 0.
unfoldable pub write : List ℕ → Terminal → Terminal
write [] t = t
write (c ∷ text) t = write text (putchar c t)

unfoldable pub writestring : List ℕ → Terminal → Terminal
writestring [] t = t
writestring (c ∷ text) t = writestring text (putchar c t)

unfoldable pub clear_line : (line : ℕ) → Terminal → Terminal
clear_line line t =
    if leb vga_height line
    then t
    else record t { cells = fill_row (blank t) vga_width 0 line t.cells }

-- The loop over lines of the two functions below.
unfoldable pub clear_lines : (left y : ℕ) → Terminal → Terminal
clear_lines zero y t = t
clear_lines (suc left) y t = clear_lines left (y + 1) (clear_line (y % 2 ^ 16) t)

unfoldable pub clear_screen_from_cursor : Terminal → Terminal
clear_screen_from_cursor t =
    clear_lines (vga_height - (t.row + 1)) (t.row + 1)
      (record t { cells = fill_row (blank t) (vga_width - t.column) t.column t.row t.cells })

unfoldable pub clear_screen_to_cursor : Terminal → Terminal
clear_screen_to_cursor t =
    let above = clear_lines t.row 0 t in
    record above { cells = fill_row (blank t) (t.column + 1) 0 t.row above.cells }

unfoldable pub clear : Terminal → Terminal
clear t =
    move_cursor 0 0
      (record t { cells = fill_rows (blank t) vga_height 0 t.cells; row = 0; column = 0 })

unfoldable pub setcolor : ℕ → Terminal → Terminal
setcolor color t = record t { color = color }

abbrev pub default_color : ℕ
default_color = vga_entry_color 7 0

unfoldable pub initialize : Terminal → Terminal
initialize t = move_cursor 0 0 (
    set_cursor_visible true (record t {
      row = 0;
      column = 0;
      color = default_color;
      cells = fill_rows (vga_entry space default_color) vga_height 0 t.cells;
    }))

unfoldable pub set_fg_color : (fg : ℕ) → Terminal → Terminal
set_fg_color fg t = record t { color = vga_entry_color fg (t.color / 2 ^ 4) }

unfoldable pub set_bg_color : (bg : ℕ) → Terminal → Terminal
set_bg_color bg t = record t { color = vga_entry_color (bit_and t.color 0x0F) bg }

unfoldable pub reset_color : Terminal → Terminal
reset_color t = record t { color = default_color }
