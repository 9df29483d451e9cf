-- ===== src/Terminal/Tests.antt =====
-- Runs of the screen of KluxOS/src/drivers/terminal.c, and the theorems at concrete inputs.
use klux_os.Terminal.Older.{write_lem}
use klux_os.Terminal.Older
use klux_os.Terminal.Numbers.{print_uint_lem}
use klux_os.Terminal.Digits.{IsDecimal, decimal_value, IsNumeralOf}
use klux_os.Terminal.Text.{putchar-IsValid}
use klux_os.Terminal.Block.{writestring-block, with_block}
use klux_os.Terminal.Scroll.{scroll_lem, scrolled}
use klux_os.Terminal.Format.{placeholder, print_uint, printf_from, printf}
use klux_os.Terminal.Screen.{position, IsShown, IsPlain, IsValid}
use klux_os.Terminal.{
  vga_width, blank, default_color, vga_height, putchar, vga_entry_color, Terminal, scroll,
  vga_entry, writestring,
}
use klux_os.Base.{
  get_or, ◌<◌, ◌%◌, ◌≤◌, length, ◌+◌, ◌*◌, length-replicate, replicate, ℕ, ◌≡◌, All, List, refl,
  arith, [], ◌∷◌, true,
}

-- A screen of zero cells with the place in its last row.
abbrev bottom : Terminal
bottom = record {
  cells = replicate (vga_height * vga_width) 0;
  color = default_color;
  row = 24;
  column = 77;
  cursor_visible = true;
  cursor_start = 14;
  cursor_end = 15;
  cursor_high = 7;
  cursor_low = 205;
}

bottom-IsValid : IsValid bottom
bottom-IsValid = (length-replicate {A = ℕ} (vga_height * vga_width) 0, omega arith, omega arith)

-- "A" in grey on black.
vga_entry_run : vga_entry 65 default_color ≡ 0x0741
unfolding vga_entry vga_entry_color
vga_entry_run = refl

-- "%d%" prints "(int)".
printf_run :
    printf (37 ∷ 100 ∷ 37 ∷ []) bottom ≡ writestring (40 ∷ 105 ∷ 110 ∷ 116 ∷ 41 ∷ []) bottom
unfolding printf printf_from writestring placeholder
printf_run = refl

putchar-IsValid_example : IsValid (putchar 10 bottom) × IsShown (putchar 10 bottom)
putchar-IsValid_example = putchar-IsValid 10 bottom bottom-IsValid

scroll_lem_example :
    scroll 2 bottom ≡ record bottom { cells = scrolled 2 (blank bottom) bottom.cells }
scroll_lem_example =
    scroll_lem 2 bottom (length-replicate {A = ℕ} (vga_height * vga_width) 0) (omega arith)
      (omega arith)

-- "ok"
abbrev ok_text : List ℕ
ok_text = 111 ∷ 107 ∷ []

ok_text-IsPlain : All IsPlain ok_text
ok_text-IsPlain = (
  (λ p. omega arith, λ p. omega arith, λ p. omega arith, λ p. omega arith),
  ((λ p. omega arith, λ p. omega arith, λ p. omega arith, λ p. omega arith), tt),
)

writestring-block_example :
    let t' = writestring ok_text bottom in
    (t'.cells ≡ with_block (position bottom) bottom.color ok_text bottom.cells)
    × (position t' ≡ position bottom + length ok_text)
    × (t'.color ≡ bottom.color)
writestring-block_example =
    writestring-block ok_text bottom ok_text-IsPlain bottom-IsValid (omega arith)

print_uint_lem_example :
    (text : List ℕ) × (print_uint 4294967295 bottom ≡ writestring text bottom)
    × IsNumeralOf 10 decimal_value 4294967295 text
    × All IsDecimal text
    × (length text ≤ 10)
print_uint_lem_example = print_uint_lem 4294967295 bottom (omega arith)

-- The last place, before the first one again.
abbrev old_screen : Older.Screen
old_screen = record { cells = replicate 2000 0; color = 7; row = 24; column = 78 }

write_lem_example :
    let after = Older.write (72 ∷ 105 ∷ 33 ∷ []) old_screen in
    Older.IsValid after
    × (Older.position after ≡ (Older.position old_screen + 3) % 2000)
    × ((i : ℕ)
        → i < 3
        → get_or after.cells ((Older.position old_screen + i) % 2000) 0
          ≡ vga_entry (get_or (72 ∷ 105 ∷ 33 ∷ []) i 0) 7)
write_lem_example =
    write_lem (72 ∷ 105 ∷ 33 ∷ []) old_screen (refl, omega arith, omega arith)
      (omega arith, (omega arith, (omega arith, tt))) (omega arith)
