-- ===== src/Terminal/Erase.antt =====
-- The parts of the screen that KluxOS/src/drivers/terminal.c clears.
use klux_os.Terminal.Scroll.{get_or-fill_row, get_or-fill_rows, length-fill_row, length-fill_rows}
use klux_os.Terminal.Screen.{position, IsValid}
use klux_os.Terminal.{
  fill_row, vga_width, vga_height, Terminal, fill_rows, blank, clear_line, clear_lines,
  clear_screen_from_cursor, clear_screen_to_cursor,
}
use klux_os.Base.{
  get_or-drop, get_or-append_right, get_or-replicate, get_or-take, get_or-append_left, dec_lt,
  length-drop, ◌<◌, length-append, length-take, list_ext, length, length-replicate, ◌-◌, leb, drop,
  ◌*◌, ◌^◌, ◌%◌, ◌++◌, replicate, take, ◌≤◌, ◌+◌, ◌≡◌, ℕ, zero, suc, refl, arith, false, ◌∙◌, ap,
}

clear_lines-fill_rows :
    (left y : ℕ) (t : Terminal)
    → y + left ≤ vga_height
    → clear_lines left y t ≡ record t { cells = fill_rows (blank t) left y t.cells }
unfolding clear_lines clear_line fill_rows blank
clear_lines-fill_rows zero y t fits = refl
clear_lines-fill_rows (suc left) y t fits =
    let e : y % 2 ^ 16 ≡ y = omega arith in
    let inside : leb vga_height y ≡ false = ground (arith, fits) in
    let s : Terminal = record t { cells = fill_row (blank t) vga_width 0 y t.cells } in
    let here : clear_line (y % 2 ^ 16) t ≡ s = rw e (rw inside refl) in
    ap (clear_lines left (y + 1)) here ∙ clear_lines-fill_rows left (y + 1) s (omega arith)

-- Clearing from the place on blanks its cell and all that follow, in the current color; nothing
-- else changes.
pub clear_screen_from_cursor_lem :
    (t : Terminal)
    → IsValid t
    → clear_screen_from_cursor t ≡ record t {
      cells =
          take (position t) t.cells ++ replicate (vga_height * vga_width - position t) (blank t);
    }
unfolding clear_screen_from_cursor blank
clear_screen_from_cursor_lem t valid =
    let entry = blank t in
    let p = position t in
    let first = fill_row entry (vga_width - t.column) t.column t.row t.cells in
    let left = vga_height - (t.row + 1) in
    let cells = fill_rows entry left (t.row + 1) first in
    let a = length-fill_row entry (vga_width - t.column) t.column t.row t.cells in
    let b = length-fill_rows entry left (t.row + 1) first in
    let kept : length (take p t.cells) ≡ p =
      length-take p t.cells (omega (arith, valid.0, valid.1, valid.2)) in
    let blanks = replicate (vga_height * vga_width - p) entry in
    let n = length-replicate (vga_height * vga_width - p) entry in
    let same : cells ≡ take p t.cells ++ blanks =
      list_ext 0 cells (take p t.cells ++ blanks)
        (omega (arith, length-append (take p t.cells) blanks, valid.0, valid.1, valid.2))
        (λ j lt.
          let below : j < length t.cells = omega arith in
          let h =
            get_or-fill_rows entry left (t.row + 1) first j (omega (arith, valid.0, valid.1)) in
          let g =
            get_or-fill_row entry (vga_width - t.column) t.column t.row t.cells j
              (omega (arith, valid.0, valid.1, valid.2)) in
          elim (dec_lt j p) [
            | yes low ↦
                rw (get_or-append_left (take p t.cells) blanks j 0 (omega (arith, kept)))
                  (rw (get_or-take t.cells p j 0 low) (rw h (rw g (ground (arith, low)))))
            | no high ↦ rw (get_or-append_right (take p t.cells) blanks j 0 (omega (arith, kept))) (
                rw
                  (get_or-replicate (vga_height * vga_width - p) (j - length (take p t.cells)) entry
                    0 (omega (arith, kept, below, valid.0)))
                  (rw h (rw g (ground (arith, high, below, valid)))))
          ]) in
    clear_lines-fill_rows left (t.row + 1) (record t { cells = first }) (omega (arith, valid.1))
    ∙ ap (λ c. record t { cells = c }) same

-- Clearing up to the place blanks all cells before it and its own, in the current color; nothing
-- else changes.
pub clear_screen_to_cursor_lem :
    (t : Terminal)
    → IsValid t
    → clear_screen_to_cursor t
      ≡ record t { cells = replicate (position t + 1) (blank t) ++ drop (position t + 1) t.cells }
unfolding clear_screen_to_cursor blank
clear_screen_to_cursor_lem t valid =
    let entry = blank t in
    let n = position t + 1 in
    let above = fill_rows entry t.row 0 t.cells in
    let cells = fill_row entry (t.column + 1) 0 t.row above in
    let a = length-fill_rows entry t.row 0 t.cells in
    let b = length-fill_row entry (t.column + 1) 0 t.row above in
    let blanks = replicate n entry in
    let l = length-replicate n entry in
    let same : cells ≡ blanks ++ drop n t.cells =
      list_ext 0 cells (blanks ++ drop n t.cells)
        (omega (
          arith,
          length-append blanks (drop n t.cells),
          length-drop n t.cells,
          valid.0,
          valid.1,
          valid.2,
        ))
        (λ j lt.
          let h =
            get_or-fill_row entry (t.column + 1) 0 t.row above j
              (omega (arith, valid.0, valid.1, valid.2)) in
          let g = get_or-fill_rows entry t.row 0 t.cells j (omega (arith, valid.0, valid.1)) in
          elim (dec_lt j n) [
            | yes low ↦
                rw (get_or-append_left blanks (drop n t.cells) j 0 (omega (arith, l)))
                  (rw (get_or-replicate n j entry 0 low) (rw h (rw g (ground (arith, low)))))
            | no high ↦
                let back : j - length blanks + n ≡ j = omega (arith, l, high) in
                rw (get_or-append_right blanks (drop n t.cells) j 0 (omega (arith, l))) (
                  rw (get_or-drop t.cells n (j - length blanks) 0)
                    (rw back (rw h (rw g (ground (arith, high))))))
          ]) in
    ap (λ (s : Terminal). record s { cells = fill_row entry (t.column + 1) 0 t.row s.cells })
      (clear_lines-fill_rows t.row 0 t (omega (arith, valid.1)))
    ∙ ap (λ c. record t { cells = c }) same
