-- ===== src/Terminal/Scroll.antt =====
-- The loops over rows of KluxOS/src/drivers/terminal.c against operations on the list of cells.
use klux_os.Terminal.{
  blank, Terminal, scroll, vga_height, vga_width, copy_row, fill_row, fill_rows, move_rows,
}
use klux_os.Base.{
  get_or-append_right, length-append, false, ◌^◌, get_or-drop, get_or-replicate, ◌||◌,
  get_or-append_left, length-replicate, ◌==◌, list_ext, true, length-drop, replicate, ◌++◌, drop,
  dec_lt, get_or-set_ne, get_or-set_self, ℕ_discrete, ltb, ◌&&◌, leb, length-set, ◌-◌, get_or, set,
  ◌≡◌, ◌≤◌, length, ◌*◌, ◌+◌, ◌<◌, List, ℕ, zero, suc, refl, arith, ◌∙◌, ap, sym, if◌then◌else◌,
}

pub length-copy_row :
    (lines left x y : ℕ) (cells : List ℕ) → length (copy_row lines left x y cells) ≡ length cells
unfolding copy_row
length-copy_row lines zero x y cells = refl
length-copy_row lines (suc left) x y cells =
    let v = get_or cells (y * vga_width + x) 0 in
    let i = (y - lines) * vga_width + x in
    length-copy_row lines left (x + 1) y (set cells i v) ∙ length-set cells i v

pub length-move_rows :
    (lines left y : ℕ) (cells : List ℕ) → length (move_rows lines left y cells) ≡ length cells
unfolding move_rows
length-move_rows lines zero y cells = refl
length-move_rows lines (suc left) y cells =
    length-move_rows lines left (y + 1) (copy_row lines vga_width 0 y cells)
    ∙ length-copy_row lines vga_width 0 y cells

pub length-fill_row :
    (entry left x y : ℕ) (cells : List ℕ) → length (fill_row entry left x y cells) ≡ length cells
unfolding fill_row
length-fill_row entry zero x y cells = refl
length-fill_row entry (suc left) x y cells =
    length-fill_row entry left (x + 1) y (set cells (y * vga_width + x) entry)
    ∙ length-set cells (y * vga_width + x) entry

pub length-fill_rows :
    (entry left y : ℕ) (cells : List ℕ) → length (fill_rows entry left y cells) ≡ length cells
unfolding fill_rows
length-fill_rows entry zero y cells = refl
length-fill_rows entry (suc left) y cells =
    length-fill_rows entry left (y + 1) (fill_row entry vga_width 0 y cells)
    ∙ length-fill_row entry vga_width 0 y cells

get_or-copy_row :
    (lines left x y : ℕ) (cells : List ℕ) (j : ℕ)
    → 0 < lines
    → lines ≤ y
    → x + left ≤ vga_width
    → y * vga_width + vga_width ≤ length cells
    → get_or (copy_row lines left x y cells) j 0 ≡ (
        if leb ((y - lines) * vga_width + x) j && ltb j ((y - lines) * vga_width + x + left)
        then get_or cells (j + lines * vga_width) 0
        else get_or cells j 0)
unfolding copy_row
get_or-copy_row lines zero x y cells j pos le fits inside = ground arith
get_or-copy_row lines (suc left) x y cells j pos le fits inside =
    let v = get_or cells (y * vga_width + x) 0 in
    let dst = (y - lines) * vga_width + x in
    let moved = set cells dst v in
    let ih =
      get_or-copy_row lines left (x + 1) y moved j pos le (omega arith)
        (omega (arith, length-set cells dst v)) in
    elim (ℕ_discrete dst j) [
      | yes p ↦
          let at : get_or moved j 0 ≡ get_or cells (j + lines * vga_width) 0 =
            ap (λ (n : ℕ). get_or moved n 0) (sym p)
            ∙ get_or-set_self cells dst v 0 (omega arith)
            ∙ ap (λ (n : ℕ). get_or cells n 0) (omega (arith, p)) in
          rw ih (rw at (ground arith))
      | no ne ↦
          let here = get_or-set_ne cells dst j v 0 ne in
          elim (dec_lt j dst) [
            | yes below ↦ rw ih (rw here (ground (arith, ne)))
            | no above ↦
                let next = get_or-set_ne cells dst (j + lines * vga_width) v 0 (omega arith) in
                rw ih (rw here (rw next (ground (arith, ne))))
          ]
    ]

get_or-move_rows :
    (lines left y : ℕ) (cells : List ℕ) (j : ℕ)
    → 0 < lines
    → lines ≤ y
    → (y + left) * vga_width ≤ length cells
    → get_or (move_rows lines left y cells) j 0 ≡ (
        if leb ((y - lines) * vga_width) j && ltb j ((y + left - lines) * vga_width)
        then get_or cells (j + lines * vga_width) 0
        else get_or cells j 0)
unfolding move_rows
get_or-move_rows lines zero y cells j pos le inside = ground arith
get_or-move_rows lines (suc left) y cells j pos le inside =
    let moved = copy_row lines vga_width 0 y cells in
    let ih =
      get_or-move_rows lines left (y + 1) moved j pos (omega arith)
        (omega (arith, length-copy_row lines vga_width 0 y cells)) in
    let here = get_or-copy_row lines vga_width 0 y cells j pos le (omega arith) (omega arith) in
    let next =
      get_or-copy_row lines vga_width 0 y cells (j + lines * vga_width) pos le (omega arith)
        (omega arith) in
    rw ih (rw here (rw next (ground arith)))

pub get_or-fill_row :
    (entry left x y : ℕ) (cells : List ℕ) (j : ℕ)
    → y * vga_width + x + left ≤ length cells
    → get_or (fill_row entry left x y cells) j 0 ≡ (
        if leb (y * vga_width + x) j && ltb j (y * vga_width + x + left)
        then entry
        else get_or cells j 0)
unfolding fill_row
get_or-fill_row entry zero x y cells j inside = ground arith
get_or-fill_row entry (suc left) x y cells j inside =
    let i = y * vga_width + x in
    let ih =
      get_or-fill_row entry left (x + 1) y (set cells i entry) j
        (omega (arith, length-set cells i entry)) in
    elim (ℕ_discrete i j) [
      | yes p ↦
          let at : get_or (set cells i entry) j 0 ≡ entry =
            ap (λ (n : ℕ). get_or (set cells i entry) n 0) (sym p)
            ∙ get_or-set_self cells i entry 0 (omega arith) in
          rw ih (rw at (ground arith))
      | no ne ↦ rw ih (rw (get_or-set_ne cells i j entry 0 ne) (ground (arith, ne)))
    ]

pub get_or-fill_rows :
    (entry left y : ℕ) (cells : List ℕ) (j : ℕ)
    → (y + left) * vga_width ≤ length cells
    → get_or (fill_rows entry left y cells) j 0 ≡ (
        if leb (y * vga_width) j && ltb j ((y + left) * vga_width) then entry else get_or cells j 0)
unfolding fill_rows
get_or-fill_rows entry zero y cells j inside = ground arith
get_or-fill_rows entry (suc left) y cells j inside =
    let filled = fill_row entry vga_width 0 y cells in
    let ih =
      get_or-fill_rows entry left (y + 1) filled j
        (omega (arith, length-fill_row entry vga_width 0 y cells)) in
    rw ih (rw (get_or-fill_row entry vga_width 0 y cells j (omega arith)) (ground arith))

-- The cells after `lines` rows have left at the top.
abbrev pub scrolled : (lines entry : ℕ) → List ℕ → List ℕ
scrolled lines entry cells = drop (lines * vga_width) cells ++ replicate (lines * vga_width) entry

get_or-scrolled :
    (lines entry : ℕ) (cells : List ℕ) (j : ℕ)
    → length cells ≡ vga_height * vga_width
    → lines ≤ vga_height
    → j < length cells
    → get_or (scrolled lines entry cells) j 0 ≡ (
        if ltb j ((vga_height - lines) * vga_width)
        then get_or cells (j + lines * vga_width) 0
        else entry)
get_or-scrolled lines entry cells j all fits lt =
    let n = lines * vga_width in
    let len : length (drop n cells) ≡ length cells - n = length-drop n cells in
    elim (dec_lt j ((vga_height - lines) * vga_width)) [
      | yes low ↦
          let t : ltb j ((vga_height - lines) * vga_width) ≡ true = ground (arith, low) in
          rw t (
            get_or-append_left (drop n cells) (replicate n entry) j 0 (omega arith)
            ∙ get_or-drop cells n j 0)
      | no high ↦
          let t : ltb j ((vga_height - lines) * vga_width) ≡ false = ground (arith, high) in
          rw t (
            get_or-append_right (drop n cells) (replicate n entry) j 0 (omega arith)
            ∙ get_or-replicate n (j - length (drop n cells)) entry 0 (omega arith))
    ]

-- Scrolling a full screen by 1 to 25 lines drops that many rows at the top and adds as many blank
-- rows, in the current color, at the bottom; nothing else changes.
pub scroll_lem :
    (lines : ℕ) (t : Terminal)
    → length t.cells ≡ vga_height * vga_width
    → 0 < lines
    → lines ≤ vga_height
    → scroll lines t ≡ record t { cells = scrolled lines (blank t) t.cells }
unfolding scroll
scroll_lem lines t all pos fits =
    let on : ((lines == 0) || leb (2 ^ 31) lines) ≡ false = ground (arith, pos, fits) in
    let small : leb lines vga_height ≡ true = ground (arith, fits) in
    let moved = move_rows lines (vga_height - lines) lines t.cells in
    let n : length moved ≡ length t.cells =
      length-move_rows lines (vga_height - lines) lines t.cells in
    let m = length-drop (lines * vga_width) t.cells in
    let filled = fill_rows (blank t) lines (vga_height - lines) moved in
    let same : filled ≡ scrolled lines (blank t) t.cells =
      list_ext 0 filled (scrolled lines (blank t) t.cells)
        (omega (
          arith,
          length-fill_rows (blank t) lines (vga_height - lines) moved,
          length-append (drop (lines * vga_width) t.cells)
              (replicate (lines * vga_width) (blank t)),
          length-replicate (lines * vga_width) (blank t),
        ))
        (λ j lt.
          let below : j < length t.cells =
            omega (arith, length-fill_rows (blank t) lines (vga_height - lines) moved) in
          let ih = get_or-fill_rows (blank t) lines (vga_height - lines) moved j (omega arith) in
          let here =
            get_or-move_rows lines (vga_height - lines) lines t.cells j pos (omega arith)
              (omega arith) in
          let there = get_or-scrolled lines (blank t) t.cells j all fits below in
          rw ih (rw here (rw there (ground arith)))) in
    rw on (rw small (ap (λ c. record t { cells = c }) same))

-- The loops that fill the whole screen leave one entry in every cell.
pub fill_rows-all :
    (entry : ℕ) (cells : List ℕ)
    → length cells ≡ vga_height * vga_width
    → fill_rows entry vga_height 0 cells ≡ replicate (vga_height * vga_width) entry
fill_rows-all entry cells all =
    let n = length-fill_rows entry vga_height 0 cells in
    list_ext 0 (fill_rows entry vga_height 0 cells) (replicate (vga_height * vga_width) entry)
      (omega (arith, length-replicate (vga_height * vga_width) entry))
      (λ j lt.
        let below : j < vga_height * vga_width = omega arith in
        let at = get_or-fill_rows entry vga_height 0 cells j (omega arith) in
        rw at (rw (get_or-replicate (vga_height * vga_width) j entry 0 below) (ground arith)))
