-- ===== src/Terminal/Block.antt =====
-- What a text leaves on the screen of KluxOS/src/drivers/terminal.c, and what takes it back.
use klux_os.Terminal.Text.{backspace_lem}
use klux_os.Terminal.Scroll.{length-fill_rows, fill_rows-all}
use klux_os.Terminal.Screen.{
  show_cursor_lem, at-IsValid, IsShown, putchar-room, with_char, at, position, IsValid, IsPlain,
}
use klux_os.Terminal.{
  show_cursor, default_color, space, vga_width, vga_height, Terminal, blank, move_cursor, vga_entry,
  place_char, set_cursor_visible, initialize, putchar, writestring,
}
use klux_os.Base.{
  set-set, ◌-◌, length-set, replicate, snoc-append, take-drop, take-set, drop-set_lt, ◌*◌, set,
  drop, ◌+◌, ◌≡◌, All, length, ◌++◌, take, ◌<◌, List, ℕ, refl, arith, [], ◌∷◌, ◌∙◌, ap,
}

-- The cells of a text in one color.
abbrev pub entries : (color : ℕ) → List ℕ → List ℕ
entries color [] = []
entries color (c ∷ text) = vga_entry c color ∷ entries color text

-- The block of cells from `p` on, replaced by those of the text.
abbrev pub with_block : (p color : ℕ) → List ℕ → List ℕ → List ℕ
with_block p color text cells = take p cells ++ (entries color text ++ drop (p + length text) cells)

with_block-step :
    (p color c : ℕ) (text cells : List ℕ)
    → p < length cells
    → with_block (p + 1) color text (set cells p (vga_entry c color))
      ≡ with_block p color (c ∷ text) cells
with_block-step p color c text cells inside =
    let e = vga_entry c color in
    let n = p + 1 + length text in
    let rest : drop n (set cells p e) ≡ drop (p + length (c ∷ text)) cells =
      drop-set_lt cells n p e (omega arith) ∙ ap (λ (k : ℕ). drop k cells) (omega arith) in
    ap (λ q. q ++ (entries color text ++ drop n (set cells p e))) (take-set cells p e inside)
    ∙ ap (λ q. (take p cells ++ e ∷ []) ++ (entries color text ++ q)) rest
    ∙ snoc-append (take p cells) (entries color text ++ drop (p + length (c ∷ text)) cells) e

-- A text without control characters that ends before the last cell takes a block of cells from the
-- place on, in the current color; the place moves on by its length, and the color stays.
pub writestring-block :
    (text : List ℕ) (t : Terminal)
    → All IsPlain text
    → IsValid t
    → position t + length text < vga_height * vga_width
    → let t' = writestring text t in
      (t'.cells ≡ with_block (position t) t.color text t.cells)
      × (position t' ≡ position t + length text)
      × (t'.color ≡ t.color)
unfolding writestring
writestring-block [] t plain valid fits = (
  take-drop (position t) t.cells
      ∙ ap (λ (k : ℕ). take (position t) t.cells ++ drop k t.cells) (omega arith),
  omega arith,
  refl,
)
writestring-block (c ∷ text) t plain valid fits =
    let p = position t in
    let room : p + 1 < vga_height * vga_width = omega arith in
    let s = at (p + 1) (with_char c t) in
    let put : putchar c t ≡ s = putchar-room c t plain.0 valid room in
    let e : position s ≡ p + 1 = omega arith in
    let len : length s.cells ≡ vga_height * vga_width =
      length-set t.cells p (vga_entry c t.color) ∙ valid.0 in
    let ih =
      writestring-block text s plain.1 (at-IsValid (p + 1) (with_char c t) len room)
        (omega (arith, e)) in
    rw (put, writestring)
      (
        ih.0
            ∙ ap (λ (k : ℕ). with_block k t.color text s.cells) e
            ∙ with_block-step p t.color c text t.cells (omega (arith, valid.0)),
        omega (arith, ih.1, e),
        ih.2,
      )

-- A backspace takes a plain character back: the place is where it was and its cell is blank.
pub putchar-backspace :
    (c : ℕ) (t : Terminal)
    → IsPlain c
    → IsValid t
    → position t + 1 < vga_height * vga_width
    → putchar 8 (putchar c t)
      ≡ at (position t) (record t { cells = set t.cells (position t) (blank t) })
unfolding putchar place_char blank
putchar-backspace c t plain valid room =
    let p = position t in
    let s = at (p + 1) (with_char c t) in
    let put : putchar c t ≡ s = putchar-room c t plain valid room in
    let len : length s.cells ≡ vga_height * vga_width =
      length-set t.cells p (vga_entry c t.color) ∙ valid.0 in
    let valid_s : IsValid s = at-IsValid (p + 1) (with_char c t) len room in
    let e : position s - 1 ≡ p = omega arith in
    let erased : ℕ → Terminal = λ k. at k (record s { cells = set s.cells k (blank s) }) in
    ap (putchar 8) put
    ∙ ap show_cursor (backspace_lem s valid_s (omega arith) ∙ ap erased e)
    ∙ show_cursor_lem (erased p)
        (at-IsValid p (erased p) (length-set s.cells p (blank s) ∙ len) (omega arith))
    ∙ ap (λ k. at k (erased p)) (omega arith)
    ∙ ap (λ cells. at p (record t { cells = cells }))
        (set-set t.cells p (vga_entry c t.color) (blank t))

-- Whatever the variables hold, the set-up of a screen with all its cells blanks it in grey on
-- black and puts the place and the hardware's cursor at the first cell.
pub initialize_lem :
    (t : Terminal)
    → length t.cells ≡ vga_height * vga_width
    → let t' = initialize t in
      (t'.cells ≡ replicate (vga_height * vga_width) (vga_entry space default_color))
      × (position t' ≡ 0)
      × IsValid t'
      × IsShown t'
unfolding initialize set_cursor_visible move_cursor
initialize_lem t all =
    let entry = vga_entry space default_color in
    (
      fill_rows-all entry t.cells all,
      refl,
      (length-fill_rows entry vga_height 0 t.cells ∙ all, omega arith, omega arith),
      refl,
    )
