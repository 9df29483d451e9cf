-- ===== src/Terminal/Text.antt =====
-- Whole texts on the screen of KluxOS/src/drivers/terminal.c, and what every operation keeps.
use klux_os.Terminal.Scroll.{scrolled}
use klux_os.Terminal.Screen.{
  length-scrolled, putchar-last, putchar-room, at-IsShown, move_cursor_lem, newline-IsValid,
  show_cursor_lem, at, at-IsValid, IsShown, with_char, IsPlain, IsValid, position,
}
use klux_os.Terminal.{
  vga_entry, newline, space, tab_size, vga_height, vga_width, blank, show_cursor, place_char,
  put_spaces, putentryat, Terminal, backspace, erase_at, putchar, tab, write, writestring,
}
use klux_os.Base.{
  length-set, set, ◌+◌, ◌*◌, ◌-◌, length, ltb, ℕ_discrete, dec_lt, replicate, ◌<◌, ◌≡◌, ◌⊎◌, List,
  ℕ, zero, suc, refl, arith, [], ◌∷◌, true, false, inl, inr, ◌∙◌, ap,
}

-- Valid, with the hardware's cursor at the place.
abbrev pub IsValidShown : Terminal → Type 0
IsValidShown t = IsValid t × IsShown t

show_cursor-IsValidShown : (t : Terminal) → IsValid t → IsValidShown (show_cursor t)
show_cursor-IsValidShown t valid =
    let below : position t < vga_height * vga_width = omega (arith, valid.1, valid.2) in
    rw (show_cursor_lem t valid)
      (at-IsValid (position t) t valid.0 below, at-IsShown (position t) t below)

erase_at-lem :
    (column row : ℕ) (t : Terminal)
    → column < vga_width
    → row < vga_height
    → erase_at column row t
      ≡ at
          (row * vga_width + column)
          (record t { cells = set t.cells (row * vga_width + column) (blank t) })
unfolding erase_at putentryat blank
erase_at-lem column row t hc hr =
    move_cursor_lem column row
      (putentryat space t.color column row (record t { column = column; row = row })) hc hr

-- A backspace away from the first cell blanks the cell before the place and moves there.
pub backspace_lem :
    (t : Terminal)
    → IsValid t
    → 0 < position t
    → backspace t
      ≡ at (position t - 1) (record t { cells = set t.cells (position t - 1) (blank t) })
unfolding backspace
backspace_lem t valid pos =
    let blanked : ℕ → Terminal = λ k. at k (record t { cells = set t.cells k (blank t) }) in
    elim (dec_lt 0 t.column) [
      | yes inside ↦
          let on : ltb 0 t.column ≡ true = ground (arith, inside) in
          rw on (
            erase_at-lem (t.column - 1) t.row t (omega (arith, valid.2)) valid.1
            ∙ ap blanked (omega arith))
      | no start ↦
          let off : ltb 0 t.column ≡ false = ground (arith, start) in
          let on : ltb 0 t.row ≡ true = ground (arith, start, pos) in
          rw off (
            rw on (
              erase_at-lem (vga_width - 1) (t.row - 1) t (omega arith) (omega (arith, valid.1))
              ∙ ap blanked (omega arith)))
    ]

backspace-first : (t : Terminal) → position t ≡ 0 → backspace t ≡ t
unfolding backspace
backspace-first t first =
    let c : ltb 0 t.column ≡ false = ground (arith, first) in
    let r : ltb 0 t.row ≡ false = ground (arith, first) in rw c (rw r refl)

pub backspace-IsValid : (t : Terminal) → IsValid t → IsValid (backspace t)
backspace-IsValid t valid = elim (dec_lt 0 (position t)) [
  | yes pos ↦ rw (backspace_lem t valid pos) (
      at-IsValid (position t - 1) (record t { cells = set t.cells (position t - 1) (blank t) })
        (length-set t.cells (position t - 1) (blank t) ∙ valid.0) (omega (arith, valid.1, valid.2)))
  | no none_before ↦ rw (backspace-first t (omega arith)) valid
]

IsPlain-or : (c : ℕ) → IsPlain c ⊎ ((c ≡ 8) ⊎ ((c ≡ 9) ⊎ ((c ≡ 10) ⊎ (c ≡ 13))))
IsPlain-or c = elim (ℕ_discrete c 8) [
  | yes p ↦ inr (inl p)
  | no n8 ↦ elim (ℕ_discrete c 9) [
    | yes p ↦ inr (inr (inl p))
    | no n9 ↦ elim (ℕ_discrete c 10) [
      | yes p ↦ inr (inr (inr (inl p)))
      | no n10 ↦ elim (ℕ_discrete c 13) [
        | yes p ↦ inr (inr (inr (inr p)))
        | no n13 ↦ inl (n8, n9, n10, n13)
      ]
    ]
  ]
]

plain-IsValidShown : (c : ℕ) (t : Terminal) → IsPlain c → IsValid t → IsValidShown (putchar c t)
plain-IsValidShown c t plain valid =
    let s = with_char c t in
    let len : length s.cells ≡ vga_height * vga_width =
      length-set t.cells (position t) (vga_entry c t.color) ∙ valid.0 in
    elim (dec_lt (position t + 1) (vga_height * vga_width)) [
      | yes room ↦
          rw (putchar-room c t plain valid room)
            (at-IsValid (position t + 1) s len room, at-IsShown (position t + 1) s room)
      | no last ↦
          let p = (vga_height - 1) * vga_width in
          let after : Terminal = record t { cells = scrolled 1 (blank t) s.cells } in
          rw (putchar-last c t plain valid (omega (arith, valid.1, valid.2))) (
            at-IsValid p after (length-scrolled (blank t) s.cells len) (omega arith),
            at-IsShown p after (omega arith),
          )
    ]

-- The calls of `terminal_putchar` in `terminal_tab` are the function itself.
pub tab_lem : (t : Terminal) → tab t ≡ write (replicate tab_size space) t
unfolding tab put_spaces write putchar place_char
tab_lem t = refl

write_plain-IsValid : (n : ℕ) (t : Terminal) → IsValid t → IsValid (write (replicate n space) t)
unfolding write
write_plain-IsValid zero t valid = valid
write_plain-IsValid (suc n) t valid =
    let plain : IsPlain space =
      (λ p. omega arith, λ p. omega arith, λ p. omega arith, λ p. omega arith) in
    write_plain-IsValid n (putchar space t) (plain-IsValidShown space t plain valid).0

-- From a valid screen, every character leads to a valid screen whose hardware cursor is at the
-- place of the next character.
pub putchar-IsValid :
    (c : ℕ) (t : Terminal) → IsValid t → IsValid (putchar c t) × IsShown (putchar c t)
unfolding putchar place_char
putchar-IsValid c t valid = elim (IsPlain-or c) [
  | inl plain ↦ plain-IsValidShown c t plain valid
  | inr (inl p) ↦ rw p (show_cursor-IsValidShown (backspace t) (backspace-IsValid t valid))
  | inr (inr (inl p)) ↦
      let e = tab_lem t in
      rw p (show_cursor-IsValidShown (tab t) (rw e (write_plain-IsValid tab_size t valid)))
  | inr (inr (inr (inl p))) ↦
      rw p (show_cursor-IsValidShown (newline t) (newline-IsValid t valid.0 valid.1))
  | inr (inr (inr (inr p))) ↦
      rw p (show_cursor-IsValidShown (record t { column = 0 }) (valid.0, valid.1, omega arith))
]

pub writestring-IsValid : (text : List ℕ) (t : Terminal) → IsValid t → IsValid (writestring text t)
unfolding writestring
writestring-IsValid [] t valid = valid
writestring-IsValid (c ∷ text) t valid =
    writestring-IsValid text (putchar c t) (putchar-IsValid c t valid).0
