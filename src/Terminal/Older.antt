-- ===== src/Terminal/Older.antt =====
-- KluxOS/src/drivers/terminal/terminal.c, an older terminal with the functions of the other one's
-- names: it goes on at the first row where the other one scrolls.
use mathlib.Core.Path.{subst}
use klux_os.Terminal.{vga_entry, vga_entry_color, vga_height, vga_width, space}
use klux_os.Base.{
  ◌≢◌, get_or-set_ne, get_or-set_self, length-set, length, ◌<◌, ◌≡◌, ◌≤◌, get_or, ℕ_discrete, set,
  ◌*◌, ◌+◌, ◌/◌, ◌%◌, ◌==◌, List, ℕ, zero, suc, refl, arith, [], ◌∷◌, true, false, ◌∙◌, ap, sym,
  if◌then◌else◌,
}

-- The video memory and the static variables.
pub record Screen : Type 0 where
  pub cells : List ℕ
  pub color : ℕ
  pub row : ℕ
  pub column : ℕ

-- The row after `row`.
abbrev pub next_row : (row : ℕ) → ℕ
next_row row = if row + 1 == vga_height then 0 else row + 1

unfoldable pub putchar : (c : ℕ) → Screen → Screen
putchar c t =
    let cells = set t.cells (t.row * vga_width + t.column) (vga_entry c t.color) in
    if c == 10
    then record t { column = 0; row = next_row t.row }
    else if t.column + 1 == vga_width
    then record t { cells = cells; column = 0; row = next_row t.row }
    else record t { cells = cells; column = t.column + 1 }

unfoldable pub write : (bytes : List ℕ) → Screen → Screen
write [] t = t
write (c ∷ bytes) t = write bytes (putchar c t)

-- A string ends at its first 0, or with the list.
unfoldable pub writestring : (bytes : List ℕ) → Screen → Screen
writestring [] t = t
writestring (c ∷ bytes) t = let rest = writestring bytes (putchar c t) in if c == 0 then t else rest

unfoldable pub setcolor : (color : ℕ) → Screen → Screen
setcolor color t = record t { color = color }

-- The places of one row, then of all rows, for the turns left.
unfoldable pub clear_row : (left x y : ℕ) → Screen → Screen
clear_row zero x y t = t
clear_row (suc left) x y t =
    clear_row left (x + 1) y
      (record t { cells = set t.cells (y * vga_width + x) (vga_entry space t.color) })

unfoldable pub clear_rows : (left y : ℕ) → Screen → Screen
clear_rows zero y t = t
clear_rows (suc left) y t = clear_rows left (y + 1) (clear_row vga_width 0 y t)

unfoldable pub clear : Screen → Screen
clear t = clear_rows vga_height 0 t

-- White, which is 15, on black.
unfoldable pub initialize : Screen → Screen
initialize t = clear (record t { row = 0; column = 0; color = vga_entry_color 15 0 })

abbrev pub screen_size : ℕ
screen_size = 2000

abbrev pub position : Screen → ℕ
position t = t.row * vga_width + t.column

abbrev pub IsValid : Screen → Type 0
IsValid t = (length t.cells ≡ screen_size) × (t.row < vga_height) × (t.column < vga_width)

-- No character of the text is a newline.
abbrev pub IsOneLine : List ℕ → Type 0
IsOneLine [] = Unit
IsOneLine (c ∷ cs) = (c ≢ 10) × IsOneLine cs

-- The screen at the place of a number.
abbrev at : (cells : List ℕ) (color p : ℕ) → Screen
at cells color p = record {
  cells = cells;
  color = color;
  row = p / vga_width;
  column = p % vga_width;
}

-- The last place's follower is the first.
abbrev after : (c : ℕ) → Screen → Screen
after c t =
    at (set t.cells (position t) (vga_entry c t.color)) t.color ((position t + 1) % screen_size)

placed :
    (cells : List ℕ) (color row column p : ℕ)
    → row ≡ p / vga_width
    → column ≡ p % vga_width
    → ◌≡◌ {A = Screen}
        (record { cells = cells; color = color; row = row; column = column })
        (at cells color p)
placed cells color row column p r c =
    ap (λ k. record { cells = cells; color = color; row = k; column = column }) r
    ∙ ap (λ k. record { cells = cells; color = color; row = p / vga_width; column = k }) c

putchar_lem : (c : ℕ) (t : Screen) → IsValid t → c ≢ 10 → putchar c t ≡ after c t
unfolding putchar
putchar_lem c t valid other =
    let cells = set t.cells (position t) (vga_entry c t.color) in
    let plain : (c == 10) ≡ false = ground (arith, other) in
    elim (ℕ_discrete (t.column + 1) vga_width) [
      | yes last ↦
          let e : (t.column + 1 == vga_width) ≡ true = ground (arith, last) in
          elim (ℕ_discrete (t.row + 1) vga_height) [
            | yes bottom ↦
                let b : (t.row + 1 == vga_height) ≡ true = ground (arith, bottom) in
                rw (plain, e, b)
                  (placed cells t.color 0 0 _ (omega (arith, last, bottom))
                    (omega (arith, last, bottom)))
            | no more ↦
                let b : (t.row + 1 == vga_height) ≡ false = ground (arith, more) in
                rw (plain, e, b)
                  (placed cells t.color (t.row + 1) 0 _ (omega (arith, last, more, valid.1))
                    (omega (arith, last, more, valid.1)))
          ]
      | no inside ↦
          let e : (t.column + 1 == vga_width) ≡ false = ground (arith, inside) in
          rw (plain, e)
            (placed cells t.color t.row (t.column + 1) _ (omega (arith, inside, valid.1, valid.2))
              (omega (arith, inside, valid.1, valid.2)))
    ]

after-IsValid : (c : ℕ) (t : Screen) → IsValid t → IsValid (after c t)
after-IsValid c t valid =
    (length-set t.cells (position t) (vga_entry c t.color) ∙ valid.0, omega arith, omega arith)

write-after :
    (c : ℕ) (cs : List ℕ) (t : Screen)
    → IsValid t
    → c ≢ 10
    → write (c ∷ cs) t ≡ write cs (after c t)
unfolding write
write-after c cs t valid other = ap (λ s. write cs s) (putchar_lem c t valid other)

-- A place that no character of the text comes to is kept.
write-keeps :
    (cs : List ℕ) (t : Screen) (j : ℕ)
    → IsValid t
    → IsOneLine cs
    → ((i : ℕ) → i < length cs → j ≢ (position t + i) % screen_size)
    → get_or (write cs t).cells j 0 ≡ get_or t.cells j 0
unfolding write
write-keeps [] t j valid line off = refl
write-keeps (c ∷ cs) t j valid line off =
    ap (λ (s : Screen). get_or s.cells j 0) (write-after c cs t valid line.0)
    ∙ (write-keeps cs (after c t) j (after-IsValid c t valid) line.1
          (λ i h e. off (i + 1) (omega arith) (omega arith))
        ∙ get_or-set_ne t.cells (position t) j (vga_entry c t.color) 0
            (λ e. off 0 (omega arith) (omega (arith, e, valid.1, valid.2))))

-- The characters of a text, when the ones after the first stand in their places.
shown_at :
    (c : ℕ) (cs : List ℕ) (t : Screen)
    → IsValid t
    → IsOneLine cs
    → length cs < screen_size
    → ((i : ℕ)
        → i < length cs
        → get_or (write cs (after c t)).cells ((position (after c t) + i) % screen_size) 0
          ≡ vga_entry (get_or cs i 0) t.color)
    → (i : ℕ) → i < suc (length cs)
    → get_or (write cs (after c t)).cells ((position t + i) % screen_size) 0
      ≡ vga_entry (get_or (c ∷ cs) i 0) t.color
shown_at c cs t valid line few shown zero h =
    let here : (position t + 0) % screen_size ≡ position t = omega (arith, valid.1, valid.2) in
    ap (λ k. get_or (write cs (after c t)).cells k 0) here
    ∙ write-keeps cs (after c t) (position t) (after-IsValid c t valid) line
        (λ i h e. absurd (omega (arith, h, e, few, valid.1, valid.2)))
    ∙ get_or-set_self t.cells (position t) (vga_entry c t.color) 0
        (omega (arith, valid.0, valid.1, valid.2))
shown_at c cs t valid line few shown (suc i) h =
    ap (λ k. get_or (write cs (after c t)).cells k 0) (omega (arith, valid.1, valid.2))
    ∙ shown i (omega arith)

-- On this terminal, text without newlines fills the screen as a ring of 2000 places: from a valid
-- screen, at most 2000 characters stand one after the other from the cursor on, with the last
-- place followed by the first; the cursor is after the last one, and the screen is valid again.
pub write_lem :
    (cs : List ℕ) (t : Screen)
    → IsValid t
    → IsOneLine cs
    → length cs ≤ screen_size
    → IsValid (write cs t)
      × (position (write cs t) ≡ (position t + length cs) % screen_size)
      × ((i : ℕ)
          → i < length cs
          → get_or (write cs t).cells ((position t + i) % screen_size) 0
            ≡ vga_entry (get_or cs i 0) t.color)
unfolding write
write_lem [] t valid line few =
    (valid, omega (arith, valid.1, valid.2), λ i h. absurd (omega arith))
write_lem (c ∷ cs) t valid line few =
    let next = after c t in
    let next_valid = after-IsValid c t valid in
    let (kept, place, shown) = write_lem cs next next_valid line.1 (omega arith) in
    subst
      (λ (s : Screen).
        IsValid s
        × (position s ≡ (position t + suc (length cs)) % screen_size)
        × ((i : ℕ)
            → i < suc (length cs)
            → get_or s.cells ((position t + i) % screen_size) 0
              ≡ vga_entry (get_or (c ∷ cs) i 0) t.color))
      (sym (write-after c cs t valid line.0))
      (kept, omega (arith, place), shown_at c cs t valid line.1 (omega arith) shown)
