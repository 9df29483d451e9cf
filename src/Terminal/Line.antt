-- ===== src/Terminal/Line.antt =====
-- When `terminal_gets` of KluxOS/src/drivers/terminal.c returns, and with what.
use mathlib.Core.List.{append-nil}
use klux_os.Terminal.{putchar, Terminal, writestring}
use klux_os.Terminal.Input.{
  key_backspace, key_enter, key_null, gets, gets_from, gets_keys, read_line,
}
use klux_os.Base.{
  sym, snoc-append, ◌&&◌, leb, ◌==◌, reverse, ◌++◌, ◌+◌, ◌<◌, length, All, replicate, ◌≡◌, List,
  ◌≤◌, ℕ, zero, suc, refl, arith, [], ◌∷◌, none, some, true, false, ◌∙◌, ap,
}

-- What the loop stores: ' ' to '~'.
abbrev pub IsPrintable : ℕ → Type 0
IsPrintable c = (32 ≤ c) × (c ≤ 126)

gets_from-typed :
    (text rest typed : List ℕ) (room : ℕ) (t : Terminal)
    → All IsPrintable text
    → length text < room
    → gets_from (text ++ key_enter ∷ rest) room typed t
      ≡ some (reverse typed ++ text, putchar 10 (writestring text t))
unfolding gets_from writestring
gets_from-typed [] rest typed zero t ok fits = absurd (omega arith)
gets_from-typed [] rest [] (suc room) t ok fits = refl
gets_from-typed [] rest (last ∷ typed) (suc room) t ok fits =
    ap (λ l. some (l, putchar 10 t)) (sym (append-nil (reverse (last ∷ typed))))
gets_from-typed (c ∷ text) rest typed zero t ok fits = absurd (omega arith)
gets_from-typed (c ∷ text) rest [] (suc room) t ok fits =
    let enter : (c == key_enter) ≡ false = ground (arith, ok) in
    let shown : (leb 32 c && leb c 126) ≡ true = ground (arith, ok) in
    rw enter (rw shown (gets_from-typed text rest (c ∷ []) room (putchar c t) ok.1 (omega arith)))
gets_from-typed (c ∷ text) rest (last ∷ typed) (suc room) t ok fits =
    let enter : (c == key_enter) ≡ false = ground (arith, ok) in
    let erase : (c == key_backspace) ≡ false = ground (arith, ok) in
    let shown : (leb 32 c && leb c 126) ≡ true = ground (arith, ok) in
    rw enter (
      rw erase (
        rw shown (
          gets_from-typed text rest (c ∷ last ∷ typed) room (putchar c t) ok.1 (omega arith)
          ∙ ap (λ l. some (l, putchar 10 (writestring text (putchar c t))))
              (snoc-append (reverse (last ∷ typed)) text c))))

-- If printable characters and then the key Enter came, with room for them in the buffer, they would
-- be the line, whatever came after, and be shown with a new line.
pub gets_keys-line :
    (text rest buffer : List ℕ) (size : ℕ) (t : Terminal)
    → All IsPrintable text
    → length text + 1 < size
    → gets_keys (text ++ key_enter ∷ rest) buffer size t
      ≡ some (text, putchar 10 (writestring text t))
unfolding gets_keys
gets_keys-line text rest buffer zero t ok fits = absurd (omega arith)
gets_keys-line text rest buffer (suc room) t ok fits =
    gets_from-typed text rest [] room t ok (omega arith)

gets_from-null :
    (turns room : ℕ) (t : Terminal) → gets_from (replicate turns key_null) (suc room) [] t ≡ none
unfolding gets_from
gets_from-null zero room t = refl
gets_from-null (suc turns) room t = gets_from-null turns room t

-- `terminal_gets` reads from the dummy `terminal_getchar`: with a buffer of at least 2 places, its
-- loop is still running after any number of turns, and so `terminal_read_line` never returns.
pub read_line-stuck :
    (turns : ℕ) (buffer : List ℕ) (size : ℕ) (t : Terminal)
    → 2 ≤ size
    → read_line turns buffer size t ≡ none
unfolding read_line gets gets_keys
read_line-stuck turns buffer zero t two = absurd (omega arith)
read_line-stuck turns buffer (suc zero) t two = absurd (omega arith)
read_line-stuck turns buffer (suc (suc room)) t two =
    rw (gets_from-null turns room t, read_line, gets, gets_keys) refl
