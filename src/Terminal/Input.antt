-- ===== src/Terminal/Input.antt =====
-- `terminal_gets` of KluxOS/src/drivers/terminal.c, which reads a line.
use klux_os.Terminal.{backspace, putchar, Terminal}
use klux_os.Base.{
  ◌&&◌, leb, ◌==◌, reverse, replicate, Option, List, ℕ, zero, suc, [], ◌∷◌, none, some,
  if◌then◌else◌,
}

abbrev pub key_null : ℕ
key_null = 0

abbrev pub key_enter : ℕ
key_enter = 13

abbrev pub key_backspace : ℕ
key_backspace = 8

-- "Dummy": the keyboard is not asked.
abbrev pub getchar : ℕ
getchar = key_null

-- The loop, over what the calls of `terminal_getchar` return; `typed` is the line so far, its last
-- character first, and `room` the places left before the last. None when the loop asks for more.
unfoldable pub gets_from :
    List ℕ → (room : ℕ) → (typed : List ℕ) → Terminal → Option (List ℕ × Terminal)
gets_from keys zero typed t = some (reverse typed, t)
gets_from [] (suc room) typed t = none
gets_from (c ∷ keys) (suc room) [] t =
    let stay = gets_from keys (suc room) [] t in
    let more = gets_from keys room (c ∷ []) (putchar c t) in
    if c == key_enter then some ([], putchar 10 t) else if leb 32 c && leb c 126 then more else stay
gets_from (c ∷ keys) (suc room) (last ∷ typed) t =
    let stay = gets_from keys (suc room) (last ∷ typed) t in
    let less = gets_from keys (suc (suc room)) typed (backspace t) in
    let more = gets_from keys room (c ∷ last ∷ typed) (putchar c t) in
    if c == key_enter
    then some (reverse (last ∷ typed), putchar 10 t)
    else if c == key_backspace
    then less
    else if leb 32 c && leb c 126
    then more
    else stay

-- The buffer's text and the screen; a buffer of no places is left alone.
unfoldable pub gets_keys :
    List ℕ → (buffer : List ℕ) (size : ℕ) → Terminal → Option (List ℕ × Terminal)
gets_keys keys buffer zero t = some (buffer, t)
gets_keys keys buffer (suc room) t = gets_from keys room [] t

-- `terminal_gets` for as many turns of its loop as are given.
unfoldable pub gets :
    (turns : ℕ) → (buffer : List ℕ) (size : ℕ) → Terminal → Option (List ℕ × Terminal)
gets turns buffer size t = gets_keys (replicate turns getchar) buffer size t

-- `terminal_read_line` always returns 0.
unfoldable pub read_line :
    (turns : ℕ) → (buffer : List ℕ) (size : ℕ) → Terminal → Option (ℕ × List ℕ × Terminal)
read_line turns buffer size t = elim (gets turns buffer size t) [
  | none ↦ none
  | some (text, after) ↦ some (0, text, after)
]
