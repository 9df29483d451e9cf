-- ===== src/Shell/Parsing.antt =====
-- `shell_parse_args` of KluxOS/src/shell/shell.c against a splitting of the line into words.
use klux_os.Shell.{
  arguments, before_zero, parse_args, parse_from, strings_at, Parser, is_blank, is_quote,
  parse_char,
}
use mathlib.Core.List.{append-nil}
use klux_os.Base.{
  drop-append, if_false, length-append, ◌∙◌, ap₂, drop, if_true, ltb, snoc-append, arith, sym, ◌≢◌,
  Bool-cases, ◌++◌, ◌<◌, ◌==◌, All, length, set, ◌+◌, ◌≡◌, ℕ, ◌&&◌, Bool, List, suc, refl, [], ◌∷◌,
  true, false, inl, inr, ap, if◌then◌else◌,
}

-- A line without quotation marks.
abbrev pub IsUnquoted : List ℕ → Type 0
IsUnquoted line = All (λ c. (0 < c) × (c ≢ 34) × (c ≢ 39)) line

-- The characters up to the next blank.
abbrev pub word : List ℕ → List ℕ
word [] = []
word (c ∷ line) = let more = c ∷ word line in if is_blank c then [] else more

-- The specification: the words that start in the line; `inside` says that the line starts in a
-- word.
abbrev pub words_from : (inside : Bool) → List ℕ → List (List ℕ)
words_from inside [] = []
words_from inside (c ∷ line) =
    let after = words_from false line in
    let rest = words_from true line in
    if is_blank c then after else if inside then rest else (c ∷ word line) ∷ rest

-- What the loop leaves in the line, and the places where it starts arguments.
abbrev cut : (inside : Bool) → List ℕ → List ℕ
cut inside [] = []
cut inside (c ∷ line) =
    let after = cut false line in
    let rest = cut true line in if is_blank c then (if inside then 0 else c) ∷ after else c ∷ rest

abbrev starts : (inside : Bool) → (i : ℕ) → List ℕ → List ℕ
starts inside i [] = []
starts inside i (c ∷ line) =
    let after = starts false (i + 1) line in
    let rest = starts true (i + 1) line in
    if is_blank c then after else if inside then rest else i ∷ rest

length-starts :
    (inside : Bool) (i : ℕ) (line : List ℕ)
    → length (starts inside i line) ≡ length (words_from inside line)
length-starts inside i [] = refl
length-starts inside i (c ∷ line) = elim (Bool-cases (is_blank c)) [
  | inl t ↦ rw (t, starts, words_from) (length-starts false (i + 1) line)
  | inr f ↦ elim (Bool-cases inside) [
    | inl t ↦ rw (f, starts, words_from) (rw t (length-starts true (i + 1) line))
    | inr g ↦ rw (f, starts, words_from) (rw g (ap suc (length-starts true (i + 1) line)))
  ]
]

-- The parser between two characters of a line without quotation marks.
abbrev parser : (line argv : List ℕ) (inside : Bool) → Parser
parser line argv inside = record {
  line = line;
  argv = argv;
  in_quote = false;
  in_arg = inside;
  quote_char = 0;
}

and_false : (b : Bool) → (b && false) ≡ false
and_false true = refl
and_false false = refl

parse_char-blank :
    (i c : ℕ) (line argv : List ℕ) (inside : Bool)
    → is_quote c ≡ false
    → is_blank c ≡ true
    → parse_char i c (parser line argv inside)
      ≡ parser (if inside then set line i 0 else line) argv false
unfolding parse_char
parse_char-blank i c line argv true plain blank = rw plain (rw (and_false (c == 0)) (rw blank refl))
parse_char-blank i c line argv false plain blank =
    rw plain (rw (and_false (c == 0)) (rw blank refl))

parse_char-word :
    (i c : ℕ) (line argv : List ℕ) (inside : Bool)
    → is_quote c ≡ false
    → is_blank c ≡ false
    → parse_char i c (parser line argv inside)
      ≡ parser line (if inside then argv else argv ++ i ∷ []) true
unfolding parse_char
parse_char-word i c line argv true plain solid = rw plain (rw (and_false (c == 0)) (rw solid refl))
parse_char-word i c line argv false plain solid = rw plain (rw (and_false (c == 0)) (rw solid refl))

set-append :
    (front rest : List ℕ) (c d : ℕ)
    → set (front ++ c ∷ rest) (length front) d ≡ (front ++ d ∷ []) ++ rest
set-append [] rest c d = refl
set-append (x ∷ front) rest c d = ap (λ t. x ∷ t) (set-append front rest c d)

parse_from-step :
    (c d : ℕ) (rest front argv argv' : List ℕ) (inside inside' : Bool) (max_args : ℕ)
    → length argv < max_args
    → parse_char (length front) c (parser (front ++ c ∷ rest) argv inside)
      ≡ parser ((front ++ d ∷ []) ++ rest) argv' inside'
    → parse_from (c ∷ rest) (length front) max_args (parser (front ++ c ∷ rest) argv inside)
      ≡ parse_from rest
          (length (front ++ d ∷ []))
          max_args
          (parser ((front ++ d ∷ []) ++ rest) argv' inside')
unfolding parse_from
parse_from-step c d rest front argv argv' inside inside' max_args room turn =
    let t : ltb (length argv) max_args ≡ true = ground (arith, room) in
    let n : length front + 1 ≡ length (front ++ d ∷ []) =
      omega (arith, length-append front (d ∷ [])) in
    if_true _ _ t
    ∙ ap
        (λ k.
          parse_from rest k max_args
            (parse_char (length front) c (parser (front ++ c ∷ rest) argv inside)))
        n
    ∙ ap (parse_from rest (length (front ++ d ∷ [])) max_args) turn

not_quote : (c : ℕ) → (0 < c) × (c ≢ 34) × (c ≢ 39) → is_quote c ≡ false
not_quote c h = ground (arith, h)

-- What the loop leaves, from a place in the line on.
abbrev IsParsed : (line argv : List ℕ) → Parser → Type 0
IsParsed line argv p = (p.line ≡ line) × (p.argv ≡ argv)

stored :
    (inside : Bool) (front rest : List ℕ) (c : ℕ)
    → (if inside then set (front ++ c ∷ rest) (length front) 0 else front ++ c ∷ rest)
      ≡ (front ++ (if inside then 0 else c) ∷ []) ++ rest
stored true front rest c = set-append front rest c 0
stored false front rest c = sym (snoc-append front rest c)

joined :
    (inside : Bool) (argv : List ℕ) (i : ℕ) (later : List ℕ)
    → argv ++ (if inside then later else i ∷ later)
      ≡ (if inside then argv else argv ++ i ∷ []) ++ later
joined true argv i later = refl
joined false argv i later = sym (snoc-append argv later i)

parse_from-IsParsed :
    (line front argv : List ℕ) (inside : Bool) (max_args : ℕ)
    → IsUnquoted line
    → length argv + length (starts inside (length front) line) < max_args
    → IsParsed
        (front ++ cut inside line)
        (argv ++ starts inside (length front) line)
        (parse_from line (length front) max_args (parser (front ++ line) argv inside))
unfolding parse_from
parse_from-IsParsed [] front argv inside max_args plain room = (refl, sym (append-nil argv))
parse_from-IsParsed (c ∷ rest) front argv inside max_args plain room =
    let q = not_quote c plain.0 in
    let i = length front in
    elim (Bool-cases (is_blank c)) [
      | inl blank ↦
          let d : ℕ = if inside then 0 else c in
          let same : starts inside i (c ∷ rest) ≡ starts false (i + 1) rest = if_true _ _ blank in
          let left : cut inside (c ∷ rest) ≡ d ∷ cut false rest = if_true _ _ blank in
          let turn : parse_char i c (parser (front ++ c ∷ rest) argv inside)
              ≡ parser ((front ++ d ∷ []) ++ rest) argv false =
            parse_char-blank i c (front ++ c ∷ rest) argv inside q blank
            ∙ ap (λ l. parser l argv false) (stored inside front rest c) in
          let step =
            parse_from-step c d rest front argv argv inside false max_args (omega arith) turn in
          let n : i + 1 ≡ length (front ++ d ∷ []) = omega (arith, length-append front (d ∷ [])) in
          let ih =
            parse_from-IsParsed rest (front ++ d ∷ []) argv false max_args plain.1
              (omega (arith, room, ap length same, ap (λ k. length (starts false k rest)) n)) in
          (
            ap (λ p. p.line) step
                ∙ ih.0
                ∙ snoc-append front (cut false rest) d
                ∙ ap (λ l. front ++ l) (sym left),
            ap (λ p. p.argv) step
                ∙ ih.1
                ∙ ap (λ k. argv ++ starts false k rest) (sym n)
                ∙ ap (λ l. argv ++ l) (sym same),
          )
      | inr solid ↦
          let argv' : List ℕ = if inside then argv else argv ++ i ∷ [] in
          let left : cut inside (c ∷ rest) ≡ c ∷ cut true rest = if_false _ _ solid in
          let same : argv ++ starts inside i (c ∷ rest) ≡ argv' ++ starts true (i + 1) rest =
            ap (λ l. argv ++ l) (if_false _ _ solid)
            ∙ joined inside argv i (starts true (i + 1) rest) in
          let turn : parse_char i c (parser (front ++ c ∷ rest) argv inside)
              ≡ parser ((front ++ c ∷ []) ++ rest) argv' true =
            parse_char-word i c (front ++ c ∷ rest) argv inside q solid
            ∙ ap (λ l. parser l argv' true) (sym (snoc-append front rest c)) in
          let step =
            parse_from-step c c rest front argv argv' inside true max_args (omega arith) turn in
          let n : i + 1 ≡ length (front ++ c ∷ []) = omega (arith, length-append front (c ∷ [])) in
          let ih = parse_from-IsParsed rest (front ++ c ∷ []) argv' true max_args plain.1 (
            omega (
              arith,
              room,
              ap length same,
              length-append argv (starts inside i (c ∷ rest)),
              length-append argv' (starts true (i + 1) rest),
              ap (λ k. length (starts true k rest)) n,
            )) in
          (
            ap (λ p. p.line) step
                ∙ ih.0
                ∙ snoc-append front (cut true rest) c
                ∙ ap (λ l. front ++ l) (sym left),
            ap (λ p. p.argv) step ∙ ih.1 ∙ ap (λ k. argv' ++ starts true k rest) (sym n) ∙ sym same,
          )
    ]

before_zero-cut : (line : List ℕ) → IsUnquoted line → before_zero (cut true line) ≡ word line
before_zero-cut [] plain = refl
before_zero-cut (c ∷ line) plain = elim (Bool-cases (is_blank c)) [
  | inl t ↦ rw (t, cut, word) refl
  | inr f ↦
      let nz : (c == 0) ≡ false = ground (arith, plain.0) in
      rw (f, cut, word) (rw (nz, before_zero) (ap (λ t. c ∷ t) (before_zero-cut line plain.1)))
]

from_next :
    (rest front : List ℕ) (d : ℕ) (inside : Bool)
    → strings_at
        ((front ++ d ∷ []) ++ cut inside rest)
        (starts inside (length (front ++ d ∷ [])) rest)
      ≡ words_from inside rest
    → strings_at (front ++ d ∷ cut inside rest) (starts inside (length front + 1) rest)
      ≡ words_from inside rest
from_next rest front d inside h =
    ap₂ strings_at (sym (snoc-append front (cut inside rest) d))
      (ap (λ k. starts inside k rest) (omega (arith, length-append front (d ∷ []))))
    ∙ h

from_start :
    (inside : Bool) (line : List ℕ) (i : ℕ) (first : List ℕ) (argv : List ℕ) (rest : List (List ℕ))
    → before_zero (drop i line) ≡ first
    → strings_at line argv ≡ rest
    → strings_at line (if inside then argv else i ∷ argv) ≡ (if inside then rest else first ∷ rest)
from_start true line i first argv rest h later = later
from_start false line i first argv rest h later = ap₂ ◌∷◌ h later

strings_at-cut :
    (line front : List ℕ) (inside : Bool)
    → IsUnquoted line
    → strings_at (front ++ cut inside line) (starts inside (length front) line)
      ≡ words_from inside line
strings_at-cut [] front inside plain = refl
strings_at-cut (c ∷ rest) front inside plain = elim (Bool-cases (is_blank c)) [
  | inl blank ↦
      let d : ℕ = if inside then 0 else c in
      ap₂ strings_at (ap (λ l. front ++ l) (if_true _ _ blank)) (if_true _ _ blank)
      ∙ from_next rest front d false (strings_at-cut rest (front ++ d ∷ []) false plain.1)
      ∙ sym (if_true _ _ blank)
  | inr solid ↦
      let later =
        from_next rest front c true (strings_at-cut rest (front ++ c ∷ []) true plain.1) in
      let i = length front in
      let first : before_zero (drop i (front ++ c ∷ cut true rest)) ≡ c ∷ word rest =
        ap before_zero (drop-append front (c ∷ cut true rest))
        ∙ if_false {b = c == 0} _ _ (ground (arith, plain.0))
        ∙ ap (λ t. c ∷ t) (before_zero-cut rest plain.1) in
      ap₂ strings_at (ap (λ l. front ++ l) (if_false _ _ solid)) (if_false _ _ solid)
      ∙ from_start inside (front ++ c ∷ cut true rest) i (c ∷ word rest) (starts true (i + 1) rest)
          (words_from true rest) first later
      ∙ sym (if_false _ _ solid)
]

-- An unquoted line of fewer words than there are places for arguments is split at its blanks: the
-- arguments are its words.
pub parse_args-words :
    (line : List ℕ) (max_args : ℕ)
    → IsUnquoted line
    → length (words_from false line) < max_args
    → arguments (parse_args line max_args) ≡ words_from false line
unfolding parse_args
parse_args-words line max_args plain room =
    let parsed =
      parse_from-IsParsed line [] [] false max_args plain
        (omega (arith, length-starts false 0 line)) in
    ap₂ strings_at parsed.0 parsed.1 ∙ strings_at-cut line [] false plain
