-- ===== src/Shell/Echo.antt =====
-- Command lines of KluxOS/src/shell/shell.c from the keyboard's text to the screen.
use klux_os.Terminal.Numbers.{writestring-append}
use klux_os.Shell.Strings.{copy_from-take}
use klux_os.Shell.Texts.{newline_text, space_text}
use klux_os.Terminal.{writestring}
use klux_os.Shell.Parsing.{parse_args-words, word, IsUnquoted, words_from}
use klux_os.Shell.Commands.{run_echo, Kernel, find_command, say, echo_from}
use klux_os.Shell.Loop.{run_handler, execute_command, run_args}
use mathlib.Core.List.{append-nil}
use klux_os.Shell.{
  parse_args, arguments, Terminal, str_copy, str_compare, is_blank, Shell, shell_ok,
}
use klux_os.Base.{
  take-all, All-append, if_false, ◌≢◌, ◌≤◌, length, ◌≡◌, All, ◌++◌, ◌<◌, ℕ, List, refl, arith, [],
  ◌∷◌, some, true, false, ◌∙◌, ap, ap₂, sym,
}

-- A word that a line can hold without quotation marks.
abbrev pub IsWord : List ℕ → Type 0
IsWord w =
    (0 < length w) × All (λ c. (0 < c) × (c ≢ 34) × (c ≢ 39)) w × All (λ c. is_blank c ≡ false) w

-- Words with single spaces between them.
abbrev pub spaced : List (List ℕ) → List ℕ
spaced [] = []
spaced (w ∷ []) = w
spaced (w ∷ next ∷ ws) = w ++ 32 ∷ spaced (next ∷ ws)

words_from-inside :
    (w rest : List ℕ)
    → All (λ c. is_blank c ≡ false) w
    → words_from true (w ++ rest) ≡ words_from true rest
words_from-inside [] rest solid = refl
words_from-inside (c ∷ w) rest solid = if_false _ _ solid.0 ∙ words_from-inside w rest solid.1

word-append :
    (w rest : List ℕ) → All (λ c. is_blank c ≡ false) w → word (w ++ rest) ≡ w ++ word rest
word-append [] rest solid = refl
word-append (c ∷ w) rest solid = if_false _ _ solid.0 ∙ ap (λ t. c ∷ t) (word-append w rest solid.1)

words_from-word :
    (w rest : List ℕ)
    → IsWord w
    → words_from false (w ++ rest) ≡ (w ++ word rest) ∷ words_from true rest
words_from-word [] rest ok = absurd (omega (arith, ok.0))
words_from-word (c ∷ w) rest ok =
    if_false _ _ ok.2.0
    ∙ ap₂ ◌∷◌ (ap (λ t. c ∷ t) (word-append w rest ok.2.1)) (words_from-inside w rest ok.2.1)

-- Words with single spaces between them are split into the words.
pub words_from-spaced : (ws : List (List ℕ)) → All IsWord ws → words_from false (spaced ws) ≡ ws
words_from-spaced [] ok = refl
words_from-spaced (w ∷ []) ok =
    ap (words_from false) (sym (append-nil w))
    ∙ words_from-word w [] ok.0
    ∙ ap (λ v. v ∷ []) (append-nil w)
words_from-spaced (w ∷ next ∷ ws) ok =
    words_from-word w (32 ∷ spaced (next ∷ ws)) ok.0
    ∙ ap₂ ◌∷◌ (append-nil w) (words_from-spaced (next ∷ ws) ok.1)

spaced-IsUnquoted : (ws : List (List ℕ)) → All IsWord ws → IsUnquoted (spaced ws)
spaced-IsUnquoted [] ok = tt
spaced-IsUnquoted (w ∷ []) ok = ok.0.1
spaced-IsUnquoted (w ∷ next ∷ ws) ok =
    All-append (λ c. (0 < c) × (c ≢ 34) × (c ≢ 39)) w (32 ∷ spaced (next ∷ ws)) ok.0.1
      ((omega arith, (λ p. omega arith), (λ p. omega arith)), spaced-IsUnquoted (next ∷ ws) ok.1)

-- A command line of words with single spaces between them, that the buffers of 256 characters and
-- 64 arguments hold, runs its words as they are.
pub execute_command-spaced :
    (k : Kernel) (ws : List (List ℕ)) (sh : Shell)
    → All IsWord ws
    → length ws < 64
    → length (spaced ws) ≤ 255
    → execute_command k (spaced ws) sh ≡ run_args k ws sh
unfolding execute_command
execute_command-spaced k ws sh ok few fits =
    let whole : str_copy (spaced ws) 256 ≡ spaced ws =
      copy_from-take (spaced ws) 255 ∙ take-all (spaced ws) 255 fits in
    let same = words_from-spaced ws ok in
    ap (λ l. run_args k (arguments (parse_args l 64)) sh) whole
    ∙ ap (λ a. run_args k a sh)
        (parse_args-words (spaced ws) 64 (spaced-IsUnquoted ws ok)
            (omega (arith, few, ap length same))
          ∙ same)

echo_from-spaced : (ws : List (List ℕ)) (sh : Shell) → echo_from ws sh ≡ say (spaced ws) sh
unfolding echo_from say writestring
echo_from-spaced [] sh = refl
echo_from-spaced (w ∷ []) sh = refl
echo_from-spaced (w ∷ next ∷ ws) sh =
    echo_from-spaced (next ∷ ws) (say space_text (say w sh))
    ∙ ap (λ (s : Terminal). record sh { screen = s })
        (sym (writestring-append w (32 ∷ spaced (next ∷ ws)) sh.screen))

-- "echo"
abbrev pub echo_word : List ℕ
echo_word = 101 ∷ 99 ∷ 104 ∷ 111 ∷ []

echo_word-IsWord : IsWord echo_word
echo_word-IsWord = (
  omega arith,
  (
    (omega arith, (λ p. omega arith), (λ p. omega arith)),
    (
      (omega arith, (λ p. omega arith), (λ p. omega arith)),
      (
        (omega arith, (λ p. omega arith), (λ p. omega arith)),
        ((omega arith, (λ p. omega arith), (λ p. omega arith)), tt),
      ),
    ),
  ),
  (refl, (refl, (refl, (refl, tt)))),
)

-- "echo" and words, typed with single spaces between them on a line that the buffers hold: the
-- words come on the screen with single spaces between them and a new line, and the status is OK.
pub execute_command-echo :
    (k : Kernel) (ws : List (List ℕ)) (sh : Shell)
    → All IsWord ws
    → length ws < 63
    → length (spaced (echo_word ∷ ws)) ≤ 255
    → execute_command k (spaced (echo_word ∷ ws)) sh
      ≡ some (shell_ok, record sh { screen = writestring (spaced ws ++ newline_text) sh.screen })
unfolding run_args find_command run_handler run_echo str_compare say
execute_command-echo k ws sh ok few fits =
    execute_command-spaced k (echo_word ∷ ws) sh (echo_word-IsWord, ok) (omega (arith, few)) fits
    ∙ ap (λ s. some (shell_ok, say newline_text s)) (echo_from-spaced ws sh)
    ∙ ap (λ (s : Terminal). some (shell_ok, record sh { screen = s }))
        (sym (writestring-append (spaced ws) newline_text sh.screen))
