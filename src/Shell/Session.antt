-- ===== src/Shell/Session.antt =====
-- The working directory and the loop of KluxOS/src/shell/shell.c.
use klux_os.Fs.Paths.{before_last_slash-behind}
use klux_os.Shell.Texts.{dots_text}
use klux_os.Terminal.Line.{read_line-stuck}
use klux_os.Fs.Calls.{before_last_slash, slash}
use klux_os.Terminal.Input.{read_line}
use klux_os.Shell.Loop.{run_from, shell_run, waiting}
use klux_os.Shell.Commands.{print_banner, print_prompt, Kernel, go_up, run_cd}
use klux_os.Shell.{Shell, copy_from, slash_text, str_compare, shell_ok}
use klux_os.Base.{
  if_false, ◌++◌, ◌≢◌, All, ◌≡◌, ◌==◌, Option, length, List, ℕ, suc, refl, arith, [], ◌∷◌, none,
  some, false, ◌∙◌, ap, sym, if◌then◌else◌,
}

abbrev dir_above : List ℕ → Option (List ℕ) → List ℕ
dir_above dir front = elim front [ none ↦ dir | some [] ↦ slash_text | some (c ∷ rest) ↦ c ∷ rest ]

nonempty : (c : ℕ) (front : List ℕ) → (length (c ∷ front) == 0) ≡ false
nonempty c front = ground arith

-- "cd .." from a directory below another one leads to that one, and from the root's own
-- directories to the root; nothing else changes.
pub run_cd-dots :
    (turns : ℕ) (front name : List ℕ) (rest : List (List ℕ)) (sh : Shell)
    → All (λ c. c ≢ slash) name
    → sh.current_dir ≡ front ++ slash ∷ name
    → run_cd turns (dots_text ∷ rest) sh
      ≡ some (shell_ok, record sh { current_dir = if length front == 0 then slash_text else front })
unfolding run_cd str_compare go_up copy_from
run_cd-dots turns [] name rest sh plain at =
    let up : before_last_slash sh.current_dir ≡ some [] =
      ap before_last_slash at ∙ before_last_slash-behind [] name plain in
    ap
      (λ (d : Option (List ℕ)).
        some (shell_ok, record sh { current_dir = dir_above sh.current_dir d }))
      up
run_cd-dots turns (c ∷ front) name rest sh plain at =
    let up : before_last_slash sh.current_dir ≡ some (c ∷ front) =
      ap before_last_slash at ∙ before_last_slash-behind (c ∷ front) name plain in
    ap
      (λ (d : Option (List ℕ)).
        some (shell_ok, record sh { current_dir = dir_above sh.current_dir d }))
      up
    ∙ ap (λ (d : List ℕ). some (shell_ok, record sh { current_dir = d }))
        (sym (if_false _ _ (nonempty c front)))

-- The shell reads its lines with `terminal_read_line`. However often that asks for a key, and
-- however many turns the shell's loop may take, the shell is in its first turn: it has printed its
-- banner and one prompt, waits for its first line, and has run no command.
pub shell_run-waiting :
    (k : Kernel) (polls turns : ℕ) (buffer : List ℕ) (sh : Shell)
    → shell_run (λ line t. read_line polls line 256 t) k (suc turns) buffer sh
      ≡ waiting (print_prompt (print_banner sh))
unfolding shell_run run_from
shell_run-waiting k polls turns buffer sh =
    let shown = print_prompt (print_banner sh) in
    rw (read_line-stuck polls buffer 256 shown.screen (omega arith), run_from) refl
