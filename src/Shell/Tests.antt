-- ===== src/Shell/Tests.antt =====
-- Runs of KluxOS/src/shell/shell.c, and the theorems at concrete inputs.
use klux_os.Terminal.{writestring}
use klux_os.Shell.Session.{shell_run-waiting}
use klux_os.Shell.Parsing.{parse_args-words, words_from}
use klux_os.Shell.Texts.{newline_text}
use klux_os.Terminal.Input.{read_line}
use klux_os.Shell.Commands.{print_prompt, print_banner}
use klux_os.Shell.Loop.{execute_command, shell_run, waiting}
use klux_os.Shell.Echo.{execute_command-echo, echo_word, spaced, IsWord}
use klux_os.Shell.Commands.{Kernel}
use klux_os.Shell.{
  kluxos_text, parse_char, parse_from, root_text, Shell, Terminal, arguments, parse_args, shell_ok,
}
use klux_os.Base.{◌++◌, ◌≡◌, refl, arith, [], ◌∷◌, some, true, false}

abbrev blank_screen : Terminal
blank_screen = record {
  cells = [];
  color = 7;
  row = 0;
  column = 0;
  cursor_visible = true;
  cursor_start = 14;
  cursor_end = 15;
  cursor_high = 0;
  cursor_low = 0;
}

abbrev root_shell : Shell
root_shell = record {
  current_dir = 47 ∷ 97 ∷ [];
  flags = 3;
  username = root_text;
  hostname = kluxos_text;
  last_command = [];
  exit_code = 0;
  screen = blank_screen;
  fs = record { nodes = []; fs_root = 0 };
}

abbrev no_kernel : Kernel
no_kernel = record {
  turns = 5;
  tick_count = 0;
  processes = [];
  total_memory = 0;
  usable_memory = 0;
  free_memory = 0;
  used_memory = 0;
  reserved_memory = 0;
  heap_used = 0;
  heap_size = 0;
}

-- What follows a closing quotation mark without a blank is lost: "a"b has the argument a.
after_quote : arguments (parse_args (34 ∷ 97 ∷ 34 ∷ 98 ∷ []) 64) ≡ (97 ∷ []) ∷ []
unfolding parse_args parse_from parse_char
after_quote = refl

-- Blanks between quotation marks stay.
in_quotes : arguments (parse_args (34 ∷ 97 ∷ 32 ∷ 98 ∷ 34 ∷ []) 64) ≡ (97 ∷ 32 ∷ 98 ∷ []) ∷ []
unfolding parse_args parse_from parse_char
in_quotes = refl

-- With as many words as places, the last argument takes the rest of the line.
all_places :
    arguments (parse_args (97 ∷ 32 ∷ 98 ∷ 32 ∷ 99 ∷ []) 2) ≡ (97 ∷ []) ∷ (98 ∷ 32 ∷ 99 ∷ []) ∷ []
unfolding parse_args parse_from parse_char
all_places = refl

parse_args-words_example :
    arguments (parse_args (97 ∷ 32 ∷ 32 ∷ 98 ∷ []) 64) ≡ words_from false (97 ∷ 32 ∷ 32 ∷ 98 ∷ [])
parse_args-words_example =
    parse_args-words (97 ∷ 32 ∷ 32 ∷ 98 ∷ []) 64
      (
        (omega arith, (λ p. omega arith), (λ p. omega arith)),
        (
          (omega arith, (λ p. omega arith), (λ p. omega arith)),
          (
            (omega arith, (λ p. omega arith), (λ p. omega arith)),
            ((omega arith, (λ p. omega arith), (λ p. omega arith)), tt),
          ),
        ),
      )
      (omega arith)

-- "hi"
hi-IsWord : IsWord (104 ∷ 105 ∷ [])
hi-IsWord = (
  omega arith,
  (
    (omega arith, (λ p. omega arith), (λ p. omega arith)),
    ((omega arith, (λ p. omega arith), (λ p. omega arith)), tt),
  ),
  (refl, (refl, tt)),
)

execute_command-echo_example :
    execute_command no_kernel (spaced (echo_word ∷ (104 ∷ 105 ∷ []) ∷ [])) root_shell
    ≡ some (
      shell_ok,
      record root_shell {
        screen = writestring (spaced ((104 ∷ 105 ∷ []) ∷ []) ++ newline_text) root_shell.screen;
      },
    )
execute_command-echo_example =
    execute_command-echo no_kernel ((104 ∷ 105 ∷ []) ∷ []) root_shell (hi-IsWord, tt) (omega arith)
      (omega arith)

shell_run-waiting_example :
    shell_run (λ line t. read_line 4 line 256 t) no_kernel 3 [] root_shell
    ≡ waiting (print_prompt (print_banner root_shell))
shell_run-waiting_example = shell_run-waiting no_kernel 4 2 [] root_shell
