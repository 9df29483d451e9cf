-- ===== src/Shell.antt =====
-- KluxOS/src/shell/shell.c: the strings, the parser of command lines and the state of the shell.
pub mod Texts
pub mod Commands
pub mod Loop
pub mod Strings
pub mod Parsing
pub mod Echo
pub mod Session
mod Tests
use klux_os.Fs.Tree.{FileSystem}
use klux_os.Terminal.{Terminal}
use klux_os.Shell.Texts.{kluxos_text, root_text, slash_text}
use klux_os.Base.{
  length, set, ltb, not, ◌||◌, Bool, bit_or, drop, ◌&&◌, ◌++◌, ◌+◌, ◌-◌, ◌==◌, List, ℕ, zero, suc,
  refl, arith, [], ◌∷◌, none, some, true, false, if◌then◌else◌,
}

-- Strings are the bytes before their 0. The loop of `str_copy`, for `left` places more.
unfoldable pub copy_from : List ℕ → (left : ℕ) → List ℕ
copy_from [] left = []
copy_from (c ∷ src) zero = []
copy_from (c ∷ src) (suc left) = c ∷ copy_from src left

abbrev pub str_copy : (src : List ℕ) (max_len : ℕ) → List ℕ
str_copy src max_len = copy_from src (max_len - 1)

-- The two characters whose difference `str_compare` returns.
unfoldable pub str_compare : List ℕ → List ℕ → ℕ × ℕ
str_compare [] [] = (0, 0)
str_compare [] (d ∷ s2) = (0, d)
str_compare (c ∷ s1) [] = (c, 0)
str_compare (c ∷ s1) (d ∷ s2) = let rest = str_compare s1 s2 in if c == d then rest else (c, d)

-- The difference is 0.
abbrev pub same_string : List ℕ → List ℕ → Bool
same_string s1 s2 = let (c, d) = str_compare s1 s2 in c == d

-- `shell_context_t`, with the screen and the file system that the commands use.
pub record Shell : Type 0 where
  pub current_dir : List ℕ
  pub flags : ℕ
  pub username : List ℕ
  pub hostname : List ℕ
  pub last_command : List ℕ
  pub exit_code : ℕ
  pub screen : Terminal
  pub fs : FileSystem

-- `shell_status_t`
pub data Status : Type 0 where
  shell_ok : Status
  command_not_found : Status
  invalid_arguments : Status
  permission_denied : Status
  internal_error : Status
  shell_exit : Status

-- What the loop of `shell_parse_args` keeps: the line with the zeros it stored, the places where
-- the arguments start, and its three variables.
pub record Parser : Type 0 where
  pub line : List ℕ
  pub argv : List ℕ
  pub in_quote : Bool
  pub in_arg : Bool
  pub quote_char : ℕ

abbrev pub is_quote : ℕ → Bool
is_quote c = (c == 34) || (c == 39)

abbrev pub is_blank : ℕ → Bool
is_blank c = (c == 32) || (c == 9)

-- An argument starts at the place `i`, unless one is being read.
abbrev pub start_arg : (i : ℕ) → Parser → Parser
start_arg i p = if p.in_arg then p else record p { argv = p.argv ++ i ∷ []; in_arg = true }

-- One turn of the loop, for the character `c` at the place `i`.
unfoldable pub parse_char : (i c : ℕ) → Parser → Parser
parse_char i c p =
    if is_quote c && not p.in_quote
    then start_arg (i + 1) (record p { in_quote = true; quote_char = c })
    else if (c == p.quote_char) && p.in_quote
    then record p { in_quote = false; quote_char = 0; line = set p.line i 0 }
    else if is_blank c && not p.in_quote
    then (if p.in_arg then record p { line = set p.line i 0; in_arg = false } else p)
    else start_arg i p

-- The loop over the characters from the place `i` on. It stores only at the place it is at, so
-- that it reads the line as it was given.
unfoldable pub parse_from : List ℕ → (i max_args : ℕ) → Parser → Parser
parse_from [] i max_args p = p
parse_from (c ∷ rest) i max_args p =
    let next = parse_from rest (i + 1) max_args (parse_char i c p) in
    if ltb (length p.argv) max_args then next else p

unfoldable pub parse_args : (command_line : List ℕ) (max_args : ℕ) → Parser
parse_args command_line max_args =
    parse_from command_line 0 max_args
      (record { line = command_line; argv = []; in_quote = false; in_arg = false; quote_char = 0 })

-- The string that a pointer into the line stands for.
abbrev pub before_zero : List ℕ → List ℕ
before_zero [] = []
before_zero (c ∷ rest) = let more = c ∷ before_zero rest in if c == 0 then [] else more

abbrev pub strings_at : List ℕ → List ℕ → List (List ℕ)
strings_at line [] = []
strings_at line (k ∷ argv) = before_zero (drop k line) ∷ strings_at line argv

abbrev pub arguments : Parser → List (List ℕ)
arguments p = strings_at p.line p.argv

-- The variables at the start are zeros; the keyboard's set-up does nothing.
pub init : Shell → Shell
init sh = record sh {
  current_dir = str_copy slash_text 256;
  flags = bit_or 1 2;
  username = str_copy root_text 32;
  hostname = str_copy kluxos_text 32;
  last_command = [];
  exit_code = 0;
}
