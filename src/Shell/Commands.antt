-- ===== src/Shell/Commands.antt =====
-- The commands of KluxOS/src/shell/shell.c.
use klux_os.Terminal.Format.{print_int}
use klux_os.Fs.Calls.{finddir, fs_close, fs_read, fs_open, before_last_slash}
use klux_os.Terminal.{clear, reset_color, set_fg_color, write, writestring}
use klux_os.Process.{Process}
use klux_os.Fs.Tree.{is_file, is_directory, node_at, Kind}
use klux_os.Shell.Texts.{
  items_text, assistance_text, not_file_text, logo_1, tab_text, total_text, logo_2, no_file_text,
  not_directory_text, dots_text, logo_3, usage_text, version_text, available_text, cat_usage_text,
  description_text, dollar_text, indent_text, logo_4, no_directory_text, not_found_text,
  version_number, colon_text, command_text, commands, logo_5, at_text, newline_text, space_text,
  Command,
}
use klux_os.Shell.{
  slash_text, command_not_found, invalid_arguments, same_string, shell_ok, str_copy, Status, Shell,
}
use klux_os.Fs.Tree.{directory, file}
use klux_os.Shell.{shell_ok, command_not_found, invalid_arguments}
use klux_os.Base.{
  ◌%◌, not, ◌+◌, get_or, length, ◌-◌, ◌==◌, Option, List, ℕ, zero, suc, [], ◌∷◌, none, some,
  if◌then◌else◌,
}

-- What the commands ask other parts: the turns for calls that go through the file system's
-- pointers and its lists, the tick counter, the list of processes, the memory's five
-- sizes, and the heap's use.
pub record Kernel : Type 0 where
  pub turns : ℕ
  pub tick_count : ℕ
  pub processes : List Process
  pub total_memory : ℕ
  pub usable_memory : ℕ
  pub free_memory : ℕ
  pub used_memory : ℕ
  pub reserved_memory : ℕ
  pub heap_used : ℕ
  pub heap_size : ℕ

unfoldable pub say : List ℕ → Shell → Shell
say text sh = record sh { screen = writestring text sh.screen }

unfoldable pub paint : (fg : ℕ) → Shell → Shell
paint fg sh = record sh { screen = set_fg_color fg sh.screen }

unfoldable pub unpaint : Shell → Shell
unpaint sh = record sh { screen = reset_color sh.screen }

-- The numbers of the colors used: green, light grey, light blue, light green, light red, light
-- brown and white.
pub print_prompt : Shell → Shell
print_prompt sh =
    let user = say sh.username (paint 2 sh) in
    let host = say sh.hostname (paint 9 (say at_text (paint 15 user))) in
    let dir = say sh.current_dir (paint 14 (say colon_text (paint 15 host))) in
    unpaint (say dollar_text (paint 15 dir))

pub clear_screen : Shell → Shell
clear_screen sh = record sh { screen = clear sh.screen }

pub print_banner : Shell → Shell
print_banner sh =
    let logo = say newline_text (
      say logo_5 (
        say logo_4 (
          say logo_3 (say logo_2 (say logo_1 (say newline_text (paint 12 (clear_screen sh)))))))) in
    unpaint (
      say newline_text (
        say assistance_text
          (say newline_text (say version_number (say version_text (paint 7 logo))))))

pub spaces : ℕ → Shell → Shell
spaces zero sh = sh
spaces (suc n) sh = spaces n (say space_text sh)

-- The loop of `shell_help`; a name of more than 12 characters gets no spaces.
pub help_from : List Command → Shell → Shell
help_from [] sh = sh
help_from (c ∷ rest) sh = help_from rest (
    say newline_text (
      say c.description
        (spaces (12 - length c.name) (paint 7 (say c.name (say indent_text (paint 10 sh)))))))

pub help : Shell → Shell
help sh = say newline_text (unpaint (help_from commands (say available_text sh)))

-- The loop over the table of commands.
unfoldable pub find_command : List Command → (name : List ℕ) → Option Command
find_command [] name = none
find_command (c ∷ rest) name =
    let later = find_command rest name in if same_string name c.name then some c else later

pub show_command : Command → Shell → Shell
show_command c sh =
    let named = say newline_text (say c.name (say command_text (paint 10 sh))) in
    let described =
      say newline_text (say c.description (paint 7 (say description_text (paint 15 named)))) in
    unpaint (say newline_text (say c.usage (paint 7 (say usage_text (paint 15 described)))))

abbrev pub not_found : List ℕ → Shell → Status × Shell
not_found name sh = (command_not_found, say newline_text (say name (say not_found_text sh)))

-- The handlers take the arguments after `argv[0]`.
unfoldable pub run_help : List (List ℕ) → Shell → Status × Shell
run_help [] sh = (shell_ok, help sh)
run_help (name ∷ rest) sh = elim (find_command commands name) [
  | none ↦ not_found name sh
  | some c ↦ (shell_ok, show_command c sh)
]

unfoldable pub echo_from : List (List ℕ) → Shell → Shell
echo_from [] sh = sh
echo_from (word ∷ []) sh = say word sh
echo_from (word ∷ next ∷ rest) sh = echo_from (next ∷ rest) (say space_text (say word sh))

unfoldable pub run_echo : List (List ℕ) → Shell → Status × Shell
run_echo args sh = (shell_ok, say newline_text (echo_from args sh))

pub run_version : Shell → Status × Shell
run_version sh = (shell_ok, say newline_text (say version_number (say version_text sh)))

-- A message with a path, and the answer for wrong arguments.
abbrev pub refuse : (text path : List ℕ) → Shell → Status × Shell
refuse text path sh = (invalid_arguments, say newline_text (say path (say text sh)))

-- The color of a node in a listing.
pub kind_color : Kind → ℕ
kind_color directory = 9
kind_color file = 7
kind_color _ = 12

-- The loop of `cmd_ls` over the children; none when the turns are over.
unfoldable pub list_from : (turns : ℕ) → (child count : ℕ) → Shell → Option (ℕ × Shell)
list_from zero child count sh = none
list_from (suc turns) child count sh =
    let n = node_at sh.fs.nodes child in
    let named = say n.name (paint (kind_color n.kind) sh) in
    let marked = if is_directory n.kind then say slash_text named else named in
    let count' = count + 1 in
    let rest =
      list_from turns n.next count'
        (say (if count' % 5 == 0 then newline_text else tab_text) marked) in
    if child == 0 then some (count, sh) else rest

-- The end of `cmd_ls`, once the node is known.
unfoldable pub list_node :
    (turns : ℕ) → (path : List ℕ) (node : ℕ) → Shell → Option (Status × Shell)
list_node turns path node sh =
    if node == 0
    then some (refuse no_directory_text path sh)
    else if not (is_directory (node_at sh.fs.nodes node).kind)
    then some (refuse not_directory_text path sh)
    else elim (list_from turns (node_at sh.fs.nodes node).children 0 sh) [
      | none ↦ none
      | some (count, listed) ↦
          let ended = unpaint (if count % 5 == 0 then listed else say newline_text listed) in
          let counted = say total_text ended in
          let shown : Shell = record counted { screen = print_int count counted.screen } in
          some (shell_ok, say items_text shown)
    ]

unfoldable pub run_ls : (turns : ℕ) → List (List ℕ) → Shell → Option (Status × Shell)
run_ls turns args sh =
    let path : List ℕ = elim args [ [] ↦ sh.current_dir | path ∷ rest ↦ path ] in
    if same_string path slash_text
    then list_node turns path sh.fs.fs_root sh
    else elim (finddir turns sh.fs.fs_root path sh.fs) [
      | none ↦ none
      | some node ↦ list_node turns path node sh
    ]

-- The part of the directory before its last slash: none without a slash.
unfoldable pub go_up : List ℕ → List ℕ
go_up dir = elim (before_last_slash dir) [
  | none ↦ dir
  | some [] ↦ str_copy slash_text 256
  | some (c ∷ front) ↦ c ∷ front
]

unfoldable pub run_cd : (turns : ℕ) → List (List ℕ) → Shell → Option (Status × Shell)
run_cd turns [] sh = some (shell_ok, record sh { current_dir = str_copy slash_text 256 })
run_cd turns (path ∷ rest) sh =
    if same_string path slash_text
    then some (shell_ok, record sh { current_dir = str_copy slash_text 256 })
    else if same_string path dots_text
    then some (shell_ok, record sh { current_dir = go_up sh.current_dir })
    else elim (finddir turns sh.fs.fs_root path sh.fs) [
      | none ↦ none
      | some node ↦
          if node == 0
          then some (refuse no_directory_text path sh)
          else if not (is_directory (node_at sh.fs.nodes node).kind)
          then some (refuse not_directory_text path sh)
          else some (shell_ok, record sh { current_dir = str_copy path 256 })
    ]

-- The text of a file, and a new line where it does not end in one.
pub show_text : List ℕ → Shell → Shell
show_text bytes sh =
    let shown : Shell = record sh { screen = write bytes sh.screen } in
    if length bytes == 0
    then shown
    else if get_or bytes (length bytes - 1) 0 == 10
    then shown
    else say newline_text shown

-- Opening, reading and closing of a file that was found.
unfoldable pub show_file : (turns : ℕ) → (node : ℕ) → Shell → Option (Status × Shell)
show_file turns node sh = elim (fs_open turns node sh.fs) [
  | none ↦ none
  | some opened ↦ elim (fs_read turns node opened) [
    | none ↦ none
    | some bytes ↦
        let shown = show_text bytes (record sh { fs = opened }) in
        elim (fs_close turns node opened) [
          | none ↦ none
          | some closed ↦ some (shell_ok, record shown { fs = closed })
        ]
  ]
]

unfoldable pub run_cat : (turns : ℕ) → List (List ℕ) → Shell → Option (Status × Shell)
run_cat turns [] sh = some (invalid_arguments, say cat_usage_text sh)
run_cat turns (path ∷ rest) sh = elim (finddir turns sh.fs.fs_root path sh.fs) [
  | none ↦ none
  | some node ↦
      if node == 0
      then some (refuse no_file_text path sh)
      else if not (is_file (node_at sh.fs.nodes node).kind)
      then some (refuse not_file_text path sh)
      else show_file turns node sh
]
