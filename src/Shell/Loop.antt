-- ===== src/Shell/Loop.antt =====
-- How KluxOS/src/shell/shell.c runs a command line, and its loop over lines.
use klux_os.Terminal.Format.{print_int, printf}
use klux_os.Shell.Texts.{
  bytes_text, newline_text, over_text, reserved_text, heap_text, free_text, exit_text,
  no_process_text, used_text, total_memory_text, commands, ps_row_text, uptime_format, usable_text,
  memory_header_text, ps_header_text, kilobytes_text, memory_line_text, ps_line_text, uptime_text,
  Handler,
}
use klux_os.Process.{Process}
use klux_os.Shell.{shell_exit, parse_args, str_copy, arguments, shell_ok, Terminal, Shell, Status}
use klux_os.Shell.Commands.{
  run_cat, run_cd, run_ls, run_version, not_found, run_echo, clear_screen, find_command, paint,
  print_banner, print_prompt, run_help, say, unpaint, Kernel,
}
use klux_os.Shell.Texts.{
  cmd_help, cmd_clear, cmd_echo, cmd_exit, cmd_version, cmd_ls, cmd_cd, cmd_cat, cmd_ps, cmd_uptime,
  cmd_meminfo,
}
use klux_os.Shell.{
  shell_ok, command_not_found, invalid_arguments, permission_denied, internal_error, shell_exit,
}
use klux_os.Base.{
  ◌==◌, length, ◌%◌, Option, ◌/◌, List, ℕ, zero, suc, [], ◌∷◌, none, some, if◌then◌else◌,
}

-- The loop of `cmd_ps`: the arguments of the format are not printed.
pub ps_from : List Process → Shell → Shell
ps_from [] sh = sh
ps_from (p ∷ rest) sh = ps_from rest (record sh { screen = printf ps_row_text sh.screen })

pub run_ps : List Process → Shell → Status × Shell
run_ps processes sh =
    let shown = ps_from processes (say ps_line_text (say ps_header_text sh)) in
    (shell_ok, if length processes == 0 then say no_process_text shown else shown)

-- `memory_info` of KluxOS/src/kernel/mm/memory.c, one of its lines with a size.
pub size_line : (text : List ℕ) (size : ℕ) → Shell → Shell
size_line text size sh =
    let named = say text sh in
    say kilobytes_text (record named { screen = print_int size named.screen })

pub run_meminfo : Kernel → Shell → Status × Shell
run_meminfo k sh =
    let head = unpaint (say memory_line_text (say memory_header_text (paint 11 sh))) in
    let usable =
      size_line usable_text k.usable_memory (size_line total_memory_text k.total_memory head) in
    let used = size_line used_text k.used_memory (size_line free_text k.free_memory usable) in
    let heap = say heap_text (size_line reserved_text k.reserved_memory used) in
    let of_heap : Shell = record heap { screen = print_int k.heap_used heap.screen } in
    let parted = say over_text of_heap in
    let whole : Shell = record parted { screen = print_int k.heap_size parted.screen } in
    (shell_ok, say newline_text (say bytes_text whole))

-- The days, hours and minutes that `cmd_uptime` works out, at 100 ticks a second.
unfoldable pub uptime : (ticks : ℕ) → ℕ × ℕ × ℕ
uptime ticks =
    let seconds = ticks / 100 in
    let minutes = seconds / 60 in
    let hours = minutes / 60 in let days = hours / 24 in (days, hours % 24, minutes % 60)

-- The numbers are arguments of the format, which are not printed.
pub run_uptime : Shell → Status × Shell
run_uptime sh =
    let named = say uptime_text sh in
    (shell_ok, record named { screen = printf uptime_format named.screen })

unfoldable pub run_handler : Kernel → Handler → List (List ℕ) → Shell → Option (Status × Shell)
run_handler k cmd_help args sh = some (run_help args sh)
run_handler k cmd_clear args sh = some (shell_ok, clear_screen sh)
run_handler k cmd_echo args sh = some (run_echo args sh)
run_handler k cmd_exit args sh = some (shell_exit, say exit_text sh)
run_handler k cmd_version args sh = some (run_version sh)
run_handler k cmd_ls args sh = run_ls k.turns args sh
run_handler k cmd_cd args sh = run_cd k.turns args sh
run_handler k cmd_cat args sh = run_cat k.turns args sh
run_handler k cmd_ps args sh = some (run_ps k.processes sh)
run_handler k cmd_uptime args sh = some (run_uptime sh)
run_handler k cmd_meminfo args sh = some (run_meminfo k sh)

-- What `shell_execute_command` does with the arguments.
unfoldable pub run_args : Kernel → List (List ℕ) → Shell → Option (Status × Shell)
run_args k [] sh = some (shell_ok, sh)
run_args k (name ∷ args) sh = elim (find_command commands name) [
  | none ↦ some (not_found name sh)
  | some c ↦ run_handler k c.handler args sh
]

unfoldable pub execute_command : Kernel → List ℕ → Shell → Option (Status × Shell)
execute_command k command_line sh =
    run_args k (arguments (parse_args (str_copy command_line 256) 64)) sh

pub status_code : Status → ℕ
status_code shell_ok = 0
status_code command_not_found = 1
status_code invalid_arguments = 2
status_code permission_denied = 3
status_code internal_error = 4
status_code shell_exit = 5

-- Where `shell_run` is after a number of turns: it has left its loop, it waits for a line, it is in
-- a command that has not returned, or it is about to print its next prompt.
pub data Run : Type 0 where
  left : Shell → Run
  waiting : Shell → Run
  in_command : Shell → Run
  at_prompt : Shell → Run

-- The loop of `shell_run` for a number of turns. `read` stands for `terminal_read_line`, none while
-- it has not returned; its buffer keeps its text between the turns.
unfoldable pub run_from :
    (read : List ℕ → Terminal → Option (ℕ × List ℕ × Terminal))
    → Kernel
    → (turns : ℕ) (buffer : List ℕ) → Shell
    → Run
run_from read k zero buffer sh = at_prompt sh
run_from read k (suc turns) buffer sh = elim (read buffer (print_prompt sh).screen) [
  | none ↦ waiting (print_prompt sh)
  | some (zero_always, [], screen) ↦
      run_from read k turns [] (record (print_prompt sh) { screen = screen })
  | some (zero_always, c ∷ line, screen) ↦
      let started : Shell = record (print_prompt sh) {
        screen = screen;
        last_command = str_copy (c ∷ line) 256;
      } in
      elim (execute_command k (c ∷ line) started) [
        | none ↦ in_command started
        | some (shell_exit, after) ↦ left after
        | some (status, after) ↦
            run_from read k turns (c ∷ line) (record after { exit_code = status_code status })
      ]
]

unfoldable pub shell_run :
    (read : List ℕ → Terminal → Option (ℕ × List ℕ × Terminal))
    → Kernel
    → (turns : ℕ) (buffer : List ℕ) → Shell
    → Run
shell_run read k turns buffer sh = run_from read k turns buffer (print_banner sh)
