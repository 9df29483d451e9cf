-- ===== src/Shell/Texts.antt =====
-- The texts of KluxOS/src/shell/shell.c as bytes, and its table of commands.
use klux_os.Base.{ℕ, List, [], ◌∷◌}

-- "/"
abbrev pub slash_text : List ℕ
slash_text = 47 ∷ []

-- ".."
abbrev pub dots_text : List ℕ
dots_text = 46 ∷ 46 ∷ []

-- "\n"
abbrev pub newline_text : List ℕ
newline_text = 10 ∷ []

-- " "
abbrev pub space_text : List ℕ
space_text = 32 ∷ []

-- "root"
abbrev pub root_text : List ℕ
root_text = 114 ∷ 111 ∷ 111 ∷ 116 ∷ []

-- "kluxos"
abbrev pub kluxos_text : List ℕ
kluxos_text = 107 ∷ 108 ∷ 117 ∷ 120 ∷ 111 ∷ 115 ∷ []

-- "@"
abbrev pub at_text : List ℕ
at_text = 64 ∷ []

-- ":"
abbrev pub colon_text : List ℕ
colon_text = 58 ∷ []

-- "$ "
abbrev pub dollar_text : List ℕ
dollar_text = 36 ∷ 32 ∷ []

-- "Command not found: "
abbrev pub not_found_text : List ℕ
not_found_text =
    67 ∷ 111 ∷ 109 ∷ 109 ∷ 97 ∷ 110 ∷ 100 ∷ 32 ∷ 110 ∷ 111 ∷ 116 ∷ 32 ∷ 102 ∷ 111 ∷ 117 ∷ 110 ∷ 100
    ∷ 58 ∷ 32 ∷ []

-- "Available commands:\n\n"
abbrev pub available_text : List ℕ
available_text =
    65 ∷ 118 ∷ 97 ∷ 105 ∷ 108 ∷ 97 ∷ 98 ∷ 108 ∷ 101 ∷ 32 ∷ 99 ∷ 111 ∷ 109 ∷ 109 ∷ 97 ∷ 110 ∷ 100
    ∷ 115 ∷ 58 ∷ 10 ∷ 10 ∷ []

-- "  "
abbrev pub indent_text : List ℕ
indent_text = 32 ∷ 32 ∷ []

-- "Command: "
abbrev pub command_text : List ℕ
command_text = 67 ∷ 111 ∷ 109 ∷ 109 ∷ 97 ∷ 110 ∷ 100 ∷ 58 ∷ 32 ∷ []

-- "Description: "
abbrev pub description_text : List ℕ
description_text = 68 ∷ 101 ∷ 115 ∷ 99 ∷ 114 ∷ 105 ∷ 112 ∷ 116 ∷ 105 ∷ 111 ∷ 110 ∷ 58 ∷ 32 ∷ []

-- "Usage: "
abbrev pub usage_text : List ℕ
usage_text = 85 ∷ 115 ∷ 97 ∷ 103 ∷ 101 ∷ 58 ∷ 32 ∷ []

-- "Shell'den cikiliyor...\n"
abbrev pub exit_text : List ℕ
exit_text =
    83 ∷ 104 ∷ 101 ∷ 108 ∷ 108 ∷ 39 ∷ 100 ∷ 101 ∷ 110 ∷ 32 ∷ 99 ∷ 105 ∷ 107 ∷ 105 ∷ 108 ∷ 105 ∷ 121
    ∷ 111 ∷ 114 ∷ 46 ∷ 46 ∷ 46 ∷ 10 ∷ []

-- "KluxOS Terminal - Version "
abbrev pub version_text : List ℕ
version_text =
    75 ∷ 108 ∷ 117 ∷ 120 ∷ 79 ∷ 83 ∷ 32 ∷ 84 ∷ 101 ∷ 114 ∷ 109 ∷ 105 ∷ 110 ∷ 97 ∷ 108 ∷ 32 ∷ 45 ∷ 32
    ∷ 86 ∷ 101 ∷ 114 ∷ 115 ∷ 105 ∷ 111 ∷ 110 ∷ 32 ∷ []

-- "0.1.0"
abbrev pub version_number : List ℕ
version_number = 48 ∷ 46 ∷ 49 ∷ 46 ∷ 48 ∷ []

-- "Dizin bulunamadi: "
abbrev pub no_directory_text : List ℕ
no_directory_text =
    68 ∷ 105 ∷ 122 ∷ 105 ∷ 110 ∷ 32 ∷ 98 ∷ 117 ∷ 108 ∷ 117 ∷ 110 ∷ 97 ∷ 109 ∷ 97 ∷ 100 ∷ 105 ∷ 58
    ∷ 32 ∷ []

-- "Dizin degil: "
abbrev pub not_directory_text : List ℕ
not_directory_text = 68 ∷ 105 ∷ 122 ∷ 105 ∷ 110 ∷ 32 ∷ 100 ∷ 101 ∷ 103 ∷ 105 ∷ 108 ∷ 58 ∷ 32 ∷ []

-- "\t"
abbrev pub tab_text : List ℕ
tab_text = 9 ∷ []

-- "\nToplam: "
abbrev pub total_text : List ℕ
total_text = 10 ∷ 84 ∷ 111 ∷ 112 ∷ 108 ∷ 97 ∷ 109 ∷ 58 ∷ 32 ∷ []

-- " oge\n"
abbrev pub items_text : List ℕ
items_text = 32 ∷ 111 ∷ 103 ∷ 101 ∷ 10 ∷ []

-- "Kullanim: cat <dosya>\n"
abbrev pub cat_usage_text : List ℕ
cat_usage_text =
    75 ∷ 117 ∷ 108 ∷ 108 ∷ 97 ∷ 110 ∷ 105 ∷ 109 ∷ 58 ∷ 32 ∷ 99 ∷ 97 ∷ 116 ∷ 32 ∷ 60 ∷ 100 ∷ 111
    ∷ 115 ∷ 121 ∷ 97 ∷ 62 ∷ 10 ∷ []

-- "Dosya bulunamadi: "
abbrev pub no_file_text : List ℕ
no_file_text =
    68 ∷ 111 ∷ 115 ∷ 121 ∷ 97 ∷ 32 ∷ 98 ∷ 117 ∷ 108 ∷ 117 ∷ 110 ∷ 97 ∷ 109 ∷ 97 ∷ 100 ∷ 105 ∷ 58
    ∷ 32 ∷ []

-- "Dosya degil: "
abbrev pub not_file_text : List ℕ
not_file_text = 68 ∷ 111 ∷ 115 ∷ 121 ∷ 97 ∷ 32 ∷ 100 ∷ 101 ∷ 103 ∷ 105 ∷ 108 ∷ 58 ∷ 32 ∷ []

-- "  PID  |  DURUM  |  AD\n"
abbrev pub ps_header_text : List ℕ
ps_header_text =
    32 ∷ 32 ∷ 80 ∷ 73 ∷ 68 ∷ 32 ∷ 32 ∷ 124 ∷ 32 ∷ 32 ∷ 68 ∷ 85 ∷ 82 ∷ 85 ∷ 77 ∷ 32 ∷ 32 ∷ 124 ∷ 32
    ∷ 32 ∷ 65 ∷ 68 ∷ 10 ∷ []

-- "-------|---------|----------------\n"
abbrev pub ps_line_text : List ℕ
ps_line_text =
    45 ∷ 45 ∷ 45 ∷ 45 ∷ 45 ∷ 45 ∷ 45 ∷ 124 ∷ 45 ∷ 45 ∷ 45 ∷ 45 ∷ 45 ∷ 45 ∷ 45 ∷ 45 ∷ 45 ∷ 124 ∷ 45
    ∷ 45 ∷ 45 ∷ 45 ∷ 45 ∷ 45 ∷ 45 ∷ 45 ∷ 45 ∷ 45 ∷ 45 ∷ 45 ∷ 45 ∷ 45 ∷ 45 ∷ 45 ∷ 10 ∷ []

-- "  %3d  | %8s | %s\n"
abbrev pub ps_row_text : List ℕ
ps_row_text =
    32 ∷ 32 ∷ 37 ∷ 51 ∷ 100 ∷ 32 ∷ 32 ∷ 124 ∷ 32 ∷ 37 ∷ 56 ∷ 115 ∷ 32 ∷ 124 ∷ 32 ∷ 37 ∷ 115 ∷ 10
    ∷ []

-- "Aktif islem bulunamadi.\n"
abbrev pub no_process_text : List ℕ
no_process_text =
    65 ∷ 107 ∷ 116 ∷ 105 ∷ 102 ∷ 32 ∷ 105 ∷ 115 ∷ 108 ∷ 101 ∷ 109 ∷ 32 ∷ 98 ∷ 117 ∷ 108 ∷ 117 ∷ 110
    ∷ 97 ∷ 109 ∷ 97 ∷ 100 ∷ 105 ∷ 46 ∷ 10 ∷ []

-- "System uptime: "
abbrev pub uptime_text : List ℕ
uptime_text =
    83 ∷ 121 ∷ 115 ∷ 116 ∷ 101 ∷ 109 ∷ 32 ∷ 117 ∷ 112 ∷ 116 ∷ 105 ∷ 109 ∷ 101 ∷ 58 ∷ 32 ∷ []

-- "%u days, %u hours, %u minutes\n"
abbrev pub uptime_format : List ℕ
uptime_format =
    37 ∷ 117 ∷ 32 ∷ 100 ∷ 97 ∷ 121 ∷ 115 ∷ 44 ∷ 32 ∷ 37 ∷ 117 ∷ 32 ∷ 104 ∷ 111 ∷ 117 ∷ 114 ∷ 115
    ∷ 44 ∷ 32 ∷ 37 ∷ 117 ∷ 32 ∷ 109 ∷ 105 ∷ 110 ∷ 117 ∷ 116 ∷ 101 ∷ 115 ∷ 10 ∷ []

-- "  _  __ _               ___  ____  \n"
abbrev pub logo_1 : List ℕ
logo_1 =
    32 ∷ 32 ∷ 95 ∷ 32 ∷ 32 ∷ 95 ∷ 95 ∷ 32 ∷ 95 ∷ 32 ∷ 32 ∷ 32 ∷ 32 ∷ 32 ∷ 32 ∷ 32 ∷ 32 ∷ 32 ∷ 32
    ∷ 32 ∷ 32 ∷ 32 ∷ 32 ∷ 32 ∷ 95 ∷ 95 ∷ 95 ∷ 32 ∷ 32 ∷ 95 ∷ 95 ∷ 95 ∷ 95 ∷ 32 ∷ 32 ∷ 10 ∷ []

-- " | |/ /| | _   _ __  __/ _ \/ ___| \n"
abbrev pub logo_2 : List ℕ
logo_2 =
    32 ∷ 124 ∷ 32 ∷ 124 ∷ 47 ∷ 32 ∷ 47 ∷ 124 ∷ 32 ∷ 124 ∷ 32 ∷ 95 ∷ 32 ∷ 32 ∷ 32 ∷ 95 ∷ 32 ∷ 95 ∷ 95
    ∷ 32 ∷ 32 ∷ 95 ∷ 95 ∷ 47 ∷ 32 ∷ 95 ∷ 32 ∷ 92 ∷ 47 ∷ 32 ∷ 95 ∷ 95 ∷ 95 ∷ 124 ∷ 32 ∷ 10 ∷ []

-- " | ' / | || | | |\ \/ / | | \___ \ \n"
abbrev pub logo_3 : List ℕ
logo_3 =
    32 ∷ 124 ∷ 32 ∷ 39 ∷ 32 ∷ 47 ∷ 32 ∷ 124 ∷ 32 ∷ 124 ∷ 124 ∷ 32 ∷ 124 ∷ 32 ∷ 124 ∷ 32 ∷ 124 ∷ 92
    ∷ 32 ∷ 92 ∷ 47 ∷ 32 ∷ 47 ∷ 32 ∷ 124 ∷ 32 ∷ 124 ∷ 32 ∷ 92 ∷ 95 ∷ 95 ∷ 95 ∷ 32 ∷ 92 ∷ 32 ∷ 10 ∷ []

-- " | . \ | || |_| | >  <| |_| |___) |\n"
abbrev pub logo_4 : List ℕ
logo_4 =
    32 ∷ 124 ∷ 32 ∷ 46 ∷ 32 ∷ 92 ∷ 32 ∷ 124 ∷ 32 ∷ 124 ∷ 124 ∷ 32 ∷ 124 ∷ 95 ∷ 124 ∷ 32 ∷ 124 ∷ 32
    ∷ 62 ∷ 32 ∷ 32 ∷ 60 ∷ 124 ∷ 32 ∷ 124 ∷ 95 ∷ 124 ∷ 32 ∷ 124 ∷ 95 ∷ 95 ∷ 95 ∷ 41 ∷ 32 ∷ 124 ∷ 10
    ∷ []

-- " |_|\_\|_| \__,_|/_/\_\\___/|____/ \n"
abbrev pub logo_5 : List ℕ
logo_5 =
    32 ∷ 124 ∷ 95 ∷ 124 ∷ 92 ∷ 95 ∷ 92 ∷ 124 ∷ 95 ∷ 124 ∷ 32 ∷ 92 ∷ 95 ∷ 95 ∷ 44 ∷ 95 ∷ 124 ∷ 47
    ∷ 95 ∷ 47 ∷ 92 ∷ 95 ∷ 92 ∷ 92 ∷ 95 ∷ 95 ∷ 95 ∷ 47 ∷ 124 ∷ 95 ∷ 95 ∷ 95 ∷ 95 ∷ 47 ∷ 32 ∷ 10 ∷ []

-- "\nBellek Bilgileri:\n"
abbrev pub memory_header_text : List ℕ
memory_header_text =
    10 ∷ 66 ∷ 101 ∷ 108 ∷ 108 ∷ 101 ∷ 107 ∷ 32 ∷ 66 ∷ 105 ∷ 108 ∷ 103 ∷ 105 ∷ 108 ∷ 101 ∷ 114 ∷ 105
    ∷ 58 ∷ 10 ∷ []

-- "----------------\n"
abbrev pub memory_line_text : List ℕ
memory_line_text =
    45 ∷ 45 ∷ 45 ∷ 45 ∷ 45 ∷ 45 ∷ 45 ∷ 45 ∷ 45 ∷ 45 ∷ 45 ∷ 45 ∷ 45 ∷ 45 ∷ 45 ∷ 45 ∷ 10 ∷ []

-- "Toplam Bellek: "
abbrev pub total_memory_text : List ℕ
total_memory_text =
    84 ∷ 111 ∷ 112 ∷ 108 ∷ 97 ∷ 109 ∷ 32 ∷ 66 ∷ 101 ∷ 108 ∷ 108 ∷ 101 ∷ 107 ∷ 58 ∷ 32 ∷ []

-- "Kullanilabilir Bellek: "
abbrev pub usable_text : List ℕ
usable_text =
    75 ∷ 117 ∷ 108 ∷ 108 ∷ 97 ∷ 110 ∷ 105 ∷ 108 ∷ 97 ∷ 98 ∷ 105 ∷ 108 ∷ 105 ∷ 114 ∷ 32 ∷ 66 ∷ 101
    ∷ 108 ∷ 108 ∷ 101 ∷ 107 ∷ 58 ∷ 32 ∷ []

-- "Bos Bellek: "
abbrev pub free_text : List ℕ
free_text = 66 ∷ 111 ∷ 115 ∷ 32 ∷ 66 ∷ 101 ∷ 108 ∷ 108 ∷ 101 ∷ 107 ∷ 58 ∷ 32 ∷ []

-- "Kullanilan Bellek: "
abbrev pub used_text : List ℕ
used_text =
    75 ∷ 117 ∷ 108 ∷ 108 ∷ 97 ∷ 110 ∷ 105 ∷ 108 ∷ 97 ∷ 110 ∷ 32 ∷ 66 ∷ 101 ∷ 108 ∷ 108 ∷ 101 ∷ 107
    ∷ 58 ∷ 32 ∷ []

-- "Ayrilmis Bellek: "
abbrev pub reserved_text : List ℕ
reserved_text =
    65 ∷ 121 ∷ 114 ∷ 105 ∷ 108 ∷ 109 ∷ 105 ∷ 115 ∷ 32 ∷ 66 ∷ 101 ∷ 108 ∷ 108 ∷ 101 ∷ 107 ∷ 58 ∷ 32
    ∷ []

-- "Cekirdek Yigin Durumu: "
abbrev pub heap_text : List ℕ
heap_text =
    67 ∷ 101 ∷ 107 ∷ 105 ∷ 114 ∷ 100 ∷ 101 ∷ 107 ∷ 32 ∷ 89 ∷ 105 ∷ 103 ∷ 105 ∷ 110 ∷ 32 ∷ 68 ∷ 117
    ∷ 114 ∷ 117 ∷ 109 ∷ 117 ∷ 58 ∷ 32 ∷ []

-- " / "
abbrev pub over_text : List ℕ
over_text = 32 ∷ 47 ∷ 32 ∷ []

-- " byte kullaniliyor\n"
abbrev pub bytes_text : List ℕ
bytes_text =
    32 ∷ 98 ∷ 121 ∷ 116 ∷ 101 ∷ 32 ∷ 107 ∷ 117 ∷ 108 ∷ 108 ∷ 97 ∷ 110 ∷ 105 ∷ 108 ∷ 105 ∷ 121 ∷ 111
    ∷ 114 ∷ 10 ∷ []

-- " KB\n"
abbrev pub kilobytes_text : List ℕ
kilobytes_text = 32 ∷ 75 ∷ 66 ∷ 10 ∷ []

-- "Type 'help' for assistance.\n"
abbrev pub assistance_text : List ℕ
assistance_text =
    84 ∷ 121 ∷ 112 ∷ 101 ∷ 32 ∷ 39 ∷ 104 ∷ 101 ∷ 108 ∷ 112 ∷ 39 ∷ 32 ∷ 102 ∷ 111 ∷ 114 ∷ 32 ∷ 97
    ∷ 115 ∷ 115 ∷ 105 ∷ 115 ∷ 116 ∷ 97 ∷ 110 ∷ 99 ∷ 101 ∷ 46 ∷ 10 ∷ []

-- The functions of the table.
pub data Handler : Type 0 where
  cmd_help : Handler
  cmd_clear : Handler
  cmd_echo : Handler
  cmd_exit : Handler
  cmd_version : Handler
  cmd_ls : Handler
  cmd_cd : Handler
  cmd_cat : Handler
  cmd_ps : Handler
  cmd_uptime : Handler
  cmd_meminfo : Handler

-- `shell_command_t`
pub record Command : Type 0 where
  pub name : List ℕ
  pub description : List ℕ
  pub handler : Handler
  pub usage : List ℕ

-- "help", "Show help information about commands", "help [command]"
abbrev pub help_entry : Command
help_entry = record {
  name = 104 ∷ 101 ∷ 108 ∷ 112 ∷ [];
  description =
      83 ∷ 104 ∷ 111 ∷ 119 ∷ 32 ∷ 104 ∷ 101 ∷ 108 ∷ 112 ∷ 32 ∷ 105 ∷ 110 ∷ 102 ∷ 111 ∷ 114 ∷ 109
      ∷ 97 ∷ 116 ∷ 105 ∷ 111 ∷ 110 ∷ 32 ∷ 97 ∷ 98 ∷ 111 ∷ 117 ∷ 116 ∷ 32 ∷ 99 ∷ 111 ∷ 109 ∷ 109 ∷ 97
      ∷ 110 ∷ 100 ∷ 115 ∷ [];
  handler = cmd_help;
  usage = 104 ∷ 101 ∷ 108 ∷ 112 ∷ 32 ∷ 91 ∷ 99 ∷ 111 ∷ 109 ∷ 109 ∷ 97 ∷ 110 ∷ 100 ∷ 93 ∷ [];
}

-- "clear", "Clear the screen", "clear"
abbrev pub clear_entry : Command
clear_entry = record {
  name = 99 ∷ 108 ∷ 101 ∷ 97 ∷ 114 ∷ [];
  description =
      67 ∷ 108 ∷ 101 ∷ 97 ∷ 114 ∷ 32 ∷ 116 ∷ 104 ∷ 101 ∷ 32 ∷ 115 ∷ 99 ∷ 114 ∷ 101 ∷ 101 ∷ 110 ∷ [];
  handler = cmd_clear;
  usage = 99 ∷ 108 ∷ 101 ∷ 97 ∷ 114 ∷ [];
}

-- "echo", "Print text to the screen", "echo [text...]"
abbrev pub echo_entry : Command
echo_entry = record {
  name = 101 ∷ 99 ∷ 104 ∷ 111 ∷ [];
  description =
      80 ∷ 114 ∷ 105 ∷ 110 ∷ 116 ∷ 32 ∷ 116 ∷ 101 ∷ 120 ∷ 116 ∷ 32 ∷ 116 ∷ 111 ∷ 32 ∷ 116 ∷ 104
      ∷ 101 ∷ 32 ∷ 115 ∷ 99 ∷ 114 ∷ 101 ∷ 101 ∷ 110 ∷ [];
  handler = cmd_echo;
  usage = 101 ∷ 99 ∷ 104 ∷ 111 ∷ 32 ∷ 91 ∷ 116 ∷ 101 ∷ 120 ∷ 116 ∷ 46 ∷ 46 ∷ 46 ∷ 93 ∷ [];
}

-- "exit", "Exit the shell", "exit"
abbrev pub exit_entry : Command
exit_entry = record {
  name = 101 ∷ 120 ∷ 105 ∷ 116 ∷ [];
  description = 69 ∷ 120 ∷ 105 ∷ 116 ∷ 32 ∷ 116 ∷ 104 ∷ 101 ∷ 32 ∷ 115 ∷ 104 ∷ 101 ∷ 108 ∷ 108 ∷ [];
  handler = cmd_exit;
  usage = 101 ∷ 120 ∷ 105 ∷ 116 ∷ [];
}

-- "version", "Show system version information", "version"
abbrev pub version_entry : Command
version_entry = record {
  name = 118 ∷ 101 ∷ 114 ∷ 115 ∷ 105 ∷ 111 ∷ 110 ∷ [];
  description =
      83 ∷ 104 ∷ 111 ∷ 119 ∷ 32 ∷ 115 ∷ 121 ∷ 115 ∷ 116 ∷ 101 ∷ 109 ∷ 32 ∷ 118 ∷ 101 ∷ 114 ∷ 115
      ∷ 105 ∷ 111 ∷ 110 ∷ 32 ∷ 105 ∷ 110 ∷ 102 ∷ 111 ∷ 114 ∷ 109 ∷ 97 ∷ 116 ∷ 105 ∷ 111 ∷ 110 ∷ [];
  handler = cmd_version;
  usage = 118 ∷ 101 ∷ 114 ∷ 115 ∷ 105 ∷ 111 ∷ 110 ∷ [];
}

-- "ls", "List directory contents", "ls [directory]"
abbrev pub ls_entry : Command
ls_entry = record {
  name = 108 ∷ 115 ∷ [];
  description =
      76 ∷ 105 ∷ 115 ∷ 116 ∷ 32 ∷ 100 ∷ 105 ∷ 114 ∷ 101 ∷ 99 ∷ 116 ∷ 111 ∷ 114 ∷ 121 ∷ 32 ∷ 99 ∷ 111
      ∷ 110 ∷ 116 ∷ 101 ∷ 110 ∷ 116 ∷ 115 ∷ [];
  handler = cmd_ls;
  usage = 108 ∷ 115 ∷ 32 ∷ 91 ∷ 100 ∷ 105 ∷ 114 ∷ 101 ∷ 99 ∷ 116 ∷ 111 ∷ 114 ∷ 121 ∷ 93 ∷ [];
}

-- "cd", "Change directory", "cd [directory]"
abbrev pub cd_entry : Command
cd_entry = record {
  name = 99 ∷ 100 ∷ [];
  description =
      67 ∷ 104 ∷ 97 ∷ 110 ∷ 103 ∷ 101 ∷ 32 ∷ 100 ∷ 105 ∷ 114 ∷ 101 ∷ 99 ∷ 116 ∷ 111 ∷ 114 ∷ 121
      ∷ [];
  handler = cmd_cd;
  usage = 99 ∷ 100 ∷ 32 ∷ 91 ∷ 100 ∷ 105 ∷ 114 ∷ 101 ∷ 99 ∷ 116 ∷ 111 ∷ 114 ∷ 121 ∷ 93 ∷ [];
}

-- "cat", "Show file contents", "cat file"
abbrev pub cat_entry : Command
cat_entry = record {
  name = 99 ∷ 97 ∷ 116 ∷ [];
  description =
      83 ∷ 104 ∷ 111 ∷ 119 ∷ 32 ∷ 102 ∷ 105 ∷ 108 ∷ 101 ∷ 32 ∷ 99 ∷ 111 ∷ 110 ∷ 116 ∷ 101 ∷ 110
      ∷ 116 ∷ 115 ∷ [];
  handler = cmd_cat;
  usage = 99 ∷ 97 ∷ 116 ∷ 32 ∷ 102 ∷ 105 ∷ 108 ∷ 101 ∷ [];
}

-- "ps", "List running processes", "ps"
abbrev pub ps_entry : Command
ps_entry = record {
  name = 112 ∷ 115 ∷ [];
  description =
      76 ∷ 105 ∷ 115 ∷ 116 ∷ 32 ∷ 114 ∷ 117 ∷ 110 ∷ 110 ∷ 105 ∷ 110 ∷ 103 ∷ 32 ∷ 112 ∷ 114 ∷ 111
      ∷ 99 ∷ 101 ∷ 115 ∷ 115 ∷ 101 ∷ 115 ∷ [];
  handler = cmd_ps;
  usage = 112 ∷ 115 ∷ [];
}

-- "uptime", "Show system uptime", "uptime"
abbrev pub uptime_entry : Command
uptime_entry = record {
  name = 117 ∷ 112 ∷ 116 ∷ 105 ∷ 109 ∷ 101 ∷ [];
  description =
      83 ∷ 104 ∷ 111 ∷ 119 ∷ 32 ∷ 115 ∷ 121 ∷ 115 ∷ 116 ∷ 101 ∷ 109 ∷ 32 ∷ 117 ∷ 112 ∷ 116 ∷ 105
      ∷ 109 ∷ 101 ∷ [];
  handler = cmd_uptime;
  usage = 117 ∷ 112 ∷ 116 ∷ 105 ∷ 109 ∷ 101 ∷ [];
}

-- "meminfo", "Show memory information", "meminfo"
abbrev pub meminfo_entry : Command
meminfo_entry = record {
  name = 109 ∷ 101 ∷ 109 ∷ 105 ∷ 110 ∷ 102 ∷ 111 ∷ [];
  description =
      83 ∷ 104 ∷ 111 ∷ 119 ∷ 32 ∷ 109 ∷ 101 ∷ 109 ∷ 111 ∷ 114 ∷ 121 ∷ 32 ∷ 105 ∷ 110 ∷ 102 ∷ 111
      ∷ 114 ∷ 109 ∷ 97 ∷ 116 ∷ 105 ∷ 111 ∷ 110 ∷ [];
  handler = cmd_meminfo;
  usage = 109 ∷ 101 ∷ 109 ∷ 105 ∷ 110 ∷ 102 ∷ 111 ∷ [];
}

-- The table before its entry of null pointers.
abbrev pub commands : List Command
commands =
    help_entry ∷ clear_entry ∷ echo_entry ∷ exit_entry ∷ version_entry ∷ ls_entry ∷ cd_entry
    ∷ cat_entry ∷ ps_entry ∷ uptime_entry ∷ meminfo_entry ∷ []
