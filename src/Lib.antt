-- ===== src/Lib.antt =====
-- KluxOS: a small operating system for the 32-bit x86.
--
-- The program's parts keep static state of their own and meet in a few calls. The terminal draws on
-- the text screen, which everything else prints to; the shell reads lines from it, splits them and
-- runs commands on the tree of files. System calls reach the same tree through a table of
-- descriptors, and the console through the terminal. The interrupt tables lead from the processor
-- to the handlers of the keyboard and the timer. The keyboard's interrupt fills a ring of
-- characters that the console takes from. Processes stand in one list that the timer's interrupt
-- schedules. Memory is a bitmap of page frames, page tables, and a heap that only grows. The
-- security parts stand side by side: a packet filter, access control lists that set the permission
-- bits of the file system's nodes, an audit log, byte ciphers with a store of keys, and AES. The
-- wireless driver is a state machine over a card's driver.
--
-- Each module's state is a record of the source's static variables, each function of the source is a
-- function from a state to a result and the next state, and what the source returns is a data type
-- with a constructor for each kind of answer. Words are native numbers with the wrap written out.
-- Text on the console and the programming of devices are left out where they change no state that the
-- theorems are about.
--
--   Firewall    KluxOS/src/security/firewall.c: firewall_init, firewall_add_rule,
--               firewall_check_packet, firewall_enable, firewall_disable
--   Keyboard    KluxOS/src/drivers/keyboard.c: the ring (buffer_push, buffer_pop), keycode_to_ascii
--               with its four tables (Keyboard/Keymaps), keyboard_handler, keyboard_init,
--               keyboard_read, keyboard_getchar
--   Aes         KluxOS/src/security/aes.c: the rounds (Aes), aes_init and expand_key (Aes/Schedule),
--               the CBC mode (Aes/Cbc), the tables (Aes/Tables)
--   Wifi        KluxOS/src/drivers/network/wifi.c: wifi_init, wifi_scan, wifi_connect,
--               wifi_disconnect
--   Memory      KluxOS/src/kernel/mm: the frame bitmap and alloc_frame (Memory/Frames), kmalloc,
--               krealloc, memset and memcpy (Memory/Heap) of memory.c, get_physaddr and map_page of
--               memory_ext.c (Memory/Paging), get_page and init_paging (Memory/Setup)
--   Process     KluxOS/src/kernel/process.c: process_create, process_terminate, process_switch,
--               process_schedule, scheduler_tick
--   Pic         KluxOS/src/kernel/interrupt/pic.c: the masks, the end of interrupt, pic_init
--   Pit         KluxOS/src/kernel/timer/pit.c: pit_init, pit_handler, sleep_ms
--   Audit       KluxOS/src/security/audit.c: audit_init, audit_log, audit_set_level,
--               audit_view_logs, audit_find_events
--   Acl         KluxOS/src/security/acl.c: acl_add_entry, acl_remove_entry, acl_check_permission and
--               the three protections
--   Fs          KluxOS/src/kernel/fs.c: fs_check_permission; the nodes with fs_create_node,
--               fs_add_node, fs_remove_node and the links (Fs/Tree); the calls through pointers,
--               fs_resolve_path and fs_get_parent_dir (Fs/Calls)
--   Terminal    KluxOS/src/drivers/terminal.c: cells, cursor, characters, scrolling and clearing
--               (Terminal), numbers and terminal_printf (Terminal/Format), terminal_gets
--               (Terminal/Input); KluxOS/src/drivers/terminal/terminal.c (Terminal/Older)
--   Shell       KluxOS/src/shell/shell.c: strings and shell_parse_args (Shell), the table and the
--               texts (Shell/Texts), the handlers (Shell/Commands), shell_execute_command and
--               shell_run (Shell/Loop)
--   Syscall     KluxOS/src/kernel/syscall.c: syscall_read and syscall_write (Syscall), syscall_open and
--               syscall_close (Syscall/Open), the dispatch (Syscall/Dispatch)
--   Interrupt   KluxOS/src/kernel/interrupt/idt.c and KluxOS/src/kernel/interrupt.c: the gates, the
--               registration of handlers and their dispatch
--   Network     KluxOS/src/kernel/pci.c, KluxOS/src/kernel/pcie.c, rtl8139_init of
--               KluxOS/src/drivers/network/rtl8139.c, and KluxOS/src/kernel/net/network.c, which sends
--               what the packet filter of Firewall allows
--   Security    KluxOS/src/security/security.c: the settings and levels, and the calls on data, which
--               use the cipher of Aes
--   Crypto      KluxOS/src/security/crypto.c: the XOR and CAESAR ciphers, crypto_hash, the keys
--   Base        shared names, C arrays as lists, bit operations and masks
--
-- Loops over arrays recurse on the number of turns left, which the source's bounds give, so that
-- they end by themselves; process_schedule has the turns of one round of the list, which are
-- enough. Some loops wait: keyboard_getchar reads the scancodes that arrive from a list, and
-- wifi_connect, wifi_disconnect and sleep_ms read the tick counter from a list of its readings,
-- none being the answer when the list ends first. Walks along pointers (the children of a node),
-- the calls of the file system that go through a node's pointers, and the reading of a line take a
-- number of turns, and answer none when these are over; the theorems say how many turns are enough,
-- or that no number is. The shell's loop takes turns too, and says where it is when they are over.
-- Recursion over a list of events, entries or blocks is structural.
--
-- Parameters stand for what is not in the sources: the wireless card's driver, the send and receive
-- of the network card, the buses, the pointer page_directory, and for what another part answers:
-- the tick counter, whether kmalloc finds a block, and its address.
--
-- Not modelled: rtl8139_send and rtl8139_receive, which are declared and have no code and are
-- parameters here; the names of cards that a search prints; fs_test; system calls that only print;
-- and assembly and boot code.
pub mod Acl
pub mod Aes
pub mod Audit
pub mod Base
pub mod Crypto
pub mod Firewall
pub mod Fs
pub mod Interrupt
pub mod Keyboard
pub mod Memory
pub mod Network
pub mod Pic
pub mod Pit
pub mod Process
pub mod Security
pub mod Shell
pub mod Syscall
pub mod Terminal
pub mod Wifi
