-- ===== src/Audit.antt =====
-- KluxOS/src/security/audit.c: the audit log, a table of 1024 events that drops the oldest one.
pub mod Log
pub mod Numbered
pub mod Find
mod Tests
use klux_os.Base.{
  ◌^◌, ◌%◌, get_or, length, ◌&&◌, ◌+◌, ◌-◌, ◌==◌, ◌||◌, Bool, leb, ltb, set, take, List, Option, ℕ,
  zero, suc, [], ◌∷◌, none, some, true, false, if◌then◌else◌,
}

-- `audit_level_t` in KluxOS/include/security/audit.h as the numbers that the code compares.
abbrev pub level_none : ℕ
level_none = 0

abbrev pub level_info : ℕ
level_info = 3

abbrev pub level_verbose : ℕ
level_verbose = 4

abbrev pub max_audit_logs : ℕ
max_audit_logs = 1024

-- `audit_event_t`; the event's type keeps its number.
pub record Event : Type 0 where
  pub event_id : ℕ
  pub timestamp : ℕ
  pub event_type : ℕ
  pub level : ℕ
  pub user_id : ℕ
  pub message : List ℕ

-- The static variables. `logs` is the storage of `audit_logs`, none while it is a null pointer.
pub record Audit : Type 0 where
  pub logs : Option (List Event)
  pub audit_count : ℕ
  pub next_event_id : ℕ
  pub current_level : ℕ

-- What `audit_log` returns: 0 with nothing to do, -1, and 0 after a store.
pub data Logged : Type 0 where
  ignored : Logged
  no_buffer : Logged
  stored : Logged

-- The loop that copies a message, which ends in a 0 byte, up to 255 bytes; the list holds the bytes
-- before the 0.
pub copy_message : List ℕ → ℕ → List ℕ
copy_message [] left = []
copy_message (c ∷ message) zero = []
copy_message (c ∷ message) (suc left) = c ∷ copy_message message left

-- The loop that moves the events down by one place, from place `i`. The storage has all the
-- places, so that `blank` is never read.
pub shift_from : List Event → (left i : ℕ) → Event → List Event
shift_from logs zero i blank = logs
shift_from logs (suc left) i blank =
    shift_from (set logs (i - 1) (get_or logs i blank)) left (i + 1) blank

-- `now` is the answer of `get_tick_count`.
unfoldable pub log :
    (event_type level user_id : ℕ) (message : List ℕ) (now : ℕ) → Audit → Logged × Audit
log event_type level user_id message now a =
    if ltb a.current_level level || (a.current_level == level_none)
    then (ignored, a)
    else elim a.logs [
      | none ↦ (no_buffer, a)
      | some logs ↦
          let event : Event = record {
            event_id = a.next_event_id;
            timestamp = now;
            event_type = event_type;
            level = level;
            user_id = user_id;
            message = copy_message message 255;
          } in
          let full = leb max_audit_logs a.audit_count in
          let moved = if full then shift_from logs (max_audit_logs - 1) 1 event else logs in
          let count = if full then max_audit_logs - 1 else a.audit_count in
          (
            stored,
            record a {
              logs = some (set moved count event);
              next_event_id = (a.next_event_id + 1) % 2 ^ 32;
              audit_count = count + 1;
            },
          )
    ]

-- What the log holds, oldest first.
abbrev pub events : Audit → List Event
events a = elim a.logs [ none ↦ [] | some logs ↦ take a.audit_count logs ]

-- "system started"
abbrev pub boot_message : List ℕ
boot_message = 115 ∷ 121 ∷ 115 ∷ 116 ∷ 101 ∷ 109 ∷ 32 ∷ 115 ∷ 116 ∷ 97 ∷ 114 ∷ 116 ∷ 101 ∷ 100 ∷ []

-- "Denetim seviyesi degistirildi"
abbrev pub level_message : List ℕ
level_message =
    68 ∷ 101 ∷ 110 ∷ 101 ∷ 116 ∷ 105 ∷ 109 ∷ 32 ∷ 115 ∷ 101 ∷ 118 ∷ 105 ∷ 121 ∷ 101 ∷ 115 ∷ 105 ∷ 32
    ∷ 100 ∷ 101 ∷ 103 ∷ 105 ∷ 115 ∷ 116 ∷ 105 ∷ 114 ∷ 105 ∷ 108 ∷ 100 ∷ 105 ∷ []

-- `buffer` is what kmalloc returns, none for a null pointer.
pub init : (buffer : Option (List Event)) (now : ℕ) → Audit → Audit
init none now a = record a { logs = none }
init (some logs) now a =
    (log 8 level_info 0 boot_message now
      (record a { logs = some logs; audit_count = 0; next_event_id = 1 })).1

pub set_level : (level now : ℕ) → Audit → Audit
set_level level now a =
    if leb level level_verbose
    then (log 7 level_info 0 level_message now (record a { current_level = level })).1
    else a

-- The events that the loop of `audit_view_logs` prints.
pub view_from : List Event → (start_id room : ℕ) → List Event
view_from [] start_id room = []
view_from (event ∷ rest) start_id zero = []
view_from (event ∷ rest) start_id (suc room) =
    let skip = view_from rest start_id (suc room) in
    let show = event ∷ view_from rest start_id room in
    if ltb event.event_id start_id then skip else show

-- The events printed, none where the code returns -1; it returns their number otherwise.
pub view_logs : (start_id count : ℕ) → Audit → Option (List Event)
view_logs start_id count a = elim a.logs [
  | none ↦ none
  | some logs ↦
      let shown = view_from (take a.audit_count logs) start_id count in
      if a.audit_count == 0 then none else if length shown == 0 then none else some shown
]

unfoldable pub wanted : (event_type user_id : ℕ) → Event → Bool
wanted event_type user_id event =
    ((event_type == 0) || (event.event_type == event_type))
    && ((user_id == 0) || (event.user_id == user_id))

-- The ids that the loop of `audit_find_events` stores in `results`.
pub find_from : List Event → (event_type user_id room : ℕ) → List ℕ
find_from [] event_type user_id room = []
find_from (event ∷ rest) event_type user_id zero = []
find_from (event ∷ rest) event_type user_id (suc room) =
    let skip = find_from rest event_type user_id (suc room) in
    let take_it = event.event_id ∷ find_from rest event_type user_id room in
    if wanted event_type user_id event then take_it else skip

-- The ids found, none where the code returns -1; it returns their number otherwise. `results` says
-- whether the caller's pointer is not null.
pub find_events :
    (event_type user_id : ℕ) (results : Bool) (max_results : ℕ) → Audit → Option (List ℕ)
find_events event_type user_id results max_results a = elim a.logs [
  | none ↦ none
  | some logs ↦
      if a.audit_count == 0
      then none
      else if results
      then some (find_from (take a.audit_count logs) event_type user_id max_results)
      else none
]
