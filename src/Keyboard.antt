-- ===== src/Keyboard.antt =====
-- KluxOS/src/drivers/keyboard.c: the PS/2 keyboard driver, with its ring of 256 characters, the
-- state of the modifier keys and the translation of scancodes. A `char` is its bit pattern. The
-- scancode that the handler reads from the port is an argument; a wait for an interrupt takes the
-- next scancode from a list of those still to come.
mod Keymaps
pub mod Ring
pub mod Translate
pub mod Wait
mod Tests
use Keymaps.{us_keymap_lower, us_keymap_upper, tr_keymap_lower, tr_keymap_upper}
use klux_os.Base.{
  ℕ, zero, suc, ◌+◌, ◌-◌, ◌%◌, ◌==◌, ltb, leb, if◌then◌else◌, Bool, true, false, not, List, [], ◌∷◌,
  Option, none, some, get_or, set,
}

-- `key_state_t`
pub record KeyState : Type 0 where
  pub shift_pressed : Bool
  pub ctrl_pressed : Bool
  pub alt_pressed : Bool
  pub capslock_on : Bool
  pub numlock_on : Bool
  pub scrolllock_on : Bool

-- `keyboard_mode_t`
pub data Mode : Type 0 where
  raw ascii echo : Mode

-- `keyboard_layout_t`
pub data Layout : Type 0 where
  us tr : Layout

-- The static variables of the driver.
pub record Keyboard : Type 0 where
  pub buffer : List ℕ
  pub start : ℕ
  pub end_pos : ℕ
  pub count : ℕ
  pub keys : KeyState
  pub mode : Mode
  pub layout : Layout

abbrev pub buffer_size : ℕ
buffer_size = 256

pub buffer_push : ℕ → Keyboard → Keyboard
buffer_push c k =
    if ltb k.count buffer_size
    then record k {
      buffer = set k.buffer k.end_pos c;
      end_pos = (k.end_pos + 1) % buffer_size;
      count = k.count + 1;
    }
    else k

-- The character is 0 if the ring is empty.
pub buffer_pop : Keyboard → ℕ × Keyboard
buffer_pop k = if k.count == 0 then (0, k) else (
  get_or k.buffer k.start 0,
  record k { start = (k.start + 1) % buffer_size; count = k.count - 1 },
)

-- The first `switch` of `keycode_to_ascii`: a key that is let go.
pub release : ℕ → KeyState → KeyState
release key s =
    if key == 0x2A
    then record s { shift_pressed = false }
    else if key == 0x36
    then record s { shift_pressed = false }
    else if key == 0x1D
    then record s { ctrl_pressed = false }
    else if key == 0x38
    then record s { alt_pressed = false }
    else s

-- The second `switch`: a modifier or lock key that is pressed, `none` for any other key.
pub press_modifier : ℕ → KeyState → Option KeyState
press_modifier key s =
    if key == 0x2A
    then some (record s { shift_pressed = true })
    else if key == 0x36
    then some (record s { shift_pressed = true })
    else if key == 0x1D
    then some (record s { ctrl_pressed = true })
    else if key == 0x38
    then some (record s { alt_pressed = true })
    else if key == 0x3A
    then some (record s { capslock_on = not s.capslock_on })
    else if key == 0x45
    then some (record s { numlock_on = not s.numlock_on })
    else if key == 0x46
    then some (record s { scrolllock_on = not s.scrolllock_on })
    else none

-- The third `switch`: keys with a code of their own.
pub special_key : ℕ → Option ℕ
special_key key =
    if key == 0x1C
    then some 13
    else if key == 0x0E
    then some 8
    else if key == 0x0F
    then some 9
    else if key == 0x01
    then some 27
    else if key == 0x47
    then some 133
    else if key == 0x4F
    then some 134
    else if key == 0x52
    then some 0
    else if key == 0x53
    then some 132
    else if key == 0x49
    then some 135
    else if key == 0x51
    then some 136
    else if key == 0x4B
    then some 130
    else if key == 0x4D
    then some 131
    else if key == 0x48
    then some 128
    else if key == 0x50
    then some 129
    else none

pub use_uppercase : KeyState → Bool
use_uppercase s = if s.shift_pressed then not s.capslock_on else s.capslock_on

pub keymap : Layout → Bool → List ℕ
keymap us true = us_keymap_upper
keymap us false = us_keymap_lower
keymap tr true = tr_keymap_upper
keymap tr false = tr_keymap_lower

-- A key press, by the second to the last part of `keycode_to_ascii`.
pub press : Layout → ℕ → KeyState → ℕ × KeyState
press layout key s = elim (press_modifier key s) [
  | some s' ↦ (0, s')
  | none ↦ elim (special_key key) [
    | some c ↦ (c, s)
    | none ↦ (get_or (keymap layout (use_uppercase s)) key 0, s)
  ]
]

-- The top bit of a keycode tells a release from a press.
pub keycode_to_ascii : Layout → ℕ → KeyState → ℕ × KeyState
keycode_to_ascii layout keycode s =
    if leb 0x80 keycode then (0, release (keycode % 0x80) s) else press layout (keycode % 0x80) s

-- What `keyboard_handler` does with a translated character: the second part is what it echoes.
pub deliver : Mode → ℕ → Keyboard → Keyboard × Option ℕ
deliver mode c k =
    if c == 0 then (k, none) else (buffer_push c k, elim mode [ echo ↦ some c | _ ↦ none ])

handle_in : Mode → ℕ → Keyboard → Keyboard × Option ℕ
handle_in raw scancode k = (buffer_push scancode k, none)
handle_in ascii scancode k =
    let (c, s) = keycode_to_ascii k.layout scancode k.keys in
    deliver ascii c (record k { keys = s })
handle_in echo scancode k =
    let (c, s) = keycode_to_ascii k.layout scancode k.keys in deliver echo c (record k { keys = s })

-- `keyboard_handler` at a scancode: the new state and what is echoed.
pub handler : ℕ → Keyboard → Keyboard × Option ℕ
unfolding handle_in
handler scancode k = handle_in k.mode scancode k

-- `keyboard_init`: the pressed state of shift, ctrl and alt is left as it is.
pub init : Keyboard → Keyboard
init k = record k {
  keys = record k.keys { capslock_on = false; numlock_on = false; scrolllock_on = false };
  start = 0;
  end_pos = 0;
  count = 0;
  mode = ascii;
  layout = us;
}

pub set_mode : Mode → Keyboard → Keyboard
set_mode m k = record k { mode = m }

pub set_layout : Layout → Keyboard → Keyboard
set_layout l k = record k { layout = l }

pub data_available : Keyboard → Bool
data_available k = ltb 0 k.count

pub read : Keyboard → ℕ × Keyboard
read k = if ltb 0 k.count then buffer_pop k else (0, k)

-- `keyboard_getchar` sleeps until the ring holds a character; each interrupt hands over the next
-- scancode of the list. `none`: the scancodes ran out, and the call still waits. Else the character,
-- the state, and the scancodes that are left.
pub getchar : List ℕ → Keyboard → Option (ℕ × Keyboard × List ℕ)
getchar [] k = if data_available k then (let (c, k') = buffer_pop k in some (c, k', [])) else none
getchar (s ∷ rest) k =
    let waiting = getchar rest (handler s k).0 in
    if data_available k then (let (c, k') = buffer_pop k in some (c, k', s ∷ rest)) else waiting
