-- ===== src/Keyboard/Tests.antt =====
-- Runs of the keyboard driver.
use klux_os.Base.{◌≡◌, refl, false, [], ◌∷◌, some, replicate, arith}
use klux_os.Keyboard.{
  Keyboard, KeyState, ascii, echo, us, tr, buffer_push, handler, init, keycode_to_ascii, deliver,
  release, press, press_modifier, special_key, use_uppercase, keymap, set_mode, set_layout, read,
}
use klux_os.Keyboard.Ring.{IsValid, pending, enqueue, buffer_push-enqueue}

abbrev no_keys : KeyState
no_keys = record {
  shift_pressed = false;
  ctrl_pressed = false;
  alt_pressed = false;
  capslock_on = false;
  numlock_on = false;
  scrolllock_on = false;
}

abbrev fresh : Keyboard
fresh = record {
  buffer = replicate 256 0;
  start = 255;
  end_pos = 0;
  count = 1;
  keys = no_keys;
  mode = ascii;
  layout = us;
}

fresh-IsValid : IsValid fresh
fresh-IsValid = omega arith

-- Shift down, `a`, shift up, `a`.
types_capital_then_small :
    pending (handler 0x1E (handler 0xAA (handler 0x1E (handler 0x2A (init fresh)).0).0).0).0
    ≡ b'A' ∷ b'a' ∷ []
unfolding handler keycode_to_ascii deliver release press press_modifier special_key use_uppercase
    keymap buffer_push init
types_capital_then_small = refl

echoes : (handler 0x1E (set_layout tr (set_mode echo fresh))).1 ≡ some b'a'
unfolding handler keycode_to_ascii deliver press press_modifier special_key use_uppercase keymap
    buffer_push set_mode set_layout
echoes = refl

reads_nothing : (read (init fresh)).0 ≡ 0
unfolding read init
reads_nothing = refl

buffer_push-enqueue_example :
    (pending (buffer_push 5 fresh) ≡ enqueue 5 (0 ∷ [])) × IsValid (buffer_push 5 fresh)
buffer_push-enqueue_example = buffer_push-enqueue 5 fresh-IsValid
