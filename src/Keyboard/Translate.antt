-- ===== src/Keyboard/Translate.antt =====
-- The translation of scancodes by `keycode_to_ascii` in KluxOS/src/drivers/keyboard.c.
use klux_os.Base.{
  ℕ, ◌-◌, ◌≤◌, ◌<◌, ◌≡◌, refl, Bool, true, false, not, ◌&&◌, Bool-cases, inl, inr, none, some,
  get_or, arith, leb, ◌==◌, if◌then◌else◌, holds_below, holds_below_at,
}
use klux_os.Keyboard.{
  Keyboard, KeyState, Layout, us, tr, Mode, raw, ascii, echo, release, press_modifier, special_key,
  use_uppercase, keymap, press, keycode_to_ascii, deliver, handle_in, handler, buffer_push,
}
use klux_os.Keyboard.Ring.{IsValid, pending, enqueue, buffer_push-enqueue}

-- A mode in which the handler translates scancodes.
abbrev pub translates : Mode → Bool
translates raw = false
translates ascii = true
translates echo = true

-- Letting a key go never produces a character: in the two translating modes `keyboard_handler`
-- leaves the ring as it is and echoes nothing for every scancode with the top bit, and it changes
-- no lock.
pub handler-release :
    (k : Keyboard) (scancode : ℕ)
    → translates k.mode ≡ true
    → 0x80 ≤ scancode
    → let (k', shown) = handler scancode k in
      (pending k' ≡ pending k)
      × (shown ≡ none)
      × (k'.keys.capslock_on ≡ k.keys.capslock_on)
      × (k'.keys.numlock_on ≡ k.keys.numlock_on)
      × (k'.keys.scrolllock_on ≡ k.keys.scrolllock_on)
unfolding handler keycode_to_ascii release deliver
handler-release k scancode m h = ground arith

-- The code of neither a modifier nor a lock nor a key with a code of its own.
abbrev is_plain : ℕ → Bool
is_plain key =
    not (key == 0x2A)
    && not (key == 0x36)
    && not (key == 0x1D)
    && not (key == 0x38)
    && not (key == 0x3A)
    && not (key == 0x45)
    && not (key == 0x46)
    && elim (special_key key) [ none ↦ true | some c ↦ false ]

press_modifier-plain : (key : ℕ) (s : KeyState) → is_plain key ≡ true → press_modifier key s ≡ none
unfolding press_modifier
press_modifier-plain key s h = ground arith

special_key-plain : (key : ℕ) → is_plain key ≡ true → special_key key ≡ none
special_key-plain key h = ground arith

abbrev pub is_letter : ℕ → Bool
is_letter c = leb b'a' c && leb c b'z'

abbrev letter_check : Layout → ℕ → Bool
letter_check layout key =
    let low = get_or (keymap layout false) key 0 in
    if is_letter low then is_plain key && (get_or (keymap layout true) key 0 == low - 32) else true

letter_table : (layout : Layout) → holds_below (letter_check layout) 0x80 ≡ true
unfolding holds_below keymap special_key
letter_table us = refl
letter_table tr = refl

letter_of_table :
    (layout : Layout) (key : ℕ)
    → key < 0x80
    → is_letter (get_or (keymap layout false) key 0) ≡ true
    → (is_plain key ≡ true)
      × (get_or (keymap layout true) key 0 ≡ get_or (keymap layout false) key 0 - 32)
letter_of_table layout key h letter =
    ground (arith, holds_below_at (letter_check layout) 0x80 key h (letter_table layout))

-- A key that carries a letter gives, in both layouts, the capital exactly when one of shift and caps
-- lock is on but not both, and the small letter otherwise. It changes no modifier.
pub keycode_to_ascii_letter :
    (layout : Layout) (key : ℕ) (s : KeyState)
    → key < 0x80
    → is_letter (get_or (keymap layout false) key 0) ≡ true
    → keycode_to_ascii layout key s ≡ (
      if (if s.shift_pressed then not s.capslock_on else s.capslock_on)
          then get_or (keymap layout false) key 0 - 32
          else get_or (keymap layout false) key 0,
      s,
    )
unfolding keycode_to_ascii press use_uppercase
keycode_to_ascii_letter layout key s h letter =
    let t = letter_of_table layout key h letter in
    ground (arith, t, press_modifier-plain key s t.0, special_key-plain key t.0)

keys-buffer_push : (c : ℕ) (k : Keyboard) → (buffer_push c k).keys ≡ k.keys
unfolding buffer_push
keys-buffer_push c k = ground arith

deliver-enqueue :
    {k : Keyboard} (m : Mode) (c : ℕ)
    → IsValid k
    → ((deliver m c k).0.keys ≡ k.keys)
      × (pending (deliver m c k).0 ≡ (if c == 0 then pending k else enqueue c (pending k)))
      × ((deliver m c k).1 ≡ (if c == 0 then none else elim m [ echo ↦ some c | _ ↦ none ]))
unfolding deliver
deliver-enqueue {k} m c v = elim (Bool-cases (c == 0)) [
  | inl e ↦ rw e (refl, refl, refl)
  | inr e ↦ rw e (keys-buffer_push c k, (buffer_push-enqueue c v).0, refl)
]

-- In a translating mode a scancode that gives a character puts exactly that character into the
-- ring, behind those that wait, and it is echoed exactly in the echo mode. A scancode that gives
-- none leaves the ring alone and is not echoed.
pub handler-press :
    {k : Keyboard} (scancode : ℕ)
    → IsValid k
    → translates k.mode ≡ true
    → let (c, s) = keycode_to_ascii k.layout scancode k.keys in
      let (k', shown) = handler scancode k in
      (k'.keys ≡ s)
      × (pending k' ≡ (if c == 0 then pending k else enqueue c (pending k)))
      × (shown ≡ (if c == 0 then none else elim k.mode [ echo ↦ some c | _ ↦ none ]))
unfolding handler
handler-press {k} scancode v t = by_mode k.mode t
  where
    c : ℕ
    c = (keycode_to_ascii k.layout scancode k.keys).0

    s : KeyState
    s = (keycode_to_ascii k.layout scancode k.keys).1

    v' : IsValid (record k { keys = s })
    v' = (record {
      storage = v.storage;
      start_in = v.start_in;
      count_in = v.count_in;
      end_at = v.end_at;
    })

    by_mode :
        (m : Mode)
        → translates m ≡ true
        → ((handle_in m scancode k).0.keys ≡ s)
          × (pending (handle_in m scancode k).0
              ≡ (if c == 0 then pending k else enqueue c (pending k)))
          × ((handle_in m scancode k).1
              ≡ (if c == 0 then none else elim m [ echo ↦ some c | _ ↦ none ]))
    by_mode raw h = cc
    by_mode ascii h = deliver-enqueue ascii c v'
    by_mode echo h = deliver-enqueue echo c v'
