-- ===== src/Keyboard/Wait.antt =====
-- The blocking read `keyboard_getchar` of KluxOS/src/drivers/keyboard.c.
use klux_os.Base.{ℕ, ◌≡◌, List, [], ◌∷◌, ◌++◌, Option, none, some}
use klux_os.Keyboard.{Keyboard, handler}
use klux_os.Keyboard.Ring.{IsValid, pending}

-- The state after the interrupts of the list.
abbrev pub typed : List ℕ → Keyboard → Keyboard
typed [] k = k
typed (s ∷ ss) k = typed ss (handler s k).0

-- No character waits before any of the interrupts.
abbrev pub AllAwaited : List ℕ → Keyboard → Type 0
AllAwaited [] k = Unit
AllAwaited (s ∷ ss) k = (pending k ≡ []) × AllAwaited ss (handler s k).0

-- What `keyboard_getchar` must have done when it returns the character `c`.
pub record Got (ss : List ℕ) (k : Keyboard) (c : ℕ) (k' : Keyboard) (left : List ℕ) : Type 0 where
  pub used : List ℕ
  pub split : ss ≡ used ++ left
  pub awaited : AllAwaited used k
  pub oldest : pending (typed used k) ≡ c ∷ pending k'
  pub valid : IsValid k'

-- What is left to say when it still waits, or has returned.
abbrev pub Outcome : List ℕ → Keyboard → Option (ℕ × Keyboard × List ℕ) → Type 0
Outcome ss k none = AllAwaited ss k × (pending (typed ss k) ≡ [])
Outcome ss k (some (c, k', left)) = Got ss k c k' left
