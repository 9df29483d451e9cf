-- ===== src/Keyboard/Ring.antt =====
-- The ring of `buffer_push` and `buffer_pop` in KluxOS/src/drivers/keyboard.c against a bounded
-- queue of characters.
use klux_os.Base.{
  ℕ, zero, suc, ◌+◌, ◌-◌, ◌%◌, ◌≤◌, ◌<◌, ◌≡◌, ◌≢◌, refl, ap, ap₂, List, [], ◌∷◌, ◌++◌, length,
  get_or, set, arith, length-set, get_or-set_self, get_or-set_ne, ltb, if◌then◌else◌,
}
use klux_os.Keyboard.{
  Keyboard, buffer_size, buffer_push, buffer_pop, handler, Mode, raw, ascii, echo, deliver,
  handle_in,
}

-- The specification: a queue that drops what does not fit.
abbrev pub enqueue : ℕ → List ℕ → List ℕ
enqueue c q = if ltb (length q) buffer_size then q ++ c ∷ [] else q

-- The `n` characters from index `i` on, round the end of the ring.
abbrev pub chars_from : List ℕ → ℕ → ℕ → List ℕ
chars_from buf i zero = []
chars_from buf i (suc n) = get_or buf i 0 ∷ chars_from buf ((i + 1) % buffer_size) n

-- What waits in the ring, oldest first.
abbrev pub pending : Keyboard → List ℕ
pending k = chars_from k.buffer k.start k.count

pub record IsValid (k : Keyboard) : Type 0 where
  pub storage : length k.buffer ≡ buffer_size
  pub start_in : k.start < buffer_size
  pub count_in : k.count ≤ buffer_size
  pub end_at : k.end_pos ≡ (k.start + k.count) % buffer_size

length-chars_from : (buf : List ℕ) (i n : ℕ) → length (chars_from buf i n) ≡ n
length-chars_from buf i zero = refl
length-chars_from buf i (suc n) = ap suc (length-chars_from buf ((i + 1) % buffer_size) n)

pub length-pending : (k : Keyboard) → length (pending k) ≡ k.count
length-pending k = length-chars_from k.buffer k.start k.count

-- A store at the end of a run that does not fill the ring extends the run.
chars_from-set :
    (buf : List ℕ) (c n i e : ℕ)
    → length buf ≡ buffer_size
    → i < buffer_size
    → n < buffer_size
    → e ≡ (i + n) % buffer_size
    → chars_from (set buf e c) i (suc n) ≡ chars_from buf i n ++ c ∷ []
chars_from-set buf c zero i e hl hi hn he =
    let at_i : e ≡ i = omega arith in
    rw at_i (ap (λ x. x ∷ []) (get_or-set_self buf i c 0 (omega arith)))
chars_from-set buf c (suc n) i e hl hi hn he =
    ap₂ ◌∷◌ (get_or-set_ne buf e i c 0 (omega arith)) (
      chars_from-set buf c n ((i + 1) % buffer_size) e hl (omega arith) (omega arith) (omega arith))

-- The code tests the count, the run matches on it.
chars_from_pos :
    (buf : List ℕ) (i n : ℕ)
    → n ≢ 0
    → chars_from buf i n ≡ get_or buf i 0 ∷ chars_from buf ((i + 1) % buffer_size) (n - 1)
chars_from_pos buf i zero h = absurd (h refl)
chars_from_pos buf i (suc n) h = ap (λ m. chars_from buf i (suc m)) (omega arith)

pub buffer_push-IsValid : {k : Keyboard} (c : ℕ) → IsValid k → IsValid (buffer_push c k)
unfolding buffer_push
buffer_push-IsValid {k} c v = ground (arith, length-set k.buffer k.end_pos c)

pub buffer_pop-IsValid : {k : Keyboard} → IsValid k → IsValid (buffer_pop k).1
unfolding buffer_pop
buffer_pop-IsValid v = ground arith

-- On a well-formed ring `buffer_push` is the bounded queue's `enqueue`: the character goes behind
-- the waiting ones, and is dropped if 256 wait already. The ring stays well formed.
pub buffer_push-enqueue :
    {k : Keyboard} (c : ℕ)
    → IsValid k
    → (pending (buffer_push c k) ≡ enqueue c (pending k)) × IsValid (buffer_push c k)
buffer_push-enqueue {k} c v = (same, buffer_push-IsValid c v)
  where
    same : pending (buffer_push c k) ≡ enqueue c (pending k)
    same =
        unfold buffer_push in
        ground (arith, length-pending k, chars_from-set k.buffer c k.count k.start k.end_pos)

abbrev pub front : List ℕ → ℕ
front [] = 0
front (x ∷ q) = x

abbrev pub rest : List ℕ → List ℕ
rest [] = []
rest (x ∷ q) = q

-- On a well-formed ring `buffer_pop` takes the oldest waiting character, or answers 0 and changes
-- nothing if none waits. The ring stays well formed.
pub buffer_pop-front :
    {k : Keyboard}
    → IsValid k
    → let (c, k') = buffer_pop k in
      (c ≡ front (pending k)) × (pending k' ≡ rest (pending k)) × IsValid k'
buffer_pop-front {k} v = (got.0, got.1, buffer_pop-IsValid v)
  where
    got : ((buffer_pop k).0 ≡ front (pending k)) × (pending (buffer_pop k).1 ≡ rest (pending k))
    got = unfold buffer_pop in ground (arith, chars_from_pos k.buffer k.start k.count)

deliver-IsValid : {k : Keyboard} (m : Mode) (c : ℕ) → IsValid k → IsValid (deliver m c k).0
unfolding deliver
deliver-IsValid m c v = ground (arith, buffer_push-IsValid c v)

-- `keyboard_handler` keeps the ring well formed, whatever the scancode, the mode and the layout.
pub handler-IsValid : {k : Keyboard} (scancode : ℕ) → IsValid k → IsValid (handler scancode k).0
unfolding handler
handler-IsValid {k} scancode v = by_mode k.mode
  where
    by_mode : (m : Mode) → IsValid (handle_in m scancode k).0
    by_mode raw = buffer_push-IsValid scancode v
    by_mode ascii = deliver-IsValid ascii _ (record {
      storage = v.storage;
      start_in = v.start_in;
      count_in = v.count_in;
      end_at = v.end_at;
    })
    by_mode echo = deliver-IsValid echo _ (record {
      storage = v.storage;
      start_in = v.start_in;
      count_in = v.count_in;
      end_at = v.end_at;
    })
