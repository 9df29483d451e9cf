-- ===== src/Aes/Schedule/Expansion.antt =====
-- The key expansion of KluxOS/src/security/aes.c stays inside its arrays.
use klux_os.Aes.Round.{IsContext, sub_column-byte, zip_column-byte, column_at-byte}
use klux_os.Aes.Field.{xor-byte, IsByteColumn}
use klux_os.Aes.Tables.{rcon}
use klux_os.Aes.{
  Context, bit_xor, zip_column, map_column, column_at, get_or, Column, sbox, sub_byte,
}
use klux_os.Base.{
  get_or-set_self, dec_lt, ◌&&◌, ◌/◌, ◌==◌, ◌%◌, Bool-cases, ◌-◌, All-get_or, ◌*◌, ◌≤◌,
  get_elem?-get_or, All-set, get_or-set_ne, length-set, set, ◌⊎◌, All, ◌+◌, ◌<◌, ◌≡◌, List, length,
  ℕ, zero, suc, refl, arith, some, ◌∙◌, inl, inr,
}
use klux_os.Aes.Schedule.{
  expand_key, init, rounds_of, ltb, rotate, copy_key, expand_from, sub_word, read_word, store,
  write_word, expand_step, transform, ready,
}

-- The key sizes of `aes_key_size_t`.
abbrev pub IsKeySize : ℕ → Type 0
IsKeySize n = (n ≡ 16) ⊎ (n ≡ 24) ⊎ (n ≡ 32)

abbrev pub IsBytes : List ℕ → Type 0
IsBytes xs = All (λ b. b < 256) xs

-- An array of 240 bytes, as a context holds it.
pub record IsSchedule (xs : List ℕ) : Type 0 where
  pub storage : length xs ≡ 240
  pub bytes : IsBytes xs

read_word_total : (xs : List ℕ) (i : ℕ) → i + 3 < length xs → read_word xs i ≡ some (column_at xs i)
read_word_total xs i h = rw (
  get_elem?-get_or xs i 0 (omega arith),
  get_elem?-get_or xs (i + 1) 0 (omega arith),
  get_elem?-get_or xs (i + 2) 0 (omega arith),
  get_elem?-get_or xs (i + 3) 0 h,
)

sbox_size : length sbox ≡ 256
sbox_size = refl

sub_word_total : (w : Column) → IsByteColumn w → sub_word w ≡ some (map_column sub_byte w)
unfolding sub_byte
sub_word_total w h = rw (
  get_elem?-get_or sbox w.r0 0 h.0,
  get_elem?-get_or sbox w.r1 0 h.1,
  get_elem?-get_or sbox w.r2 0 h.2,
  get_elem?-get_or sbox w.r3 0 h.3,
)

store_total : (xs : List ℕ) (i v : ℕ) → i < length xs → store xs i v ≡ some (set xs i v)
store_total xs i v h = ground arith

-- A store of a word.
abbrev put_word : List ℕ → ℕ → Column → List ℕ
put_word xs i w = set (set (set (set xs i w.r0) (i + 1) w.r1) (i + 2) w.r2) (i + 3) w.r3

length-put_word : (xs : List ℕ) (i : ℕ) (w : Column) → length (put_word xs i w) ≡ length xs
length-put_word xs i w = rw (length-set, length-set, length-set, length-set)

write_word_total :
    (xs : List ℕ) (i : ℕ) (w : Column)
    → i + 3 < length xs
    → write_word xs i w ≡ some (put_word xs i w)
write_word_total xs i w h =
    let ys = set xs i w.r0 in
    let zs = set ys (i + 1) w.r1 in
    let ws = set zs (i + 2) w.r2 in
    let ly = length-set xs i w.r0 in
    let lz = length-set ys (i + 1) w.r1 in
    let lw = length-set zs (i + 2) w.r2 in
    rw (
      store_total xs i w.r0 (omega arith),
      store_total ys (i + 1) w.r1 (omega arith),
      store_total zs (i + 2) w.r2 (omega arith),
      store_total ws (i + 3) w.r3 (omega arith),
    )

get_or-put_word :
    (xs : List ℕ) (i j : ℕ) (w : Column) → j < i → get_or (put_word xs i w) j 0 ≡ get_or xs j 0
get_or-put_word xs i j w h =
    get_or-set_ne _ (i + 3) j w.r3 0 (omega arith)
    ∙ get_or-set_ne _ (i + 2) j w.r2 0 (omega arith)
    ∙ get_or-set_ne _ (i + 1) j w.r1 0 (omega arith)
    ∙ get_or-set_ne _ i j w.r0 0 (omega arith)

put_word-IsBytes :
    (xs : List ℕ) (i : ℕ) (w : Column) → IsBytes xs → IsByteColumn w → IsBytes (put_word xs i w)
put_word-IsBytes xs i w h k =
    All-set _ _ (i + 3) w.r3
      (All-set _ _ (i + 2) w.r2 (All-set _ _ (i + 1) w.r1 (All-set _ _ i w.r0 h k.0) k.1) k.2) k.3

rcon-IsBytes : IsBytes rcon
rcon-IsBytes = omega arith

rcon_index : (key_size i : ℕ) → IsKeySize key_size → i < 11 * key_size → i / key_size - 1 < 10
rcon_index key_size i (inl e) h = rw e (omega arith)
rcon_index key_size i (inr (inl e)) h = rw e (omega arith)
rcon_index key_size i (inr (inr e)) h = rw e (omega arith)

-- `transform` finds its entries of the two tables, and makes bytes of bytes.
transform_total :
    (key_size i : ℕ) (temp : Column)
    → IsKeySize key_size
    → key_size ≤ i
    → i < 11 * key_size
    → IsByteColumn temp
    → (w : Column) × (transform key_size i temp ≡ some w) × IsByteColumn w
unfolding transform
transform_total key_size i temp size low high bytes = elim (Bool-cases (i % key_size == 0)) [
  | inl e ↦
      let r : Column = rotate temp in
      let rb : IsByteColumn r = (bytes.1, bytes.2, bytes.3, bytes.0) in
      let w = map_column sub_byte r in
      let wb = sub_column-byte r rb in
      let k = i / key_size - 1 in
      let in_range : k < 10 = rcon_index key_size i size high in
      (
        record w { r0 = bit_xor w.r0 (get_or rcon k 0) },
        rw (e, sub_word_total r rb, get_elem?-get_or rcon k 0 in_range),
        (
          xor-byte _ _ wb.0 (All-get_or (λ b. b < 256) rcon k 0 rcon-IsBytes (omega arith)),
          wb.1,
          wb.2,
          wb.3,
        ),
      )
  | inr e ↦ elim (Bool-cases (ltb 24 key_size && (i % key_size == 16))) [
    | inl f ↦ (
      map_column sub_byte temp,
      rw (e, f) (sub_word_total temp bytes),
      sub_column-byte temp bytes,
    )
    | inr f ↦ (temp, rw (e, f), bytes)
  ]
]

expand_step_total :
    (key_size i : ℕ) (xs : List ℕ)
    → IsKeySize key_size
    → key_size ≤ i
    → i < 11 * key_size
    → i + 3 < 240
    → IsSchedule xs
    → (ys : List ℕ) × (expand_step key_size i xs ≡ some ys)
      × IsSchedule ys
      × ((j : ℕ) → j < i → get_or ys j 0 ≡ get_or xs j 0)
unfolding expand_step
expand_step_total key_size i xs size low high room v =
    let temp = column_at xs (i - 4) in
    let (w, e, wb) =
      transform_total key_size i temp size low high (column_at-byte xs (i - 4) v.bytes) in
    let old = column_at xs (i - key_size) in
    let new = zip_column bit_xor old w in
    let st = v.storage in
    (
      put_word xs i new,
      rw
          (
            read_word_total xs (i - 4) (omega arith),
            e,
            read_word_total xs (i - key_size) (omega arith),
          )
          (write_word_total xs i new (omega arith)),
      record {
        storage = length-put_word xs i new ∙ v.storage;
        bytes =
            put_word-IsBytes xs i new v.bytes
              (zip_column-byte old w (column_at-byte xs (i - key_size) v.bytes) wb);
      },
      (λ j h. get_or-put_word xs i j new h),
    )

expand_from_total :
    (key_size left i : ℕ) (xs : List ℕ)
    → IsKeySize key_size
    → key_size ≤ i
    → i + 4 * left ≤ 11 * key_size + 3
    → i + 4 * left ≤ 240
    → IsSchedule xs
    → (ys : List ℕ) × (expand_from key_size left i xs ≡ some ys)
      × IsSchedule ys
      × ((j : ℕ) → j < i → get_or ys j 0 ≡ get_or xs j 0)
unfolding expand_from
expand_from_total key_size zero i xs size low high room v = (xs, refl, v, λ j h. refl)
expand_from_total key_size (suc left) i xs size low high room v =
    let (ys, e, vy, same) =
      expand_step_total key_size i xs size low (omega arith) (omega arith) v in
    let (zs, f, vz, same') =
      expand_from_total key_size left (i + 4) ys size (omega arith) (omega arith) (omega arith)
        vy in
    (zs, rw e f, vz, λ j h. same' j (omega arith) ∙ same j h)

copied_one :
    (key xs : List ℕ) (i : ℕ)
    → length xs ≡ 240
    → i < 240
    → ((j : ℕ) → j < i → get_or xs j 0 ≡ get_or key j 0)
    → (j : ℕ) → j < i + 1
    → get_or (set xs i (get_or key i 0)) j 0 ≡ get_or key j 0
copied_one key xs i size room same j h = elim (dec_lt j i) [
  | yes lt ↦ get_or-set_ne xs i j (get_or key i 0) 0 (omega arith) ∙ same j lt
  | no ge ↦
      let e : j ≡ i = omega arith in rw e (get_or-set_self xs i (get_or key i 0) 0 (omega arith))
]

copy_key_total :
    (key : List ℕ) (left i : ℕ) (xs : List ℕ)
    → i + left ≤ length key
    → i + left ≤ 240
    → IsBytes key
    → IsSchedule xs
    → ((j : ℕ) → j < i → get_or xs j 0 ≡ get_or key j 0)
    → (ys : List ℕ) × (copy_key key left i xs ≡ some ys)
      × IsSchedule ys
      × ((j : ℕ) → j < i + left → get_or ys j 0 ≡ get_or key j 0)
unfolding copy_key
copy_key_total key zero i xs fits room kb v same = (xs, refl, v, λ j h. same j (omega arith))
copy_key_total key (suc left) i xs fits room kb v same =
    let b = get_or key i 0 in
    let st = v.storage in
    let v' : IsSchedule (set xs i b) = record {
      storage = length-set xs i b ∙ v.storage;
      bytes =
          All-set (λ x. x < 256) xs i b v.bytes
            (All-get_or (λ x. x < 256) key i 0 kb (omega arith));
    } in
    let (ys, e, vy, copied) =
      copy_key_total key left (i + 1) (set xs i b) (omega arith) (omega arith) kb v'
        (copied_one key xs i st (omega arith) same) in
    (
      ys,
      rw (get_elem?-get_or key i 0 (omega arith), store_total xs i b (omega arith)) e,
      vy,
      λ j h. copied j (omega arith),
    )

rounds_words :
    (key_size : ℕ)
    → IsKeySize key_size
    → (r : ℕ) × (rounds_of key_size ≡ some r)
      × (1 ≤ r)
      × (key_size + 4 * ((16 * (r + 1) - key_size) / 4) ≤ 11 * key_size + 3)
      × (key_size + 4 * ((16 * (r + 1) - key_size) / 4) ≤ 240)
unfolding rounds_of
rounds_words key_size (inl e) = (10, ground arith, omega arith, omega arith, omega arith)
rounds_words key_size (inr (inl e)) = (12, ground arith, omega arith, omega arith, omega arith)
rounds_words key_size (inr (inr e)) = (14, ground arith, omega arith, omega arith, omega arith)

init_ready :
    (ctx : Context) (key : List ℕ) (key_size r : ℕ) (ys : List ℕ)
    → rounds_of key_size ≡ some r
    → expand_key key ctx.expanded_key key_size r ≡ some ys
    → init ctx key key_size ≡ some (ready (record { expanded_key = ys; rounds = r }))
unfolding init
init_ready ctx key key_size r ys er ey = rw (er, ey, init)

-- For each of the three key sizes, a key of bytes that is at least that long, and a context with an
-- array of 240 bytes, `aes_init` makes no access outside an array and succeeds: the context it
-- leaves holds 10, 12 or 14 rounds, 240 bytes, and the key at the front of them.
pub init_total :
    (ctx : Context) (key : List ℕ) (key_size : ℕ)
    → IsSchedule ctx.expanded_key
    → IsBytes key
    → key_size ≤ length key
    → IsKeySize key_size
    → (ctx' : Context) × (init ctx key key_size ≡ some (ready ctx'))
      × (rounds_of key_size ≡ some ctx'.rounds)
      × IsContext ctx'
      × (length ctx'.expanded_key ≡ 240)
      × ((j : ℕ) → j < key_size → get_or ctx'.expanded_key j 0 ≡ get_or key j 0)
init_total ctx key key_size v kb fits size =
    let (r, er, pos, words, room) = rounds_words key_size size in
    let (xs, ex, vx, copied) =
      copy_key_total key key_size 0 ctx.expanded_key (omega arith) (omega arith) kb v
        (λ j h. elim h [ ]) in
    let (ys, ey, vy, kept) =
      expand_from_total key_size ((16 * (r + 1) - key_size) / 4) key_size xs size (omega arith)
        words room vx in
    let all : expand_key key ctx.expanded_key key_size r ≡ some ys =
      unfold expand_key in rw ex ey in
    (
      record { expanded_key = ys; rounds = r },
      init_ready ctx key key_size r ys er all,
      er,
      record { bytes = vy.bytes; some_rounds = pos },
      vy.storage,
      λ j h. kept j h ∙ copied j (omega arith),
    )
