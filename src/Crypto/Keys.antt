-- ===== src/Crypto/Keys.antt =====
-- The store of keys in KluxOS/src/security/crypto.c.
use klux_os.Crypto.Ciphers.{AreBytes}
use klux_os.Crypto.{
  destroy_key, find_key, Key, max_crypto_keys, length_for, Algorithm, KeyStore, generate_key,
  key_bytes,
}
use klux_os.Base.{
  take-set_le, ◌-◌, get_or-take, length-take, Bool, get_or-set_ne, get_or-set_self, ℕ_discrete, ◌⊎◌,
  set, ◌≢◌, get_or, ◌<◌, ◌==◌, length-set, take-set, dec_lt, ◌++◌, ltb, ◌^◌, ◌%◌, ◌≤◌, ◌+◌, take,
  ◌≡◌, List, length, ℕ, zero, suc, refl, arith, [], ◌∷◌, none, some, true, false, inl, inr, ◌∙◌, ap,
  sym, if◌then◌else◌,
}

-- The store has its 16 places, and no more keys than that.
pub record IsValid (s : KeyStore) : Type 0 where
  pub places : length s.key_store ≡ max_crypto_keys
  pub count_in : s.key_count ≤ max_crypto_keys

-- The addresses of the keys in the store.
abbrev pub keys : KeyStore → List ℕ
keys s = take s.key_count s.key_store

length-key_bytes : (id left i : ℕ) → length (key_bytes id left i) ≡ left
unfolding key_bytes
length-key_bytes id zero i = refl
length-key_bytes id (suc left) i = ap suc (length-key_bytes id left (i + 1))

key_bytes-AreBytes : (id left i : ℕ) → AreBytes (key_bytes id left i)
unfolding key_bytes
key_bytes-AreBytes id zero i = tt
key_bytes-AreBytes id (suc left) i = (omega arith, key_bytes-AreBytes id left (i + 1))

key_made :
    (algorithm : Algorithm) (size : ℕ) (s : KeyStore)
    → let k : Key = record {
      id = s.next_key_id;
      key_type = algorithm;
      key_data = key_bytes s.next_key_id size 0;
    } in
      (k' : Key) × (some k ≡ some k')
      × (k'.id ≡ s.next_key_id)
      × (k'.key_type ≡ algorithm)
      × (length k'.key_data ≡ size)
      × AreBytes k'.key_data
key_made algorithm size s = (
  record { id = s.next_key_id; key_type = algorithm; key_data = key_bytes s.next_key_id size 0 },
  refl,
  refl,
  refl,
  length-key_bytes s.next_key_id size 0,
  key_bytes-AreBytes s.next_key_id size 0,
)

-- crypto_generate_key while there is memory, for an algorithm that it does not refuse: the key has
-- the next id, the algorithm and bytes of the length that length_for gives; it is the new last key
-- of the store when a place is left, and no place of the store changes otherwise.
pub generate_key_lem :
    (algorithm : Algorithm) (key_length address size : ℕ) (s : KeyStore)
    → IsValid s
    → length_for algorithm key_length ≡ some size
    → let (made, s') = generate_key algorithm key_length address true s in
      ((k : Key) × (made ≡ some k)
        × (k.id ≡ s.next_key_id)
        × (k.key_type ≡ algorithm)
        × (length k.key_data ≡ size)
        × AreBytes k.key_data)
      × (s'.next_key_id ≡ (s.next_key_id + 1) % 2 ^ 32)
      × (keys s' ≡ (if ltb s.key_count max_crypto_keys then keys s ++ address ∷ [] else keys s))
      × IsValid s'
unfolding generate_key
generate_key_lem algorithm key_length address size s valid sized =
    let made = key_made algorithm size s in
    elim (dec_lt s.key_count max_crypto_keys) [
      | yes room ↦
          let t : ltb s.key_count max_crypto_keys ≡ true = ground (arith, room) in
          rw (generate_key, sized)
            (rw t (
              made,
              refl,
              take-set s.key_store s.key_count address (omega (arith, valid.places)),
              record {
                places = length-set s.key_store s.key_count address ∙ valid.places;
                count_in = omega arith;
              },
            ))
      | no full ↦
          let t : ltb s.key_count max_crypto_keys ≡ false = ground (arith, full) in
          rw (generate_key, sized)
            (rw t (made, refl, refl, record { places = valid.places; count_in = valid.count_in }))
    ]

abbrev pub hits : ℕ → ℕ → ℕ
hits y x = if y == x then 1 else 0

-- How often an address stands in a list.
abbrev pub occurrences : ℕ → List ℕ → ℕ
occurrences x [] = 0
occurrences x (y ∷ list) = hits y x + occurrences x list

occurrences-set :
    (x : ℕ) (list : List ℕ) (i v : ℕ)
    → i < length list
    → occurrences x (set list i v) + hits (get_or list i 0) x ≡ occurrences x list + hits v x
occurrences-set x [] i v h = absurd (omega arith)
occurrences-set x (y ∷ list) zero v h = omega arith
occurrences-set x (y ∷ list) (suc i) v h = omega (arith, occurrences-set x list i v (omega arith))

occurrences_last :
    (x : ℕ) (list : List ℕ) (n : ℕ)
    → length list ≡ n + 1
    → occurrences x list ≡ occurrences x (take n list) + hits (get_or list n 0) x
occurrences_last x [] n h = absurd (omega arith)
occurrences_last x (y ∷ []) zero h = omega arith
occurrences_last x (y ∷ z ∷ list) zero h = absurd (omega arith)
occurrences_last x (y ∷ list) (suc n) h = omega (arith, occurrences_last x list n (omega arith))

occurrences_absent :
    (x : ℕ) (list : List ℕ)
    → ((j : ℕ) → j < length list → get_or list j 0 ≢ x)
    → occurrences x list ≡ 0
occurrences_absent x [] h = refl
occurrences_absent x (y ∷ list) h =
    let ne : (y == x) ≡ false = ground (arith, h 0 (omega arith)) in
    omega (
      arith,
      ap {B = ℕ} (λ (b : Bool). if b then 1 else 0) ne,
      occurrences_absent x list (λ j lt. h (suc j) (omega arith)),
    )

-- The last one in the place of the one at `i`.
occurrences_swap :
    (x : ℕ) (list : List ℕ) (i n : ℕ)
    → length list ≡ n + 1
    → i < n + 1
    → occurrences x (take n (set list i (get_or list n 0))) + hits (get_or list i 0) x
      ≡ occurrences x list
occurrences_swap x list i n len lt =
    let v = get_or list n 0 in
    let moved = set list i v in
    let at_end : get_or moved n 0 ≡ v = elim (ℕ_discrete i n) [
      | yes p ↦ ap (λ (j : ℕ). get_or moved j 0) (sym p) ∙ get_or-set_self list i v 0 (omega arith)
      | no ne ↦ get_or-set_ne list i n v 0 ne
    ] in
    let swapped = occurrences-set x list i v (omega arith) in
    let cut = occurrences_last x moved n (length-set list i v ∙ len) in
    let same = ap (λ (w : ℕ). hits w x) at_end in omega (arith, swapped, cut, same)

find_key_lem :
    (store : List ℕ) (key left i : ℕ)
    → (find_key store key left i ≡ none) × ((j : ℕ) → i ≤ j → j < i + left → get_or store j 0 ≢ key)
      ⊎ ((found : ℕ) × (find_key store key left i ≡ some found)
          × (found < i + left)
          × (get_or store found 0 ≡ key))
unfolding find_key
find_key_lem store key zero i = inl (refl, λ j ge lt. absurd (omega arith))
find_key_lem store key (suc left) i = elim (ℕ_discrete (get_or store i 0) key) [
  | yes here ↦
      let t : (get_or store i 0 == key) ≡ true = ground (arith, here) in
      inr (i, rw t refl, omega arith, here)
  | no away ↦
      let t : (get_or store i 0 == key) ≡ false = ground (arith, away) in
      elim (find_key_lem store key left (i + 1)) [
        | inl (missing, absent) ↦ inl (
          rw t missing,
          λ j ge lt. elim (ℕ_discrete i j) [
            | yes p ↦ λ q. away (ap (λ (n : ℕ). get_or store n 0) p ∙ q)
            | no ne ↦ absent j (omega arith) (omega arith)
          ],
        )
        | inr (found, at, lt, is_key) ↦ inr (found, rw t at, omega arith, is_key)
      ]
]

take-take : (xs : List ℕ) (m n : ℕ) → m ≤ n → take m (take n xs) ≡ take m xs
take-take xs zero n h = refl
take-take xs (suc m) zero h = absurd (omega arith)
take-take [] (suc m) (suc n) h = refl
take-take (x ∷ xs) (suc m) (suc n) h = ap (λ t. x ∷ t) (take-take xs m n (omega arith))

take-set-take :
    (xs : List ℕ) (m n i v : ℕ) → m ≤ n → take m (set (take n xs) i v) ≡ take m (set xs i v)
take-set-take xs zero n i v h = refl
take-set-take xs (suc m) zero i v h = absurd (omega arith)
take-set-take [] (suc m) (suc n) i v h = refl
take-set-take (x ∷ xs) (suc m) (suc n) zero v h = ap (λ t. v ∷ t) (take-take xs m n (omega arith))
take-set-take (x ∷ xs) (suc m) (suc n) (suc i) v h =
    ap (λ t. x ∷ t) (take-set-take xs m n i v (omega arith))

-- crypto_destroy_key of a key in the store: the key leaves the store once and every other address
-- stays in it as often as before, in another order perhaps.
pub destroy_key_lem :
    (key : ℕ) (s : KeyStore)
    → IsValid s
    → 0 < key
    → 0 < occurrences key (keys s)
    → let s' = destroy_key key s in
      IsValid s'
      × (s'.key_count + 1 ≡ s.key_count)
      × ((x : ℕ) → occurrences x (keys s') + hits key x ≡ occurrences x (keys s))
unfolding destroy_key
destroy_key_lem key s valid real stored =
    let len : length (keys s) ≡ s.key_count =
      length-take s.key_count s.key_store (omega (arith, valid.places, valid.count_in)) in
    let t : (key == 0) ≡ false = ground (arith, real) in
    elim (find_key_lem s.key_store key s.key_count 0) [
      | inl (missing, absent) ↦ absurd (
          omega (
            arith,
            occurrences_absent key (keys s) (λ j lt p.
                absent j (omega arith) (omega (arith, len))
                  (sym (get_or-take s.key_store s.key_count j 0 (omega (arith, len))) ∙ p)),
          ))
      | inr (found, at, lt, is_key) ↦
          let last = s.key_count - 1 in
          let v = get_or s.key_store last 0 in
          let moved = set s.key_store found v in
          let e : destroy_key key s ≡ record s { key_store = set moved last 0; key_count = last } =
            rw t (rw (destroy_key, at) refl) in
          let cut : keys (record s { key_store = set moved last 0; key_count = last })
              ≡ take last (set (keys s) found (get_or (keys s) last 0)) =
            take-set_le moved last last 0 (omega arith)
            ∙ sym (take-set-take s.key_store last s.key_count found v (omega arith))
            ∙ ap (λ (w : ℕ). take last (set (keys s) found w))
                (sym (get_or-take s.key_store s.key_count last 0 (omega arith))) in
          let named : get_or (keys s) found 0 ≡ key =
            get_or-take s.key_store s.key_count found 0 (omega arith) ∙ is_key in
          rw e (
            record {
              places = length-set moved last 0 ∙ length-set s.key_store found v ∙ valid.places;
              count_in = omega (arith, valid.count_in);
            },
            omega arith,
            λ x. omega (
              arith,
              ap (occurrences x) cut,
              ap (λ (w : ℕ). hits w x) named,
              occurrences_swap x (keys s) found last (omega arith) (omega arith),
            ),
          )
    ]
