-- ===== src/Crypto.antt =====
-- KluxOS/src/security/crypto.c: the two byte ciphers, the digest and the store of keys.
pub mod Ciphers
pub mod Digest
pub mod Keys
mod Tests
use klux_os.Base.{
  ◌/◌, bit_or, bit_and, length, set, ◌^◌, ◌%◌, ◌&&◌, ◌-◌, Bool, bit_xor, get_or, ltb, ◌*◌, ◌+◌,
  ◌==◌, List, Option, replicate, ℕ, zero, suc, [], ◌∷◌, none, some, true, false, if◌then◌else◌,
}

-- `crypto_algorithm_t` in KluxOS/include/security/crypto.h.
pub data Algorithm : Type 0 where
  plain : Algorithm
  xor : Algorithm
  caesar : Algorithm
  aes : Algorithm
  rsa : Algorithm
  sha : Algorithm

-- The enumeration's numbers, which `!=` compares.
pub number : Algorithm → ℕ
number plain = 0
number xor = 1
number caesar = 2
number aes = 3
number rsa = 4
number sha = 5

-- `crypto_key_t`; `length` is the length of `key_data`.
pub record Key : Type 0 where
  pub id : ℕ
  pub key_type : Algorithm
  pub key_data : List ℕ

-- `crypto_context_t` with its key.
pub record Context : Type 0 where
  pub algorithm : Algorithm
  pub key : Key

-- What `crypto_encrypt` and `crypto_decrypt` do: 0 with an output, -2 and -3; `faulted` for an empty
-- key, by whose length is divided and which has no first byte.
pub data Result : Type 0 where
  done : List ℕ → Result
  unsupported : Result
  faulted : Result
  unknown : Result

-- The loop of `crypto_xor_process` from place `i`, none for a division by zero.
unfoldable pub xor_process : List ℕ → (key : List ℕ) → (i : ℕ) → Option (List ℕ)
xor_process [] key i = some []
xor_process (b ∷ input) key i =
    let rest = xor_process input key (i + 1) in
    if length key == 0 then none else elim rest [
      | none ↦ none
      | some output ↦ some (bit_xor b (get_or key (i % length key) 0) ∷ output)
    ]

unfoldable pub caesar_encrypt : List ℕ → (shift : ℕ) → List ℕ
caesar_encrypt [] shift = []
caesar_encrypt (b ∷ input) shift = (b + shift) % 256 ∷ caesar_encrypt input shift

-- A byte minus a byte, which wraps.
unfoldable pub caesar_decrypt : List ℕ → (shift : ℕ) → List ℕ
caesar_decrypt [] shift = []
caesar_decrypt (b ∷ input) shift = (b + 256 - shift) % 256 ∷ caesar_decrypt input shift

unfoldable pub encrypt : Context → List ℕ → Result
encrypt ctx input = elim ctx.algorithm [
  | xor ↦ elim (xor_process input ctx.key.key_data 0) [ none ↦ faulted | some output ↦ done output ]
  | caesar ↦ elim ctx.key.key_data [
    | [] ↦ faulted
    | shift ∷ later ↦ done (caesar_encrypt input shift)
  ]
  | aes ↦ unsupported
  | rsa ↦ unsupported
  | plain ↦ unknown
  | sha ↦ unknown
]

unfoldable pub decrypt : Context → List ℕ → Result
decrypt ctx input = elim ctx.algorithm [
  | xor ↦ elim (xor_process input ctx.key.key_data 0) [ none ↦ faulted | some output ↦ done output ]
  | caesar ↦ elim ctx.key.key_data [
    | [] ↦ faulted
    | shift ∷ later ↦ done (caesar_decrypt input shift)
  ]
  | aes ↦ unsupported
  | rsa ↦ unsupported
  | plain ↦ unknown
  | sha ↦ unknown
]

-- A byte moved up by one bit, with the top bit of the next byte below.
abbrev pub shifted : (byte next : ℕ) → ℕ
shifted byte next = bit_and (bit_or (byte * 2) (next / 2 ^ 7)) 0xFF

-- The inner loop of `crypto_simple_hash` from place `j`.
pub rotate_from : List ℕ → (left j : ℕ) → List ℕ
rotate_from hash zero j = hash
rotate_from hash (suc left) j =
    rotate_from (set hash j (shifted (get_or hash j 0) (get_or hash (j + 1) 0))) left (j + 1)

pub rotate : List ℕ → List ℕ
rotate hash =
    let moved = rotate_from hash 31 0 in
    set moved 31 (shifted (get_or moved 31 0) (get_or moved 0 0))

-- The outer loop from place `i`.
pub hash_from : List ℕ → (i : ℕ) → List ℕ → List ℕ
hash_from [] i hash = hash
hash_from (b ∷ input) i hash =
    let mixed = set hash (i % 32) (bit_xor (get_or hash (i % 32) 0) b) in
    hash_from input (i + 1) (if i % 8 == 7 then rotate mixed else mixed)

pub simple_hash : List ℕ → List ℕ
simple_hash input = hash_from input 0 (replicate 32 0)

-- Every algorithm is the simple digest for now.
pub hash : Algorithm → List ℕ → List ℕ
hash algorithm input = simple_hash input

-- The static variables; a key in the store stands under the address that it was given.
pub record KeyStore : Type 0 where
  pub key_store : List ℕ
  pub key_count : ℕ
  pub next_key_id : ℕ

abbrev pub max_crypto_keys : ℕ
max_crypto_keys = 16

-- The slots hold addresses, 0 for a null pointer.
pub init : KeyStore → KeyStore
init s = record s { key_store = replicate max_crypto_keys 0; key_count = 0 }

-- The loop that fills a key with `left` bytes from place `i`.
pub key_bytes : (id left i : ℕ) → List ℕ
key_bytes id zero i = []
key_bytes id (suc left) i = (i * 29 + id * 13) % 2 ^ 32 % 256 ∷ key_bytes id left (i + 1)

-- The length of the key that is made, none where the code refuses the algorithm.
unfoldable pub length_for : Algorithm → ℕ → Option ℕ
length_for plain key_length = none
length_for xor key_length =
    let at_least = if ltb key_length 4 then 4 else key_length in
    some (if ltb 32 at_least then 32 else at_least)
length_for caesar key_length = some 1
length_for aes key_length = none
length_for rsa key_length = none
length_for sha key_length = some key_length

-- `address` is where kmalloc puts the key, and `memory_left` whether it finds both blocks.
pub generate_key :
    Algorithm → (key_length address : ℕ) → (memory_left : Bool) → KeyStore → Option Key × KeyStore
generate_key algorithm key_length address memory_left s = elim (length_for algorithm key_length) [
  | none ↦ (none, s)
  | some size ↦
      if memory_left
      then (
        some (record {
          id = s.next_key_id;
          key_type = algorithm;
          key_data = key_bytes s.next_key_id size 0;
        }),
        (let counted = record s { next_key_id = (s.next_key_id + 1) % 2 ^ 32 } in
            if ltb s.key_count max_crypto_keys
            then record counted {
              key_store = set s.key_store s.key_count address;
              key_count = s.key_count + 1;
            }
            else counted),
      )
      else (none, s)
]

-- The loop of `crypto_destroy_key` from place `i`: the place of the key, none after the loop.
pub find_key : List ℕ → (key left i : ℕ) → Option ℕ
find_key store key zero i = none
find_key store key (suc left) i =
    let later = find_key store key left (i + 1) in if get_or store i 0 == key then some i else later

-- 0 is the null pointer. The blocks that are freed are not in this state.
pub destroy_key : (key : ℕ) → KeyStore → KeyStore
destroy_key key s = if key == 0 then s else elim (find_key s.key_store key s.key_count 0) [
  | none ↦ s
  | some i ↦
      let last = s.key_count - 1 in
      let moved = set s.key_store i (get_or s.key_store last 0) in
      record s { key_store = set moved last 0; key_count = last }
]

-- `memory_left` says whether kmalloc finds a block.
pub create_context : Algorithm → Option Key → (memory_left : Bool) → Option Context
create_context algorithm key memory_left = elim key [
  | none ↦ none
  | some k ↦
      if (number k.key_type == number algorithm) && memory_left
      then some (record { algorithm = algorithm; key = k })
      else none
]
