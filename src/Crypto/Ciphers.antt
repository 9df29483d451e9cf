-- ===== src/Crypto/Ciphers.antt =====
-- Encryption and decryption of KluxOS/src/security/crypto.c undo each other.
use klux_os.Crypto.{
  Key, Algorithm, Context, caesar_encrypt, decrypt, caesar_decrypt, encrypt, xor_process, done,
  plain, xor, caesar, aes, rsa, sha,
}
use mathlib.Core.Path.{subst}
use klux_os.Base.{
  bit_xor, ◌==◌, zero, suc, some, false, inl, inr, ◌⊎◌, ◌+◌, length, ◌%◌, bit_xor_cancel, get_or,
  All, ◌<◌, ◌≡◌, ℕ, List, refl, arith, [], ◌∷◌, ◌∙◌, ap, ap₂, sym,
}

abbrev pub AreBytes : List ℕ → Type 0
AreBytes = All (λ b. b < 256)

-- The byte that a cipher puts at place `j` for the byte `b`.
abbrev pub cipher : Algorithm → (key : List ℕ) (j b : ℕ) → ℕ
cipher xor key j b = bit_xor b (get_or key (j % length key) 0)
cipher caesar key j b = (b + get_or key 0 0) % 256
cipher plain key j b = b
cipher aes key j b = b
cipher rsa key j b = b
cipher sha key j b = b

-- The two algorithms that the functions have.
abbrev pub IsByteCipher : Algorithm → Type 0
IsByteCipher a = (a ≡ xor) ⊎ (a ≡ caesar)

-- The output of a cipher from place `i` on.
ciphered : (ℕ → ℕ → ℕ) → (input : List ℕ) (i : ℕ) → List ℕ
ciphered f [] i = []
ciphered f (b ∷ input) i = f i b ∷ ciphered f input (i + 1)

length-ciphered :
    (f : ℕ → ℕ → ℕ) (input : List ℕ) (i : ℕ) → length (ciphered f input i) ≡ length input
unfolding ciphered
length-ciphered f [] i = refl
length-ciphered f (b ∷ input) i = ap suc (length-ciphered f input (i + 1))

get_or-ciphered :
    (f : ℕ → ℕ → ℕ) (input : List ℕ) (i j : ℕ)
    → j < length input
    → get_or (ciphered f input i) j 0 ≡ f (i + j) (get_or input j 0)
unfolding ciphered
get_or-ciphered f [] i j h = absurd (omega arith)
get_or-ciphered f (b ∷ input) i zero h = ap (λ k. f k b) (omega arith)
get_or-ciphered f (b ∷ input) i (suc j) h =
    get_or-ciphered f input (i + 1) j (omega arith) ∙ ap (λ k. f k (get_or input j 0)) (omega arith)

xor_process_lem :
    (input key : List ℕ) (i : ℕ)
    → 0 < length key
    → xor_process input key i ≡ some (ciphered (cipher xor key) input i)
unfolding xor_process ciphered
xor_process_lem [] key i pos = refl
xor_process_lem (b ∷ input) key i pos =
    let some_key : (length key == 0) ≡ false = ground (arith, pos) in
    rw some_key (rw (xor_process_lem input key (i + 1) pos) refl)

xor_twice :
    (input key : List ℕ) (i : ℕ)
    → ciphered (cipher xor key) (ciphered (cipher xor key) input i) i ≡ input
unfolding ciphered
xor_twice [] key i = refl
xor_twice (b ∷ input) key i =
    ap₂ ◌∷◌ (bit_xor_cancel b (get_or key (i % length key) 0)) (xor_twice input key (i + 1))

caesar_encrypt_lem :
    (input key : List ℕ) (shift i : ℕ)
    → caesar_encrypt input shift ≡ ciphered (cipher caesar (shift ∷ key)) input i
unfolding caesar_encrypt ciphered
caesar_encrypt_lem [] key shift i = refl
caesar_encrypt_lem (b ∷ input) key shift i =
    ap (λ l. (b + shift) % 256 ∷ l) (caesar_encrypt_lem input key shift (i + 1))

caesar_decrypt-caesar_encrypt :
    (input : List ℕ) (shift : ℕ)
    → shift < 256
    → AreBytes input
    → caesar_decrypt (caesar_encrypt input shift) shift ≡ input
unfolding caesar_decrypt caesar_encrypt
caesar_decrypt-caesar_encrypt [] shift lt bytes = refl
caesar_decrypt-caesar_encrypt (b ∷ input) shift lt (hb, bytes) =
    ap₂ ◌∷◌ (omega arith) (caesar_decrypt-caesar_encrypt input shift lt bytes)

-- The ciphered input is the answer, and the inverse direction gives it back.
abbrev Ciphers : Algorithm → Key → List ℕ → Type 0
Ciphers a k input =
    let output = ciphered (cipher a k.key_data) input 0 in
    (encrypt (record { algorithm = a; key = k }) input ≡ done output)
    × (decrypt (record { algorithm = a; key = k }) output ≡ done input)

xor-Ciphers : (k : Key) (input : List ℕ) → 0 < length k.key_data → Ciphers xor k input
unfolding encrypt decrypt
xor-Ciphers k input pos =
    let output = ciphered (cipher xor k.key_data) input 0 in
    (
      rw (xor_process_lem input k.key_data 0 pos, encrypt) refl,
      rw (xor_process_lem output k.key_data 0 pos, decrypt)
          (ap done (xor_twice input k.key_data 0)),
    )

caesar-Ciphers :
    (id : ℕ) (type : Algorithm) (key input : List ℕ)
    → AreBytes key
    → AreBytes input
    → 0 < length key
    → Ciphers caesar (record { id = id; key_type = type; key_data = key }) input
unfolding encrypt decrypt
caesar-Ciphers id type [] input kb bytes pos = absurd (omega arith)
caesar-Ciphers id type (shift ∷ key) input kb bytes pos =
    let e = caesar_encrypt_lem input key shift 0 in
    (
      ap done e,
      ap (λ l. done (caesar_decrypt l shift)) (sym e)
          ∙ ap done (caesar_decrypt-caesar_encrypt input shift kb.0 bytes),
    )

both :
    (a : Algorithm) (k : Key) (input : List ℕ)
    → IsByteCipher a
    → AreBytes k.key_data
    → AreBytes input
    → 0 < length k.key_data
    → Ciphers a k input
both a k input (inl e) kb bytes pos =
    subst (λ a. Ciphers a k input) (sym e) (xor-Ciphers k input pos)
both a k input (inr e) kb bytes pos =
    subst (λ a. Ciphers a k input) (sym e)
      (caesar-Ciphers k.id k.key_type k.key_data input kb bytes pos)

-- With XOR or CAESAR, a key of at least one byte and a message of bytes, crypto_encrypt gives an
-- output as long as the message: with XOR, each byte is mixed with the key's byte at that place,
-- the key being repeated; with CAESAR, the key's first byte is added to it, and the sum wraps.
-- crypto_decrypt with the same context gives the message back.
pub decrypt-encrypt :
    (ctx : Context) (input : List ℕ)
    → IsByteCipher ctx.algorithm
    → AreBytes ctx.key.key_data
    → AreBytes input
    → 0 < length ctx.key.key_data
    → (output : List ℕ) × (encrypt ctx input ≡ done output)
      × (length output ≡ length input)
      × ((j : ℕ)
          → j < length input
          → get_or output j 0 ≡ cipher ctx.algorithm ctx.key.key_data j (get_or input j 0))
      × (decrypt ctx output ≡ done input)
decrypt-encrypt ctx input supported kb bytes pos =
    let f = cipher ctx.algorithm ctx.key.key_data in
    let (there, back) = both ctx.algorithm ctx.key input supported kb bytes pos in
    (
      ciphered f input 0,
      there,
      length-ciphered f input 0,
      λ j h. get_or-ciphered f input 0 j h ∙ ap (λ k. f k (get_or input j 0)) (omega arith),
      back,
    )
