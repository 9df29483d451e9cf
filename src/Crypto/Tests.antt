-- ===== src/Crypto/Tests.antt =====
-- Runs of KluxOS/src/security/crypto.c.
use klux_os.Crypto.Ciphers.{decrypt-encrypt, cipher}
use klux_os.Crypto.Keys.{destroy_key_lem, hits, keys, occurrences, IsValid}
use klux_os.Crypto.Digest.{hash_collides}
use klux_os.Crypto.{
  caesar_encrypt, Context, KeyStore, decrypt, destroy_key, encrypt, hash, length_for, xor, caesar,
  sha, done,
}
use klux_os.Base.{
  List, length, get_or, inr, ◌<◌, ℕ, replicate, ◌+◌, ◌≡◌, refl, arith, [], ◌∷◌, some,
}

abbrev shift_three : Context
shift_three = record {
  algorithm = caesar;
  key = record { id = 1; key_type = caesar; key_data = 3 ∷ [] };
}

encrypted : encrypt shift_three (254 ∷ 65 ∷ []) ≡ done (1 ∷ 68 ∷ [])
unfolding encrypt caesar_encrypt
encrypted = refl

decrypt-encrypt_example :
    (output : List ℕ) × (encrypt shift_three (254 ∷ 65 ∷ []) ≡ done output)
    × (length output ≡ 2)
    × ((j : ℕ) → j < 2 → get_or output j 0 ≡ cipher caesar (3 ∷ []) j (get_or (254 ∷ 65 ∷ []) j 0))
    × (decrypt shift_three output ≡ done (254 ∷ 65 ∷ []))
decrypt-encrypt_example =
    decrypt-encrypt shift_three (254 ∷ 65 ∷ []) (inr refl) (omega arith, tt)
      (omega arith, (omega arith, tt)) (omega arith)

hash_collides_example :
    hash sha (193 ∷ 66 ∷ 67 ∷ 68 ∷ 69 ∷ 70 ∷ 71 ∷ 72 ∷ [])
    ≡ hash sha (65 ∷ 66 ∷ 67 ∷ 68 ∷ 69 ∷ 70 ∷ 71 ∷ 72 ∷ [])
hash_collides_example = hash_collides sha 65 66 67 68 69 70 71 72 [] (omega arith) (omega arith)

abbrev three_keys : KeyStore
three_keys = record {
  key_store = 0x100 ∷ 0x200 ∷ 0x300 ∷ replicate 13 0;
  key_count = 3;
  next_key_id = 4;
}

three_keys-IsValid : IsValid three_keys
three_keys-IsValid = record { places = refl; count_in = omega arith }

sized : length_for xor 2 ≡ some 4
unfolding length_for
sized = refl

destroy_key_lem_example :
    let s' = destroy_key 0x200 three_keys in
    IsValid s'
    × (s'.key_count + 1 ≡ 3)
    × ((x : ℕ) → occurrences x (keys s') + hits 0x200 x ≡ occurrences x (keys three_keys))
destroy_key_lem_example =
    destroy_key_lem 0x200 three_keys three_keys-IsValid (omega arith) (omega arith)
