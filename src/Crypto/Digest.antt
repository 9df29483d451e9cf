-- ===== src/Crypto/Digest.antt =====
-- The digest of crypto_simple_hash in KluxOS/src/security/crypto.c.
use klux_os.Crypto.Ciphers.{AreBytes}
use klux_os.Crypto.{Algorithm, shifted, simple_hash, hash, hash_from, rotate, rotate_from}
use klux_os.Base.{
  bit_xor_step, dec_lt, ◌==◌, Bool-cases, All-get_or, bit_or_step, All-replicate, bit_or-zero,
  bit_xor-lt, ◌^◌, All-set, length-set, replicate, ◌%◌, ◌*◌, ◌/◌, bit_and-ones, bit_or, bit_xor,
  get_or, ◌+◌, ◌≡◌, length, set, ◌<◌, ◌≤◌, List, ℕ, zero, suc, refl, arith, [], ◌∷◌, inl, inr, ◌∙◌,
  ap,
}

shifted-lt : (byte next : ℕ) → shifted byte next < 256
shifted-lt byte next = omega (arith, bit_and-ones 8 (bit_or (byte * 2) (next / 2 ^ 7)))

-- Moving a byte up forgets its top bit.
halves : (a n : ℕ) → n ≤ 1 → bit_or (a * 2 / 2) (n / 2) ≡ a
halves a n le =
    let p : a * 2 / 2 ≡ a = omega arith in
    let q : n / 2 ≡ 0 = omega arith in rw p (rw q (bit_or-zero a))

shifted_top :
    (byte next : ℕ) → byte < 128 → next < 256 → shifted (byte + 128) next ≡ shifted byte next
shifted_top byte next lt small =
    let n = next / 2 ^ 7 in
    omega (
      arith,
      bit_and-ones 8 (bit_or ((byte + 128) * 2) n),
      bit_and-ones 8 (bit_or (byte * 2) n),
      bit_or_step ((byte + 128) * 2) n,
      bit_or_step (byte * 2) n,
      halves (byte + 128) n (omega arith),
      halves byte n (omega arith),
    )

rotate_from-AreBytes :
    (state : List ℕ) (left j : ℕ) → AreBytes state → AreBytes (rotate_from state left j)
unfolding rotate_from
rotate_from-AreBytes state zero j bytes = bytes
rotate_from-AreBytes state (suc left) j bytes =
    let v = shifted (get_or state j 0) (get_or state (j + 1) 0) in
    rotate_from-AreBytes (set state j v) left (j + 1) (
      All-set (λ b. b < 256) state j v bytes
        (shifted-lt (get_or state j 0) (get_or state (j + 1) 0)))

length-rotate_from :
    (state : List ℕ) (left j : ℕ) → length (rotate_from state left j) ≡ length state
unfolding rotate_from
length-rotate_from state zero j = refl
length-rotate_from state (suc left) j =
    let v = shifted (get_or state j 0) (get_or state (j + 1) 0) in
    length-rotate_from (set state j v) left (j + 1) ∙ length-set state j v

-- A digest is 32 bytes.
abbrev pub IsDigest : List ℕ → Type 0
IsDigest state = (length state ≡ 32) × AreBytes state

rotate-IsDigest : (state : List ℕ) → IsDigest state → IsDigest (rotate state)
unfolding rotate
rotate-IsDigest state (len, bytes) =
    let moved = rotate_from state 31 0 in
    let v = shifted (get_or moved 31 0) (get_or moved 0 0) in
    (
      length-set moved 31 v ∙ length-rotate_from state 31 0 ∙ len,
      All-set (λ b. b < 256) moved 31 v (rotate_from-AreBytes state 31 0 bytes)
          (shifted-lt (get_or moved 31 0) (get_or moved 0 0)),
    )

hash_from-IsDigest :
    (input : List ℕ) (i : ℕ) (state : List ℕ)
    → AreBytes input
    → IsDigest state
    → IsDigest (hash_from input i state)
unfolding hash_from
hash_from-IsDigest [] i state bytes digest = digest
hash_from-IsDigest (b ∷ input) i state (hb, bytes) (len, old) =
    let v = bit_xor (get_or state (i % 32) 0) b in
    let mixed = set state (i % 32) v in
    let small : v < 256 =
      bit_xor-lt 8 (get_or state (i % 32) 0) b
        (All-get_or (λ b. b < 256) state (i % 32) 0 old (omega arith)) hb in
    let digest : IsDigest mixed =
      (length-set state (i % 32) v ∙ len, All-set (λ b. b < 256) state (i % 32) v old small) in
    elim (Bool-cases (i % 8 == 7)) [
      | inl turn ↦
          rw turn
            (hash_from-IsDigest input (i + 1) (rotate mixed) bytes (rotate-IsDigest mixed digest))
      | inr stay ↦ rw stay (hash_from-IsDigest input (i + 1) mixed bytes digest)
    ]

-- crypto_hash fills the 32 places of the digest with bytes, for every message of bytes.
pub hash-IsDigest : (a : Algorithm) (input : List ℕ) → AreBytes input → IsDigest (hash a input)
unfolding hash simple_hash
hash-IsDigest a input bytes =
    hash_from-IsDigest input 0 (replicate 32 0) bytes
      (refl, All-replicate (λ b. b < 256) 32 0 (omega arith))

-- What `rotate` does after its first turn.
abbrev rotate_more : List ℕ → List ℕ
rotate_more state =
    let moved = rotate_from state 30 1 in
    set moved 31 (shifted (get_or moved 31 0) (get_or moved 0 0))

rotate_top :
    (byte : ℕ) (rest : List ℕ)
    → byte < 128
    → get_or rest 0 0 < 256
    → rotate ((byte + 128) ∷ rest) ≡ rotate (byte ∷ rest)
unfolding rotate rotate_from
rotate_top byte rest lt small =
    ap (λ v. rotate_more (v ∷ rest)) (shifted_top byte (get_or rest 0 0) lt small)

xor_zero : (bound w : ℕ) → w ≤ bound → bit_xor 0 w ≡ w
xor_zero zero zero h = refl
xor_zero zero (suc w) h = absurd (omega arith)
xor_zero (suc bound) w h = elim (dec_lt 0 w) [
  | yes pos ↦ omega (arith, bit_xor_step 0 w, xor_zero bound (w / 2) (omega arith))
  | no none_left ↦ let e : w ≡ 0 = omega arith in rw e refl
]

bit_xor_from_zero : (w : ℕ) → bit_xor 0 w ≡ w
bit_xor_from_zero w = xor_zero w w (omega arith)

-- Two messages of at least 8 bytes that differ in the top bit of their first byte alone have the
-- same digest under every algorithm: the move after each eighth byte drops that bit.
pub hash_collides :
    (a : Algorithm) (b0 b1 b2 b3 b4 b5 b6 b7 : ℕ) (rest : List ℕ)
    → b0 < 128
    → b1 < 256
    → hash a ((b0 + 128) ∷ b1 ∷ b2 ∷ b3 ∷ b4 ∷ b5 ∷ b6 ∷ b7 ∷ rest)
      ≡ hash a (b0 ∷ b1 ∷ b2 ∷ b3 ∷ b4 ∷ b5 ∷ b6 ∷ b7 ∷ rest)
unfolding hash simple_hash hash_from
hash_collides a b0 b1 b2 b3 b4 b5 b6 b7 rest lt small =
    let tail =
      b1
      ∷ bit_xor 0 b2
      ∷ bit_xor 0 b3
      ∷ bit_xor 0 b4
      ∷ bit_xor 0 b5
      ∷ bit_xor 0 b6
      ∷ bit_xor 0 b7
      ∷ replicate 24 0 in
    rw (bit_xor_from_zero (b0 + 128)) (
      rw (bit_xor_from_zero b0)
        (rw (bit_xor_from_zero b1) (ap (hash_from rest 8) (rotate_top b0 tail lt small))))
