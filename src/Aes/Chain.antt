-- ===== src/Aes/Chain.antt =====
-- The CBC mode of KluxOS/src/security/aes.c against its equations.
use klux_os.Aes.{
  bit_xor, zip_block, column_at, block_at, encrypt_block, decrypt_block, Block, Context,
}
use klux_os.Aes.Cbc.{
  blocks_of, bytes_of, blocks_of-bytes_of, length-bytes_of, length-blocks_of, length-encrypt_blocks,
  encrypt_blocks, decrypt_blocks, encrypt_cbc, decrypt_cbc, done,
}
use klux_os.Base.{
  get_or-drop, get_or, drop, length, ◌==◌, ◌%◌, ◌/◌, ◌*◌, ◌+◌, ◌<◌, ◌≡◌, List, ℕ, zero, suc, refl,
  arith, [], ◌∷◌, true, ◌∙◌, ap, ap₂, sym,
}

column_at-drop : (xs : List ℕ) (k : ℕ) → column_at (drop 16 xs) k ≡ column_at xs (k + 16)
column_at-drop xs k =
    λ i. record { r0 = get_or-drop xs 16 k 0 i; r1 = at 1 i; r2 = at 2 i; r3 = at 3 i }
  where
    at : (j : ℕ) → get_or (drop 16 xs) (k + j) 0 ≡ get_or xs (k + 16 + j) 0
    at j = get_or-drop xs 16 (k + j) 0 ∙ ap (λ n. get_or xs n 0) (omega arith)

block_at-drop : (xs : List ℕ) (k : ℕ) → block_at (drop 16 xs) k ≡ block_at xs (k + 16)
block_at-drop xs k =
    λ i. record { c0 = column_at-drop xs k i; c1 = at 4 i; c2 = at 8 i; c3 = at 12 i }
  where
    at : (j : ℕ) → column_at (drop 16 xs) (k + j) ≡ column_at xs (k + 16 + j)
    at j = column_at-drop xs (k + j) ∙ ap (column_at xs) (omega arith)

-- Block `i` of a list of blocks, and of a buffer.
abbrev nth : List Block → ℕ → Block
nth bs i = get_or bs i (block_at [] 0)

abbrev pub block : List ℕ → ℕ → Block
block xs i = block_at xs (16 * i)

-- The block before block `i`, the initialisation vector before the first one.
abbrev pub before : (iv : Block) (xs : List ℕ) → ℕ → Block
before iv xs zero = iv
before iv xs (suc i) = block xs i

nth-blocks_of : (n i : ℕ) (xs : List ℕ) → i < n → nth (blocks_of n xs) i ≡ block xs i
unfolding blocks_of
nth-blocks_of zero i xs h = absurd (omega arith)
nth-blocks_of (suc n) zero xs h = ap (block_at xs) (omega arith)
nth-blocks_of (suc n) (suc i) xs h =
    nth-blocks_of n i (drop 16 xs) (omega arith)
    ∙ block_at-drop xs (16 * i)
    ∙ ap (block_at xs) (omega arith)

block-bytes_of : (bs : List Block) (i : ℕ) → i < length bs → block (bytes_of bs) i ≡ nth bs i
block-bytes_of bs i h =
    sym (nth-blocks_of (length bs) i (bytes_of bs) h) ∙ ap (λ l. nth l i) (blocks_of-bytes_of bs)

nth-encrypt_blocks :
    (ctx : Context) (iv : Block) (bs : List Block) (i : ℕ)
    → i < length bs
    → nth (encrypt_blocks ctx iv bs) i
      ≡ encrypt_block ctx (zip_block bit_xor (nth bs i) (nth (iv ∷ encrypt_blocks ctx iv bs) i))
unfolding encrypt_blocks
nth-encrypt_blocks ctx iv [] i h = absurd (omega arith)
nth-encrypt_blocks ctx iv (b ∷ bs) zero h = refl
nth-encrypt_blocks ctx iv (b ∷ bs) (suc i) h =
    nth-encrypt_blocks ctx (encrypt_block ctx (zip_block bit_xor b iv)) bs i (omega arith)

nth-decrypt_blocks :
    (ctx : Context) (iv : Block) (bs : List Block) (i : ℕ)
    → i < length bs
    → nth (decrypt_blocks ctx iv bs) i
      ≡ zip_block bit_xor (decrypt_block ctx (nth bs i)) (nth (iv ∷ bs) i)
unfolding decrypt_blocks
nth-decrypt_blocks ctx iv [] i h = absurd (omega arith)
nth-decrypt_blocks ctx iv (b ∷ bs) zero h = refl
nth-decrypt_blocks ctx iv (b ∷ bs) (suc i) h = nth-decrypt_blocks ctx b bs i (omega arith)

length-decrypt_blocks :
    (ctx : Context) (iv : Block) (bs : List Block) → length (decrypt_blocks ctx iv bs) ≡ length bs
unfolding decrypt_blocks
length-decrypt_blocks ctx iv [] = refl
length-decrypt_blocks ctx iv (b ∷ bs) = ap suc (length-decrypt_blocks ctx b bs)

before-bytes_of :
    (iv : Block) (bs : List Block) (i : ℕ)
    → i < length bs
    → before iv (bytes_of bs) i ≡ nth (iv ∷ bs) i
before-bytes_of iv bs zero h = refl
before-bytes_of iv bs (suc i) h = block-bytes_of bs i (omega arith)

before-blocks_of :
    (iv : Block) (n i : ℕ) (xs : List ℕ) → i < n → before iv xs i ≡ nth (iv ∷ blocks_of n xs) i
before-blocks_of iv n zero xs h = refl
before-blocks_of iv n (suc i) xs h = sym (nth-blocks_of n i xs (omega arith))

-- The equations of the mode, on buffers, with the source's own block cipher and whatever context:
-- for a length that is a multiple of 16, both functions return an output of that length; each block
-- that aes_encrypt_cbc makes is the encryption of the input's block mixed with the output's block
-- before it, and each block that aes_decrypt_cbc makes is the decryption of the input's block, mixed
-- with the input's block before it. Before the first block is the initialisation vector.
pub encrypt_cbc-decrypt_cbc :
    (ctx : Context) (iv : Block) (input : List ℕ) (len : ℕ)
    → len % 16 ≡ 0
    → (secret plain : List ℕ) × (encrypt_cbc ctx iv input len ≡ done secret)
      × (length secret ≡ len)
      × ((i : ℕ)
          → i < len / 16
          → block secret i
            ≡ encrypt_block ctx (zip_block bit_xor (block input i) (before iv secret i)))
      × (decrypt_cbc ctx iv input len ≡ done plain)
      × (length plain ≡ len)
      × ((i : ℕ)
          → i < len / 16
          → block plain i
            ≡ zip_block bit_xor (decrypt_block ctx (block input i)) (before iv input i))
unfolding encrypt_cbc decrypt_cbc
encrypt_cbc-decrypt_cbc ctx iv input len even =
    let n = len / 16 in
    let bs = blocks_of n input in
    let cs = encrypt_blocks ctx iv bs in
    let ps = decrypt_blocks ctx iv bs in
    let size : length bs ≡ n = length-blocks_of n input in
    let csize : length cs ≡ n = length-encrypt_blocks ctx iv bs ∙ size in
    let psize : length ps ≡ n = length-decrypt_blocks ctx iv bs ∙ size in
    let t : (len % 16 == 0) ≡ true = ground (arith, even) in
    (
      bytes_of cs,
      bytes_of ps,
      rw t refl,
      omega (arith, length-bytes_of cs, csize, even),
      λ i h.
          block-bytes_of cs i (omega (arith, csize, h))
          ∙ nth-encrypt_blocks ctx iv bs i (omega (arith, size, h))
          ∙ ap₂ (λ a b. encrypt_block ctx (zip_block bit_xor a b)) (nth-blocks_of n i input h)
              (sym (before-bytes_of iv cs i (omega (arith, csize, h)))),
      rw t refl,
      omega (arith, length-bytes_of ps, psize, even),
      λ i h.
          block-bytes_of ps i (omega (arith, psize, h))
          ∙ nth-decrypt_blocks ctx iv bs i (omega (arith, size, h))
          ∙ ap₂ (λ a b. zip_block bit_xor (decrypt_block ctx a) b) (nth-blocks_of n i input h)
              (sym (before-blocks_of iv n i input h)),
    )
