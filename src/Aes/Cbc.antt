-- ===== src/Aes/Cbc.antt =====
-- CBC mode, `aes_encrypt_cbc` and `aes_decrypt_cbc` of KluxOS/src/security/aes.c. The input and the
-- output are different buffers, and no pointer is null.
use klux_os.Aes.{bit_xor, encrypt_block, zip_block, block_at, decrypt_block, Block, Column, Context}
use klux_os.Base.{
  ◌/◌, ◌*◌, ◌==◌, drop, ◌%◌, ◌≡◌, if◌then◌else◌, length, ◌∷◌, List, ℕ, zero, suc, refl, arith, [],
  ap,
}

-- What the two functions answer: -2, or 0 with the output.
pub data Result : Type 0 where
  bad_length : Result
  done : List ℕ → Result

-- The blocks of a buffer, `n` of them, and the bytes of some blocks.
unfoldable pub blocks_of : ℕ → List ℕ → List Block
blocks_of zero xs = []
blocks_of (suc n) xs = block_at xs 0 ∷ blocks_of n (drop 16 xs)

abbrev pub column_bytes : Column → List ℕ → List ℕ
column_bytes c xs = c.r0 ∷ c.r1 ∷ c.r2 ∷ c.r3 ∷ xs

abbrev pub block_bytes : Block → List ℕ → List ℕ
block_bytes b xs = column_bytes b.c0 (column_bytes b.c1 (column_bytes b.c2 (column_bytes b.c3 xs)))

unfoldable pub bytes_of : List Block → List ℕ
bytes_of [] = []
bytes_of (b ∷ bs) = block_bytes b (bytes_of bs)

-- The loop of `aes_encrypt_cbc`, `iv` being `iv_copy`.
unfoldable pub encrypt_blocks : Context → Block → List Block → List Block
encrypt_blocks ctx iv [] = []
encrypt_blocks ctx iv (b ∷ bs) =
    let c = encrypt_block ctx (zip_block bit_xor b iv) in c ∷ encrypt_blocks ctx c bs

-- The loop of `aes_decrypt_cbc`.
unfoldable pub decrypt_blocks : Context → Block → List Block → List Block
decrypt_blocks ctx iv [] = []
decrypt_blocks ctx iv (b ∷ bs) =
    zip_block bit_xor (decrypt_block ctx b) iv ∷ decrypt_blocks ctx b bs

unfoldable pub encrypt_cbc : Context → Block → List ℕ → ℕ → Result
encrypt_cbc ctx iv input len =
    if len % 16 == 0
    then done (bytes_of (encrypt_blocks ctx iv (blocks_of (len / 16) input)))
    else bad_length

unfoldable pub decrypt_cbc : Context → Block → List ℕ → ℕ → Result
decrypt_cbc ctx iv input len =
    if len % 16 == 0
    then done (bytes_of (decrypt_blocks ctx iv (blocks_of (len / 16) input)))
    else bad_length

pub blocks_of-bytes_of : (bs : List Block) → blocks_of (length bs) (bytes_of bs) ≡ bs
unfolding bytes_of blocks_of
blocks_of-bytes_of [] = refl
blocks_of-bytes_of (b ∷ bs) = ap (λ t. b ∷ t) (blocks_of-bytes_of bs)

pub length-encrypt_blocks :
    (ctx : Context) (iv : Block) (bs : List Block) → length (encrypt_blocks ctx iv bs) ≡ length bs
unfolding encrypt_blocks
length-encrypt_blocks ctx iv [] = refl
length-encrypt_blocks ctx iv (b ∷ bs) =
    ap suc (length-encrypt_blocks ctx (encrypt_block ctx (zip_block bit_xor b iv)) bs)

pub length-blocks_of : (n : ℕ) (xs : List ℕ) → length (blocks_of n xs) ≡ n
unfolding blocks_of
length-blocks_of zero xs = refl
length-blocks_of (suc n) xs = ap suc (length-blocks_of n (drop 16 xs))

pub length-bytes_of : (bs : List Block) → length (bytes_of bs) ≡ 16 * length bs
unfolding bytes_of
length-bytes_of [] = refl
length-bytes_of (b ∷ bs) = omega (arith, length-bytes_of bs)
