-- ===== src/Memory/Setup/Fresh.antt =====
-- The frames as init_memory of KluxOS/src/kernel/mm/memory.c leaves them, and as a run of
-- alloc_frame takes them.
use mathlib.Core.Path.{subst}
use klux_os.Memory.Frames.{
  Frames, page_size, set_frame, reserve_from, init_frames, alloc_frame, mapped, PageFrame, flags_of,
}
use klux_os.Memory.Frames.Bitmap.{in_use, in_use-set_frame}
use klux_os.Memory.Frames.Search.{alloc_frame_lem, length-set_frame}
use klux_os.Base.{
  get_or-append_left, get_or-replicate, length-replicate, length-append, drop, replicate, ◌++◌, ◌%◌,
  ◌*◌, ◌+◌, ◌/◌, ◌<◌, ◌≤◌, ◌==◌, ◌≡◌, ltb, length, bit_at, get_or, dec_lt, Bool, List, ℕ, zero, suc,
  refl, arith, true, false, ◌∙◌, ap, sym, if◌then◌else◌,
}

-- 1 below `n`, 0 from there on.
abbrev is_below : (n x : ℕ) → ℕ
is_below n x = if ltb x n then 1 else 0

-- 128 MB of frames, of which the first `n` are in use.
abbrev pub IsTaken : (n : ℕ) → Frames → Type 0
IsTaken n f =
    (1024 ≤ length f.bits) × (f.nframes ≡ 32768) × ((x : ℕ) → x < 32768 → in_use f x ≡ is_below n x)

one_more :
    (n x v : ℕ) → v ≡ is_below n x → ◌≡◌ {A = ℕ} (if x == n then 1 else v) (is_below (n + 1) x)
one_more n x v e = ground (arith, e)

lt_one : (n x : ℕ) → x < n → is_below n x ≡ 1
lt_one n x h = ground (arith, h)

ge_zero : (n x : ℕ) → n ≤ x → is_below n x ≡ 0
ge_zero n x h = ground (arith, h)

set_frame-IsTaken :
    (n : ℕ) (f : Frames) → n < 32768 → IsTaken n f → IsTaken (n + 1) (set_frame (n * page_size) f)
unfolding set_frame
set_frame-IsTaken n f few (long, count, taken) = (
  omega (arith, long, length-set_frame f (n * page_size)),
  count,
  λ x h. in_use-set_frame f n x (omega (arith, few, long)) ∙ one_more n x (in_use f x) (taken x h),
)

-- alloc_frame takes the frame after those in use.
pub alloc_frame-IsTaken :
    (n : ℕ) (f : Frames) (page : PageFrame) (k w : Bool)
    → n < 32768
    → IsTaken n f
    → page.used ≡ false
    → (f' : Frames) × (alloc_frame page k w f
        ≡ mapped
            (record { used = true; kernel_page = k; ref_count = 1 })
            f'
            (record { physaddr = n * page_size; flags = flags_of k w }))
      × IsTaken (n + 1) f'
alloc_frame-IsTaken n f page k w few valid unused =
    let (long, count, taken) = valid in
    let free : in_use f n ≡ 0 = taken n few ∙ ge_zero n n (omega arith) in
    let (r, least, done, rest) =
      alloc_frame_lem f page k w n (omega (arith, long, count)) (omega (arith, count)) unused
        (omega (arith, count, few)) free in
    let (ge, bound, clear, below) = least in
    let e : r ≡ n = elim (dec_lt r n) [
      | yes lt ↦ absurd (omega (arith, clear, taken r (omega (arith, lt, few)), lt_one n r lt))
      | no ge ↦ elim (dec_lt n r) [
        | yes gt ↦ absurd (omega (arith, free, below n (omega arith) gt))
        | no le ↦ omega (arith, ge, le)
      ]
    ] in
    (
      set_frame (n * page_size) f,
      subst
          (λ r.
            alloc_frame page k w f
            ≡ mapped (record { used = true; kernel_page = k; ref_count = 1 })
                (set_frame (r * page_size) f)
                (record { physaddr = r * page_size; flags = flags_of k w }))
          e done,
      set_frame-IsTaken n f few valid,
    )

reserve_from-IsTaken :
    (left n : ℕ) (f : Frames)
    → n + left ≤ 32768
    → IsTaken n f
    → IsTaken (n + left) (reserve_from left n f)
unfolding reserve_from
reserve_from-IsTaken zero n f few valid = subst (λ m. IsTaken m f) (omega arith) valid
reserve_from-IsTaken (suc left) n f few valid =
    subst (λ m. IsTaken m (reserve_from left (n + 1) (set_frame (n * page_size) f))) (omega arith)
      (reserve_from-IsTaken left (n + 1) (set_frame (n * page_size) f) (omega arith)
        (set_frame-IsTaken n f (omega arith) valid))

bit_at_zero : (i : ℕ) → bit_at 0 i ≡ 0
bit_at_zero zero = refl
bit_at_zero (suc i) = bit_at_zero i

all_free :
    (bits : List ℕ) (x : ℕ)
    → x < 32768
    → bit_at (get_or (replicate 1024 0 ++ bits) (x / 32) 0) (x % 32) ≡ 0
all_free bits x h =
    let inside : x / 32 < length {A = ℕ} (replicate 1024 0) =
      omega (arith, length-replicate {A = ℕ} 1024 0) in
    ap (λ v. bit_at v (x % 32))
      (get_or-append_left (replicate 1024 0) bits (x / 32) 0 inside
        ∙ get_or-replicate 1024 (x / 32) 0 0 (omega arith))
    ∙ bit_at_zero (x % 32)

-- After init_memory, the first 256 frames are in use.
pub init_frames-IsTaken : (f : Frames) → IsTaken 256 (init_frames f)
unfolding init_frames
init_frames-IsTaken f = reserve_from-IsTaken 256 0 _ (omega arith) (
  omega
      (arith, length-append (replicate 1024 0) (drop 1024 f.bits), length-replicate {A = ℕ} 1024 0),
  refl,
  λ x h. all_free (drop 1024 f.bits) x h ∙ sym (ge_zero 0 x (omega arith)),
)
