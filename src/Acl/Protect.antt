-- ===== src/Acl/Protect.antt =====
-- The three protections of KluxOS/src/security/acl.c, and what the check of KluxOS/src/kernel/fs.c
-- makes of a protected file.
use klux_os.Acl.{add_entry, make_resource, protect_file, bit_or, bit_and, mask_of, ℕ, ok}
use klux_os.Fs
use klux_os.Base.{
  ◌≢◌, bit_and-shift, ◌/◌, bit_and_step, ◌^◌, dec_lt, ◌<◌, bit_at_le_one, bit_and-pow, ◌+◌, bit_at,
  ◌==◌, ◌%◌, ◌*◌, ◌≡◌, ◌≤◌, zero, suc, refl, arith, true, false, ◌∙◌, ap, if◌then◌else◌,
}

mask_bits :
    (a b c : ℕ)
    → a ≤ 1
    → b ≤ 1
    → c ≤ 1
    → (let read = if a * 1 == 0 then 0 else bit_or 0 1 in
        let write = if b * 2 == 0 then read else bit_or read 2 in
        if c * 4 == 0 then write else bit_or write 4)
      ≡ a + 2 * b + 4 * c
mask_bits zero zero zero ha hb hc = refl
mask_bits (suc zero) zero zero ha hb hc = refl
mask_bits zero (suc zero) zero ha hb hc = refl
mask_bits (suc zero) (suc zero) zero ha hb hc = refl
mask_bits zero zero (suc zero) ha hb hc = refl
mask_bits (suc zero) zero (suc zero) ha hb hc = refl
mask_bits zero (suc zero) (suc zero) ha hb hc = refl
mask_bits (suc zero) (suc zero) (suc zero) ha hb hc = refl
mask_bits (suc (suc a)) b c ha hb hc = absurd (omega arith)
mask_bits zero (suc (suc b)) c ha hb hc = absurd (omega arith)
mask_bits (suc zero) (suc (suc b)) c ha hb hc = absurd (omega arith)
mask_bits zero zero (suc (suc c)) ha hb hc = absurd (omega arith)
mask_bits (suc zero) zero (suc (suc c)) ha hb hc = absurd (omega arith)
mask_bits zero (suc zero) (suc (suc c)) ha hb hc = absurd (omega arith)
mask_bits (suc zero) (suc zero) (suc (suc c)) ha hb hc = absurd (omega arith)

-- The mask of a protected file is the low three bits of the permissions.
mask_of_lem : (perms : ℕ) → mask_of perms ≡ perms % 8
unfolding mask_of
mask_of_lem perms =
    let r : bit_and perms 1 ≡ bit_at perms 0 * 1 = bit_and-pow perms 0 in
    let w : bit_and perms 2 ≡ bit_at perms 1 * 2 = bit_and-pow perms 1 in
    let x : bit_and perms 4 ≡ bit_at perms 2 * 4 = bit_and-pow perms 2 in
    rw r (
      rw w (
        rw x (
          mask_bits (bit_at perms 0) (bit_at perms 1) (bit_at perms 2) (bit_at_le_one perms 0)
            (bit_at_le_one perms 1) (bit_at_le_one perms 2)
          ∙ omega arith)))

no_mask : (bound w : ℕ) → w ≤ bound → bit_and 0 w ≡ 0
no_mask zero zero h = refl
no_mask zero (suc w) h = absurd (omega arith)
no_mask (suc bound) w h = elim (dec_lt 0 w) [
  | yes pos ↦ omega (arith, bit_and_step 0 w, no_mask bound (w / 2) (omega arith))
  | no none_left ↦ let e : w ≡ 0 = omega arith in rw e refl
]

-- Bits 6 and up of a mask below 64 are clear.
owner_bits : (mask access : ℕ) → mask < 8 → bit_and mask (access * 2 ^ 6) ≡ 0
owner_bits mask access small =
    let s : bit_and mask (2 ^ 6 * access) ≡ 2 ^ 6 * bit_and (mask / 2 ^ 6) access =
      bit_and-shift 6 mask access in
    let e : access * 2 ^ 6 ≡ 2 ^ 6 * access = omega arith in
    let d : mask / 2 ^ 6 ≡ 0 = omega arith in
    rw e (
      s
      ∙ ap (λ (n : ℕ). 2 ^ 6 * bit_and n access) d
      ∙ omega (arith, no_mask access access (omega arith)))

-- acl_protect_file while there is memory succeeds, and yet fs_check_permission then denies a user
-- other than root who owns the file every kind of access, whatever permissions were asked for,
-- while it grants a user of neither the owner's id nor its group exactly those permissions.
pub protect_file-check_permission :
    (address user_id group_id perms access own_gid uid gid : ℕ) (node : Fs.Node)
    → 0 < address
    → 0 < user_id
    → 0 < access
    → access < 8
    → 0 < uid
    → uid ≢ user_id
    → gid ≢ group_id
    → let (status, node') = protect_file true true address user_id group_id perms node in
      (status ≡ ok)
      × (Fs.check_permission node' access user_id own_gid ≡ false)
      × (Fs.check_permission node' access uid gid ≡ (bit_and (perms % 8) access == access))
unfolding protect_file make_resource add_entry Fs.check_permission
protect_file-check_permission address user_id group_id perms access own_gid uid gid node there owner
      some_access small pos u_ne g_ne =
    let t : (address == 0) ≡ false = ground (arith, there) in
    let o : (user_id == 0) ≡ false = ground (arith, owner) in
    let same : (user_id == user_id) ≡ true = ground arith in
    let m : mask_of perms ≡ perms % 8 = mask_of_lem perms in
    let shift : access * 2 ^ 6 % 2 ^ 32 ≡ access * 2 ^ 6 = omega arith in
    let none_set : (0 == access * 2 ^ 6) ≡ false = ground (arith, some_access) in
    let p : (uid == 0) ≡ false = ground (arith, pos) in
    let q : (user_id == uid) ≡ false = ground (arith, u_ne) in
    let r : (group_id == gid) ≡ false = ground (arith, g_ne) in
    rw t (
      refl,
      rw o (rw same (rw m (rw shift (rw (owner_bits (perms % 8) access (omega arith)) none_set)))),
      rw p (rw q (rw r (rw m refl))),
    )
