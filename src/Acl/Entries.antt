-- ===== src/Acl/Entries.antt =====
-- The entries of a list in KluxOS/src/security/acl.c under acl_add_entry and acl_remove_entry.
use klux_os.Acl.{
  add_entry, Bool, entries, length, Entry, Resource, List, copy_but, find_entry, remove_entry, ℕ,
  ok, failed,
}
use klux_os.Base.{
  ℕ_discrete, ◌++◌, Bool-cases, ◌&&◌, ◌+◌, ◌≤◌, ◌==◌, ◌||◌, ◌⊎◌, ◌<◌, ◌≡◌, refl, arith, [], ◌∷◌,
  none, some, true, false, inl, inr, ◌∙◌, ap, sym, if◌then◌else◌,
}

abbrev pub is_for : (user_id group_id : ℕ) → Entry → Bool
is_for user_id group_id e = (e.user_id == user_id) && (e.group_id == group_id)

abbrev pub has_entry : (user_id group_id : ℕ) → List Entry → Bool
has_entry user_id group_id [] = false
has_entry user_id group_id (e ∷ rest) = is_for user_id group_id e || has_entry user_id group_id rest

-- The list without its first entry for the two ids.
abbrev pub remove_first : (user_id group_id : ℕ) → List Entry → List Entry
remove_first user_id group_id [] = []
remove_first user_id group_id (e ∷ rest) =
    if is_for user_id group_id e then rest else e ∷ remove_first user_id group_id rest

copy_but-past : (list : List Entry) (found i : ℕ) → found < i → copy_but list found i ≡ list
unfolding copy_but
copy_but-past [] found i lt = refl
copy_but-past (e ∷ rest) found i lt =
    let t : (i == found) ≡ false = ground (arith, lt) in
    rw t (ap (λ l. e ∷ l) (copy_but-past rest found (i + 1) (omega arith)))

-- What the search finds, and what the copy at that place is.
find_entry_lem :
    (list : List Entry) (user_id group_id i : ℕ)
    → (find_entry list user_id group_id i ≡ none) × (has_entry user_id group_id list ≡ false)
      ⊎ ((found : ℕ) × (find_entry list user_id group_id i ≡ some found)
          × (has_entry user_id group_id list ≡ true)
          × (i ≤ found)
          × (copy_but list found i ≡ remove_first user_id group_id list))
unfolding find_entry copy_but
find_entry_lem [] user_id group_id i = inl (refl, refl)
find_entry_lem (e ∷ rest) user_id group_id i = elim (Bool-cases (is_for user_id group_id e)) [
  | inl here ↦
      let t : (i == i) ≡ true = ground arith in
      inr (
        i,
        rw here refl,
        rw here refl,
        omega arith,
        rw here (rw t (copy_but-past rest i (i + 1) (omega arith))),
      )
  | inr away ↦ elim (find_entry_lem rest user_id group_id (i + 1)) [
    | inl (n, h) ↦ inl (rw away n, rw away h)
    | inr (found, f, h, le, c) ↦
        let t : (i == found) ≡ false = ground (arith, le) in
        inr (found, rw away f, rw away h, omega arith, rw away (rw t (ap (λ l. e ∷ l) c)))
  ]
]

remove_only :
    (list : List Entry) (user_id group_id : ℕ)
    → length list ≡ 1
    → has_entry user_id group_id list ≡ true
    → remove_first user_id group_id list ≡ []
remove_only [] user_id group_id one has = absurd (omega arith)
remove_only (e ∷ []) user_id group_id one has = elim (Bool-cases (is_for user_id group_id e)) [
  | inl here ↦ rw here refl
  | inr away ↦ let no_such : false ≡ true = rw away at has in ground (arith, no_such)
]
remove_only (e ∷ f ∷ rest) user_id group_id one has = absurd (omega arith)

remove_absent :
    (list : List Entry) (user_id group_id : ℕ)
    → has_entry user_id group_id list ≡ false
    → remove_first user_id group_id list ≡ list
remove_absent [] user_id group_id h = refl
remove_absent (e ∷ rest) user_id group_id h = elim (Bool-cases (is_for user_id group_id e)) [
  | inl here ↦ let no_such : true ≡ false = rw here at h in ground (arith, no_such)
  | inr away ↦ rw away (ap (λ l. e ∷ l) (remove_absent rest user_id group_id (rw away at h)))
]

-- The entry behind a list with no such entry is the one that is found.
remove_last :
    (list : List Entry) (e : Entry) (user_id group_id : ℕ)
    → has_entry user_id group_id list ≡ false
    → is_for user_id group_id e ≡ true
    → (has_entry user_id group_id (list ++ e ∷ []) ≡ true)
      × (remove_first user_id group_id (list ++ e ∷ []) ≡ list)
remove_last [] e user_id group_id h here = rw here (refl, refl)
remove_last (x ∷ rest) e user_id group_id h here = elim (Bool-cases (is_for user_id group_id x)) [
  | inl taken ↦ let no_such : true ≡ false = rw taken at h in ground (arith, no_such)
  | inr away ↦
      let (has, left) = remove_last rest e user_id group_id (rw away at h) here in
      rw away (has, ap (λ l. x ∷ l) left)
]

-- acl_remove_entry while there is memory: it succeeds exactly when the list has an entry for the
-- user and the group, and what is left is the list without the first such entry.
pub remove_entry_lem :
    (user_id group_id : ℕ) (r : Resource)
    → let (status, r') = remove_entry true user_id group_id r in
      (entries r' ≡ remove_first user_id group_id (entries r))
      × (status ≡ (if has_entry user_id group_id (entries r) then ok else failed))
unfolding remove_entry
remove_entry_lem user_id group_id r = elim (find_entry_lem (entries r) user_id group_id 0) [
  | inl (missing, h) ↦
      let e : remove_entry true user_id group_id r ≡ (failed, r) =
        rw (remove_entry, missing) refl in
      (
        ap (λ p. entries p.1) e ∙ sym (remove_absent (entries r) user_id group_id h),
        ap (λ p. p.0) e ∙ ap (λ b. if b then ok else failed) (sym h),
      )
  | inr (found, at, h, le, c) ↦ elim (ℕ_discrete (length (entries r)) 1) [
    | yes one ↦
        let t : (length (entries r) == 1) ≡ true = ground (arith, one) in
        let e : remove_entry true user_id group_id r ≡ (ok, record r { acl = none }) =
          rw (remove_entry, at) (rw t refl) in
        (
          ap (λ p. entries p.1) e ∙ sym (remove_only (entries r) user_id group_id one h),
          ap (λ p. p.0) e ∙ ap (λ b. if b then ok else failed) (sym h),
        )
    | no more ↦
        let t : (length (entries r) == 1) ≡ false = ground (arith, more) in
        let e : remove_entry true user_id group_id r
            ≡ (ok, record r { acl = some (copy_but (entries r) found 0) }) =
          rw (remove_entry, at) (rw t refl) in
        (ap (λ p. entries p.1) e ∙ c, ap (λ p. p.0) e ∙ ap (λ b. if b then ok else failed) (sym h))
  ]
]

pub entries-add_entry :
    (user_id group_id perms : ℕ) (r : Resource)
    → entries (add_entry true user_id group_id perms r).1
      ≡ entries r ++ record { user_id = user_id; group_id = group_id; permissions = perms } ∷ []
unfolding add_entry
entries-add_entry user_id group_id perms r = refl

-- Adding an entry for a user and a group that have none, and removing it, gives the old entries
-- back.
pub remove_entry-add_entry :
    (user_id group_id perms : ℕ) (r : Resource)
    → has_entry user_id group_id (entries r) ≡ false
    → let r' = (add_entry true user_id group_id perms r).1 in
      (remove_entry true user_id group_id r').0 ≡ ok
      × (entries (remove_entry true user_id group_id r').1 ≡ entries r)
remove_entry-add_entry user_id group_id perms r absent =
    let e : Entry = record { user_id = user_id; group_id = group_id; permissions = perms } in
    let r' = (add_entry true user_id group_id perms r).1 in
    let (has, left) = remove_last (entries r) e user_id group_id absent (ground arith) in
    let (rest, status) = remove_entry_lem user_id group_id r' in
    let in_r' : entries r' ≡ entries r ++ e ∷ [] = entries-add_entry user_id group_id perms r in
    let p : (remove_entry true user_id group_id r').0 ≡ ok =
      status
      ∙ ap (λ l. if has_entry user_id group_id l then ok else failed) in_r'
      ∙ ap (λ b. if b then ok else failed) has in
    (p, rest ∙ ap (remove_first user_id group_id) in_r' ∙ left)
