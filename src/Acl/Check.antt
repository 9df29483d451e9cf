-- ===== src/Acl/Check.antt =====
-- acl_check_permission of KluxOS/src/security/acl.c after the list changes.
use klux_os.Acl.Entries.{remove_entry_lem, is_for, remove_first}
use klux_os.Acl.{
  find_entry, entries, grants, user_root, Entry, remove_entry, List, Resource, add_entry,
  check_from, check_permission, ℕ, failed,
}
use klux_os.Base.{
  Option-cases, Bool-cases, ◌||◌, ◌++◌, ◌==◌, ◌≡◌, refl, [], ◌∷◌, none, some, true, false, inl, inr,
  ◌∙◌, ap, sym,
}

check_from-append :
    (list : List Entry) (e : Entry) (user_id group_id perm : ℕ)
    → check_from (list ++ e ∷ []) user_id group_id perm
      ≡ check_from list user_id group_id perm || grants e user_id group_id perm
unfolding check_from
check_from-append [] e user_id group_id perm = elim (Bool-cases (grants e user_id group_id perm)) [
  | inl yes_it ↦ rw yes_it refl
  | inr no_it ↦ rw no_it refl
]
check_from-append (x ∷ list) e user_id group_id perm =
    elim (Bool-cases (grants x user_id group_id perm)) [
      | inl yes_it ↦ rw yes_it refl
      | inr no_it ↦ rw no_it (check_from-append list e user_id group_id perm)
    ]

check_from-remove_first :
    (list : List Entry) (u g user_id group_id perm : ℕ)
    → check_from (remove_first u g list) user_id group_id perm ≡ true
    → check_from list user_id group_id perm ≡ true
unfolding check_from
check_from-remove_first [] u g user_id group_id perm h = h
check_from-remove_first (x ∷ list) u g user_id group_id perm h =
    elim (Bool-cases (grants x user_id group_id perm)) [
      | inl yes_it ↦ rw yes_it refl
      | inr no_it ↦ elim (Bool-cases (is_for u g x)) [
        | inl here ↦ rw no_it (rw here at h)
        | inr away ↦
            rw no_it
              (check_from-remove_first list u g user_id group_id perm (rw no_it at (rw away at h)))
      ]
    ]

-- What acl_check_permission answers once acl_add_entry has added an entry: yes to root, to whom the
-- old entries grant the permission, and to whom the new entry grants it, and to nobody else.
pub check_permission-add_entry :
    (u g perms user_id group_id perm : ℕ) (r : Resource)
    → check_permission user_id group_id perm (add_entry true u g perms r).1
      ≡ (user_id == user_root)
        || check_from (entries r) user_id group_id perm
        || grants (record { user_id = u; group_id = g; permissions = perms }) user_id group_id perm
unfolding check_permission add_entry
check_permission-add_entry u g perms user_id group_id perm r =
    let a =
      check_from-append (entries r) (record { user_id = u; group_id = g; permissions = perms })
        user_id group_id perm in
    elim (Bool-cases (user_id == user_root)) [ inl root ↦ rw root refl | inr other ↦ rw other a ]

-- To all but root the entries decide.
check_permission-entries :
    (user_id group_id perm : ℕ) (r : Resource)
    → (user_id == user_root) ≡ false
    → check_permission user_id group_id perm r ≡ check_from (entries r) user_id group_id perm
unfolding check_permission check_from
check_permission-entries user_id group_id perm r other = elim (Option-cases r.acl) [
  | inl null ↦ rw null refl
  | inr (list, e) ↦ rw e (rw other refl)
]

remove_entry-null : (u g : ℕ) (r : Resource) → r.acl ≡ none → (remove_entry true u g r).1 ≡ r
unfolding remove_entry find_entry
remove_entry-null u g r null =
    let e : entries r ≡ [] = rw null refl in
    let m : find_entry (entries r) u g 0 ≡ none = ap (λ l. find_entry l u g 0) e in
    let f : remove_entry true u g r ≡ (failed, r) = rw (remove_entry, m) refl in ap (λ p. p.1) f

root_allowed :
    (user_id group_id perm : ℕ) (r : Resource) (list : List Entry)
    → (user_id == user_root) ≡ true
    → r.acl ≡ some list
    → check_permission user_id group_id perm r ≡ true
unfolding check_permission
root_allowed user_id group_id perm r list root e = rw e (rw root refl)

-- acl_remove_entry gives nobody a permission that the list did not give before.
pub check_permission-remove_entry :
    (u g user_id group_id perm : ℕ) (r : Resource)
    → check_permission user_id group_id perm (remove_entry true u g r).1 ≡ true
    → check_permission user_id group_id perm r ≡ true
check_permission-remove_entry u g user_id group_id perm r h = elim (Option-cases r.acl) [
  | inl null ↦ ap (check_permission user_id group_id perm) (sym (remove_entry-null u g r null)) ∙ h
  | inr (list, e) ↦ elim (Bool-cases (user_id == user_root)) [
    | inl root ↦ root_allowed user_id group_id perm r list root e
    | inr other ↦
        let r' = (remove_entry true u g r).1 in
        let left : entries r' ≡ remove_first u g (entries r) = (remove_entry_lem u g r).0 in
        check_permission-entries user_id group_id perm r other
        ∙ check_from-remove_first (entries r) u g user_id group_id perm (
            ap (λ l. check_from l user_id group_id perm) (sym left)
            ∙ sym (check_permission-entries user_id group_id perm r' other)
            ∙ h)
  ]
]
