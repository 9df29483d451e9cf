-- ===== src/Syscall/Descriptors.antt =====
-- The table of descriptors of KluxOS/src/kernel/syscall.c.
use klux_os.Syscall.Open.{find_free_fd, free_from}
use klux_os.Syscall.{closed, max_fd, FdEntry}
use mathlib.Core.Path.{subst}
use klux_os.Base.{
  get_or-drop, take, get_or, length-drop, drop, ◌-◌, ◌≤◌, All, Bool-cases, ◌+◌, ◌<◌, Option, length,
  ℕ, ◌≡◌, List, suc, arith, [], ◌∷◌, none, some, true, false, inl, inr, ◌∙◌, ap, sym, if◌then◌else◌,
}

abbrev pub IsUsed : FdEntry → Type 0
IsUsed entry = entry.used ≡ true

-- The specification of a search: the first entry from descriptor 3 on that is not used.
abbrev pub IsLowestFree : List FdEntry → Option ℕ → Type 0
IsLowestFree table none = All IsUsed (drop 3 table)
IsLowestFree table (some fd) =
    (3 ≤ fd)
    × (fd < max_fd)
    × ((get_or table fd closed).used ≡ false)
    × All IsUsed (take (fd - 3) (drop 3 table))

abbrev IsFirstFree : List FdEntry → ℕ → Option ℕ → Type 0
IsFirstFree entries i none = All IsUsed entries
IsFirstFree entries i (some fd) =
    (i ≤ fd)
    × (fd < i + length entries)
    × ((get_or entries (fd - i) closed).used ≡ false)
    × All IsUsed (take (fd - i) entries)

later_free :
    (entry : FdEntry) (rest : List FdEntry) (i : ℕ) (r : Option ℕ)
    → IsUsed entry
    → IsFirstFree rest (i + 1) r
    → IsFirstFree (entry ∷ rest) i r
later_free entry rest i none used h = (used, h)
later_free entry rest i (some fd) used h =
    let e : fd - i ≡ suc (fd - (i + 1)) = omega (arith, h.0) in
    (omega (arith, h.0), omega (arith, h.1), rw e h.2, rw e (used, h.3))

free_from-IsFirstFree :
    (entries : List FdEntry) (i : ℕ) → IsFirstFree entries i (free_from entries i)
unfolding free_from
free_from-IsFirstFree [] i = tt
free_from-IsFirstFree (entry ∷ rest) i = elim (Bool-cases entry.used) [
  | inl used ↦
      let e : free_from (entry ∷ rest) i ≡ free_from rest (i + 1) =
        ap (λ b. if b then free_from rest (i + 1) else some i) used in
      subst (IsFirstFree (entry ∷ rest) i) (sym e)
        (later_free entry rest i (free_from rest (i + 1)) used (free_from-IsFirstFree rest (i + 1)))
  | inr free ↦
      let z : i - i ≡ 0 = omega arith in
      let e : free_from (entry ∷ rest) i ≡ some i =
        ap (λ b. if b then free_from rest (i + 1) else some i) free in
      subst (IsFirstFree (entry ∷ rest) i) (sym e) (
        omega arith,
        omega arith,
        ap (λ k. (get_or (entry ∷ rest) k closed).used) {y = 0} z ∙ free,
        subst (λ k. All IsUsed (take k (entry ∷ rest))) (sym z) tt,
      )
]

lowest :
    (table : List FdEntry) (r : Option ℕ)
    → length table ≡ max_fd
    → IsFirstFree (drop 3 table) 3 r
    → IsLowestFree table r
lowest table none full h = h
lowest table (some fd) full h =
    let back : fd - 3 + 3 ≡ fd = omega (arith, h.0) in
    (
      h.0,
      omega (arith, h.1, full, length-drop 3 table),
      ap (λ (e : FdEntry). e.used)
            (sym (get_or-drop table 3 (fd - 3) closed ∙ ap (λ k. get_or table k closed) back))
          ∙ h.2,
      h.3,
    )

-- The search gives the lowest free descriptor that is not one of the three for standard streams,
-- and none only when all the others are used.
pub find_free_fd-IsLowestFree :
    (table : List FdEntry) → length table ≡ max_fd → IsLowestFree table (find_free_fd table)
unfolding find_free_fd
find_free_fd-IsLowestFree table full =
    lowest table (free_from (drop 3 table) 3) full (free_from-IsFirstFree (drop 3 table) 3)
