-- ===== src/Shell/Strings.antt =====
-- The comparison of strings of KluxOS/src/shell/shell.c, and the search in its table.
use klux_os.Shell.{same_string, copy_from, str_compare}
use klux_os.Base.{
  ==_iff, take, ℕ_discrete, ◌<◌, ◌==◌, ◌↔◌, All, ◌≡◌, ℕ, List, zero, suc, refl, arith, [], ◌∷◌,
  true, false, ◌∙◌, ap, ap₂, sym,
}

-- The bytes of a string, none of which is 0.
abbrev pub IsString : List ℕ → Type 0
IsString s = All (λ c. 0 < c) s

same_string-eq : (s1 s2 : List ℕ) → IsString s1 → IsString s2 → same_string s1 s2 ≡ true → s1 ≡ s2
unfolding str_compare
same_string-eq [] [] h1 h2 same = refl
same_string-eq [] (d ∷ s2) h1 h2 same = absurd (ground (arith, same, h2.0))
same_string-eq (c ∷ s1) [] h1 h2 same = absurd (ground (arith, same, h1.0))
same_string-eq (c ∷ s1) (d ∷ s2) h1 h2 same = elim (ℕ_discrete c d) [
  | yes p ↦
      let t : (c == d) ≡ true = ground (arith, p) in
      let rest : same_string s1 s2 ≡ true = rw t at same in
      ap₂ ◌∷◌ p (same_string-eq s1 s2 h1.1 h2.1 rest)
  | no ne ↦
      let f : (c == d) ≡ false = ground (arith, ne) in absurd (ne ((==_iff c d).0 (rw f at same)))
]

pub same_string_self : (s : List ℕ) → same_string s s ≡ true
unfolding str_compare
same_string_self [] = refl
same_string_self (c ∷ s) = let t : (c == c) ≡ true = ground arith in rw t (same_string_self s)

-- The comparison returns 0 for equal strings and for no others.
pub same_string_iff :
    (s1 s2 : List ℕ) → IsString s1 → IsString s2 → (same_string s1 s2 ≡ true) ↔ (s1 ≡ s2)
same_string_iff s1 s2 h1 h2 =
    (same_string-eq s1 s2 h1 h2, λ p. ap (same_string s1) (sym p) ∙ same_string_self s1)

pub copy_from-take : (src : List ℕ) (left : ℕ) → copy_from src left ≡ take left src
unfolding copy_from
copy_from-take [] zero = refl
copy_from-take [] (suc left) = refl
copy_from-take (c ∷ src) zero = refl
copy_from-take (c ∷ src) (suc left) = ap (λ t. c ∷ t) (copy_from-take src left)
