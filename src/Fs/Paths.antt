-- ===== src/Fs/Paths.antt =====
-- Paths of KluxOS/src/kernel/fs.c as lists of names, and the calls that never come back.
use klux_os.Fs.Tree.{FileSystem}
use mathlib.Core.List.{append-nil, append_assoc}
use klux_os.Fs.Calls.{enter, slash, before_last_slash, get_parent_dir, resolve_path, walk}
use klux_os.Base.{
  dec_lt, ltb, take-all, Option-cases, ◌+◌, ◌==◌, ◌≤◌, length, snoc-append, ◌≢◌, All, Option,
  reverse, ◌++◌, ◌<◌, ◌≡◌, List, ℕ, refl, arith, [], ◌∷◌, none, some, true, false, inl, inr, ◌∙◌,
  ap, sym, if◌then◌else◌,
}

-- A name that one component of a path holds.
abbrev pub IsName : List ℕ → Type 0
IsName name = (0 < length name) × (length name ≤ 127) × All (λ c. c ≢ slash) name

-- The path of the names, each after a slash.
abbrev pub join : List (List ℕ) → List ℕ
join [] = []
join (name ∷ names) = slash ∷ (name ++ join names)

-- The specification: the names are entered one after the other, and a null pointer ends it.
abbrev pub follow :
    (find : ℕ → List ℕ → Option ℕ) → List (List ℕ) → (current : ℕ) → FileSystem → Option ℕ
follow find [] current fs = some current
follow find (name ∷ names) current fs = elim (enter find name current fs) [
  | none ↦ none
  | some next ↦ let rest = follow find names next fs in if next == 0 then some 0 else rest
]

-- A name in front of the reversed part of one.
abbrev rev_onto : List ℕ → List ℕ → List ℕ
rev_onto [] component = component
rev_onto (c ∷ name) component = rev_onto name (c ∷ component)

reverse-rev_onto :
    (name component : List ℕ) → reverse (rev_onto name component) ≡ reverse component ++ name
reverse-rev_onto [] component = sym (append-nil (reverse component))
reverse-rev_onto (c ∷ name) component =
    reverse-rev_onto name (c ∷ component) ∙ snoc-append (reverse component) name c

rev_onto-cons :
    (name component : List ℕ) (c : ℕ)
    → (d : ℕ) × (rest : List ℕ) × (rev_onto name (c ∷ component) ≡ d ∷ rest)
rev_onto-cons [] component c = (c, component, refl)
rev_onto-cons (e ∷ name) component c = rev_onto-cons name (c ∷ component) e

walk-name :
    (find : ℕ → List ℕ → Option ℕ) (name rest component : List ℕ) (current : ℕ) (fs : FileSystem)
    → All (λ c. c ≢ slash) name
    → length component + length name ≤ 127
    → walk find component (name ++ rest) current fs
      ≡ walk find (rev_onto name component) rest current fs
unfolding walk
walk-name find [] rest component current fs plain fits = refl
walk-name find (c ∷ name) rest [] current fs plain fits =
    let off : (c == slash) ≡ false = ground (arith, plain.0) in
    rw off (walk-name find name rest (c ∷ []) current fs plain.1 (omega arith))
walk-name find (c ∷ name) rest (d ∷ component) current fs plain fits =
    let off : (c == slash) ≡ false = ground (arith, plain.0) in
    let room : ltb (length (d ∷ component)) 127 ≡ true = ground (arith, fits) in
    rw off (rw room (walk-name find name rest (c ∷ d ∷ component) current fs plain.1 (omega arith)))

-- Once a whole name is read, at the end of the path or at the next slash.
walk-ended :
    (find : ℕ → List ℕ → Option ℕ) (names : List (List ℕ)) (d : ℕ) (component : List ℕ)
    (current : ℕ) (fs : FileSystem)
    → ((next : ℕ) → walk find [] (join names) next fs ≡ follow find names next fs)
    → walk find (d ∷ component) (join names) current fs
      ≡ follow find (reverse (d ∷ component) ∷ names) current fs
unfolding walk
walk-ended find [] d component current fs ih =
    elim (Option-cases (enter find (reverse (d ∷ component)) current fs)) [
      | inl e ↦ rw (e, follow) refl
      | inr (next, e) ↦ elim (dec_lt 0 next) [
        | yes pos ↦
            let off : (next == 0) ≡ false = ground (arith, pos) in rw (e, follow) (rw off refl)
        | no null ↦ let z : next ≡ 0 = omega arith in rw (e, follow) (rw z refl)
      ]
    ]
walk-ended find (name ∷ names) d component current fs ih =
    elim (Option-cases (enter find (reverse (d ∷ component)) current fs)) [
      | inl e ↦ rw (e, follow) refl
      | inr (next, e) ↦
          let step = ih next in rw (e, follow) (ap (λ r. if next == 0 then some 0 else r) step)
    ]

walk-join :
    (find : ℕ → List ℕ → Option ℕ) (names : List (List ℕ)) (current : ℕ) (fs : FileSystem)
    → All IsName names
    → walk find [] (join names) current fs ≡ follow find names current fs
unfolding walk
walk-join find [] current fs ok = refl
walk-join find ([] ∷ names) current fs ok = absurd (omega (arith, ok.0.0))
walk-join find ((c ∷ name) ∷ names) current fs ok =
    let (d, rest, e) = rev_onto-cons name [] c in
    let whole : reverse (d ∷ rest) ≡ c ∷ name =
      ap reverse (sym e) ∙ reverse-rev_onto (c ∷ name) [] in
    walk-name find (c ∷ name) (join names) [] current fs ok.0.2 (omega (arith, ok.0.1))
    ∙ ap (λ component. walk find component (join names) current fs) e
    ∙ walk-ended find names d rest current fs (λ next. walk-join find names next fs ok.1)
    ∙ ap (λ n. follow find (n ∷ names) current fs) whole

-- Where a path of names, each after a slash, leads to: its names are entered one after the other
-- from the root, whatever `fs_finddir` answers. No name is longer than a component's 127 places.
pub resolve_path-join :
    (find : ℕ → List ℕ → Option ℕ) (names : List (List ℕ)) (fs : FileSystem)
    → 0 < fs.fs_root
    → All IsName names
    → resolve_path find (join names) fs ≡ follow find names fs.fs_root fs
unfolding resolve_path walk
resolve_path-join find [] fs root ok = refl
resolve_path-join find (name ∷ names) fs root ok =
    let on : (fs.fs_root == 0) ≡ false = ground (arith, root) in
    rw on (walk-join find (name ∷ names) fs.fs_root fs ok)

no_slash : (name : List ℕ) → All (λ c. c ≢ slash) name → before_last_slash name ≡ none
unfolding before_last_slash
no_slash [] plain = refl
no_slash (c ∷ name) plain =
    let off : (c == slash) ≡ false = ground (arith, plain.0) in
    rw (no_slash name plain.1) (rw off refl)

pub before_last_slash-behind :
    (front name : List ℕ)
    → All (λ c. c ≢ slash) name
    → before_last_slash (front ++ slash ∷ name) ≡ some front
unfolding before_last_slash
before_last_slash-behind [] name plain = rw (no_slash name plain) refl
before_last_slash-behind (c ∷ front) name plain =
    rw (before_last_slash-behind front name plain) refl

join-snoc :
    (names : List (List ℕ)) (name : List ℕ) → join (names ++ name ∷ []) ≡ join names ++ slash ∷ name
join-snoc [] name = ap (λ t. slash ∷ t) (append-nil name)
join-snoc (first ∷ names) name =
    ap (λ t. slash ∷ (first ++ t)) (join-snoc names name)
    ∙ ap (λ t. slash ∷ t) (sym (append_assoc first (join names) (slash ∷ name)))

-- The directory of a path of names is where the names before the last one lead to, if they take
-- no more than 255 characters.
pub get_parent_dir-join :
    (find : ℕ → List ℕ → Option ℕ) (names : List (List ℕ)) (name : List ℕ) (fs : FileSystem)
    → 0 < fs.fs_root
    → All IsName names
    → All (λ c. c ≢ slash) name
    → length (join names) ≤ 255
    → get_parent_dir find (join (names ++ name ∷ [])) fs ≡ follow find names fs.fs_root fs
unfolding get_parent_dir
get_parent_dir-join find [] name fs root ok plain fits =
    let on : (fs.fs_root == 0) ≡ false = ground (arith, root) in
    let front = ap before_last_slash (join-snoc [] name) ∙ before_last_slash-behind [] name plain in
    rw on (rw front refl)
get_parent_dir-join find (first ∷ names) name fs root ok plain fits =
    let on : (fs.fs_root == 0) ≡ false = ground (arith, root) in
    let path = join (first ∷ names) in
    let front =
      ap before_last_slash (join-snoc (first ∷ names) name)
      ∙ before_last_slash-behind path name plain in
    let all = take-all path 255 fits in
    rw on (
      rw front
        (ap (λ p. resolve_path find p fs) all ∙ resolve_path-join find (first ∷ names) fs root ok))
