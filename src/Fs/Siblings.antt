-- ===== src/Fs/Siblings.antt =====
-- The children of a directory of KluxOS/src/kernel/fs.c as a list: the addresses that `children`
-- and then each `next` lead to.
use mathlib.Core.Path.{subst}
use klux_os.Fs.Tree.{cleared, put_node, node_at, TreeNode}
use klux_os.Base.{
  length-append, ◌-◌, get_or-set_ne, get_or-set_self, length-set, ℕ_discrete, All, ◌≢◌, ◌≤◌, length,
  ◌++◌, ◌<◌, ◌≡◌, ℕ, List, suc, refl, arith, [], ◌∷◌, ◌∙◌, ap, sym,
}

-- From the address `a` on, the nodes of the list follow one another, and then comes a null pointer.
abbrev pub IsChain : List TreeNode → ℕ → List ℕ → Type 0
IsChain nodes a [] = a ≡ 0
IsChain nodes a (x ∷ l) =
    (a ≡ x) × (0 < x) × (x ≤ length nodes) × IsChain nodes (node_at nodes x).next l

pub node_at-put_self :
    (nodes : List TreeNode) (b : ℕ) (n : TreeNode)
    → 0 < b
    → b ≤ length nodes
    → node_at (put_node nodes b n) b ≡ n
node_at-put_self nodes b n pos fits = get_or-set_self nodes (b - 1) n cleared (omega arith)

pub node_at-put_ne :
    (nodes : List TreeNode) (b x : ℕ) (n : TreeNode)
    → 0 < b
    → 0 < x
    → x ≢ b
    → node_at (put_node nodes b n) x ≡ node_at nodes x
node_at-put_ne nodes b x n pos px ne =
    get_or-set_ne nodes (b - 1) (x - 1) n cleared (λ p. ne (omega (arith, p)))

-- A store that keeps a field of the node keeps it for every node.
pub field-put_node {ℓ} :
    {A : Type ℓ} (field : TreeNode → A) (nodes : List TreeNode) (b x : ℕ) (n : TreeNode)
    → 0 < b
    → b ≤ length nodes
    → 0 < x
    → field n ≡ field (node_at nodes b)
    → field (node_at (put_node nodes b n) x) ≡ field (node_at nodes x)
field-put_node field nodes b x n pos fits px same = elim (ℕ_discrete x b) [
  | yes p ↦ rw p (ap field (node_at-put_self nodes b n pos fits) ∙ same)
  | no ne ↦ ap field (node_at-put_ne nodes b x n pos px ne)
]

pub IsChain-put_next :
    (nodes : List TreeNode) (b : ℕ) (n : TreeNode) (a : ℕ) (l : List ℕ)
    → 0 < b
    → b ≤ length nodes
    → n.next ≡ (node_at nodes b).next
    → IsChain nodes a l
    → IsChain (put_node nodes b n) a l
IsChain-put_next nodes b n a [] pos fits same chain = chain
IsChain-put_next nodes b n a (x ∷ l) pos fits same chain =
    let kept = field-put_node (λ m. m.next) nodes b x n pos fits chain.1 same in
    (
      chain.0,
      chain.1,
      omega (arith, chain.2, length-set nodes (b - 1) n),
      rw kept (IsChain-put_next nodes b n (node_at nodes x).next l pos fits same chain.3),
    )

pub IsChain-put_ne :
    (nodes : List TreeNode) (b : ℕ) (n : TreeNode) (a : ℕ) (l : List ℕ)
    → 0 < b
    → All (λ x. x ≢ b) l
    → IsChain nodes a l
    → IsChain (put_node nodes b n) a l
IsChain-put_ne nodes b n a [] pos out chain = chain
IsChain-put_ne nodes b n a (x ∷ l) pos out chain =
    let kept = ap (λ m. m.next) (node_at-put_ne nodes b x n pos chain.1 out.0) in
    (
      chain.0,
      chain.1,
      omega (arith, chain.2, length-set nodes (b - 1) n),
      rw kept (IsChain-put_ne nodes b n (node_at nodes x).next l pos out.1 chain.3),
    )

-- An address leads to one list only.
pub IsChain-length :
    (nodes : List TreeNode) (a : ℕ) (l m : List ℕ)
    → IsChain nodes a l
    → IsChain nodes a m
    → length l ≡ length m
IsChain-length nodes a [] [] p q = refl
IsChain-length nodes a [] (y ∷ m) p q = absurd (omega (arith, p, q.0, q.1))
IsChain-length nodes a (x ∷ l) [] p q = absurd (omega (arith, q, p.0, p.1))
IsChain-length nodes a (x ∷ l) (y ∷ m) p q =
    let e : x ≡ y = sym p.0 ∙ q.0 in
    let back : IsChain nodes (node_at nodes x).next m =
      subst (λ z. IsChain nodes (node_at nodes z).next m) (sym e) q.3 in
    ap suc (IsChain-length nodes (node_at nodes x).next l m p.3 back)

-- A node whose list is longer does not come in this one.
pub not_in_shorter :
    (nodes : List TreeNode) (x : ℕ) (full : List ℕ) (a : ℕ) (l : List ℕ)
    → IsChain nodes x full
    → IsChain nodes a l
    → length l < length full
    → All (λ y. y ≢ x) l
not_in_shorter nodes x full a [] whole chain less = tt
not_in_shorter nodes x full a (y ∷ l) whole chain less = (
  λ p.
      let from_y : IsChain nodes y (y ∷ l) = (refl, chain.1, chain.2, chain.3) in
      let from_x : IsChain nodes x (y ∷ l) = subst (λ z. IsChain nodes z (y ∷ l)) p from_y in
      omega (arith, less, IsChain-length nodes x (y ∷ l) full from_x whole),
  not_in_shorter nodes x full (node_at nodes y).next l whole chain.3 (omega arith),
)

-- What follows from a node in the list.
pub IsChain-behind :
    (nodes : List TreeNode) (x a : ℕ) (front behind : List ℕ)
    → IsChain nodes a (front ++ x ∷ behind)
    → IsChain nodes x (x ∷ behind)
IsChain-behind nodes x a [] behind chain = (refl, chain.1, chain.2, chain.3)
IsChain-behind nodes x a (y ∷ front) behind chain =
    IsChain-behind nodes x (node_at nodes y).next front behind chain.3

-- The nodes before a node are other nodes.
pub not_in_front :
    (nodes : List TreeNode) (x a : ℕ) (front behind : List ℕ)
    → IsChain nodes a (front ++ x ∷ behind)
    → All (λ y. y ≢ x) front
not_in_front nodes x a [] behind chain = tt
not_in_front nodes x a (y ∷ front) behind chain =
    let from_x = IsChain-behind nodes x (node_at nodes y).next front behind chain.3 in
    (
      λ p.
          let from_y : IsChain nodes y (y ∷ (front ++ x ∷ behind)) =
            (refl, chain.1, chain.2, chain.3) in
          let both : IsChain nodes x (y ∷ (front ++ x ∷ behind)) =
            subst (λ z. IsChain nodes z (y ∷ (front ++ x ∷ behind))) p from_y in
          omega (
            arith,
            IsChain-length nodes x (y ∷ (front ++ x ∷ behind)) (x ∷ behind) both from_x,
            length-append front (x ∷ behind),
          ),
      not_in_front nodes x (node_at nodes y).next front behind chain.3,
    )
