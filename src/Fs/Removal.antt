-- ===== src/Fs/Removal.antt =====
-- `fs_remove_node` of KluxOS/src/kernel/fs.c against lists of addresses.
use klux_os.Fs.Children.{relink}
use klux_os.Fs.Siblings.{
  IsChain-put_next, IsChain-length, IsChain-put_ne, not_in_shorter, IsChain-behind,
  node_at-put_self, not_in_front, field-put_node, IsChain,
}
use klux_os.Fs.Tree.{
  is_directory, put_node, node_at, FileSystem, TreeNode, before, detach, remove_node,
}
use mathlib.Core.Path.{subst}
use klux_os.Base.{
  All-last, ◌-◌, length-set, snoc-cases, All-append, snoc-append, Bool-cases, length-append, ◌||◌,
  Bool, length, ◌==◌, ◌≢◌, All, Option, ◌++◌, ◌≤◌, ◌<◌, ◌≡◌, List, ℕ, zero, suc, refl, arith, [],
  ◌∷◌, some, true, false, inl, inr, ◌∙◌, ap, sym,
}

before-chain :
    (turns : ℕ) (nodes : List TreeNode) (x a z : ℕ) (front behind : List ℕ)
    → IsChain nodes a (front ++ z ∷ x ∷ behind)
    → length front < turns
    → before turns nodes x a ≡ some z
unfolding before
before-chain zero nodes x a z front behind chain fits = absurd (omega arith)
before-chain (suc turns) nodes x a z [] behind chain fits =
    let found : ((a == 0) || ((node_at nodes a).next == x)) ≡ true =
      rw chain.0 (rw chain.3.0 (ground arith)) in
    rw found (ap some chain.0)
before-chain (suc turns) nodes x a z (y ∷ front) behind chain fits =
    let next = (node_at nodes y).next in
    let from_x : IsChain nodes x (x ∷ behind) =
      IsChain-behind nodes x next (front ++ z ∷ []) behind
        (subst (IsChain nodes next) (sym (snoc-append front (x ∷ behind) z)) chain.3) in
    let ne : next ≢ x = λ p.
      let both = subst (λ b. IsChain nodes b (front ++ z ∷ x ∷ behind)) p chain.3 in
      omega (
        arith,
        IsChain-length nodes x (front ++ z ∷ x ∷ behind) (x ∷ behind) both from_x,
        length-append front (z ∷ x ∷ behind),
      ) in
    let on : ((y == 0) || (next == x)) ≡ false = ground (arith, ne, chain.1) in
    let off : ((a == 0) || ((node_at nodes a).next == x)) ≡ false =
      subst (λ b. ((b == 0) || ((node_at nodes b).next == x)) ≡ false) (sym chain.0) on in
    rw off (
      ap (λ b. before turns nodes x (node_at nodes b).next) chain.0
      ∙ before-chain turns nodes x next z front behind chain.3 (omega arith))

-- An address that does not lead to a node of the list.
not_next :
    (nodes : List TreeNode) (x a : ℕ) (l : List ℕ)
    → IsChain nodes a l
    → All (λ y. y ≢ x) l
    → 0 < x
    → a ≢ x
not_next nodes x a [] chain out pos = λ p. omega (arith, p, chain)
not_next nodes x a (y ∷ l) chain out pos = λ p. out.0 (sym chain.0 ∙ p)

before-absent :
    (turns : ℕ) (nodes : List TreeNode) (x a : ℕ) (l : List ℕ)
    → IsChain nodes a l
    → All (λ y. y ≢ x) l
    → 0 < x
    → length l < turns
    → before turns nodes x a ≡ some 0
unfolding before
before-absent zero nodes x a l chain out pos fits = absurd (omega arith)
before-absent (suc turns) nodes x a [] chain out pos fits =
    let found : ((a == 0) || ((node_at nodes a).next == x)) ≡ true = ground (arith, chain) in
    rw found (ap some chain)
before-absent (suc turns) nodes x a (y ∷ l) chain out pos fits =
    let next = (node_at nodes y).next in
    let on : ((y == 0) || (next == x)) ≡ false =
      ground (arith, chain.1, not_next nodes x next l chain.3 out.1 pos) in
    let off : ((a == 0) || ((node_at nodes a).next == x)) ≡ false =
      subst (λ b. ((b == 0) || ((node_at nodes b).next == x)) ≡ false) (sym chain.0) on in
    rw off (
      ap (λ b. before turns nodes x (node_at nodes b).next) chain.0
      ∙ before-absent turns nodes x next l chain.3 out.1 pos (omega arith))

not_first :
    (nodes : List TreeNode) (x a : ℕ) (front behind init : List ℕ) (z : ℕ)
    → front ≡ init ++ z ∷ []
    → IsChain nodes a (front ++ x ∷ behind)
    → (a == x) ≡ false
not_first nodes x a [] behind init z e chain =
    absurd (omega (arith, ap length e, length-append init (z ∷ [])))
not_first nodes x a (y ∷ front) behind init z e chain =
    ground (arith, chain.0, (not_in_front nodes x a (y ∷ front) behind chain).0)

-- The branch for the node before, which is not a null pointer.
walked_to :
    (z after node : ℕ) (fs : FileSystem)
    → 0 < z
    → elim z as (λ n. Option (Bool × FileSystem)) [
      | zero ↦ some (false, fs)
      | suc i ↦ some (
        true,
        detach node (record fs {
          nodes = put_node fs.nodes (suc i) (record (node_at fs.nodes (suc i)) { next = after });
        }),
      )
    ]
      ≡ some (
        true,
        detach node (record fs {
          nodes = put_node fs.nodes z (record (node_at fs.nodes z) { next = after });
        }),
      )
walked_to zero after node fs pos = absurd (omega arith)
walked_to (suc i) after node fs pos = refl

-- Taking out a node: the children without it, in their order, and the node without a parent.
abbrev pub IsRemoved : (parent node : ℕ) (children : List ℕ) → FileSystem → Type 0
IsRemoved parent node children fs =
    IsChain fs.nodes (node_at fs.nodes parent).children children
    × ((node_at fs.nodes node).parent ≡ 0)
    × ((node_at fs.nodes node).next ≡ 0)

detach-IsRemoved :
    (nodes : List TreeNode) (root parent node : ℕ) (children : List ℕ)
    → 0 < parent
    → 0 < node
    → node ≤ length nodes
    → All (λ y. y ≢ node) children
    → IsChain nodes (node_at nodes parent).children children
    → IsRemoved parent node children (detach node (record { nodes = nodes; fs_root = root }))
unfolding detach
detach-IsRemoved nodes root parent node children pp pn fn out chain =
    let n : TreeNode = record (node_at nodes node) { parent = 0; next = 0 } in
    let same = field-put_node (λ m. m.children) nodes node parent n pn fn pp refl in
    let at = node_at-put_self nodes node n pn fn in
    (
      rw same (IsChain-put_ne nodes node n (node_at nodes parent).children children pn out chain),
      ap (λ m. m.parent) at,
      ap (λ m. m.next) at,
    )

-- Removing a child of a directory takes it out of the directory's children, keeps the order of the
-- others, and leaves the node with no parent, when the walk has as many turns as there are
-- children before it.
pub remove_node-IsRemoved :
    (turns parent node : ℕ) (front behind : List ℕ) (fs : FileSystem)
    → 0 < parent
    → parent ≤ length fs.nodes
    → is_directory (node_at fs.nodes parent).kind ≡ true
    → IsChain fs.nodes (node_at fs.nodes parent).children (front ++ node ∷ behind)
    → length front ≤ turns
    → (fs' : FileSystem) × (remove_node turns parent node fs ≡ some (true, fs'))
      × IsRemoved parent node (front ++ behind) fs'
unfolding remove_node
remove_node-IsRemoved turns parent node front behind fs pp fp dir chain enough =
    let nodes = fs.nodes in
    let p = node_at nodes parent in
    let after = (node_at nodes node).next in
    let from_node = IsChain-behind nodes node p.children front behind chain in
    let no_null : ((parent == 0) || (node == 0)) ≡ false = ground (arith, pp, from_node.1) in
    let out_front = not_in_front nodes node p.children front behind chain in
    let out_behind =
      not_in_shorter nodes node (node ∷ behind) after behind from_node from_node.3 (omega arith) in
    let out = All-append (λ y. y ≢ node) front behind out_front out_behind in
    elim (snoc-cases front) [
      | inl none_yet ↦
          let first : p.children ≡ node =
            (subst (λ l. IsChain nodes p.children (l ++ node ∷ behind)) none_yet chain).0 in
          let on : (p.children == node) ≡ true = ground (arith, first) in
          let n : TreeNode = record p { children = after } in
          let nodes' = put_node nodes parent n in
          let at = ap (λ (m : TreeNode). m.children) (node_at-put_self nodes parent n pp fp) in
          (
            detach node (record fs { nodes = nodes' }),
            rw no_null (rw dir (rw on refl)),
            detach-IsRemoved nodes' fs.fs_root parent node (front ++ behind) pp from_node.1
                (omega (arith, from_node.2, length-set nodes (parent - 1) n)) out
                (rw at (
                  rw none_yet
                    (IsChain-put_next nodes parent n after behind pp fp refl from_node.3))),
          )
      | inr (init, z, e) ↦
          let eq : front ++ node ∷ behind ≡ init ++ z ∷ node ∷ behind =
            ap (λ l. l ++ node ∷ behind) e ∙ snoc-append init (node ∷ behind) z in
          let chain_z = subst (IsChain nodes p.children) eq chain in
          let ne_z : z ≢ node =
            All-last (λ y. y ≢ node) init z (subst (All (λ y. y ≢ node)) e out_front) in
          let off : (p.children == node) ≡ false =
            not_first nodes node p.children front behind init z e chain in
          let found =
            before-chain turns nodes node p.children z init behind chain_z
              (omega (arith, ap length e, length-append init (z ∷ []), enough)) in
          let from_z = IsChain-behind nodes z p.children init (node ∷ behind) chain_z in
          let n : TreeNode = record (node_at nodes z) { next = after } in
          let nodes' = put_node nodes z n in
          let out_z =
            not_in_shorter nodes z (z ∷ node ∷ behind) after behind from_z from_node.3
              (omega arith) in
          let joined : front ++ behind ≡ init ++ z ∷ behind =
            ap (λ l. l ++ behind) e ∙ snoc-append init behind z in
          let same = field-put_node (λ m. m.children) nodes z parent n from_z.1 from_z.2 pp refl in
          (
            detach node (record fs { nodes = nodes' }),
            rw no_null (rw dir (rw off (rw found (walked_to z after node fs from_z.1)))),
            detach-IsRemoved nodes' fs.fs_root parent node (front ++ behind) pp from_node.1
                (omega (arith, from_node.2, length-set nodes (z - 1) n)) out
                (rw same (
                  rw joined (
                    relink nodes z n p.children init (node ∷ behind) behind chain_z from_node.3
                      out_z))),
          )
    ]

-- A node that is not among the children of a directory stays where it is, and the answer is -1.
pub remove_node-absent :
    (turns parent node : ℕ) (children : List ℕ) (fs : FileSystem)
    → 0 < node
    → IsChain fs.nodes (node_at fs.nodes parent).children children
    → All (λ y. y ≢ node) children
    → length children < turns
    → remove_node turns parent node fs ≡ some (false, fs)
unfolding remove_node
remove_node-absent turns parent node children fs pn chain out enough =
    let p = node_at fs.nodes parent in
    let walked = before-absent turns fs.nodes node p.children children chain out pn enough in
    let off : (p.children == node) ≡ false =
      ground (arith, not_next fs.nodes node p.children children chain out pn) in
    elim (Bool-cases ((parent == 0) || (node == 0))) [
      | inl t ↦ rw t refl
      | inr f ↦ elim (Bool-cases (is_directory p.kind)) [
        | inl d ↦ rw f (rw d (rw off (rw walked refl)))
        | inr d ↦ rw f (rw d refl)
      ]
    ]
