-- ===== src/Fs/Children.antt =====
-- Adding and removing nodes of KluxOS/src/kernel/fs.c against lists of addresses.
use mathlib.Core.Path.{subst}
use klux_os.Fs.Siblings.{
  IsChain-put_next, field-put_node, node_at-put_ne, IsChain-behind, not_in_front, IsChain-put_ne,
  node_at-put_self, IsChain,
}
use klux_os.Fs.Tree.{is_directory, add_node, put_node, node_at, FileSystem, TreeNode, last_of}
use klux_os.Base.{
  snoc-append, All-last, length-append, inr, inl, snoc-cases, sym, ◌||◌, ◌≤◌, ◌-◌, length-set, ◌<◌,
  ◌≢◌, All, length, ◌==◌, ◌≡◌, ◌++◌, List, ℕ, zero, suc, refl, arith, [], ◌∷◌, some, true, false,
  ◌∙◌, ap,
}

-- A store at a node of the list that links other nodes behind it.
pub relink :
    (nodes : List TreeNode) (z : ℕ) (n : TreeNode) (a : ℕ) (front behind new : List ℕ)
    → IsChain nodes a (front ++ z ∷ behind)
    → IsChain nodes n.next new
    → All (λ y. y ≢ z) new
    → IsChain (put_node nodes z n) a (front ++ z ∷ new)
relink nodes z n a [] behind new chain linked out =
    let at = ap (λ (m : TreeNode). m.next) (node_at-put_self nodes z n chain.1 chain.2) in
    (
      chain.0,
      chain.1,
      omega (arith, chain.2, length-set nodes (z - 1) n),
      rw at (IsChain-put_ne nodes z n n.next new chain.1 out linked),
    )
relink nodes z n a (x ∷ front) behind new chain linked out =
    let ne = not_in_front nodes z a (x ∷ front) behind chain in
    let from_z = IsChain-behind nodes z a (x ∷ front) behind chain in
    let kept = ap (λ (m : TreeNode). m.next) (node_at-put_ne nodes z x n from_z.1 chain.1 ne.0) in
    (
      chain.0,
      chain.1,
      omega (arith, chain.2, length-set nodes (z - 1) n),
      rw kept (relink nodes z n (node_at nodes x).next front behind new chain.3 linked out),
    )

pub followed :
    (nodes : List TreeNode) (a z : ℕ) (front behind : List ℕ)
    → IsChain nodes a (front ++ z ∷ behind)
    → (a == 0) ≡ false
followed nodes a z [] behind chain = ground (arith, chain.0, chain.1)
followed nodes a z (x ∷ front) behind chain = ground (arith, chain.0, chain.1)

last_of-chain :
    (turns : ℕ) (nodes : List TreeNode) (a z : ℕ) (front : List ℕ)
    → IsChain nodes a (front ++ z ∷ [])
    → length front < turns
    → last_of turns nodes a ≡ some z
unfolding last_of
last_of-chain zero nodes a z front chain fits = absurd (omega arith)
last_of-chain (suc turns) nodes a z [] chain fits =
    let end : (node_at nodes a).next ≡ 0 = ap (λ x. (node_at nodes x).next) chain.0 ∙ chain.3 in
    let on : ((node_at nodes a).next == 0) ≡ true = rw end refl in rw on (ap some chain.0)
last_of-chain (suc turns) nodes a z (x ∷ front) chain fits =
    let step = ap (λ y. (node_at nodes y).next) chain.0 in
    let off : ((node_at nodes x).next == 0) ≡ false =
      followed nodes (node_at nodes x).next z front [] chain.3 in
    rw step
      (rw off (last_of-chain turns nodes (node_at nodes x).next z front chain.3 (omega arith)))

-- A directory after `child` is added: its list ends in the child, which has it as its parent.
abbrev pub IsAdded : (parent child : ℕ) (children : List ℕ) → FileSystem → Type 0
IsAdded parent child children fs =
    IsChain fs.nodes (node_at fs.nodes parent).children (children ++ child ∷ [])
    × ((node_at fs.nodes child).parent ≡ parent)

-- The store of `child->parent`, which keeps all lists.
abbrev owned_by : (parent child : ℕ) → List TreeNode → List TreeNode
owned_by parent child nodes =
    put_node nodes child (record (node_at nodes child) { parent = parent })

add_first :
    (nodes : List TreeNode) (parent child : ℕ)
    → 0 < parent
    → parent ≤ length nodes
    → 0 < child
    → child ≤ length nodes
    → (node_at nodes child).next ≡ 0
    → (node_at nodes child).parent ≡ parent
    → let nodes' = put_node nodes parent (record (node_at nodes parent) { children = child }) in
      IsChain nodes' (node_at nodes' parent).children (child ∷ [])
      × ((node_at nodes' child).parent ≡ parent)
add_first nodes parent child pp fp pc fc alone parent_is =
    let n : TreeNode = record (node_at nodes parent) { children = child } in
    let at = ap (λ (m : TreeNode). m.children) (node_at-put_self nodes parent n pp fp) in
    (
      rw at (IsChain-put_next nodes parent n child (child ∷ []) pp fp refl (refl, pc, fc, alone)),
      field-put_node (λ m. m.parent) nodes parent child n pp fp pc refl ∙ parent_is,
    )

add_last :
    (nodes : List TreeNode) (parent child z : ℕ) (front : List ℕ)
    → 0 < parent
    → 0 < child
    → child ≤ length nodes
    → (node_at nodes child).next ≡ 0
    → (node_at nodes child).parent ≡ parent
    → z ≢ child
    → IsChain nodes (node_at nodes parent).children (front ++ z ∷ [])
    → let nodes' = put_node nodes z (record (node_at nodes z) { next = child }) in
      IsChain nodes' (node_at nodes' parent).children (front ++ z ∷ child ∷ [])
      × ((node_at nodes' child).parent ≡ parent)
add_last nodes parent child z front pp pc fc alone parent_is ne chain =
    let n : TreeNode = record (node_at nodes z) { next = child } in
    let at_z = IsChain-behind nodes z (node_at nodes parent).children front [] chain in
    let same = field-put_node (λ m. m.children) nodes z parent n at_z.1 at_z.2 pp refl in
    (
      rw same (
          relink nodes z n (node_at nodes parent).children front [] (child ∷ []) chain
            (refl, pc, fc, alone) ((λ p. ne (sym p)), tt)),
      field-put_node (λ m. m.parent) nodes z child n at_z.1 at_z.2 pc refl ∙ parent_is,
    )

-- Adding a new node to a directory puts it at the end of the directory's children and makes the
-- directory its parent, when the node is none of the children and has none after it, and the walk
-- has as many turns as there are children.
pub add_node-IsAdded :
    (turns parent child : ℕ) (children : List ℕ) (fs : FileSystem)
    → 0 < parent
    → parent ≤ length fs.nodes
    → is_directory (node_at fs.nodes parent).kind ≡ true
    → 0 < child
    → child ≤ length fs.nodes
    → (node_at fs.nodes child).next ≡ 0
    → All (λ x. x ≢ child) children
    → IsChain fs.nodes (node_at fs.nodes parent).children children
    → length children ≤ turns
    → (fs' : FileSystem) × (add_node turns parent child fs ≡ some fs')
      × IsAdded parent child children fs'
unfolding add_node
add_node-IsAdded turns parent child children fs pp fp dir pc fc alone new chain enough =
    let nodes = fs.nodes in
    let n : TreeNode = record (node_at nodes child) { parent = parent } in
    let owned = owned_by parent child nodes in
    let len : length owned ≡ length nodes = length-set nodes (child - 1) n in
    let no_null : ((parent == 0) || (child == 0)) ≡ false = ground (arith, pp, pc) in
    let first_is : (node_at owned parent).children ≡ (node_at nodes parent).children =
      field-put_node (λ m. m.children) nodes child parent n pc fc pp refl in
    let alone' : (node_at owned child).next ≡ 0 =
      ap (λ (m : TreeNode). m.next) (node_at-put_self nodes child n pc fc) ∙ alone in
    let parent_is : (node_at owned child).parent ≡ parent =
      ap (λ (m : TreeNode). m.parent) (node_at-put_self nodes child n pc fc) in
    let chain' : IsChain owned (node_at owned parent).children children =
      rw first_is (
        IsChain-put_next nodes child n (node_at nodes parent).children children pc fc refl chain) in
    elim (snoc-cases children) [
      | inl none_yet ↦
          let e : (node_at owned parent).children ≡ 0 =
            subst (IsChain owned (node_at owned parent).children) none_yet chain' in
          let empty : ((node_at owned parent).children == 0) ≡ true = rw e refl in
          let done =
            add_first owned parent child pp (omega (arith, fp, len)) pc (omega (arith, fc, len))
              alone' parent_is in
          (
            record fs {
              nodes = put_node owned parent (record (node_at owned parent) { children = child });
            },
            rw no_null (rw dir (rw empty refl)),
            rw none_yet done,
          )
      | inr (front, z, e) ↦
          let chain_z : IsChain owned (node_at owned parent).children (front ++ z ∷ []) =
            subst (IsChain owned (node_at owned parent).children) e chain' in
          let some_yet = followed owned (node_at owned parent).children z front [] chain_z in
          let walked =
            last_of-chain turns owned (node_at owned parent).children z front chain_z
              (omega (arith, ap length e, length-append front (z ∷ []), enough)) in
          let out = subst (All (λ x. x ≢ child)) e new in
          let done =
            add_last owned parent child z front pp pc (omega (arith, fc, len)) alone' parent_is
              (All-last (λ x. x ≢ child) front z out) chain_z in
          (
            record fs { nodes = put_node owned z (record (node_at owned z) { next = child }) },
            rw no_null (rw dir (rw some_yet (rw walked refl))),
            (rw (ap (λ l. l ++ child ∷ []) e ∙ snoc-append front (child ∷ []) z) (done.0), done.1),
          )
    ]
