-- ===== src/CctxTree/Node.antt =====
-- The nodes of a `LocalCctxTree` (include/lo2s/local_cctx_tree.hpp): what `create_cctx_node` keeps.
use lo2s.Shared.{
  ℕ, suc, ◌+◌, ◌≤◌, ◌<◌, ◌≡◌, ◌≢◌, ◌⊎◌, inl, inr, refl, true, false, Bool-cases, Option-cases,
  Option, none, some, List, [], ◌∷◌, ◌++◌, length, length-append, get_elem?, set, length-set,
  get_elem?-set, get_elem?-snoc, get_elem?-lt, get_elem?-some, All, ◌==◌, if◌then◌else◌, Result, ok,
  arith,
}
use lo2s.Cctx.{CallingContext, root, eq}
use lo2s.CctxTree.{LocalCctxNode, LocalCctxTree, node, find_child, create_cctx_node}

-- The key of the node with index `i`.
abbrev pub key_at : List LocalCctxNode → ℕ → Option CallingContext
key_at nodes i = elim (get_elem? nodes i) [ none ↦ none | some n ↦ some n.key ]

-- A map of children points to nodes with its keys, and never to the root of the tree.
abbrev pub IsLinked : List LocalCctxNode → List (CallingContext × ℕ) → Type 0
IsLinked nodes = All (λ (e : CallingContext × ℕ). (0 < e.1) × (key_at nodes e.1 ≡ some e.0))

-- Node `i + 1` has the reference number `i`, and a context other than the root.
pub record Numbered (t : LocalCctxTree) : Type 0 where
  pub count : t.next_cctx_ref + 1 ≡ length t.nodes
  pub refs : (i : ℕ) (n : LocalCctxNode) → get_elem? t.nodes (suc i) ≡ some n → n.ref ≡ i
  pub linked :
      (i : ℕ) (n : LocalCctxNode) → get_elem? t.nodes i ≡ some n → IsLinked t.nodes n.children
  pub keys : (i : ℕ) (n : LocalCctxNode) → get_elem? t.nodes (suc i) ≡ some n → n.key ≢ root

pub eq_total : (c k : CallingContext) → c ≢ root → (eq c k ≡ ok true) ⊎ (eq c k ≡ ok false)
unfolding eq
eq_total root k h = absurd (h refl)
eq_total c k h = ground arith

-- The node of a context below a parent, found or created.
pub record Child (c : CallingContext) (t : LocalCctxTree) (outcome : Result (ℕ × LocalCctxTree))
    : Type 0 where
  pub index : ℕ
  pub tree : LocalCctxTree
  pub result : outcome ≡ ok (index, tree)
  pub numbered : Numbered tree
  pub positive : 0 < index
  pub within : index < length tree.nodes
  pub grown : length t.nodes ≤ length tree.nodes
  pub key : CallingContext
  pub key_eq : key_at tree.nodes index ≡ some key
  pub key_same : (key ≡ c) ⊎ (eq c key ≡ ok true)
  pub cur_same : tree.cur ≡ t.cur
  pub written_same : tree.written ≡ t.written
  pub keys_same :
      (i : ℕ) (k : CallingContext) → key_at t.nodes i ≡ some k → key_at tree.nodes i ≡ some k

find_child_lem :
    (c : CallingContext) (nodes : List LocalCctxNode) (cs : List (CallingContext × ℕ))
    → c ≢ root
    → IsLinked nodes cs
    → (find_child c cs ≡ ok none)
      ⊎ ((i : ℕ) × (k : CallingContext) × (find_child c cs ≡ ok (some i))
          × (0 < i)
          × (key_at nodes i ≡ some k)
          × (eq c k ≡ ok true))
unfolding find_child
find_child_lem c nodes [] h l = inl refl
find_child_lem c nodes ((k, i) ∷ r) h l = elim (eq_total c k h) [
  | inl same ↦ inr (i, k, rw same, l.0.0, l.0.1, same)
  | inr differs ↦ rw differs (find_child_lem c nodes r h l.1)
]

key_at-lt :
    (nodes : List LocalCctxNode) (j : ℕ) (k : CallingContext)
    → key_at nodes j ≡ some k
    → j < length nodes
key_at-lt nodes j k h = elim (Option-cases (get_elem? nodes j)) [
  | inl none_there ↦ cc (rw (none_there, key_at) at h)
  | inr (n, there) ↦ get_elem?-lt nodes j n there
]

-- The nodes after a child is added below `parent`.
module _ (t : LocalCctxTree) (parent : ℕ) (n : LocalCctxNode) (c : CallingContext) (v : Numbered t)
    (here : get_elem? t.nodes parent ≡ some n) (other : c ≢ root) where
  child : LocalCctxNode
  child = record { key = c; ref = t.next_cctx_ref; children = [] }

  parent' : LocalCctxNode
  parent' = record n { children = (c, length t.nodes) ∷ n.children }

  nodes' : List LocalCctxNode
  nodes' = set t.nodes parent parent' ++ child ∷ []

  nodes'_lem :
      (j : ℕ)
      → get_elem? nodes' j ≡ (
          if j == length t.nodes
          then some child
          else if parent == j
          then some parent'
          else get_elem? t.nodes j)
  unfolding nodes'
  nodes'_lem j = rw (
    get_elem?-snoc (set t.nodes parent parent') child j,
    length-set t.nodes parent parent',
    get_elem?-set t.nodes parent j parent' (get_elem?-lt t.nodes parent n here),
  )

  length-nodes' : length nodes' ≡ length t.nodes + 1
  unfolding nodes'
  length-nodes' = omega (
    arith,
    length-append (set t.nodes parent parent') (child ∷ []),
    length-set t.nodes parent parent',
  )

  keys' : (j : ℕ) → key_at nodes' j ≡ (if j == length t.nodes then some c else key_at t.nodes j)
  unfolding child parent'
  keys' j = ground (arith, nodes'_lem j, here)

  keys_kept : (j : ℕ) (k : CallingContext) → key_at t.nodes j ≡ some k → key_at nodes' j ≡ some k
  keys_kept j k h = ground (arith, keys' j, key_at-lt t.nodes j k h)

  IsLinked-kept : (cs : List (CallingContext × ℕ)) → IsLinked t.nodes cs → IsLinked nodes' cs
  IsLinked-kept [] l = tt
  IsLinked-kept ((k, j) ∷ r) l = ((l.0.0, keys_kept j k l.0.1), IsLinked-kept r l.1)

  grown_refs : (j : ℕ) (m : LocalCctxNode) → get_elem? nodes' (suc j) ≡ some m → m.ref ≡ j
  unfolding child parent'
  grown_refs j m e = ground (arith, nodes'_lem (suc j), v.refs j n, v.refs j m, here, v.count)

  grown-IsLinked :
      (j : ℕ) (m : LocalCctxNode) → get_elem? nodes' j ≡ some m → IsLinked nodes' m.children
  unfolding child parent'
  grown-IsLinked j m e = elim (Bool-cases (j == length t.nodes)) [
    | inl last ↦ let e' : m ≡ child = cc (rw (nodes'_lem j, last) at e) in rw e' tt
    | inr before ↦ elim (Bool-cases (parent == j)) [
      | inl is_parent ↦
          let e' : m ≡ parent' = cc (rw (nodes'_lem j, before, is_parent) at e) in
          rw e' (
            (
              omega (arith, get_elem?-lt t.nodes parent n here),
              ground (arith, keys' (length t.nodes)),
            ),
            IsLinked-kept n.children (v.linked parent n here),
          )
      | inr is_other ↦
          IsLinked-kept m.children (v.linked j m (rw (nodes'_lem j, before, is_other) at e))
    ]
  ]

  grown_keys : (j : ℕ) (m : LocalCctxNode) → get_elem? nodes' (suc j) ≡ some m → m.key ≢ root
  unfolding child parent'
  grown_keys j m e = ground (arith, nodes'_lem (suc j), v.keys j n, v.keys j m, here, other)

  grown-Numbered : Numbered (record t { nodes = nodes'; next_cctx_ref = t.next_cctx_ref + 1 })
  grown-Numbered = record {
    count = omega (arith, length-nodes', v.count);
    refs = grown_refs;
    linked = grown-IsLinked;
    keys = grown_keys;
  }

  grown-Child :
      Child c t
        (ok (length t.nodes, record t { nodes = nodes'; next_cctx_ref = t.next_cctx_ref + 1 }))
  grown-Child = record {
    index = length t.nodes;
    tree = record t { nodes = nodes'; next_cctx_ref = t.next_cctx_ref + 1 };
    result = refl;
    numbered = grown-Numbered;
    positive = omega (arith, get_elem?-lt t.nodes parent n here);
    within = omega (arith, length-nodes');
    grown = omega (arith, length-nodes');
    key = c;
    key_eq = ground (arith, keys' (length t.nodes));
    key_same = inl refl;
    cur_same = refl;
    written_same = refl;
    keys_same = keys_kept;
  }

pub create_cctx_node-Child :
    (c : CallingContext) (parent : ℕ) (t : LocalCctxTree)
    → Numbered t
    → parent < length t.nodes
    → c ≢ root
    → Child c t (create_cctx_node c parent t)
unfolding create_cctx_node nodes' parent' child
create_cctx_node-Child c parent t v b h =
    let (n, here) = get_elem?-some t.nodes parent b in
    elim (find_child_lem c t.nodes n.children h (v.linked parent n here)) [
      | inl missing ↦ rw (here, node, create_cctx_node, missing) (grown-Child t parent n c v here h)
      | inr (i, k, found, positive, key, same) ↦
          rw (here, node, create_cctx_node, found)
            (record {
              index = i;
              tree = t;
              result = refl;
              numbered = v;
              positive = positive;
              within = key_at-lt t.nodes i k key;
              grown = omega arith;
              key = k;
              key_eq = key;
              key_same = inr same;
              cur_same = refl;
              written_same = refl;
              keys_same = λ j k' e. e;
            })
    ]
