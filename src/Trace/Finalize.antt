-- ===== src/Trace/Finalize.antt =====
-- The mapping tables that src/trace/trace.cpp writes for its local trees.
use lo2s.Shared.{
  ℕ, ◌≡◌, ◌⊎◌, inl, inr, refl, sym, ◌∙◌, negsuc, true, false, Bool-cases, Option-cases, none, some,
  List, [], ◌∷◌, All, zero, suc, length, length-replicate, replicate, get_elem?, ltb, Result, ok,
  ◌>>=◌, arith,
}
use lo2s.Cctx.{CallingContext}
use lo2s.Trace.{
  LocalNodes, local_nil, local_cons, GlobalNodes, CctxFor, MergeState, merge_calling_contexts,
  finalize_trees,
}
use lo2s.Trace.Paths.{local_at, global_at, Extends}
use lo2s.Trace.Nodes.{Distinct, AtRoot, Defines}
use lo2s.Trace.Merge.{Mapped, merge_nodes-Mapped}

zeros : (n z : ℕ) → length (replicate n z) ≡ n
zeros n z = length-replicate n z

-- A local tree with `n` nodes below its root.
abbrev pub Mergeable : ℕ × LocalNodes → Type 0
Mergeable e = AtRoot (e.1) × Distinct (e.0) (e.1)

-- A table maps the nodes of a local tree to the global nodes with their paths.
abbrev pub Maps : LocalNodes → GlobalNodes → List ℕ → Type 0
Maps l gs table =
    (p : List CallingContext) (ref : ℕ)
    → local_at p l ≡ some ref
    → (r : ℕ) × (global_at p gs ≡ some r) × (get_elem? table ref ≡ some r)

-- The tables, one for each tree.
abbrev pub Agree : GlobalNodes → List (ℕ × LocalNodes) → List (List ℕ) → Type 0
Agree gs [] tables = Unit {0}
Agree gs (e ∷ trees) [] = ⊥
Agree gs (e ∷ trees) (table ∷ tables) = Maps (e.1) gs table × Agree gs trees tables

Maps-Extends :
    (l : LocalNodes) (gs gs' : GlobalNodes) (table : List ℕ)
    → Extends gs gs'
    → Maps l gs table
    → Maps l gs' table
Maps-Extends l gs gs' table ext m =
    λ p ref h. let (r, at, mapped) = m p ref h in (r, ext p r at, mapped)

empty_tree : (l : LocalNodes) (gs : GlobalNodes) (table : List ℕ) → Distinct 0 l → Maps l gs table
unfolding local_at
empty_tree local_nil gs table d = λ p ref h. cc
empty_tree (local_cons c ref children rest) gs table d = absurd (omega (arith, d.0))

module _ {Registry : Type 0} where
  merge_lem :
      (f : CctxFor Registry) (d : Defines f) (n : ℕ) (l : LocalNodes) (gs : GlobalNodes)
      (t : Registry)
      → Mergeable (n, l)
      → Mapped l gs (replicate n 0) (merge_calling_contexts f n l gs t)
  unfolding merge_calling_contexts
  merge_lem f d n l gs t m =
      merge_nodes-Mapped f d l none gs
        (record { mapping_table = replicate n 0; p = negsuc 0; registry = t }) m.0
        (rw (zeros n 0) (m.1))

  -- If no two nodes of a local tree have the same reference number, all are below its number of
  -- nodes, samples, kernels and OpenMP regions are not directly below the root, and making a
  -- definition succeeds, then the tree is merged into any global tree, the empty one included. The
  -- table has a place for every node. For a path to a local node, the entry of the node is the
  -- reference of the global node at that path behind the merge; for a path to a global node from
  -- before, that node is there with the same reference.
  pub merge_calling_contexts-maps :
      (f : CctxFor Registry)
      → Defines f
      → (n : ℕ) (l : LocalNodes) (gs : GlobalNodes) (t : Registry) → Mergeable (n, l)
      → (p q : List CallingContext)
      → (gs' : GlobalNodes) × (s : MergeState Registry) × (merge_calling_contexts f n l gs t
          ≡ ok (gs', s))
        × (length s.mapping_table ≡ n)
        × ((local_at p l ≡ none)
            ⊎ ((ref : ℕ) × (r : ℕ) × (local_at p l ≡ some ref)
                × (get_elem? s.mapping_table ref ≡ some r)
                × (global_at p gs' ≡ some r)))
        × ((global_at q gs ≡ none) ⊎ (global_at q gs' ≡ global_at q gs))
  merge_calling_contexts-maps f d n l gs t m p q =
      let a = merge_lem f d n l gs t m in
      (
        a.global,
        a.state,
        a.result,
        a.size ∙ zeros n 0,
        elim (Option-cases (local_at p l)) [
          | inl gone ↦ inl gone
          | inr (ref, h) ↦ let (r, at, mapped) = a.maps p ref h in inr (ref, r, h, mapped, at)
        ],
        elim (Option-cases (global_at q gs)) [
          | inl gone ↦ inl gone
          | inr (old, k) ↦ inr (a.extends q old k ∙ sym k)
        ],
      )

  -- All trees.
  pub record Finalized (gs : GlobalNodes) (trees : List (ℕ × LocalNodes))
      (outcome : Result (List (List ℕ) × GlobalNodes × Registry)) : Type 0 where
    pub tables : List (List ℕ)
    pub global : GlobalNodes
    pub registry : Registry
    pub result : outcome ≡ ok (tables, global, registry)
    pub extends : Extends gs global
    pub agree : Agree global trees tables

  skip_lem :
      (f : CctxFor Registry) (n : ℕ) (l : LocalNodes) (trees : List (ℕ × LocalNodes))
      (gs : GlobalNodes) (t : Registry)
      → ltb 0 n ≡ false
      → finalize_trees f ((n, l) ∷ trees) gs t
        ≡ (finalize_trees f trees gs t >>= λ r. ok ([] ∷ r.0, r.1, r.2))
  unfolding finalize_trees
  skip_lem f n l trees gs t e = rw (e, finalize_trees) refl

  merge_first :
      (f : CctxFor Registry) (n : ℕ) (l : LocalNodes) (trees : List (ℕ × LocalNodes))
      (gs gs' : GlobalNodes) (t : Registry) (s : MergeState Registry)
      → ltb 0 n ≡ true
      → merge_calling_contexts f n l gs t ≡ ok (gs', s)
      → finalize_trees f ((n, l) ∷ trees) gs t
        ≡ (finalize_trees f trees gs' s.registry >>= λ r. ok (s.mapping_table ∷ r.0, r.1, r.2))
  unfolding finalize_trees
  merge_first f n l trees gs gs' t s e h = rw (e, h, finalize_trees) refl

  finalize_lem :
      (f : CctxFor Registry) (d : Defines f) (trees : List (ℕ × LocalNodes)) (gs : GlobalNodes)
      (t : Registry)
      → All Mergeable trees
      → Finalized gs trees (finalize_trees f trees gs t)
  unfolding finalize_trees
  finalize_lem f d [] gs t a = record {
    tables = [];
    global = gs;
    registry = t;
    result = refl;
    extends = λ p r h. h;
    agree = tt;
  }
  finalize_lem f d ((n, l) ∷ trees) gs t a = elim (Bool-cases (ltb 0 n)) [
    | inl e ↦
        let m = merge_lem f d n l gs t a.0 in
        let r = finalize_lem f d trees m.global m.state.registry a.1 in
        record {
          tables = m.state.mapping_table ∷ r.tables;
          global = r.global;
          registry = r.registry;
          result = merge_first f n l trees gs m.global t m.state e m.result ∙ rw (r.result) refl;
          extends = λ p x h. r.extends p x (m.extends p x h);
          agree =
              (Maps-Extends l m.global r.global m.state.mapping_table r.extends m.maps, r.agree);
        }
    | inr e ↦
        let r = finalize_lem f d trees gs t a.1 in
        record {
          tables = [] ∷ r.tables;
          global = r.global;
          registry = r.registry;
          result = skip_lem f n l trees gs t e ∙ rw (r.result) refl;
          extends = r.extends;
          agree = (empty_tree l r.global [] (rw (no_nodes n e) at (a.0.1)), r.agree);
        }
  ]
    where
      no_nodes : (n : ℕ) → ltb 0 n ≡ false → n ≡ 0
      no_nodes n e = ground (arith, e)

tree_inj : (e : ℕ × LocalNodes) (n : ℕ) (l : LocalNodes) → some e ≡ some (n, l) → e.1 ≡ l
tree_inj e n l g = cc

Agree-at :
    (gs : GlobalNodes) (trees : List (ℕ × LocalNodes)) (tables : List (List ℕ)) (i n : ℕ)
    (l : LocalNodes)
    → Agree gs trees tables
    → get_elem? trees i ≡ some (n, l)
    → (table : List ℕ) × (get_elem? tables i ≡ some table) × Maps l gs table
Agree-at gs [] tables i n l a g = cc
Agree-at gs (e ∷ trees) [] i n l a g = elim a [ ]
Agree-at gs (e ∷ trees) (table ∷ tables) zero n l a g =
    (table, refl, rw (tree_inj e n l g) at (a.0))
Agree-at gs (e ∷ trees) (table ∷ tables) (suc i) n l a g = Agree-at gs trees tables i n l a.1 g

module _ {Registry : Type 0} where
  -- If every local tree can be merged and making a definition succeeds, then all are merged, and the
  -- tables of two trees map the nodes at one path, in the one and in the other tree, to one global
  -- definition, which is the one at that path of the global tree.
  pub finalize_trees-unifies :
      (f : CctxFor Registry)
      → Defines f
      → (trees : List (ℕ × LocalNodes)) (gs : GlobalNodes) (t : Registry) → All Mergeable trees
      → (i j m n : ℕ) (k l : LocalNodes) → get_elem? trees i ≡ some (m, k)
      → get_elem? trees j ≡ some (n, l)
      → (p : List CallingContext) (ref_k ref_l : ℕ) → local_at p k ≡ some ref_k
      → local_at p l ≡ some ref_l
      → (tables : List (List ℕ)) × (gs' : GlobalNodes) × (t' : Registry) × (table_k table_l : List
          ℕ)
        × (r : ℕ) × (finalize_trees f trees gs t ≡ ok (tables, gs', t'))
        × (get_elem? tables i ≡ some table_k)
        × (get_elem? tables j ≡ some table_l)
        × (get_elem? table_k ref_k ≡ some r)
        × (get_elem? table_l ref_l ≡ some r)
        × (global_at p gs' ≡ some r)
  finalize_trees-unifies f d trees gs t a i j m n k l gi gj p ref_k ref_l hk hl =
      let x = finalize_lem f d trees gs t a in
      let (table_k, at_k, maps_k) = Agree-at x.global trees x.tables i m k x.agree gi in
      let (table_l, at_l, maps_l) = Agree-at x.global trees x.tables j n l x.agree gj in
      let (r, path_k, mapped_k) = maps_k p ref_k hk in
      let (r', path_l, mapped_l) = maps_l p ref_l hl in
      (
        x.tables,
        x.global,
        x.registry,
        table_k,
        table_l,
        r,
        x.result,
        at_k,
        at_l,
        mapped_k,
        ground (arith, mapped_l, path_l, path_k),
        path_k,
      )
