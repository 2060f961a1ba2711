-- ===== src/Trace/Merge.antt =====
-- `merge_nodes` of src/trace/trace.cpp: it succeeds, and maps every local node to the global node
-- with the same path.
use lo2s.Shared.{
  ℕ, ◌<◌, ◌≡◌, ◌≢◌, inl, inr, refl, ◌∙◌, Bool-cases, Option, some, List, [], ◌∷◌, length,
  length-set, get_elem?, get_elem?-set, set, Result, ok, arith,
}
use lo2s.Cctx.{CallingContext}
use lo2s.Trace.{
  LocalNodes, local_nil, local_cons, GlobalNodes, CctxFor, MergeState, same, place, process_below,
  map_ref, global_child, merge_nodes,
}
use lo2s.Trace.Paths.{local_at, global_at, Extends, place-Extends, global_at-place}
use lo2s.Trace.Nodes.{Mentions, Distinct, Fits, Defines, Found, global_child-Found, Fits-cons}

some_inj : (a b : ℕ) → some a ≡ some b → a ≡ b
some_inj a b h = cc

pub local_at-Mentions :
    (p : List CallingContext) (ref : ℕ) (l : LocalNodes) → local_at p l ≡ some ref → Mentions ref l
unfolding local_at
local_at-Mentions p ref local_nil h = cc
local_at-Mentions [] ref (local_cons k r children rest) h = cc
local_at-Mentions (c ∷ []) ref (local_cons k r children rest) h = elim (Bool-cases (same c k)) [
  | inl e ↦ inl (some_inj r ref (rw e at h))
  | inr e ↦ inr (inr (local_at-Mentions (c ∷ []) ref rest (rw e at h)))
]
local_at-Mentions (c ∷ d ∷ p) ref (local_cons k r children rest) h = elim (Bool-cases (same c k)) [
  | inl e ↦ inr (inl (local_at-Mentions (d ∷ p) ref children (rw e at h)))
  | inr e ↦ inr (inr (local_at-Mentions (c ∷ d ∷ p) ref rest (rw e at h)))
]

map_ref_lem :
    (ref r : ℕ) (table : List ℕ) → ref < length table → map_ref ref r table ≡ ok (set table ref r)
unfolding map_ref
map_ref_lem ref r table h = ground (arith, h)

-- The first node, of which the merge of the children makes `t1`, and the rest, which makes `t2`.
module _ (c : CallingContext) (ref : ℕ) (children rest : LocalNodes) (gs : GlobalNodes)
    (table : List ℕ) where
  table_at :
      (r : ℕ) (t1 t2 : List ℕ)
      → Distinct (length table) (local_cons c ref children rest)
      → ((j : ℕ) → (Mentions j children → ⊥) → get_elem? t1 j ≡ get_elem? (set table ref r) j)
      → ((j : ℕ) → (Mentions j rest → ⊥) → get_elem? t2 j ≡ get_elem? t1 j)
      → get_elem? t2 ref ≡ some r
  table_at r t1 t2 d o1 o2 = o2 ref (d.1 ref (inl refl)) ∙ o1 ref d.2 ∙ at_set table ref r d.0
    where
      at_set :
          (table : List ℕ) (ref r : ℕ)
          → ref < length table
          → get_elem? (set table ref r) ref ≡ some r
      at_set table ref r h = ground (arith, get_elem?-set table ref ref r h)

  others_lem :
      (r j : ℕ) (t1 t2 : List ℕ)
      → ref < length table
      → ((j : ℕ) → (Mentions j children → ⊥) → get_elem? t1 j ≡ get_elem? (set table ref r) j)
      → ((j : ℕ) → (Mentions j rest → ⊥) → get_elem? t2 j ≡ get_elem? t1 j)
      → (Mentions j (local_cons c ref children rest) → ⊥)
      → get_elem? t2 j ≡ get_elem? table j
  others_lem r j t1 t2 h o1 o2 n =
      o2 j (λ m. n (inr (inr m)))
      ∙ o1 j (λ m. n (inr (inl m)))
      ∙ elsewhere table ref j r h (λ e. n (inl e))
    where
      elsewhere :
          (table : List ℕ) (ref j r : ℕ)
          → ref < length table
          → ref ≢ j
          → get_elem? (set table ref r) j ≡ get_elem? table j
      elsewhere table ref j r h n = ground (arith, get_elem?-set table ref j r h, n)

  maps_lem :
      (r : ℕ) (inner outer : GlobalNodes) (t1 t2 : List ℕ)
      → Distinct (length table) (local_cons c ref children rest)
      → get_elem? t2 ref ≡ some r
      → ((j : ℕ) → (Mentions j rest → ⊥) → get_elem? t2 j ≡ get_elem? t1 j)
      → Extends (place c r inner gs) outer
      → ((p : List CallingContext) (j : ℕ)
          → local_at p children ≡ some j
          → (x : ℕ) × (global_at p inner ≡ some x) × (get_elem? t1 j ≡ some x))
      → ((p : List CallingContext) (j : ℕ)
          → local_at p rest ≡ some j
          → (x : ℕ) × (global_at p outer ≡ some x) × (get_elem? t2 j ≡ some x))
      → (p : List CallingContext) (j : ℕ) → local_at p (local_cons c ref children rest) ≡ some j
      → (x : ℕ) × (global_at p outer ≡ some x) × (get_elem? t2 j ≡ some x)
  unfolding local_at
  maps_lem r inner outer t1 t2 d a o ext below later [] j h = cc
  maps_lem r inner outer t1 t2 d a o ext below later (e ∷ []) j h = elim (Bool-cases (same e c)) [
    | inl s ↦ (
      r,
      ext (e ∷ []) r (global_at-place c e [] r r inner gs s),
      rw (some_inj ref j (rw s at h)) at a,
    )
    | inr s ↦ later (e ∷ []) j (rw s at h)
  ]
  maps_lem r inner outer t1 t2 d a o ext below later (e ∷ k ∷ p) j h =
      elim (Bool-cases (same e c)) [
        | inl s ↦
            let found : local_at (k ∷ p) children ≡ some j = rw s at h in
            let (x, at_inner, mapped) = below (k ∷ p) j found in
            (
              x,
              ext (e ∷ k ∷ p) x (global_at-place c e (k ∷ p) r x inner gs s ∙ at_inner),
              o j (d.1 j (inr (local_at-Mentions (k ∷ p) j children found))) ∙ mapped,
            )
        | inr s ↦ later (e ∷ k ∷ p) j (rw s at h)
      ]

module _ {Registry : Type 0} where
  -- What a merge makes of global nodes and the mapping table.
  pub record Mapped (l : LocalNodes) (gs : GlobalNodes) (table : List ℕ)
      (outcome : Result (GlobalNodes × MergeState Registry)) : Type 0 where
    pub global : GlobalNodes
    pub state : MergeState Registry
    pub result : outcome ≡ ok (global, state)
    pub extends : Extends gs global
    pub maps :
        (p : List CallingContext) (ref : ℕ)
        → local_at p l ≡ some ref
        → (r : ℕ) × (global_at p global ≡ some r) × (get_elem? state.mapping_table ref ≡ some r)
    pub others : (j : ℕ) → (Mentions j l → ⊥) → get_elem? state.mapping_table j ≡ get_elem? table j
    pub size : length state.mapping_table ≡ length table

  Mapped-cons :
      (c : CallingContext) (ref : ℕ) (children rest : LocalNodes) (gs : GlobalNodes)
      (table : List ℕ) (f : CctxFor Registry) (parent : Option ℕ) (s : MergeState Registry)
      → s.mapping_table ≡ table
      → Distinct (length table) (local_cons c ref children rest)
      → (g : Found c gs (global_child f c parent gs s))
      → (m : Mapped children g.children (set table ref g.ref) (
          merge_nodes f children (some g.ref) g.children (record {
            mapping_table = set table ref g.ref;
            p = process_below c s.p;
            registry = g.registry;
          })))
      → Mapped rest
          (place c g.ref m.global gs)
          m.state.mapping_table
          (merge_nodes f rest parent (place c g.ref m.global gs) m.state)
      → Mapped
          (local_cons c ref children rest)
          gs
          table
          (merge_nodes f (local_cons c ref children rest) parent gs s)
  unfolding merge_nodes
  Mapped-cons c ref children rest gs table f parent s e d g m n = record {
    global = n.global;
    state = n.state;
    result = rw (g.result, e, map_ref_lem ref g.ref table d.0, m.result) (n.result);
    extends = λ p r h.
        n.extends p r (place-Extends c g.ref g.children m.global gs g.there m.extends p r h);
    maps =
        maps_lem c ref children rest gs table g.ref m.global n.global m.state.mapping_table
          n.state.mapping_table d
          (table_at c ref children rest gs table g.ref m.state.mapping_table n.state.mapping_table d
            m.others n.others)
          n.others n.extends m.maps n.maps;
    others = λ j h.
        others_lem c ref children rest gs table g.ref j m.state.mapping_table n.state.mapping_table
          d.0 m.others n.others h;
    size = n.size ∙ m.size ∙ length-set table ref g.ref;
  }

  pub merge_nodes-Mapped :
      (f : CctxFor Registry) (d : Defines f) (l : LocalNodes) (parent : Option ℕ) (gs : GlobalNodes)
      (s : MergeState Registry)
      → Fits parent l
      → Distinct (length s.mapping_table) l
      → Mapped l gs s.mapping_table (merge_nodes f l parent gs s)
  unfolding merge_nodes local_at
  merge_nodes-Mapped f d local_nil parent gs s fits u = record {
    global = gs;
    state = s;
    result = refl;
    extends = λ p r h. h;
    maps = λ p ref h. cc;
    others = λ j h. refl;
    size = refl;
  }
  merge_nodes-Mapped f d (local_cons c ref children rest) parent gs s fits u =
      let (allowed, below, later) = Fits-cons parent c ref children rest fits in
      let g = global_child-Found f d c parent gs s allowed in
      let inner : MergeState Registry = record {
        mapping_table = set s.mapping_table ref g.ref;
        p = process_below c s.p;
        registry = g.registry;
      } in
      let m =
        merge_nodes-Mapped f d children (some g.ref) g.children inner below
          (rw (length-set s.mapping_table ref g.ref) (u.3)) in
      let n =
        merge_nodes-Mapped f d rest parent (place c g.ref m.global gs) m.state later
          (rw (m.size, length-set s.mapping_table ref g.ref) (u.4)) in
      Mapped-cons c ref children rest gs s.mapping_table f parent s refl u g m n
