-- ===== src/Trace.antt =====
-- src/trace/trace.cpp and include/lo2s/trace/trace.hpp, `Trace`: the local calling context trees merged
-- into the global one. A `std::map` of nodes is the list of its nodes in the order of their keys,
-- each with its own map. `registry_` is otf2xx's: the `cctx_for_...` functions, which make
-- definitions in it, are parameters, with the state of the registry.
pub mod Paths
pub mod Nodes
pub mod Merge
pub mod Finalize
mod Tests
use lo2s.Shared.{
  ℕ, ◌^◌, ◌-◌, ℤ, negsuc, Bool, true, false, Option, none, some, List, [], ◌∷◌, length, set,
  replicate, ltb, if◌then◌else◌, Result, ok, err, Fault, ◌>>=◌,
}
use lo2s.Ompt.{OmptCctx}
use lo2s.Cctx.{CallingContext, root, process, thread, sample_addr, gpu_kernel, syscall, openmp, eq}

-- `std::map<CallingContext, LocalCctxNode>`
pub data LocalNodes : Type 0 where
  local_nil : LocalNodes
  local_cons :
      (key : CallingContext) (ref : ℕ) (children : LocalNodes) (rest : LocalNodes) → LocalNodes

-- `std::map<CallingContext, GlobalCctxNode>`; a node has the reference of its `cctx`.
pub data GlobalNodes : Type 0 where
  global_nil : GlobalNodes
  global_cons :
      (key : CallingContext) (cctx : ℕ) (children : GlobalNodes) (rest : GlobalNodes) → GlobalNodes

-- The functions `cctx_for_address` and so on, on the registry's state: the reference of the
-- definition, which is new, or that of an earlier one.
pub record CctxFor (Registry : Type 0) : Type 0 where
  pub for_address : (addr : ℕ) (p : ℤ) (parent : ℕ) → Registry → Result (ℕ × Registry)
  pub for_gpu_kernel : (kernel_id : ℕ) (p : ℤ) (parent : ℕ) → Registry → Result (ℕ × Registry)
  pub for_openmp : (context : OmptCctx) (p : ℤ) (parent : ℕ) → Registry → Result (ℕ × Registry)
  pub for_thread : (t : ℤ) (p : ℤ) → Registry → Result (ℕ × Registry)
  pub for_process : (p : ℤ) → Registry → Result (ℕ × Registry)
  pub for_syscall : (syscall_id : ℕ) → Registry → Result (ℕ × Registry)

-- The mapping table, `MergeContext` and the registry.
pub record MergeState (Registry : Type 0) : Type 0 where
  pub mapping_table : List ℕ
  pub p : ℤ
  pub registry : Registry

-- What `find` compares. No node below the root has the key ROOT.
unfoldable pub same : CallingContext → CallingContext → Bool
unfolding eq
same c k = elim (eq c k) [ err f ↦ false | ok b ↦ b ]

-- `global_node->second.children.find`
unfoldable pub find : CallingContext → GlobalNodes → Option (ℕ × GlobalNodes)
find c global_nil = none
find c (global_cons k r children rest) =
    let later = find c rest in if same c k then some (r, children) else later

-- The node of a key, with its children as they are now: in its place, or new.
unfoldable pub place : CallingContext → ℕ → GlobalNodes → GlobalNodes → GlobalNodes
place c r children global_nil = global_cons c r children global_nil
place c r children (global_cons k q old rest) =
    let later = place c r children rest in
    if same c k then global_cons k r children rest else global_cons k q old later

-- The process below a node, for the addresses there.
unfoldable pub process_below : CallingContext → ℤ → ℤ
process_below (process q) p = q
process_below _ p = p

-- `mapping_table.at(ref) = r`
unfoldable pub map_ref : ℕ → ℕ → List ℕ → Result (List ℕ)
map_ref ref r table =
    if ltb ref (length table) then ok (set table ref r) else err Fault.out_of_range

module _ {Registry : Type 0} (f : CctxFor Registry) where
  -- `*global_node->second.cctx` of the parent: the root has none.
  abbrev pub with_parent : Option ℕ → (ℕ → Result (ℕ × Registry)) → Result (ℕ × Registry)
  with_parent none call = err Fault.null_pointer
  with_parent (some parent) call = call parent

  -- The `switch` of `merge_nodes`.
  unfoldable pub new_cctx : CallingContext → ℤ → Option ℕ → Registry → Result (ℕ × Registry)
  new_cctx root p parent t = err Fault.runtime_error
  new_cctx (process q) p parent t = f.for_process q t
  new_cctx (thread q) p parent t = f.for_thread q p t
  new_cctx (sample_addr a) p parent t = with_parent parent (λ r. f.for_address a p r t)
  new_cctx (gpu_kernel k) p parent t = with_parent parent (λ r. f.for_gpu_kernel k p r t)
  new_cctx (syscall s) p parent t = f.for_syscall s t
  new_cctx (openmp o) p parent t = with_parent parent (λ r. f.for_openmp o p r t)

  -- The global node of a local one: its reference and its children.
  unfoldable pub global_child :
      CallingContext
      → Option ℕ
      → GlobalNodes
      → MergeState Registry
      → Result (ℕ × GlobalNodes × Registry)
  global_child c parent gs s = elim (find c gs) [
    | some (r, children) ↦ ok (r, children, s.registry)
    | none ↦ new_cctx c s.p parent s.registry >>= λ n. ok (n.0, global_nil, n.1)
  ]

  -- `merge_nodes`, on the children of a local node and of a global one.
  unfoldable pub merge_nodes :
      LocalNodes
      → Option ℕ
      → GlobalNodes
      → MergeState Registry
      → Result (GlobalNodes × MergeState Registry)
  merge_nodes local_nil parent gs s = ok (gs, s)
  merge_nodes (local_cons c ref children rest) parent gs s = global_child c parent gs s >>= λ g.
      map_ref ref g.0 s.mapping_table >>= λ table.
      merge_nodes children (some g.0) g.1
        (record { mapping_table = table; p = process_below c s.p; registry = g.2 })
      >>= λ m. merge_nodes rest parent (place c g.0 m.0 gs) m.1

  -- `merge_calling_contexts`, in a build without assertions. `Process()` is -1.
  unfoldable pub merge_calling_contexts :
      ℕ → LocalNodes → GlobalNodes → Registry → Result (GlobalNodes × MergeState Registry)
  merge_calling_contexts num_cctx local_tree gs t =
      merge_nodes local_tree none gs
        (record { mapping_table = replicate num_cctx 0; p = negsuc 0; registry = t })

  -- The first loop of `finalize`: the mapping tables, in the order of the trees.
  unfoldable pub finalize_trees :
      List (ℕ × LocalNodes)
      → GlobalNodes
      → Registry
      → Result (List (List ℕ) × GlobalNodes × Registry)
  finalize_trees [] gs t = ok ([], gs, t)
  finalize_trees ((n, l) ∷ trees) gs t = elim (ltb 0 n) [
    | false ↦ finalize_trees trees gs t >>= λ r. ok ([] ∷ r.0, r.1, r.2)
    | true ↦ merge_calling_contexts n l gs t >>= λ m.
        finalize_trees trees (m.0) (m.1.registry) >>= λ r. ok (m.1.mapping_table ∷ r.0, r.1, r.2)
  ]
