-- ===== src/Trace/Nodes.antt =====
-- The trees of src/trace/trace.cpp: which local trees can be merged, and the global node of one local
-- node.
use lo2s.Shared.{
  ℕ, ◌<◌, ◌≡◌, ◌≢◌, ◌⊎◌, inl, inr, refl, ℤ, Option, none, some, Option-cases, Result, ok,
}
use lo2s.Ompt.{OmptCctx}
use lo2s.Cctx.{CallingContext, root, process, thread, sample_addr, gpu_kernel, syscall, openmp}
use lo2s.Trace.{
  LocalNodes, local_nil, local_cons, GlobalNodes, global_nil, CctxFor, MergeState, find, new_cctx,
  global_child,
}

-- A local tree has the reference `j`.
abbrev pub Mentions : ℕ → LocalNodes → Type 0
Mentions j local_nil = ⊥
Mentions j (local_cons c ref children rest) = (ref ≡ j) ⊎ (Mentions j children) ⊎ (Mentions j rest)

-- No two nodes have the same reference, and all references are below `n`.
abbrev pub Distinct : ℕ → LocalNodes → Type 0
Distinct n local_nil = Unit {0}
Distinct n (local_cons c ref children rest) =
    (ref < n)
    × ((j : ℕ) → (ref ≡ j) ⊎ Mentions j children → Mentions j rest → ⊥)
    × (Mentions ref children → ⊥)
    × Distinct n children
    × Distinct n rest

-- A key that has a definition below a parent, or below the root.
abbrev pub Allowed : CallingContext → Option ℕ → Type 0
Allowed root parent = ⊥
Allowed (process p) parent = Unit {0}
Allowed (thread t) parent = Unit {0}
Allowed (sample_addr a) parent = parent ≢ none
Allowed (gpu_kernel k) parent = parent ≢ none
Allowed (syscall s) parent = Unit {0}
Allowed (openmp o) parent = parent ≢ none

-- Samples, kernels and OpenMP regions are below another context, and ROOT is nowhere.
abbrev pub Below : LocalNodes → Type 0
Below local_nil = Unit {0}
Below (local_cons c ref children rest) = (c ≢ root) × Below children × Below rest

abbrev pub AtRoot : LocalNodes → Type 0
AtRoot local_nil = Unit {0}
AtRoot (local_cons c ref children rest) = Allowed c none × Below children × AtRoot rest

abbrev pub Fits : Option ℕ → LocalNodes → Type 0
Fits none l = AtRoot l
Fits (some r) l = Below l

Allowed-parent : (c : CallingContext) (r : ℕ) → c ≢ root → Allowed c (some r)
Allowed-parent root r n = absurd (n refl)
Allowed-parent (process p) r n = tt
Allowed-parent (thread p) r n = tt
Allowed-parent (sample_addr p) r n = λ e. cc
Allowed-parent (gpu_kernel p) r n = λ e. cc
Allowed-parent (syscall p) r n = tt
Allowed-parent (openmp p) r n = λ e. cc

pub Fits-cons :
    (parent : Option ℕ) (c : CallingContext) (ref : ℕ) (children rest : LocalNodes)
    → Fits parent (local_cons c ref children rest)
    → Allowed c parent × Below children × Fits parent rest
Fits-cons none c ref children rest f = f
Fits-cons (some r) c ref children rest f = (Allowed-parent c r f.0, f.1, f.2)

module _ {Registry : Type 0} where
  -- The functions that make the definitions succeed.
  pub record Defines (f : CctxFor Registry) : Type 0 where
    pub address :
        (a : ℕ) (p : ℤ) (r : ℕ) (t : Registry) → (n : ℕ × Registry) × (f.for_address a p r t ≡ ok n)
    pub gpu :
        (k : ℕ) (p : ℤ) (r : ℕ) (t : Registry)
        → (n : ℕ × Registry) × (f.for_gpu_kernel k p r t ≡ ok n)
    pub omp :
        (o : OmptCctx) (p : ℤ) (r : ℕ) (t : Registry)
        → (n : ℕ × Registry) × (f.for_openmp o p r t ≡ ok n)
    pub thr : (q p : ℤ) (t : Registry) → (n : ℕ × Registry) × (f.for_thread q p t ≡ ok n)
    pub proc : (p : ℤ) (t : Registry) → (n : ℕ × Registry) × (f.for_process p t ≡ ok n)
    pub sys : (s : ℕ) (t : Registry) → (n : ℕ × Registry) × (f.for_syscall s t ≡ ok n)

  new_cctx_lem :
      (f : CctxFor Registry) (d : Defines f) (c : CallingContext) (p : ℤ) (parent : Option ℕ)
      (t : Registry)
      → Allowed c parent
      → (n : ℕ × Registry) × (new_cctx f c p parent t ≡ ok n)
  unfolding new_cctx
  new_cctx_lem f d root p parent t a = elim a [ ]
  new_cctx_lem f d (process q) p parent t a = d.proc q t
  new_cctx_lem f d (thread q) p parent t a = d.thr q p t
  new_cctx_lem f d (sample_addr x) p none t a = absurd (a refl)
  new_cctx_lem f d (sample_addr x) p (some r) t a = d.address x p r t
  new_cctx_lem f d (gpu_kernel k) p none t a = absurd (a refl)
  new_cctx_lem f d (gpu_kernel k) p (some r) t a = d.gpu k p r t
  new_cctx_lem f d (syscall s) p parent t a = d.sys s t
  new_cctx_lem f d (openmp o) p none t a = absurd (a refl)
  new_cctx_lem f d (openmp o) p (some r) t a = d.omp o p r t

  -- The global node of a local one.
  pub record Found (c : CallingContext) (gs : GlobalNodes)
      (outcome : Result (ℕ × GlobalNodes × Registry)) : Type 0 where
    pub ref : ℕ
    pub children : GlobalNodes
    pub registry : Registry
    pub result : outcome ≡ ok (ref, children, registry)
    pub there : (find c gs ≡ none) ⊎ (find c gs ≡ some (ref, children))

  pub global_child-Found :
      (f : CctxFor Registry) (d : Defines f) (c : CallingContext) (parent : Option ℕ)
      (gs : GlobalNodes) (s : MergeState Registry)
      → Allowed c parent
      → Found c gs (global_child f c parent gs s)
  unfolding global_child
  global_child-Found f d c parent gs s a = elim (Option-cases (find c gs)) [
    | inl n ↦
        let (x, e) = new_cctx_lem f d c s.p parent s.registry a in
        record {
          ref = x.0;
          children = global_nil;
          registry = x.1;
          result = rw (n, e, global_child) refl;
          there = inl n;
        }
    | inr (x, e) ↦ record {
      ref = x.0;
      children = x.1;
      registry = s.registry;
      result = rw (e, global_child) refl;
      there = inr e;
    }
  ]
