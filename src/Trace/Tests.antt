-- ===== src/Trace/Tests.antt =====
-- Concrete local trees of src/trace/trace.cpp: the lemmas' hypotheses hold on them.
use lo2s.Shared.{
  ℕ, ◌+◌, pos, ◌≡◌, ◌⊎◌, none, refl, some, List, [], ◌∷◌, length, get_elem?, ok, arith,
}
use lo2s.Cctx.{CallingContext, process, thread, sample_addr, eq}
use lo2s.Trace.{
  LocalNodes, local_nil, local_cons, GlobalNodes, global_nil, global_cons, CctxFor, MergeState,
  same, find, merge_calling_contexts, finalize_trees,
}
use lo2s.Trace.Paths.{local_at, global_at}
use lo2s.Trace.Nodes.{Defines}
use lo2s.Trace.Finalize.{Mergeable, merge_calling_contexts-maps, finalize_trees-unifies}

-- A registry that counts its definitions.
abbrev counter : CctxFor ℕ
counter = record {
  for_address = λ a p r t. ok (t, t + 1);
  for_gpu_kernel = λ k p r t. ok (t, t + 1);
  for_openmp = λ o p r t. ok (t, t + 1);
  for_thread = λ q p t. ok (t, t + 1);
  for_process = λ p t. ok (t, t + 1);
  for_syscall = λ s t. ok (t, t + 1);
}

counter-Defines : Defines counter
counter-Defines = record {
  address = λ a p r t. ((t, t + 1), refl);
  gpu = λ k p r t. ((t, t + 1), refl);
  omp = λ o p r t. ((t, t + 1), refl);
  thr = λ q p t. ((t, t + 1), refl);
  proc = λ p t. ((t, t + 1), refl);
  sys = λ s t. ((t, t + 1), refl);
}

-- Process 5 with its thread and two samples, and the same process with another thread.
abbrev first_tree : LocalNodes
first_tree =
    local_cons (process (pos 5)) 0
      (local_cons (thread (pos 5)) 1
        (local_cons (sample_addr 16) 3 local_nil
          (local_cons (sample_addr 32) 2 local_nil local_nil))
        local_nil)
      local_nil

abbrev second_tree : LocalNodes
second_tree =
    local_cons (process (pos 5)) 0
      (local_cons (thread (pos 5)) 2 local_nil (local_cons (thread (pos 6)) 1 local_nil local_nil))
      local_nil

first-Mergeable : Mergeable (4, first_tree)
first-Mergeable = (
  (tt, ((λ e. cc), ((λ e. cc), tt, ((λ e. cc), tt, tt)), tt), tt),
  (
    omega arith,
    (λ j a b. ground (arith, a, b)),
    (λ a. ground (arith, a)),
    (
      omega arith,
      (λ j a b. ground (arith, a, b)),
      (λ a. ground (arith, a)),
      (
        omega arith,
        (λ j a b. ground (arith, a, b)),
        (λ a. ground (arith, a)),
        tt,
        (omega arith, (λ j a b. ground (arith, a, b)), (λ a. ground (arith, a)), tt, tt),
      ),
      tt,
    ),
    tt,
  ),
)

second-Mergeable : Mergeable (3, second_tree)
second-Mergeable = (
  (tt, ((λ e. cc), tt, ((λ e. cc), tt, tt)), tt),
  (
    omega arith,
    (λ j a b. ground (arith, a, b)),
    (λ a. ground (arith, a)),
    (
      omega arith,
      (λ j a b. ground (arith, a, b)),
      (λ a. ground (arith, a)),
      tt,
      (omega arith, (λ j a b. ground (arith, a, b)), (λ a. ground (arith, a)), tt, tt),
    ),
    tt,
  ),
)

abbrev to_thread : List CallingContext
to_thread = process (pos 5) ∷ thread (pos 5) ∷ []

-- The process is in the global tree already.
abbrev global_tree : GlobalNodes
global_tree = global_cons (process (pos 5)) 7 global_nil global_nil

first_at : local_at to_thread first_tree ≡ some 1
unfolding local_at same eq
first_at = refl

second_at : local_at to_thread second_tree ≡ some 2
unfolding local_at same eq
second_at = refl

process_at : global_at (process (pos 5) ∷ []) global_tree ≡ some 7
unfolding global_at find same eq
process_at = refl

merge_calling_contexts-maps_example :
    (gs' : GlobalNodes) × (s : MergeState ℕ) × (merge_calling_contexts counter 4 first_tree
        global_nil 0
      ≡ ok (gs', s))
    × (length s.mapping_table ≡ 4)
    × ((local_at to_thread first_tree ≡ none)
        ⊎ ((ref : ℕ) × (r : ℕ) × (local_at to_thread first_tree ≡ some ref)
            × (get_elem? s.mapping_table ref ≡ some r)
            × (global_at to_thread gs' ≡ some r)))
    × ((global_at to_thread global_nil ≡ none)
        ⊎ (global_at to_thread gs' ≡ global_at to_thread global_nil))
merge_calling_contexts-maps_example =
    merge_calling_contexts-maps counter counter-Defines 4 first_tree global_nil 0 first-Mergeable
      to_thread to_thread

finalize_trees-unifies_example :
    (tables : List (List ℕ)) × (gs' : GlobalNodes) × (t' : ℕ) × (table_k table_l : List ℕ) × (r : ℕ)
    × (finalize_trees counter ((4, first_tree) ∷ (3, second_tree) ∷ []) global_nil 0
        ≡ ok (tables, gs', t'))
    × (get_elem? tables 0 ≡ some table_k)
    × (get_elem? tables 1 ≡ some table_l)
    × (get_elem? table_k 1 ≡ some r)
    × (get_elem? table_l 2 ≡ some r)
    × (global_at to_thread gs' ≡ some r)
finalize_trees-unifies_example =
    finalize_trees-unifies counter counter-Defines ((4, first_tree) ∷ (3, second_tree) ∷ [])
      global_nil 0 (first-Mergeable, (second-Mergeable, tt)) 0 1 4 3 first_tree second_tree refl
      refl to_thread 1 2 first_at second_at
