-- ===== src/CctxTree/Tests.antt =====
-- A concrete tree of include/lo2s/local_cctx_tree.hpp, with one context on its call stack.
use lo2s.Shared.{ℕ, pos, ◌≡◌, ◌≢◌, refl, [], ◌∷◌, length, some, ok, err, Fault, arith}
use lo2s.Cctx.{root, process, gpu_kernel, context_type}
use lo2s.CctxTree.{
  LocalCctxTree, new_tree, enter, handle_enter_cctx_node, cctx_leave, cctx_sample, cctx_sample_ips,
  enter_new, create_cctx_node, find_child, cur_level,
}
use lo2s.CctxTree.Stack.{IsValid, stack_refs, replay}
use lo2s.CctxTree.Enter.{Entered, handle_enter-Entered}
use lo2s.CctxTree.Calls.{
  Reached, made, by_enter, Reached-IsValid, Reached-replay, Reached-progress, handle_enter-ignored,
  cctx_sample_ips-none,
}

abbrev tree : LocalCctxTree
tree = record {
  nodes =
      record { key = root; ref = 0; children = (process (pos 5), 1) ∷ [] }
      ∷ record { key = process (pos 5); ref = 0; children = [] }
      ∷ [];
  cur = 1 ∷ 0 ∷ [];
  written = enter 10 0 ∷ [];
  next_cctx_ref = 1;
  ref_count = 0;
}

process≢root : process (pos 5) ≢ root
process≢root = ground arith

kernel≢root : gpu_kernel 3 ≢ root
kernel≢root = ground arith

entered_tree : handle_enter_cctx_node 10 1 (process (pos 5)) new_tree ≡ ok tree
unfolding handle_enter_cctx_node new_tree cur_level enter_new create_cctx_node find_child
entered_tree = refl

one_deep : 1 ≡ length new_tree.cur
unfolding new_tree
one_deep = refl

tree-Reached : Reached tree
tree-Reached =
    by_enter 10 1 (process (pos 5)) new_tree tree process≢root (omega arith)
      (omega (arith, one_deep)) entered_tree made

tree-IsValid : IsValid tree
tree-IsValid = Reached-IsValid tree tree-Reached

Reached-replay_example : replay tree.written ≡ some (stack_refs tree.cur)
Reached-replay_example = Reached-replay tree tree-Reached

Reached-progress_example :
    ((t' : LocalCctxTree) × (handle_enter_cctx_node 11 2 (gpu_kernel 3) tree ≡ ok t') × Reached t')
    × ((t' : LocalCctxTree) × (k : ℕ) × (cctx_leave 11 2 tree ≡ ok (k, t')) × Reached t')
    × ((t' : LocalCctxTree) × (cctx_sample 11 4096 tree ≡ ok t') × Reached t')
Reached-progress_example =
    Reached-progress tree 11 2 4096 (gpu_kernel 3) tree-Reached kernel≢root (omega arith)
      (omega arith)

handle_enter-Entered_example :
    Entered 2 (gpu_kernel 3) tree (handle_enter_cctx_node 11 2 (gpu_kernel 3) tree)
handle_enter-Entered_example =
    handle_enter-Entered 11 2 (gpu_kernel 3) tree tree-IsValid kernel≢root (omega arith)
      (omega arith)

handle_enter-ignored_example : handle_enter_cctx_node 12 1 (process (pos 9)) tree ≡ ok tree
unfolding context_type
handle_enter-ignored_example =
    handle_enter-ignored 12 1 (process (pos 9)) tree 1
      (record { key = process (pos 5); ref = 0; children = [] }) tree-IsValid (omega arith)
      (omega arith) refl refl refl

cctx_sample_ips-none_example : cctx_sample_ips 13 0 (7 ∷ []) tree ≡ err Fault.out_of_range
cctx_sample_ips-none_example = cctx_sample_ips-none 13 (7 ∷ []) tree tree-IsValid (omega arith)
