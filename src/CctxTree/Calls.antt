-- ===== src/CctxTree/Calls.antt =====
-- The calls of a `LocalCctxTree` (include/lo2s/local_cctx_tree.hpp, src/local_cctx_tree.cpp) in
-- sequence: which trees the calls reach, and that no call on them fails.
use lo2s.Shared.{
  ℕ, zero, suc, ◌-◌, ◌≤◌, ◌<◌, ◌≡◌, ◌≢◌, refl, sym, ap, ◌∙◌, some, none, List, [], ◌∷◌, length,
  get_elem?, ok, ok_inj, err, Fault, arith, ◌^◌,
}
use lo2s.Cctx.{CallingContext, root, context_type}
use lo2s.Cctx.Order.{ne-same_type}
use lo2s.CctxTree.{
  LocalCctxNode, LocalCctxTree, Mark, marked, new_tree, node, at_level, cctx_leave,
  handle_enter_cctx_node, cctx_sample, cctx_sample_ips, sample_loop,
}
use lo2s.CctxTree.Node.{IsLinked}
use lo2s.CctxTree.Stack.{IsStack, stack_refs, replay, IsValid, Numbered-same}
use lo2s.CctxTree.Sample.{sample_loop-wraps, cctx_sample-IsValid, cctx_sample_ips-IsValid}
use lo2s.CctxTree.Leave.{cctx_leave_lem, cur_level_valid}
use lo2s.CctxTree.Enter.{handle_enter-Entered, kept, below_top}

-- The trees that calls reach from the constructor on: enters of a level from 1 to one above the
-- top, leaves of any level, samples of one address or of a call chain, and events of the users.
pub data Reached : LocalCctxTree → Type 0 where
  made : Reached new_tree
  by_enter :
      (tp level : ℕ) (c : CallingContext) (t t' : LocalCctxTree)
      → c ≢ root
      → 0 < level
      → level ≤ length t.cur
      → handle_enter_cctx_node tp level c t ≡ ok t'
      → Reached t
      → Reached t'
  by_leave :
      (tp level k : ℕ) (t t' : LocalCctxTree)
      → cctx_leave tp level t ≡ ok (k, t')
      → Reached t
      → Reached t'
  by_sample :
      (tp ip : ℕ) (t t' : LocalCctxTree) → cctx_sample tp ip t ≡ ok t' → Reached t → Reached t'
  by_callchain :
      (tp num : ℕ) (ips : List ℕ) (t t' : LocalCctxTree)
      → 0 < num
      → num ≤ length ips
      → num < 2 ^ 64
      → cctx_sample_ips tp num ips t ≡ ok t'
      → Reached t
      → Reached t'
  by_mark : (tp : ℕ) (m : Mark) (t : LocalCctxTree) → Reached t → Reached (marked tp m t)

new_tree-IsLinked :
    (i : ℕ) (n : LocalCctxNode)
    → get_elem? new_tree.nodes i ≡ some n
    → IsLinked new_tree.nodes n.children
unfolding new_tree
new_tree-IsLinked zero n h = ground arith
new_tree-IsLinked (suc i) n h = ground arith

new_tree-refs : (i : ℕ) (n : LocalCctxNode) → get_elem? new_tree.nodes (suc i) ≡ some n → n.ref ≡ i
unfolding new_tree
new_tree-refs i n h = ground arith

new_tree-keys :
    (i : ℕ) (n : LocalCctxNode) → get_elem? new_tree.nodes (suc i) ≡ some n → n.key ≢ root
unfolding new_tree
new_tree-keys i n h = ground arith

new_tree-IsValid : IsValid new_tree
unfolding new_tree
new_tree-IsValid = record {
  numbered = record {
    count = refl;
    refs = new_tree-refs;
    linked = new_tree-IsLinked;
    keys = new_tree-keys;
  };
  stack = refl;
  replayed = refl;
}

IsValid-as : (t t' : LocalCctxTree) → t ≡ t' → IsValid t → IsValid t'
IsValid-as t t' e v = rw e at v

pub Reached-IsValid : (t : LocalCctxTree) → Reached t → IsValid t
Reached-IsValid _ made = new_tree-IsValid
Reached-IsValid _ (by_enter tp level c t t' h p q e r) =
    let d = handle_enter-Entered tp level c t (Reached-IsValid t r) h p q in
    IsValid-as d.tree t' (ok_inj d.tree t' (sym d.result ∙ e)) d.valid
Reached-IsValid _ (by_leave tp level k t t' e r) =
    let d = cctx_leave_lem tp level t (Reached-IsValid t r) in
    IsValid-as d.0 t' (ap (λ (x : ℕ × LocalCctxTree). x.1) (ok_inj _ _ (sym d.1 ∙ e))) d.2
Reached-IsValid _ (by_sample tp ip t t' e r) =
    let d = cctx_sample-IsValid tp ip t (Reached-IsValid t r) in
    IsValid-as d.0 t' (ok_inj d.0 t' (sym d.1 ∙ e)) d.2
Reached-IsValid _ (by_callchain tp num ips t t' p q b e r) =
    let d = cctx_sample_ips-IsValid tp num ips t (Reached-IsValid t r) p q b in
    IsValid-as d.0 t' (ok_inj d.0 t' (sym d.1 ∙ e)) d.2
Reached-IsValid _ (by_mark tp m t r) =
    let v = Reached-IsValid t r in
    record { numbered = Numbered-same t t.cur _ v.numbered; stack = v.stack; replayed = v.replayed }

-- On every tree that calls reach, the written enter and leave events are properly nested, and a
-- reader of the trace has open exactly the contexts of the call stack.
pub Reached-replay : (t : LocalCctxTree) → Reached t → replay t.written ≡ some (stack_refs t.cur)
Reached-replay t r = (Reached-IsValid t r).replayed

-- On every tree that calls reach, the next call succeeds and reaches a tree: an enter of a context
-- other than the root at a level from 1 to one above the top, a leave of any level, and a sample.
pub Reached-progress :
    (t : LocalCctxTree) (tp level ip : ℕ) (c : CallingContext)
    → Reached t
    → c ≢ root
    → 0 < level
    → level ≤ length t.cur
    → ((t' : LocalCctxTree) × (handle_enter_cctx_node tp level c t ≡ ok t') × Reached t')
      × ((t' : LocalCctxTree) × (k : ℕ) × (cctx_leave tp level t ≡ ok (k, t')) × Reached t')
      × ((t' : LocalCctxTree) × (cctx_sample tp ip t ≡ ok t') × Reached t')
Reached-progress t tp level ip c r h p q =
    let v = Reached-IsValid t r in
    let e = handle_enter-Entered tp level c t v h p q in
    let l = cctx_leave_lem tp level t v in
    let s = cctx_sample-IsValid tp ip t v in
    (
      (e.tree, e.result, by_enter tp level c t e.tree h p q e.result r),
      (l.0, _, l.1, by_leave tp level _ t l.0 l.1 r),
      (s.0, s.1, by_sample tp ip t s.0 s.1 r),
    )

-- On a valid tree, entering a context at a level whose node has a context of the same type does
-- nothing, whether the two are equal or not: the call succeeds, the old node stays on the stack, and
-- no event is written.
pub handle_enter-ignored :
    (tp level : ℕ) (c : CallingContext) (t : LocalCctxTree) (i : ℕ) (n : LocalCctxNode)
    → IsValid t
    → 0 < level
    → level < length t.cur
    → at_level t level ≡ ok i
    → node t i ≡ ok n
    → context_type n.key ≡ context_type c
    → handle_enter_cctx_node tp level c t ≡ ok t
handle_enter-ignored tp level c t i n v p q e f h =
    let top = cur_level_valid t v in
    below_top tp level c t (length t.cur - 1) top.0 p (omega arith)
    ∙ kept tp level c t i n e f (ne-same_type n.key c h)

get_elem?-none {ℓ} : {A : Type ℓ} (l : List A) (i : ℕ) → length l ≤ i → get_elem? l i ≡ none
get_elem?-none [] i h = ground arith
get_elem?-none (x ∷ l) zero h = absurd (omega arith)
get_elem?-none (x ∷ l) (suc i) h = ground (arith, get_elem?-none l i)

sample_ips_fault :
    (tp : ℕ) (ips : List ℕ) (t : LocalCctxTree) (i : ℕ) (r : List ℕ)
    → t.cur ≡ i ∷ r
    → sample_loop ips (2 ^ 64 - 1) i t ≡ err Fault.out_of_range
    → cctx_sample_ips tp 0 ips t ≡ err Fault.out_of_range
unfolding cctx_sample_ips
sample_ips_fault tp ips t i r e f = ground arith

-- A sample with no instruction pointers, `num_ips` 0, on a valid tree: the counter of the loop
-- wraps to 2 ^ 64 - 1, and the first read is out of the range of any array of fewer elements.
pub cctx_sample_ips-none :
    (tp : ℕ) (ips : List ℕ) (t : LocalCctxTree)
    → IsValid t
    → length ips < 2 ^ 64 - 1
    → cctx_sample_ips tp 0 ips t ≡ err Fault.out_of_range
cctx_sample_ips-none tp ips t v h = go t.cur refl v.stack
  where
    go :
        (s : List ℕ)
        → t.cur ≡ s
        → IsStack (length t.nodes) s
        → cctx_sample_ips tp 0 ips t ≡ err Fault.out_of_range
    go [] e k = absurd k
    go (i ∷ r) e k =
        sample_ips_fault tp ips t i r e
          (sample_loop-wraps ips (2 ^ 64 - 2) i t (get_elem?-none ips (2 ^ 64 - 1) (omega arith)))
