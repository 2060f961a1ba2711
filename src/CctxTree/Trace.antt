-- ===== src/CctxTree/Trace.antt =====
-- `handle_enter_cctx_node`, `cctx_leave` and the samples of a `LocalCctxTree`
-- (include/lo2s/local_cctx_tree.hpp, src/local_cctx_tree.cpp) on a valid tree.
use lo2s.Shared.{
  ℕ, ◌-◌, ◌<◌, ◌≡◌, ◌≢◌, ◌⊎◌, inl, inr, ap, true, false, some, List, [], ◌∷◌, length, Result, ok,
  arith,
}
use lo2s.Cctx.{CallingContext, root, context_type, eq, ne}
use lo2s.Cctx.Order.{ne-same_type}
use lo2s.CctxTree.{LocalCctxNode, LocalCctxTree, enter, node, enter_new, create_cctx_node}
use lo2s.CctxTree.Node.{Child, key_at, create_cctx_node-Child}
use lo2s.CctxTree.Stack.{IsStack, IsValid, IsStack-mono, node_ref, Numbered-same}

eq-same_type : (k c : CallingContext) → eq c k ≡ ok true → context_type k ≡ context_type c
unfolding eq context_type
eq-same_type root c h = ground arith
eq-same_type k c h = ground arith

ne_same : (k c : CallingContext) → (k ≡ c) ⊎ (eq c k ≡ ok true) → ne k c ≡ ok false
ne_same k c (inl e) = ne-same_type k c (ap context_type e)
ne_same k c (inr e) = ne-same_type k c (eq-same_type k c e)

-- A new top, for the context `c`, over the stack `s`.
pub record Pushed (c : CallingContext) (s : List ℕ) (outcome : Result LocalCctxTree) : Type 0 where
  pub tree : LocalCctxTree
  pub result : outcome ≡ ok tree
  pub valid : IsValid tree
  pub top : ℕ
  pub cur : tree.cur ≡ top ∷ s
  pub key : CallingContext
  pub key_eq : key_at tree.nodes top ≡ some key
  pub key_same : ne key c ≡ ok false
  pub own_key : (key ≡ c) ⊎ (eq c key ≡ ok true)

-- The tree after a context is entered as the node `k` with the reference number `ref`.
abbrev pub entered : ℕ → ℕ → ℕ → LocalCctxTree → LocalCctxTree
entered tp k ref t = record t { cur = k ∷ t.cur; written = enter tp ref ∷ t.written }

enter_new_lem :
    (tp : ℕ) (c : CallingContext) (t : LocalCctxTree) (i : ℕ) (r : List ℕ) (k : ℕ)
    (t1 : LocalCctxTree) (n : LocalCctxNode)
    → t.cur ≡ i ∷ r
    → create_cctx_node c i t ≡ ok (k, t1)
    → node t1 k ≡ ok n
    → enter_new tp c t ≡ ok (entered tp k n.ref t1)
unfolding enter_new
enter_new_lem tp c t i r k t1 n e f g = ground arith

pub top_within : (i : ℕ) (r : List ℕ) (m : ℕ) → 0 < m → IsStack m (i ∷ r) → i < m
top_within i [] m p s = omega arith
top_within i (j ∷ r) m p s = s.1

module _ (tp : ℕ) (c : CallingContext) (t : LocalCctxTree) (i : ℕ) (r : List ℕ) (v : IsValid t)
    (e : t.cur ≡ i ∷ r) (h : c ≢ root) where
  top-Child : Child c t (create_cctx_node c i t)
  top-Child =
      create_cctx_node-Child c i t v.numbered
        (top_within i r (length t.nodes) (omega (arith, v.numbered.count)) (rw e at (v.stack))) h

  entered-IsValid :
      (ch : Child c t (create_cctx_node c i t)) (ref : ℕ)
      → ref ≡ ch.index - 1
      → IsValid (entered tp ch.index ref ch.tree)
  entered-IsValid ch ref f = record {
    numbered =
        Numbered-same ch.tree (ch.index ∷ ch.tree.cur) (enter tp ref ∷ ch.tree.written) ch.numbered;
    stack =
        rw (ch.cur_same, e)
          (
            ch.positive,
            ch.within,
            IsStack-mono (length t.nodes) (length ch.tree.nodes) (i ∷ r) ch.grown
                (rw e at (v.stack)),
          );
    replayed = rw (ch.cur_same, ch.written_same, e, v.replayed) (rw e (rw f));
  }

  pub enter_new-Pushed : Pushed c t.cur (enter_new tp c t)
  enter_new-Pushed =
      let (n, here, found, ref) =
        node_ref top-Child.tree top-Child.index top-Child.numbered top-Child.positive
          top-Child.within in
      record {
        tree = entered tp top-Child.index n.ref top-Child.tree;
        result = enter_new_lem tp c t i r top-Child.index top-Child.tree n e top-Child.result found;
        valid = entered-IsValid top-Child n.ref ref;
        top = top-Child.index;
        cur = ap (λ s. top-Child.index ∷ s) top-Child.cur_same;
        key = top-Child.key;
        key_eq = top-Child.key_eq;
        key_same = ne_same top-Child.key c top-Child.key_same;
        own_key = top-Child.key_same;
      }
