-- ===== src/CctxTree/Enter.antt =====
-- `handle_enter_cctx_node` of include/lo2s/local_cctx_tree.hpp on a valid tree: it succeeds, and
-- puts the context, or one that `operator!=` does not tell from it, on the call stack.
use lo2s.Shared.{
  ℕ, zero, suc, ◌+◌, ◌-◌, ◌≤◌, ◌<◌, ◌≡◌, ◌≢◌, ◌⊎◌, inl, inr, refl, ap, ◌∙◌, true, false, Bool-cases,
  some, List, [], ◌∷◌, length, get_elem?, get_elem?-some, ◌==◌, Result, ok, arith, ==_iff,
}
use lo2s.Cctx.{CallingContext, root, eq, ne}
use lo2s.Cctx.Order.{ne_total}
use lo2s.CctxTree.{
  LocalCctxNode, LocalCctxTree, node, cur_level, at_level, cctx_leave, enter_new, enter_at,
  handle_enter_cctx_node,
}
use lo2s.CctxTree.Node.{key_at}
use lo2s.CctxTree.Stack.{IsStack, IsValid, rest_of}
use lo2s.CctxTree.Leave.{rest_of_twice, rest_of_deep, cur_level_valid, cctx_leave_lem}
use lo2s.CctxTree.Trace.{Pushed, enter_new-Pushed}

-- What entering a context at a level promises: the stack below the level stays, and the node at
-- the level is one that `operator!=` does not tell from the context. It is the context's own, unless
-- nothing changes at all.
pub record Entered (level : ℕ) (c : CallingContext) (t : LocalCctxTree)
    (outcome : Result LocalCctxTree) : Type 0 where
  pub tree : LocalCctxTree
  pub result : outcome ≡ ok tree
  pub valid : IsValid tree
  pub deep : level < length tree.cur
  pub below : rest_of level tree.cur ≡ rest_of level t.cur
  pub index : ℕ
  pub placed : at_level tree level ≡ ok index
  pub key : CallingContext
  pub key_eq : key_at tree.nodes index ≡ some key
  pub key_same : ne key c ≡ ok false
  pub own_key : (tree ≡ t) ⊎ (key ≡ c) ⊎ (eq c key ≡ ok true)

-- The three ways through `handle_enter_cctx_node`.
module _ (tp level : ℕ) (c : CallingContext) (t : LocalCctxTree) where
  on_top :
      (top : ℕ)
      → cur_level t ≡ ok top
      → 0 < level
      → level ≡ top + 1
      → handle_enter_cctx_node tp level c t ≡ enter_new tp c t
  unfolding handle_enter_cctx_node
  on_top top e p q = ground arith

  pub below_top :
      (top : ℕ)
      → cur_level t ≡ ok top
      → 0 < level
      → level ≤ top
      → handle_enter_cctx_node tp level c t ≡ enter_at tp level c t
  unfolding handle_enter_cctx_node
  below_top top e p q = ground arith

  pub kept :
      (i : ℕ) (n : LocalCctxNode)
      → at_level t level ≡ ok i
      → node t i ≡ ok n
      → ne n.key c ≡ ok false
      → enter_at tp level c t ≡ ok t
  unfolding enter_at
  kept i n e f g = ground arith

  replaced :
      (i k : ℕ) (n : LocalCctxNode) (t1 : LocalCctxTree)
      → at_level t level ≡ ok i
      → node t i ≡ ok n
      → ne n.key c ≡ ok true
      → cctx_leave tp level t ≡ ok (k, t1)
      → enter_at tp level c t ≡ enter_new tp c t1
  unfolding enter_at
  replaced i k n t1 e f g a = ground arith

  at_level_top : (i : ℕ) (s : List ℕ) → t.cur ≡ i ∷ s → length s ≡ level → at_level t level ≡ ok i
  at_level_top i s e f = let g : length (i ∷ s) - 1 - level ≡ 0 = omega arith in rw (e, g, at_level)

-- The node at a level of the stack.
record Placed (t : LocalCctxTree) (level : ℕ) : Type 0 where
  index : ℕ
  placed : at_level t level ≡ ok index
  found : LocalCctxNode
  there : node t index ≡ ok found
  key_eq : key_at t.nodes index ≡ some found.key
  not_root : found.key ≢ root

IsStack-within :
    (m : ℕ) (s : List ℕ) (k i : ℕ) → 0 < m → IsStack m s → get_elem? s k ≡ some i → i < m
IsStack-within m [] k i p s h = absurd s
IsStack-within m (x ∷ []) zero i p s h = ground arith
IsStack-within m (x ∷ []) (suc k) i p s h = cc
IsStack-within m (x ∷ y ∷ r) zero i p s h = ground arith
IsStack-within m (x ∷ y ∷ r) (suc k) i p s h = IsStack-within m (y ∷ r) k i p s.2 h

-- Only the bottom of the stack is the root of the tree.
IsStack-above :
    (m : ℕ) (s : List ℕ) (k i : ℕ) → suc k < length s → IsStack m s → get_elem? s k ≡ some i → 0 < i
IsStack-above m [] k i p s h = absurd s
IsStack-above m (x ∷ []) k i p s h = absurd (omega arith)
IsStack-above m (x ∷ y ∷ r) zero i p s h = ground arith
IsStack-above m (x ∷ y ∷ r) (suc k) i p s h = IsStack-above m (y ∷ r) k i (omega arith) s.2 h

placed_lem :
    (t : LocalCctxTree) (level : ℕ) → IsValid t → 0 < level → level < length t.cur → Placed t level
placed_lem t level v p b =
    let (i, e) = get_elem?-some t.cur (length t.cur - 1 - level) (omega arith) in
    let inside =
      IsStack-within (length t.nodes) t.cur (length t.cur - 1 - level) i
        (omega (arith, v.numbered.count)) v.stack e in
    let above =
      IsStack-above (length t.nodes) t.cur (length t.cur - 1 - level) i (omega arith) v.stack e in
    let (n, f) = get_elem?-some t.nodes i inside in
    let g : suc (i - 1) ≡ i = omega arith in
    record {
      index = i;
      placed = rw (e, at_level);
      found = n;
      there = rw (f, node);
      key_eq = rw (f, key_at);
      not_root = v.numbered.keys (i - 1) n (rw g f);
    }

-- The tree `t1`, with a stack `s` of `level` nodes on whose top `c` is entered.
Pushed-Entered :
    (level : ℕ) (c : CallingContext) (t : LocalCctxTree) (s : List ℕ)
    (outcome : Result LocalCctxTree)
    → 0 < level
    → length s ≡ level
    → rest_of level s ≡ rest_of level t.cur
    → Pushed c s outcome
    → Entered level c t outcome
Pushed-Entered level c t s outcome p f g q = record {
  tree = q.tree;
  result = q.result;
  valid = q.valid;
  deep = rw (q.cur) (omega (arith, f));
  below = ap (rest_of level) q.cur ∙ rest_of_deep level q.top s p (omega arith) ∙ g;
  index = q.top;
  placed = at_level_top 0 level c q.tree q.top s q.cur f;
  key = q.key;
  key_eq = q.key_eq;
  key_same = q.key_same;
  own_key = inr q.own_key;
}

Entered-as :
    (level : ℕ) (c : CallingContext) (t : LocalCctxTree) (x y : Result LocalCctxTree)
    → x ≡ y
    → Entered level c t y
    → Entered level c t x
Entered-as level c t x y e q = record {
  tree = q.tree;
  result = e ∙ q.result;
  valid = q.valid;
  deep = q.deep;
  below = q.below;
  index = q.index;
  placed = q.placed;
  key = q.key;
  key_eq = q.key_eq;
  key_same = q.key_same;
  own_key = q.own_key;
}

push_on :
    (tp : ℕ) (c : CallingContext) (t : LocalCctxTree)
    → IsValid t
    → c ≢ root
    → Pushed c t.cur (enter_new tp c t)
push_on tp c t v h = go t.cur refl v.stack
  where
    go : (s : List ℕ) → t.cur ≡ s → IsStack (length t.nodes) s → Pushed c t.cur (enter_new tp c t)
    go [] e k = absurd k
    go (i ∷ r) e k = enter_new-Pushed tp c t i r v e h

module _ (tp level : ℕ) (c : CallingContext) (t : LocalCctxTree) (v : IsValid t)
    (h : c ≢ root) where
  enter_at-Entered : 0 < level → level < length t.cur → Entered level c t (enter_at tp level c t)
  enter_at-Entered p q =
      let spot = placed_lem t level v p q in
      elim (ne_total spot.found.key c spot.not_root) [
        | inr same ↦ record {
          tree = t;
          result = kept tp level c t spot.index spot.found spot.placed spot.there same;
          valid = v;
          deep = q;
          below = refl;
          index = spot.index;
          placed = spot.placed;
          key = spot.found.key;
          key_eq = spot.key_eq;
          key_same = same;
          own_key = inl refl;
        }
        | inl other ↦
            let (t1, e, v1, f, g, nodes) = cctx_leave_lem tp level t v in
            Entered-as level c t _ _
              (replaced tp level c t spot.index _ spot.found t1 spot.placed spot.there other e)
              (Pushed-Entered level c t t1.cur _ p (g p ∙ omega arith)
                (ap (rest_of level) f ∙ rest_of_twice level t.cur) (push_on tp c t1 v1 h))
      ]

  -- Entering a context on a valid tree, at a level from 1 to one above the top, succeeds and keeps
  -- the tree valid and the stack below the level. Behind it the node at the level is one that
  -- `operator!=` does not tell from the context; it is the context's own node, unless the tree is
  -- not changed at all.
  pub handle_enter-Entered :
      0 < level → level ≤ length t.cur → Entered level c t (handle_enter_cctx_node tp level c t)
  handle_enter-Entered p q =
      let (top, some_node) = cur_level_valid t v in
      elim (Bool-cases (level == length t.cur)) [
        | inl e ↦
            let f : length t.cur ≡ level = grind (arith, ==_iff) in
            Entered-as level c t _ _ (on_top tp level c t (length t.cur - 1) top p (omega arith))
              (Pushed-Entered level c t t.cur _ p f refl (push_on tp c t v h))
        | inr e ↦
            let f : level < length t.cur = grind (arith, ==_iff) in
            Entered-as level c t _ _ (below_top tp level c t (length t.cur - 1) top p (omega arith))
              (enter_at-Entered p f)
      ]
