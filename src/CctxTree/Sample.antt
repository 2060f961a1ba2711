-- ===== src/CctxTree/Sample.antt =====
-- The samples of a `LocalCctxTree` (src/local_cctx_tree.cpp) on a valid tree.
use lo2s.Shared.{
  ℕ, zero, suc, ◌+◌, ◌-◌, ◌%◌, ◌^◌, ◌≤◌, ◌<◌, ◌≡◌, ◌≢◌, inl, inr, refl, ◌∙◌, true, false,
  Bool-cases, some, List, [], ◌∷◌, length, get_elem?, get_elem?-some, none, err, Fault, Result, ok,
  arith, ◌||◌, ◌==◌, leb,
}
use lo2s.Cctx.{root, sample_addr}
use lo2s.CctxTree.{
  LocalCctxNode, LocalCctxTree, sample, node, create_cctx_node, cctx_sample, cctx_sample_ips,
  sample_loop, perf_context_kernel, perf_context_user,
}
use lo2s.CctxTree.Node.{Numbered, create_cctx_node-Child}
use lo2s.CctxTree.Stack.{IsStack, IsValid, IsStack-mono, node_ref, Numbered-same}
use lo2s.CctxTree.Trace.{top_within}

-- The tree after a sample with the reference number `ref` and `n` instruction pointers.
abbrev pub sampled : ℕ → ℕ → ℕ → LocalCctxTree → LocalCctxTree
sampled tp ref n t = record t { written = sample tp ref n ∷ t.written }

sample_addr≢root : (ip : ℕ) → sample_addr ip ≢ root
sample_addr≢root ip = ground arith

-- The outcome of creating nodes below a node: the call stack and the trace are as before.
record Looked (t : LocalCctxTree) (outcome : Result (ℕ × LocalCctxTree)) : Type 0 where
  at : ℕ
  tree : LocalCctxTree
  result : outcome ≡ ok (at, tree)
  numbered : Numbered tree
  within : at < length tree.nodes
  grown : length t.nodes ≤ length tree.nodes
  cur_same : tree.cur ≡ t.cur
  written_same : tree.written ≡ t.written

-- A read behind the end of the array.
pub sample_loop-wraps :
    (ips : List ℕ) (i at : ℕ) (t : LocalCctxTree)
    → get_elem? ips (suc i) ≡ none
    → sample_loop ips (suc i) at t ≡ err Fault.out_of_range
unfolding sample_loop
sample_loop-wraps ips i at t h = ground arith

pub loop_context :
    (ips : List ℕ) (i at ip : ℕ) (t : LocalCctxTree)
    → get_elem? ips (suc i) ≡ some ip
    → (ip == perf_context_kernel || ip == perf_context_user) ≡ true
    → sample_loop ips (suc i) at t
      ≡ (elim (leb (suc i) 1) [ true ↦ ok (at, t) | false ↦ sample_loop ips i at t ])
unfolding sample_loop
loop_context ips i at ip t e f = ground arith

loop_address :
    (ips : List ℕ) (i at ip k : ℕ) (t t1 : LocalCctxTree)
    → get_elem? ips (suc i) ≡ some ip
    → (ip == perf_context_kernel || ip == perf_context_user) ≡ false
    → create_cctx_node (sample_addr ip) at t ≡ ok (k, t1)
    → sample_loop ips (suc i) at t ≡ sample_loop ips i k t1
unfolding sample_loop
loop_address ips i at ip k t t1 e f g = ground arith

stay : (at : ℕ) (t : LocalCctxTree) → Numbered t → at < length t.nodes → Looked t (ok (at, t))
stay at t v b = record {
  at = at;
  tree = t;
  result = refl;
  numbered = v;
  within = b;
  grown = omega arith;
  cur_same = refl;
  written_same = refl;
}

Looked-as : (t : LocalCctxTree) (x y : Result (ℕ × LocalCctxTree)) → x ≡ y → Looked t y → Looked t x
Looked-as t x y e l = record {
  at = l.at;
  tree = l.tree;
  result = e ∙ l.result;
  numbered = l.numbered;
  within = l.within;
  grown = l.grown;
  cur_same = l.cur_same;
  written_same = l.written_same;
}

sample_loop-Looked :
    (ips : List ℕ) (i at : ℕ) (t : LocalCctxTree)
    → Numbered t
    → at < length t.nodes
    → i < length ips
    → Looked t (sample_loop ips i at t)
unfolding sample_loop
sample_loop-Looked ips zero at t v b h = stay at t v b
sample_loop-Looked ips (suc i) at t v b h =
    let (ip, e) = get_elem?-some ips (suc i) h in
    elim (Bool-cases (ip == perf_context_kernel || ip == perf_context_user)) [
      | inl f ↦
          Looked-as t _ _ (loop_context ips i at ip t e f) (elim (Bool-cases (leb (suc i) 1)) [
            | inl last ↦ rw last (stay at t v b)
            | inr more ↦ rw more (sample_loop-Looked ips i at t v b (omega arith))
          ])
      | inr f ↦
          let ch = create_cctx_node-Child (sample_addr ip) at t v b (sample_addr≢root ip) in
          let rest =
            sample_loop-Looked ips i ch.index ch.tree ch.numbered ch.within (omega arith) in
          record {
            at = rest.at;
            tree = rest.tree;
            result = loop_address ips i at ip ch.index t ch.tree e f ch.result ∙ rest.result;
            numbered = rest.numbered;
            within = rest.within;
            grown = omega (arith, ch.grown, rest.grown);
            cur_same = rest.cur_same ∙ ch.cur_same;
            written_same = rest.written_same ∙ ch.written_same;
          }
    ]

cctx_sample_lem :
    (tp ip : ℕ) (t : LocalCctxTree) (i : ℕ) (r : List ℕ) (k : ℕ) (t1 : LocalCctxTree)
    (n : LocalCctxNode)
    → t.cur ≡ i ∷ r
    → create_cctx_node (sample_addr ip) i t ≡ ok (k, t1)
    → node t1 k ≡ ok n
    → cctx_sample tp ip t ≡ ok (sampled tp n.ref 2 t1)
unfolding cctx_sample
cctx_sample_lem tp ip t i r k t1 n e f g = ground arith

cctx_sample_ips_lem :
    (tp num at : ℕ) (ips : List ℕ) (t : LocalCctxTree) (i : ℕ) (r : List ℕ) (t1 : LocalCctxTree)
    (n : LocalCctxNode)
    → t.cur ≡ i ∷ r
    → 0 < num
    → num < 2 ^ 64
    → sample_loop ips (num - 1) i t ≡ ok (at, t1)
    → node t1 at ≡ ok n
    → cctx_sample_ips tp num ips t ≡ ok (sampled tp n.ref num t1)
unfolding cctx_sample_ips
cctx_sample_ips_lem tp num at ips t i r t1 n e p q f g =
    let index : (num + 2 ^ 64 - 1) % 2 ^ 64 ≡ num - 1 = omega arith in ground arith

sampled-IsValid :
    (tp ref n : ℕ) (t t1 : LocalCctxTree)
    → IsValid t
    → Numbered t1
    → length t.nodes ≤ length t1.nodes
    → t1.cur ≡ t.cur
    → t1.written ≡ t.written
    → IsValid (sampled tp ref n t1)
sampled-IsValid tp ref n t t1 v num grown cur written = record {
  numbered = Numbered-same t1 t1.cur _ num;
  stack = rw cur (IsStack-mono (length t.nodes) (length t1.nodes) t.cur grown v.stack);
  replayed = rw (cur, written) (v.replayed);
}

-- `cctx_sample` succeeds on a valid tree, keeps it valid, and leaves the call stack as it is.
pub cctx_sample-IsValid :
    (tp ip : ℕ) (t : LocalCctxTree)
    → IsValid t
    → (t' : LocalCctxTree) × (cctx_sample tp ip t ≡ ok t') × IsValid t' × (t'.cur ≡ t.cur)
cctx_sample-IsValid tp ip t v = go t.cur refl v.stack
  where
    go :
        (s : List ℕ)
        → t.cur ≡ s
        → IsStack (length t.nodes) s
        → (t' : LocalCctxTree) × (cctx_sample tp ip t ≡ ok t') × IsValid t' × (t'.cur ≡ t.cur)
    go [] e k = absurd k
    go (i ∷ r) e k =
        let ch =
          create_cctx_node-Child (sample_addr ip) i t v.numbered
            (top_within i r (length t.nodes) (omega (arith, v.numbered.count)) k)
            (sample_addr≢root ip) in
        let (n, here, found, ref) = node_ref ch.tree ch.index ch.numbered ch.positive ch.within in
        (
          sampled tp n.ref 2 ch.tree,
          cctx_sample_lem tp ip t i r ch.index ch.tree n e ch.result found,
          sampled-IsValid tp n.ref 2 t ch.tree v ch.numbered ch.grown ch.cur_same ch.written_same,
          ch.cur_same,
        )

-- The same of `cctx_sample` with a call chain of at least one element.
pub cctx_sample_ips-IsValid :
    (tp num : ℕ) (ips : List ℕ) (t : LocalCctxTree)
    → IsValid t
    → 0 < num
    → num ≤ length ips
    → num < 2 ^ 64
    → (t' : LocalCctxTree) × (cctx_sample_ips tp num ips t ≡ ok t') × IsValid t' × (t'.cur ≡ t.cur)
cctx_sample_ips-IsValid tp num ips t v p q b = go t.cur refl v.stack
  where
    go :
        (s : List ℕ)
        → t.cur ≡ s
        → IsStack (length t.nodes) s
        → (t' : LocalCctxTree) × (cctx_sample_ips tp num ips t ≡ ok t')
          × IsValid t'
          × (t'.cur ≡ t.cur)
    go [] e k = absurd k
    go (i ∷ r) e k =
        let l =
          sample_loop-Looked ips (num - 1) i t v.numbered
            (top_within i r (length t.nodes) (omega (arith, v.numbered.count)) k) (omega arith) in
        let (n, here) = get_elem?-some l.tree.nodes l.at l.within in
        (
          sampled tp n.ref num l.tree,
          cctx_sample_ips_lem tp num l.at ips t i r l.tree n e p b l.result (rw (here, node)),
          sampled-IsValid tp n.ref num t l.tree v l.numbered l.grown l.cur_same l.written_same,
          l.cur_same,
        )
