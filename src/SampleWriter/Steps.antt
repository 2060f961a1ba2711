-- ===== src/SampleWriter/Steps.antt =====
-- One record in src/perf/sample/writer.cpp: what it does to the tree and to the time.
use lo2s.Shared.{
  ℕ, ◌+◌, ◌≤◌, ◌<◌, ◌^◌, ℤ, ◌≡◌, ◌≢◌, inl, inr, refl, ◌∙◌, Bool, true, false, not, ◌&&◌, Bool-cases,
  List, [], ◌∷◌, length, Result, ok, arith,
}
use lo2s.Scope.{is_cpu}
use lo2s.Cctx.{CallingContext, root, process, thread}
use lo2s.CctxTree.{
  LocalCctxTree, thread_begin, mark, cctx_enter_at, cctx_leave, handle_enter_cctx_node, cctx_sample,
  cctx_sample_ips,
}
use lo2s.CctxTree.Leave.{cctx_leave_lem, cur_level_valid}
use lo2s.CctxTree.Enter.{handle_enter-Entered}
use lo2s.CctxTree.Sample.{cctx_sample-IsValid, cctx_sample_ips-IsValid}
use lo2s.CctxTree.Calls.{
  Reached, by_enter, by_leave, by_sample, by_callchain, by_mark, Reached-IsValid,
}
use lo2s.CctxTree.Times.{
  Since, same, more, Since-trans, cctx_leave-Since, handle_enter-Since, cctx_sample-Since,
  cctx_sample_ips-Since,
}
use lo2s.SampleWriter.{SampleWriter, with_tree, begin_thread, update_calling_context, write_sample}

-- A step of a tree at one time point.
pub record Grown (tp : ℕ) (t : LocalCctxTree) (outcome : Result LocalCctxTree) : Type 0 where
  pub tree : LocalCctxTree
  pub result : outcome ≡ ok tree
  pub reached : Reached tree
  pub since : Since tp t.written tree.written

enter_two :
    (tp level : ℕ) (c d : CallingContext) (t t1 t2 : LocalCctxTree)
    → handle_enter_cctx_node tp level c t ≡ ok t1
    → handle_enter_cctx_node tp (level + 1) d t1 ≡ ok t2
    → cctx_enter_at tp level (c ∷ d ∷ []) t ≡ ok t2
unfolding cctx_enter_at
enter_two tp level c d t t1 t2 e f = ground arith

process≢root : (p : ℤ) → process p ≢ root
process≢root p = ground arith

thread≢root : (p : ℤ) → thread p ≢ root
thread≢root p = ground arith

enter-Grown :
    (tp : ℕ) (p q : ℤ) (t : LocalCctxTree)
    → Reached t
    → Grown tp t (cctx_enter_at tp 1 (process p ∷ thread q ∷ []) t)
enter-Grown tp p q t r =
    let v = Reached-IsValid t r in
    let some_node = (cur_level_valid t v).1 in
    let a =
      handle_enter-Entered tp 1 (process p) t v (process≢root p) (omega arith)
        (omega (arith, some_node)) in
    let c =
      handle_enter-Entered tp 2 (thread q) a.tree a.valid (thread≢root q) (omega arith)
        (omega (arith, a.deep)) in
    record {
      tree = c.tree;
      result = enter_two tp 1 (process p) (thread q) t a.tree c.tree a.result c.result;
      reached =
          by_enter tp 2 (thread q) a.tree c.tree (thread≢root q) (omega arith)
            (omega (arith, a.deep)) c.result
            (by_enter tp 1 (process p) t a.tree (process≢root p) (omega arith)
              (omega (arith, some_node)) a.result r);
      since =
          Since-trans tp _ _ _ (handle_enter-Since tp 1 (process p) t a.tree a.result)
            (handle_enter-Since tp 2 (thread q) a.tree c.tree c.result);
    }

-- What a step of the writer keeps, and what it promises.
pub record Kept (w w' : SampleWriter) : Type 0 where
  pub scope : w'.scope ≡ w.scope
  pub callgraph : w'.record_callgraph ≡ w.record_callgraph
  pub time : w'.last_time_point ≡ w.last_time_point
  pub reached : Reached w'.tree
  pub since : Since w.last_time_point w.tree.written w'.tree.written

abbrev pub Steps : SampleWriter → Result SampleWriter → Type 0
Steps w outcome = (w' : SampleWriter) × (outcome ≡ ok w') × Kept w w'

begin-Kept : (w : SampleWriter) → Reached w.tree → Kept w (begin_thread w.last_time_point w)
unfolding begin_thread
begin-Kept w r = elim (Bool-cases (w.first_event && not (is_cpu w.scope))) [
  | inl e ↦ rw e (record {
    scope = refl;
    callgraph = refl;
    time = refl;
    reached = by_mark w.last_time_point thread_begin w.tree r;
    since = more (mark w.last_time_point thread_begin) w.tree.written _ refl refl (same _ refl);
  })
  | inr e ↦
      rw e
        (record { scope = refl; callgraph = refl; time = refl; reached = r; since = same _ refl })
]

pub Kept-trans : (u v w : SampleWriter) → Kept u v → Kept v w → Kept u w
Kept-trans u v w a b = record {
  scope = b.scope ∙ a.scope;
  callgraph = b.callgraph ∙ a.callgraph;
  time = b.time ∙ a.time;
  reached = b.reached;
  since = Since-trans u.last_time_point _ _ _ a.since (rw a.time at (b.since));
}

tree-Kept :
    (w : SampleWriter) (t : LocalCctxTree)
    → Reached t
    → Since w.last_time_point w.tree.written t.written
    → Kept w (with_tree t w)
tree-Kept w t r s = record { scope = refl; callgraph = refl; time = refl; reached = r; since = s }

switched_out :
    (p q : ℤ) (k : ℕ) (w : SampleWriter) (t : LocalCctxTree)
    → cctx_leave w.last_time_point 1 w.tree ≡ ok (k, t)
    → update_calling_context p q w.last_time_point true w ≡ ok (with_tree t w)
unfolding update_calling_context
switched_out p q k w t e = ground arith

switched_in :
    (p q : ℤ) (w b : SampleWriter) (t : LocalCctxTree)
    → begin_thread w.last_time_point w ≡ b
    → cctx_enter_at w.last_time_point 1 (process p ∷ thread q ∷ []) b.tree ≡ ok t
    → update_calling_context p q w.last_time_point false w ≡ ok (with_tree t b)
unfolding update_calling_context
switched_in p q w b t e f = rw (e, f, update_calling_context) refl

pub update-Steps :
    (p q : ℤ) (out : Bool) (w : SampleWriter)
    → Reached w.tree
    → Steps w (update_calling_context p q w.last_time_point out w)
update-Steps p q true w r =
    let l = cctx_leave_lem w.last_time_point 1 w.tree (Reached-IsValid w.tree r) in
    (
      with_tree l.0 w,
      switched_out p q _ w l.0 l.1,
      tree-Kept w l.0 (by_leave w.last_time_point 1 _ w.tree l.0 l.1 r)
          (cctx_leave-Since w.last_time_point 1 _ w.tree l.0 l.1),
    )
update-Steps p q false w r =
    let b = begin_thread w.last_time_point w in
    let k = begin-Kept w r in
    let g = enter-Grown w.last_time_point p q b.tree k.reached in
    (
      with_tree g.tree b,
      switched_in p q w b g.tree refl g.result,
      Kept-trans w b (with_tree g.tree b) k (tree-Kept b g.tree g.reached (rw (k.time) (g.since))),
    )

sample_ip :
    (tp ip nr : ℕ) (ips : List ℕ) (w : SampleWriter) (t : LocalCctxTree)
    → w.record_callgraph ≡ false
    → cctx_sample tp ip w.tree ≡ ok t
    → write_sample tp ip nr ips w ≡ ok (with_tree t w)
unfolding write_sample
sample_ip tp ip nr ips w t e f = ground arith

sample_callchain :
    (tp ip nr : ℕ) (ips : List ℕ) (w : SampleWriter) (t : LocalCctxTree)
    → w.record_callgraph ≡ true
    → cctx_sample_ips tp nr ips w.tree ≡ ok t
    → write_sample tp ip nr ips w ≡ ok (with_tree t w)
unfolding write_sample
sample_callchain tp ip nr ips w t e f = ground arith

-- A call chain is needed only if call chains are recorded.
abbrev pub IsChain : Bool → ℕ → List ℕ → Type 0
IsChain false nr ips = Unit {0}
IsChain true nr ips = (0 < nr) × (nr ≤ length ips) × (nr < 2 ^ 64)

pub sample-Steps :
    (ip nr : ℕ) (ips : List ℕ) (w : SampleWriter)
    → Reached w.tree
    → IsChain w.record_callgraph nr ips
    → Steps w (write_sample w.last_time_point ip nr ips w)
sample-Steps ip nr ips w r c = elim (Bool-cases w.record_callgraph) [
  | inl e ↦
      let chain : (0 < nr) × (nr ≤ length ips) × (nr < 2 ^ 64) = rw e at c in
      let s =
        cctx_sample_ips-IsValid w.last_time_point nr ips w.tree (Reached-IsValid w.tree r) chain.0
          chain.1 chain.2 in
      (
        with_tree s.0 w,
        sample_callchain w.last_time_point ip nr ips w s.0 e s.1,
        tree-Kept w s.0
            (by_callchain w.last_time_point nr ips w.tree s.0 chain.0 chain.1 chain.2 s.1 r)
            (cctx_sample_ips-Since w.last_time_point nr ips w.tree s.0 s.1),
      )
  | inr e ↦
      let s = cctx_sample-IsValid w.last_time_point ip w.tree (Reached-IsValid w.tree r) in
      (
        with_tree s.0 w,
        sample_ip w.last_time_point ip nr ips w s.0 e s.1,
        tree-Kept w s.0 (by_sample w.last_time_point ip w.tree s.0 s.1 r)
            (cctx_sample-Since w.last_time_point ip w.tree s.0 s.1),
      )
]
