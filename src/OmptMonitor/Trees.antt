-- ===== src/OmptMonitor/Trees.antt =====
-- The calling context trees of src/monitor/openmp_monitor.cpp over a sequence of events.
use lo2s.Shared.{
  ℕ, ◌+◌, ◌-◌, ℤ, ◌≡◌, ◌≢◌, inl, inr, refl, ◌∙◌, Bool, true, false, Bool-cases, Option-cases, some,
  List, [], ◌∷◌, All, length, ◌==◌, if◌then◌else◌, ok, arith,
}
use lo2s.Ompt.{OmptCctx}
use lo2s.Cctx.{CallingContext, root, process, openmp}
use lo2s.CctxTree.{
  LocalCctxTree, new_tree, cctx_enter_at, cctx_enter, cctx_leave, cctx_leave_top, cur_level,
  handle_enter_cctx_node,
}
use lo2s.CctxTree.Calls.{Reached, made, by_enter, by_leave, Reached-IsValid}
use lo2s.CctxTree.Leave.{cctx_leave_lem, cur_level_valid}
use lo2s.CctxTree.Enter.{handle_enter-Entered}
use lo2s.OmptMonitor.{
  cctx_level_process, OmptEvent, ompt_enter, ompt_exit, unknown, ThreadWriter, OmptMonitor,
  writer_of, put_writer, create_thread_writer, writer_for, stored, handle, monitor,
}

abbrev pub AllReached : List ThreadWriter → Type 0
AllReached = All (λ (w : ThreadWriter). Reached w.tree)

enter_one :
    (tp : ℕ) (c : CallingContext) (t : LocalCctxTree)
    → Reached t
    → c ≢ root
    → (t' : LocalCctxTree) × (handle_enter_cctx_node tp (length t.cur) c t ≡ ok t') × Reached t'
enter_one tp c t r h =
    let v = Reached-IsValid t r in
    let some_node = (cur_level_valid t v).1 in
    let e = handle_enter-Entered tp (length t.cur) c t v h (omega arith) (omega arith) in
    (
      e.tree,
      e.result,
      by_enter tp (length t.cur) c t e.tree h (omega arith) (omega arith) e.result r,
    )

cctx_enter_lem :
    (tp top : ℕ) (c : CallingContext) (t t' : LocalCctxTree)
    → cur_level t ≡ ok top
    → handle_enter_cctx_node tp (top + 1) c t ≡ ok t'
    → cctx_enter tp (c ∷ []) t ≡ ok (top + 1, t')
unfolding cctx_enter cctx_enter_at
cctx_enter_lem tp top c t t' e f = ground arith

cctx_enter-Reached :
    (tp : ℕ) (c : CallingContext) (t : LocalCctxTree)
    → Reached t
    → c ≢ root
    → (t' : LocalCctxTree) × (k : ℕ) × (cctx_enter tp (c ∷ []) t ≡ ok (k, t')) × Reached t'
cctx_enter-Reached tp c t r h =
    let (level, some_node) = cur_level_valid t (Reached-IsValid t r) in
    let (t', e, r') = enter_one tp c t r h in
    let f : length t.cur - 1 + 1 ≡ length t.cur = omega arith in
    (t', _, cctx_enter_lem tp (length t.cur - 1) c t t' level (rw f e), r')

cctx_leave_top_lem :
    (tp top : ℕ) (t : LocalCctxTree)
    → cur_level t ≡ ok top
    → cctx_leave_top tp t ≡ cctx_leave tp top t
unfolding cctx_leave_top
cctx_leave_top_lem tp top t e = ground arith

cctx_leave_top-Reached :
    (tp : ℕ) (t : LocalCctxTree)
    → Reached t
    → (t' : LocalCctxTree) × (k : ℕ) × (cctx_leave_top tp t ≡ ok (k, t')) × Reached t'
cctx_leave_top-Reached tp t r =
    let v = Reached-IsValid t r in
    let (level, some_node) = cur_level_valid t v in
    let l = cctx_leave_lem tp (length t.cur - 1) t v in
    (
      l.0,
      _,
      cctx_leave_top_lem tp (length t.cur - 1) t level ∙ l.1,
      by_leave tp (length t.cur - 1) _ t l.0 l.1 r,
    )

process≢root : (p : ℤ) → process p ≢ root
process≢root p = ground arith

openmp≢root : (c : OmptCctx) → openmp c ≢ root
openmp≢root c = ground arith

new_tree_lem :
    (tp : ℕ) (c : CallingContext) (t : LocalCctxTree)
    → handle_enter_cctx_node tp (length new_tree.cur) c new_tree ≡ ok t
    → cctx_enter_at tp 1 (c ∷ []) new_tree ≡ ok t
unfolding cctx_enter_at new_tree
new_tree_lem tp c t e = ground arith

created_lem :
    (tp t : ℕ) (m : OmptMonitor) (tree : LocalCctxTree)
    → cctx_enter_at tp 1 (process m.process ∷ []) new_tree ≡ ok tree
    → create_thread_writer tp t m ≡ ok (record { thread = t; tree = tree; last_tp = 0 })
unfolding create_thread_writer
created_lem tp t m tree e = rw (e, create_thread_writer) refl

some_inj : (x w : ThreadWriter) → some x ≡ some w → x ≡ w
some_inj x w e = cc

writer_of-Reached :
    (t : ℕ) (ws : List ThreadWriter) (w : ThreadWriter)
    → AllReached ws
    → writer_of t ws ≡ some w
    → Reached w.tree
unfolding writer_of
writer_of-Reached t [] w h e = cc
writer_of-Reached t (x ∷ ws) w h e = elim (Bool-cases (x.thread == t)) [
  | inl k ↦ rw (some_inj x w (rw k at e)) at (h.0)
  | inr k ↦ writer_of-Reached t ws w h.1 (rw k at e)
]

put_writer-Reached :
    (v : ThreadWriter) (ws : List ThreadWriter)
    → Reached v.tree
    → AllReached ws
    → AllReached (put_writer v ws)
unfolding put_writer
put_writer-Reached v [] r h = (r, tt)
put_writer-Reached v (w ∷ ws) r h = elim (Bool-cases (w.thread == v.thread)) [
  | inl k ↦ rw (k, put_writer) (r, h.1)
  | inr k ↦ rw (k, put_writer) (h.0, put_writer-Reached v ws r h.1)
]

writer_for-Reached :
    (tp t : ℕ) (m : OmptMonitor)
    → AllReached m.writers
    → (w : ThreadWriter) × (writer_for tp t m ≡ ok w) × Reached w.tree
unfolding writer_for
writer_for-Reached tp t m h = elim (Option-cases (writer_of t m.writers)) [
  | inl e ↦
      let (tree, f, r) = enter_one tp (process m.process) new_tree made (process≢root m.process) in
      (
        record { thread = t; tree = tree; last_tp = 0 },
        rw (e, writer_for) (created_lem tp t m tree (new_tree_lem tp (process m.process) tree f)),
        r,
      )
  | inr (w, e) ↦ (w, rw (e, writer_for) refl, writer_of-Reached t m.writers w h e)
]

enter_lem :
    (convert : ℕ → ℕ) (time : ℕ) (c : OmptCctx) (m : OmptMonitor) (w : ThreadWriter) (k : ℕ)
    (tree : LocalCctxTree)
    → writer_for (convert time) c.tid m ≡ ok w
    → cctx_enter (convert time) (openmp c ∷ []) w.tree ≡ ok (k, tree)
    → handle convert (ompt_enter time c) m ≡ ok (stored (convert time) tree w m)
unfolding handle
enter_lem convert time c m w k tree e f = ground arith

exit_lem :
    (convert : ℕ → ℕ) (time : ℕ) (c : OmptCctx) (m : OmptMonitor) (w : ThreadWriter) (top k : ℕ)
    (tree : LocalCctxTree)
    → writer_for (convert time) c.tid m ≡ ok w
    → cur_level w.tree ≡ ok top
    → cctx_leave_top (convert time) w.tree ≡ ok (k, tree)
    → handle convert (ompt_exit time c) m ≡ (
        if top == cctx_level_process
        then ok (stored (convert time) w.tree w m)
        else ok (stored (convert time) tree w m))
unfolding handle
exit_lem convert time c m w top k tree e f g = ground arith

choose :
    (b : Bool) (x y : OmptMonitor)
    → AllReached x.writers
    → AllReached y.writers
    → (m' : OmptMonitor) × ((if b then ok x else ok y) ≡ ok m') × AllReached m'.writers
choose true x y h k = (x, refl, h)
choose false x y h k = (y, refl, k)

handle-Reached :
    (convert : ℕ → ℕ) (e : OmptEvent) (m : OmptMonitor)
    → AllReached m.writers
    → (m' : OmptMonitor) × (handle convert e m ≡ ok m') × AllReached m'.writers
unfolding handle
handle-Reached convert (ompt_enter time c) m h =
    let (w, e, r) = writer_for-Reached (convert time) c.tid m h in
    let (tree, k, f, r') = cctx_enter-Reached (convert time) (openmp c) w.tree r (openmp≢root c) in
    (
      stored (convert time) tree w m,
      enter_lem convert time c m w k tree e f,
      put_writer-Reached _ m.writers r' h,
    )
handle-Reached convert (ompt_exit time c) m h =
    let (w, e, r) = writer_for-Reached (convert time) c.tid m h in
    let (level, some_node) = cur_level_valid w.tree (Reached-IsValid w.tree r) in
    let (tree, k, f, r') = cctx_leave_top-Reached (convert time) w.tree r in
    let (m', g, all) =
      choose (length w.tree.cur - 1 == cctx_level_process) (stored (convert time) w.tree w m)
        (stored (convert time) tree w m) (put_writer-Reached _ m.writers r h)
        (put_writer-Reached _ m.writers r' h) in
    (m', exit_lem convert time c m w (length w.tree.cur - 1) k tree e level f ∙ g, all)
handle-Reached convert unknown m h = (m, refl, h)

-- `monitor` succeeds on every sequence of events, from a monitor in which the tree of every thread
-- is one that calls reach from the constructor, and leads to such a monitor again. So no event,
-- and no exit without an enter, fails an assertion of the trees.
pub monitor-Reached :
    (convert : ℕ → ℕ) (es : List OmptEvent) (m : OmptMonitor)
    → AllReached m.writers
    → (m' : OmptMonitor) × (monitor convert es m ≡ ok m') × AllReached m'.writers
unfolding monitor
monitor-Reached convert [] m h = (m, refl, h)
monitor-Reached convert (e ∷ es) m h =
    let (m1, f, h1) = handle-Reached convert e m h in
    let (m2, g, h2) = monitor-Reached convert es m1 h1 in (m2, rw (f, monitor) g, h2)
