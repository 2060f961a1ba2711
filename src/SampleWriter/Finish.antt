-- ===== src/SampleWriter/Finish.antt =====
-- The end of a writer in src/perf/sample/writer.cpp: `end()` and the begin of the thread.
use lo2s.Shared.{
  ℕ, ◌≤◌, ◌<◌, ℤ, negsuc, ◌≡◌, ◌⊎◌, inl, inr, refl, Bool, true, false, Bool-cases, [], ◌∷◌,
  if◌then◌else◌, ok, arith,
}
use lo2s.Scope.{ExecutionScope, is_cpu}
use lo2s.CctxTree.{LocalCctxTree, new_tree, thread_begin, thread_end, cpuid_metric, mark, marked}
use lo2s.CctxTree.Leave.{leave_nothing}
use lo2s.CctxTree.Times.{Ordered, Ordered-Since, same, more}
use lo2s.SampleWriter.{
  switch, SampleWriter, init, adjust_timepoints, at_time, with_tree, update_calling_context,
  handle_records, end_writer,
}
use lo2s.SampleWriter.Order.{switch_lem, adjust_later}

ended :
    (now : ℕ) (w : SampleWriter) (t : LocalCctxTree)
    → is_cpu w.scope ≡ false
    → (if w.first_event then marked w.first_time_point thread_begin w.tree else w.tree) ≡ t
    → end_writer now w ≡ record w {
      last_time_point = adjust_timepoints now w;
      tree = marked (adjust_timepoints now w) thread_end t;
    }
unfolding end_writer
ended now w t e f = rw (e, f, end_writer) refl

begun-Ordered :
    (tp : ℕ) (w : SampleWriter)
    → Ordered w.last_time_point w.tree.written
    → w.first_time_point ≤ w.last_time_point
    → w.last_time_point ≤ tp
    → (w.first_event ≡ false) ⊎ (w.tree.written ≡ [])
    → Ordered tp
        (marked tp thread_end
          (if w.first_event then marked w.first_time_point thread_begin w.tree else w.tree)).written
begun-Ordered tp w o h l (inl begun) = rw begun (
    Ordered-Since w.last_time_point tp w.tree.written _ o l (
      more (mark tp thread_end) w.tree.written (mark tp thread_end ∷ w.tree.written) refl refl
        (same _ refl)))
begun-Ordered tp w o h l (inr nothing) = elim (Bool-cases w.first_event) [
  | inl e ↦ rw (e, nothing) (omega arith, (omega arith, tt))
  | inr e ↦ rw (e, nothing) (omega arith, tt)
]

-- `end()` keeps the time points of the trace in order if the begin of the thread is written already,
-- or if nothing at all is written.
pub end_writer-Ordered :
    (now : ℕ) (w : SampleWriter)
    → Ordered w.last_time_point w.tree.written
    → w.first_time_point ≤ w.last_time_point
    → (w.first_event ≡ false) ⊎ (w.tree.written ≡ [])
    → Ordered (end_writer now w).last_time_point (end_writer now w).tree.written
unfolding end_writer
end_writer-Ordered now w o h c = elim (Bool-cases (is_cpu w.scope)) [
  | inl e ↦ rw e o
  | inr e ↦ rw e (begun-Ordered (adjust_timepoints now w) w o h (adjust_later now w) c)
]

out_of_nothing :
    (p q : ℤ) (tp : ℕ) (w : SampleWriter)
    → w.tree ≡ new_tree
    → update_calling_context p q tp true w ≡ ok (with_tree new_tree w)
unfolding update_calling_context
out_of_nothing p q tp w e = rw (e, leave_nothing tp) refl

adjust_start :
    (convert : ℕ → ℕ) (time start : ℕ) (scope : ExecutionScope) (callgraph : Bool)
    → convert time ≤ adjust_timepoints (convert time) (init scope callgraph start)
unfolding adjust_timepoints init
adjust_start convert time start scope callgraph = ground arith

-- A thread whose only record is that it is switched out, later than the writer was made: its begin
-- is written by `end()`, behind the metric of the switch and with an earlier time point, so the time
-- points of the trace decrease.
pub end_writer-misordered :
    (convert : ℕ → ℕ) (time : ℕ) (p q : ℤ) (cpu : ℕ) (scope : ExecutionScope) (callgraph : Bool)
    (start now : ℕ)
    → is_cpu scope ≡ false
    → start < convert time
    → (w : SampleWriter) × (handle_records convert
          (switch time p q cpu true ∷ [])
          (init scope callgraph start)
        ≡ ok w)
      × (¬ Ordered (end_writer now w).last_time_point (end_writer now w).tree.written)
unfolding handle_records init
end_writer-misordered convert time p q cpu scope callgraph start now e h =
    let w0 = init scope callgraph start in
    let tp = adjust_timepoints (convert time) w0 in
    let w1 = with_tree new_tree (at_time tp w0) in
    let w2 = with_tree (marked tp (cpuid_metric (negsuc 0)) new_tree) w1 in
    (
      w2,
      rw (switch_lem convert time p q w0 cpu true w1 e (out_of_nothing p q tp (at_time tp w0) refl))
          refl,
      λ o.
          let f = ended now w2 (marked start thread_begin w2.tree) e refl in
          (let o' : Ordered (adjust_timepoints now w2)
                (marked (adjust_timepoints now w2) thread_end
                  (marked start thread_begin w2.tree)).written =
              rw f at o in
            absurd (omega (arith, o'.1.1.0, h, adjust_start convert time start scope callgraph))),
    )
