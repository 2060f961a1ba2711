-- ===== src/SampleWriter/Mixed.antt =====
-- Samples of several processes on one CPU in src/perf/sample/writer.cpp.
use lo2s.Shared.{ℕ, ℤ, ◌<◌, ◌≡◌, refl, true, false, List, [], ◌∷◌, length, ok, arith}
use lo2s.Cctx.{process, thread, context_type}
use lo2s.CctxTree.{
  LocalCctxNode, LocalCctxTree, node, at_level, handle_enter_cctx_node, cctx_enter_at,
}
use lo2s.CctxTree.Stack.{IsValid}
use lo2s.CctxTree.Calls.{handle_enter-ignored}
use lo2s.Scope.{is_cpu}
use lo2s.SampleWriter.{
  sample, SampleWriter, adjust_timepoints, at_time, begin_thread, update_calling_context,
  write_sample, handle_record,
}

-- A process is at level 1 of the call stack and a thread at level 2.
pub record InThread (t : LocalCctxTree) : Type 0 where
  pub valid : IsValid t
  pub deep : 2 < length t.cur
  pub first : ℕ
  pub first_node : LocalCctxNode
  pub first_at : at_level t 1 ≡ ok first
  pub first_there : node t first ≡ ok first_node
  pub first_type : context_type (first_node.key) ≡ 1
  pub second : ℕ
  pub second_node : LocalCctxNode
  pub second_at : at_level t 2 ≡ ok second
  pub second_there : node t second ≡ ok second_node
  pub second_type : context_type (second_node.key) ≡ 2

both_ignored :
    (p q : ℤ) (tp : ℕ) (t : LocalCctxTree)
    → handle_enter_cctx_node tp 1 (process p) t ≡ ok t
    → handle_enter_cctx_node tp 2 (thread q) t ≡ ok t
    → cctx_enter_at tp 1 (process p ∷ thread q ∷ []) t ≡ ok t
unfolding cctx_enter_at
both_ignored p q tp t e f = ground (arith, e, f)

process_ignored :
    (p : ℤ) (tp : ℕ) (t : LocalCctxTree)
    → InThread t
    → handle_enter_cctx_node tp 1 (process p) t ≡ ok t
unfolding context_type
process_ignored p tp t h =
    handle_enter-ignored tp 1 (process p) t h.first h.first_node h.valid (omega arith)
      (omega (arith, h.deep)) h.first_at h.first_there h.first_type

thread_ignored :
    (q : ℤ) (tp : ℕ) (t : LocalCctxTree)
    → InThread t
    → handle_enter_cctx_node tp 2 (thread q) t ≡ ok t
unfolding context_type
thread_ignored q tp t h =
    handle_enter-ignored tp 2 (thread q) t h.second h.second_node h.valid (omega arith) h.deep
      h.second_at h.second_there h.second_type

not_updated :
    (p q : ℤ) (tp : ℕ) (w : SampleWriter)
    → is_cpu w.scope ≡ true
    → cctx_enter_at tp 1 (process p ∷ thread q ∷ []) w.tree ≡ ok w.tree
    → update_calling_context p q tp false w ≡ ok w
unfolding update_calling_context begin_thread
not_updated p q tp w e f = ground (arith, e, f)

sample_lem :
    (convert : ℕ → ℕ) (time : ℕ) (p q : ℤ) (ip nr : ℕ) (ips : List ℕ) (w w1 : SampleWriter)
    → update_calling_context p q
        (adjust_timepoints (convert time) w)
        false
        (at_time (adjust_timepoints (convert time) w) w)
      ≡ ok w1
    → handle_record convert (sample time p q ip nr ips) w
      ≡ write_sample (adjust_timepoints (convert time) w) ip nr ips w1
unfolding handle_record
sample_lem convert time p q ip nr ips w w1 e = rw (e, handle_record) refl

-- On the writer of a CPU, with a process and a thread on the call stack of a valid tree, a sample
-- leaves the call stack as it is, whichever process and thread it is of: it is written below the
-- process and the thread that are there.
pub handle_record_ignores :
    (convert : ℕ → ℕ) (time : ℕ) (p q : ℤ) (ip nr : ℕ) (ips : List ℕ) (w : SampleWriter)
    → is_cpu w.scope ≡ true
    → InThread w.tree
    → handle_record convert (sample time p q ip nr ips) w
      ≡ write_sample
          (adjust_timepoints (convert time) w)
          ip
          nr
          ips
          (at_time (adjust_timepoints (convert time) w) w)
handle_record_ignores convert time p q ip nr ips w e h =
    let tp = adjust_timepoints (convert time) w in
    sample_lem convert time p q ip nr ips w (at_time tp w) (
      not_updated p q tp (at_time tp w) e
        (both_ignored p q tp w.tree (process_ignored p tp w.tree h) (thread_ignored q tp w.tree h)))
