-- ===== src/SampleWriter.antt =====
-- src/perf/sample/writer.cpp, `perf::sample::Writer`: from the records of one perf event to the
-- calling context tree, with the call of `handle` for each kind of record. The conversion of time
-- points and the clock are parameters.
pub mod Steps
pub mod Order
pub mod Finish
pub mod Mixed
mod Tests
use lo2s.Shared.{
  ℕ, ◌+◌, ◌-◌, ◌%◌, ◌^◌, ℤ, pos, negsuc, eq_ℤ, Bool, true, false, not, ◌&&◌, Option, none, some,
  List, [], ◌∷◌, ltb, if◌then◌else◌, Result, ok, err, Fault, assert, ◌>>=◌, ◌>>◌,
}
use lo2s.Address.{Mapping, mapping}
use lo2s.MemoryMap
use lo2s.Scope.{ExecutionScope, is_cpu}
use lo2s.Cctx.{process, thread}
use lo2s.CctxTree.{
  LocalCctxTree, Mark, thread_begin, thread_end, cpuid_metric, marked, new_tree, cctx_enter_at,
  cctx_leave, cctx_sample, cctx_sample_ips, finalize,
}

-- What is kept of a `RecordMmapType`.
pub record MmapEvent : Type 0 where
  pub pid : ℤ
  pub addr : ℕ
  pub len : ℕ
  pub pgoff : ℕ
  pub filename : List ℕ

-- The records with a `handle`. A switch has the bit PERF_RECORD_MISC_SWITCH_OUT of `header.misc`.
pub data SampleRecord : Type 0 where
  sample : (time : ℕ) (pid tid : ℤ) (ip nr : ℕ) (ips : List ℕ) → SampleRecord
  mmap : (tid : ℤ) (event : MmapEvent) → SampleRecord
  comm : (pid tid : ℤ) (name : List ℕ) → SampleRecord
  switch_cpu_wide : (time : ℕ) (pid tid : ℤ) (out : Bool) → SampleRecord
  switch : (time : ℕ) (pid tid : ℤ) (cpu : ℕ) (out : Bool) → SampleRecord

-- What is asked of the `Trace` for a new name.
pub data TraceCall : Type 0 where
  emplace_process : ℤ → List ℕ → TraceCall
  emplace_thread : ℤ → ℤ → List ℕ → TraceCall

pub record SampleWriter : Type 0 where
  pub scope : ExecutionScope
  pub record_callgraph : Bool
  pub tree : LocalCctxTree
  pub cached_mmap_events : List MmapEvent
  pub trace_calls : List TraceCall
  pub first_event : Bool
  pub first_time_point : ℕ
  pub last_time_point : ℕ

-- The constructor, at the time `now`.
unfoldable pub init : ExecutionScope → Bool → ℕ → SampleWriter
init scope callgraph now = record {
  scope = scope;
  record_callgraph = callgraph;
  tree = new_tree;
  cached_mmap_events = [];
  trace_calls = [];
  first_event = true;
  first_time_point = now;
  last_time_point = now;
}

-- `adjust_timepoints`: the time point it returns, which is the new `last_time_point_`.
unfoldable pub adjust_timepoints : ℕ → SampleWriter → ℕ
adjust_timepoints tp w = if ltb tp w.last_time_point then w.last_time_point else tp

abbrev pub at_time : ℕ → SampleWriter → SampleWriter
at_time tp w = record w { last_time_point = tp }

abbrev pub with_tree : LocalCctxTree → SampleWriter → SampleWriter
with_tree t w = record w { tree = t }

-- The `if` of `update_calling_context` around the thread's begin.
unfoldable pub begin_thread : ℕ → SampleWriter → SampleWriter
begin_thread tp w =
    if w.first_event && not (is_cpu w.scope)
    then record w { tree = marked tp thread_begin w.tree; first_event = false }
    else w

-- `update_calling_context`
unfoldable pub update_calling_context : ℤ → ℤ → ℕ → Bool → SampleWriter → Result SampleWriter
update_calling_context p t tp true w = cctx_leave tp 1 w.tree >>= λ r. ok (with_tree (r.1) w)
update_calling_context p t tp false w =
    cctx_enter_at tp 1 (process p ∷ thread t ∷ []) (begin_thread tp w).tree >>= λ tree.
    ok (with_tree tree (begin_thread tp w))

-- The sample of `handle(const RecordSampleType*)`, after the calling context is updated.
unfoldable pub write_sample : ℕ → ℕ → ℕ → List ℕ → SampleWriter → Result SampleWriter
write_sample tp ip nr ips w =
    (if w.record_callgraph then cctx_sample_ips tp nr ips w.tree else cctx_sample tp ip w.tree)
    >>= λ tree. ok (with_tree tree w)

-- The `handle` members. None asks to stop.
unfoldable pub handle_record : (ℕ → ℕ) → SampleRecord → SampleWriter → Result SampleWriter
handle_record convert (sample time p t ip nr ips) w =
    let tp = adjust_timepoints (convert time) w in
    update_calling_context p t tp false (at_time tp w) >>= write_sample tp ip nr ips
handle_record convert (mmap t event) w =
    ok (record w { cached_mmap_events = event ∷ w.cached_mmap_events })
handle_record convert (comm p t name) w = ok (record w {
  trace_calls =
      (if eq_ℤ p t then emplace_process p name else emplace_thread p t name) ∷ w.trace_calls;
})
handle_record convert (switch_cpu_wide time p t out) w = assert (is_cpu w.scope) >>= λ _.
    update_calling_context p t (adjust_timepoints (convert time) w) out
      (at_time (adjust_timepoints (convert time) w) w)
handle_record convert (switch time p t cpu out) w =
    let tp = adjust_timepoints (convert time) w in
    assert (not (is_cpu w.scope)) >>= λ _.
    update_calling_context p t tp out (at_time tp w) >>= λ w'.
    ok (with_tree (marked tp (cpuid_metric (if out then negsuc 0 else pos cpu)) w'.tree) w')

unfoldable pub handle_records : (ℕ → ℕ) → List SampleRecord → SampleWriter → Result SampleWriter
handle_records convert [] w = ok w
handle_records convert (r ∷ rs) w = handle_record convert r w >>= handle_records convert rs

-- `end()`, at the time `now`.
unfoldable pub end_writer : ℕ → SampleWriter → SampleWriter
end_writer now w =
    if is_cpu w.scope
    then w
    else (let tp = adjust_timepoints now w in
        let begun =
          if w.first_event then marked w.first_time_point thread_begin w.tree else w.tree in
        record w { last_time_point = tp; tree = marked tp thread_end begun })

-- The destructor.
unfoldable pub close_writer : SampleWriter → Result SampleWriter
close_writer w = cctx_leave w.last_time_point 1 w.tree >>= λ r. ok (with_tree (finalize (r.1)) w)
