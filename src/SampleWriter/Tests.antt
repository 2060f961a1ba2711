-- ===== src/SampleWriter/Tests.antt =====
-- Concrete writers of src/perf/sample/writer.cpp: the lemmas' hypotheses hold on them.
use lo2s.Shared.{ℕ, pos, ◌≡◌, ◌≢◌, refl, true, false, List, [], ◌∷◌, length, ok, arith}
use lo2s.Scope.{ExecutionScope, of_thread, of_cpu, is_cpu, scope_type_value}
use lo2s.Cctx.{root, process, thread, context_type}
use lo2s.CctxTree.{
  LocalCctxTree, enter, new_tree, handle_enter_cctx_node, cur_level, enter_new, create_cctx_node,
  find_child,
}
use lo2s.CctxTree.Calls.{made, by_enter, Reached-IsValid}
use lo2s.CctxTree.Times.{Ordered}
use lo2s.SampleWriter.{
  SampleRecord, sample, comm, switch, SampleWriter, init, handle_records, end_writer, handle_record,
  write_sample, adjust_timepoints, at_time,
}
use lo2s.SampleWriter.Order.{Handled, handle_records-Handled}
use lo2s.SampleWriter.Mixed.{InThread, handle_record_ignores}
use lo2s.SampleWriter.Finish.{end_writer-misordered}

abbrev scope_seven : ExecutionScope
scope_seven = of_thread (pos 7)

abbrev clock : ℕ → ℕ
clock perf = perf

-- A sample that comes late, between two switches.
abbrev records : List SampleRecord
records =
    comm (pos 7) (pos 7) (65 ∷ [])
    ∷ switch 20 (pos 7) (pos 7) 3 false
    ∷ sample 10 (pos 7) (pos 7) 4096 2 (4096 ∷ 8192 ∷ [])
    ∷ switch 30 (pos 7) (pos 7) 3 true
    ∷ []

handle_records-Handled_example :
    Handled (init scope_seven true 5) (handle_records clock records (init scope_seven true 5))
unfolding init is_cpu scope_type_value new_tree
handle_records-Handled_example =
    handle_records-Handled clock records (init scope_seven true 5)
      (tt, (refl, ((omega arith, omega arith, omega arith), (refl, tt)))) made tt

end_writer-misordered_example :
    (w : SampleWriter) × (handle_records clock
        (switch 20 (pos 7) (pos 7) 3 true ∷ [])
        (init scope_seven true 5)
      ≡ ok w)
    × (¬ Ordered (end_writer 40 w).last_time_point (end_writer 40 w).tree.written)
unfolding is_cpu scope_type_value
end_writer-misordered_example =
    end_writer-misordered clock 20 (pos 7) (pos 7) 3 scope_seven true 5 40 refl (omega arith)

-- The call stack of a CPU with a process, and with a thread of it.
abbrev one_deep : LocalCctxTree
one_deep = record {
  nodes =
      record { key = root; ref = 0; children = (process (pos 5), 1) ∷ [] }
      ∷ record { key = process (pos 5); ref = 0; children = [] }
      ∷ [];
  cur = 1 ∷ 0 ∷ [];
  written = enter 10 0 ∷ [];
  next_cctx_ref = 1;
  ref_count = 0;
}

abbrev two_deep : LocalCctxTree
two_deep = record {
  nodes =
      record { key = root; ref = 0; children = (process (pos 5), 1) ∷ [] }
      ∷ record { key = process (pos 5); ref = 0; children = (thread (pos 6), 2) ∷ [] }
      ∷ record { key = thread (pos 6); ref = 1; children = [] }
      ∷ [];
  cur = 2 ∷ 1 ∷ 0 ∷ [];
  written = enter 10 1 ∷ enter 10 0 ∷ [];
  next_cctx_ref = 2;
  ref_count = 0;
}

new_lem : 1 ≡ length new_tree.cur
unfolding new_tree
new_lem = refl

process≢root : process (pos 5) ≢ root
process≢root = ground arith

thread≢root : thread (pos 6) ≢ root
thread≢root = ground arith

one_deep_lem : handle_enter_cctx_node 10 1 (process (pos 5)) new_tree ≡ ok one_deep
unfolding handle_enter_cctx_node new_tree cur_level enter_new create_cctx_node find_child
one_deep_lem = refl

two_deep_lem : handle_enter_cctx_node 10 2 (thread (pos 6)) one_deep ≡ ok two_deep
unfolding handle_enter_cctx_node cur_level enter_new create_cctx_node find_child
two_deep_lem = refl

two_deep-InThread : InThread two_deep
unfolding context_type
two_deep-InThread = record {
  valid = Reached-IsValid two_deep (
      by_enter 10 2 (thread (pos 6)) one_deep two_deep thread≢root (omega arith) (omega arith)
        two_deep_lem
        (by_enter 10 1 (process (pos 5)) new_tree one_deep process≢root (omega arith)
          (omega (arith, new_lem)) one_deep_lem made));
  deep = omega arith;
  first = 1;
  first_node = record { key = process (pos 5); ref = 0; children = (thread (pos 6), 2) ∷ [] };
  first_at = refl;
  first_there = refl;
  first_type = refl;
  second = 2;
  second_node = record { key = thread (pos 6); ref = 1; children = [] };
  second_at = refl;
  second_there = refl;
  second_type = refl;
}

-- The writer of CPU 3, in thread 6 of process 5.
abbrev cpu_writer : SampleWriter
cpu_writer = record (init (of_cpu (pos 3)) false 5) { tree = two_deep }

handle_record_ignores_example :
    handle_record clock (sample 20 (pos 8) (pos 9) 4096 0 []) cpu_writer
    ≡ write_sample
        (adjust_timepoints 20 cpu_writer)
        4096
        0
        []
        (at_time (adjust_timepoints 20 cpu_writer) cpu_writer)
unfolding init is_cpu scope_type_value
handle_record_ignores_example =
    handle_record_ignores clock 20 (pos 8) (pos 9) 4096 0 [] cpu_writer refl two_deep-InThread
