-- ===== src/GpuMonitor/Tests.antt =====
-- A concrete run of src/monitor/gpu_monitor.cpp: a kernel is defined and runs twice.
use lo2s.Shared.{pos, List, [], ◌∷◌}
use lo2s.CctxTree.{new_tree}
use lo2s.GpuMonitor.{GpuEvent, kernel, kernel_def, GpuMonitor}

abbrev events : List GpuEvent
events = kernel_def 0 (97 ∷ []) ∷ kernel 5 6 0 ∷ kernel 8 9 0 ∷ []

abbrev start : GpuMonitor
start = record {
  process_id = pos 30;
  tree = new_tree;
  last_tp = 0;
  functions = [];
  highest_func = 0;
}
