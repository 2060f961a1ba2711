-- ===== src/GpuMonitor.antt =====
-- src/monitor/gpu_monitor.cpp, `GPUMonitor`: what its loop does with each event that it takes from
-- the ring. The conversion of time points is a parameter.
pub mod Tree
mod Tests
use lo2s.Shared.{
  ℕ, ℤ, pos, Bool, true, false, List, [], ◌∷◌, ◌==◌, ltb, if◌then◌else◌, Result, ok, ◌>>=◌,
}
use lo2s.Cctx.{CallingContext, process, gpu_kernel}
use lo2s.CctxTree.{LocalCctxTree, cctx_enter_at, cctx_leave, finalize}

-- `struct kernel` and `struct kernel_def` of include/lo2s/gpu/events.hpp, without the header, or an
-- event of another type.
pub data GpuEvent : Type 0 where
  kernel : ℕ → ℕ → ℕ → GpuEvent
  kernel_def : ℕ → List ℕ → GpuEvent
  unknown : GpuEvent

pub record GpuMonitor : Type 0 where
  pub process_id : ℤ
  pub tree : LocalCctxTree
  pub last_tp : ℕ
  pub functions : List (ℕ × List ℕ)
  pub highest_func : ℕ

-- `functions_.emplace`, which keeps the name of a kernel that is known.
unfoldable pub emplace_function : ℕ → List ℕ → List (ℕ × List ℕ) → List (ℕ × List ℕ)
emplace_function k name [] = (k, name) ∷ []
emplace_function k name ((j, n) ∷ r) =
    let later = emplace_function k name r in if j == k then (j, n) ∷ r else (j, n) ∷ later

-- One round of `monitor`.
unfoldable pub handle_event : (ℕ → ℕ) → GpuEvent → GpuMonitor → Result GpuMonitor
handle_event convert (kernel start_tp end_tp kernel_id) m = do
  entered ←
      cctx_enter_at (convert start_tp) 1 (process m.process_id ∷ gpu_kernel kernel_id ∷ []) m.tree
  (level, left) ← cctx_leave (convert end_tp) 2 entered
  ok (record m { tree = left; last_tp = convert end_tp })
handle_event convert (kernel_def kernel_id name) m = ok (record m {
  functions = emplace_function kernel_id name m.functions;
  highest_func = if ltb kernel_id m.highest_func then m.highest_func else kernel_id;
})
handle_event convert unknown m = ok m

-- `monitor`, on the events that are in the ring.
unfoldable pub monitor_events : (ℕ → ℕ) → List GpuEvent → GpuMonitor → Result GpuMonitor
monitor_events convert [] m = ok m
monitor_events convert (e ∷ es) m = handle_event convert e m >>= monitor_events convert es

-- `finalize_thread`
unfoldable pub finalize_thread : GpuMonitor → Result GpuMonitor
finalize_thread m = cctx_leave m.last_tp 1 m.tree >>= λ r. ok (record m { tree = finalize (r.1) })
