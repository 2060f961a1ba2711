-- ===== src/OmptMonitor.antt =====
-- src/monitor/openmp_monitor.cpp, `OpenMPMonitor`: what its loop does with each event that it takes
-- from the ring. The conversion of time points is a parameter; `std::map`s by thread are one
-- association list, whose entries have the tree and the last time point.
pub mod Trees
mod Tests
use lo2s.Shared.{
  ℕ, ◌+◌, ℤ, pos, Bool, true, false, not, Option, none, some, List, [], ◌∷◌, ◌==◌, if◌then◌else◌,
  Result, ok, err, Fault, ◌>>=◌,
}
use lo2s.Ompt.{OmptCctx}
use lo2s.Cctx.{CallingContext, process, openmp}
use lo2s.CctxTree.{
  LocalCctxTree, new_tree, cctx_enter_at, cctx_enter, cctx_leave, cctx_leave_top, cur_level,
  finalize,
}

-- CCTX_LEVEL_PROCESS of include/lo2s/monitor/openmp_monitor.hpp.
abbrev pub cctx_level_process : ℕ
cctx_level_process = 1

-- `struct ompt_enter` and `struct ompt_exit` of include/lo2s/ompt/events.hpp, without the header,
-- or an event of another type.
pub data OmptEvent : Type 0 where
  ompt_enter : ℕ → OmptCctx → OmptEvent
  ompt_exit : ℕ → OmptCctx → OmptEvent
  unknown : OmptEvent

pub record ThreadWriter : Type 0 where
  pub thread : ℕ
  pub tree : LocalCctxTree
  pub last_tp : ℕ

pub record OmptMonitor : Type 0 where
  pub process : ℤ
  pub writers : List ThreadWriter

unfoldable pub writer_of : ℕ → List ThreadWriter → Option ThreadWriter
writer_of t [] = none
writer_of t (w ∷ ws) = let later = writer_of t ws in if w.thread == t then some w else later

-- The writer of a thread in place of the one that it had.
unfoldable pub put_writer : ThreadWriter → List ThreadWriter → List ThreadWriter
put_writer v [] = v ∷ []
put_writer v (w ∷ ws) =
    let later = put_writer v ws in if w.thread == v.thread then v ∷ ws else w ∷ later

-- `create_thread_writer`
unfoldable pub create_thread_writer : ℕ → ℕ → OmptMonitor → Result ThreadWriter
create_thread_writer tp t m =
    cctx_enter_at tp cctx_level_process (process m.process ∷ []) new_tree >>= λ tree.
    ok (record { thread = t; tree = tree; last_tp = 0 })

-- The writer of an event's thread, which is created if there is none.
unfoldable pub writer_for : ℕ → ℕ → OmptMonitor → Result ThreadWriter
writer_for tp t m = elim (writer_of t m.writers) [
  | none ↦ create_thread_writer tp t m
  | some w ↦ ok w
]

abbrev pub stored : ℕ → LocalCctxTree → ThreadWriter → OmptMonitor → OmptMonitor
stored tp tree w m = record m {
  writers = put_writer (record w { tree = tree; last_tp = tp }) m.writers;
}

-- One round of `monitor`.
unfoldable pub handle : (ℕ → ℕ) → OmptEvent → OmptMonitor → Result OmptMonitor
handle convert (ompt_enter time c) m = do
  w ← writer_for (convert time) c.tid m
  (level, tree) ← cctx_enter (convert time) (openmp c ∷ []) w.tree
  ok (stored (convert time) tree w m)
handle convert (ompt_exit time c) m = do
  w ← writer_for (convert time) c.tid m
  level ← cur_level w.tree
  if level == cctx_level_process
      then ok (stored (convert time) w.tree w m)
      else (cctx_leave_top (convert time) w.tree >>= λ r. ok (stored (convert time) (r.1) w m))
handle convert unknown m = ok m

-- `monitor`, on the events that are in the ring.
unfoldable pub monitor : (ℕ → ℕ) → List OmptEvent → OmptMonitor → Result OmptMonitor
monitor convert [] m = ok m
monitor convert (e ∷ es) m = handle convert e m >>= monitor convert es

-- `finalize_thread`
unfoldable pub finalize_writers : List ThreadWriter → Result (List ThreadWriter)
finalize_writers [] = ok []
finalize_writers (w ∷ ws) =
    let rest = finalize_writers ws in
    cctx_leave w.last_tp 1 w.tree >>= λ r.
    rest >>= λ done. ok (record w { tree = finalize (r.1) } ∷ done)
