-- ===== src/SyscallWriter.antt =====
-- src/perf/syscall/writer.cpp and include/lo2s/perf/syscall/writer.hpp, `perf::syscall::Writer`: from
-- the records of the two tracepoints for system calls to the calling context tree. The conversion of
-- time points is a parameter.
pub mod Closed
mod Tests
use lo2s.Shared.{ℕ, Bool, true, false, List, [], ◌∷◌, ◌==◌, Result, ok, ◌>>=◌}
use lo2s.Cctx.{CallingContext, syscall}
use lo2s.CctxTree.{LocalCctxTree, cctx_enter_at, cctx_leave, finalize}

-- The fields of `RecordSampleType` that are used; `id` is that of the tracepoint.
pub record SyscallRecord : Type 0 where
  pub id : ℕ
  pub time : ℕ
  pub syscall_nr : ℕ

pub record SyscallWriter : Type 0 where
  pub tree : LocalCctxTree
  pub sys_enter_id : ℕ
  pub last_tp : ℕ

abbrev pub cctx_level_syscall : ℕ
cctx_level_syscall = 1

abbrev moved_to : ℕ → LocalCctxTree → SyscallWriter → SyscallWriter
moved_to tp t w = record w { tree = t; last_tp = tp }

-- `handle`, which never asks to stop.
unfoldable pub handle_syscall : (ℕ → ℕ) → SyscallRecord → SyscallWriter → Result SyscallWriter
handle_syscall convert r w = elim (r.id == w.sys_enter_id) [
  | true ↦
      cctx_enter_at (convert r.time) cctx_level_syscall (syscall r.syscall_nr ∷ []) w.tree >>= λ t.
      ok (moved_to (convert r.time) t w)
  | false ↦ cctx_leave (convert r.time) cctx_level_syscall w.tree >>= λ l.
      ok (moved_to (convert r.time) l.1 w)
]

unfoldable pub handle_syscalls : (ℕ → ℕ) → List SyscallRecord → SyscallWriter → Result SyscallWriter
handle_syscalls convert [] w = ok w
handle_syscalls convert (r ∷ rs) w = handle_syscall convert r w >>= handle_syscalls convert rs

-- The destructor.
unfoldable pub close_syscalls : SyscallWriter → Result SyscallWriter
close_syscalls w = cctx_leave w.last_tp 1 w.tree >>= λ l. ok (record w { tree = finalize (l.1) })
