-- ===== src/SyscallWriter/Tests.antt =====
-- A concrete run of src/perf/syscall/writer.cpp: two calls, of which one is never left.
use lo2s.Shared.{◌≡◌, some, List, [], ◌∷◌, length, ok, ◌>>=◌}
use lo2s.CctxTree.{new_tree}
use lo2s.CctxTree.Stack.{replay}
use lo2s.CctxTree.Calls.{made}
use lo2s.SyscallWriter.{SyscallRecord, SyscallWriter, handle_syscalls, close_syscalls}
use lo2s.SyscallWriter.Closed.{close_syscalls-replay}

abbrev records : List SyscallRecord
records =
    record { id = 9; time = 4; syscall_nr = 0 }
    ∷ record { id = 1; time = 5; syscall_nr = 3 }
    ∷ record { id = 2; time = 6; syscall_nr = 3 }
    ∷ record { id = 1; time = 8; syscall_nr = 1 }
    ∷ []

abbrev start : SyscallWriter
start = record { tree = new_tree; sys_enter_id = 1; last_tp = 0 }

close_syscalls-replay_example :
    (w' : SyscallWriter) × ((handle_syscalls (λ t. t) records start >>= close_syscalls) ≡ ok w')
    × (replay w'.tree.written ≡ some [])
    × (length w'.tree.cur ≡ 1)
close_syscalls-replay_example = close_syscalls-replay (λ t. t) records start made
