-- ===== src/PosixMonitor/Bpf.antt =====
-- src/perf/posix_io/posix_io.bpf.c behind `insert_thread`, `exit_thread` and `run` of
-- src/monitor/posix_monitor.cpp: the tracepoints, the ring buffer and the monitor that reads it, in
-- any order of their steps. Each tracepoint has the time that it reads and whether the ring buffer
-- has room; a file descriptor is what is left of it in an `int`. The two maps have room for 262144
-- threads; that more threads push others out is left aside.

pub mod Safe
use lo2s.Shared.{
  ℕ, ℤ, pos, negsuc, ltb_ℤ, Bool, true, false, ◌||◌, Option, none, some, List, [], ◌∷◌, ◌++◌, ◌==◌,
  if◌then◌else◌, Result, ok, lookup, assign, ◌>>=◌,
}
use lo2s.PosixMonitor.{
  PosixType, open_file, close_file, read_enter, read_exit, write_enter, write_exit, PosixEvent,
  PosixMonitor, handle_posix_event, forget_call,
}

-- The kernel's calls of the program. `stale` is what the ring buffer has at the field of an exit's
-- event that the program does not write.
pub data Tracepoint : Type 0 where
  do_filp_open : (name : List ℕ) → Tracepoint
  openat_ret : (ret : ℤ) → Tracepoint
  close_call : (fd : ℤ) → Tracepoint
  enter_read : (fd : ℤ) (count buf : ℕ) → Tracepoint
  enter_write : (fd : ℤ) (count buf : ℕ) → Tracepoint
  exit_read : (stale : ℤ) → Tracepoint
  exit_write : (stale : ℤ) → Tracepoint

pub record BpfCall : Type 0 where
  pub tracepoint : Tracepoint
  pub pid : ℕ
  pub time : ℕ
  pub room : Bool

-- The program's maps: the threads to record, the names of files being opened, the events.
pub record Bpf : Type 0 where
  pub pids : List ℕ
  pub open_cache : List (ℕ × List ℕ)
  pub rb : List PosixEvent

unfoldable pub contains : ℕ → List ℕ → Bool
contains t [] = false
contains t (u ∷ us) = u == t || contains t us

unfoldable pub remove : ℕ → List ℕ → List ℕ
remove t [] = []
remove t (u ∷ us) = let rest = remove t us in if u == t then rest else u ∷ rest

abbrev pub event_of : PosixType → BpfCall → ℤ → ℕ → ℕ → List ℕ → PosixEvent
event_of type c fd count buf filename = record {
  type = type;
  time = c.time;
  pid = c.pid;
  fd = fd;
  filename = filename;
  buf = buf;
  count = count;
}

-- `bpf_ringbuf_reserve`, then `bpf_ringbuf_submit`
unfoldable pub submit : BpfCall → PosixEvent → Bpf → Bpf
submit c e b = if c.room then record b { rb = b.rb ++ e ∷ [] } else b

unfoldable pub open_ret : BpfCall → ℤ → Bpf → Bpf
open_ret c ret b = if ltb_ℤ ret (pos 0) then b else elim (lookup c.pid b.open_cache) [
  | none ↦ b
  | some name ↦ submit c (event_of open_file c ret 0 0 name) b
]

-- A tracepoint of a thread to record.
unfoldable pub trace_call : BpfCall → Tracepoint → Bpf → Bpf
trace_call c (do_filp_open name) b = record b { open_cache = assign c.pid name b.open_cache }
trace_call c (openat_ret ret) b = open_ret c ret b
trace_call c (close_call fd) b = submit c (event_of close_file c fd 0 0 []) b
trace_call c (enter_read fd count buf) b = submit c (event_of read_enter c fd count buf []) b
trace_call c (enter_write fd count buf) b = submit c (event_of write_enter c fd count buf []) b
trace_call c (exit_read stale) b = submit c (event_of read_exit c stale 0 0 []) b
trace_call c (exit_write stale) b = submit c (event_of write_exit c stale 0 0 []) b

unfoldable pub bpf_call : BpfCall → Bpf → Bpf
bpf_call c b = if contains c.pid b.pids then trace_call c c.tracepoint b else b

-- The program and the monitor.
pub record PosixSystem : Type 0 where
  pub bpf : Bpf
  pub posix_monitor : PosixMonitor

-- The first half of `insert_thread`; the second is `forget_call`.
unfoldable pub update_pids : ℕ → PosixSystem → PosixSystem
update_pids t s = record s { bpf = record s.bpf { pids = t ∷ s.bpf.pids } }

unfoldable pub insert_thread : ℕ → PosixSystem → PosixSystem
insert_thread t s = record (update_pids t s) { posix_monitor = forget_call t s.posix_monitor }

unfoldable pub exit_thread : ℕ → PosixSystem → PosixSystem
exit_thread t s = record s { bpf = record s.bpf { pids = remove t s.bpf.pids } }

pub data PosixStep : Type 0 where
  insert_step : (thread : ℕ) → PosixStep
  exit_step : (thread : ℕ) → PosixStep
  call_step : BpfCall → PosixStep
  poll_step : PosixStep

module _ (convert : ℕ → ℕ) (comm_of : ℕ → Result ℕ) where
  -- `ring_buffer__poll`, for one event.
  unfoldable pub poll_event : List PosixEvent → PosixSystem → Result PosixSystem
  poll_event [] s = ok s
  poll_event (e ∷ es) s = handle_posix_event convert comm_of e s.posix_monitor >>= λ m.
      ok (record { bpf = record s.bpf { rb = es }; posix_monitor = m })

  unfoldable pub posix_step : PosixStep → PosixSystem → Result PosixSystem
  posix_step (insert_step t) s = ok (insert_thread t s)
  posix_step (exit_step t) s = ok (exit_thread t s)
  posix_step (call_step c) s = ok (record s { bpf = bpf_call c s.bpf })
  posix_step poll_step s = poll_event s.bpf.rb s

  unfoldable pub posix_run : List PosixStep → PosixSystem → Result PosixSystem
  posix_run [] s = ok s
  posix_run (step ∷ steps) s = posix_step step s >>= posix_run steps

abbrev pub start : PosixSystem
start = record {
  bpf = record { pids = []; open_cache = []; rb = [] };
  posix_monitor = record {
    last_fd = [];
    last_count = [];
    last_buf = [];
    instances = [];
    handles = [];
    pre_created = [];
    written = [];
  };
}
