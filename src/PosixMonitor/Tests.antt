-- ===== src/PosixMonitor/Tests.antt =====
-- Concrete calls of threads for src/monitor/posix_monitor.cpp: the lemmas' hypotheses hold on them.
use lo2s.Shared.{ℕ, ◌+◌, ◌≡◌, ℤ, pos, true, inl, refl, some, List, [], ◌∷◌, ◌++◌, Result, ok, err}
use lo2s.PosixMonitor.{
  PosixType, read_enter, read_exit, close_file, PosixEvent, ThreadFdInstance, PosixIo, read_mode,
  io_create_handle, io_operation_begin, io_operation_complete, PosixMonitor, handle_posix_events,
  handle_posix_event, handle_open, handle_enter_rw, handle_exit_rw, posix_io_handle, define_handle,
  touch, reuse, thread_fd_lt, standard_name, is_known, same_instance, cache_call, forget_call,
}
use lo2s.PosixMonitor.Begun.{begun, BegunCall, Sound}
use lo2s.PosixMonitor.Pair.{handle_posix_events_complete}
use lo2s.PosixMonitor.Between.{posix_run_between}
use lo2s.PosixMonitor.Bpf.{
  do_filp_open, openat_ret, enter_read, exit_read, PosixSystem, PosixStep, insert_step, exit_step,
  call_step, poll_step, posix_run, posix_step, poll_event, bpf_call, trace_call, open_ret, submit,
  contains, remove, update_pids, insert_thread, exit_thread, start, Tracepoint,
}
use lo2s.PosixMonitor.Bpf.Safe.{posix_run-Sound}

abbrev clock : ℕ → ℕ
clock perf = perf + 100

abbrev process_comm : ℕ → Result ℕ
process_comm t = ok 1

process_known : (t : ℕ) → (comm : ℕ) × (process_comm t ≡ ok comm)
process_known t = (1, refl)

abbrev called : ℕ → ℕ → Tracepoint → PosixStep
called t time point = call_step (record { tracepoint = point; pid = t; time = time; room = true })

-- Thread 7 opens a file and reads from it; thread 8 is not recorded.
abbrev a_read : List PosixStep
a_read =
    insert_step 7
    ∷ called 7 1 (do_filp_open (b'f' ∷ []))
    ∷ called 7 2 (openat_ret (pos 3))
    ∷ called 8 3 (enter_read (pos 3) 4 64)
    ∷ called 7 4 (enter_read (pos 3) 16 4096)
    ∷ poll_step
    ∷ poll_step
    ∷ called 7 5 (exit_read (pos 9))
    ∷ exit_step 7
    ∷ poll_step
    ∷ []

abbrev file_handle : ThreadFdInstance
file_handle = record { thread = 7; fd = pos 3; instance_of = 0 }

abbrev ios : Result PosixSystem → List PosixIo
ios (ok s) = s.posix_monitor.written
ios (err fault) = []

a_read_lem :
    ios (posix_run clock process_comm a_read start)
    ≡ io_operation_complete 105 file_handle 16 4096
      ∷ io_operation_begin 104 file_handle read_mode 16 4096
      ∷ io_create_handle 102 file_handle
      ∷ []
unfolding posix_run posix_step poll_event bpf_call trace_call open_ret submit contains remove
    update_pids insert_thread exit_thread handle_posix_event handle_open handle_enter_rw
    handle_exit_rw posix_io_handle define_handle touch reuse thread_fd_lt standard_name is_known
    same_instance cache_call forget_call
a_read_lem = refl

posix_run-Sound_example :
    (s' : PosixSystem) × (posix_run clock process_comm a_read start ≡ ok s')
    × Sound s'.posix_monitor.written
posix_run-Sound_example = posix_run-Sound clock process_comm process_known a_read

abbrev event : PosixType → ℕ → ℕ → ℤ → PosixEvent
event type t time fd = record {
  type = type;
  time = time;
  pid = t;
  fd = fd;
  filename = [];
  buf = 512;
  count = 24;
}

abbrev others : List PosixEvent
others = event close_file 8 2 (pos 4) ∷ event read_exit 9 3 (pos 0) ∷ []

abbrev reading : PosixEvent
reading = event read_enter 7 1 (pos 4)

abbrev read_done : PosixEvent
read_done = event read_exit 7 5 (pos 0)

handle_posix_events_complete_example :
    (m' : PosixMonitor) × (b : BegunCall) × (before : List PosixIo) × (handle_posix_events clock
        process_comm
        (reading ∷ (others ++ read_done ∷ []))
        start.posix_monitor
      ≡ ok m')
    × (m'.written ≡ io_operation_complete 105 b.io_handle 24 512 ∷ before)
    × (begun 7 before ≡ some b)
    × (b.io_handle.fd ≡ pos 4)
    × (b.count ≡ 24)
    × (b.buf ≡ 512)
handle_posix_events_complete_example =
    handle_posix_events_complete clock process_comm process_known reading read_done others
      start.posix_monitor (inl refl) (λ p. cc) (refl, (refl, tt)) (inl refl) refl

posix_run_between_example :
    (s' : PosixSystem) × (h : ThreadFdInstance) × (posix_run clock process_comm
        (call_step (record { tracepoint = exit_read (pos 0); pid = 7; time = 1; room = true })
          ∷ poll_step
          ∷ [])
        (update_pids 7 start)
      ≡ ok s')
    × (s'.posix_monitor.written ≡ io_operation_complete 101 h 0 0 ∷ [])
    × (h.thread ≡ 7)
    × (h.fd ≡ pos 0)
    × (¬ Sound s'.posix_monitor.written)
unfolding begun
posix_run_between_example =
    posix_run_between clock process_comm process_known 7 1 (pos 0) start refl refl refl refl refl
