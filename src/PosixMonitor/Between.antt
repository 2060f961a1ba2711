-- ===== src/PosixMonitor/Between.antt =====
-- An end without a begin in src/monitor/posix_monitor.cpp: a read that ends while its thread is inserted.
use lo2s.Shared.{
  ℕ, ◌≡◌, ℤ, pos, negsuc, true, refl, none, [], ◌∷◌, ◌==◌, arith, Result, ok, lookup, assign,
}
use lo2s.PosixMonitor.{
  read_exit, PosixEvent, ThreadFd, ThreadFdInstance, io_operation_complete, PosixMonitor, number_at,
  touch, handle_of, handle_exit_rw, handle_posix_event, standard_name,
}
use lo2s.PosixMonitor.Begun.{begun, Sound, Completes, complete_call, touch-Later}
use lo2s.PosixMonitor.Handle.{posix_io_handle-Later}
use lo2s.PosixMonitor.Bpf.{
  exit_read, BpfCall, PosixSystem, update_pids, call_step, poll_step, posix_run, posix_step,
  poll_event, bpf_call, trace_call, submit, contains,
}

-- The event of an exit, as the program submits it.
abbrev ended : ℕ → ℕ → ℤ → PosixEvent
ended t time stale = record {
  type = read_exit;
  time = time;
  pid = t;
  fd = stale;
  filename = [];
  buf = 0;
  count = 0;
}

abbrev pub ending : ℕ → ℕ → ℤ → BpfCall
ending t time stale = record { tracepoint = exit_read stale; pid = t; time = time; room = true }

module _ (convert : ℕ → ℕ) (comm_of : ℕ → Result ℕ)
    (known : (t : ℕ) → (comm : ℕ) × (comm_of t ≡ ok comm)) where
  exit_uncached :
      (t time : ℕ) (stale : ℤ) (m : PosixMonitor)
      → lookup t m.last_fd ≡ none
      → lookup t m.last_count ≡ none
      → lookup t m.last_buf ≡ none
      → (m' : PosixMonitor) × (h : ThreadFdInstance) × (handle_posix_event convert comm_of
            (ended t time stale)
            m
          ≡ ok m')
        × (m'.written ≡ io_operation_complete (convert time) h 0 0 ∷ m.written)
        × (h.thread ≡ t)
        × (h.fd ≡ pos 0)
  unfolding handle_posix_event handle_exit_rw
  exit_uncached t time stale m no_fd no_count no_buf =
      let k : ThreadFd = record { fd = pos 0; thread = t } in
      let found = touch k m in
      let id = handle_of k found in
      let (m', f, l, i) =
        posix_io_handle-Later convert comm_of known id (standard_name stale) found in
      (
        complete_call (convert time) id (assign t (negsuc 0) m.last_fd)
            (number_at (lookup t m.last_count)) (number_at (lookup t m.last_buf)) m',
        id,
        rw (no_fd, handle_posix_event, handle_exit_rw) (rw (no_fd, f) refl),
        rw (no_count, no_buf, l.written, (touch-Later k m).written) refl,
        refl,
        refl,
      )

  ending_lem :
      (t time : ℕ) (stale : ℤ) (s : PosixSystem)
      → s.bpf.rb ≡ []
      → (bpf_call (ending t time stale) (update_pids t s).bpf).rb ≡ ended t time stale ∷ []
  unfolding bpf_call trace_call submit contains update_pids
  ending_lem t time stale s empty =
      let here : (t == t) ≡ true = ground arith in rw (here, bpf_call, contains) (rw empty refl)

  -- If a read of a thread ends between the two halves of `insert_thread`, its event is the next to
  -- be polled, nothing was cached for the thread before, and the trace has no call of the thread as
  -- begun, then the trace gets a completion on stdin of no bytes, and is not sound any more.
  pub posix_run_between :
      (t time : ℕ) (stale : ℤ) (s : PosixSystem)
      → s.bpf.rb ≡ []
      → lookup t s.posix_monitor.last_fd ≡ none
      → lookup t s.posix_monitor.last_count ≡ none
      → lookup t s.posix_monitor.last_buf ≡ none
      → begun t s.posix_monitor.written ≡ none
      → (s' : PosixSystem) × (h : ThreadFdInstance) × (posix_run convert comm_of
            (call_step (ending t time stale) ∷ poll_step ∷ [])
            (update_pids t s)
          ≡ ok s')
        × (s'.posix_monitor.written
            ≡ io_operation_complete (convert time) h 0 0 ∷ s.posix_monitor.written)
        × (h.thread ≡ t)
        × (h.fd ≡ pos 0)
        × (¬ Sound s'.posix_monitor.written)
  unfolding posix_run posix_step poll_event update_pids
  posix_run_between t time stale s empty no_fd no_count no_buf idle =
      let (m', h, f, w, th, fd) =
        exit_uncached t time stale s.posix_monitor no_fd no_count no_buf in
      (
        record {
          bpf = record (bpf_call (ending t time stale) (update_pids t s).bpf) { rb = [] };
          posix_monitor = m';
        },
        h,
        rw (ending_lem t time stale s empty) (rw f refl),
        w,
        th,
        fd,
        λ v. rw (th, idle) at (v_head h m' w v),
      )
    where
      v_head :
          (h : ThreadFdInstance) (m' : PosixMonitor)
          → m'.written ≡ io_operation_complete (convert time) h 0 0 ∷ s.posix_monitor.written
          → Sound m'.written
          → Completes (begun h.thread s.posix_monitor.written) h.fd h.instance_of 0 0
      v_head h m' w v = (rw w at v).0
