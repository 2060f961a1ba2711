-- ===== src/PosixMonitor/Pair.antt =====
-- The two ends of a call in src/monitor/posix_monitor.cpp.
use lo2s.Shared.{
  ℕ, ◌≡◌, ◌≢◌, ◌⊎◌, negsuc, eq_ℤ, eq_ℤ_iff, false, inl, inr, refl, sym, ◌∙◌, Bool-cases, some, List,
  [], ◌∷◌, ◌++◌, ◌==◌, arith, All, Result, ok, lookup, assign, lookup-assign, ok_inj, bind_inv,
}
use lo2s.PosixMonitor.{
  read_enter, read_exit, write_enter, write_exit, PosixEvent, ThreadFd, OperationMode, read_mode,
  write_mode, PosixIo, io_operation_begin, io_operation_complete, PosixMonitor, find, number_at,
  thread_fd, touch, handle_of, emit, cache_call, handle_enter_rw, handle_exit_rw,
  handle_posix_event, handle_posix_events, standard_name,
}
use lo2s.PosixMonitor.Keys.{touch_number}
use lo2s.PosixMonitor.Begun.{begun, BegunCall, complete_call, touch-Later}
use lo2s.PosixMonitor.Handle.{posix_io_handle-Later}
use lo2s.PosixMonitor.Exit.{Apart, events-Apart}

-- The maps have the call that the trace has begun.
record InCall (t : ℕ) (b : BegunCall) (m : PosixMonitor) : Type 0 where
  pub last_fd : lookup t m.last_fd ≡ some b.io_handle.fd
  pub last_count : lookup t m.last_count ≡ some b.count
  pub last_buf : lookup t m.last_buf ≡ some b.buf
  pub begun_lem : begun t m.written ≡ some b
  pub instances :
      number_at (find (record { fd = b.io_handle.fd; thread = t }) m.instances)
      ≡ b.io_handle.instance_of
  pub thread : b.io_handle.thread ≡ t

Apart-InCall :
    (t : ℕ) (b : BegunCall) (m m' : PosixMonitor) → Apart t m m' → InCall t b m → InCall t b m'
Apart-InCall t b m m' a c = record {
  last_fd = a.last_fd ∙ c.last_fd;
  last_count = a.last_count ∙ c.last_count;
  last_buf = a.last_buf ∙ c.last_buf;
  begun_lem = a.begun_lem ∙ c.begun_lem;
  instances = a.instances b.io_handle.fd ∙ c.instances;
  thread = c.thread;
}

abbrev pub IsEnter : PosixEvent → Type 0
IsEnter e = (e.type ≡ read_enter) ⊎ (e.type ≡ write_enter)

abbrev pub IsExit : PosixEvent → Type 0
IsExit e = (e.type ≡ read_exit) ⊎ (e.type ≡ write_exit)

module _ (convert : ℕ → ℕ) (comm_of : ℕ → Result ℕ)
    (known : (t : ℕ) → (comm : ℕ) × (comm_of t ≡ ok comm)) where
  enter_rw-InCall :
      (mode : OperationMode) (e : PosixEvent) (m : PosixMonitor)
      → (m' : PosixMonitor) × (b : BegunCall) × (handle_enter_rw convert comm_of mode e m ≡ ok m')
        × InCall e.pid b m'
        × (b.io_handle.fd ≡ e.fd)
        × (b.count ≡ e.count)
        × (b.buf ≡ e.buf)
  unfolding handle_enter_rw begun cache_call
  enter_rw-InCall mode e m =
      let cached = cache_call e m in
      let found = touch (thread_fd e) cached in
      let id = handle_of (thread_fd e) found in
      let (m', f, l, i) =
        posix_io_handle-Later convert comm_of known id (standard_name e.fd) found in
      let r = touch-Later (thread_fd e) cached in
      (
        emit (io_operation_begin (convert e.time) id mode e.count e.buf) m',
        record { io_handle = id; count = e.count; buf = e.buf },
        rw (f, handle_enter_rw) refl,
        record {
          last_fd =
              rw (l.last_fd, r.last_fd) (ground (arith, lookup-assign e.pid e.pid e.fd m.last_fd));
          last_count =
              rw (l.last_count, r.last_count)
                (ground (arith, lookup-assign e.pid e.pid e.count m.last_count));
          last_buf =
              rw (l.last_buf, r.last_buf)
                (ground (arith, lookup-assign e.pid e.pid e.buf m.last_buf));
          begun_lem = ground arith;
          instances = rw i refl;
          thread = refl;
        },
        refl,
        refl,
        refl,
      )

  exit_rw_made :
      (x : PosixEvent) (b : BegunCall) (m : PosixMonitor)
      → InCall x.pid b m
      → b.io_handle.fd ≢ negsuc 0
      → (m' : PosixMonitor) × (handle_exit_rw convert comm_of x m ≡ ok m')
        × (m'.written
            ≡ io_operation_complete (convert x.time) b.io_handle b.count b.buf ∷ m.written)
  unfolding handle_exit_rw
  exit_rw_made x b m c real =
      let fd = b.io_handle.fd in
      let k : ThreadFd = record { fd = fd; thread = x.pid } in
      let found = touch k m in
      let id = handle_of k found in
      let (m', f, l, i) =
        posix_io_handle-Later convert comm_of known id (standard_name x.fd) found in
      let other : eq_ℤ fd (negsuc 0) ≡ false = elim (Bool-cases (eq_ℤ fd (negsuc 0))) [
        | inl e ↦ absurd (real ((eq_ℤ_iff fd (negsuc 0)).0 e))
        | inr e ↦ e
      ] in
      let same : number_at (find k found.instances) ≡ b.io_handle.instance_of =
        touch_number k k m ∙ c.instances in
      (
        complete_call (convert x.time) id (assign x.pid (negsuc 0) m.last_fd)
            (number_at (lookup x.pid m.last_count)) (number_at (lookup x.pid m.last_buf)) m',
        rw (c.last_fd, other, handle_exit_rw) (rw (c.last_fd, f) refl),
        rw (c.last_count, c.last_buf, l.written, (touch-Later k m).written, same, ← c.thread) refl,
      )

  handle_posix_events-snoc :
      (es : List PosixEvent) (x : PosixEvent) (m m1 m2 : PosixMonitor)
      → handle_posix_events convert comm_of es m ≡ ok m1
      → handle_posix_event convert comm_of x m1 ≡ ok m2
      → handle_posix_events convert comm_of (es ++ x ∷ []) m ≡ ok m2
  unfolding handle_posix_events
  handle_posix_events-snoc [] x m m1 m2 h g = rw (ok_inj m m1 h, g) refl
  handle_posix_events-snoc (e ∷ es) x m m1 m2 h g =
      let (n, f, later) =
        bind_inv (handle_posix_event convert comm_of e m) (handle_posix_events convert comm_of es)
          h in
      rw f (handle_posix_events-snoc es x n m1 m2 later g)

  enter-InCall :
      (e : PosixEvent) (m : PosixMonitor)
      → IsEnter e
      → (m' : PosixMonitor) × (b : BegunCall) × (handle_posix_event convert comm_of e m ≡ ok m')
        × InCall e.pid b m'
        × (b.io_handle.fd ≡ e.fd)
        × (b.count ≡ e.count)
        × (b.buf ≡ e.buf)
  unfolding handle_posix_event
  enter-InCall e m (inl p) = rw (p, handle_posix_event) (enter_rw-InCall read_mode e m)
  enter-InCall e m (inr p) = rw (p, handle_posix_event) (enter_rw-InCall write_mode e m)

  exit_made :
      (x : PosixEvent) (b : BegunCall) (m : PosixMonitor)
      → IsExit x
      → InCall x.pid b m
      → b.io_handle.fd ≢ negsuc 0
      → (m' : PosixMonitor) × (handle_posix_event convert comm_of x m ≡ ok m')
        × (m'.written
            ≡ io_operation_complete (convert x.time) b.io_handle b.count b.buf ∷ m.written)
  unfolding handle_posix_event
  exit_made x b m (inl p) c real = rw (p, handle_posix_event) (exit_rw_made x b m c real)
  exit_made x b m (inr p) c real = rw (p, handle_posix_event) (exit_rw_made x b m c real)

  -- If the registry has a communicator for every thread, a thread enters a read or a write with a
  -- file descriptor other than -1, and only other threads have events until its next one, which is
  -- an exit, then the monitor handles all of these events. The last thing written is the completion:
  -- its handle, with the instance of the file descriptor, its size and its buffer are those that the
  -- trace has as begun by the thread just before, and these are the ones of the enter.
  pub handle_posix_events_complete :
      (e x : PosixEvent) (others : List PosixEvent) (m : PosixMonitor)
      → IsEnter e
      → e.fd ≢ negsuc 0
      → All (λ o. (o.pid == e.pid) ≡ false) others
      → IsExit x
      → x.pid ≡ e.pid
      → (m' : PosixMonitor) × (b : BegunCall) × (before : List PosixIo) × (handle_posix_events
            convert comm_of
            (e ∷ (others ++ x ∷ []))
            m
          ≡ ok m')
        × (m'.written ≡ io_operation_complete (convert x.time) b.io_handle e.count e.buf ∷ before)
        × (begun e.pid before ≡ some b)
        × (b.io_handle.fd ≡ e.fd)
        × (b.count ≡ e.count)
        × (b.buf ≡ e.buf)
  unfolding handle_posix_events
  handle_posix_events_complete e x others m ent real apart ex pid =
      let (m1, b, f, c, bfd, bcount, bbuf) = enter-InCall e m ent in
      let (m2, g, a) = events-Apart convert comm_of known e.pid others m1 apart in
      let c2 = Apart-InCall e.pid b m1 m2 a c in
      let (m3, k, w) = exit_made x b m2 ex (rw pid c2) (λ q. real (sym bfd ∙ q)) in
      (
        m3,
        b,
        m2.written,
        rw f (handle_posix_events-snoc others x m1 m2 m3 g k),
        w ∙ (λ i.
            io_operation_complete (convert x.time) b.io_handle (bcount i) (bbuf i) ∷ m2.written),
        c2.begun_lem,
        bfd,
        bcount,
        bbuf,
      )
