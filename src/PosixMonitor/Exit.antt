-- ===== src/PosixMonitor/Exit.antt =====
-- What src/monitor/posix_monitor.cpp writes at the end of a call.
use lo2s.Shared.{
  ℕ, ◌≡◌, ℤ, pos, negsuc, ltb_ℤ, eq_ℤ, false, inl, inr, refl, ◌∙◌, Bool-cases, List, [], ◌∷◌, ◌==◌,
  arith, All, Result, ok, lookup, assign, lookup-assign, if◌then◌else◌,
}
use lo2s.PosixMonitor.{
  PosixType, open_file, close_file, read_enter, read_exit, write_enter, write_exit, PosixEvent,
  ThreadFd, OperationMode, read_mode, write_mode, io_create_handle, io_destroy_handle,
  io_operation_begin, PosixMonitor, find, number_at, fd_at, thread_fd, touch, reuse, handle_of,
  emit, cache_call, handle_open, handle_close, handle_enter_rw, handle_exit_rw, handle_posix_event,
  handle_posix_events, standard_name,
}
use lo2s.PosixMonitor.Keys.{touch_number, reuse_other}
use lo2s.PosixMonitor.Begun.{begun, complete_call, touch-Later, reuse-Later}
use lo2s.PosixMonitor.Handle.{posix_io_handle-Later}

-- What the events of other threads leave as it is.
pub record Apart (t : ℕ) (m m' : PosixMonitor) : Type 0 where
  pub last_fd : lookup t m'.last_fd ≡ lookup t m.last_fd
  pub last_count : lookup t m'.last_count ≡ lookup t m.last_count
  pub last_buf : lookup t m'.last_buf ≡ lookup t m.last_buf
  pub begun_lem : begun t m'.written ≡ begun t m.written
  pub instances :
      (fd : ℤ)
      → number_at (find (record { fd = fd; thread = t }) m'.instances)
        ≡ number_at (find (record { fd = fd; thread = t }) m.instances)

Apart-trans : (t : ℕ) (m n o : PosixMonitor) → Apart t m n → Apart t n o → Apart t m o
Apart-trans t m n o a b = record {
  last_fd = b.last_fd ∙ a.last_fd;
  last_count = b.last_count ∙ a.last_count;
  last_buf = b.last_buf ∙ a.last_buf;
  begun_lem = b.begun_lem ∙ a.begun_lem;
  instances = λ fd. b.instances fd ∙ a.instances fd;
}

module _ (convert : ℕ → ℕ) (comm_of : ℕ → Result ℕ)
    (known : (t : ℕ) → (comm : ℕ) × (comm_of t ≡ ok comm)) (t : ℕ) where
  open-Apart :
      (e : PosixEvent) (m : PosixMonitor)
      → (e.pid == t) ≡ false
      → (m' : PosixMonitor) × (handle_open convert comm_of e m ≡ ok m') × Apart t m m'
  unfolding handle_open begun
  open-Apart e m o =
      let opened = reuse (thread_fd e) m in
      let id = handle_of (thread_fd e) opened in
      let name = if ltb_ℤ e.fd (pos 3) then standard_name e.fd else e.filename in
      let (m', f, l, i) = posix_io_handle-Later convert comm_of known id name opened in
      let r = reuse-Later (thread_fd e) m in
      (
        emit (io_create_handle (convert e.time) id) m',
        rw (f, handle_open) refl,
        record {
          last_fd = rw (l.last_fd, r.last_fd) refl;
          last_count = rw (l.last_count, r.last_count) refl;
          last_buf = rw (l.last_buf, r.last_buf) refl;
          begun_lem = rw (l.written, r.written) refl;
          instances = λ fd. rw i (reuse_other (thread_fd e) (record { fd = fd; thread = t }) m o);
        },
      )

  close-Apart :
      (e : PosixEvent) (m : PosixMonitor)
      → (m' : PosixMonitor) × (handle_close convert comm_of e m ≡ ok m') × Apart t m m'
  unfolding handle_close begun
  close-Apart e m =
      let found = touch (thread_fd e) m in
      let id = handle_of (thread_fd e) found in
      let (m', f, l, i) =
        posix_io_handle-Later convert comm_of known id (standard_name e.fd) found in
      let r = touch-Later (thread_fd e) m in
      (
        emit (io_destroy_handle (convert e.time) id) m',
        rw (f, handle_close) refl,
        record {
          last_fd = rw (l.last_fd, r.last_fd) refl;
          last_count = rw (l.last_count, r.last_count) refl;
          last_buf = rw (l.last_buf, r.last_buf) refl;
          begun_lem = rw (l.written, r.written) refl;
          instances = λ fd. rw i (touch_number (thread_fd e) (record { fd = fd; thread = t }) m);
        },
      )

  enter-Apart :
      (mode : OperationMode) (e : PosixEvent) (m : PosixMonitor)
      → (e.pid == t) ≡ false
      → (m' : PosixMonitor) × (handle_enter_rw convert comm_of mode e m ≡ ok m') × Apart t m m'
  unfolding handle_enter_rw begun cache_call
  enter-Apart mode e m o =
      let cached = cache_call e m in
      let found = touch (thread_fd e) cached in
      let id = handle_of (thread_fd e) found in
      let (m', f, l, i) =
        posix_io_handle-Later convert comm_of known id (standard_name e.fd) found in
      let r = touch-Later (thread_fd e) cached in
      (
        emit (io_operation_begin (convert e.time) id mode e.count e.buf) m',
        rw (f, handle_enter_rw) refl,
        record {
          last_fd =
              rw (l.last_fd, r.last_fd) (ground (arith, o, lookup-assign e.pid t e.fd m.last_fd));
          last_count =
              rw (l.last_count, r.last_count)
                (ground (arith, o, lookup-assign e.pid t e.count m.last_count));
          last_buf =
              rw (l.last_buf, r.last_buf)
                (ground (arith, o, lookup-assign e.pid t e.buf m.last_buf));
          begun_lem = rw (o, l.written, r.written) refl;
          instances =
              λ fd. rw i (touch_number (thread_fd e) (record { fd = fd; thread = t }) cached);
        },
      )

  exit-Apart :
      (e : PosixEvent) (m : PosixMonitor)
      → (e.pid == t) ≡ false
      → (m' : PosixMonitor) × (handle_exit_rw convert comm_of e m ≡ ok m') × Apart t m m'
  unfolding handle_exit_rw begun
  exit-Apart e m o =
      let fd = fd_at (lookup e.pid m.last_fd) in
      elim (Bool-cases (eq_ℤ fd (negsuc 0))) [
        | inl idle ↦ (
          m,
          rw (idle, handle_exit_rw) refl,
          record {
            last_fd = refl;
            last_count = refl;
            last_buf = refl;
            begun_lem = refl;
            instances = λ fd. refl;
          },
        )
        | inr real ↦
            let k : ThreadFd = record { fd = fd; thread = e.pid } in
            let found = touch k m in
            let id = handle_of k found in
            let (m', f, l, i) =
              posix_io_handle-Later convert comm_of known id (standard_name e.fd) found in
            let r = touch-Later k m in
            (
              complete_call (convert e.time) id (assign e.pid (negsuc 0) m.last_fd)
                  (number_at (lookup e.pid m.last_count)) (number_at (lookup e.pid m.last_buf)) m',
              rw (real, handle_exit_rw) (rw f refl),
              record {
                last_fd = ground (arith, o, lookup-assign e.pid t (negsuc 0) m.last_fd);
                last_count = rw (l.last_count, r.last_count) refl;
                last_buf = rw (l.last_buf, r.last_buf) refl;
                begun_lem = rw (o, l.written, r.written) refl;
                instances = λ fd. rw i (touch_number k (record { fd = fd; thread = t }) m);
              },
            )
      ]

  event-Apart :
      (e : PosixEvent) (m : PosixMonitor)
      → (e.pid == t) ≡ false
      → (m' : PosixMonitor) × (handle_posix_event convert comm_of e m ≡ ok m') × Apart t m m'
  unfolding handle_posix_event
  event-Apart e m o = of_type e.type refl
    where
      of_type :
          (type : PosixType)
          → e.type ≡ type
          → (m' : PosixMonitor) × (handle_posix_event convert comm_of e m ≡ ok m') × Apart t m m'
      of_type open_file p = rw (p, handle_posix_event) (open-Apart e m o)
      of_type close_file p = rw (p, handle_posix_event) (close-Apart e m)
      of_type read_enter p = rw (p, handle_posix_event) (enter-Apart read_mode e m o)
      of_type write_enter p = rw (p, handle_posix_event) (enter-Apart write_mode e m o)
      of_type read_exit p = rw (p, handle_posix_event) (exit-Apart e m o)
      of_type write_exit p = rw (p, handle_posix_event) (exit-Apart e m o)

  pub events-Apart :
      (es : List PosixEvent) (m : PosixMonitor)
      → All (λ e. (e.pid == t) ≡ false) es
      → (m' : PosixMonitor) × (handle_posix_events convert comm_of es m ≡ ok m') × Apart t m m'
  unfolding handle_posix_events
  events-Apart [] m o = (
    m,
    refl,
    record {
      last_fd = refl;
      last_count = refl;
      last_buf = refl;
      begun_lem = refl;
      instances = λ fd. refl;
    },
  )
  events-Apart (e ∷ es) m (o, os) =
      let (m1, f, a) = event-Apart e m o in
      let (m2, g, b) = events-Apart es m1 os in (m2, rw f g, Apart-trans t m m1 m2 a b)
