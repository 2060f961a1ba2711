-- ===== src/PosixMonitor/Handle.antt =====
-- Every event that src/monitor/posix_monitor.cpp handles keeps the calls of the trace sound.
use lo2s.Shared.{
  ℕ, ◌≡◌, ℤ, pos, negsuc, ltb_ℤ, true, inl, inr, refl, sym, ap, Bool-cases, some, List, ◌==◌,
  if◌then◌else◌, arith, Result, ok, lookup, assign, lookup-assign, eq_ℤ, eq_ℤ_iff,
}
use lo2s.PosixMonitor.{
  PosixType, open_file, close_file, read_enter, read_exit, write_enter, write_exit, PosixEvent,
  ThreadFd, ThreadFdInstance, OperationMode, read_mode, write_mode, io_create_handle,
  io_destroy_handle, io_operation_begin, PosixMonitor, find, number_at, thread_fd, touch, reuse,
  handle_of, is_known, define_handle, emit, cache_call, posix_io_handle, handle_open, handle_close,
  handle_enter_rw, handle_exit_rw, handle_posix_event, standard_name, forget_call,
}
use lo2s.PosixMonitor.Begun.{
  begun, IsSound, Later, Later-IsSound, Later-trans, reuse-Later, touch-Later, begin-IsSound,
  complete-IsSound, complete_call,
}

-- A file descriptor is cached for the thread. An exit of another thread takes the zero for one.
abbrev pub HasFd : ℕ → PosixMonitor → Type 0
HasFd t m = (fd : ℤ) × (lookup t m.last_fd ≡ some fd)

HasFd-assign :
    (k t : ℕ) (fd : ℤ) (fds : List (ℕ × ℤ))
    → ((u : ℤ) × (lookup t fds ≡ some u))
    → (u : ℤ) × (lookup t (assign k fd fds) ≡ some u)
HasFd-assign k t fd fds (u, h) = elim (Bool-cases (k == t)) [
  | inl same ↦ (fd, ground (arith, same, lookup-assign k t fd fds))
  | inr other ↦ (u, ground (arith, other, h, lookup-assign k t fd fds))
]

pub record Handled (m : PosixMonitor) (outcome : Result PosixMonitor) : Type 0 where
  pub next : PosixMonitor
  pub result : outcome ≡ ok next
  pub sound : IsSound next
  pub keeps : (t : ℕ) → HasFd t m → HasFd t next

pub forget-IsSound : (t : ℕ) (m : PosixMonitor) → IsSound m → IsSound (forget_call t m)
unfolding forget_call
forget-IsSound t m v = record {
  in_cache = λ u fd h n. elim (Bool-cases (t == u)) [
    | inl same ↦ absurd (n (ground (arith, h, same, lookup-assign t u (negsuc 0) m.last_fd)))
    | inr other ↦
        v.in_cache u fd (ground (arith, h, other, lookup-assign t u (negsuc 0) m.last_fd)) n
  ];
  sound = v.sound;
}

pub forget-HasFd : (t u : ℕ) (m : PosixMonitor) → HasFd u m → HasFd u (forget_call t m)
unfolding forget_call
forget-HasFd t u m h = HasFd-assign t u (negsuc 0) m.last_fd h

pub forget_self : (t u : ℕ) (m : PosixMonitor) → (t == u) ≡ true → HasFd u (forget_call t m)
unfolding forget_call
forget_self t u m same = (negsuc 0, ground (arith, same, lookup-assign t u (negsuc 0) m.last_fd))

module _ (convert : ℕ → ℕ) (comm_of : ℕ → Result ℕ)
    (known : (t : ℕ) → (comm : ℕ) × (comm_of t ≡ ok comm)) where
  pub posix_io_handle-Later :
      (id : ThreadFdInstance) (name : List ℕ) (m : PosixMonitor)
      → (m' : PosixMonitor) × (posix_io_handle convert comm_of id name m ≡ ok m')
        × Later m m'
        × (m'.instances ≡ m.instances)
  unfolding posix_io_handle define_handle
  posix_io_handle-Later id name m =
      let (comm, c) = known id.thread in
      elim (Bool-cases (is_known id m.handles)) [
        | inl k ↦ (
          m,
          rw (k, posix_io_handle) refl,
          record {
            last_fd = refl;
            last_count = refl;
            last_buf = refl;
            written = refl;
            instances = λ k. omega arith;
          },
          refl,
        )
        | inr k ↦ (
          define_handle id name comm m,
          rw (k, c, posix_io_handle) refl,
          record {
            last_fd = refl;
            last_count = refl;
            last_buf = refl;
            written = refl;
            instances = λ k. omega arith;
          },
          refl,
        )
      ]

  open-Handled :
      (e : PosixEvent) (m : PosixMonitor) → IsSound m → Handled m (handle_open convert comm_of e m)
  unfolding handle_open begun
  open-Handled e m v =
      let opened = reuse (thread_fd e) m in
      let id = handle_of (thread_fd e) opened in
      let name = if ltb_ℤ e.fd (pos 3) then standard_name e.fd else e.filename in
      let (m', f, l, i) = posix_io_handle-Later id name opened in
      let w = Later-IsSound opened m' l (Later-IsSound m opened (reuse-Later (thread_fd e) m) v) in
      record {
        next = emit (io_create_handle (convert e.time) id) m';
        result = rw (f, handle_open) refl;
        sound = record { in_cache = w.in_cache; sound = w.sound };
        keeps = λ t h. rw (l.last_fd, (reuse-Later (thread_fd e) m).last_fd) h;
      }

  close-Handled :
      (e : PosixEvent) (m : PosixMonitor) → IsSound m → Handled m (handle_close convert comm_of e m)
  unfolding handle_close begun
  close-Handled e m v =
      let found = touch (thread_fd e) m in
      let id = handle_of (thread_fd e) found in
      let (m', f, l, i) = posix_io_handle-Later id (standard_name e.fd) found in
      let w = Later-IsSound found m' l (Later-IsSound m found (touch-Later (thread_fd e) m) v) in
      record {
        next = emit (io_destroy_handle (convert e.time) id) m';
        result = rw (f, handle_close) refl;
        sound = record { in_cache = w.in_cache; sound = w.sound };
        keeps = λ t h. rw (l.last_fd, (touch-Later (thread_fd e) m).last_fd) h;
      }

  enter-Handled :
      (mode : OperationMode) (e : PosixEvent) (m : PosixMonitor)
      → IsSound m
      → Handled m (handle_enter_rw convert comm_of mode e m)
  unfolding handle_enter_rw cache_call
  enter-Handled mode e m v =
      let cached = cache_call e m in
      let found = touch (thread_fd e) cached in
      let id = handle_of (thread_fd e) found in
      let (m', f, l, i) = posix_io_handle-Later id (standard_name e.fd) found in
      let later = Later-trans cached found m' (touch-Later (thread_fd e) cached) l in
      record {
        next = emit (io_operation_begin (convert e.time) id mode e.count e.buf) m';
        result = rw (f, handle_enter_rw) refl;
        sound =
            begin-IsSound (convert e.time) mode e id m m' later refl refl
              (l.instances (thread_fd e)) v;
        keeps = λ t h. rw (later.last_fd) (HasFd-assign e.pid t e.fd m.last_fd h);
      }

  exit-Handled :
      (e : PosixEvent) (m : PosixMonitor)
      → HasFd e.pid m
      → IsSound m
      → Handled m (handle_exit_rw convert comm_of e m)
  unfolding handle_exit_rw
  exit-Handled e m (fd, c) v = elim (Bool-cases (eq_ℤ fd (negsuc 0))) [
    | inl idle ↦ record {
      next = m;
      result = rw (c, idle, handle_exit_rw) refl;
      sound = v;
      keeps = λ t h. h;
    }
    | inr real ↦
        let k : ThreadFd = record { fd = fd; thread = e.pid } in
        let found = touch k m in
        let id = handle_of k found in
        let (m', f, l, i) = posix_io_handle-Later id (standard_name e.fd) found in
        record {
          next =
              complete_call (convert e.time) id (assign e.pid (negsuc 0) m.last_fd)
                (number_at (lookup e.pid m.last_count)) (number_at (lookup e.pid m.last_buf)) m';
          result = rw (c, real, handle_exit_rw) (rw (c, f) refl);
          sound =
              complete-IsSound (convert e.time) id m m' (Later-trans m found m' (touch-Later k m) l)
                c (λ p. ground (arith, real, eq_ℤ_iff fd (negsuc 0)))
                (ap (λ n. number_at (find k n)) (sym i)) v;
          keeps = λ t h. HasFd-assign e.pid t (negsuc 0) m.last_fd h;
        }
  ]

  pub handle_posix_event-Handled :
      (e : PosixEvent) (m : PosixMonitor)
      → HasFd e.pid m
      → IsSound m
      → Handled m (handle_posix_event convert comm_of e m)
  unfolding handle_posix_event
  handle_posix_event-Handled e m h v = of_type e.type refl
    where
      of_type :
          (type : PosixType)
          → ((e.type ≡ type) → Handled m (handle_posix_event convert comm_of e m))
      of_type open_file p = rw (p, handle_posix_event) (open-Handled e m v)
      of_type close_file p = rw (p, handle_posix_event) (close-Handled e m v)
      of_type read_enter p = rw (p, handle_posix_event) (enter-Handled read_mode e m v)
      of_type write_enter p = rw (p, handle_posix_event) (enter-Handled write_mode e m v)
      of_type read_exit p = rw (p, handle_posix_event) (exit-Handled e m h v)
      of_type write_exit p = rw (p, handle_posix_event) (exit-Handled e m h v)
