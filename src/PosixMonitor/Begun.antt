-- ===== src/PosixMonitor/Begun.antt =====
-- What src/monitor/posix_monitor.cpp says of a call that ends: what the thread's last call began.
use lo2s.Shared.{
  ℕ, ◌≤◌, ◌≡◌, ◌≢◌, ℤ, negsuc, false, inl, inr, refl, sym, ◌∙◌, Bool-cases, Option, none, some,
  Option-cases, List, [], ◌∷◌, ◌==◌, if◌then◌else◌, arith, lookup, assign, lookup-assign,
}
use lo2s.PosixMonitor.{
  PosixEvent, ThreadFd, ThreadFdInstance, OperationMode, PosixIo, io_create_handle,
  io_destroy_handle, io_operation_begin, io_operation_complete, PosixMonitor, find, number_at,
  touch, reuse, emit, cache_call,
}
use lo2s.PosixMonitor.Keys.{touch_number, reuse_number}

-- A call that the trace has begun.
pub record BegunCall : Type 0 where
  pub io_handle : ThreadFdInstance
  pub count : ℕ
  pub buf : ℕ

-- The last call of a thread in the trace, if it is not complete there.
unfoldable pub begun : ℕ → List PosixIo → Option BegunCall
begun t [] = none
begun t (io_create_handle tp h ∷ es) = begun t es
begun t (io_destroy_handle tp h ∷ es) = begun t es
begun t (io_operation_begin tp h mode count buf ∷ es) =
    let before = begun t es in
    if h.thread == t then some (record { io_handle = h; count = count; buf = buf }) else before
begun t (io_operation_complete tp h count buf ∷ es) =
    let before = begun t es in if h.thread == t then none else before

-- A begun call of the file descriptor, the size and the buffer; the instance can be a later one, if
-- the file descriptor was given out again before the call's end was seen.
abbrev pub Completes : Option BegunCall → ℤ → ℕ → ℕ → ℕ → Type 0
Completes none fd inst count buf = ⊥
Completes (some b) fd inst count buf =
    (b.io_handle.fd ≡ fd) × (b.count ≡ count) × (b.buf ≡ buf) × (b.io_handle.instance_of ≤ inst)

-- Every complete call was begun by its thread, and was not complete before.
abbrev pub Sound : List PosixIo → Type 0
Sound [] = Unit {0}
Sound (io_create_handle tp h ∷ es) = Sound es
Sound (io_destroy_handle tp h ∷ es) = Sound es
Sound (io_operation_begin tp h mode count buf ∷ es) = Sound es
Sound (io_operation_complete tp h count buf ∷ es) =
    Completes (begun h.thread es) h.fd h.instance_of count buf × Sound es

abbrev pub instance_at : ℤ → ℕ → PosixMonitor → ℕ
instance_at fd t m = number_at (find (record { fd = fd; thread = t }) m.instances)

-- What is cached for a thread is the call that the trace has begun.
pub record IsSound (m : PosixMonitor) : Type 0 where
  pub in_cache :
      (t : ℕ) (fd : ℤ)
      → lookup t m.last_fd ≡ some fd
      → fd ≢ negsuc 0
      → Completes
          (begun t m.written)
          fd
          (instance_at fd t m)
          (number_at (lookup t m.last_count))
          (number_at (lookup t m.last_buf))
  pub sound : Sound m.written

-- No entry of `instance_` gets smaller, and the rest is as it was.
pub record Later (m m' : PosixMonitor) : Type 0 where
  pub last_fd : m'.last_fd ≡ m.last_fd
  pub last_count : m'.last_count ≡ m.last_count
  pub last_buf : m'.last_buf ≡ m.last_buf
  pub written : m'.written ≡ m.written
  pub instances : (k : ThreadFd) → number_at (find k m.instances) ≤ number_at (find k m'.instances)

pub reuse-Later : (k : ThreadFd) (m : PosixMonitor) → Later m (reuse k m)
unfolding reuse
reuse-Later k m = elim (Option-cases (find k m.instances)) [
  | inl n ↦ record {
    last_fd = rw (n, reuse) refl;
    last_count = rw (n, reuse) refl;
    last_buf = rw (n, reuse) refl;
    written = rw (n, reuse) refl;
    instances = λ j. reuse_number k j m;
  }
  | inr (i, n) ↦ record {
    last_fd = rw (n, reuse) refl;
    last_count = rw (n, reuse) refl;
    last_buf = rw (n, reuse) refl;
    written = rw (n, reuse) refl;
    instances = λ j. reuse_number k j m;
  }
]

pub touch-Later : (k : ThreadFd) (m : PosixMonitor) → Later m (touch k m)
unfolding touch
touch-Later k m = elim (Option-cases (find k m.instances)) [
  | inl n ↦ record {
    last_fd = rw (n, touch) refl;
    last_count = rw (n, touch) refl;
    last_buf = rw (n, touch) refl;
    written = rw (n, touch) refl;
    instances = λ j. omega (arith, touch_number k j m);
  }
  | inr (i, n) ↦ record {
    last_fd = rw (n, touch) refl;
    last_count = rw (n, touch) refl;
    last_buf = rw (n, touch) refl;
    written = rw (n, touch) refl;
    instances = λ j. omega (arith, touch_number k j m);
  }
]

Completes-later :
    (b : Option BegunCall) (fd : ℤ) (i j count buf : ℕ)
    → i ≤ j
    → Completes b fd i count buf
    → Completes b fd j count buf
Completes-later none fd i j count buf le c = c
Completes-later (some b) fd i j count buf le (f, n, u, o) = (f, n, u, omega arith)

pub Later-IsSound : (m m' : PosixMonitor) → Later m m' → IsSound m → IsSound m'
Later-IsSound m m' l v = record {
  in_cache = λ t fd h n.
      rw (l.written, l.last_count, l.last_buf)
        (Completes-later (begun t m.written) fd (instance_at fd t m) (instance_at fd t m') _ _
          (l.instances (record { fd = fd; thread = t })) (v.in_cache t fd (rw l.last_fd at h) n));
  sound = rw l.written (v.sound);
}

-- `io_operation_begin` behind the change of the three maps.
pub begin-IsSound :
    (tp : ℕ) (mode : OperationMode) (e : PosixEvent) (h : ThreadFdInstance) (m m' : PosixMonitor)
    → Later (cache_call e m) m'
    → h.thread ≡ e.pid
    → h.fd ≡ e.fd
    → h.instance_of ≤ instance_at e.fd e.pid m'
    → IsSound m
    → IsSound (emit (io_operation_begin tp h mode e.count e.buf) m')
unfolding begun cache_call
begin-IsSound tp mode e h m m' l ht hf hi v = record {
  in_cache = λ t fd a n. elim (Bool-cases (h.thread == t)) [
    | inl same ↦
        let pid : e.pid ≡ t = ground (arith, same, ht) in
        let seen : e.fd ≡ fd =
          ground (arith, a, pid, l.last_fd, lookup-assign e.pid t e.fd m.last_fd) in
        rw same (
          ground (arith, hf, seen),
          ground (arith, pid, l.last_count, lookup-assign e.pid t e.count m.last_count),
          ground (arith, pid, l.last_buf, lookup-assign e.pid t e.buf m.last_buf),
          rw (seen, pid) at hi,
        )
    | inr other ↦
        let pid : (e.pid == t) ≡ false = ground (arith, other, ht) in
        let before : lookup t m.last_fd ≡ some fd =
          ground (arith, a, pid, l.last_fd, lookup-assign e.pid t e.fd m.last_fd) in
        let count : lookup t m'.last_count ≡ lookup t m.last_count =
          ground (arith, pid, l.last_count, lookup-assign e.pid t e.count m.last_count) in
        let buf : lookup t m'.last_buf ≡ lookup t m.last_buf =
          ground (arith, pid, l.last_buf, lookup-assign e.pid t e.buf m.last_buf) in
        rw (other, l.written, count, buf)
          (Completes-later (begun t m.written) fd (instance_at fd t m) (instance_at fd t m') _ _
            (l.instances (record { fd = fd; thread = t })) (v.in_cache t fd before n))
  ];
  sound = rw l.written (v.sound);
}

-- `io_operation_complete`, behind which nothing is cached for the thread.
abbrev pub complete_call : ℕ → ThreadFdInstance → List (ℕ × ℤ) → ℕ → ℕ → PosixMonitor → PosixMonitor
complete_call tp h fds count buf m = record m {
  written = io_operation_complete tp h count buf ∷ m.written;
  last_fd = fds;
}

pub complete-IsSound :
    (tp : ℕ) (h : ThreadFdInstance) (m m' : PosixMonitor)
    → Later m m'
    → lookup h.thread m.last_fd ≡ some h.fd
    → h.fd ≢ negsuc 0
    → h.instance_of ≡ instance_at h.fd h.thread m'
    → IsSound m
    → IsSound (
        complete_call tp h
          (assign h.thread (negsuc 0) m.last_fd)
          (number_at (lookup h.thread m.last_count))
          (number_at (lookup h.thread m.last_buf))
          m')
unfolding begun
complete-IsSound tp h m m' l known real inst v = record {
  in_cache = λ t fd a n.
      let moved = lookup-assign h.thread t (negsuc 0) m.last_fd in
      elim (Bool-cases (h.thread == t)) [
        | inl same ↦ absurd (gone t fd (ground (arith, a, moved, same)) n)
        | inr other ↦
            rw (other, l.written, l.last_count, l.last_buf)
              (Completes-later (begun t m.written) fd (instance_at fd t m) (instance_at fd t m') _ _
                (l.instances (record { fd = fd; thread = t }))
                (v.in_cache t fd (ground (arith, a, moved, other)) n))
      ];
  sound =
      rw (inst, l.written)
        (
          Completes-later (begun h.thread m.written) h.fd (instance_at h.fd h.thread m)
              (instance_at h.fd h.thread m') _ _
              (l.instances (record { fd = h.fd; thread = h.thread }))
              (v.in_cache h.thread h.fd known real),
          v.sound,
        );
}
  where
    gone : (t : ℕ) (fd : ℤ) → negsuc 0 ≡ fd → fd ≢ negsuc 0 → ⊥
    gone t fd e n = n (sym e)

pub Later-trans : (m n o : PosixMonitor) → Later m n → Later n o → Later m o
Later-trans m n o a b = record {
  last_fd = b.last_fd ∙ a.last_fd;
  last_count = b.last_count ∙ a.last_count;
  last_buf = b.last_buf ∙ a.last_buf;
  written = b.written ∙ a.written;
  instances = λ k. omega (arith, a.instances k, b.instances k);
}
