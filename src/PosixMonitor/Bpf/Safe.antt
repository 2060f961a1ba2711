-- ===== src/PosixMonitor/Bpf/Safe.antt =====
-- src/perf/posix_io/posix_io.bpf.c and src/monitor/posix_monitor.cpp together: what the trace says of
-- the calls of threads, whatever the order of the steps.
use lo2s.Shared.{
  ℕ, ◌≡◌, ℤ, pos, ltb_ℤ, true, false, inl, inr, refl, Bool-cases, none, some, Option-cases, List,
  [], ◌∷◌, ◌++◌, ◌==◌, arith, All, Result, ok, lookup,
}
use lo2s.PosixMonitor.{PosixEvent, PosixMonitor, forget_call, open_file}
use lo2s.PosixMonitor.Begun.{IsSound, Sound, begun}
use lo2s.PosixMonitor.Handle.{
  HasFd, handle_posix_event-Handled, forget-IsSound, forget-HasFd, forget_self,
}
use lo2s.PosixMonitor.Bpf.{
  Tracepoint, do_filp_open, openat_ret, close_call, enter_read, enter_write, exit_read, exit_write,
  BpfCall, Bpf, contains, remove, submit, open_ret, trace_call, bpf_call, PosixSystem, update_pids,
  insert_thread, exit_thread, PosixStep, insert_step, exit_step, call_step, poll_step, poll_event,
  posix_step, posix_run, event_of, start,
}

abbrev Cached : PosixMonitor → PosixEvent → Type 0
Cached m e = HasFd e.pid m

-- The threads to record and those of the events have an entry in `last_fd_`.
record Recorded (m : PosixMonitor) (b : Bpf) : Type 0 where
  pub threads : (t : ℕ) → contains t b.pids ≡ true → HasFd t m
  pub events : All (Cached m) b.rb

contains-remove : (t u : ℕ) (us : List ℕ) → contains u (remove t us) ≡ true → contains u us ≡ true
unfolding contains remove
contains-remove t u [] h = h
contains-remove t u (v ∷ us) h = ground (arith, contains-remove t u us)

All-snoc :
    (m : PosixMonitor) (es : List PosixEvent) (e : PosixEvent)
    → All (Cached m) es
    → Cached m e
    → All (Cached m) (es ++ e ∷ [])
All-snoc m [] e a c = (c, tt)
All-snoc m (f ∷ es) e (h, a) c = (h, All-snoc m es e a c)

All-keep :
    (m m' : PosixMonitor) (es : List PosixEvent)
    → ((t : ℕ) → HasFd t m → HasFd t m')
    → All (Cached m) es
    → All (Cached m') es
All-keep m m' [] k a = tt
All-keep m m' (e ∷ es) k (h, a) = (k e.pid h, All-keep m m' es k a)

Recorded-keep :
    (m m' : PosixMonitor) (b : Bpf)
    → ((t : ℕ) → HasFd t m → HasFd t m')
    → Recorded m b
    → Recorded m' b
Recorded-keep m m' b k r = record {
  threads = λ t h. k t (r.threads t h);
  events = All-keep m m' b.rb k r.events;
}

submit-Recorded :
    (m : PosixMonitor) (c : BpfCall) (e : PosixEvent) (b : Bpf)
    → HasFd e.pid m
    → Recorded m b
    → Recorded m (submit c e b)
unfolding submit
submit-Recorded m c e b h r = elim (Bool-cases c.room) [
  | inl room ↦
      rw (room, submit) (record { threads = r.threads; events = All-snoc m b.rb e r.events h })
  | inr full ↦ rw (full, submit) r
]

trace_call-Recorded :
    (m : PosixMonitor) (c : BpfCall) (t : Tracepoint) (b : Bpf)
    → HasFd c.pid m
    → Recorded m b
    → Recorded m (trace_call c t b)
unfolding trace_call open_ret
trace_call-Recorded m c (do_filp_open name) b h r = record {
  threads = r.threads;
  events = r.events;
}
trace_call-Recorded m c (openat_ret ret) b h r = elim (Bool-cases (ltb_ℤ ret (pos 0))) [
  | inl failed ↦ rw (failed, trace_call, open_ret) r
  | inr done ↦ elim (Option-cases (lookup c.pid b.open_cache)) [
    | inl n ↦ rw (done, n, trace_call, open_ret) r
    | inr (name, n) ↦
        rw (done, n, trace_call, open_ret)
          (submit-Recorded m c (event_of open_file c ret 0 0 name) b h r)
  ]
]
trace_call-Recorded m c (close_call fd) b h r = submit-Recorded m c _ b h r
trace_call-Recorded m c (enter_read fd count buf) b h r = submit-Recorded m c _ b h r
trace_call-Recorded m c (enter_write fd count buf) b h r = submit-Recorded m c _ b h r
trace_call-Recorded m c (exit_read stale) b h r = submit-Recorded m c _ b h r
trace_call-Recorded m c (exit_write stale) b h r = submit-Recorded m c _ b h r

record IsSystem (s : PosixSystem) : Type 0 where
  pub recorded : Recorded s.posix_monitor s.bpf
  pub sound : IsSound s.posix_monitor

insert-IsSystem : (t : ℕ) (s : PosixSystem) → IsSystem s → IsSystem (insert_thread t s)
unfolding insert_thread update_pids contains
insert-IsSystem t s v =
    let k =
      Recorded-keep s.posix_monitor (forget_call t s.posix_monitor) s.bpf
        (λ u h. forget-HasFd t u s.posix_monitor h) v.recorded in
    record {
      recorded = record {
        threads = λ u h. elim (Bool-cases (t == u)) [
          | inl same ↦ forget_self t u s.posix_monitor same
          | inr other ↦ k.threads u (rw other at h)
        ];
        events = k.events;
      };
      sound = forget-IsSound t s.posix_monitor v.sound;
    }

exit-IsSystem : (t : ℕ) (s : PosixSystem) → IsSystem s → IsSystem (exit_thread t s)
unfolding exit_thread
exit-IsSystem t s v = record {
  recorded = record {
    threads = λ u h. v.recorded.threads u (contains-remove t u s.bpf.pids h);
    events = v.recorded.events;
  };
  sound = v.sound;
}

call-IsSystem :
    (c : BpfCall) (s : PosixSystem) → IsSystem s → IsSystem (record s { bpf = bpf_call c s.bpf })
unfolding bpf_call
call-IsSystem c s v = elim (Bool-cases (contains c.pid s.bpf.pids)) [
  | inl traced ↦
      rw (traced, bpf_call)
        (record {
          recorded =
              trace_call-Recorded s.posix_monitor c c.tracepoint s.bpf
                (v.recorded.threads c.pid traced) v.recorded;
          sound = v.sound;
        })
  | inr other ↦ rw (other, bpf_call) (record { recorded = v.recorded; sound = v.sound })
]

module _ (convert : ℕ → ℕ) (comm_of : ℕ → Result ℕ)
    (known : (t : ℕ) → (comm : ℕ) × (comm_of t ≡ ok comm)) where
  poll-IsSystem :
      (es : List PosixEvent) (s : PosixSystem)
      → s.bpf.rb ≡ es
      → IsSystem s
      → (s' : PosixSystem) × (poll_event convert comm_of es s ≡ ok s') × IsSystem s'
  unfolding poll_event
  poll-IsSystem [] s p v = (s, refl, v)
  poll-IsSystem (e ∷ es) s p v =
      let queued = rw p at (v.recorded.events) in
      let w = handle_posix_event-Handled convert comm_of known e s.posix_monitor queued.0 v.sound in
      (
        record { bpf = record s.bpf { rb = es }; posix_monitor = w.next },
        rw (w.result) refl,
        record {
          recorded = record {
            threads = λ t h. w.keeps t (v.recorded.threads t h);
            events = All-keep s.posix_monitor w.next es w.keeps queued.1;
          };
          sound = w.sound;
        },
      )

  step-IsSystem :
      (step : PosixStep) (s : PosixSystem)
      → IsSystem s
      → (s' : PosixSystem) × (posix_step convert comm_of step s ≡ ok s') × IsSystem s'
  unfolding posix_step
  step-IsSystem (insert_step t) s v = (insert_thread t s, refl, insert-IsSystem t s v)
  step-IsSystem (exit_step t) s v = (exit_thread t s, refl, exit-IsSystem t s v)
  step-IsSystem (call_step c) s v = (record s { bpf = bpf_call c s.bpf }, refl, call-IsSystem c s v)
  step-IsSystem poll_step s v = poll-IsSystem s.bpf.rb s refl v

  run-IsSystem :
      (steps : List PosixStep) (s : PosixSystem)
      → IsSystem s
      → (s' : PosixSystem) × (posix_run convert comm_of steps s ≡ ok s') × IsSystem s'
  unfolding posix_run
  run-IsSystem [] s v = (s, refl, v)
  run-IsSystem (step ∷ steps) s v =
      let (s1, f, v1) = step-IsSystem step s v in
      let (s2, g, v2) = run-IsSystem steps s1 v1 in (s2, rw f g, v2)

  -- If the registry has a communicator for every thread, then any sequence of insertions and exits of
  -- threads, calls in the kernel and polls of the monitor ends without a fault. Each call that the
  -- trace has as complete was begun before by the same thread with the same file descriptor, size
  -- and buffer, was its last, and was not complete before.
  pub posix_run-Sound :
      (steps : List PosixStep)
      → (s' : PosixSystem) × (posix_run convert comm_of steps start ≡ ok s')
        × Sound s'.posix_monitor.written
  unfolding contains begun
  posix_run-Sound steps =
      let (s', f, v) = run-IsSystem steps start (record {
        recorded = record { threads = λ t h. absurd (never h); events = tt };
        sound = record { in_cache = λ t fd h n. absurd (nothing fd h); sound = tt };
      }) in
      (s', f, v.sound.sound)
    where
      never : false ≡ true → ⊥
      never h = cc

      nothing : (fd : ℤ) → ◌≡◌ none (some fd) → ⊥
      nothing fd h = cc
