-- ===== src/ScopeMonitor/Stop.antt =====
-- `PollMonitor::run` of src/monitor/poll_monitor.cpp with the readers of src/monitor/scope_monitor.cpp:
-- a stop, and an event that is not expected.
use lo2s.Shared.{
  ℕ, suc, ◌+◌, ℤ, pos, eq_ℤ_iff, true, false, ◌≡◌, refl, ap, ◌∙◌, ◌==◌, Option, none, some, List,
  [], ◌∷◌, ◌++◌, arith, Result, ok, length,
}
use lo2s.PollMonitor.{
  Pollfd, has_pollin, PollResult, add_fd, polled, is_panic, stop_requested, stopped, PollRun,
  poll_run,
}
use lo2s.ScopeMonitor.{WriterOps, ScopeMonitor, add_writer, scope_pfds, monitor_scope}
use lo2s.ScopeMonitor.Drain.{awake, AllDrained, Slot, monitor_fds-Round}

-- A call of poll(2) that succeeds, with no event but POLLIN.
abbrev pub Polls : PollResult → List Pollfd → Type 0
Polls r ps = ((k : ℕ) × (r.ret ≡ pos (suc k))) × (is_panic (polled r.revents ps) ≡ false)

-- Such calls without a stop, one after the other.
abbrev pub Quiet : List PollResult → List Pollfd → Type 0
Quiet [] ps = Unit {0}
Quiet (r ∷ rs) ps =
    Polls r ps × (stop_requested (polled r.revents ps) ≡ false) × Quiet rs (polled r.revents ps)

-- The array behind several calls.
abbrev pub polled_all : List PollResult → List Pollfd → List Pollfd
polled_all [] ps = ps
polled_all (r ∷ rs) ps = polled_all rs (polled r.revents ps)

abbrev StopFirst : ℤ → List Pollfd → Type 0
StopFirst fd ps = (p : Pollfd) × (rest : List Pollfd) × (ps ≡ p ∷ rest) × (p.fd ≡ fd)

StopFirst-polled :
    (fd : ℤ) (es : List ℕ) (ps : List Pollfd) → StopFirst fd ps → StopFirst fd (polled es ps)
unfolding polled
StopFirst-polled fd [] ps (p, rest, e, h) = rw e (p, rest, refl, h)
StopFirst-polled fd (r ∷ es) ps (p, rest, e, h) =
    rw e (record { fd = p.fd; revents = r }, polled es rest, refl, h)

module _ {Writer : Type 0} (ops : WriterOps Writer) where
  StopFirst-add_writer :
      (fd : ℤ) (o : Option Writer) (ps : List Pollfd)
      → StopFirst fd ps
      → StopFirst fd (add_writer ops o ps)
  StopFirst-add_writer fd none ps s = s
  StopFirst-add_writer fd (some w) ps (p, rest, e, h) = (p, _, ap (add_fd (ops.fd w)) e, h)

  StopFirst-scope_pfds : (m : ScopeMonitor Writer) → StopFirst m.stop_fd (scope_pfds ops m)
  unfolding scope_pfds
  StopFirst-scope_pfds m = StopFirst-add_writer m.stop_fd m.userspace_counter_writer _ (
      StopFirst-add_writer m.stop_fd m.group_counter_writer _ (
        StopFirst-add_writer m.stop_fd m.syscall_writer _ (
          StopFirst-add_writer m.stop_fd m.sample_writer _
            (record { fd = m.stop_fd; revents = 0 }, [], refl, refl))))

stop-awake :
    (fd f : ℤ) (ps : List Pollfd)
    → StopFirst fd ps
    → stop_requested ps ≡ true
    → awake fd f ps ≡ true
unfolding stop_requested awake
stop-awake fd f ps (p, rest, e, h) q =
    rw e (ground (arith, h, requested (rw e at q), eq_ℤ_iff p.fd fd))
  where
    requested : stop_requested (p ∷ rest) ≡ true → has_pollin p ≡ true
    requested q = q

positive : (k : ℕ) → (suc k == 0) ≡ false
positive k = ground arith

module _ {Writer : Type 0} (ops : WriterOps Writer) (Drained : Writer → Type 0)
    (reads : (w : Writer)
      → (w' : Writer) × (ops.read w ≡ ok w') × Drained w' × (ops.fd w' ≡ ops.fd w)) where
  abbrev pub Drains : Option Writer → Type 0
  Drains o = AllDrained ops Drained reads o

  -- Every writer that the monitor requested is drained.
  pub record AllDrain (m : ScopeMonitor Writer) : Type 0 where
    pub sample : Drains m.sample_writer
    pub syscall : Drains m.syscall_writer
    pub group : Drains m.group_counter_writer
    pub userspace : Drains m.userspace_counter_writer

  Slot-Drains :
      (fd : ℤ) (ps : List Pollfd) (o o' : Option Writer)
      → ((f : ℤ) → awake fd f ps ≡ true)
      → Slot ops Drained reads fd ps o o'
      → Drains o'
  Slot-Drains fd ps none none a s = tt
  Slot-Drains fd ps none (some w) a s = elim s [ ]
  Slot-Drains fd ps (some w) none a s = elim s [ ]
  Slot-Drains fd ps (some w) (some w') a (f, d, k) = d (a (ops.fd w))

  stop_round :
      (r : PollResult) (rest : List PollResult) (ps : List Pollfd) (n : ℕ) (m : ScopeMonitor Writer)
      → StopFirst m.stop_fd ps
      → Polls r ps
      → stop_requested (polled r.revents ps) ≡ true
      → (m' : ScopeMonitor Writer) × (poll_run (monitor_scope ops) (r ∷ rest) ps n m
          ≡ ok (record { end = stopped; num_wakeups = n + 1; state = m' }))
        × AllDrain m'
  unfolding poll_run
  stop_round r rest ps n m first ((k, ret), calm) stop =
      let (m', f, c) = monitor_fds-Round ops Drained reads (polled r.revents ps) m in
      let all : (f : ℤ) → awake m.stop_fd f (polled r.revents ps) ≡ true =
        λ f. stop-awake m.stop_fd f _ (StopFirst-polled m.stop_fd r.revents ps first) stop in
      (
        m',
        rw (ret, positive k, calm, f, stop, poll_run) refl,
        record {
          sample = Slot-Drains m.stop_fd _ m.sample_writer m'.sample_writer all c.sample;
          syscall = Slot-Drains m.stop_fd _ m.syscall_writer m'.syscall_writer all c.syscall;
          group =
              Slot-Drains m.stop_fd _ m.group_counter_writer m'.group_counter_writer all c.group;
          userspace =
              Slot-Drains m.stop_fd _ m.userspace_counter_writer m'.userspace_counter_writer all
                c.userspace;
        },
      )

  counted :
      (a b : ℕ) (m : ScopeMonitor Writer)
      → a ≡ b
      → ◌≡◌ {A = Result (PollRun (ScopeMonitor Writer))}
          (ok (record { end = stopped; num_wakeups = a; state = m }))
          (ok (record { end = stopped; num_wakeups = b; state = m }))
  counted a b m e = cc

  rounds :
      (rs : List PollResult) (r : PollResult) (rest : List PollResult) (ps : List Pollfd) (n : ℕ)
      (m : ScopeMonitor Writer)
      → StopFirst m.stop_fd ps
      → Quiet rs ps
      → Polls r (polled_all rs ps)
      → stop_requested (polled r.revents (polled_all rs ps)) ≡ true
      → (m' : ScopeMonitor Writer) × (poll_run (monitor_scope ops) (rs ++ r ∷ rest) ps n m
          ≡ ok (record { end = stopped; num_wakeups = n + length rs + 1; state = m' }))
        × AllDrain m'
  unfolding poll_run
  rounds [] r rest ps n m first q p s =
      let (m', f, d) = stop_round r rest ps n m first p s in
      (m', f ∙ counted (n + 1) (n + 0 + 1) m' (omega arith), d)
  rounds (q ∷ rs) r rest ps n m first (((k, ret), calm), go, quiet) p s =
      let (m1, f, c) = monitor_fds-Round ops Drained reads (polled q.revents ps) m in
      let first1 = rw (← c.stop_fd) at (StopFirst-polled m.stop_fd q.revents ps first) in
      let (m2, g, d) = rounds rs r rest (polled q.revents ps) (n + 1) m1 first1 quiet p s in
      (
        m2,
        rw (ret, positive k, calm, f, go, poll_run)
            (g ∙ counted (n + 1 + length rs + 1) (n + suc (length rs) + 1) m2 (omega arith)),
        d,
      )

  -- If a read of a writer succeeds, empties its ring and keeps its file descriptor, then a monitor
  -- that is polled any number of times with no event but POLLIN, the last time with one for the
  -- stop, ends its loop in that round, whatever would follow: it requested counted the wakeups, and
  -- each of its writers is drained.
  pub poll_run-stopped :
      (rs : List PollResult) (r : PollResult) (rest : List PollResult) (m : ScopeMonitor Writer)
      → Quiet rs (scope_pfds ops m)
      → Polls r (polled_all rs (scope_pfds ops m))
      → stop_requested (polled r.revents (polled_all rs (scope_pfds ops m))) ≡ true
      → (m' : ScopeMonitor Writer) × (poll_run
            (monitor_scope ops)
            (rs ++ r ∷ rest)
            (scope_pfds ops m)
            0
            m
          ≡ ok (record { end = stopped; num_wakeups = 0 + length rs + 1; state = m' }))
        × AllDrain m'
  poll_run-stopped rs r rest m q p s =
      rounds rs r rest (scope_pfds ops m) 0 m (StopFirst-scope_pfds ops m) q p s
