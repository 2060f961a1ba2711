-- ===== src/ScopeMonitor/Tests.antt =====
-- A concrete monitor for src/monitor/scope_monitor.cpp: the lemmas' hypotheses hold on it.
use lo2s.Shared.{ℕ, ◌+◌, ℤ, pos, false, ◌≡◌, refl, none, some, List, [], ◌∷◌, ◌++◌, Result, ok, err}
use lo2s.PollMonitor.{
  PollResult, polled, is_panic, stop_requested, has_pollin, poll_run, monitor_fds, stopped, PollRun,
}
use lo2s.ScopeMonitor.{WriterOps, ScopeMonitor, scope_pfds, monitor_scope, read_if}
use lo2s.ScopeMonitor.Stop.{AllDrain, poll_run-stopped}

-- A reader of a ring with some records, and how often it was read.
record Ring : Type 0 where
  ring_fd : ℤ
  records : ℕ
  rounds : ℕ

abbrev ring_ops : WriterOps Ring
ring_ops = record {
  fd = λ r. r.ring_fd;
  read = λ r. ok (record r { records = 0; rounds = r.rounds + 1 });
  finish = λ r. ok r;
}

abbrev IsEmpty : Ring → Type 0
IsEmpty r = r.records ≡ 0

ring_reads :
    (r : Ring)
    → (r' : Ring) × (ring_ops.read r ≡ ok r') × IsEmpty r' × (ring_ops.fd r' ≡ ring_ops.fd r)
ring_reads r = (record r { records = 0; rounds = r.rounds + 1 }, refl, refl, refl)

abbrev ring_of : ℤ → ℕ → Ring
ring_of fd records = record { ring_fd = fd; records = records; rounds = 0 }

abbrev two_rings : ScopeMonitor Ring
two_rings = record {
  is_cpu = false;
  stop_fd = pos 5;
  sample_writer = some (ring_of (pos 6) 3);
  syscall_writer = none;
  group_counter_writer = some (ring_of (pos 7) 2);
  userspace_counter_writer = none;
  pins = 0;
}

abbrev for_sample : PollResult
for_sample = record { ret = pos 1; revents = 0 ∷ 1 ∷ 0 ∷ [] }

abbrev for_stop : PollResult
for_stop = record { ret = pos 1; revents = 1 ∷ 0 ∷ 0 ∷ [] }

abbrev rounds_of : Result (PollRun (ScopeMonitor Ring)) → List ℕ
rounds_of (err fault) = []
rounds_of (ok r) =
    r.num_wakeups
    ∷ r.state.pins
    ∷ elim r.state.sample_writer [ none ↦ 0 | some w ↦ w.rounds ]
    ∷ elim r.state.group_counter_writer [ none ↦ 0 | some w ↦ w.rounds ]
    ∷ []

rounds_lem :
    rounds_of (
      poll_run
        (monitor_scope ring_ops)
        (for_sample ∷ for_stop ∷ for_sample ∷ [])
        (scope_pfds ring_ops two_rings)
        0
        two_rings)
    ≡ 2 ∷ 2 ∷ 2 ∷ 1 ∷ []
unfolding poll_run monitor_fds monitor_scope read_if scope_pfds polled is_panic stop_requested
    has_pollin
rounds_lem = refl

poll_run-stopped_example :
    (m' : ScopeMonitor Ring) × (poll_run
        (monitor_scope ring_ops)
        ((for_sample ∷ []) ++ for_stop ∷ for_sample ∷ [])
        (scope_pfds ring_ops two_rings)
        0
        two_rings
      ≡ ok (record { end = stopped; num_wakeups = 0 + 1 + 1; state = m' }))
    × AllDrain ring_ops IsEmpty ring_reads m'
unfolding polled is_panic stop_requested has_pollin scope_pfds
poll_run-stopped_example =
    poll_run-stopped ring_ops IsEmpty ring_reads (for_sample ∷ []) for_stop (for_sample ∷ [])
      two_rings (((0, refl), refl), refl, tt) ((0, refl), refl) refl
