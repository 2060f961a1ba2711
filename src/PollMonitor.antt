-- ===== src/PollMonitor.antt =====
-- src/monitor/poll_monitor.cpp and include/lo2s/monitor/poll_monitor.hpp, `PollMonitor`, with
-- `ThreadedMonitor::thread_main` of src/monitor/threaded_monitor.cpp. What poll(2) returns, one call
-- after the other, and the virtual members are parameters.
use lo2s.Shared.{
  ℕ, ◌+◌, ◌%◌, ℤ, pos, negsuc, Bool, true, false, not, ◌&&◌, ◌||◌, List, [], ◌∷◌, ◌++◌, ◌==◌,
  if◌then◌else◌, Result, ok, err, Fault, ◌>>=◌,
}

-- `struct pollfd`; its `events` is always POLLIN.
pub record Pollfd : Type 0 where
  pub fd : ℤ
  pub revents : ℕ

abbrev pub pollin : ℕ
pollin = 1

-- `revents & POLLIN`
unfoldable pub has_pollin : Pollfd → Bool
has_pollin p = p.revents % 2 == 1

-- What poll(2) returns, and the events that it leaves in the array.
pub record PollResult : Type 0 where
  pub ret : ℤ
  pub revents : List ℕ

-- The constructor, on the file descriptor of eventfd(2), and `add_fd`.
abbrev pub init_pfds : ℤ → List Pollfd
init_pfds stop_fd = record { fd = stop_fd; revents = 0 } ∷ []

abbrev pub add_fd : ℤ → List Pollfd → List Pollfd
add_fd fd pfds = pfds ++ record { fd = fd; revents = 0 } ∷ []

-- The array behind a call.
unfoldable pub polled : List ℕ → List Pollfd → List Pollfd
polled es [] = []
polled [] (p ∷ ps) = p ∷ ps
polled (e ∷ es) (p ∷ ps) = record p { revents = e } ∷ polled es ps

unfoldable pub is_panic : List Pollfd → Bool
is_panic [] = false
is_panic (p ∷ ps) = (not (p.revents == 0) && not (p.revents == pollin)) || is_panic ps

-- `stop_pfd().revents & POLLIN`
unfoldable pub stop_requested : List Pollfd → Bool
stop_requested [] = false
stop_requested (p ∷ ps) = has_pollin p

pub data PollEnd : Type 0 where
  waiting panicked stopped : PollEnd

pub record PollRun (State : Type 0) : Type 0 where
  pub end : PollEnd
  pub num_wakeups : ℕ
  pub state : State

module _ {State : Type 0} (monitor_fd : ℤ → State → Result State) where
  -- `monitor()`
  unfoldable pub monitor_fds : List Pollfd → State → Result State
  monitor_fds [] s = ok s
  monitor_fds (p ∷ ps) s = (if has_pollin p then monitor_fd p.fd s else ok s) >>= monitor_fds ps

  -- `run()`, which waits at the end of the calls that there are.
  unfoldable pub poll_run : List PollResult → List Pollfd → ℕ → State → Result (PollRun State)
  poll_run [] pfds n s = ok (record { end = waiting; num_wakeups = n; state = s })
  poll_run (r ∷ rs) pfds n s = elim r.ret [
    | negsuc k ↦ err Fault.system_error
    | pos k ↦ elim (k == 0) [
      | true ↦ err Fault.runtime_error
      | false ↦ elim (is_panic (polled r.revents pfds)) [
        | true ↦ ok (record { end = panicked; num_wakeups = n + 1; state = s })
        | false ↦ monitor_fds (polled r.revents pfds) s >>= λ s'.
            elim (stop_requested (polled r.revents pfds)) [
              | true ↦ ok (record { end = stopped; num_wakeups = n + 1; state = s' })
              | false ↦ poll_run rs (polled r.revents pfds) (n + 1) s'
            ]
      ]
    ]
  ]

  -- `thread_main()` behind `register_thread`.
  unfoldable pub thread_main :
      (State → State)
      → (State → Result State)
      → List PollResult
      → List Pollfd
      → State
      → Result (PollRun State)
  thread_main initialize finalize rs pfds s = poll_run rs pfds 0 (initialize s) >>= λ r.
      elim r.end [
        | waiting ↦ ok r
        | panicked ↦ finalize r.state >>= λ s'. ok (record r { state = s' })
        | stopped ↦ finalize r.state >>= λ s'. ok (record r { state = s' })
      ]
