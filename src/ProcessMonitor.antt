-- ===== src/ProcessMonitor.antt =====
-- src/monitor/process_monitor.cpp, `ProcessMonitor`, on what src/process_controller.cpp asks of it. The
-- trace, the resolvers, the posix I/O monitor and the monitors of the threads are a log of their calls.
pub mod Phases
mod Tests
use lo2s.Shared.{
  ℤ, pos, ltb_ℤ, eq_ℤ, Bool, true, false, not, ◌||◌, List, [], ◌∷◌, if◌then◌else◌, Result, ok, err,
  Fault, ◌>>=◌,
}
use lo2s.Controller.{
  Action, ptrace_cont, ptrace_setoptions, ptrace_detach, insert_process, insert_thread,
  update_process_name, exit_thread,
}

-- `monitor_construct` is the thread's `ScopeMonitor` put into `threads_`.
pub data MonitorCall : Type 0 where
  trace_process : (parent child : ℤ) → MonitorCall
  trace_thread : (parent child : ℤ) → MonitorCall
  resolvers_fork : (parent child : ℤ) → MonitorCall
  posix_insert : (thread : ℤ) → MonitorCall
  posix_exit : (thread : ℤ) → MonitorCall
  posix_stop : MonitorCall
  monitor_construct : (thread : ℤ) → MonitorCall
  monitor_start : (thread : ℤ) → MonitorCall
  monitor_stop : (thread : ℤ) → MonitorCall
  monitor_resolve : (thread : ℤ) → MonitorCall

-- What comes of a `ScopeMonitor` for a thread: an exception of its constructor, an exception of
-- `start()`, or none.
pub data Launch : Type 0 where
  refused not_started started : Launch

-- The options, the counters that there are for a thread, and the launches.
pub record MonitorConfig : Type 0 where
  pub posix_io : Bool
  pub sampling : Bool
  pub has_group_counters : ℤ → Bool
  pub has_userspace_counters : ℤ → Bool
  pub launch : ℤ → Launch

-- `threads_` has its keys in the order of the map; the log has the latest call first.
pub record ProcessMonitor : Type 0 where
  pub threads : List ℤ
  pub log : List MonitorCall

abbrev pub no_parent : ℤ
no_parent = pos 0

abbrev pub call : MonitorCall → ProcessMonitor → ProcessMonitor
call c m = record m { log = c ∷ m.log }

unfoldable pub has_thread : ℤ → List ℤ → Bool
has_thread t [] = false
has_thread t (u ∷ us) = eq_ℤ u t || has_thread t us

unfoldable pub add_key : ℤ → List ℤ → List ℤ
add_key t [] = t ∷ []
add_key t (u ∷ us) = let later = add_key t us in if ltb_ℤ t u then t ∷ u ∷ us else u ∷ later

unfoldable pub erase_key : ℤ → List ℤ → List ℤ
erase_key t [] = []
erase_key t (u ∷ us) = let later = erase_key t us in if eq_ℤ u t then us else u ∷ later

abbrev pub call_if : Bool → MonitorCall → ProcessMonitor → ProcessMonitor
call_if b c m = if b then call c m else m

unfoldable pub is_measured : MonitorConfig → ℤ → Bool
is_measured c t = c.sampling || not (c.has_group_counters t) || not (c.has_userspace_counters t)

abbrev pub constructed : ℤ → ProcessMonitor → ProcessMonitor
constructed t m = record { threads = add_key t m.threads; log = monitor_construct t ∷ m.log }

-- The `try` block: an exception is a warning, a failed `assert` is not.
unfoldable pub launch_monitor : MonitorConfig → ℤ → ProcessMonitor → Result ProcessMonitor
launch_monitor c t m = elim (c.launch t) [
  | refused ↦ ok m
  | not_started ↦ if has_thread t m.threads then err Fault.assertion else ok (constructed t m)
  | started ↦
      if has_thread t m.threads
      then err Fault.assertion
      else ok (call (monitor_start t) (constructed t m))
]

unfoldable pub insert_monitor_thread :
    MonitorConfig → ℤ → ℤ → ProcessMonitor → Result ProcessMonitor
insert_monitor_thread c parent child m =
    let known = call (trace_thread parent child) (call_if c.posix_io (posix_insert child) m) in
    (if is_measured c child then launch_monitor c child known else ok known) >>= λ m'.
    ok (call (trace_thread parent child) m')

unfoldable pub insert_monitor_process :
    MonitorConfig → ℤ → ℤ → ProcessMonitor → Result ProcessMonitor
insert_monitor_process c parent child m =
    insert_monitor_thread c child child (call (trace_process parent child) m) >>= λ m'.
    ok (call (resolvers_fork parent child) m')

unfoldable pub exit_monitor_thread : MonitorConfig → ℤ → ProcessMonitor → ProcessMonitor
exit_monitor_thread c t m =
    let told = call_if c.posix_io (posix_exit t) m in
    if has_thread t m.threads
    then record {
      threads = erase_key t m.threads;
      log = monitor_resolve t ∷ monitor_stop t ∷ told.log;
    }
    else told

-- What the controller asks for.
unfoldable pub perform : MonitorConfig → Action → ProcessMonitor → Result ProcessMonitor
perform c (ptrace_cont child signum) m = ok m
perform c (ptrace_setoptions child) m = ok m
perform c (ptrace_detach child) m = ok m
perform c (insert_process parent child) m = insert_monitor_process c parent child m
perform c (insert_thread parent child) m = insert_monitor_thread c parent child m
perform c (update_process_name child) m = ok (call (trace_process no_parent child) m)
perform c (exit_thread child) m = ok (exit_monitor_thread c child m)

unfoldable pub perform_all : MonitorConfig → List Action → ProcessMonitor → Result ProcessMonitor
perform_all c [] m = ok m
perform_all c (a ∷ actions) m = perform c a m >>= perform_all c actions

unfoldable pub stop_all : List ℤ → List MonitorCall → List MonitorCall
stop_all [] log = log
stop_all (t ∷ ts) log = stop_all ts (monitor_resolve t ∷ monitor_stop t ∷ log)

-- The destructor.
unfoldable pub destroy : MonitorConfig → ProcessMonitor → ProcessMonitor
destroy c m = call_if c.posix_io posix_stop (record m { log = stop_all m.threads m.log })
