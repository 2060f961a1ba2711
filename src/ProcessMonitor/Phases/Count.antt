-- ===== src/ProcessMonitor/Phases/Count.antt =====
-- How many monitors src/monitor/process_monitor.cpp makes for a thread.
use lo2s.Shared.{
  ℕ, ℤ, suc, ◌+◌, eq_ℤ, Bool, true, false, ◌&&◌, ◌≡◌, inl, inr, refl, Bool-cases, List, [], ◌∷◌,
  if◌then◌else◌, arith, ok, bind_inv,
}
use lo2s.Controller.{
  Action, ptrace_cont, ptrace_setoptions, ptrace_detach, insert_process, insert_thread,
  update_process_name, exit_thread,
}
use lo2s.ProcessMonitor.{
  MonitorCall, trace_process, trace_thread, resolvers_fork, posix_insert, posix_exit, posix_stop,
  monitor_construct, monitor_start, monitor_stop, monitor_resolve, Launch, refused, not_started,
  started, MonitorConfig, ProcessMonitor, call, call_if, is_measured, launch_monitor,
  insert_monitor_thread, insert_monitor_process, exit_monitor_thread, perform, perform_all,
  stop_all, destroy,
}

unfoldable pub constructions : ℤ → List MonitorCall → ℕ
constructions t [] = 0
constructions t (trace_process parent child ∷ l) = constructions t l
constructions t (trace_thread parent child ∷ l) = constructions t l
constructions t (resolvers_fork parent child ∷ l) = constructions t l
constructions t (posix_insert u ∷ l) = constructions t l
constructions t (posix_exit u ∷ l) = constructions t l
constructions t (posix_stop ∷ l) = constructions t l
constructions t (monitor_construct u ∷ l) =
    let n = constructions t l in if eq_ℤ u t then suc n else n
constructions t (monitor_start u ∷ l) = constructions t l
constructions t (monitor_stop u ∷ l) = constructions t l
constructions t (monitor_resolve u ∷ l) = constructions t l

-- Whether a thread gets a monitor when it is inserted.
abbrev pub gets_monitor : MonitorConfig → ℤ → Bool
gets_monitor c t =
    is_measured c t && elim (c.launch t) [ refused ↦ false | not_started ↦ true | started ↦ true ]

abbrev for_thread : MonitorConfig → ℤ → ℤ → ℕ
for_thread c t child = if eq_ℤ child t && gets_monitor c child then 1 else 0

abbrev for_action : MonitorConfig → ℤ → Action → ℕ
for_action c t (ptrace_cont child signum) = 0
for_action c t (ptrace_setoptions child) = 0
for_action c t (ptrace_detach child) = 0
for_action c t (insert_process parent child) = for_thread c t child
for_action c t (insert_thread parent child) = for_thread c t child
for_action c t (update_process_name child) = 0
for_action c t (exit_thread child) = 0

-- The insertions of a thread at which it gets a monitor.
abbrev pub to_construct : MonitorConfig → ℤ → List Action → ℕ
to_construct c t [] = 0
to_construct c t (a ∷ actions) = for_action c t a + to_construct c t actions

constructions-stop_all :
    (t : ℤ) (ts : List ℤ) (log : List MonitorCall)
    → constructions t (stop_all ts log) ≡ constructions t log
unfolding constructions stop_all
constructions-stop_all t [] log = refl
constructions-stop_all t (u ∷ ts) log =
    constructions-stop_all t ts (monitor_resolve u ∷ monitor_stop u ∷ log)

pub constructions-destroy :
    (c : MonitorConfig) (t : ℤ) (m : ProcessMonitor)
    → constructions t (destroy c m).log ≡ constructions t m.log
unfolding destroy constructions
constructions-destroy c t m = ground (arith, constructions-stop_all t m.threads m.log)

constructions-launch :
    (c : MonitorConfig) (t child : ℤ) (m m' : ProcessMonitor)
    → is_measured c child ≡ true
    → launch_monitor c child m ≡ ok m'
    → constructions t m'.log ≡ for_thread c t child + constructions t m.log
unfolding launch_monitor constructions
constructions-launch c t child m m' k e = of_launch (c.launch child) refl
  where
    of_launch :
        (l : Launch)
        → c.launch child ≡ l
        → constructions t m'.log ≡ for_thread c t child + constructions t m.log
    of_launch refused g = ground (arith, g, e, k)
    of_launch not_started g = ground (arith, g, e, k)
    of_launch started g = ground (arith, g, e, k)

constructions-insert :
    (c : MonitorConfig) (t parent child : ℤ) (m m' : ProcessMonitor)
    → insert_monitor_thread c parent child m ≡ ok m'
    → constructions t m'.log ≡ for_thread c t child + constructions t m.log
unfolding insert_monitor_thread constructions
constructions-insert c t parent child m m' e =
    let known = call (trace_thread parent child) (call_if c.posix_io (posix_insert child) m) in
    let (m1, f, g) =
      bind_inv (if is_measured c child then launch_monitor c child known else ok known) _ e in
    elim (Bool-cases (is_measured c child)) [
      | inl k ↦ ground (arith, f, g, k, constructions-launch c t child known m1 k)
      | inr k ↦ ground (arith, f, g, k)
    ]

constructions-perform :
    (c : MonitorConfig) (t : ℤ) (a : Action) (m m' : ProcessMonitor)
    → perform c a m ≡ ok m'
    → constructions t m'.log ≡ for_action c t a + constructions t m.log
unfolding perform constructions insert_monitor_process exit_monitor_thread
constructions-perform c t (insert_process parent child) m m' e =
    let named = call (trace_process parent child) m in
    let (m1, f, g) = bind_inv (insert_monitor_thread c child child named) _ e in
    ground (arith, g, constructions-insert c t child child named m1 f)
constructions-perform c t (insert_thread parent child) m m' e =
    constructions-insert c t parent child m m' e
constructions-perform c t a m m' e = ground arith

pub constructions-perform_all :
    (c : MonitorConfig) (t : ℤ) (actions : List Action) (m m' : ProcessMonitor)
    → perform_all c actions m ≡ ok m'
    → constructions t m'.log ≡ to_construct c t actions + constructions t m.log
unfolding perform_all
constructions-perform_all c t [] m m' e = ground arith
constructions-perform_all c t (a ∷ actions) m m' e =
    let (m1, f, g) = bind_inv (perform c a m) _ e in
    ground
      (arith, constructions-perform c t a m m1 f, constructions-perform_all c t actions m1 m' g)
