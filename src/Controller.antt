-- ===== src/Controller.antt =====
-- src/process_controller.cpp, `ProcessController`: following a process and its children with
-- ptrace(2). The system and the process monitor are a parameter; what is asked of them is logged.
pub mod Signals
pub mod Run
mod Tests
use lo2s.Shared.{
  ℕ, ◌+◌, ℤ, pos, negsuc, eq_ℤ, Bool, true, false, not, ◌&&◌, ◌||◌, Option, none, some, List, [],
  ◌∷◌, ◌==◌, if◌then◌else◌, Result, ok, err, Fault, ◌>>=◌, ◌>>◌,
}
use lo2s.Scope.{Groups, add_process, add_thread, get_process}

-- What the controller asks of ptrace and of `AbstractProcessMonitor`.
pub data Action : Type 0 where
  ptrace_cont : ℤ → ℕ → Action
  ptrace_setoptions : ℤ → Action
  ptrace_detach : ℤ → Action
  insert_process : ℤ → ℤ → Action
  insert_thread : ℤ → ℤ → Action
  update_process_name : ℤ → Action
  exit_thread : ℤ → Action

-- The answers: the `errno` of PTRACE_CONT and PTRACE_SETOPTIONS, the message of
-- PTRACE_GETEVENTMSG, and whether the monitor's `exit_thread` returns.
pub record System : Type 0 where
  pub cont : ℤ → ℕ → Option ℕ
  pub setoptions : ℤ → Option ℕ
  pub geteventmsg : ℤ → Result ℤ
  pub exit : ℤ → Result (Unit {0})

-- A status of waitpid(2), as the macros of sys/wait.h take it apart; a stop has its signal and
-- `status >> 16`.
pub data Status : Type 0 where
  stopped : ℕ → ℕ → Status
  exited : ℕ → Status
  signaled : ℕ → Status
  other : Status

pub data SignalHandlingState : Type 0 where
  keep_running : SignalHandlingState
  stop : SignalHandlingState

-- The object, the two globals, and what `summary()` is told. The log has the latest action first.
pub record Controller : Type 0 where
  pub first_child : ℤ
  pub running : Bool
  pub attached_pid : ℤ
  pub num_wakeups : ℕ
  pub groups : Groups
  pub threads : ℕ
  pub exit_code : Option ℕ
  pub log : List Action

-- The constructor, on the groups that there are.
unfoldable pub init : ℤ → Bool → Groups → Controller
init child spawn groups = record {
  first_child = child;
  running = true;
  attached_pid = if spawn then negsuc 0 else child;
  num_wakeups = 0;
  groups = add_process child groups;
  threads = 1;
  exit_code = none;
  log = insert_process (pos 0) child ∷ [];
}

-- `sig_handler`, for SIGINT or another signal. The SIGSTOP that it sends is seen as a status.
unfoldable pub sig_handler : Bool → Controller → Controller
sig_handler sigint c =
    if sigint && not (eq_ℤ c.attached_pid (negsuc 0)) then record c { running = false } else c

abbrev pub logged : Action → Controller → Controller
logged a c = record c { log = a ∷ c.log }

-- `ptrace_checked_call` of the two requests.
unfoldable pub cont : System → ℤ → ℕ → Controller → Result Controller
cont s child signum c = elim (s.cont child signum) [
  | none ↦ ok (logged (ptrace_cont child signum) c)
  | some _ ↦ err Fault.system_error
]

unfoldable pub setoptions : System → ℤ → Controller → Result Controller
setoptions s child c = elim (s.setoptions child) [
  | none ↦ ok (logged (ptrace_setoptions child) c)
  | some _ ↦ err Fault.system_error
]

-- The cases of `handle_ptrace_event`. The names of processes and threads are left out.
unfoldable pub handle_fork : System → ℤ → Controller → Result Controller
handle_fork s child c = do
  new_process ← s.geteventmsg child
  let groups' = add_process new_process c.groups
  parent ← get_process child groups'
  ok (
      logged (insert_process parent new_process)
        (record c { groups = groups'; threads = c.threads + 1 }))

unfoldable pub handle_clone : System → ℤ → Controller → Result Controller
handle_clone s child c = do
  new_thread ← s.geteventmsg child
  process ← get_process child c.groups
  ok (
      logged (insert_thread process new_thread)
        (record c { groups = add_thread new_thread process c.groups; threads = c.threads + 1 }))

unfoldable pub handle_exit : System → ℤ → Controller → Result Controller
handle_exit s child c = elim (s.exit child) [
  | ok _ ↦ ok (logged (exit_thread child) c)
  | err Fault.out_of_range ↦ ok c
  | err f ↦ err f
]

-- PTRACE_EVENT_FORK is 1, _VFORK 2, _CLONE 3, _EXEC 4 and _EXIT 6.
unfoldable pub handle_ptrace_event : System → ℤ → ℕ → Controller → Result Controller
handle_ptrace_event s child event c =
    if event == 1 || event == 2
    then handle_fork s child c
    else if event == 3
    then handle_clone s child c
    else if event == 4
    then ok (logged (update_process_name child) c)
    else if event == 6
    then handle_exit s child c
    else ok c

-- The `switch` of `handle_stop_signal`: SIGSTOP is 19, SIGTRAP 5, and ESRCH 3.
unfoldable pub deliver : System → ℤ → ℕ → ℕ → Controller → Result Controller
deliver s child signum event c =
    if signum == 19
    then setoptions s child c >>= cont s child 0
    else if signum == 5
    then (if event == 0 then ok c else handle_ptrace_event s child event c) >>= cont s child 0
    else elim (s.cont child signum) [
      | none ↦ ok (logged (ptrace_cont child signum) c)
      | some errno ↦ if errno == 3 then ok c else err Fault.system_error
    ]

-- `handle_stop_signal`
unfoldable pub handle_stop_signal :
    System → ℤ → ℕ → ℕ → Controller → Result (SignalHandlingState × Controller)
handle_stop_signal s child signum event c =
    let rest : Controller → Result (SignalHandlingState × Controller) =
      λ c'. deliver s child signum event c' >>= λ c''. ok (keep_running, c'') in
    if eq_ℤ c.attached_pid (pos 0) && not c.running
    then (if eq_ℤ child c.first_child
        then ok (stop, logged (ptrace_detach child) c)
        else cont s child 0 (logged (ptrace_detach child) c) >>= rest)
    else rest c

-- `handle_signal`
unfoldable pub handle_signal :
    System → ℤ → Status → Controller → Result (SignalHandlingState × Controller)
handle_signal s child (stopped signum event) c = handle_stop_signal s child signum event c
handle_signal s child (exited code) c =
    if eq_ℤ child c.first_child
    then ok (stop, record c { exit_code = some code })
    else ok (keep_running, c)
handle_signal s child (signaled signum) c =
    if eq_ℤ child c.first_child then ok (stop, c) else ok (keep_running, c)
handle_signal s child other c = cont s child 0 c >>= λ c'. ok (keep_running, c')

abbrev pub woken : Controller → Controller
woken c = record c { num_wakeups = c.num_wakeups + 1 }

-- `run()` on what waitpid returns, one after the other; `keep_running` is waiting for more.
unfoldable pub run :
    System → List (ℤ × Status) → Controller → Result (SignalHandlingState × Controller)
run s [] c = ok (keep_running, c)
run s ((child, status) ∷ more) c = handle_signal s child status (woken c) >>= λ r. elim (r.0) [
  | keep_running ↦ run s more (r.1)
  | stop ↦ ok (stop, r.1)
]
