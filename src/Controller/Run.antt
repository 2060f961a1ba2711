-- ===== src/Controller/Run.antt =====
-- `ProcessController::run` of src/process_controller.cpp: which statuses it handles, when it stops,
-- and that it never detaches.
use lo2s.Shared.{
  ℕ, ◌+◌, ℤ, pos, negsuc, eq_ℤ, eq_ℤ_iff, ◌≡◌, ◌≢◌, inl, inr, refl, ◌∙◌, Bool, true, false,
  Bool-cases, Option, none, some, List, [], ◌∷◌, if◌then◌else◌, Result, ok, arith,
}
use lo2s.Scope.{Groups}
use lo2s.Scope.Group.{IsValid, add_process-IsValid}
use lo2s.Controller.{
  System, Status, stopped, exited, signaled, other, SignalHandlingState, keep_running, stop,
  Controller, logged, woken, handle_signal, run, init, ptrace_cont,
}
use lo2s.Controller.Signals.{Able, deliver-Succeeds, stop_lem, other_lem}

-- Whether a status is the end of the first child, and the exit code it then has.
abbrev pub is_end : ℤ → ℤ × Status → Bool
is_end first (child, stopped n e) = false
is_end first (child, exited n) = eq_ℤ child first
is_end first (child, signaled n) = eq_ℤ child first
is_end first (child, other) = false

abbrev pub code_of : Status → Option ℕ
code_of (stopped n e) = none
code_of (exited n) = some n
code_of (signaled n) = none
code_of other = none

-- What a run comes to: whether it stops, the statuses it handles, and the exit code.
pub record Outcome : Type 0 where
  pub state : SignalHandlingState
  pub handled : ℕ
  pub code : Option ℕ

abbrev pub one_more : Outcome → Outcome
one_more o = record o { handled = o.handled + 1 }

abbrev pub outcome : ℤ → List (ℤ × Status) → Outcome
outcome first [] = record { state = keep_running; handled = 0; code = none }
outcome first (e ∷ more) =
    if is_end first e
    then record { state = stop; handled = 1; code = code_of (e.1) }
    else one_more (outcome first more)

-- The outcome of one status.
record Handled (first : ℤ) (e : ℤ × Status) (c : Controller)
    (result : Result (SignalHandlingState × Controller)) : Type 0 where
  next : Controller
  result_eq : result ≡ ok ((if is_end first e then stop else keep_running), next)
  valid : IsValid next.groups
  first_child : next.first_child ≡ c.first_child
  attached_pid : next.attached_pid ≡ c.attached_pid
  num_wakeups : next.num_wakeups ≡ c.num_wakeups
  exit_code : next.exit_code ≡ (
      if is_end first e
      then (elim (code_of (e.1)) [ none ↦ c.exit_code | some n ↦ some n ])
      else c.exit_code)

-- The outcome of a run.
pub record Ran (first : ℤ) (statuses : List (ℤ × Status)) (c : Controller)
    (result : Result (SignalHandlingState × Controller)) : Type 0 where
  pub last : Controller
  pub result_eq : result ≡ ok ((outcome first statuses).state, last)
  pub num_wakeups : last.num_wakeups ≡ c.num_wakeups + (outcome first statuses).handled
  pub exit_code : last.exit_code ≡ (outcome first statuses).code

same_code : (o c : Option ℕ) → c ≡ none → (elim o [ none ↦ c | some n ↦ some n ]) ≡ o
same_code none c h = h
same_code (some n) c h = refl

attached :
    (child : ℤ) (spawn : Bool)
    → child ≢ pos 0
    → eq_ℤ (if spawn then negsuc 0 else child) (pos 0) ≡ false
attached child true h = refl
attached child false h = elim (Bool-cases (eq_ℤ child (pos 0))) [
  | inl e ↦ absurd (h ((eq_ℤ_iff child (pos 0)).0 e))
  | inr e ↦ e
]

exited_lem :
    (s : System) (child : ℤ) (n : ℕ) (c : Controller)
    → handle_signal s child (exited n) c ≡ (
        if eq_ℤ child c.first_child
        then ok (stop, record c { exit_code = some n })
        else ok (keep_running, c))
unfolding handle_signal
exited_lem s child n c = refl

signaled_lem :
    (s : System) (child : ℤ) (n : ℕ) (c : Controller)
    → handle_signal s child (signaled n) c
      ≡ (if eq_ℤ child c.first_child then ok (stop, c) else ok (keep_running, c))
unfolding handle_signal
signaled_lem s child n c = refl

module _ (s : System) (able : Able s) where
  handle-Handled :
      (first child : ℤ) (status : Status) (c : Controller)
      → c.first_child ≡ first
      → IsValid c.groups
      → eq_ℤ c.attached_pid (pos 0) ≡ false
      → Handled first (child, status) c (handle_signal s child status c)
  unfolding handle_signal
  handle-Handled first child (stopped n e) c f0 v h =
      let (d, result, f) = deliver-Succeeds s able child n e c v in
      record {
        next = d;
        result_eq = stop_lem s able child n e c d h result;
        valid = f.valid;
        first_child = f.first_child;
        attached_pid = f.attached_pid;
        num_wakeups = f.num_wakeups;
        exit_code = f.exit_code;
      }
  handle-Handled first child (exited n) c f v h = elim (Bool-cases (eq_ℤ child first)) [
    | inl e ↦ record {
      next = record c { exit_code = some n };
      result_eq = rw (exited_lem s child n c, f, e) refl;
      valid = v;
      first_child = refl;
      attached_pid = refl;
      num_wakeups = refl;
      exit_code = rw e refl;
    }
    | inr e ↦ record {
      next = c;
      result_eq = rw (exited_lem s child n c, f, e) refl;
      valid = v;
      first_child = refl;
      attached_pid = refl;
      num_wakeups = refl;
      exit_code = rw e refl;
    }
  ]
  handle-Handled first child (signaled n) c f v h = elim (Bool-cases (eq_ℤ child first)) [
    | inl e ↦ record {
      next = c;
      result_eq = rw (signaled_lem s child n c, f, e) refl;
      valid = v;
      first_child = refl;
      attached_pid = refl;
      num_wakeups = refl;
      exit_code = rw e refl;
    }
    | inr e ↦ record {
      next = c;
      result_eq = rw (signaled_lem s child n c, f, e) refl;
      valid = v;
      first_child = refl;
      attached_pid = refl;
      num_wakeups = refl;
      exit_code = rw e refl;
    }
  ]
  handle-Handled first child other c f v h = record {
    next = logged (ptrace_cont child 0) c;
    result_eq = other_lem s able child c;
    valid = v;
    first_child = refl;
    attached_pid = refl;
    num_wakeups = refl;
    exit_code = refl;
  }

  run_step :
      (child : ℤ) (status : Status) (more : List (ℤ × Status)) (c d : Controller)
      → handle_signal s child status (woken c) ≡ ok (keep_running, d)
      → run s ((child, status) ∷ more) c ≡ run s more d
  unfolding run
  run_step child status more c d e = rw (e, run) refl

  run_stop :
      (child : ℤ) (status : Status) (more : List (ℤ × Status)) (c d : Controller)
      → handle_signal s child status (woken c) ≡ ok (stop, d)
      → run s ((child, status) ∷ more) c ≡ ok (stop, d)
  unfolding run
  run_stop child status more c d e = rw (e, run) refl

  run_lem :
      (statuses : List (ℤ × Status)) (first : ℤ) (c : Controller)
      → c.first_child ≡ first
      → IsValid c.groups
      → eq_ℤ c.attached_pid (pos 0) ≡ false
      → c.exit_code ≡ none
      → Ran first statuses c (run s statuses c)
  unfolding run
  run_lem [] first c f v h n = record {
    last = c;
    result_eq = refl;
    num_wakeups = omega arith;
    exit_code = n;
  }
  run_lem ((child, status) ∷ more) first c f v h n =
      let one = handle-Handled first child status (woken c) f v h in
      elim (Bool-cases (is_end first (child, status))) [
        | inl e ↦ record {
          last = one.next;
          result_eq = rw e (run_stop child status more c one.next (rw e at (one.result_eq)));
          num_wakeups = rw e (one.num_wakeups);
          exit_code = rw e ((rw e at (one.exit_code)) ∙ same_code (code_of status) c.exit_code n);
        }
        | inr e ↦
            let next =
              run_lem more first one.next (one.first_child ∙ f) one.valid (rw (one.attached_pid) h)
                ((rw e at (one.exit_code)) ∙ n) in
            record {
              last = next.last;
              result_eq = rw e (
                  run_step child status more c one.next (rw e at (one.result_eq)) ∙ next.result_eq);
              num_wakeups = rw e (omega (arith, next.num_wakeups, one.num_wakeups));
              exit_code = rw e (next.exit_code);
            }
      ]

  -- A controller of a process with a number other than 0, started or attached to, on a system where
  -- no request of ptrace fails: `run` handles the statuses that waitpid returns, each as one
  -- wake-up, up to the first that is the end of that process, by an exit or by a signal, and stops
  -- there, with the process's exit code if it exited. If no status is such an end it handles all
  -- of them and keeps running. No status makes it fail.
  pub run-outcome :
      (child : ℤ) (spawn : Bool) (groups : Groups) (statuses : List (ℤ × Status))
      → IsValid groups
      → child ≢ pos 0
      → Ran child statuses (init child spawn groups) (run s statuses (init child spawn groups))
  unfolding init
  run-outcome child spawn groups statuses v h =
      run_lem statuses child (init child spawn groups) refl (add_process-IsValid child groups v)
        (attached child spawn h) refl
