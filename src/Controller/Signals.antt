-- ===== src/Controller/Signals.antt =====
-- One status of a process in src/process_controller.cpp: what `handle_signal` does to the
-- controller if ptrace does not fail.
use lo2s.Shared.{
  ℕ, ◌+◌, ℤ, pos, eq_ℤ, ◌≡◌, ◌⊎◌, inl, inr, refl, Bool, true, false, none, some, ◌==◌,
  if◌then◌else◌, Result, ok, err, Fault, ◌>>=◌, arith,
}
use lo2s.Scope.{add_process, add_thread, get_process}
use lo2s.Scope.Group.{IsValid, add_process-IsValid, add_thread-IsValid, get_process-IsValid}
use lo2s.Controller.{
  Action, System, other, keep_running, Controller, logged, cont, setoptions, handle_fork,
  handle_clone, handle_exit, handle_ptrace_event, deliver, handle_stop_signal, handle_signal,
}

-- A system on which no request of ptrace fails, and a monitor whose `exit_thread` throws at most
-- for a thread that it does not know.
pub record Able (s : System) : Type 0 where
  pub conts : (t : ℤ) (n : ℕ) → s.cont t n ≡ none
  pub sets : (t : ℤ) → s.setoptions t ≡ none
  pub messages : (t : ℤ) → (m : ℤ) × (s.geteventmsg t ≡ ok m)
  pub exits : (t : ℤ) → (s.exit t ≡ ok tt) ⊎ (s.exit t ≡ err Fault.out_of_range)

-- The controller `d` comes of `c` by registering processes and by requests.
pub record Follows (c d : Controller) : Type 0 where
  pub valid : IsValid d.groups
  pub first_child : d.first_child ≡ c.first_child
  pub attached_pid : d.attached_pid ≡ c.attached_pid
  pub num_wakeups : d.num_wakeups ≡ c.num_wakeups
  pub exit_code : d.exit_code ≡ c.exit_code

-- A call that succeeds, with a controller that follows.
abbrev pub Succeeds : Controller → Result Controller → Type 0
Succeeds c outcome = (d : Controller) × (outcome ≡ ok d) × Follows c d

pub stay : (c : Controller) → IsValid c.groups → Follows c c
stay c v = record {
  valid = v;
  first_child = refl;
  attached_pid = refl;
  num_wakeups = refl;
  exit_code = refl;
}

module _ (s : System) (able : Able s) (child : ℤ) where
  cont_lem :
      (n : ℕ) (c : Controller) → cont s child n c ≡ ok (logged (Action.ptrace_cont child n) c)
  unfolding cont
  cont_lem n c = rw (able.conts child n, cont) refl

  setoptions_lem :
      (c : Controller) → setoptions s child c ≡ ok (logged (Action.ptrace_setoptions child) c)
  unfolding setoptions
  setoptions_lem c = rw (able.sets child, setoptions) refl

  fork_lem :
      (c : Controller) (m p : ℤ)
      → s.geteventmsg child ≡ ok m
      → get_process child (add_process m c.groups) ≡ ok p
      → handle_fork s child c
        ≡ ok (
            logged
              (Action.insert_process p m)
              (record c { groups = add_process m c.groups; threads = c.threads + 1 }))
  unfolding handle_fork
  fork_lem c m p e f = ground arith

  clone_lem :
      (c : Controller) (m p : ℤ)
      → s.geteventmsg child ≡ ok m
      → get_process child c.groups ≡ ok p
      → handle_clone s child c
        ≡ ok (
            logged
              (Action.insert_thread p m)
              (record c { groups = add_thread m p c.groups; threads = c.threads + 1 }))
  unfolding handle_clone
  clone_lem c m p e f = ground arith

  fork-Succeeds : (c : Controller) → IsValid c.groups → Succeeds c (handle_fork s child c)
  fork-Succeeds c v =
      let (m, e) = able.messages child in
      let w = add_process-IsValid m c.groups v in
      let (p, f) = get_process-IsValid child (add_process m c.groups) w in
      (
        _,
        fork_lem c m p e f,
        record {
          valid = w;
          first_child = refl;
          attached_pid = refl;
          num_wakeups = refl;
          exit_code = refl;
        },
      )

  clone-Succeeds : (c : Controller) → IsValid c.groups → Succeeds c (handle_clone s child c)
  clone-Succeeds c v =
      let (m, e) = able.messages child in
      let (p, f) = get_process-IsValid child c.groups v in
      (
        _,
        clone_lem c m p e f,
        record {
          valid = add_thread-IsValid m p c.groups v;
          first_child = refl;
          attached_pid = refl;
          num_wakeups = refl;
          exit_code = refl;
        },
      )

  exit_known :
      (c : Controller)
      → s.exit child ≡ ok tt
      → handle_exit s child c ≡ ok (logged (Action.exit_thread child) c)
  unfolding handle_exit
  exit_known c e = rw (e, handle_exit) refl

  exit_unknown :
      (c : Controller) → s.exit child ≡ err Fault.out_of_range → handle_exit s child c ≡ ok c
  unfolding handle_exit
  exit_unknown c e = rw (e, handle_exit) refl

  pub logged-Follows : (a : Action) (c d : Controller) → Follows c d → Follows c (logged a d)
  logged-Follows a c d f = record {
    valid = f.valid;
    first_child = f.first_child;
    attached_pid = f.attached_pid;
    num_wakeups = f.num_wakeups;
    exit_code = f.exit_code;
  }

  exit-Succeeds : (c : Controller) → IsValid c.groups → Succeeds c (handle_exit s child c)
  exit-Succeeds c v = elim (able.exits child) [
    | inl e ↦ (_, exit_known c e, logged-Follows _ c c (stay c v))
    | inr e ↦ (c, exit_unknown c e, stay c v)
  ]

  choose :
      (b : Bool) (c : Controller) (x y : Result Controller)
      → Succeeds c x
      → Succeeds c y
      → Succeeds c (if b then x else y)
  choose true c x y h k = h
  choose false c x y h k = k

  event-Succeeds :
      (event : ℕ) (c : Controller)
      → IsValid c.groups
      → Succeeds c (handle_ptrace_event s child event c)
  unfolding handle_ptrace_event
  event-Succeeds event c v = choose _ c _ _ (fork-Succeeds c v) (
      choose _ c _ _ (clone-Succeeds c v) (
        choose _ c _ _ (_, refl, logged-Follows _ c c (stay c v))
          (choose _ c _ _ (exit-Succeeds c v) (c, refl, stay c v))))

  then_cont :
      (n : ℕ) (c : Controller) (x : Result Controller)
      → Succeeds c x
      → Succeeds c (x >>= cont s child n)
  then_cont n c x (d, e, f) =
      (logged (Action.ptrace_cont child n) d, rw e (cont_lem n d), logged-Follows _ c d f)

  forward_lem :
      (n : ℕ) (c : Controller)
      → (elim (s.cont child n) [
        | none ↦ ok (logged (Action.ptrace_cont child n) c)
        | some errno ↦ if errno == 3 then ok c else err Fault.system_error
      ])
        ≡ ok (logged (Action.ptrace_cont child n) c)
  forward_lem n c = rw (able.conts child n) refl

  pub deliver-Succeeds :
      (signum event : ℕ) (c : Controller)
      → IsValid c.groups
      → Succeeds c (deliver s child signum event c)
  unfolding deliver
  deliver-Succeeds signum event c v =
      choose (signum == 19) c _ _
        (then_cont 0 c _ (_, setoptions_lem c, logged-Follows _ c c (stay c v)))
        (choose (signum == 5) c _ _
          (then_cont 0 c _
            (choose (event == 0) c _ _ (c, refl, stay c v) (event-Succeeds event c v)))
          (_, forward_lem signum c, logged-Follows _ c c (stay c v)))

  -- While `attached_pid` is not 0 a stop is delivered, and the process is never detached from.
  pub stop_lem :
      (signum event : ℕ) (c d : Controller)
      → eq_ℤ c.attached_pid (pos 0) ≡ false
      → deliver s child signum event c ≡ ok d
      → handle_stop_signal s child signum event c ≡ ok (keep_running, d)
  unfolding handle_stop_signal
  stop_lem signum event c d h e = rw (h, handle_stop_signal) (rw e refl)

  pub other_lem :
      (c : Controller)
      → handle_signal s child other c ≡ ok (keep_running, logged (Action.ptrace_cont child 0) c)
  unfolding handle_signal
  other_lem c = rw (cont_lem 0 c) refl
