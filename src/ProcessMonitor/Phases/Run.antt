-- ===== src/ProcessMonitor/Phases/Run.antt =====
-- Every monitor that src/monitor/process_monitor.cpp starts is stopped and read out, once.
use lo2s.Shared.{
  ℤ, eq_ℤ_iff, Bool, true, false, ◌≡◌, inl, inr, refl, ◌∙◌, some, Bool-cases, List, [], ◌∷◌, arith,
  Result, ok,
}
use lo2s.Controller.{
  Action, ptrace_cont, ptrace_setoptions, ptrace_detach, insert_process, insert_thread,
  update_process_name, exit_thread,
}
use lo2s.ProcessMonitor.{
  MonitorCall, trace_process, resolvers_fork, posix_exit, monitor_stop, monitor_resolve,
  MonitorConfig, ProcessMonitor, call, call_if, has_thread, erase_key, insert_monitor_process,
  exit_monitor_thread, perform, perform_all, stop_all, destroy, no_parent,
}
use lo2s.ProcessMonitor.Phases.{
  absent, phase, absent_lem, Unique, Tidy, has_thread-erase_key, Unique-erase_key,
}
use lo2s.ProcessMonitor.Phases.Count.{
  constructions, to_construct, constructions-destroy, constructions-perform_all,
}
use lo2s.ProcessMonitor.Phases.Launch.{
  TidyMonitor, does_start, stop-Tidy, Inserted, call_if-threads, insert-Inserted,
}

-- No thread is inserted again before it has exited; `live` is what was inserted.
abbrev pub Fresh : List ℤ → List Action → Type 0
Fresh live [] = Unit {0}
Fresh live (ptrace_cont child signum ∷ later) = Fresh live later
Fresh live (ptrace_setoptions child ∷ later) = Fresh live later
Fresh live (ptrace_detach child ∷ later) = Fresh live later
Fresh live (insert_process parent child ∷ later) =
    (has_thread child live ≡ false) × Fresh (child ∷ live) later
Fresh live (insert_thread parent child ∷ later) =
    (has_thread child live ≡ false) × Fresh (child ∷ live) later
Fresh live (update_process_name child ∷ later) = Fresh live later
Fresh live (exit_thread child ∷ later) = Fresh (erase_key child live) later

exit-Tidy :
    (c : MonitorConfig) (t : ℤ) (m : ProcessMonitor)
    → TidyMonitor c m
    → TidyMonitor c (exit_monitor_thread c t m)
unfolding exit_monitor_thread phase
exit-Tidy c t m v =
    let told : TidyMonitor c (call_if c.posix_io (posix_exit t) m) = quiet c.posix_io in
    elim (Bool-cases (has_thread t m.threads)) [
      | inl there ↦
          rw (there, exit_monitor_thread)
            (stop-Tidy (does_start c) t m.threads (call_if c.posix_io (posix_exit t) m).log there
              (rw (call_if-threads c.posix_io (posix_exit t) m) at told))
      | inr gone ↦ rw (gone, exit_monitor_thread) told
    ]
  where
    quiet : (b : Bool) → TidyMonitor c (call_if b (posix_exit t) m)
    quiet true = record { unique = v.unique; phases = v.phases }
    quiet false = v

-- The threads of the map are among those that were inserted and did not exit.
abbrev Within : List ℤ → List ℤ → Type 0
Within ts live = (u : ℤ) → has_thread u ts ≡ true → has_thread u live ≡ true

exit-Within :
    (c : MonitorConfig) (t : ℤ) (live : List ℤ) (m : ProcessMonitor)
    → Unique live
    → Unique m.threads
    → Within m.threads live
    → Within (exit_monitor_thread c t m).threads (erase_key t live)
unfolding exit_monitor_thread
exit-Within c t live m ql qm w u k = ground (
  arith,
  k,
  w u,
  eq_ℤ_iff t u,
  has_thread-erase_key t u live ql,
  has_thread-erase_key t u m.threads qm,
  call_if-threads c.posix_io (posix_exit t) m,
)

-- What was inserted, behind an action.
abbrev live_after : Action → List ℤ → List ℤ
live_after (ptrace_cont child signum) live = live
live_after (ptrace_setoptions child) live = live
live_after (ptrace_detach child) live = live
live_after (insert_process parent child) live = child ∷ live
live_after (insert_thread parent child) live = child ∷ live
live_after (update_process_name child) live = live
live_after (exit_thread child) live = erase_key child live

record Performed (c : MonitorConfig) (live : List ℤ) (outcome : Result ProcessMonitor)
    : Type 0 where
  pub next : ProcessMonitor
  pub result : outcome ≡ ok next
  pub tidy : TidyMonitor c next
  pub within : Within next.threads live

not-Within :
    (t : ℤ) (ts live : List ℤ)
    → Within ts live
    → has_thread t live ≡ false
    → has_thread t ts ≡ false
not-Within t ts live w h = ground (arith, h, w t)

Inserted-Within :
    (c : MonitorConfig) (t : ℤ) (live : List ℤ) (m : ProcessMonitor)
    (outcome : Result ProcessMonitor) (r : Inserted c t m outcome)
    → Within m.threads live
    → Within r.next.threads (t ∷ live)
unfolding has_thread
Inserted-Within c t live m outcome r w u k = ground (arith, k, r.more u k, w u)

perform-Performed :
    (c : MonitorConfig) (a : Action) (later : List Action) (live : List ℤ) (m : ProcessMonitor)
    → Fresh live (a ∷ later)
    → Unique live
    → TidyMonitor c m
    → Within m.threads live
    → Performed c (live_after a live) (perform c a m)
      × Fresh (live_after a live) later
      × Unique (live_after a live)
unfolding perform phase insert_monitor_process
perform-Performed c (ptrace_cont child signum) later live m f q v w =
    (record { next = m; result = refl; tidy = v; within = w }, f, q)
perform-Performed c (ptrace_setoptions child) later live m f q v w =
    (record { next = m; result = refl; tidy = v; within = w }, f, q)
perform-Performed c (ptrace_detach child) later live m f q v w =
    (record { next = m; result = refl; tidy = v; within = w }, f, q)
perform-Performed c (insert_process parent child) later live m (h, f) q v w =
    let named = call (trace_process parent child) m in
    let r =
      insert-Inserted c child child named (not-Within child m.threads live w h)
        (record { unique = v.unique; phases = v.phases }) in
    (
      record {
        next = call (resolvers_fork parent child) r.next;
        result = rw (r.result) refl;
        tidy = record { unique = r.tidy.unique; phases = r.tidy.phases };
        within = Inserted-Within c child live named _ r w;
      },
      f,
      (h, q),
    )
perform-Performed c (insert_thread parent child) later live m (h, f) q v w =
    let r = insert-Inserted c parent child m (not-Within child m.threads live w h) v in
    (
      record {
        next = r.next;
        result = r.result;
        tidy = r.tidy;
        within = Inserted-Within c child live m _ r w;
      },
      f,
      (h, q),
    )
perform-Performed c (update_process_name child) later live m f q v w = (
  record {
    next = call (trace_process no_parent child) m;
    result = refl;
    tidy = record { unique = v.unique; phases = v.phases };
    within = w;
  },
  f,
  q,
)
perform-Performed c (exit_thread child) later live m f q v w = (
  record {
    next = exit_monitor_thread c child m;
    result = refl;
    tidy = exit-Tidy c child m v;
    within = exit-Within c child live m q v.unique w;
  },
  f,
  Unique-erase_key child live q,
)

perform_all-Tidy :
    (c : MonitorConfig) (actions : List Action) (live : List ℤ) (m : ProcessMonitor)
    → Fresh live actions
    → Unique live
    → TidyMonitor c m
    → Within m.threads live
    → (m' : ProcessMonitor) × (perform_all c actions m ≡ ok m') × TidyMonitor c m'
unfolding perform_all
perform_all-Tidy c [] live m f q v w = (m, refl, v)
perform_all-Tidy c (a ∷ later) live m f q v w =
    let (p, f', q') = perform-Performed c a later live m f q v w in
    let (m2, e, v2) = perform_all-Tidy c later (live_after a live) p.next f' q' p.tidy p.within in
    (m2, rw (p.result) e, v2)

stop_all-absent :
    (starts : ℤ → Bool) (ts : List ℤ) (log : List MonitorCall)
    → Tidy starts ts log
    → (t : ℤ) → phase starts t (stop_all ts log) ≡ some absent
unfolding stop_all has_thread erase_key
stop_all-absent starts [] log v t = absent_lem (phase starts t log) (v.phases t)
stop_all-absent starts (u ∷ ts) log v t =
    stop_all-absent starts ts (monitor_resolve u ∷ monitor_stop u ∷ log)
      (rw erased at (stop-Tidy starts u (u ∷ ts) log here v)) t
  where
    here : has_thread u (u ∷ ts) ≡ true
    here = ground (arith, eq_ℤ_iff u u)

    erased : erase_key u (u ∷ ts) ≡ ts
    erased = ground (arith, eq_ℤ_iff u u)

phase-destroy :
    (c : MonitorConfig) (m : ProcessMonitor) (t : ℤ)
    → phase (does_start c) t (destroy c m).log ≡ phase (does_start c) t (stop_all m.threads m.log)
unfolding destroy phase
phase-destroy c m t = elim (Bool-cases c.posix_io) [
  | inl e ↦ rw (e, destroy) refl
  | inr e ↦ rw (e, destroy) refl
]

-- If no thread is inserted again before it has exited, then the process monitor does all that it is
-- asked for without a failed assertion, whichever monitors can be made and started. For every thread
-- a monitor is made once for each insertion of the thread at which it is measured and its monitor can
-- be made. Behind the destructor each of them has gone through its life in order: made, started if it
-- can be started (else stopped as it is), stopped, and read out into the resolvers, with none left.
pub destroy-absent :
    (c : MonitorConfig) (actions : List Action)
    → Fresh [] actions
    → (m : ProcessMonitor) × (perform_all c actions (record { threads = []; log = [] }) ≡ ok m)
      × ((t : ℤ)
          → (phase (does_start c) t (destroy c m).log ≡ some absent)
            × (constructions t (destroy c m).log ≡ to_construct c t actions))
unfolding phase has_thread constructions
destroy-absent c actions f =
    let (m, e, v) =
      perform_all-Tidy c actions [] (record { threads = []; log = [] }) f tt
        (record { unique = tt; phases = λ t. refl }) (λ u h. h) in
    (
      m,
      e,
      λ t. (
        phase-destroy c m t ∙ stop_all-absent (does_start c) m.threads m.log v t,
        constructions-destroy c t m
            ∙ constructions-perform_all c t actions (record { threads = []; log = [] }) m e
            ∙ omega arith,
      ),
    )
