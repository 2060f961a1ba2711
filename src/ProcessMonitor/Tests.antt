-- ===== src/ProcessMonitor/Tests.antt =====
-- Concrete calls of the controller for src/monitor/process_monitor.cpp: the lemmas' hypotheses hold on
-- them.
use lo2s.Shared.{ℤ, pos, negsuc, true, false, ◌≡◌, refl, some, List, [], ◌∷◌, Result, ok}
use lo2s.Controller.{Action, insert_process, insert_thread, update_process_name, exit_thread}
use lo2s.ProcessMonitor.{
  refused, started, MonitorConfig, ProcessMonitor, perform, perform_all, destroy, has_thread,
  add_key, erase_key, insert_monitor_thread, insert_monitor_process, exit_monitor_thread,
  launch_monitor, is_measured,
}
use lo2s.ProcessMonitor.Phases.{phase, absent}
use lo2s.ProcessMonitor.Phases.Count.{constructions, to_construct}
use lo2s.ProcessMonitor.Phases.Launch.{does_start, insert_without_sampling}
use lo2s.ProcessMonitor.Phases.Run.{destroy-absent}

abbrev config : MonitorConfig
config = record {
  posix_io = true;
  sampling = true;
  has_group_counters = λ t. true;
  has_userspace_counters = λ t. true;
  launch = λ t. elim t [ pos n ↦ started | negsuc n ↦ refused ];
}

-- A process 10, its threads 11 and 12, and 11 again once it has exited.
abbrev actions : List Action
actions =
    insert_process (pos 0) (pos 10)
    ∷ insert_thread (pos 10) (pos 11)
    ∷ insert_thread (pos 10) (pos 12)
    ∷ exit_thread (pos 11)
    ∷ update_process_name (pos 10)
    ∷ insert_thread (pos 10) (pos 11)
    ∷ []

abbrev nobody : ProcessMonitor
nobody = record { threads = []; log = [] }

abbrev threads_of : Result ProcessMonitor → List ℤ
threads_of (ok m) = m.threads
threads_of (Result.err fault) = []

actions_lem : threads_of (perform_all config actions nobody) ≡ pos 10 ∷ pos 11 ∷ pos 12 ∷ []
unfolding perform_all perform insert_monitor_process insert_monitor_thread launch_monitor
    is_measured exit_monitor_thread has_thread add_key erase_key
actions_lem = refl

destroy-absent_example :
    (m : ProcessMonitor) × (perform_all config actions nobody ≡ ok m)
    × ((t : ℤ)
        → (phase (does_start config) t (destroy config m).log ≡ some absent)
          × (constructions t (destroy config m).log ≡ to_construct config t actions))
unfolding has_thread erase_key
destroy-absent_example = destroy-absent config actions (refl, (refl, (refl, (refl, tt))))

-- The options ask for counters of both kinds and not for samples.
insert_without_sampling_example :
    (m' : ProcessMonitor) × (insert_monitor_thread
        (record config { sampling = false })
        (pos 10)
        (pos 11)
        nobody
      ≡ ok m')
    × (has_thread (pos 11) m'.threads ≡ false)
unfolding has_thread
insert_without_sampling_example =
    insert_without_sampling (record config { sampling = false }) (pos 10) (pos 11) nobody refl refl
      refl
