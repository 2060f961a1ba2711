-- ===== src/OmptMonitor/Tests.antt =====
-- A concrete run of src/monitor/openmp_monitor.cpp: a region is entered and left, and then left a
-- second time.
use lo2s.Shared.{pos, ◌≡◌, List, [], ◌∷◌, ok}
use lo2s.Ompt.{OmptCctx, OmpType}
use lo2s.OmptMonitor.{OmptEvent, ompt_enter, ompt_exit, OmptMonitor, monitor}
use lo2s.OmptMonitor.Trees.{AllReached, monitor-Reached}

abbrev region : OmptCctx
region = record { type = OmpType.sync; tid = 31; addr = 64; num_threads = 4 }

abbrev events : List OmptEvent
events = ompt_enter 5 region ∷ ompt_exit 6 region ∷ ompt_exit 7 region ∷ []

abbrev start : OmptMonitor
start = record { process = pos 30; writers = [] }

monitor-Reached_example :
    (m' : OmptMonitor) × (monitor (λ t. t) events start ≡ ok m') × AllReached m'.writers
monitor-Reached_example = monitor-Reached (λ t. t) events start tt
