-- ===== src/OmptRing/Tests.antt =====
-- A concrete ring between the OpenMP library (include/lo2s/ompt/ringbuf.hpp) and its monitor.
use lo2s.Shared.{◌^◌, ◌-◌, pos, ◌≡◌, refl, List, [], ◌∷◌, ok, ◌>>=◌, arith}
use lo2s.Ompt.{loop, OmptCctx}
use lo2s.Rb.{ShmRingbuf, round8}
use lo2s.Rb.Memory.{encode_le}
use lo2s.Rb.Offsets.{Holds, room}
use lo2s.Rb.Reader.{init}
use lo2s.Rb.Session.{idle, init-Holds}
use lo2s.Rb.Words.{words}
use lo2s.OmptMonitor.{OmptEvent, ompt_enter, ompt_exit, OmptMonitor, monitor}
use lo2s.OmptRing.{encode_fields, write_events, monitor_ring}
use lo2s.OmptRing.Transport.{payload, monitor_ring-write_events}

abbrev ring : ShmRingbuf
ring = record {
  header = record { version = 2; size = 128; head = 0; tail = 0; pid = 0; type = 0; clockid = 4 };
  bytes = λ _. 0;
  start = 4096;
}

init_ring : init 8 4096 4 ≡ ok ring
unfolding init
init_ring = refl

abbrev region : OmptCctx
region = record { type = loop; tid = 7; addr = 2 ^ 64 - 1; num_threads = 0 }

abbrev events : List OmptEvent
events = ompt_enter 100 region ∷ ompt_exit (2 ^ 40) region ∷ []

abbrev no_threads : OmptMonitor
no_threads = record { process = pos 7; writers = [] }

monitor_ring-write_events_example :
    (rb1 rb2 : ShmRingbuf) × (write_events events (idle ring) ≡ ok (idle rb1))
    × (monitor_ring 3 (λ t. t) rb1 no_threads
        ≡ (monitor (λ t. t) events no_threads >>= λ m'. ok (m', rb2)))
    × Holds rb2 []
unfolding room round8 payload encode_fields words encode_le
monitor_ring-write_events_example =
    monitor_ring-write_events (λ t. t) events ring no_threads
      (init-Holds 8 4096 4 (omega arith) (omega arith) (omega arith) (omega arith) (omega arith)
        init_ring)
      (
        (omega arith, omega arith, omega arith, omega arith),
        ((omega arith, omega arith, omega arith, omega arith), tt),
      )
      (omega arith)
