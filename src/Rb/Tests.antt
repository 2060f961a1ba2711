-- ===== src/Rb/Tests.antt =====
-- Concrete rings of src/rb/: the lemmas' hypotheses hold on them, and small runs.
use lo2s.Shared.{◌≡◌, refl, replicate, true, false, none, some, List, [], ◌∷◌, ok, arith}
use lo2s.Rb.{ShmRingbuf, round8}
use lo2s.Rb.Offsets.{Payload, Holds, room}
use lo2s.Rb.Layout.{decode_le}
use lo2s.Rb.Reader.{init, take}
use lo2s.Rb.Writer.{put, timestamp}
use lo2s.Rb.Fifo.{after_put}
use lo2s.Rb.Session.{
  Op, write, read, written, taken, run, run_queue, run_refines, put-full_loses, init-Holds, idle,
}

-- The ring of 16 pages of 8 bytes.
abbrev ring : ShmRingbuf
ring = record {
  header = record { version = 2; size = 128; head = 0; tail = 0; pid = 0; type = 0; clockid = 4 };
  bytes = λ _. 0;
  start = 4096;
}

init_ring : init 8 4096 4 ≡ ok ring
unfolding init
init_ring = refl

ring-Holds : Holds ring []
ring-Holds =
    init-Holds 8 4096 4 (omega arith) (omega arith) (omega arith) (omega arith) (omega arith)
      init_ring

abbrev first : Payload
first = 1 ∷ 0 ∷ 0 ∷ 0 ∷ 0 ∷ 0 ∷ 0 ∷ 0 ∷ 7 ∷ []

abbrev large : Payload
large = replicate 104 0

abbrev ops : List Op
ops = write first ∷ write large ∷ read ∷ write large ∷ read ∷ read ∷ []

run_refines_example : run (idle ring) ops ≡ ok (run_queue 128 [] ops)
unfolding room round8
run_refines_example = run_refines ops ring-Holds (
  (omega arith, omega arith),
  omega arith,
  ((omega arith, omega arith), omega arith, ((omega arith, omega arith), omega arith, tt)),
)

replies :
    run_queue 128 [] ops
    ≡ written true
      ∷ written false
      ∷ taken (some (1, first))
      ∷ written true
      ∷ taken (some (0, large))
      ∷ taken none
      ∷ []
unfolding run_queue room round8 decode_le
replies = refl

abbrev full : Payload
full = replicate 120 0

put-full_loses_example :
    (put (idle ring) full ≡ ok (true, idle (after_put ring full)))
    × (take (after_put ring full) ≡ ok (none, after_put ring full))
    × Holds (after_put ring full) []
unfolding room round8
put-full_loses_example =
    put-full_loses ring-Holds full (omega arith, omega arith) refl (omega arith)

timestamp_second : timestamp 2 5 ≡ 2000000005
unfolding timestamp
timestamp_second = refl
