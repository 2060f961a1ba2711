-- ===== src/OmptRing.antt =====
-- include/lo2s/ompt/ringbuf.hpp, `ompt::RingbufWriter`, and the loop of src/monitor/openmp_monitor.cpp
-- with the ring of src/rb/: an event is a struct of `uint64_t` fields (include/lo2s/ompt/events.hpp).
pub mod Transport
mod Tests
use lo2s.Shared.{
  ℕ, zero, suc, Bool, true, false, Option, none, some, List, [], ◌∷◌, ◌==◌, if◌then◌else◌, Result,
  ok, ◌>>=◌,
}
use lo2s.Ompt.{OmpType, parallel, master, sync, loop, workshare, other, omp_type_value, OmptCctx}
use lo2s.Rb.{ShmRingbuf}
use lo2s.Rb.Offsets.{Payload}
use lo2s.Rb.Writer.{RingbufWriter, put}
use lo2s.Rb.Reader.{take}
use lo2s.Rb.Words.{words, word_at}
use lo2s.OmptMonitor.{OmptEvent, ompt_enter, ompt_exit, unknown, OmptMonitor, handle}

-- The fields behind `header.size`.
unfoldable pub encode_fields : ℕ → ℕ → OmptCctx → Payload
encode_fields type tp c =
    words (type ∷ tp ∷ omp_type_value c.type ∷ c.tid ∷ c.addr ∷ c.num_threads ∷ []) []

-- `ompt_enter` and `ompt_leave` of the writer: false is for no room.
unfoldable pub write_enter : ℕ → OmptCctx → RingbufWriter → Result (Bool × RingbufWriter)
write_enter tp c w = put w (encode_fields 0 tp c)

unfoldable pub write_leave : ℕ → OmptCctx → RingbufWriter → Result (Bool × RingbufWriter)
write_leave tp c w = put w (encode_fields 1 tp c)

-- An enumerator from its number; a number without one is taken for the last.
unfoldable pub omp_type_from : ℕ → OmpType
omp_type_from n =
    if n == 0
    then parallel
    else if n == 1
    then master
    else if n == 2
    then sync
    else if n == 3
    then loop
    else if n == 4
    then workshare
    else other

unfoldable pub read_cctx : Payload → OmptCctx
read_cctx p = record {
  type = omp_type_from (word_at 2 p);
  tid = word_at 3 p;
  addr = word_at 4 p;
  num_threads = word_at 5 p;
}

-- What the loop takes from an event of a type.
unfoldable pub read_event : ℕ → Payload → OmptEvent
read_event type p =
    if type == 0
    then ompt_enter (word_at 1 p) (read_cctx p)
    else if type == 1
    then ompt_exit (word_at 1 p) (read_cctx p)
    else unknown

-- `monitor`, for at most `fuel` events.
unfoldable pub monitor_ring :
    ℕ → (ℕ → ℕ) → ShmRingbuf → OmptMonitor → Result (OmptMonitor × ShmRingbuf)
monitor_ring zero convert rb m = ok (m, rb)
monitor_ring (suc fuel) convert rb m = take rb >>= λ r. elim r.0 [
  | none ↦ ok (m, r.1)
  | some (type, p) ↦ handle convert (read_event type p) m >>= monitor_ring fuel convert (r.1)
]

-- The calls of the measuring library, one after the other; it does not look at the answers.
unfoldable pub write_events : List OmptEvent → RingbufWriter → Result RingbufWriter
write_events [] w = ok w
write_events (ompt_enter tp c ∷ es) w = write_enter tp c w >>= λ r. write_events es r.1
write_events (ompt_exit tp c ∷ es) w = write_leave tp c w >>= λ r. write_events es r.1
write_events (unknown ∷ es) w = write_events es w
