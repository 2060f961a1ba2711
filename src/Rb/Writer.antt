-- ===== src/Rb/Writer.antt =====
-- include/lo2s/rb/writer.hpp and src/rb/writer.cpp, `RingbufWriter`: the measuring library's side.
use lo2s.Shared.{
  ℕ, ◌+◌, ◌*◌, ◌%◌, not, Option, none, some, ◌==◌, Result, ok, assert, ◌>>=◌, ◌>>◌, replicate, List,
  length, Bool, true, false,
}
use lo2s.Rb.{
  ShmRingbuf, RingbufHeader, RingbufMeasurementType, measurement_type_value, open_ringbuf, u64,
  head, advance_head,
}
use lo2s.Rb.Memory.{write_at, encode_le}

pub record RingbufWriter : Type 0 where
  pub rb : ShmRingbuf
  pub reserved_size : ℕ

-- The constructor, from the header in the shared memory whose descriptor came over the socket.
unfoldable pub init :
    RingbufHeader → (ℕ → ℕ) → ℕ → ℕ → RingbufMeasurementType → Result RingbufWriter
unfolding open_ringbuf measurement_type_value
init h bytes start pid type = do
  rb ← open_ringbuf h bytes start
  ok (record {
    rb = record rb {
      header = record (rb.header) { pid = pid; type = measurement_type_value type };
    };
    reserved_size = 0;
  })

-- `T* reserve(uint64_t payload)`, with `sizeof(T) + payload` for `ev_size`.
unfoldable pub reserve : RingbufWriter → ℕ → Result (Option ℕ × RingbufWriter)
unfolding head
reserve w ev_size = do
  assert (w.reserved_size == 0)
  ev ← head w.rb ev_size
  elim ev [
    | none ↦ ok (none, w)
    | some p ↦
        let cleared = write_at w.rb p (replicate ev_size 0) in
        ok (
          some p,
          record w { rb = write_at cleared p (encode_le 8 ev_size); reserved_size = ev_size },
        )
  ]

unfoldable pub commit : RingbufWriter → Result RingbufWriter
unfolding advance_head
commit w = do
  assert (not (w.reserved_size == 0))
  ok (record w { rb = advance_head w.rb w.reserved_size; reserved_size = 0 })

-- `timestamp()`, from the `timespec` that `clock_gettime` fills in.
unfoldable pub timestamp : ℕ → ℕ → ℕ
timestamp tv_sec tv_nsec = (tv_sec * 1000000000 % u64 + tv_nsec) % u64

-- How every user of the class writes an event (include/lo2s/ompt/ringbuf.hpp): reserve, fill in
-- what follows `header.size`, and commit. `false` means that there was no room.
unfoldable pub put : RingbufWriter → List ℕ → Result (Bool × RingbufWriter)
unfolding reserve commit
put w p = do
  (ev, w') ← reserve w (8 + length p)
  elim ev [
    | none ↦ ok (false, w')
    | some ptr ↦ do w'' ← commit (record w' { rb = write_at w'.rb (ptr + 8) p }); ok (true, w'')
  ]
