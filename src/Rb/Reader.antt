-- ===== src/Rb/Reader.antt =====
-- include/lo2s/rb/reader.hpp and src/rb/reader.cpp, `RingbufReader`: lo2s's side of the ring.
use lo2s.Shared.{
  List, ◌-◌, ℕ, ◌+◌, ◌*◌, Bool, true, false, Option, none, some, Result, ok, err, Fault, ◌>>=◌,
}
use lo2s.Rb.{ShmRingbuf, RingbufHeader, ringbuf_version, open_ringbuf, tail, advance_tail}
use lo2s.Rb.Memory.{load_u64, read_at}

-- sizeof (struct event_header), whose fields are `size` at 0 and `type` at 8.
abbrev pub event_header_size : ℕ
event_header_size = 16

-- The constructor, given the page size, the address that `mmap` returns and what the file holds:
-- the file is new, `ftruncate` filled it with zeros.
unfoldable pub init : ℕ → ℕ → ℕ → Result ShmRingbuf
unfolding open_ringbuf
init pagesize start clockid = do
  let h : RingbufHeader = record {
    version = ringbuf_version;
    size = pagesize * 16;
    head = 0;
    tail = 0;
    pid = 0;
    type = 0;
    clockid = 0;
  }
  rb ← open_ringbuf h (λ _. 0) start
  ok (record rb { header = record (rb.header) { clockid = clockid } })

-- `const T* get()`
unfoldable pub get : ShmRingbuf → Result (Option ℕ)
get rb = do
  header ← tail rb event_header_size
  elim header [ none ↦ ok none | some p ↦ tail rb (load_u64 rb p) ]

unfoldable pub get_top_event_type : ShmRingbuf → Result ℕ
get_top_event_type rb = do
  header ← tail rb event_header_size
  elim header [ none ↦ err Fault.runtime_error | some p ↦ ok (load_u64 rb (p + 8)) ]

unfoldable pub empty : ShmRingbuf → Result Bool
empty rb = do header ← tail rb event_header_size; ok (elim header [ none ↦ true | some p ↦ false ])

unfoldable pub pop : ShmRingbuf → Result ShmRingbuf
pop rb = do
  header ← tail rb event_header_size
  elim header [ none ↦ ok rb | some p ↦ advance_tail rb (load_u64 rb p) ]

-- One round of the loop with which the monitors empty the ring (src/monitor/gpu_monitor.cpp,
-- src/monitor/openmp_monitor.cpp): the event's type and the bytes from `header.type` on. `none`
-- is the end of the loop, and a null pointer from `get()` is dereferenced.
unfoldable pub take : ShmRingbuf → Result (Option (ℕ × List ℕ) × ShmRingbuf)
take rb = do
  done ← empty rb
  elim done [
    | true ↦ ok (none, rb)
    | false ↦ do
      type ← get_top_event_type rb
      ev ← get rb
      rest ← pop rb
      elim ev [
        | none ↦ err Fault.null_pointer
        | some p ↦ ok (some (type, read_at rb (p + 8) (load_u64 rb p - 8)), rest)
      ]
  ]
