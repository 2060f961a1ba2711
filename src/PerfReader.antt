-- ===== src/PerfReader.antt =====
-- include/lo2s/perf/event_reader.hpp, `EventReader`: reading the ring that the kernel fills for a
-- perf event. The client class's `handle` members are a parameter, with a state of their own.
pub mod Wrap
pub mod Records
mod Tests
use lo2s.Shared.{
  ℕ, zero, suc, ◌+◌, ◌-◌, ◌*◌, ◌%◌, ◌^◌, Bool, true, false, List, [], ◌∷◌, ◌++◌, length, ltb, leb,
  ◌==◌, Result, ok, err, assert, ◌>>=◌, ◌>>◌, if◌then◌else◌,
}

-- The types of record that have a `handle` of their own.
pub data RecordType : Type 0 where
  mmap mmap2 switch switch_cpu_wide fork sample comm unknown : RecordType

-- What `read()` changes besides the ring: its counters and the client's state.
pub record Client {ℓ} (S : Type ℓ) : Type ℓ where
  pub state : S
  pub throttle_samples : ℕ
  pub lost_samples : ℕ

-- The ring: its data area, the two offsets in its header, which the kernel and the reader
-- advance, and `data_size()`. The kernel writes no more while `read()` runs.
pub record EventReader {ℓ} (S : Type ℓ) : Type ℓ where
  pub data_size : ℕ
  pub bytes : ℕ → ℕ
  pub data_head : ℕ
  pub data_tail : ℕ
  pub client : Client S

-- The `n` bytes at offset `i` of the data area.
unfoldable pub slice : (ℕ → ℕ) → ℕ → ℕ → List ℕ
slice m i zero = []
slice m i (suc n) = m i ∷ slice m (i + 1) n

-- The little-endian number of the `n` bytes from index `i` of an event on.
unfoldable pub le_value : List ℕ → ℕ
le_value [] = 0
le_value (b ∷ bs) = b + 256 * le_value bs

unfoldable pub take_bytes : ℕ → List ℕ → List ℕ
take_bytes zero bs = []
take_bytes (suc n) [] = []
take_bytes (suc n) (b ∷ bs) = b ∷ take_bytes n bs

unfoldable pub drop_bytes : ℕ → List ℕ → List ℕ
drop_bytes zero bs = bs
drop_bytes (suc n) [] = []
drop_bytes (suc n) (b ∷ bs) = drop_bytes n bs

unfoldable pub field : ℕ → ℕ → List ℕ → ℕ
unfolding le_value take_bytes drop_bytes
field i n ev = le_value (take_bytes n (drop_bytes i ev))

-- `perf_event_header`: `type` at 0 and `size` at 6.
unfoldable pub type_of : List ℕ → ℕ
unfolding field
type_of ev = field 0 4 ev

unfoldable pub size_of : List ℕ → ℕ
unfolding field
size_of ev = field 6 2 ev

module _ {ℓ} {S : Type ℓ} where
  unfoldable pub empty : EventReader S → Bool
  empty r = r.data_head == r.data_tail

  -- The bytes of the event that `get()` points to, in the ring or in `event_copy`.
  unfoldable pub get : EventReader S → Result (List ℕ)
  unfolding slice size_of
  get r = do
    assert (leb r.data_tail r.data_head)
    assert (leb (r.data_head - r.data_tail) r.data_size)
    let index = r.data_tail % r.data_size
    let len = size_of (slice r.bytes index 8)
    ok (
        if ltb r.data_size (index + len)
        then slice r.bytes index (r.data_size - index)
          ++ slice r.bytes 0 (len - (r.data_size - index))
        else slice r.bytes index len)

  unfoldable pub pop : EventReader S → Result (EventReader S)
  unfolding get size_of
  pop r = do ev ← get r; ok (record r { data_tail = (r.data_tail + size_of ev) % 2 ^ 64 })

  -- The `switch` of `read()` on an event, by the numbers of linux/perf_event.h; the result's first
  -- component is `stop`.
  unfoldable pub dispatch :
      (RecordType → List ℕ → S → Bool × S) → List ℕ → Client S → Bool × Client S
  unfolding type_of field
  dispatch handle ev c =
      let handled : RecordType → Bool × Client S =
        λ t. ((handle t ev c.state).0, record c { state = (handle t ev c.state).1 }) in
      let lost : ℕ → Bool × Client S =
        λ n. (false, record c { lost_samples = (c.lost_samples + n) % 2 ^ 64 }) in
      let type = type_of ev in
      if type == 1
      then handled mmap
      else if type == 10
      then handled mmap2
      else if type == 14
      then handled switch
      else if type == 15
      then handled switch_cpu_wide
      else if type == 5
      then (false, record c { throttle_samples = c.throttle_samples + 1 })
      else if type == 6
      then (false, record c { throttle_samples = c.throttle_samples + 1 })
      else if type == 2
      then lost (field 16 8 ev)
      else if type == 13
      then lost (field 8 8 ev)
      else if type == 4
      then (false, c)
      else if type == 7
      then handled fork
      else if type == 9
      then handled sample
      else if type == 3
      then handled comm
      else handled unknown

  -- The `while` loop of `read()`, for at most `fuel` events.
  unfoldable pub read_loop :
      (RecordType → List ℕ → S → Bool × S) → ℕ → EventReader S → Result (EventReader S)
  unfolding empty get pop dispatch
  read_loop handle zero r = ok r
  read_loop handle (suc fuel) r = elim (empty r) [
    | true ↦ ok r
    | false ↦ get r >>= λ ev. pop (record r { client = (dispatch handle ev r.client).1 }) >>= λ r'.
        elim ((dispatch handle ev r.client).0) [ true ↦ ok r' | false ↦ read_loop handle fuel r' ]
  ]

  -- `read()`; an event has at least a byte.
  unfoldable pub read :
      (RecordType → List ℕ → S → Bool × S) → EventReader S → Result (EventReader S)
  unfolding read_loop
  read handle r = read_loop handle (r.data_head - r.data_tail) r
