-- ===== src/Rb.antt =====
-- include/lo2s/rb/header.hpp, include/lo2s/rb/shm_ringbuf.hpp, src/rb/shm_ringbuf.cpp: the ring
-- buffer in shared memory between a measuring library and lo2s. The data area is mapped twice,
-- back to back, so the virtual address `start_ + i` reads the physical byte `i % size`.
-- A `uint64_t` sum is written with its wrap-around; `pid` and `clockid` are bit patterns.
pub mod Memory
pub mod Reader
pub mod Writer
pub mod Layout
pub mod Offsets
pub mod Fifo
pub mod Drain
pub mod Session
pub mod Words
mod Tests
use lo2s.Shared.{
  ℕ, zero, suc, ◌+◌, ◌-◌, ◌*◌, ◌/◌, ◌%◌, ◌^◌, Bool, true, false, not, ◌&&◌, Option, none, some, ltb,
  leb, ◌==◌, if◌then◌else◌, Result, ok, err, Fault, assert, throw_if, ◌>>=◌, ◌>>◌,
}

abbrev pub u64 : ℕ
u64 = 2 ^ 64

-- RINGBUF_VERSION
abbrev pub ringbuf_version : ℕ
ringbuf_version = 2

pub data RingbufMeasurementType : Type 0 where
  unset gpu openmp : RingbufMeasurementType

-- The enumerators' numbers, as they are stored in `ringbuf_header.type`.
unfoldable pub measurement_type_value : RingbufMeasurementType → ℕ
measurement_type_value unset = 0
measurement_type_value gpu = 1
measurement_type_value openmp = 2

pub record RingbufHeader : Type 0 where
  pub version : ℕ
  pub size : ℕ
  pub head : ℕ
  pub tail : ℕ
  pub pid : ℕ
  pub type : ℕ
  pub clockid : ℕ

-- `start_` and what both mappings show: the header page and the data area.
pub record ShmRingbuf : Type 0 where
  pub start : ℕ
  pub header : RingbufHeader
  pub bytes : ℕ → ℕ

-- `(ev_size + 7) & ~7`, in 64 bits.
unfoldable pub round8 : ℕ → ℕ
round8 ev_size = (ev_size + 7) % u64 / 8 * 8

-- The constructor: it opens what the header in the file describes. `start` is the address of the
-- page behind the header, where `mmap` put the two mappings.
unfoldable pub open_ringbuf : RingbufHeader → (ℕ → ℕ) → ℕ → Result ShmRingbuf
open_ringbuf h bytes start = do
  throw_if (not (h.version == ringbuf_version)) Fault.runtime_error
  ok (record { start = start; header = h; bytes = bytes })

abbrev pub set_head : ShmRingbuf → ℕ → ShmRingbuf
set_head rb v = record rb { header = record (rb.header) { head = v } }

abbrev pub set_tail : ShmRingbuf → ℕ → ShmRingbuf
set_tail rb v = record rb { header = record (rb.header) { tail = v } }

-- The last lines of `head()` and `tail()`: the pointer must be aligned.
checked_pointer : ℕ → Result (Option ℕ)
checked_pointer res = throw_if (not (res % 8 == 0)) Fault.runtime_error >> ok (some res)

-- Whether `head()` refuses a reservation of `r` bytes, already rounded.
head_refuses : ℕ → ℕ → ℕ → ℕ → Bool
head_refuses head tail size r =
    if leb tail head
    then ltb ((tail + size) % u64) ((head + r) % u64)
    else leb tail ((head + r) % u64)

-- `std::byte* head(size_t ev_size)`; `none` is `nullptr`.
unfoldable pub head : ShmRingbuf → ℕ → Result (Option ℕ)
unfolding head_refuses checked_pointer
head rb ev_size = do
  let h = rb.header.head
  let t = rb.header.tail
  assert (t % 8 == 0)
  assert (h % 8 == 0)
  let res = checked_pointer ((rb.start + h) % u64)
  if head_refuses h t rb.header.size (round8 ev_size) then ok none else res

loadable : ℕ → ℕ → ℕ → ℕ → Bool
loadable head tail size r =
    if leb tail head
    then leb ((tail + r) % u64) head
    else leb ((tail + r) % u64) ((head + size) % u64)

-- `bool can_be_loaded(size_t ev_size)`
unfoldable pub can_be_loaded : ShmRingbuf → ℕ → Result Bool
unfolding loadable
can_be_loaded rb ev_size = do
  let h = rb.header.head
  let t = rb.header.tail
  assert (t % 8 == 0)
  assert (h % 8 == 0)
  ok (loadable h t rb.header.size (round8 ev_size))

-- `std::byte* tail(uint64_t ev_size)`
unfoldable pub tail : ShmRingbuf → ℕ → Result (Option ℕ)
unfolding can_be_loaded checked_pointer
tail rb ev_size = do
  there ← can_be_loaded rb (round8 ev_size)
  let res = checked_pointer ((rb.start + rb.header.tail) % u64)
  if not there then ok none else res

-- `void advance_head(size_t ev_size)`
unfoldable pub advance_head : ShmRingbuf → ℕ → ShmRingbuf
advance_head rb ev_size = set_head rb ((rb.header.head + round8 ev_size) % u64 % rb.header.size)

-- `void advance_tail(size_t ev_size)`
unfoldable pub advance_tail : ShmRingbuf → ℕ → Result ShmRingbuf
unfolding can_be_loaded
advance_tail rb ev_size = do
  let r = round8 ev_size
  there ← can_be_loaded rb r
  assert there
  assert ((rb.header.tail + r) % u64 % 8 == 0)
  ok (set_tail rb ((rb.header.tail + r) % u64 % rb.header.size))
