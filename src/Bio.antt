-- ===== src/Bio.antt =====
-- src/perf/bio/writer.cpp and include/lo2s/perf/bio/writer.hpp, `perf::bio::Writer`: from the events
-- of the block layer to I/O operations in the trace. The conversion of time points and `makedev` are
-- parameters. A `BlockDevice` is its `id`, by which it compares.
pub mod Pending
pub mod Merge
mod Tests
use lo2s.Shared.{
  ℕ, ◌+◌, ◌*◌, ◌/◌, ◌%◌, ◌^◌, Bool, true, false, not, ◌&&◌, ◌||◌, Option, none, some, List, [], ◌∷◌,
  ◌==◌, if◌then◌else◌, Result, ok, err, Fault, lookup, assign,
}
use lo2s.MultiReader.{IoReaderIdentity}

-- `RecordBioQueue` or `RecordBlock`; `rwbs` is the first character of that field.
pub record BlockRecord : Type 0 where
  pub time : ℕ
  pub dev : ℕ
  pub sector : ℕ
  pub nr_sector : ℕ
  pub rwbs : ℕ

pub data IoMode : Type 0 where
  read_mode write_mode : IoMode

-- What goes to the local writer of the device.
pub data IoEvent : Type 0 where
  io_operation_begin : (tp dev : ℕ) (mode : IoMode) (size sector : ℕ) → IoEvent
  io_operation_issued : (tp dev sector : ℕ) → IoEvent
  io_operation_complete : (tp dev size sector : ℕ) → IoEvent

-- The tracepoints are known after `get_tracepoints`.
pub record BioWriter : Type 0 where
  pub bio_queue : Option ℕ
  pub bio_issue : Option ℕ
  pub bio_complete : Option ℕ
  pub sector_cache : List (ℕ × List (ℕ × ℕ))
  pub written : List IoEvent

abbrev pub sector_size : ℕ
sector_size = 512

-- `sector_cache_[dev]`
abbrev pub sectors : ℕ → List (ℕ × List (ℕ × ℕ)) → List (ℕ × ℕ)
sectors dev cache = elim (lookup dev cache) [ none ↦ [] | some m ↦ m ]

-- `sector_cache_[dev][sector]`, read.
abbrev pub cached : ℕ → ℕ → List (ℕ × List (ℕ × ℕ)) → ℕ
cached dev sector cache = elim (lookup sector (sectors dev cache)) [ none ↦ 0 | some size ↦ size ]

-- `sector_cache_[dev][sector] = size`
abbrev pub cache_size : ℕ → ℕ → ℕ → List (ℕ × List (ℕ × ℕ)) → List (ℕ × List (ℕ × ℕ))
cache_size dev sector size cache = assign dev (assign sector size (sectors dev cache)) cache

abbrev pub is_none : {A : Type 0} → Option A → Bool
is_none none = true
is_none (some a) = false

-- A comparison with a `std::optional`.
unfoldable pub is_tracepoint : ℕ → Option ℕ → Bool
is_tracepoint t none = false
is_tracepoint t (some u) = t == u

-- `event->rwbs[0]`: 'R' and 'W'.
unfoldable pub mode_of : ℕ → Option IoMode
mode_of c = if c == 82 then some read_mode else if c == 87 then some write_mode else none

module _ (convert : ℕ → ℕ) (makedev : ℕ → ℕ → ℕ) where
  -- `block_device_for<T>`
  unfoldable pub device_of : BlockRecord → ℕ
  device_of e = makedev (e.dev / 2 ^ 20) (e.dev % 2 ^ 20)

  -- The three branches of `write`.
  unfoldable pub write_queue : BlockRecord → BioWriter → BioWriter
  write_queue e w =
      let dev = device_of e in
      let size = e.nr_sector * sector_size % 2 ^ 32 in
      elim (mode_of e.rwbs) [
        | none ↦ w
        | some mode ↦ record w {
          sector_cache =
              cache_size dev e.sector ((cached dev e.sector w.sector_cache + size) % 2 ^ 64)
                w.sector_cache;
          written = io_operation_begin (convert e.time) dev mode size e.sector ∷ w.written;
        }
      ]

  unfoldable pub write_issue : BlockRecord → BioWriter → BioWriter
  write_issue e w =
      let dev = device_of e in
      if is_none (lookup dev w.sector_cache)
        || is_none (lookup e.sector (sectors dev w.sector_cache))
      then w
      else record w { written = io_operation_issued (convert e.time) dev e.sector ∷ w.written }

  -- The test for an unknown device makes an entry for it.
  unfoldable pub write_complete : BlockRecord → BioWriter → BioWriter
  write_complete e w =
      let dev = device_of e in
      elim (lookup dev w.sector_cache) [
        | none ↦ record w { sector_cache = assign dev [] w.sector_cache }
        | some m ↦ record w {
          sector_cache = cache_size dev e.sector 0 w.sector_cache;
          written =
              io_operation_complete (convert e.time) dev (cached dev e.sector w.sector_cache)
                e.sector
              ∷ w.written;
        }
      ]

  unfoldable pub write : IoReaderIdentity → BlockRecord → BioWriter → Result BioWriter
  write identity e w =
      if is_tracepoint identity.tracepoint w.bio_queue
      then ok (write_queue e w)
      else if is_tracepoint identity.tracepoint w.bio_issue
      then ok (write_issue e w)
      else if is_tracepoint identity.tracepoint w.bio_complete
      then ok (write_complete e w)
      else err Fault.runtime_error
