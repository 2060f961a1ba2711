-- ===== src/Bio/Tests.antt =====
-- Concrete block events of src/perf/bio/writer.cpp: the lemmas' hypotheses hold on them.
use lo2s.Shared.{zero, suc, Result, err, ℕ, ◌+◌, ◌*◌, ◌≡◌, pos, inl, inr, refl, some, [], ◌∷◌, ok}
use lo2s.MultiReader.{
  IoReaderIdentity, MultiReader, total, read, fill, push, greater, read_loop, drain, must_wait,
  identity_gt, attr_gt,
}
use lo2s.Bio.{
  BlockRecord, BioWriter, io_operation_complete, is_tracepoint, write, write_queue, write_issue,
  write_complete, device_of, mode_of, write_mode, io_operation_begin,
}
use lo2s.Bio.Pending.{IsSound, pending, write-IsSound, write_complete_unknown}
use lo2s.Bio.Merge.{Known, Ordered, bio_read-Written}

abbrev clock : ℕ → ℕ
clock perf = perf

abbrev device : ℕ → ℕ → ℕ
device major minor = major * 256 + minor

abbrev idle : BioWriter
idle = record {
  bio_queue = some 0;
  bio_issue = some 1;
  bio_complete = some 2;
  sector_cache = [];
  written = [];
}

abbrev keys : ℕ → IoReaderIdentity
keys zero = record { tracepoint = 0; cpu = pos 0 }
keys (suc zero) = record { tracepoint = 1; cpu = pos 0 }
keys (suc (suc i)) = record { tracepoint = 2; cpu = pos 0 }

-- A write of two sectors.
abbrev at_time : ℕ → BlockRecord
at_time t = record { time = t; dev = 8388609; sector = 7; nr_sector = 2; rwbs = 87 }

idle-IsSound : IsSound idle
unfolding pending
idle-IsSound = record { cache = λ d s. refl; sound = tt }

abbrev merged : MultiReader BlockRecord BioWriter
merged = record {
  readers = (at_time 1 ∷ at_time 6 ∷ []) ∷ (at_time 3 ∷ []) ∷ (at_time 5 ∷ at_time 2 ∷ []) ∷ [];
  highest_written = 0;
  warnings = 0;
  writer = idle;
}

keys-Known : (i : ℕ) → Known (keys i) idle
unfolding is_tracepoint
keys-Known zero = inl refl
keys-Known (suc zero) = inr (inl refl)
keys-Known (suc (suc i)) = inr (inr refl)

bio_read-Written_example :
    (m' : MultiReader BlockRecord BioWriter) × (read keys BlockRecord.time
        (λ i e. write clock device (keys i) e)
        merged
      ≡ ok m')
    × (total m'.readers ≡ 0)
    × Ordered (clock m'.highest_written) m'.writer.written
    × IsSound m'.writer
bio_read-Written_example =
    bio_read-Written clock device keys (λ a b h. h) merged keys-Known idle-IsSound tt

abbrev warnings_of : Result (MultiReader BlockRecord BioWriter) → ℕ
warnings_of (ok m) = m.warnings
warnings_of (err fault) = 0

-- The last event of the third reader is late: it is lost, and is a warning.
late_lem :
    warnings_of (read keys BlockRecord.time (λ i e. write clock device (keys i) e) merged) ≡ 1
unfolding read fill push greater read_loop drain must_wait write is_tracepoint write_queue
    write_issue write_complete mode_of device_of identity_gt attr_gt
late_lem = refl

abbrev queued : BioWriter
queued = record idle {
  sector_cache = (2049, (7, 1024) ∷ []) ∷ [];
  written = io_operation_begin 1 2049 write_mode 1024 7 ∷ [];
}

queue_lem : write clock device (keys 0) (at_time 1) idle ≡ ok queued
unfolding write is_tracepoint write_queue mode_of device_of
queue_lem = refl

write-IsSound_example : IsSound queued
write-IsSound_example =
    write-IsSound clock device (keys 0) (at_time 1) idle queued idle-IsSound queue_lem

write_complete_unknown_example :
    ((write_complete clock device (at_time 5) idle).written ≡ [])
    × ((write_complete clock device
          (at_time 5)
          (write_complete clock device (at_time 5) idle)).written
        ≡ io_operation_complete 5 (device_of clock device (at_time 5)) 0 7 ∷ [])
write_complete_unknown_example = write_complete_unknown clock device (at_time 5) idle refl
