-- ===== src/Bio/Pending.antt =====
-- The sizes that src/perf/bio/writer.cpp reports: what was begun and is not complete.
use lo2s.Shared.{
  ℕ, ◌+◌, ◌*◌, ◌%◌, ◌^◌, ◌≡◌, inl, inr, Bool-cases, none, Option-cases, List, [], ◌∷◌, ◌==◌, ◌&&◌,
  ◌||◌, if◌then◌else◌, ok, err, lookup, assign, lookup-assign, ok_inj, Fault, ◌∙◌, arith,
}
use lo2s.MultiReader.{IoReaderIdentity}
use lo2s.Bio.{
  BlockRecord, IoEvent, io_operation_begin, io_operation_issued, io_operation_complete, BioWriter,
  sectors, cached, cache_size, is_none, is_tracepoint, mode_of, device_of, write_queue, write_issue,
  write_complete, write,
}

-- The bytes of a sector that the trace has begun since it was last complete.
unfoldable pub pending : ℕ → ℕ → List IoEvent → ℕ
pending d s [] = 0
pending d s (io_operation_begin tp dev mode size sector ∷ es) =
    let before = pending d s es in
    if dev == d && sector == s then (before + size) % 2 ^ 64 else before
pending d s (io_operation_issued tp dev sector ∷ es) = pending d s es
pending d s (io_operation_complete tp dev size sector ∷ es) =
    let before = pending d s es in if dev == d && sector == s then 0 else before

-- Every operation that is complete has the size that was pending.
abbrev pub Sound : List IoEvent → Type 0
Sound [] = Unit {0}
Sound (io_operation_begin tp dev mode size sector ∷ es) = Sound es
Sound (io_operation_issued tp dev sector ∷ es) = Sound es
Sound (io_operation_complete tp dev size sector ∷ es) = (size ≡ pending dev sector es) × Sound es

pub record IsSound (w : BioWriter) : Type 0 where
  pub cache : (d s : ℕ) → cached d s w.sector_cache ≡ pending d s w.written
  pub sound : Sound w.written

cached-size :
    (dev sector size d s : ℕ) (cache : List (ℕ × List (ℕ × ℕ)))
    → cached d s (cache_size dev sector size cache)
      ≡ (if dev == d && sector == s then size else cached d s cache)
cached-size dev sector size d s cache = ground (
  arith,
  lookup-assign dev d (assign sector size (sectors dev cache)) cache,
  lookup-assign sector s size (sectors dev cache),
)

cached-assign_nil :
    (dev d s : ℕ) (cache : List (ℕ × List (ℕ × ℕ)))
    → lookup dev cache ≡ none
    → cached d s (assign dev [] cache) ≡ cached d s cache
cached-assign_nil dev d s cache e = ground (arith, lookup-assign dev d [] cache, e)

module _ (convert : ℕ → ℕ) (makedev : ℕ → ℕ → ℕ) where
  write_queue-IsSound :
      (e : BlockRecord) (w : BioWriter) → IsSound w → IsSound (write_queue convert makedev e w)
  unfolding write_queue pending
  write_queue-IsSound e w v = elim (Option-cases (mode_of e.rwbs)) [
    | inl n ↦ rw (n, write_queue) v
    | inr (mode, f) ↦
        rw (f, write_queue)
          (record {
            cache = λ d s. ground (
              arith,
              v.cache d s,
              cached-size (device_of convert makedev e) e.sector
                  ((cached (device_of convert makedev e) e.sector w.sector_cache
                      + e.nr_sector * 512 % 2 ^ 32)
                    % 2 ^ 64)
                  d s w.sector_cache,
            );
            sound = v.sound;
          })
  ]

  write_issue-IsSound :
      (e : BlockRecord) (w : BioWriter) → IsSound w → IsSound (write_issue convert makedev e w)
  unfolding write_issue pending
  write_issue-IsSound e w v =
      elim (Bool-cases (
        is_none (lookup (device_of convert makedev e) w.sector_cache)
        || is_none (lookup e.sector (sectors (device_of convert makedev e) w.sector_cache)))) [
          | inl n ↦ rw n v
          | inr n ↦ rw n (record { cache = v.cache; sound = v.sound })
        ]

  write_complete-IsSound :
      (e : BlockRecord) (w : BioWriter) → IsSound w → IsSound (write_complete convert makedev e w)
  unfolding write_complete pending
  write_complete-IsSound e w v =
      elim (Option-cases (lookup (device_of convert makedev e) w.sector_cache)) [
        | inl n ↦
            rw (n, write_complete)
              (record {
                cache = λ d s.
                    cached-assign_nil (device_of convert makedev e) d s w.sector_cache n
                    ∙ v.cache d s;
                sound = v.sound;
              })
        | inr (m, f) ↦
            rw (f, write_complete)
              (record {
                cache = λ d s. ground (
                  arith,
                  v.cache d s,
                  cached-size (device_of convert makedev e) e.sector 0 d s w.sector_cache,
                );
                sound = (v.cache (device_of convert makedev e) e.sector, v.sound);
              })
      ]

  -- If what is cached for every sector is what the trace has pending for it, and every complete
  -- operation of the trace has the size that was pending, then both hold again behind every event
  -- that is written: a completion reports the bytes that were begun for that sector and that device
  -- since the last completion, modulo the width of the number.
  pub write-IsSound :
      (identity : IoReaderIdentity) (e : BlockRecord) (w w' : BioWriter)
      → IsSound w
      → write convert makedev identity e w ≡ ok w'
      → IsSound w'
  unfolding write
  write-IsSound identity e w w' v h =
      elim (Bool-cases (is_tracepoint identity.tracepoint w.bio_queue)) [
        | inl q ↦ rw (ok_inj _ _ (rw (q, write) at h)) at (write_queue-IsSound e w v)
        | inr q ↦ elim (Bool-cases (is_tracepoint identity.tracepoint w.bio_issue)) [
          | inl i ↦ rw (ok_inj _ _ (rw (q, i, write) at h)) at (write_issue-IsSound e w v)
          | inr i ↦ elim (Bool-cases (is_tracepoint identity.tracepoint w.bio_complete)) [
            | inl c ↦ rw (ok_inj _ _ (rw (q, i, c, write) at h)) at (write_complete-IsSound e w v)
            | inr c ↦ absurd (no_fault w' (rw (q, i, c, write) at h))
          ]
        ]
      ]
    where
      no_fault : (w' : BioWriter) → err Fault.runtime_error ≡ ok w' → ⊥
      no_fault w' f = cc

  -- A completion for a device that is not known writes nothing. A second one for the same sector
  -- is written with no bytes, though nothing was ever begun on that device.
  pub write_complete_unknown :
      (e : BlockRecord) (w : BioWriter)
      → lookup (device_of convert makedev e) w.sector_cache ≡ none
      → ((write_complete convert makedev e w).written ≡ w.written)
        × ((write_complete convert makedev e (write_complete convert makedev e w)).written
            ≡ io_operation_complete (convert e.time) (device_of convert makedev e) 0 e.sector
              ∷ w.written)
  unfolding write_complete
  write_complete_unknown e w n = (
    ground (arith, n),
    ground (
      arith,
      n,
      lookup-assign (device_of convert makedev e) (device_of convert makedev e) [] w.sector_cache,
    ),
  )
