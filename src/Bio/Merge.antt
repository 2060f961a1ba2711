-- ===== src/Bio/Merge.antt =====
-- The writer of src/perf/bio/writer.cpp behind the merge of include/lo2s/perf/multi_reader.hpp.
use lo2s.Shared.{
  ℕ, ◌+◌, ◌≤◌, ◌≡◌, ◌⊎◌, inl, inr, refl, ◌∙◌, true, false, Bool-cases, Option-cases, List, [], ◌∷◌,
  Result, ok, lookup, arith, ◌||◌,
}
use lo2s.MultiReader.{IoReaderIdentity, MultiReader, total, read}
use lo2s.MultiReader.Merge.{write_all, Rising, Merged-Rising}
use lo2s.MultiReader.Read.{read-Reads}
use lo2s.Bio.{
  BlockRecord, IoEvent, io_operation_begin, io_operation_issued, io_operation_complete, BioWriter,
  sectors, is_none, is_tracepoint, mode_of, device_of, write_queue, write_issue, write_complete,
  write,
}
use lo2s.Bio.Pending.{IsSound, write-IsSound}

abbrev pub time_of : IoEvent → ℕ
time_of (io_operation_begin tp dev mode size sector) = tp
time_of (io_operation_issued tp dev sector) = tp
time_of (io_operation_complete tp dev size sector) = tp

-- Time points that never decrease, up to `last`; the newest event is first.
abbrev pub Ordered : ℕ → List IoEvent → Type 0
Ordered last [] = Unit {0}
Ordered last (e ∷ es) = (time_of e ≤ last) × Ordered (time_of e) es

raise : (a b : ℕ) (es : List IoEvent) → a ≤ b → Ordered a es → Ordered b es
raise a b [] h o = tt
raise a b (e ∷ es) h o = (omega (arith, o.0), o.1)

-- A reader of one of the writer's tracepoints.
abbrev pub Known : IoReaderIdentity → BioWriter → Type 0
Known identity w =
    (is_tracepoint identity.tracepoint w.bio_queue ≡ true)
    ⊎ (is_tracepoint identity.tracepoint w.bio_issue ≡ true)
    ⊎ (is_tracepoint identity.tracepoint w.bio_complete ≡ true)

-- The same tracepoints, and events in order.
pub record Kept (w : BioWriter) (last : ℕ) (w' : BioWriter) : Type 0 where
  pub queue : w'.bio_queue ≡ w.bio_queue
  pub issue : w'.bio_issue ≡ w.bio_issue
  pub complete : w'.bio_complete ≡ w.bio_complete
  pub ordered : Ordered last w'.written

module _ (convert : ℕ → ℕ) (makedev : ℕ → ℕ → ℕ) where
  queue-Kept :
      (e : BlockRecord) (w : BioWriter)
      → Ordered (convert e.time) w.written
      → Kept w (convert e.time) (write_queue convert makedev e w)
  unfolding write_queue
  queue-Kept e w o = elim (Option-cases (mode_of e.rwbs)) [
    | inl n ↦
        rw (n, write_queue) (record { queue = refl; issue = refl; complete = refl; ordered = o })
    | inr (mode, f) ↦
        rw (f, write_queue)
          (record { queue = refl; issue = refl; complete = refl; ordered = (omega arith, o) })
  ]

  issue-Kept :
      (e : BlockRecord) (w : BioWriter)
      → Ordered (convert e.time) w.written
      → Kept w (convert e.time) (write_issue convert makedev e w)
  unfolding write_issue
  issue-Kept e w o =
      elim (Bool-cases (
        is_none (lookup (device_of convert makedev e) w.sector_cache)
        || is_none (lookup e.sector (sectors (device_of convert makedev e) w.sector_cache)))) [
          | inl n ↦
              rw (n, write_issue)
                (record { queue = refl; issue = refl; complete = refl; ordered = o })
          | inr n ↦
              rw (n, write_issue)
                (record { queue = refl; issue = refl; complete = refl; ordered = (omega arith, o) })
        ]

  complete-Kept :
      (e : BlockRecord) (w : BioWriter)
      → Ordered (convert e.time) w.written
      → Kept w (convert e.time) (write_complete convert makedev e w)
  unfolding write_complete
  complete-Kept e w o = elim (Option-cases (lookup (device_of convert makedev e) w.sector_cache)) [
    | inl n ↦
        rw (n, write_complete) (record { queue = refl; issue = refl; complete = refl; ordered = o })
    | inr (m, f) ↦
        rw (f, write_complete)
          (record { queue = refl; issue = refl; complete = refl; ordered = (omega arith, o) })
  ]

  write-Known :
      (identity : IoReaderIdentity) (e : BlockRecord) (w : BioWriter)
      → Known identity w
      → Ordered (convert e.time) w.written
      → (w' : BioWriter) × (write convert makedev identity e w ≡ ok w') × Kept w (convert e.time) w'
  unfolding write
  write-Known identity e w k o = elim (Bool-cases (is_tracepoint identity.tracepoint w.bio_queue)) [
    | inl q ↦ (write_queue convert makedev e w, rw (q, write) refl, queue-Kept e w o)
    | inr q ↦ elim (Bool-cases (is_tracepoint identity.tracepoint w.bio_issue)) [
      | inl i ↦ (write_issue convert makedev e w, rw (q, i, write) refl, issue-Kept e w o)
      | inr i ↦ (
        write_complete convert makedev e w,
        rw (q, i, last k q i, write) refl,
        complete-Kept e w o,
      )
    ]
  ]
    where
      last :
          Known identity w
          → is_tracepoint identity.tracepoint w.bio_queue ≡ false
          → is_tracepoint identity.tracepoint w.bio_issue ≡ false
          → is_tracepoint identity.tracepoint w.bio_complete ≡ true
      last k q i = ground (arith, k, q, i)

  Kept-Known :
      (identity : IoReaderIdentity) (w w' : BioWriter) (last : ℕ)
      → Kept w last w'
      → Known identity w
      → Known identity w'
  Kept-Known identity w w' last k u = rw (k.queue, k.issue, k.complete) u

  -- The calls of a merge.
  pub record Written (keys : ℕ → IoReaderIdentity) (last : ℕ) (outcome : Result BioWriter)
      : Type 0 where
    pub next : BioWriter
    pub result : outcome ≡ ok next
    pub sound : IsSound next
    pub ordered : Ordered (convert last) next.written

  calls-Written :
      (keys : ℕ → IoReaderIdentity)
      → ((a b : ℕ) → a ≤ b → convert a ≤ convert b)
      → (h last : ℕ) (calls : List (ℕ × BlockRecord)) (w : BioWriter)
      → Rising BlockRecord.time h calls last
      → ((i : ℕ) → Known (keys i) w)
      → IsSound w
      → Ordered (convert h) w.written
      → Written keys last
          (write_all BlockRecord.time (λ i e. write convert makedev (keys i) e) calls w)
  unfolding write_all
  calls-Written keys mono h last [] w r k s o = record {
    next = w;
    result = refl;
    sound = s;
    ordered = rw r o;
  }
  calls-Written keys mono h last ((i, e) ∷ calls) w r k s o =
      let (w1, f, g) =
        write-Known (keys i) e w (k i)
          (raise (convert h) (convert e.time) w.written (mono h e.time r.0) o) in
      let later =
        calls-Written keys mono e.time last calls w1 r.1
          (λ j. Kept-Known (keys j) w w1 (convert e.time) g (k j))
          (write-IsSound convert makedev (keys i) e w w1 s f) g.ordered in
      record {
        next = later.next;
        result = rw f (later.result);
        sound = later.sound;
        ordered = later.ordered;
      }

  -- If every reader is of one of the writer's three tracepoints, the conversion keeps the order of
  -- times, and the writer's events are in order and sound, then reading the block events of all
  -- CPUs succeeds, whatever the readers hold: all are then empty, the I/O operations of the trace
  -- have time points that do not decrease, and each completion has the size that was pending.
  pub bio_read-Written :
      (keys : ℕ → IoReaderIdentity)
      → ((a b : ℕ) → a ≤ b → convert a ≤ convert b)
      → (m : MultiReader BlockRecord BioWriter) → ((i : ℕ) → Known (keys i) m.writer)
      → IsSound m.writer
      → Ordered (convert m.highest_written) m.writer.written
      → (m' : MultiReader BlockRecord BioWriter) × (read keys BlockRecord.time
            (λ i e. write convert makedev (keys i) e)
            m
          ≡ ok m')
        × (total m'.readers ≡ 0)
        × Ordered (convert m'.highest_written) m'.writer.written
        × IsSound m'.writer
  bio_read-Written keys mono m k s o =
      let r = read-Reads keys BlockRecord.time (λ i e. write convert makedev (keys i) e) m in
      let c =
        calls-Written keys mono m.highest_written r.highest r.calls m.writer
          (Merged-Rising BlockRecord.time _ _ _ _ r.calls r.lost r.merged) k s o in
      (
        record {
          readers = r.readers;
          highest_written = r.highest;
          warnings = m.warnings + r.lost;
          writer = c.next;
        },
        r.calls_lem ∙ rw (c.result) refl,
        r.drained,
        c.ordered,
        c.sound,
      )
