-- ===== src/MultiReader.antt =====
-- include/lo2s/perf/multi_reader.hpp, `MultiReader<Writer>`: the events of many ring buffers, merged
-- by their time. The writer, its `write` and the event's `time` are parameters. `readers_` has the
-- readers in the order of the map; an `IoReaderIdentity` is its place there, and `keys` has
-- the identity at each place. A reader holds what is in its ring when `read` starts.
pub mod Queue
pub mod Merge
pub mod Drain
pub mod Current
pub mod Fill
pub mod Ascending
pub mod Read
mod Tests
use lo2s.Shared.{
  ℕ, zero, suc, ◌+◌, Bool, true, false, Option, none, some, List, [], ◌∷◌, length, get_elem?, set,
  ltb, ◌==◌, ◌&&◌, ℤ, eq_ℤ, ltb_ℤ, if◌then◌else◌, Result, ok, err, Fault, ◌>>=◌,
}

-- `EventAttr`, by the number that its bytes are in the order of `memcmp`. `operator<` of
-- include/lo2s/perf/event_attr.hpp has its two sides swapped.
unfoldable pub attr_lt : ℕ → ℕ → Bool
attr_lt a b = ltb b a

unfoldable pub attr_gt : ℕ → ℕ → Bool
attr_gt a b = ltb b a

pub record IoReaderIdentity : Type 0 where
  pub tracepoint : ℕ
  pub cpu : ℤ

-- The operators `>`, `==` and `<` of include/lo2s/perf/io_reader.hpp.
unfoldable pub identity_gt : IoReaderIdentity → IoReaderIdentity → Bool
identity_gt a b = if eq_ℤ a.cpu b.cpu then attr_gt a.tracepoint b.tracepoint else ltb_ℤ b.cpu a.cpu

unfoldable pub identity_eq : IoReaderIdentity → IoReaderIdentity → Bool
identity_eq a b = eq_ℤ a.cpu b.cpu && a.tracepoint == b.tracepoint

unfoldable pub identity_lt : IoReaderIdentity → IoReaderIdentity → Bool
identity_lt a b = if eq_ℤ a.cpu b.cpu then attr_lt a.tracepoint b.tracepoint else ltb_ℤ a.cpu b.cpu

pub record ReaderState : Type 0 where
  pub time : ℕ
  pub identity : ℕ

-- `operator>` of ReaderState.
unfoldable pub greater : (ℕ → IoReaderIdentity) → ReaderState → ReaderState → Bool
greater keys a b =
    if a.time == b.time then identity_gt (keys a.identity) (keys b.identity) else ltb b.time a.time

-- `earliest_available.push`: the priority queue is the list of its entries, the least first.
unfoldable pub push : (ℕ → IoReaderIdentity) → ReaderState → List ReaderState → List ReaderState
push keys s [] = s ∷ []
push keys s (x ∷ q) = let later = push keys s q in if greater keys s x then x ∷ later else s ∷ x ∷ q

pub record MultiReader (Event Writer : Type 0) : Type 0 where
  pub readers : List (List Event)
  pub highest_written : ℕ
  pub warnings : ℕ
  pub writer : Writer

-- Where the inner loop leaves the queue, the current reader and the rest.
pub record Round (Event Writer : Type 0) : Type 0 where
  pub queue : List ReaderState
  pub rest : List Event
  pub highest : ℕ
  pub warned : ℕ
  pub writer : Writer

-- `!earliest_available.empty() && event->time > earliest_available.top().time`
unfoldable pub must_wait : ℕ → List ReaderState → Bool
must_wait t [] = false
must_wait t (s ∷ q) = ltb s.time t

module _ {Event : Type 0} (keys : ℕ → IoReaderIdentity) (time : Event → ℕ) where
  -- The first loop of `read`, from the reader at place `i` on.
  unfoldable pub fill : ℕ → List (List Event) → List ReaderState → List ReaderState
  fill i [] q = q
  fill i ([] ∷ rs) q = fill (i + 1) rs q
  fill i ((e ∷ es) ∷ rs) q = fill (i + 1) rs (push keys (record { time = time e; identity = i }) q)

module _ {Event Writer : Type 0} (keys : ℕ → IoReaderIdentity) (time : Event → ℕ)
    (write : ℕ → Event → Writer → Result Writer) where
  -- The inner `while`, over the events of the reader `i`.
  unfoldable pub drain :
      ℕ → List ReaderState → List Event → ℕ → ℕ → Writer → Result (Round Event Writer)
  drain i q [] h n w = ok (record { queue = q; rest = []; highest = h; warned = n; writer = w })
  drain i q (e ∷ es) h n w = elim (must_wait (time e) q) [
    | true ↦ ok (record {
      queue = push keys (record { time = time e; identity = i }) q;
      rest = e ∷ es;
      highest = h;
      warned = n;
      writer = w;
    })
    | false ↦ elim (ltb (time e) h) [
      | true ↦ drain i q es h (n + 1) w
      | false ↦ write i e w >>= drain i q es (time e) n
    ]
  ]

  -- The outer `while`, for at most `fuel` rounds.
  unfoldable pub read_loop :
      ℕ → List ReaderState → MultiReader Event Writer → Result (MultiReader Event Writer)
  read_loop zero q m = ok m
  read_loop (suc fuel) [] m = ok m
  read_loop (suc fuel) (s ∷ q) m = elim (get_elem? m.readers s.identity) [
    | none ↦ err Fault.out_of_range
    | some es ↦ drain s.identity q es m.highest_written m.warnings m.writer >>= λ r.
        read_loop fuel r.queue (record {
          readers = set m.readers s.identity r.rest;
          highest_written = r.highest;
          warnings = r.warned;
          writer = r.writer;
        })
  ]

-- The number of events that are there to be read.
abbrev pub total : {Event : Type 0} → List (List Event) → ℕ
total [] = 0
total (es ∷ rs) = length es + total rs

-- `read()`
unfoldable pub read :
    {Event Writer : Type 0}
    → (keys : ℕ → IoReaderIdentity) (time : Event → ℕ) (write : ℕ → Event → Writer → Result Writer)
    → MultiReader Event Writer
    → Result (MultiReader Event Writer)
read keys time write m =
    read_loop keys time write (total m.readers) (fill keys time 0 m.readers []) m
