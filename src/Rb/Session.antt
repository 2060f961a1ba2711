-- ===== src/Rb/Session.antt =====
-- The ring of src/rb/ as its two processes use it: writes and reads in any order, against a queue
-- of events.
use lo2s.Shared.{
  ℕ, ◌+◌, ◌*◌, ◌%◌, ◌^◌, ◌≤◌, ◌<◌, ◌≡◌, ◌≢◌, inl, inr, refl, Bool, true, Option, none, some, List,
  [], ◌∷◌, ◌++◌, ltb, if◌then◌else◌, Bool-cases, ltb→lt, Result, ok, ◌>>=◌, arith,
}
use lo2s.Rb.{ShmRingbuf}
use lo2s.Rb.Offsets.{Payload, IsEvent, type_of, room, space, Holds}
use lo2s.Rb.Writer.{RingbufWriter, put}
use lo2s.Rb.Reader.{init, take}
use lo2s.Rb.Fifo.{after_put, put_lem, put_refused, after_put-Holds, wrap_lem}
use lo2s.Rb.Drain.{take-nil, take-cons, after_pop-Holds}

-- What either side does next, and what it sees.
pub data Op : Type 0 where
  write : Payload → Op
  read : Op

pub data Reply : Type 0 where
  written : Bool → Reply
  taken : Option (ℕ × Payload) → Reply

abbrev pub idle : ShmRingbuf → RingbufWriter
idle rb = record { rb = rb; reserved_size = 0 }

pub run : RingbufWriter → List Op → Result (List Reply)
run w [] = ok []
run w (write p ∷ ops) = do (done, w') ← put w p; rest ← run w' ops; ok (written done ∷ rest)
run w (read ∷ ops) = do
  (ev, rb) ← take w.rb
  rest ← run (record w { rb = rb }) ops
  ok (taken ev ∷ rest)

-- The queue that the ring stands for: at most `size - 1` bytes of events, first in, first out.
module _ (size : ℕ) where
  unfoldable pub run_queue : List Payload → List Op → List Reply
  run_queue q [] = []
  run_queue q (write p ∷ ops) =
      let fits = ltb (space q + room p) size in
      written fits ∷ run_queue (if fits then q ++ p ∷ [] else q) ops
  run_queue [] (read ∷ ops) = taken none ∷ run_queue [] ops
  run_queue (p ∷ q) (read ∷ ops) = taken (some (type_of p, p)) ∷ run_queue q ops

  -- No write would fill the ring to the last byte.
  abbrev pub NeverFull : List Payload → List Op → Type 0
  NeverFull q [] = Unit {0}
  NeverFull q (write p ∷ ops) =
      IsEvent p
      × (space q + room p ≢ size)
      × NeverFull (if ltb (space q + room p) size then q ++ p ∷ [] else q) ops
  NeverFull [] (read ∷ ops) = NeverFull [] ops
  NeverFull (p ∷ q) (read ∷ ops) = NeverFull q ops

-- As long as no write fills the ring to the last byte, no sequence of writes and reads fails an
-- assertion or throws, and none tells the ring from a queue of events: a write is accepted exactly
-- if it fits, and reads return the events in order, whole and once.
pub run_refines :
    (ops : List Op) {rb : ShmRingbuf} {q : List Payload}
    → Holds rb q
    → NeverFull rb.header.size q ops
    → run (idle rb) ops ≡ ok (run_queue rb.header.size q ops)
unfolding run run_queue
run_refines [] h n = refl
run_refines (write p ∷ ops) {rb} {q} h n =
    elim (Bool-cases (ltb (space q + room p) rb.header.size)) [
      | inl fits ↦ rw (
        put_lem h p n.0 (omega (arith, ltb→lt (space q + room p) rb.header.size fits))
            (inl (ltb→lt _ _ fits)),
        fits,
        run_refines ops (after_put-Holds h p n.0 (ltb→lt _ _ fits)) (rw fits at (n.2)),
      )
      | inr full ↦
          rw (put_refused h p n.0 (inl (ground arith)), full, run_refines ops h (rw full at (n.2)))
    ]
run_refines (read ∷ ops) {q = []} h n = rw (take-nil h, run_refines ops h n)
run_refines (read ∷ ops) {q = p ∷ q} h n = rw (take-cons h, run_refines ops (after_pop-Holds h) n)

-- A write that fills the ring to the last byte, with `head` at or behind `tail`, is accepted, and
-- the reader then finds the ring empty: that event and all the events before it are lost.
pub put-full_loses :
    {rb : ShmRingbuf} {q : List Payload}
    → Holds rb q
    → (p : Payload) → IsEvent p
    → space q + room p ≡ rb.header.size
    → rb.header.tail ≤ rb.header.head
    → (put (idle rb) p ≡ ok (true, idle (after_put rb p)))
      × (take (after_put rb p) ≡ ok (none, after_put rb p))
      × Holds (after_put rb p) []
put-full_loses {rb} {q} h p e full above =
    (put_lem h p e (omega arith) (inr above), take-nil lost, lost)
  where
    met : (rb.header.head + room p) % rb.header.size ≡ rb.header.tail
    met = ground (
      arith,
      h.between,
      h.tail_in,
      h.spare,
      wrap_lem rb.header.size (rb.header.head + room p) (omega (arith, h.head_in)),
    )

    lost : Holds (after_put rb p) []
    lost = record {
      size_aligned = h.size_aligned;
      size_small = h.size_small;
      start_aligned = h.start_aligned;
      mapped = h.mapped;
      head_aligned = rw met h.tail_aligned;
      tail_aligned = h.tail_aligned;
      head_in = rw met h.tail_in;
      tail_in = h.tail_in;
      spare = omega (arith, h.spare);
      between = omega (arith, met);
      events = tt;
      sized = tt;
    }

-- What the reader's constructor makes holds no event.
pub init-Holds :
    (pagesize start clockid : ℕ) {rb : ShmRingbuf}
    → pagesize % 8 ≡ 0
    → 0 < pagesize
    → pagesize * 32 ≤ 2 ^ 62
    → start % 8 ≡ 0
    → start ≤ 2 ^ 62
    → init pagesize start clockid ≡ ok rb
    → Holds rb []
unfolding init
init-Holds pagesize start clockid a b c d f e = ground arith
