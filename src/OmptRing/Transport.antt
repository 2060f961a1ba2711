-- ===== src/OmptRing/Transport.antt =====
-- The ring between include/lo2s/ompt/ringbuf.hpp and src/monitor/openmp_monitor.cpp transports events.
use lo2s.Shared.{
  ℕ, zero, suc, ◌+◌, ◌<◌, ◌^◌, ◌≡◌, inl, refl, ◌∙◌, ap, List, [], ◌∷◌, ◌++◌, All, length, map, ok,
  ◌>>=◌, bind_split, arith,
}
use lo2s.Ompt.{OmpType, omp_type_value, OmptCctx}
use lo2s.Rb.{ShmRingbuf}
use lo2s.Rb.Memory.{encode_le}
use lo2s.Rb.Offsets.{Payload, IsEvent, type_of, room, space, Holds}
use lo2s.Rb.Fifo.{space-append, after_put, put_lem, after_put-Holds}
use lo2s.Rb.Drain.{take-nil, take-cons, after_pop, after_pop-Holds}
use lo2s.Rb.Session.{idle}
use lo2s.Rb.Words.{words, word_at, word_at-zero, word_at-suc}
use lo2s.OmptMonitor.{OmptEvent, ompt_enter, ompt_exit, unknown, OmptMonitor, handle, monitor}
use lo2s.OmptRing.{
  encode_fields, write_enter, write_leave, omp_type_from, read_cctx, read_event, write_events,
  monitor_ring,
}

-- An event whose fields are `uint64_t`.
abbrev pub IsOmpt : OmptEvent → Type 0
IsOmpt (ompt_enter tp c) =
    (tp < 2 ^ 64) × (c.tid < 2 ^ 64) × (c.addr < 2 ^ 64) × (c.num_threads < 2 ^ 64)
IsOmpt (ompt_exit tp c) =
    (tp < 2 ^ 64) × (c.tid < 2 ^ 64) × (c.addr < 2 ^ 64) × (c.num_threads < 2 ^ 64)
IsOmpt unknown = ⊥

-- The event as it is in the ring.
unfoldable pub payload : OmptEvent → Payload
payload (ompt_enter tp c) = encode_fields 0 tp c
payload (ompt_exit tp c) = encode_fields 1 tp c
payload unknown = []

omp_type-round : (t : OmpType) → omp_type_from (omp_type_value t) ≡ t
unfolding omp_type_from omp_type_value
omp_type-round t = ground arith

omp_type_small : (t : OmpType) → omp_type_value t < 2 ^ 64
unfolding omp_type_value
omp_type_small t = ground arith

cctx_ext :
    (x y : OmptCctx)
    → x.type ≡ y.type
    → x.tid ≡ y.tid
    → x.addr ≡ y.addr
    → x.num_threads ≡ y.num_threads
    → x ≡ y
cctx_ext x y e f g h = cc

module _ (type tp : ℕ) (c : OmptCctx) (k : type < 2 ^ 64) (a : tp < 2 ^ 64) (b : c.tid < 2 ^ 64)
    (d : c.addr < 2 ^ 64) (n : c.num_threads < 2 ^ 64) where
  type_lem : type_of (encode_fields type tp c) ≡ type
  unfolding encode_fields words word_at
  type_lem =
      word_at-zero type
        (words (tp ∷ omp_type_value c.type ∷ c.tid ∷ c.addr ∷ c.num_threads ∷ []) []) k

  tp_lem : word_at 1 (encode_fields type tp c) ≡ tp
  unfolding encode_fields words
  tp_lem = word_at-suc 0 type _ ∙ word_at-zero tp _ a

  cctx_lem : read_cctx (encode_fields type tp c) ≡ c
  unfolding read_cctx encode_fields words
  cctx_lem =
      cctx_ext _ c
        (ap omp_type_from (
            word_at-suc 1 type _
            ∙ word_at-suc 0 tp _
            ∙ word_at-zero (omp_type_value c.type) _ (omp_type_small c.type))
          ∙ omp_type-round c.type)
        (word_at-suc 2 type _
          ∙ word_at-suc 1 tp _
          ∙ word_at-suc 0 (omp_type_value c.type) _
          ∙ word_at-zero c.tid _ b)
        (word_at-suc 3 type _
          ∙ word_at-suc 2 tp _
          ∙ word_at-suc 1 (omp_type_value c.type) _
          ∙ word_at-suc 0 c.tid _
          ∙ word_at-zero c.addr _ d)
        (word_at-suc 4 type _
          ∙ word_at-suc 3 tp _
          ∙ word_at-suc 2 (omp_type_value c.type) _
          ∙ word_at-suc 1 c.tid _
          ∙ word_at-suc 0 c.addr _
          ∙ word_at-zero c.num_threads _ n)

-- What the monitor reads is what the library wrote.
pub read_event-payload :
    (e : OmptEvent) → IsOmpt e → read_event (type_of (payload e)) (payload e) ≡ e
unfolding read_event payload
read_event-payload (ompt_enter tp c) h =
    rw
      (
        type_lem 0 tp c (omega arith) h.0 h.1 h.2 h.3,
        tp_lem 0 tp c (omega arith) h.0 h.1 h.2 h.3,
        cctx_lem 0 tp c (omega arith) h.0 h.1 h.2 h.3,
      )
      refl
read_event-payload (ompt_exit tp c) h =
    rw
      (
        type_lem 1 tp c (omega arith) h.0 h.1 h.2 h.3,
        tp_lem 1 tp c (omega arith) h.0 h.1 h.2 h.3,
        cctx_lem 1 tp c (omega arith) h.0 h.1 h.2 h.3,
      )
      refl
read_event-payload unknown h = elim h [ ]

length_lem : (type tp : ℕ) (c : OmptCctx) → length (encode_fields type tp c) ≡ 48
unfolding encode_fields words encode_le
length_lem type tp c = refl

payload-IsEvent : (e : OmptEvent) → IsOmpt e → IsEvent (payload e)
unfolding payload
payload-IsEvent (ompt_enter tp c) h =
    let l = length_lem 0 tp c in (omega (arith, l), omega (arith, l))
payload-IsEvent (ompt_exit tp c) h =
    let l = length_lem 1 tp c in (omega (arith, l), omega (arith, l))
payload-IsEvent unknown h = elim h [ ]

append_assoc : (q : List Payload) (p : Payload) (r : List Payload) → (q ++ p ∷ []) ++ r ≡ q ++ p ∷ r
append_assoc [] p r = refl
append_assoc (x ∷ q) p r = ap (λ t. x ∷ t) (append_assoc q p r)

append_nil : (q : List Payload) → q ++ [] ≡ q
append_nil [] = refl
append_nil (x ∷ q) = ap (λ t. x ∷ t) (append_nil q)

write_step :
    (e : OmptEvent) (es : List OmptEvent) (rb : ShmRingbuf) (q : List Payload)
    → IsOmpt e
    → Holds rb q
    → space q + room (payload e) < rb.header.size
    → write_events (e ∷ es) (idle rb) ≡ write_events es (idle (after_put rb (payload e)))
unfolding write_events write_enter write_leave payload
write_step (ompt_enter tp c) es rb q h o f =
    rw
      (put_lem o (payload (ompt_enter tp c)) (payload-IsEvent (ompt_enter tp c) h)
        (omega (arith, f)) (inl f))
      refl
write_step (ompt_exit tp c) es rb q h o f =
    rw
      (put_lem o (payload (ompt_exit tp c)) (payload-IsEvent (ompt_exit tp c) h) (omega (arith, f))
        (inl f))
      refl
write_step unknown es rb q h o f = elim h [ ]

size_lem : (rb : ShmRingbuf) (p : Payload) → (after_put rb p).header.size ≡ rb.header.size
size_lem rb p = refl

write_events-Holds :
    (es : List OmptEvent) (rb : ShmRingbuf) (q : List Payload)
    → All IsOmpt es
    → Holds rb q
    → space q + space (map payload es) < rb.header.size
    → (rb' : ShmRingbuf) × (write_events es (idle rb) ≡ ok (idle rb'))
      × Holds rb' (q ++ map payload es)
unfolding write_events
write_events-Holds [] rb q a h f = (rb, refl, rw (append_nil q) h)
write_events-Holds (e ∷ es) rb q a h f =
    let fits : space q + room (payload e) < rb.header.size = omega (arith, f) in
    let one = after_put-Holds h (payload e) (payload-IsEvent e a.0) fits in
    let (rb', done, held) =
      write_events-Holds es (after_put rb (payload e)) (q ++ payload e ∷ []) a.1 one
        (omega (arith, f, space-append q (payload e), size_lem rb (payload e))) in
    (
      rb',
      write_step e es rb q a.0 h fits ∙ done,
      rw (append_assoc q (payload e) (map payload es)) at held,
    )

monitor_step :
    (fuel : ℕ) (convert : ℕ → ℕ) (rb : ShmRingbuf) (m : OmptMonitor) (e : OmptEvent)
    (q : List Payload)
    → IsOmpt e
    → Holds rb (payload e ∷ q)
    → monitor_ring (suc fuel) convert rb m
      ≡ (handle convert e m >>= monitor_ring fuel convert (after_pop rb (payload e)))
unfolding monitor_ring
monitor_step fuel convert rb m e q h o = rw (take-cons o, read_event-payload e h) refl

monitor_ring_lem :
    (fuel : ℕ) (convert : ℕ → ℕ) (es : List OmptEvent) (rb : ShmRingbuf)
    → All IsOmpt es
    → Holds rb (map payload es)
    → length es < fuel
    → (rb' : ShmRingbuf) × ((m : OmptMonitor)
        → monitor_ring fuel convert rb m ≡ (monitor convert es m >>= λ m'. ok (m', rb')))
      × Holds rb' []
unfolding monitor_ring monitor
monitor_ring_lem zero convert es rb a h l = absurd (omega (arith, l))
monitor_ring_lem (suc fuel) convert [] rb a h l = (rb, λ m. rw (take-nil h) refl, h)
monitor_ring_lem (suc fuel) convert (e ∷ es) rb a h l =
    let (rb', done, empty) =
      monitor_ring_lem fuel convert es (after_pop rb (payload e)) a.1 (after_pop-Holds h)
        (omega (arith, l)) in
    (
      rb',
      λ m.
          monitor_step fuel convert rb m e (map payload es) a.0 h
          ∙ bind_split (handle convert e m) _ _ _ done,
      empty,
    )

-- From an empty ring with room for the events, the library's calls write them all, and the loop of
-- the monitor then does exactly what it does with those events, in their order, with every field as
-- it was written, and leaves the ring empty.
pub monitor_ring-write_events :
    (convert : ℕ → ℕ) (es : List OmptEvent) (rb : ShmRingbuf) (m : OmptMonitor)
    → Holds rb []
    → All IsOmpt es
    → space (map payload es) < rb.header.size
    → (rb1 rb2 : ShmRingbuf) × (write_events es (idle rb) ≡ ok (idle rb1))
      × (monitor_ring (suc (length es)) convert rb1 m
          ≡ (monitor convert es m >>= λ m'. ok (m', rb2)))
      × Holds rb2 []
monitor_ring-write_events convert es rb m h a f =
    let (rb1, written, held) = write_events-Holds es rb [] a h (omega (arith, f)) in
    let (rb2, read, empty) =
      monitor_ring_lem (suc (length es)) convert es rb1 a held (omega arith) in
    (rb1, rb2, written, read m, empty)
