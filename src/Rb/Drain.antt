-- ===== src/Rb/Drain.antt =====
-- What the reader of src/rb/reader.cpp gets from a ring that holds a queue, and what it removes.
use native.Mathlib.Nat.{mod-mod}
use lo2s.Shared.{
  ℕ, ◌+◌, ◌-◌, ◌%◌, ◌≤◌, ◌<◌, ◌≡◌, sym, true, false, none, some, List, [], ◌∷◌, length, ltb,
  if◌then◌else◌, ok, arith,
}
use lo2s.Rb.{ShmRingbuf, set_tail, tail}
use lo2s.Rb.Memory.{encode_le, load_u64, read_at}
use lo2s.Rb.Layout.{
  Bytes, load_le-decode_le, decode_le-encode_le, Bytes-append_right, read_bytes-Bytes,
}
use lo2s.Rb.Offsets.{
  Payload, ev_size, event_bytes, room, Holds, round8_lem, round8_mono, type_of, tail_lem,
  advance_tail_lem,
}
use lo2s.Rb.Reader.{empty, get, get_top_event_type, pop, take}
use lo2s.Rb.Fifo.{length-encode_le, wrap_lem, Layout-round, length-event_bytes, room_lem}

-- The ring after `pop`.
abbrev pub after_pop : ShmRingbuf → Payload → ShmRingbuf
after_pop rb p = set_tail rb ((rb.header.tail + room p) % rb.header.size)

pub empty-nil : {rb : ShmRingbuf} → Holds rb [] → empty rb ≡ ok true
unfolding empty
empty-nil h = rw (tail_lem h 16 (omega arith)) (ground (arith, round8_lem 16 (omega arith)))

pub take-nil : {rb : ShmRingbuf} → Holds rb [] → take rb ≡ ok (none, rb)
unfolding take
take-nil h = rw (empty-nil h)

module _ {rb : ShmRingbuf} {p : Payload} {q : List Payload} (h : Holds rb (p ∷ q)) where
  fits : (room p % 8 ≡ 0) × (ev_size p ≤ room p) × (room p < ev_size p + 8)
  fits = room_lem rb.header.size p h.sized.0

  at_front : (n : ℕ) → n ≤ ev_size p → tail rb n ≡ ok (some (rb.start + rb.header.tail))
  unfolding room
  at_front n b =
      rw (tail_lem h n (omega arith))
        (ground (arith, fits, round8_mono n (ev_size p) b (omega arith)))

  front : Bytes rb.header.size rb.bytes rb.header.tail (event_bytes p)
  front = h.events.0

  body : Bytes rb.header.size rb.bytes (rb.header.tail + 8) p
  body =
      Bytes-append_right rb.header.size rb.bytes rb.header.tail (rb.header.tail + 8)
        (encode_le 8 (ev_size p)) p (omega (arith, length-encode_le 8 (ev_size p))) front

  load_lem : load_u64 rb (rb.start + rb.header.tail) ≡ ev_size p
  unfolding load_u64
  load_lem =
      let e : rb.start + rb.header.tail - rb.start ≡ rb.header.tail = omega arith in
      rw
        (
          e,
          load_le-decode_le rb.header.size rb.bytes 8 rb.header.tail (event_bytes p)
              (omega (arith, length-event_bytes rb.header.size p)) front,
        )
        (decode_le-encode_le 8 (ev_size p) p (omega arith))

  type_lem : load_u64 rb (rb.start + rb.header.tail + 8) ≡ type_of p
  unfolding load_u64
  type_lem =
      let e : rb.start + rb.header.tail + 8 - rb.start ≡ rb.header.tail + 8 = omega arith in
      rw e (load_le-decode_le rb.header.size rb.bytes 8 (rb.header.tail + 8) p (omega arith) body)

  read_lem : (n : ℕ) → n ≡ length p → read_at rb (rb.start + rb.header.tail + 8) n ≡ p
  unfolding read_at
  read_lem n e' =
      let e : rb.start + rb.header.tail + 8 - rb.start ≡ rb.header.tail + 8 = omega arith in
      rw (e, e') (read_bytes-Bytes rb.header.size rb.bytes (rb.header.tail + 8) p body)

  tail' : (rb.header.tail + room p) % rb.header.size ≡ (
      if ltb (rb.header.tail + room p) rb.header.size
      then rb.header.tail + room p
      else rb.header.tail + room p - rb.header.size)
  tail' = wrap_lem rb.header.size (rb.header.tail + room p) (omega (arith, h.tail_in))

  pub after_pop-Holds : Holds (after_pop rb p) q
  after_pop-Holds = record {
    size_aligned = h.size_aligned;
    size_small = h.size_small;
    start_aligned = h.start_aligned;
    mapped = h.mapped;
    head_aligned = h.head_aligned;
    tail_aligned = ground (arith, tail', fits, h.tail_aligned, h.size_aligned);
    head_in = h.head_in;
    tail_in = ground (arith, tail');
    spare = omega arith;
    between = ground (arith, tail', h.between, h.head_in);
    events =
        Layout-round rb.header.size rb.bytes (rb.header.tail + room p)
          ((rb.header.tail + room p) % rb.header.size) q
          (sym (mod-mod (rb.header.tail + room p) rb.header.size)) h.events.1;
    sized = h.sized.1;
  }

  pub empty-cons : empty rb ≡ ok false
  unfolding empty
  empty-cons = rw (at_front 16 (omega arith))

  -- The pointer that `get` returns is that of the oldest event.
  pub get_lem : get rb ≡ ok (some (rb.start + rb.header.tail))
  unfolding get
  get_lem = rw (at_front 16 (omega arith), load_lem) (at_front (ev_size p) (omega arith))

  pub get_top_event_type_lem : get_top_event_type rb ≡ ok (type_of p)
  unfolding get_top_event_type
  get_top_event_type_lem = rw (at_front 16 (omega arith), type_lem)

  pub pop_lem : pop rb ≡ ok (after_pop rb p)
  unfolding pop room
  pop_lem =
      rw (at_front 16 (omega arith), load_lem)
        (advance_tail_lem h (ev_size p) (omega arith) (omega arith))

  pub take-cons : take rb ≡ ok (some (type_of p, p), after_pop rb p)
  unfolding take
  take-cons =
      rw (empty-cons, get_top_event_type_lem, get_lem, pop_lem, load_lem)
        (rw (read_lem (ev_size p - 8) (omega arith)))
