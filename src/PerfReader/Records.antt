-- ===== src/PerfReader/Records.antt =====
-- `EventReader::read` (include/lo2s/perf/event_reader.hpp) on a ring that holds whole records: the
-- events it hands to its client, and where it stops.
use lo2s.Shared.{
  ℕ, zero, suc, ◌+◌, ◌-◌, ◌%◌, ◌^◌, ◌≤◌, ◌<◌, ◌≡◌, inl, inr, refl, sym, ap, ◌∙◌, Bool, true, false,
  Bool-cases, List, [], ◌∷◌, ◌++◌, length, arith, ltb, ◌==◌, if◌then◌else◌, Result, ok,
}
use lo2s.Rb.Layout.{Bytes}
use lo2s.PerfReader.{
  RecordType, Client, EventReader, slice, size_of, empty, get, pop, dispatch, read_loop, read,
}
use lo2s.PerfReader.Wrap.{slice-Bytes, wrap-Bytes, slice-take, size_of-take}
use native.Mathlib.Nat.{mod-eq_of_lt, mod-lt}

-- An event at the offset `t`: its header does not go over the end of the ring, and its size field
-- tells its length.
abbrev pub IsEvent : ℕ → ℕ → List ℕ → Type 0
IsEvent size t ev =
    (8 ≤ length ev) × (t % size + 8 ≤ size) × (size_of ev ≡ length ev) × (length ev ≤ size)

-- The events from offset `t` up to the offset `h`.
abbrev pub Records : ℕ → (ℕ → ℕ) → ℕ → List (List ℕ) → ℕ → Type 0
Records size m t [] h = t ≡ h
Records size m t (ev ∷ es) h =
    IsEvent size t ev
    × Bytes size m t ev
    × (t + length ev ≤ h)
    × Records size m (t + length ev) es h

-- What a client does with a list of events: it takes them in order, and the first at which it
-- asks to stop is the last. The rest is left.
abbrev pub consume {ℓ} :
    {S : Type ℓ}
    → (List ℕ → Client S → Bool × Client S)
    → List (List ℕ)
    → Client S
    → List (List ℕ) × Client S
consume step [] c = ([], c)
consume step (ev ∷ es) c =
    if (step ev c).0 then (es, (step ev c).1) else consume step es ((step ev c).1)

module _ {ℓ} {S : Type ℓ} where
  -- The ring holds the events `es`.
  pub record Holds (r : EventReader S) (es : List (List ℕ)) : Type ℓ where
    pub size_positive : 0 < r.data_size
    pub filled : r.data_tail ≤ r.data_head
    pub room : r.data_head - r.data_tail ≤ r.data_size
    pub head_below : r.data_head < 2 ^ 64
    pub records : Records r.data_size r.bytes r.data_tail es r.data_head

  get_plain :
      (r : EventReader S) (len : ℕ)
      → r.data_tail ≤ r.data_head
      → r.data_head - r.data_tail ≤ r.data_size
      → size_of (slice r.bytes (r.data_tail % r.data_size) 8) ≡ len
      → r.data_tail % r.data_size + len ≤ r.data_size
      → get r ≡ ok (slice r.bytes (r.data_tail % r.data_size) len)
  unfolding get
  get_plain r len a b e h = ground arith

  get_wrapped :
      (r : EventReader S) (len : ℕ)
      → r.data_tail ≤ r.data_head
      → r.data_head - r.data_tail ≤ r.data_size
      → size_of (slice r.bytes (r.data_tail % r.data_size) 8) ≡ len
      → r.data_size < r.data_tail % r.data_size + len
      → get r
        ≡ ok (
            slice r.bytes (r.data_tail % r.data_size) (r.data_size - r.data_tail % r.data_size)
            ++ slice r.bytes 0 (len - (r.data_size - r.data_tail % r.data_size)))
  unfolding get
  get_wrapped r len a b e h = ground arith

  module _ (r : EventReader S) (ev : List ℕ) (es : List (List ℕ)) (v : Holds r (ev ∷ es)) where
    header_size : size_of (slice r.bytes (r.data_tail % r.data_size) 8) ≡ length ev
    header_size =
        ap size_of (
          slice-take r.data_size r.bytes r.data_tail (r.data_tail % r.data_size) 8 ev v.records.1
            refl v.records.0.1 v.records.0.0)
        ∙ size_of-take ev
        ∙ v.records.0.2

    get_over :
        (k : ℕ)
        → r.data_size - r.data_tail % r.data_size ≡ suc k
        → suc k ≤ length ev
        → slice r.bytes (r.data_tail % r.data_size) (r.data_size - r.data_tail % r.data_size)
            ++ slice r.bytes 0 (length ev - (r.data_size - r.data_tail % r.data_size))
          ≡ ev
    get_over k e h = rw e (
        wrap-Bytes r.data_size r.bytes r.data_tail (r.data_tail % r.data_size) k ev v.records.1 refl
          (omega (arith, e)) h (omega (arith, v.records.0)))

    get_first : get r ≡ ok ev
    get_first = elim (Bool-cases (ltb r.data_size (r.data_tail % r.data_size + length ev))) [
      | inr e ↦
          let h : r.data_tail % r.data_size + length ev ≤ r.data_size = ground arith in
          get_plain r (length ev) v.filled v.room header_size h
          ∙ ap ok (
              slice-Bytes r.data_size r.bytes r.data_tail (r.data_tail % r.data_size) ev v.records.1
                refl h)
      | inl e ↦
          let h : r.data_size < r.data_tail % r.data_size + length ev = ground arith in
          let below = mod-lt r.data_tail {m = r.data_size} v.size_positive in
          get_wrapped r (length ev) v.filled v.room header_size h
          ∙ ap ok (
              get_over (r.data_size - r.data_tail % r.data_size - 1) (omega (arith, below))
                (omega (arith, h, below)))
    ]

    abbrev after : Client S → EventReader S
    after c = record r { data_tail = r.data_tail + length ev; client = c }

    after-Holds : (c : Client S) → Holds (after c) es
    after-Holds c = record {
      size_positive = v.size_positive;
      filled = v.records.2;
      room = omega (arith, v.room, v.records);
      head_below = v.head_below;
      records = v.records.3;
    }

    with-Holds : (c : Client S) → Holds (record r { client = c }) (ev ∷ es)
    with-Holds c = record {
      size_positive = v.size_positive;
      filled = v.filled;
      room = v.room;
      head_below = v.head_below;
      records = v.records;
    }

  pop_from :
      (r : EventReader S) (ev : List ℕ) (n : ℕ)
      → get r ≡ ok ev
      → size_of ev ≡ n
      → (r.data_tail + n) % 2 ^ 64 ≡ r.data_tail + n
      → pop r ≡ ok (record r { data_tail = r.data_tail + n })
  unfolding pop
  pop_from r ev n e f g = ground arith

  pop_first :
      (r : EventReader S) (ev : List ℕ) (es : List (List ℕ)) (v : Holds r (ev ∷ es)) (c : Client S)
      → pop (record r { client = c }) ≡ ok (after r ev es v c)
  pop_first r ev es v c =
      pop_from (record r { client = c }) ev (length ev)
        (get_first (record r { client = c }) ev es (with-Holds r ev es v c)) (v.records.0.2)
        (mod-eq_of_lt (omega (arith, v.records.2, v.head_below)))

  empty_lem : (r : EventReader S) → empty r ≡ (r.data_head == r.data_tail)
  unfolding empty
  empty_lem r = refl

  module _ (handle : RecordType → List ℕ → S → Bool × S) where
    -- The outcome of reading a ring with the events `es`.
    pub record Read (es : List (List ℕ)) (r : EventReader S) (outcome : Result (EventReader S))
        : Type ℓ where
      pub ring : EventReader S
      pub result : outcome ≡ ok ring
      pub client : ring.client ≡ (consume (dispatch handle) es r.client).1
      pub holds : Holds ring ((consume (dispatch handle) es r.client).0)

    loop_done :
        (fuel : ℕ) (r : EventReader S) → r.data_tail ≡ r.data_head → read_loop handle fuel r ≡ ok r
    unfolding read_loop empty
    loop_done zero r e = refl
    loop_done (suc fuel) r e = ground arith

    loop_stops :
        (fuel : ℕ) (r r' : EventReader S) (ev : List ℕ)
        → empty r ≡ false
        → get r ≡ ok ev
        → pop (record r { client = (dispatch handle ev r.client).1 }) ≡ ok r'
        → (dispatch handle ev r.client).0 ≡ true
        → read_loop handle (suc fuel) r ≡ ok r'
    unfolding read_loop
    loop_stops fuel r r' ev a b c d = ground arith

    loop_goes :
        (fuel : ℕ) (r r' : EventReader S) (ev : List ℕ)
        → empty r ≡ false
        → get r ≡ ok ev
        → pop (record r { client = (dispatch handle ev r.client).1 }) ≡ ok r'
        → (dispatch handle ev r.client).0 ≡ false
        → read_loop handle (suc fuel) r ≡ read_loop handle fuel r'
    unfolding read_loop
    loop_goes fuel r r' ev a b c d = ground arith

    not_empty :
        (r : EventReader S) (ev : List ℕ) (es : List (List ℕ)) → Holds r (ev ∷ es) → empty r ≡ false
    unfolding empty
    not_empty r ev es v = ground (arith, v.records)

    consume_stop :
        (ev : List ℕ) (es : List (List ℕ)) (c : Client S)
        → (dispatch handle ev c).0 ≡ true
        → consume (dispatch handle) (ev ∷ es) c ≡ (es, (dispatch handle ev c).1)
    consume_stop ev es c e = rw (e, consume) refl

    consume_go :
        (ev : List ℕ) (es : List (List ℕ)) (c : Client S)
        → (dispatch handle ev c).0 ≡ false
        → consume (dispatch handle) (ev ∷ es) c
          ≡ consume (dispatch handle) es ((dispatch handle ev c).1)
    consume_go ev es c e = rw (e, consume) refl

    read_loop-Read :
        (fuel : ℕ) (es : List (List ℕ)) (r : EventReader S)
        → Holds r es
        → r.data_head - r.data_tail ≤ fuel
        → Read es r (read_loop handle fuel r)
    read_loop-Read fuel [] r v b = record {
      ring = r;
      result = loop_done fuel r v.records;
      client = refl;
      holds = v;
    }
    read_loop-Read zero (ev ∷ es) r v b = absurd (omega (arith, v.records, v.filled))
    read_loop-Read (suc fuel) (ev ∷ es) r v b =
        let c = (dispatch handle ev r.client).1 in
        elim (Bool-cases ((dispatch handle ev r.client).0)) [
          | inl e ↦ record {
            ring = after r ev es v c;
            result =
                loop_stops fuel r (after r ev es v c) ev (not_empty r ev es v) (get_first r ev es v)
                  (pop_first r ev es v c) e;
            client = sym (ap (λ x. x.1) (consume_stop ev es r.client e));
            holds = rw (consume_stop ev es r.client e) (after-Holds r ev es v c);
          }
          | inr e ↦
              let next =
                read_loop-Read fuel es (after r ev es v c) (after-Holds r ev es v c)
                  (omega (arith, v.records, v.filled, b)) in
              record {
                ring = next.ring;
                result =
                    loop_goes fuel r (after r ev es v c) ev (not_empty r ev es v)
                      (get_first r ev es v) (pop_first r ev es v c) e
                    ∙ next.result;
                client = next.client ∙ sym (ap (λ x. x.1) (consume_go ev es r.client e));
                holds = rw (consume_go ev es r.client e) (next.holds);
              }
        ]

    -- `read` on a ring that holds whole events: it succeeds, hands every event once and in order to
    -- the client or to the counters, up to the first at which the client asks to stop, and leaves a
    -- ring with exactly the events behind that one.
    pub read-Read :
        (es : List (List ℕ)) (r : EventReader S) → Holds r es → Read es r (read handle r)
    unfolding read
    read-Read es r v = read_loop-Read (r.data_head - r.data_tail) es r v (omega arith)
