-- ===== src/Rb/Fifo.antt =====
-- The ring of src/rb/shm_ringbuf.cpp under its two users: what a write appends and a pop removes.
use native.Mathlib.Nat.{mod-add-mod, mod-eq_of_lt, mod-eq-sub-mod}
use lo2s.Shared.{
  ℕ, zero, suc, ◌+◌, ◌-◌, ◌/◌, ◌%◌, ◌≤◌, ◌<◌, ◌≡◌, ◌⊎◌, refl, sym, ap, ◌∙◌, true, false, List, [],
  ◌∷◌, ◌++◌, length, All, ltb, if◌then◌else◌, ok, arith, length-append, replicate, length-replicate,
}
use lo2s.Rb.{ShmRingbuf, advance_head}
use lo2s.Rb.Memory.{encode_le, write_bytes, store, write_at}
use lo2s.Rb.Layout.{Bytes, Bytes-append, Bytes-write_bytes, write_bytes-Bytes}
use lo2s.Rb.Offsets.{Payload, ev_size, event_bytes, IsEvent, room, space, Layout, Holds, round8_lem}
use lo2s.Rb.Writer.{put}

pub length-encode_le : (n v : ℕ) → length (encode_le n v) ≡ n
unfolding encode_le
length-encode_le zero v = refl
length-encode_le (suc n) v = ap suc (length-encode_le n (v / 256))

-- One step round the ring.
pub wrap_lem : (size i : ℕ) → i < size + size → i % size ≡ (if ltb i size then i else i - size)
wrap_lem size i h = ground (
  arith,
  mod-eq_of_lt {n = i} {m = size},
  mod-eq-sub-mod {n = i} {m = size},
  mod-eq_of_lt {n = i - size} {m = size},
)

module _ (size : ℕ) where
  next_round : (i j k : ℕ) → i % size ≡ j % size → (i + k) % size ≡ (j + k) % size
  next_round i j k e =
      sym (mod-add-mod i size k) ∙ ap (λ n. (n + k) % size) e ∙ mod-add-mod j size k

  -- Offsets are read and written modulo the size.
  pub Bytes-round :
      (m : ℕ → ℕ) (i j : ℕ) (bs : List ℕ)
      → i % size ≡ j % size
      → Bytes size m i bs
      → Bytes size m j bs
  Bytes-round m i j [] e h = tt
  Bytes-round m i j (b ∷ bs) e h =
      (ap m (sym e) ∙ h.0, Bytes-round m (i + 1) (j + 1) bs (next_round i j 1 e) h.1)

  pub Layout-round :
      (m : ℕ → ℕ) (i j : ℕ) (q : List Payload)
      → i % size ≡ j % size
      → Layout size m i q
      → Layout size m j q
  Layout-round m i j [] e h = tt
  Layout-round m i j (p ∷ q) e h = (
    Bytes-round m i j (event_bytes p) e h.0,
    Layout-round m (i + room p) (j + room p) q (next_round i j (room p) e) h.1,
  )

  pub write_bytes_round :
      (bs : List ℕ) (m : ℕ → ℕ) (i j : ℕ)
      → i % size ≡ j % size
      → write_bytes size m i bs ≡ write_bytes size m j bs
  unfolding write_bytes
  write_bytes_round [] m i j e = refl
  write_bytes_round (b ∷ bs) m i j e =
      write_bytes_round bs (store m (i % size) b) (i + 1) (j + 1) (next_round i j 1 e)
      ∙ ap (λ k. write_bytes size (store m k b) (j + 1) bs) e

  pub length-event_bytes : (p : Payload) → length (event_bytes p) ≡ ev_size p
  length-event_bytes p =
      omega (arith, length-append (encode_le 8 (ev_size p)) p, length-encode_le 8 (ev_size p))

  pub room_lem :
      (p : Payload) → IsEvent p → (room p % 8 ≡ 0) × (ev_size p ≤ room p) × (room p < ev_size p + 8)
  unfolding room
  room_lem p h = omega (arith, round8_lem (ev_size p) (omega arith))

  -- A write behind the events leaves them.
  pub Layout-write_bytes :
      (bs : List ℕ) (m : ℕ → ℕ) (i j : ℕ) (q : List Payload)
      → All IsEvent q
      → Layout size m j q
      → j + space q ≤ i
      → i + length bs ≤ j + size
      → Layout size (write_bytes size m i bs) j q
  Layout-write_bytes bs m i j [] s h a b = tt
  Layout-write_bytes bs m i j (p ∷ q) s h a b = (
    Bytes-write_bytes size bs m i j (event_bytes p) h.0
        (omega (arith, length-event_bytes p, room_lem p s.0)) b,
    Layout-write_bytes bs m i (j + room p) q s.1 h.1 (omega arith) (omega arith),
  )

  pub Layout-append :
      (m : ℕ → ℕ) (i j : ℕ) (q : List Payload) (p : Payload)
      → j ≡ i + space q
      → Layout size m i q
      → Bytes size m j (event_bytes p)
      → Layout size m i (q ++ p ∷ [])
  Layout-append m i j [] p e h k = let e' : i ≡ j = omega arith in (rw e' k, tt)
  Layout-append m i j (x ∷ q) p e h k =
      (h.0, Layout-append m (i + room x) j q p (omega arith) h.1 k)

  -- The three writes of an event: the zeros and the size by `reserve`, the rest by the user.
  abbrev pub write_event : (ℕ → ℕ) → ℕ → Payload → ℕ → ℕ
  write_event m i p =
      write_bytes size
        (write_bytes size (write_bytes size m i (replicate (ev_size p) 0)) i
          (encode_le 8 (ev_size p)))
        (i + 8) p

  write_event-Bytes :
      (m : ℕ → ℕ) (i : ℕ) (p : Payload)
      → ev_size p ≤ size
      → Bytes size (write_event m i p) i (event_bytes p)
  write_event-Bytes m i p h =
      let start = encode_le 8 (ev_size p) in
      let cleared = write_bytes size m i (replicate (ev_size p) 0) in
      let len : length start ≡ 8 = length-encode_le 8 (ev_size p) in
      Bytes-append size (write_event m i p) i (i + 8) start p (omega arith)
        (Bytes-write_bytes size p (write_bytes size cleared i start) (i + 8) i start
          (write_bytes-Bytes size start cleared i (omega arith)) (omega arith) (omega arith))
        (write_bytes-Bytes size p (write_bytes size cleared i start) (i + 8) (omega arith))

  write_event-Layout :
      (m : ℕ → ℕ) (i j : ℕ) (q : List Payload) (p : Payload)
      → All IsEvent q
      → Layout size m j q
      → j + space q ≤ i
      → i + ev_size p ≤ j + size
      → Layout size (write_event m i p) j q
  write_event-Layout m i j q p s h a b =
      let len : length (encode_le 8 (ev_size p)) ≡ 8 = length-encode_le 8 (ev_size p) in
      Layout-write_bytes p _ (i + 8) j q s
        (Layout-write_bytes (encode_le 8 (ev_size p)) _ i j q s
          (Layout-write_bytes (replicate (ev_size p) 0) m i j q s h a
            (omega (arith, length-replicate {A = ℕ} (ev_size p) 0)))
          a (omega arith))
        (omega arith) (omega arith)

  -- Where the write begins matters only modulo the size.
  write_event_round :
      (m : ℕ → ℕ) (i j : ℕ) (p : Payload)
      → i % size ≡ j % size
      → write_event m i p ≡ write_event m j p
  write_event_round m i j p e =
      rw
        (
          write_bytes_round (replicate (ev_size p) 0) m i j e,
          write_bytes_round (encode_le 8 (ev_size p))
              (write_bytes size m j (replicate (ev_size p) 0)) i j e,
        )
        (write_bytes_round p _ (i + 8) (j + 8) (next_round i j 8 e))

pub space-append : (q : List Payload) (p : Payload) → space (q ++ p ∷ []) ≡ space q + room p
space-append [] p = omega arith
space-append (x ∷ q) p = omega (arith, space-append q p)

All-append {ℓ κ} :
    {A : Type ℓ} (P : A → Type κ) (xs : List A) (x : A) → All P xs → P x → All P (xs ++ x ∷ [])
All-append P [] x h k = (k, tt)
All-append P (y ∷ xs) x h k = (h.0, All-append P xs x h.1 k)

-- The ring after `put`.
abbrev pub after_put : ShmRingbuf → Payload → ShmRingbuf
after_put rb p = record rb {
  header = record (rb.header) { head = (rb.header.head + room p) % rb.header.size };
  bytes = write_event rb.header.size rb.bytes rb.header.head p;
}

module _ {rb : ShmRingbuf} {q : List Payload} (h : Holds rb q) (p : Payload) (e : IsEvent p) where
  -- `put` succeeds if the event fits, and also if it fills the ring to the last byte while `head`
  -- has not gone round before `tail`.
  pub put_lem :
      space q + room p ≤ rb.header.size
      → (space q + room p < rb.header.size) ⊎ (rb.header.tail ≤ rb.header.head)
      → put (record { rb = rb; reserved_size = 0 }) p
        ≡ ok (true, record { rb = after_put rb p; reserved_size = 0 })
  unfolding put advance_head write_at room
  put_lem fits last = ground (arith, round8_lem (ev_size p) (omega arith))

  -- Otherwise it is refused, and nothing changes.
  pub put_refused :
      (rb.header.size < space q + room p)
        ⊎ ((space q + room p ≡ rb.header.size) × (rb.header.head < rb.header.tail))
      → put (record { rb = rb; reserved_size = 0 }) p
        ≡ ok (false, record { rb = rb; reserved_size = 0 })
  unfolding put room
  put_refused full = ground (arith, round8_lem (ev_size p) (omega arith))

  pub after_put-Holds : space q + room p < rb.header.size → Holds (after_put rb p) (q ++ p ∷ [])
  after_put-Holds fits = record {
    size_aligned = h.size_aligned;
    size_small = h.size_small;
    start_aligned = h.start_aligned;
    mapped = h.mapped;
    head_aligned = ground (arith, head', aligned, h.head_aligned, h.size_aligned);
    tail_aligned = h.tail_aligned;
    head_in = ground (arith, head');
    tail_in = h.tail_in;
    spare = omega (arith, space-append q p);
    between = ground (arith, head', space-append q p, h.between);
    events =
        rw
          (write_event_round rb.header.size rb.bytes rb.header.head (rb.header.tail + space q) p
            round)
          (Layout-append rb.header.size
            (write_event rb.header.size rb.bytes (rb.header.tail + space q) p) rb.header.tail
            (rb.header.tail + space q) q p refl
            (write_event-Layout rb.header.size rb.bytes (rb.header.tail + space q) rb.header.tail q
              p h.sized h.events (omega arith) (omega (arith, aligned)))
            (write_event-Bytes rb.header.size rb.bytes (rb.header.tail + space q) p
              (omega (arith, aligned))));
    sized = All-append IsEvent q p h.sized e;
  }
    where
      aligned : (room p % 8 ≡ 0) × (ev_size p ≤ room p) × (room p < ev_size p + 8)
      aligned = room_lem rb.header.size p e

      head' : (rb.header.head + room p) % rb.header.size ≡ (
          if ltb (rb.header.head + room p) rb.header.size
          then rb.header.head + room p
          else rb.header.head + room p - rb.header.size)
      head' = wrap_lem rb.header.size (rb.header.head + room p) (omega (arith, h.head_in))

      round : rb.header.head % rb.header.size ≡ (rb.header.tail + space q) % rb.header.size
      round = ground (
        arith,
        h.between,
        h.head_in,
        wrap_lem rb.header.size rb.header.head (omega (arith, h.head_in)),
        wrap_lem rb.header.size (rb.header.tail + space q) (omega (arith, h.tail_in)),
      )
