-- ===== src/Rb/Offsets.antt =====
-- When a ring of src/rb/shm_ringbuf.cpp holds a queue of events, and what its offsets `head` and
-- `tail` say of that queue.
use lo2s.Shared.{
  ℕ, ◌+◌, ◌*◌, ◌%◌, ◌^◌, ◌≤◌, ◌<◌, ◌≡◌, ◌⊎◌, none, some, List, [], ◌∷◌, ◌++◌, length, All, ltb, leb,
  if◌then◌else◌, ok, arith,
}
use lo2s.Rb.{ShmRingbuf, round8, head_refuses, loadable, head, tail, advance_tail}
use lo2s.Rb.Memory.{encode_le}
use lo2s.Rb.Layout.{Bytes, decode_le}

-- An event without its size field: the bytes from `event_header.type` on.
abbrev pub Payload : Type 0
Payload = List ℕ

-- `event_header.size`: the field itself, and what follows.
abbrev pub ev_size : Payload → ℕ
ev_size p = 8 + length p

abbrev pub event_bytes : Payload → List ℕ
event_bytes p = encode_le 8 (ev_size p) ++ p

-- `event_header.type`
abbrev pub type_of : Payload → ℕ
type_of p = decode_le 8 p

-- An event has a whole header, and its size is no near-overflow.
abbrev pub IsEvent : Payload → Type 0
IsEvent p = (8 ≤ length p) × (length p + 8 ≤ 2 ^ 62)

-- What an event takes up in the ring, and what a queue of them does.
unfoldable pub room : Payload → ℕ
room p = round8 (ev_size p)

abbrev pub space : List Payload → ℕ
space [] = 0
space (p ∷ q) = room p + space q

-- The events stand one behind the other from offset `i` on.
abbrev pub Layout : ℕ → (ℕ → ℕ) → ℕ → List Payload → Type 0
Layout size m i [] = Unit {0}
Layout size m i (p ∷ q) = Bytes size m i (event_bytes p) × Layout size m (i + room p) q

-- The ring holds the events `q`, oldest first, with at least one byte to spare.
pub record Holds (rb : ShmRingbuf) (q : List Payload) : Type 0 where
  pub size_aligned : rb.header.size % 8 ≡ 0
  pub size_small : rb.header.size ≤ 2 ^ 62
  pub start_aligned : rb.start % 8 ≡ 0
  pub mapped : rb.start + 2 * rb.header.size ≤ 2 ^ 64
  pub head_aligned : rb.header.head % 8 ≡ 0
  pub tail_aligned : rb.header.tail % 8 ≡ 0
  pub head_in : rb.header.head < rb.header.size
  pub tail_in : rb.header.tail < rb.header.size
  pub spare : space q < rb.header.size
  pub between :
      (rb.header.head ≡ rb.header.tail + space q)
      ⊎ (rb.header.head + rb.header.size ≡ rb.header.tail + space q)
  pub events : Layout rb.header.size rb.bytes rb.header.tail q
  pub sized : All IsEvent q

pub round8_lem :
    (n : ℕ)
    → n ≤ 2 ^ 62
    → (round8 n % 8 ≡ 0) × (n ≤ round8 n) × (round8 n < n + 8) × (round8 (round8 n) ≡ round8 n)
unfolding round8
round8_lem n h = omega arith

pub round8_mono : (m n : ℕ) → m ≤ n → n ≤ 2 ^ 62 → round8 m ≤ round8 n
unfolding round8
round8_mono m n h b = omega arith

-- How the tests of `head` and `can_be_loaded` read in terms of the queue's space.
module _ {rb : ShmRingbuf} {q : List Payload} (h : Holds rb q) where
  loadable_lem :
      (r : ℕ)
      → r ≤ 2 ^ 62 + 8
      → loadable rb.header.head rb.header.tail rb.header.size r ≡ leb r (space q)
  unfolding loadable
  loadable_lem r b = ground arith

  refuses_lem :
      (r : ℕ)
      → r ≤ 2 ^ 62 + 8
      → head_refuses rb.header.head rb.header.tail rb.header.size r ≡ (
          if leb rb.header.tail rb.header.head
          then ltb rb.header.size (space q + r)
          else leb rb.header.size (space q + r))
  unfolding head_refuses
  refuses_lem r b = ground arith

  pub tail_lem :
      (n : ℕ)
      → n ≤ 2 ^ 62
      → tail rb n ≡ ok (if leb (round8 n) (space q) then some (rb.start + rb.header.tail) else none)
  unfolding tail
  tail_lem n b = ground (arith, round8_lem n b)

  pub head_lem :
      (n : ℕ)
      → n ≤ 2 ^ 62
      → head rb n
        ≡ ok (
            if leb rb.header.tail rb.header.head
            then (if leb (space q + round8 n) rb.header.size
                then some (rb.start + rb.header.head)
                else none)
            else (if ltb (space q + round8 n) rb.header.size
                then some (rb.start + rb.header.head)
                else none))
  unfolding head
  head_lem n b = ground (arith, round8_lem n b)

  pub advance_tail_lem :
      (n : ℕ)
      → n ≤ 2 ^ 62
      → round8 n ≤ space q
      → advance_tail rb n
        ≡ ok (record rb {
          header = record (rb.header) { tail = (rb.header.tail + round8 n) % rb.header.size };
        })
  unfolding advance_tail
  advance_tail_lem n b c = ground (arith, round8_lem n b)
