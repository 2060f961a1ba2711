-- ===== src/Rb/Layout.antt =====
-- Which bytes the data area of the ring shows at an offset, and what a write through the double
-- mapping of include/lo2s/rb/shm_ringbuf.hpp does to them.
use native.Mathlib.Nat.{mod-add-mod, mod-eq_of_lt, mod-eq-sub-mod, mod-lt, pow-suc}
use native.Mathlib.Decide.{dec_lt}
use lo2s.Shared.{
  ℕ, zero, suc, ◌+◌, ◌-◌, ◌*◌, ◌/◌, ◌%◌, ◌^◌, ◌≤◌, ◌<◌, ◌≡◌, ◌≢◌, refl, ap, ◌∙◌, List, [], ◌∷◌,
  ◌++◌, length, arith, ==_iff,
}
use lo2s.Rb.Memory.{store, write_bytes, load_le, encode_le, read_bytes}

-- Two offsets less than a round apart are different bytes.
pub mod-ne : (size i j : ℕ) → i < j → j < i + size → j % size ≢ i % size
mod-ne size i j h k = elim (dec_lt (i % size + (j - i)) size) [
  | yes p ↦ omega (arith, shift, mod-eq_of_lt p)
  | no p ↦ omega (
    arith,
    shift,
    mod-lt i {m = size} (omega arith),
    mod-eq-sub-mod {n = i % size + (j - i)} {m = size} (omega arith),
    mod-eq_of_lt {n = i % size + (j - i) - size} {m = size}
        (omega (arith, mod-lt i {m = size} (omega arith))),
  )
]
  where
    shift : j % size ≡ (i % size + (j - i)) % size
    shift = rw mod-add-mod (ap (λ n. n % size) (omega arith))

-- The bytes from offset `i` on are `bs`.
abbrev pub Bytes : ℕ → (ℕ → ℕ) → ℕ → List ℕ → Type 0
Bytes size m i [] = Unit {0}
Bytes size m i (b ∷ bs) = (m (i % size) ≡ b) × Bytes size m (i + 1) bs

pub store_ne :
    (size : ℕ) (m : ℕ → ℕ) (i j v : ℕ)
    → j < i
    → i < j + size
    → store m (i % size) v (j % size) ≡ m (j % size)
store_ne size m i j v h k = ground (arith, mod-ne size j i h k)

pub Bytes-store :
    (size : ℕ) (m : ℕ → ℕ) (i v j : ℕ) (bs : List ℕ)
    → Bytes size m j bs
    → j + length bs ≤ i
    → i < j + size
    → Bytes size (store m (i % size) v) j bs
Bytes-store size m i v j [] h p q = tt
Bytes-store size m i v j (b ∷ bs) h p q = (
  store_ne size m i j v (omega arith) (omega arith) ∙ h.0,
  Bytes-store size m i v (j + 1) bs h.1 (omega arith) (omega arith),
)

-- A write leaves what lies before it, if it does not come round to it.
pub Bytes-write_bytes :
    (size : ℕ) (bs : List ℕ) (m : ℕ → ℕ) (i j : ℕ) (cs : List ℕ)
    → Bytes size m j cs
    → j + length cs ≤ i
    → i + length bs ≤ j + size
    → Bytes size (write_bytes size m i bs) j cs
unfolding write_bytes
Bytes-write_bytes size [] m i j cs h p q = h
Bytes-write_bytes size (b ∷ bs) m i j cs h p q =
    Bytes-write_bytes size bs (store m (i % size) b) (i + 1) j cs
      (Bytes-store size m i b j cs h p (omega arith)) (omega arith) (omega arith)

-- What was written is there.
pub write_bytes-Bytes :
    (size : ℕ) (bs : List ℕ) (m : ℕ → ℕ) (i : ℕ)
    → length bs ≤ size
    → Bytes size (write_bytes size m i bs) i bs
unfolding write_bytes
write_bytes-Bytes size [] m i h = tt
write_bytes-Bytes size (b ∷ bs) m i h = (
  (Bytes-write_bytes size bs (store m (i % size) b) (i + 1) i (b ∷ [])
      (ground (arith, (==_iff (i % size) (i % size)).1 refl), tt) (omega arith) (omega arith)).0,
  write_bytes-Bytes size bs (store m (i % size) b) (i + 1) (omega arith),
)

-- The number that the first `n` bytes are, least significant first.
unfoldable pub decode_le : ℕ → List ℕ → ℕ
decode_le zero bs = 0
decode_le (suc n) [] = 0
decode_le (suc n) (b ∷ bs) = b + 256 * decode_le n bs

pub decode_le-encode_le :
    (n v : ℕ) (bs : List ℕ) → v < 256 ^ n → decode_le n (encode_le n v ++ bs) ≡ v
unfolding encode_le decode_le
decode_le-encode_le zero v bs h = omega arith
decode_le-encode_le (suc n) v bs h =
    let small : v / 256 < 256 ^ n = omega (arith, pow-suc 256 n) in
    omega (arith, decode_le-encode_le n (v / 256) bs small)

module _ (size : ℕ) (m : ℕ → ℕ) where
  pub Bytes-append :
      (i j : ℕ) (xs ys : List ℕ)
      → j ≡ i + length xs
      → Bytes size m i xs
      → Bytes size m j ys
      → Bytes size m i (xs ++ ys)
  Bytes-append i j [] ys e h k = let e' : i ≡ j = omega arith in rw e' k
  Bytes-append i j (x ∷ xs) ys e h k = (h.0, Bytes-append (i + 1) j xs ys (omega arith) h.1 k)

  pub load_le-decode_le :
      (n i : ℕ) (bs : List ℕ)
      → n ≤ length bs
      → Bytes size m i bs
      → load_le size m n i ≡ decode_le n bs
  unfolding load_le decode_le
  load_le-decode_le zero i bs h b = refl
  load_le-decode_le (suc n) i [] h b = absurd (omega arith)
  load_le-decode_le (suc n) i (x ∷ bs) h b =
      omega (arith, b.0, load_le-decode_le n (i + 1) bs (omega arith) b.1)

  pub Bytes-append_left : (i : ℕ) (xs ys : List ℕ) → Bytes size m i (xs ++ ys) → Bytes size m i xs
  Bytes-append_left i [] ys h = tt
  Bytes-append_left i (x ∷ xs) ys h = (h.0, Bytes-append_left (i + 1) xs ys h.1)

  pub Bytes-append_right :
      (i j : ℕ) (xs ys : List ℕ) → j ≡ i + length xs → Bytes size m i (xs ++ ys) → Bytes size m j ys
  Bytes-append_right i j [] ys e h = let e' : j ≡ i = omega arith in rw e' h
  Bytes-append_right i j (x ∷ xs) ys e h = Bytes-append_right (i + 1) j xs ys (omega arith) h.1

  pub read_bytes-Bytes :
      (i : ℕ) (bs : List ℕ) → Bytes size m i bs → read_bytes size m i (length bs) ≡ bs
  unfolding read_bytes
  read_bytes-Bytes i [] h = refl
  read_bytes-Bytes i (b ∷ bs) h = rw (h.0, read_bytes-Bytes (i + 1) bs h.1)
