-- ===== src/Rb/Memory.antt =====
-- Reads and writes through a pointer into the two mappings of include/lo2s/rb/shm_ringbuf.hpp,
-- and the little-endian `uint64_t` of include/lo2s/rb/events.hpp.
use lo2s.Shared.{ℕ, zero, suc, ◌+◌, ◌-◌, ◌*◌, ◌/◌, ◌%◌, List, [], ◌∷◌, ◌==◌, if◌then◌else◌}
use lo2s.Rb.{ShmRingbuf}

abbrev pub store : (ℕ → ℕ) → ℕ → ℕ → ℕ → ℕ
store m i v j = if j == i then v else m j

-- Bytes stored one after the other from offset `i` of the data area on, going round at `size`.
unfoldable pub write_bytes : ℕ → (ℕ → ℕ) → ℕ → List ℕ → ℕ → ℕ
write_bytes size m i [] = m
write_bytes size m i (b ∷ bs) = write_bytes size (store m (i % size) b) (i + 1) bs

-- A little-endian number of `n` bytes at offset `i`.
unfoldable pub load_le : ℕ → (ℕ → ℕ) → ℕ → ℕ → ℕ
load_le size m zero i = 0
load_le size m (suc n) i = m (i % size) + 256 * load_le size m n (i + 1)

unfoldable pub encode_le : ℕ → ℕ → List ℕ
encode_le zero v = []
encode_le (suc n) v = (v % 256) ∷ encode_le n (v / 256)

-- `memcpy` to, and a `uint64_t` read from, the pointer `p`.
unfoldable pub write_at : ShmRingbuf → ℕ → List ℕ → ShmRingbuf
write_at rb p bs = record rb { bytes = write_bytes rb.header.size rb.bytes (p - rb.start) bs }

unfoldable pub load_u64 : ShmRingbuf → ℕ → ℕ
load_u64 rb p = load_le rb.header.size rb.bytes 8 (p - rb.start)

-- The `n` bytes from offset `i` on, and from the pointer `p` on.
unfoldable pub read_bytes : ℕ → (ℕ → ℕ) → ℕ → ℕ → List ℕ
read_bytes size m i zero = []
read_bytes size m i (suc n) = m (i % size) ∷ read_bytes size m (i + 1) n

unfoldable pub read_at : ShmRingbuf → ℕ → ℕ → List ℕ
unfolding read_bytes
read_at rb p n = read_bytes rb.header.size rb.bytes (p - rb.start) n
