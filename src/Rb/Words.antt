-- ===== src/Rb/Words.antt =====
-- The `uint64_t` fields of an event in the ring of src/rb/: how a struct of them is stored and read.
use lo2s.Shared.{ℕ, zero, suc, ◌<◌, ◌^◌, ◌≡◌, refl, List, [], ◌∷◌, ◌++◌}
use lo2s.Rb.Memory.{encode_le}
use lo2s.Rb.Layout.{decode_le, decode_le-encode_le}
use lo2s.Rb.Offsets.{Payload}

-- Fields one behind the other, and bytes behind them.
unfoldable pub words : List ℕ → Payload → Payload
unfolding encode_le
words [] bs = bs
words (w ∷ ws) bs = encode_le 8 w ++ words ws bs

abbrev pub drop : ℕ → Payload → Payload
drop zero bs = bs
drop (suc n) [] = []
drop (suc n) (b ∷ bs) = drop n bs

-- The field with index `i`.
unfoldable pub word_at : ℕ → Payload → ℕ
unfolding decode_le
word_at zero bs = decode_le 8 bs
word_at (suc i) bs = word_at i (drop 8 bs)

pub word_at-zero : (w : ℕ) (bs : Payload) → w < 2 ^ 64 → word_at 0 (encode_le 8 w ++ bs) ≡ w
unfolding word_at
word_at-zero w bs h = decode_le-encode_le 8 w bs h

pub word_at-suc : (i w : ℕ) (bs : Payload) → word_at (suc i) (encode_le 8 w ++ bs) ≡ word_at i bs
unfolding word_at encode_le
word_at-suc i w bs = refl
