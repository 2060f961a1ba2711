-- ===== src/PerfReader/Wrap.antt =====
-- The event that `EventReader::get` (include/lo2s/perf/event_reader.hpp) puts together is the one
-- in the ring, whether or not it goes over the ring's end.
use native.Mathlib.Nat.{mod-add-mod, mod-eq_of_lt, mod_self}
use lo2s.Shared.{
  ℕ, zero, suc, ◌+◌, ◌-◌, ◌%◌, ◌≤◌, ◌<◌, ◌≡◌, refl, sym, ap, ◌∙◌, List, [], ◌∷◌, ◌++◌, length,
  arith,
}
use lo2s.Rb.Layout.{Bytes}
use lo2s.PerfReader.{slice, size_of, take_bytes, drop_bytes, field, le_value}

module _ (size : ℕ) (m : ℕ → ℕ) where
  next_inside : (t i : ℕ) → t % size ≡ i → i + 1 < size → (t + 1) % size ≡ i + 1
  next_inside t i e h =
      sym (mod-add-mod t size 1) ∙ ap (λ n. (n + 1) % size) e ∙ mod-eq_of_lt (omega arith)

  next_over : (t i : ℕ) → t % size ≡ i → i + 1 ≡ size → (t + 1) % size ≡ 0
  next_over t i e h =
      sym (mod-add-mod t size 1) ∙ ap (λ n. (n + 1) % size) e ∙ ap (λ n. n % size) h ∙ mod_self size

  pub slice-Bytes :
      (t i : ℕ) (bs : List ℕ)
      → Bytes size m t bs
      → t % size ≡ i
      → i + length bs ≤ size
      → slice m i (length bs) ≡ bs
  unfolding slice
  slice-Bytes t i [] h e k = refl
  slice-Bytes t i (b ∷ []) h e k = ground (arith, h)
  slice-Bytes t i (b ∷ c ∷ bs) h e k =
      let rest =
        slice-Bytes (t + 1) (i + 1) (c ∷ bs) h.1 (next_inside t i e (omega arith)) (omega arith) in
      ground (arith, h.0, rest)

  pub wrap-Bytes :
      (t i k : ℕ) (bs : List ℕ)
      → Bytes size m t bs
      → t % size ≡ i
      → i + suc k ≡ size
      → suc k ≤ length bs
      → length bs ≤ size
      → slice m i (suc k) ++ slice m 0 (length bs - suc k) ≡ bs
  unfolding slice
  wrap-Bytes t i k [] h e f p q = absurd (omega arith)
  wrap-Bytes t i zero (b ∷ bs) h e f p q =
      let rest = slice-Bytes (t + 1) 0 bs h.1 (next_over t i e (omega arith)) (omega arith) in
      ground (arith, h.0, rest)
  wrap-Bytes t i (suc k) (b ∷ bs) h e f p q =
      let rest =
        wrap-Bytes (t + 1) (i + 1) k bs h.1 (next_inside t i e (omega arith)) (omega arith)
          (omega arith) (omega arith) in
      ground (arith, h.0, rest)

  pub slice-take :
      (t i k : ℕ) (bs : List ℕ)
      → Bytes size m t bs
      → t % size ≡ i
      → i + k ≤ size
      → k ≤ length bs
      → slice m i k ≡ take_bytes k bs
  unfolding slice take_bytes
  slice-take t i zero bs h e p q = refl
  slice-take t i (suc k) [] h e p q = absurd (omega arith)
  slice-take t i (suc zero) (b ∷ bs) h e p q = ground (arith, h.0)
  slice-take t i (suc (suc k)) (b ∷ bs) h e p q =
      let rest =
        slice-take (t + 1) (i + 1) (suc k) bs h.1 (next_inside t i e (omega arith)) (omega arith)
          (omega arith) in
      ground (arith, h.0, rest)

take_twice : (n : ℕ) (bs : List ℕ) → take_bytes n (take_bytes n bs) ≡ take_bytes n bs
unfolding take_bytes
take_twice zero bs = refl
take_twice (suc n) [] = refl
take_twice (suc n) (b ∷ bs) = ap (λ r. b ∷ r) (take_twice n bs)

take_drop :
    (i n m : ℕ) (bs : List ℕ)
    → m ≡ i + n
    → take_bytes n (drop_bytes i (take_bytes m bs)) ≡ take_bytes n (drop_bytes i bs)
unfolding take_bytes drop_bytes
take_drop zero n m bs e =
    let f : m ≡ n = omega arith in ap (λ k. take_bytes n (take_bytes k bs)) f ∙ take_twice n bs
take_drop (suc i) n zero bs e = absurd (omega arith)
take_drop (suc i) n (suc m) [] e = refl
take_drop (suc i) n (suc m) (b ∷ bs) e = take_drop i n m bs (omega arith)

-- The size of an event is in its first 8 bytes.
pub size_of-take : (bs : List ℕ) → size_of (take_bytes 8 bs) ≡ size_of bs
unfolding size_of field le_value
size_of-take bs = ap le_value (take_drop 6 2 8 bs refl)
