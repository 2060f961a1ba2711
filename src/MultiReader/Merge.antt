-- ===== src/MultiReader/Merge.antt =====
-- What `read` of include/lo2s/perf/multi_reader.hpp is meant to do: a merge of the readers, as
-- steps. Of several readers whose first events have the earliest time it does not say which is next.
use lo2s.Shared.{
  ℕ, zero, suc, ◌+◌, ◌≤◌, ◌<◌, ◌≡◌, refl, some, List, [], ◌∷◌, ◌++◌, length, get_elem?, set, Result,
  ok, ◌>>=◌, arith,
}
use lo2s.MultiReader.{total}

module _ {Event Writer : Type 0} (time : Event → ℕ)
    (write : ℕ → Event → Writer → Result Writer) where
  -- The calls of the writer, in order.
  unfoldable pub write_all : List (ℕ × Event) → Writer → Result Writer
  write_all [] w = ok w
  write_all (c ∷ cs) w = write (c.0) (c.1) w >>= write_all cs

zero_plus : (k : ℕ) → 0 + k ≡ k
zero_plus k = omega arith

module _ {Event : Type 0} (time : Event → ℕ) where
  -- No reader's first event is before the time `t`.
  abbrev pub Earliest : ℕ → List (List Event) → Type 0
  Earliest t [] = Unit {0}
  Earliest t ([] ∷ rs) = Earliest t rs
  Earliest t ((f ∷ fs) ∷ rs) = (t ≤ time f) × Earliest t rs

  pub Earliest-all :
      (t : ℕ) (rs : List (List Event))
      → ((j : ℕ) (f : Event) (fs : List Event) → get_elem? rs j ≡ some (f ∷ fs) → t ≤ time f)
      → Earliest t rs
  Earliest-all t [] b = tt
  Earliest-all t ([] ∷ rs) b = Earliest-all t rs (λ j. b (suc j))
  Earliest-all t ((f ∷ fs) ∷ rs) b = (b 0 f fs refl, Earliest-all t rs (λ j. b (suc j)))

  -- From the highest time written and the readers, over calls of the writer, to the highest time,
  -- the readers and the number of lost events. The next event is the first of a reader, and the
  -- earliest of all readers' first events; it is lost only if it is late.
  pub data Merged
      : ℕ → List (List Event) → List (ℕ × Event) → ℕ → ℕ → List (List Event) → Type 0 where
    stay :
        (h : ℕ) (rs : List (List Event)) (calls : List (ℕ × Event)) (lost : ℕ) (h' : ℕ)
        (rs' : List (List Event))
        → calls ≡ []
        → lost ≡ 0
        → h' ≡ h
        → rs' ≡ rs
        → Merged h rs calls lost h' rs'
    written :
        (i : ℕ) (e : Event) (es : List Event) (rest : List (ℕ × Event)) (h : ℕ)
        (rs : List (List Event)) (calls : List (ℕ × Event)) (lost : ℕ) (h' : ℕ)
        (rs' : List (List Event))
        → get_elem? rs i ≡ some (e ∷ es)
        → Earliest (time e) rs
        → h ≤ time e
        → calls ≡ (i, e) ∷ rest
        → Merged (time e) (set rs i es) rest lost h' rs'
        → Merged h rs calls lost h' rs'
    late :
        (i : ℕ) (e : Event) (es : List Event) (less : ℕ) (h : ℕ) (rs : List (List Event))
        (calls : List (ℕ × Event)) (lost : ℕ) (h' : ℕ) (rs' : List (List Event))
        → get_elem? rs i ≡ some (e ∷ es)
        → Earliest (time e) rs
        → time e < h
        → lost ≡ suc less
        → Merged h (set rs i es) calls less h' rs'
        → Merged h rs calls lost h' rs'

  pub Merged-trans :
      (h h1 h2 : ℕ) (rs rs1 rs2 : List (List Event)) (c d : List (ℕ × Event)) (n k : ℕ)
      → Merged h rs c n h1 rs1
      → Merged h1 rs1 d k h2 rs2
      → Merged h rs (c ++ d) (n + k) h2 rs2
  Merged-trans h h1 h2 rs rs1 rs2 c d n k (stay _ _ _ _ _ _ a b e f) m =
      rw (a, b, zero_plus k) (rw (e, f) at m)
  Merged-trans h h1 h2 rs rs1 rs2 c d n k (written i e es rest _ _ _ _ _ _ g y l a t) m =
      written i e es (rest ++ d) _ _ _ _ _ _ g y l (rw a refl)
        (Merged-trans _ _ _ _ _ _ rest d n k t m)
  Merged-trans h h1 h2 rs rs1 rs2 c d n k (late i e es less _ _ _ _ _ _ g y l a t) m =
      late i e es (less + k) _ _ _ _ _ _ g y l (omega (arith, a))
        (Merged-trans _ _ _ _ _ _ c d less k t m)

  -- Time points that rise from the first to the last.
  abbrev pub Rising : ℕ → List (ℕ × Event) → ℕ → Type 0
  Rising h [] last = last ≡ h
  Rising h (c ∷ cs) last = (h ≤ time (c.1)) × Rising (time (c.1)) cs last

  pub Merged-Rising :
      (h h' : ℕ) (rs rs' : List (List Event)) (calls : List (ℕ × Event)) (lost : ℕ)
      → Merged h rs calls lost h' rs'
      → Rising h calls h'
  Merged-Rising h h' rs rs' calls lost (stay _ _ _ _ _ _ a b e f) = rw a e
  Merged-Rising h h' rs rs' calls lost (written i x es rest _ _ _ _ _ _ g y l a t) =
      rw a (l, Merged-Rising _ _ _ _ rest lost t)
  Merged-Rising h h' rs rs' calls lost (late i x es less _ _ _ _ _ _ g y l a t) =
      Merged-Rising _ _ _ _ calls less t

  pub total-set :
      (rs : List (List Event)) (i : ℕ) (e : Event) (es : List Event)
      → get_elem? rs i ≡ some (e ∷ es)
      → total rs ≡ suc (total (set rs i es))
  total-set [] i e es g = cc
  total-set (x ∷ rs) zero e es g = ground (arith, g)
  total-set (x ∷ rs) (suc i) e es g = omega (arith, total-set rs i e es g)

  -- Every event is written, lost, or still there.
  pub total-Merged :
      (h h' : ℕ) (rs rs' : List (List Event)) (calls : List (ℕ × Event)) (lost : ℕ)
      → Merged h rs calls lost h' rs'
      → total rs ≡ length calls + lost + total rs'
  total-Merged h h' rs rs' calls lost (stay _ _ _ _ _ _ a b e f) = rw (a, b, f) (omega arith)
  total-Merged h h' rs rs' calls lost (written i x es rest _ _ _ _ _ _ g y l a t) =
      rw a (omega (arith, total-set rs i x es g, total-Merged _ _ _ _ rest lost t))
  total-Merged h h' rs rs' calls lost (late i x es less _ _ _ _ _ _ g y l a t) =
      omega (arith, a, total-set rs i x es g, total-Merged _ _ _ _ calls less t)
