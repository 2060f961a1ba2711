-- ===== src/MultiReader/Ascending.antt =====
-- Readers of include/lo2s/perf/multi_reader.hpp whose events come in the order of their time.
use lo2s.Shared.{
  ℕ, ◌≤◌, ◌<◌, ◌≡◌, ◌≢◌, inl, inr, refl, sym, ap, false, some, List, [], ◌∷◌, length, get_elem?,
  get_elem?-set, set, arith,
}
use lo2s.MultiReader.{ReaderState, must_wait}
use lo2s.MultiReader.Queue.{Before, Sorted, Has, All-at}
use lo2s.MultiReader.Drain.{ℕ-cases, Ascending}
use lo2s.MultiReader.Current.{head_time, head_time-some, Queued}

module _ {Event : Type 0} (time : Event → ℕ) where
  -- No event is late, and every reader has its events in order.
  abbrev pub InOrder : ℕ → List (List Event) → Type 0
  InOrder h rs = (i : ℕ) (es : List Event) → get_elem? rs i ≡ some es → Ascending time h es

  head_time_of :
      (rs : List (List Event)) (i : ℕ) (e : Event) (es : List Event)
      → get_elem? rs i ≡ some (e ∷ es)
      → head_time time rs i ≡ some (time e)
  unfolding head_time
  head_time_of rs i e es g = rw (g, head_time) refl

  not_before :
      (h : ℕ) (q : List ReaderState) (s : ReaderState)
      → Sorted q
      → Has s q
      → must_wait h q ≡ false
      → h ≤ s.time
  unfolding must_wait
  not_before h [] s o k m = elim k [ ]
  not_before h (x ∷ q) s o (inl e) m = rw (sym e) (ground (arith, m))
  not_before h (x ∷ q) s o (inr k) m = let b = All-at (Before x) q s o.0 k in ground (arith, m, b)

  higher :
      (h k : ℕ) (es : List Event)
      → ((e : Event) (r : List Event) → es ≡ e ∷ r → k ≤ time e)
      → Ascending time h es
      → Ascending time k es
  higher h k [] b a = tt
  higher h k (e ∷ es) b a = (b e es refl, a.1)

  read_other :
      (rs : List (List Event)) (i j : ℕ) (rest es : List Event)
      → i < length rs
      → i ≢ j
      → get_elem? (set rs i rest) j ≡ some es
      → get_elem? rs j ≡ some es
  read_other rs i j rest es l d g = ground (arith, get_elem?-set rs i j rest l, g, d)

  the_rest :
      (rs : List (List Event)) (i j : ℕ) (rest es : List Event)
      → i < length rs
      → i ≡ j
      → get_elem? (set rs i rest) j ≡ some es
      → rest ≡ es
  the_rest rs i j rest es l e g = ground (arith, get_elem?-set rs i j rest l, g, e)

  -- A round keeps the order.
  pub InOrder-set :
      (h k : ℕ) (rs : List (List Event)) (s : ReaderState) (q : List ReaderState)
      (rest : List Event)
      → Queued time rs (s ∷ q)
      → s.identity < length rs
      → InOrder h rs
      → Ascending time k rest
      → must_wait k q ≡ false
      → InOrder k (set rs s.identity rest)
  InOrder-set h k rs s q rest u l o a m = λ j es g. elim (ℕ-cases s.identity j) [
    | inl e ↦ rw (the_rest rs s.identity j rest es l e g) at a
    | inr d ↦
        let g' = read_other rs s.identity j rest es l d g in
        higher h k es
          (λ e r f.
            not_before k q (record { time = time e; identity = j }) u.sorted.1
              (in_queue j e r (rw f at g') d) m)
          (o j es g')
  ]
    where
      in_queue :
          (j : ℕ) (e : Event) (r : List Event)
          → get_elem? rs j ≡ some (e ∷ r)
          → s.identity ≢ j
          → Has (record { time = time e; identity = j }) q
      in_queue j e r g d =
          elim (u.all (record { time = time e; identity = j }) (head_time_of rs j e r g)) [
            | inl f ↦ absurd (d (ap ReaderState.identity f))
            | inr k ↦ k
          ]

  -- No entry of the queue is late.
  pub not_late :
      (h : ℕ) (rs : List (List Event)) (s : ReaderState) (q : List ReaderState)
      → Queued time rs (s ∷ q)
      → InOrder h rs
      → must_wait h q ≡ false
  unfolding must_wait
  not_late h rs s [] u o = refl
  not_late h rs s (x ∷ q) u o =
      let (e, es, g, f) = head_time-some time rs x.identity x.time u.current.1.0 in
      let a = o x.identity (e ∷ es) g in ground (arith, f, a.0)
