-- ===== src/MultiReader/Current.antt =====
-- The queue of include/lo2s/perf/multi_reader.hpp and the readers: which entries it has.
use lo2s.Shared.{
  ℕ, zero, suc, ◌≤◌, ◌<◌, ◌≡◌, ◌≢◌, inl, inr, refl, sym, ap, ◌∙◌, false, Option, none, some, All,
  List, [], ◌∷◌, length, get_elem?, get_elem?-set, set, ◌==◌, if◌then◌else◌, arith,
}
use lo2s.MultiReader.{IoReaderIdentity, ReaderState, must_wait, total}
use lo2s.MultiReader.Queue.{
  Before, All-at, All-both, state_ext, Sorted, Has, All-map, push-All, push-Has, push-Sorted,
}
use lo2s.MultiReader.Drain.{Ahead, Left, ℕ-cases}

-- In a queue that is in order, no other entry has the identity of the first.
others :
    (s : ReaderState) (q : List ReaderState)
    → All (Before s) q
    → All (λ x. x.identity ≢ s.identity) q
others s q b = All-map (λ x p e. p.1 (sym e)) q b

module _ {Event : Type 0} (time : Event → ℕ) where
  -- The time of the first event of a reader.
  abbrev pub first_time : List Event → Option ℕ
  first_time [] = none
  first_time (e ∷ es) = some (time e)

  unfoldable pub head_time : List (List Event) → ℕ → Option ℕ
  head_time rs i = elim (get_elem? rs i) [ none ↦ none | some es ↦ first_time es ]

  -- The queue has each reader that is not empty, with the time of its first event.
  pub record Queued (rs : List (List Event)) (q : List ReaderState) : Type 0 where
    pub current : All (λ s. head_time rs s.identity ≡ some s.time) q
    pub sorted : Sorted q
    pub all : (s : ReaderState) → head_time rs s.identity ≡ some s.time → Has s q

  head_time-set :
      (rs : List (List Event)) (i j : ℕ) (es : List Event)
      → i < length rs
      → head_time (set rs i es) j ≡ (if i == j then first_time es else head_time rs j)
  unfolding head_time
  head_time-set rs i j es h = ground (arith, get_elem?-set rs i j es h)

  pub head_time_other :
      (rs : List (List Event)) (i j : ℕ) (es : List Event)
      → i < length rs
      → i ≢ j
      → head_time (set rs i es) j ≡ head_time rs j
  head_time_other rs i j es h d = ground (arith, head_time-set rs i j es h, d)

  head_time_at :
      (rs : List (List Event)) (i : ℕ) (es : List Event)
      → i < length rs
      → head_time (set rs i es) i ≡ first_time es
  head_time_at rs i es h = ground (arith, head_time-set rs i i es h)

  pub head_time-some :
      (rs : List (List Event)) (i t : ℕ)
      → head_time rs i ≡ some t
      → (e : Event) × (es : List Event) × (get_elem? rs i ≡ some (e ∷ es)) × (time e ≡ t)
  unfolding head_time
  head_time-some [] i t h = cc
  head_time-some ([] ∷ rs) zero t h = cc
  head_time-some ((e ∷ es) ∷ rs) zero t h = (e, es, refl, ground (arith, h))
  head_time-some (x ∷ rs) (suc i) t h = head_time-some rs i t h

  -- In a queue that is in order, no other entry has the identity of the first.
  empty_all : (rs : List (List Event)) → ((i t : ℕ) → head_time rs i ≡ some t → ⊥) → total rs ≡ 0
  unfolding head_time
  empty_all [] n = refl
  empty_all ([] ∷ rs) n = omega (arith, empty_all rs (λ i. n (suc i)))
  empty_all ((e ∷ es) ∷ rs) n = elim (n 0 (time e) refl) [ ]

  pub Queued-nil : (rs : List (List Event)) → Queued rs [] → total rs ≡ 0
  Queued-nil rs u = empty_all rs (λ i t h. u.all (record { time = t; identity = i }) h)

  -- The first entry waits for none: its reader's first event is the earliest.
  pub first_goes :
      (s : ReaderState) (q : List ReaderState) → All (Before s) q → must_wait s.time q ≡ false
  unfolding must_wait
  first_goes s [] b = refl
  first_goes s (x ∷ q) b = ground (arith, b.0)

  Has-later :
      (x : ReaderState) (q : List ReaderState) (t : ℕ)
      → Sorted q
      → Has x q
      → must_wait t q ≡ false
      → t ≤ x.time
  unfolding must_wait
  Has-later x [] t k h m = elim h [ ]
  Has-later x (y ∷ q) t k (inl e) m = ground (arith, m, ap ReaderState.time e)
  Has-later x (y ∷ q) t k (inr h) m = let p = All-at (Before y) q x k.0 h in ground (arith, m, p.0)

  -- The queue behind its first entry is ahead of all readers but that of the entry.
  pub Queued-Ahead :
      (rs : List (List Event)) (s : ReaderState) (q : List ReaderState)
      → Queued rs (s ∷ q)
      → Ahead time s.identity q rs
  unfolding head_time
  Queued-Ahead rs s q u j f fs t d g m =
      let x : ReaderState = record { time = time f; identity = j } in
      elim (u.all x (rw (g, head_time) refl)) [
        | inl e ↦ absurd (d (ap ReaderState.identity e))
        | inr h ↦ Has-later x q t u.sorted.1 h m
      ]

  same_time :
      (rs : List (List Event)) (i j t : ℕ) (e : Event) (es : List Event)
      → i < length rs
      → i ≡ j
      → head_time (set rs i (e ∷ es)) j ≡ some t
      → t ≡ time e
  same_time rs i j t e es l f h = ground (arith, h, f, head_time-set rs i j (e ∷ es) l)

  kept :
      (rs : List (List Event)) (s : ReaderState) (q : List ReaderState) (rest : List Event)
      → Queued rs (s ∷ q)
      → s.identity < length rs
      → All (λ x. head_time (set rs s.identity rest) x.identity ≡ some x.time) q
  kept rs s q rest u i =
      All-both (λ x d h. head_time_other rs s.identity x.identity rest i (λ e. d (sym e)) ∙ h) q
        (others s q u.sorted.0) u.current.1

  still_there :
      (rs : List (List Event)) (s x : ReaderState) (q : List ReaderState) (rest : List Event)
      → Queued rs (s ∷ q)
      → s.identity < length rs
      → s.identity ≢ x.identity
      → head_time (set rs s.identity rest) x.identity ≡ some x.time
      → Has x q
  still_there rs s x q rest u i d h =
      elim (u.all x (rw (head_time_other rs s.identity x.identity rest i d) at h)) [
        | inl e ↦ absurd (d (ap ReaderState.identity e))
        | inr k ↦ k
      ]

module _ {Event : Type 0} (keys : ℕ → IoReaderIdentity) (time : Event → ℕ) where
  -- The queue after the first entry's reader is left with `rest`.
  pub Queued-rest :
      (rs : List (List Event)) (s : ReaderState) (q q' : List ReaderState) (rest : List Event)
      → Queued time rs (s ∷ q)
      → s.identity < length rs
      → Left keys time s.identity q rest q'
      → Queued time (set rs s.identity rest) q'
  Queued-rest rs s q q' [] u i l = rw l (record {
    current = kept time rs s q [] u i;
    sorted = u.sorted.1;
    all = λ x h. elim (ℕ-cases s.identity x.identity) [
      | inl e ↦ absurd (ground (arith, h, e, head_time-set time rs s.identity x.identity [] i))
      | inr d ↦ still_there time rs s x q [] u i d h
    ];
  })
  Queued-rest rs s q q' (e ∷ es) u i l =
      let new : ReaderState = record { time = time e; identity = s.identity } in
      rw (l.0) (record {
        current =
            push-All keys _ new q (head_time_at time rs s.identity (e ∷ es) i)
              (kept time rs s q (e ∷ es) u i);
        sorted = push-Sorted keys new q (others s q u.sorted.0) u.sorted.1;
        all = λ x h. elim (ℕ-cases s.identity x.identity) [
          | inl f ↦ push-Has keys new x q (
              inl (
                state_ext x new (same_time time rs s.identity x.identity x.time e es i f h)
                  (sym f)))
          | inr d ↦ push-Has keys new x q (inr (still_there time rs s x q (e ∷ es) u i d h))
        ];
      })
