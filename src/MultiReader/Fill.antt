-- ===== src/MultiReader/Fill.antt =====
-- The first loop of `read` in include/lo2s/perf/multi_reader.hpp: it fills the queue.
use lo2s.Shared.{
  ℕ, suc, ◌+◌, ◌<◌, ◌≡◌, ◌⊎◌, inl, inr, refl, Option, none, some, All, List, [], ◌∷◌, arith, ◌-◌,
}
use lo2s.MultiReader.{IoReaderIdentity, ReaderState, push, fill}
use lo2s.MultiReader.Queue.{Sorted, Has, All-map, push-All, push-Has, push-Sorted, state_ext}
use lo2s.MultiReader.Current.{head_time, Queued}

module _ {Event : Type 0} (keys : ℕ → IoReaderIdentity) (time : Event → ℕ) where
  -- The queue has the readers at the places below `i`.
  record Filled (readers : List (List Event)) (i : ℕ) (q : List ReaderState) : Type 0 where
    current : All (λ s. head_time time readers s.identity ≡ some s.time) q
    below : All (λ s. s.identity < i) q
    sorted : Sorted q
    all :
        (s : ReaderState)
        → s.identity < i
        → head_time time readers s.identity ≡ some s.time
        → Has s q

  skip :
      (readers : List (List Event)) (i : ℕ) (q : List ReaderState)
      → head_time time readers i ≡ none
      → Filled readers i q
      → Filled readers (i + 1) q
  skip readers i q h f = record {
    current = f.current;
    below = All-map (λ s b. omega (arith, b)) q f.below;
    sorted = f.sorted;
    all = λ s b k. elim (last_or_below s.identity i b) [
      | inl e ↦ absurd (nothing readers s.identity i s.time h k e)
      | inr l ↦ f.all s l k
    ];
  }
    where
      last_or_below : (j i : ℕ) → j < i + 1 → (j ≡ i) ⊎ (j < i)
      last_or_below j i b = ground (arith, b)

      nothing :
          (readers : List (List Event)) (j i t : ℕ)
          → head_time time readers i ≡ none
          → head_time time readers j ≡ some t
          → j ≡ i
          → ⊥
      nothing readers j i t h k e = ground (arith, h, rw e at k)

  add :
      (readers : List (List Event)) (i t : ℕ) (q : List ReaderState)
      → head_time time readers i ≡ some t
      → Filled readers i q
      → Filled readers (i + 1) (push keys (record { time = t; identity = i }) q)
  add readers i t q h f =
      let new : ReaderState = record { time = t; identity = i } in
      record {
        current = push-All keys _ new q h f.current;
        below = push-All keys _ new q (omega arith) (All-map (λ s b. omega (arith, b)) q f.below);
        sorted =
            push-Sorted keys new q (All-map (λ s b. λ e. absurd (omega (arith, b, e))) q f.below)
              f.sorted;
        all = λ s b k. elim (last_or_below s.identity i b) [
          | inl e ↦
              push-Has keys new s q
                (inl (state_ext s new (the_time readers s.identity i s.time t h k e) e))
          | inr l ↦ push-Has keys new s q (inr (f.all s l k))
        ];
      }
    where
      last_or_below : (j i : ℕ) → j < i + 1 → (j ≡ i) ⊎ (j < i)
      last_or_below j i b = ground (arith, b)

      the_time :
          (readers : List (List Event)) (j i u t : ℕ)
          → head_time time readers i ≡ some t
          → head_time time readers j ≡ some u
          → j ≡ i
          → u ≡ t
      the_time readers j i u t h k e = ground (arith, h, rw e at k)

  none_behind :
      (readers : List (List Event)) (i j t : ℕ)
      → ((k : ℕ) → head_time time readers (i + k) ≡ none)
      → head_time time readers j ≡ some t
      → j < i
  none_behind readers i j t n h = elim (below_or_not j i) [
    | inl l ↦ l
    | inr e ↦ absurd (not_there (head_time time readers j) t (rw e at (n (j - i))) h)
  ]
    where
      below_or_not : (j i : ℕ) → (j < i) ⊎ (i + (j - i) ≡ j)
      below_or_not j i = ground arith

      not_there : (o : Option ℕ) (t : ℕ) → o ≡ none → o ≡ some t → ⊥
      not_there o t e f = cc

  at_place : (i : ℕ) → i + 0 ≡ i
  at_place i = omega arith

  zero_place : (j : ℕ) → 0 + j ≡ j
  zero_place j = omega arith

  next_place : (i j : ℕ) → i + 1 + j ≡ i + suc j
  next_place i j = omega arith

  fill-Queued :
      (readers : List (List Event)) (i : ℕ) (rs : List (List Event)) (q : List ReaderState)
      → ((j : ℕ) → head_time time readers (i + j) ≡ head_time time rs j)
      → Filled readers i q
      → Queued time readers (fill keys time i rs q)
  unfolding fill head_time
  fill-Queued readers i [] q h f = record {
    current = f.current;
    sorted = f.sorted;
    all = λ s k. f.all s (none_behind readers i s.identity s.time h k) k;
  }
  fill-Queued readers i ([] ∷ rs) q h f =
      fill-Queued readers (i + 1) rs q (λ j. rw (next_place i j) (h (suc j)))
        (skip readers i q (rw (at_place i) at (h 0)) f)
  fill-Queued readers i ((e ∷ es) ∷ rs) q h f =
      fill-Queued readers (i + 1) rs _ (λ j. rw (next_place i j) (h (suc j)))
        (add readers i (time e) q (rw (at_place i) at (h 0)) f)

  pub fill_all : (readers : List (List Event)) → Queued time readers (fill keys time 0 readers [])
  fill_all readers =
      fill-Queued readers 0 readers [] (λ j. rw (zero_place j) refl)
        (record { current = tt; below = tt; sorted = tt; all = λ s b k. absurd (omega (arith, b)) })
