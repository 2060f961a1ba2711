-- ===== src/Counters/Exact.antt =====
-- What the buffers of include/lo2s/perf/counter/counter_buffer.hpp add up for counters that always run.
use lo2s.Shared.{
  ℕ, zero, suc, ◌+◌, ◌-◌, ◌^◌, ◌≤◌, ◌<◌, ◌≡◌, ◌≢◌, refl, sym, ap, ◌∙◌, true, List, [], ◌∷◌, ◌==◌,
  map, arith, ok, length, replicate, length-replicate, Bool-cases, inl, inr,
}
use lo2s.Counters.{
  Doubles, GroupReadFormat, GroupCounterBuffer, diff, value_at, update_counter, update_buffers,
  empty_read, init_group, read_group, read_groups,
}

-- Counters that only grow, by numbers that a `double` has exactly.
abbrev pub Grow : List ℕ → List ℕ → Type 0
Grow [] [] = Unit {0}
Grow [] (c ∷ cs) = ⊥
Grow (p ∷ ps) [] = ⊥
Grow (p ∷ ps) (c ∷ cs) = (p ≤ c) × (c < 2 ^ 53) × Grow ps cs

-- A read of `n` counters behind another, over which the group ran whenever it was enabled.
pub record Runs (n : ℕ) (before now : GroupReadFormat) : Type 0 where
  pub nr : now.nr ≡ n
  pub running : now.time_running ≡ now.time_enabled
  pub later : before.time_enabled < now.time_enabled
  pub bounded : now.time_enabled < 2 ^ 64
  pub grow : Grow before.values now.values

abbrev pub AlwaysRuns : ℕ → GroupReadFormat → List GroupReadFormat → Type 0
AlwaysRuns n before [] = Unit {0}
AlwaysRuns n before (r ∷ rs) = Runs n before r × AlwaysRuns n r rs

abbrev pub last_read : GroupReadFormat → List GroupReadFormat → GroupReadFormat
last_read before [] = before
last_read before (r ∷ rs) = last_read r rs

length-map {ℓ κ} :
    {A : Type ℓ} {B : Type κ} (f : A → B) (xs : List A) → length (map f xs) ≡ length xs
length-map f [] = refl
length-map f (x ∷ xs) = ap suc (length-map f xs)

length-Grow : (ps cs : List ℕ) → Grow ps cs → length cs ≡ length ps
length-Grow [] [] g = refl
length-Grow [] (c ∷ cs) g = elim g [ ]
length-Grow (p ∷ ps) [] g = elim g [ ]
length-Grow (p ∷ ps) (c ∷ cs) (le, lt, g) = ap suc (length-Grow ps cs g)

map-replicate {ℓ} : {B : Type ℓ} (f : ℕ → B) (n : ℕ) → map f (replicate n 0) ≡ replicate n (f 0)
map-replicate f zero = refl
map-replicate f (suc n) = ap (λ bs. f 0 ∷ bs) (map-replicate f n)

module _ {Double : Type 0} (d : Doubles Double)
    (exact : (a b : ℕ)
      → a + b < 2 ^ 53
      → d.add (d.of_number a) (d.of_number b) ≡ d.of_number (a + b)) where
  update_counter-exact :
      (ran p c : ℕ)
      → ran ≢ 0
      → p ≤ c
      → c < 2 ^ 53
      → update_counter d ran ran (diff c p) (d.of_number p) ≡ d.of_number c
  unfolding update_counter
  update_counter-exact ran p c r le lt =
      let grown : diff c p ≡ c - p = omega arith in
      elim (Bool-cases (c - p == 0)) [
        | inl same ↦ rw grown (ground (arith, same, r))
        | inr more ↦
            let sum : d.add (d.of_number p) (d.of_number (c - p)) ≡ d.of_number c =
              exact p (c - p) (omega arith) ∙ ap d.of_number (omega arith) in
            rw grown (ground (arith, more, r, sum))
      ]

  update_buffers-exact :
      (ran : ℕ) (ps cs : List ℕ)
      → ran ≢ 0
      → Grow ps cs
      → update_buffers d
          (λ i. ran)
          (λ i. ran)
          (λ i. diff (value_at i cs) (value_at i ps))
          (map d.of_number ps)
        ≡ map d.of_number cs
  unfolding update_buffers
  update_buffers-exact ran [] [] r g = refl
  update_buffers-exact ran [] (c ∷ cs) r g = elim g [ ]
  update_buffers-exact ran (p ∷ ps) [] r g = elim g [ ]
  update_buffers-exact ran (p ∷ ps) (c ∷ cs) r (le, lt, g) =
      rw (update_counter-exact ran p c r le lt)
        (ap (λ ds. d.of_number c ∷ ds) (update_buffers-exact ran ps cs r g))

  -- What the buffer has behind a read.
  record Sums (n : ℕ) (b : GroupCounterBuffer Double) (r : GroupReadFormat) : Type 0 where
    pub previous : b.previous ≡ r
    pub nr : b.current.nr ≡ n
    pub nr_previous : r.nr ≡ n
    pub running : r.time_running ≡ r.time_enabled
    pub length_lem : length r.values ≡ n
    pub sums : b.accumulated ≡ map d.of_number r.values

  read_group-Sums :
      (n : ℕ) (b : GroupCounterBuffer Double) (before now : GroupReadFormat)
      → Sums n b before
      → Runs n before now
      → (b' : GroupCounterBuffer Double) × (read_group d now b ≡ ok b') × Sums n b' now
  unfolding read_group
  read_group-Sums n b before now s r =
      let ran : ℕ = diff now.time_enabled before.time_enabled in
      let counted : (length b.accumulated == now.nr) ≡ true = ground (
        arith,
        s.sums,
        ap length s.sums,
        length-map d.of_number before.values,
        s.length_lem,
        r.nr,
      ) in
      let two : (b.current.nr == b.previous.nr) ≡ true =
        ground (arith, s.nr, s.nr_previous, ap GroupReadFormat.nr s.previous) in
      (
        record {
          current = b.previous;
          previous = now;
          accumulated =
              update_buffers d (λ i. diff now.time_enabled b.previous.time_enabled)
                (λ i. diff now.time_running b.previous.time_running)
                (λ i. diff (value_at i now.values) (value_at i b.previous.values)) b.accumulated;
        },
        rw (counted, two, read_group) refl,
        record {
          previous = refl;
          nr = ap GroupReadFormat.nr s.previous ∙ s.nr_previous;
          nr_previous = r.nr;
          running = r.running;
          length_lem = length-Grow before.values now.values r.grow ∙ s.length_lem;
          sums =
              rw (s.previous, s.sums, r.running, s.running)
                (update_buffers-exact ran before.values now.values (λ e. omega arith) r.grow);
        },
      )

  read_groups-Sums :
      (n : ℕ) (rs : List GroupReadFormat) (b : GroupCounterBuffer Double) (before : GroupReadFormat)
      → Sums n b before
      → AlwaysRuns n before rs
      → (b' : GroupCounterBuffer Double) × (read_groups d rs b ≡ ok b')
        × Sums n b' (last_read before rs)
  unfolding read_groups
  read_groups-Sums n [] b before s a = (b, refl, s)
  read_groups-Sums n (r ∷ rs) b before s (run, a) =
      let (b1, f, s1) = read_group-Sums n b before r s run in
      let (b2, g, s2) = read_groups-Sums n rs b1 r s1 a in (b2, rw f g, s2)

  -- If the sum of two whole numbers below 2 ^ 53 is exact, then a new buffer of `n` counters takes any
  -- sequence of reads in which the group ran whenever it was enabled, the time goes on, and the
  -- counters do not decrease and stay below 2 ^ 53: no assertion fails, and the accumulated values
  -- are exactly the counters of the last read.
  pub read_groups-last :
      (n : ℕ) (rs : List GroupReadFormat)
      → AlwaysRuns n (empty_read d n) rs
      → (b : GroupCounterBuffer Double) × (read_groups d rs (init_group d n) ≡ ok b)
        × (b.accumulated ≡ map d.of_number (last_read (empty_read d n) rs).values)
  unfolding init_group
  read_groups-last n rs a =
      let (b, f, s) =
        read_groups-Sums n rs (init_group d n) (empty_read d n)
          (record {
            previous = refl;
            nr = refl;
            nr_previous = refl;
            running = refl;
            length_lem = length-replicate n 0;
            sums = sym (map-replicate d.of_number n);
          })
          a in
      (b, f, s.sums)
