-- ===== src/MultiReader/Drain.antt =====
-- The inner loop of `read` in include/lo2s/perf/multi_reader.hpp: it merges the events of one reader
-- up to the first that another reader's event is before.
use lo2s.Shared.{
  ℕ, zero, suc, ◌+◌, ◌≤◌, ◌<◌, ◌≡◌, ◌≢◌, ◌⊎◌, inl, inr, refl, sym, ap, ◌∙◌, true, false, Bool-cases,
  some, List, [], ◌∷◌, length, get_elem?, get_elem?-lt, get_elem?-set, set, ltb, ltb→lt, Result, ok,
  ◌>>=◌, bind_split, arith,
}
use lo2s.MultiReader.{IoReaderIdentity, ReaderState, push, must_wait, drain}
use lo2s.MultiReader.Merge.{write_all, Earliest, Earliest-all, Merged, stay, written, late}

set_twice :
    {Event : Type 0}
    → (rs : List (List Event)) (i : ℕ) (a b : List Event) → set (set rs i a) i b ≡ set rs i b
set_twice [] i a b = refl
set_twice (x ∷ rs) zero a b = refl
set_twice (x ∷ rs) (suc i) a b = ap (λ r. x ∷ r) (set_twice rs i a b)

set_same :
    {Event : Type 0}
    → (rs : List (List Event)) (i : ℕ) (a : List Event) → get_elem? rs i ≡ some a
    → set rs i a ≡ rs
set_same [] i a g = refl
set_same (x ∷ rs) zero a g = ground (arith, g)
set_same (x ∷ rs) (suc i) a g = ap (λ r. x ∷ r) (set_same rs i a g)

pub set-read :
    {Event : Type 0}
    → (rs : List (List Event)) (i : ℕ) (a b : List Event) → get_elem? rs i ≡ some a
    → get_elem? (set rs i b) i ≡ some b
set-read rs i a b g = ground (arith, get_elem?-set rs i i b (get_elem?-lt rs i a g))

plus_suc : (n k : ℕ) → n + 1 + k ≡ n + suc k
plus_suc n k = omega arith

pub ℕ-cases : (i j : ℕ) → (i ≡ j) ⊎ (i ≢ j)
ℕ-cases i j = ground arith

module _ {Event : Type 0} (time : Event → ℕ) where
  -- Events whose times do not decrease, from `h` on.
  abbrev pub Ascending : ℕ → List Event → Type 0
  Ascending h [] = Unit {0}
  Ascending h (e ∷ es) = (h ≤ time e) × Ascending (time e) es

  same_first : (e f : Event) (es fs : List Event) → some (e ∷ es) ≡ some (f ∷ fs) → time e ≤ time f
  same_first e f es fs g = let h : time e ≡ time f = cc in omega (arith, h)

  -- A time that the queue does not make wait is not behind the first event of another reader.
  abbrev pub Ahead : ℕ → List ReaderState → List (List Event) → Type 0
  Ahead i q rs =
      (j : ℕ) (f : Event) (fs : List Event) (t : ℕ)
      → i ≢ j
      → get_elem? rs j ≡ some (f ∷ fs)
      → must_wait t q ≡ false
      → t ≤ time f

  Ahead-set :
      (i : ℕ) (q : List ReaderState) (rs : List (List Event)) (a es : List Event)
      → get_elem? rs i ≡ some a
      → Ahead i q rs
      → Ahead i q (set rs i es)
  Ahead-set i q rs a es g b j f fs t d k m =
      b j f fs t d (ground (arith, d, k, get_elem?-set rs i j es (get_elem?-lt rs i a g))) m

  Ahead-Earliest :
      (i : ℕ) (q : List ReaderState) (rs : List (List Event)) (e : Event) (es : List Event)
      → get_elem? rs i ≡ some (e ∷ es)
      → Ahead i q rs
      → must_wait (time e) q ≡ false
      → Earliest time (time e) rs
  Ahead-Earliest i q rs e es g b m = Earliest-all time (time e) rs (λ j f fs k. elim (ℕ-cases i j) [
    | inl same ↦ same_first e f es fs (sym (rw same at g) ∙ k)
    | inr d ↦ b j f fs (time e) d k m
  ])

module _ {Event : Type 0} (keys : ℕ → IoReaderIdentity) (time : Event → ℕ) where
  -- Where the loop leaves the queue: as it is with the reader empty, or with the reader pushed, and
  -- its first event waits.
  abbrev pub Left : ℕ → List ReaderState → List Event → List ReaderState → Type 0
  Left i q [] q' = q' ≡ q
  Left i q (e ∷ es) q' =
      (q' ≡ push keys (record { time = time e; identity = i }) q) × (must_wait (time e) q ≡ true)

module _ {Event Writer : Type 0} (keys : ℕ → IoReaderIdentity) (time : Event → ℕ)
    (write : ℕ → Event → Writer → Result Writer) where
  nil_cons : (e : Event) (r : List Event) → [] ≡ e ∷ r → ⊥
  nil_cons e r f = cc

  waits :
      (q : List ReaderState) (e x : Event) (es r : List Event)
      → e ∷ es ≡ x ∷ r
      → must_wait (time e) q ≡ true
      → must_wait (time x) q ≡ false
      → ⊥
  waits q e x es r k f m = cc

  pub record Drained (i : ℕ) (q : List ReaderState) (es : List Event) (h n : ℕ)
      (rs : List (List Event)) : Type 0 where
    pub calls : List (ℕ × Event)
    pub lost : ℕ
    pub highest : ℕ
    pub rest : List Event
    pub queue : List ReaderState
    pub left : Left keys time i q rest queue
    pub merged : Merged time h rs calls lost highest (set rs i rest)
    pub moved :
        (e : Event)
        → (rest_of : List Event) → es ≡ e ∷ rest_of
        → must_wait (time e) q ≡ false
        → 0 < length calls + lost
    pub fresh : Ascending time h es → (lost ≡ 0) × Ascending time highest rest
    pub bounded : must_wait h q ≡ false → must_wait highest q ≡ false
    pub outcome :
        (w : Writer)
        → drain keys time write i q es h n w ≡ (
            write_all time write calls w >>= λ w'. ok (record {
              queue = queue;
              rest = rest;
              highest = highest;
              warned = n + lost;
              writer = w';
            }))

  wait_lem :
      (i : ℕ) (q : List ReaderState) (e : Event) (es : List Event) (h n : ℕ) (w : Writer)
      → must_wait (time e) q ≡ true
      → drain keys time write i q (e ∷ es) h n w
        ≡ ok (record {
          queue = push keys (record { time = time e; identity = i }) q;
          rest = e ∷ es;
          highest = h;
          warned = n + 0;
          writer = w;
        })
  unfolding drain
  wait_lem i q e es h n w f = ground (arith, f)

  late_lem :
      (i : ℕ) (q : List ReaderState) (e : Event) (es : List Event) (h n : ℕ) (w : Writer)
      → must_wait (time e) q ≡ false
      → ltb (time e) h ≡ true
      → drain keys time write i q (e ∷ es) h n w ≡ drain keys time write i q es h (n + 1) w
  unfolding drain
  late_lem i q e es h n w f g = rw (f, g, drain) refl

  write_lem :
      (i : ℕ) (q : List ReaderState) (e : Event) (es : List Event) (h n : ℕ) (w : Writer)
      → must_wait (time e) q ≡ false
      → ltb (time e) h ≡ false
      → drain keys time write i q (e ∷ es) h n w
        ≡ (write i e w >>= drain keys time write i q es (time e) n)
  unfolding drain
  write_lem i q e es h n w f g = rw (f, g, drain) refl

  pub drain-Drained :
      (i : ℕ) (q : List ReaderState) (es : List Event) (h n : ℕ) (rs : List (List Event))
      → get_elem? rs i ≡ some es
      → Ahead time i q rs
      → Drained i q es h n rs
  unfolding drain write_all
  drain-Drained i q [] h n rs g b = record {
    calls = [];
    lost = 0;
    highest = h;
    rest = [];
    queue = q;
    left = refl;
    merged = stay _ _ _ _ _ _ refl refl refl (set_same rs i [] g);
    moved = λ e r f k. absurd (nil_cons e r f);
    fresh = λ a. (refl, a);
    bounded = λ b. b;
    outcome = λ w. ground arith;
  }
  drain-Drained i q (e ∷ es) h n rs g b =
      let next_write =
        drain-Drained i q es (time e) n (set rs i es) (set-read rs i (e ∷ es) es g)
          (Ahead-set time i q rs (e ∷ es) es g b) in
      let next_late =
        drain-Drained i q es h (n + 1) (set rs i es) (set-read rs i (e ∷ es) es g)
          (Ahead-set time i q rs (e ∷ es) es g b) in
      elim (Bool-cases (must_wait (time e) q)) [
        | inl f ↦ record {
          calls = [];
          lost = 0;
          highest = h;
          rest = e ∷ es;
          queue = push keys (record { time = time e; identity = i }) q;
          left = (refl, f);
          merged = stay _ _ _ _ _ _ refl refl refl (set_same rs i (e ∷ es) g);
          moved = λ x r k m. absurd (waits q e x es r k f m);
          fresh = λ a. (refl, a);
          bounded = λ b. b;
          outcome = λ w. wait_lem i q e es h n w f;
        }
        | inr f ↦ elim (Bool-cases (ltb (time e) h)) [
          | inl l ↦ record {
            calls = next_late.calls;
            lost = suc next_late.lost;
            highest = next_late.highest;
            rest = next_late.rest;
            queue = next_late.queue;
            left = next_late.left;
            merged =
                late i e es next_late.lost _ _ _ _ _ _ g (Ahead-Earliest time i q rs e es g b f)
                  (ground (arith, l)) refl
                  (rw (set_twice rs i es next_late.rest) at (next_late.merged));
            moved = λ x r k m. omega arith;
            fresh = λ a. absurd (omega (arith, ltb→lt (time e) h l, a.0));
            bounded = next_late.bounded;
            outcome = λ w.
                late_lem i q e es h n w f l
                ∙ rw (plus_suc n next_late.lost) at (next_late.outcome w);
          }
          | inr l ↦ record {
            calls = (i, e) ∷ next_write.calls;
            lost = next_write.lost;
            highest = next_write.highest;
            rest = next_write.rest;
            queue = next_write.queue;
            left = next_write.left;
            merged =
                written i e es next_write.calls _ _ _ _ _ _ g
                  (Ahead-Earliest time i q rs e es g b f) (ground (arith, l)) refl
                  (rw (set_twice rs i es next_write.rest) at (next_write.merged));
            moved = λ x r k m. omega arith;
            fresh = λ a. next_write.fresh (a.1);
            bounded = λ b. next_write.bounded f;
            outcome = λ w.
                write_lem i q e es h n w f l ∙ bind_split (write i e w) _ _ _ next_write.outcome;
          }
        ]
      ]
