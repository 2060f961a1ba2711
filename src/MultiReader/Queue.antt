-- ===== src/MultiReader/Queue.antt =====
-- The priority queue of include/lo2s/perf/multi_reader.hpp.
use lo2s.Shared.{
  ℕ, ◌≤◌, ◌≡◌, ◌≢◌, ◌⊎◌, inl, inr, sym, Bool-cases, List, [], ◌∷◌, All, arith, true, false,
}
use lo2s.MultiReader.{IoReaderIdentity, ReaderState, greater, push}

-- Not later, and of another reader.
abbrev pub Before : ReaderState → ReaderState → Type 0
Before a b = (a.time ≤ b.time) × (a.identity ≢ b.identity)

abbrev pub Sorted : List ReaderState → Type 0
Sorted [] = Unit {0}
Sorted (s ∷ q) = All (Before s) q × Sorted q

abbrev pub Has : ReaderState → List ReaderState → Type 0
Has s [] = ⊥
Has s (x ∷ q) = (x ≡ s) ⊎ Has s q

pub All-map :
    {P Q : ReaderState → Type 0}
    → (f : (s : ReaderState) → P s → Q s) (q : List ReaderState) → All P q
    → All Q q
All-map f [] a = tt
All-map f (s ∷ q) a = (f s a.0, All-map f q a.1)

pub All-both :
    {P Q R : ReaderState → Type 0}
    → (f : (s : ReaderState) → P s → Q s → R s) (q : List ReaderState) → All P q
    → All Q q
    → All R q
All-both f [] a b = tt
All-both f (s ∷ q) a b = (f s a.0 b.0, All-both f q a.1 b.1)

pub state_ext : (a b : ReaderState) → a.time ≡ b.time → a.identity ≡ b.identity → a ≡ b
state_ext a b e f = cc

pub All-at :
    (P : ReaderState → Type 0) (q : List ReaderState) (s : ReaderState) → All P q → Has s q → P s
All-at P [] s a h = elim h [ ]
All-at P (x ∷ q) s a (inl e) = rw (sym e) (a.0)
All-at P (x ∷ q) s a (inr h) = All-at P q s a.1 h

module _ (keys : ℕ → IoReaderIdentity) where
  pub push-All :
      (P : ReaderState → Type 0) (s : ReaderState) (q : List ReaderState)
      → P s
      → All P q
      → All P (push keys s q)
  unfolding push
  push-All P s [] p a = (p, tt)
  push-All P s (x ∷ q) p a = elim (Bool-cases (greater keys s x)) [
    | inl g ↦ rw g (a.0, push-All P s q p a.1)
    | inr g ↦ rw g (p, a)
  ]

  pub push-Has :
      (s x : ReaderState) (q : List ReaderState) → (x ≡ s) ⊎ Has x q → Has x (push keys s q)
  unfolding push
  push-Has s x [] h = elim h [ inl e ↦ inl (sym e) | inr f ↦ inr f ]
  push-Has s x (y ∷ q) h = elim (Bool-cases (greater keys s y)) [
    | inl g ↦ rw g (elim h [
      | inl e ↦ inr (push-Has s x q (inl e))
      | inr (inl f) ↦ inl f
      | inr (inr k) ↦ inr (push-Has s x q (inr k))
    ])
    | inr g ↦ rw g (elim h [ inl e ↦ inl (sym e) | inr k ↦ inr k ])
  ]

  greater_lem : (s x : ReaderState) → greater keys s x ≡ true → x.time ≤ s.time
  unfolding greater
  greater_lem s x g = ground (arith, g)

  not_greater_lem : (s x : ReaderState) → greater keys s x ≡ false → s.time ≤ x.time
  unfolding greater
  not_greater_lem s x g = ground (arith, g)

  pub push-Sorted :
      (s : ReaderState) (q : List ReaderState)
      → All (λ x. x.identity ≢ s.identity) q
      → Sorted q
      → Sorted (push keys s q)
  unfolding push
  push-Sorted s [] d o = (tt, tt)
  push-Sorted s (x ∷ q) d o = elim (Bool-cases (greater keys s x)) [
    | inl g ↦ rw g (push-All (Before x) s q (greater_lem s x g, d.0) o.0, push-Sorted s q d.1 o.1)
    | inr g ↦
        let b = not_greater_lem s x g in
        rw g (
          (
            (b, λ e. d.0 (sym e)),
            All-both (λ y c p. (omega (arith, b, p.0), λ e. c (sym e))) q d.1 o.0,
          ),
          o,
        )
  ]
