-- ===== src/Resolvers/Valid.antt =====
-- The maps of src/resolvers.cpp hold no address twice.
use lo2s.Shared.{
  ◌+◌, ◌%◌, ◌^◌, ◌≤◌, ◌<◌, ◌≡◌, ◌⊎◌, inl, inr, refl, ltb, ℤ, eq_ℤ, eq_ℤ_iff, true, false,
  Bool-cases, some, List, [], ◌∷◌, All, ok, err, Fault, arith,
}
use lo2s.Address.{Mapping, mapping, address_max}
use lo2s.MemoryMap.Valid.{IsValid}
use lo2s.SampleWriter.{MmapEvent}
use lo2s.Resolvers.{resolver_map, put_map}

-- Addresses of 64 bits, and at least one of them.
abbrev pub IsMmap : MmapEvent → Type 0
IsMmap e = (e.addr < 2 ^ 64) × (0 < e.len) × (e.len < 2 ^ 64)

pub mapping_lem :
    (e : MmapEvent)
    → IsMmap e
    → ((fault : Fault) × (mapping e.addr ((e.addr + e.len) % 2 ^ 64) e.pgoff ≡ err fault))
      ⊎ ((m : Mapping) × (mapping e.addr ((e.addr + e.len) % 2 ^ 64) e.pgoff ≡ ok m)
          × (m.range.start < m.range.end)
          × (m.range.end ≤ address_max))
unfolding mapping
mapping_lem e h = elim (Bool-cases (ltb (e.addr + e.len) (2 ^ 64))) [
  | inl f ↦ inr (
    record { range = record { start = e.addr; end = e.addr + e.len }; pgoff = e.pgoff },
    ground (arith, f, h),
    ground (arith, f, h.1),
    ground (arith, f),
  )
  | inr f ↦ inl (Fault.runtime_error, ground (arith, f, h))
]

pub same : (p : ℤ) → eq_ℤ p p ≡ true
same p = ground arith

module _ {T : Type 0} where
  abbrev pub AllValid : List (ℤ × List (Mapping × T)) → Type 0
  AllValid rs = All (λ e. IsValid e.1) rs

  pub map_inj : (m n : List (Mapping × T)) → some m ≡ some n → m ≡ n
  map_inj m n e = cc

  pub put_map-AllValid :
      (p : ℤ) (m : List (Mapping × T)) (rs : List (ℤ × List (Mapping × T)))
      → IsValid m
      → AllValid rs
      → AllValid (put_map p m rs)
  unfolding put_map
  put_map-AllValid p m [] v a = (v, tt)
  put_map-AllValid p m ((q, n) ∷ rs) v a = elim (Bool-cases (eq_ℤ q p)) [
    | inl e ↦ rw e (v, a.1)
    | inr e ↦ rw e (a.0, put_map-AllValid p m rs v a.1)
  ]

  pub resolver_map-IsValid :
      (p : ℤ) (m : List (Mapping × T)) (rs : List (ℤ × List (Mapping × T)))
      → AllValid rs
      → resolver_map p rs ≡ some m
      → IsValid m
  unfolding resolver_map
  resolver_map-IsValid p m [] a e = cc
  resolver_map-IsValid p m ((q, n) ∷ rs) a e = elim (Bool-cases (eq_ℤ q p)) [
    | inl f ↦ rw (map_inj n m (rw f at e)) at (a.0)
    | inr f ↦ resolver_map-IsValid p m rs a.1 (rw f at e)
  ]

  pub resolver_map-put_map :
      (p : ℤ) (m : List (Mapping × T)) (rs : List (ℤ × List (Mapping × T)))
      → resolver_map p (put_map p m rs) ≡ some m
  unfolding resolver_map put_map
  resolver_map-put_map p m [] = rw (same p) refl
  resolver_map-put_map p m ((q, n) ∷ rs) = elim (Bool-cases (eq_ℤ q p)) [
    | inl f ↦ rw (f, f) refl
    | inr f ↦ rw (f, f) (resolver_map-put_map p m rs)
  ]

  pub resolver_map-put_map_other :
      (p q : ℤ) (m : List (Mapping × T)) (rs : List (ℤ × List (Mapping × T)))
      → eq_ℤ p q ≡ false
      → resolver_map q (put_map p m rs) ≡ resolver_map q rs
  unfolding resolver_map put_map
  resolver_map-put_map_other p q m [] e = rw e refl
  resolver_map-put_map_other p q m ((k, n) ∷ rs) e = elim (Bool-cases (eq_ℤ k p)) [
    | inl f ↦ let g : eq_ℤ k q ≡ false = ground (arith, e, f, eq_ℤ_iff k p) in rw (f, g) refl
    | inr f ↦ ground (arith, f, resolver_map-put_map_other p q m rs e)
  ]
