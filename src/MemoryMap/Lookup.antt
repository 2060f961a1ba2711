-- ===== src/MemoryMap/Lookup.antt =====
-- What is left of the sorted map of include/lo2s/memory_map.hpp when entries are taken out of it.
use lo2s.Shared.{
  ◌≤◌, ◌<◌, ◌≡◌, inl, inr, refl, true, false, Bool-cases, Option-cases, none, some, List, [], ◌∷◌,
  All, arith,
}
use lo2s.Address.{Address, address_max, Mapping, mapping_lt, mapping_in, point_mapping}
use lo2s.MemoryMap.{map_find, map_erase, erase_inside, take_around}
use lo2s.MemoryMap.Order.{holds, Sorted, Sorted-mono, AllApart, at, at-none}

module _ {T : Type 0} where
  after-AllApart :
      (k : Mapping) (lo : Address) (r : List (Mapping × T))
      → Sorted lo r
      → k.range.end ≤ lo
      → AllApart k r
  after-AllApart k lo [] s h = tt
  after-AllApart k lo ((m, v) ∷ r) s h =
      (inr (omega arith), after-AllApart k m.range.end r s.2 (omega arith))

  -- An entry taken out: where it stood, and that the rest goes on as before.
  pub record TakenOut (lo : Address) (e : Mapping × T) (r r' : List (Mapping × T)) : Type 0 where
    pub from : lo ≤ e.0.range.start
    pub ordered : e.0.range.start ≤ e.0.range.end
    pub sorted : Sorted lo r'
    pub apart : AllApart e.0 r'
    pub inside : (a : Address) → holds a e.0 ≡ true → at a r ≡ some e
    pub outside : (a : Address) → holds a e.0 ≡ false → at a r' ≡ at a r
    pub gone : (a : Address) → holds a e.0 ≡ true → at a r' ≡ none

  TakenOut-first :
      (lo : Address) (m : Mapping) (v : T) (r : List (Mapping × T))
      → Sorted lo ((m, v) ∷ r)
      → TakenOut lo (m, v) ((m, v) ∷ r) r
  unfolding at
  TakenOut-first lo m v r s = record {
    from = s.0;
    ordered = s.1;
    sorted = Sorted-mono r (omega arith) s.2;
    apart = after-AllApart m m.range.end r s.2 (omega arith);
    inside = λ a h. rw h;
    outside = λ a h. rw h;
    gone = λ a h. at-none a m.range.end r s.2 (ground arith);
  }

  TakenOut-later :
      (lo : Address) (m : Mapping) (v : T) (e : Mapping × T) (r r' : List (Mapping × T))
      → Sorted lo ((m, v) ∷ r)
      → TakenOut m.range.end e r r'
      → TakenOut lo e ((m, v) ∷ r) ((m, v) ∷ r')
  unfolding at
  TakenOut-later lo m v e r r' s t = record {
    from = omega (arith, t.from);
    ordered = t.ordered;
    sorted = (s.0, s.1, t.sorted);
    apart = (inl t.from, t.apart);
    inside = λ a h. ground (arith, t.inside a h, t.from);
    outside = λ a h. ground (arith, t.outside a h);
    gone = λ a h. ground (arith, t.gone a h, t.from);
  }

  pub map_erase-TakenOut :
      (a lo : Address) (r : List (Mapping × T)) (e : Mapping × T)
      → Sorted lo r
      → a < address_max
      → map_find (point_mapping a) r ≡ some e
      → TakenOut lo e r (map_erase (point_mapping a) r)
  unfolding map_find map_erase point_mapping
  map_erase-TakenOut a lo [] e s b h = cc
  map_erase-TakenOut a lo ((m, v) ∷ r) e s b h =
      elim (Bool-cases (mapping_lt m (point_mapping a))) [
        | inl before ↦ rw before (
            TakenOut-later lo m v e r (map_erase (point_mapping a) r) s
              (map_erase-TakenOut a m.range.end r e s.2 b (rw before at h)))
        | inr reached ↦ elim (Bool-cases (mapping_lt (point_mapping a) m)) [
          | inl behind ↦ absurd (cc (rw (reached, behind) at h))
          | inr here ↦
              let e' : e ≡ (m, v) = cc (rw (reached, here) at h) in
              rw (reached, here, e') (TakenOut-first lo m v r s)
        ]
      ]

  pub take_around-TakenOut :
      (k : Mapping) (lo : Address) (r r' : List (Mapping × T)) (e : Mapping × T)
      → Sorted lo r
      → take_around k r ≡ some (e, r')
      → TakenOut lo e r r' × (mapping_in k e.0 ≡ true)
  unfolding take_around
  take_around-TakenOut k lo [] r' e s h = cc
  take_around-TakenOut k lo ((m, v) ∷ r) r' e s h = elim (Bool-cases (mapping_in k m)) [
    | inl around ↦
        let e' : e ≡ (m, v) = cc (rw around at h) in
        let r'' : r' ≡ r = cc (rw around at h) in rw (e', r'') (TakenOut-first lo m v r s, around)
    | inr apart ↦ elim (Option-cases (take_around k r)) [
      | inl nowhere ↦ cc (rw (apart, nowhere) at h)
      | inr ((e2, r2), found) ↦
          let e' : e ≡ e2 = cc (rw (apart, found) at h) in
          let r'' : r' ≡ (m, v) ∷ r2 = cc (rw (apart, found) at h) in
          let (t, i) = take_around-TakenOut k m.range.end r r2 e2 s.2 found in
          rw (e', r'') (TakenOut-later lo m v e2 r r2 s t, i)
    ]
  ]

  pub take_around-none :
      (k : Mapping) (r : List (Mapping × T))
      → take_around k r ≡ none
      → All (λ (e : Mapping × T). mapping_in k e.0 ≡ false) r
  unfolding take_around
  take_around-none k [] h = tt
  take_around-none k ((m, v) ∷ r) h = ground (arith, take_around-none k r)

  pub erase_inside-Sorted :
      (k : Mapping) (lo : Address) (r : List (Mapping × T))
      → Sorted lo r
      → Sorted lo (erase_inside k r)
  unfolding erase_inside
  erase_inside-Sorted k lo [] s = tt
  erase_inside-Sorted k lo ((m, v) ∷ r) s = ground (
    arith,
    erase_inside-Sorted k m.range.end r s.2,
    Sorted-mono {lo = m.range.end} {lo' = lo} (erase_inside k r),
  )

  pub at-erase_inside :
      (a : Address) (k : Mapping) (r : List (Mapping × T))
      → holds a k ≡ false
      → at a (erase_inside k r) ≡ at a r
  unfolding erase_inside at
  at-erase_inside a k [] h = refl
  at-erase_inside a k ((m, v) ∷ r) h = ground (arith, at-erase_inside a k r h)

  pub erase_inside-All :
      (k : Mapping) (r : List (Mapping × T))
      → All (λ (e : Mapping × T). mapping_in e.0 k ≡ false) (erase_inside k r)
  unfolding erase_inside
  erase_inside-All k [] = tt
  erase_inside-All k ((m, v) ∷ r) = ground (arith, erase_inside-All k r)

  pub take_around-All :
      (P : Mapping → Type 0) (k : Mapping) (r r' : List (Mapping × T)) (e : Mapping × T)
      → take_around k r ≡ some (e, r')
      → All (λ (e : Mapping × T). P e.0) r
      → P e.0 × All (λ (e : Mapping × T). P e.0) r'
  unfolding take_around
  take_around-All P k [] r' e f h = cc
  take_around-All P k ((m, v) ∷ r) r' e f h = elim (Bool-cases (mapping_in k m)) [
    | inl around ↦
        let e' : e ≡ (m, v) = cc (rw around at f) in
        let r'' : r' ≡ r = cc (rw around at f) in rw (e', r'') h
    | inr apart ↦ elim (Option-cases (take_around k r)) [
      | inl nowhere ↦ cc (rw (apart, nowhere) at f)
      | inr ((e2, r2), found) ↦
          let e' : e ≡ e2 = cc (rw (apart, found) at f) in
          let r'' : r' ≡ (m, v) ∷ r2 = cc (rw (apart, found) at f) in
          let (p, all) = take_around-All P k r r2 e2 found h.1 in rw (e', r'') (p, (h.0, all))
    ]
  ]
