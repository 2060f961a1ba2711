-- ===== src/MemoryMap/Valid.antt =====
-- Maps of include/lo2s/memory_map.hpp that hold no address twice: search, and insertion of an entry
-- that overlaps no other.
use lo2s.Shared.{
  ◌≤◌, ◌≡◌, inl, inr, refl, false, Bool-cases, Option, none, some, List, [], ◌∷◌, ltb,
  if◌then◌else◌, All, ok, arith,
}
use lo2s.Address.{Address, address_max, Mapping, point_mapping}
use lo2s.MemoryMap.{map_find, map_erase, map_emplace, emplace_new, erase_inside}
use lo2s.MemoryMap.Order.{
  holds, Sorted, AllApart, at, map_find-at, map_emplace_lem, at-map_emplace, All-map_emplace,
}
use lo2s.MemoryMap.Lookup.{TakenOut, map_erase-TakenOut}

module _ {T : Type 0} where
  -- The object of an entry.
  abbrev pub object : Option (Mapping × T) → Option T
  object none = none
  object (some (m, v)) = some v

  abbrev pub Every : (Mapping → Type 0) → List (Mapping × T) → Type 0
  Every P = All (λ (e : Mapping × T). P e.0)

  -- A map that holds no address twice; `UINT64_MAX` is the end of the last range at most.
  pub record IsValid (r : List (Mapping × T)) : Type 0 where
    pub sorted : Sorted 0 r
    pub bounded : Every (λ m. m.range.end ≤ address_max) r

  pub Every-imp :
      (P Q : Mapping → Type 0) (r : List (Mapping × T))
      → ((m : Mapping) → P m → Q m)
      → Every P r
      → Every Q r
  Every-imp P Q [] f h = tt
  Every-imp P Q ((m, v) ∷ r) f h = (f m h.0, Every-imp P Q r f h.1)

  pub Every-both :
      (P Q : Mapping → Type 0) (r : List (Mapping × T))
      → Every P r
      → Every Q r
      → Every (λ m. P m × Q m) r
  Every-both P Q [] h k = tt
  Every-both P Q ((m, v) ∷ r) h k = ((h.0, k.0), Every-both P Q r h.1 k.1)

  pub Every-ordered :
      (lo : Address) (r : List (Mapping × T))
      → Sorted lo r
      → Every (λ m. m.range.start ≤ m.range.end) r
  Every-ordered lo [] s = tt
  Every-ordered lo ((m, v) ∷ r) s = (s.1, Every-ordered m.range.end r s.2)

  pub Every-map_erase :
      (P : Mapping → Type 0) (k : Mapping) (r : List (Mapping × T))
      → Every P r
      → Every P (map_erase k r)
  unfolding map_erase
  Every-map_erase P k [] h = tt
  Every-map_erase P k ((m, v) ∷ r) h = ground (arith, Every-map_erase P k r h.1)

  pub Every-erase_inside :
      (P : Mapping → Type 0) (k : Mapping) (r : List (Mapping × T))
      → Every P r
      → Every P (erase_inside k r)
  unfolding erase_inside
  Every-erase_inside P k [] h = tt
  Every-erase_inside P k ((m, v) ∷ r) h = ground (arith, Every-erase_inside P k r h.1)

  pub at-none-Every :
      (a : Address) (r : List (Mapping × T)) → at a r ≡ none → Every (λ m. holds a m ≡ false) r
  unfolding at
  at-none-Every a [] h = tt
  at-none-Every a ((m, v) ∷ r) h = ground (arith, at-none-Every a r)

  -- No entry reaches beyond `UINT64_MAX`, so none holds it.
  pub at-max :
      (r : List (Mapping × T)) → Every (λ m. m.range.end ≤ address_max) r → at address_max r ≡ none
  unfolding at
  at-max [] h = refl
  at-max ((m, v) ∷ r) h = ground (arith, at-max r h.1)

  pub map_find-max :
      (r : List (Mapping × T))
      → Every (λ m. m.range.end ≤ address_max) r
      → map_find (point_mapping address_max) r ≡ none
  unfolding map_find point_mapping
  map_find-max [] h = refl
  map_find-max ((m, v) ∷ r) h = ground (arith, map_find-max r h.1)

  pub find-at :
      (a : Address) (r : List (Mapping × T))
      → IsValid r
      → a ≤ address_max
      → map_find (point_mapping a) r ≡ at a r
  find-at a r h b = elim (Bool-cases (ltb a address_max)) [
    | inl below ↦ map_find-at a 0 r h.sorted (ground arith)
    | inr above ↦
        let e : a ≡ address_max = ground arith in
        rw (e, at-max r h.bounded) (map_find-max r h.bounded)
  ]

  -- The entry that the map finds, taken out.
  pub found-TakenOut :
      (a : Address) (r : List (Mapping × T)) (e : Mapping × T)
      → IsValid r
      → a ≤ address_max
      → map_find (point_mapping a) r ≡ some e
      → TakenOut 0 e r (map_erase (point_mapping a) r)
  found-TakenOut a r e h b f = elim (Bool-cases (ltb a address_max)) [
    | inl below ↦ map_erase-TakenOut a 0 r e h.sorted (ground arith) f
    | inr above ↦
        let e' : a ≡ address_max = ground arith in absurd (cc (map_find-max r h.bounded, e'))
  ]

  -- One entry is inserted where it overlaps no other.
  pub record Inserted (k : Mapping) (new : T) (r r' : List (Mapping × T)) : Type 0 where
    pub result : emplace_new k new r ≡ ok r'
    pub valid : IsValid r'
    pub view : (a : Address) → at a r' ≡ (if holds a k then some (k, new) else at a r)

  pub emplace_new-Inserted :
      (k : Mapping) (new : T) (r : List (Mapping × T))
      → IsValid r
      → k.range.start ≤ k.range.end
      → k.range.end ≤ address_max
      → AllApart k r
      → Inserted k new r (map_emplace k new r).0
  unfolding emplace_new
  emplace_new-Inserted k new r h o b p = record {
    result = rw (map_emplace_lem k new 0 r h.sorted o (omega arith) p).0;
    valid = record {
      sorted = (map_emplace_lem k new 0 r h.sorted o (omega arith) p).1;
      bounded = All-map_emplace (λ m. m.range.end ≤ address_max) k new r b h.bounded;
    };
    view = λ a. at-map_emplace a k new 0 r h.sorted o p;
  }
