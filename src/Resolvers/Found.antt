-- ===== src/Resolvers/Found.antt =====
-- What a process finds in its map after `emplace_resolvers` of src/perf/sample/writer.cpp.
use lo2s.Shared.{
  ℕ, ◌+◌, ◌%◌, ◌^◌, ◌≤◌, ◌≡◌, inl, inr, refl, ◌∙◌, ℤ, eq_ℤ, eq_ℤ_iff, Bool-cases, Option, none,
  some, Option-cases, List, [], ◌∷◌, ◌++◌, All, if◌then◌else◌, Result, ok, err, Fault, bind_inv,
  arith,
}
use lo2s.Address.{Address, Mapping, mapping, address_max}
use lo2s.MemoryMap.{emplace, find}
use lo2s.MemoryMap.Order.{holds}
use lo2s.MemoryMap.Valid.{object, IsValid}
use lo2s.MemoryMap.Emplace.{cut}
use lo2s.MemoryMap.Search.{emplace-find}
use lo2s.SampleWriter.{MmapEvent}
use lo2s.Resolvers.{
  resolver_map, put_map, emplace_map, emplace_at, emplace_mappings_for, emplace_event,
  emplace_resolvers,
}
use lo2s.Resolvers.Valid.{
  IsMmap, AllValid, mapping_lem, put_map-AllValid, resolver_map-IsValid, resolver_map-put_map,
  resolver_map-put_map_other,
}

module _ {T : Type 0} (function_resolver_for : List ℕ → Option T)
    (initial : ℤ → List (Mapping × T)) where
  skipped :
      (e : MmapEvent) (fault : Fault) (rs : List (ℤ × List (Mapping × T)))
      → mapping e.addr ((e.addr + e.len) % 2 ^ 64) e.pgoff ≡ err fault
      → emplace_event function_resolver_for initial e rs ≡ ok rs
  unfolding emplace_event
  skipped e fault rs h = rw (h, emplace_event) refl

  nothing_known :
      (e : MmapEvent) (m : Mapping) (rs : List (ℤ × List (Mapping × T)))
      → mapping e.addr ((e.addr + e.len) % 2 ^ 64) e.pgoff ≡ ok m
      → function_resolver_for e.filename ≡ none
      → emplace_event function_resolver_for initial e rs ≡ ok (emplace_map e.pid (initial e.pid) rs)
  unfolding emplace_event emplace_mappings_for
  nothing_known e m rs h f = rw (h, f, emplace_event, emplace_mappings_for) refl

  resolved :
      (e : MmapEvent) (m : Mapping) (fr : T) (rs rs' : List (ℤ × List (Mapping × T)))
      → mapping e.addr ((e.addr + e.len) % 2 ^ 64) e.pgoff ≡ ok m
      → function_resolver_for e.filename ≡ some fr
      → emplace_at e.pid m fr (emplace_map e.pid (initial e.pid) rs) ≡ ok rs'
      → emplace_event function_resolver_for initial e rs ≡ ok rs'
  unfolding emplace_event emplace_mappings_for
  resolved e m fr rs rs' h f g = rw (h, f, g, emplace_event, emplace_mappings_for) refl

  -- The map of a process: the one it has, or the one that it starts with.
  unfoldable pub map_of : ℤ → List (ℤ × List (Mapping × T)) → List (Mapping × T)
  map_of q rs = elim (resolver_map q rs) [ none ↦ initial q | some m ↦ m ]

  -- What a process finds at an address behind an event, with the map it had before: the event's
  -- object if the event is the process's and holds the address, unless its end wraps around or
  -- there is no object for its file.
  abbrev pub found_after : MmapEvent → ℤ → Address → List (Mapping × T) → Option T
  found_after e q a before =
      if eq_ℤ e.pid q
      then elim (mapping e.addr ((e.addr + e.len) % 2 ^ 64) e.pgoff) [
        | err fault ↦ object (find a before)
        | ok k ↦ elim (function_resolver_for e.filename) [
          | none ↦ object (find a before)
          | some new ↦
              if holds a k
              then some new
              else if cut k (find a before)
              then none
              else object (find a before)
        ]
      ]
      else object (find a before)

  map_of-put_map :
      (p q : ℤ) (m : List (Mapping × T)) (rs : List (ℤ × List (Mapping × T)))
      → map_of q (put_map p m rs) ≡ (if eq_ℤ p q then m else map_of q rs)
  unfolding map_of
  map_of-put_map p q m rs = elim (Bool-cases (eq_ℤ p q)) [
    | inl e ↦
        let f : p ≡ q = ground (arith, e, eq_ℤ_iff p q) in
        ground (arith, e, f, resolver_map-put_map p m rs)
    | inr e ↦ ground (arith, e, resolver_map-put_map_other p q m rs e)
  ]

  map_of-emplace_map :
      (p q : ℤ) (rs : List (ℤ × List (Mapping × T)))
      → map_of q (emplace_map p (initial p) rs) ≡ map_of q rs
  unfolding map_of emplace_map
  map_of-emplace_map p q rs = elim (Option-cases (resolver_map p rs)) [
    | inl e ↦
        rw (e, emplace_map) (map_of-put_map p q (initial p) rs ∙ ground (arith, e, eq_ℤ_iff p q))
    | inr (n, e) ↦ rw (e, emplace_map) refl
  ]

  -- The map of the event's process when the mapping is put into it.
  emplace_map-there :
      ((p : ℤ) → IsValid (initial p))
      → (p : ℤ) (rs : List (ℤ × List (Mapping × T))) → AllValid rs
      → AllValid (emplace_map p (initial p) rs)
        × IsValid (map_of p rs)
        × (resolver_map p (emplace_map p (initial p) rs) ≡ some (map_of p rs))
  unfolding emplace_map map_of
  emplace_map-there i p rs a = elim (Option-cases (resolver_map p rs)) [
    | inl e ↦
        rw (e, emplace_map, map_of)
          (put_map-AllValid p (initial p) rs (i p) a, i p, resolver_map-put_map p (initial p) rs)
    | inr (n, e) ↦ rw (e, emplace_map, map_of) (a, resolver_map-IsValid p n rs a e, e)
  ]

  emplace_at_lem :
      (p : ℤ) (m : Mapping) (fr : T) (n n' : List (Mapping × T))
      (rs : List (ℤ × List (Mapping × T)))
      → resolver_map p rs ≡ some n
      → emplace m fr n ≡ ok n'
      → emplace_at p m fr rs ≡ ok (put_map p n' rs)
  unfolding emplace_at
  emplace_at_lem p m fr n n' rs e f = rw (e, f, emplace_at) refl

  -- What one event makes of the maps, for a process `q` and an address `a`.
  record Mapped (e : MmapEvent) (q : ℤ) (a : Address) (rs : List (ℤ × List (Mapping × T)))
      (outcome : Result (List (ℤ × List (Mapping × T)))) : Type 0 where
    maps : List (ℤ × List (Mapping × T))
    result : outcome ≡ ok maps
    valid : AllValid maps
    found : object (find a (map_of q maps)) ≡ found_after e q a (map_of q rs)

  emplace_event-Mapped :
      ((p : ℤ) → IsValid (initial p))
      → (e : MmapEvent) (rs : List (ℤ × List (Mapping × T))) (q : ℤ) (a : Address) → IsMmap e
      → AllValid rs
      → a ≤ address_max
      → Mapped e q a rs (emplace_event function_resolver_for initial e rs)
  emplace_event-Mapped i e rs q a h v b = elim (mapping_lem e h) [
    | inl (fault, f) ↦ record {
      maps = rs;
      result = skipped e fault rs f;
      valid = v;
      found = ground (arith, f);
    }
    | inr (m, f, order, bound) ↦
        let (v1, vm, there) = emplace_map-there i e.pid rs v in
        let made = emplace_map e.pid (initial e.pid) rs in
        elim (Option-cases (function_resolver_for e.filename)) [
          | inl g ↦ record {
            maps = made;
            result = nothing_known e m rs f g;
            valid = v1;
            found = ground (arith, f, g, map_of-emplace_map e.pid q rs);
          }
          | inr (fr, g) ↦
              let (n', k, v', found) = emplace-find m fr (map_of e.pid rs) a vm order bound b in
              record {
                maps = put_map e.pid n' made;
                result = resolved e m fr rs _ f g (emplace_at_lem e.pid m fr _ n' made there k);
                valid = put_map-AllValid e.pid n' made v' v1;
                found = ground (
                  arith,
                  f,
                  g,
                  found,
                  eq_ℤ_iff e.pid q,
                  map_of-put_map e.pid q n' made,
                  map_of-emplace_map e.pid q rs,
                );
              }
        ]
  ]

  emplace_resolvers-AllValid :
      ((p : ℤ) → IsValid (initial p))
      → (es : List MmapEvent) (rs : List (ℤ × List (Mapping × T))) → All IsMmap es
      → AllValid rs
      → (rs' : List (ℤ × List (Mapping × T))) × (emplace_resolvers function_resolver_for initial es
            rs
          ≡ ok rs')
        × AllValid rs'
  unfolding emplace_resolvers
  emplace_resolvers-AllValid i [] rs h v = (rs, refl, v)
  emplace_resolvers-AllValid i (e ∷ es) rs h v =
      let r = emplace_event-Mapped i e rs e.pid 0 h.0 v (omega arith) in
      let (rs2, g, v2) = emplace_resolvers-AllValid i es r.maps h.1 r.valid in
      (rs2, rw (r.result) g, v2)

  last_event :
      (es : List MmapEvent) (e : MmapEvent) (rs rs1 rs' : List (ℤ × List (Mapping × T)))
      → emplace_resolvers function_resolver_for initial es rs ≡ ok rs1
      → emplace_event function_resolver_for initial e rs1 ≡ ok rs'
      → emplace_resolvers function_resolver_for initial (es ++ e ∷ []) rs ≡ ok rs'
  unfolding emplace_resolvers
  last_event [] e rs rs1 rs' f g = ground (arith, f, g)
  last_event (x ∷ es) e rs rs1 rs' f g =
      let (r, k, l) = bind_inv (emplace_event function_resolver_for initial x rs) _ f in
      rw k (last_event es e r rs1 rs' l g)

  -- Mappings of at least one address, in any order and for any processes, are put into maps that
  -- hold no address twice without a fault, and every map again holds no address twice; a process
  -- with no map yet has the one that it starts with, which holds no address twice either. At any
  -- address, the process of the last mapping then finds the object for the mapping's file if the
  -- mapping holds the address; else it finds what it found before that mapping, unless that was in an
  -- entry that ends behind the start of the mapping and before its end: then it finds nothing.
  -- Every other process finds what it found before that mapping, and so does its own if the
  -- mapping's end wraps around or there is no object for its file.
  pub emplace_resolvers-find :
      ((p : ℤ) → IsValid (initial p))
      → (es : List MmapEvent) (e : MmapEvent) (rs : List (ℤ × List (Mapping × T))) (q : ℤ)
        (a : Address)
      → All IsMmap es
      → IsMmap e
      → AllValid rs
      → a ≤ address_max
      → (rs1 rs' : List (ℤ × List (Mapping × T))) × (emplace_resolvers function_resolver_for initial
            es rs
          ≡ ok rs1)
        × (emplace_resolvers function_resolver_for initial (es ++ e ∷ []) rs ≡ ok rs')
        × AllValid rs'
        × (object (find a (map_of q rs')) ≡ found_after e q a (map_of q rs1))
  emplace_resolvers-find i es e rs q a hs h v b =
      let (rs1, f, v1) = emplace_resolvers-AllValid i es rs hs v in
      let r = emplace_event-Mapped i e rs1 q a h v1 b in
      (rs1, r.maps, f, last_event es e rs rs1 r.maps f r.result, r.valid, r.found)
