-- ===== src/MemoryMap/Search.antt =====
-- What `MemoryMap::find` of include/lo2s/memory_map.hpp returns after `MemoryMap::emplace`.
use lo2s.Shared.{◌≤◌, ◌<◌, ◌≡◌, refl, none, some, List, if◌then◌else◌, ok, Bool-cases, inl, inr}
use lo2s.Address.{Address, address_max, Mapping}
use lo2s.MemoryMap.{emplace, find}
use lo2s.MemoryMap.Order.{holds, at}
use lo2s.MemoryMap.Valid.{object, IsValid, find-at}
use lo2s.MemoryMap.Emplace.{cut, emplace-Emplaced}

module _ {T : Type 0} where
  find_lem :
      (a : Address) (r : List (Mapping × T)) → IsValid r → a ≤ address_max → find a r ≡ at a r
  unfolding find
  find_lem a r v h = find-at a r v h

  -- `emplace` of a mapping with at least one address, into a map that holds no address twice,
  -- fails no assertion and throws nothing, and the new map holds no address twice. A search of an
  -- address of the new mapping then finds the new object. A search of any other address finds the
  -- object it found before, unless that was in an entry that ends behind the start of the new
  -- mapping and before its end: then it finds nothing.
  pub emplace-find :
      (k : Mapping) (new : T) (r : List (Mapping × T)) (a : Address)
      → IsValid r
      → k.range.start < k.range.end
      → k.range.end ≤ address_max
      → a ≤ address_max
      → (r' : List (Mapping × T)) × (emplace k new r ≡ ok r')
        × IsValid r'
        × (object (find a r') ≡ (
            if holds a k then some new else if cut k (find a r) then none else object (find a r)))
  emplace-find k new r a v o b h =
      let e = emplace-Emplaced k new r v o b in
      (
        e.map,
        e.result,
        e.valid,
        rw (find_lem a e.map e.valid h, find_lem a r v h)
            (elim (Bool-cases (holds a k)) [
              | inl i ↦ rw (e.inside a i, i) refl
              | inr i ↦ rw (e.outside a i, i) refl
            ]),
      )
