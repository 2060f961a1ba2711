-- ===== src/MemoryMap.antt =====
-- include/lo2s/memory_map.hpp, `MemoryMap<T>`: which object is mapped at which address. The
-- `std::map<Mapping, std::shared_ptr<T>>` is the list of its entries in the order of the map, and
-- its operations walk that list by the key's `operator<`, as they walk the tree.
pub mod Order
pub mod Lookup
pub mod Valid
pub mod Truncate
pub mod Emplace
pub mod Search
mod Tests
use lo2s.Shared.{
  ℕ, ◌+◌, ◌-◌, ◌≡◌, Bool, true, false, not, ◌&&◌, Option, none, some, List, [], ◌∷◌, ◌++◌, leb,
  if◌then◌else◌, Result, ok, err, Fault, assert, ◌>>=◌, ◌>>◌,
}
use lo2s.Address.{Address, Range, Mapping, mapping, point_mapping, mapping_lt, mapping_in}

-- Of a `shared_ptr` only its identity matters: the object that it points to is the type `T`.
module _ {T : Type 0} where
  -- `std::map::find`: the first entry that is not less than the key, if the key is not less.
  unfoldable pub map_find : Mapping → List (Mapping × T) → Option (Mapping × T)
  unfolding mapping_lt
  map_find k [] = none
  map_find k ((m, v) ∷ r) =
      let later = map_find k r in
      if mapping_lt m k then later else if mapping_lt k m then none else some (m, v)

  -- `std::map::erase` of what `map_find` found.
  unfoldable pub map_erase : Mapping → List (Mapping × T) → List (Mapping × T)
  unfolding mapping_lt
  map_erase k [] = []
  map_erase k ((m, v) ∷ r) =
      let later = map_erase k r in
      if mapping_lt m k then (m, v) ∷ later else if mapping_lt k m then (m, v) ∷ r else r

  -- `std::map::emplace`: the new map, and whether the entry was inserted.
  unfoldable pub map_emplace : Mapping → T → List (Mapping × T) → List (Mapping × T) × Bool
  unfolding mapping_lt
  map_emplace k v [] = ((k, v) ∷ [], true)
  map_emplace k v ((m, w) ∷ r) =
      let (r', done) = map_emplace k v r in
      if mapping_lt m k
      then ((m, w) ∷ r', done)
      else if mapping_lt k m
      then ((k, v) ∷ (m, w) ∷ r, true)
      else ((m, w) ∷ r, false)

  -- `emplace`, with `assert(r.second)` behind it.
  unfoldable pub emplace_new : Mapping → T → List (Mapping × T) → Result (List (Mapping × T))
  unfolding map_emplace
  emplace_new k v m = do let (m', done) = map_emplace k v m; assert done; ok m'

  -- 1. The entries inside the new mapping are erased.
  unfoldable pub erase_inside : Mapping → List (Mapping × T) → List (Mapping × T)
  unfolding mapping_in
  erase_inside k [] = []
  erase_inside k ((m, v) ∷ r) =
      if mapping_in m k then erase_inside k r else (m, v) ∷ erase_inside k r

  -- 2. The first entry that the new mapping is inside of, and the map without it.
  unfoldable pub take_around :
      Mapping → List (Mapping × T) → Option ((Mapping × T) × List (Mapping × T))
  unfolding mapping_in
  take_around k [] = none
  take_around k ((m, v) ∷ r) =
      if mapping_in k m
      then some ((m, v), r)
      else elim (take_around k r) [ none ↦ none | some (e, r') ↦ some (e, (m, v) ∷ r') ]

  unfoldable pub split_around :
      Mapping → T → Mapping × T → List (Mapping × T) → Result (List (Mapping × T))
  split_around k new (m, old) r = do
    first ← mapping m.range.start k.range.start m.pgoff
    r1 ← emplace_new first old r
    r2 ← emplace_new k new r1
    second ← mapping k.range.end m.range.end m.pgoff
    emplace_new second old r2

  -- 4.1 The entry at the start of the new mapping. Its end is moved to its own start.
  unfoldable pub truncate_start : Mapping → List (Mapping × T) → Result (List (Mapping × T))
  unfolding map_find map_erase emplace_new point_mapping
  truncate_start k r = elim (map_find (point_mapping k.range.start) r) [
    | none ↦ ok r
    | some (m, old) ↦
        emplace_new (record m { range = record (m.range) { end = m.range.start } }) old
          (map_erase (point_mapping k.range.start) r)
  ]

  -- 4.2 The entry at the end of the new mapping. Its start is moved to that end.
  unfoldable pub truncate_end : Mapping → List (Mapping × T) → Result (List (Mapping × T))
  unfolding map_find map_erase emplace_new point_mapping
  truncate_end k r = elim (map_find (point_mapping k.range.end) r) [
    | none ↦ ok r
    | some (m, old) ↦
        emplace_new (record m { range = record (m.range) { start = k.range.end } }) old
          (map_erase (point_mapping k.range.end) r)
  ]

  -- `void emplace(Mapping new_mapping, std::shared_ptr<T> to_emplace)`
  unfoldable pub emplace : Mapping → T → List (Mapping × T) → Result (List (Mapping × T))
  emplace k new entries =
      let r = erase_inside k entries in
      elim (take_around k r) [
        | some (e, r') ↦ split_around k new e r'
        | none ↦ do r1 ← truncate_start k r; r2 ← truncate_end k r1; ok (map_emplace k new r2).0
      ]

  -- `find(const Address& addr)` and `has(const Address& addr)`
  unfoldable pub find : Address → List (Mapping × T) → Option (Mapping × T)
  unfolding map_find point_mapping
  find a entries = map_find (point_mapping a) entries

  unfoldable pub has : Address → List (Mapping × T) → Bool
  unfolding find
  has a entries = elim (find a entries) [ none ↦ false | some e ↦ true ]
