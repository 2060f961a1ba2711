-- ===== src/MemoryMap/Order.antt =====
-- The entries of the `std::map` in include/lo2s/memory_map.hpp as a sorted list of ranges that do
-- not overlap, and what the operations of the map do to such a list.
use lo2s.Shared.{
  ◌≤◌, ◌<◌, ◌≡◌, ◌⊎◌, refl, Bool, true, ◌&&◌, Option, none, some, List, [], ◌∷◌, ltb, leb,
  if◌then◌else◌, All, arith,
}
use lo2s.Address.{Address, address_max, Mapping, point_mapping}
use lo2s.MemoryMap.{map_find, map_emplace}

abbrev pub holds : Address → Mapping → Bool
holds a m = leb m.range.start a && ltb a m.range.end

abbrev pub Apart : Mapping → Mapping → Type 0
Apart k m = (m.range.end ≤ k.range.start) ⊎ (k.range.end ≤ m.range.start)

module _ {T : Type 0} where
  -- Sorted from `lo` on, with no overlaps. A range may be empty.
  abbrev pub Sorted : Address → List (Mapping × T) → Type 0
  Sorted lo [] = Unit {0}
  Sorted lo ((m, v) ∷ r) =
      (lo ≤ m.range.start) × (m.range.start ≤ m.range.end) × Sorted m.range.end r

  -- What the map says of an address, whatever its order.
  unfoldable pub at : Address → List (Mapping × T) → Option (Mapping × T)
  at a [] = none
  at a ((m, v) ∷ r) = if holds a m then some (m, v) else at a r

  abbrev pub AllApart : Mapping → List (Mapping × T) → Type 0
  AllApart k = All (λ (e : Mapping × T). Apart k e.0)

  pub Sorted-mono :
      {lo lo' : Address} (r : List (Mapping × T)) → lo' ≤ lo → Sorted lo r → Sorted lo' r
  Sorted-mono [] h s = tt
  Sorted-mono ((m, v) ∷ r) h s = (omega arith, s.1, s.2)

  -- An address before the list is in no entry.
  pub at-none : (a lo : Address) (r : List (Mapping × T)) → Sorted lo r → a < lo → at a r ≡ none
  unfolding at
  at-none a lo [] s h = refl
  at-none a lo ((m, v) ∷ r) s h = ground (arith, at-none a m.range.end r s.2)

  -- The search by the map's order finds the entry that holds the address.
  pub map_find-at :
      (a lo : Address) (r : List (Mapping × T))
      → Sorted lo r
      → a < address_max
      → map_find (point_mapping a) r ≡ at a r
  unfolding at map_find point_mapping
  map_find-at a lo [] s h = refl
  map_find-at a lo ((m, v) ∷ r) s h =
      ground (arith, map_find-at a m.range.end r s.2, at-none a m.range.end r s.2)

  -- An entry that overlaps no other is inserted, and holds its addresses.
  pub map_emplace_lem :
      (k : Mapping) (new : T) (lo : Address) (r : List (Mapping × T))
      → Sorted lo r
      → k.range.start ≤ k.range.end
      → lo ≤ k.range.start
      → AllApart k r
      → ((map_emplace k new r).1 ≡ true) × Sorted lo (map_emplace k new r).0
  unfolding map_emplace
  map_emplace_lem k new lo [] s b c h = (refl, (c, b, tt))
  map_emplace_lem k new lo ((m, v) ∷ r) s b c h =
      ground (arith, map_emplace_lem k new m.range.end r s.2)

  pub at-map_emplace :
      (a : Address) (k : Mapping) (new : T) (lo : Address) (r : List (Mapping × T))
      → Sorted lo r
      → k.range.start ≤ k.range.end
      → AllApart k r
      → at a (map_emplace k new r).0 ≡ (if holds a k then some (k, new) else at a r)
  unfolding at map_emplace
  at-map_emplace a k new lo [] s b h = refl
  at-map_emplace a k new lo ((m, v) ∷ r) s b h =
      ground (arith, at-map_emplace a k new m.range.end r s.2)

  pub All-map_emplace :
      (P : Mapping → Type 0) (k : Mapping) (new : T) (r : List (Mapping × T))
      → P k
      → All (λ (e : Mapping × T). P e.0) r
      → All (λ (e : Mapping × T). P e.0) (map_emplace k new r).0
  unfolding map_emplace
  All-map_emplace P k new [] p h = (p, tt)
  All-map_emplace P k new ((m, v) ∷ r) p h = ground (arith, All-map_emplace P k new r p h.1)
