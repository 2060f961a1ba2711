-- ===== src/MemoryMap/Emplace.antt =====
-- `MemoryMap::emplace` of include/lo2s/memory_map.hpp: what is mapped at each address afterwards.
use lo2s.Shared.{
  ◌≤◌, ◌<◌, ◌≡◌, inl, inr, refl, Bool, true, false, not, ◌&&◌, Bool-cases, Option-cases, Option,
  none, some, List, ltb, leb, if◌then◌else◌, Result, ok, arith, ◌>>=◌,
}
use lo2s.Address.{Address, address_max, Mapping, mapping, mapping_in}
use lo2s.MemoryMap.{
  map_emplace, erase_inside, take_around, split_around, truncate_start, truncate_end, emplace,
}
use lo2s.MemoryMap.Order.{holds, Apart, at, All-map_emplace}
use lo2s.MemoryMap.Lookup.{
  TakenOut, take_around-TakenOut, take_around-none, take_around-All, erase_inside-Sorted,
  at-erase_inside, erase_inside-All,
}
use lo2s.MemoryMap.Valid.{
  object, Every, IsValid, Every-imp, Every-both, Every-ordered, Every-erase_inside, Inserted,
  emplace_new-Inserted,
}
use lo2s.MemoryMap.Truncate.{
  at-Every, spans, Truncated, Astride, BeforeOrBeyond, truncate_start_lem, truncate_end_lem,
}

mapping_lem :
    (s e o : Address)
    → s ≤ e
    → mapping s e o ≡ ok (record { range = record { start = s; end = e }; pgoff = o })
unfolding mapping
mapping_lem s e o h = ground arith

mapping_in_lem :
    (k m : Mapping)
    → mapping_in k m ≡ true
    → (m.range.start ≤ k.range.start) × (k.range.end ≤ m.range.end)
unfolding mapping_in
mapping_in_lem k m h = ground arith

module _ {T : Type 0} where
  -- An entry that ends inside the new mapping loses the addresses before it, too.
  abbrev pub cut : Mapping → Option (Mapping × T) → Bool
  cut k none = false
  cut k (some (m, v)) = ltb k.range.start m.range.end && ltb m.range.end k.range.end

  -- What `emplace` promises: the map stays valid, the new mapping's addresses are its own, and the
  -- others keep their object unless they are cut.
  pub record Emplaced (k : Mapping) (new : T) (r : List (Mapping × T))
      (outcome : Result (List (Mapping × T))) : Type 0 where
    pub map : List (Mapping × T)
    pub result : outcome ≡ ok map
    pub valid : IsValid map
    pub inside : (a : Address) → holds a k ≡ true → at a map ≡ some (k, new)
    pub outside :
        (a : Address)
        → holds a k ≡ false
        → object (at a map) ≡ (if cut k (at a r) then none else object (at a r))

  erase_inside-IsValid :
      (k : Mapping) (r : List (Mapping × T)) → IsValid r → IsValid (erase_inside k r)
  erase_inside-IsValid k r h = record {
    sorted = erase_inside-Sorted k 0 r h.sorted;
    bounded = Every-erase_inside (λ m. m.range.end ≤ address_max) k r h.bounded;
  }

  -- Outside of the new mapping 4.2 takes no address from an entry.
  end_keeps :
      (k : Mapping) (a : Address) (r : List (Mapping × T))
      → k.range.start < k.range.end
      → Every (BeforeOrBeyond k) r
      → holds a k ≡ false
      → (spans k.range.end (at a r) && not (leb k.range.end a)) ≡ false
  end_keeps k a r o every h = elim (Option-cases (at a r)) [
    | inl e ↦ rw e
    | inr ((m, v), e) ↦ rw e (ground (arith, at-Every (BeforeOrBeyond k) a r m v every e))
  ]

  -- The entries that 4.1 cuts are those that end inside the new mapping.
  start_cuts :
      (k : Mapping) (a : Address) (r : List (Mapping × T))
      → Every (Astride k) r
      → spans k.range.start (at a r) ≡ cut k (at a r)
  unfolding mapping_in
  start_cuts k a r every = elim (Option-cases (at a r)) [
    | inl e ↦ rw e
    | inr ((m, v), e) ↦ rw e (ground (arith, at-Every (Astride k) a r m v every e))
  ]

  -- No entry is around the new mapping: 4.1, 4.2, and the insertion.
  truncate-Emplaced :
      (k : Mapping) (new : T) (r : List (Mapping × T))
      → IsValid r
      → k.range.start < k.range.end
      → k.range.end ≤ address_max
      → Every (λ m. mapping_in m k ≡ false) r
      → Every (λ m. mapping_in k m ≡ false) r
      → Emplaced k new r
          (do r1 ← truncate_start k r; r2 ← truncate_end k r1; ok (map_emplace k new r2).0)
  truncate-Emplaced k new r h o b inner outer =
      rw (start.result, end.result)
        (record {
          map = (map_emplace k new end.rest).0;
          result = refl;
          valid = ins.valid;
          inside = λ a i. rw (ins.view a, i);
          outside = λ a i.
              rw
                (
                  ins.view a,
                  i,
                  end.view a,
                  end_keeps k a start.rest o start.every i,
                  start.view a,
                  start_cuts k a r every,
                )
                (ground arith);
        })
    where
      every : Every (Astride k) r
      every =
          Every-both (λ m. (mapping_in m k ≡ false) × (mapping_in k m ≡ false))
            (λ m. m.range.start ≤ m.range.end) r
            (Every-both (λ m. mapping_in m k ≡ false) (λ m. mapping_in k m ≡ false) r inner outer)
            (Every-ordered 0 r h.sorted)

      start : Truncated k.range.start (λ _. false) (BeforeOrBeyond k) r (truncate_start k r)
      start = truncate_start_lem k r h o b every

      end : Truncated k.range.end (leb k.range.end) (Apart k) start.rest (truncate_end k start.rest)
      end = truncate_end_lem k start.rest start.valid o b start.every

      ins : Inserted k new end.rest (map_emplace k new end.rest).0
      ins = emplace_new-Inserted k new end.rest end.valid (omega arith) b end.every

  -- The new mapping lies in an entry: both ends of that entry are put back around it.
  split_around-Emplaced :
      (k : Mapping) (new : T) (m : Mapping) (old : T) (r r' : List (Mapping × T))
      → IsValid r
      → k.range.start < k.range.end
      → k.range.end ≤ address_max
      → take_around k r ≡ some ((m, old), r')
      → Emplaced k new r (split_around k new (m, old) r')
  unfolding split_around
  split_around-Emplaced k new m old r r' h o b f =
      rw
        (
          mapping_lem m.range.start k.range.start m.pgoff (omega (arith, around)),
          one.result,
          two.result,
          mapping_lem k.range.end m.range.end m.pgoff (omega (arith, around)),
          three.result,
        )
        (record {
          map = (map_emplace second old r2).0;
          result = refl;
          valid = three.valid;
          inside = λ a i. rw (three.view a, two.view a, i) (ground (arith, i));
          outside = λ a i. rw (three.view a, two.view a, i, one.view a) (pieces a i);
        })
    where
      t : TakenOut 0 (m, old) r r'
      t = (take_around-TakenOut k 0 r r' (m, old) h.sorted f).0

      around : (m.range.start ≤ k.range.start) × (k.range.end ≤ m.range.end)
      around = mapping_in_lem k m (take_around-TakenOut k 0 r r' (m, old) h.sorted f).1

      valid' : IsValid r'
      valid' = record {
        sorted = t.sorted;
        bounded = (take_around-All (λ n. n.range.end ≤ address_max) k r r' (m, old) f h.bounded).1;
      }

      first : Mapping
      first = record m { range = record { start = m.range.start; end = k.range.start } }

      second : Mapping
      second = record m { range = record { start = k.range.end; end = m.range.end } }

      r1 : List (Mapping × T)
      r1 = (map_emplace first old r').0

      r2 : List (Mapping × T)
      r2 = (map_emplace k new r1).0

      top : m.range.end ≤ address_max
      top = (take_around-All (λ n. n.range.end ≤ address_max) k r r' (m, old) f h.bounded).0

      one : Inserted first old r' r1
      one =
          emplace_new-Inserted first old r' valid' (omega (arith, around)) (omega (arith, b))
            (Every-imp (Apart m) (Apart first) r' (λ n a. ground (arith, a, around)) t.apart)

      two : Inserted k new r1 r2
      two = emplace_new-Inserted k new r1 one.valid (omega arith) b (
          All-map_emplace (Apart k) first old r' (inl (omega arith))
            (Every-imp (Apart m) (Apart k) r' (λ n a. ground (arith, a, around)) t.apart))

      three : Inserted second old r2 (map_emplace second old r2).0
      three = emplace_new-Inserted second old r2 two.valid (omega (arith, around)) top (
          All-map_emplace (Apart second) k new r1 (inl (omega arith)) (
            All-map_emplace (Apart second) first old r' (inl (omega arith))
              (Every-imp (Apart m) (Apart second) r' (λ n a. ground (arith, a, around)) t.apart)))

      pieces :
          (a : Address)
          → holds a k ≡ false
          → object (
              if holds a second
              then some (second, old)
              else if holds a first
              then some (first, old)
              else at a r')
            ≡ (if cut k (at a r) then none else object (at a r))
      pieces a i = elim (Bool-cases (holds a m)) [
        | inl inside ↦ rw (t.inside a inside, t.gone a inside) (ground (arith, around))
        | inr outside ↦ rw (← t.outside a outside) (elim (Option-cases (at a r')) [
          | inl e ↦ rw e (ground (arith, around))
          | inr ((n, v), e) ↦ rw e (ground (arith, around, at-Every (Apart m) a r' n v t.apart e))
        ])
      ]

  -- What step 1 erases lies inside the new mapping.
  erased-Emplaced :
      (k : Mapping) (new : T) (r : List (Mapping × T)) {outcome : Result (List (Mapping × T))}
      → Emplaced k new (erase_inside k r) outcome
      → Emplaced k new r outcome
  erased-Emplaced k new r e = record {
    map = e.map;
    result = e.result;
    valid = e.valid;
    inside = e.inside;
    outside = λ a i. rw (← at-erase_inside a k r i) (e.outside a i);
  }

  -- `emplace` on a map that holds no address twice, and a new mapping with at least one address:
  -- no assertion fails and nothing is thrown; the new map holds no address twice either; the new
  -- mapping's addresses belong to it, and every other address keeps its object, except those of an
  -- entry that begins before the new mapping and ends inside it, which are lost.
  pub emplace-Emplaced :
      (k : Mapping) (new : T) (r : List (Mapping × T))
      → IsValid r
      → k.range.start < k.range.end
      → k.range.end ≤ address_max
      → Emplaced k new r (emplace k new r)
  unfolding emplace
  emplace-Emplaced k new r h o b = elim (Option-cases (take_around k (erase_inside k r))) [
    | inl f ↦
        rw (f, emplace)
          (erased-Emplaced k new r (
            truncate-Emplaced k new (erase_inside k r) (erase_inside-IsValid k r h) o b
              (erase_inside-All k r) (take_around-none k (erase_inside k r) f)))
    | inr (((m, old), r'), f) ↦
        rw (f, emplace)
          (erased-Emplaced k new r (
            split_around-Emplaced k new m old (erase_inside k r) r' (erase_inside-IsValid k r h) o b
              f))
  ]
