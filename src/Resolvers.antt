-- ===== src/Resolvers.antt =====
-- src/resolvers.cpp and include/lo2s/resolvers.hpp, `Resolvers`, and the `emplace_resolvers` of
-- src/perf/sample/writer.cpp. `function_resolver_for`, which opens a file, is a parameter, and so is
-- the map that `ProcessFunctionMap(p)` starts with, from the files of /proc.
pub mod Valid
pub mod Found
mod Tests
use lo2s.Shared.{
  ℕ, ◌+◌, ◌%◌, ◌^◌, ℤ, eq_ℤ, Bool, true, false, Option, none, some, List, [], ◌∷◌, if◌then◌else◌,
  Result, ok, err, Fault, ◌>>=◌,
}
use lo2s.Address.{Mapping, mapping}
use lo2s.MemoryMap
use lo2s.SampleWriter.{MmapEvent}

module _ {T : Type 0} where
  -- `std::map<Process, ...>::find`
  unfoldable pub resolver_map : ℤ → List (ℤ × List (Mapping × T)) → Option (List (Mapping × T))
  resolver_map p [] = none
  resolver_map p ((q, m) ∷ r) = let later = resolver_map p r in if eq_ℤ q p then some m else later

  -- The map of a process, in place of the one that it has.
  unfoldable pub put_map :
      ℤ → List (Mapping × T) → List (ℤ × List (Mapping × T)) → List (ℤ × List (Mapping × T))
  put_map p m [] = (p, m) ∷ []
  put_map p m ((q, n) ∷ r) =
      let later = put_map p m r in if eq_ℤ q p then (q, m) ∷ r else (q, n) ∷ later

  -- `function_resolvers.emplace`, which keeps the map that is there.
  unfoldable pub emplace_map :
      ℤ → List (Mapping × T) → List (ℤ × List (Mapping × T)) → List (ℤ × List (Mapping × T))
  emplace_map p m rs = elim (resolver_map p rs) [ none ↦ put_map p m rs | some n ↦ rs ]

  -- `Resolvers::fork`
  unfoldable pub fork : ℤ → ℤ → List (ℤ × List (Mapping × T)) → List (ℤ × List (Mapping × T))
  fork parent p rs = elim (resolver_map parent rs) [ none ↦ rs | some m ↦ emplace_map p m rs ]

  -- `function_resolvers.at(p).emplace(m, fr)`
  unfoldable pub emplace_at :
      ℤ → Mapping → T → List (ℤ × List (Mapping × T)) → Result (List (ℤ × List (Mapping × T)))
  emplace_at p m fr rs = elim (resolver_map p rs) [
    | none ↦ err Fault.out_of_range
    | some entries ↦ MemoryMap.emplace m fr entries >>= λ entries'. ok (put_map p entries' rs)
  ]

module _ {T : Type 0} (function_resolver_for : List ℕ → Option T) where
  -- `Resolvers::emplace_mappings_for`
  unfoldable pub emplace_mappings_for :
      ℤ → Mapping → List ℕ → List (ℤ × List (Mapping × T)) → Result (List (ℤ × List (Mapping × T)))
  emplace_mappings_for p m name rs = elim (function_resolver_for name) [
    | none ↦ ok rs
    | some fr ↦ emplace_at p m fr rs
  ]

  -- One event in `Writer::emplace_resolvers`. The exception of `Range` is caught; one of
  -- `MemoryMap::emplace`, which would be caught as well, is an outcome here.
  unfoldable pub emplace_event :
      (ℤ → List (Mapping × T))
      → MmapEvent
      → List (ℤ × List (Mapping × T))
      → Result (List (ℤ × List (Mapping × T)))
  emplace_event initial e rs = elim (mapping e.addr ((e.addr + e.len) % 2 ^ 64) e.pgoff) [
    | err fault ↦ ok rs
    | ok m ↦ emplace_mappings_for e.pid m e.filename (emplace_map e.pid (initial e.pid) rs)
  ]

  unfoldable pub emplace_resolvers :
      (ℤ → List (Mapping × T))
      → List MmapEvent
      → List (ℤ × List (Mapping × T))
      → Result (List (ℤ × List (Mapping × T)))
  emplace_resolvers initial [] rs = ok rs
  emplace_resolvers initial (e ∷ es) rs =
      emplace_event initial e rs >>= emplace_resolvers initial es
