-- ===== src/Resolvers/Tests.antt =====
-- Concrete mappings for `emplace_resolvers` of src/perf/sample/writer.cpp: two that overlap, and one
-- whose end wraps around.
use lo2s.Shared.{ℕ, ◌^◌, ◌-◌, ℤ, pos, ◌≡◌, Option, some, List, [], ◌∷◌, ◌++◌, ok, arith}
use lo2s.Address.{Mapping}
use lo2s.MemoryMap.{find}
use lo2s.MemoryMap.Valid.{object, IsValid}
use lo2s.SampleWriter.{MmapEvent}
use lo2s.Resolvers.{emplace_resolvers}
use lo2s.Resolvers.Valid.{AllValid}
use lo2s.Resolvers.Found.{map_of, found_after, emplace_resolvers-find}

abbrev resolver : List ℕ → Option ℕ
resolver name = some 1

abbrev nothing_mapped : ℤ → List (Mapping × ℕ)
nothing_mapped p = []

nothing_mapped-IsValid : (p : ℤ) → IsValid (nothing_mapped p)
nothing_mapped-IsValid p = record { sorted = tt; bounded = tt }

abbrev at_address : ℕ → MmapEvent
at_address a = record { pid = pos 3; addr = a; len = 8192; pgoff = 0; filename = [] }

abbrev mapped : List MmapEvent
mapped = at_address 4096 ∷ at_address 8192 ∷ at_address (2 ^ 64 - 1) ∷ []

emplace_resolvers-find_example :
    (rs1 rs' : List (ℤ × List (Mapping × ℕ))) × (emplace_resolvers resolver nothing_mapped mapped []
      ≡ ok rs1)
    × (emplace_resolvers resolver nothing_mapped (mapped ++ at_address 12288 ∷ []) [] ≡ ok rs')
    × AllValid rs'
    × (object (find 9000 (map_of resolver nothing_mapped (pos 3) rs'))
        ≡ found_after resolver nothing_mapped
            (at_address 12288)
            (pos 3)
            9000
            (map_of resolver nothing_mapped (pos 3) rs1))
emplace_resolvers-find_example =
    emplace_resolvers-find resolver nothing_mapped nothing_mapped-IsValid mapped (at_address 12288)
      [] (pos 3) 9000
      (
        (omega arith, omega arith, omega arith),
        ((omega arith, omega arith, omega arith), ((omega arith, omega arith, omega arith), tt)),
      )
      (omega arith, omega arith, omega arith) tt (omega arith)
