-- ===== src/MemoryMap/Tests.antt =====
-- Concrete maps of include/lo2s/memory_map.hpp.
use lo2s.Shared.{ℕ, ◌≡◌, refl, none, some, List, [], ◌∷◌, if◌then◌else◌, ok, arith}
use lo2s.Address.{Address, Mapping, mapping}
use lo2s.MemoryMap.{
  emplace, find, take_around, erase_inside, truncate_start, truncate_end, split_around,
}
use lo2s.MemoryMap.Order.{holds}
use lo2s.MemoryMap.Valid.{object, IsValid}
use lo2s.MemoryMap.Emplace.{cut}
use lo2s.MemoryMap.Search.{emplace-find}

abbrev pages : Address → Address → Mapping
pages s e = record { range = record { start = s; end = e }; pgoff = 100 }

-- Two objects side by side.
abbrev two : List (Mapping × ℕ)
two = (pages 10 20, 1) ∷ (pages 20 30, 2) ∷ []

two-IsValid : IsValid two
two-IsValid = record {
  sorted = (omega arith, omega arith, (omega arith, omega arith, tt));
  bounded = (omega arith, (omega arith, tt));
}

emplace-find_example :
    (r' : List (Mapping × ℕ)) × (emplace (pages 15 25) 3 two ≡ ok r')
    × IsValid r'
    × (object (find 12 r') ≡ (
        if holds 12 (pages 15 25)
        then some 3
        else if cut (pages 15 25) (find 12 two)
        then none
        else object (find 12 two)))
emplace-find_example =
    emplace-find (pages 15 25) 3 two 12 two-IsValid (omega arith) (omega arith) (omega arith)

-- The address 12 of the first object is lost; the second keeps 27.
astride :
    emplace (pages 15 25) 3 two ≡ ok ((pages 10 10, 1) ∷ (pages 15 25, 3) ∷ (pages 25 30, 2) ∷ [])
unfolding emplace take_around erase_inside truncate_start truncate_end
astride = refl

-- Both pieces of an object that is split have its page offset.
split :
    emplace {T = ℕ} (pages 12 14) 3 ((pages 10 20, 1) ∷ [])
    ≡ ok ((pages 10 12, 1) ∷ (pages 12 14, 3) ∷ (pages 14 20, 1) ∷ [])
unfolding emplace take_around erase_inside truncate_start truncate_end split_around mapping
split = refl
