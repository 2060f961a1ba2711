-- ===== src/MultiReader/Tests.antt =====
-- Concrete readers of include/lo2s/perf/multi_reader.hpp.
use lo2s.Shared.{ℕ, pos, ◌≡◌, refl, List, [], ◌∷◌, Result, ok}
use lo2s.MultiReader.{
  IoReaderIdentity, MultiReader, read, fill, push, greater, read_loop, drain, must_wait,
  identity_gt, attr_gt,
}
use lo2s.MultiReader.Drain.{Ascending}
use lo2s.MultiReader.Read.{Reads, read-Reads}

abbrev keys : ℕ → IoReaderIdentity
keys i = record { tracepoint = i; cpu = pos 0 }

abbrev time : ℕ → ℕ
time e = e

-- A writer that notes the events, the last one first.
abbrev note : ℕ → ℕ → List ℕ → Result (List ℕ)
note i e w = ok (e ∷ w)

abbrev three : MultiReader ℕ (List ℕ)
three = record {
  readers = (1 ∷ 4 ∷ 9 ∷ []) ∷ [] ∷ (2 ∷ 3 ∷ 8 ∷ []) ∷ [];
  highest_written = 0;
  warnings = 0;
  writer = [];
}

merge_lem :
    read keys time note three
    ≡ ok (record {
      readers = [] ∷ [] ∷ [] ∷ [];
      highest_written = 9;
      warnings = 0;
      writer = 9 ∷ 8 ∷ 4 ∷ 3 ∷ 2 ∷ 1 ∷ [];
    })
unfolding read fill push greater read_loop drain must_wait identity_gt attr_gt
merge_lem = refl

read-Reads_example : Reads keys time note three (read keys time note three)
read-Reads_example = read-Reads keys time note three
