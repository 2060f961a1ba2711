-- ===== src/Kallsyms/Tests.antt =====
-- A small symbol file of src/resolvers/kallsyms.cpp.
use lo2s.Shared.{ℕ, ◌-◌, ◌^◌, ◌≢◌, ◌≡◌, refl, Option, none, some, List, [], ◌∷◌, ok, arith}
use lo2s.Address.{Address}
use lo2s.LineInfo.{Text, for_function, for_binary}
use lo2s.Kallsyms.{Kallsyms, init, read_entries, add_entry, kernel, lookup_line_info}
use lo2s.Kallsyms.Tiles.{symbol_at}
use lo2s.Kallsyms.Symbols.{lookup_line_info-symbol_at}

abbrev basename : Text → Text
basename t = t

abbrev lines : List (Option (Address × Text))
lines = some (8192, 66 ∷ []) ∷ none ∷ some (4096, 65 ∷ []) ∷ some (8192, 67 ∷ []) ∷ []

named : (c : ℕ) (cs : Text) → c ∷ cs ≢ []
named c cs e = cc

lines_lem : read_entries lines [] ≡ some ((4096, 65 ∷ []) ∷ (8192, 66 ∷ []) ∷ [])
unfolding read_entries add_entry
lines_lem = refl

lookup_line_info-symbol_at_example :
    (k : Kallsyms) × (init lines ≡ ok k)
    × (k.start ≡ 4096)
    × (lookup_line_info basename k (8191 - 4096)
        ≡ for_function basename
            (some [])
            (some (symbol_at 8191 (65 ∷ []) ((8192, 66 ∷ []) ∷ [])))
            1
            kernel)
    × (lookup_line_info basename k (2 ^ 64 - 1) ≡ for_binary kernel)
lookup_line_info-symbol_at_example =
    lookup_line_info-symbol_at basename lines 4096 (65 ∷ []) ((8192, 66 ∷ []) ∷ [])
      (
        (named 66 [], omega arith),
        (tt, ((named 65 [], omega arith), ((named 67 [], omega arith), tt))),
      )
      lines_lem 8191 (2 ^ 64 - 1) 4095 (omega arith) (omega arith) (omega arith) (omega arith)
