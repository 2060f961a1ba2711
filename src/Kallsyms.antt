-- ===== src/Kallsyms.antt =====
-- src/resolvers/kallsyms.cpp and include/lo2s/resolvers/kallsyms.hpp, `Kallsyms`: the functions of the
-- kernel. The file is the list of its lines, each with what the regular expression takes from it:
-- the address and the symbol, or nothing. `std::map`s are lists in the order of their keys.
pub mod Tiles
pub mod Symbols
mod Tests
use lo2s.Shared.{
  ℕ, ◌+◌, ◌%◌, ◌^◌, Bool, true, false, not, ◌&&◌, Option, none, some, List, [], ◌∷◌, ltb, ◌==◌,
  if◌then◌else◌, Result, ok, ◌>>=◌,
}
use lo2s.Address.{Address, address_max, Range, range, point_range, range_lt}
use lo2s.LineInfo.{Text, LineInfo, for_function, for_binary}

-- `std::map<Range, ...>::emplace`
unfoldable pub range_emplace : Range → Text → List (Range × Text) → List (Range × Text)
unfolding range_lt
range_emplace k v [] = (k, v) ∷ []
range_emplace k v ((m, w) ∷ r) =
    let later = range_emplace k v r in
    if range_lt m k
    then (m, w) ∷ later
    else if range_lt k m
    then (k, v) ∷ (m, w) ∷ r
    else (m, w) ∷ r

-- `std::map<Range, ...>::find`
unfoldable pub range_find : Range → List (Range × Text) → Option Text
unfolding range_lt
range_find k [] = none
range_find k ((m, v) ∷ r) =
    let later = range_find k r in
    if range_lt m k then later else if range_lt k m then none else some v

-- `entries.emplace`, which keeps the first symbol of an address.
unfoldable pub add_entry : Address → Text → List (Address × Text) → List (Address × Text)
add_entry a s [] = (a, s) ∷ []
add_entry a s ((b, t) ∷ r) =
    let later = add_entry a s r in
    if ltb b a then (b, t) ∷ later else if ltb a b then (a, s) ∷ (b, t) ∷ r else (b, t) ∷ r

-- The loop over the lines; it returns with nothing at the address 0.
unfoldable pub read_entries :
    List (Option (Address × Text)) → List (Address × Text) → Option (List (Address × Text))
read_entries [] entries = some entries
read_entries (none ∷ lines) entries = read_entries lines entries
read_entries (some (a, s) ∷ lines) entries =
    let rest = read_entries lines (add_entry a s entries) in if a == 0 then none else rest

pub record Kallsyms : Type 0 where
  pub kallsyms : List (Range × Text)
  pub start : Address

-- The two variables of the loop over the entries.
pub record Previous : Type 0 where
  pub sym_str : Text
  pub prev : Address

-- One entry.
unfoldable pub add_symbol : Address × Text → Previous × Kallsyms → Result (Previous × Kallsyms)
add_symbol e (p, k) =
    let next : Previous = record { sym_str = e.1; prev = e.0 } in
    elim (not (p.prev == 0) && not (p.prev == e.0)) [
      | true ↦ range p.prev (e.0) >>= λ r.
          ok (next, record k { kallsyms = range_emplace r p.sym_str k.kallsyms })
      | false ↦ ok (next, record k { start = e.0 })
    ]

unfoldable pub add_symbols :
    List (Address × Text) → Previous × Kallsyms → Result (Previous × Kallsyms)
add_symbols [] s = ok s
add_symbols (e ∷ es) s = add_symbol e s >>= add_symbols es

abbrev pub no_symbols : Kallsyms
no_symbols = record { kallsyms = []; start = address_max }

-- The last symbol.
unfoldable pub last_symbol : Previous × Kallsyms → Result Kallsyms
last_symbol (p, k) = elim p.sym_str [
  | [] ↦ ok k
  | c ∷ cs ↦ range p.prev address_max >>= λ r.
      ok (record k { kallsyms = range_emplace r p.sym_str k.kallsyms })
]

-- The constructor behind the loop over the lines.
unfoldable pub from_entries : List (Address × Text) → Result Kallsyms
from_entries entries =
    add_symbols entries (record { sym_str = []; prev = 0 }, no_symbols) >>= last_symbol

unfoldable pub init : List (Option (Address × Text)) → Result Kallsyms
init lines = elim (read_entries lines []) [
  | none ↦ ok no_symbols
  | some entries ↦ from_entries entries
]

-- "[kernel]"
abbrev pub kernel : Text
kernel = 91 ∷ 107 ∷ 101 ∷ 114 ∷ 110 ∷ 101 ∷ 108 ∷ 93 ∷ []

-- `lookup_line_info`
unfoldable pub lookup_line_info : (Text → Text) → Kallsyms → Address → LineInfo
lookup_line_info filename k addr =
    elim (range_find (point_range ((addr + k.start) % 2 ^ 64)) k.kallsyms) [
      | none ↦ for_binary kernel
      | some s ↦ for_function filename (some []) (some s) 1 kernel
    ]
