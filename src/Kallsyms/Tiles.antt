-- ===== src/Kallsyms/Tiles.antt =====
-- The ranges that src/resolvers/kallsyms.cpp makes of its symbols: each goes to the next symbol.
use lo2s.Shared.{
  ◌≤◌, ◌<◌, ◌≡◌, ◌≢◌, inl, inr, Bool-cases, none, some, List, [], ◌∷◌, leb, if◌then◌else◌, arith,
}
use lo2s.Address.{Address, address_max, Range, point_range, range_lt}
use lo2s.LineInfo.{Text}
use lo2s.Kallsyms.{range_find}

-- Symbols behind `lo`, in order, with names.
abbrev pub Ascending : Address → List (Address × Text) → Type 0
Ascending lo [] = Unit {0}
Ascending lo (e ∷ es) = (lo < e.0) × (e.1 ≢ []) × (e.0 < address_max) × Ascending (e.0) es

unfoldable pub tiles : Address → Text → List (Address × Text) → List (Range × Text)
tiles a s [] = (record { start = a; end = address_max }, s) ∷ []
tiles a s (e ∷ es) = (record { start = a; end = e.0 }, s) ∷ tiles (e.0) (e.1) es

-- The symbol with the greatest address that is not above `x`.
unfoldable pub symbol_at : Address → Text → List (Address × Text) → Text
symbol_at x s [] = s
symbol_at x s (e ∷ es) = let later = symbol_at x (e.1) es in if leb (e.0) x then later else s

pub range_find-tiles :
    (x a : Address) (s : Text) (es : List (Address × Text))
    → a ≤ x
    → x < address_max
    → Ascending a es
    → range_find (point_range x) (tiles a s es) ≡ some (symbol_at x s es)
unfolding range_find tiles symbol_at range_lt point_range
range_find-tiles x a s [] h k o = ground (arith, h, k)
range_find-tiles x a s (e ∷ es) h k o = elim (Bool-cases (leb (e.0) x)) [
  | inl l ↦
      ground (arith, l, h, k, o.0, range_find-tiles x (e.0) (e.1) es (ground (arith, l)) k (o.3))
  | inr l ↦ ground (arith, l, h, k, o.0)
]

pub range_find-below :
    (x a : Address) (s : Text) (es : List (Address × Text))
    → x < a
    → a < address_max
    → Ascending a es
    → range_find (point_range x) (tiles a s es) ≡ none
unfolding range_find tiles range_lt point_range
range_find-below x a s [] h k o = ground (arith, h, k)
range_find-below x a s (e ∷ es) h k o = ground (arith, h, k, o.0)
