-- ===== src/Address.antt =====
-- include/lo2s/address.hpp: addresses, half-open ranges of them, and file mappings. An `Address`
-- is the number that it holds.
use lo2s.Shared.{
  ℕ, ◌+◌, ◌-◌, ◌^◌, Bool, ◌&&◌, ltb, leb, ◌==◌, if◌then◌else◌, Result, ok, Fault, throw_if, ◌>>=◌,
  ◌>>◌,
}

abbrev pub Address : Type 0
Address = ℕ

-- UINT64_MAX
abbrev pub address_max : Address
address_max = 2 ^ 64 - 1

pub record Range : Type 0 where
  pub start : Address
  pub end : Address

-- `Range(Address min_, Address max_)`, which throws `Range::Error`.
unfoldable pub range : Address → Address → Result Range
range min max = do
  throw_if (ltb max min) Fault.runtime_error
  ok (record { start = min; end = max })

-- `Range(Address point)`; it never throws.
unfoldable pub point_range : Address → Range
point_range p = record { start = p; end = if p == address_max then address_max else p + 1 }

-- `operator==` of Range, `operator<`, and `in`.
unfoldable pub range_eq : Range → Range → Bool
range_eq a b = a.start == b.start && a.end == b.end

unfoldable pub range_lt : Range → Range → Bool
range_lt a b = leb a.end b.start

unfoldable pub range_in : Range → Range → Bool
range_in a b = leb b.start a.start && leb a.end b.end

pub record Mapping : Type 0 where
  pub range : Range
  pub pgoff : Address

unfoldable pub mapping : Address → Address → Address → Result Mapping
unfolding range
mapping s e o = do r ← range s e; ok (record { range = r; pgoff = o })

-- `Mapping(Address addr)`, to which `MemoryMap::find` converts its argument.
unfoldable pub point_mapping : Address → Mapping
unfolding point_range
point_mapping a = record { range = point_range a; pgoff = 0 }

-- The same three of Mapping.
unfoldable pub mapping_eq : Mapping → Mapping → Bool
unfolding range_eq
mapping_eq a b = range_eq a.range b.range

unfoldable pub mapping_lt : Mapping → Mapping → Bool
unfolding range_lt
mapping_lt a b = range_lt a.range b.range

unfoldable pub mapping_in : Mapping → Mapping → Bool
unfolding range_in
mapping_in a b = range_in a.range b.range
