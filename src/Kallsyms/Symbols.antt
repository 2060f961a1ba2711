-- ===== src/Kallsyms/Symbols.antt =====
-- What src/resolvers/kallsyms.cpp makes of the file, and its lookup.
use lo2s.Shared.{
  ◌+◌, ◌-◌, ◌%◌, ◌^◌, ◌≤◌, ◌<◌, ◌≡◌, ◌≢◌, refl, ap, ◌∙◌, inl, inr, Bool-cases, Option, none, some,
  List, [], ◌∷◌, ◌++◌, All, ltb, ◌==◌, ok, ◌>>=◌, arith,
}
use lo2s.Address.{Address, address_max, Range, range, range_lt}
use lo2s.LineInfo.{Text, for_function, for_binary}
use lo2s.Kallsyms.{
  Kallsyms, range_emplace, add_entry, read_entries, add_symbol, add_symbols, last_symbol,
  from_entries, init, kernel, lookup_line_info,
}
use lo2s.Kallsyms.Tiles.{Ascending, tiles, symbol_at, range_find-tiles, range_find-below}

-- Every range ends at `a` or before.
abbrev Below : Address → List (Range × Text) → Type 0
Below a acc = All (λ e. e.0.end ≤ a) acc

range_emplace_last :
    (k : Range) (v : Text) (acc : List (Range × Text))
    → Below k.start acc
    → range_emplace k v acc ≡ acc ++ (k, v) ∷ []
unfolding range_emplace range_lt
range_emplace_last k v [] b = refl
range_emplace_last k v ((m, w) ∷ acc) b = ground (arith, b.0, range_emplace_last k v acc b.1)

append_assoc :
    (acc : List (Range × Text)) (x : Range × Text) (ys : List (Range × Text))
    → (acc ++ x ∷ []) ++ ys ≡ acc ++ x ∷ ys
append_assoc [] x ys = refl
append_assoc (y ∷ acc) x ys = ap (λ r. y ∷ r) (append_assoc acc x ys)

Below-snoc :
    (a b : Address) (acc : List (Range × Text)) (s : Text)
    → a ≤ b
    → Below a acc
    → Below b (acc ++ (record { start = a; end = b }, s) ∷ [])
Below-snoc a b [] s h u = (omega arith, tt)
Below-snoc a b (e ∷ acc) s h u = (omega (arith, h, u.0), Below-snoc a b acc s h u.1)

range_lem : (a b : Address) → a ≤ b → range a b ≡ ok (record { start = a; end = b })
unfolding range
range_lem a b h = ground arith

step_lem :
    (e : Address × Text) (s : Text) (a start : Address) (acc : List (Range × Text))
    → 0 < a
    → a < e.0
    → add_symbol e (record { sym_str = s; prev = a }, record { kallsyms = acc; start = start })
      ≡ ok (
        record { sym_str = e.1; prev = e.0 },
        record { kallsyms = range_emplace (record { start = a; end = e.0 }) s acc; start = start },
      )
unfolding add_symbol
step_lem e s a start acc h k = ground (arith, range_lem a (e.0) (omega (arith, k)))

last_lem :
    (s : Text) (a start : Address) (acc : List (Range × Text))
    → s ≢ []
    → a < address_max
    → last_symbol (record { sym_str = s; prev = a }, record { kallsyms = acc; start = start })
      ≡ ok (record {
        kallsyms = range_emplace (record { start = a; end = address_max }) s acc;
        start = start;
      })
unfolding last_symbol
last_lem [] a start acc n h = absurd (n refl)
last_lem (c ∷ cs) a start acc n h = rw (range_lem a address_max (omega (arith, h))) refl

add_symbols-tiles :
    (es : List (Address × Text)) (s : Text) (a start : Address) (acc : List (Range × Text))
    → 0 < a
    → s ≢ []
    → a < address_max
    → Ascending a es
    → Below a acc
    → (add_symbols es (record { sym_str = s; prev = a }, record { kallsyms = acc; start = start })
        >>= last_symbol)
      ≡ ok (record { kallsyms = acc ++ tiles a s es; start = start })
unfolding add_symbols tiles
add_symbols-tiles [] s a start acc p n h o b =
    last_lem s a start acc n h
    ∙ rw (range_emplace_last (record { start = a; end = address_max }) s acc b) refl
add_symbols-tiles (e ∷ es) s a start acc p n h o b =
    let tile : Range = record { start = a; end = e.0 } in
    rw (step_lem e s a start acc p o.0, range_emplace_last tile s acc b)
      (add_symbols-tiles es (e.1) (e.0) start (acc ++ (tile, s) ∷ []) (omega (arith, p, o.0)) o.1
          o.2 o.3 (Below-snoc a (e.0) acc s (omega (arith, o.0)) b)
        ∙ rw (append_assoc acc (tile, s) (tiles (e.0) (e.1) es)) refl)

from_entries-tiles :
    (a : Address) (s : Text) (es : List (Address × Text))
    → Ascending 0 ((a, s) ∷ es)
    → from_entries ((a, s) ∷ es) ≡ ok (record { kallsyms = tiles a s es; start = a })
unfolding from_entries add_symbols add_symbol
from_entries-tiles a s es o = add_symbols-tiles es s a a [] o.0 o.1 o.2 o.3 tt

-- A line that the regular expression matches has a symbol, and no symbol is at the last address.
abbrev pub IsLine : Option (Address × Text) → Type 0
IsLine none = Unit {0}
IsLine (some (a, s)) = (s ≢ []) × (a < address_max)

add_entry-Ascending :
    (lo a : Address) (s : Text) (es : List (Address × Text))
    → lo < a
    → s ≢ []
    → a < address_max
    → Ascending lo es
    → Ascending lo (add_entry a s es)
unfolding add_entry
add_entry-Ascending lo a s [] h n k o = (h, n, k, tt)
add_entry-Ascending lo a s ((b, t) ∷ es) h n k o = elim (Bool-cases (ltb b a)) [
  | inl l ↦ rw l (o.0, o.1, o.2, add_entry-Ascending b a s es (ground (arith, l)) n k o.3)
  | inr l ↦ elim (Bool-cases (ltb a b)) [
    | inl g ↦ rw (l, g) (h, n, k, (ground (arith, g), o.1, o.2, o.3))
    | inr g ↦ rw (l, g) o
  ]
]

some_inj : (es es' : List (Address × Text)) → some es ≡ some es' → es ≡ es'
some_inj es es' h = cc

nothing_read : (es : List (Address × Text)) → none ≡ some es → ⊥
nothing_read es h = cc

read_entries-Ascending :
    (lines : List (Option (Address × Text))) (es es' : List (Address × Text))
    → All IsLine lines
    → Ascending 0 es
    → read_entries lines es ≡ some es'
    → Ascending 0 es'
unfolding read_entries
read_entries-Ascending [] es es' a o h = rw (some_inj es es' h) at o
read_entries-Ascending (none ∷ lines) es es' a o h = read_entries-Ascending lines es es' a.1 o h
read_entries-Ascending (some (b, s) ∷ lines) es es' a o h = elim (Bool-cases (b == 0)) [
  | inl z ↦ absurd (nothing_read es' (rw z at h))
  | inr z ↦
      read_entries-Ascending lines (add_entry b s es) es' a.1
        (add_entry-Ascending 0 b s es (ground (arith, z)) a.0.0 a.0.1 o) (rw z at h)
]

found_lem :
    (filename : Text → Text) (a x : Address) (s : Text) (es : List (Address × Text))
    → a ≤ x
    → x < address_max
    → Ascending a es
    → lookup_line_info filename (record { kallsyms = tiles a s es; start = a }) (x - a)
      ≡ for_function filename (some []) (some (symbol_at x s es)) 1 kernel
unfolding lookup_line_info
found_lem filename a x s es h k o =
    rw (back a x h k, range_find-tiles x a s es h k o, lookup_line_info) refl
  where
    back : (a x : Address) → a ≤ x → x < address_max → (x - a + a) % 2 ^ 64 ≡ x
    back a x h k = omega (arith, h, k)

below_lem :
    (filename : Text → Text) (a x offset : Address) (s : Text) (es : List (Address × Text))
    → (offset + a) % 2 ^ 64 ≡ x
    → x < a
    → a < address_max
    → Ascending a es
    → lookup_line_info filename (record { kallsyms = tiles a s es; start = a }) offset
      ≡ for_binary kernel
unfolding lookup_line_info
below_lem filename a x offset s es f h k o =
    rw (f, range_find-below x a s es h k o, lookup_line_info) refl

init_lem :
    (lines : List (Option (Address × Text))) (es : List (Address × Text))
    → read_entries lines [] ≡ some es
    → init lines ≡ from_entries es
unfolding init
init_lem lines es e = rw (e, init) refl

-- If every line with a match has a symbol, and the file gives at least one address and none that is
-- 0 or the last one, then the constructor returns, the first address is the start of the kernel,
-- and an address behind the start is looked up as the symbol with the greatest address that is not
-- above it, whatever the order of the lines; what wraps to an address below the start has no symbol.
pub lookup_line_info-symbol_at :
    (filename : Text → Text) (lines : List (Option (Address × Text))) (a : Address) (s : Text)
    (es : List (Address × Text))
    → All IsLine lines
    → read_entries lines [] ≡ some ((a, s) ∷ es)
    → (x offset y : Address) → a ≤ x
    → x < address_max
    → (offset + a) % 2 ^ 64 ≡ y
    → y < a
    → (k : Kallsyms) × (init lines ≡ ok k)
      × (k.start ≡ a)
      × (lookup_line_info filename k (x - a)
          ≡ for_function filename (some []) (some (symbol_at x s es)) 1 kernel)
      × (lookup_line_info filename k offset ≡ for_binary kernel)
lookup_line_info-symbol_at filename lines a s es l e x offset y h k f g =
    let o = read_entries-Ascending lines [] ((a, s) ∷ es) l tt e in
    (
      record { kallsyms = tiles a s es; start = a },
      init_lem lines ((a, s) ∷ es) e ∙ from_entries-tiles a s es o,
      refl,
      found_lem filename a x s es h k o.3,
      below_lem filename a y offset s es f g o.2 o.3,
    )
