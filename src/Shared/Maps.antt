-- ===== src/Shared/Maps.antt =====
-- `std::map`s with numbers for keys, as association lists.
use Prim.Native.Nat.{ℕ}
use lo2s.Shared.Tests.{◌==◌, if◌then◌else◌}
use mathlib.Core.Path.{◌≡◌}
use mathlib.Core.List.{List, [], ◌∷◌}
use mathlib.Core.Option.{Option, none, some}
use native.Mathlib.Omega.{arith}

module _ {ℓ} {V : Type ℓ} where
  abbrev pub lookup : ℕ → List (ℕ × V) → Option V
  lookup k [] = none
  lookup k ((j, v) ∷ m) = let later = lookup k m in if j == k then some v else later

  -- The value at a key, in place of the one that it has.
  abbrev pub assign : ℕ → V → List (ℕ × V) → List (ℕ × V)
  assign k v [] = (k, v) ∷ []
  assign k v ((j, u) ∷ m) =
      let later = assign k v m in if j == k then (k, v) ∷ m else (j, u) ∷ later

  pub lookup-assign :
      (k j : ℕ) (v : V) (m : List (ℕ × V))
      → lookup j (assign k v m) ≡ (if k == j then some v else lookup j m)
  lookup-assign k j v [] = ground arith
  lookup-assign k j v ((i, u) ∷ m) = ground (arith, lookup-assign k j v m)
