-- ===== src/Trace/Paths.antt =====
-- Paths in the calling context trees of src/trace/trace.cpp: the keys from the root to a node.
use lo2s.Shared.{ℕ, ◌≡◌, ◌⊎◌, refl, true, Option, none, some, List, [], ◌∷◌, if◌then◌else◌, arith}
use lo2s.Ompt.{ompt_eq, omp_type_value}
use lo2s.Cctx.{CallingContext, eq}
use lo2s.Trace.{
  LocalNodes, local_nil, local_cons, GlobalNodes, global_nil, global_cons, same, find, place,
}

-- The reference at a path.
unfoldable pub local_at : List CallingContext → LocalNodes → Option ℕ
local_at p local_nil = none
local_at [] (local_cons k ref children rest) = none
local_at (c ∷ []) (local_cons k ref children rest) =
    let later = local_at (c ∷ []) rest in if same c k then some ref else later
local_at (c ∷ d ∷ p) (local_cons k ref children rest) =
    let below = local_at (d ∷ p) children in
    let later = local_at (c ∷ d ∷ p) rest in if same c k then below else later

unfoldable pub global_at : List CallingContext → GlobalNodes → Option ℕ
global_at [] gs = none
global_at (c ∷ []) gs = elim (find c gs) [ none ↦ none | some (r, children) ↦ some r ]
global_at (c ∷ d ∷ p) gs = elim (find c gs) [
  | none ↦ none
  | some (r, children) ↦ global_at (d ∷ p) children
]

abbrev pub Extends : GlobalNodes → GlobalNodes → Type 0
Extends gs gs' =
    (p : List CallingContext) (r : ℕ) → global_at p gs ≡ some r → global_at p gs' ≡ some r

same_sym : (a b : CallingContext) → same a b ≡ true → same b a ≡ true
unfolding same eq ompt_eq omp_type_value
same_sym a b h = ground (arith, h)

same_trans : (a b c : CallingContext) → same a b ≡ true → same b c ≡ true → same a c ≡ true
unfolding same eq ompt_eq omp_type_value
same_trans a b c h k = ground (arith, h, k)

pub find-same : (c d : CallingContext) (gs : GlobalNodes) → same d c ≡ true → find d gs ≡ find c gs
unfolding find
find-same c d global_nil h = refl
find-same c d (global_cons k q old rest) h =
    ground (arith, h, same_sym d c h, same_trans d c k, same_trans c d k, find-same c d rest h)

pub find-place :
    (c d : CallingContext) (r : ℕ) (children gs : GlobalNodes)
    → find d (place c r children gs) ≡ (if same d c then some (r, children) else find d gs)
unfolding find place
find-place c d r children global_nil = ground arith
find-place c d r children (global_cons k q old rest) = ground (
  arith,
  same_sym c k,
  same_sym d c,
  same_sym d k,
  same_trans d c k,
  same_trans d k c,
  same_trans c d k,
  find-place c d r children rest,
)

-- A node whose children are extended, or a new one, extends the nodes that it is placed in.
pub place-Extends :
    (c : CallingContext) (r : ℕ) (old children gs : GlobalNodes)
    → (find c gs ≡ none) ⊎ (find c gs ≡ some (r, old))
    → Extends old children
    → Extends gs (place c r children gs)
unfolding global_at
place-Extends c r old children gs there ext [] x h = h
place-Extends c r old children gs there ext (d ∷ []) x h =
    ground (arith, h, there, find-place c d r children gs, find-same c d gs)
place-Extends c r old children gs there ext (d ∷ e ∷ p) x h =
    ground (arith, h, there, find-place c d r children gs, find-same c d gs, ext (e ∷ p) x)

pub global_at-place :
    (c d : CallingContext) (p : List CallingContext) (r x : ℕ) (children gs : GlobalNodes)
    → same d c ≡ true
    → global_at (d ∷ p) (place c r children gs)
      ≡ elim p [ [] ↦ some r | e ∷ q ↦ global_at (e ∷ q) children ]
unfolding global_at
global_at-place c d [] r x children gs h = ground (arith, h, find-place c d r children gs)
global_at-place c d (e ∷ p) r x children gs h = ground (arith, h, find-place c d r children gs)
