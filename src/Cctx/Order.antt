-- ===== src/Cctx/Order.antt =====
-- The comparisons of include/lo2s/calling_context.hpp: `operator<` is a strict weak order whose
-- equivalence is `operator==`, and `operator!=` is false within a type.
use lo2s.Shared.{◌≡◌, ◌≢◌, ◌⊎◌, ◌↔◌, refl, true, false, ok, arith}
use lo2s.Ompt.{OmptCctx, ompt_lt}
use lo2s.Cctx.{CallingContext, root, openmp, context_type, lt_member, lt, eq, ne_member, ne}

ompt_lt_trans : (a b c : OmptCctx) → ompt_lt a b ≡ true → ompt_lt b c ≡ true → ompt_lt a c ≡ true
unfolding ompt_lt
ompt_lt_trans a b c h k = ground arith

member_trans :
    (a b c : CallingContext)
    → context_type a ≡ context_type b
    → context_type b ≡ context_type c
    → lt_member a b ≡ ok true
    → lt_member b c ≡ ok true
    → lt_member a c ≡ ok true
unfolding context_type lt_member
member_trans root b c e f h k = ground arith
member_trans (openmp x) (openmp y) (openmp z) e f h k = ground (arith, ompt_lt_trans x y z)
member_trans a b c e f h k = ground arith

lt_trans : (a b c : CallingContext) → lt a b ≡ ok true → lt b c ≡ ok true → lt a c ≡ ok true
unfolding lt
lt_trans a b c h k = ground (arith, member_trans a b c)

lt_asymm : (a b : CallingContext) → lt a b ≡ ok true → lt b a ≡ ok false
unfolding lt
lt_asymm root b h = ground arith
lt_asymm a b h = ground arith

-- Two contexts of which neither is less by `operator<` are those that `operator==` finds equal.
pub lt-eq :
    (a b : CallingContext) → ((lt a b ≡ ok false) × (lt b a ≡ ok false)) ↔ (eq a b ≡ ok true)
unfolding lt eq
lt-eq root b = ground arith
lt-eq a b = ground arith

-- `operator<` is transitive, and of two contexts one at most is less than the other.
pub lt_order :
    (a b c : CallingContext)
    → lt a b ≡ ok true
    → lt b c ≡ ok true
    → (lt a c ≡ ok true) × (lt b a ≡ ok false)
lt_order a b c h k = (lt_trans a b c h k, lt_asymm a b h)

-- `operator!=` never tells apart two contexts of one type.
pub ne-same_type : (a b : CallingContext) → context_type a ≡ context_type b → ne a b ≡ ok false
unfolding ne
ne-same_type a b h = ground arith

-- A context that is not the root compares by `operator!=` with every context.
pub ne_total : (k c : CallingContext) → k ≢ root → (ne k c ≡ ok true) ⊎ (ne k c ≡ ok false)
unfolding ne ne_member
ne_total root c h = absurd (h refl)
ne_total k c h = ground arith
