-- ===== src/Scope/Order.antt =====
-- The orders of include/lo2s/execution_scope.hpp and include/lo2s/measurement_scope.hpp, which are
-- the orders of `std::map`s.
use lo2s.Shared.{◌≡◌, ◌↔◌, true, false, arith}
use lo2s.Scope.{
  ExecutionScope, scope_lt, scope_eq, MeasurementScope, measurement_lt, measurement_eq,
}

scope_lt_trans :
    (a b c : ExecutionScope) → scope_lt a b ≡ true → scope_lt b c ≡ true → scope_lt a c ≡ true
unfolding scope_lt
scope_lt_trans a b c h k = ground arith

scope_lt_asymm : (a b : ExecutionScope) → scope_lt a b ≡ true → scope_lt b a ≡ false
unfolding scope_lt
scope_lt_asymm a b h = ground arith

scope_lt-eq :
    (a b : ExecutionScope)
    → ((scope_lt a b ≡ false) × (scope_lt b a ≡ false)) ↔ (scope_eq a b ≡ true)
unfolding scope_lt scope_eq
scope_lt-eq a b = ground arith

-- `operator<` of measurement scopes is transitive, and of two scopes one at most is less than the
-- other.
pub measurement_lt_order :
    (a b c : MeasurementScope)
    → measurement_lt a b ≡ true
    → measurement_lt b c ≡ true
    → (measurement_lt a c ≡ true) × (measurement_lt b a ≡ false)
unfolding measurement_lt
measurement_lt_order a b c h k =
    ground (arith, scope_lt_trans a.scope b.scope c.scope, scope_lt_asymm a.scope b.scope)

-- Two measurement scopes of which neither is less are those that `operator==` finds equal.
pub measurement_lt-eq :
    (a b : MeasurementScope)
    → ((measurement_lt a b ≡ false) × (measurement_lt b a ≡ false)) ↔ (measurement_eq a b ≡ true)
unfolding measurement_lt measurement_eq
measurement_lt-eq a b = ground (arith, scope_lt-eq a.scope b.scope)
