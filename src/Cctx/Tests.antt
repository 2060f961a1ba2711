-- ===== src/Cctx/Tests.antt =====
-- Concrete calling contexts of include/lo2s/calling_context.hpp.
use lo2s.Shared.{◌≡◌, ◌↔◌, refl, true, false, ok}
use lo2s.Cctx.{sample_addr, syscall, context_type, lt_member, lt, eq}
use lo2s.Cctx.Order.{lt-eq, lt_order}

lt-eq_example :
    ((lt (sample_addr 5) (sample_addr 5) ≡ ok false)
      × (lt (sample_addr 5) (sample_addr 5) ≡ ok false))
    ↔ (eq (sample_addr 5) (sample_addr 5) ≡ ok true)
lt-eq_example = lt-eq (sample_addr 5) (sample_addr 5)

lt_order_example :
    (lt (sample_addr 5) (syscall 1) ≡ ok true) × (lt (sample_addr 7) (sample_addr 5) ≡ ok false)
unfolding lt context_type lt_member
lt_order_example = lt_order (sample_addr 5) (sample_addr 7) (syscall 1) refl refl
