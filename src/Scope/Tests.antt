-- ===== src/Scope/Tests.antt =====
-- Concrete scopes of include/lo2s/measurement_scope.hpp and groups of
-- include/lo2s/execution_scope_group.hpp.
use lo2s.Shared.{ℤ, pos, ◌≡◌, false, [], ok}
use lo2s.Scope.{
  MeasurementScope, MeasurementScopeType, of_thread, of_cpu, Groups, add_process, add_thread,
  add_thread_of, get_process, is_process,
}
use lo2s.Scope.Group.{nothing, by_process, by_thread, by_thread_of, Built-threads}

abbrev sample_of : ℤ → MeasurementScope
sample_of t = record { type = MeasurementScopeType.sample; scope = of_thread t }

abbrev syscall_of : ℤ → MeasurementScope
syscall_of c = record { type = MeasurementScopeType.syscall; scope = of_cpu c }

-- A process 10, its thread 11, and 12, which 11 created.
abbrev groups : Groups
groups = add_thread_of (pos 12) (pos 11) (add_thread (pos 11) (pos 10) (add_process (pos 10) []))

Built-threads_example :
    ((p : ℤ) × (get_process (pos 12) groups ≡ ok p)) × (is_process (pos 12) groups ≡ false)
Built-threads_example = Built-threads groups (pos 12) (
    by_thread_of (pos 12) (pos 11) (add_thread (pos 11) (pos 10) (add_process (pos 10) []))
      (by_thread (pos 11) (pos 10) (add_process (pos 10) []) (by_process (pos 10) [] nothing)))
