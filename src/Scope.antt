-- ===== src/Scope.antt =====
-- include/lo2s/execution_scope.hpp, include/lo2s/measurement_scope.hpp and
-- include/lo2s/execution_scope_group.hpp: what is measured, and the group it belongs to. `Thread`,
-- `Process` and `Cpu` are their numbers.
pub mod Order
pub mod Group
mod Tests
use lo2s.Shared.{
  ℕ, ℤ, pos, negsuc, Bool, true, false, not, ◌&&◌, ◌||◌, Option, none, some, List, [], ◌∷◌, ltb,
  ◌==◌, ltb_ℤ, eq_ℤ, if◌then◌else◌, Result, ok, err, Fault, assert, ◌>>=◌, ◌>>◌,
}

pub data ExecutionScopeType : Type 0 where
  thread : ExecutionScopeType
  process : ExecutionScopeType
  cpu : ExecutionScopeType
  unknown : ExecutionScopeType

-- The enumerators' numbers, by which `<` compares.
unfoldable pub scope_type_value : ExecutionScopeType → ℕ
scope_type_value thread = 0
scope_type_value process = 1
scope_type_value cpu = 2
scope_type_value unknown = 3

-- `ExecutionScope`; the names of its constructors from a thread, a process and a CPU follow.
pub record ExecutionScope : Type 0 where
  pub type : ExecutionScopeType
  pub id : ℤ

abbrev pub of_thread : ℤ → ExecutionScope
of_thread t = record { type = thread; id = t }

abbrev pub of_process : ℤ → ExecutionScope
of_process p = record { type = process; id = p }

abbrev pub of_cpu : ℤ → ExecutionScope
of_cpu c = record { type = cpu; id = c }

-- `as_thread()`, `as_process()` and `as_cpu()`
unfoldable pub as_thread : ExecutionScope → Result ℤ
unfolding scope_type_value
as_thread s = do assert (scope_type_value s.type == 0); ok s.id

unfoldable pub as_process : ExecutionScope → Result ℤ
unfolding scope_type_value
as_process s = do assert (scope_type_value s.type == 1); ok s.id

unfoldable pub as_cpu : ExecutionScope → Result ℤ
unfolding scope_type_value
as_cpu s = do assert (scope_type_value s.type == 2); ok s.id

-- `is_process()`, `is_thread()` and `is_cpu()`
unfoldable pub is_process_scope : ExecutionScope → Bool
unfolding scope_type_value
is_process_scope s = scope_type_value s.type == 1

unfoldable pub is_thread : ExecutionScope → Bool
unfolding scope_type_value
is_thread s = scope_type_value s.type == 0

unfoldable pub is_cpu : ExecutionScope → Bool
unfolding scope_type_value
is_cpu s = scope_type_value s.type == 2

-- `operator<`
unfoldable pub scope_lt : ExecutionScope → ExecutionScope → Bool
unfolding scope_type_value
scope_lt a b =
    if not (scope_type_value a.type == scope_type_value b.type)
    then ltb (scope_type_value a.type) (scope_type_value b.type)
    else ltb_ℤ a.id b.id

-- `operator==`
unfoldable pub scope_eq : ExecutionScope → ExecutionScope → Bool
unfolding scope_type_value
scope_eq a b = (scope_type_value a.type == scope_type_value b.type) && eq_ℤ a.id b.id

pub data MeasurementScopeType : Type 0 where
  sample : MeasurementScopeType
  nec_sample : MeasurementScopeType
  group_metric : MeasurementScopeType
  userspace_metric : MeasurementScopeType
  nec_metric : MeasurementScopeType
  bio : MeasurementScopeType
  syscall : MeasurementScopeType
  gpu : MeasurementScopeType
  tracepoint : MeasurementScopeType
  posix_io : MeasurementScopeType
  openmp : MeasurementScopeType
  unknown : MeasurementScopeType

unfoldable pub measurement_scope_type_value : MeasurementScopeType → ℕ
measurement_scope_type_value sample = 0
measurement_scope_type_value nec_sample = 1
measurement_scope_type_value group_metric = 2
measurement_scope_type_value userspace_metric = 3
measurement_scope_type_value nec_metric = 4
measurement_scope_type_value bio = 5
measurement_scope_type_value syscall = 6
measurement_scope_type_value gpu = 7
measurement_scope_type_value tracepoint = 8
measurement_scope_type_value posix_io = 9
measurement_scope_type_value openmp = 10
measurement_scope_type_value unknown = 11

pub record MeasurementScope : Type 0 where
  pub type : MeasurementScopeType
  pub scope : ExecutionScope

-- `operator<` of `MeasurementScope`
unfoldable pub measurement_lt : MeasurementScope → MeasurementScope → Bool
unfolding measurement_scope_type_value scope_lt
measurement_lt a b =
    if not (measurement_scope_type_value a.type == measurement_scope_type_value b.type)
    then ltb (measurement_scope_type_value a.type) (measurement_scope_type_value b.type)
    else scope_lt a.scope b.scope

-- `operator==` of `MeasurementScope`
unfoldable pub measurement_eq : MeasurementScope → MeasurementScope → Bool
unfolding measurement_scope_type_value scope_eq
measurement_eq a b =
    scope_eq a.scope b.scope
    && (measurement_scope_type_value a.type == measurement_scope_type_value b.type)

-- `ExecutionScopeGroup.groups_`: a `std::map`, whose keys are told apart by `operator<`.
abbrev pub Groups : Type 0
Groups = List (ExecutionScope × ExecutionScope)

unfoldable pub find : ExecutionScope → Groups → Option ExecutionScope
unfolding scope_lt
find s [] = none
find s ((k, g) ∷ r) = if not (scope_lt s k) && not (scope_lt k s) then some g else find s r

-- `std::map::emplace`, which keeps an entry that is there.
unfoldable pub emplace : ExecutionScope → ExecutionScope → Groups → Groups
unfolding find
emplace s g m = elim (find s m) [ none ↦ (s, g) ∷ m | some _ ↦ m ]

-- `is_group(scope)`
unfoldable pub is_group : ExecutionScope → Groups → Bool
unfolding find scope_eq
is_group s m = elim (find s m) [ none ↦ false | some g ↦ scope_eq g s ]

-- `is_process(thread)`
unfoldable pub is_process : ℤ → Groups → Bool
unfolding is_group
is_process t m = is_group (of_thread t) m

-- `get_parent(scope)`
unfoldable pub get_parent : ExecutionScope → Groups → Result ExecutionScope
unfolding find
get_parent s m = elim (find s m) [ none ↦ err Fault.out_of_range | some g ↦ ok g ]

-- `get_process(thread)`
unfoldable pub get_process : ℤ → Groups → Result ℤ
unfolding find as_process
get_process t m = elim (find (of_thread t) m) [ none ↦ ok (pos 0) | some g ↦ as_process g ]

unfoldable pub add_process : ℤ → Groups → Groups
unfolding emplace
add_process p m = emplace (of_thread p) (of_process p) m

-- `add_thread(thread, process)`
unfoldable pub add_thread : ℤ → ℤ → Groups → Groups
unfolding emplace
add_thread t p m = emplace (of_thread t) (of_process p) m

-- `add_thread(child, parent)`, of two threads.
unfoldable pub add_thread_of : ℤ → ℤ → Groups → Groups
unfolding emplace find
add_thread_of child parent m = elim (find (of_thread parent) m) [
  | none ↦ emplace (of_thread child) (of_process parent) m
  | some g ↦ emplace (of_thread child) g m
]

unfoldable pub add_cpu : ℤ → Groups → Groups
unfolding emplace
add_cpu c m = emplace (of_cpu c) (of_cpu c) m
