-- ===== src/Ompt.antt =====
-- include/lo2s/ompt/events.hpp: the events of the OpenMP library, and the OpenMP part of a calling
-- context. The `int64_t tid` and the pointers are bit patterns.
use lo2s.Shared.{ℕ, Bool, ◌&&◌, ltb, ◌==◌, if◌then◌else◌}

pub data OmpType : Type 0 where
  parallel master sync loop workshare other : OmpType

unfoldable pub omp_type_value : OmpType → ℕ
omp_type_value parallel = 0
omp_type_value master = 1
omp_type_value sync = 2
omp_type_value loop = 3
omp_type_value workshare = 4
omp_type_value other = 5

pub data EventType : Type 0 where
  ompt_enter ompt_exit : EventType

unfoldable pub event_type_value : EventType → ℕ
event_type_value ompt_enter = 0
event_type_value ompt_exit = 1

pub record OmptCctx : Type 0 where
  pub type : OmpType
  pub tid : ℕ
  pub addr : ℕ
  pub num_threads : ℕ

unfoldable pub ompt_lt : OmptCctx → OmptCctx → Bool
unfolding omp_type_value
ompt_lt a b =
    if omp_type_value a.type == omp_type_value b.type
    then (if a.num_threads == b.num_threads
        then ltb a.addr b.addr
        else ltb a.num_threads b.num_threads)
    else ltb (omp_type_value a.type) (omp_type_value b.type)

unfoldable pub ompt_eq : OmptCctx → OmptCctx → Bool
unfolding omp_type_value
ompt_eq a b =
    omp_type_value a.type == omp_type_value b.type
    && a.num_threads == b.num_threads
    && a.addr == b.addr
