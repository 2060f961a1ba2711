-- ===== src/Cctx.antt =====
-- include/lo2s/calling_context.hpp: the kinds of calling context and their order, which is the
-- order of the `std::map`s of the calling context trees.
pub mod Order
mod Tests
use lo2s.Shared.{
  ℕ, ℤ, pos, negsuc, ◌-◌, ◌^◌, ◌||◌, Bool, true, false, not, ltb, ◌==◌, ltb_ℤ, eq_ℤ, if◌then◌else◌,
  Result, ok, err, Fault,
}
use lo2s.Ompt.{OmptCctx, ompt_lt, ompt_eq, omp_type_value}

pub data CallingContext : Type 0 where
  root : CallingContext
  process : ℤ → CallingContext
  thread : ℤ → CallingContext
  sample_addr : ℕ → CallingContext
  gpu_kernel : ℕ → CallingContext
  syscall : ℕ → CallingContext
  openmp : OmptCctx → CallingContext

-- `CallingContextType`, by its number.
unfoldable pub context_type : CallingContext → ℕ
context_type root = 0
context_type (process p) = 1
context_type (thread t) = 2
context_type (sample_addr a) = 3
context_type (gpu_kernel k) = 4
context_type (syscall s) = 5
context_type (openmp o) = 6

-- The `switch` of `operator<`, which runs if the types agree.
unfoldable pub lt_member : CallingContext → CallingContext → Result Bool
unfolding ompt_lt
lt_member root root = err Fault.runtime_error
lt_member (process p) (process q) = ok (ltb_ℤ p q)
lt_member (thread p) (thread q) = ok (ltb_ℤ p q)
lt_member (sample_addr p) (sample_addr q) = ok (ltb p q)
lt_member (gpu_kernel p) (gpu_kernel q) = ok (ltb p q)
lt_member (syscall p) (syscall q) = ok (ltb p q)
lt_member (openmp p) (openmp q) = ok (ompt_lt p q)
lt_member _ _ = ok false

-- `operator<`
unfoldable pub lt : CallingContext → CallingContext → Result Bool
unfolding context_type lt_member
lt a b =
    if not (context_type a == context_type b)
    then ok (ltb (context_type a) (context_type b))
    else lt_member a b

-- `operator==`
unfoldable pub eq : CallingContext → CallingContext → Result Bool
unfolding ompt_eq
eq root root = err Fault.runtime_error
eq (process p) (process q) = ok (eq_ℤ p q)
eq (thread p) (thread q) = ok (eq_ℤ p q)
eq (sample_addr p) (sample_addr q) = ok (p == q)
eq (gpu_kernel p) (gpu_kernel q) = ok (p == q)
eq (syscall p) (syscall q) = ok (p == q)
eq (openmp p) (openmp q) = ok (ompt_eq p q)
eq _ _ = ok false

-- `operator!=` of contexts of different types reads the member of the left context in the union of
-- the right one, too. The first 8 bytes of the union are these; `OMPTCctx` begins with its type.
word_ℤ : ℤ → ℕ
word_ℤ (pos n) = n
word_ℤ (negsuc n) = 2 ^ 64 - 1 - n

word : CallingContext → ℕ
unfolding word_ℤ omp_type_value
word root = 0
word (process p) = word_ℤ p
word (thread t) = word_ℤ t
word (sample_addr a) = a
word (gpu_kernel k) = k
word (syscall s) = s
word (openmp o) = omp_type_value o.type

-- `OMPTCctx::addr` and `OMPTCctx::num_threads` in the union of a context that is no OpenMP context,
-- which sets its first 8 bytes only. The source leaves these bytes open, and so do the proofs: the
-- two functions are unfolded nowhere, and 0 stands for any number.
unfoldable unset_addr : CallingContext → ℕ
unset_addr c = 0

unfoldable unset_num_threads : CallingContext → ℕ
unset_num_threads c = 0

-- The `switch` of `operator!=`, which runs if the types differ.
pub ne_member : CallingContext → CallingContext → Result Bool
unfolding word omp_type_value
ne_member root b = err Fault.runtime_error
ne_member (openmp o) b = ok (
    not (omp_type_value o.type == word b)
    || not (o.num_threads == unset_num_threads b)
    || not (o.addr == unset_addr b))
ne_member a b = ok (not (word a == word b))

-- `operator!=`. Contexts of one type never differ.
pub ne : CallingContext → CallingContext → Result Bool
unfolding context_type ne_member
ne a b = if not (context_type a == context_type b) then ne_member a b else ok false
