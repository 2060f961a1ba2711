-- ===== src/CctxTree.antt =====
-- include/lo2s/local_cctx_tree.hpp and src/local_cctx_tree.cpp, `LocalCctxTree`: the tree of the
-- calling contexts of one location, the current call stack in it, and what is written to the
-- trace. The tree's nodes have stable addresses; they are the entries of a list, in the order of
-- their creation, and a `LocalCctxMap::value_type*` is an index of it.
pub mod Node
pub mod Stack
pub mod Trace
pub mod Leave
pub mod Enter
pub mod Sample
pub mod Calls
pub mod Times
mod Tests
use lo2s.Shared.{
  ℕ, ℤ, zero, suc, ◌+◌, ◌-◌, ◌%◌, ◌^◌, ◌≡◌, Bool, true, false, not, ◌&&◌, ◌||◌, Option, none, some,
  List, [], ◌∷◌, ◌++◌, length, get_elem?, set, ltb, leb, ◌==◌, if◌then◌else◌, Result, ok, err,
  Fault, assert, ◌>>=◌, ◌>>◌,
}
use lo2s.Cctx.{CallingContext, root, sample_addr, eq, ne}

-- A node: its key in the parent's map, `LocalCctxNode.ref`, and `LocalCctxNode.children`.
pub record LocalCctxNode : Type 0 where
  pub key : CallingContext
  pub ref : ℕ
  pub children : List (CallingContext × ℕ)

-- Events that the users of a tree write through its `writer()`: the begin and the end of a thread,
-- and the CPU that a thread runs on.
pub data Mark : Type 0 where
  thread_begin : Mark
  thread_end : Mark
  cpuid_metric : ℤ → Mark

-- What goes to `otf2::writer::local`, with its time point. The unwind distance of an enter is 2;
-- the interrupt generator of a sample is the same throughout.
pub data TraceEvent : Type 0 where
  enter : ℕ → ℕ → TraceEvent
  leave : ℕ → ℕ → TraceEvent
  sample : ℕ → ℕ → ℕ → TraceEvent
  mark : ℕ → Mark → TraceEvent

-- `cur` has the top of the call stack first; `written` has the oldest event last.
pub record LocalCctxTree : Type 0 where
  pub nodes : List LocalCctxNode
  pub cur : List ℕ
  pub written : List TraceEvent
  pub next_cctx_ref : ℕ
  pub ref_count : ℕ

-- `writer() << ...`
abbrev pub marked : ℕ → Mark → LocalCctxTree → LocalCctxTree
marked tp m t = record t { written = mark tp m ∷ t.written }

-- The constructor.
unfoldable pub new_tree : LocalCctxTree
new_tree = record {
  nodes = record { key = root; ref = 0; children = [] } ∷ [];
  cur = 0 ∷ [];
  written = [];
  next_cctx_ref = 0;
  ref_count = 0;
}

unfoldable pub finalize : LocalCctxTree → LocalCctxTree
finalize t = record t { ref_count = t.next_cctx_ref }

pub num_cctx : LocalCctxTree → ℕ
num_cctx t = t.ref_count

abbrev pub node : LocalCctxTree → ℕ → Result LocalCctxNode
node t i = elim (get_elem? t.nodes i) [ none ↦ err Fault.null_pointer | some n ↦ ok n ]

-- The key of a map under `operator<` that is neither less nor greater. A second `root` meets the
-- first, and the comparison throws.
unfoldable pub find_child : CallingContext → List (CallingContext × ℕ) → Result (Option ℕ)
find_child c [] = ok none
find_child c ((k, i) ∷ r) =
    let later = find_child c r in eq c k >>= λ here. if here then ok (some i) else later

-- `create_cctx_node`
unfoldable pub create_cctx_node : CallingContext → ℕ → LocalCctxTree → Result (ℕ × LocalCctxTree)
create_cctx_node c parent t = do
  n ← node t parent
  found ← find_child c n.children
  elim found [
    | some i ↦ ok (i, t)
    | none ↦
        let i = length t.nodes in
        let parent' = record n { children = (c, i) ∷ n.children } in
        let child : LocalCctxNode = record { key = c; ref = t.next_cctx_ref; children = [] } in
        ok (
          i,
          record t {
            nodes = set t.nodes parent parent' ++ child ∷ [];
            next_cctx_ref = t.next_cctx_ref + 1;
          },
        )
  ]

-- `cur_level()`
unfoldable pub cur_level : LocalCctxTree → Result ℕ
cur_level t = do assert (ltb 0 (length t.cur)); ok (length t.cur - 1)

-- `cur_.back()`
abbrev pub back : LocalCctxTree → Result ℕ
back t = elim t.cur [ [] ↦ err Fault.null_pointer | i ∷ r ↦ ok i ]

-- `cur_[level]`, from the bottom.
abbrev pub at_level : LocalCctxTree → ℕ → Result ℕ
at_level t level = elim (get_elem? t.cur (length t.cur - 1 - level)) [
  | none ↦ err Fault.null_pointer
  | some i ↦ ok i
]

-- One round of `cctx_leave`: the leave event of the top, which is then removed.
pub leave_top : ℕ → LocalCctxTree → Result LocalCctxTree
leave_top tp t = do
  i ← back t
  n ← node t i
  ok (record t { cur = elim t.cur [ [] ↦ [] | _ ∷ r ↦ r ]; written = leave tp n.ref ∷ t.written })

-- `level > 0 && cur_level() >= level`
pub must_leave : ℕ → ℕ → Bool
must_leave level top = ltb 0 level && leb level top

-- The `while` loop over that test, for a stack of at most `fuel` nodes.
pub leave_loop : ℕ → ℕ → ℕ → LocalCctxTree → Result LocalCctxTree
leave_loop zero tp level t = ok t
leave_loop (suc fuel) tp level t = cur_level t >>= λ top. elim (must_leave level top) [
  | true ↦ leave_top tp t >>= leave_loop fuel tp level
  | false ↦ ok t
]

-- `cctx_leave(tp, level)`; it returns the level that is left.
unfoldable pub cctx_leave : ℕ → ℕ → LocalCctxTree → Result (ℕ × LocalCctxTree)
cctx_leave tp level t = do
  t' ← leave_loop (length t.cur) tp level t
  top ← cur_level t'
  ok (top, t')

-- `cctx_leave(tp)`, of the top.
unfoldable pub cctx_leave_top : ℕ → LocalCctxTree → Result (ℕ × LocalCctxTree)
cctx_leave_top tp t = cur_level t >>= λ top. cctx_leave tp top t

-- The two lines by which a new top is entered.
unfoldable pub enter_new : ℕ → CallingContext → LocalCctxTree → Result LocalCctxTree
enter_new tp c t = do
  top ← back t
  (i, t') ← create_cctx_node c top t
  n ← node t' i
  ok (record t' { cur = i ∷ t'.cur; written = enter tp n.ref ∷ t'.written })

-- The branch of `handle_enter_cctx_node` for a level that is on the call stack already.
pub enter_at : ℕ → ℕ → CallingContext → LocalCctxTree → Result LocalCctxTree
enter_at tp level c t = do
  i ← at_level t level
  n ← node t i
  differs ← ne n.key c
  elim differs [ true ↦ cctx_leave tp level t >>= λ r. enter_new tp c r.1 | false ↦ ok t ]

-- `handle_enter_cctx_node`
unfoldable pub handle_enter_cctx_node :
    ℕ → ℕ → CallingContext → LocalCctxTree → Result LocalCctxTree
handle_enter_cctx_node tp level c t = do
  assert (ltb 0 level)
  top ← cur_level t
  assert (leb level (top + 1))
  elim (level == top + 1) [ true ↦ enter_new tp c t | false ↦ enter_at tp level c t ]

-- `cctx_enter(tp, level, ctx, ctxs...)`
unfoldable pub cctx_enter_at : ℕ → ℕ → List CallingContext → LocalCctxTree → Result LocalCctxTree
cctx_enter_at tp level [] t = ok t
cctx_enter_at tp level (c ∷ cs) t =
    handle_enter_cctx_node tp level c t >>= cctx_enter_at tp (level + 1) cs

-- `cctx_enter(tp, ctx, ctxs...)`, below the current call stack; it returns the first level.
unfoldable pub cctx_enter : ℕ → List CallingContext → LocalCctxTree → Result (ℕ × LocalCctxTree)
cctx_enter tp cs t = do top ← cur_level t; t' ← cctx_enter_at tp (top + 1) cs t; ok (top + 1, t')

-- PERF_CONTEXT_KERNEL and PERF_CONTEXT_USER, as `uint64_t`.
abbrev pub perf_context_kernel : ℕ
perf_context_kernel = 2 ^ 64 - 128

abbrev pub perf_context_user : ℕ
perf_context_user = 2 ^ 64 - 512

-- The loop of `cctx_sample(tp, num_ips, ips)` at `i`, with the array as a list; a read behind its
-- end is a fault.
pub sample_loop : List ℕ → ℕ → ℕ → LocalCctxTree → Result (ℕ × LocalCctxTree)
sample_loop ips zero at t = ok (at, t)
sample_loop ips (suc i) at t = elim (get_elem? ips (suc i)) [
  | none ↦ err Fault.out_of_range
  | some ip ↦ elim (ip == perf_context_kernel || ip == perf_context_user) [
    | true ↦ elim (leb (suc i) 1) [ true ↦ ok (at, t) | false ↦ sample_loop ips i at t ]
    | false ↦ create_cctx_node (sample_addr ip) at t >>= λ r. sample_loop ips i r.0 r.1
  ]
]

unfoldable pub cctx_sample_ips : ℕ → ℕ → List ℕ → LocalCctxTree → Result LocalCctxTree
cctx_sample_ips tp num_ips ips t = do
  top ← back t
  (at, t') ← sample_loop ips ((num_ips + 2 ^ 64 - 1) % 2 ^ 64) top t
  n ← node t' at
  ok (record t' { written = sample tp n.ref num_ips ∷ t'.written })

-- `cctx_sample(tp, ip)`
unfoldable pub cctx_sample : ℕ → ℕ → LocalCctxTree → Result LocalCctxTree
cctx_sample tp ip t = do
  top ← back t
  (at, t') ← create_cctx_node (sample_addr ip) top t
  n ← node t' at
  ok (record t' { written = sample tp n.ref 2 ∷ t'.written })
