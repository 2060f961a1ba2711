-- ===== src/SyscallWriter/Closed.antt =====
-- Runs of the writer in src/perf/syscall/writer.cpp: every system call that it enters is left.
use lo2s.Shared.{
  ℕ, ◌≡◌, ◌≢◌, refl, ap, ◌∙◌, inl, inr, true, false, Bool-cases, some, List, [], ◌∷◌, length, ◌==◌,
  ok, ◌>>=◌, arith,
}
use lo2s.Cctx.{CallingContext, root, syscall}
use lo2s.CctxTree.{LocalCctxTree, cctx_enter_at, cctx_leave, handle_enter_cctx_node, finalize}
use lo2s.CctxTree.Stack.{replay, stack_refs}
use lo2s.CctxTree.Calls.{Reached, by_enter, by_leave, Reached-IsValid, Reached-replay}
use lo2s.CctxTree.Leave.{cctx_leave_lem, cur_level_valid}
use lo2s.CctxTree.Enter.{handle_enter-Entered}
use lo2s.SyscallWriter.{
  SyscallRecord, SyscallWriter, moved_to, handle_syscall, handle_syscalls, close_syscalls,
}

syscall≢root : (s : ℕ) → syscall s ≢ root
syscall≢root s = ground arith

enter_one :
    (tp : ℕ) (c : CallingContext) (t t1 : LocalCctxTree)
    → handle_enter_cctx_node tp 1 c t ≡ ok t1
    → cctx_enter_at tp 1 (c ∷ []) t ≡ ok t1
unfolding cctx_enter_at
enter_one tp c t t1 e = ground (arith, e)

enter_lem :
    (convert : ℕ → ℕ) (r : SyscallRecord) (w : SyscallWriter) (t : LocalCctxTree)
    → (r.id == w.sys_enter_id) ≡ true
    → cctx_enter_at (convert r.time) 1 (syscall r.syscall_nr ∷ []) w.tree ≡ ok t
    → handle_syscall convert r w ≡ ok (moved_to (convert r.time) t w)
unfolding handle_syscall
enter_lem convert r w t e f = rw (e, f, handle_syscall) refl

leave_lem :
    (convert : ℕ → ℕ) (r : SyscallRecord) (w : SyscallWriter) (k : ℕ) (t : LocalCctxTree)
    → (r.id == w.sys_enter_id) ≡ false
    → cctx_leave (convert r.time) 1 w.tree ≡ ok (k, t)
    → handle_syscall convert r w ≡ ok (moved_to (convert r.time) t w)
unfolding handle_syscall
leave_lem convert r w k t e f = rw (e, f, handle_syscall) refl

handle_syscall-Reached :
    (convert : ℕ → ℕ) (r : SyscallRecord) (w : SyscallWriter)
    → Reached w.tree
    → (w' : SyscallWriter) × (handle_syscall convert r w ≡ ok w') × Reached w'.tree
handle_syscall-Reached convert r w h =
    let v = Reached-IsValid w.tree h in
    elim (Bool-cases (r.id == w.sys_enter_id)) [
      | inl e ↦
          let tp = convert r.time in
          let c = syscall r.syscall_nr in
          let deep = (cur_level_valid w.tree v).1 in
          let a =
            handle_enter-Entered tp 1 c w.tree v (syscall≢root r.syscall_nr) (omega arith)
              (omega (arith, deep)) in
          (
            moved_to tp a.tree w,
            enter_lem convert r w a.tree e (enter_one tp c w.tree a.tree a.result),
            by_enter tp 1 c w.tree a.tree (syscall≢root r.syscall_nr) (omega arith)
                (omega (arith, deep)) a.result h,
          )
      | inr e ↦
          let l = cctx_leave_lem (convert r.time) 1 w.tree v in
          (
            moved_to (convert r.time) l.0 w,
            leave_lem convert r w _ l.0 e l.1,
            by_leave (convert r.time) 1 _ w.tree l.0 l.1 h,
          )
    ]

handle_syscalls-Reached :
    (convert : ℕ → ℕ) (rs : List SyscallRecord) (w : SyscallWriter)
    → Reached w.tree
    → (w' : SyscallWriter) × (handle_syscalls convert rs w ≡ ok w') × Reached w'.tree
unfolding handle_syscalls
handle_syscalls-Reached convert [] w h = (w, refl, h)
handle_syscalls-Reached convert (r ∷ rs) w h =
    let (w1, e, h1) = handle_syscall-Reached convert r w h in
    let (w2, f, h2) = handle_syscalls-Reached convert rs w1 h1 in (w2, rw e f, h2)

close_lem :
    (w : SyscallWriter) (k : ℕ) (t : LocalCctxTree)
    → cctx_leave w.last_tp 1 w.tree ≡ ok (k, t)
    → close_syscalls w ≡ ok (record w { tree = finalize t })
unfolding close_syscalls
close_lem w k t e = rw e refl

only_root : (s : List ℕ) → length s ≡ 1 → stack_refs s ≡ []
only_root [] h = absurd (omega (arith, h))
only_root (i ∷ []) h = refl
only_root (i ∷ j ∷ s) h = absurd (omega (arith, h))

-- A writer whose tree calls reach handles every sequence of records without a fault, nested or
-- unpaired as they may come, and its destructor then leaves what is still entered: a reader of the
-- trace finds every enter and leave event properly nested, and no system call open.
pub close_syscalls-replay :
    (convert : ℕ → ℕ) (rs : List SyscallRecord) (w : SyscallWriter)
    → Reached w.tree
    → (w' : SyscallWriter) × ((handle_syscalls convert rs w >>= close_syscalls) ≡ ok w')
      × (replay w'.tree.written ≡ some [])
      × (length w'.tree.cur ≡ 1)
unfolding finalize
close_syscalls-replay convert rs w h =
    let (w1, e, h1) = handle_syscalls-Reached convert rs w h in
    let v = Reached-IsValid w1.tree h1 in
    let l = cctx_leave_lem w1.last_tp 1 w1.tree v in
    let deep = (cur_level_valid w1.tree v).1 in
    let one : length l.0.cur ≡ 1 = omega (arith, l.4 (omega arith), deep) in
    (
      record w1 { tree = finalize l.0 },
      rw e (close_lem w1 _ l.0 l.1),
      Reached-replay l.0 (by_leave w1.last_tp 1 _ w1.tree l.0 l.1 h1)
          ∙ ap some (only_root l.0.cur one),
      one,
    )
