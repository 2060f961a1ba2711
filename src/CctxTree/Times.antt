-- ===== src/CctxTree/Times.antt =====
-- The time points of the events that the calls of a `LocalCctxTree`
-- (include/lo2s/local_cctx_tree.hpp, src/local_cctx_tree.cpp) write.
use lo2s.Shared.{
  ℕ, zero, suc, ◌+◌, ◌-◌, ◌%◌, ◌^◌, ◌≤◌, ◌≡◌, refl, sym, ap, ◌∙◌, Bool-cases, inl, inr,
  Option-cases, List, [], ◌∷◌, ltb, ◌==◌, ◌||◌, leb, get_elem?, length, ok, assert, bind_inv,
  ok_inj, arith,
}
use lo2s.Cctx.{CallingContext, sample_addr, ne}
use lo2s.CctxTree.{
  LocalCctxTree, TraceEvent, enter, leave, sample, mark, node, back, at_level, cur_level,
  find_child, create_cctx_node, leave_top, leave_loop, must_leave, cctx_leave, enter_new, enter_at,
  handle_enter_cctx_node, sample_loop, cctx_sample, cctx_sample_ips, perf_context_kernel,
  perf_context_user,
}
use lo2s.CctxTree.Sample.{sample_loop-wraps, loop_context}

abbrev pub time_of : TraceEvent → ℕ
time_of (enter tp r) = tp
time_of (leave tp r) = tp
time_of (sample tp r n) = tp
time_of (mark tp m) = tp

-- The trace `w'` is `w` with more events, all with the time point `tp`.
pub data Since (tp : ℕ) (w : List TraceEvent) : List TraceEvent → Type 0 where
  same : (w' : List TraceEvent) → w' ≡ w → Since tp w w'
  more :
      (e : TraceEvent) (v w' : List TraceEvent)
      → time_of e ≡ tp
      → w' ≡ e ∷ v
      → Since tp w v
      → Since tp w w'

pub Since-trans : (tp : ℕ) (u v w : List TraceEvent) → Since tp u v → Since tp v w → Since tp u w
Since-trans tp u v w s (same _ e) = rw e s
Since-trans tp u v w s (more e x _ f g t) = more e x w f g (Since-trans tp u v x s t)

-- Time points that never decrease, up to `last`.
abbrev pub Ordered : ℕ → List TraceEvent → Type 0
Ordered last [] = Unit {0}
Ordered last (e ∷ w) = (time_of e ≤ last) × Ordered (time_of e) w

Ordered-mono : (a b : ℕ) (w : List TraceEvent) → a ≤ b → Ordered a w → Ordered b w
Ordered-mono a b [] h o = tt
Ordered-mono a b (e ∷ w) h o = (omega (arith, o.0), o.1)

pub Ordered-Since :
    (last tp : ℕ) (w w' : List TraceEvent)
    → Ordered last w
    → last ≤ tp
    → Since tp w w'
    → Ordered tp w'
Ordered-Since last tp w w' o h (same _ e) = rw e (Ordered-mono last tp w h o)
Ordered-Since last tp w w' o h (more e v _ f g s) =
    rw (g, f) (omega arith, Ordered-Since last tp w v o h s)

-- No node writes an event.
create_cctx_node_written :
    (c : CallingContext) (i k : ℕ) (t t' : LocalCctxTree)
    → create_cctx_node c i t ≡ ok (k, t')
    → t'.written ≡ t.written
unfolding create_cctx_node
create_cctx_node_written c i k t t' h =
    let (n, e, f) = bind_inv (node t i) _ h in
    let (found, e', g) = bind_inv (find_child c n.children) _ f in
    elim (Option-cases found) [
      | inl none_found ↦ ground (arith, g, none_found)
      | inr (j, some_found) ↦ ground (arith, g, some_found)
    ]

leave_top-Since :
    (tp : ℕ) (t t' : LocalCctxTree) → leave_top tp t ≡ ok t' → Since tp t.written t'.written
unfolding leave_top
leave_top-Since tp t t' h =
    let (i, e, f) = bind_inv (back t) _ h in
    let (n, e', g) = bind_inv (node t i) _ f in
    more (leave tp n.ref) t.written _ refl
      (sym (ap (λ (x : LocalCctxTree). x.written) (ok_inj _ _ g))) (same _ refl)

leave_loop-Since :
    (fuel tp level : ℕ) (t t' : LocalCctxTree)
    → leave_loop fuel tp level t ≡ ok t'
    → Since tp t.written t'.written
unfolding leave_loop
leave_loop-Since zero tp level t t' h =
    same _ (sym (ap (λ (x : LocalCctxTree). x.written) (ok_inj _ _ h)))
leave_loop-Since (suc fuel) tp level t t' h =
    let (top, e, f) = bind_inv (cur_level t) _ h in
    elim (Bool-cases (must_leave level top)) [
      | inl go ↦
          let (t1, e1, g) = bind_inv (leave_top tp t) _ (rw go at f) in
          Since-trans tp _ _ _ (leave_top-Since tp t t1 e1) (leave_loop-Since fuel tp level t1 t' g)
      | inr stop ↦ same _ (sym (ap (λ (x : LocalCctxTree). x.written) (ok_inj _ _ (rw stop at f))))
    ]

pub cctx_leave-Since :
    (tp level k : ℕ) (t t' : LocalCctxTree)
    → cctx_leave tp level t ≡ ok (k, t')
    → Since tp t.written t'.written
unfolding cctx_leave
cctx_leave-Since tp level k t t' h =
    let (t1, e, f) = bind_inv (leave_loop (length t.cur) tp level t) _ h in
    let (top, e1, g) = bind_inv (cur_level t1) _ f in
    Since-trans tp _ _ _ (leave_loop-Since (length t.cur) tp level t t1 e)
      (same _ (sym (ap (λ (x : ℕ × LocalCctxTree). x.1.written) (ok_inj _ _ g))))

enter_new-Since :
    (tp : ℕ) (c : CallingContext) (t t' : LocalCctxTree)
    → enter_new tp c t ≡ ok t'
    → Since tp t.written t'.written
unfolding enter_new
enter_new-Since tp c t t' h =
    let (top, e, f) = bind_inv (back t) _ h in
    let ((i, t1), e1, g) = bind_inv (create_cctx_node c top t) _ f in
    let (n, e2, k) = bind_inv (node t1 i) _ g in
    more (enter tp n.ref) t1.written _ refl
      (sym (ap (λ (x : LocalCctxTree). x.written) (ok_inj _ _ k)))
      (same _ (create_cctx_node_written c top i t t1 e1))

enter_at-Since :
    (tp level : ℕ) (c : CallingContext) (t t' : LocalCctxTree)
    → enter_at tp level c t ≡ ok t'
    → Since tp t.written t'.written
unfolding enter_at
enter_at-Since tp level c t t' h =
    let (i, e, f) = bind_inv (at_level t level) _ h in
    let (n, e1, g) = bind_inv (node t i) _ f in
    let (differs, e2, k) = bind_inv (ne n.key c) _ g in
    elim (Bool-cases differs) [
      | inl go ↦
          let ((top, t1), e3, l) = bind_inv (cctx_leave tp level t) _ (rw go at k) in
          Since-trans tp _ _ _ (cctx_leave-Since tp level top t t1 e3)
            (enter_new-Since tp c t1 t' l)
      | inr stay ↦ same _ (sym (ap (λ (x : LocalCctxTree). x.written) (ok_inj _ _ (rw stay at k))))
    ]

pub handle_enter-Since :
    (tp level : ℕ) (c : CallingContext) (t t' : LocalCctxTree)
    → handle_enter_cctx_node tp level c t ≡ ok t'
    → Since tp t.written t'.written
unfolding handle_enter_cctx_node
handle_enter-Since tp level c t t' h =
    let (u, e, f) = bind_inv (assert (ltb 0 level)) _ h in
    let (top, e1, g) = bind_inv (cur_level t) _ f in
    let (u', e2, k) = bind_inv (assert (leb level (top + 1))) _ g in
    elim (Bool-cases (level == top + 1)) [
      | inl on_top ↦ enter_new-Since tp c t t' (rw on_top at k)
      | inr below ↦ enter_at-Since tp level c t t' (rw below at k)
    ]

sample_loop_written :
    (ips : List ℕ) (i at k : ℕ) (t t' : LocalCctxTree)
    → sample_loop ips i at t ≡ ok (k, t')
    → t'.written ≡ t.written
unfolding sample_loop
sample_loop_written ips zero at k t t' h =
    sym (ap (λ (x : ℕ × LocalCctxTree). x.1.written) (ok_inj _ _ h))
sample_loop_written ips (suc i) at k t t' h = elim (Option-cases (get_elem? ips (suc i))) [
  | inl e ↦ absurd (cc (sym (sample_loop-wraps ips i at t e) ∙ h))
  | inr (ip, e) ↦ elim (Bool-cases (ip == perf_context_kernel || ip == perf_context_user)) [
    | inl f ↦ elim (Bool-cases (leb (suc i) 1)) [
      | inl g ↦ sym (
          ap (λ (x : ℕ × LocalCctxTree). x.1.written)
            (ok_inj _ _ (rw g at (sym (loop_context ips i at ip t e f) ∙ h))))
      | inr g ↦
          sample_loop_written ips i at k t t' (rw g at (sym (loop_context ips i at ip t e f) ∙ h))
    ]
    | inr f ↦
        let ((j, t1), e1, g) =
          bind_inv (create_cctx_node (sample_addr ip) at t) _ (rw (e, f, sample_loop) at h) in
        sample_loop_written ips i j k t1 t' g
        ∙ create_cctx_node_written (sample_addr ip) at j t t1 e1
  ]
]

pub cctx_sample-Since :
    (tp ip : ℕ) (t t' : LocalCctxTree) → cctx_sample tp ip t ≡ ok t' → Since tp t.written t'.written
unfolding cctx_sample
cctx_sample-Since tp ip t t' h =
    let (top, e, f) = bind_inv (back t) _ h in
    let ((i, t1), e1, g) = bind_inv (create_cctx_node (sample_addr ip) top t) _ f in
    let (n, e2, k) = bind_inv (node t1 i) _ g in
    more (sample tp n.ref 2) t1.written _ refl
      (sym (ap (λ (x : LocalCctxTree). x.written) (ok_inj _ _ k)))
      (same _ (create_cctx_node_written (sample_addr ip) top i t t1 e1))

pub cctx_sample_ips-Since :
    (tp num : ℕ) (ips : List ℕ) (t t' : LocalCctxTree)
    → cctx_sample_ips tp num ips t ≡ ok t'
    → Since tp t.written t'.written
unfolding cctx_sample_ips
cctx_sample_ips-Since tp num ips t t' h =
    let (top, e, f) = bind_inv (back t) _ h in
    let ((i, t1), e1, g) = bind_inv (sample_loop ips ((num + 2 ^ 64 - 1) % 2 ^ 64) top t) _ f in
    let (n, e2, k) = bind_inv (node t1 i) _ g in
    more (sample tp n.ref num) t1.written _ refl
      (sym (ap (λ (x : LocalCctxTree). x.written) (ok_inj _ _ k)))
      (same _ (sample_loop_written ips _ top i t t1 e1))
