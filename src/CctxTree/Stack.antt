-- ===== src/CctxTree/Stack.antt =====
-- The current call stack of a `LocalCctxTree` (include/lo2s/local_cctx_tree.hpp) and the enter and
-- leave events of the trace.
use lo2s.Shared.{
  ℕ, zero, suc, ◌-◌, ◌≤◌, ◌<◌, ◌≡◌, inl, inr, refl, sym, ap, ◌∙◌, true, false, Bool-cases, Option,
  none, some, List, [], ◌∷◌, length, get_elem?, get_elem?-some, ◌==◌, if◌then◌else◌, Result, ok,
  arith,
}
use lo2s.CctxTree.{
  LocalCctxNode, LocalCctxTree, TraceEvent, enter, leave, sample, mark, node, cur_level, leave_top,
  leave_loop, must_leave,
}
use lo2s.CctxTree.Node.{Numbered}

-- The root is at the bottom of the stack and nowhere else, and the stack's nodes exist.
abbrev pub IsStack : ℕ → List ℕ → Type 0
IsStack m [] = ⊥
IsStack m (i ∷ []) = i ≡ 0
IsStack m (i ∷ j ∷ r) = (0 < i) × (i < m) × IsStack m (j ∷ r)

-- The reference numbers of the nodes above the root.
abbrev pub stack_refs : List ℕ → List ℕ
stack_refs [] = []
stack_refs (i ∷ []) = []
stack_refs (i ∷ j ∷ r) = (i - 1) ∷ stack_refs (j ∷ r)

-- A reader of the trace: the contexts entered and not left, last first. A leave must be that of
-- the context entered last.
abbrev pub leave_open : ℕ → Option (List ℕ) → Option (List ℕ)
leave_open r none = none
leave_open r (some []) = none
leave_open r (some (x ∷ xs)) = if x == r then some xs else none

abbrev pub enter_open : ℕ → Option (List ℕ) → Option (List ℕ)
enter_open r none = none
enter_open r (some xs) = some (r ∷ xs)

abbrev pub replay : List TraceEvent → Option (List ℕ)
replay [] = some []
replay (enter tp r ∷ w) = enter_open r (replay w)
replay (leave tp r ∷ w) = leave_open r (replay w)
replay (sample tp r n ∷ w) = replay w
replay (mark tp m ∷ w) = replay w

pub record IsValid (t : LocalCctxTree) : Type 0 where
  pub numbered : Numbered t
  pub stack : IsStack (length t.nodes) t.cur
  pub replayed : replay t.written ≡ some (stack_refs t.cur)

pub IsStack-mono : (m n : ℕ) (s : List ℕ) → m ≤ n → IsStack m s → IsStack n s
IsStack-mono m n [] h s = s
IsStack-mono m n (i ∷ []) h s = s
IsStack-mono m n (i ∷ j ∷ r) h s = (s.0, omega arith, IsStack-mono m n (j ∷ r) h s.2)

-- What is left of the stack when the nodes at a level and above are left.
abbrev pub rest_of : ℕ → List ℕ → List ℕ
rest_of level [] = []
rest_of level (i ∷ r) = if must_leave level (length r) then rest_of level r else i ∷ r

pub Numbered-same :
    (t : LocalCctxTree) (c : List ℕ) (w : List TraceEvent)
    → Numbered t
    → Numbered (record t { cur = c; written = w })
Numbered-same t c w v = record { count = v.count; refs = v.refs; linked = v.linked; keys = v.keys }

-- The reference number of a node other than the root.
pub node_ref :
    (t : LocalCctxTree) (i : ℕ)
    → Numbered t
    → 0 < i
    → i < length t.nodes
    → (n : LocalCctxNode) × (get_elem? t.nodes i ≡ some n) × (node t i ≡ ok n) × (n.ref ≡ i - 1)
node_ref t i v p b =
    let (n, here) = get_elem?-some t.nodes i b in
    let e : suc (i - 1) ≡ i = omega arith in
    (n, here, rw (here, node), v.refs (i - 1) n (rw e here))

-- The tree after its top is left.
abbrev pub left : ℕ → ℕ → List ℕ → LocalCctxTree → LocalCctxTree
left tp i r t = record t { cur = r; written = leave tp (i - 1) ∷ t.written }

module _ (tp : ℕ) (t : LocalCctxTree) (i j : ℕ) (r : List ℕ) (v : IsValid t)
    (e : t.cur ≡ i ∷ j ∷ r) where
  shape : IsStack (length t.nodes) (i ∷ j ∷ r)
  shape = rw e at (v.stack)

  leave_top_lem : leave_top tp t ≡ ok (left tp i (j ∷ r) t)
  unfolding leave_top
  leave_top_lem =
      let (n, here, found, ref) = node_ref t i v.numbered shape.0 shape.1 in rw (e, found, ref)

  left-IsValid : IsValid (left tp i (j ∷ r) t)
  left-IsValid = record {
    numbered = Numbered-same t (j ∷ r) _ v.numbered;
    stack = shape.2;
    replayed = ground (arith, v.replayed, e);
  }

-- The outcome of leaving the nodes at `level` and above.
pub record Left (level : ℕ) (t : LocalCctxTree) (outcome : Result LocalCctxTree) : Type 0 where
  pub tree : LocalCctxTree
  pub result : outcome ≡ ok tree
  pub valid : IsValid tree
  pub cur : tree.cur ≡ rest_of level t.cur
  pub nodes : tree.nodes ≡ t.nodes

pub cur_level_lem :
    (t : LocalCctxTree) (i : ℕ) (r : List ℕ) → t.cur ≡ i ∷ r → cur_level t ≡ ok (length r)
unfolding cur_level
cur_level_lem t i r e = rw e (ground arith)

must_leave-root : (level top : ℕ) → top ≡ 0 → must_leave level top ≡ false
unfolding must_leave
must_leave-root level top e = ground arith

leave_loop_stop :
    (fuel tp level top : ℕ) (t : LocalCctxTree)
    → cur_level t ≡ ok top
    → must_leave level top ≡ false
    → leave_loop (suc fuel) tp level t ≡ ok t
unfolding leave_loop
leave_loop_stop fuel tp level top t e f = ground arith

leave_loop_go :
    (fuel tp level top : ℕ) (t t' : LocalCctxTree)
    → cur_level t ≡ ok top
    → must_leave level top ≡ true
    → leave_top tp t ≡ ok t'
    → leave_loop (suc fuel) tp level t ≡ leave_loop fuel tp level t'
unfolding leave_loop
leave_loop_go fuel tp level top t t' e f g = ground arith

rest_of_stop :
    (level i : ℕ) (r : List ℕ) → must_leave level (length r) ≡ false → rest_of level (i ∷ r) ≡ i ∷ r
rest_of_stop level i r h = ground (arith, h)

rest_of_go :
    (level i : ℕ) (r : List ℕ)
    → must_leave level (length r) ≡ true
    → rest_of level (i ∷ r) ≡ rest_of level r
rest_of_go level i r h = ground (arith, h)

Left-stop :
    (fuel tp level i : ℕ) (r : List ℕ) (t : LocalCctxTree)
    → t.cur ≡ i ∷ r
    → must_leave level (length r) ≡ false
    → IsValid t
    → Left level t (leave_loop (suc fuel) tp level t)
Left-stop fuel tp level i r t e stop v = record {
  tree = t;
  result = leave_loop_stop fuel tp level (length r) t (cur_level_lem t i r e) stop;
  valid = v;
  cur = rw e (sym (rest_of_stop level i r stop));
  nodes = refl;
}

pub leave_loop-Left :
    (fuel tp level : ℕ) (t : LocalCctxTree) (s : List ℕ)
    → t.cur ≡ s
    → length s ≤ fuel
    → IsValid t
    → Left level t (leave_loop fuel tp level t)
leave_loop-Left fuel tp level t [] e b v = absurd (rw e at (v.stack))
leave_loop-Left zero tp level t (i ∷ r) e b v = absurd (omega arith)
leave_loop-Left (suc fuel) tp level t (i ∷ []) e b v =
    Left-stop fuel tp level i [] t e (must_leave-root level 0 refl) v
leave_loop-Left (suc fuel) tp level t (i ∷ j ∷ r) e b v =
    elim (Bool-cases (must_leave level (length (j ∷ r)))) [
      | inl go ↦
          let next =
            leave_loop-Left fuel tp level (left tp i (j ∷ r) t) (j ∷ r) refl (omega arith)
              (left-IsValid tp t i j r v e) in
          record {
            tree = next.tree;
            result =
                leave_loop_go fuel tp level (length (j ∷ r)) t (left tp i (j ∷ r) t)
                  (cur_level_lem t i (j ∷ r) e) go (leave_top_lem tp t i j r v e)
                ∙ next.result;
            valid = next.valid;
            cur = next.cur ∙ sym (rest_of_go level i (j ∷ r) go) ∙ ap (rest_of level) (sym e);
            nodes = next.nodes;
          }
      | inr stop ↦ Left-stop fuel tp level i (j ∷ r) t e stop v
    ]
