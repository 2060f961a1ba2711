-- ===== src/CctxTree/Leave.antt =====
-- `cctx_leave` of include/lo2s/local_cctx_tree.hpp on a valid tree: it succeeds and leaves the nodes
-- at a level and above.
use lo2s.Shared.{ℕ, ◌-◌, ◌≤◌, ◌<◌, ◌≡◌, refl, ap, ◌∙◌, List, [], ◌∷◌, length, ok, arith}
use Prim.Native.Nat.{min}
use lo2s.CctxTree.{LocalCctxTree, new_tree, cur_level, leave_loop, must_leave, cctx_leave}
use lo2s.CctxTree.Stack.{IsStack, IsValid, rest_of, leave_loop-Left, cur_level_lem}

length-rest_of :
    (level : ℕ) (s : List ℕ) → 0 < level → length (rest_of level s) ≡ min (length s) level
unfolding must_leave
length-rest_of level [] h = omega arith
length-rest_of level (i ∷ r) h = ground (arith, length-rest_of level r h)

pub rest_of_twice : (level : ℕ) (s : List ℕ) → rest_of level (rest_of level s) ≡ rest_of level s
rest_of_twice level [] = refl
rest_of_twice level (i ∷ r) = ground (arith, rest_of_twice level r)

-- A stack of `level` nodes is not left any further; one node more is.
pub rest_of_deep :
    (level i : ℕ) (s : List ℕ)
    → 0 < level
    → level ≤ length s
    → rest_of level (i ∷ s) ≡ rest_of level s
unfolding must_leave
rest_of_deep level i s h k = ground arith

pub cur_level_valid :
    (t : LocalCctxTree) → IsValid t → (cur_level t ≡ ok (length t.cur - 1)) × (0 < length t.cur)
cur_level_valid t v = go t.cur refl v.stack
  where
    go :
        (s : List ℕ)
        → t.cur ≡ s
        → IsStack (length t.nodes) s
        → (cur_level t ≡ ok (length t.cur - 1)) × (0 < length t.cur)
    go [] e k = absurd k
    go (i ∷ r) e k =
        let f : length t.cur - 1 ≡ length r = rw e (omega arith) in
        (rw f (cur_level_lem t i r e), rw e (omega arith))

leave_lem :
    (tp level k : ℕ) (t t1 : LocalCctxTree)
    → leave_loop (length t.cur) tp level t ≡ ok t1
    → cur_level t1 ≡ ok k
    → cctx_leave tp level t ≡ ok (k, t1)
unfolding cctx_leave
leave_lem tp level k t t1 e f = ground arith

-- `cctx_leave` succeeds on a valid tree, keeps it valid, leaves the nodes at the level and above,
-- none if the level is 0, and returns the level of the top that remains.
pub cctx_leave_lem :
    (tp level : ℕ) (t : LocalCctxTree)
    → IsValid t
    → (t' : LocalCctxTree) × (cctx_leave tp level t ≡ ok (length t'.cur - 1, t'))
      × IsValid t'
      × (t'.cur ≡ rest_of level t.cur)
      × (0 < level → length t'.cur ≡ min (length t.cur) level)
      × (t'.nodes ≡ t.nodes)
cctx_leave_lem tp level t v =
    let l = leave_loop-Left (length t.cur) tp level t t.cur refl (omega arith) v in
    (
      l.tree,
      leave_lem tp level _ t l.tree l.result (cur_level_valid l.tree l.valid).0,
      l.valid,
      l.cur,
      λ h. ap length l.cur ∙ length-rest_of level t.cur h,
      l.nodes,
    )

pub leave_nothing : (tp : ℕ) → cctx_leave tp 1 new_tree ≡ ok (0, new_tree)
unfolding cctx_leave leave_loop cur_level must_leave new_tree
leave_nothing tp = refl
