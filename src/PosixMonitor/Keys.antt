-- ===== src/PosixMonitor/Keys.antt =====
-- The map from `ThreadFd` of src/monitor/posix_monitor.cpp: its order, a write and a read.
use lo2s.Shared.{
  ℕ, ◌+◌, ◌≤◌, ◌≡◌, ◌↔◌, ◌==◌, true, false, refl, some, List, [], ◌∷◌, if◌then◌else◌, arith,
  eq_ℤ_iff,
}
use lo2s.PosixMonitor.{
  ThreadFd, thread_fd_lt, same_key, find, put_instance, number_at, PosixMonitor, touch, reuse,
}

-- Keys that are not ordered are equal.
pub same_key_iff : (a b : ThreadFd) → (same_key a b ≡ true) ↔ (a ≡ b)
unfolding thread_fd_lt
same_key_iff a b = ground (arith, eq_ℤ_iff a.fd b.fd)

pub find-put_instance :
    (k j : ThreadFd) (n : ℕ) (m : List (ThreadFd × ℕ))
    → find j (put_instance k n m) ≡ (if same_key k j then some n else find j m)
find-put_instance k j n [] = refl
find-put_instance k j n ((i, u) ∷ m) =
    ground (arith, same_key_iff i k, same_key_iff i j, same_key_iff k j, find-put_instance k j n m)

-- No entry gets smaller.
pub touch_number :
    (k j : ThreadFd) (m : PosixMonitor)
    → number_at (find j (touch k m).instances) ≡ number_at (find j m.instances)
unfolding touch
touch_number k j m = ground (arith, find-put_instance k j 0 m.instances, same_key_iff k j)

pub reuse_number :
    (k j : ThreadFd) (m : PosixMonitor)
    → number_at (find j m.instances) ≤ number_at (find j (reuse k m).instances)
unfolding reuse
reuse_number k j m = ground (
  arith,
  find-put_instance k j 0 m.instances,
  find-put_instance k j (number_at (find k m.instances) + 1) m.instances,
  same_key_iff k j,
)

-- Another thread's file descriptors are other keys.
pub reuse_other :
    (k j : ThreadFd) (m : PosixMonitor)
    → (k.thread == j.thread) ≡ false
    → number_at (find j (reuse k m).instances) ≡ number_at (find j m.instances)
unfolding reuse thread_fd_lt
reuse_other k j m o = ground (
  arith,
  o,
  find-put_instance k j 0 m.instances,
  find-put_instance k j (number_at (find k m.instances) + 1) m.instances,
)
