-- ===== src/ScopeMonitor.antt =====
-- src/monitor/scope_monitor.cpp, `ScopeMonitor`: the readers of one thread or CPU behind a
-- `PollMonitor`. The readers are a parameter.
pub mod Drain
pub mod Stop
mod Tests
use lo2s.Shared.{
  ℕ, ◌+◌, ℤ, eq_ℤ, Bool, true, false, not, ◌||◌, Option, none, some, List, [], ◌∷◌, if◌then◌else◌,
  Result, ok, ◌>>=◌,
}
use lo2s.PollMonitor.{Pollfd, init_pfds, add_fd}

-- What the monitor asks of its four writers; `finish` is `end()` or `stop()`.
pub record WriterOps (Writer : Type 0) : Type 0 where
  pub fd : Writer → ℤ
  pub read : Writer → Result Writer
  pub finish : Writer → Result Writer

-- `pins` counts the calls of `try_pin_to_scope`.
pub record ScopeMonitor (Writer : Type 0) : Type 0 where
  pub is_cpu : Bool
  pub stop_fd : ℤ
  pub sample_writer : Option Writer
  pub syscall_writer : Option Writer
  pub group_counter_writer : Option Writer
  pub userspace_counter_writer : Option Writer
  pub pins : ℕ

module _ {Writer : Type 0} (ops : WriterOps Writer) where
  abbrev pub add_writer : Option Writer → List Pollfd → List Pollfd
  add_writer none pfds = pfds
  add_writer (some w) pfds = add_fd (ops.fd w) pfds

  -- The array that the constructor makes.
  unfoldable pub scope_pfds : ScopeMonitor Writer → List Pollfd
  scope_pfds m = add_writer m.userspace_counter_writer (
      add_writer m.group_counter_writer
        (add_writer m.syscall_writer (add_writer m.sample_writer (init_pfds m.stop_fd))))

  abbrev pub pin : ScopeMonitor Writer → ScopeMonitor Writer
  pin m = record m { pins = m.pins + 1 }

  unfoldable pub read_if : ℤ → ℤ → Option Writer → Result (Option Writer)
  read_if stop_fd fd none = ok none
  read_if stop_fd fd (some w) =
      if eq_ℤ fd stop_fd || eq_ℤ (ops.fd w) fd
      then (ops.read w >>= λ w'. ok (some w'))
      else ok (some w)

  -- `monitor(fd)`
  unfoldable pub monitor_scope : ℤ → ScopeMonitor Writer → Result (ScopeMonitor Writer)
  monitor_scope fd m =
      let m0 = if not m.is_cpu then pin m else m in
      read_if m.stop_fd fd m.syscall_writer >>= λ syscall_writer.
      read_if m.stop_fd fd m.sample_writer >>= λ sample_writer.
      read_if m.stop_fd fd m.group_counter_writer >>= λ group_counter_writer.
      read_if m.stop_fd fd m.userspace_counter_writer >>= λ userspace_counter_writer.
      ok (record m0 {
        syscall_writer = syscall_writer;
        sample_writer = sample_writer;
        group_counter_writer = group_counter_writer;
        userspace_counter_writer = userspace_counter_writer;
      })

  abbrev pub finish_if : Option Writer → Result (Option Writer)
  finish_if none = ok none
  finish_if (some w) = ops.finish w >>= λ w'. ok (some w')

  -- `finalize_thread()`
  unfoldable pub finalize_scope : ScopeMonitor Writer → Result (ScopeMonitor Writer)
  finalize_scope m = finish_if m.sample_writer >>= λ sample_writer.
      finish_if m.syscall_writer >>= λ syscall_writer.
      ok (record m { sample_writer = sample_writer; syscall_writer = syscall_writer })
