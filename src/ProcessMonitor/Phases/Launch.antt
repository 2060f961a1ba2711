-- ===== src/ProcessMonitor/Phases/Launch.antt =====
-- A thread's monitor is made or stopped by src/monitor/process_monitor.cpp.
use lo2s.Shared.{
  ℤ, eq_ℤ, eq_ℤ_iff, Bool, true, false, not, ◌&&◌, ◌||◌, ◌≡◌, inl, inr, refl, Bool-cases, List, ◌∷◌,
  arith, Result, ok,
}
use lo2s.ProcessMonitor.{
  MonitorCall, trace_thread, posix_insert, monitor_construct, monitor_start, monitor_stop,
  monitor_resolve, Launch, refused, not_started, started, MonitorConfig, ProcessMonitor, call,
  call_if, has_thread, add_key, erase_key, is_measured, constructed, launch_monitor,
  insert_monitor_thread,
}
use lo2s.ProcessMonitor.Phases.{
  phase, absent_lem, Tidy, has_thread-add_key, has_thread-erase_key, Unique-add_key,
  Unique-erase_key,
}

-- The threads whose monitor can be made and started.
abbrev pub does_start : MonitorConfig → ℤ → Bool
does_start c t = elim (c.launch t) [ refused ↦ false | not_started ↦ false | started ↦ true ]

abbrev pub TidyMonitor : MonitorConfig → ProcessMonitor → Type 0
TidyMonitor c m = Tidy (does_start c) m.threads m.log

construct-Tidy :
    (starts : ℤ → Bool) (t : ℤ) (ts : List ℤ) (log : List MonitorCall)
    → starts t ≡ false
    → has_thread t ts ≡ false
    → Tidy starts ts log
    → Tidy starts (add_key t ts) (monitor_construct t ∷ log)
unfolding phase
construct-Tidy starts t ts log b h v = record {
  unique = Unique-add_key t ts h v.unique;
  phases = λ u. ground (
    arith,
    b,
    h,
    v.phases u,
    eq_ℤ_iff t u,
    has_thread-add_key t u ts,
    absent_lem (phase starts u log),
  );
}

start-Tidy :
    (starts : ℤ → Bool) (t : ℤ) (ts : List ℤ) (log : List MonitorCall)
    → starts t ≡ true
    → has_thread t ts ≡ false
    → Tidy starts ts log
    → Tidy starts (add_key t ts) (monitor_start t ∷ monitor_construct t ∷ log)
unfolding phase
start-Tidy starts t ts log b h v = record {
  unique = Unique-add_key t ts h v.unique;
  phases = λ u. ground (
    arith,
    b,
    h,
    v.phases u,
    eq_ℤ_iff t u,
    has_thread-add_key t u ts,
    absent_lem (phase starts u log),
  );
}

pub stop-Tidy :
    (starts : ℤ → Bool) (t : ℤ) (ts : List ℤ) (log : List MonitorCall)
    → has_thread t ts ≡ true
    → Tidy starts ts log
    → Tidy starts (erase_key t ts) (monitor_resolve t ∷ monitor_stop t ∷ log)
unfolding phase
stop-Tidy starts t ts log h v = record {
  unique = Unique-erase_key t ts v.unique;
  phases = λ u. ground (arith, h, v.phases u, eq_ℤ_iff t u, has_thread-erase_key t u ts v.unique);
}

-- A thread's insertion: it succeeds, and the map has at most that thread more.
pub record Inserted (c : MonitorConfig) (t : ℤ) (m : ProcessMonitor)
    (outcome : Result ProcessMonitor) : Type 0 where
  pub next : ProcessMonitor
  pub result : outcome ≡ ok next
  pub tidy : TidyMonitor c next
  pub more :
      (u : ℤ) → has_thread u next.threads ≡ true → (eq_ℤ t u || has_thread u m.threads) ≡ true

launch-Inserted :
    (c : MonitorConfig) (t : ℤ) (m : ProcessMonitor)
    → has_thread t m.threads ≡ false
    → TidyMonitor c m
    → Inserted c t m (launch_monitor c t m)
unfolding launch_monitor
launch-Inserted c t m h v = of_launch (c.launch t) refl
  where
    of_launch : (l : Launch) → c.launch t ≡ l → Inserted c t m (launch_monitor c t m)
    of_launch refused e = record {
      next = m;
      result = rw (e, launch_monitor) refl;
      tidy = v;
      more = λ u k. ground (arith, k);
    }
    of_launch not_started e = record {
      next = constructed t m;
      result = rw (e, h, launch_monitor) refl;
      tidy = construct-Tidy (does_start c) t m.threads m.log (rw (e, does_start) refl) h v;
      more = λ u k. ground (arith, k, has_thread-add_key t u m.threads);
    }
    of_launch started e = record {
      next = call (monitor_start t) (constructed t m);
      result = rw (e, h, launch_monitor) refl;
      tidy = start-Tidy (does_start c) t m.threads m.log (rw (e, does_start) refl) h v;
      more = λ u k. ground (arith, k, has_thread-add_key t u m.threads);
    }

call_if-Tidy :
    (c : MonitorConfig) (b : Bool) (t : ℤ) (m : ProcessMonitor)
    → TidyMonitor c m
    → TidyMonitor c (call_if b (posix_insert t) m)
unfolding phase
call_if-Tidy c true t m v = record { unique = v.unique; phases = v.phases }
call_if-Tidy c false t m v = v

pub call_if-threads :
    (b : Bool) (c : MonitorCall) (m : ProcessMonitor) → (call_if b c m).threads ≡ m.threads
call_if-threads true c m = refl
call_if-threads false c m = refl

pub insert-Inserted :
    (c : MonitorConfig) (parent t : ℤ) (m : ProcessMonitor)
    → has_thread t m.threads ≡ false
    → TidyMonitor c m
    → Inserted c t m (insert_monitor_thread c parent t m)
unfolding insert_monitor_thread phase
insert-Inserted c parent t m h v =
    let told = call_if c.posix_io (posix_insert t) m in
    let known = call (trace_thread parent t) told in
    let same = call_if-threads c.posix_io (posix_insert t) m in
    let tv = call_if-Tidy c c.posix_io t m v in
    let kv : TidyMonitor c known = record { unique = tv.unique; phases = tv.phases } in
    elim (Bool-cases (is_measured c t)) [
      | inl kept ↦
          let l = launch-Inserted c t known (rw same h) kv in
          record {
            next = call (trace_thread parent t) l.next;
            result = rw (kept, insert_monitor_thread) (rw (l.result) refl);
            tidy = record { unique = l.tidy.unique; phases = l.tidy.phases };
            more = λ u k. rw same at (l.more u k);
          }
      | inr plain ↦ record {
        next = call (trace_thread parent t) known;
        result = rw (plain, insert_monitor_thread) refl;
        tidy = record { unique = kv.unique; phases = kv.phases };
        more = λ u k. ground (arith, k, same);
      }
    ]

-- If sampling is off, a thread is not there yet and its monitor can be made and started, then the
-- thread is measured unless it has counters of both kinds: a thread with all the counters that can be
-- asked for gets no monitor.
pub insert_without_sampling :
    (c : MonitorConfig) (parent t : ℤ) (m : ProcessMonitor)
    → c.sampling ≡ false
    → c.launch t ≡ started
    → has_thread t m.threads ≡ false
    → (m' : ProcessMonitor) × (insert_monitor_thread c parent t m ≡ ok m')
      × (has_thread t m'.threads ≡ not (c.has_group_counters t && c.has_userspace_counters t))
unfolding insert_monitor_thread launch_monitor is_measured
insert_without_sampling c parent t m s l h =
    let told = call_if c.posix_io (posix_insert t) m in
    let known = call (trace_thread parent t) told in
    let same = call_if-threads c.posix_io (posix_insert t) m in
    let absent' : has_thread t known.threads ≡ false = rw same h in
    elim (Bool-cases (c.has_group_counters t && c.has_userspace_counters t)) [
      | inl both ↦
          let plain : is_measured c t ≡ false = ground (arith, s, both) in
          (
            call (trace_thread parent t) known,
            rw (plain, insert_monitor_thread) refl,
            rw both absent',
          )
      | inr lacks ↦
          let kept : is_measured c t ≡ true = ground (arith, s, lacks) in
          (
            call (trace_thread parent t) (call (monitor_start t) (constructed t known)),
            rw (kept, insert_monitor_thread) (rw (l, absent', launch_monitor) refl),
            ground (arith, lacks, has_thread-add_key t t known.threads, eq_ℤ_iff t t),
          )
    ]
