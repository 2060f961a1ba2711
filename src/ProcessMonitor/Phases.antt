-- ===== src/ProcessMonitor/Phases.antt =====
-- The life of each thread's monitor in src/monitor/process_monitor.cpp.
pub mod Launch
pub mod Count
pub mod Run
use lo2s.Shared.{
  ℤ, eq_ℤ, eq_ℤ_iff, ltb_ℤ, Bool, true, false, not, ◌&&◌, ◌||◌, ◌≡◌, inl, inr, refl, Option, none,
  some, Bool-cases, List, [], ◌∷◌, if◌then◌else◌, arith,
}
use lo2s.ProcessMonitor.{
  MonitorCall, trace_process, trace_thread, resolvers_fork, posix_insert, posix_exit, posix_stop,
  monitor_construct, monitor_start, monitor_stop, monitor_resolve, ProcessMonitor, has_thread,
  add_key, erase_key,
}

pub data Phase : Type 0 where
  absent created running stopped : Phase

-- A call on a monitor in a phase that it is not for leaves none.
abbrev pub construct_phase : Option Phase → Option Phase
construct_phase (some absent) = some created
construct_phase (some created) = none
construct_phase (some running) = none
construct_phase (some stopped) = none
construct_phase none = none

-- Whether the monitor starts: one that does is started before it is stopped, and one that does not
-- is stopped as it was made.
abbrev pub start_phase : Bool → Option Phase → Option Phase
start_phase b (some created) = if b then some running else none
start_phase b (some absent) = none
start_phase b (some running) = none
start_phase b (some stopped) = none
start_phase b none = none

abbrev pub stop_phase : Bool → Option Phase → Option Phase
stop_phase b (some created) = if b then none else some stopped
stop_phase b (some running) = some stopped
stop_phase b (some absent) = none
stop_phase b (some stopped) = none
stop_phase b none = none

abbrev pub resolve_phase : Option Phase → Option Phase
resolve_phase (some stopped) = some absent
resolve_phase (some absent) = none
resolve_phase (some created) = none
resolve_phase (some running) = none
resolve_phase none = none

abbrev pub at_thread : ℤ → ℤ → (Option Phase → Option Phase) → Option Phase → Option Phase
at_thread u t f p = if eq_ℤ u t then f p else p

-- The phase of a thread's monitor, with the threads whose monitor starts: none once a call came at
-- the wrong time.
unfoldable pub phase : (ℤ → Bool) → ℤ → List MonitorCall → Option Phase
phase s t [] = some absent
phase s t (trace_process parent child ∷ l) = phase s t l
phase s t (trace_thread parent child ∷ l) = phase s t l
phase s t (resolvers_fork parent child ∷ l) = phase s t l
phase s t (posix_insert u ∷ l) = phase s t l
phase s t (posix_exit u ∷ l) = phase s t l
phase s t (posix_stop ∷ l) = phase s t l
phase s t (monitor_construct u ∷ l) = at_thread u t construct_phase (phase s t l)
phase s t (monitor_start u ∷ l) = at_thread u t (start_phase (s t)) (phase s t l)
phase s t (monitor_stop u ∷ l) = at_thread u t (stop_phase (s t)) (phase s t l)
phase s t (monitor_resolve u ∷ l) = at_thread u t resolve_phase (phase s t l)

abbrev pub is_alive : Bool → Option Phase → Bool
is_alive b (some created) = not b
is_alive b (some running) = b
is_alive b (some absent) = false
is_alive b (some stopped) = false
is_alive b none = false

abbrev pub is_absent : Option Phase → Bool
is_absent (some absent) = true
is_absent (some created) = false
is_absent (some running) = false
is_absent (some stopped) = false
is_absent none = false

pub absent_lem : (p : Option Phase) → is_absent p ≡ true → p ≡ some absent
absent_lem p h = ground arith

abbrev pub Unique : List ℤ → Type 0
Unique [] = Unit {0}
Unique (t ∷ ts) = (has_thread t ts ≡ false) × Unique ts

-- The threads of the map are those whose monitor is there, started if it does start, and not stopped.
pub record Tidy (starts : ℤ → Bool) (threads : List ℤ) (log : List MonitorCall) : Type 0 where
  pub unique : Unique threads
  pub phases :
      (t : ℤ)
      → (if has_thread t threads
          then is_alive (starts t) (phase starts t log)
          else is_absent (phase starts t log))
        ≡ true

pub has_thread-add_key :
    (t u : ℤ) (ts : List ℤ) → has_thread u (add_key t ts) ≡ (eq_ℤ t u || has_thread u ts)
unfolding has_thread add_key
has_thread-add_key t u [] = refl
has_thread-add_key t u (v ∷ ts) = ground (arith, has_thread-add_key t u ts)

pub has_thread-erase_key :
    (t u : ℤ) (ts : List ℤ)
    → Unique ts
    → has_thread u (erase_key t ts) ≡ (not (eq_ℤ t u) && has_thread u ts)
unfolding has_thread erase_key
has_thread-erase_key t u [] q = ground arith
has_thread-erase_key t u (v ∷ ts) (h, q) =
    ground (arith, h, has_thread-erase_key t u ts q, eq_ℤ_iff v t, eq_ℤ_iff t u, eq_ℤ_iff v u)

pub Unique-add_key :
    (t : ℤ) (ts : List ℤ) → has_thread t ts ≡ false → Unique ts → Unique (add_key t ts)
unfolding has_thread add_key
Unique-add_key t [] h q = (refl, tt)
Unique-add_key t (v ∷ ts) h (g, q) = elim (Bool-cases (ltb_ℤ t v)) [
  | inl first ↦ rw first (h, (g, q))
  | inr later ↦ rw later (
    ground (arith, h, g, has_thread-add_key t v ts, eq_ℤ_iff t v, eq_ℤ_iff v t),
    Unique-add_key t ts (ground (arith, h)) q,
  )
]

pub Unique-erase_key : (t : ℤ) (ts : List ℤ) → Unique ts → Unique (erase_key t ts)
unfolding has_thread erase_key
Unique-erase_key t [] q = tt
Unique-erase_key t (v ∷ ts) (g, q) = elim (Bool-cases (eq_ℤ v t)) [
  | inl here ↦ rw here q
  | inr other ↦ rw other (ground (arith, g, has_thread-erase_key t v ts q), Unique-erase_key t ts q)
]
