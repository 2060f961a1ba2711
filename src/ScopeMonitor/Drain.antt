-- ===== src/ScopeMonitor/Drain.antt =====
-- Which readers src/monitor/scope_monitor.cpp reads in a round of src/monitor/poll_monitor.cpp, and
-- that a stop reads all of them.
use lo2s.Shared.{
  ℤ, eq_ℤ, Bool, true, false, not, ◌&&◌, ◌||◌, ◌≡◌, inl, inr, refl, ◌∙◌, Option, none, some,
  Bool-cases, List, [], ◌∷◌, if◌then◌else◌, arith, ok,
}
use lo2s.PollMonitor.{Pollfd, has_pollin, monitor_fds}
use lo2s.ScopeMonitor.{WriterOps, ScopeMonitor, pin, read_if, monitor_scope}

-- Whether some event of the array is for the stop or for the reader.
unfoldable pub awake : ℤ → ℤ → List Pollfd → Bool
awake stop_fd fd [] = false
awake stop_fd fd (p ∷ ps) =
    (has_pollin p && (eq_ℤ p.fd stop_fd || eq_ℤ fd p.fd)) || awake stop_fd fd ps

module _ {Writer : Type 0} (ops : WriterOps Writer) (Drained : Writer → Type 0)
    (reads : (w : Writer)
      → (w' : Writer) × (ops.read w ≡ ok w') × Drained w' × (ops.fd w' ≡ ops.fd w)) where
  abbrev pub AllDrained : Option Writer → Type 0
  AllDrained none = Unit {0}
  AllDrained (some w) = Drained w

  -- One reader behind events: it is still the same, and it is drained if one was for it.
  abbrev pub Slot : ℤ → List Pollfd → Option Writer → Option Writer → Type 0
  Slot stop_fd ps none none = Unit {0}
  Slot stop_fd ps none (some w) = ⊥
  Slot stop_fd ps (some w) none = ⊥
  Slot stop_fd ps (some w) (some w') =
      (ops.fd w' ≡ ops.fd w)
      × (awake stop_fd (ops.fd w) ps ≡ true → Drained w')
      × (Drained w → Drained w')

  read_if-Slot :
      (stop_fd : ℤ) (p : Pollfd) (o : Option Writer)
      → has_pollin p ≡ true
      → (o' : Option Writer) × (read_if ops stop_fd p.fd o ≡ ok o') × Slot stop_fd (p ∷ []) o o'
  unfolding read_if awake
  read_if-Slot stop_fd p none h = (none, refl, tt)
  read_if-Slot stop_fd p (some w) h =
      elim (Bool-cases (eq_ℤ p.fd stop_fd || eq_ℤ (ops.fd w) p.fd)) [
        | inl woken ↦
            let (w', f, d, s) = reads w in
            (some w', rw (woken, read_if) (rw f refl), (s, λ a. d, λ a. d))
        | inr asleep ↦ (
          some w,
          rw (asleep, read_if) refl,
          (refl, λ a. absurd (never (rw (h, asleep) at a)), λ d. d),
        )
      ]
    where
      never : false ≡ true → ⊥
      never e = cc

  Slot-none :
      (stop_fd : ℤ) (p : Pollfd) (o : Option Writer)
      → has_pollin p ≡ false
      → Slot stop_fd (p ∷ []) o o
  unfolding awake
  Slot-none stop_fd p none h = tt
  Slot-none stop_fd p (some w) h = (refl, λ a. absurd (never (rw h at a)), λ d. d)
    where
      never : false ≡ true → ⊥
      never e = cc

  Slot-trans :
      (stop_fd : ℤ) (p : Pollfd) (ps : List Pollfd) (o o1 o2 : Option Writer)
      → Slot stop_fd (p ∷ []) o o1
      → Slot stop_fd ps o1 o2
      → Slot stop_fd (p ∷ ps) o o2
  unfolding awake
  Slot-trans stop_fd p ps none none none a b = tt
  Slot-trans stop_fd p ps none none (some w2) a b = elim b [ ]
  Slot-trans stop_fd p ps none (some w1) o2 a b = elim a [ ]
  Slot-trans stop_fd p ps (some w) none o2 a b = elim a [ ]
  Slot-trans stop_fd p ps (some w) (some w1) none a b = elim b [ ]
  Slot-trans stop_fd p ps (some w) (some w1) (some w2) (s, d, k) (s2, d2, k2) = (
    s2 ∙ s,
    λ a. elim (Bool-cases (has_pollin p && (eq_ℤ p.fd stop_fd || eq_ℤ (ops.fd w) p.fd))) [
      | inl here ↦ k2 (d (rw here refl))
      | inr later ↦ d2 (rw (s) (rw later at a))
    ],
    λ x. k2 (k x),
  )

  -- A round of the monitor.
  pub record Round (ps : List Pollfd) (m m' : ScopeMonitor Writer) : Type 0 where
    pub stop_fd : m'.stop_fd ≡ m.stop_fd
    pub sample : Slot m.stop_fd ps m.sample_writer m'.sample_writer
    pub syscall : Slot m.stop_fd ps m.syscall_writer m'.syscall_writer
    pub group : Slot m.stop_fd ps m.group_counter_writer m'.group_counter_writer
    pub userspace : Slot m.stop_fd ps m.userspace_counter_writer m'.userspace_counter_writer

  monitor_scope-Round :
      (p : Pollfd) (m : ScopeMonitor Writer)
      → has_pollin p ≡ true
      → (m' : ScopeMonitor Writer) × (monitor_scope ops p.fd m ≡ ok m') × Round (p ∷ []) m m'
  unfolding monitor_scope
  monitor_scope-Round p m h =
      let m0 = if not m.is_cpu then pin ops m else m in
      let (y, ye, ys) = read_if-Slot m.stop_fd p m.syscall_writer h in
      let (a, ae, as2) = read_if-Slot m.stop_fd p m.sample_writer h in
      let (g, ge, gs) = read_if-Slot m.stop_fd p m.group_counter_writer h in
      let (u, ue, us) = read_if-Slot m.stop_fd p m.userspace_counter_writer h in
      (
        record m0 {
          syscall_writer = y;
          sample_writer = a;
          group_counter_writer = g;
          userspace_counter_writer = u;
        },
        rw (ye, ae, ge, ue) refl,
        record { stop_fd = ground arith; sample = as2; syscall = ys; group = gs; userspace = us },
      )

  Round_trans :
      (p : Pollfd) (ps : List Pollfd) (m n o : ScopeMonitor Writer)
      → Round (p ∷ []) m n
      → Round ps n o
      → Round (p ∷ ps) m o
  Round_trans p ps m n o a b =
      let stop_fd = a.stop_fd in
      record {
        stop_fd = b.stop_fd ∙ a.stop_fd;
        sample = Slot-trans m.stop_fd p ps _ n.sample_writer _ a.sample (rw stop_fd at (b.sample));
        syscall =
            Slot-trans m.stop_fd p ps _ n.syscall_writer _ a.syscall (rw stop_fd at (b.syscall));
        group =
            Slot-trans m.stop_fd p ps _ n.group_counter_writer _ a.group (rw stop_fd at (b.group));
        userspace =
            Slot-trans m.stop_fd p ps _ n.userspace_counter_writer _ a.userspace
              (rw stop_fd at (b.userspace));
      }

  Slot-nil : (stop_fd : ℤ) (o : Option Writer) → Slot stop_fd [] o o
  unfolding awake
  Slot-nil stop_fd none = tt
  Slot-nil stop_fd (some w) = (refl, λ a. absurd (never a), λ d. d)
    where
      never : false ≡ true → ⊥
      never e = cc

  pub monitor_fds-Round :
      (ps : List Pollfd) (m : ScopeMonitor Writer)
      → (m' : ScopeMonitor Writer) × (monitor_fds (monitor_scope ops) ps m ≡ ok m') × Round ps m m'
  unfolding monitor_fds
  monitor_fds-Round [] m = (
    m,
    refl,
    record {
      stop_fd = refl;
      sample = Slot-nil m.stop_fd m.sample_writer;
      syscall = Slot-nil m.stop_fd m.syscall_writer;
      group = Slot-nil m.stop_fd m.group_counter_writer;
      userspace = Slot-nil m.stop_fd m.userspace_counter_writer;
    },
  )
  monitor_fds-Round (p ∷ ps) m = elim (Bool-cases (has_pollin p)) [
    | inl woken ↦
        let (m1, f, r) = monitor_scope-Round p m woken in
        let (m2, g, r2) = monitor_fds-Round ps m1 in
        (m2, rw (woken, f) g, Round_trans p ps m m1 m2 r r2)
    | inr quiet ↦
        let (m2, g, r2) = monitor_fds-Round ps m in
        (m2, rw quiet g, Round_trans p ps m m m2 (still quiet) r2)
  ]
    where
      still : has_pollin p ≡ false → Round (p ∷ []) m m
      still quiet = record {
        stop_fd = refl;
        sample = Slot-none m.stop_fd p m.sample_writer quiet;
        syscall = Slot-none m.stop_fd p m.syscall_writer quiet;
        group = Slot-none m.stop_fd p m.group_counter_writer quiet;
        userspace = Slot-none m.stop_fd p m.userspace_counter_writer quiet;
      }
