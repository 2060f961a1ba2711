-- ===== src/Scope/Group.antt =====
-- The groups of include/lo2s/execution_scope_group.hpp.
use lo2s.Shared.{
  ap, inl, inr, ◌∙◌, Bool-cases, Option-cases, eq_ℤ_iff, ℤ, pos, ◌≡◌, ◌≢◌, ◌↔◌, ◌⊎◌, refl, true,
  false, Option, none, some, [], ◌∷◌, All, arith, eq_ℤ, ok, if◌then◌else◌,
}
use lo2s.Scope.{
  ExecutionScope, scope_type_value, of_thread, of_process, of_cpu, as_process, scope_lt, scope_eq,
  Groups, find, emplace, is_group, is_process, get_process, add_process, add_thread, add_thread_of,
  add_cpu,
}

-- A thread is in the group of a process, and a CPU is its own group.
abbrev pub IsGroup : ExecutionScope → ExecutionScope → Type 0
IsGroup s g =
    ((scope_type_value s.type ≡ 0) × (scope_type_value g.type ≡ 1))
    ⊎ ((scope_type_value s.type ≡ 2) × (g ≡ s))

abbrev pub IsValid : Groups → Type 0
IsValid = All (λ (e : ExecutionScope × ExecutionScope). IsGroup e.0 e.1)

pub find-IsGroup : (s g : ExecutionScope) (m : Groups) → IsValid m → find s m ≡ some g → IsGroup s g
unfolding scope_lt scope_type_value find
find-IsGroup s g [] v e = ground arith
find-IsGroup s g ((k, x) ∷ m) v e = ground (arith, find-IsGroup s g m v.1)

find-here :
    (s g k : ExecutionScope) (m : Groups) → scope_eq s k ≡ true → find s ((k, g) ∷ m) ≡ some g
unfolding scope_eq scope_lt find
find-here s g k m e = ground arith

find-later :
    (s g k : ExecutionScope) (m : Groups) → scope_eq s k ≡ false → find s ((k, g) ∷ m) ≡ find s m
unfolding scope_eq scope_lt scope_type_value find
find-later s g k m e = ground arith

emplace_new : (k g : ExecutionScope) (m : Groups) → find k m ≡ none → emplace k g m ≡ (k, g) ∷ m
unfolding emplace
emplace_new k g m e = ground arith

emplace_old : (k g : ExecutionScope) (m : Groups) → find k m ≢ none → emplace k g m ≡ m
unfolding emplace
emplace_old k g m e = elim (Option-cases (find k m)) [
  | inl h ↦ absurd (e h)
  | inr h ↦ rw (h.1, emplace) refl
]

find-emplace_here :
    (s g : ExecutionScope) (m : Groups)
    → find s m ≡ none
    → scope_eq s s ≡ true
    → find s (emplace s g m) ≡ some g
find-emplace_here s g m h e = rw (emplace_new s g m h) (find-here s g s m e)

find-emplace_later :
    (s g k : ExecutionScope) (m : Groups) → scope_eq s k ≡ false → find s (emplace k g m) ≡ find s m
find-emplace_later s g k m e = elim (Option-cases (find k m)) [
  | inl h ↦ rw (emplace_new k g m h) (find-later s g k m e)
  | inr h ↦ rw (emplace_old k g m (ground (arith, h.1))) refl
]

pub emplace-IsValid :
    (k g : ExecutionScope) (m : Groups) → IsGroup k g → IsValid m → IsValid (emplace k g m)
emplace-IsValid k g m h v = elim (Option-cases (find k m)) [
  | inl e ↦ rw (emplace_new k g m e) (h, v)
  | inr e ↦ rw (emplace_old k g m (ground (arith, e.1))) v
]

-- The groups that the operations build from an empty map.
pub data Built : Groups → Type 0 where
  nothing : Built []
  by_process : (p : ℤ) (m : Groups) → Built m → Built (add_process p m)
  by_thread : (t p : ℤ) (m : Groups) → Built m → Built (add_thread t p m)
  by_thread_of : (t p : ℤ) (m : Groups) → Built m → Built (add_thread_of t p m)
  by_cpu : (c : ℤ) (m : Groups) → Built m → Built (add_cpu c m)

pub add_process-IsValid : (p : ℤ) (m : Groups) → IsValid m → IsValid (add_process p m)
unfolding scope_type_value add_process
add_process-IsValid p m v = emplace-IsValid (of_thread p) (of_process p) m (ground arith) v

pub add_thread-IsValid : (t p : ℤ) (m : Groups) → IsValid m → IsValid (add_thread t p m)
unfolding scope_type_value add_thread
add_thread-IsValid t p m v = emplace-IsValid (of_thread t) (of_process p) m (ground arith) v

add_thread_of-IsValid : (t p : ℤ) (m : Groups) → IsValid m → IsValid (add_thread_of t p m)
unfolding scope_type_value add_thread_of
add_thread_of-IsValid t p m v = elim (Option-cases (find (of_thread p) m)) [
  | inl e ↦ rw (e, add_thread_of) (emplace-IsValid (of_thread t) (of_process p) m (ground arith) v)
  | inr e ↦
      rw (e.1, add_thread_of)
        (emplace-IsValid (of_thread t) (e.0) m
          (let i = find-IsGroup (of_thread p) (e.0) m v (e.1) in ground (arith, i)) v)
]

Built-IsValid : (m : Groups) → Built m → IsValid m
unfolding scope_type_value add_process add_thread add_cpu
Built-IsValid _ nothing = tt
Built-IsValid _ (by_process p m b) = add_process-IsValid p m (Built-IsValid m b)
Built-IsValid _ (by_thread t p m b) = add_thread-IsValid t p m (Built-IsValid m b)
Built-IsValid _ (by_thread_of t p m b) = add_thread_of-IsValid t p m (Built-IsValid m b)
Built-IsValid _ (by_cpu c m b) =
    emplace-IsValid (of_cpu c) (of_cpu c) m (ground arith) (Built-IsValid m b)

thread_in_process :
    (t : ℤ) (g : ExecutionScope)
    → IsGroup (of_thread t) g
    → (as_process g ≡ ok g.id) × (scope_eq g (of_thread t) ≡ false)
unfolding scope_type_value as_process scope_eq
thread_in_process t g h = ground arith

get_process-none : (t : ℤ) (m : Groups) → find (of_thread t) m ≡ none → get_process t m ≡ ok (pos 0)
unfolding get_process
get_process-none t m e = ground arith

get_process-some :
    (t : ℤ) (g : ExecutionScope) (m : Groups)
    → find (of_thread t) m ≡ some g
    → get_process t m ≡ as_process g
unfolding get_process
get_process-some t g m e = ground arith

is_process_lem :
    (t : ℤ) (m : Groups)
    → ((g : ExecutionScope) → find (of_thread t) m ≡ some g → scope_eq g (of_thread t) ≡ false)
    → is_process t m ≡ false
unfolding is_process is_group
is_process_lem t m h = elim (Option-cases (find (of_thread t) m)) [
  | inl e ↦ ground arith
  | inr e ↦ let f = h (e.0) (e.1) in ground (arith, e.1, f)
]

pub get_process-IsValid : (t : ℤ) (m : Groups) → IsValid m → (p : ℤ) × (get_process t m ≡ ok p)
get_process-IsValid t m v = elim (Option-cases (find (of_thread t) m)) [
  | inl e ↦ (pos 0, get_process-none t m e)
  | inr e ↦ (
    e.0.id,
    get_process-some t (e.0) m (e.1)
        ∙ (thread_in_process t (e.0) (find-IsGroup (of_thread t) (e.0) m v (e.1))).0,
  )
]

is_process-IsValid : (t : ℤ) (m : Groups) → IsValid m → is_process t m ≡ false
is_process-IsValid t m v =
    is_process_lem t m (λ g e. (thread_in_process t g (find-IsGroup (of_thread t) g m v e)).1)

-- In the groups that the operations build, `get_process` yields a process for every thread, known
-- or not, so its caller never sees an exception, and `is_process` is false for every thread, that
-- of a process's own number included.
pub Built-threads :
    (m : Groups) (t : ℤ) → Built m → ((p : ℤ) × (get_process t m ≡ ok p)) × (is_process t m ≡ false)
Built-threads m t b =
    (get_process-IsValid t m (Built-IsValid m b), is_process-IsValid t m (Built-IsValid m b))

of_thread_eq : (t u : ℤ) → (scope_eq (of_thread u) (of_thread t) ≡ true) ↔ (u ≡ t)
unfolding scope_eq scope_type_value
of_thread_eq t u = ground (arith, eq_ℤ_iff u t)

of_thread_ne : (t u : ℤ) → u ≢ t → scope_eq (of_thread u) (of_thread t) ≡ false
of_thread_ne t u h = elim (Bool-cases (scope_eq (of_thread u) (of_thread t))) [
  | inl e ↦ absurd (h ((of_thread_eq t u).0 e))
  | inr e ↦ e
]

get_process-found :
    (u : ℤ) (m : Groups) (o : Option ExecutionScope)
    → find (of_thread u) m ≡ o
    → get_process u m ≡ elim o [ none ↦ ok (pos 0) | some g ↦ as_process g ]
unfolding get_process
get_process-found u m o e = ground arith

in_process : (p : ℤ) → as_process (of_process p) ≡ ok p
unfolding as_process scope_type_value
in_process p = refl

fresh :
    (t p u : ℤ) (m : Groups)
    → u ≡ t
    → find (of_thread u) m ≡ none
    → find (of_thread u) (emplace (of_thread t) (of_process p) m) ≡ some (of_process p)
fresh t p u m e h =
    rw (← e) (find-emplace_here (of_thread u) (of_process p) m h ((of_thread_eq u u).1 refl))

known :
    (t p u : ℤ) (m : Groups) (g : ExecutionScope)
    → find (of_thread u) m ≡ some g
    → find (of_thread u) (emplace (of_thread t) (of_process p) m) ≡ some g
known t p u m g h = elim (Option-cases (find (of_thread t) m)) [
  | inr k ↦ rw (emplace_old (of_thread t) (of_process p) m (ground (arith, k.1))) h
  | inl k ↦
      find-emplace_later (of_thread u) (of_process p) (of_thread t) m
        (of_thread_ne t u (λ e. absurd (cc (ap (λ x. find (of_thread x) m) e, h, k))))
      ∙ h
]

-- After a thread is added to a process, `get_process` of a thread that was known before yields the
-- process it was in, also if it is that thread; of that thread it yields the process if the thread
-- was not known, and 0 of any other unknown thread.
pub get_process-add_thread :
    (t p u : ℤ) (m : Groups)
    → get_process u (add_thread t p m) ≡ elim (find (of_thread u) m) [
      | some g ↦ as_process g
      | none ↦ if eq_ℤ u t then ok p else ok (pos 0)
    ]
unfolding add_thread
get_process-add_thread t p u m = elim (Option-cases (find (of_thread u) m)) [
  | inr h ↦ rw (h.1) (
      get_process-found u (emplace (of_thread t) (of_process p) m) (some (h.0))
        (known t p u m (h.0) (h.1)))
  | inl h ↦ elim (Bool-cases (eq_ℤ u t)) [
    | inl e ↦
        rw (h, e)
          (get_process-found u (emplace (of_thread t) (of_process p) m) (some (of_process p))
              (fresh t p u m ((eq_ℤ_iff u t).0 e) h)
            ∙ in_process p)
    | inr e ↦
        rw (h, e)
          (get_process-found u (emplace (of_thread t) (of_process p) m) none (
            find-emplace_later (of_thread u) (of_process p) (of_thread t) m
              (of_thread_ne t u (λ x. absurd (cc (e, (eq_ℤ_iff u t).1 x))))
            ∙ h))
  ]
]
