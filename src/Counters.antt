-- ===== src/Counters.antt =====
-- include/lo2s/perf/counter/: the counter buffers of counter_buffer.hpp, group_counter_buffer.hpp and
-- userspace_counter_buffer.hpp, counter_collection.hpp, and `handle` of the two writers of
-- src/perf/counter/. The arithmetic of `double` and the conversion of time points are parameters.
pub mod Exact
pub mod Members
mod Tests
use lo2s.Shared.{
  ℕ, zero, suc, ◌+◌, ◌-◌, ◌%◌, ◌^◌, Bool, true, false, ◌||◌, Option, none, some, List, [], ◌∷◌,
  ◌++◌, ◌==◌, if◌then◌else◌, Result, ok, err, Fault, assert, leb, length, get_elem?, replicate,
  ◌>>=◌, ◌>>◌, map,
}
use lo2s.MultiReader.{attr_lt}

-- `double`, and the conversion of a `uint64_t` to it.
pub record Doubles (Double : Type 0) : Type 0 where
  pub of_number : ℕ → Double
  pub add : Double → Double → Double
  pub mul : Double → Double → Double
  pub div : Double → Double → Double

pub record GroupReadFormat : Type 0 where
  pub nr : ℕ
  pub time_enabled : ℕ
  pub time_running : ℕ
  pub values : List ℕ

-- `current_` and `previous_` point into two buffers that a read swaps.
pub record GroupCounterBuffer (Double : Type 0) : Type 0 where
  pub current : GroupReadFormat
  pub previous : GroupReadFormat
  pub accumulated : List Double

pub record UserspaceReadFormat : Type 0 where
  pub value : ℕ
  pub time_enabled : ℕ
  pub time_running : ℕ

pub record UserspaceCounterBuffer (Double : Type 0) : Type 0 where
  pub current : List UserspaceReadFormat
  pub previous : List UserspaceReadFormat
  pub accumulated : List Double

-- An event's `perf_event_attr`, by the bytes that it is compared by, and its `scale_`.
pub record CounterAttr (Double : Type 0) : Type 0 where
  pub attr : ℕ
  pub scale : Double

pub record CounterCollection (Double : Type 0) : Type 0 where
  pub leader : Option (CounterAttr Double)
  pub counters : List (CounterAttr Double)

-- A subtraction of `uint64_t`.
abbrev pub diff : ℕ → ℕ → ℕ
diff now before = (now + 2 ^ 64 - before) % 2 ^ 64

abbrev pub value_at : ℕ → List ℕ → ℕ
value_at i vs = elim (get_elem? vs i) [ none ↦ 0 | some v ↦ v ]

abbrev pub userspace_at : ℕ → List UserspaceReadFormat → UserspaceReadFormat
userspace_at i vs = elim (get_elem? vs i) [
  | none ↦ record { value = 0; time_enabled = 0; time_running = 0 }
  | some v ↦ v
]

module _ {Double : Type 0} (d : Doubles Double) where
  -- One round of `update_buffers`.
  unfoldable pub update_counter : (enabled running value : ℕ) → Double → Double
  update_counter enabled running value sum =
      if enabled == 0 || running == 0 || value == 0
      then sum
      else if enabled == running
      then d.add sum (d.of_number value)
      else d.add sum (d.mul (d.div (d.of_number enabled) (d.of_number running)) (d.of_number value))

  -- `update_buffers`, on the differences at each index.
  unfoldable pub update_buffers :
      (diff_enabled diff_running diff_value : ℕ → ℕ) → List Double → List Double
  update_buffers diff_enabled diff_running diff_value [] = []
  update_buffers diff_enabled diff_running diff_value (sum ∷ sums) =
      update_counter (diff_enabled 0) (diff_running 0) (diff_value 0) sum
      ∷ update_buffers (λ i. diff_enabled (suc i)) (λ i. diff_running (suc i))
          (λ i. diff_value (suc i)) sums

  abbrev pub empty_read : ℕ → GroupReadFormat
  empty_read n = record { nr = n; time_enabled = 0; time_running = 0; values = replicate n 0 }

  -- The constructors.
  unfoldable pub init_group : ℕ → GroupCounterBuffer Double
  init_group n = record {
    current = empty_read n;
    previous = empty_read n;
    accumulated = replicate n (d.of_number 0);
  }

  unfoldable pub init_userspace : ℕ → UserspaceCounterBuffer Double
  init_userspace n = record {
    current = replicate n (record { value = 0; time_enabled = 0; time_running = 0 });
    previous = replicate n (record { value = 0; time_enabled = 0; time_running = 0 });
    accumulated = replicate n (d.of_number 0);
  }

  -- `GroupCounterBuffer::read`
  unfoldable pub read_group :
      GroupReadFormat → GroupCounterBuffer Double → Result (GroupCounterBuffer Double)
  read_group inbuf b =
      assert (length b.accumulated == inbuf.nr)
      >> (assert (b.current.nr == b.previous.nr)
          >> ok (record {
            current = b.previous;
            previous = inbuf;
            accumulated =
                update_buffers (λ i. diff inbuf.time_enabled b.previous.time_enabled)
                  (λ i. diff inbuf.time_running b.previous.time_running)
                  (λ i. diff (value_at i inbuf.values) (value_at i b.previous.values))
                  b.accumulated;
          }))

  unfoldable pub read_groups :
      List GroupReadFormat → GroupCounterBuffer Double → Result (GroupCounterBuffer Double)
  read_groups [] b = ok b
  read_groups (r ∷ rs) b = read_group r b >>= read_groups rs

  -- `UserspaceCounterBuffer::read`
  unfoldable pub read_userspace :
      List UserspaceReadFormat → UserspaceCounterBuffer Double → UserspaceCounterBuffer Double
  read_userspace inbuf b = record {
    current = b.previous;
    previous = inbuf;
    accumulated =
        update_buffers
          (λ i. diff (userspace_at i inbuf).time_enabled (userspace_at i b.previous).time_enabled)
          (λ i. diff (userspace_at i inbuf).time_running (userspace_at i b.previous).time_running)
          (λ i. diff (userspace_at i inbuf).value (userspace_at i b.previous).value) b.accumulated;
  }

  -- `get_scale`; a read behind the vector is a fault.
  unfoldable pub get_scale : CounterCollection Double → ℕ → Result Double
  get_scale c zero = elim c.leader [ none ↦ err Fault.runtime_error | some l ↦ ok l.scale ]
  get_scale c (suc i) = elim (get_elem? c.counters i) [
    | none ↦ err Fault.out_of_range
    | some a ↦ ok a.scale
  ]

  -- The loop of `handle`: the values of the counters from an index on.
  unfoldable pub scaled : CounterCollection Double → ℕ → List Double → Result (List Double)
  scaled c i [] = ok []
  scaled c i (sum ∷ sums) =
      get_scale c i >>= λ scale. scaled c (suc i) sums >>= λ rest. ok (d.mul sum scale ∷ rest)

  -- What a metric class has of an event, in order: `perf_metric_class` of the trace.
  pub data MetricMember : Type 0 where
    counter_member : CounterAttr Double → MetricMember
    time_enabled_member : MetricMember
    time_running_member : MetricMember

  unfoldable pub group_members : CounterCollection Double → Result (List MetricMember)
  group_members c = elim c.leader [
    | none ↦ err Fault.runtime_error
    | some l ↦ ok (
        counter_member l
        ∷ (map counter_member c.counters ++ time_enabled_member ∷ time_running_member ∷ []))
  ]

  -- `handle` of the group writer on an event of `size` values; a write behind them is a fault.
  unfoldable pub handle_group :
      CounterCollection Double
      → ℕ
      → GroupReadFormat
      → GroupCounterBuffer Double
      → Result (List Double × GroupCounterBuffer Double)
  handle_group c size sample b = read_group sample b >>= λ b'.
      assert (leb (length b'.accumulated) size)
      >> (scaled c 0 b'.accumulated >>= λ values. elim (leb (length b'.accumulated + 2) size) [
        | false ↦ err Fault.out_of_range
        | true ↦ ok (
          values
              ++ d.of_number b'.previous.time_enabled ∷ d.of_number b'.previous.time_running ∷ [],
          b',
        )
      ])

-- `operator==` and `operator<` of collections; optional leaders compare as optionals do.
module _ {Double : Type 0} where
  abbrev pub leader_lt : Option (CounterAttr Double) → Option (CounterAttr Double) → Bool
  leader_lt none none = false
  leader_lt none (some b) = true
  leader_lt (some a) none = false
  leader_lt (some a) (some b) = attr_lt a.attr b.attr

  unfoldable pub same_counters : List (CounterAttr Double) → List (CounterAttr Double) → Bool
  same_counters [] [] = true
  same_counters [] (b ∷ bs) = false
  same_counters (a ∷ more) [] = false
  same_counters (a ∷ more) (b ∷ bs) =
      let rest = same_counters more bs in if a.attr == b.attr then rest else false

  unfoldable pub collection_eq : CounterCollection Double → CounterCollection Double → Bool
  collection_eq a b =
      if leader_lt a.leader b.leader then same_counters a.counters b.counters else false
