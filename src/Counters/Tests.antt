-- ===== src/Counters/Tests.antt =====
-- Concrete reads for include/lo2s/perf/counter/: the lemmas' hypotheses hold on them. The doubles are
-- whole numbers here.
use lo2s.Shared.{
  ℕ, ◌+◌, ◌*◌, ◌/◌, ◌≡◌, refl, false, some, List, [], ◌∷◌, map, arith, Result, ok, err,
}
use lo2s.Counters.{
  Doubles, GroupReadFormat, GroupCounterBuffer, CounterAttr, CounterCollection, MetricMember,
  counter_member, time_enabled_member, time_running_member, group_members, read_group, read_groups,
  handle_group, init_group, empty_read, update_buffers, update_counter, collection_eq,
}
use lo2s.Counters.Exact.{read_groups-last}
use lo2s.Counters.Members.{expected, handle_group-members, collection_eq_self}

abbrev whole : Doubles ℕ
whole = record { of_number = λ n. n; add = λ a b. a + b; mul = λ a b. a * b; div = λ a b. a / b }

abbrev first_read : GroupReadFormat
first_read = record { nr = 2; time_enabled = 100; time_running = 100; values = 7 ∷ 5 ∷ [] }

abbrev second_read : GroupReadFormat
second_read = record { nr = 2; time_enabled = 160; time_running = 160; values = 9 ∷ 5 ∷ [] }

read_groups-last_example :
    (b : GroupCounterBuffer ℕ) × (read_groups whole
        (first_read ∷ second_read ∷ [])
        (init_group whole 2)
      ≡ ok b)
    × (b.accumulated ≡ map (λ n. n) (9 ∷ 5 ∷ []))
read_groups-last_example =
    read_groups-last whole (λ a b h. refl) 2 (first_read ∷ second_read ∷ [])
      (
        record {
          nr = refl;
          running = refl;
          later = omega arith;
          bounded = omega arith;
          grow = omega arith;
        },
        (
          record {
            nr = refl;
            running = refl;
            later = omega arith;
            bounded = omega arith;
            grow = omega arith;
          },
          tt,
        ),
      )

-- The group has run for half of the time only: what it has counted since is doubled.
abbrev half_read : GroupReadFormat
half_read = record { nr = 2; time_enabled = 200; time_running = 150; values = 17 ∷ 6 ∷ [] }

abbrev sums_of : Result (GroupCounterBuffer ℕ) → List ℕ
sums_of (ok b) = b.accumulated
sums_of (err fault) = []

half_lem :
    sums_of (read_groups whole (first_read ∷ half_read ∷ []) (init_group whole 2)) ≡ 27 ∷ 7 ∷ []
unfolding read_groups read_group init_group update_buffers update_counter
half_lem = refl

abbrev leader : CounterAttr ℕ
leader = record { attr = 1; scale = 1 }

abbrev collection : CounterCollection ℕ
collection = record { leader = some leader; counters = record { attr = 4; scale = 10 } ∷ [] }

abbrev members : List (MetricMember whole)
members =
    counter_member leader
    ∷ counter_member (record { attr = 4; scale = 10 })
    ∷ time_enabled_member
    ∷ time_running_member
    ∷ []

abbrev read_once : GroupCounterBuffer ℕ
read_once = record { current = empty_read whole 2; previous = first_read; accumulated = 7 ∷ 5 ∷ [] }

read_once_lem : read_group whole first_read (init_group whole 2) ≡ ok read_once
unfolding read_group init_group update_buffers update_counter
read_once_lem = refl

handle_group-members_example :
    handle_group whole collection 4 first_read (init_group whole 2)
    ≡ ok (7 ∷ 50 ∷ 100 ∷ 100 ∷ [], read_once)
unfolding group_members expected
handle_group-members_example =
    handle_group-members whole collection leader first_read (init_group whole 2) read_once members
      refl refl read_once_lem refl refl

collection_eq_self_example : collection_eq collection collection ≡ false
collection_eq_self_example = collection_eq_self collection
