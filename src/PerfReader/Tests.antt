-- ===== src/PerfReader/Tests.antt =====
-- A concrete ring of include/lo2s/perf/event_reader.hpp: two events of 8 bytes in 16, the second
-- of which starts at the ring's beginning.
use lo2s.Shared.{ℕ, ◌+◌, ◌%◌, refl, Bool, false, List, [], ◌∷◌, ◌==◌, if◌then◌else◌, arith}
use lo2s.PerfReader.{
  RecordType, EventReader, read, size_of, field, le_value, take_bytes, drop_bytes,
}
use lo2s.PerfReader.Records.{Holds, Read, read-Read}

abbrev event : List ℕ
event = 9 ∷ 0 ∷ 0 ∷ 0 ∷ 0 ∷ 0 ∷ 8 ∷ 0 ∷ []

abbrev byte_at : ℕ → ℕ
byte_at i = if i % 8 == 0 then 9 else if i % 8 == 6 then 8 else 0

abbrev ring : EventReader ℕ
ring = record {
  data_size = 16;
  bytes = byte_at;
  data_head = 24;
  data_tail = 8;
  client = record { state = 0; throttle_samples = 0; lost_samples = 0 };
}

abbrev count : RecordType → List ℕ → ℕ → Bool × ℕ
count t ev n = (false, n + 1)

ring-Holds : Holds ring (event ∷ event ∷ [])
unfolding size_of field le_value take_bytes drop_bytes
ring-Holds = record {
  size_positive = omega arith;
  filled = omega arith;
  room = omega arith;
  head_below = omega arith;
  records = (
    (omega arith, omega arith, refl, omega arith),
    (refl, (refl, (refl, (refl, (refl, (refl, (refl, (refl, tt)))))))),
    omega arith,
    (
      (omega arith, omega arith, refl, omega arith),
      (refl, (refl, (refl, (refl, (refl, (refl, (refl, (refl, tt)))))))),
      omega arith,
      refl,
    ),
  );
}

read-Read_example : Read count (event ∷ event ∷ []) ring (read count ring)
read-Read_example = read-Read count (event ∷ event ∷ []) ring ring-Holds
