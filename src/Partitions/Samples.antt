-- ===== src/Partitions/Samples.antt =====
-- The theorems on partitions at concrete inputs.
use fork_glitchtip_glitchtip.Common.{
  ℕ, ◌+◌, ◌-◌, ◌*◌, ◌/◌, ◌<◌, ◌≤◌, ◌≡◌, ◌≢◌, ◌↔◌, true, false, some, List, [], ◌∷◌, All, length,
  refl, arith,
}
use fork_glitchtip_glitchtip.Partitions.Uuid7.{
  ℤ, pos, uuid_of_ms, from_datetime, get_range_for_date,
}
use fork_glitchtip_glitchtip.Partitions.Uuid7.Window.{first_uuid, get_range_for_date-from_datetime}
use fork_glitchtip_glitchtip.Partitions.Tables.{Partition, day_ms, new_child, found_partition}
use fork_glitchtip_glitchtip.Partitions.Tables.Fill.{HasParts, count_bucket}
use fork_glitchtip_glitchtip.Partitions.Manager.{
  uuid7, datetime, done, out_of_fuel, execute_partition_creation, create_partitions_for_date_range,
  drop_old_partitions,
}
use fork_glitchtip_glitchtip.Partitions.Manager.Creation.{point}
use fork_glitchtip_glitchtip.Partitions.Manager.Existing.{execute_partition_creation-again}
use fork_glitchtip_glitchtip.Partitions.Manager.Grid.{IsGrid, count_day, tables_for}
use fork_glitchtip_glitchtip.Partitions.Manager.DateRange.{
  create_partitions_for_date_range-ends, create_partitions_for_date_range-covers,
}
use fork_glitchtip_glitchtip.Partitions.Manager.Retention.{drop_old_partitions-keeps}
use fork_glitchtip_glitchtip.Partitions.Maintenance.{
  Retention, log_event, issue_tag, weekday, maintain_daily, maintain_weekly,
}
use fork_glitchtip_glitchtip.Partitions.Maintenance.Upcoming.{
  maintain_daily-upcoming, maintain_weekly-upcoming,
}

-- the milliseconds that a datetime of microseconds starts
abbrev whole_ms : ℕ → ℤ
whole_ms microseconds = pos (microseconds / 1000)

get_range_for_date-from_datetime_example :
    (uuid : ℕ) × (low : ℕ) × (high : ℕ) × (from_datetime whole_ms 70000 5 1736899200001789
      ≡ some uuid)
    × (get_range_for_date whole_ms 1736899200000000 1736985600000000 ≡ some (low, high))
    × (((low ≤ uuid) × (uuid < high))
        ↔ ((1736899200000 ≤ 1736899200001) × (1736899200001 < 1736985600000)))
get_range_for_date-from_datetime_example =
    get_range_for_date-from_datetime whole_ms 70000 5 1736899200001789 1736899200000000
      1736985600000000 1736899200001 1736899200000 1736985600000 refl refl refl (omega arith)
      (omega arith) (omega arith)

-- the partition of day 20101, without its second part
abbrev half_day : Partition
half_day = record {
  day = 20101;
  low = first_uuid (20101 * day_ms);
  high = first_uuid (20102 * day_ms);
  hashed = true;
  children = new_child 2 0 ∷ [];
}

half_day-HasParts : HasParts 2 half_day
unfolding count_bucket
half_day-HasParts = record {
  is_hashed = refl;
  parts = (record { bucket_same = refl; modulus_same = refl; small = omega arith }, tt);
  once = λ i. ground arith;
}

half_day-IsGrid : IsGrid uuid7 2 1 0 (half_day ∷ [])
unfolding count_day point
half_day-IsGrid = record {
  partitions = (
    record {
      index = 20101;
      at_index = omega arith;
      from_day = refl;
      to_day = refl;
      has = half_day-HasParts;
    },
    tt,
  );
  once = λ day. ground arith;
}

-- the partition of the week from day 20101, a Monday, without its second part
abbrev half_week : Partition
half_week = record {
  day = 20101;
  low = 20101 * day_ms;
  high = 20108 * day_ms;
  hashed = true;
  children = new_child 2 0 ∷ [];
}

half_week-IsGrid : IsGrid datetime 2 7 4 (half_week ∷ [])
unfolding count_day count_bucket point
half_week-IsGrid = record {
  partitions = (
    record {
      index = 2871;
      at_index = omega arith;
      from_day = refl;
      to_day = refl;
      has = record {
        is_hashed = refl;
        parts = (record { bucket_same = refl; modulus_same = refl; small = omega arith }, tt);
        once = λ i. ground arith;
      };
    },
    tt,
  );
  once = λ day. ground arith;
}

abbrev settings : Retention
settings = record {
  event_days = 90;
  transaction_days = 90;
  log_days = 30;
  uptime_days = 90;
  hash_buckets = 2;
  duckdb = false;
}

create_partitions_for_date_range-covers_example :
    (count : ℕ) × (after : List Partition) × (create_partitions_for_date_range 4 uuid7 1 2
        ((0 + 20100 * 1) * day_ms)
        ((0 + (20100 + 3) * 1) * day_ms)
        (half_day ∷ [])
      ≡ done count after)
    × IsGrid uuid7 2 1 0 after
    × ((key h : ℕ)
        → point uuid7 ((0 + 20100 * 1) * day_ms) ≤ key
        → key < point uuid7 ((0 + (20100 + 3) * 1) * day_ms)
        → tables_for key h after ≡ 1)
create_partitions_for_date_range-covers_example =
    create_partitions_for_date_range-covers 4 uuid7 2 1 0 20100 3 (half_day ∷ []) (omega arith)
      (omega arith) (omega arith) (omega arith) half_day-IsGrid

create_partitions_for_date_range-ends_example :
    create_partitions_for_date_range 4 uuid7 1 2 1736640000000 1736899200000 (half_day ∷ [])
    ≢ out_of_fuel
create_partitions_for_date_range-ends_example =
    create_partitions_for_date_range-ends 3 uuid7 1 2 1736640000000 1736899200000 (half_day ∷ [])
      (omega arith) (omega arith)

drop_old_partitions-keeps_example :
    ((drop_old_partitions 20200 90 1 (half_day ∷ [])).0
        + length (drop_old_partitions 20200 90 1 (half_day ∷ [])).1
      ≡ 1)
    × All (λ p. 20200 - 90 ≤ p.day + 1) (drop_old_partitions 20200 90 1 (half_day ∷ [])).1
    × IsGrid uuid7 2 1 0 (drop_old_partitions 20200 90 1 (half_day ∷ [])).1
    × ((key h : ℕ)
        → point uuid7 ((20200 - 90) * day_ms) ≤ key
        → tables_for key h (drop_old_partitions 20200 90 1 (half_day ∷ [])).1
          ≡ tables_for key h (half_day ∷ []))
drop_old_partitions-keeps_example =
    drop_old_partitions-keeps uuid7 2 1 0 20200 90 (half_day ∷ []) half_day-IsGrid

execute_partition_creation-again_example :
    (count : ℕ) × (after : List Partition) × (execute_partition_creation uuid7 20101 1736726400000
        1736812800000 2
        (half_day ∷ [])
      ≡ some (count, after))
    × (execute_partition_creation uuid7 20101 1736726400000 1736812800000 2 after ≡ some (0, after))
unfolding found_partition
execute_partition_creation-again_example =
    execute_partition_creation-again uuid7 2 20101 1736726400000 1736812800000 half_day
      (half_day ∷ []) (omega arith) (omega arith) (omega arith) refl half_day-HasParts

maintain_daily-upcoming_example :
    (count : ℕ) × (after : List Partition) × (maintain_daily settings 1736730000000 log_event
        (half_day ∷ [])
      ≡ done count after)
    × IsGrid uuid7 2 1 0 after
    × ((random_a random_b ms uuid h : ℕ)
        → uuid_of_ms random_a random_b (pos ms) ≡ some uuid
        → 1736730000000 / day_ms * day_ms ≤ ms
        → ms < (1736730000000 / day_ms + 7) * day_ms
        → tables_for uuid h after ≡ 1)
maintain_daily-upcoming_example =
    maintain_daily-upcoming settings 1736730000000 log_event (half_day ∷ []) (omega arith)
      (omega arith) half_day-IsGrid

maintain_weekly-upcoming_example :
    (count : ℕ) × (after : List Partition) × (maintain_weekly settings 1736730000000 issue_tag
        (half_week ∷ [])
      ≡ done count after)
    × IsGrid datetime 2 7 4 after
    × ((time h : ℕ)
        → 1736730000000 / day_ms * day_ms ≤ time
        → time < (1736730000000 / day_ms - weekday (1736730000000 / day_ms) + 28) * day_ms
        → tables_for time h after ≡ 1)
maintain_weekly-upcoming_example =
    maintain_weekly-upcoming settings 1736730000000 issue_tag (half_week ∷ []) (omega arith)
      (omega arith) (omega arith) half_week-IsGrid
