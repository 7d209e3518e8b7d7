-- ===== src/Partitions/Maintenance/Upcoming.antt =====
-- After the maintenance of a table, the rows of the coming days have their partition.
use fork_glitchtip_glitchtip.Common.{
  ℕ, ◌+◌, ◌-◌, ◌*◌, ◌/◌, ◌%◌, ◌^◌, ◌<◌, ◌≤◌, ◌≡◌, Option, none, some, List, refl, sym, ◌∙◌, ap, ap₂,
  arith,
}
use fork_glitchtip_glitchtip.Partitions.Uuid7.{pos, uuid_of_ms}
use fork_glitchtip_glitchtip.Partitions.Uuid7.Window.{uuid_of_ms-within}
use fork_glitchtip_glitchtip.Partitions.Tables.{Partition, day_ms}
use fork_glitchtip_glitchtip.Partitions.Manager.{
  KeyType, uuid7, datetime, Outcome, done, create_partitions_for_date_range, drop_old_partitions,
}
use fork_glitchtip_glitchtip.Partitions.Manager.Creation.{point}
use fork_glitchtip_glitchtip.Partitions.Manager.Grid.{IsGrid, tables_for, point-le}
use fork_glitchtip_glitchtip.Partitions.Manager.DateRange.{create_partitions_for_date_range-covers}
use fork_glitchtip_glitchtip.Partitions.Manager.Retention.{drop_old_partitions-keeps}
use fork_glitchtip_glitchtip.Partitions.Maintenance.{
  Retention, DailyTable, WeeklyTable, daily_retention, weekly_retention, cleaned, weekday,
  maintain_daily, maintain_weekly,
}

-- the end of a maintenance: the grid is kept, and the rows from `first` to before `last` have one
-- table each
record IsMaintained (key_type : KeyType) (n width base first last : ℕ) (outcome : Outcome)
    : Type 0 where
  count : ℕ
  db : List Partition
  ended : outcome ≡ done count db
  grid : IsGrid key_type n width base db
  one_table :
      (key h : ℕ)
      → point key_type (first * day_ms) ≤ key
      → key < point key_type (last * day_ms)
      → tables_for key h db ≡ 1

cleaned-IsMaintained :
    (key_type : KeyType) (n width base first last today : ℕ) (retention : Option ℕ)
    (outcome : Outcome)
    → IsMaintained key_type n width base first last outcome
    → first ≡ today
    → IsMaintained key_type n width base first last (cleaned today width retention outcome)
cleaned-IsMaintained key_type n width base first last today none outcome made same_first = made
cleaned-IsMaintained key_type n width base first last today (some max_days) outcome made
      same_first =
    let (sum, young_left, grid, same) =
      drop_old_partitions-keeps key_type n width base today max_days made.db made.grid in
    let early : point key_type ((today - max_days) * day_ms) ≤ point key_type (first * day_ms) =
      point-le key_type ((today - max_days) * day_ms) (first * day_ms)
        (omega (arith, same_first)) in
    record {
      count = made.count;
      db = (drop_old_partitions today max_days width made.db).1;
      ended = ap (cleaned today width (some max_days)) made.ended;
      grid = grid;
      one_table = λ key h from to. same key h (omega arith) ∙ made.one_table key h from to;
    }

-- the days from `today` on, of a range of dates that begins earlier
from_today :
    (key_type : KeyType) (n width base first last today : ℕ) (outcome : Outcome)
    → first ≤ today
    → IsMaintained key_type n width base first last outcome
    → IsMaintained key_type n width base today last outcome
from_today key_type n width base first last today outcome le made = record {
  count = made.count;
  db = made.db;
  ended = made.ended;
  grid = made.grid;
  one_table = λ key h from to.
      made.one_table key h
        (omega (arith, from, point-le key_type (first * day_ms) (today * day_ms) (omega arith))) to;
}

created-IsMaintained :
    (fuel : ℕ) (key_type : KeyType) (n width base k rounds first last : ℕ) (db : List Partition)
    → 0 < n
    → 0 < width
    → rounds < fuel
    → first ≡ base + k * width
    → last ≡ base + (k + rounds) * width
    → last * day_ms < 2 ^ 48
    → IsGrid key_type n width base db
    → IsMaintained key_type n width base first last
        (create_partitions_for_date_range fuel key_type width n (first * day_ms) (last * day_ms) db)
created-IsMaintained fuel key_type n width base k rounds first last db positive wide enough from to
      small grid =
    rw (from, to)
      (let (count, after, ended, again, one) =
          create_partitions_for_date_range-covers fuel key_type n width base k rounds db positive
            wide enough (rw to at small) grid in
        record { count = count; db = after; ended = ended; grid = again; one_table = one })

-- For a table with at least one bucket and partitions that each stand for a day and have parts of
-- one modulus, any of them missing, and dates that fit in 48 bits: the maintenance ends without an
-- error, the partitions stand for days again, and every row whose identifier was made for a time
-- from today's start to a week later has exactly one table, whatever its random bits and its hash
-- are.
pub maintain_daily-upcoming :
    (settings : Retention) (now : ℕ) (table : DailyTable) (db : List Partition)
    → 0 < settings.hash_buckets
    → (now / day_ms + 7) * day_ms < 2 ^ 48
    → IsGrid uuid7 settings.hash_buckets 1 0 db
    → (count : ℕ) × (after : List Partition) × (maintain_daily settings now table db
        ≡ done count after)
      × IsGrid uuid7 settings.hash_buckets 1 0 after
      × ((random_a random_b ms uuid h : ℕ)
          → uuid_of_ms random_a random_b (pos ms) ≡ some uuid
          → now / day_ms * day_ms ≤ ms
          → ms < (now / day_ms + 7) * day_ms
          → tables_for uuid h after ≡ 1)
unfolding maintain_daily point
maintain_daily-upcoming settings now table db positive small grid =
    let today = now / day_ms in
    let n = settings.hash_buckets in
    let made =
      created-IsMaintained 8 uuid7 n 1 0 today 7 today (today + 7) db positive (omega arith)
        (omega arith) (omega arith) (omega arith) small grid in
    let same : (today + 7) * day_ms ≡ today * day_ms + 7 * day_ms = omega arith in
    let all =
      cleaned-IsMaintained uuid7 n 1 0 today (today + 7) today (daily_retention settings table) _
        made refl in
    (
      all.count,
      all.db,
      ap
            (λ e.
              cleaned today 1 (daily_retention settings table)
                (create_partitions_for_date_range 8 uuid7 1 n (today * day_ms) e db))
            (sym same)
          ∙ all.ended,
      all.grid,
      λ random_a random_b ms uuid h id from to.
          let (low, high) =
            uuid_of_ms-within random_a random_b ms (today * day_ms) ((today + 7) * day_ms) uuid
              (omega arith) (omega arith) small id from to in
          all.one_table uuid h low high,
    )

-- For a table with at least one bucket and partitions that each stand for a week from a Monday and
-- have parts of one modulus, any of them missing, and dates from 5 January 1970 on that fit in 48
-- bits: the maintenance ends without an error, the partitions stand for weeks again, and every row
-- from today's start to four weeks after the Monday of this week has exactly one table, whatever
-- its hash is.
pub maintain_weekly-upcoming :
    (settings : Retention) (now : ℕ) (table : WeeklyTable) (db : List Partition)
    → 0 < settings.hash_buckets
    → 4 ≤ now / day_ms
    → (now / day_ms + 28) * day_ms < 2 ^ 48
    → IsGrid datetime settings.hash_buckets 7 4 db
    → (count : ℕ) × (after : List Partition) × (maintain_weekly settings now table db
        ≡ done count after)
      × IsGrid datetime settings.hash_buckets 7 4 after
      × ((time h : ℕ)
          → now / day_ms * day_ms ≤ time
          → time < (now / day_ms - weekday (now / day_ms) + 28) * day_ms
          → tables_for time h after ≡ 1)
unfolding maintain_weekly weekday point
maintain_weekly-upcoming settings now table db positive late small grid =
    let today = now / day_ms in
    let n = settings.hash_buckets in
    let monday = today - (today + 3) % 7 in
    let k = (today - 4) / 7 in
    let start : monday ≡ 4 + k * 7 = omega arith in
    let made =
      created-IsMaintained 5 datetime n 7 4 k 4 monday (monday + 28) db positive (omega arith)
        (omega arith) start (omega (arith, start)) (omega arith) grid in
    let all =
      cleaned-IsMaintained datetime n 7 4 today (monday + 28) today
        (some (weekly_retention settings table)) _
        (from_today datetime n 7 4 monday (monday + 28) today _ (omega arith) made) refl in
    let from : monday * day_ms ≡ today * day_ms - (today + 3) % 7 * day_ms = omega arith in
    let to : (monday + 28) * day_ms ≡ today * day_ms - (today + 3) % 7 * day_ms + 28 * day_ms =
      omega arith in
    (
      all.count,
      all.db,
      ap₂ {C = Outcome}
            (λ s e.
              cleaned today 7 (some (weekly_retention settings table))
                (create_partitions_for_date_range 5 datetime 7 n s e db))
            (sym from) (sym to)
          ∙ all.ended,
      all.grid,
      all.one_table,
    )
