-- ===== src/Partitions/Maintenance.antt =====
-- glitchtip/management/commands/maintain_partitions.py: the creation of the coming partitions of a
-- table and the cleanup of the old ones. A day is its number from the epoch, a Thursday.
pub mod Upcoming
use fork_glitchtip_glitchtip.Common.{
  ℕ, zero, suc, ◌+◌, ◌-◌, ◌*◌, ◌/◌, ◌%◌, Bool, true, false, Option, none, some, List, [], ◌∷◌,
  if◌then◌else◌,
}
use fork_glitchtip_glitchtip.Partitions.Tables.{Partition, day_ms}
use fork_glitchtip_glitchtip.Partitions.Manager.{
  KeyType, uuid7, datetime, Outcome, done, failed, out_of_fuel, create_partitions_for_date_range,
  drop_old_partitions,
}

-- the settings that the command reads
pub record Retention : Type 0 where
  pub event_days : ℕ
  pub transaction_days : ℕ
  pub log_days : ℕ
  pub uptime_days : ℕ
  pub hash_buckets : ℕ
  pub duckdb : Bool

pub data DailyTable : Type 0 where
  issue_event : DailyTable
  monitor_check : DailyTable
  log_event : DailyTable
  span_staging : DailyTable

pub data WeeklyTable : Type 0 where
  issue_aggregate : WeeklyTable
  issue_tag : WeeklyTable
  issue_statistic : WeeklyTable
  transaction_statistic : WeeklyTable
  log_statistic : WeeklyTable
  uptime_statistic : WeeklyTable

-- the cleanup of a daily table, none where it is left to the cold storage
pub daily_retention : Retention → DailyTable → Option ℕ
daily_retention settings issue_event = if settings.duckdb then none else some settings.event_days
daily_retention settings monitor_check = some settings.uptime_days
daily_retention settings log_event = none
daily_retention settings span_staging = some 3

-- `weekly_models`
pub weekly_retention : Retention → WeeklyTable → ℕ
weekly_retention settings issue_aggregate = settings.event_days
weekly_retention settings issue_tag = settings.event_days
weekly_retention settings issue_statistic = settings.event_days
weekly_retention settings transaction_statistic = settings.transaction_days
weekly_retention settings log_statistic = settings.log_days
weekly_retention settings uptime_statistic = settings.uptime_days

abbrev pub cleaned : ℕ → ℕ → Option ℕ → Outcome → Outcome
cleaned today interval none outcome = outcome
cleaned today interval (some max_days) (done count db) =
    done count (drop_old_partitions today max_days interval db).1
cleaned today interval (some max_days) (failed db) = failed db
cleaned today interval (some max_days) out_of_fuel = out_of_fuel

-- `weekday()` of a day, 0 for a Monday
pub weekday : ℕ → ℕ
weekday day = (day + 3) % 7

-- a round of the first loop, for a table that is partitioned; seven days need eight rounds of the
-- loop over the dates
pub maintain_daily : Retention → ℕ → DailyTable → List Partition → Outcome
maintain_daily settings now table db =
    let today = now / day_ms in
    cleaned today 1 (daily_retention settings table) (
      create_partitions_for_date_range 8 uuid7 1 settings.hash_buckets (today * day_ms)
        (today * day_ms + 7 * day_ms) db)

-- a round of the second loop; four weeks need five rounds of the loop over the dates
pub maintain_weekly : Retention → ℕ → WeeklyTable → List Partition → Outcome
maintain_weekly settings now table db =
    let today = now / day_ms in
    let start_of_week = today * day_ms - weekday today * day_ms in
    cleaned today 7 (some (weekly_retention settings table)) (
      create_partitions_for_date_range 5 datetime 7 settings.hash_buckets start_of_week
        (start_of_week + 28 * day_ms) db)
