-- ===== src/Partitions/Uuid7.antt =====
-- glitchtip/partition_manager.py, `UUID7Helper`. A datetime is a whole number of microseconds from
-- the epoch; its milliseconds, `int(dt.timestamp() * 1000)` in floating point, are an argument. A UUID
-- is the number of its 128 bits. Each part is shifted behind the ones before it, so that
-- `|` of the parts is their sum.
pub mod Window
use fork_glitchtip_glitchtip.Common.{
  ℕ, zero, suc, ◌+◌, ◌-◌, ◌*◌, ◌/◌, ◌%◌, ◌^◌, Bool, true, false, ◌&&◌, Option, none, some, ltb,
  ◌==◌, if◌then◌else◌, min,
}

pub data ℤ : Type 0 where
  pos : ℕ → ℤ
  negsuc : ℕ → ℤ

-- `UUID(int=...)`, which raises ValueError for more than 128 bits
pub uuid_of : ℕ → Option ℕ
uuid_of n = if ltb n (2 ^ 128) then some n else none

-- `(timestamp_ms << 80) | (0x7 << 76) | (rand_a << 64) | (0x2 << 62) | rand_b`
pub pack : ℕ → ℕ → ℕ → ℕ
pack ms rand_a rand_b = ms * 2 ^ 80 + 7 * 2 ^ 76 + rand_a * 2 ^ 64 + 2 * 2 ^ 62 + rand_b

-- `from_datetime` behind its `timestamp_ms`, with the two numbers that `os.urandom` gives; a time
-- before the epoch makes the number negative, which UUID refuses too
pub uuid_of_ms : ℕ → ℕ → ℤ → Option ℕ
uuid_of_ms random_a random_b (negsuc n) = none
uuid_of_ms random_a random_b (pos ms) = uuid_of (pack ms (random_a % 2 ^ 12) (random_b % 2 ^ 62))

pub from_datetime : (ℕ → ℤ) → ℕ → ℕ → ℕ → Option ℕ
from_datetime timestamp_ms random_a random_b dt = uuid_of_ms random_a random_b (timestamp_ms dt)

-- `UUID.variant` is RFC_4122, and then `UUID.version`
pub version : ℕ → Option ℕ
version uuid = if uuid / 2 ^ 62 % 4 == 2 then some (uuid / 2 ^ 76 % 16) else none

abbrev pub is_seven : Option ℕ → Bool
is_seven none = false
is_seven (some v) = v == 7

-- `extract_datetime`: the first 48 of the 128 bits; none is the ValueError
pub extract_datetime : ℕ → Option ℕ
extract_datetime uuid = if is_seven (version uuid) then some (uuid / 2 ^ 80) else none

-- `max(0, min(..., (1 << 48) - 1))`
pub clamp_ms : ℤ → ℕ
clamp_ms (negsuc n) = 0
clamp_ms (pos ms) = min ms (2 ^ 48 - 1)

-- `_uuid7_for_timestamp`, at the milliseconds of its time
pub uuid7_for_timestamp : ℤ → Bool → Option ℕ
uuid7_for_timestamp time true = uuid_of (pack (clamp_ms time) 0 0)
uuid7_for_timestamp time false = uuid_of (pack (clamp_ms time) 0x0fff 0x3fffffffffffffff)

abbrev pub both_uuids : Option ℕ → Option ℕ → Option (ℕ × ℕ)
both_uuids none b = none
both_uuids (some a) none = none
both_uuids (some a) (some b) = some (a, b)

-- `get_range_for_date`, at the milliseconds of its times
pub range_of_ms : ℤ → ℤ → Option (ℕ × ℕ)
range_of_ms start_ms end_ms =
    both_uuids (uuid7_for_timestamp start_ms true) (uuid7_for_timestamp end_ms true)

pub get_range_for_date : (ℕ → ℤ) → ℕ → ℕ → Option (ℕ × ℕ)
get_range_for_date timestamp_ms start_date end_date =
    range_of_ms (timestamp_ms start_date) (timestamp_ms end_date)
