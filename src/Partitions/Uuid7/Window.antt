-- ===== src/Partitions/Uuid7/Window.antt =====
-- Times in identifiers, and the identifiers of a range of times.
use fork_glitchtip_glitchtip.Common.{
  ℕ, ◌/◌, ◌%◌, ◌^◌, ◌<◌, ◌≤◌, ◌≡◌, ◌↔◌, true, Option, some, refl, sym, ◌∙◌, arith, lt→ltb, ==_iff,
}
use fork_glitchtip_glitchtip.Partitions.Uuid7.{
  ℤ, pos, uuid_of, pack, uuid_of_ms, from_datetime, get_range_for_date, version, extract_datetime,
  clamp_ms, uuid7_for_timestamp, range_of_ms,
}

pack_fits : (ms a b : ℕ) → ms < 2 ^ 48 → a < 2 ^ 12 → b < 2 ^ 62 → pack ms a b < 2 ^ 128
unfolding pack
pack_fits ms a b p q r = omega arith

pack_parts :
    (ms a b : ℕ)
    → a < 2 ^ 12
    → b < 2 ^ 62
    → (pack ms a b / 2 ^ 80 ≡ ms) × (pack ms a b / 2 ^ 76 % 16 ≡ 7) × (pack ms a b / 2 ^ 62 % 4 ≡ 2)
unfolding pack
pack_parts ms a b q r = (omega arith, omega arith, omega arith)

extract-pack : (ms a b : ℕ) → a < 2 ^ 12 → b < 2 ^ 62 → extract_datetime (pack ms a b) ≡ some ms
unfolding extract_datetime version
extract-pack ms a b q r =
    let (time, seven, two) = pack_parts ms a b q r in
    rw ((==_iff (pack ms a b / 2 ^ 62 % 4) 2).1 two, seven, time) refl

uuid_of_small : (n : ℕ) → n < 2 ^ 128 → uuid_of n ≡ some n
unfolding uuid_of
uuid_of_small n small = rw (lt→ltb n (2 ^ 128) small) refl

-- A time from the epoch on whose milliseconds fit in 48 bits has an identifier of 128 bits,
-- whatever the random bits are, and the time read from it is that time.
pub extract_datetime-uuid_of_ms :
    (random_a random_b ms : ℕ)
    → ms < 2 ^ 48
    → (uuid : ℕ) × (uuid_of_ms random_a random_b (pos ms) ≡ some uuid)
      × (uuid < 2 ^ 128)
      × (extract_datetime uuid ≡ some ms)
unfolding uuid_of_ms
extract_datetime-uuid_of_ms random_a random_b ms small =
    let a = random_a % 2 ^ 12 in
    let b = random_b % 2 ^ 62 in
    let fits = pack_fits ms a b small (omega arith) (omega arith) in
    (
      pack ms a b,
      uuid_of_small (pack ms a b) fits,
      fits,
      extract-pack ms a b (omega arith) (omega arith),
    )

-- the first identifier of a time, behind the ones of every earlier time
first_of_time :
    (ms start a b : ℕ) → a < 2 ^ 12 → b < 2 ^ 62 → (pack start 0 0 ≤ pack ms a b) ↔ (start ≤ ms)
unfolding pack
first_of_time ms start a b q r = (λ p. omega arith, λ p. omega arith)

before_time : (ms end a b : ℕ) → a < 2 ^ 12 → b < 2 ^ 62 → (pack ms a b < pack end 0 0) ↔ (ms < end)
unfolding pack
before_time ms end a b q r = (λ p. omega arith, λ p. omega arith)

clamp_small : (ms : ℕ) → ms < 2 ^ 48 → clamp_ms (pos ms) ≡ ms
unfolding clamp_ms
clamp_small ms small = omega arith

bound_of_time : (ms : ℕ) → ms < 2 ^ 48 → uuid7_for_timestamp (pos ms) true ≡ some (pack ms 0 0)
unfolding uuid7_for_timestamp
bound_of_time ms small =
    rw (clamp_small ms small)
      (uuid_of_small (pack ms 0 0) (pack_fits ms 0 0 small (omega arith) (omega arith)))

range_of_ms-uuid_of_ms :
    (random_a random_b ms start end : ℕ)
    → ms < 2 ^ 48
    → start < 2 ^ 48
    → end < 2 ^ 48
    → (uuid : ℕ) × (low : ℕ) × (high : ℕ) × (uuid_of_ms random_a random_b (pos ms) ≡ some uuid)
      × (range_of_ms (pos start) (pos end) ≡ some (low, high))
      × (((low ≤ uuid) × (uuid < high)) ↔ ((start ≤ ms) × (ms < end)))
unfolding uuid_of_ms range_of_ms
range_of_ms-uuid_of_ms random_a random_b ms start end small small_start small_end =
    let a = random_a % 2 ^ 12 in
    let b = random_b % 2 ^ 62 in
    let la : a < 2 ^ 12 = omega arith in
    let lb : b < 2 ^ 62 = omega arith in
    let from = first_of_time ms start a b la lb in
    let to = before_time ms end a b la lb in
    (
      pack ms a b,
      pack start 0 0,
      pack end 0 0,
      uuid_of_small (pack ms a b) (pack_fits ms a b small la lb),
      rw (bound_of_time start small_start, bound_of_time end small_end) refl,
      ((λ (p, q). (from.0 p, to.0 q)), (λ (p, q). (from.1 p, to.1 q))),
    )

-- For datetimes whose milliseconds, as Python's floating point makes them of their microseconds, are
-- numbers from 0 on that fit in 48 bits: the identifier made for a datetime, with any random bits,
-- lies in the range of identifiers of two datetimes exactly when its milliseconds are at least those
-- of the start and below those of the end.
pub get_range_for_date-from_datetime :
    (timestamp_ms : ℕ → ℤ) (random_a random_b dt start_date end_date ms start end : ℕ)
    → timestamp_ms dt ≡ pos ms
    → timestamp_ms start_date ≡ pos start
    → timestamp_ms end_date ≡ pos end
    → ms < 2 ^ 48
    → start < 2 ^ 48
    → end < 2 ^ 48
    → (uuid : ℕ) × (low : ℕ) × (high : ℕ) × (from_datetime timestamp_ms random_a random_b dt
        ≡ some uuid)
      × (get_range_for_date timestamp_ms start_date end_date ≡ some (low, high))
      × (((low ≤ uuid) × (uuid < high)) ↔ ((start ≤ ms) × (ms < end)))
unfolding from_datetime get_range_for_date
get_range_for_date-from_datetime timestamp_ms random_a random_b dt start_date end_date ms start end
      at at_start at_end small small_start small_end =
    rw (at, at_start, at_end)
      (range_of_ms-uuid_of_ms random_a random_b ms start end small small_start small_end)

-- where the range of a time begins
unfoldable pub first_uuid : ℕ → ℕ
first_uuid ms = pack ms 0 0

pub get_range_small :
    (start end : ℕ)
    → start < 2 ^ 48
    → end < 2 ^ 48
    → range_of_ms (pos start) (pos end) ≡ some (first_uuid start, first_uuid end)
unfolding range_of_ms first_uuid
get_range_small start end p q = rw (bound_of_time start p, bound_of_time end q) refl

pub first_uuid-lt : (a b : ℕ) → a < b → first_uuid a < first_uuid b
unfolding first_uuid pack
first_uuid-lt a b p = omega arith

same_pair_of :
    (a b c d : ℕ) → ◌≡◌ {A = Option (ℕ × ℕ)} (some (a, b)) (some (c, d)) → (a ≡ c) × (b ≡ d)
same_pair_of a b c d e = (cc, cc)

pub uuid_of_ms-within :
    (random_a random_b ms start end uuid : ℕ)
    → ms < 2 ^ 48
    → start < 2 ^ 48
    → end < 2 ^ 48
    → uuid_of_ms random_a random_b (pos ms) ≡ some uuid
    → start ≤ ms
    → ms < end
    → (first_uuid start ≤ uuid) × (uuid < first_uuid end)
uuid_of_ms-within random_a random_b ms start end uuid small small_start small_end id from to =
    let (made, low, high, is, range, within) =
      range_of_ms-uuid_of_ms random_a random_b ms start end small small_start small_end in
    let (above, below) = within.1 (from, to) in
    let same : made ≡ uuid = cc in
    let (same_low, same_high) =
      same_pair_of low high (first_uuid start) (first_uuid end)
        (sym range ∙ get_range_small start end small_start small_end) in
    (rw (same_low, same) at above, rw (same_high, same) at below)
