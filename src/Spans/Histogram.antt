-- ===== src/Spans/Histogram.antt =====
-- apps/performance/histogram.py: the duration histogram. Durations and the 51 boundaries are
-- multiples of a unit in which all the floats are whole.
pub mod Totals
use fork_glitchtip_glitchtip.Common.{
  ℕ, zero, suc, ◌+◌, ◌-◌, ◌*◌, ◌/◌, Bool, true, false, Option, none, some, List, [], ◌∷◌, leb, ltb,
  ◌==◌, if◌then◌else◌, min, max, ◌>>=◌,
}

abbrev pub num_buckets : ℕ
num_buckets = 50

-- `bisect.bisect_right` on a sorted list
pub bisect_right : List ℕ → ℕ → ℕ
bisect_right [] x = 0
bisect_right (b ∷ bs) x = let rest = bisect_right bs x in if leb b x then suc rest else 0

pub get_bucket_index : List ℕ → ℕ → ℕ → ℕ → ℕ
get_bucket_index boundaries min_ms max_ms duration =
    if leb duration min_ms
    then 0
    else if leb max_ms duration
    then num_buckets - 1
    else max 0 (min (bisect_right boundaries duration - 1) (num_buckets - 1))

-- `histogram[i] += 1`; none is an IndexError
pub increment : ℕ → List ℕ → Option (List ℕ)
increment i [] = none
increment zero (n ∷ ns) = some (suc n ∷ ns)
increment (suc i) (n ∷ ns) = do rest ← increment i ns; some (n ∷ rest)

pub merge_durations : (ℕ → ℕ) → List ℕ → List ℕ → Option (List ℕ)
merge_durations index histogram [] = some histogram
merge_durations index histogram (d ∷ ds) = do
  next ← increment (index d) histogram
  merge_durations index next ds

-- `math.ceil(total_count * pct / 100.0)`, for a whole percentage
pub target_count : ℕ → ℕ → ℕ
target_count total pct = (total * pct + 99) / 100

-- the loop over the buckets, from number `i`: the bucket of the percentile
pub bucket_loop : ℕ → ℕ → ℕ → List ℕ → Option ℕ
bucket_loop target i cumulative [] = none
bucket_loop target i cumulative (count ∷ counts) =
    let rest = bucket_loop target (suc i) cumulative counts in
    let rest' = bucket_loop target (suc i) (cumulative + count) counts in
    if count == 0 then rest else if leb target (cumulative + count) then some i else rest'

-- `percentile_from_histogram`, before the midpoint of the bucket is taken
pub percentile_bucket : List ℕ → ℕ → ℕ → Option ℕ
percentile_bucket [] total pct = none
percentile_bucket (n ∷ ns) total pct =
    if total == 0 then none else bucket_loop (target_count total pct) 0 0 (n ∷ ns)
