-- ===== src/Events/Transactions.antt =====
-- apps/event_ingest/process_event.py: the statistics of transaction groups
-- (`_update_transaction_group_stats`, and the loop of `process_transaction_events` that collects the
-- durations and errors of a batch). Times are whole in a unit in which durations are, as in the
-- histogram; an average is a fraction. The rows of the UPDATE are applied one after the other, in the order
-- of the dictionary. A start is aware of its time zone, as the schema makes it; an end need not be.
-- Spans and the hourly counts of projects are not part of it.
pub mod Collected
pub mod Groups
pub mod Mean
mod Samples
use Prim.Native.String.{String}
use fork_glitchtip_glitchtip.Common.{
  ℕ, zero, suc, ◌+◌, ◌-◌, ◌*◌, ◌^◌, Bool, true, false, ◌&&◌, Option, none, some, List, [], ◌∷◌,
  ◌++◌, any, length, ltb, ◌==◌, if◌then◌else◌, ◌>>=◌,
}
use fork_glitchtip_glitchtip.Events.Tags.{same_tag_text}
use fork_glitchtip_glitchtip.Spans.Histogram.{num_buckets, merge_durations, percentile_bucket}
use fork_glitchtip_glitchtip.Spans.Histogram.Totals.{total}

-- `_is_error_status`
abbrev pub error_statuses : List String
error_statuses =
    "internal_error" ∷ "unavailable" ∷ "deadline_exceeded" ∷ "unimplemented" ∷ "permission_denied"
    ∷ "unauthenticated" ∷ "resource_exhausted" ∷ "data_loss" ∷ "aborted" ∷ "failed_precondition"
    ∷ "out_of_range" ∷ "unknown" ∷ []

pub is_error_status : Option String → Bool
is_error_status none = false
is_error_status (some status) = any (same_tag_text status) error_statuses

-- a row of TransactionGroup
pub record Group : Type 0 where
  pub organization_id : ℕ
  pub count : ℕ
  pub error_count : ℕ
  pub avg_numerator : ℕ
  pub avg_denominator : ℕ
  pub duration_histogram : List ℕ

-- a datetime, aware of its time zone or naive
pub data Stamp : Type 0 where
  aware naive : ℕ → Stamp

-- an event of `event_data`, whose group was found
pub record GroupedEvent : Type 0 where
  pub group_id : ℕ
  pub group_org : ℕ
  pub start_timestamp : Option ℕ
  pub timestamp : Option Stamp
  pub trace_status : Option String

-- the entries of `group_durations`, `group_error_counts` and `group_org_ids` for a group
pub record Batch : Type 0 where
  pub org_id : ℕ
  pub durations : List ℕ
  pub errors : ℕ

-- `max(0.0, ...)` of the difference; a naive time minus an aware one is a TypeError, none
pub duration_of : Option ℕ → Option Stamp → Option ℕ
duration_of none stop = some 0
duration_of (some start) none = some 0
duration_of (some start) (some (aware stop)) = some (stop - start)
duration_of (some start) (some (naive stop)) = none

abbrev pub error_of : GroupedEvent → ℕ
error_of e = if is_error_status e.trace_status then 1 else 0

pub add_event : GroupedEvent → ℕ → List (ℕ × Batch) → List (ℕ × Batch)
add_event e d [] =
    (e.group_id, record { org_id = e.group_org; durations = d ∷ []; errors = error_of e }) ∷ []
add_event e d ((i, b) ∷ batches) =
    let rest = add_event e d batches in
    if i == e.group_id
    then (
      i,
      record {
        org_id = e.group_org;
        durations = b.durations ++ d ∷ [];
        errors = b.errors + error_of e;
      },
    )
      ∷ batches
    else (i, b) ∷ rest

pub collect : List GroupedEvent → List (ℕ × Batch) → Option (List (ℕ × Batch))
collect [] batches = some batches
collect (e ∷ events) batches = elim (duration_of e.start_timestamp e.timestamp) [
  | none ↦ none
  | some d ↦ collect events (add_event e d batches)
]

-- `unnest` of both arrays, with COALESCE
pub zip_add : List ℕ → List ℕ → List ℕ
zip_add [] bs = bs
zip_add (a ∷ old) [] = a ∷ old
zip_add (a ∷ old) (b ∷ bs) = (a + b) ∷ zip_add old bs

pub zeros : ℕ → List ℕ
zeros zero = []
zeros (suc n) = 0 ∷ zeros n

-- `new_histogram`
abbrev pub new_histogram : List ℕ
new_histogram = zeros num_buckets

-- the average after a batch; the CASE leaves 0 where there is nothing to average
abbrev pub new_average : Group → Batch → ℕ × ℕ
new_average g b =
    if ltb 0 (g.count + length b.durations)
    then (
      g.avg_numerator * g.count + total b.durations * g.avg_denominator,
      g.avg_denominator * (g.count + length b.durations),
    )
    else (0, 1)

abbrev pub updated : Group → Batch → List ℕ → Group
updated g b increments = record g {
  count = g.count + length b.durations;
  error_count = g.error_count + b.errors;
  avg_numerator = (new_average g b).0;
  avg_denominator = (new_average g b).1;
  duration_histogram = zip_add g.duration_histogram increments;
}

-- the row of a group in `values_data`, and its UPDATE
pub update_found : ℕ → Batch → List ℕ → ℕ → Option Group → Option Group
update_found i b increments j none = none
update_found i b increments j (some g) =
    if (j == i) && (g.organization_id == b.org_id) then some (updated g b increments) else some g

pub update_row : ℕ → Batch → List ℕ → (ℕ → Option Group) → ℕ → Option Group
update_row i b increments table j = update_found i b increments j (table j)

-- the buckets are of an integer[]
pub all_small : List ℕ → Bool
all_small [] = true
all_small (n ∷ ns) = ltb n (2 ^ 31) && all_small ns

abbrev pub row_fits : Option Group → Bool
row_fits none = true
row_fits (some g) = all_small g.duration_histogram

module _ (index : ℕ → ℕ) where
  -- none is an IndexError of the histogram, or a bucket out of range in the UPDATE
  pub update_groups : List (ℕ × Batch) → (ℕ → Option Group) → Option (ℕ → Option Group)
  update_groups [] table = some table
  update_groups ((i, b) ∷ batches) table = do
    increments ← merge_durations index new_histogram b.durations
    next ←
        (if row_fits (update_row i b increments table i)
          then some (update_row i b increments table)
          else none)
    update_groups batches next

  -- the loop over the events of a batch, and phase 1 of `_update_transaction_group_stats`
  pub update_group_stats : List GroupedEvent → (ℕ → Option Group) → Option (ℕ → Option Group)
  update_group_stats events table = do batches ← collect events []; update_groups batches table

-- phase 2: the percentile of a row, as the number of its bucket
pub group_percentile : ℕ → Group → Option ℕ
group_percentile pct g = percentile_bucket g.duration_histogram g.count pct
