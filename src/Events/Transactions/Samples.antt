-- ===== src/Events/Transactions/Samples.antt =====
-- Sample transactions.
use fork_glitchtip_glitchtip.Common.{
  ℕ, zero, suc, ◌≡◌, Option, none, some, List, [], ◌∷◌, ◌==◌, if◌then◌else◌, refl, arith, inl, inr,
  Bool-cases,
}
use fork_glitchtip_glitchtip.Spans.Histogram.{get_bucket_index}
use fork_glitchtip_glitchtip.Events.Transactions.{
  Group, Stamp, aware, GroupedEvent, Batch, update_group_stats,
}
use fork_glitchtip_glitchtip.Events.Transactions.Collected.{IsSound, group_events, group_errors}
use fork_glitchtip_glitchtip.Events.Transactions.Groups.{
  IsReady, IsAfter, update_group_stats-counts,
}
use fork_glitchtip_glitchtip.Events.Transactions.Mean.{IsMean}

abbrev zeros : ℕ → List ℕ
zeros zero = []
zeros (suc n) = 0 ∷ zeros n

-- two transactions of 30 units, one of which failed
abbrev checkout : Group
checkout = record {
  organization_id = 7;
  count = 2;
  error_count = 1;
  avg_numerator = 30;
  avg_denominator = 1;
  duration_histogram = 0 ∷ 2 ∷ zeros 48;
}

checkout-IsSound : IsSound checkout
checkout-IsSound = record { buckets = refl; all_counted = refl; few_errors = omega arith }

abbrev request : ℕ → Option Stamp → GroupedEvent
request start stop = record {
  group_id = 3;
  group_org = 7;
  start_timestamp = some start;
  timestamp = stop;
  trace_status = some "unavailable";
}

abbrev requests : List GroupedEvent
requests = request 100 (some (aware 140)) ∷ request 100 none ∷ []

abbrev groups : ℕ → Option Group
groups i = if i == 3 then some checkout else none

groups-IsReady : IsReady (λ i. 7) (λ i. group_events i requests) groups
unfolding group_events
groups-IsReady i g at = elim (Bool-cases (i == 3)) [
  | inl here ↦
      let same : checkout ≡ g = cc (rw here at at) in
      rw (← same) (checkout-IsSound, refl, ground arith)
  | inr away ↦ cc (rw away at at)
]

update_group_stats-counts_example :
    (table' : ℕ → Option Group) × (update_group_stats
        (get_bucket_index (1 ∷ 10 ∷ 100 ∷ []) 1 100)
        requests
        groups
      ≡ some table')
    × ((i : ℕ) (g : Group)
        → groups i ≡ some g
        → IsAfter (λ i. 7) i (group_events i requests) (group_errors i requests) g (table' i))
update_group_stats-counts_example =
    update_group_stats-counts (1 ∷ 10 ∷ 100 ∷ []) 1 100 (λ i. 7) requests groups (refl, (refl, tt))
      (tt, (tt, tt)) groups-IsReady

abbrev quick : Batch
quick = record { org_id = 7; durations = 10 ∷ 20 ∷ []; errors = 0 }

checkout-IsMean : IsMean checkout 60
checkout-IsMean = record { positive = omega arith; mean = refl }
