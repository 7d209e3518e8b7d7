-- ===== src/Events/Transactions/Groups.antt =====
-- What a batch of transactions adds to the statistics of their groups.
use fork_glitchtip_glitchtip.Common.{
  ℕ, suc, ◌+◌, ◌*◌, ◌^◌, ◌≡◌, ◌≤◌, ◌<◌, inl, inr, true, false, none, All, Option, some, List, [],
  ◌∷◌, length, ◌==◌, if◌then◌else◌, refl, sym, ap, ◌∙◌, arith, Bool-cases, Option-cases, ==_iff,
}
use fork_glitchtip_glitchtip.Spans.Histogram.{num_buckets, get_bucket_index, percentile_bucket}
use fork_glitchtip_glitchtip.Spans.Histogram.Totals.{
  total, below, merge_durations-total, percentile_bucket_found,
}
use fork_glitchtip_glitchtip.Events.Transactions.{
  Group, GroupedEvent, Batch, row_fits, new_histogram, updated, update_found, update_row,
  update_groups, update_group_stats, group_percentile,
}
use fork_glitchtip_glitchtip.Events.Transactions.Collected.{
  IsTimed, sound_fits, IsSound, group_events, group_errors, batch_events, batch_errors,
  length-zeros, total-zeros, FewErrors, HomeBatches, HomeGroups, collect-IsCollected,
  updated-IsSound,
}

-- A group after the updates, from the group before and what is added.
abbrev pub IsAfter : (ℕ → ℕ) → ℕ → ℕ → ℕ → Group → Option Group → Type 0
IsAfter org i events errors g row =
    (g' : Group) × (row ≡ some g')
    × IsSound g'
    × (g'.organization_id ≡ org i)
    × (g'.count ≡ g.count + events)
    × (g'.error_count ≡ g.error_count + errors)

update_row-IsAfter :
    (org : ℕ → ℕ) (j : ℕ) (b : Batch) (increments : List ℕ) (table : ℕ → Option Group) (i : ℕ)
    (g : Group)
    → table i ≡ some g
    → IsSound g
    → g.organization_id ≡ org i
    → b.org_id ≡ org j
    → b.errors ≤ length b.durations
    → length increments ≡ num_buckets
    → total increments ≡ length b.durations
    → IsAfter org i
        (if j == i then length b.durations else 0)
        (if j == i then b.errors else 0)
        g
        (update_row j b increments table i)
unfolding update_row update_found
update_row-IsAfter org j b increments table i g at s here mine few len sum =
    elim (Bool-cases (i == j)) [
      | inl same ↦
          let e = (==_iff i j).0 same in
          let orgs = (==_iff g.organization_id b.org_id).1 (here ∙ ap org e ∙ sym mine) in
          let back = (==_iff j i).1 (sym e) in
          rw (at, same, orgs, back)
            (
              updated g b increments,
              refl,
              updated-IsSound g b increments s few len sum,
              here,
              refl,
              refl,
            )
      | inr other ↦
          let back : (j == i) ≡ false = ground arith in
          rw (at, other, back) (g, refl, s, here, omega arith, omega arith)
    ]

-- Every group is sound, of its organization, and has room for some more transactions.
abbrev pub IsReady : (ℕ → ℕ) → (ℕ → ℕ) → (ℕ → Option Group) → Type 0
IsReady org more table =
    (i : ℕ) (g : Group)
    → table i ≡ some g
    → IsSound g × (g.organization_id ≡ org i) × (g.count + more i < 2 ^ 31)

module _ (org : ℕ → ℕ) (j : ℕ) (b : Batch) (increments : List ℕ) (table : ℕ → Option Group)
    (mine : b.org_id ≡ org j) (few : b.errors ≤ length b.durations)
    (len : length increments ≡ num_buckets) (sum : total increments ≡ length b.durations)
    (more : ℕ → ℕ)
    (ready : IsReady org (λ i. (if j == i then length b.durations else 0) + more i) table) where
  update_row-IsReady : IsReady org more (update_row j b increments table)
  update_row-IsReady i g1 at1 = elim (Option-cases (table i)) [
    | inl missing ↦
        let gone : update_row j b increments table i ≡ none =
          unfold update_row update_found in rw missing refl in
        cc
    | inr (g, at) ↦
        let (s, here, room) = ready i g at in
        let (g', at', s', here', count, errors) =
          update_row-IsAfter org j b increments table i g at s here mine few len sum in
        let same : g' ≡ g1 = cc in rw (← same) (s', here', omega (arith, count, room))
  ]

  update_row-fits : row_fits (update_row j b increments table j) ≡ true
  update_row-fits = elim (Option-cases (update_row j b increments table j)) [
    | inl missing ↦ rw missing refl
    | inr (g, at) ↦
        let (s, here, room) = update_row-IsReady j g at in
        rw at (sound_fits g s (omega (arith, room)))
  ]

update_groups-IsAfter :
    (boundaries : List ℕ) (lo hi : ℕ) (org : ℕ → ℕ) (batches : List (ℕ × Batch))
    (table : ℕ → Option Group)
    → HomeBatches org batches
    → FewErrors batches
    → IsReady org (λ i. batch_events i batches) table
    → (table' : ℕ → Option Group) × (update_groups (get_bucket_index boundaries lo hi) batches table
        ≡ some table')
      × ((i : ℕ) (g : Group)
          → table i ≡ some g
          → IsAfter org i (batch_events i batches) (batch_errors i batches) g (table' i))
unfolding update_groups batch_events batch_errors
update_groups-IsAfter boundaries lo hi org [] table home few ready = (
  table,
  refl,
  λ i g at. let (s, here, room) = ready i g at in (g, at, s, here, omega arith, omega arith),
)
update_groups-IsAfter boundaries lo hi org ((j, b) ∷ batches) table (mine, home) (some_fail, few)
      ready =
    let (increments, merged, len, sum) =
      merge_durations-total boundaries lo hi new_histogram b.durations (length-zeros num_buckets) in
    let counted : total increments ≡ length b.durations =
      omega (arith, sum, total-zeros num_buckets) in
    let more = λ (i : ℕ). batch_events i batches in
    let next_ready =
      update_row-IsReady org j b increments table mine some_fail len counted more ready in
    let fits = update_row-fits org j b increments table mine some_fail len counted more ready in
    let (table', done, after) =
      update_groups-IsAfter boundaries lo hi org batches (update_row j b increments table) home few
        next_ready in
    (
      table',
      rw (merged, fits) done,
      λ i g at.
          let (s, here, room) = ready i g at in
          let (g1, at1, s1, here1, count1, errors1) =
            update_row-IsAfter org j b increments table i g at s here mine some_fail len counted in
          let (g2, at2, s2, here2, count2, errors2) = after i g1 at1 in
          (g2, at2, s2, here2, omega (arith, count1, count2), omega (arith, errors1, errors2)),
    )

-- Where each event of a batch has the organization of its group and no naive end beside a start, and
-- every group of the table has a histogram of all buckets which counts each of its transactions once,
-- no more errors than transactions, its organization, and fewer than 2 ^ 31 transactions with those of
-- the batch: the update of the groups does not fail, and every group keeps its histogram so, has its
-- count raised by the events of the group in the batch, and its errors by those of them whose status
-- is an error.
pub update_group_stats-counts :
    (boundaries : List ℕ) (lo hi : ℕ) (org : ℕ → ℕ) (events : List GroupedEvent)
    (table : ℕ → Option Group)
    → HomeGroups org events
    → All (λ e. IsTimed e.start_timestamp e.timestamp) events
    → IsReady org (λ i. group_events i events) table
    → (table' : ℕ → Option Group) × (update_group_stats
          (get_bucket_index boundaries lo hi)
          events
          table
        ≡ some table')
      × ((i : ℕ) (g : Group)
          → table i ≡ some g
          → IsAfter org i (group_events i events) (group_errors i events) g (table' i))
unfolding update_group_stats batch_events batch_errors
update_group_stats-counts boundaries lo hi org events table mine timed ready =
    let (batches, run, c) = collect-IsCollected org events [] timed mine tt tt in
    let batch_ready : IsReady org (λ i. batch_events i batches) table = λ i g at.
      let (s, here, room) = ready i g at in (s, here, omega (arith, room, c.all_events i)) in
    let (table', done, after) =
      update_groups-IsAfter boundaries lo hi org batches table c.home c.few batch_ready in
    (
      table',
      rw run done,
      λ i g at.
          let (g', at', s', here', count, errors) = after i g at in
          (
            g',
            at',
            s',
            here',
            omega (arith, count, c.all_events i),
            omega (arith, errors, c.all_errors i),
          ),
    )

-- For a group with a sound row that has transactions, the percentile is a bucket: fewer than the percentage of
-- the transactions are in the buckets before it, and at least the percentage in those up to it.
pub group_percentile_found :
    (g : Group) (pct : ℕ)
    → IsSound g
    → 0 < g.count
    → 0 < pct
    → pct ≤ 100
    → (j : ℕ) × (group_percentile pct g ≡ some j)
      × (100 * below j g.duration_histogram < g.count * pct)
      × (g.count * pct ≤ 100 * below (suc j) g.duration_histogram)
unfolding group_percentile
group_percentile_found g pct s some_seen low high =
    let h = g.duration_histogram in
    let (j, at, before, upto) =
      percentile_bucket_found h pct (omega (arith, s.all_counted)) low high in
    let same = ap {B = ℕ} (λ n. n * pct) s.all_counted in
    (
      j,
      ap (λ n. percentile_bucket h n pct) (sym s.all_counted) ∙ at,
      omega (arith, before, same),
      omega (arith, upto, same),
    )
