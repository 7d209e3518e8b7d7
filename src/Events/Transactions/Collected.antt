-- ===== src/Events/Transactions/Collected.antt =====
-- The events and errors of each group that a batch collects, and a group's row after them.
use fork_glitchtip_glitchtip.Common.{
  ℕ, zero, suc, ◌+◌, ◌-◌, ◌^◌, ◌≡◌, ◌≤◌, ◌<◌, inl, inr, true, Option, none, some, lt→ltb, List, [],
  ◌∷◌, length, length-append, ◌==◌, if◌then◌else◌, All, refl, sym, ap, ◌∙◌, arith, Bool-cases,
  ==_iff,
}
use fork_glitchtip_glitchtip.Spans.Histogram.{num_buckets}
use fork_glitchtip_glitchtip.Spans.Histogram.Totals.{total}
use fork_glitchtip_glitchtip.Events.Transactions.{
  Group, Stamp, aware, naive, GroupedEvent, Batch, all_small, row_fits, is_error_status, error_of,
  duration_of, add_event, collect, zip_add, zeros, updated,
}

-- The histogram has its buckets and counts each transaction once; no more errors than transactions.
pub record IsSound (g : Group) : Type 0 where
  pub buckets : length g.duration_histogram ≡ num_buckets
  pub all_counted : total g.duration_histogram ≡ g.count
  pub few_errors : g.error_count ≤ g.count

-- the events of a group, and those that failed
unfoldable pub group_events : ℕ → List GroupedEvent → ℕ
group_events i [] = 0
group_events i (e ∷ events) = (if e.group_id == i then 1 else 0) + group_events i events

pub group_errors : ℕ → List GroupedEvent → ℕ
group_errors i [] = 0
group_errors i (e ∷ events) = (if e.group_id == i then error_of e else 0) + group_errors i events

-- those of the batches
unfoldable pub batch_events : ℕ → List (ℕ × Batch) → ℕ
batch_events i [] = 0
batch_events i ((j, b) ∷ batches) =
    (if j == i then length b.durations else 0) + batch_events i batches

unfoldable pub batch_errors : ℕ → List (ℕ × Batch) → ℕ
batch_errors i [] = 0
batch_errors i ((j, b) ∷ batches) = (if j == i then b.errors else 0) + batch_errors i batches

pub length-zeros : (n : ℕ) → length (zeros n) ≡ n
unfolding zeros
length-zeros zero = refl
length-zeros (suc n) = ap suc (length-zeros n)

pub total-zeros : (n : ℕ) → total (zeros n) ≡ 0
unfolding zeros
total-zeros zero = refl
total-zeros (suc n) = omega (arith, total-zeros n)

zip_add_lem :
    (xs ys : List ℕ)
    → length xs ≡ length ys
    → (length (zip_add xs ys) ≡ length xs) × (total (zip_add xs ys) ≡ total xs + total ys)
unfolding zip_add
zip_add_lem [] [] same = (refl, refl)
zip_add_lem [] (y ∷ ys) same = absurd (omega arith)
zip_add_lem (x ∷ xs) [] same = absurd (omega arith)
zip_add_lem (x ∷ xs) (y ∷ ys) same =
    let (len, sum) = zip_add_lem xs ys (omega arith) in (ap suc len, omega (arith, sum))

-- Each batch has no more errors than durations.
abbrev pub FewErrors : List (ℕ × Batch) → Type 0
FewErrors = All (λ row. row.1.errors ≤ length row.1.durations)

error_of-le : (e : GroupedEvent) → error_of e ≤ 1
error_of-le e = elim (Bool-cases (is_error_status e.trace_status)) [
  | inl failed ↦ rw failed (omega arith)
  | inr fine ↦ rw fine (omega arith)
]

-- Each batch and each event belong to the organization of their group.
abbrev pub HomeBatches : (ℕ → ℕ) → List (ℕ × Batch) → Type 0
HomeBatches org = All (λ row. row.1.org_id ≡ org row.0)

abbrev pub HomeGroups : (ℕ → ℕ) → List GroupedEvent → Type 0
HomeGroups org = All (λ e. e.group_org ≡ org e.group_id)

add_event-HomeBatches :
    (org : ℕ → ℕ) (e : GroupedEvent) (d : ℕ) (batches : List (ℕ × Batch))
    → e.group_org ≡ org e.group_id
    → HomeBatches org batches
    → HomeBatches org (add_event e d batches)
unfolding add_event
add_event-HomeBatches org e d [] mine home = (mine, tt)
add_event-HomeBatches org e d ((j, b) ∷ batches) mine (first, home) =
    elim (Bool-cases (j == e.group_id)) [
      | inl same ↦ rw same (mine ∙ ap org (sym ((==_iff j e.group_id).0 same)), home)
      | inr other ↦ rw other (first, add_event-HomeBatches org e d batches mine home)
    ]

add_event_lem :
    (e : GroupedEvent) (d : ℕ) (batches : List (ℕ × Batch)) (i : ℕ)
    → FewErrors batches
    → FewErrors (add_event e d batches)
      × (batch_events i (add_event e d batches)
          ≡ (if e.group_id == i then 1 else 0) + batch_events i batches)
      × (batch_errors i (add_event e d batches)
          ≡ (if e.group_id == i then error_of e else 0) + batch_errors i batches)
unfolding add_event batch_events batch_errors
add_event_lem e d [] i few = ((error_of-le e, tt), refl, refl)
add_event_lem e d ((j, b) ∷ batches) i (first, few) =
    let longer = length-append b.durations (d ∷ []) in
    elim (Bool-cases (j == e.group_id)) [
      | inl same ↦
          rw same
            ((omega (arith, longer, error_of-le e), few), ground (arith, longer), ground arith)
      | inr other ↦
          let (few', events, errors) = add_event_lem e d batches i few in
          rw other ((first, few'), omega (arith, events), omega (arith, errors))
    ]

-- What the batches of a list of events are: of their organizations, with few errors, and with the events and
-- errors of each group on top of those before.
pub record IsCollected (org : ℕ → ℕ) (events : List GroupedEvent) (old new : List (ℕ × Batch))
    : Type 0 where
  pub home : HomeBatches org new
  pub few : FewErrors new
  pub all_events : (i : ℕ) → batch_events i new ≡ group_events i events + batch_events i old
  pub all_errors : (i : ℕ) → batch_errors i new ≡ group_errors i events + batch_errors i old

-- A start is not beside a naive end.
abbrev pub IsTimed : Option ℕ → Option Stamp → Type 0
IsTimed none stop = Unit
IsTimed (some start) none = Unit
IsTimed (some start) (some (aware stop)) = Unit
IsTimed (some start) (some (naive stop)) = ⊥

has_duration :
    (start : Option ℕ) (stop : Option Stamp)
    → IsTimed start stop
    → (d : ℕ) × (duration_of start stop ≡ some d)
unfolding duration_of
has_duration none stop timed = (0, refl)
has_duration (some start) none timed = (0, refl)
has_duration (some start) (some (aware stop)) timed = (stop - start, refl)
has_duration (some start) (some (naive stop)) timed = elim timed [ ]

pub collect-IsCollected :
    (org : ℕ → ℕ) (events : List GroupedEvent) (batches : List (ℕ × Batch))
    → All (λ e. IsTimed e.start_timestamp e.timestamp) events
    → HomeGroups org events
    → HomeBatches org batches
    → FewErrors batches
    → (new : List (ℕ × Batch)) × (collect events batches ≡ some new)
      × IsCollected org events batches new
unfolding collect group_events group_errors
collect-IsCollected org [] batches timed mine home few = (
  batches,
  refl,
  record { home = home; few = few; all_events = λ i. omega arith; all_errors = λ i. omega arith },
)
collect-IsCollected org (e ∷ events) batches (one, timed) (first, mine) home few =
    let (d, at) = has_duration e.start_timestamp e.timestamp one in
    let (new, done, rest) =
      collect-IsCollected org events (add_event e d batches) timed mine
        (add_event-HomeBatches org e d batches first home) (add_event_lem e d batches 0 few).0 in
    (
      new,
      rw (collect, at) done,
      record {
        home = rest.home;
        few = rest.few;
        all_events = λ i. omega (arith, rest.all_events i, (add_event_lem e d batches i few).1);
        all_errors = λ i. omega (arith, rest.all_errors i, (add_event_lem e d batches i few).2);
      },
    )

small_buckets : (ns : List ℕ) → total ns < 2 ^ 31 → all_small ns ≡ true
unfolding all_small
small_buckets [] small = refl
small_buckets (n ∷ ns) small =
    rw (lt→ltb n (2 ^ 31) (omega (arith, small)), small_buckets ns (omega (arith, small))) refl

-- the histogram of a sound group that counted fewer than 2 ^ 31 transactions fits
pub sound_fits : (g : Group) → IsSound g → g.count < 2 ^ 31 → row_fits (some g) ≡ true
sound_fits g s small = small_buckets g.duration_histogram (omega (arith, s.all_counted, small))

pub updated-IsSound :
    (g : Group) (b : Batch) (increments : List ℕ)
    → IsSound g
    → b.errors ≤ length b.durations
    → length increments ≡ num_buckets
    → total increments ≡ length b.durations
    → IsSound (updated g b increments)
updated-IsSound g b increments s few len sum =
    let (same, both) = zip_add_lem g.duration_histogram increments (s.buckets ∙ sym len) in
    record {
      buckets = same ∙ s.buckets;
      all_counted = omega (arith, both, s.all_counted);
      few_errors = omega (arith, s.few_errors);
    }
