-- ===== src/Events/Stats.antt =====
-- apps/event_ingest/process_event.py: the counters of a batch by key (`data_stats`,
-- `issue_hourly_stats` and `tag_stats`) and their upserts (`update_statistics`,
-- `update_org_statistics`, the end of `update_tags`). A nested dictionary is a list of its leaves with
-- all keys of the path; times are seconds. The name of a table is a Literal type, so that the check of
-- it is left out.
pub mod Sums
pub mod Hourly
use fork_glitchtip_glitchtip.Common.{
  ℕ, zero, suc, ◌+◌, ◌-◌, ◌%◌, Bool, true, false, ◌&&◌, ◌||◌, not, Option, none, some, List, [],
  ◌∷◌, map, ltb, ◌==◌, if◌then◌else◌,
}
use fork_glitchtip_glitchtip.Events.Issues.{ProcessingEvent, truthy, value_or_zero}

-- a leaf {"count": ..., "organization_id": ...} with its keys
pub record Stat (K : Type 0) : Type 0 where
  pub key : K
  pub organization_id : ℕ
  pub count : ℕ

-- `bucket["count"] += 1` and `bucket["organization_id"] = ...`, on a defaultdict
pub bump_stat : {K : Type 0} → (K → K → Bool) → K → ℕ → List (Stat K) → List (Stat K)
bump_stat same k org [] = record { key = k; organization_id = org; count = 1 } ∷ []
bump_stat same k org (s ∷ stats) =
    let rest = bump_stat same k org stats in
    if same s.key k
    then record s { count = s.count + 1; organization_id = org } ∷ stats
    else s ∷ rest

pub bump_stats : {K : Type 0} → (K → K → Bool) → List (K × ℕ) → List (Stat K) → List (Stat K)
bump_stats same [] stats = stats
bump_stats same ((k, org) ∷ hits) stats = bump_stats same hits (bump_stat same k org stats)

-- `data.sort`; two rows of a batch differ in their keys
pub insert_stat : {K : Type 0} → (K → K → Bool) → Stat K → List (Stat K) → List (Stat K)
insert_stat before s [] = s ∷ []
insert_stat before s (t ∷ stats) =
    let rest = insert_stat before s stats in if before t.key s.key then t ∷ rest else s ∷ t ∷ stats

pub sort_stats : {K : Type 0} → (K → K → Bool) → List (Stat K) → List (Stat K)
sort_stats before [] = []
sort_stats before (s ∷ stats) = insert_stat before s (sort_stats before stats)

-- ON CONFLICT ... DO UPDATE SET count = count + EXCLUDED.count
abbrev pub upserted : Option ℕ → ℕ → Option ℕ
upserted none n = some n
upserted (some old) n = some (old + n)

-- a row of the INSERT; the primary key is the keys with the organization
pub upsert_stat : {K : Type 0} → (K → K → Bool) → Stat K → (K → ℕ → Option ℕ) → K → ℕ → Option ℕ
upsert_stat same s table k org =
    if same s.key k && (s.organization_id == org)
    then upserted (table k org) s.count
    else table k org

pub upsert_stats :
    {K : Type 0} → (K → K → Bool) → List (Stat K) → (K → ℕ → Option ℕ) → K → ℕ → Option ℕ
upsert_stats same [] table = table
upsert_stats same (s ∷ stats) table = upsert_stats same stats (upsert_stat same s table)

-- from the first counter of a batch to the table
pub write_hits :
    {K : Type 0}
    → (K → K → Bool)
    → (K → K → Bool)
    → List (K × ℕ)
    → (K → ℕ → Option ℕ)
    → K
    → ℕ
    → Option ℕ
write_hits same before hits table =
    upsert_stats same (sort_stats before (bump_stats same hits [])) table

-- `replace(minute=0, second=0, microsecond=0)`
pub stat_hour : ℕ → ℕ
stat_hour time = time - time % 3600

abbrev pub same_hour_key : ℕ × ℕ → ℕ × ℕ → Bool
same_hour_key (h, k) (i, l) = (h == i) && (k == l)

abbrev pub hour_key_before : ℕ × ℕ → ℕ × ℕ → Bool
hour_key_before (h, k) (i, l) = ltb h i || ((h == i) && ltb k l)

-- the increments of `data_stats`: hour and project
pub project_hits : List ProcessingEvent → List ((ℕ × ℕ) × ℕ)
project_hits [] = []
project_hits (event ∷ events) =
    ((stat_hour event.received, event.project_id), event.organization_id) ∷ project_hits events

-- the increments of `issue_hourly_stats`: hour and issue, for events with an issue
pub issue_hits : List ProcessingEvent → List ((ℕ × ℕ) × ℕ)
issue_hits [] = []
issue_hits (event ∷ events) =
    let rest = issue_hits events in
    if truthy event.issue_id
    then ((stat_hour event.received, value_or_zero event.issue_id), event.organization_id) ∷ rest
    else rest

-- `update_statistics` of the events of a batch
pub update_project_statistics : List ProcessingEvent → (ℕ × ℕ → ℕ → Option ℕ) → ℕ × ℕ → ℕ → Option ℕ
update_project_statistics events table =
    write_hits same_hour_key hour_key_before (project_hits events) table

-- `update_org_statistics` of the events of a batch
pub update_org_statistics : List ProcessingEvent → (ℕ × ℕ → ℕ → Option ℕ) → ℕ × ℕ → ℕ → Option ℕ
update_org_statistics events table =
    write_hits same_hour_key hour_key_before (issue_hits events) table
