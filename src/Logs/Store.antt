-- ===== src/Logs/Store.antt =====
-- apps/logs/process_logs.py: the tables that a batch of log items is written to, and the
-- statements that write them.
pub mod Written
use Prim.Native.String.{String}
use fork_glitchtip_glitchtip.Common.{
  ℕ, zero, suc, ◌+◌, ◌-◌, ◌^◌, Bool, true, false, ◌&&◌, ◌||◌, not, Option, none, some, List, [],
  ◌∷◌, any, ltb, leb, ◌==◌, if◌then◌else◌,
}
use fork_glitchtip_glitchtip.Ingest.Scrub.Keys.{same_text}
use fork_glitchtip_glitchtip.Events.Stats.{write_hits}
use fork_glitchtip_glitchtip.Partitions.Uuid7.{ℤ, pos, negsuc}

-- a row of `log_rows`; the attributes are the JSON text of the other keys
pub record LogRow : Type 0 where
  pub id : ℕ
  pub trace_id : Option ℕ
  pub organization_id : ℕ
  pub project_id : ℕ
  pub span_id : Option ℤ
  pub level : ℕ
  pub severity_number : Option ℕ
  pub body : String
  pub service : String
  pub environment : String
  pub host : String
  pub attributes : String

pub data ResourceType : Type 0 where
  service_type : ResourceType
  environment_type : ResourceType
  host_type : ResourceType

-- (organization_id, name, type)
abbrev pub Resource : Type 0
Resource = ℕ × String × ResourceType

-- (hour, project_id, level, service_bucket, environment_bucket)
abbrev pub StatKey : Type 0
StatKey = ℕ × ℕ × ℕ × ℕ × ℕ

-- The tables; a resource has the times it was first and last seen.
pub record LogTables : Type 0 where
  pub logs : List LogRow
  pub counts : StatKey → ℕ → Option ℕ
  pub resources : Resource → Option (ℕ × ℕ)

abbrev pub fits_bigint : Option ℤ → Bool
fits_bigint none = true
fits_bigint (some (pos n)) = ltb n (2 ^ 63)
fits_bigint (some (negsuc n)) = ltb n (2 ^ 63)

-- the composite primary key
abbrev pub same_log : LogRow → LogRow → Bool
same_log r s = (r.id == s.id) && (r.organization_id == s.organization_id)

pub data Copied : Type 0 where
  copied : List LogRow → Copied
  unique_violation : Copied
  other_error : Copied

-- COPY of the rows, all of them or none, where `takes` says whether a row has a partition and its
-- other values fit in their columns
pub copy_rows : (LogRow → Bool) → List LogRow → List LogRow → Copied
copy_rows takes [] logs = copied logs
copy_rows takes (r ∷ rows) logs =
    let rest = copy_rows takes rows (r ∷ logs) in
    if not (takes r && fits_bigint r.span_id)
    then other_error
    else if any (same_log r) logs
    then unique_violation
    else rest

-- INSERT ... ON CONFLICT DO NOTHING; none is an error
pub insert_logs : (LogRow → Bool) → List LogRow → List LogRow → Option (List LogRow)
insert_logs takes [] logs = some logs
insert_logs takes (r ∷ rows) logs =
    let rest = insert_logs takes rows (r ∷ logs) in
    let skipped = insert_logs takes rows logs in
    if not (takes r && fits_bigint r.span_id)
    then none
    else if any (same_log r) logs
    then skipped
    else rest

-- `copy_rows`, and the INSERT after a unique violation
abbrev pub retried : Copied → Option (List LogRow) → Option (List LogRow)
retried (copied logs) inserted = some logs
retried unique_violation inserted = inserted
retried other_error inserted = none

pub write_logs : (LogRow → Bool) → List LogRow → List LogRow → Option (List LogRow)
write_logs takes rows logs = retried (copy_rows takes rows logs) (insert_logs takes rows logs)

abbrev pub same_stat : StatKey → StatKey → Bool
same_stat (h, p, l, s, e) (h', p', l', s', e') =
    (h == h') && ((p == p') && ((l == l') && ((s == s') && (e == e'))))

-- `data.sort`; the organization follows from the project
abbrev pub stat_before : StatKey → StatKey → Bool
stat_before (h, p, l, s, e) (h', p', l', s', e') =
    ltb h h'
    || ((h == h')
        && (ltb p p'
            || ((p == p') && (ltb l l' || ((l == l') && (ltb s s' || ((s == s') && ltb e e')))))))

-- the increments of `project_hourly_stats`, and `update_log_statistics`
unfoldable pub update_log_statistics :
    List (StatKey × ℕ) → (StatKey → ℕ → Option ℕ) → StatKey → ℕ → Option ℕ
update_log_statistics hits counts = write_hits same_stat stat_before hits counts

abbrev pub same_type : ResourceType → ResourceType → Bool
same_type service_type service_type = true
same_type environment_type environment_type = true
same_type host_type host_type = true
same_type a b = false

abbrev pub same_resource : Resource → Resource → Bool
same_resource (o, n, t) (p, m, u) = (o == p) && (same_text n m && same_type t u)

-- `unique_resources.add`
unfoldable pub add_resource : Resource → List Resource → List Resource
add_resource r resources = if any (same_resource r) resources then resources else r ∷ resources

-- ON CONFLICT ... DO UPDATE SET last_seen = NOW()
abbrev pub seen_again : ℕ → Option (ℕ × ℕ) → Option (ℕ × ℕ)
seen_again now none = some (now, now)
seen_again now (some (first_seen, last_seen)) = some (first_seen, now)

-- `update_resource_lookup`, at one NOW(); `add_resource` is only called for a name that is not
-- empty
pub update_resource_lookup :
    ℕ → List Resource → (Resource → Option (ℕ × ℕ)) → Resource → Option (ℕ × ℕ)
update_resource_lookup now [] table key = table key
update_resource_lookup now (r ∷ resources) table key =
    let rest = update_resource_lookup now resources table key in
    if same_resource r key then seen_again now (table key) else rest
