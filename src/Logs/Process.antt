-- ===== src/Logs/Process.antt =====
-- apps/logs/process_logs.py, `process_log_events`.
pub mod Accepted
pub mod Counts
pub mod Totals
pub mod Slots
pub mod Returned
use Prim.Native.String.{String}
use fork_glitchtip_glitchtip.Common.{
  ℕ, zero, suc, ◌+◌, ◌-◌, ◌%◌, ◌^◌, Bool, true, false, ◌&&◌, ◌||◌, not, Option, none, some, List,
  [], ◌∷◌, ◌++◌, length, any, ltb, leb, ◌==◌, if◌then◌else◌,
}
use fork_glitchtip_glitchtip.Ingest.Scrub.Keys.{same_text}
use fork_glitchtip_glitchtip.Events.Issues.{value_or_zero}
use fork_glitchtip_glitchtip.Partitions.Uuid7.{ℤ, pos, negsuc, uuid_of_ms}
use fork_glitchtip_glitchtip.Logs.Span.{parse_span_id}
use fork_glitchtip_glitchtip.Logs.Store.{
  LogRow, Resource, service_type, environment_type, host_type, StatKey, LogTables, write_logs,
  update_log_statistics, add_resource, update_resource_lookup,
}
use fork_glitchtip_glitchtip.Logs.Items.{
  LogItem, LogTaskMessage, LogEnv, or_text, level_map, or_info, validate_timestamp,
  compute_hash_bucket, trace_of, log_timestamp,
}

-- what the loop collects
pub record Collected : Type 0 where
  pub rows : List LogRow
  pub hits : List (StatKey × ℕ)
  pub resources : List Resource

pub add_named : ℕ → String → Resource → List Resource → List Resource
add_named organization_id name r resources =
    let more = add_resource r resources in if same_text name "" then resources else more

-- `replace(minute=0, second=0, microsecond=0)`
unfoldable pub log_hour : ℕ → ℕ
log_hour time = time - time % 3600000

-- the row of an item and its time
unfoldable pub log_row : LogEnv → LogTaskMessage → LogItem → ℕ → LogRow
log_row env message item id = record {
  id = id;
  trace_id = trace_of env.uuid_int item.trace_id;
  organization_id = message.organization_id;
  project_id = message.project_id;
  span_id = parse_span_id env.int16 item.span_id;
  level = or_info (level_map (env.lower (or_text item.level "info")));
  severity_number = item.severity_number;
  body = or_text item.body "";
  service = or_text item.service "";
  environment = or_text item.environment "";
  host = or_text item.host "";
  attributes = item.attributes;
}

unfoldable pub stat_key : LogEnv → LogRow → ℕ → StatKey
stat_key env r time = (
  log_hour time,
  r.project_id,
  r.level,
  compute_hash_bucket env.md5_byte r.service,
  compute_hash_bucket env.md5_byte r.environment,
)

pub collect_row : LogEnv → LogRow → ℕ → Collected → Collected
collect_row env r time c = record {
  rows = c.rows ++ r ∷ [];
  hits = c.hits ++ (stat_key env r time, r.organization_id) ∷ [];
  resources =
      add_named r.organization_id r.host (r.organization_id, r.host, host_type)
        (add_named r.organization_id r.environment
          (r.organization_id, r.environment, environment_type)
          (add_named r.organization_id r.service (r.organization_id, r.service, service_type)
            c.resources));
}

abbrev pub collect_id :
    LogEnv → LogTaskMessage → LogItem → ℕ → Collected → Option ℕ → Option Collected
collect_id env message item time c none = none
collect_id env message item time c (some id) =
    some (collect_row env (log_row env message item id) time c)

-- an item at its time; none where its time cannot be converted
abbrev pub collect_at :
    LogEnv → ℕ → LogTaskMessage → LogItem → Collected → Option ℕ → Option Collected
collect_at env server_time message item c none = none
collect_at env server_time message item c (some time) =
    let n = length c.rows in
    let taken =
      collect_id env message item time c
        (uuid_of_ms (env.random_a n) (env.random_b n) (pos time)) in
    if validate_timestamp time server_time then taken else some c

pub collect_item : LogEnv → ℕ → LogTaskMessage → LogItem → Collected → Option Collected
collect_item env server_time message item c =
    collect_at env server_time message item c (log_timestamp env server_time item.timestamp)

-- all the items of the messages, the first first
pub collect_items : LogEnv → ℕ → List (LogTaskMessage × LogItem) → Collected → Option Collected
collect_items env server_time [] c = some c
collect_items env server_time ((message, item) ∷ items) c =
    elim (collect_item env server_time message item c) [
      | none ↦ none
      | some next ↦ collect_items env server_time items next
    ]

unfoldable pub with_message : LogTaskMessage → List LogItem → List (LogTaskMessage × LogItem)
with_message message [] = []
with_message message (item ∷ items) = (message, item) ∷ with_message message items

unfoldable pub all_items : List LogTaskMessage → List (LogTaskMessage × LogItem)
all_items [] = []
all_items (message ∷ messages) = with_message message message.logs ++ all_items messages

pub data Processed : Type 0 where
  returned : ℕ → LogTables → Processed
  raised : LogTables → Processed

abbrev pub nothing_collected : Collected
nothing_collected = record { rows = []; hits = []; resources = [] }

abbrev pub written : ℕ → Collected → LogTables → List LogRow → LogTables
written server_time c db logs = record {
  logs = logs;
  counts = update_log_statistics c.hits db.counts;
  resources = update_resource_lookup server_time c.resources db.resources;
}

pub all_taken {ℓ} : {A : Type ℓ} → (A → Bool) → List A → Bool
all_taken takes [] = true
all_taken takes (x ∷ xs) = takes x && all_taken takes xs

-- The table of counts takes the row of a hit with its sum, a PositiveIntegerField.
abbrev pub stat_fits : LogEnv → (StatKey → ℕ → Option ℕ) → StatKey × ℕ → Bool
stat_fits env counts (k, o) = env.takes_hit (k, o) && ltb (value_or_zero (counts k o)) (2 ^ 31)

-- The three tables are written one after the other, each by itself: an error leaves the ones before
-- it written.
pub finish_logs : LogEnv → ℕ → Collected → LogTables → Option (List LogRow) → Processed
finish_logs env server_time c db none = raised db
finish_logs env server_time c db (some logs) =
    if not (all_taken (stat_fits env (update_log_statistics c.hits db.counts)) c.hits)
    then raised (record db { logs = logs })
    else if not (all_taken env.takes_resource c.resources)
    then raised (record (written server_time c db logs) { resources = db.resources })
    else returned (length c.rows) (written server_time c db logs)

abbrev pub has_rows : List LogRow → Bool
has_rows [] = false
has_rows (r ∷ rows) = true

abbrev pub store_collected : LogEnv → ℕ → LogTables → Option Collected → Processed
store_collected env server_time db none = raised db
store_collected env server_time db (some c) =
    let stored = finish_logs env server_time c db (write_logs env.takes c.rows db.logs) in
    if has_rows c.rows then stored else returned 0 db

-- `process_log_events` at `server_time`
pub process_log_events : LogEnv → ℕ → List LogTaskMessage → LogTables → Processed
process_log_events env server_time messages db =
    store_collected env server_time db
      (collect_items env server_time (all_items messages) nothing_collected)
