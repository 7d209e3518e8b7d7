-- ===== src/Logs/Process/Returned.antt =====
-- A batch whose items can be converted and stored returns.
use Prim.Native.String.{String}
use fork_glitchtip_glitchtip.Common.{ℕ, ◌+◌, ◌^◌, ◌<◌, ◌≡◌, true, ◌&&◌, some, List, All}
use fork_glitchtip_glitchtip.Partitions.Uuid7.{extract_datetime}
use fork_glitchtip_glitchtip.Events.Issues.{value_or_zero}
use fork_glitchtip_glitchtip.Logs.Span.{parse_span_id}
use fork_glitchtip_glitchtip.Logs.Store.{
  LogTables, StatKey, service_type, environment_type, host_type, fits_bigint,
}
use fork_glitchtip_glitchtip.Logs.Items.{
  LogItem, LogTaskMessage, LogEnv, or_text, validate_timestamp, log_timestamp,
}
use fork_glitchtip_glitchtip.Logs.Process.{Collected, log_row, stat_key, all_items, all_taken}
use fork_glitchtip_glitchtip.Logs.Process.Counts.{items_count}

-- The tables take what an item at its time adds to them: the row, with any identifier of that time,
-- its hourly count, and its service, environment and host.
pub record IsTaken (env : LogEnv) (message : LogTaskMessage) (item : LogItem) (time : ℕ)
    : Type 0 where
  pub row :
      (id : ℕ) → extract_datetime id ≡ some time → env.takes (log_row env message item id) ≡ true
  pub hit :
      (id : ℕ)
      → env.takes_hit (stat_key env (log_row env message item id) time, message.organization_id)
        ≡ true
  pub service :
      env.takes_resource (message.organization_id, or_text item.service "", service_type) ≡ true
  pub environment :
      env.takes_resource (message.organization_id, or_text item.environment "", environment_type)
      ≡ true
  pub host : env.takes_resource (message.organization_id, or_text item.host "", host_type) ≡ true

-- The timestamp can be converted, the span identifier fits, and if the time is at most a day from
-- the server's, the tables take the item.
abbrev pub IsStorable : LogEnv → ℕ → LogTaskMessage × LogItem → Type 0
IsStorable env server_time (message, item) =
    ((time : ℕ) × (log_timestamp env server_time item.timestamp ≡ some time)
      × (validate_timestamp time server_time ≡ true → IsTaken env message item time))
    × (fits_bigint (parse_span_id env.int16 item.span_id) ≡ true)

-- the tables take what was collected
record IsTakenAll (env : LogEnv) (c : Collected) : Type 0 where
  rows : All (λ r. (env.takes r && fits_bigint r.span_id) ≡ true) c.rows
  hits : all_taken env.takes_hit c.hits ≡ true
  resources : all_taken env.takes_resource c.resources ≡ true

-- Each project has its organization, and each hourly count has room for the items that count for it.
pub record HasRoom (env : LogEnv) (server_time : ℕ) (home : ℕ → ℕ) (messages : List LogTaskMessage)
    (db : LogTables) : Type 0 where
  pub homes : All (λ m. m.organization_id ≡ home m.project_id) messages
  pub room :
      (key : StatKey)
      → value_or_zero (db.counts key (home key.1))
          + items_count env server_time key (all_items messages)
        < 2 ^ 31
