-- ===== src/Logs/Process/Accepted.antt =====
-- What a batch of log items leaves in the table of logs, and the batch that raises.
use fork_glitchtip_glitchtip.Common.{
  ℕ, ◌+◌, ◌^◌, ◌<◌, ◌≤◌, ◌≡◌, inl, inr, Bool, true, false, not, Option, none, some, List, [], ◌∷◌,
  ◌++◌, All, All-append, length, if◌then◌else◌, refl, ap, ◌∙◌, arith, Bool-cases, Option-cases,
}
use fork_glitchtip_glitchtip.Partitions.Uuid7.{extract_datetime}
use fork_glitchtip_glitchtip.Partitions.Uuid7.Window.{extract_datetime-uuid_of_ms}
use fork_glitchtip_glitchtip.Logs.Store.{LogRow, LogTables, write_logs, update_log_statistics}
use fork_glitchtip_glitchtip.Logs.Store.Written.{IsExtended, none_in_front, write_logs-IsExtended}
use fork_glitchtip_glitchtip.Logs.Items.{
  LogItem, LogTaskMessage, LogEnv, validate_timestamp, log_timestamp,
}
use fork_glitchtip_glitchtip.Logs.Process.{
  Collected, log_row, collect_row, collect_at, collect_item, collect_items, all_items, returned,
  raised, nothing_collected, written, all_taken, stat_fits, finish_logs, store_collected,
  process_log_events,
}

-- the time in the identifier is at most a day away
abbrev pub IsRecent : ℕ → LogRow → Type 0
IsRecent server_time r =
    (time : ℕ) × (extract_datetime r.id ≡ some time)
    × (time ≤ server_time + 86400000)
    × (server_time ≤ time + 86400000)

pub log_row-id :
    (env : LogEnv) (message : LogTaskMessage) (item : LogItem) (id : ℕ)
    → (log_row env message item id).id ≡ id
unfolding log_row
log_row-id env message item id = refl

pub day_apart :
    (time server_time : ℕ)
    → validate_timestamp time server_time ≡ true
    → (time ≤ server_time + 86400000) × (server_time ≤ time + 86400000)
unfolding validate_timestamp
day_apart time server_time valid = (ground (arith, valid), ground (arith, valid))

-- the rows collected are recent
collect_item-All :
    (env : LogEnv) (server_time : ℕ) (message : LogTaskMessage) (item : LogItem)
    (c next : Collected)
    → server_time + 86400000 < 2 ^ 48
    → All (IsRecent server_time) c.rows
    → collect_item env server_time message item c ≡ some next
    → All (IsRecent server_time) next.rows
unfolding collect_item collect_row
collect_item-All env server_time message item c next small recent run =
    at_time (log_timestamp env server_time item.timestamp) run
  where
    at_time :
        (t : Option ℕ)
        → collect_at env server_time message item c t ≡ some next
        → All (IsRecent server_time) next.rows
    at_time none run = cc
    at_time (some time) run = elim (Bool-cases (validate_timestamp time server_time)) [
      | inr e ↦ let same : c ≡ next = cc (rw e at run) in rw (← same) recent
      | inl e ↦
          let (above, below) = day_apart time server_time e in
          let (id, made, fits, back) =
            extract_datetime-uuid_of_ms (env.random_a (length c.rows))
              (env.random_b (length c.rows)) time (omega arith) in
          let same : collect_row env (log_row env message item id) time c ≡ next =
            cc (rw (e, made) at run) in
          let r = log_row env message item id in
          let one : IsRecent server_time r =
            (time, ap extract_datetime (log_row-id env message item id) ∙ back, above, below) in
          rw (← same) (All-append (IsRecent server_time) c.rows (r ∷ []) recent (one, tt))
    ]

pub collect_items-All :
    (env : LogEnv) (server_time : ℕ) (items : List (LogTaskMessage × LogItem)) (c final : Collected)
    → server_time + 86400000 < 2 ^ 48
    → All (IsRecent server_time) c.rows
    → collect_items env server_time items c ≡ some final
    → All (IsRecent server_time) final.rows
unfolding collect_items
collect_items-All env server_time [] c final small recent run =
    let same : c ≡ final = cc in rw (← same) recent
collect_items-All env server_time ((message, item) ∷ items) c final small recent run =
    elim (Option-cases (collect_item env server_time message item c)) [
      | inl e ↦ absurd (ground (arith, rw (collect_items, e) at run))
      | inr (next, e) ↦
          collect_items-All env server_time items next final small
            (collect_item-All env server_time message item c next small recent e)
            (rw (collect_items, e) at run)
    ]

-- a batch that returns has written all three tables
pub finish_logs-returned :
    (env : LogEnv) (server_time count : ℕ) (c : Collected) (db after : LogTables)
    (logs : List LogRow)
    → finish_logs env server_time c db (some logs) ≡ returned count after
    → (length c.rows ≡ count) × (written server_time c db logs ≡ after)
unfolding finish_logs
finish_logs-returned env server_time count c db after logs run =
    elim (Bool-cases
      (not (all_taken (stat_fits env (update_log_statistics c.hits db.counts)) c.hits))) [
        | inl e ↦ absurd (ground (arith, rw e at run))
        | inr e ↦ elim (Bool-cases (not (all_taken env.takes_resource c.resources))) [
          | inl f ↦ absurd (ground (arith, rw (e, f) at run))
          | inr f ↦ let done = rw (e, f) at run in (cc, cc)
        ]
      ]

-- what is left when a batch returns
pub returned-IsExtended :
    (env : LogEnv) (server_time count : ℕ) (messages : List LogTaskMessage) (db after : LogTables)
    → server_time + 86400000 < 2 ^ 48
    → process_log_events env server_time messages db ≡ returned count after
    → IsExtended (IsRecent server_time) count db.logs after.logs
unfolding process_log_events
returned-IsExtended env server_time count messages db after small run =
    by_items (collect_items env server_time (all_items messages) nothing_collected) refl run
  where
    same_end :
        (n : ℕ) (t : LogTables) → returned n t ≡ returned count after → (n ≡ count) × (t ≡ after)
    same_end n t e = (cc, cc)

    by_write :
        (c : Collected) (w : Option (List LogRow))
        → All (IsRecent server_time) c.rows
        → write_logs env.takes c.rows db.logs ≡ w
        → finish_logs env server_time c db w ≡ returned count after
        → IsExtended (IsRecent server_time) count db.logs after.logs
    by_write c none recent wrote run = unfold finish_logs in cc
    by_write c (some logs) recent wrote run =
        let (same_count, same_tables) =
          finish_logs-returned env server_time count c db after logs run in
        rw (← same_tables, ← same_count)
          (write_logs-IsExtended (IsRecent server_time) env.takes c.rows db.logs logs recent wrote)

    by_rows :
        (c : Collected)
        → All (IsRecent server_time) c.rows
        → (b : Bool)
        → (if b
            then finish_logs env server_time c db (write_logs env.takes c.rows db.logs)
            else returned 0 db)
          ≡ returned count after
        → IsExtended (IsRecent server_time) count db.logs after.logs
    by_rows c recent true run = by_write c (write_logs env.takes c.rows db.logs) recent refl run
    by_rows c recent false run =
        let (same_count, same_tables) = same_end _ _ run in
        rw (← same_tables, ← same_count) (none_in_front (IsRecent server_time) 0 db.logs)

    by_items :
        (o : Option Collected)
        → collect_items env server_time (all_items messages) nothing_collected ≡ o
        → store_collected env server_time db o ≡ returned count after
        → IsExtended (IsRecent server_time) count db.logs after.logs
    by_items none at run = cc
    by_items (some c) at run =
        by_rows c
          (collect_items-All env server_time (all_items messages) nothing_collected c small tt at) _
          run

collect_items-raises :
    (env : LogEnv) (server_time : ℕ) (before items : List (LogTaskMessage × LogItem))
    (message : LogTaskMessage) (item : LogItem) (c : Collected)
    → log_timestamp env server_time item.timestamp ≡ none
    → collect_items env server_time (before ++ (message, item) ∷ items) c ≡ none
unfolding collect_items collect_item
collect_items-raises env server_time [] items message item c bad = rw (collect_items, bad) refl
collect_items-raises env server_time ((m, i) ∷ before) items message item c bad =
    elim (Option-cases (collect_item env server_time m i c)) [
      | inl e ↦ rw (collect_items, e) refl
      | inr (next, e) ↦
          rw (collect_items, e)
            (collect_items-raises env server_time before items message item next bad)
    ]

-- A batch with an item whose timestamp cannot be converted, in any message and at any place,
-- raises as a whole: nothing of its other messages is written.
pub process_log_events-raises :
    (env : LogEnv) (server_time : ℕ) (messages : List LogTaskMessage)
    (before items : List (LogTaskMessage × LogItem)) (message : LogTaskMessage) (item : LogItem)
    (db : LogTables)
    → all_items messages ≡ before ++ (message, item) ∷ items
    → log_timestamp env server_time item.timestamp ≡ none
    → process_log_events env server_time messages db ≡ raised db
unfolding process_log_events
process_log_events-raises env server_time messages before items message item db split bad =
    rw (split, collect_items-raises env server_time before items message item nothing_collected bad)
      refl
