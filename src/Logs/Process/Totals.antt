-- ===== src/Logs/Process/Totals.antt =====
-- The table of the hourly statistics after a batch of log items.
use fork_glitchtip_glitchtip.Common.{
  ℕ, ◌+◌, ◌≡◌, Bool, true, false, Option, none, some, List, [], ◌∷◌, All, All-append, length,
  if◌then◌else◌, refl, arith,
}
use fork_glitchtip_glitchtip.Events.Issues.{value_or_zero}
use fork_glitchtip_glitchtip.Events.Stats.Sums.{hit_count, write_hits-adds}
use fork_glitchtip_glitchtip.Logs.Store.{
  LogRow, LogTables, StatKey, same_stat, stat_before, update_log_statistics, write_logs,
}
use fork_glitchtip_glitchtip.Logs.Items.{LogItem, LogTaskMessage, LogEnv}
use fork_glitchtip_glitchtip.Logs.Process.{
  Collected, collect_items, with_message, all_items, returned, nothing_collected, has_rows,
  finish_logs, store_collected, process_log_events,
}
use fork_glitchtip_glitchtip.Logs.Process.Accepted.{finish_logs-returned}
use fork_glitchtip_glitchtip.Logs.Process.Counts.{
  same_stat_iff, items_count, Home, hits_of, HomeItems, collect_items-IsCounted,
}

with_message-HomeItems :
    (home : ℕ → ℕ) (message : LogTaskMessage) (items : List LogItem)
    → message.organization_id ≡ home message.project_id
    → HomeItems home (with_message message items)
unfolding with_message
with_message-HomeItems home message [] mine = tt
with_message-HomeItems home message (item ∷ items) mine =
    (mine, with_message-HomeItems home message items mine)

pub all_items-HomeItems :
    (home : ℕ → ℕ) (messages : List LogTaskMessage)
    → All (λ m. m.organization_id ≡ home m.project_id) messages
    → HomeItems home (all_items messages)
unfolding all_items
all_items-HomeItems home [] mine = tt
all_items-HomeItems home (message ∷ messages) (one, mine) =
    All-append (λ m. (m.0).organization_id ≡ home (m.0).project_id)
      (with_message message message.logs) (all_items messages)
      (with_message-HomeItems home message message.logs one)
      (all_items-HomeItems home messages mine)

no_hits :
    (home : ℕ → ℕ) (key : StatKey) (c : Collected)
    → length c.hits ≡ length c.rows
    → has_rows c.rows ≡ false
    → hits_of home key c ≡ 0
no_hits home key c paired none_kept = go c.hits c.rows paired none_kept
  where
    go :
        (hits : List (StatKey × ℕ)) (rows : List LogRow)
        → length hits ≡ length rows
        → has_rows rows ≡ false
        → hit_count same_stat same_stat_iff key (home key.1) hits ≡ 0
    go [] rows e f = refl
    go (h ∷ hits) [] e f = absurd (omega (arith, e))
    go (h ∷ hits) (r ∷ rows) e f = cc

-- the sums of what was collected
pub collected-counts :
    (env : LogEnv) (server_time : ℕ) (home : ℕ → ℕ) (messages : List LogTaskMessage)
    (db : LogTables) (c : Collected) (key : StatKey)
    → All (λ m. m.organization_id ≡ home m.project_id) messages
    → collect_items env server_time (all_items messages) nothing_collected ≡ some c
    → value_or_zero (update_log_statistics c.hits db.counts key (home key.1))
      ≡ value_or_zero (db.counts key (home key.1))
        + items_count env server_time key (all_items messages)
unfolding update_log_statistics
collected-counts env server_time home messages db c key mine at =
    let counted =
      collect_items-IsCounted env server_time home (all_items messages) nothing_collected c
        (all_items-HomeItems home messages mine) tt refl at in
    omega (
      arith,
      write_hits-adds same_stat same_stat_iff stat_before (λ k. home k.1) c.hits db.counts key
          counted.homes,
      counted.rises key,
    )

-- the counts when a batch returns
pub returned-counts :
    (env : LogEnv) (server_time count : ℕ) (home : ℕ → ℕ) (messages : List LogTaskMessage)
    (db after : LogTables) (key : StatKey)
    → All (λ m. m.organization_id ≡ home m.project_id) messages
    → process_log_events env server_time messages db ≡ returned count after
    → value_or_zero (after.counts key (home key.1))
      ≡ value_or_zero (db.counts key (home key.1))
        + items_count env server_time key (all_items messages)
unfolding process_log_events update_log_statistics
returned-counts env server_time count home messages db after key mine run =
    by_items (collect_items env server_time (all_items messages) nothing_collected) refl run
  where
    same_end : (n : ℕ) (t : LogTables) → returned n t ≡ returned count after → t ≡ after
    same_end n t e = cc

    by_write :
        (c : Collected) (w : Option (List LogRow))
        → Home home c.hits
        → hits_of home key c ≡ items_count env server_time key (all_items messages)
        → finish_logs env server_time c db w ≡ returned count after
        → value_or_zero (after.counts key (home key.1))
          ≡ value_or_zero (db.counts key (home key.1))
            + items_count env server_time key (all_items messages)
    by_write c none homes rises run = unfold finish_logs in cc
    by_write c (some logs) homes rises run =
        let adds =
          write_hits-adds same_stat same_stat_iff stat_before (λ k. home k.1) c.hits db.counts key
            homes in
        let end = finish_logs-returned env server_time count c db after logs run in
        rw (← end.1) (omega (arith, adds, rises))

    by_rows :
        (c : Collected)
        → Home home c.hits
        → hits_of home key c ≡ items_count env server_time key (all_items messages)
        → length c.hits ≡ length c.rows
        → (b : Bool) → has_rows c.rows ≡ b
        → (if b
            then finish_logs env server_time c db (write_logs env.takes c.rows db.logs)
            else returned 0 db)
          ≡ returned count after
        → value_or_zero (after.counts key (home key.1))
          ≡ value_or_zero (db.counts key (home key.1))
            + items_count env server_time key (all_items messages)
    by_rows c homes rises paired true is run =
        by_write c (write_logs env.takes c.rows db.logs) homes rises run
    by_rows c homes rises paired false is run =
        let zero_hits = no_hits home key c paired is in
        rw (← same_end _ _ run) (omega (arith, zero_hits, rises))

    by_items :
        (o : Option Collected)
        → collect_items env server_time (all_items messages) nothing_collected ≡ o
        → store_collected env server_time db o ≡ returned count after
        → value_or_zero (after.counts key (home key.1))
          ≡ value_or_zero (db.counts key (home key.1))
            + items_count env server_time key (all_items messages)
    by_items none at run = cc
    by_items (some c) at run =
        let counted =
          collect_items-IsCounted env server_time home (all_items messages) nothing_collected c
            (all_items-HomeItems home messages mine) tt refl at in
        by_rows c counted.homes (omega (arith, counted.rises key)) counted.paired (has_rows c.rows)
          refl run
