-- ===== src/Uptime/Save.antt =====
-- apps/uptime/tasks.py, `update_uptime_statistics` and `save_monitor_checks`. Times are seconds.
pub mod Statistics
pub mod Effects
use Prim.Native.String.{String}
use fork_glitchtip_glitchtip.Common.{
  ℕ, zero, suc, ◌+◌, ◌-◌, ◌%◌, ◌≡◌, Bool, true, false, not, Option, none, some, List, [], ◌∷◌, ◌++◌,
  map, leb, ◌==◌, if◌then◌else◌,
}
use fork_glitchtip_glitchtip.Uptime.Monitor.{Monitor, CheckReason}
use fork_glitchtip_glitchtip.Uptime.Debounce.{Next, next_state, same_state}

-- a row of MonitorCheck
pub record MonitorCheck : Type 0 where
  pub monitor_id : ℕ
  pub organization_id : ℕ
  pub is_up : Bool
  pub is_change : Bool
  pub start_check : ℕ
  pub reason : Option CheckReason
  pub response_time : Option ℕ
  pub payload : Option String  -- data

-- the cached fields of a row of Monitor
pub record Cached : Type 0 where
  pub is_up : Option Bool
  pub last_change : Option ℕ
  pub consecutive_down : ℕ

-- a call of `send_monitor_notification`; the check is named by its position in the batch
pub record Notification : Type 0 where
  pub monitor_id : ℕ
  pub check : ℕ
  pub went_down : Bool
  pub last_change : Option ℕ

-- the tables, and the queue of notifications
pub record Database : Type 0 where
  pub checks : List MonitorCheck
  pub cached : ℕ → Cached
  pub statistics : ℕ → ℕ → ℕ  -- by organization and hour
  pub has_partition : ℕ → Bool  -- whether the hour has a partition
  pub notifications : List Notification

-- `Counter`: keys in the order of their first occurrence
pub bump : ℕ → List (ℕ × ℕ) → List (ℕ × ℕ)
bump k [] = (k, 1) ∷ []
bump k ((j, n) ∷ rest) = if j == k then (j, n + 1) ∷ rest else (j, n) ∷ bump k rest

pub counter_from : List (ℕ × ℕ) → List ℕ → List (ℕ × ℕ)
counter_from counts [] = counts
counter_from counts (k ∷ ks) = counter_from (bump k counts) ks

-- `sorted(…, key=lambda row: row[0])`
pub insert_row : ℕ × ℕ → List (ℕ × ℕ) → List (ℕ × ℕ)
insert_row (k, n) [] = (k, n) ∷ []
insert_row (k, n) ((j, m) ∷ rest) =
    if leb k j then (k, n) ∷ (j, m) ∷ rest else (j, m) ∷ insert_row (k, n) rest

pub sort_rows : List (ℕ × ℕ) → List (ℕ × ℕ)
sort_rows [] = []
sort_rows (r ∷ rows) = insert_row r (sort_rows rows)

pub hour_of : ℕ → ℕ
hour_of t = t - t % 3600

-- INSERT … ON CONFLICT DO UPDATE SET count = count + EXCLUDED.count
pub upsert_counts : ℕ → List (ℕ × ℕ) → (ℕ → ℕ → ℕ) → ℕ → ℕ → ℕ
upsert_counts hour [] statistics org h = statistics org h
upsert_counts hour ((k, n) ∷ rows) statistics org h =
    upsert_counts hour rows
      (λ o g.
        if k == o
        then (if hour == g then statistics o g + n else statistics o g)
        else statistics o g)
      org h

-- `update_uptime_statistics`: an IntegrityError (no partition) leaves the table as it is
pub update_uptime_statistics : List (ℕ × ℕ) → ℕ → Database → Database
update_uptime_statistics org_counts check_time db =
    let hour = hour_of check_time in
    if db.has_partition hour
    then record db { statistics = upsert_counts hour (sort_rows org_counts) db.statistics }
    else db

pub check_row : ℕ → Monitor → MonitorCheck
check_row now result = record {
  monitor_id = result.id;
  organization_id = result.organization_id;
  is_up = result.is_up;
  is_change = (next_state result).is_change;
  start_check = now;
  reason = result.reason;
  response_time = result.response_time;
  payload = result.payload;
}

pub cached_row : ℕ → Monitor → Cached
cached_row now result =
    let next = next_state result in
    record {
      is_up = next.new_state;
      last_change = if next.is_change then some now else result.last_change;
      consecutive_down = next.consecutive_down;
    }

-- `abulk_update`: the row of each monitor among the results takes the values of the first result
-- with its key
pub bulk_update : ℕ → List Monitor → (ℕ → Cached) → ℕ → Cached
bulk_update now [] cached id = cached id
bulk_update now (result ∷ results) cached id =
    let rest = bulk_update now results cached id in
    if result.id == id then cached_row now result else rest

-- the loop that enqueues the notifications, from position `i`
pub notifications_from : ℕ → List Monitor → List Notification
notifications_from i [] = []
notifications_from i (result ∷ results) =
    let next = next_state result in
    let rest = notifications_from (suc i) results in
    let sent : Notification = record {
      monitor_id = result.id;
      check = i;
      went_down = not (same_state next.new_state (some true));
      last_change = result.last_change;
    } in
    if next.state_changed then sent ∷ rest else rest

pub save_monitor_checks : List Monitor → ℕ → Database → Database
save_monitor_checks results now db =
    let stored = record db {
      checks = db.checks ++ map (check_row now) results;
      cached = bulk_update now results db.cached;
    } in
    let counted =
      update_uptime_statistics (counter_from [] (map (λ r. r.organization_id) results)) now
        stored in
    record counted { notifications = counted.notifications ++ notifications_from 0 results }
