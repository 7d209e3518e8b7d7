-- ===== src/Uptime/Save/Effects.antt =====
-- What saving a batch leaves in the tables and in the queue, result by result.
use fork_glitchtip_glitchtip.Common.{
  ℕ, suc, ◌≡◌, ◌≢◌, Bool, not, some, List, [], ◌∷◌, ◌++◌, map, arith, refl, Bool-cases, inl, inr,
  keep, ap,
}
use fork_glitchtip_glitchtip.Uptime.Monitor.{Monitor}
use fork_glitchtip_glitchtip.Uptime.Debounce.{next_state, same_state, apply_check}
use fork_glitchtip_glitchtip.Uptime.Save.{
  Database, Cached, Notification, counter_from, update_uptime_statistics, check_row, cached_row,
  bulk_update, notifications_from, save_monitor_checks, hour_of,
}

-- no result of the batch is of the monitor
abbrev pub Absent : ℕ → List Monitor → Type 0
Absent id [] = Unit
Absent id (r ∷ rs) = (r.id ≢ id) × Absent id rs

-- the result stands in the batch, and no other before it is of its monitor
pub data FirstOf (r : Monitor) : List Monitor → Type 0 where
  here : {rs : List Monitor} → FirstOf r (r ∷ rs)
  later : {s : Monitor} {rs : List Monitor} → s.id ≢ r.id → FirstOf r rs → FirstOf r (s ∷ rs)

bulk_update-first :
    (now : ℕ) (r : Monitor) (cached : ℕ → Cached) {rs : List Monitor}
    → FirstOf r rs
    → bulk_update now rs cached r.id ≡ cached_row now r
unfolding bulk_update
bulk_update-first now r cached here = ground arith
bulk_update-first now r cached (later ne f) = ground (arith, bulk_update-first now r cached f)

bulk_update-Absent :
    (now id : ℕ) (rs : List Monitor) (cached : ℕ → Cached)
    → Absent id rs
    → bulk_update now rs cached id ≡ cached id
unfolding bulk_update
bulk_update-Absent now id [] cached a = refl
bulk_update-Absent now id (r ∷ rs) cached a =
    ground (arith, a.0, bulk_update-Absent now id rs cached a.1)

-- the official state of the result's monitor flips with this check
abbrev pub flips : ℕ → Monitor → Bool
flips now r = not (same_state (apply_check now r).latest_is_up r.latest_is_up)

flips-state_changed : (now : ℕ) (r : Monitor) → (next_state r).state_changed ≡ flips now r
unfolding apply_check
flips-state_changed now r = ground arith

notified-flips :
    (now i : ℕ) (rs : List Monitor)
    → map (λ n. n.monitor_id) (notifications_from i rs) ≡ map (λ r. r.id) (keep (flips now) rs)
unfolding notifications_from
notified-flips now i [] = refl
notified-flips now i (r ∷ rs) = elim (Bool-cases (flips now r)) [
  | inl yes_flip ↦
      rw (flips-state_changed now r, yes_flip)
        (ap (λ (ids : List ℕ). r.id ∷ ids) (notified-flips now (suc i) rs))
  | inr no_flip ↦ rw (flips-state_changed now r, no_flip) (notified-flips now (suc i) rs)
]

statistics_only :
    (counts : List (ℕ × ℕ)) (now : ℕ) (db : Database)
    → let db' = update_uptime_statistics counts now db in
      (db'.checks ≡ db.checks) × (db'.cached ≡ db.cached) × (db'.notifications ≡ db.notifications)
unfolding update_uptime_statistics
statistics_only counts now db = elim (Bool-cases (db.has_partition (hour_of now))) [
  | inl there ↦ rw there (refl, refl, refl)
  | inr missing ↦ rw missing (refl, refl, refl)
]

-- Saving a batch at `now` writes, for each monitor whose result stands first in the batch, the
-- cached state, time of last change and failure counter that `_next_state` gives for the result.
pub save-cached :
    (results : List Monitor) (now : ℕ) (db : Database) (r : Monitor)
    → FirstOf r results
    → let row = (save_monitor_checks results now db).cached r.id in
      let m = apply_check now r in
      (row.is_up ≡ m.latest_is_up)
      × (row.last_change ≡ m.last_change)
      × (some row.consecutive_down ≡ m.cached_consecutive_down)
unfolding save_monitor_checks
save-cached results now db r f =
    rw
      (
        (statistics_only _ now (record db {
          checks = db.checks ++ map (check_row now) results;
          cached = bulk_update now results db.cached;
        })).1,
        bulk_update-first now r db.cached f,
      )
      (unfold cached_row apply_check in (refl, refl, refl))

-- Saving a batch leaves the cached fields of every monitor without a result in it as they were,
-- and enqueues notifications for exactly those results, in their order, with which the official
-- state of the monitor flips.
pub save-notifications :
    (results : List Monitor) (now : ℕ) (db : Database)
    → let db' = save_monitor_checks results now db in
      ((id : ℕ) → Absent id results → db'.cached id ≡ db.cached id)
      × ((sent : List Notification) × (db'.notifications ≡ db.notifications ++ sent)
          × (map (λ n. n.monitor_id) sent ≡ map (λ r. r.id) (keep (flips now) results)))
unfolding save_monitor_checks
save-notifications results now db =
    let stored : Database = record db {
      checks = db.checks ++ map (check_row now) results;
      cached = bulk_update now results db.cached;
    } in
    let counts = counter_from [] (map (λ (r : Monitor). r.organization_id) results) in
    let same = statistics_only counts now stored in
    (
      λ id a. rw same.1 (bulk_update-Absent now id results db.cached a),
      (notifications_from 0 results, rw same.2 refl, notified-flips now 0 results),
    )
