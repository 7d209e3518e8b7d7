-- ===== src/Logs/Process/Slots.antt =====
-- The items of a batch that fall into a slot of the hourly statistics.
use fork_glitchtip_glitchtip.Common.{
  ℕ, ◌+◌, ◌*◌, ◌≡◌, Bool, ◌&&◌, ltb, leb, Option, none, some, List, [], ◌∷◌, ◌==◌, if◌then◌else◌,
  refl, arith,
}
use fork_glitchtip_glitchtip.Logs.Store.{LogRow, same_stat}
use fork_glitchtip_glitchtip.Logs.Items.{
  LogItem, LogTaskMessage, LogEnv, validate_timestamp, compute_hash_bucket, log_timestamp,
}
use fork_glitchtip_glitchtip.Logs.Process.{log_row, log_hour, stat_key}
use fork_glitchtip_glitchtip.Logs.Process.Counts.{item_key, key_at, items_count}

-- a time in the m-th hour
in_log_hour : ℕ → ℕ → Bool
in_log_hour m time = leb (3600000 * m) time && ltb time (3600000 * m + 3600000)

-- a row in the m-th hour, with a project, a level and buckets
in_slot : LogEnv → LogRow → ℕ → ℕ → ℕ → ℕ → ℕ → ℕ → Bool
in_slot env r time m project level service environment =
    in_log_hour m time
    && ((r.project_id == project)
        && ((r.level == level)
            && ((compute_hash_bucket env.md5_byte r.service == service)
                && (compute_hash_bucket env.md5_byte r.environment == environment))))

slot_at : LogEnv → ℕ → LogTaskMessage → LogItem → ℕ → ℕ → ℕ → ℕ → ℕ → Option ℕ → ℕ
slot_at env server_time message item m project level service environment none = 0
slot_at env server_time message item m project level service environment (some time) =
    if validate_timestamp time server_time
      && in_slot env (log_row env message item 0) time m project level service environment
    then 1
    else 0

-- the items with an acceptable time in the m-th hour, with a project, a level and buckets
pub slot_items : LogEnv → ℕ → ℕ → ℕ → ℕ → ℕ → ℕ → List (LogTaskMessage × LogItem) → ℕ
slot_items env server_time m project level service environment [] = 0
slot_items env server_time m project level service environment ((message, item) ∷ items) =
    slot_at env server_time message item m project level service environment
      (log_timestamp env server_time item.timestamp)
    + slot_items env server_time m project level service environment items

log_hour_lem : (time m : ℕ) → (log_hour time == 3600000 * m) ≡ in_log_hour m time
unfolding log_hour in_log_hour
log_hour_lem time m = ground arith

same_slot :
    (env : LogEnv) (message : LogTaskMessage) (item : LogItem)
    (time m project level service environment : ℕ)
    → same_stat (item_key env message item time) (3600000 * m, project, level, service, environment)
      ≡ in_slot env (log_row env message item 0) time m project level service environment
unfolding item_key stat_key in_slot
same_slot env message item time m project level service environment = rw (log_hour_lem time m) refl

pub items_count-slot :
    (env : LogEnv) (server_time m project level service environment : ℕ)
    (items : List (LogTaskMessage × LogItem))
    → items_count env server_time (3600000 * m, project, level, service, environment) items
      ≡ slot_items env server_time m project level service environment items
unfolding items_count slot_items key_at slot_at
items_count-slot env server_time m project level service environment [] = refl
items_count-slot env server_time m project level service environment ((message, item) ∷ items) =
    omega (
      arith,
      here (log_timestamp env server_time item.timestamp),
      items_count-slot env server_time m project level service environment items,
    )
  where
    here :
        (t : Option ℕ)
        → key_at env server_time message item (3600000 * m, project, level, service, environment) t
          ≡ slot_at env server_time message item m project level service environment t
    here none = refl
    here (some time) =
        rw (key_at, slot_at, same_slot env message item time m project level service environment)
          refl
