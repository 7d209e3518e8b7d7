-- ===== src/Uptime/Dispatch.antt =====
-- apps/uptime/tasks.py, `dispatch_checks`: the tick counter in the cache, and the monitors of a tick.
pub mod Window
use Prim.Native.String.{String}
use fork_glitchtip_glitchtip.Common.{
  ℕ, ◌+◌, ◌%◌, ◌≡◌, Bool, true, false, not, ◌&&◌, Option, none, some, List, [], ◌∷◌, map, ltb, leb,
  ◌==◌, if◌then◌else◌, keep,
}
use fork_glitchtip_glitchtip.Uptime.Monitor.{MonitorType, heartbeat}
use fork_glitchtip_glitchtip.Uptime.Runner.{is_heartbeat}
use fork_glitchtip_glitchtip.Uptime.Fetch.{is_empty}

abbrev pub tick_expire : ℕ
tick_expire = 2147483647

-- the columns that the query reads
pub record Scheduled : Type 0 where
  pub id : ℕ
  pub interval : ℕ
  pub url : String
  pub monitor_type : MonitorType
  pub org_throttle : ℕ  -- organization__event_throttle_rate

-- `cache.aincr`, after `cache.aset(…, 0)` where the key is missing
pub next_tick : Option ℕ → ℕ
next_tick none = 0 + 1
next_tick (some n) = n + 1

-- what the cache holds afterwards
pub store_tick : ℕ → ℕ
store_tick tick = if leb tick_expire tick then 0 else tick

-- the filters of the query
pub is_due : ℕ → Scheduled → Bool
is_due tick m =
    ltb m.org_throttle 100
    && (((tick + m.id) % m.interval == 0)
        && not (is_empty m.url && not (is_heartbeat m.monitor_type)))

-- the ids that are enqueued, and the cache
pub dispatch_checks : Option ℕ → List Scheduled → List ℕ × Option ℕ
dispatch_checks cache monitors =
    let tick = next_tick cache in
    (map (λ m. m.id) (keep (is_due tick) monitors), some (store_tick tick))
