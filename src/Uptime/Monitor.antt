-- ===== src/Uptime/Monitor.antt =====
-- The dictionary of a monitor as `perform_checks` reads it from the database, with the keys that
-- `fetch` adds (apps/uptime/models.py, apps/uptime/constants.py, apps/uptime/utils.py).
use Prim.Native.String.{String}
use fork_glitchtip_glitchtip.Common.{ℕ, Bool, Option}

pub data MonitorType : Type 0 where
  ping get post port ssl heartbeat : MonitorType

pub data CheckReason : Type 0 where
  unknown timed_out wrong_status wrong_body ssl_error network : CheckReason

pub record Monitor : Type 0 where
  pub id : ℕ
  pub organization_id : ℕ
  pub monitor_type : MonitorType
  pub url : String
  pub expected_status : Option ℕ
  pub expected_body : String
  pub confirmation_threshold : Option ℕ
  pub cached_consecutive_down : Option ℕ
  pub latest_is_up : Option Bool  -- cached_is_up
  pub last_change : Option ℕ  -- cached_last_change
  pub is_up : Bool  -- set by `fetch`, as the four below
  pub reason : Option CheckReason
  pub response_time : Option ℕ
  pub payload : Option String  -- data["payload"]
