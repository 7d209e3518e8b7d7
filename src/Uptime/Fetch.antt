-- ===== src/Uptime/Fetch.antt =====
-- apps/uptime/utils.py: `process_response` and `fetch`. What the network, the clock and the table
-- of checks answer is an input of the probe.
pub mod Verdict
use Prim.Native.String
use Prim.Native.String.{String}
use text.Mathlib.Text.{find?}
use fork_glitchtip_glitchtip.Common.{
  ℕ, zero, suc, ◌+◌, ◌≡◌, Bool, true, false, not, ◌&&◌, ◌||◌, Option, none, some, ◌==◌,
  if◌then◌else◌,
}
use fork_glitchtip_glitchtip.Uptime.Monitor.{
  Monitor, MonitorType, ping, get, post, port, ssl, heartbeat, CheckReason, unknown, timed_out,
  wrong_status, wrong_body, ssl_error, network,
}
use fork_glitchtip_glitchtip.Uptime.Debounce.{same_state}

-- the first `except` clause that takes an exception
pub data Failure : Type 0 where
  ssl_failure timeout_failure connection_failure os_failure other_failure : Failure

-- what the connection gives: a status with the decoded body, of which at most `payload_limit`
-- bytes were read, or an exception; for a TCP port an answer means that it accepted
pub data Exchange : Type 0 where
  answered : ℕ → String → Exchange
  failed : Failure → Exchange

pub record Probe : Type 0 where
  pub recent_check : Bool  -- a check of the heartbeat within its interval exists
  pub url_safe : Bool  -- `check_url_safe`
  pub exchange : Exchange
  pub elapsed : ℕ  -- milliseconds

abbrev pub payload_save_limit : ℕ
payload_save_limit = 500000

-- `payload[:n]`
pub take_chars : ℕ → String → String
take_chars zero s = ""
take_chars (suc n) String.[] = ""
take_chars (suc n) (String.◌∷◌ c s) = String.◌∷◌ c (take_chars n s)

-- `part in text`
pub has_text : String → String → Bool
has_text part text = elim (find? text part) [ none ↦ false | some i ↦ true ]

abbrev pub is_empty : String → Bool
is_empty String.[] = true
is_empty (String.◌∷◌ c s) = false

abbrev pub same_status : ℕ → Option ℕ → Bool
same_status status none = false
same_status status (some expected) = status == expected

unfoldable pub process_response : Monitor → ℕ → String → Monitor
process_response m status body =
    let mismatch = record m { reason = some wrong_body } in
    if same_status status m.expected_status
    then if is_empty m.expected_body
      then record m { is_up = true }
      else if has_text m.expected_body body
      then record m { is_up = true }
      else if not (same_state m.latest_is_up (some m.is_up))
      then record mismatch { payload = some (take_chars payload_save_limit body) }
      else mismatch
    else record m { reason = some wrong_status }

unfoldable pub failure_reason : Failure → CheckReason
failure_reason ssl_failure = ssl_error
failure_reason timeout_failure = timed_out
failure_reason connection_failure = network
failure_reason os_failure = unknown
failure_reason other_failure = unknown

-- what a probe that was answered does to a monitor of each type; no branch is for SSL
unfoldable pub answer : MonitorType → Monitor → ℕ → String → Monitor
answer port m status body = record m { is_up = true }
answer ping m status body = record m { is_up = true }
answer get m status body = process_response m status body
answer post m status body = process_response m status body
answer ssl m status body = m
answer heartbeat m status body = m

-- whether the type opens a connection
unfoldable pub connects : MonitorType → Bool
connects ssl = false
connects heartbeat = false
connects _ = true

unfoldable pub exchanged : MonitorType → Monitor → Exchange → ℕ → Monitor
exchanged t m (answered status body) elapsed = record (answer t m status body) {
  response_time = some elapsed;
}
exchanged t m (failed e) elapsed =
    if connects t
    then record m { reason = some (failure_reason e) }
    else record m { response_time = some elapsed }

unfoldable pub fetch_kind : MonitorType → Probe → Monitor → Monitor
fetch_kind heartbeat p m = if p.recent_check then record m { is_up = true } else m
fetch_kind t p m =
    if p.url_safe then exchanged t m p.exchange p.elapsed else record m { reason = some network }

unfoldable pub fetch : Probe → Monitor → Monitor
fetch p m = fetch_kind m.monitor_type p (record m { is_up = false })
