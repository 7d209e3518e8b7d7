-- ===== src/Logs/Items.antt =====
-- apps/logs/process_logs.py: the items of a batch and what `process_log_events` reads from one,
-- with apps/logs/constants.py and `compute_hash_bucket` of apps/logs/models.py. Times are
-- milliseconds from the epoch.
use Prim.Native.String.{String}
use fork_glitchtip_glitchtip.Common.{
  ℕ, ◌+◌, ◌-◌, Bool, Option, none, some, List, leb, ◌==◌, if◌then◌else◌,
}
use fork_glitchtip_glitchtip.Ingest.Scrub.Keys.{same_text}
use fork_glitchtip_glitchtip.Partitions.Uuid7.{ℤ}
use fork_glitchtip_glitchtip.Logs.Store.{LogRow, StatKey, Resource}

pub data TimestampValue : Type 0 where
  number : ℕ → TimestampValue
  text : String → TimestampValue
  other_value : TimestampValue

-- A log item; `attributes` is `data`, the JSON text of the keys that are not among the excluded
-- ones, and a span identifier is the list of its code points.
pub record LogItem : Type 0 where
  pub timestamp : TimestampValue
  pub level : Option String
  pub body : Option String
  pub trace_id : Option String
  pub span_id : Option (List ℕ)
  pub severity_number : Option ℕ
  pub service : Option String
  pub environment : Option String
  pub host : Option String
  pub attributes : String

pub record LogTaskMessage : Type 0 where
  pub project_id : ℕ
  pub organization_id : ℕ
  pub logs : List LogItem

-- Python's conversions, none where they raise, with the replacement of "Z" in `fromisoformat`; the
-- first byte of an MD5 digest; the random bits of the n-th identifier; and the rows
-- that the tables of logs, of hourly counts and of resources take, which have a partition and whose
-- values fit in their columns
pub record LogEnv : Type 0 where
  pub fromtimestamp : ℕ → Option ℕ
  pub fromisoformat : String → Option ℕ
  pub lower : String → String
  pub uuid_int : String → Option ℕ
  pub int16 : List ℕ → Option ℤ
  pub md5_byte : String → ℕ
  pub random_a : ℕ → ℕ
  pub random_b : ℕ → ℕ
  pub takes : LogRow → Bool
  pub takes_hit : StatKey × ℕ → Bool
  pub takes_resource : Resource → Bool

abbrev pub or_text : Option String → String → String
or_text none default = default
or_text (some s) default = s

-- LEVEL_MAP
pub level_map : String → Option ℕ
level_map s =
    if same_text s "trace"
    then some 0
    else if same_text s "debug"
    then some 1
    else if same_text s "info"
    then some 2
    else if same_text s "warn"
    then some 3
    else if same_text s "warning"
    then some 3
    else if same_text s "error"
    then some 4
    else if same_text s "fatal"
    then some 5
    else none

abbrev pub or_info : Option ℕ → ℕ
or_info none = 2
or_info (some level) = level

-- `validate_timestamp`
unfoldable pub validate_timestamp : ℕ → ℕ → Bool
validate_timestamp client_timestamp server_time =
    leb (client_timestamp - server_time + (server_time - client_timestamp)) 86400000

-- `compute_hash_bucket`
pub compute_hash_bucket : (String → ℕ) → String → ℕ
compute_hash_bucket md5_byte name = if same_text name "" then 0 else md5_byte name

-- an all-zero trace identifier is NULL
abbrev pub non_zero : Option ℕ → Option ℕ
non_zero none = none
non_zero (some n) = if n == 0 then none else some n

abbrev pub trace_of : (String → Option ℕ) → Option String → Option ℕ
trace_of uuid_int none = none
trace_of uuid_int (some s) = if same_text s "" then none else non_zero (uuid_int s)

abbrev pub log_timestamp : LogEnv → ℕ → TimestampValue → Option ℕ
log_timestamp env server_time (number n) = env.fromtimestamp n
log_timestamp env server_time (text s) = env.fromisoformat s
log_timestamp env server_time other_value = some server_time
