-- ===== src/Logs/Samples.antt =====
-- The theorems on log events at concrete inputs.
use Prim.Native.String
use Prim.Native.String.{String}
use fork_glitchtip_glitchtip.Common.{
  ℕ, ◌+◌, ◌-◌, ◌*◌, ◌<◌, ◌≡◌, Bool, false, ◌&&◌, leb, Option, none, some, List, [], ◌∷◌, All, map,
  ltb, if◌then◌else◌, refl, ap, ◌∙◌, arith,
}
use fork_glitchtip_glitchtip.Partitions.Uuid7.{ℤ, pos, negsuc, extract_datetime}
use fork_glitchtip_glitchtip.Logs.Span.{parse_span_id, hex_char, resolve_span_id}
use fork_glitchtip_glitchtip.Logs.Span.RoundTrip.{
  hex_value, ReadsDigits, parse_span_id-resolve_span_id,
}
use fork_glitchtip_glitchtip.Logs.Store.{LogTables}
use fork_glitchtip_glitchtip.Logs.Items.{number, LogItem, LogTaskMessage, LogEnv}
use fork_glitchtip_glitchtip.Logs.Process.{all_items, with_message, raised, process_log_events}
use fork_glitchtip_glitchtip.Logs.Process.Accepted.{process_log_events-raises}

-- the value of a code point of a digit
abbrev digit_of : ℕ → ℕ
digit_of c = if ltb c 58 then c - 48 else c - 87

abbrev value_behind : ℕ → List ℕ → ℕ
value_behind high [] = high
value_behind high (c ∷ text) = value_behind (high * 16 + digit_of c) text

-- `int(_, 16)` of digits
abbrev read16 : List ℕ → Option ℤ
read16 text = some (pos (value_behind 0 text))

digit_of-hex_char : (d : ℕ) → d < 16 → digit_of (hex_char d) ≡ d
unfolding hex_char
digit_of-hex_char d small = ground arith

value_behind-map :
    (high : ℕ) (digits : List ℕ)
    → All (λ d. d < 16) digits
    → value_behind high (map hex_char digits) ≡ hex_value high digits
unfolding hex_value
value_behind-map high [] small = refl
value_behind-map high (d ∷ digits) (one, small) =
    ap (λ x. value_behind (high * 16 + x) (map hex_char digits)) (digit_of-hex_char d one)
    ∙ value_behind-map (high * 16 + d) digits small

read16-ReadsDigits : ReadsDigits read16
read16-ReadsDigits d digits small = ap (λ n. some (pos n)) (value_behind-map 0 (d ∷ digits) small)

parse_span_id-resolve_span_id_example :
    parse_span_id read16 (resolve_span_id (some (negsuc 41))) ≡ some (negsuc 41)
parse_span_id-resolve_span_id_example =
    parse_span_id-resolve_span_id read16 (negsuc 41) read16-ReadsDigits (omega arith)

-- a text of a VARCHAR(255)
abbrev short : String → Bool
short s = leb (String.count s) 255

-- the two days of which there are partitions
abbrev in_days : Option ℕ → Bool
in_days none = false
in_days (some time) = leb 1736640000000 time && ltb time 1736812800000

abbrev log_env : LogEnv
log_env = record {
  fromtimestamp = λ n. if ltb n 253402300800000 then some n else none;
  fromisoformat = λ s. none;
  lower = λ s. s;
  uuid_int = λ s. some 7;
  int16 = read16;
  md5_byte = λ s. 12;
  random_a = λ n. n;
  random_b = λ n. n + 1;
  takes = λ r.
      short r.service && (short r.environment && (short r.host && in_days (extract_datetime r.id)));
  takes_hit = λ hit. in_days (some (hit.0).0);
  takes_resource = λ r. short r.1;
}

abbrev item_at : ℕ → LogItem
item_at time = record {
  timestamp = number time;
  level = some "error";
  body = some "disk full";
  trace_id = none;
  span_id = none;
  severity_number = some 17;
  service = some "web";
  environment = none;
  host = some "app-1";
  attributes = "{}";
}

-- two items now, and one of the year before
abbrev message : LogTaskMessage
message = record {
  project_id = 4;
  organization_id = 7;
  logs = item_at 1736730000000 ∷ item_at 1736730000500 ∷ item_at 1705194000000 ∷ [];
}

abbrev late_message : LogTaskMessage
late_message = record { project_id = 5; organization_id = 7; logs = item_at 300000000000000 ∷ [] }

abbrev no_logs : LogTables
no_logs = record { logs = []; counts = λ k org. none; resources = λ r. none }

abbrev batch : List LogTaskMessage
batch = message ∷ []

process_log_events-raises_example :
    process_log_events log_env 1736730001000 (message ∷ late_message ∷ []) no_logs ≡ raised no_logs
unfolding all_items with_message
process_log_events-raises_example =
    process_log_events-raises log_env 1736730001000 (message ∷ late_message ∷ [])
      ((message, item_at 1736730000000)
        ∷ (message, item_at 1736730000500)
        ∷ (message, item_at 1705194000000)
        ∷ [])
      [] late_message (item_at 300000000000000) no_logs refl refl
