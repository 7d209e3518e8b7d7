-- ===== src/Uptime/Samples.antt =====
-- A monitor, its probes and its checks, and the theorems about uptime at them.
use fork_glitchtip_glitchtip.Common.{
  ℕ, ◌+◌, ◌≡◌, ◌≢◌, ◌<◌, Bool, true, false, none, some, List, [], ◌∷◌, arith, refl,
}
use fork_glitchtip_glitchtip.Uptime.Monitor.{Monitor, get, heartbeat}
use fork_glitchtip_glitchtip.Uptime.Debounce.History.{after}
use fork_glitchtip_glitchtip.Uptime.Debounce.Notices.{
  notices, notices_alternate, Alternating, announced,
}
use fork_glitchtip_glitchtip.Uptime.Save.{Database}
use fork_glitchtip_glitchtip.Uptime.Runner.{Round}
use fork_glitchtip_glitchtip.Uptime.Fetch.{Probe, failed, timeout_failure}
use fork_glitchtip_glitchtip.Uptime.Dispatch.{Scheduled, is_due}
use fork_glitchtip_glitchtip.Uptime.Dispatch.Window.{due_once}

abbrev site : Monitor
site = record {
  id = 4;
  organization_id = 1;
  monitor_type = get;
  url = "https://example.com";
  expected_status = some 200;
  expected_body = "ok";
  confirmation_threshold = some 2;
  cached_consecutive_down = some 0;
  latest_is_up = none;
  last_change = none;
  is_up = false;
  reason = none;
  response_time = none;
  payload = none;
}

abbrev beat : Monitor
beat = record site { id = 5; monitor_type = heartbeat; is_up = true }

-- up, then two failures, the latest first
abbrev outage : List (ℕ × Bool)
outage = (180, false) ∷ (120, false) ∷ (60, true) ∷ []

notices_alternate_example :
    Alternating (notices site outage)
    × (announced (notices site outage) ≡ (after site outage).latest_is_up)
notices_alternate_example = notices_alternate site outage refl

abbrev database : Database
database = record {
  checks = [];
  cached = λ id. record { is_up = none; last_change = none; consecutive_down = 0 };
  statistics = λ org h. 0;
  has_partition = λ h. true;
  notifications = [];
}

four_five : ◌≢◌ {A = ℕ} 4 5
four_five = omega arith

abbrev waits : List Round
waits =
    record { done = some site ∷ none ∷ []; clock = 1500; flushed_at = 1600 }
    ∷ record { done = some beat ∷ some site ∷ []; clock = 1700; flushed_at = 1800 }
    ∷ []

abbrev slow : Probe
slow = record {
  recent_check = false;
  url_safe = true;
  exchange = failed timeout_failure;
  elapsed = 20000;
}

abbrev scheduled : Scheduled
scheduled = record {
  id = 4;
  interval = 60;
  url = "https://example.com";
  monitor_type = get;
  org_throttle = 0;
}

due_once_example :
    (k : ℕ) × (k < 60)
    × (is_due (100 + k) scheduled ≡ true)
    × ((j : ℕ) → j < 60 → is_due (100 + j) scheduled ≡ true → j ≡ k)
due_once_example = due_once 100 scheduled (omega arith) (omega arith, refl)
