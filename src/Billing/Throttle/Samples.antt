-- ===== src/Billing/Throttle/Samples.antt =====
-- The theorems about throttling at an org with a plan of 1000 events and a cap of 20 cents.
use fork_glitchtip_glitchtip.Common.{ℕ, ◌≤◌, true, false, none, some, List, [], ◌∷◌, arith, refl}
use fork_glitchtip_glitchtip.Billing.Overage.{cost_cents_for_units}
use fork_glitchtip_glitchtip.Billing.Meter.Charges.{charged}
use fork_glitchtip_glitchtip.Billing.Meter.Script.{answered, unanswered, lost, script_meter}
use fork_glitchtip_glitchtip.Billing.Throttle.{Subscription, Settings, World, progressive_throttle}
use fork_glitchtip_glitchtip.Billing.Throttle.Ramp.{progressive_throttle_antitone}
use fork_glitchtip_glitchtip.Billing.Throttle.Spend.{
  RetriesRemembered, check_all, cycle_cost-le-spend_cap,
}

abbrev plan : Subscription
plan = record { no_throttle = false; plan_events = 1000; metered_item = true }

abbrev env : Settings
env = record {
  billing_enabled = true;
  free_tier_events = 1000;
  tiers = (some 400000, 15) ∷ (some 2000000, 10) ∷ (none, 8) ∷ [];
  cent = 1000;
}

abbrev world : World script_meter env
world = record {
  org = record {
    primary_subscription = some plan;
    metered_billing_enabled = true;
    overage_spend_cap_cents = 20;
    stripe_customer = true;
    event_throttle_rate = 0;
  };
  billing = record {
    row = record { units_reported = 0; period_start = none };
    locked = false;
    meter = record { events = []; deliveries = unanswered ∷ lost ∷ answered ∷ [] };
  };
  mails = [];
}

abbrev counts : List ℕ
counts = 900 ∷ 1500 ∷ 2000 ∷ 4000 ∷ []

-- the scripted meter forgets nothing
retries_remembered :
    (sub : Subscription) (cents c : ℕ) (totals : List ℕ) (w : World script_meter env)
    → RetriesRemembered script_meter env sub cents c totals w
unfolding RetriesRemembered
retries_remembered sub cents c [] w = tt
retries_remembered sub cents c (total ∷ totals) w =
    ((λ _ h. h), retries_remembered sub cents c totals _)

cycle_cost-le-spend_cap_example :
    cost_cents_for_units env.tiers env.cent
      (charged 5 (check_all script_meter env 5 counts world).billing.meter.events)
    ≤ 20
cycle_cost-le-spend_cap_example =
    cycle_cost-le-spend_cap script_meter env plan 5 counts world (omega arith) (omega arith) refl
      (record { other_period = refl; unrecorded = tt }) (omega arith)
      (retries_remembered plan 20 5 counts world)

progressive_throttle-antitone_example :
    progressive_throttle 1600 1300 1000 ≤ progressive_throttle 1600 1000 1000
progressive_throttle-antitone_example =
    progressive_throttle_antitone 1600 1000 1300 1000 (omega arith)
