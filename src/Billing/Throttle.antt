-- ===== src/Billing/Throttle.antt =====
-- apps/organizations_ext/tasks.py: `_progressive_throttle` and `_check_and_update_throttle`.
-- The event counts of the period and the dates of the cycle are inputs.
pub mod Ramp
pub mod Spend
mod Samples
use fork_glitchtip_glitchtip.Common.{
  ℕ, ◌+◌, ◌-◌, ◌/◌, ◌≡◌, Bool, true, false, ◌&&◌, not, Option, none, some, List, [], ◌∷◌, ltb, ◌==◌,
  if◌then◌else◌, min,
}
use fork_glitchtip_glitchtip.Billing.Overage.{Tier, units_for_budget}
use fork_glitchtip_glitchtip.Billing.Meter.{MeterApi, State, report_overage}

-- `_progressive_throttle`
pub progressive_throttle : ℕ → ℕ → ℕ → ℕ
progressive_throttle usage start width =
    if ltb (start + width) usage
    then 100
    else if ltb (start + width / 2) usage
    then 50
    else if ltb start usage
    then 10
    else 0

pub record Subscription : Type 0 where
  pub no_throttle : Bool  -- price.no_throttle
  pub plan_events : ℕ  -- price.product.events
  pub metered_item : Bool  -- whether there is a metered_item_id

pub record Org : Type 0 where
  pub primary_subscription : Option Subscription
  pub metered_billing_enabled : Bool
  pub overage_spend_cap_cents : ℕ
  pub stripe_customer : Bool  -- whether there is a stripe_customer_id
  pub event_throttle_rate : ℕ

-- the settings that the check reads
pub record Settings : Type 0 where
  pub billing_enabled : Bool
  pub free_tier_events : ℕ
  pub tiers : List Tier
  pub cent : ℕ

-- `min(max(0, total_event_count - plan_events), cap_units)`
pub billable_units : ℕ → ℕ → ℕ → ℕ
billable_units total plan_events cap_units = min (total - plan_events) cap_units

module _ (api : MeterApi) (env : Settings) where
  -- the database with the meter, and the throttle mails enqueued, each with the event count
  pub record World : Type 0 where
    pub org : Org
    pub billing : State api
    pub mails : List ℕ

  pub cap_units : Org → ℕ
  cap_units org = units_for_budget env.tiers env.cent org.overage_spend_cap_cents

  -- the throttle of an org with a subscription, and the billing state after the report; `start` is
  -- the start of the period, if there is one, and `total` the event count in it
  pub subscribed : Subscription → Org → Option ℕ → ℕ → State api → ℕ × State api
  subscribed sub org none total billing =
      if sub.no_throttle
      then (0, billing)
      else (progressive_throttle total sub.plan_events sub.plan_events, billing)
  subscribed sub org (some start) total billing =
      let plan = sub.plan_events in
      let units = cap_units org in
      let billed =
        report_overage api org.stripe_customer start (billable_units total plan units) billing in
      if sub.no_throttle
      then (0, billing)
      else if org.metered_billing_enabled && sub.metered_item
      then (progressive_throttle total (plan + units) plan, billed)
      else (progressive_throttle total plan plan, billing)

  pub throttle_of : Option Subscription → Org → Option ℕ → ℕ → State api → ℕ × State api
  throttle_of none org start total billing =
      (progressive_throttle total env.free_tier_events env.free_tier_events, billing)
  throttle_of (some sub) org start total billing = subscribed sub org start total billing

  -- the count that the mail names: 0 where the price exempts the org
  pub counted : Option Subscription → ℕ → ℕ
  counted none total = total
  counted (some sub) total = if sub.no_throttle then 0 else total

  -- the rest of the check: save a changed rate, mail a raised one
  pub update_rate : ℕ → ℕ → World → World
  update_rate rate total w =
      let old = w.org.event_throttle_rate in
      let org' = record (w.org) { event_throttle_rate = rate } in
      if old == rate
      then w
      else record w { org = org'; mails = if ltb old rate then total ∷ w.mails else w.mails }

  pub check_and_update_throttle : Option ℕ → ℕ → World → World
  check_and_update_throttle start total w =
      let sub = w.org.primary_subscription in
      let (rate, billing') = throttle_of sub w.org start total w.billing in
      if env.billing_enabled
      then update_rate rate (counted sub total) (record w { billing = billing' })
      else w
