-- ===== src/Billing/Throttle/Spend.antt =====
-- What the checks of one billing cycle charge an org, and what they change.
use native.Mathlib.Nat.{le_trans}
use fork_glitchtip_glitchtip.Common.{
  ℕ, ◌≤◌, ◌<◌, ◌≡◌, ◌⊎◌, inl, inr, ◌&&◌, Option, some, List, [], ◌∷◌, ltb, if◌then◌else◌, arith,
  refl, ap, ◌∙◌, Bool-cases,
}
use fork_glitchtip_glitchtip.Billing.Overage.{IsSchedule, cost_cents_for_units, units_for_budget}
use fork_glitchtip_glitchtip.Billing.Overage.Graduated.{exact_cost_mono}
use fork_glitchtip_glitchtip.Billing.Overage.Cap.{cost-le_of_exact, units_for_budget_affordable}
use fork_glitchtip_glitchtip.Billing.Meter.{MeterApi, State, report_overage, base_counter}
use fork_glitchtip_glitchtip.Billing.Meter.Charges.{charged}
use fork_glitchtip_glitchtip.Billing.Meter.Bound.{
  BoundedAt, report_overage-BoundedAt, BoundedAt-weaken, IsNewCycle, new_cycle-BoundedAt,
  ReportInWindow,
}
use fork_glitchtip_glitchtip.Billing.Throttle.{
  Subscription, Org, Settings, billable_units, World, cap_units, subscribed, throttle_of, counted,
  update_rate, check_and_update_throttle,
}

module _ (api : MeterApi) (env : Settings) where
  open api use {recorded}

  -- the billing state after a check of an org with a subscription
  billing_cases :
      (sub : Subscription) (org : Org) (c total : ℕ) (billing : State api)
      → ((subscribed api env sub org (some c) total billing).1 ≡ billing)
        ⊎ ((subscribed api env sub org (some c) total billing).1
            ≡ report_overage api org.stripe_customer c
                (billable_units total sub.plan_events (cap_units api env org))
                billing)
  unfolding subscribed
  billing_cases sub org c total billing = elim (Bool-cases sub.no_throttle) [
    | inl free ↦ rw free (inl refl)
    | inr paid ↦ rw paid (elim (Bool-cases (org.metered_billing_enabled && sub.metered_item)) [
      | inl metered ↦ rw metered (inr refl)
      | inr plain ↦ rw plain (inl refl)
    ])
  ]

  -- a check changes nothing of the org but its throttle rate
  pub org-check :
      (start : Option ℕ) (total : ℕ) (w : World api env)
      → let w' = check_and_update_throttle api env start total w in
        w'.org ≡ record (w.org) { event_throttle_rate = w'.org.event_throttle_rate }
  unfolding check_and_update_throttle update_rate
  org-check start total w = ground arith

  billing-check :
      (start : Option ℕ) (total : ℕ) (w : World api env)
      → (check_and_update_throttle api env start total w).billing ≡ (
          if env.billing_enabled
          then (throttle_of api env w.org.primary_subscription w.org start total w.billing).1
          else w.billing)
  unfolding check_and_update_throttle update_rate
  billing-check start total w = ground arith

  -- A check mails exactly when it raises the throttle rate, once; it changes nothing of the org but
  -- the rate.
  pub mails-check :
      (start : Option ℕ) (total : ℕ) (w : World api env)
      → let w' = check_and_update_throttle api env start total w in
        (w'.mails ≡ (
          if ltb w.org.event_throttle_rate w'.org.event_throttle_rate
          then counted api env w.org.primary_subscription total ∷ w.mails
          else w.mails))
        × (w'.org ≡ record (w.org) { event_throttle_rate = w'.org.event_throttle_rate })
  unfolding check_and_update_throttle update_rate
  mails-check start total w = (ground arith, org-check start total w)

  -- the subscription and the spend cap of the org
  abbrev Terms : Subscription → ℕ → World api env → Type 0
  Terms sub cents w =
      (w.org.primary_subscription ≡ some sub) × (w.org.overage_spend_cap_cents ≡ cents)

  Terms-check :
      (sub : Subscription) (cents : ℕ) (start : Option ℕ) (total : ℕ) (w : World api env)
      → Terms sub cents w
      → Terms sub cents (check_and_update_throttle api env start total w)
  Terms-check sub cents start total w (same_sub, same_cap) =
      let kept = org-check start total w in
      (
        ap (λ (o : Org). o.primary_subscription) kept ∙ same_sub,
        ap (λ (o : Org). o.overage_spend_cap_cents) kept ∙ same_cap,
      )

  abbrev Bounded : ℕ → ℕ → State api → Type 0
  Bounded c top s = BoundedAt c top (base_counter s.row c) (recorded s.meter)

  pub billable : Subscription → ℕ → ℕ → ℕ
  billable sub cents total =
      billable_units total sub.plan_events (units_for_budget env.tiers env.cent cents)

  check-Bounded :
      (sub : Subscription) (cents c top total : ℕ) (w : World api env)
      → Terms sub cents w
      → top ≤ billable sub cents total
      → ReportInWindow api c (billable sub cents total) w.billing.row w.billing.meter
      → Bounded c top w.billing
      → Bounded c
          (billable sub cents total)
          (check_and_update_throttle api env (some c) total w).billing
  unfolding billable throttle_of cap_units billable_units subscribed
  check-Bounded sub cents c top total w (same_sub, same_cap) low window b =
      rw billing-check (elim (Bool-cases env.billing_enabled) [
        | inr off ↦ rw off (BoundedAt-weaken c top _ _ _ low b)
        | inl on ↦
            rw (on, same_sub)
              (elim (billing_cases sub w.org c total w.billing) [
                | inl same ↦ rw same (BoundedAt-weaken c top _ _ _ low b)
                | inr sent ↦
                    rw (sent, same_cap)
                      (report_overage-BoundedAt api w.org.stripe_customer c top _ w.billing low
                        window b)
              ])
      ])

  -- the checks of a cycle at rising event counts
  pub check_all : ℕ → List ℕ → World api env → World api env
  check_all c [] w = w
  check_all c (total ∷ totals) w =
      check_all c totals (check_and_update_throttle api env (some c) total w)

  -- Each check that may send the identifier of a recorded event does so while the meter remembers
  -- it.
  unfoldable pub RetriesRemembered : Subscription → ℕ → ℕ → List ℕ → World api env → Type 0
  RetriesRemembered sub cents c [] w = Unit
  RetriesRemembered sub cents c (total ∷ totals) w =
      ReportInWindow api c (billable sub cents total) w.billing.row w.billing.meter
      × RetriesRemembered sub cents c totals (check_and_update_throttle api env (some c) total w)

  abbrev pub RisingCounts : ℕ → List ℕ → Type 0
  RisingCounts low [] = Unit
  RisingCounts low (total ∷ totals) = (low ≤ total) × RisingCounts total totals

  billable_mono :
      (sub : Subscription) (cents low total : ℕ)
      → low ≤ total
      → billable sub cents low ≤ billable sub cents total
  unfolding billable billable_units
  billable_mono sub cents low total h = omega arith

  billable-le :
      (sub : Subscription) (cents total : ℕ)
      → billable sub cents total ≤ units_for_budget env.tiers env.cent cents
  unfolding billable billable_units
  billable-le sub cents total = omega arith

  charged-check_all :
      (sub : Subscription) (cents c low : ℕ) (totals : List ℕ) (w : World api env)
      → Terms sub cents w
      → RisingCounts low totals
      → RetriesRemembered sub cents c totals w
      → Bounded c (billable sub cents low) w.billing
      → charged c (recorded (check_all c totals w).billing.meter)
        ≤ units_for_budget env.tiers env.cent cents
  unfolding check_all RetriesRemembered
  charged-check_all sub cents c low [] w terms r windows b =
      omega (arith, b.settled, b.pending, billable-le sub cents low)
  charged-check_all sub cents c low (total ∷ totals) w terms (up, r) (window, windows) b =
      charged-check_all sub cents c total totals _ (Terms-check sub cents (some c) total w terms) r
        windows
        (check-Bounded sub cents c _ total w terms (billable_mono sub cents low total up) window b)

  -- Over the throttle checks of a billing cycle, at event counts that do not fall and with sends
  -- that may fail whether or not they were recorded, what Stripe has recorded for the cycle costs
  -- the org at most its spend cap, if the org has a subscription, its terms do not change, nothing
  -- was recorded for the cycle before, no check sends the identifier of a recorded event that Stripe
  -- does not remember any more, and the boundaries of the price schedule increase.
  pub cycle_cost-le-spend_cap :
      (sub : Subscription) (c : ℕ) (totals : List ℕ) (w : World api env)
      → 0 < env.cent
      → IsSchedule 0 env.tiers
      → w.org.primary_subscription ≡ some sub
      → IsNewCycle api c w.billing
      → RisingCounts 0 totals
      → RetriesRemembered sub w.org.overage_spend_cap_cents c totals w
      → cost_cents_for_units env.tiers env.cent
          (charged c (recorded (check_all c totals w).billing.meter))
        ≤ w.org.overage_spend_cap_cents
  cycle_cost-le-spend_cap sub c totals w cent_pos s same new r windows =
      let cents = w.org.overage_spend_cap_cents in
      let start =
        BoundedAt-weaken c 0 (billable sub cents 0) _ _ (omega arith)
          (new_cycle-BoundedAt api c w.billing new) in
      let units = charged-check_all sub cents c 0 totals w (same, refl) r windows start in
      cost-le_of_exact env.tiers env.cent cents _ cent_pos (
        le_trans (exact_cost_mono env.tiers _ _ s units)
          (units_for_budget_affordable env.tiers env.cent cents s))
