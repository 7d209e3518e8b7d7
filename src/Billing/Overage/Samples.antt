-- ===== src/Billing/Overage/Samples.antt =====
-- The schedule of glitchtip/settings.py in thousandths of a cent, and the theorems at it.
use fork_glitchtip_glitchtip.Common.{
  ℕ, ◌+◌, ◌*◌, ◌≤◌, ◌≡◌, ◌↔◌, Option, none, some, List, [], ◌∷◌, refl, arith, sum_range,
}
use fork_glitchtip_glitchtip.Billing.Overage.{
  Tier, exact_cost, cost_cents_for_units, units_for_budget, price_of_event,
}
use fork_glitchtip_glitchtip.Billing.Overage.Graduated.{exact_cost-eq-sum}
use fork_glitchtip_glitchtip.Billing.Overage.Cap.{cost-units_for_budget-le}
use fork_glitchtip_glitchtip.Billing.Overage.Maximal.{units_for_budget_maximal}
use fork_glitchtip_glitchtip.Billing.Overage.Verify.{StripeTier, StripePrice, live_schedule}

abbrev overage_tiers : List Tier
overage_tiers = (some 400000, 15) ∷ (some 2000000, 10) ∷ (none, 8) ∷ []

abbrev thousand : ℕ
thousand = 1000

ten_dollars : units_for_budget overage_tiers thousand 1000 ≡ 66666
unfolding units_for_budget
ten_dollars = refl

million_events : cost_cents_for_units overage_tiers thousand 1000000 ≡ 12000
unfolding cost_cents_for_units
million_events = refl

exact_cost-eq-sum_example :
    exact_cost overage_tiers 4 ≡ sum_range (price_of_event overage_tiers) 0 4
exact_cost-eq-sum_example = exact_cost-eq-sum overage_tiers 4 (omega arith)

cost-units_for_budget-le_example :
    cost_cents_for_units overage_tiers thousand (units_for_budget overage_tiers thousand 1000)
    ≤ 1000
cost-units_for_budget-le_example =
    cost-units_for_budget-le overage_tiers 1000 1000 (omega arith) (omega arith)

units_for_budget_maximal_example :
    (66667 ≤ units_for_budget overage_tiers thousand 1000)
    ↔ (exact_cost overage_tiers 66667 ≤ 1000 * thousand)
units_for_budget_maximal_example =
    units_for_budget_maximal overage_tiers 1000 1000 66667 (omega arith) (omega arith)

abbrev live_tier : Option ℕ → ℕ → StripeTier
live_tier b rate = record {
  up_to = b;
  unit_amount = rate;
  flat_amount = 0;
  flat_amount_decimal = "";
}

abbrev live_price : StripePrice
live_price = record {
  tiers_mode = some "graduated";
  currency = some "usd";
  tiers = live_tier (some 400000) 15 ∷ live_tier (some 2000000) 10 ∷ live_tier none 8 ∷ [];
}

-- every flat amount once, and the units by their tiers
abbrev flats : List StripeTier → ℕ
flats [] = 0
flats (l ∷ tiers) = l.flat_amount + flats tiers

abbrev invoice : StripePrice → ℕ → ℕ
invoice p units = flats p.tiers + sum_range (price_of_event (live_schedule p.tiers)) 0 units
