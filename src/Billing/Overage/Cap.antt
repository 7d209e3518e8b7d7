-- ===== src/Billing/Overage/Cap.antt =====
-- The unit ceiling that `units_for_budget` finds for a spend cap.
use native.Mathlib.Nat.{div-mul-le_self, div-lt_iff_lt-mul, mul-le-mul_right}
use native.Mathlib.Decide.{dec_le}
use fork_glitchtip_glitchtip.Common.{
  ℕ, zero, suc, ◌+◌, ◌-◌, ◌*◌, ◌/◌, ◌≤◌, ◌<◌, ◌≡◌, none, some, List, [], ◌∷◌, refl, arith, le→leb,
  lt→leb_false, sum_range, sum_range-const,
}
use fork_glitchtip_glitchtip.Billing.Overage.{
  Tier, units_loop, units_for_budget, exact_cost, cost_cents_for_units, IsSchedule, round_half_up,
  price_of_event,
}
use fork_glitchtip_glitchtip.Billing.Overage.Graduated.{band_sum, split_sum, exact_cost-eq-sum}

-- The units found are not below `prev` and cost at most the budget.
pub record Affords (tiers : List Tier) (prev budget units : ℕ) : Type 0 where
  pub from_prev : prev ≤ units
  pub within : sum_range (price_of_event tiers) prev (units - prev) ≤ budget

module _ (tiers : List Tier) where
  Affords-nothing : (prev budget : ℕ) → Affords tiers prev budget prev
  Affords-nothing prev budget =
      let empty : prev - prev ≡ 0 = omega arith in
      record { from_prev = omega arith; within = rw empty (omega arith) }

  -- a bounded band is consumed and the rest of the budget carried forward
  Affords-carry :
      (b rate prev budget units : ℕ)
      → prev < b
      → (b - prev) * rate ≤ budget
      → Affords tiers b (budget - (b - prev) * rate) units
      → Affords ((some b, rate) ∷ tiers) prev budget units
  Affords-carry b rate prev budget units s fits a = record {
    from_prev = omega (arith, a.from_prev);
    within = omega (arith, a.within, split_sum b rate tiers prev units s a.from_prev);
  }

  -- the budget ends inside a bounded band
  Affords-inside :
      (b rate prev budget n : ℕ)
      → prev + n ≤ b
      → n * rate ≤ budget
      → Affords ((some b, rate) ∷ tiers) prev budget (prev + n)
  Affords-inside b rate prev budget n s fits =
      let count : prev + n - prev ≡ n = omega arith in
      record {
        from_prev = omega arith;
        within = rw count (omega (arith, band_sum b rate tiers prev n s));
      }

-- the price sum within an unbounded tier
pub unbounded_sum :
    (rate prev n : ℕ) → sum_range (price_of_event ((none, rate) ∷ [])) prev n ≡ n * rate
unbounded_sum rate prev n =
    sum_range-const (price_of_event ((none, rate) ∷ [])) rate prev n (λ k p q. refl)

Affords-unbounded :
    (rate prev budget n : ℕ)
    → n * rate ≤ budget
    → Affords ((none, rate) ∷ []) prev budget (prev + n)
Affords-unbounded rate prev budget n fits =
    let count : prev + n - prev ≡ n = omega arith in
    record { from_prev = omega arith; within = rw count (omega (arith, unbounded_sum rate prev n)) }

-- all of a band fits when the affordable number of units exceeds its capacity
pub band_fits : (n rate budget : ℕ) → n < budget / rate → n * rate ≤ budget
band_fits n rate budget h = omega (
  arith,
  mul-le-mul_right {m = n} {n = budget / rate} rate (omega arith),
  div-mul-le_self budget rate,
)

pub units_loop-Affords :
    (tiers : List Tier) (prev budget : ℕ)
    → IsSchedule prev tiers
    → Affords tiers prev budget (units_loop tiers prev prev budget)
unfolding units_loop
units_loop-Affords [] prev budget s = Affords-nothing [] prev budget
units_loop-Affords ((none, zero) ∷ tiers) prev budget s =
    Affords-nothing ((none, 0) ∷ tiers) prev budget
units_loop-Affords ((none, suc r) ∷ []) prev budget s =
    Affords-unbounded (suc r) prev budget (budget / suc r) (div-mul-le_self budget (suc r))
units_loop-Affords ((none, suc r) ∷ t ∷ tiers) prev budget s = elim s [ ]
units_loop-Affords ((some b, zero) ∷ tiers) prev budget (s, ss) =
    let filled : prev + (b - prev) ≡ b = omega arith in
    let kept : budget - (b - prev) * 0 ≡ budget = omega arith in
    rw filled (
      Affords-carry tiers b 0 prev budget _ s (omega arith)
        (rw kept (units_loop-Affords tiers b budget ss)))
units_loop-Affords ((some b, suc r) ∷ tiers) prev budget (s, ss) =
    let filled : prev + (b - prev) ≡ b = omega arith in
    elim (dec_le (budget / suc r) (b - prev)) [
      | yes inside ↦ rw (le→leb (budget / suc r) (b - prev) inside) (
          Affords-inside tiers b (suc r) prev budget (budget / suc r) (omega arith)
            (div-mul-le_self budget (suc r)))
      | no past ↦
          rw (lt→leb_false (budget / suc r) (b - prev) (omega arith), filled)
            (Affords-carry tiers b (suc r) prev budget _ s
              (band_fits (b - prev) (suc r) budget (omega arith))
              (units_loop-Affords tiers b (budget - (b - prev) * suc r) ss))
    ]

-- The exact graduated cost of the unit ceiling found for a spend cap is at most the cap, for every
-- schedule with increasing boundaries.
pub units_for_budget_affordable :
    (tiers : List Tier) (cent cap : ℕ)
    → IsSchedule 0 tiers
    → exact_cost tiers (units_for_budget tiers cent cap) ≤ cap * cent
unfolding units_for_budget
units_for_budget_affordable tiers cent zero s = omega (arith, exact_cost-eq-sum tiers 0 s)
units_for_budget_affordable tiers cent (suc cap) s =
    let found = units_loop-Affords tiers 0 (suc cap * cent) s in
    let units = units_loop tiers 0 0 (suc cap * cent) in
    let whole : units - 0 ≡ units = omega arith in
    rw (exact_cost-eq-sum tiers units s) (rw whole at (found.within))

-- rounding half up does not pass an amount of whole cents
round_half_up-le :
    (cent cap total : ℕ) → 0 < cent → total ≤ cap * cent → round_half_up cent total ≤ cap
unfolding round_half_up
round_half_up-le cent cap total c h =
    let below : 2 * total + cent < (cap + 1) * (2 * cent) = omega arith in
    omega (arith, (div-lt_iff_lt-mul {k = 2 * cent} (omega arith)).1 below)

-- an exact cost within the cap is billed within the cap
pub cost-le_of_exact :
    (tiers : List Tier) (cent cap units : ℕ)
    → 0 < cent
    → exact_cost tiers units ≤ cap * cent
    → cost_cents_for_units tiers cent units ≤ cap
unfolding cost_cents_for_units
cost-le_of_exact tiers cent cap zero c h = omega arith
cost-le_of_exact tiers cent cap (suc units) c h = round_half_up-le cent cap _ c h

-- What an org is billed for the unit ceiling of its spend cap is at most the cap in cents, also
-- after rounding, for every schedule with increasing boundaries.
pub cost-units_for_budget-le :
    (tiers : List Tier) (cent cap : ℕ)
    → 0 < cent
    → IsSchedule 0 tiers
    → cost_cents_for_units tiers cent (units_for_budget tiers cent cap) ≤ cap
cost-units_for_budget-le tiers cent cap c s =
    cost-le_of_exact tiers cent cap _ c (units_for_budget_affordable tiers cent cap s)
