-- ===== src/Billing/Overage.antt =====
-- apps/stripe/overage.py: the graduated price of overage units, and the unit ceiling that a spend
-- cap buys. An amount of money is a whole number of money units, `cent` of them to a cent, so that
-- the decimal rates of the schedule are numerals (`cent = 1000` for the rates of
-- glitchtip/settings.py).
pub mod Graduated
pub mod Cap
pub mod Maximal
pub mod Verify
mod Samples
use fork_glitchtip_glitchtip.Common.{
  ℕ, zero, ◌+◌, ◌-◌, ◌*◌, ◌/◌, ◌<◌, ◌≡◌, Bool, ◌||◌, Option, none, some, List, [], ◌∷◌, map, ltb,
  leb, ◌==◌, if◌then◌else◌, length, min,
}

-- `(up_to, per_event_cost)`; `none` is ∞
abbrev pub Tier : Type 0
Tier = Option ℕ × ℕ

-- `min(units, up_to)`, or `units` in the unbounded tier
band_end : Option ℕ → ℕ → ℕ
band_end none units = units
band_end (some b) units = min units b

-- `up_to is not None and units <= up_to`
last_band : Option ℕ → ℕ → Bool
last_band none units = Bool.false
last_band (some b) units = leb units b

-- The loop of `cost_cents_for_units`: `total` so far, `prev` the end of the band before. A band
-- that ends before `prev` has no units, which is what `-` gives.
cost_loop : List Tier → ℕ → ℕ → ℕ → ℕ
unfolding band_end last_band
cost_loop [] units prev total = total
cost_loop ((up_to, rate) ∷ tiers) units prev total =
    let end = band_end up_to units in
    let band_units = end - prev in
    let total' = if ltb 0 band_units then total + band_units * rate else total in
    let rest = cost_loop tiers units end total' in if last_band up_to units then total' else rest

-- the cost before it is rounded
pub exact_cost : List Tier → ℕ → ℕ
unfolding cost_loop
exact_cost tiers units = cost_loop tiers units 0 0

-- `quantize(CENTS, ROUND_HALF_UP)`
round_half_up : ℕ → ℕ → ℕ
round_half_up cent total = (2 * total + cent) / (2 * cent)

unfoldable pub cost_cents_for_units : List Tier → ℕ → ℕ → ℕ
unfolding exact_cost round_half_up
cost_cents_for_units tiers cent zero = 0
cost_cents_for_units tiers cent units = round_half_up cent (exact_cost tiers units)

-- The loop of `units_for_budget`. The boundaries of a schedule increase, so `up_to - prev` is
-- exact there.
pub units_loop : List Tier → ℕ → ℕ → ℕ → ℕ
units_loop [] units prev budget = units
units_loop ((none, zero) ∷ tiers) units prev budget = units
units_loop ((some b, zero) ∷ tiers) units prev budget =
    units_loop tiers (units + (b - prev)) b budget
units_loop ((none, rate) ∷ tiers) units prev budget = units + budget / rate
units_loop ((some b, rate) ∷ tiers) units prev budget =
    let capacity = b - prev in
    let affordable = budget / rate in
    let rest = units_loop tiers (units + capacity) b (budget - capacity * rate) in
    if leb affordable capacity then units + affordable else rest

unfoldable pub units_for_budget : List Tier → ℕ → ℕ → ℕ
unfolding units_loop
units_for_budget tiers cent zero = 0
units_for_budget tiers cent cap = units_loop tiers 0 0 (cap * cent)

-- Boundaries increase, starting above `prev`, and only the last tier is unbounded.
abbrev pub IsSchedule : ℕ → List Tier → Type 0
IsSchedule prev [] = Unit
IsSchedule prev ((none, rate) ∷ []) = Unit
IsSchedule prev ((none, rate) ∷ _) = ⊥
IsSchedule prev ((some b, rate) ∷ tiers) = (prev < b) × IsSchedule b tiers

-- The last tier is unbounded and has a price.
abbrev pub IsOpen : List Tier → Type 0
IsOpen [] = ⊥
IsOpen ((none, rate) ∷ tiers) = 0 < rate
IsOpen ((some b, rate) ∷ tiers) = IsOpen tiers

-- the price of the event number `k`, counted from 0: an independent reading of the schedule
abbrev pub price_of_event : List Tier → ℕ → ℕ
price_of_event [] k = 0
price_of_event ((none, rate) ∷ tiers) k = rate
price_of_event ((some b, rate) ∷ tiers) k = if ltb k b then rate else price_of_event tiers k
