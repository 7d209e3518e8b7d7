-- ===== src/Billing/Overage/Graduated.antt =====
-- The cost loop against the price of each event.

use native.Mathlib.Decide.{dec_le}
use fork_glitchtip_glitchtip.Common.{
  ℕ, ◌+◌, ◌-◌, ◌*◌, ◌≤◌, ◌<◌, ◌≡◌, ◌∙◌, none, some, List, [], ◌∷◌, refl, ap, arith, lt→ltb,
  lt→leb_false, sum_range, sum_range-const, sum_range-split, min, sum_range-cong,
}
use fork_glitchtip_glitchtip.Billing.Overage.{
  Tier, cost_loop, exact_cost, IsSchedule, price_of_event,
}

-- the part of the price sum that one bounded band holds
pub band_sum :
    (b rate : ℕ) (tiers : List Tier) (prev n : ℕ)
    → prev + n ≤ b
    → sum_range (price_of_event ((some b, rate) ∷ tiers)) prev n ≡ n * rate
band_sum b rate tiers prev n h =
    sum_range-const (price_of_event ((some b, rate) ∷ tiers)) rate prev n λ k p q. ground arith

-- past a band the prices are those of the tiers behind it
later_sum :
    (b rate : ℕ) (tiers : List Tier) (n : ℕ)
    → sum_range (price_of_event ((some b, rate) ∷ tiers)) b n ≡ sum_range (price_of_event tiers) b n
later_sum b rate tiers n =
    sum_range-cong (price_of_event ((some b, rate) ∷ tiers)) (price_of_event tiers) b n
      λ k p. ground arith

-- the price sum from `prev` past the end of a bounded band
pub split_sum :
    (b rate : ℕ) (tiers : List Tier) (prev units : ℕ)
    → prev < b
    → b ≤ units
    → sum_range (price_of_event ((some b, rate) ∷ tiers)) prev (units - prev)
      ≡ (b - prev) * rate + sum_range (price_of_event tiers) b (units - b)
split_sum b rate tiers prev units s h =
    let prices = price_of_event ((some b, rate) ∷ tiers) in
    let parts : units - prev ≡ (b - prev) + (units - b) = omega arith in
    rw (parts, sum_range-split prices prev b (b - prev) (units - b) (omega arith))
      (omega (
        arith,
        band_sum b rate tiers prev (b - prev) (omega arith),
        later_sum b rate tiers (units - b),
      ))

-- one turn of the loop over a bounded band that `units` fills
filled_band :
    (b rate : ℕ) (tiers : List Tier) (units prev total : ℕ)
    → prev < b
    → b < units
    → cost_loop ((some b, rate) ∷ tiers) units prev total
      ≡ cost_loop tiers units b (total + (b - prev) * rate)
unfolding cost_loop
filled_band b rate tiers units prev total s h =
    let past : min units b ≡ b = omega arith in
    rw (past, lt→leb_false units b h, lt→ltb 0 (b - prev) (omega arith))

-- one turn of the loop over the band that holds the last unit
last_band_cost :
    (b rate : ℕ) (tiers : List Tier) (units prev total : ℕ)
    → prev ≤ units
    → units ≤ b
    → cost_loop ((some b, rate) ∷ tiers) units prev total ≡ total + (units - prev) * rate
unfolding cost_loop
last_band_cost b rate tiers units prev total s h =
    let past : min units b ≡ units = omega arith in rw (past) (ground arith)

cost_loop-eq-sum :
    (tiers : List Tier) (units prev total : ℕ)
    → IsSchedule prev tiers
    → prev ≤ units
    → cost_loop tiers units prev total
      ≡ total + sum_range (price_of_event tiers) prev (units - prev)
cost_loop-eq-sum [] units prev total s h =
    unfold cost_loop in
    omega (arith, sum_range-const (price_of_event []) 0 prev (units - prev) (λ k p q. refl))
cost_loop-eq-sum ((none, rate) ∷ []) units prev total s h =
    unfold cost_loop in
    ground (
      arith,
      sum_range-const (price_of_event ((none, rate) ∷ [])) rate prev (units - prev) (λ k p q. refl),
    )
cost_loop-eq-sum ((none, rate) ∷ t ∷ tiers) units prev total s h = elim s [ ]
cost_loop-eq-sum ((some b, rate) ∷ tiers) units prev total (s, ss) h = elim (dec_le units b) [
  | yes inside ↦ omega (
    arith,
    last_band_cost b rate tiers units prev total h inside,
    band_sum b rate tiers prev (units - prev) (omega arith),
  )
  | no past ↦ omega (
    arith,
    filled_band b rate tiers units prev total s (omega arith),
    split_sum b rate tiers prev units s (omega arith),
    cost_loop-eq-sum tiers units b (total + (b - prev) * rate) ss (omega arith),
  )
]

-- The exact cost of `units` overage events is the sum of the prices of the events, each priced by
-- the first tier whose boundary is above it, for a schedule with increasing boundaries.
pub exact_cost-eq-sum :
    (tiers : List Tier) (units : ℕ)
    → IsSchedule 0 tiers
    → exact_cost tiers units ≡ sum_range (price_of_event tiers) 0 units
unfolding exact_cost
exact_cost-eq-sum tiers units s =
    let whole : units - 0 ≡ units = omega arith in
    let sums = cost_loop-eq-sum tiers units 0 0 s (omega arith) in (rw whole at sums) ∙ omega arith

-- More overage events never cost less, for a schedule with increasing boundaries.
pub exact_cost_mono :
    (tiers : List Tier) (m n : ℕ)
    → IsSchedule 0 tiers
    → m ≤ n
    → exact_cost tiers m ≤ exact_cost tiers n
exact_cost_mono tiers m n s h =
    let parts : n ≡ m + (n - m) = omega arith in
    omega (
      arith,
      exact_cost-eq-sum tiers m s,
      exact_cost-eq-sum tiers n s,
      ap (sum_range (price_of_event tiers) 0) parts,
      sum_range-split (price_of_event tiers) 0 m m (n - m) (omega arith),
    )
