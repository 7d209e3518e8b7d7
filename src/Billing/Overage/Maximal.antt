-- ===== src/Billing/Overage/Maximal.antt =====
-- When the unit ceiling of a spend cap is the largest one within the cap, and when it is not.
use native.Mathlib.Nat.{
  div-eq_of_lt-le, mul-sub, mul_comm, le_trans, le-div_iff_mul-le, lt-div-mul-add, mul-le-mul_right,
  div-add-mod',
}
use native.Mathlib.Decide.{dec_le}
use fork_glitchtip_glitchtip.Common.{
  ℕ, zero, suc, ◌+◌, ◌-◌, ◌*◌, ◌/◌, ◌%◌, ◌≤◌, ◌<◌, ◌≡◌, ◌↔◌, none, some, List, [], ◌∷◌, refl, ap,
  arith, lt→ltb, le→leb, lt→leb_false, sum_range,
}
use fork_glitchtip_glitchtip.Billing.Overage.{
  Tier, units_loop, units_for_budget, exact_cost, IsSchedule, price_of_event,
}
use fork_glitchtip_glitchtip.Billing.Overage.Graduated.{
  band_sum, split_sum, exact_cost-eq-sum, exact_cost_mono,
}
use fork_glitchtip_glitchtip.Billing.Overage.Cap.{
  unbounded_sum, band_fits, units_loop-Affords, units_for_budget_affordable,
}

-- Every tier has a price of at most a cent, every bounded band costs whole cents, and the last tier
-- is unbounded. The schedule of glitchtip/settings.py is one.
abbrev pub IsAligned : ℕ → ℕ → List Tier → Type 0
IsAligned cent prev [] = ⊥
IsAligned cent prev ((none, rate) ∷ []) = 0 < rate
IsAligned cent prev ((none, rate) ∷ _) = ⊥
IsAligned cent prev ((some b, rate) ∷ tiers) =
    (prev < b)
    × (0 < rate)
    × (rate ≤ cent)
    × (((b - prev) * rate) % cent ≡ 0)
    × IsAligned cent b tiers

IsAligned-IsSchedule :
    (cent prev : ℕ) (tiers : List Tier) → IsAligned cent prev tiers → IsSchedule prev tiers
IsAligned-IsSchedule cent prev [] h = tt
IsAligned-IsSchedule cent prev ((none, rate) ∷ []) h = tt
IsAligned-IsSchedule cent prev ((none, rate) ∷ t ∷ tiers) h = h
IsAligned-IsSchedule cent prev ((some b, rate) ∷ tiers) h =
    (h.0, IsAligned-IsSchedule cent b tiers h.4)

-- the event at a boundary has a price
next_price :
    (cent b n : ℕ) (tiers : List Tier)
    → IsAligned cent b tiers
    → 0 < n
    → 0 < sum_range (price_of_event tiers) b n
next_price cent b zero tiers a h = absurd (omega arith)
next_price cent b (suc n) [] a h = elim a [ ]
next_price cent b (suc n) ((none, rate) ∷ []) a h = omega arith
next_price cent b (suc n) ((none, rate) ∷ t ∷ tiers) a h = elim a [ ]
next_price cent b (suc n) ((some c, rate) ∷ tiers) a h = rw (lt→ltb b c a.0) (omega (arith, a.1))

-- whole cents that are less than a cent apart are equal
whole_cents :
    (x k rate cent : ℕ)
    → x % cent ≡ 0
    → x ≤ k * cent
    → k * cent < x + rate
    → rate ≤ cent
    → k * cent ≡ x
whole_cents x k rate cent whole low high small =
    let parts : x ≡ x / cent * cent = omega (arith, div-add-mod' x cent) in
    elim (dec_le (x / cent + 1) k) [
      | yes over ↦ absurd (omega (arith, mul-le-mul_right {m = x / cent + 1} {n = k} cent over))
      | no under ↦ omega (arith, mul-le-mul_right {m = k} {n = x / cent} cent (omega arith))
    ]

-- whole cents are left after whole cents are taken
left_cents :
    (budget x k cent : ℕ) → budget ≡ k * cent → x % cent ≡ 0 → budget - x ≡ (k - x / cent) * cent
left_cents budget x k cent e whole = omega (
  arith,
  div-add-mod' x cent,
  mul-sub cent k (x / cent),
  mul_comm cent (k - x / cent),
  mul_comm cent k,
  mul_comm cent (x / cent),
)

-- `v` units fit the budget, so the ceiling found is not below `v`
units_loop-reaches :
    (cent : ℕ) (tiers : List Tier) (prev budget k v : ℕ)
    → IsAligned cent prev tiers
    → budget ≡ k * cent
    → prev ≤ v
    → sum_range (price_of_event tiers) prev (v - prev) ≤ budget
    → v ≤ units_loop tiers prev prev budget
unfolding units_loop
units_loop-reaches cent [] prev budget k v a e h fits = elim a [ ]
units_loop-reaches cent ((none, zero) ∷ []) prev budget k v a e h fits = absurd (omega arith)
units_loop-reaches cent ((none, suc r) ∷ []) prev budget k v a e h fits =
    let enough =
      (le-div_iff_mul-le {k = suc r} {x = v - prev} {y = budget} (omega arith)).1
        (omega (arith, unbounded_sum (suc r) prev (v - prev))) in
    omega (arith, enough)
units_loop-reaches cent ((none, r) ∷ t ∷ tiers) prev budget k v a e h fits = elim a [ ]
units_loop-reaches cent ((some b, zero) ∷ tiers) prev budget k v a e h fits =
    absurd (omega (arith, a.1))
units_loop-reaches cent ((some b, suc r) ∷ tiers) prev budget k v a e h fits =
    let filled : prev + (b - prev) ≡ b = omega arith in
    elim (dec_le (budget / suc r) (b - prev)) [
      | yes inside ↦ rw (le→leb (budget / suc r) (b - prev) inside) (reaches_inside inside)
      | no past ↦
          rw (lt→leb_false (budget / suc r) (b - prev) (omega arith), filled)
            (reaches_past (λ low.
              let full = band_fits (b - prev) (suc r) budget (omega arith) in
              units_loop-reaches cent tiers b (budget - (b - prev) * suc r)
                (k - (b - prev) * suc r / cent) v a.4
                (left_cents budget ((b - prev) * suc r) k cent e a.3) low
                (omega (arith, full, split_sum b (suc r) tiers prev v a.0 low))))
    ]
  where
    reaches_inside : budget / suc r ≤ b - prev → v ≤ prev + budget / suc r
    reaches_inside inside = elim (dec_le v b) [
      | yes low ↦
          let enough =
            (le-div_iff_mul-le {k = suc r} {x = v - prev} {y = budget} (omega arith)).1
              (omega (arith, band_sum b (suc r) tiers prev (v - prev) (omega arith))) in
          omega (arith, enough)
      | no high ↦
          let full : (b - prev) * suc r ≤ budget =
            omega (arith, split_sum b (suc r) tiers prev v a.0 (omega arith)) in
          let aff =
            (le-div_iff_mul-le {k = suc r} {x = b - prev} {y = budget} (omega arith)).1 full in
          let exact : budget / suc r ≡ b - prev = omega (arith, aff) in
          let low = lt-div-mul-add {a = budget} {b = suc r} (omega arith) in
          absurd (
            omega (
              arith,
              whole_cents ((b - prev) * suc r) k (suc r) cent a.3 (rw (← e) full)
                  (rw (← e) (rw exact at low)) a.2,
              split_sum b (suc r) tiers prev v a.0 (omega arith),
              next_price cent b (v - b) tiers a.4 (omega arith),
            ))
    ]

    reaches_past :
        (b ≤ v → v ≤ units_loop tiers b b (budget - (b - prev) * suc r))
        → v ≤ units_loop tiers b b (budget - (b - prev) * suc r)
    reaches_past next_tiers = elim (dec_le b v) [
      | yes low ↦ next_tiers low
      | no high ↦ omega (
        arith,
        (units_loop-Affords tiers b (budget - (b - prev) * suc r)
            (IsAligned-IsSchedule cent b tiers a.4)).from_prev,
      )
    ]

-- On a schedule in which every tier has a price of at most a cent, every bounded band costs whole
-- cents, the boundaries increase and the last tier is unbounded, the unit ceiling of a spend cap
-- that is not 0 is the largest number of units whose exact cost is within the cap: a number of units
-- is at most the ceiling exactly when its exact cost is at most the cap.
pub units_for_budget_maximal :
    (tiers : List Tier) (cent cap v : ℕ)
    → 0 < cap
    → IsAligned cent 0 tiers
    → (v ≤ units_for_budget tiers cent cap) ↔ (exact_cost tiers v ≤ cap * cent)
unfolding units_for_budget
units_for_budget_maximal tiers cent zero v c a = absurd (omega arith)
units_for_budget_maximal tiers cent (suc cents) v c a = (
  λ h.
      le_trans (exact_cost_mono tiers v _ s h)
        (units_for_budget_affordable tiers cent (suc cents) s),
  λ h.
      units_loop-reaches cent tiers 0 (suc cents * cent) (suc cents) v a refl (omega arith)
        (rw (none_before) (omega (arith, h, exact_cost-eq-sum tiers v s))),
)
  where
    s : IsSchedule 0 tiers
    s = IsAligned-IsSchedule cent 0 tiers a

    none_before : v - 0 ≡ v
    none_before = omega arith

-- a bounded tier and an unbounded one behind it
abbrev pub two_tiers : ℕ → ℕ → ℕ → List Tier
two_tiers b dear cheap = (some b, dear) ∷ (none, cheap) ∷ []

-- Where the budget left at the end of a bounded tier does not buy one more event of that tier and
-- buys exactly one event of the cheaper tier behind it, the ceiling stops at the boundary, though
-- one more unit costs exactly the cap.
units_for_budget_stops_short :
    (b dear cheap cent cap : ℕ)
    → 0 < b
    → 0 < cheap
    → cheap < dear
    → cap * cent ≡ b * dear + cheap
    → (units_for_budget (two_tiers b dear cheap) cent cap ≡ b)
      × (exact_cost (two_tiers b dear cheap) (b + 1) ≡ cap * cent)
units_for_budget_stops_short b dear cheap cent zero pos c d e = absurd (omega arith)
units_for_budget_stops_short b zero cheap cent (suc cents) pos c d e = absurd (omega arith)
units_for_budget_stops_short b (suc dear) cheap cent (suc cents) pos c d e =
    let tiers = two_tiers b (suc dear) cheap in
    let count : suc cents * cent / suc dear ≡ b =
      div-eq_of_lt-le {k = b} (suc dear) {m = suc cents * cent} (omega arith) (omega arith) in
    let low_end : b - 0 ≡ b = omega arith in
    let one : b + 1 - b ≡ 1 = omega arith in
    let whole : b + 1 - 0 ≡ b + 1 = omega arith in
    (
      unfold units_for_budget units_loop in
          rw (count, le→leb b (b - 0) (omega arith)) (omega arith),
      omega (
        arith,
        ap (λ (t : ℕ). t * suc dear) low_end,
        exact_cost-eq-sum tiers (b + 1) (pos, tt),
        split_sum b (suc dear) ((none, cheap) ∷ []) 0 (b + 1) pos (omega arith),
        ap (sum_range (price_of_event tiers) 0) whole,
        ap (sum_range (price_of_event ((none, cheap) ∷ [])) b) one,
      ),
    )
