-- ===== src/Events/Transactions/Mean.antt =====
-- The average duration of a transaction group.
use native.Mathlib.Nat.{add-mul, mul_assoc, mul-pos}
use fork_glitchtip_glitchtip.Common.{
  ℕ, ◌+◌, ◌*◌, ◌≡◌, ◌<◌, true, List, length, ltb, ap, ◌∙◌, lt→ltb,
}
use fork_glitchtip_glitchtip.Spans.Histogram.Totals.{total}
use fork_glitchtip_glitchtip.Events.Transactions.{Group, Batch, updated}

-- The average is the sum of all durations over their number; any fraction where there is none.
pub record IsMean (g : Group) (durations : ℕ) : Type 0 where
  pub positive : 0 < g.avg_denominator
  pub mean : g.avg_numerator * g.count ≡ durations * g.avg_denominator

mean_sum : (a c d s t n : ℕ) → a * c ≡ s * d → (a * c + t * d) * (c + n) ≡ (s + t) * (d * (c + n))
mean_sum a c d s t n h =
    ap (λ x. (x + t * d) * (c + n)) h ∙ rw (← add-mul s t d) (mul_assoc (s + t) d (c + n))

-- Where the average of a group is the mean of its durations so far, it is the mean of those and the batch's after
-- the update.
pub updated-IsMean :
    (g : Group) (b : Batch) (increments : List ℕ) (s : ℕ)
    → IsMean g s
    → 0 < g.count + length b.durations
    → IsMean (updated g b increments) (s + total b.durations)
updated-IsMean g b increments s m some_seen =
    let counted : ltb 0 (g.count + length b.durations) ≡ true =
      lt→ltb 0 (g.count + length b.durations) some_seen in
    let sum =
      mean_sum g.avg_numerator g.count g.avg_denominator s (total b.durations) (length b.durations)
        m.mean in
    record { positive = rw counted (mul-pos m.positive some_seen); mean = rw counted sum }
