-- ===== src/Billing/Throttle/Ramp.antt =====
-- The steps of the throttle.
use fork_glitchtip_glitchtip.Common.{ℕ, ◌+◌, ◌≤◌, ◌<◌, ◌≡◌, ◌↔◌, arith}
use fork_glitchtip_glitchtip.Billing.Throttle.{progressive_throttle}

-- More usage is never throttled less.
progressive_throttle_mono :
    (usage more start width : ℕ)
    → usage ≤ more
    → progressive_throttle usage start width ≤ progressive_throttle more start width
unfolding progressive_throttle
progressive_throttle_mono usage more start width h = ground arith

-- A later start of the ramp never throttles more.
pub progressive_throttle_antitone :
    (usage start later width : ℕ)
    → start ≤ later
    → progressive_throttle usage later width ≤ progressive_throttle usage start width
unfolding progressive_throttle
progressive_throttle_antitone usage start later width h = ground arith

-- The rate is 0 exactly up to the start of the ramp, and 100 exactly past its end.
pub progressive_throttle_ends :
    (usage start width : ℕ)
    → ((progressive_throttle usage start width ≡ 0) ↔ (usage ≤ start))
      × ((progressive_throttle usage start width ≡ 100) ↔ (start + width < usage))
unfolding progressive_throttle
progressive_throttle_ends usage start width =
    ((λ h. ground arith, λ h. ground arith), (λ h. ground arith, λ h. ground arith))
