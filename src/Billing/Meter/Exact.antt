-- ===== src/Billing/Meter/Exact.antt =====
-- With a meter that accepts the send, a check bills the cycle up to the billable number exactly.
use fork_glitchtip_glitchtip.Common.{ℕ, ◌<◌, ◌≡◌, true, false, arith, refl}
use fork_glitchtip_glitchtip.Billing.Meter.{
  MeterApi, State, accepted, base_counter, settle, report_overage,
}
use fork_glitchtip_glitchtip.Billing.Meter.Charges.{charged}
use fork_glitchtip_glitchtip.Billing.Meter.Bound.{meter_event, report_locked-sent, base-persist}

module _ (api : MeterApi) where
  open api use {Meter, recorded, send, accepted_recorded}

  -- the event sent for a check charges the units between the counter and the billable number
  charged-send :
      (c base t : ℕ) (m : Meter)
      → base < t
      → charged c (recorded m) ≡ base
      → (send (meter_event c base t) m).0 ≡ accepted
      → charged c (recorded (send (meter_event c base t) m).1) ≡ t
  charged-send c base t m up e ok =
      rw (accepted_recorded (meter_event c base t) m ok) (ground (arith, e))

  -- Where the org has a customer and the lock is free, the meter accepts the send, and the units
  -- recorded for the cycle are those of the counter, a check with more billable units leaves the
  -- counter and the recorded units at the billable number, and the lock released.
  pub report_overage_exact :
      (c t : ℕ) (s : State api)
      → s.locked ≡ false
      → base_counter s.row c < t
      → charged c (recorded s.meter) ≡ base_counter s.row c
      → (send (meter_event c (base_counter s.row c) t) s.meter).0 ≡ accepted
      → let s' = report_overage api true c t s in
        (base_counter s'.row c ≡ t) × (charged c (recorded s'.meter) ≡ t) × (s'.locked ≡ false)
  unfolding report_overage settle
  report_overage_exact c t s free up e ok =
      rw (free, report_locked-sent api c t s.row s.meter up, ok)
        (base-persist s.row c t up, charged-send c (base_counter s.row c) t s.meter up e ok, refl)
