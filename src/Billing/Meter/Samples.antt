-- ===== src/Billing/Meter/Samples.antt =====
-- The theorems about metering at a scripted meter.
use fork_glitchtip_glitchtip.Common.{
  ℕ, ◌+◌, ◌-◌, ◌≤◌, ◌<◌, ◌≡◌, true, false, some, List, [], ◌∷◌, arith, refl,
}
use fork_glitchtip_glitchtip.Billing.Meter.{
  State, base_counter, settle, report_locked, report_overage, persist_overage, rollback_overage,
}
use fork_glitchtip_glitchtip.Billing.Meter.Charges.{charged}
use fork_glitchtip_glitchtip.Billing.Meter.Bound.{
  Check, RetriesInWindow, report_all, charged-le-highest,
}
use fork_glitchtip_glitchtip.Billing.Meter.Script.{
  Delivery, answered, unanswered, lost, script_send, script_meter,
}
use fork_glitchtip_glitchtip.Billing.Meter.Exact.{report_overage_exact}

abbrev check : ℕ → Check
check t = record { customer = true; lock_taken = false; billable = t }

abbrev start : List Delivery → State script_meter
start ds = record {
  row = record { units_reported = 7; period_start = some 1 };
  locked = false;
  meter = record { events = []; deliveries = ds };
}

abbrev rough : List Delivery
rough = unanswered ∷ lost ∷ answered ∷ []

-- the scripted meter forgets nothing
retries_remembered :
    (c : ℕ) (checks : List Check) (s : State script_meter) → RetriesInWindow script_meter c checks s
unfolding RetriesInWindow
retries_remembered c [] s = tt
retries_remembered c (k ∷ checks) s = ((λ _ h. h), retries_remembered c checks _)

charged-le-highest_example :
    charged 2
      (report_all script_meter 2 (check 10 ∷ check 12 ∷ check 20 ∷ []) (start rough)).meter.events
    ≤ 20
charged-le-highest_example =
    charged-le-highest script_meter 2 (check 10 ∷ check 12 ∷ check 20 ∷ []) (start rough)
      (record { other_period = refl; unrecorded = tt }) (omega arith)
      (retries_remembered 2 (check 10 ∷ check 12 ∷ check 20 ∷ []) (start rough))

report_overage_exact_example :
    let s' = report_overage script_meter true 2 10 (start (answered ∷ [])) in
    (base_counter s'.row 2 ≡ 10) × (charged 2 s'.meter.events ≡ 10) × (s'.locked ≡ false)
unfolding base_counter script_send
report_overage_exact_example =
    report_overage_exact script_meter 2 10 (start (answered ∷ [])) refl (omega arith) refl refl

-- A send that is recorded while its answer is lost is rolled back; where the next billable number
-- is lower (the spend cap was lowered), the units between the two are charged again.
lowered_cap_charges_twice :
    (t u v : ℕ)
    → 0 < u
    → u < t
    → u < v
    → charged 2
        (report_all script_meter 2
          (check t ∷ check u ∷ check v ∷ [])
          (start (unanswered ∷ answered ∷ []))).meter.events
      ≡ t + (v - u)
unfolding report_all report_overage report_locked base_counter persist_overage rollback_overage
    settle script_send
lowered_cap_charges_twice t u v p q r = ground arith
