-- ===== src/Billing/Meter.antt =====
-- apps/organizations_ext/tasks.py: `_report_overage`, `_persist_overage`, `_rollback_overage`.
-- One subscription is followed; its meter identifier `f"{stripe_id}:{cycle_start}:{reported}"` is
-- the pair of the cycle and the base counter.
pub mod Charges
pub mod Bound
pub mod Exact
pub mod Script
mod Samples
use fork_glitchtip_glitchtip.Common.{
  ℕ, zero, ◌+◌, ◌-◌, ◌≤◌, ◌<◌, ◌≡◌, ◌⊎◌, Bool, true, false, ◌||◌, ◌&&◌, not, Option, none, some,
  List, [], ◌∷◌, leb, ltb, ◌==◌, if◌then◌else◌, All,
}

-- A meter event as Stripe keeps it: the identifier is `cycle` with `base`, the value is `delta`.
pub record MeterEvent : Type 0 where
  pub cycle : ℕ
  pub base : ℕ
  pub delta : ℕ

-- how `create_meter_event` ends: normally, with a `StripeError` of a status, or with another
-- exception
pub data Reply : Type 0 where
  accepted : Reply
  stripe_error : ℕ → Reply
  other_error : Reply

abbrev pub OtherIdentifier : MeterEvent → MeterEvent → Type 0
OtherIdentifier e f = ¬ ((f.cycle ≡ e.cycle) × (f.base ≡ e.base))

-- Stripe's meter, which the program calls. A send records the event or nothing. Stripe keeps the
-- identifiers of a rolling window of time: `remembered` has the events that a next send is compared
-- with, and a send records nothing if one of these has its identifier. An event that was accepted is
-- recorded.
pub record MeterApi : Type 1 where
  pub Meter : Type 0
  pub recorded : Meter → List MeterEvent
  pub remembered : Meter → List MeterEvent
  pub send : MeterEvent → Meter → Reply × Meter
  pub send_records :
      (e : MeterEvent) (m : Meter)
      → (recorded (send e m).1 ≡ recorded m)
        ⊎ ((recorded (send e m).1 ≡ e ∷ recorded m) × All (OtherIdentifier e) (remembered m))
  pub accepted_recorded :
      (e : MeterEvent) (m : Meter)
      → (send e m).0 ≡ accepted
      → recorded (send e m).1 ≡ e ∷ recorded m

-- the row of the subscription
pub record Row : Type 0 where
  pub units_reported : ℕ  -- overage_units_reported
  pub period_start : Option ℕ  -- overage_period_start

abbrev pub same_period : Option ℕ → ℕ → Bool
same_period none c = false
same_period (some p) c = p == c

-- `_persist_overage`: the conditional UPDATE
pub persist_overage : Row → ℕ → ℕ → Row
persist_overage row cycle_start units =
    if not (same_period row.period_start cycle_start) || ltb row.units_reported units
    then record { units_reported = units; period_start = some cycle_start }
    else row

-- `_rollback_overage`
pub rollback_overage : Row → ℕ → ℕ → ℕ → Row
rollback_overage row cycle_start sent_target base =
    if same_period row.period_start cycle_start && row.units_reported == sent_target
    then record row { units_reported = base }
    else row

-- the counter as the cycle sees it: a new cycle starts from 0
pub base_counter : Row → ℕ → ℕ
base_counter row cycle_start =
    if same_period row.period_start cycle_start then row.units_reported else 0

-- what a failed send leaves of the advanced counter
pub settle : Reply → Row → ℕ → ℕ → ℕ → Row
settle accepted row cycle_start target base = row
settle (stripe_error status) row cycle_start target base =
    if status == 400 then row else rollback_overage row cycle_start target base
settle other_error row cycle_start target base = rollback_overage row cycle_start target base

module _ (api : MeterApi) where
  open api use {Meter, send}

  -- what the report reads and writes: the row, the cache lock and the meter
  pub record State : Type 0 where
    pub row : Row
    pub locked : Bool
    pub meter : Meter

  -- the body of the `try`, with the lock held
  pub report_locked : Row → Meter → ℕ → ℕ → Row × Meter
  report_locked row meter cycle_start billable =
      let reported = base_counter row cycle_start in
      let advanced = persist_overage row cycle_start billable in
      let event : MeterEvent = record {
        cycle = cycle_start;
        base = reported;
        delta = billable - reported;
      } in
      let (reply, meter') = send event meter in
      if leb billable reported
      then (if same_period row.period_start cycle_start then row else advanced, meter)
      else (settle reply advanced cycle_start billable reported, meter')

  -- `_report_overage`; `customer` tells whether the org has a Stripe customer. The lock is taken
  -- for the body and released in the `finally`; where it is held by another check, nothing happens.
  pub report_overage : Bool → ℕ → ℕ → State → State
  report_overage customer cycle_start billable s =
      let (row', meter') = report_locked s.row s.meter cycle_start billable in
      if not customer || s.locked then s else record { row = row'; locked = false; meter = meter' }
