-- ===== src/Billing/Meter/Bound.antt =====
-- The units charged in a cycle never pass the largest billable number that was reported.
use fork_glitchtip_glitchtip.Common.{
  ℕ, ◌+◌, ◌-◌, ◌≤◌, ◌<◌, ◌≡◌, ◌⊎◌, inl, inr, Bool, false, ◌||◌, not, List, [], ◌∷◌, ◌==◌,
  if◌then◌else◌, All, arith, Bool-cases, le→leb, lt→leb_false, ◌≢◌,
}
use native.Mathlib.Decide.{dec_le}
use fork_glitchtip_glitchtip.Billing.Meter.{
  MeterEvent, OtherIdentifier, MeterApi, Row, State, Reply, accepted, stripe_error, other_error,
  same_period, persist_overage, rollback_overage, base_counter, settle, report_locked,
  report_overage,
}
use fork_glitchtip_glitchtip.Billing.Meter.Charges.{
  charged, charged_at, BasesUpTo, charged_at-fresh, charged_at-above, BasesUpTo-mono,
}

-- With the counter at `base`: all events start at `base` or below, the events below it charge at
-- most `base` units, and an event at `base` (one whose send was recorded and then rolled back)
-- ends within `top`.
pub record BoundedAt (c top base : ℕ) (es : List MeterEvent) : Type 0 where
  pub bases : BasesUpTo c base es
  pub settled : charged c es ≤ base + charged_at c base es
  pub pending : base + charged_at c base es ≤ top

pub BoundedAt-weaken :
    (c top more base : ℕ) (es : List MeterEvent)
    → top ≤ more
    → BoundedAt c top base es
    → BoundedAt c more base es
BoundedAt-weaken c top more base es h b = record {
  bases = b.bases;
  settled = b.settled;
  pending = omega (arith, b.pending);
}

abbrev Extends : MeterEvent → List MeterEvent → List MeterEvent → Type 0
Extends e es es' = (es' ≡ es) ⊎ ((es' ≡ e ∷ es) × All (OtherIdentifier e) es)

abbrev pub meter_event : ℕ → ℕ → ℕ → MeterEvent
meter_event c b t = record { cycle = c; base = b; delta = t - b }

module _ (c top base t : ℕ) (es : List MeterEvent) (low : top ≤ t) (up : base < t) where
  -- the send is over and the counter stays advanced
  BoundedAt-advance :
      (es' : List MeterEvent)
      → Extends (meter_event c base t) es es'
      → BoundedAt c top base es
      → BoundedAt c t t es'
  BoundedAt-advance es' (inl same) b = rw same (record {
    bases = BasesUpTo-mono c base t es b.bases (omega arith);
    settled = omega (arith, b.settled, b.pending);
    pending = omega (arith, charged_at-above c base t es b.bases up);
  })
  BoundedAt-advance es' (inr (new, fresh)) b = rw new (record {
    bases = (λ _. omega arith, BasesUpTo-mono c base t es b.bases (omega arith));
    settled =
        ground (arith, b.settled, b.pending, charged_at-fresh (meter_event c base t) es fresh);
    pending = ground (arith, charged_at-above c base t es b.bases up);
  })

  -- the counter is rolled back
  BoundedAt-rollback :
      (es' : List MeterEvent)
      → Extends (meter_event c base t) es es'
      → BoundedAt c top base es
      → BoundedAt c t base es'
  BoundedAt-rollback es' (inl same) b = rw same (BoundedAt-weaken c top t base es low b)
  BoundedAt-rollback es' (inr (new, fresh)) b = rw new (record {
    bases = (λ _. omega arith, b.bases);
    settled = ground (arith, b.settled, charged_at-fresh (meter_event c base t) es fresh);
    pending = ground (arith, b.pending, charged_at-fresh (meter_event c base t) es fresh);
  })

-- an advanced counter is seen by the cycle
pub base-persist :
    (row : Row) (c t : ℕ) → base_counter row c < t → base_counter (persist_overage row c t) c ≡ t
unfolding base_counter persist_overage
base-persist row c t h = ground arith

-- a rolled back counter is the base again
base-rollback :
    (row : Row) (c t b : ℕ)
    → base_counter row c ≡ t
    → 0 < t
    → base_counter (rollback_overage row c t b) c ≡ b
unfolding base_counter rollback_overage
base-rollback row c t b h p = ground arith

-- a report of nothing to charge keeps the counter
base-idle :
    (row : Row) (c t : ℕ)
    → t ≤ base_counter row c
    → base_counter (if same_period row.period_start c then row else persist_overage row c t) c
      ≡ base_counter row c
unfolding base_counter persist_overage
base-idle row c t h = ground arith

settle-BoundedAt :
    (reply : Reply) (c t base : ℕ) (row : Row) (es : List MeterEvent)
    → base_counter row c ≡ t
    → 0 < t
    → BoundedAt c t t es
    → BoundedAt c t base es
    → BoundedAt c t (base_counter (settle reply row c t base) c) es
unfolding settle
settle-BoundedAt accepted c t base row es e pos adv roll = rw e adv
settle-BoundedAt (stripe_error status) c t base row es e pos adv roll =
    elim (Bool-cases (status == 400)) [
      | inl dup ↦ rw (dup, e) adv
      | inr other ↦ rw (other, base-rollback row c t base e pos) roll
    ]
settle-BoundedAt other_error c t base row es e pos adv roll =
    rw (base-rollback row c t base e pos) roll

-- a throttle check: whether the org has a Stripe customer, whether another check holds the lock
-- at its start, and what is billable
pub record Check : Type 0 where
  pub customer : Bool
  pub lock_taken : Bool
  pub billable : ℕ

-- the billable numbers do not fall
abbrev pub Rising : ℕ → List Check → Type 0
Rising low [] = Unit
Rising low (k ∷ checks) = (low ≤ k.billable) × Rising k.billable checks

abbrev pub highest : ℕ → List Check → ℕ
highest low [] = low
highest low (k ∷ checks) = highest k.billable checks

new_base : (row : Row) (c : ℕ) → same_period row.period_start c ≡ false → base_counter row c ≡ 0
unfolding base_counter
new_base row c h = rw h

module _ (api : MeterApi) where
  open api use {Meter, recorded, remembered, send, send_records}

  -- The event has the identifier of no recorded event that the meter does not remember.
  abbrev pub IsInWindow : MeterEvent → Meter → Type 0
  IsInWindow e m = All (OtherIdentifier e) (remembered m) → All (OtherIdentifier e) (recorded m)

  -- what a report of `t` units may send is in the window
  abbrev pub ReportInWindow : ℕ → ℕ → Row → Meter → Type 0
  ReportInWindow c t row m =
      base_counter row c < t → IsInWindow (meter_event c (base_counter row c) t) m

  send-Extends :
      (e : MeterEvent) (m : Meter) → IsInWindow e m → Extends e (recorded m) (recorded (send e m).1)
  send-Extends e m window = elim (send_records e m) [
    | inl same ↦ inl same
    | inr (new, fresh) ↦ inr (new, window fresh)
  ]

  -- with nothing to charge
  pub report_locked-idle :
      (c t : ℕ) (row : Row) (m : Meter)
      → t ≤ base_counter row c
      → report_locked api row m c t
        ≡ (if same_period row.period_start c then row else persist_overage row c t, m)
  unfolding report_locked
  report_locked-idle c t row m h = rw (le→leb t (base_counter row c) h)

  -- with units to charge
  pub report_locked-sent :
      (c t : ℕ) (row : Row) (m : Meter)
      → base_counter row c < t
      → report_locked api row m c t ≡ (
        settle
            (send (meter_event c (base_counter row c) t) m).0
            (persist_overage row c t)
            c
            t
            (base_counter row c),
        (send (meter_event c (base_counter row c) t) m).1,
      )
  unfolding report_locked
  report_locked-sent c t row m h = rw (lt→leb_false t (base_counter row c) h)

  report_locked-BoundedAt :
      (c top t : ℕ) (row : Row) (m : Meter)
      → top ≤ t
      → ReportInWindow c t row m
      → BoundedAt c top (base_counter row c) (recorded m)
      → BoundedAt c t
          (base_counter (report_locked api row m c t).0 c)
          (recorded (report_locked api row m c t).1)
  report_locked-BoundedAt c top t row m low window b = elim (dec_le t (base_counter row c)) [
    | yes idle ↦
        rw (report_locked-idle c t row m idle, base-idle row c t idle)
          (BoundedAt-weaken c top t _ _ low b)
    | no up ↦
        let base = base_counter row c in
        let high : base < t = omega arith in
        let more = send-Extends (meter_event c base t) m (window high) in
        rw (report_locked-sent c t row m high) (
          settle-BoundedAt (send (meter_event c base t) m).0 c t base (persist_overage row c t) _
            (base-persist row c t high) (omega arith)
            (BoundedAt-advance c top base t _ low high _ more b)
            (BoundedAt-rollback c top base t _ low high _ more b))
  ]

  -- the state keeps the bound, with or without a customer, with or without the lock
  pub report_overage-BoundedAt :
      (customer : Bool) (c top t : ℕ) (s : State api)
      → top ≤ t
      → ReportInWindow c t s.row s.meter
      → BoundedAt c top (base_counter s.row c) (recorded s.meter)
      → let s' = report_overage api customer c t s in
        BoundedAt c t (base_counter s'.row c) (recorded s'.meter)
  unfolding report_overage
  report_overage-BoundedAt customer c top t s low window b =
      elim (Bool-cases (not customer || s.locked)) [
        | inl skip ↦ rw skip (BoundedAt-weaken c top t _ _ low b)
        | inr go ↦ rw go (report_locked-BoundedAt c top t s.row s.meter low window b)
      ]

  -- the checks of one cycle, one after the other
  unfoldable pub report_all : ℕ → List Check → State api → State api
  report_all c [] s = s
  report_all c (k ∷ checks) s =
      report_all c checks
        (report_overage api k.customer c k.billable (record s { locked = k.lock_taken }))

  -- Each check that may send the identifier of a recorded event does so while the meter remembers
  -- it.
  unfoldable pub RetriesInWindow : ℕ → List Check → State api → Type 0
  RetriesInWindow c [] s = Unit
  RetriesInWindow c (k ∷ checks) s =
      ReportInWindow c k.billable s.row s.meter
      × RetriesInWindow c checks
          (report_overage api k.customer c k.billable (record s { locked = k.lock_taken }))

  report_all-BoundedAt :
      (c low : ℕ) (checks : List Check) (s : State api)
      → Rising low checks
      → RetriesInWindow c checks s
      → BoundedAt c low (base_counter s.row c) (recorded s.meter)
      → let s' = report_all c checks s in
        BoundedAt c (highest low checks) (base_counter s'.row c) (recorded s'.meter)
  unfolding report_all RetriesInWindow
  report_all-BoundedAt c low [] s r windows b = b
  report_all-BoundedAt c low (k ∷ checks) s (up, r) (window, windows) b =
      let s' = record s { locked = k.lock_taken } in
      report_all-BoundedAt c k.billable checks (report_overage api k.customer c k.billable s') r
        windows (report_overage-BoundedAt k.customer c low k.billable s' up window b)

  -- No check has reported anything for the cycle yet.
  pub record IsNewCycle (c : ℕ) (s : State api) : Type 0 where
    pub other_period : same_period s.row.period_start c ≡ false
    pub unrecorded : All (λ e. e.cycle ≢ c) (recorded s.meter)

  unrecorded-BoundedAt :
      (c : ℕ) (es : List MeterEvent) → All (λ e. e.cycle ≢ c) es → BoundedAt c 0 0 es
  unrecorded-BoundedAt c [] h = record { bases = tt; settled = omega arith; pending = omega arith }
  unrecorded-BoundedAt c (e ∷ es) h =
      let b = unrecorded-BoundedAt c es h.1 in
      record {
        bases = (λ p. absurd (h.0 p), b.bases);
        settled = ground (arith, b.settled, h.0);
        pending = ground (arith, b.pending, h.0);
      }

  pub new_cycle-BoundedAt :
      (c : ℕ) (s : State api)
      → IsNewCycle c s
      → BoundedAt c 0 (base_counter s.row c) (recorded s.meter)
  new_cycle-BoundedAt c s new =
      rw (new_base s.row c new.other_period)
        (unrecorded-BoundedAt c (recorded s.meter) new.unrecorded)

  -- However the sends of a billing cycle fail, whether or not a failed one was recorded, and
  -- whether or not a check found the lock taken, the units that Stripe has recorded for the cycle
  -- are at most the largest billable number of a check, if the billable numbers of the cycle never
  -- fall, nothing was recorded for it before, and no check sends the identifier of a recorded event
  -- that Stripe does not remember any more.
  pub charged-le-highest :
      (c : ℕ) (checks : List Check) (s : State api)
      → IsNewCycle c s
      → Rising 0 checks
      → RetriesInWindow c checks s
      → charged c (recorded (report_all c checks s).meter) ≤ highest 0 checks
  charged-le-highest c checks s new r windows =
      let end = report_all-BoundedAt c 0 checks s r windows (new_cycle-BoundedAt c s new) in
      omega (arith, end.settled, end.pending)
