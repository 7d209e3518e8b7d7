-- ===== src/Billing/Meter/Script.antt =====
-- A meter that plays a script: it shows that the laws of `MeterApi` can hold.
use fork_glitchtip_glitchtip.Common.{
  ◌≡◌, ◌⊎◌, inl, inr, Bool, false, ◌&&◌, List, [], ◌∷◌, ◌==◌, if◌then◌else◌, arith, refl, All,
  Bool-cases, any,
}
use fork_glitchtip_glitchtip.Billing.Meter.{
  MeterApi, MeterEvent, OtherIdentifier, Reply, accepted, stripe_error,
}

-- what happens to a send: it arrives and is answered, it arrives and the answer is lost, it is lost
pub data Delivery : Type 0 where
  answered unanswered lost : Delivery

same_identifier : MeterEvent → MeterEvent → Bool
same_identifier e f = f.cycle == e.cycle && f.base == e.base

pub record Script : Type 0 where
  pub events : List MeterEvent
  pub deliveries : List Delivery

-- an identifier seen before, however long ago, is refused with status 400; a lost answer is an error of status 503
deliver : Delivery → MeterEvent → Script → Reply × Script
deliver answered e m = (accepted, record m { events = e ∷ m.events })
deliver unanswered e m = (stripe_error 503, record m { events = e ∷ m.events })
deliver lost e m = (stripe_error 503, m)

play : List Delivery → MeterEvent → Script → Reply × Script
unfolding deliver
play [] e m = deliver lost e m
play (d ∷ ds) e m = deliver d e (record m { deliveries = ds })

unfoldable pub script_send : MeterEvent → Script → Reply × Script
unfolding play same_identifier
script_send e m =
    if any (same_identifier e) m.events then (stripe_error 400, m) else play m.deliveries e m

others :
    (e : MeterEvent) (es : List MeterEvent)
    → any (same_identifier e) es ≡ false
    → All (OtherIdentifier e) es
unfolding same_identifier
others e [] h = tt
others e (f ∷ es) h = (λ p. ground (arith, p.0, p.1), others e es (ground arith))

play_records :
    (ds : List Delivery) (e : MeterEvent) (m : Script)
    → ((play ds e m).1.events ≡ m.events) ⊎ ((play ds e m).1.events ≡ e ∷ m.events)
unfolding play
play_records [] e m = inl refl
play_records (answered ∷ ds) e m = inr refl
play_records (unanswered ∷ ds) e m = inr refl
play_records (lost ∷ ds) e m = inl refl

play_accepted :
    (ds : List Delivery) (e : MeterEvent) (m : Script)
    → (play ds e m).0 ≡ accepted
    → (play ds e m).1.events ≡ e ∷ m.events
unfolding play
play_accepted [] e m h = cc
play_accepted (answered ∷ ds) e m h = refl
play_accepted (unanswered ∷ ds) e m h = cc
play_accepted (lost ∷ ds) e m h = cc

pub script_records :
    (e : MeterEvent) (m : Script)
    → ((script_send e m).1.events ≡ m.events)
      ⊎ (((script_send e m).1.events ≡ e ∷ m.events) × All (OtherIdentifier e) m.events)
unfolding script_send
script_records e m = elim (Bool-cases (any (same_identifier e) m.events)) [
  | inl old ↦ rw old (inl refl)
  | inr new ↦ rw new (elim (play_records m.deliveries e m) [
    | inl same ↦ inl same
    | inr more ↦ inr (more, others e m.events new)
  ])
]

pub script_accepted :
    (e : MeterEvent) (m : Script)
    → (script_send e m).0 ≡ accepted
    → (script_send e m).1.events ≡ e ∷ m.events
unfolding script_send
script_accepted e m = elim (Bool-cases (any (same_identifier e) m.events)) [
  | inl old ↦ rw old (λ h. cc)
  | inr new ↦ rw new (λ h. play_accepted m.deliveries e m h)
]

abbrev pub script_meter : MeterApi
script_meter = record {
  Meter = Script;
  recorded = λ m. m.events;
  remembered = λ m. m.events;
  send = script_send;
  send_records = script_records;
  accepted_recorded = script_accepted;
}
