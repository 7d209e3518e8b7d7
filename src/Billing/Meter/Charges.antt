-- ===== src/Billing/Meter/Charges.antt =====
-- What the recorded meter events of a cycle charge.
use fork_glitchtip_glitchtip.Common.{
  ℕ, ◌+◌, ◌≤◌, ◌<◌, ◌≡◌, ◌&&◌, List, [], ◌∷◌, ◌==◌, if◌then◌else◌, All, arith, refl,
}
use fork_glitchtip_glitchtip.Billing.Meter.{MeterEvent, OtherIdentifier}

-- the units charged in the cycle `c`
abbrev pub charged : ℕ → List MeterEvent → ℕ
charged c [] = 0
charged c (e ∷ es) = (if e.cycle == c then e.delta else 0) + charged c es

-- the units charged in the cycle `c` under the base counter `b`
abbrev pub charged_at : ℕ → ℕ → List MeterEvent → ℕ
charged_at c b [] = 0
charged_at c b (e ∷ es) = (if e.cycle == c && e.base == b then e.delta else 0) + charged_at c b es

-- the events of the cycle have base counters of at most `b`
abbrev pub BasesUpTo : ℕ → ℕ → List MeterEvent → Type 0
BasesUpTo c b = All (λ e. e.cycle ≡ c → e.base ≤ b)

pub charged_at-le : (c b : ℕ) (es : List MeterEvent) → charged_at c b es ≤ charged c es
charged_at-le c b [] = omega arith
charged_at-le c b (e ∷ es) = ground (arith, charged_at-le c b es)

pub charged_at-fresh :
    (e : MeterEvent) (es : List MeterEvent)
    → All (OtherIdentifier e) es
    → charged_at e.cycle e.base es ≡ 0
charged_at-fresh e [] h = refl
charged_at-fresh e (f ∷ es) h = ground (arith, charged_at-fresh e es h.1)

pub charged_at-above :
    (c b t : ℕ) (es : List MeterEvent) → BasesUpTo c b es → b < t → charged_at c t es ≡ 0
charged_at-above c b t [] h lt = refl
charged_at-above c b t (e ∷ es) h lt = ground (arith, charged_at-above c b t es h.1 lt, h.0)

pub BasesUpTo-mono :
    (c b t : ℕ) (es : List MeterEvent) → BasesUpTo c b es → b ≤ t → BasesUpTo c t es
BasesUpTo-mono c b t [] h le = tt
BasesUpTo-mono c b t (e ∷ es) h le = (λ p. omega (arith, h.0 p), BasesUpTo-mono c b t es h.1 le)
