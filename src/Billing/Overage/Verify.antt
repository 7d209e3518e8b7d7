-- ===== src/Billing/Overage/Verify.antt =====
-- `tier_problems`: the drift of a live Stripe price from the schedule of the settings.
use Prim.Native.String.{String}
use text.Mathlib.Text.{◌==◌ as str_eq}
use fork_glitchtip_glitchtip.Common.{
  ℕ, suc, ◌≡◌, Bool, true, false, not, ◌||◌, ◌&&◌, Option, none, some, List, [], ◌∷◌, ◌++◌, refl,
  ap, sum_range, ◌==◌, if◌then◌else◌, length, All,
}
use fork_glitchtip_glitchtip.Billing.Overage.{Tier, price_of_event}

-- one entry of `raw_price["tiers"]`; `unit_amount_decimal` is read in money units, a missing or
-- empty one as 0
pub record StripeTier : Type 0 where
  pub up_to : Option ℕ
  pub unit_amount : ℕ
  pub flat_amount : ℕ  -- a missing one is 0
  pub flat_amount_decimal : String  -- a missing one is empty

pub record StripePrice : Type 0 where
  pub tiers_mode : Option String
  pub currency : Option String
  pub tiers : List StripeTier

pub data Problem : Type 0 where
  wrong_mode : Option String → Problem
  wrong_currency : Option String → Problem
  wrong_count : ℕ → ℕ → Problem
  wrong_tier : ℕ → Problem
  flat_tier : ℕ → Problem

same_bound : Option ℕ → Option ℕ → Bool
same_bound none none = true
same_bound (some a) (some b) = a == b
same_bound _ _ = false

is_text : String → Option String → Bool
is_text t none = false
is_text t (some s) = str_eq s t

-- the loop over `zip(expected, actual)`
tier_drift : ℕ → List Tier → List StripeTier → List Problem
unfolding same_bound
tier_drift i [] live = []
tier_drift i (t ∷ tiers) [] = []
tier_drift i ((up_to, cost) ∷ tiers) (l ∷ live) =
    let rest = tier_drift (suc i) tiers live in
    if same_bound up_to l.up_to && cost == l.unit_amount then rest else wrong_tier i ∷ rest

has_flat : StripeTier → Bool
has_flat l = not (l.flat_amount == 0) || not (str_eq l.flat_amount_decimal "")

flat_problems : ℕ → List StripeTier → List Problem
unfolding has_flat
flat_problems i [] = []
flat_problems i (l ∷ live) =
    let rest = flat_problems (suc i) live in if has_flat l then flat_tier i ∷ rest else rest

unfoldable pub tier_problems : List Tier → StripePrice → List Problem
unfolding is_text tier_drift flat_problems
tier_problems schedule price =
    (if is_text "graduated" price.tiers_mode then [] else wrong_mode price.tiers_mode ∷ [])
    ++ ((if is_text "usd" price.currency then [] else wrong_currency price.currency ∷ [])
        ++ ((if length price.tiers == length schedule
              then []
              else wrong_count (length price.tiers) (length schedule) ∷ [])
            ++ (tier_drift 0 schedule price.tiers ++ flat_problems 0 price.tiers)))

-- boundaries and rates of the live tiers
abbrev pub live_schedule : List StripeTier → List Tier
live_schedule [] = []
live_schedule (l ∷ live) = (l.up_to, l.unit_amount) ∷ live_schedule live

abbrev pub NoFlat : StripeTier → Type 0
NoFlat l = (l.flat_amount ≡ 0) × (l.flat_amount_decimal ≡ "")

-- What `tier_problems` accepts.
pub record IsMirrored (schedule : List Tier) (price : StripePrice) : Type 0 where
  pub graduated : price.tiers_mode ≡ some "graduated"
  pub in_usd : price.currency ≡ some "usd"
  pub same_tiers : live_schedule price.tiers ≡ schedule
  pub per_unit : All NoFlat price.tiers

length_of_live : (live : List StripeTier) → length (live_schedule live) ≡ length live
length_of_live [] = refl
length_of_live (l ∷ live) = ap suc (length_of_live live)

-- Stripe's documented invoice of a graduated price whose tiers bill no flat amount: each unit at the
-- rate of the first tier whose boundary is above it.
abbrev pub InvoicesByTier : (StripePrice → ℕ → ℕ) → Type 0
InvoicesByTier invoiced =
    (p : StripePrice) (units : ℕ)
    → p.tiers_mode ≡ some "graduated"
    → All NoFlat p.tiers
    → invoiced p units ≡ sum_range (price_of_event (live_schedule p.tiers)) 0 units
