-- ===== src/Ingest/Scrub/Luhn/CheckDigit.antt =====
-- What the Luhn checksum detects.
use fork_glitchtip_glitchtip.Common.{
  ℕ, suc, ◌+◌, ◌%◌, ◌≡◌, ◌≢◌, ◌≤◌, ◌<◌, Bool, true, false, not, List, [], ◌∷◌, ◌++◌, length,
  length-append, ◌==◌, ==_iff, arith, refl, sym, ap, ◌∙◌, Bool-cases, inl, inr, ◌⊎◌,
}
use fork_glitchtip_glitchtip.Ingest.Scrub.Luhn.{weigh, luhn_loop, checksum_ok}

sum_swap : (t n w : ℕ) → t + n + w ≡ t + w + n
sum_swap t n w = omega arith

loop_shift : (p i t n : ℕ) (ds : List ℕ) → luhn_loop p i (t + n) ds ≡ luhn_loop p i t ds + n
unfolding luhn_loop
loop_shift p i t n [] = refl
loop_shift p i t n (d ∷ ds) =
    let w = weigh (i % 2 == p) d in
    ap (λ (x : ℕ). luhn_loop p (suc i) x ds) (sum_swap t n w) ∙ loop_shift p (suc i) (t + w) n ds

-- the digits in one place, or in two neighbouring places, each add their own weight
loop_at :
    (p i t : ℕ) (xs ys : List ℕ)
    → (r : ℕ) × (f : Bool) × ((a : ℕ) → luhn_loop p i t (xs ++ a ∷ ys) ≡ r + weigh f a)
unfolding luhn_loop
loop_at p i t [] ys =
    (luhn_loop p (suc i) t ys, (i % 2 == p), λ a. loop_shift p (suc i) t (weigh (i % 2 == p) a) ys)
loop_at p i t (x ∷ xs) ys = loop_at p (suc i) (t + weigh (i % 2 == p) x) xs ys

mod_close : (r a b : ℕ) → a ≤ 9 → b ≤ 9 → (r + a) % 10 ≡ 0 → (r + b) % 10 ≡ 0 → a ≡ b
mod_close r a b ha hb h h' = omega arith

weigh_small : (f : Bool) (a : ℕ) → a ≤ 9 → weigh f a ≤ 9
unfolding weigh
weigh_small true a h = ground arith
weigh_small false a h = h

weigh_inj : (f : Bool) (a b : ℕ) → a ≤ 9 → b ≤ 9 → weigh f a ≡ weigh f b → a ≡ b
unfolding weigh
weigh_inj true a b ha hb h = ground arith
weigh_inj false a b ha hb h = h

-- two neighbours: exactly one of them is doubled
swapped :
    (f : Bool) (r a b : ℕ)
    → a ≤ 9
    → b ≤ 9
    → (r + weigh f a + weigh (not f) b) % 10 ≡ 0
    → (r + weigh f b + weigh (not f) a) % 10 ≡ 0
    → (a ≡ b) ⊎ (((a ≡ 0) × (b ≡ 9)) ⊎ ((a ≡ 9) × (b ≡ 0)))
unfolding weigh
swapped true r a b ha hb h h' = ground arith
swapped false r a b ha hb h h' = ground arith

checksum_zero : (n : ℕ) → (n == 0) ≡ true → n ≡ 0
checksum_zero n = (==_iff n 0).0

checksum_at :
    (xs ys : List ℕ)
    → (r : ℕ) × (f : Bool) × ((a : ℕ) → checksum_ok (xs ++ a ∷ ys) ≡ ((r + weigh f a) % 10 == 0))
unfolding checksum_ok
checksum_at xs ys =
    let p = (length xs + suc (length ys)) % 2 in
    let (r, f, at) = loop_at p 0 0 xs ys in
    (r, f, λ a. rw length-append (ap (λ (x : ℕ). x % 10 == 0) (at a)))

-- A number with a valid checksum has none after any one of its digits is changed to another digit.
pub one_digit_detected :
    (xs ys : List ℕ) (a b : ℕ)
    → a ≤ 9
    → b ≤ 9
    → a ≢ b
    → checksum_ok (xs ++ a ∷ ys) ≡ true
    → checksum_ok (xs ++ b ∷ ys) ≡ false
one_digit_detected xs ys a b ha hb differ ok =
    let (r, f, at) = checksum_at xs ys in
    elim (Bool-cases (checksum_ok (xs ++ b ∷ ys))) [
      | inr bad ↦ bad
      | inl good ↦
          elim (differ (
            weigh_inj f a b ha hb (
              mod_close r (weigh f a) (weigh f b) (weigh_small f a ha) (weigh_small f b hb)
                (checksum_zero _ (sym (at a) ∙ ok)) (checksum_zero _ (sym (at b) ∙ good))))) [ ]
    ]

alternates : (p i : ℕ) → p < 2 → (suc i % 2 == p) ≡ not (i % 2 == p)
alternates p i small = ground arith

loop_pair :
    (p i t : ℕ) (xs ys : List ℕ)
    → p < 2
    → (r : ℕ) × (f : Bool) × ((a b : ℕ)
        → luhn_loop p i t (xs ++ a ∷ b ∷ ys) ≡ r + weigh f a + weigh (not f) b)
unfolding luhn_loop
loop_pair p i t [] ys small = (
  luhn_loop p (suc (suc i)) t ys,
  (i % 2 == p),
  λ a b.
      ap (λ (f : Bool). luhn_loop p (suc (suc i)) (t + weigh (i % 2 == p) a + weigh f b) ys)
        (alternates p i small)
      ∙ loop_shift p (suc (suc i)) (t + weigh (i % 2 == p) a) (weigh (not (i % 2 == p)) b) ys
      ∙ ap (λ (x : ℕ). x + weigh (not (i % 2 == p)) b)
          (loop_shift p (suc (suc i)) t (weigh (i % 2 == p) a) ys),
)
loop_pair p i t (x ∷ xs) ys small = loop_pair p (suc i) (t + weigh (i % 2 == p) x) xs ys small

checksum_pair :
    (xs ys : List ℕ)
    → (r : ℕ) × (f : Bool) × ((a b : ℕ)
        → checksum_ok (xs ++ a ∷ b ∷ ys) ≡ ((r + weigh f a + weigh (not f) b) % 10 == 0))
unfolding checksum_ok
checksum_pair xs ys =
    let p = (length xs + suc (suc (length ys))) % 2 in
    let (r, f, at) = loop_pair p 0 0 xs ys (omega arith) in
    (r, f, λ a b. rw length-append (ap (λ (x : ℕ). x % 10 == 0) (at a b)))

-- If a number has a valid checksum before and after two neighbouring digits are exchanged, the two
-- are equal, or one is 0 and the other 9.
pub exchange_detected :
    (xs ys : List ℕ) (a b : ℕ)
    → a ≤ 9
    → b ≤ 9
    → checksum_ok (xs ++ a ∷ b ∷ ys) ≡ true
    → checksum_ok (xs ++ b ∷ a ∷ ys) ≡ true
    → (a ≡ b) ⊎ (((a ≡ 0) × (b ≡ 9)) ⊎ ((a ≡ 9) × (b ≡ 0)))
exchange_detected xs ys a b ha hb before afterwards =
    let (r, f, at) = checksum_pair xs ys in
    swapped f r a b ha hb (checksum_zero _ (sym (at a b) ∙ before))
      (checksum_zero _ (sym (at b a) ∙ afterwards))
