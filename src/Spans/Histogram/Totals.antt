-- ===== src/Spans/Histogram/Totals.antt =====
-- The counts of a histogram after a merge, and the bucket of a percentile.
use native.Mathlib.Nat.{mul-le-mul_left, mul-pos}
use fork_glitchtip_glitchtip.Common.{
  ℕ, zero, suc, ◌+◌, ◌*◌, ◌/◌, ◌≡◌, ◌≤◌, ◌<◌, false, some, List, [], ◌∷◌, leb, ◌==◌, ==_iff, length,
  refl, arith, Bool-cases, inl, inr, ap, ◌∙◌, leb→le,
}
use fork_glitchtip_glitchtip.Spans.Histogram.{
  num_buckets, get_bucket_index, increment, merge_durations, target_count, bucket_loop,
  percentile_bucket,
}

abbrev pub total : List ℕ → ℕ
total [] = 0
total (n ∷ ns) = n + total ns

bucket_index_small : (boundaries : List ℕ) (lo hi d : ℕ) → get_bucket_index boundaries lo hi d < 50
unfolding get_bucket_index
bucket_index_small boundaries lo hi d = ground arith

increment_lem :
    (i : ℕ) (h : List ℕ)
    → i < length h
    → (h' : List ℕ) × (increment i h ≡ some h')
      × (length h' ≡ length h)
      × (total h' ≡ suc (total h))
unfolding increment
increment_lem i [] small = absurd (omega arith)
increment_lem zero (n ∷ ns) small = (suc n ∷ ns, refl, refl, omega arith)
increment_lem (suc i) (n ∷ ns) small =
    let (rest, at, len, sum) = increment_lem i ns (omega arith) in
    (n ∷ rest, rw at refl, ap suc len, omega (arith, sum))

merge_lem :
    (index : ℕ → ℕ) (ds h : List ℕ)
    → ((d : ℕ) → index d < length h)
    → (h' : List ℕ) × (merge_durations index h ds ≡ some h')
      × (length h' ≡ length h)
      × (total h' ≡ total h + length ds)
unfolding merge_durations
merge_lem index [] h small = (h, refl, refl, omega arith)
merge_lem index (d ∷ ds) h small =
    let (next, at, len, sum) = increment_lem (index d) h (small d) in
    let (h', at', len', sum') = merge_lem index ds next (λ e. omega (arith, len, small e)) in
    (h', rw at at', len' ∙ len, omega (arith, sum, sum'))

-- Merging durations into a histogram of 50 buckets never fails, keeps the 50 buckets, and raises
-- their total by the number of durations, whatever the boundaries are.
pub merge_durations-total :
    (boundaries : List ℕ) (lo hi : ℕ) (h ds : List ℕ)
    → length h ≡ num_buckets
    → (h' : List ℕ) × (merge_durations (get_bucket_index boundaries lo hi) h ds ≡ some h')
      × (length h' ≡ num_buckets)
      × (total h' ≡ total h + length ds)
merge_durations-total boundaries lo hi h ds full =
    let (h', at, len, sum) =
      merge_lem (get_bucket_index boundaries lo hi) ds h
        (λ d. omega (arith, bucket_index_small boundaries lo hi d)) in
    (h', at, len ∙ full, sum)

-- the counts of the first `i` buckets
abbrev pub below : ℕ → List ℕ → ℕ
below i [] = 0
below zero (n ∷ ns) = 0
below (suc i) (n ∷ ns) = n + below i ns

suc_move : (i j : ℕ) → suc i + j ≡ i + suc j
suc_move i j = omega arith

zero_plus : (j : ℕ) → 0 + j ≡ j
zero_plus j = omega arith

plus_zero : (i : ℕ) → i ≡ i + 0
plus_zero i = omega arith

leb_false→lt : (a b : ℕ) → leb a b ≡ false → b < a
leb_false→lt a b h = ground arith

loop_found :
    (target i c : ℕ) (ns : List ℕ)
    → c < target
    → target ≤ c + total ns
    → (j : ℕ) × (bucket_loop target i c ns ≡ some (i + j))
      × (c + below j ns < target)
      × (target ≤ c + below (suc j) ns)
unfolding bucket_loop
loop_found target i c [] low high = absurd (omega arith)
loop_found target i c (n ∷ ns) low high = elim (Bool-cases (n == 0)) [
  | inl empty ↦
      let (j, at, before, after) =
        loop_found target (suc i) c ns low (omega (arith, (==_iff n 0).0 empty)) in
      (
        suc j,
        rw empty (at ∙ ap some (suc_move i j)),
        omega (arith, before, (==_iff n 0).0 empty),
        omega (arith, after, (==_iff n 0).0 empty),
      )
  | inr some_there ↦ elim (Bool-cases (leb target (c + n))) [
    | inl reached ↦ (
      0,
      rw (some_there, reached) (ap some (plus_zero i)),
      omega arith,
      omega (arith, leb→le target (c + n) reached),
    )
    | inr short ↦
        let (j, at, before, after) =
          loop_found target (suc i) (c + n) ns (omega (arith, leb_false→lt target (c + n) short))
            (omega arith) in
        (
          suc j,
          rw (some_there, short) (at ∙ ap some (suc_move i j)),
          omega (arith, before),
          omega (arith, after),
        )
  ]
]

ceil_small : (x t : ℕ) → x ≤ 100 * t → (x + 99) / 100 ≤ t
ceil_small x t h = omega arith

ceil_pos : (x : ℕ) → 0 < x → 0 < (x + 99) / 100
ceil_pos x h = omega arith

ceil_below : (x b : ℕ) → b < (x + 99) / 100 → 100 * b < x
ceil_below x b h = omega arith

ceil_reached : (x b : ℕ) → (x + 99) / 100 ≤ b → x ≤ 100 * b
ceil_reached x b h = omega arith

percent_small : (t p : ℕ) → p ≤ 100 → t * p ≤ 100 * t
percent_small t p h = omega (arith, mul-le-mul_left t h)

percent_pos : (t p : ℕ) → 0 < t → 0 < p → 0 < t * p
percent_pos t p h k = mul-pos h k

not_zero : (n : ℕ) → 0 < n → (n == 0) ≡ false
not_zero n h = ground arith

-- For a percentage from 1 to 100 and a histogram of a positive total, the percentile is found: its
-- bucket is the first up to which the counts reach the percentage of the total, rounded up.
pub percentile_bucket_found :
    (ns : List ℕ) (pct : ℕ)
    → 0 < total ns
    → 0 < pct
    → pct ≤ 100
    → (j : ℕ) × (percentile_bucket ns (total ns) pct ≡ some j)
      × (100 * below j ns < total ns * pct)
      × (total ns * pct ≤ 100 * below (suc j) ns)
unfolding percentile_bucket target_count
percentile_bucket_found [] pct some_there pos small = absurd (omega arith)
percentile_bucket_found (n ∷ ns) pct some_there pos small =
    let t = total (n ∷ ns) in
    let x = t * pct in
    let (j, at, before, after) =
      loop_found ((x + 99) / 100) 0 0 (n ∷ ns) (ceil_pos x (percent_pos t pct some_there pos))
        (omega (arith, ceil_small x t (percent_small t pct small))) in
    (
      j,
      rw (not_zero t some_there) (at ∙ ap some (zero_plus j)),
      ceil_below x (below j (n ∷ ns)) (omega (arith, before)),
      ceil_reached x (below (suc j) (n ∷ ns)) (omega (arith, after)),
    )
