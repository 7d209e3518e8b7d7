-- ===== src/Events/Stats/Sums.antt =====
-- What the counters of a batch add to a table of statistics, for any keys with a sound test.
use fork_glitchtip_glitchtip.Events.Issues.{value_or_zero}
use fork_glitchtip_glitchtip.Common.{
  ℕ, ◌+◌, ◌≡◌, ◌↔◌, inl, inr, Bool, true, false, ◌&&◌, Option, none, some, List, [], ◌∷◌, ◌==◌,
  if◌then◌else◌, All, refl, sym, ap, ap₂, ◌∙◌, arith, Bool-cases,
}
use fork_glitchtip_glitchtip.Events.Stats.{
  Stat, bump_stat, bump_stats, insert_stat, sort_stats, upserted, upsert_stat, upsert_stats,
  write_hits,
}

one_more :
    (b : Bool) (n : ℕ) → (if b then n + 1 else 0) ≡ (if b then 1 else 0) + (if b then n else 0)
one_more true n = omega arith
one_more false n = omega arith

module _ {K : Type 0} (same : K → K → Bool) (sound : (a b : K) → (same a b ≡ true) ↔ (a ≡ b)) where
  -- the increments of a key and an organization
  abbrev pub hit_count : K → ℕ → List (K × ℕ) → ℕ
  hit_count k org [] = 0
  hit_count k org ((l, p) ∷ hits) = (if same l k && (p == org) then 1 else 0) + hit_count k org hits

  abbrev stat_count : K → ℕ → Stat K → ℕ
  stat_count k org s = if same s.key k && (s.organization_id == org) then s.count else 0

  abbrev stats_count : K → ℕ → List (Stat K) → ℕ
  stats_count k org [] = 0
  stats_count k org (s ∷ stats) = stat_count k org s + stats_count k org stats

  -- Each key has one organization.
  abbrev pub HomeHits : (K → ℕ) → List (K × ℕ) → Type 0
  HomeHits home = All (λ hit. hit.1 ≡ home hit.0)

  abbrev HomeStats : (K → ℕ) → List (Stat K) → Type 0
  HomeStats home = All (λ s. s.organization_id ≡ home s.key)

  value_of-upserted :
      (row : Option ℕ) (n : ℕ) → value_or_zero (upserted row n) ≡ value_or_zero row + n
  value_of-upserted none n = omega arith
  value_of-upserted (some old) n = refl

  upsert-stats_count :
      (stats : List (Stat K)) (table : K → ℕ → Option ℕ) (k : K) (org : ℕ)
      → value_or_zero (upsert_stats same stats table k org)
        ≡ value_or_zero (table k org) + stats_count k org stats
  unfolding upsert_stats upsert_stat
  upsert-stats_count [] table k org = omega arith
  upsert-stats_count (s ∷ stats) table k org =
      let rest = upsert-stats_count stats (upsert_stat same s table) k org in
      let here = value_of-upserted (table k org) s.count in
      elim (Bool-cases (same s.key k && (s.organization_id == org))) [
        | inl mine ↦ rest ∙ rw mine (omega (arith, here))
        | inr other ↦ rest ∙ rw other (omega arith)
      ]

  insert-stats_count :
      (before : K → K → Bool) (s : Stat K) (stats : List (Stat K)) (k : K) (org : ℕ)
      → stats_count k org (insert_stat before s stats)
        ≡ stat_count k org s + stats_count k org stats
  unfolding insert_stat
  insert-stats_count before s [] k org = refl
  insert-stats_count before s (t ∷ stats) k org = elim (Bool-cases (before t.key s.key)) [
    | inl later ↦ rw later (omega (arith, insert-stats_count before s stats k org))
    | inr here ↦ rw here refl
  ]

  sort-stats_count :
      (before : K → K → Bool) (stats : List (Stat K)) (k : K) (org : ℕ)
      → stats_count k org (sort_stats before stats) ≡ stats_count k org stats
  unfolding sort_stats
  sort-stats_count before [] k org = refl
  sort-stats_count before (s ∷ stats) k org = omega (
    arith,
    insert-stats_count before s (sort_stats before stats) k org,
    sort-stats_count before stats k org,
  )

  bumped_count :
      (k : K) (org : ℕ) (s : Stat K) (l : K) (p : ℕ) (stats : List (Stat K))
      → s.key ≡ l
      → s.organization_id ≡ p
      → stats_count k org (record s { count = s.count + 1; organization_id = p } ∷ stats)
        ≡ (if same l k && (p == org) then 1 else 0) + stats_count k org (s ∷ stats)
  bumped_count k org s l p stats e f =
      let key = ap (λ x. same x k) e in
      let before =
        ap₂ {C = ℕ} (λ a b. if a && b then s.count else 0) key (ap {B = Bool} (λ x. x == org) f) in
      let after = ap {B = ℕ} (λ a. if a && (p == org) then s.count + 1 else 0) key in
      omega (arith, before, after, one_more (same l k && (p == org)) s.count)

  bump-stats_count :
      (home : K → ℕ) (l : K) (p : ℕ) (stats : List (Stat K))
      → p ≡ home l
      → HomeStats home stats
      → HomeStats home (bump_stat same l p stats)
        × ((k : K)
            → stats_count k (home k) (bump_stat same l p stats)
              ≡ (if same l k && (p == home k) then 1 else 0) + stats_count k (home k) stats)
  unfolding bump_stat
  bump-stats_count home l p [] mine homes = ((mine, tt), λ k. refl)
  bump-stats_count home l p (s ∷ stats) mine (first, homes) = elim (Bool-cases (same s.key l)) [
    | inl here ↦
        let e = (sound s.key l).0 here in
        rw here (
          (mine ∙ ap home (sym e), homes),
          λ k. bumped_count k (home k) s l p stats e (first ∙ ap home e ∙ sym mine),
        )
    | inr away ↦
        let (homes', counts) = bump-stats_count home l p stats mine homes in
        rw away ((first, homes'), λ k. omega (arith, counts k))
  ]

  bump_all-stats_count :
      (home : K → ℕ) (hits : List (K × ℕ)) (stats : List (Stat K)) (k : K)
      → HomeHits home hits
      → HomeStats home stats
      → stats_count k (home k) (bump_stats same hits stats)
        ≡ hit_count k (home k) hits + stats_count k (home k) stats
  unfolding bump_stats
  bump_all-stats_count home [] stats k mine homes = omega arith
  bump_all-stats_count home ((l, p) ∷ hits) stats k (first, mine) homes =
      let (homes', counts) = bump-stats_count home l p stats first homes in
      omega
        (arith, counts k, bump_all-stats_count home hits (bump_stat same l p stats) k mine homes')

  -- Where each key has one organization, the number of each key rises by its increments in the batch.
  pub write_hits-adds :
      (before : K → K → Bool) (home : K → ℕ) (hits : List (K × ℕ)) (table : K → ℕ → Option ℕ)
      (k : K)
      → HomeHits home hits
      → value_or_zero (write_hits same before hits table k (home k))
        ≡ value_or_zero (table k (home k)) + hit_count k (home k) hits
  unfolding write_hits
  write_hits-adds before home hits table k mine =
      let stats = bump_stats same hits [] in
      omega (
        arith,
        upsert-stats_count (sort_stats before stats) table k (home k),
        sort-stats_count before stats k (home k),
        bump_all-stats_count home hits [] k mine tt,
      )
