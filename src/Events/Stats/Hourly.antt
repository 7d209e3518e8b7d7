-- ===== src/Events/Stats/Hourly.antt =====
-- The hourly statistics of projects and issues count the events received in the hour.
use fork_glitchtip_glitchtip.Common.{
  ℕ, ◌+◌, ◌*◌, ◌≡◌, ◌↔◌, inl, inr, Bool, true, ◌&&◌, Option, List, [], ◌∷◌, ltb, leb, ◌==◌,
  if◌then◌else◌, All, refl, ap, ap₂, ◌∙◌, arith, Bool-cases, ==_iff,
}
use fork_glitchtip_glitchtip.Events.Issues.{ProcessingEvent, truthy, value_or_zero}
use fork_glitchtip_glitchtip.Events.Stats.{
  stat_hour, same_hour_key, hour_key_before, project_hits, issue_hits, update_project_statistics,
  update_org_statistics,
}
use fork_glitchtip_glitchtip.Events.Stats.Sums.{hit_count, HomeHits, write_hits-adds}

both_equal : {h i k l : ℕ} → h ≡ i → k ≡ l → ((h == i) && (k == l)) ≡ true
both_equal e f = ground arith

same_hour_key_iff : (a b : ℕ × ℕ) → (same_hour_key a b ≡ true) ↔ (a ≡ b)
same_hour_key_iff (h, k) (i, l) = (
  (λ e.
      ap₂ {C = ℕ × ℕ} (λ x y. (x, y)) ((==_iff h i).0 (ground arith))
        ((==_iff k l).0 (ground arith))),
  λ e. both_equal (ap {B = ℕ} (λ x. x.0) e) (ap {B = ℕ} (λ x. x.1) e),
)

-- received in the m-th hour
in_hour : ℕ → ProcessingEvent → Bool
in_hour m e = leb (3600 * m) e.received && ltb e.received (3600 * m + 3600)

-- the events of a project in an hour; those of an issue
project_events : ℕ → ℕ → List ProcessingEvent → ℕ
project_events m p [] = 0
project_events m p (e ∷ events) =
    (if in_hour m e && (e.project_id == p) then 1 else 0) + project_events m p events

hour_lem : (t m : ℕ) → (stat_hour t == 3600 * m) ≡ (leb (3600 * m) t && ltb t (3600 * m + 3600))
unfolding stat_hour
hour_lem t m = ground arith

-- an increment of a key in an hour, where the key determines the organization
hour_hit :
    (m k l o q : ℕ) (e : ProcessingEvent)
    → (k ≡ l → o ≡ q)
    → ◌≡◌ {A = ℕ}
        (if same_hour_key (stat_hour e.received, k) (3600 * m, l) && (o == q) then 1 else 0)
        (if in_hour m e && (k == l) then 1 else 0)
unfolding in_hour
hour_hit m k l o q e home = elim (Bool-cases (k == l)) [
  | inl here ↦
      let at = home ((==_iff k l).0 here) in rw (hour_lem e.received m, here, at) (ground arith)
  | inr away ↦ rw (hour_lem e.received m, away) (ground arith)
]

abbrev pub HomeProjects : (ℕ → ℕ) → List ProcessingEvent → Type 0
HomeProjects home = All (λ e. e.organization_id ≡ home e.project_id)

project_hits-HomeHits :
    (home : ℕ → ℕ) (events : List ProcessingEvent)
    → HomeProjects home events
    → HomeHits same_hour_key same_hour_key_iff (λ k. home k.1) (project_hits events)
unfolding project_hits
project_hits-HomeHits home [] mine = tt
project_hits-HomeHits home (e ∷ events) (first, mine) =
    (first, project_hits-HomeHits home events mine)

project_hits-count :
    (home : ℕ → ℕ) (m p : ℕ) (events : List ProcessingEvent)
    → HomeProjects home events
    → hit_count same_hour_key same_hour_key_iff (3600 * m, p) (home p) (project_hits events)
      ≡ project_events m p events
unfolding project_hits project_events
project_hits-count home m p [] mine = refl
project_hits-count home m p (e ∷ events) (first, mine) = omega (
  arith,
  project_hits-count home m p events mine,
  hour_hit m e.project_id p e.organization_id (home p) e (λ here. first ∙ ap home here),
)

-- Where each project of the batch has one organization, `update_statistics` raises the number of each
-- project in each hour by the events of the batch that the project received in that hour.
update_project_statistics-counts :
    (home : ℕ → ℕ) (events : List ProcessingEvent) (table : ℕ × ℕ → ℕ → Option ℕ) (m p : ℕ)
    → HomeProjects home events
    → value_or_zero (update_project_statistics events table (3600 * m, p) (home p))
      ≡ value_or_zero (table (3600 * m, p) (home p)) + project_events m p events
unfolding update_project_statistics
update_project_statistics-counts home events table m p mine =
    write_hits-adds same_hour_key same_hour_key_iff hour_key_before (λ k. home k.1)
      (project_hits events) table (3600 * m, p) (project_hits-HomeHits home events mine)
    ∙ ap (λ n. value_or_zero (table (3600 * m, p) (home p)) + n)
        (project_hits-count home m p events mine)

-- the events of an issue in an hour
pub issue_events : ℕ → ℕ → List ProcessingEvent → ℕ
issue_events m i [] = 0
issue_events m i (e ∷ events) =
    (if truthy e.issue_id
      then (if in_hour m e && (value_or_zero e.issue_id == i) then 1 else 0)
      else 0)
    + issue_events m i events

-- Each event belongs to the organization of its issue.
abbrev pub HomeIssues : (ℕ → ℕ) → List ProcessingEvent → Type 0
HomeIssues home =
    All (λ e. truthy e.issue_id ≡ true → e.organization_id ≡ home (value_or_zero e.issue_id))

issue_hits-count :
    (home : ℕ → ℕ) (m i : ℕ) (events : List ProcessingEvent)
    → HomeIssues home events
    → HomeHits same_hour_key same_hour_key_iff (λ k. home k.1) (issue_hits events)
      × (hit_count same_hour_key same_hour_key_iff (3600 * m, i) (home i) (issue_hits events)
          ≡ issue_events m i events)
unfolding issue_hits issue_events
issue_hits-count home m i [] mine = (tt, refl)
issue_hits-count home m i (e ∷ events) (first, mine) =
    let (homes, rest) = issue_hits-count home m i events mine in
    elim (Bool-cases (truthy e.issue_id)) [
      | inl known ↦
          let at = first known in
          let one =
            hour_hit m (value_or_zero e.issue_id) i e.organization_id (home i) e
              (λ here. at ∙ ap home here) in
          rw known ((at, homes), omega (arith, rest, one))
      | inr missing ↦ rw missing (homes, omega (arith, rest))
    ]

-- Where each issue of the batch has one organization, `update_org_statistics` raises the number of each
-- issue in each hour by the events of the batch that have the issue and were received in that hour.
pub update_org_statistics-counts :
    (home : ℕ → ℕ) (events : List ProcessingEvent) (table : ℕ × ℕ → ℕ → Option ℕ) (m i : ℕ)
    → HomeIssues home events
    → value_or_zero (update_org_statistics events table (3600 * m, i) (home i))
      ≡ value_or_zero (table (3600 * m, i) (home i)) + issue_events m i events
unfolding update_org_statistics
update_org_statistics-counts home events table m i mine =
    let (homes, counts) = issue_hits-count home m i events mine in
    write_hits-adds same_hour_key same_hour_key_iff hour_key_before (λ k. home k.1)
      (issue_hits events) table (3600 * m, i) homes
    ∙ ap (λ n. value_or_zero (table (3600 * m, i) (home i)) + n) counts
