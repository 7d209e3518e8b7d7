-- ===== src/Events/Update/Totals.antt =====
-- What a batch adds to the counts of the issues: `process_issue_events` against a table of hashes
-- and a count of the batch's events.
use fork_glitchtip_glitchtip.Common.{
  ℕ, ◌+◌, ◌≡◌, ◌&&◌, Option, some, List, [], ◌∷◌, map, ◌==◌, if◌then◌else◌, All, refl, sym, ap,
  subst, ◌∙◌, arith,
}
use fork_glitchtip_glitchtip.Events.Issues.{
  ProcessingEvent, Tables, HashRow, assign_all, issues_to_reopen, reopen,
}
use fork_glitchtip_glitchtip.Events.Issues.Filing.{
  IsConsistent, IsSnapshot, IsFiled, leaf_count, has_id, key,
}
use fork_glitchtip_glitchtip.Events.Issues.Reopening.{
  leaf_count-reopen, hashes-reopen, project_of, project-reopen,
}
use fork_glitchtip_glitchtip.Events.Issues.Grouping.{hits, IsNew, assign_all-IsGrouped}
use fork_glitchtip_glitchtip.Events.Update.{update_issues, process_issues}
use fork_glitchtip_glitchtip.Events.Update.Counts.{
  HomeEvents, leaf_count-update, later_or_created, hashes-update, issues-update,
}

-- the events of a batch whose project and hash belong to an issue, in an organization
filed_hit : (ℕ → ℕ → Option ℕ) → ℕ → ℕ → ℕ × ℕ × ℕ → ℕ
filed_hit hashes i o (p, h, org) = if has_id i (hashes p h) && (org == o) then 1 else 0

pub filed_hits : (ℕ → ℕ → Option ℕ) → ℕ → ℕ → List (ℕ × ℕ × ℕ) → ℕ
filed_hits hashes i o [] = 0
filed_hits hashes i o (k ∷ ks) = filed_hit hashes i o k + filed_hits hashes i o ks

filed_hits-hits :
    (db : Tables) (i o : ℕ) (events : List ProcessingEvent)
    → All (IsFiled db) events
    → filed_hits db.hashes i o (map key events) ≡ hits i o events
unfolding filed_hits filed_hit
filed_hits-hits db i o [] filed = refl
filed_hits-hits db i o (e ∷ events) ((j, pos, id, at), filed) =
    let rest = filed_hits-hits db i o events filed in rw (at, id) (omega (arith, rest))

-- the organization of an issue, by its project
pub org_of : (ℕ → ℕ) → Tables → ℕ → ℕ
org_of home db i = home (project_of (db.issues i))

-- Each event belongs to the organization of its project.
abbrev pub IsHome : (ℕ → ℕ) → ℕ × ℕ × ℕ → Type 0
IsHome home (p, h, org) = org ≡ home p

same_id : (e : ProcessingEvent) (j i : ℕ) → e.issue_id ≡ some j → e.issue_id ≡ some i → j ≡ i
same_id e j i a b = cc

home_events :
    (home : ℕ → ℕ) (db : Tables) (events : List ProcessingEvent)
    → IsConsistent db
    → All (IsFiled db) events
    → All (IsHome home) (map key events)
    → HomeEvents (org_of home db) events
unfolding org_of
home_events home db [] c filed mine = tt
home_events home db (e ∷ events) c ((j, pos, id, at), filed) (first, mine) =
    let (_, (issue, there, same)) = c.owned e.project_id e.issue_hash j at in
    (
      (λ i has.
          first
          ∙ ap home (sym same)
          ∙ ap (λ o. home (project_of o)) (sym there)
          ∙ ap (λ k. home (project_of (db.issues k))) (same_id e j i id has)),
      home_events home db events c filed mine,
    )

org_of-update :
    (home : ℕ → ℕ) (events : List ProcessingEvent) (rows : List (ℕ × ℕ)) (db : Tables) (i : ℕ)
    → org_of home (reopen rows (update_issues events db)) i ≡ org_of home db i
unfolding org_of
org_of-update home events rows db i = ap home (
    project-reopen rows (update_issues events db) i
    ∙ ap (λ table. project_of (table i)) (issues-update events db))

hashes-process :
    (events : List ProcessingEvent) (rows : List (ℕ × ℕ)) (db : Tables)
    → (reopen rows (update_issues events db)).hashes ≡ db.hashes
hashes-process events rows db =
    hashes-reopen rows (update_issues events db) ∙ hashes-update events db

-- On consistent tables, with rows read before that may miss hashes which others inserted since, and for a
-- batch of new events that each belong to the organization of their project: in the tables that
-- `process_issue_events` leaves, the count of each issue, in the organization of its project, is the
-- count before plus the number of events of the batch whose project and hash belong to the issue.
pub leaf_count-process_issues :
    (hash_dict : ℕ → ℕ → Option HashRow) (events : List ProcessingEvent) (db : Tables)
    (home : ℕ → ℕ) (i : ℕ)
    → IsConsistent db
    → IsSnapshot hash_dict db
    → All IsNew events
    → All (IsHome home) (map key events)
    → let db' = (process_issues hash_dict events db).0 in
      let o = org_of home db' i in
      leaf_count (db'.index i o)
      ≡ leaf_count (db.index i o) + filed_hits db'.hashes i o (map key events)
unfolding process_issues
leaf_count-process_issues hash_dict events db home i c snap new mine =
    let g = assign_all-IsGrouped hash_dict events db c snap new in
    let r = assign_all hash_dict events db in
    let rows = issues_to_reopen hash_dict events in
    let o = org_of home r.0 i in
    let mine' = subst (All (IsHome home)) (sym g.same_keys) mine in
    let total = filed_hits-hits r.0 i o r.1 g.filed in
    let opened = leaf_count-reopen rows (update_issues r.1 r.0) i o in
    let updated =
      leaf_count-update (org_of home r.0) r.0 r.1 i g.filed
        (home_events home r.0 r.1 g.consistent g.filed mine') in
    rw (org_of-update home r.1 rows r.0 i, hashes-process r.1 rows r.0, sym g.same_keys)
      (omega (arith, opened, updated, g.counted i o, later_or_created r.0 i o r.1 g.filed, total))
