-- ===== src/Events/Update/Counts.antt =====
-- The counts of the issues after a batch.
use fork_glitchtip_glitchtip.Events.Issues.{value_or_zero}
use fork_glitchtip_glitchtip.Common.{
  ℕ, ◌+◌, ◌≡◌, inl, inr, ◌&&◌, Option, none, some, List, [], ◌∷◌, ◌==◌, if◌then◌else◌, All, refl,
  sym, ap, ◌∙◌, arith,
}
use fork_glitchtip_glitchtip.Common.{Bool-cases, leb}
use fork_glitchtip_glitchtip.Events.Issues.{ProcessingEvent, Leaf, Tables, put}
use fork_glitchtip_glitchtip.Events.Issues.Filing.{IsFiled, filed_truthy, leaf_count, hit}
use fork_glitchtip_glitchtip.Events.Issues.Grouping.{hits, created_hits}
use fork_glitchtip_glitchtip.Events.Update.{
  IssueUpdate, merge_update, first_update, add_update, is_skipped, collect_updates, insert_update,
  sort_updates, upsert_leaf, write_updates, update_issues,
}

-- the counts that the updates of an issue and an organization add
row_hit : ℕ → ℕ → ℕ × IssueUpdate → ℕ
row_hit i o (j, u) = if (j == i) && (u.organization_id == o) then u.added_count else 0

added : ℕ → ℕ → List (ℕ × IssueUpdate) → ℕ
added i o [] = 0
added i o (row ∷ rows) = row_hit i o row + added i o rows

-- the events of an issue and an organization that `update_issues` counts
later_hit : ℕ → ℕ → ProcessingEvent → ℕ
later_hit i o e = if is_skipped e then 0 else hit i o e

pub later_hits : ℕ → ℕ → List ProcessingEvent → ℕ
later_hits i o [] = 0
later_hits i o (e ∷ es) = later_hit i o e + later_hits i o es

-- Each update belongs to the organization of its issue.
HomeRows : (ℕ → ℕ) → List (ℕ × IssueUpdate) → Type 0
HomeRows org = All (λ row. row.1.organization_id ≡ org row.0)

-- Each event that has an issue belongs to the organization of the issue.
abbrev pub HomeEvents : (ℕ → ℕ) → List ProcessingEvent → Type 0
HomeEvents org = All (λ e. (i : ℕ) → e.issue_id ≡ some i → e.organization_id ≡ org i)

leaf_count-upsert :
    (u : IssueUpdate) (o : Option Leaf) → (upsert_leaf u o).count ≡ leaf_count o + u.added_count
unfolding upsert_leaf
leaf_count-upsert u none = omega arith
leaf_count-upsert u (some leaf) = refl

leaf_count-write :
    (rows : List (ℕ × IssueUpdate)) (index : ℕ → ℕ → Option Leaf) (i o : ℕ)
    → leaf_count (write_updates rows index i o) ≡ leaf_count (index i o) + added i o rows
unfolding write_updates added row_hit
leaf_count-write [] index i o = omega arith
leaf_count-write ((j, u) ∷ rows) index i o =
    let rest =
      leaf_count-write rows
        (put j u.organization_id (upsert_leaf u (index j u.organization_id)) index) i o in
    let one = leaf_count-upsert u (index j u.organization_id) in ground (arith, rest, one)

added-insert :
    (i o : ℕ) (row : ℕ × IssueUpdate) (rows : List (ℕ × IssueUpdate))
    → added i o (insert_update row rows) ≡ row_hit i o row + added i o rows
unfolding insert_update added
added-insert i o (j, u) [] = refl
added-insert i o (j, u) ((k, v) ∷ rows) = elim (Bool-cases (leb j k)) [
  | inl first ↦ rw first refl
  | inr behind ↦ rw behind (omega (arith, added-insert i o (j, u) rows))
]

added-sort :
    (i o : ℕ) (rows : List (ℕ × IssueUpdate)) → added i o (sort_updates rows) ≡ added i o rows
unfolding sort_updates added
added-sort i o [] = refl
added-sort i o (row ∷ rows) =
    omega (arith, added-insert i o row (sort_updates rows), added-sort i o rows)

-- an event of an issue in its own organization raises the issue's number by one
add_update-added :
    (org : ℕ → ℕ) (i j : ℕ) (e : ProcessingEvent) (rows : List (ℕ × IssueUpdate))
    → HomeRows org rows
    → e.organization_id ≡ org j
    → (added i (org i) (add_update j e rows) ≡ (if j == i then 1 else 0) + added i (org i) rows)
      × HomeRows org (add_update j e rows)
unfolding add_update added row_hit first_update merge_update HomeRows
add_update-added org i j e [] home mine = (ground arith, (mine, tt))
add_update-added org i j e ((k, u) ∷ rows) (first, home) mine = elim (Bool-cases (k == j)) [
  | inl same ↦ rw same (ground arith, (first, home))
  | inr other ↦
      let (rest, home') = add_update-added org i j e rows home mine in
      rw other (omega (arith, rest), (first, home'))
]

filed_skipped : (db : Tables) (e : ProcessingEvent) → IsFiled db e → is_skipped e ≡ e.issue_created
unfolding is_skipped
filed_skipped db e filed = rw (filed_truthy db e filed) (ground arith)

id_value : (e : ProcessingEvent) (j : ℕ) → e.issue_id ≡ some j → value_or_zero e.issue_id ≡ j
id_value e j id = ap value_or_zero id

-- an event of an issue, in the organization of the issue
home_hit :
    (org : ℕ → ℕ) (i j : ℕ) (e : ProcessingEvent)
    → e.issue_id ≡ some j
    → e.organization_id ≡ org j
    → hit i (org i) e ≡ (if j == i then 1 else 0)
home_hit org i j e id mine = rw id (ground arith)

-- for events with an id, which the updates then add up
collect_updates-added :
    (org : ℕ → ℕ) (db : Tables) (i : ℕ) (events : List ProcessingEvent)
    (rows : List (ℕ × IssueUpdate))
    → All (IsFiled db) events
    → HomeEvents org events
    → HomeRows org rows
    → added i (org i) (collect_updates events rows)
      ≡ later_hits i (org i) events + added i (org i) rows
unfolding collect_updates later_hits later_hit
collect_updates-added org db i [] rows filed home rows_home = omega arith
collect_updates-added org db i (e ∷ events) rows ((j, pos, id, at), filed) (mine, home) rows_home =
    let skip = filed_skipped db e (j, pos, id, at) in
    let here = home_hit org i j e id (mine j id) in
    elim (Bool-cases (is_skipped e)) [
      | inl made ↦
          rw made (omega (arith, collect_updates-added org db i events rows filed home rows_home))
      | inr old ↦
          let (one, rows_home') =
            add_update-added org i (value_or_zero e.issue_id) e rows rows_home
              (mine j id ∙ sym (ap org (id_value e j id))) in
          let rest =
            collect_updates-added org db i events (add_update (value_or_zero e.issue_id) e rows)
              filed home rows_home' in
          let same = id_value e j id in
          rw old (omega (arith, rest, one, here, ap {B = ℕ} (λ k. if k == i then 1 else 0) same))
    ]

pub later_or_created :
    (db : Tables) (i o : ℕ) (events : List ProcessingEvent)
    → All (IsFiled db) events
    → created_hits i o events + later_hits i o events ≡ hits i o events
unfolding later_hits later_hit
later_or_created db i o [] filed = omega arith
later_or_created db i o (e ∷ events) (first, filed) =
    let rest = later_or_created db i o events filed in
    let skip = filed_skipped db e first in ground (arith, rest, skip)

pub leaf_count-update :
    (org : ℕ → ℕ) (db : Tables) (events : List ProcessingEvent) (i : ℕ)
    → All (IsFiled db) events
    → HomeEvents org events
    → leaf_count ((update_issues events db).index i (org i))
      ≡ leaf_count (db.index i (org i)) + later_hits i (org i) events
unfolding update_issues added HomeRows
leaf_count-update org db events i filed home =
    let rows = collect_updates events [] in
    omega (
      arith,
      leaf_count-write (sort_updates rows) db.index i (org i),
      added-sort i (org i) rows,
      collect_updates-added org db i events [] filed home tt,
    )

-- the updates of the leaves keep the other tables
pub hashes-update :
    (events : List ProcessingEvent) (db : Tables) → (update_issues events db).hashes ≡ db.hashes
unfolding update_issues
hashes-update events db = refl

pub issues-update :
    (events : List ProcessingEvent) (db : Tables) → (update_issues events db).issues ≡ db.issues
unfolding update_issues
issues-update events db = refl
