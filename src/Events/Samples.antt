-- ===== src/Events/Samples.antt =====
-- Sample tables and batches for the theorems on issue events.
use fork_glitchtip_glitchtip.Events.Issues.{value_or_zero}
use fork_glitchtip_glitchtip.Common.{
  ℕ, ◌+◌, ◌*◌, ◌≡◌, ◌<◌, inl, inr, false, ◌&&◌, Option, none, some, List, [], ◌∷◌, map, ◌==◌, ltb,
  leb, if◌then◌else◌, All, refl, ap, ◌∙◌, arith, Bool-cases,
}
use fork_glitchtip_glitchtip.Events.Issues.{
  resolved, ProcessingEvent, Leaf, Issue, Tables, HashRow, assign_all,
}
use fork_glitchtip_glitchtip.Events.Issues.Filing.{IsConsistent, IsSnapshot, leaf_count, key}
use fork_glitchtip_glitchtip.Events.Issues.Grouping.{IsGrouped, IsNew, assign_all-IsGrouped}
use fork_glitchtip_glitchtip.Events.Update.{process_issues}
use fork_glitchtip_glitchtip.Events.Update.Totals.{
  org_of, filed_hits, IsHome, leaf_count-process_issues,
}
use fork_glitchtip_glitchtip.Events.Releases.{Named, ProjectRow, Catalog, get_and_create_releases}
use fork_glitchtip_glitchtip.Events.Releases.Created.{IsCreated, get_and_create_releases-IsCreated}
use Prim.Native.String.{String}
use fork_glitchtip_glitchtip.Events.Tags.{TaggedEvent, TagTables, clean_events, day_of, update_tags}
use fork_glitchtip_glitchtip.Events.Tags.Stored.{tag_number}
use fork_glitchtip_glitchtip.Events.Tags.Counts.{day_tags}
use fork_glitchtip_glitchtip.Events.Tags.Room.{update_tags-counts}

-- project 1 of organization 7 has issue 1, resolved, for hash 10
abbrev known_issue : Issue
known_issue = record {
  project_id = 1;
  short_id = 1;
  first_seen = 50;
  first_release_id = none;
  resolved_in_release_id = some 4;
}

abbrev known_leaf : Leaf
known_leaf = record {
  last_release_id = none;
  last_seen = 60;
  count = 3;
  status = resolved;
  level = 4;
  fts_document = "boom" ∷ [];
}

abbrev tables : Tables
tables = record {
  hashes = λ p h. if (p == 1) && (h == 10) then some 1 else none;
  issues = λ i. if i == 1 then some known_issue else none;
  index = λ i o. if (i == 1) && (o == 7) then some known_leaf else none;
  counters = λ p. if p == 1 then 1 else 0;
  next_id = 2;
}

abbrev event : ℕ → ProcessingEvent
event hash = record {
  project_id = 1;
  organization_id = 7;
  received = 100;
  issue_hash = hash;
  level = none;
  release_id = some 5;
  search_vector = "boom";
  issue_id = none;
  issue_created = false;
}

abbrev batch : List ProcessingEvent
batch = event 10 ∷ event 20 ∷ event 20 ∷ []

-- the row that was read for hash 10
abbrev snapshot : ℕ → ℕ → Option HashRow
snapshot p h =
    if (p == 1) && (h == 10)
    then some (record { issue_id = 1; status = resolved; resolved_in_release_id = some 4 })
    else none

owned_lem :
    (p h i : ℕ)
    → tables.hashes p h ≡ some i
    → (0 < i) × ((issue : Issue) × (tables.issues i ≡ some issue) × (issue.project_id ≡ p))
owned_lem p h i at = elim (Bool-cases ((p == 1) && (h == 10))) [
  | inl here ↦ (ground arith, (known_issue, ground arith, ground arith))
  | inr away ↦ absurd (ground arith)
]

tables-IsConsistent : IsConsistent tables
tables-IsConsistent = record {
  positive = omega arith;
  owned = owned_lem;
  fresh = λ i far. ground arith;
  leaf_fresh = λ i o far. ground arith;
}

abbrev row_issue : Option HashRow → Option ℕ
row_issue none = none
row_issue (some row) = some row.issue_id

snapshot_row : (p h : ℕ) → tables.hashes p h ≡ row_issue (snapshot p h)
snapshot_row p h = elim (Bool-cases ((p == 1) && (h == 10))) [
  | inl here ↦ rw here refl
  | inr away ↦ rw away refl
]

snapshot-IsSnapshot : IsSnapshot snapshot tables
snapshot-IsSnapshot p h row at = snapshot_row p h ∙ ap row_issue at

batch-IsNew : All IsNew batch
batch-IsNew = ((refl, refl), ((refl, refl), ((refl, refl), tt)))

batch-IsHome : All (IsHome (λ p. if p == 1 then 7 else 0)) (map key batch)
batch-IsHome = (refl, (refl, (refl, tt)))

assign_all-IsGrouped_example : IsGrouped tables batch (assign_all snapshot batch tables)
assign_all-IsGrouped_example =
    assign_all-IsGrouped snapshot batch tables tables-IsConsistent snapshot-IsSnapshot batch-IsNew

leaf_count-process_issues_example :
    let db' = (process_issues snapshot batch tables).0 in
    let o = org_of (λ p. if p == 1 then 7 else 0) db' 1 in
    leaf_count (db'.index 1 o)
    ≡ leaf_count (tables.index 1 o) + filed_hits db'.hashes 1 o (map key batch)
leaf_count-process_issues_example =
    leaf_count-process_issues snapshot batch tables (λ p. if p == 1 then 7 else 0) 1
      tables-IsConsistent snapshot-IsSnapshot batch-IsNew batch-IsHome

-- release 2 of organization 7 exists, and release 1 of two of its projects does not
abbrev release_set : List Named
release_set =
    record { name = 1; project_id = 1; organization_id = 7 }
    ∷ record { name = 1; project_id = 2; organization_id = 7 }
    ∷ record { name = 2; project_id = 1; organization_id = 7 }
    ∷ []

abbrev project_rows : List ProjectRow
project_rows = record { id = 1; release_id = 40; release_name = 2; environment_name = some 1 } ∷ []

abbrev catalog : Catalog
catalog = record {
  ids = λ v o. if (v == 2) && (o == 7) then some 40 else none;
  links = λ i p. false;
  next_id = 41;
}

get_and_create_releases-IsCreated_example :
    (r : List (ℕ × ℕ × ℕ) × Catalog) × (get_and_create_releases
        (λ n. ltb n 1000)
        release_set
        project_rows
        catalog
      ≡ some r)
    × IsCreated catalog release_set r
get_and_create_releases-IsCreated_example =
    get_and_create_releases-IsCreated (λ n. ltb n 1000) (λ p. 7) release_set project_rows catalog
      (refl, tt) (refl, (refl, (refl, tt))) (refl, (refl, (refl, tt)))

abbrev filed_batch : List ProcessingEvent
filed_batch = record (event 10) { issue_id = some 1 } ∷ event 20 ∷ []

abbrev no_rows : ℕ × ℕ → ℕ → Option ℕ
no_rows k org = none

abbrev event_tags : List (String × String)
event_tags = ("environment", "production") ∷ ("release", "1.2") ∷ ("environment", "staging") ∷ []

abbrev tagged : List TaggedEvent
tagged = record { event = record (event 10) { issue_id = some 1 }; event_tags = event_tags } ∷ []

abbrev tag_tables : TagTables
tag_tables = record {
  keys = record { ids = λ t. none; next_id = 1 };
  values = record { ids = λ t. none; next_id = 1 };
  counts = λ k org. none;
  has_partition = λ day. leb 0 day && ltb day 4294967296;
}

update_tags-counts_example :
    (db' : TagTables) × (update_tags tagged tag_tables ≡ some db')
    × ((d i k v : ℕ)
        → value_or_zero (db'.counts (86400 * d, i, k, v) 7)
          ≡ value_or_zero (tag_tables.counts (86400 * d, i, k, v) 7)
            + day_tags db'.keys db'.values d i k v (clean_events tagged))
unfolding tag_number day_of
update_tags-counts_example =
    update_tags-counts (λ i. 7) tagged tag_tables ((λ i known. refl), tt)
      (record {
        partitions = ((λ i known. refl), tt);
        keys = record { ids = λ t i at. cc; left = omega arith };
        values = record { ids = λ t i at. cc; left = omega arith };
        counts = λ d i k v. omega arith;
      })
