-- ===== src/Events/Update.antt =====
-- apps/event_ingest/process_event.py, `update_issues`, and the part of `process_issue_events` from
-- the loop that finds the issues to their updates. A text document stands for the texts appended to
-- it; its limit in lexemes is the database's.
pub mod Counts
pub mod Totals
use Prim.Native.String
use Prim.Native.String.{String}
use fork_glitchtip_glitchtip.Common.{
  ℕ, zero, suc, ◌+◌, Bool, true, false, not, ◌&&◌, ◌||◌, Option, none, some, List, [], ◌∷◌, ◌++◌,
  length, leb, ltb, ◌==◌, if◌then◌else◌, max,
}
use fork_glitchtip_glitchtip.Events.Issues.{
  Status, unresolved, resolved, ignored, ProcessingEvent, Leaf, Tables, HashRow, truthy,
  value_or_zero, put, error_level, assign_all, issues_to_reopen, reopen,
}

pub record IssueUpdate : Type 0 where
  pub organization_id : ℕ
  pub last_seen : ℕ
  pub search_vector : String
  pub added_count : ℕ
  pub last_release_id : Option ℕ

-- the branch for an issue that has an update already
pub merge_update : ProcessingEvent → IssueUpdate → IssueUpdate
merge_update event u =
    let later = ltb u.last_seen event.received in
    record u {
      added_count = u.added_count + 1;
      search_vector = String.◌++◌ u.search_vector (String.◌++◌ " " event.search_vector);
      last_seen = if later then event.received else u.last_seen;
      last_release_id =
          if truthy event.release_id && (later || not (truthy u.last_release_id))
          then event.release_id
          else u.last_release_id;
    }

pub first_update : ProcessingEvent → IssueUpdate
first_update event = record {
  organization_id = event.organization_id;
  last_seen = event.received;
  search_vector = event.search_vector;
  added_count = 1;
  last_release_id = event.release_id;
}

-- `issues_to_update`, in the order of insertion
pub add_update : ℕ → ProcessingEvent → List (ℕ × IssueUpdate) → List (ℕ × IssueUpdate)
add_update issue event [] = (issue, first_update event) ∷ []
add_update issue event ((i, u) ∷ updates) =
    if i == issue
    then (i, merge_update event u) ∷ updates
    else (i, u) ∷ add_update issue event updates

-- `processing_event.issue_created or not issue_id`
pub is_skipped : ProcessingEvent → Bool
is_skipped event = event.issue_created || not (truthy event.issue_id)

pub collect_updates : List ProcessingEvent → List (ℕ × IssueUpdate) → List (ℕ × IssueUpdate)
collect_updates [] updates = updates
collect_updates (event ∷ events) updates =
    collect_updates events (
      if is_skipped event then updates else add_update (value_or_zero event.issue_id) event updates)

-- `sorted(…, key=itemgetter(0))`
pub insert_update : ℕ × IssueUpdate → List (ℕ × IssueUpdate) → List (ℕ × IssueUpdate)
insert_update (i, u) [] = (i, u) ∷ []
insert_update (i, u) ((j, v) ∷ rows) =
    if leb i j then (i, u) ∷ (j, v) ∷ rows else (j, v) ∷ insert_update (i, u) rows

pub sort_updates : List (ℕ × IssueUpdate) → List (ℕ × IssueUpdate)
sort_updates [] = []
sort_updates (row ∷ rows) = insert_update row (sort_updates rows)

-- COALESCE
abbrev pub coalesce : Option ℕ → Option ℕ → Option ℕ
coalesce none b = b
coalesce (some a) b = some a

-- UPDATE where the leaf exists, else INSERT with the column defaults
pub upsert_leaf : IssueUpdate → Option Leaf → Leaf
upsert_leaf u none = record {
  last_release_id = u.last_release_id;
  last_seen = u.last_seen;
  count = u.added_count;
  status = unresolved;
  level = error_level;
  fts_document = u.search_vector ∷ [];
}
upsert_leaf u (some leaf) = record leaf {
  last_release_id = coalesce u.last_release_id leaf.last_release_id;
  last_seen = max leaf.last_seen u.last_seen;
  count = leaf.count + u.added_count;
  fts_document = leaf.fts_document ++ u.search_vector ∷ [];
}

-- the statement, row by row; the rows have different issues
pub write_updates : List (ℕ × IssueUpdate) → (ℕ → ℕ → Option Leaf) → ℕ → ℕ → Option Leaf
write_updates [] index = index
write_updates ((i, u) ∷ rows) index =
    write_updates rows (put i u.organization_id (upsert_leaf u (index i u.organization_id)) index)

pub update_issues : List ProcessingEvent → Tables → Tables
update_issues events db = record db {
  index = write_updates (sort_updates (collect_updates events [])) db.index;
}

-- from the loop over `processing_events` to the updates of the issues
pub process_issues :
    (ℕ → ℕ → Option HashRow) → List ProcessingEvent → Tables → Tables × List ProcessingEvent
process_issues hash_dict events db =
    let (db', events') = assign_all hash_dict events db in
    (reopen (issues_to_reopen hash_dict events) (update_issues events' db'), events')
