-- ===== src/Events/Issues.antt =====
-- apps/event_ingest/process_event.py: how the events of a batch find or create their issues
-- (`check_set_issue_id`, `_create_issue_and_hash`, and the loop of `process_issue_events`). Hashes,
-- times, projects and releases are numbers; a document stands for the texts that it indexes.
pub mod Filing
pub mod Steps
pub mod Grouping
pub mod Reopening
use Prim.Native.String.{String}
use fork_glitchtip_glitchtip.Common.{
  ℕ, zero, suc, ◌+◌, Bool, true, false, not, ◌&&◌, ◌||◌, Option, none, some, List, [], ◌∷◌, ◌++◌,
  map, length, ◌==◌, if◌then◌else◌,
}

pub data Status : Type 0 where
  unresolved resolved ignored : Status

-- the fields that grouping, counting and reopening read; `search_vector` is the result of
-- `get_search_vector`
pub record ProcessingEvent : Type 0 where
  pub project_id : ℕ
  pub organization_id : ℕ
  pub received : ℕ
  pub issue_hash : ℕ
  pub level : Option ℕ
  pub release_id : Option ℕ
  pub search_vector : String
  pub issue_id : Option ℕ
  pub issue_created : Bool

-- a row of IssueIndex
pub record Leaf : Type 0 where
  pub last_release_id : Option ℕ
  pub last_seen : ℕ
  pub count : ℕ
  pub status : Status
  pub level : ℕ
  pub fts_document : List String

-- a row of Issue
pub record Issue : Type 0 where
  pub project_id : ℕ
  pub short_id : ℕ
  pub first_seen : ℕ
  pub first_release_id : Option ℕ
  pub resolved_in_release_id : Option ℕ

-- the tables: IssueHash by project and hash, Issue by id, IssueIndex by issue and organization,
-- the counters of the projects, and the next value of the sequence of issue ids
pub record Tables : Type 0 where
  pub hashes : ℕ → ℕ → Option ℕ
  pub issues : ℕ → Option Issue
  pub index : ℕ → ℕ → Option Leaf
  pub counters : ℕ → ℕ
  pub next_id : ℕ

-- a row of `_fetch_issue_hashes_raw`
pub record HashRow : Type 0 where
  pub issue_id : ℕ
  pub status : Status
  pub resolved_in_release_id : Option ℕ

-- LogLevel.ERROR
abbrev pub error_level : ℕ
error_level = 4

-- the truth value of a number that may be missing
pub truthy : Option ℕ → Bool
truthy none = false
truthy (some zero) = false
truthy (some (suc n)) = true

abbrev pub is_missing {ℓ} : {A : Type ℓ} → Option A → Bool
is_missing none = true
is_missing (some a) = false

-- the number in a row or a field; 0 where there is none
abbrev pub value_or_zero : Option ℕ → ℕ
value_or_zero none = 0
value_or_zero (some n) = n

-- `level` in `issue_defaults`, or the default
pub level_or_error : Option ℕ → ℕ
level_or_error none = error_level
level_or_error (some zero) = error_level
level_or_error (some (suc n)) = suc n

-- the test and the assignment of `check_set_issue_id`, for an event
pub set_issue_id : ℕ → ℕ → ℕ → ProcessingEvent → ProcessingEvent
set_issue_id project hash issue event =
    if is_missing event.issue_id && ((event.project_id == project) && (event.issue_hash == hash))
    then record event { issue_id = some issue }
    else event

pub check_set_issue_id : List ProcessingEvent → ℕ → ℕ → ℕ → List ProcessingEvent
check_set_issue_id events project hash issue = map (set_issue_id project hash issue) events

-- a table of two keys, changed at one place
abbrev pub put {ℓ} : {A : Type ℓ} → ℕ → ℕ → A → (ℕ → ℕ → Option A) → ℕ → ℕ → Option A
put i j value table k l = if (k == i) && (l == j) then some value else table k l

abbrev pub new_leaf : ProcessingEvent → Leaf
new_leaf event = record {
  last_release_id = event.release_id;
  last_seen = event.received;
  count = 1;
  status = unresolved;
  level = level_or_error event.level;
  fts_document = event.search_vector ∷ [];
}

abbrev pub new_issue : ℕ → ProcessingEvent → Issue
new_issue short event = record {
  project_id = event.project_id;
  short_id = short;
  first_seen = event.received;
  first_release_id = event.release_id;
  resolved_in_release_id = none;
}

-- the writes of the transaction, with the issue's id and its short id
pub insert_issue : ℕ → ℕ → ProcessingEvent → Tables → Tables
insert_issue issue short event db = record db {
  hashes = put event.project_id event.issue_hash issue db.hashes;
  issues = λ i. if i == issue then some (new_issue short event) else db.issues i;
  index = put issue event.organization_id (new_leaf event) db.index;
}

-- the upsert of the project's counter, and the id that the insert of the issue takes from the
-- sequence; neither is undone where the transaction is rolled back
pub draw_ids : ProcessingEvent → Tables → Tables
draw_ids event db = record db {
  counters = λ p. if p == event.project_id then suc (db.counters p) else db.counters p;
  next_id = suc db.next_id;
}

-- `_create_issue_and_hash`, with the hash row found if another writer inserted it first: the tables,
-- the events of the batch, the issue's id, and whether it was created
pub create_or_read :
    Option ℕ
    → ProcessingEvent
    → List ProcessingEvent
    → Tables
    → Tables × List ProcessingEvent × ℕ × Bool
create_or_read (some winner) event events db = (draw_ids event db, events, winner, false)
create_or_read none event events db = (
  insert_issue db.next_id (suc (db.counters event.project_id)) event (draw_ids event db),
  check_set_issue_id events event.project_id event.issue_hash db.next_id,
  db.next_id,
  true,
)

pub create_issue_and_hash :
    ProcessingEvent → List ProcessingEvent → Tables → Tables × List ProcessingEvent × ℕ × Bool
create_issue_and_hash event events db =
    create_or_read (db.hashes event.project_id event.issue_hash) event events db

-- `processing_event.issue_id = hash_obj["issue_id"]`, where there is a row
pub take_hash_row : Option HashRow → ProcessingEvent → ProcessingEvent
take_hash_row none event = event
take_hash_row (some row) event = record event { issue_id = some row.issue_id }

-- the first part of the loop's body: the event with its issue, and the events behind it. The events
-- in front of it have issues, so that `check_set_issue_id` leaves them as they are.
pub visit :
    (ℕ → ℕ → Option HashRow)
    → ProcessingEvent
    → List ProcessingEvent
    → Tables
    → Tables × ProcessingEvent × List ProcessingEvent
visit hash_dict event rest db =
    let known = take_hash_row (hash_dict event.project_id event.issue_hash) event in
    let (db', rest', issue, created) = create_issue_and_hash known rest db in
    if truthy known.issue_id
    then (db, known, rest)
    else (db', record known { issue_id = some issue; issue_created = created }, rest')

-- the loop over `processing_events`, for that many events
pub assign_issues :
    ℕ → (ℕ → ℕ → Option HashRow) → List ProcessingEvent → Tables → Tables × List ProcessingEvent
assign_issues zero hash_dict events db = (db, events)
assign_issues (suc n) hash_dict [] db = (db, [])
assign_issues (suc n) hash_dict (event ∷ rest) db =
    let (db', event', rest') = visit hash_dict event rest db in
    let (db'', done) = assign_issues n hash_dict rest' db' in (db'', event' ∷ done)

pub assign_all :
    (ℕ → ℕ → Option HashRow) → List ProcessingEvent → Tables → Tables × List ProcessingEvent
assign_all hash_dict events db = assign_issues (length events) hash_dict events db

-- whether a resolved issue is opened again by an event
pub reopens : Option ℕ → Option ℕ → Bool
reopens none event_release = true
reopens (some release) none = false
reopens (some release) (some event_release) = not (release == event_release)

abbrev pub is_resolved : Status → Bool
is_resolved resolved = true
is_resolved _ = false

pub reopened_by : Option HashRow → ProcessingEvent → List (ℕ × ℕ)
reopened_by none event = []
reopened_by (some row) event =
    if is_resolved row.status && reopens row.resolved_in_release_id event.release_id
    then (row.issue_id, event.organization_id) ∷ []
    else []

-- `issues_to_reopen`
pub issues_to_reopen : (ℕ → ℕ → Option HashRow) → List ProcessingEvent → List (ℕ × ℕ)
issues_to_reopen hash_dict [] = []
issues_to_reopen hash_dict (event ∷ rest) =
    reopened_by (hash_dict event.project_id event.issue_hash) event
    ++ issues_to_reopen hash_dict rest

abbrev pub open_leaf : Option Leaf → Option Leaf
open_leaf none = none
open_leaf (some leaf) = some (record leaf { status = unresolved })

abbrev pub clear_release : Option Issue → Option Issue
clear_release none = none
clear_release (some issue) = some (record issue { resolved_in_release_id = none })

-- the updates for `issues_to_reopen`
pub reopen : List (ℕ × ℕ) → Tables → Tables
reopen [] db = db
reopen ((issue, org) ∷ rest) db = reopen rest (record db {
  index = λ i o. if (i == issue) && (o == org) then open_leaf (db.index i o) else db.index i o;
  issues = λ i. if i == issue then clear_release (db.issues i) else db.issues i;
})
