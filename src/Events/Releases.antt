-- ===== src/Events/Releases.antt =====
-- apps/event_ingest/process_event.py, `create_environments` and `get_and_create_releases`. Releases
-- and environments are tables of the same shape: rows with an organization and a name, which are
-- unique, and links to projects. A name stands as a number, as the code only compares names; which
-- names the database takes (of at most 255 characters, and without NUL) is an argument. The order in which the database returns selected rows is left open by it, and fixed here.
pub mod Rows
pub mod Created
use fork_glitchtip_glitchtip.Events.Issues.{value_or_zero, is_missing}
use fork_glitchtip_glitchtip.Common.{
  ℕ, zero, suc, ◌+◌, Bool, true, false, ◌&&◌, ◌||◌, not, Option, none, some, List, [], ◌∷◌, map,
  ◌==◌, if◌then◌else◌, ◌>>=◌,
}

-- a row of the query in `_get_or_create_related_models`, whose WHERE leaves out missing releases
pub record ProjectRow : Type 0 where
  pub id : ℕ
  pub release_id : ℕ
  pub release_name : ℕ
  pub environment_name : Option ℕ

-- the ids by name and organization, the links of an id to a project, the next id of the sequence
pub record Catalog : Type 0 where
  pub ids : ℕ → ℕ → Option ℕ
  pub links : ℕ → ℕ → Bool
  pub next_id : ℕ

-- an element of `release_set` and `environment_set`
pub record Named : Type 0 where
  pub name : ℕ
  pub project_id : ℕ
  pub organization_id : ℕ

-- a row that the SELECT after the INSERT returns
pub record NameRow : Type 0 where
  pub id : ℕ
  pub name : ℕ
  pub organization_id : ℕ

-- `next` of a generator, with a test
pub next_where {ℓ} : {A : Type ℓ} → (A → Bool) → List A → Option A
next_where test [] = none
next_where test (a ∷ rest) = let found = next_where test rest in if test a then some a else found

abbrev pub has_name : Option ℕ → ℕ → Bool
has_name none name = false
has_name (some n) name = n == name

abbrev pub release_row : Named → ProjectRow → Bool
release_row n x = (x.release_name == n.name) && (x.id == n.project_id)

abbrev pub environment_row : Named → ProjectRow → Bool
environment_row n x = has_name x.environment_name n.name && (x.id == n.project_id)

-- `releases_to_create` and `env_to_create`
pub to_create : (Named → ProjectRow → Bool) → List ProjectRow → List Named → List (ℕ × ℕ)
to_create row_of projects [] = []
to_create row_of projects (n ∷ names) =
    let rest = to_create row_of projects names in
    if is_missing (next_where (row_of n) projects) then (n.name, n.organization_id) ∷ rest else rest

abbrev pub set_id : ℕ → ℕ → ℕ → (ℕ → ℕ → Option ℕ) → ℕ → ℕ → Option ℕ
set_id name org id ids n o = if (n == name) && (o == org) then some id else ids n o

-- a row of the INSERT ... ON CONFLICT DO NOTHING, which takes an id from the sequence in any case
pub insert_name : ℕ → ℕ → Option ℕ → Catalog → Catalog
insert_name name org (some old) db = record db { next_id = suc db.next_id }
insert_name name org none db = record db {
  ids = set_id name org db.next_id db.ids;
  next_id = suc db.next_id;
}

pub insert_names : List (ℕ × ℕ) → Catalog → Catalog
insert_names [] db = db
insert_names ((name, org) ∷ rest) db = insert_names rest (insert_name name org (db.ids name org) db)

pub all_fit : (ℕ → Bool) → List (ℕ × ℕ) → Bool
all_fit fits [] = true
all_fit fits ((name, org) ∷ rest) = fits name && all_fit fits rest

-- The INSERT of all the rows, which raises as a whole for a name that does not fit.
abbrev pub stored_names : (ℕ → Bool) → List (ℕ × ℕ) → Catalog → Option Catalog
stored_names fits pairs db = if all_fit fits pairs then some (insert_names pairs db) else none

pub is_among : ℕ → ℕ → List (ℕ × ℕ) → Bool
is_among name org [] = false
is_among name org ((n, o) ∷ rest) = ((n == name) && (o == org)) || is_among name org rest

abbrev pub add_row : ℕ → ℕ → Option ℕ → List NameRow → List NameRow
add_row name org none rows = rows
add_row name org (some i) rows = record { id = i; name = name; organization_id = org } ∷ rows

-- SELECT ... WHERE (name, organization_id) IN (VALUES ...): each row of the table once
pub select_rows : List (ℕ × ℕ) → Catalog → List NameRow
select_rows [] db = []
select_rows ((name, org) ∷ rest) db =
    let rows = select_rows rest db in
    if is_among name org rest then rows else add_row name org (db.ids name org) rows

abbrev pub named_row : NameRow → Named → Bool
named_row row n = (row.name == n.name) && (row.organization_id == n.organization_id)

abbrev pub add_link : Option Named → NameRow → Option (List (ℕ × ℕ)) → Option (List (ℕ × ℕ))
add_link none row links = none
add_link (some n) row none = none
add_link (some n) row (some links) = some ((row.id, n.project_id) ∷ links)

-- the pairs of an id and the first project with its name; `next` without a default raises where
-- there is none
pub link_pairs : List NameRow → List Named → Option (List (ℕ × ℕ))
link_pairs [] names = some []
link_pairs (row ∷ rows) names =
    add_link (next_where (named_row row) names) row (link_pairs rows names)

-- INSERT ... ON CONFLICT DO NOTHING into the table of links
pub insert_links : List (ℕ × ℕ) → Catalog → Catalog
insert_links [] db = db
insert_links ((i, p) ∷ rest) db =
    insert_links rest (record db { links = λ j q. ((j == i) && (q == p)) || db.links j q })

abbrev pub linked : Option (List (ℕ × ℕ)) → Catalog → Option Catalog
linked none db = none
linked (some pairs) db = some (insert_links pairs db)

pub create_environments : (ℕ → Bool) → List Named → List ProjectRow → Catalog → Option Catalog
create_environments fits environment_set projects db = do
  let env_to_create = to_create environment_row projects environment_set
  db' ← stored_names fits env_to_create db
  linked (link_pairs (select_rows env_to_create db') environment_set) db'

abbrev pub found_release : Option ProjectRow → Option NameRow → ℕ
found_release (some project) row = project.release_id
found_release none none = 0
found_release none (some row) = row.id

-- an entry of the list that is returned: version, project and release
pub release_entry : List ProjectRow → List NameRow → Named → ℕ × ℕ × ℕ
release_entry projects rows n = (
  n.name,
  n.project_id,
  found_release (next_where (release_row n) projects) (next_where (λ row. named_row row n) rows),
)

abbrev pub with_catalog {ℓ} : {A : Type ℓ} → A → Option Catalog → Option (A × Catalog)
with_catalog a none = none
with_catalog a (some db) = some (a, db)

pub get_and_create_releases :
    (ℕ → Bool) → List Named → List ProjectRow → Catalog → Option (List (ℕ × ℕ × ℕ) × Catalog)
get_and_create_releases fits release_set projects db = do
  let releases_to_create = to_create release_row projects release_set
  db' ← stored_names fits releases_to_create db
  let rows = select_rows releases_to_create db'
  with_catalog (map (release_entry projects rows) release_set)
      (linked (link_pairs rows release_set) db')
