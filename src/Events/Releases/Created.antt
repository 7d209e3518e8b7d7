-- ===== src/Events/Releases/Created.antt =====
-- The releases of a batch are found or created, and the list that is returned has their ids.
use fork_glitchtip_glitchtip.Events.Issues.{value_or_zero}
use fork_glitchtip_glitchtip.Common.{
  ℕ, ◌≡◌, inl, inr, Bool, true, Option, none, some, List, [], ◌∷◌, map, All, refl, sym, ap, ap₂,
  subst, ◌∙◌, arith, Option-cases, ==_iff,
}
use fork_glitchtip_glitchtip.Events.Releases.{
  ProjectRow, Catalog, Named, NameRow, next_where, release_row, to_create, insert_names,
  select_rows, named_row, insert_links, found_release, release_entry, get_and_create_releases,
  environment_row, create_environments,
}
use fork_glitchtip_glitchtip.Events.Releases.Rows.{
  IsKnown, IsHome, IsNamed, row_id, next_where-All, insert_names-keeps, insert_names-has,
  next_where-select, IsCovered, to_create-HasName, to_create-IsCovered, select_rows-All,
  link_pairs-total, to_create_fit, ids-insert_links,
}

known_id :
    (home : ℕ → ℕ) (db : Catalog) (n : Named) (x : ProjectRow)
    → IsHome home n
    → release_row n x ≡ true
    → IsKnown home db x
    → db.ids n.name n.organization_id ≡ some x.release_id
known_id home db n x at_home matches known =
    let name = (==_iff x.release_name n.name).0 (ground arith) in
    let project = (==_iff x.id n.project_id).0 (ground arith) in
    ap₂ db.ids (sym name) (at_home ∙ ap home (sym project)) ∙ known

found_row : (row : Option NameRow) (i : ℕ) → row_id row ≡ some i → found_release none row ≡ i
found_row none i at = absurd (ground arith)
found_row (some row) i at = ap value_or_zero at

-- The entry of a name has the id that the table has for it.
abbrev IsListed : List ProjectRow → List NameRow → Catalog → Named → Type 0
IsListed projects rows db n =
    IsNamed db.ids n
    × (release_entry projects rows n
        ≡ (n.name, n.project_id, value_or_zero (db.ids n.name n.organization_id)))

entry-IsListed :
    (home : ℕ → ℕ) (projects : List ProjectRow) (db : Catalog) (pairs : List (ℕ × ℕ)) (n : Named)
    → All (IsKnown home db) projects
    → IsHome home n
    → IsCovered release_row projects pairs n
    → IsListed projects (select_rows pairs (insert_names pairs db)) (insert_names pairs db) n
unfolding release_entry
entry-IsListed home projects db pairs n known at_home covered =
    let db' = insert_names pairs db in
    elim (Option-cases (next_where (release_row n) projects)) [
      | inl missing ↦
          let (i, at) = insert_names-has pairs db n.name n.organization_id (covered missing) in
          let row = next_where (λ row. named_row row n) (select_rows pairs db') in
          let picked = next_where-select n pairs db' ∙ rw (covered missing) at in
          ((i, at), rw (missing, at) (ap (λ k. (n.name, n.project_id, k)) (found_row row i picked)))
      | inr (x, there) ↦
          let (matches, mine) =
            next_where-All (IsKnown home db) (release_row n) projects x known there in
          let at =
            insert_names-keeps pairs db n.name n.organization_id x.release_id
              (known_id home db n x at_home matches mine) in
          ((x.release_id, at), rw (there, at) refl)
    ]

all-IsListed :
    (home : ℕ → ℕ) (projects : List ProjectRow) (db : Catalog) (pairs : List (ℕ × ℕ))
    (names : List Named)
    → All (IsKnown home db) projects
    → All (IsHome home) names
    → All (IsCovered release_row projects pairs) names
    → All
        (IsListed projects (select_rows pairs (insert_names pairs db)) (insert_names pairs db))
        names
all-IsListed home projects db pairs [] known at_home covered = tt
all-IsListed home projects db pairs (n ∷ names) known (first, at_home) (here, covered) = (
  entry-IsListed home projects db pairs n known first here,
  all-IsListed home projects db pairs names known at_home covered,
)

covered_named :
    (row_of : Named → ProjectRow → Bool) (projects : List ProjectRow) (pairs : List (ℕ × ℕ))
    (names : List Named) (db : Catalog)
    → All (IsCovered row_of projects pairs) names
    → All (λ n. next_where (row_of n) projects ≡ none → IsNamed (insert_names pairs db).ids n) names
covered_named row_of projects pairs [] db covered = tt
covered_named row_of projects pairs (n ∷ names) db (first, covered) = (
  (λ missing. insert_names-has pairs db n.name n.organization_id (first missing)),
  covered_named row_of projects pairs names db covered,
)

abbrev pub entry : (ℕ → ℕ → Option ℕ) → Named → ℕ × ℕ × ℕ
entry ids n = (n.name, n.project_id, value_or_zero (ids n.name n.organization_id))

listed_map :
    (projects : List ProjectRow) (rows : List NameRow) (db : Catalog) (names : List Named)
    → All (IsListed projects rows db) names
    → (map (release_entry projects rows) names ≡ map (entry db.ids) names)
      × All (IsNamed db.ids) names
listed_map projects rows db [] listed = (refl, tt)
listed_map projects rows db (n ∷ names) ((named, same), listed) =
    let (rest, all) = listed_map projects rows db names listed in (ap₂ ◌∷◌ same rest, (named, all))

-- what `get_and_create_releases` leaves: a list and a table
pub record IsCreated (db : Catalog) (names : List Named) (r : List (ℕ × ℕ × ℕ) × Catalog)
    : Type 0 where
  pub listed : r.0 ≡ map (entry r.1.ids) names
  pub named : All (IsNamed r.1.ids) names
  pub kept : (v o i : ℕ) → db.ids v o ≡ some i → r.1.ids v o ≡ some i

created_lem :
    (db db' db'' : Catalog) (projects : List ProjectRow) (rows : List NameRow) (names : List Named)
    → db''.ids ≡ db'.ids
    → ((v o i : ℕ) → db.ids v o ≡ some i → db'.ids v o ≡ some i)
    → All (IsListed projects rows db') names
    → IsCreated db names (map (release_entry projects rows) names, db'')
created_lem db db' db'' projects rows names same kept listed =
    let (list, named) = listed_map projects rows db' names listed in
    record {
      listed = list ∙ ap (λ ids. map (entry ids) names) (sym same);
      named = subst (λ ids. All (IsNamed ids) names) (sym same) named;
      kept = λ v o i at. ap (λ ids. ids v o) same ∙ kept v o i at;
    }

-- With names that the database takes, `create_environments` does not raise, keeps the environments
-- that there are, and leaves an environment for every name and organization of the set that no row of its project has.
pub create_environments-keeps :
    (fits : ℕ → Bool) (names : List Named) (projects : List ProjectRow) (db : Catalog)
    → All (λ n. fits n.name ≡ true) names
    → (db' : Catalog) × (create_environments fits names projects db ≡ some db')
      × ((v o i : ℕ) → db.ids v o ≡ some i → db'.ids v o ≡ some i)
      × All (λ n. next_where (environment_row n) projects ≡ none → IsNamed db'.ids n) names
unfolding create_environments
create_environments-keeps fits names projects db ok =
    let pairs = to_create environment_row projects names in
    let db' = insert_names pairs db in
    let (links, total) =
      link_pairs-total names (select_rows pairs db')
        (select_rows-All names pairs db' (to_create-HasName environment_row projects names)) in
    let same = ids-insert_links links db' in
    let made =
      covered_named environment_row projects pairs names db
        (to_create-IsCovered environment_row projects names) in
    (
      insert_links links db',
      rw (to_create_fit fits environment_row projects names ok, total) refl,
      (λ v o i at. ap (λ ids. ids v o) same ∙ insert_names-keeps pairs db v o i at),
      subst (λ ids. All (λ n. next_where (environment_row n) projects ≡ none → IsNamed ids n) names)
          (sym same) made,
    )

-- With rows whose releases are those of their name in the organization of their project, and a set
-- in which each project has its organization and whose names are all taken by the database,
-- `get_and_create_releases` does not raise, takes no release away, leaves a release for every name and organization of the set, and returns for each element of
-- the set, in its order, the name, the project and the id of that release.
pub get_and_create_releases-IsCreated :
    (fits : ℕ → Bool) (home : ℕ → ℕ) (names : List Named) (projects : List ProjectRow)
    (db : Catalog)
    → All (IsKnown home db) projects
    → All (IsHome home) names
    → All (λ n. fits n.name ≡ true) names
    → (r : List (ℕ × ℕ × ℕ) × Catalog) × (get_and_create_releases fits names projects db ≡ some r)
      × IsCreated db names r
unfolding get_and_create_releases
get_and_create_releases-IsCreated fits home names projects db known at_home ok =
    let pairs = to_create release_row projects names in
    let db' = insert_names pairs db in
    let rows = select_rows pairs db' in
    let listed =
      all-IsListed home projects db pairs names known at_home
        (to_create-IsCovered release_row projects names) in
    let (links, total) =
      link_pairs-total names rows
        (select_rows-All names pairs db' (to_create-HasName release_row projects names)) in
    (
      (map (release_entry projects rows) names, insert_links links db'),
      rw (to_create_fit fits release_row projects names ok, total) refl,
      created_lem db db' (insert_links links db') projects rows names (ids-insert_links links db')
          (insert_names-keeps pairs db) listed,
    )
