-- ===== src/Events/Releases/Rows.antt =====
-- What the inserts and selects of names leave and return.
use fork_glitchtip_glitchtip.Events.Issues.{is_missing}
use fork_glitchtip_glitchtip.Common.{
  ℕ, ◌≡◌, ◌⊎◌, inl, inr, Bool, true, false, ◌&&◌, Option, none, some, List, [], ◌∷◌, ◌==◌,
  if◌then◌else◌, All, refl, sym, ap, subst, ◌∙◌, arith, Bool-cases, Option-cases, ==_refl,
}
use fork_glitchtip_glitchtip.Events.Releases.{
  ProjectRow, Catalog, Named, NameRow, next_where, to_create, insert_name, insert_names, all_fit,
  is_among, select_rows, named_row, link_pairs, insert_links,
}

-- the row's release is the one of its name in the organization of its project
abbrev pub IsKnown : (ℕ → ℕ) → Catalog → ProjectRow → Type 0
IsKnown home db x = db.ids x.release_name (home x.id) ≡ some x.release_id

abbrev pub IsHome : (ℕ → ℕ) → Named → Type 0
IsHome home n = n.organization_id ≡ home n.project_id

abbrev pub IsNamed : (ℕ → ℕ → Option ℕ) → Named → Type 0
IsNamed ids n = (i : ℕ) × (ids n.name n.organization_id ≡ some i)

abbrev pub row_id : Option NameRow → Option ℕ
row_id none = none
row_id (some row) = some row.id

abbrev value_or {ℓ} : {A : Type ℓ} → A → Option A → A
value_or a none = a
value_or a (some b) = b

if_some {ℓ} :
    {A : Type ℓ} (b : Bool) (x a : A) (rest : Option A)
    → (if b then some x else rest) ≡ some a
    → ((b ≡ true) × (x ≡ a)) ⊎ (rest ≡ some a)
if_some true x a rest found = inl (refl, ap (value_or a) found)
if_some false x a rest found = inr found

pub next_where-All {ℓ} :
    {A : Type ℓ} (P : A → Type ℓ) (test : A → Bool) (xs : List A) (a : A)
    → All P xs
    → next_where test xs ≡ some a
    → (test a ≡ true) × P a
unfolding next_where
next_where-All P test [] a all found = absurd (ground arith)
next_where-All P test (x ∷ xs) a (first, all) found =
    elim (if_some (test x) x a (next_where test xs) found) [
      | inl (here, same) ↦ subst (λ y. (test y ≡ true) × P y) same (here, first)
      | inr later ↦ next_where-All P test xs a all later
    ]

next_where_weaken {ℓ} :
    {A : Type ℓ} (test : A → Bool) (x : A) (xs : List A) (a : A)
    → next_where test xs ≡ some a
    → (b : A) × (next_where test (x ∷ xs) ≡ some b)
unfolding next_where
next_where_weaken test x xs a found = elim (Bool-cases (test x)) [
  | inl here ↦ (x, rw here refl)
  | inr away ↦ (a, rw away found)
]

insert_name-keeps :
    (v o : ℕ) (row : Option ℕ) (db : Catalog) (w p i : ℕ)
    → db.ids v o ≡ row
    → db.ids w p ≡ some i
    → (insert_name v o row db).ids w p ≡ some i
unfolding insert_name
insert_name-keeps v o (some old) db w p i free at = at
insert_name-keeps v o none db w p i free at = ground arith

pub insert_names-keeps :
    (pairs : List (ℕ × ℕ)) (db : Catalog) (w p i : ℕ)
    → db.ids w p ≡ some i
    → (insert_names pairs db).ids w p ≡ some i
unfolding insert_names
insert_names-keeps [] db w p i at = at
insert_names-keeps ((v, o) ∷ pairs) db w p i at =
    insert_names-keeps pairs _ w p i (insert_name-keeps v o (db.ids v o) db w p i refl at)

insert_name-has :
    (v o : ℕ) (row : Option ℕ) (db : Catalog)
    → db.ids v o ≡ row
    → (i : ℕ) × ((insert_name v o row db).ids v o ≡ some i)
unfolding insert_name
insert_name-has v o (some old) db at = (old, at)
insert_name-has v o none db at = (db.next_id, ground arith)

same_pair :
    (db : Catalog) (v o w p : ℕ) (ids : ℕ → ℕ → Option ℕ) (i : ℕ)
    → ((v == w) && (o == p)) ≡ true
    → ids v o ≡ some i
    → ids w p ≡ some i
same_pair db v o w p ids i same at = ground arith

pub insert_names-has :
    (pairs : List (ℕ × ℕ)) (db : Catalog) (w p : ℕ)
    → is_among w p pairs ≡ true
    → (i : ℕ) × ((insert_names pairs db).ids w p ≡ some i)
unfolding insert_names is_among
insert_names-has [] db w p here = absurd (ground arith)
insert_names-has ((v, o) ∷ pairs) db w p here = elim (Bool-cases ((v == w) && (o == p))) [
  | inl same ↦
      let (i, at) = insert_name-has v o (db.ids v o) db refl in
      (
        i,
        insert_names-keeps pairs _ w p i
            (same_pair db v o w p (insert_name v o (db.ids v o) db).ids i same at),
      )
  | inr other ↦ insert_names-has pairs _ w p (ground arith)
]

pub next_where-select :
    (n : Named) (pairs : List (ℕ × ℕ)) (db : Catalog)
    → row_id (next_where (λ row. named_row row n) (select_rows pairs db))
      ≡ (if is_among n.name n.organization_id pairs then db.ids n.name n.organization_id else none)
unfolding next_where select_rows is_among
next_where-select n [] db = refl
next_where-select n ((v, o) ∷ pairs) db =
    let rest = next_where-select n pairs db in
    elim (Bool-cases (is_among v o pairs)) [
      | inl again ↦ rw again (rest ∙ ground arith)
      | inr last ↦ rw last (elim (Option-cases (db.ids v o)) [
        | inl missing ↦ rw missing (rest ∙ ground arith)
        | inr (i, there) ↦ rw there (elim (Bool-cases ((v == n.name) && (o == n.organization_id))) [
          | inl same ↦ rw same (sym (same_pair db v o n.name n.organization_id db.ids i same there))
          | inr other ↦ rw other rest
        ])
      ])
    ]

-- Some element of the set has the name and the organization.
abbrev pub HasName : List Named → ℕ × ℕ → Type 0
HasName names k =
    (m : Named) × (next_where (λ n. (k.0 == n.name) && (k.1 == n.organization_id)) names ≡ some m)

HasName-weaken :
    (n : Named) (names : List Named) (pairs : List (ℕ × ℕ))
    → All (HasName names) pairs
    → All (HasName (n ∷ names)) pairs
HasName-weaken n names [] all = tt
HasName-weaken n names (k ∷ pairs) ((m, at), all) = (
  next_where_weaken (λ n. (k.0 == n.name) && (k.1 == n.organization_id)) n names m at,
  HasName-weaken n names pairs all,
)

pub to_create-HasName :
    (row_of : Named → ProjectRow → Bool) (projects : List ProjectRow) (names : List Named)
    → All (HasName names) (to_create row_of projects names)
unfolding to_create
to_create-HasName row_of projects [] = tt
to_create-HasName row_of projects (n ∷ names) =
    let rest =
      HasName-weaken n names (to_create row_of projects names)
        (to_create-HasName row_of projects names) in
    elim (Bool-cases (is_missing (next_where (row_of n) projects))) [
      | inl missing ↦
          rw missing
            ((n, unfold next_where in rw (==_refl n.name, ==_refl n.organization_id) refl), rest)
      | inr there ↦ rw there rest
    ]

-- the names to create fit where all do
pub to_create_fit :
    (fits : ℕ → Bool) (row_of : Named → ProjectRow → Bool) (projects : List ProjectRow)
    (names : List Named)
    → All (λ n. fits n.name ≡ true) names
    → all_fit fits (to_create row_of projects names) ≡ true
unfolding to_create all_fit
to_create_fit fits row_of projects [] all = refl
to_create_fit fits row_of projects (n ∷ names) (one, all) =
    let rest = to_create_fit fits row_of projects names all in
    elim (Bool-cases (is_missing (next_where (row_of n) projects))) [
      | inl missing ↦ rw (missing, one) rest
      | inr there ↦ rw there rest
    ]

-- a name without a row is among those to create
abbrev pub IsCovered : (Named → ProjectRow → Bool) → List ProjectRow → List (ℕ × ℕ) → Named → Type 0
IsCovered row_of projects pairs n =
    next_where (row_of n) projects ≡ none → is_among n.name n.organization_id pairs ≡ true

IsCovered-grow :
    (row_of : Named → ProjectRow → Bool) (projects : List ProjectRow) (b : Bool) (k : ℕ × ℕ)
    (pairs : List (ℕ × ℕ)) (names : List Named)
    → All (IsCovered row_of projects pairs) names
    → All (IsCovered row_of projects (if b then k ∷ pairs else pairs)) names
unfolding is_among
IsCovered-grow row_of projects b k pairs [] all = tt
IsCovered-grow row_of projects true k pairs (n ∷ names) (first, all) = (
  (λ missing. let there = first missing in rw there (ground arith)),
  IsCovered-grow row_of projects true k pairs names all,
)
IsCovered-grow row_of projects false k pairs (n ∷ names) (first, all) =
    (first, IsCovered-grow row_of projects false k pairs names all)

pub to_create-IsCovered :
    (row_of : Named → ProjectRow → Bool) (projects : List ProjectRow) (names : List Named)
    → All (IsCovered row_of projects (to_create row_of projects names)) names
unfolding to_create is_among
to_create-IsCovered row_of projects [] = tt
to_create-IsCovered row_of projects (n ∷ names) = (
  (λ missing. rw missing (ground arith)),
  IsCovered-grow row_of projects (is_missing (next_where (row_of n) projects))
      (n.name, n.organization_id) (to_create row_of projects names) names
      (to_create-IsCovered row_of projects names),
)

pub select_rows-All :
    (names : List Named) (pairs : List (ℕ × ℕ)) (db : Catalog)
    → All (HasName names) pairs
    → All (λ row. HasName names (row.name, row.organization_id)) (select_rows pairs db)
unfolding select_rows
select_rows-All names [] db all = tt
select_rows-All names ((v, o) ∷ pairs) db (first, all) =
    let rest = select_rows-All names pairs db all in
    elim (Bool-cases (is_among v o pairs)) [
      | inl again ↦ rw again rest
      | inr last ↦ rw last (elim (Option-cases (db.ids v o)) [
        | inl missing ↦ rw missing rest
        | inr (i, there) ↦ rw there (first, rest)
      ])
    ]

pub link_pairs-total :
    (names : List Named) (rows : List NameRow)
    → All (λ row. HasName names (row.name, row.organization_id)) rows
    → (links : List (ℕ × ℕ)) × (link_pairs rows names ≡ some links)
unfolding link_pairs
link_pairs-total names [] all = ([], refl)
link_pairs-total names (row ∷ rows) ((m, at), all) =
    let (links, rest) = link_pairs-total names rows all in
    ((row.id, m.project_id) ∷ links, rw (at, rest) refl)

pub ids-insert_links : (links : List (ℕ × ℕ)) (db : Catalog) → (insert_links links db).ids ≡ db.ids
unfolding insert_links
ids-insert_links [] db = refl
ids-insert_links ((i, p) ∷ links) db = ids-insert_links links _
