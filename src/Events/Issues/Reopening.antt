-- ===== src/Events/Issues/Reopening.antt =====
-- Which issues a batch reopens, and what reopening leaves as it is.
use fork_glitchtip_glitchtip.Common.{
  ℕ, ◌≡◌, ◌≢◌, ◌⊎◌, inl, inr, Bool, true, false, ◌&&◌, ◌||◌, Option, none, some, List, [], ◌∷◌,
  ◌==◌, if◌then◌else◌, refl, ap, ◌∙◌, Bool-cases,
}
use fork_glitchtip_glitchtip.Events.Issues.{
  ProcessingEvent, Leaf, Issue, Tables, HashRow, resolved, reopens, is_resolved, open_leaf,
  clear_release, reopen,
}
use fork_glitchtip_glitchtip.Events.Issues.Filing.{leaf_count}

-- An event in the release `event` reopens an issue resolved in the release `resolved_in`: always
-- where the issue was resolved in no release, and otherwise where the event is in a release and
-- that is another one.
ReopensIn : Option ℕ → Option ℕ → Type 0
ReopensIn resolved_in event =
    (resolved_in ≡ none) ⊎ ((r : ℕ) × (e : ℕ) × (resolved_in ≡ some r) × (event ≡ some e) × (r ≢ e))

-- The event was read with a row of the issue, which is resolved, and reopens it in the organization.
ReopensRow : Option HashRow → ℕ → ℕ → ProcessingEvent → Type 0
ReopensRow none i o event = ⊥
ReopensRow (some row) i o event =
    (row.status ≡ resolved)
    × ReopensIn row.resolved_in_release_id event.release_id
    × (i ≡ row.issue_id)
    × (o ≡ event.organization_id)

-- Some event of the batch reopens the issue in the organization.
pub ReopensAny : (ℕ → ℕ → Option HashRow) → ℕ → ℕ → List ProcessingEvent → Type 0
ReopensAny hash_dict i o [] = ⊥
ReopensAny hash_dict i o (event ∷ rest) =
    ReopensRow (hash_dict event.project_id event.issue_hash) i o event
    ⊎ ReopensAny hash_dict i o rest

-- the event reopens the issue in the organization, by the row that was read for it
row_reopens : Option HashRow → ℕ → ℕ → ProcessingEvent → Bool
row_reopens none i o event = false
row_reopens (some row) i o event =
    (is_resolved row.status && reopens row.resolved_in_release_id event.release_id)
    && ((i == row.issue_id) && (o == event.organization_id))

any_reopens : (ℕ → ℕ → Option HashRow) → ℕ → ℕ → List ProcessingEvent → Bool
any_reopens hash_dict i o [] = false
any_reopens hash_dict i o (event ∷ rest) =
    row_reopens (hash_dict event.project_id event.issue_hash) i o event
    || any_reopens hash_dict i o rest

has_pair : ℕ → ℕ → List (ℕ × ℕ) → Bool
has_pair i o [] = false
has_pair i o ((j, p) ∷ rows) = ((i == j) && (o == p)) || has_pair i o rows

open_twice :
    (leaf : Option Leaf) (b : Bool)
    → (if b then open_leaf (open_leaf leaf) else open_leaf leaf) ≡ open_leaf leaf
open_twice none true = refl
open_twice (some leaf) true = refl
open_twice leaf false = refl

index-reopen :
    (rows : List (ℕ × ℕ)) (db : Tables) (i o : ℕ)
    → (reopen rows db).index i o
      ≡ (if has_pair i o rows then open_leaf (db.index i o) else db.index i o)
unfolding reopen has_pair
index-reopen [] db i o = refl
index-reopen ((j, p) ∷ rows) db i o = elim (Bool-cases ((i == j) && (o == p))) [
  | inl here ↦
      rw here (index-reopen rows _ i o ∙ rw here (open_twice (db.index i o) (has_pair i o rows)))
  | inr away ↦ rw away (index-reopen rows _ i o ∙ rw away refl)
]

leaf_count-open : (leaf : Option Leaf) → leaf_count (open_leaf leaf) ≡ leaf_count leaf
leaf_count-open none = refl
leaf_count-open (some leaf) = refl

pub leaf_count-reopen :
    (rows : List (ℕ × ℕ)) (db : Tables) (i o : ℕ)
    → leaf_count ((reopen rows db).index i o) ≡ leaf_count (db.index i o)
leaf_count-reopen rows db i o = elim (Bool-cases (has_pair i o rows)) [
  | inl here ↦ ap leaf_count (index-reopen rows db i o) ∙ rw here (leaf_count-open (db.index i o))
  | inr away ↦ ap leaf_count (index-reopen rows db i o) ∙ rw away refl
]

pub hashes-reopen : (rows : List (ℕ × ℕ)) (db : Tables) → (reopen rows db).hashes ≡ db.hashes
unfolding reopen
hashes-reopen [] db = refl
hashes-reopen ((j, p) ∷ rows) db = hashes-reopen rows _

abbrev pub project_of : Option Issue → ℕ
project_of none = 0
project_of (some issue) = issue.project_id

project-clear :
    (issue : Option Issue) (b : Bool)
    → project_of (if b then clear_release issue else issue) ≡ project_of issue
project-clear none true = refl
project-clear (some issue) true = refl
project-clear issue false = refl

pub project-reopen :
    (rows : List (ℕ × ℕ)) (db : Tables) (i : ℕ)
    → project_of ((reopen rows db).issues i) ≡ project_of (db.issues i)
unfolding reopen
project-reopen [] db i = refl
project-reopen ((j, p) ∷ rows) db i = project-reopen rows _ i ∙ project-clear (db.issues i) (i == j)
