-- ===== src/Events/Issues/Filing.antt =====
-- Consistent tables, filed events, and what the insert of an issue keeps of them.
use fork_glitchtip_glitchtip.Common.{
  ℕ, zero, suc, ◌≡◌, ◌≤◌, ◌<◌, ◌⊎◌, inl, inr, Bool, true, false, ◌&&◌, Option, none, some, List, [],
  ◌∷◌, ◌==◌, if◌then◌else◌, All, refl, sym, subst, ==_iff, arith, Bool-cases,
}
use fork_glitchtip_glitchtip.Events.Issues.{
  ProcessingEvent, Leaf, Issue, Tables, HashRow, truthy, is_missing, set_issue_id,
  check_set_issue_id, put, new_issue, insert_issue, draw_ids,
}

-- Every hash belongs to an issue of its project, and the ids from `next_id` on are free.
pub record IsConsistent (db : Tables) : Type 0 where
  pub positive : 0 < db.next_id
  pub owned :
      (p h i : ℕ)
      → db.hashes p h ≡ some i
      → (0 < i) × ((issue : Issue) × (db.issues i ≡ some issue) × (issue.project_id ≡ p))
  pub fresh : (i : ℕ) → db.next_id ≤ i → db.issues i ≡ none
  pub leaf_fresh : (i o : ℕ) → db.next_id ≤ i → db.index i o ≡ none

-- The rows that were read are rows of the table; others may have been inserted since.
abbrev pub IsSnapshot : (ℕ → ℕ → Option HashRow) → Tables → Type 0
IsSnapshot hash_dict db =
    (p h : ℕ) (row : HashRow) → hash_dict p h ≡ some row → db.hashes p h ≡ some row.issue_id

-- No hash is taken away.
abbrev pub Extends : Tables → Tables → Type 0
Extends db db' = (p h i : ℕ) → db.hashes p h ≡ some i → db'.hashes p h ≡ some i

-- The event has the issue of its project and hash.
abbrev pub IsFiled : Tables → ProcessingEvent → Type 0
IsFiled db e =
    (i : ℕ) × (0 < i) × (e.issue_id ≡ some i) × (db.hashes e.project_id e.issue_hash ≡ some i)

-- The event has no issue yet, or that of its project and hash, and did not create one.
abbrev pub IsPending : Tables → ProcessingEvent → Type 0
IsPending db e = (e.issue_created ≡ false) × ((e.issue_id ≡ none) ⊎ IsFiled db e)

-- the count of a leaf; 0 where there is none
abbrev pub leaf_count : Option Leaf → ℕ
leaf_count none = 0
leaf_count (some leaf) = leaf.count

abbrev pub has_id : ℕ → Option ℕ → Bool
has_id i none = false
has_id i (some j) = j == i

-- 1 for an event of the issue and the organization, else 0; only events that created the issue,
-- and only the others
abbrev pub hit : ℕ → ℕ → ProcessingEvent → ℕ
hit i o e = if has_id i e.issue_id && (e.organization_id == o) then 1 else 0

abbrev pub created_hit : ℕ → ℕ → ProcessingEvent → ℕ
created_hit i o e = if e.issue_created then hit i o e else 0

abbrev pub key : ProcessingEvent → ℕ × ℕ × ℕ
key e = (e.project_id, e.issue_hash, e.organization_id)

pub filed_truthy : (db : Tables) (e : ProcessingEvent) → IsFiled db e → truthy e.issue_id ≡ true
unfolding truthy
filed_truthy db e (zero, pos, id, at) = absurd (omega arith)
filed_truthy db e (suc i, pos, id, at) = rw id refl

pub Extends-IsFiled :
    (db db' : Tables) (e : ProcessingEvent) → Extends db db' → IsFiled db e → IsFiled db' e
Extends-IsFiled db db' e x (i, pos, id, at) = (i, pos, id, x e.project_id e.issue_hash i at)

pub insert-Extends :
    (issue short : ℕ) (e : ProcessingEvent) (db : Tables)
    → db.hashes e.project_id e.issue_hash ≡ none
    → Extends db (insert_issue issue short e (draw_ids e db))
unfolding insert_issue draw_ids
insert-Extends issue short e db free p h i at = ground arith

put_inv :
    (i j v : ℕ) (table : ℕ → ℕ → Option ℕ) (k l w : ℕ)
    → put i j v table k l ≡ some w
    → ((k ≡ i) × (l ≡ j) × (v ≡ w)) ⊎ (table k l ≡ some w)
put_inv i j v table k l w at = elim (Bool-cases ((k == i) && (l == j))) [
  | inl same ↦ inl (ground arith, ground arith, ground arith)
  | inr other ↦ inr (ground arith)
]

pub put_self :
    (i j v k l : ℕ) (table : ℕ → ℕ → Option ℕ) → k ≡ i → l ≡ j → put i j v table k l ≡ some v
put_self i j v k l table e f = ground arith

inserted-owned :
    (e : ProcessingEvent) (short : ℕ) (db : Tables)
    → IsConsistent db
    → (p h i : ℕ)
    → let db' = insert_issue db.next_id short e (draw_ids e db) in
      db'.hashes p h ≡ some i
      → (0 < i) × ((issue : Issue) × (db'.issues i ≡ some issue) × (issue.project_id ≡ p))
unfolding insert_issue draw_ids
inserted-owned e short db c p h i at =
    elim (put_inv e.project_id e.issue_hash db.next_id db.hashes p h i at) [
      | inl (same, _, this) ↦ (
        omega (arith, c.positive),
        (new_issue short e, rw ((==_iff i db.next_id).1 (sym this)) refl, sym same),
      )
      | inr old ↦
          let (pos, (issue, there, mine)) = c.owned p h i old in
          let unused = c.fresh db.next_id (omega arith) in
          (pos, (issue, ground (arith, unused, there), mine))
    ]

pub insert-IsConsistent :
    (e : ProcessingEvent) (short : ℕ) (db : Tables)
    → IsConsistent db
    → IsConsistent (insert_issue db.next_id short e (draw_ids e db))
unfolding insert_issue draw_ids
insert-IsConsistent e short db c = record {
  positive = omega arith;
  owned = λ p h i at. inserted-owned e short db c p h i at;
  fresh = λ i far. ground (arith, c.fresh i (omega arith));
  leaf_fresh = λ i o far. ground (arith, c.leaf_fresh i o (omega arith));
}

pub set_cases :
    (p h i : ℕ) (f : ProcessingEvent)
    → (set_issue_id p h i f ≡ f)
      ⊎ ((set_issue_id p h i f ≡ record f { issue_id = some i })
          × (f.project_id ≡ p)
          × (f.issue_hash ≡ h))
unfolding set_issue_id
set_cases p h i f =
    elim (Bool-cases (is_missing f.issue_id && ((f.project_id == p) && (f.issue_hash == h)))) [
      | inl set ↦ inr (rw set refl, ground arith, ground arith)
      | inr kept ↦ inl (rw kept refl)
    ]

set-IsPending :
    (issue short : ℕ) (e f : ProcessingEvent) (db : Tables)
    → 0 < issue
    → db.hashes e.project_id e.issue_hash ≡ none
    → IsPending db f
    → IsPending
        (insert_issue issue short e (draw_ids e db))
        (set_issue_id e.project_id e.issue_hash issue f)
set-IsPending issue short e f db pos free (plain, pending) =
    let db' = insert_issue issue short e (draw_ids e db) in
    let grown = insert-Extends issue short e db free in
    elim (set_cases e.project_id e.issue_hash issue f) [
      | inl kept ↦ subst (IsPending db') (sym kept) (
        plain,
        elim pending [
          | inl missing ↦ inl missing
          | inr filed ↦ inr (Extends-IsFiled db db' f grown filed)
        ],
      )
      | inr (set, p, h) ↦ subst (IsPending db') (sym set) (
        plain,
        inr (
          issue,
          pos,
          refl,
          unfold insert_issue draw_ids in
              put_self e.project_id e.issue_hash issue _ _ db.hashes p h,
        ),
      )
    ]

pub set_all-IsPending :
    (issue short : ℕ) (e : ProcessingEvent) (db : Tables) (fs : List ProcessingEvent)
    → 0 < issue
    → db.hashes e.project_id e.issue_hash ≡ none
    → All (IsPending db) fs
    → All
        (IsPending (insert_issue issue short e (draw_ids e db)))
        (check_set_issue_id fs e.project_id e.issue_hash issue)
unfolding check_set_issue_id
set_all-IsPending issue short e db [] pos free pending = tt
set_all-IsPending issue short e db (f ∷ fs) pos free (first, pending) = (
  set-IsPending issue short e f db pos free first,
  set_all-IsPending issue short e db fs pos free pending,
)

pub All-extends :
    (db db' : Tables) (fs : List ProcessingEvent)
    → Extends db db'
    → All (IsPending db) fs
    → All (IsPending db') fs
All-extends db db' [] x pending = tt
All-extends db db' (f ∷ fs) x ((plain, inl missing), pending) =
    ((plain, inl missing), All-extends db db' fs x pending)
All-extends db db' (f ∷ fs) x ((plain, inr filed), pending) =
    ((plain, inr (Extends-IsFiled db db' f x filed)), All-extends db db' fs x pending)
