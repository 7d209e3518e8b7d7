-- ===== src/Events/Issues/Steps.antt =====
-- What one turn of the loop over the events leaves: consistent tables, and an event with its issue.
use fork_glitchtip_glitchtip.Common.{
  ℕ, zero, suc, ◌+◌, ◌≡◌, ◌⊎◌, inl, inr, true, false, Option, none, some, List, [], ◌∷◌, map,
  length, All, refl, ap, ap₂, ◌∙◌, arith, Option-cases,
}
use fork_glitchtip_glitchtip.Events.Issues.{
  ProcessingEvent, Tables, HashRow, truthy, set_issue_id, check_set_issue_id, insert_issue,
  draw_ids, create_or_read, create_issue_and_hash, take_hash_row, visit,
}
use fork_glitchtip_glitchtip.Events.Issues.Filing.{
  IsConsistent, IsSnapshot, Extends, IsFiled, IsPending, leaf_count, created_hit, key,
  insert-Extends, put_self, insert-IsConsistent, set_cases, set_all-IsPending, All-extends,
}

-- What a step of the loop leaves: consistent and larger tables, the event with its issue, and the
-- events behind it.
pub record IsStep (db : Tables) (e : ProcessingEvent) (rest : List ProcessingEvent)
    (r : Tables × ProcessingEvent × List ProcessingEvent) : Type 0 where
  pub consistent : IsConsistent r.0
  pub extends : Extends db r.0
  pub filed : IsFiled r.0 r.1
  pub same_key : key r.1 ≡ key e
  pub counted :
      (i o : ℕ) → leaf_count (r.0.index i o) ≡ leaf_count (db.index i o) + created_hit i o r.1
  pub pending : All (IsPending r.0) r.2
  pub same_keys : map key r.2 ≡ map key rest
  pub same_length : length r.2 ≡ length rest

draw-IsConsistent :
    (e : ProcessingEvent) (db : Tables) → IsConsistent db → IsConsistent (draw_ids e db)
unfolding draw_ids
draw-IsConsistent e db c = record {
  positive = omega arith;
  owned = c.owned;
  fresh = λ i far. c.fresh i (omega arith);
  leaf_fresh = λ i o far. c.leaf_fresh i o (omega arith);
}

length-check_set :
    (fs : List ProcessingEvent) (p h i : ℕ) → length (check_set_issue_id fs p h i) ≡ length fs
unfolding check_set_issue_id
length-check_set [] p h i = refl
length-check_set (f ∷ fs) p h i = ap suc (length-check_set fs p h i)

key_set : (p h i : ℕ) (f : ProcessingEvent) → key (set_issue_id p h i f) ≡ key f
key_set p h i f = elim (set_cases p h i f) [ inl kept ↦ ap key kept | inr (set, _, _) ↦ ap key set ]

map-key-check_set :
    (fs : List ProcessingEvent) (p h i : ℕ) → map key (check_set_issue_id fs p h i) ≡ map key fs
unfolding check_set_issue_id
map-key-check_set [] p h i = refl
map-key-check_set (f ∷ fs) p h i = ap₂ ◌∷◌ (key_set p h i f) (map-key-check_set fs p h i)

-- the leaf of a new issue counts its event
inserted-leaf_count :
    (e : ProcessingEvent) (short : ℕ) (db : Tables)
    → IsConsistent db
    → (i o : ℕ)
    → leaf_count ((insert_issue db.next_id short e (draw_ids e db)).index i o)
      ≡ leaf_count (db.index i o)
        + created_hit i o (record e { issue_id = some db.next_id; issue_created = true })
unfolding insert_issue draw_ids
inserted-leaf_count e short db c i o = ground (arith, c.leaf_fresh i o)

-- the event as the step leaves it where it has no issue yet
created_step :
    (e : ProcessingEvent) (rest : List ProcessingEvent) (db : Tables)
    → Tables × ProcessingEvent × List ProcessingEvent
created_step e rest db =
    let (db', rest', issue, created) = create_issue_and_hash e rest db in
    (db', record e { issue_id = some issue; issue_created = created }, rest')

create-IsStep :
    (e : ProcessingEvent) (rest : List ProcessingEvent) (db : Tables)
    → IsConsistent db
    → All (IsPending db) rest
    → IsStep db e rest (created_step e rest db)
unfolding created_step create_issue_and_hash
create-IsStep e rest db c pending = elim (Option-cases (db.hashes e.project_id e.issue_hash)) [
  | inl free ↦ rw free (
      unfold create_or_read in
      record {
        consistent = insert-IsConsistent e _ db c;
        extends = insert-Extends db.next_id _ e db free;
        filed = (
          db.next_id,
          c.positive,
          refl,
          unfold insert_issue draw_ids in
              put_self e.project_id e.issue_hash db.next_id _ _ db.hashes refl refl,
        );
        same_key = refl;
        counted = inserted-leaf_count e _ db c;
        same_keys = map-key-check_set rest e.project_id e.issue_hash db.next_id;
        pending = set_all-IsPending db.next_id _ e db rest c.positive free pending;
        same_length = length-check_set rest e.project_id e.issue_hash db.next_id;
      })
  | inr (winner, taken) ↦ rw taken (
      unfold create_or_read in
      record {
        consistent = draw-IsConsistent e db c;
        extends = λ p h i at. unfold draw_ids in at;
        filed = (winner, (c.owned _ _ winner taken).0, refl, unfold draw_ids in taken);
        same_key = refl;
        counted = λ i o. unfold draw_ids in omega arith;
        same_keys = refl;
        pending = All-extends db (draw_ids e db) rest (λ p h i at. unfold draw_ids in at) pending;
        same_length = refl;
      })
]

-- the event after its row of the snapshot
take-IsPending :
    (o : Option HashRow) (e : ProcessingEvent) (db : Tables)
    → IsConsistent db
    → ((row : HashRow) → o ≡ some row → db.hashes e.project_id e.issue_hash ≡ some row.issue_id)
    → IsPending db e
    → IsPending db (take_hash_row o e)
unfolding take_hash_row
take-IsPending none e db c known pending = pending
take-IsPending (some row) e db c known (plain, pending) =
    let at = known row refl in
    (plain, inr (row.issue_id, (c.owned e.project_id e.issue_hash row.issue_id at).0, refl, at))

key_take : (o : Option HashRow) (e : ProcessingEvent) → key (take_hash_row o e) ≡ key e
unfolding take_hash_row
key_take none e = refl
key_take (some row) e = refl

pending_cases :
    (db : Tables) (e : ProcessingEvent)
    → IsPending db e
    → (truthy e.issue_id ≡ false)
      ⊎ ((truthy e.issue_id ≡ true) × (e.issue_created ≡ false) × IsFiled db e)
unfolding truthy
pending_cases db e (plain, inl missing) = inl (rw missing refl)
pending_cases db e (plain, inr (zero, pos, id, at)) = absurd (omega arith)
pending_cases db e (plain, inr (suc i, pos, id, at)) = inr (rw id refl, plain, (suc i, pos, id, at))

renamed-IsStep :
    (db : Tables) (e f : ProcessingEvent) (rest : List ProcessingEvent)
    (r : Tables × ProcessingEvent × List ProcessingEvent)
    → key f ≡ key e
    → IsStep db f rest r
    → IsStep db e rest r
renamed-IsStep db e f rest r k s = record {
  consistent = s.consistent;
  extends = s.extends;
  filed = s.filed;
  same_key = s.same_key ∙ k;
  counted = s.counted;
  pending = s.pending;
  same_keys = s.same_keys;
  same_length = s.same_length;
}

known-IsStep :
    (db : Tables) (e : ProcessingEvent) (rest : List ProcessingEvent)
    → IsConsistent db
    → All (IsPending db) rest
    → e.issue_created ≡ false
    → IsFiled db e
    → IsStep db e rest (db, e, rest)
known-IsStep db e rest c pending plain filed = record {
  consistent = c;
  extends = λ p h i at. at;
  filed = filed;
  same_key = refl;
  counted = λ i o. rw plain (omega arith);
  pending = pending;
  same_keys = refl;
  same_length = refl;
}

pub visit-IsStep :
    (hash_dict : ℕ → ℕ → Option HashRow) (e : ProcessingEvent) (rest : List ProcessingEvent)
    (db : Tables)
    → IsConsistent db
    → IsSnapshot hash_dict db
    → IsPending db e
    → All (IsPending db) rest
    → IsStep db e rest (visit hash_dict e rest db)
unfolding visit
visit-IsStep hash_dict e rest db c snap first pending =
    let row = hash_dict e.project_id e.issue_hash in
    let known = take_hash_row row e in
    let k = key_take row e in
    elim (pending_cases db known
      (take-IsPending row e db c (snap e.project_id e.issue_hash) first)) [
        | inl missing ↦ rw missing (
            renamed-IsStep db e known rest _ k
              (unfold created_step in create-IsStep known rest db c pending))
        | inr (there, plain, filed) ↦
            rw there (
              renamed-IsStep db e known rest _ k (known-IsStep db known rest c pending plain filed))
      ]
