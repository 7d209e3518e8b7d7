-- ===== src/Events/Issues/Grouping.antt =====
-- The events of a batch are grouped by project and hash, and each issue counts its events once.
use fork_glitchtip_glitchtip.Common.{
  ℕ, zero, suc, ◌+◌, ◌≡◌, ◌≤◌, inl, false, Option, none, List, [], ◌∷◌, map, length, All, refl, ap₂,
  ◌∙◌, arith,
}
use fork_glitchtip_glitchtip.Events.Issues.{
  ProcessingEvent, Tables, HashRow, visit, assign_issues, assign_all,
}
use fork_glitchtip_glitchtip.Events.Issues.Filing.{
  IsConsistent, IsSnapshot, Extends, IsFiled, IsPending, leaf_count, hit, created_hit, key,
  Extends-IsFiled,
}
use fork_glitchtip_glitchtip.Events.Issues.Steps.{IsStep, visit-IsStep}

-- the events of an issue and an organization; those that created the issue
abbrev pub hits : ℕ → ℕ → List ProcessingEvent → ℕ
hits i o [] = 0
hits i o (e ∷ es) = hit i o e + hits i o es

abbrev pub created_hits : ℕ → ℕ → List ProcessingEvent → ℕ
created_hits i o [] = 0
created_hits i o (e ∷ es) = created_hit i o e + created_hits i o es

-- What the loop over a batch leaves: consistent and larger tables, the same events in the same
-- order, each with the issue of its project and hash, and counts raised by the events that created.
pub record IsGrouped (db : Tables) (events : List ProcessingEvent)
    (r : Tables × List ProcessingEvent) : Type 0 where
  pub consistent : IsConsistent r.0
  pub extends : Extends db r.0
  pub filed : All (IsFiled r.0) r.1
  pub same_keys : map key r.1 ≡ map key events
  pub counted :
      (i o : ℕ) → leaf_count (r.0.index i o) ≡ leaf_count (db.index i o) + created_hits i o r.1

IsSnapshot-kept :
    (hash_dict : ℕ → ℕ → Option HashRow) (db db' : Tables)
    → Extends db db'
    → IsSnapshot hash_dict db
    → IsSnapshot hash_dict db'
IsSnapshot-kept hash_dict db db' x snap p h row at = x p h row.issue_id (snap p h row at)

nothing-IsGrouped : (db : Tables) → IsConsistent db → IsGrouped db [] (db, [])
nothing-IsGrouped db c = record {
  consistent = c;
  extends = λ p h i at. at;
  filed = tt;
  same_keys = refl;
  counted = λ i o. omega arith;
}

step-IsGrouped :
    (db : Tables) (e : ProcessingEvent) (rest : List ProcessingEvent)
    (step : Tables × ProcessingEvent × List ProcessingEvent) (r : Tables × List ProcessingEvent)
    → IsStep db e rest step
    → IsGrouped step.0 step.2 r
    → IsGrouped db (e ∷ rest) (r.0, step.1 ∷ r.1)
step-IsGrouped db e rest step r s g = record {
  consistent = g.consistent;
  extends = λ p h i at. g.extends p h i (s.extends p h i at);
  filed = (Extends-IsFiled step.0 r.0 step.1 g.extends s.filed, g.filed);
  same_keys = ap₂ ◌∷◌ s.same_key (g.same_keys ∙ s.same_keys);
  counted = λ i o. omega (arith, s.counted i o, g.counted i o);
}

assign_issues-IsGrouped :
    (n : ℕ) (hash_dict : ℕ → ℕ → Option HashRow) (events : List ProcessingEvent) (db : Tables)
    → length events ≤ n
    → IsConsistent db
    → IsSnapshot hash_dict db
    → All (IsPending db) events
    → IsGrouped db events (assign_issues n hash_dict events db)
unfolding assign_issues
assign_issues-IsGrouped zero hash_dict [] db few c snap pending = nothing-IsGrouped db c
assign_issues-IsGrouped zero hash_dict (e ∷ rest) db few c snap pending = absurd (omega arith)
assign_issues-IsGrouped (suc n) hash_dict [] db few c snap pending = nothing-IsGrouped db c
assign_issues-IsGrouped (suc n) hash_dict (e ∷ rest) db few c snap (first, pending) =
    let step = visit hash_dict e rest db in
    let s = visit-IsStep hash_dict e rest db c snap first pending in
    step-IsGrouped db e rest step _ s (
      assign_issues-IsGrouped n hash_dict step.2 step.0 (omega (arith, s.same_length)) s.consistent
        (IsSnapshot-kept hash_dict db step.0 s.extends snap) s.pending)

-- an event as `process_issue_events` builds it
abbrev pub IsNew : ProcessingEvent → Type 0
IsNew e = (e.issue_created ≡ false) × (e.issue_id ≡ none)

new_pending :
    (db : Tables) (events : List ProcessingEvent) → All IsNew events → All (IsPending db) events
new_pending db [] new = tt
new_pending db (e ∷ events) ((plain, missing), new) =
    ((plain, inl missing), new_pending db events new)

-- On consistent tables, with rows read before that may miss hashes which others inserted since, the
-- loop over a batch of new events keeps the events in their order, gives each the issue that the
-- table of hashes then has for its project and hash, takes no hash away, leaves the tables
-- consistent, and raises the count of each issue by the number of events that created it.
pub assign_all-IsGrouped :
    (hash_dict : ℕ → ℕ → Option HashRow) (events : List ProcessingEvent) (db : Tables)
    → IsConsistent db
    → IsSnapshot hash_dict db
    → All IsNew events
    → IsGrouped db events (assign_all hash_dict events db)
unfolding assign_all
assign_all-IsGrouped hash_dict events db c snap new =
    assign_issues-IsGrouped (length events) hash_dict events db (omega arith) c snap
      (new_pending db events new)
