-- ===== src/Events/Tags/Fits.antt =====
-- The increments of a batch of tags fit in their table.
use Prim.Native.String.{String}
use fork_glitchtip_glitchtip.Events.Issues.{value_or_zero}
use fork_glitchtip_glitchtip.Common.{
  ℕ, ◌*◌, ◌/◌, ◌^◌, ◌≡◌, ◌<◌, lt→ltb, true, Option, none, some, List, [], ◌∷◌, All, refl, arith,
}
use fork_glitchtip_glitchtip.Events.Tags.{
  TaggedEvent, TextTable, TagKey, TagTables, clean_events, day_of, add_hit, tag_hits, event_hits,
  batch_hits, all_tags_fit,
}
use fork_glitchtip_glitchtip.Events.Tags.Counts.{HomeEvents}

-- An increment of a day with a partition, with ids of 32 bits, of the organization of its issue.
abbrev pub HitFits : (ℕ → ℕ) → TagTables → TagKey × ℕ → Type 0
HitFits home db ((date, i, k, v), o) =
    (db.has_partition date ≡ true)
    × ((n : ℕ) × (date ≡ 86400 * n))
    × (k < 2 ^ 31)
    × (v < 2 ^ 31)
    × (o ≡ home i)

abbrev pub HitsFit : (ℕ → ℕ) → TagTables → Option (List (TagKey × ℕ)) → Type 0
HitsFit home db none = Unit
HitsFit home db (some hits) = All (HitFits home db) hits

abbrev SmallIds : TextTable → Type 0
SmallIds table = (t : String) (i : ℕ) → table.ids t ≡ some i → i < 2 ^ 31

add_hit-HitsFit :
    (home : ℕ → ℕ) (db : TagTables) (key value : Option ℕ) (date issue org : ℕ)
    (hits : Option (List (TagKey × ℕ)))
    → ((k : ℕ) → key ≡ some k → k < 2 ^ 31)
    → ((v : ℕ) → value ≡ some v → v < 2 ^ 31)
    → db.has_partition date ≡ true
    → ((n : ℕ) × (date ≡ 86400 * n))
    → org ≡ home issue
    → HitsFit home db hits
    → HitsFit home db (add_hit key value date issue org hits)
add_hit-HitsFit home db none value date issue org hits ks vs part day mine all = tt
add_hit-HitsFit home db (some k) none date issue org hits ks vs part day mine all = tt
add_hit-HitsFit home db (some k) (some v) date issue org none ks vs part day mine all = tt
add_hit-HitsFit home db (some k) (some v) date issue org (some hits) ks vs part day mine all =
    ((part, day, ks k refl, vs v refl, mine), all)

tag_hits-HitsFit :
    (home : ℕ → ℕ) (db : TagTables) (date issue org : ℕ) (tags : List (String × String))
    (hits : Option (List (TagKey × ℕ)))
    → SmallIds db.keys
    → SmallIds db.values
    → db.has_partition date ≡ true
    → ((n : ℕ) × (date ≡ 86400 * n))
    → org ≡ home issue
    → HitsFit home db hits
    → HitsFit home db (tag_hits db date issue org tags hits)
unfolding tag_hits
tag_hits-HitsFit home db date issue org [] hits ks vs part day mine all = all
tag_hits-HitsFit home db date issue org ((k, v) ∷ tags) hits ks vs part day mine all =
    add_hit-HitsFit home db (db.keys.ids k) (db.values.ids v) date issue org _ (ks k) (vs v) part
      day mine (tag_hits-HitsFit home db date issue org tags hits ks vs part day mine all)

day_of-days : (t : ℕ) → day_of t ≡ 86400 * (t / 86400)
unfolding day_of
day_of-days t = omega arith

-- Each event that has an issue is of a day with a partition.
abbrev pub HasPartitions : TagTables → List TaggedEvent → Type 0
HasPartitions db =
    All
      (λ e. (i : ℕ) → e.event.issue_id ≡ some i → db.has_partition (day_of e.event.received) ≡ true)

event_hits-HitsFit :
    (home : ℕ → ℕ) (db : TagTables) (o : Option ℕ) (e : TaggedEvent)
    (hits : Option (List (TagKey × ℕ)))
    → SmallIds db.keys
    → SmallIds db.values
    → ((i : ℕ) → o ≡ some i → e.event.organization_id ≡ home i)
    → ((i : ℕ) → o ≡ some i → db.has_partition (day_of e.event.received) ≡ true)
    → HitsFit home db hits
    → HitsFit home db (event_hits db o e hits)
unfolding event_hits
event_hits-HitsFit home db none e hits ks vs mine part all = all
event_hits-HitsFit home db (some issue) e hits ks vs mine part all =
    tag_hits-HitsFit home db (day_of e.event.received) issue e.event.organization_id e.event_tags
      hits ks vs (part issue refl) (e.event.received / 86400, day_of-days e.event.received)
      (mine issue refl) all

pub batch_hits-HitsFit :
    (home : ℕ → ℕ) (db : TagTables) (events : List TaggedEvent)
    → SmallIds db.keys
    → SmallIds db.values
    → HomeEvents home events
    → HasPartitions db events
    → HitsFit home db (batch_hits db events)
unfolding batch_hits
batch_hits-HitsFit home db [] ks vs mine part = tt
batch_hits-HitsFit home db (e ∷ events) ks vs (here, mine) (one, part) =
    event_hits-HitsFit home db e.event.issue_id e (batch_hits db events) ks vs here one
      (batch_hits-HitsFit home db events ks vs mine part)

pub clean-HasPartitions :
    (db : TagTables) (events : List TaggedEvent)
    → HasPartitions db events
    → HasPartitions db (clean_events events)
unfolding clean_events
clean-HasPartitions db [] part = tt
clean-HasPartitions db (e ∷ events) (first, part) = (first, clean-HasPartitions db events part)

pub fitting_hits :
    (home : ℕ → ℕ) (db : TagTables) (counts : TagKey → ℕ → Option ℕ) (hits : List (TagKey × ℕ))
    → All (HitFits home db) hits
    → ((d i k v : ℕ) → value_or_zero (counts (86400 * d, i, k, v) (home i)) < 2 ^ 31)
    → all_tags_fit db counts hits ≡ true
unfolding all_tags_fit
fitting_hits home db counts [] all small = refl
fitting_hits home db counts (((date, i, k, v), o) ∷ hits) ((part, (n, at), ks, vs, mine), all)
      small =
    let rest = fitting_hits home db counts hits all small in
    let sum : value_or_zero (counts (date, i, k, v) o) < 2 ^ 31 = rw (at, mine) (small n i k v) in
    rw (part, lt→ltb k (2 ^ 31) ks, lt→ltb v (2 ^ 31) vs, lt→ltb _ (2 ^ 31) sum) rest
