-- ===== src/Events/Tags/Counts.antt =====
-- The increments of a batch of tags: how many there are for each day, issue, key and value.
use Prim.Native.String.{String}
use fork_glitchtip_glitchtip.Common.{
  ℕ, ◌+◌, ◌*◌, ◌≡◌, ◌≤◌, length, ◌↔◌, inl, inr, Bool, true, false, ◌&&◌, Option, none, some, List,
  [], ◌∷◌, ◌++◌, ltb, leb, ◌==◌, if◌then◌else◌, All, refl, ap, ◌∙◌, arith, Bool-cases, ==_iff,
}
use fork_glitchtip_glitchtip.Events.Issues.{ProcessingEvent}
use fork_glitchtip_glitchtip.Events.Stats.Sums.{hit_count, HomeHits}
use fork_glitchtip_glitchtip.Events.Tags.{
  TaggedEvent, TextTable, TagKey, TagTables, clean_events, tag_keys, tag_values, all_texts, day_of,
  tag_hits, event_hits, batch_hits, same_tag_key,
}
use fork_glitchtip_glitchtip.Events.Tags.Stored.{tag_number}
use fork_glitchtip_glitchtip.Events.Tags.Ids.{HasId}

four :
    {a b c d e f g h : ℕ}
    → a ≡ b
    → c ≡ d
    → e ≡ f
    → g ≡ h
    → ((a == b) && (c == d)) && ((e == f) && (g == h)) ≡ true
four p q r s = ground arith

tuple :
    {a b c d e f g h : ℕ}
    → a ≡ b
    → c ≡ d
    → e ≡ f
    → g ≡ h
    → ◌≡◌ {A = TagKey} (a, c, e, g) (b, d, f, h)
tuple p q r s = cc

pub same_tag_key_iff : (a b : TagKey) → (same_tag_key a b ≡ true) ↔ (a ≡ b)
same_tag_key_iff (d, i, k, v) (d', i', k', v') = (
  (λ e.
      tuple ((==_iff d d').0 (ground arith)) ((==_iff i i').0 (ground arith))
        ((==_iff k k').0 (ground arith)) ((==_iff v v').0 (ground arith))),
  λ e.
      four (ap {B = ℕ} (λ x. x.0) e) (ap {B = ℕ} (λ x. x.1) e) (ap {B = ℕ} (λ x. x.2) e)
        (ap {B = ℕ} (λ x. x.3) e),
)

-- received on the d-th day
in_day : ℕ → ProcessingEvent → Bool
in_day d e = leb (86400 * d) e.received && ltb e.received (86400 * d + 86400)

day_lem : (t d : ℕ) → (day_of t == 86400 * d) ≡ (leb (86400 * d) t && ltb t (86400 * d + 86400))
unfolding day_of
day_lem t d = ground arith

abbrev pub is_id : ℕ → Option ℕ → Bool
is_id i none = false
is_id i (some j) = j == i

-- the tags with a key and a value
tag_count : TextTable → TextTable → ℕ → ℕ → List (String × String) → ℕ
tag_count keys values k v [] = 0
tag_count keys values k v ((key, value) ∷ tags) =
    (if is_id k (keys.ids key) && is_id v (values.ids value) then 1 else 0)
    + tag_count keys values k v tags

-- those of the events of an issue on a day
pub day_tags : TextTable → TextTable → ℕ → ℕ → ℕ → ℕ → List TaggedEvent → ℕ
day_tags keys values d i k v [] = 0
day_tags keys values d i k v (e ∷ events) =
    (if in_day d e.event && is_id i e.event.issue_id
      then tag_count keys values k v e.event_tags
      else 0)
    + day_tags keys values d i k v events

abbrev HasIds : TagTables → List (String × String) → Type 0
HasIds db tags = All (HasId db.keys) (tag_keys tags) × All (HasId db.values) (tag_values tags)

abbrev pub key_issue : TagKey → ℕ
key_issue (d, i, k, v) = i

-- what the increments are: some, of the organizations of their issues, and with a count for each key
abbrev pub IsCounted : (ℕ → ℕ) → (ℕ → ℕ → ℕ → ℕ → ℕ) → Option (List (TagKey × ℕ)) → Type 0
IsCounted home count hits =
    (list : List (TagKey × ℕ)) × (hits ≡ some list)
    × HomeHits same_tag_key same_tag_key_iff (λ x. home (key_issue x)) list
    × ((d i k v : ℕ)
        → hit_count same_tag_key same_tag_key_iff (86400 * d, i, k, v) (home i) list
          ≡ count d i k v)

-- an increment of a key, where the issue determines the organization
tag_hit :
    (date issue key value org m i k v : ℕ) (home : ℕ → ℕ)
    → org ≡ home issue
    → ◌≡◌ {A = ℕ}
        (if same_tag_key (date, issue, key, value) (m, i, k, v) && (org == home i) then 1 else 0)
        (if (date == m) && (issue == i) then (if (key == k) && (value == v) then 1 else 0) else 0)
tag_hit date issue key value org m i k v home mine = elim (Bool-cases (issue == i)) [
  | inl here ↦ let at = mine ∙ ap home ((==_iff issue i).0 here) in rw (here, at) (ground arith)
  | inr away ↦ rw away (ground arith)
]

tag_hits-IsCounted :
    (home : ℕ → ℕ) (db : TagTables) (date issue org : ℕ) (tags : List (String × String))
    (count : ℕ → ℕ → ℕ → ℕ → ℕ) (hits : Option (List (TagKey × ℕ)))
    → HasIds db tags
    → org ≡ home issue
    → IsCounted home count hits
    → IsCounted home
        (λ d i k v.
          (if (date == 86400 * d) && (issue == i) then tag_count db.keys db.values k v tags else 0)
          + count d i k v)
        (tag_hits db date issue org tags hits)
unfolding tag_hits tag_count
tag_hits-IsCounted home db date issue org [] count hits ids mine (list, at, homes, counts) =
    (list, at, homes, λ d i k v. ground (arith, counts d i k v))
tag_hits-IsCounted home db date issue org ((key, value) ∷ tags) count hits ids mine start =
    let ((k', key_at), keys) = ids.0 in
    let ((v', value_at), values) = ids.1 in
    let (list, at, homes, counts) =
      tag_hits-IsCounted home db date issue org tags count hits (keys, values) mine start in
    (
      ((date, issue, k', v'), org) ∷ list,
      rw (key_at, value_at, at) refl,
      (mine, homes),
      λ d i k v.
          let rest = counts d i k v in
          let one = tag_hit date issue k' v' org (86400 * d) i k v home mine in
          rw (key_at, value_at) (ground (arith, one, rest)),
    )

event_hits-IsCounted :
    (home : ℕ → ℕ) (db : TagTables) (o : Option ℕ) (e : TaggedEvent) (count : ℕ → ℕ → ℕ → ℕ → ℕ)
    (hits : Option (List (TagKey × ℕ)))
    → HasIds db e.event_tags
    → ((i : ℕ) → o ≡ some i → e.event.organization_id ≡ home i)
    → IsCounted home count hits
    → IsCounted home
        (λ d i k v.
          (if in_day d e.event && is_id i o
            then tag_count db.keys db.values k v e.event_tags
            else 0)
          + count d i k v)
        (event_hits db o e hits)
unfolding event_hits in_day
event_hits-IsCounted home db none e count hits ids mine (list, at, homes, counts) =
    (list, at, homes, λ d i k v. ground (arith, counts d i k v))
event_hits-IsCounted home db (some issue) e count hits ids mine start =
    let (list, at, homes, counts) =
      tag_hits-IsCounted home db (day_of e.event.received) issue e.event.organization_id
        e.event_tags count hits ids (mine issue refl) start in
    (list, at, homes, λ d i k v. counts d i k v ∙ rw (day_lem e.event.received d) refl)

-- Each event that has an issue belongs to the organization of the issue.
abbrev pub HomeEvents : (ℕ → ℕ) → List TaggedEvent → Type 0
HomeEvents home = All (λ e. (i : ℕ) → e.event.issue_id ≡ some i → e.event.organization_id ≡ home i)

pub batch_hits-IsCounted :
    (home : ℕ → ℕ) (db : TagTables) (events : List TaggedEvent)
    → All (λ e. HasIds db e.event_tags) events
    → HomeEvents home events
    → IsCounted home (λ d i k v. day_tags db.keys db.values d i k v events) (batch_hits db events)
unfolding batch_hits day_tags
batch_hits-IsCounted home db [] ids mine = ([], refl, tt, λ d i k v. refl)
batch_hits-IsCounted home db (e ∷ events) (first, ids) (here, mine) =
    event_hits-IsCounted home db e.event.issue_id e
      (λ d i k v. day_tags db.keys db.values d i k v events) (batch_hits db events) first here
      (batch_hits-IsCounted home db events ids mine)

All-parts : (P : String → Type 0) (xs ys : List String) → All P (xs ++ ys) → All P xs × All P ys
All-parts P [] ys all = (tt, all)
All-parts P (x ∷ xs) ys (first, all) =
    let (left, right) = All-parts P xs ys all in ((first, left), right)

pub All-all_texts :
    (P : String → Type 0) (texts : List (String × String) → List String) (events : List TaggedEvent)
    → All P (all_texts texts events)
    → All (λ e. All P (texts e.event_tags)) events
unfolding all_texts
All-all_texts P texts [] all = tt
All-all_texts P texts (e ∷ events) all =
    let (first, rest) = All-parts P (texts e.event_tags) (all_texts texts events) all in
    (first, All-all_texts P texts events rest)

pub All-both :
    {A : Type 0} (P Q : A → Type 0) (xs : List A) → All P xs → All Q xs → All (λ x. P x × Q x) xs
All-both P Q [] p q = tt
All-both P Q (x ∷ xs) (p, ps) (q, qs) = ((p, q), All-both P Q xs ps qs)

pub clean-HomeEvents :
    (home : ℕ → ℕ) (events : List TaggedEvent)
    → HomeEvents home events
    → HomeEvents home (clean_events events)
unfolding clean_events
clean-HomeEvents home [] mine = tt
clean-HomeEvents home (e ∷ events) (first, mine) = (first, clean-HomeEvents home events mine)

tag_count-le :
    (keys values : TextTable) (k v : ℕ) (tags : List (String × String))
    → tag_count keys values k v tags ≤ length tags
unfolding tag_count
tag_count-le keys values k v [] = omega arith
tag_count-le keys values k v ((key, value) ∷ tags) =
    let rest = tag_count-le keys values k v tags in ground (arith, rest)

pub day_tags-le :
    (keys values : TextTable) (d i k v : ℕ) (events : List TaggedEvent)
    → day_tags keys values d i k v events ≤ tag_number events
unfolding day_tags tag_number
day_tags-le keys values d i k v [] = omega arith
day_tags-le keys values d i k v (e ∷ events) =
    let rest = day_tags-le keys values d i k v events in
    let here = tag_count-le keys values k v e.event_tags in ground (arith, rest, here)
