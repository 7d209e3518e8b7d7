-- ===== src/Events/Tags.antt =====
-- apps/event_ingest/process_event.py, `update_tags`: the tags of a batch are cleaned, their keys and
-- values get ids, and the tags of each issue are counted by day. The columns of texts are
-- VARCHAR(255), ids and counts are stored as integers of 32 bits, and IssueTag is partitioned by day.
pub mod Ids
pub mod Counts
pub mod Clean
pub mod Stored
pub mod Fits
pub mod Room
pub mod Width
use Prim.Native.Char.{Char, code}
use Prim.Native.Nat.{Ordering}
use Prim.Native.String
use Prim.Native.String.{String}
use text.Mathlib.Text
use fork_glitchtip_glitchtip.Common.{
  ℕ, zero, suc, ◌+◌, ◌-◌, ◌%◌, ◌^◌, Bool, true, false, ◌&&◌, ◌||◌, not, Option, none, some, List,
  [], ◌∷◌, ◌++◌, length, leb, ltb, ◌==◌, if◌then◌else◌, ◌>>=◌,
}
use fork_glitchtip_glitchtip.Events.Issues.{ProcessingEvent, value_or_zero}
use fork_glitchtip_glitchtip.Events.Stats.{write_hits}

-- an event with the dictionary of its tags
pub record TaggedEvent : Type 0 where
  pub event : ProcessingEvent
  pub event_tags : List (String × String)

-- the tables of tag keys and tag values: ids by text
pub record TextTable : Type 0 where
  pub ids : String → Option ℕ
  pub next_id : ℕ

-- the columns of a row of IssueTag but for its organization and count: date, issue, key and value
abbrev pub TagKey : Type 0
TagKey = ℕ × ℕ × ℕ × ℕ

pub record TagTables : Type 0 where
  pub keys : TextTable
  pub values : TextTable
  pub counts : TagKey → ℕ → Option ℕ
  pub has_partition : ℕ → Bool  -- IssueTag has one for the time

abbrev pub max_tag_length : ℕ
max_tag_length = 255

-- `_clean_string`
pub clean_string : String → String
clean_string String.[] = String.[]
clean_string (String.◌∷◌ c s) =
    let rest = clean_string s in if code c == 0 then rest else String.◌∷◌ c rest

-- `s[:n]`
pub cut_text : ℕ → String → String
cut_text zero s = String.[]
cut_text (suc n) String.[] = String.[]
cut_text (suc n) (String.◌∷◌ c s) = String.◌∷◌ c (cut_text n s)

pub tag_text : String → String
tag_text s = cut_text max_tag_length (clean_string s)

abbrev pub same_tag_text : String → String → Bool
same_tag_text s t = text.Mathlib.Text.◌==◌ s t

-- `tags[key] = value`
pub set_tag : String → String → List (String × String) → List (String × String)
set_tag key value [] = (key, value) ∷ []
set_tag key value ((k, v) ∷ tags) =
    let rest = set_tag key value tags in
    if same_tag_text k key then (k, value) ∷ tags else (k, v) ∷ rest

-- the dictionary comprehension over `event_tags`, with the entries so far
pub clean_tags : List (String × String) → List (String × String) → List (String × String)
clean_tags [] done = done
clean_tags ((k, v) ∷ tags) done = clean_tags tags (set_tag (tag_text k) (tag_text v) done)

pub clean_events : List TaggedEvent → List TaggedEvent
clean_events [] = []
clean_events (e ∷ events) =
    record e { event_tags = clean_tags e.event_tags [] } ∷ clean_events events

abbrev pub tag_keys : List (String × String) → List String
tag_keys [] = []
tag_keys ((k, v) ∷ tags) = k ∷ tag_keys tags

abbrev pub tag_values : List (String × String) → List String
tag_values [] = []
tag_values ((k, v) ∷ tags) = v ∷ tag_values tags

pub all_texts : (List (String × String) → List String) → List TaggedEvent → List String
all_texts texts [] = []
all_texts texts (e ∷ events) = texts e.event_tags ++ all_texts texts events

-- `sorted` of a set, one element after the other
abbrev pub placed : Ordering → String → String → List String → List String → List String
placed Ordering.lt t u us rest = t ∷ u ∷ us
placed Ordering.eq t u us rest = u ∷ us
placed Ordering.gt t u us rest = u ∷ rest

pub insert_sorted : String → List String → List String
insert_sorted t [] = t ∷ []
insert_sorted t (u ∷ us) = placed (String.compare t u) t u us (insert_sorted t us)

pub sorted_set : List String → List String
sorted_set [] = []
sorted_set (t ∷ ts) = insert_sorted t (sorted_set ts)

-- INSERT ... ON CONFLICT DO NOTHING, which takes an id from the sequence in any case
pub insert_text : String → Option ℕ → TextTable → TextTable
insert_text t (some old) table = record table { next_id = suc table.next_id }
insert_text t none table = record table {
  ids = λ u. if same_tag_text u t then some table.next_id else table.ids u;
  next_id = suc table.next_id;
}

pub insert_texts : List String → TextTable → TextTable
insert_texts [] table = table
insert_texts (t ∷ ts) table = insert_texts ts (insert_text t (table.ids t) table)

pub nul_free : String → Bool
nul_free String.[] = true
nul_free (String.◌∷◌ c s) = not (code c == 0) && nul_free s

pub texts_fit : List String → Bool
texts_fit [] = true
texts_fit (t ∷ ts) = (leb (String.count t) 255 && nul_free t) && texts_fit ts

-- The INSERT of the texts, which raises as a whole for one that does not fit in its column, and when
-- the sequence of the ids is at its end; the ids of values may be larger, but no such id can be used
-- below, and the same end is taken for both.
pub stored_texts : List String → TextTable → Option TextTable
stored_texts ts table =
    if texts_fit ts && leb (table.next_id + length ts) (2 ^ 31)
    then some (insert_texts ts table)
    else none

-- `replace(hour=0, minute=0, second=0, microsecond=0)`
unfoldable pub day_of : ℕ → ℕ
day_of time = time - time % 86400

abbrev pub add_hit :
    Option ℕ → Option ℕ → ℕ → ℕ → ℕ → Option (List (TagKey × ℕ)) → Option (List (TagKey × ℕ))
add_hit none value date issue org hits = none
add_hit (some key) none date issue org hits = none
add_hit (some key) (some value) date issue org none = none
add_hit (some key) (some value) date issue org (some hits) =
    some (((date, issue, key, value), org) ∷ hits)

-- the increments for an event with an issue, in front of those of the events behind it; a missing id
-- would raise KeyError
pub tag_hits :
    TagTables
    → ℕ
    → ℕ
    → ℕ
    → List (String × String)
    → Option (List (TagKey × ℕ))
    → Option (List (TagKey × ℕ))
tag_hits db date issue org [] hits = hits
tag_hits db date issue org ((k, v) ∷ tags) hits =
    add_hit (db.keys.ids k) (db.values.ids v) date issue org (tag_hits db date issue org tags hits)

pub event_hits :
    TagTables → Option ℕ → TaggedEvent → Option (List (TagKey × ℕ)) → Option (List (TagKey × ℕ))
event_hits db none e hits = hits
event_hits db (some issue) e hits =
    tag_hits db (day_of e.event.received) issue e.event.organization_id e.event_tags hits

pub batch_hits : TagTables → List TaggedEvent → Option (List (TagKey × ℕ))
batch_hits db [] = some []
batch_hits db (e ∷ events) = event_hits db e.event.issue_id e (batch_hits db events)

abbrev pub same_tag_key : TagKey → TagKey → Bool
same_tag_key (d, i, k, v) (d', i', k', v') = ((d == d') && (i == i')) && ((k == k') && (v == v'))

abbrev pub tag_key_before : TagKey → TagKey → Bool
tag_key_before (d, i, k, v) (d', i', k', v') =
    ltb d d' || ((d == d') && (ltb i i' || ((i == i') && (ltb k k' || ((k == k') && ltb v v')))))

-- A row has a partition, its ids and its sum are of 32 bits.
abbrev pub tag_fits : TagTables → (TagKey → ℕ → Option ℕ) → TagKey × ℕ → Bool
tag_fits db counts ((d, i, k, v), o) =
    db.has_partition d
    && ((ltb k (2 ^ 31) && ltb v (2 ^ 31)) && ltb (value_or_zero (counts (d, i, k, v) o)) (2 ^ 31))

pub all_tags_fit : TagTables → (TagKey → ℕ → Option ℕ) → List (TagKey × ℕ) → Bool
all_tags_fit db counts [] = true
all_tags_fit db counts (hit ∷ hits) = tag_fits db counts hit && all_tags_fit db counts hits

abbrev pub new_counts : TagTables → List (TagKey × ℕ) → TagKey → ℕ → Option ℕ
new_counts db hits = write_hits same_tag_key tag_key_before hits db.counts

-- the INSERT of the counts; none is an error
abbrev pub write_tags : TagTables → Option (List (TagKey × ℕ)) → Option TagTables
write_tags db none = none
write_tags db (some hits) =
    if all_tags_fit db (new_counts db hits) hits
    then some (record db { counts = new_counts db hits })
    else none

abbrev pub registered : TagTables → TextTable → TextTable → TagTables
registered db keys values = record db { keys = keys; values = values }

-- The early returns, for no keys and for no counts, write what the rest then writes: nothing. None is
-- an exception, whatever the statements before it have written.
pub update_tags : List TaggedEvent → TagTables → Option TagTables
update_tags events db = do
  let cleaned = clean_events events
  keys ← stored_texts (sorted_set (all_texts tag_keys cleaned)) db.keys
  values ← stored_texts (sorted_set (all_texts tag_values cleaned)) db.values
  let db' = registered db keys values
  write_tags db' (batch_hits db' cleaned)
