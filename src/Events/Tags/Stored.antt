-- ===== src/Events/Tags/Stored.antt =====
-- What the statements of `update_tags` store fits: the cleaned texts, and the ids.
use Prim.Native.Nat.{Ordering}
use Prim.Native.String
use Prim.Native.String.{String}
use fork_glitchtip_glitchtip.Common.{
  ℕ, suc, ◌+◌, ◌^◌, ◌≤◌, ◌<◌, ◌≡◌, inl, inr, true, Option, none, some, List, [], ◌∷◌, length,
  length-append, All, All-append, refl, arith, le→leb, Bool-cases,
}
use fork_glitchtip_glitchtip.Events.Tags.{
  TaggedEvent, TextTable, clean_events, set_tag, clean_tags, tag_keys, tag_values, all_texts,
  placed, insert_sorted, sorted_set, insert_text, insert_texts, texts_fit, stored_texts, tag_text,
  same_tag_text,
}
use fork_glitchtip_glitchtip.Events.Tags.Clean.{IsStorable, IsClean, clean_tags-IsClean}

clean_parts :
    (tags : List (String × String))
    → IsClean tags
    → All IsStorable (tag_keys tags) × All IsStorable (tag_values tags)
unfolding IsClean
clean_parts [] clean = (tt, tt)
clean_parts ((k, v) ∷ tags) (alone, key, value, clean) =
    let (keys, values) = clean_parts tags clean in ((key, keys), (value, values))

-- the texts of a cleaned batch can be stored
pub cleaned_texts :
    (events : List TaggedEvent)
    → All IsStorable (all_texts tag_keys (clean_events events))
      × All IsStorable (all_texts tag_values (clean_events events))
unfolding clean_events all_texts
cleaned_texts [] = (tt, tt)
cleaned_texts (e ∷ events) =
    let (keys, values) =
      clean_parts (clean_tags e.event_tags []) (clean_tags-IsClean e.event_tags) in
    let (more_keys, more_values) = cleaned_texts events in
    (
      All-append IsStorable (tag_keys (clean_tags e.event_tags [])) _ keys more_keys,
      All-append IsStorable (tag_values (clean_tags e.event_tags [])) _ values more_values,
    )

module _ (P : String → Type 0) where
  placed-All :
      (o : Ordering) (t u : String) (us rest : List String)
      → P t
      → P u
      → All P us
      → All P rest
      → All P (placed o t u us rest)
  placed-All Ordering.lt t u us rest p q all more = (p, (q, all))
  placed-All Ordering.eq t u us rest p q all more = (q, all)
  placed-All Ordering.gt t u us rest p q all more = (q, more)

  insert_sorted-All : (t : String) (us : List String) → P t → All P us → All P (insert_sorted t us)
  unfolding insert_sorted
  insert_sorted-All t [] p all = (p, tt)
  insert_sorted-All t (u ∷ us) p (q, all) =
      placed-All (String.compare t u) t u us (insert_sorted t us) p q all
        (insert_sorted-All t us p all)

  sorted_set-All : (ts : List String) → All P ts → All P (sorted_set ts)
  unfolding sorted_set
  sorted_set-All [] all = tt
  sorted_set-All (t ∷ ts) (p, all) = insert_sorted-All t (sorted_set ts) p (sorted_set-All ts all)

length-placed :
    (o : Ordering) (t u : String) (us rest : List String)
    → length rest ≤ suc (length us)
    → length (placed o t u us rest) ≤ suc (suc (length us))
length-placed Ordering.lt t u us rest h = omega arith
length-placed Ordering.eq t u us rest h = omega arith
length-placed Ordering.gt t u us rest h = omega (arith, h)

length-insert_sorted :
    (t : String) (us : List String) → length (insert_sorted t us) ≤ suc (length us)
unfolding insert_sorted
length-insert_sorted t [] = omega arith
length-insert_sorted t (u ∷ us) =
    length-placed (String.compare t u) t u us (insert_sorted t us) (length-insert_sorted t us)

length-sorted_set : (ts : List String) → length (sorted_set ts) ≤ length ts
unfolding sorted_set
length-sorted_set [] = omega arith
length-sorted_set (t ∷ ts) =
    omega (arith, length-insert_sorted t (sorted_set ts), length-sorted_set ts)

fit_texts : (ts : List String) → All IsStorable ts → texts_fit ts ≡ true
unfolding texts_fit IsStorable
fit_texts [] all = refl
fit_texts (t ∷ ts) ((short, free), all) =
    rw (le→leb (String.count t) 255 short, free, fit_texts ts all) refl

-- All ids are of 32 bits, and there are ids left for some more texts.
pub record IsSmall (more : ℕ) (table : TextTable) : Type 0 where
  pub ids : (t : String) (i : ℕ) → table.ids t ≡ some i → i < 2 ^ 31
  pub left : table.next_id + more ≤ 2 ^ 31

-- the INSERT succeeds
pub stored_texts_lem :
    (ts : List String) (table : TextTable)
    → All IsStorable ts
    → IsSmall (length ts) table
    → stored_texts (sorted_set ts) table ≡ some (insert_texts (sorted_set ts) table)
unfolding stored_texts
stored_texts_lem ts table all small =
    rw
      (
        fit_texts (sorted_set ts) (sorted_set-All IsStorable ts all),
        le→leb (table.next_id + length (sorted_set ts)) (2 ^ 31)
            (omega (arith, small.left, length-sorted_set ts)),
      )
      refl

insert-IsSmall :
    (t : String) (row : Option ℕ) (more : ℕ) (table : TextTable)
    → IsSmall (suc more) table
    → IsSmall more (insert_text t row table)
unfolding insert_text
insert-IsSmall t (some old) more table small = record {
  ids = small.ids;
  left = omega (arith, small.left);
}
insert-IsSmall t none more table small = record {
  ids = λ u i at. elim (Bool-cases (same_tag_text u t)) [
    | inl e ↦
        let made : some table.next_id ≡ some i = rw e at at in
        let same : table.next_id ≡ i = cc in omega (arith, small.left, same)
    | inr e ↦ small.ids u i (rw e at at)
  ];
  left = omega (arith, small.left);
}

insert_texts-IsSmall :
    (ts : List String) (more : ℕ) (table : TextTable)
    → IsSmall (length ts + more) table
    → IsSmall more (insert_texts ts table)
unfolding insert_texts
insert_texts-IsSmall [] more table small = record {
  ids = small.ids;
  left = omega (arith, small.left);
}
insert_texts-IsSmall (t ∷ ts) more table small = insert_texts-IsSmall ts more _ (
    insert-IsSmall t (table.ids t) (length ts + more) table
      (record { ids = small.ids; left = omega (arith, small.left) }))

-- the ids after it are of 32 bits
pub inserted-small :
    (ts : List String) (table : TextTable) (t : String) (i : ℕ)
    → IsSmall (length ts) table
    → (insert_texts (sorted_set ts) table).ids t ≡ some i
    → i < 2 ^ 31
inserted-small ts table t i small at =
    (insert_texts-IsSmall (sorted_set ts) 0 table
        (record { ids = small.ids; left = omega (arith, small.left, length-sorted_set ts) })).ids
      t i at

-- the tags of the events
unfoldable pub tag_number : List TaggedEvent → ℕ
tag_number [] = 0
tag_number (e ∷ events) = length e.event_tags + tag_number events

length-set_tag :
    (key value : String) (tags : List (String × String))
    → length (set_tag key value tags) ≤ suc (length tags)
unfolding set_tag
length-set_tag key value [] = omega arith
length-set_tag key value ((k, v) ∷ tags) =
    let rest = length-set_tag key value tags in
    elim (Bool-cases (same_tag_text k key)) [
      | inl e ↦ rw e (omega arith)
      | inr e ↦ rw e (omega (arith, rest))
    ]

length-clean_tags :
    (tags done : List (String × String)) → length (clean_tags tags done) ≤ length tags + length done
unfolding clean_tags
length-clean_tags [] done = omega arith
length-clean_tags ((k, v) ∷ tags) done = omega (
  arith,
  length-clean_tags tags (set_tag (tag_text k) (tag_text v) done),
  length-set_tag (tag_text k) (tag_text v) done,
)

length-keys : (tags : List (String × String)) → length (tag_keys tags) ≡ length tags
length-keys [] = refl
length-keys ((k, v) ∷ tags) = omega (arith, length-keys tags)

length-values : (tags : List (String × String)) → length (tag_values tags) ≡ length tags
length-values [] = refl
length-values ((k, v) ∷ tags) = omega (arith, length-values tags)

-- cleaning leaves no more tags, and there are as many keys and values
pub tag_number-clean_events :
    (events : List TaggedEvent) → tag_number (clean_events events) ≤ tag_number events
unfolding clean_events tag_number
tag_number-clean_events [] = omega arith
tag_number-clean_events (e ∷ events) =
    omega (arith, tag_number-clean_events events, length-clean_tags e.event_tags [])

pub length-all_texts :
    (events : List TaggedEvent)
    → (length (all_texts tag_keys events) ≡ tag_number events)
      × (length (all_texts tag_values events) ≡ tag_number events)
unfolding all_texts tag_number
length-all_texts [] = (refl, refl)
length-all_texts (e ∷ events) =
    let (keys, values) = length-all_texts events in
    (
      omega (
        arith,
        length-append (tag_keys e.event_tags) (all_texts tag_keys events),
        length-keys e.event_tags,
        keys,
      ),
      omega (
        arith,
        length-append (tag_values e.event_tags) (all_texts tag_values events),
        length-values e.event_tags,
        values,
      ),
    )

pub IsSmall-fewer :
    (few many : ℕ) (table : TextTable) → few ≤ many → IsSmall many table → IsSmall few table
IsSmall-fewer few many table h small = record {
  ids = small.ids;
  left = omega (arith, small.left, h);
}
