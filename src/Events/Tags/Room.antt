-- ===== src/Events/Tags/Room.antt =====
-- `update_tags` finds an id for every tag, and counts the tags of each issue by day, where there is
-- room for them.
use fork_glitchtip_glitchtip.Events.Issues.{value_or_zero}
use fork_glitchtip_glitchtip.Common.{
  ℕ, ◌+◌, ◌*◌, ◌^◌, ◌≡◌, ◌<◌, length, some, List, All, refl, ap, ◌∙◌, arith,
}
use fork_glitchtip_glitchtip.Events.Stats.Sums.{write_hits-adds}
use fork_glitchtip_glitchtip.Events.Tags.{
  TaggedEvent, TagTables, clean_events, tag_keys, tag_values, all_texts, batch_hits, same_tag_key,
  tag_key_before, insert_texts, sorted_set, new_counts, registered, update_tags,
}
use fork_glitchtip_glitchtip.Events.Tags.Stored.{
  cleaned_texts, stored_texts_lem, IsSmall, inserted-small, tag_number, tag_number-clean_events,
  length-all_texts, IsSmall-fewer,
}
use fork_glitchtip_glitchtip.Events.Tags.Counts.{
  same_tag_key_iff, day_tags, day_tags-le, HomeEvents, key_issue, batch_hits-IsCounted,
  clean-HomeEvents, All-both, All-all_texts,
}
use fork_glitchtip_glitchtip.Events.Tags.Fits.{
  HasPartitions, HitsFit, batch_hits-HitsFit, clean-HasPartitions, fitting_hits,
}
use fork_glitchtip_glitchtip.Events.Tags.Ids.{HasId, all_texts-HasId}

-- There is room for the tags of the batch: partitions for its days, ids of 32 bits that are left for
-- its texts, and counts that stay below 2 ^ 31.
pub record HasRoom (home : ℕ → ℕ) (events : List TaggedEvent) (db : TagTables) : Type 0 where
  pub partitions : HasPartitions db events
  pub keys : IsSmall (tag_number events) db.keys
  pub values : IsSmall (tag_number events) db.values
  pub counts :
      (d i k v : ℕ)
      → value_or_zero (db.counts (86400 * d, i, k, v) (home i)) + tag_number events < 2 ^ 31

-- Where each issue of the batch has one organization, each day of it has a partition, and the ids and
-- counts have room in 32 bits for all its tags, `update_tags` does not raise, and raises the number of
-- each day, issue, tag key and tag value by the number of tags with that key and value, cut and cleaned,
-- that the events of the issue received on that day have.
pub update_tags-counts :
    (home : ℕ → ℕ) (events : List TaggedEvent) (db : TagTables)
    → HomeEvents home events
    → HasRoom home events db
    → (db' : TagTables) × (update_tags events db ≡ some db')
      × ((d i k v : ℕ)
          → value_or_zero (db'.counts (86400 * d, i, k, v) (home i))
            ≡ value_or_zero (db.counts (86400 * d, i, k, v) (home i))
              + day_tags db'.keys db'.values d i k v (clean_events events))
unfolding update_tags
update_tags-counts home events db mine room =
    let cleaned = clean_events events in
    let key_texts = all_texts tag_keys cleaned in
    let value_texts = all_texts tag_values cleaned in
    let new_keys = insert_texts (sorted_set key_texts) db.keys in
    let new_values = insert_texts (sorted_set value_texts) db.values in
    let db' = registered db new_keys new_values in
    let (storable_keys, storable_values) = cleaned_texts events in
    let (key_number, value_number) = length-all_texts cleaned in
    let fewer = tag_number-clean_events events in
    let small_keys =
      IsSmall-fewer (length key_texts) _ db.keys (omega (arith, key_number, fewer)) room.keys in
    let small_values =
      IsSmall-fewer (length value_texts) _ db.values (omega (arith, value_number, fewer))
        room.values in
    let keys =
      All-all_texts (HasId new_keys) tag_keys cleaned (all_texts-HasId key_texts db.keys) in
    let values =
      All-all_texts (HasId new_values) tag_values cleaned (all_texts-HasId value_texts db.values) in
    let ids =
      All-both (λ e. All (HasId new_keys) (tag_keys e.event_tags))
        (λ e. All (HasId new_values) (tag_values e.event_tags)) cleaned keys values in
    let (hits, at, homes, counts) =
      batch_hits-IsCounted home db' cleaned ids (clean-HomeEvents home events mine) in
    let rises = λ (d i k v : ℕ).
      write_hits-adds same_tag_key same_tag_key_iff tag_key_before (λ x. home (key_issue x)) hits
        db.counts (86400 * d, i, k, v) homes
      ∙ ap (λ n. value_or_zero (db.counts (86400 * d, i, k, v) (home i)) + n) (counts d i k v) in
    let fits : HitsFit home db' (batch_hits db' cleaned) =
      batch_hits-HitsFit home db' cleaned
        (λ t i there. inserted-small key_texts db.keys t i small_keys there)
        (λ t i there. inserted-small value_texts db.values t i small_values there)
        (clean-HomeEvents home events mine) (clean-HasPartitions db events room.partitions) in
    let all_fit = fitting_hits home db' (new_counts db' hits) hits (rw at at fits) (λ d i k v.
      omega (
        arith,
        rises d i k v,
        room.counts d i k v,
        day_tags-le new_keys new_values d i k v cleaned,
        fewer,
      )) in
    (
      record db' { counts = new_counts db' hits },
      rw
          (
            stored_texts_lem key_texts db.keys storable_keys small_keys,
            stored_texts_lem value_texts db.values storable_values small_values,
            at,
            all_fit,
          )
          refl,
      rises,
    )
