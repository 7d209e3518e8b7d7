-- ===== src/Ingest/Scrub/Walk/Secrets.antt =====
-- What the walk makes of two values does not depend on what stands under sensitive keys.
use Prim.Native.String.{String}
use fork_glitchtip_glitchtip.Common.{
  ℕ, suc, ◌≡◌, ◌≤◌, Bool, true, false, le→ltb_false, refl, ap, ap₂, arith,
}
use fork_glitchtip_glitchtip.Ingest.Scrub.Keys.{Scrubber}
use fork_glitchtip_glitchtip.Ingest.Scrub.Walk.{
  Python, Kind, list_kind, Value, null, other, string, dict, sequence, Items, no_items, item,
  Fields, no_fields, field, max_scrub_depth, sensitive, redacted, scrub_node, scrub_dict,
  scrub_list,
}

-- Whether the walk takes the value as a pair of a key and a value.
abbrev pub is_pair : Value → Bool
is_pair (sequence kind (item (string key) (item value more))) = true
is_pair _ = false

-- The same value, but for what stands under sensitive keys and in pairs with a sensitive key, in
-- dictionaries and lists down to the depth bound.
module _ (py : Python) (sc : Scrubber) where
  mutual
    pub data Alike : ℕ → Value → Value → Type 0 where
      same_value : {d : ℕ} (v : Value) → Alike d v v
      both_dicts :
          {d : ℕ} {fs gs : Fields}
          → d ≤ max_scrub_depth
          → AlikeFields d fs gs
          → Alike d (dict fs) (dict gs)
      both_lists :
          {d : ℕ} {xs ys : Items}
          → d ≤ max_scrub_depth
          → AlikeItems d xs ys
          → Alike d (sequence list_kind xs) (sequence list_kind ys)

    pub data AlikeFields : ℕ → Fields → Fields → Type 0 where
      ends : {d : ℕ} → AlikeFields d no_fields no_fields
      secret_field :
          {d : ℕ} {fs gs : Fields} {key : String} (v w : Value)
          → sensitive py sc key ≡ true
          → AlikeFields d fs gs
          → AlikeFields d (field key v fs) (field key w gs)
      open_field :
          {d : ℕ} {fs gs : Fields} {key : String} {v w : Value}
          → Alike (suc d) v w
          → AlikeFields d fs gs
          → AlikeFields d (field key v fs) (field key w gs)

    pub data AlikeItems : ℕ → Items → Items → Type 0 where
      stops : {d : ℕ} → AlikeItems d no_items no_items
      secret_pair :
          {d : ℕ} {xs ys more : Items} {kind : Kind} {key : String} (v w : Value)
          → sensitive py sc key ≡ true
          → AlikeItems d xs ys
          → AlikeItems d
              (item (sequence kind (item (string key) (item v more))) xs)
              (item (sequence kind (item (string key) (item w more))) ys)
      open_pair :
          {d : ℕ} {xs ys more : Items} {kind : Kind} {key : String} {v w : Value}
          → Alike (suc d) v w
          → AlikeItems d xs ys
          → AlikeItems d
              (item (sequence kind (item (string key) (item v more))) xs)
              (item (sequence kind (item (string key) (item w more))) ys)
      open_item :
          {d : ℕ} {xs ys : Items} {v w : Value}
          → is_pair v ≡ false
          → is_pair w ≡ false
          → Alike (suc d) v w
          → AlikeItems d xs ys
          → AlikeItems d (item v xs) (item w ys)

  scrub_list_item :
      (d : ℕ) (v : Value) (xs : Items)
      → is_pair v ≡ false
      → scrub_list py sc d (item v xs) ≡ item (scrub_node py sc (suc d) v) (scrub_list py sc d xs)
  unfolding scrub_list scrub_node
  scrub_list_item d null xs h = refl
  scrub_list_item d (other n) xs h = refl
  scrub_list_item d (string s) xs h = refl
  scrub_list_item d (dict fs) xs h = refl
  scrub_list_item d (sequence kind no_items) xs h = refl
  scrub_list_item d (sequence kind (item null ys)) xs h = refl
  scrub_list_item d (sequence kind (item (other n) ys)) xs h = refl
  scrub_list_item d (sequence kind (item (dict fs) ys)) xs h = refl
  scrub_list_item d (sequence kind (item (sequence k zs) ys)) xs h = refl
  scrub_list_item d (sequence kind (item (string s) no_items)) xs h = refl
  scrub_list_item d (sequence kind (item (string s) (item v more))) xs h = ground arith

  mutual
    unfolding scrub_node scrub_dict scrub_list

    node_hides : (d : ℕ) (v w : Value) → Alike d v w → scrub_node py sc d v ≡ scrub_node py sc d w
    node_hides d v w (same_value u) = refl
    node_hides d (dict fs) (dict gs) (both_dicts near a) =
        rw (le→ltb_false max_scrub_depth d near) (ap dict (dict_hides d fs gs a))
    node_hides d (sequence k xs) (sequence l ys) (both_lists near a) =
        rw (le→ltb_false max_scrub_depth d near) (ap (sequence list_kind) (list_hides d xs ys a))

    pub dict_hides :
        (d : ℕ) (fs gs : Fields)
        → AlikeFields d fs gs
        → scrub_dict py sc d fs ≡ scrub_dict py sc d gs
    dict_hides d fs gs ends = refl
    dict_hides d (field key _ fs) (field _ _ gs) (secret_field v w hidden a) =
        rw hidden (ap (field key (string sc.config.placeholder)) (dict_hides d fs gs a))
    dict_hides d (field key v fs) (field _ w gs) (open_field b a) =
        ap₂ (λ x ys. field key (redacted py sc key x) ys) (node_hides (suc d) v w b)
          (dict_hides d fs gs a)

    list_hides :
        (d : ℕ) (xs ys : Items) → AlikeItems d xs ys → scrub_list py sc d xs ≡ scrub_list py sc d ys
    list_hides d xs ys stops = refl
    list_hides d (item _ xs) (item _ ys) (secret_pair {more = more} {key = key} v w hidden a) =
        rw hidden (
          ap
            (item
              (sequence list_kind (item (string key) (item (string sc.config.placeholder) more))))
            (list_hides d xs ys a))
    list_hides d (item _ xs) (item _ ys) (open_pair {more = more} {key = key} {v = v} {w = w} b a) =
        ap₂
          (λ x zs.
            item (sequence list_kind (item (string key) (item (redacted py sc key x) more))) zs)
          (node_hides (suc d) v w b) (list_hides d xs ys a)
    list_hides d (item v xs) (item w ys) (open_item plain plain' b a) =
        rw (scrub_list_item d v xs plain, scrub_list_item d w ys plain')
          (ap₂ item (node_hides (suc d) v w b) (list_hides d xs ys a))

  -- Two values that differ only under sensitive keys of dictionaries and in pairs of lists with a
  -- sensitive key, down to the depth bound, are scrubbed to the same value: nothing of what stands
  -- there survives.
  pub scrub_node_hides :
      (depth : ℕ) (v w : Value)
      → Alike depth v w
      → scrub_node py sc depth v ≡ scrub_node py sc depth w
  scrub_node_hides depth v w a = node_hides depth v w a
