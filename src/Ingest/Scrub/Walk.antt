-- ===== src/Ingest/Scrub/Walk.antt =====
-- apps/event_ingest/pii_scrubber.py: `Scrubber` on strings, on nested values and on payloads. The
-- regular expressions are run by Python's `re`, so `sub` of each is a parameter; the keys of a
-- dictionary are strings.
pub mod Secrets
use Prim.Native.Char.{Char, code}
use Prim.Native.String
use Prim.Native.String.{String}
use fork_glitchtip_glitchtip.Common.{
  ℕ, suc, Bool, true, false, ◌&&◌, ◌||◌, List, [], ◌∷◌, length, ltb, leb, ◌==◌, if◌then◌else◌,
}
use fork_glitchtip_glitchtip.Ingest.Scrub.Luhn.{digits_of, luhn_valid}
use fork_glitchtip_glitchtip.Ingest.Scrub.Keys.{Scrubber, same_text, occurs_in, is_sensitive_key}

pub data Kind : Type 0 where
  list_kind tuple_kind : Kind

-- A plain value of a payload. `other` is a number or a Boolean, which the walk does not read.
mutual
  pub data Value : Type 0 where
    null : Value
    other : ℕ → Value
    string : String → Value
    dict : Fields → Value
    sequence : Kind → Items → Value

  pub data Items : Type 0 where
    no_items : Items
    item : Value → Items → Items

  pub data Fields : Type 0 where
    no_fields : Fields
    field : String → Value → Fields → Fields

-- Python's part: `str.lower`, `\s`, and `sub` of the three patterns with a replacement function
pub record Python : Type 0 where
  pub lower : String → String
  pub is_space : Char → Bool
  pub sub_private_key : (String → String) → String → String
  pub sub_card : (String → String) → String → String
  pub sub_email : (String → String) → String → String

-- _MAX_SCRUB_DEPTH
abbrev pub max_scrub_depth : ℕ
max_scrub_depth = 48

-- `re.sub(r"[ -]", "", …)`
pub drop_gaps : String → String
drop_gaps String.[] = ""
drop_gaps (String.◌∷◌ c s) =
    let rest = drop_gaps s in if (code c == 32) || (code c == 45) then rest else String.◌∷◌ c rest

pub maybe_redact_card : Scrubber → String → String
maybe_redact_card sc match =
    let digits = drop_gaps match in
    let size = length (digits_of digits) in
    if leb 13 size && leb size 19 && luhn_valid digits then sc.config.placeholder else match

pub scrub_string : Python → Scrubber → String → String
scrub_string py sc value =
    let replace : String → String = λ match. sc.config.placeholder in
    let no_keys =
      if sc.config.scrub_private_keys && occurs_in "PRIVATE KEY" value
      then py.sub_private_key replace value
      else value in
    let no_cards =
      if sc.config.scrub_credit_cards
      then py.sub_card (maybe_redact_card sc) no_keys
      else no_keys in
    if sc.config.scrub_emails then py.sub_email replace no_cards else no_cards

module _ (py : Python) (sc : Scrubber) where
  abbrev pub sensitive : String → Bool
  sensitive key = is_sensitive_key py.lower py.is_space sc key

  -- the value under a key, given what the walk makes of it
  abbrev pub redacted : String → Value → Value
  redacted key walked = if sensitive key then string sc.config.placeholder else walked

  unfoldable mutual
    pub scrub_node : ℕ → Value → Value
    scrub_node depth (string s) =
        if ltb max_scrub_depth depth then string s else string (scrub_string py sc s)
    scrub_node depth (dict fs) =
        let walked = scrub_dict depth fs in
        if ltb max_scrub_depth depth then dict fs else dict walked
    scrub_node depth (sequence list_kind xs) =
        let walked = scrub_list depth xs in
        if ltb max_scrub_depth depth then sequence list_kind xs else sequence list_kind walked
    scrub_node depth value = value

    pub scrub_dict : ℕ → Fields → Fields
    scrub_dict depth no_fields = no_fields
    scrub_dict depth (field key value fs) =
        field key (redacted key (scrub_node (suc depth) value)) (scrub_dict depth fs)

    pub scrub_list : ℕ → Items → Items
    scrub_list depth no_items = no_items
    scrub_list depth (item (sequence kind (item (string key) (item value more))) rest) =
        item
          (sequence list_kind
            (item (string key) (item (redacted key (scrub_node (suc depth) value)) more)))
          (scrub_list depth rest)
    scrub_list depth (item value rest) = item (scrub_node (suc depth) value) (scrub_list depth rest)
