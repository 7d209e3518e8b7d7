-- ===== src/Ingest/Scrub/Keys.antt =====
-- apps/event_ingest/pii_scrubber.py: the configuration, the compiled denylists and the key matcher.
-- Lower-casing and the test for white space are Python's and Unicode's, so parameters; sets of
-- strings are lists.
pub mod FastPath
use Prim.Native.Char.{Char, code}
use Prim.Native.String
use Prim.Native.String.{String}
use text.Mathlib.Text
use text.Mathlib.Text.{find?}
use fork_glitchtip_glitchtip.Common.{
  ℕ, Bool, true, false, not, ◌&&◌, ◌||◌, Option, none, some, List, [], ◌∷◌, ◌++◌, map, keep, any,
  leb, ◌==◌, if◌then◌else◌,
}

pub record ScrubConfig : Type 0 where
  pub enabled : Bool
  pub scrub_defaults : Bool
  pub sensitive_keys : List String
  pub safe_keys : List String
  pub aggressive_key_match : Bool
  pub scrub_credit_cards : Bool
  pub scrub_private_keys : Bool
  pub scrub_emails : Bool
  pub placeholder : String

pub record Scrubber : Type 0 where
  pub config : ScrubConfig
  pub key_tokens : List String
  pub whole_keys : List String
  pub denylist : List String
  pub safelist : List String

abbrev pub default_key_tokens : List String
default_key_tokens =
    "password" ∷ "passwd" ∷ "passphrase" ∷ "pwd" ∷ "pin" ∷ "secret" ∷ "auth" ∷ "bearer"
    ∷ "credentials" ∷ "token" ∷ "session" ∷ "cookie" ∷ "csrf" ∷ "xsrf" ∷ "ssn" ∷ "cvv" ∷ "cvc" ∷ []

abbrev pub default_whole_keys : List String
default_whole_keys =
    "apikey" ∷ "xapikey" ∷ "authorization" ∷ "csrftoken" ∷ "xcsrftoken" ∷ "sessionid" ∷ "setcookie"
    ∷ "connectsid" ∷ "aiohttpsession" ∷ "mysqlpwd" ∷ "xforwardedfor" ∷ "privatekey" ∷ "creditcard"
    ∷ "cardnumber" ∷ "socialsecurity" ∷ []

abbrev pub is_empty : String → Bool
is_empty String.[] = true
is_empty (String.◌∷◌ c s) = false

abbrev pub same_text : String → String → Bool
same_text s t = text.Mathlib.Text.◌==◌ s t

-- `in`, for a text and a set, and for a text and a text
abbrev pub member : String → List String → Bool
member s set = any (same_text s) set

abbrev pub occurs_in : String → String → Bool
occurs_in part text = elim (find? text part) [ none ↦ false | some i ↦ true ]

-- `[A-Z]`, `[a-z]`, `[a-z0-9]`
abbrev pub is_upper : Char → Bool
is_upper c = leb 65 (code c) && leb (code c) 90

abbrev pub is_lower : Char → Bool
is_lower c = leb 97 (code c) && leb (code c) 122

abbrev pub is_lower_or_digit : Char → Bool
is_lower_or_digit c = is_lower c || (leb 48 (code c) && leb (code c) 57)

abbrev pub starts_lower : String → Bool
starts_lower String.[] = false
starts_lower (String.◌∷◌ c s) = is_lower c

-- the two pairs of lookarounds of `_KEY_TOKEN_RE`, between `c` and the rest
abbrev pub boundary : Char → String → Bool
boundary c String.[] = false
boundary c (String.◌∷◌ d s) =
    (is_lower_or_digit c && is_upper d) || (is_upper c && is_upper d && starts_lower s)

module _ (is_space : Char → Bool) where
  -- `[-_.\s]`
  abbrev pub is_separator : Char → Bool
  is_separator c = (code c == 45) || (code c == 95) || (code c == 46) || is_space c

  -- `_KEY_SEPARATORS_RE.sub("", key)`
  abbrev pub strip : String → String
  strip String.[] = ""
  strip (String.◌∷◌ c s) = if is_separator c then strip s else String.◌∷◌ c (strip s)

  -- `_KEY_TOKEN_RE.split(key)`, with the piece read so far; runs of separators split into empty
  -- pieces, which `split_key` drops
  abbrev pub pieces : String → String → List String
  pieces piece String.[] = piece ∷ []
  pieces piece (String.◌∷◌ c s) =
      let longer = String.◌++◌ piece (String.◌∷◌ c "") in
      let from_next = pieces "" s in
      if is_separator c
      then piece ∷ from_next
      else if boundary c s
      then longer ∷ from_next
      else pieces longer s

abbrev pub discard_empty : List String → List String
discard_empty = keep (λ k. not (is_empty k))

-- the last lines of `_is_sensitive_key`
abbrev pub token_match : Scrubber → List String → Bool
token_match sc tokens =
    if any (λ t. member t sc.safelist) tokens
    then false
    else any (λ t. member t sc.key_tokens) tokens

module _ (lower : String → String) (is_space : Char → Bool) where
  unfoldable pub normalize_key : String → String
  normalize_key key = lower (strip is_space key)

  unfoldable pub split_key : String → List String
  split_key key = map lower (keep (λ t. not (is_empty t)) (pieces is_space "" key))

  abbrev pub names : List String → List String
  names keys = map normalize_key (keep (λ k. not (is_empty k)) keys)

  -- `Scrubber.__post_init__`
  unfoldable pub compile : ScrubConfig → Scrubber
  compile config =
      let tokens = if config.scrub_defaults then default_key_tokens else [] in
      let whole = if config.scrub_defaults then default_whole_keys else [] in
      let all_whole = whole ++ names config.sensitive_keys in
      record {
        config = config;
        key_tokens = discard_empty tokens;
        whole_keys = discard_empty all_whole;
        denylist = discard_empty tokens ++ discard_empty all_whole;
        safelist = names config.safe_keys;
      }

  unfoldable pub is_sensitive_key : Scrubber → String → Bool
  is_sensitive_key sc key =
      let nkey = normalize_key key in
      if is_empty nkey
      then false
      else if sc.config.aggressive_key_match
      then if any (λ safe. occurs_in safe nkey) sc.safelist
        then false
        else any (λ token. occurs_in token nkey) sc.denylist
      else if member nkey sc.safelist
      then false
      else if member nkey sc.whole_keys
      then true
      else if same_text key nkey
      then member nkey sc.key_tokens
      else token_match sc (split_key key)
