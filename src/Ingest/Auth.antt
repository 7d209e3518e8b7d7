-- ===== src/Ingest/Auth.antt =====
-- apps/event_ingest/authentication.py: the DSN check of `get_project` and `get_project_by_key`, with
-- the throttles and the block cache. Texts are lists of character codes; keys are numbers. Formatting
-- and parsing of numbers, the rows of the database, the random draws and `calculate_retry_after`,
-- which computes with floats, are parameters. The expiry of cache entries is not modelled.
pub mod Codec
pub mod Flood
pub mod Verdict
mod Samples
use fork_glitchtip_glitchtip.Common.{
  ℕ, zero, suc, ◌+◌, ◌≡◌, ◌≤◌, Bool, true, false, not, ◌&&◌, ◌||◌, Option, none, some, List, [],
  ◌∷◌, ◌++◌, ltb, ◌==◌, if◌then◌else◌, max, All,
}

abbrev pub colon : ℕ
colon = 58

abbrev pub letter_t : ℕ
letter_t = 116

abbrev pub letter_v : ℕ
letter_v = 118

-- what `deserialize_throttle` gives: None, the two rates, or the ValueError of `int`
pub data Parsed : Type 0 where
  nothing : Parsed
  rates : ℕ → ℕ → Parsed
  value_error : Parsed

-- formatting and parsing of numbers; a formatted number is parsed back and has no colon
pub record Numbers : Type 0 where
  pub show : ℕ → List ℕ
  pub int : List ℕ → Option ℕ
  pub int-show : (n : ℕ) → int (show n) ≡ some n
  pub show_plain : (n : ℕ) → All (λ c. (c == colon) ≡ false) (show n)

-- the text up to the first colon, and what follows it
unfoldable pub cut : List ℕ → List ℕ × Option (List ℕ)
cut [] = ([], none)
cut (c ∷ s) = let (left, right) = cut s in if c == colon then ([], some s) else (c ∷ left, right)

unfoldable pub both : Option ℕ → Option ℕ → Parsed
both (some a) (some b) = rates a b
both _ _ = value_error

abbrev pub is_none {ℓ} : {A : Type ℓ} → Option A → Bool
is_none none = true
is_none (some a) = false

module _ (py : Numbers) where
  open py use {show, int}

  unfoldable pub serialize_throttle : ℕ → ℕ → List ℕ
  serialize_throttle org project = letter_t ∷ colon ∷ show org ++ colon ∷ show project

  -- the three parts, of which the third holds any further colon
  abbrev pub parts : List ℕ × Option (List ℕ) → Parsed
  parts (org, none) = nothing
  parts (org, some project) = both (int org) (int project)

  unfoldable pub deserialize_throttle : List ℕ → Parsed
  deserialize_throttle [] = nothing
  deserialize_throttle (c ∷ []) = if c == letter_t then rates 0 0 else nothing
  deserialize_throttle (c ∷ d ∷ s) =
      if (c == letter_t) && (d == colon) then parts (cut s) else nothing

-- with the draw of `random.randint(0, 100)`
unfoldable pub is_accepting_events : ℕ → ℕ → Bool
is_accepting_events draw rate = if rate == 0 then true else ltb rate draw

pub record Draws : Type 0 where
  pub cached_org : ℕ
  pub cached_project : ℕ
  pub org : ℕ
  pub project : ℕ
  pub check : Bool  -- billing is enabled and the check interval is hit

-- the columns of a project and its organization that decide
pub record Project : Type 0 where
  pub organization_id : ℕ
  pub is_accepting_events : Bool
  pub org_throttle : ℕ
  pub project_throttle : ℕ

pub data Answer : Type 0 where
  accepted : Project → Answer
  throttled : ℕ → Answer  -- with the Retry-After
  invalid_dsn : Answer
  crashed : Answer
  frozen : Answer

-- the block cache, by project, by project and key, and by key; the number of database lookups; and
-- the throttle checks enqueued
pub record Server : Type 0 where
  pub block : ℕ → Option (List ℕ)
  pub dsn_block : ℕ → ℕ → Option (List ℕ)
  pub otlp_block : ℕ → Option (List ℕ)
  pub lookups : ℕ
  pub checks : List ℕ

abbrev pub set_block : ℕ → List ℕ → Server → Server
set_block id value s = record s { block = λ i. if i == id then some value else s.block i }

abbrev pub set_dsn_block : ℕ → ℕ → List ℕ → Server → Server
set_dsn_block id key value s = record s {
  dsn_block = λ i k. if (i == id) && (k == key) then some value else s.dsn_block i k;
}

abbrev pub set_otlp_block : ℕ → List ℕ → Server → Server
set_otlp_block key value s = record s {
  otlp_block = λ k. if k == key then some value else s.otlp_block k;
}

-- `== "v"`
abbrev pub is_v : Option (List ℕ) → Bool
is_v none = false
is_v (some []) = false
is_v (some (c ∷ [])) = c == letter_v
is_v (some (c ∷ d ∷ s)) = false

-- the rates are refused by either draw
unfoldable pub refused : ℕ → ℕ → ℕ → ℕ → Bool
refused draw draw' org project =
    not (is_accepting_events draw org) || not (is_accepting_events draw' project)

-- `not is_accepting_events or … == 100 or … == 100`
unfoldable pub is_blocked : Project → Bool
is_blocked p = not p.is_accepting_events || ((p.org_throttle == 100) || (p.project_throttle == 100))

module _ (py : Numbers) (retry_after : ℕ → ℕ) where
  -- what a cached text answers by itself
  unfoldable pub cached_parsed : Draws → Parsed → Option Answer
  cached_parsed draws nothing = none
  cached_parsed draws value_error = some crashed
  cached_parsed draws (rates org project) =
      if refused draws.cached_org draws.cached_project org project
      then some (throttled (retry_after (max org project)))
      else none

  unfoldable pub cached_answer : Draws → Option (List ℕ) → Option Answer
  cached_answer draws none = none
  cached_answer draws (some value) = cached_parsed draws (deserialize_throttle py value)

  -- the end of both functions, for a project that is not blocked; `block` stores the rates
  unfoldable pub admit : Draws → Project → (Server → Server) → Server → Answer × Server
  admit draws p block s =
      let limited = not (p.org_throttle == 0) || not (p.project_throttle == 0) in
      let s' = if limited then block s else s in
      if limited && refused draws.org draws.project p.org_throttle p.project_throttle
      then (throttled (retry_after (max p.org_throttle p.project_throttle)), s')
      else (
        accepted p,
        if draws.check then record s' { checks = p.organization_id ∷ s'.checks } else s',
      )

  unfoldable pub found : ℕ → Draws → Project → Server → Answer × Server
  found id draws p s =
      if is_blocked p
      then (throttled 600, set_block id (letter_t ∷ []) s)
      else admit draws p (set_block id (serialize_throttle py p.org_throttle p.project_throttle)) s

  unfoldable pub after_lookup : ℕ → ℕ → Draws → Option Project → Server → Answer × Server
  after_lookup id key draws none s = (invalid_dsn, set_dsn_block id key (letter_v ∷ []) s)
  after_lookup id key draws (some p) s = found id draws p s

  abbrev pub answer_or : Option Answer → Server → Answer × Server → Answer × Server
  answer_or none s rest = rest
  answer_or (some a) s rest = (a, s)

  unfoldable pub get_project : (ℕ → ℕ → Option Project) → ℕ → ℕ → Draws → Server → Answer × Server
  get_project rows id key draws s =
      let looked_up =
        after_lookup id key draws (rows id key) (record s { lookups = suc s.lookups }) in
      answer_or (cached_answer draws (s.block id)) s
        (if is_v (s.dsn_block id key) then (invalid_dsn, s) else looked_up)

  pub event_auth : Bool → (ℕ → ℕ → Option Project) → ℕ → ℕ → Draws → Server → Answer × Server
  event_auth freeze rows id key draws s =
      if freeze then (frozen, s) else get_project rows id key draws s

  unfoldable pub found_by_key : ℕ → Draws → Project → Server → Answer × Server
  found_by_key key draws p s =
      if is_blocked p
      then (throttled 600, set_otlp_block key (serialize_throttle py 100 100) s)
      else admit draws p
          (set_otlp_block key (serialize_throttle py p.org_throttle p.project_throttle)) s

  unfoldable pub after_key_lookup : ℕ → Draws → Option Project → Server → Answer × Server
  after_key_lookup key draws none s = (invalid_dsn, set_otlp_block key (letter_v ∷ []) s)
  after_key_lookup key draws (some p) s = found_by_key key draws p s

  unfoldable pub get_project_by_key :
      Bool → (ℕ → Option Project) → ℕ → Draws → Server → Answer × Server
  get_project_by_key freeze rows key draws s =
      let looked_up =
        after_key_lookup key draws (rows key) (record s { lookups = suc s.lookups }) in
      if freeze
      then (frozen, s)
      else if is_v (s.otlp_block key)
      then (invalid_dsn, s)
      else answer_or (cached_answer draws (s.otlp_block key)) s looked_up
