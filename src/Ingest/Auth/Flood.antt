-- ===== src/Ingest/Auth/Flood.antt =====
-- How often rejected requests look up the database.
use fork_glitchtip_glitchtip.Common.{
  ℕ, suc, ◌≡◌, ◌≤◌, true, false, Option, none, some, List, [], ◌∷◌, ◌==◌, ==_refl, if◌then◌else◌,
  refl, ap, ◌∙◌, le→ltb_false,
}
use fork_glitchtip_glitchtip.Ingest.Auth.{
  Numbers, letter_t, serialize_throttle, deserialize_throttle, is_accepting_events, Draws, Project,
  Answer, throttled, Server, set_block, set_otlp_block, is_v, refused, is_blocked, cached_parsed,
  cached_answer, found, after_lookup, get_project, found_by_key, after_key_lookup,
  get_project_by_key,
}
use fork_glitchtip_glitchtip.Ingest.Auth.Codec.{deserialize-serialize_throttle}

module _ (py : Numbers) (retry_after : ℕ → ℕ) where
  not_v : (a b : ℕ) → is_v (some (serialize_throttle py a b)) ≡ false
  unfolding serialize_throttle
  not_v a b = refl

  stored_there :
      (key : ℕ) (value : List ℕ) (old : Option (List ℕ))
      → (if key == key then some value else old) ≡ some value
  stored_there key value old = rw ==_refl refl

  full_refused : (d d' : ℕ) → d ≤ 100 → refused d d' 100 100 ≡ true
  unfolding refused is_accepting_events
  full_refused d d' small = rw (le→ltb_false 100 d small) refl

  full_answer :
      (draws : Draws)
      → draws.cached_org ≤ 100
      → cached_answer py retry_after draws (some (serialize_throttle py 100 100))
        ≡ some (throttled (retry_after 100))
  unfolding cached_answer cached_parsed
  full_answer draws small =
      rw (deserialize-serialize_throttle, full_refused draws.cached_org draws.cached_project small)
        refl

  first_by_key :
      (rows : ℕ → Option Project) (key : ℕ) (p : Project) (draws : Draws) (s : Server)
      → rows key ≡ some p
      → is_blocked p ≡ true
      → s.otlp_block key ≡ none
      → get_project_by_key py retry_after false rows key draws s ≡ (
        throttled 600,
        set_otlp_block key (serialize_throttle py 100 100) (record s { lookups = suc s.lookups }),
      )
  unfolding get_project_by_key after_key_lookup found_by_key cached_answer
  first_by_key rows key p draws s row blocked absent = rw (absent, row, blocked) refl

  next_by_key :
      (rows : ℕ → Option Project) (key : ℕ) (draws : Draws) (s : Server)
      → s.otlp_block key ≡ some (serialize_throttle py 100 100)
      → draws.cached_org ≤ 100
      → get_project_by_key py retry_after false rows key draws s ≡ (throttled (retry_after 100), s)
  unfolding get_project_by_key
  next_by_key rows key draws s stored small =
      rw (stored, not_v 100 100, full_answer draws small) refl

  first_project :
      (rows : ℕ → ℕ → Option Project) (id key : ℕ) (p : Project) (draws : Draws) (s : Server)
      → rows id key ≡ some p
      → is_blocked p ≡ true
      → s.block id ≡ none
      → s.dsn_block id key ≡ none
      → get_project py retry_after rows id key draws s
        ≡ (throttled 600, set_block id (letter_t ∷ []) (record s { lookups = suc s.lookups }))
  unfolding get_project after_lookup found cached_answer
  first_project rows id key p draws s row blocked absent absent' =
      rw (absent, absent', row, blocked) refl

  -- the text "t" refuses nothing
  letter_t_answer :
      (draws : Draws) → cached_answer py retry_after draws (some (letter_t ∷ [])) ≡ none
  unfolding cached_answer cached_parsed deserialize_throttle refused is_accepting_events
  letter_t_answer draws = refl

  next_project :
      (rows : ℕ → ℕ → Option Project) (id key : ℕ) (p : Project) (draws : Draws) (s : Server)
      → rows id key ≡ some p
      → is_blocked p ≡ true
      → s.block id ≡ some (letter_t ∷ [])
      → s.dsn_block id key ≡ none
      → (get_project py retry_after rows id key draws s).1.lookups ≡ suc s.lookups
  unfolding get_project after_lookup found
  next_project rows id key p draws s row blocked stored absent =
      rw (stored, letter_t_answer draws, absent, row, blocked) refl

  -- A request by key alone for a project that is blocked is rejected, and where it found nothing in
  -- the cache, every further request with that key is rejected without a lookup and without any
  -- change, whatever the draws are.
  pub blocked_key_once :
      (rows : ℕ → Option Project) (key : ℕ) (p : Project) (first second : Draws) (s : Server)
      → rows key ≡ some p
      → is_blocked p ≡ true
      → s.otlp_block key ≡ none
      → second.cached_org ≤ 100
      → let s' = (get_project_by_key py retry_after false rows key first s).1 in
        ((get_project_by_key py retry_after false rows key first s).0 ≡ throttled 600)
        × (get_project_by_key py retry_after false rows key second s'
            ≡ (throttled (retry_after 100), s'))
  blocked_key_once rows key p first second s row blocked absent small =
      let at = first_by_key rows key p first s row blocked absent in
      (
        ap (λ (r : Answer × Server). r.0) at,
        next_by_key rows key second _
            (ap (λ (r : Answer × Server). r.1.otlp_block key) at ∙ stored_there key _ _) small,
      )

  -- A request for a blocked project that finds no block in the cache is rejected, and the next
  -- request with the same key looks up the database again, whatever its draws are: the block that
  -- the first one stored lets every request pass.
  pub blocked_project_again :
      (rows : ℕ → ℕ → Option Project) (id key : ℕ) (p : Project) (first second : Draws) (s : Server)
      → rows id key ≡ some p
      → is_blocked p ≡ true
      → s.block id ≡ none
      → s.dsn_block id key ≡ none
      → let s' = (get_project py retry_after rows id key first s).1 in
        ((get_project py retry_after rows id key first s).0 ≡ throttled 600)
        × ((get_project py retry_after rows id key second s').1.lookups ≡ suc s'.lookups)
  blocked_project_again rows id key p first second s row blocked absent absent' =
      let at = first_project rows id key p first s row blocked absent absent' in
      (
        ap (λ (r : Answer × Server). r.0) at,
        next_project rows id key p second _ row blocked
            (ap (λ (r : Answer × Server). r.1.block id) at ∙ stored_there id _ _)
            (ap (λ (r : Answer × Server). r.1.dsn_block id key) at ∙ absent'),
      )
