-- ===== src/Ingest/Auth/Verdict.antt =====
-- Which requests are accepted, and what a wrong key does to the others.
use fork_glitchtip_glitchtip.Common.{
  ℕ, suc, ◌≡◌, ◌≢◌, Bool, true, false, not, ◌&&◌, ◌||◌, Option, none, some, List, [], ◌∷◌, ◌==◌,
  ==_refl, ==_iff, if◌then◌else◌, refl, sym, ◌∙◌, inl, inr, Bool-cases,
}
use fork_glitchtip_glitchtip.Ingest.Auth.{
  Numbers, letter_v, serialize_throttle, Draws, Project, Answer, accepted, throttled, invalid_dsn,
  Server, set_block, set_dsn_block, is_v, refused, is_blocked, cached_answer, admit, found,
  after_lookup, answer_or, get_project,
}

abbrev Answered : Option Answer → Type 0
Answered none = Unit
Answered (some (accepted p)) = ⊥
Answered (some _) = Unit

-- a project that both of its throttles and the organization's state admit
abbrev pub Admitted : Draws → Option Project → Project → Type 0
Admitted draws row p =
    (row ≡ some p)
    × (is_blocked p ≡ false)
    × (refused draws.org draws.project p.org_throttle p.project_throttle ≡ false)

module _ (py : Numbers) (retry_after : ℕ → ℕ) where
  blocked_answer :
      (id : ℕ) (draws : Draws) (q : Project) (s : Server)
      → is_blocked q ≡ true
      → (found py retry_after id draws q s).0 ≡ throttled 600
  unfolding found
  blocked_answer id draws q s h = rw h refl

  open_answer :
      (id : ℕ) (draws : Draws) (q : Project) (s : Server)
      → is_blocked q ≡ false
      → (found py retry_after id draws q s).0
        ≡ (admit py retry_after draws q
            (set_block id (serialize_throttle py q.org_throttle q.project_throttle))
            s).0
  unfolding found
  open_answer id draws q s h = rw h refl

  admit_same :
      (draws : Draws) (q : Project) (block : Server → Server) (s t : Server)
      → (admit py retry_after draws q block s).0 ≡ (admit py retry_after draws q block t).0
  unfolding admit
  admit_same draws q block s t =
      elim (Bool-cases (not (q.org_throttle == 0) || not (q.project_throttle == 0))) [
        | inr free ↦ rw free refl
        | inl limited ↦
            elim (Bool-cases (refused draws.org draws.project q.org_throttle q.project_throttle)) [
              | inl no_luck ↦ rw (limited, no_luck) refl
              | inr luck ↦ rw (limited, luck) refl
            ]
      ]

  lookup_same :
      (id key : ℕ) (draws : Draws) (row : Option Project) (s t : Server)
      → (after_lookup py retry_after id key draws row s).0
        ≡ (after_lookup py retry_after id key draws row t).0
  unfolding after_lookup
  lookup_same id key draws none s t = refl
  lookup_same id key draws (some q) s t = elim (Bool-cases (is_blocked q)) [
    | inl blocked ↦ blocked_answer id draws q s blocked ∙ sym (blocked_answer id draws q t blocked)
    | inr free ↦
        open_answer id draws q s free
        ∙ admit_same draws q
            (set_block id (serialize_throttle py q.org_throttle q.project_throttle)) s t
        ∙ sym (open_answer id draws q t free)
  ]

  choice_same :
      (cached : Option Answer) (wrong : Bool) (s t : Server) (r r' : Answer × Server)
      → r.0 ≡ r'.0
      → (answer_or py retry_after cached s (if wrong then (invalid_dsn, s) else r)).0
        ≡ (answer_or py retry_after cached t (if wrong then (invalid_dsn, t) else r')).0
  choice_same none true s t r r' h = refl
  choice_same none false s t r r' h = h
  choice_same (some a) wrong s t r r' h = refl

  -- the answer depends on the server only through the two texts that the request reads
  answer_same :
      (rows : ℕ → ℕ → Option Project) (id key : ℕ) (draws : Draws) (s t : Server)
      → s.block id ≡ t.block id
      → s.dsn_block id key ≡ t.dsn_block id key
      → (get_project py retry_after rows id key draws s).0
        ≡ (get_project py retry_after rows id key draws t).0
  unfolding get_project
  answer_same rows id key draws s t h h' =
      rw (h, h')
        (choice_same (cached_answer py retry_after draws (t.block id)) (is_v (t.dsn_block id key)) s
          t _ _ (lookup_same id key draws (rows id key) _ _))

  other_key :
      (id key key' : ℕ) (value : List ℕ) (old : Option (List ℕ))
      → key' ≢ key
      → (if (id == id) && (key' == key) then some value else old) ≡ old
  other_key id key key' value old ne = elim (Bool-cases (key' == key)) [
    | inl e ↦ absurd (ne ((==_iff key' key).0 e))
    | inr e ↦ rw (==_refl id, e) refl
  ]

  wrong_keeps :
      (cached : Option Answer) (wrong : Bool) (id key key' : ℕ) (s : Server)
      → key' ≢ key
      → let r =
          (answer_or py retry_after cached s (
            if wrong then (invalid_dsn, s) else (
              invalid_dsn,
              set_dsn_block id key (letter_v ∷ []) (record s { lookups = suc s.lookups }),
            ))).1 in
        (r.block id ≡ s.block id) × (r.dsn_block id key' ≡ s.dsn_block id key')
  wrong_keeps none true id key key' s ne = (refl, refl)
  wrong_keeps none false id key key' s ne = (refl, other_key id key key' _ _ ne)
  wrong_keeps (some a) wrong id key key' s ne = (refl, refl)

  wrong_first :
      (rows : ℕ → ℕ → Option Project) (id key key' : ℕ) (draws : Draws) (s : Server)
      → rows id key ≡ none
      → key' ≢ key
      → let s' = (get_project py retry_after rows id key draws s).1 in
        (s'.block id ≡ s.block id) × (s'.dsn_block id key' ≡ s.dsn_block id key')
  unfolding get_project after_lookup
  wrong_first rows id key key' draws s missing ne = rw missing (
      wrong_keeps (cached_answer py retry_after draws (s.block id)) (is_v (s.dsn_block id key)) id
        key key' s ne)

  -- After a request with a key that the project does not have, a request for the project with another
  -- key gets the answer that it would have got before.
  pub wrong_key_isolated :
      (rows : ℕ → ℕ → Option Project) (id key key' : ℕ) (first second : Draws) (s : Server)
      → rows id key ≡ none
      → key' ≢ key
      → let s' = (get_project py retry_after rows id key first s).1 in
        (get_project py retry_after rows id key' second s').0
        ≡ (get_project py retry_after rows id key' second s).0
  wrong_key_isolated rows id key key' first second s missing ne =
      let (same, same') = wrong_first rows id key key' first s missing ne in
      answer_same rows id key' second _ s same same'
