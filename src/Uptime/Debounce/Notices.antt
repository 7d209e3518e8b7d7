-- ===== src/Uptime/Debounce/Notices.antt =====
-- The notifications of a monitor over a history of checks.
use fork_glitchtip_glitchtip.Common.{
  ℕ, ◌≡◌, inl, inr, Bool, true, false, not, Option, none, some, List, [], ◌∷◌, arith, refl, sym,
  ◌≢◌, ◌∙◌, Option-cases,
}
use fork_glitchtip_glitchtip.Uptime.Monitor.{Monitor}
use fork_glitchtip_glitchtip.Uptime.Debounce.{observe, notice}
use fork_glitchtip_glitchtip.Uptime.Debounce.History.{after}

abbrev enqueue : Option Bool → List Bool → List Bool
enqueue none sent = sent
enqueue (some down) sent = down ∷ sent

-- the notifications of the checks of a history, the latest first: whether the monitor went down
pub notices : Monitor → List (ℕ × Bool) → List Bool
notices m [] = []
notices m ((now, up) ∷ h) = enqueue (notice up (after m h)) (notices m h)

-- the state that the latest notification announced
abbrev pub announced : List Bool → Option Bool
announced [] = none
announced (down ∷ _) = some (not down)

-- each notification says the opposite of the one before it
abbrev pub Alternating : List Bool → Type 0
Alternating [] = Unit
Alternating (down ∷ []) = Unit
Alternating (down ∷ before ∷ rest) = (down ≡ not before) × Alternating (before ∷ rest)

-- a check that notifies announces the new state, and the state was another before
notice_flips :
    (now : ℕ) (up : Bool) (m : Monitor) (down : Bool)
    → notice up m ≡ some down
    → ((observe now up m).latest_is_up ≡ some (not down)) × (m.latest_is_up ≢ some (not down))
unfolding notice observe
notice_flips now true m down h = (ground arith, λ e. ground arith)
notice_flips now false m down h = (ground arith, λ e. ground arith)

-- a check that does not notify keeps the state
no_notice_keeps :
    (now : ℕ) (up : Bool) (m : Monitor)
    → notice up m ≡ none
    → (observe now up m).latest_is_up ≡ m.latest_is_up
unfolding notice observe
no_notice_keeps now true m h = ground arith
no_notice_keeps now false m h = ground arith

opposite : (down before : Bool) → some (not before) ≢ some (not down) → down ≡ not before
opposite true true h = absurd (h refl)
opposite true false h = refl
opposite false true h = refl
opposite false false h = absurd (h refl)

Alternating-cons :
    (down : Bool) (rest : List Bool)
    → announced rest ≢ some (not down)
    → Alternating rest
    → Alternating (down ∷ rest)
Alternating-cons down [] h a = tt
Alternating-cons down (before ∷ rest) h a = (opposite down before h, a)

-- Over any checks of a monitor whose state is not known yet, the notifications alternate between
-- up and down, and the latest of them announced the official state.
pub notices_alternate :
    (m : Monitor) (h : List (ℕ × Bool))
    → m.latest_is_up ≡ none
    → Alternating (notices m h) × (announced (notices m h) ≡ (after m h).latest_is_up)
unfolding notices after
notices_alternate m [] new = (tt, sym new)
notices_alternate m ((now, up) ∷ h) new =
    let (alternating, last) = notices_alternate m h new in
    elim (Option-cases (notice up (after m h))) [
      | inl quiet ↦ rw quiet (alternating, last ∙ sym (no_notice_keeps now up (after m h) quiet))
      | inr (down, sent) ↦
          let (announces, was) = notice_flips now up (after m h) down sent in
          rw sent (
            Alternating-cons down (notices m h) (λ e. was (sym last ∙ e)) alternating,
            sym announces,
          )
    ]
