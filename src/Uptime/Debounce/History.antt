-- ===== src/Uptime/Debounce/History.antt =====
-- The official state against the history of raw results.
use fork_glitchtip_glitchtip.Common.{
  ℕ, suc, ◌<◌, ◌≡◌, Bool, true, false, ◌||◌, Option, none, some, List, [], ◌∷◌, leb, lt→leb_false,
  if◌then◌else◌, min, arith, refl,
}
use fork_glitchtip_glitchtip.Uptime.Monitor.{Monitor}
use fork_glitchtip_glitchtip.Uptime.Debounce.{or_default, threshold_of, observe}

-- A history of raw results, the latest first, each with its time: the official state is what the
-- history says, by an independent reading.
abbrev pub failures_in_row : List (ℕ × Bool) → ℕ
failures_in_row [] = 0
failures_in_row ((_, true) ∷ h) = 0
failures_in_row ((_, false) ∷ h) = suc (failures_in_row h)

abbrev pub ever_up : List (ℕ × Bool) → Bool
ever_up [] = false
ever_up ((_, up) ∷ h) = up || ever_up h

-- down after `threshold` failures in a row, else up if ever up, else not yet known
abbrev pub official_state : ℕ → List (ℕ × Bool) → Option Bool
official_state threshold h =
    if leb threshold (failures_in_row h) then some false else if ever_up h then some true else none

-- the monitor after the checks of a history
unfoldable pub after : Monitor → List (ℕ × Bool) → Monitor
after m [] = m
after m ((now, up) ∷ h) = observe now up (after m h)

pub record IsNew (m : Monitor) : Type 0 where
  pub no_state : m.latest_is_up ≡ none
  pub no_failures : or_default m.cached_consecutive_down 0 ≡ 0

record Tracks (threshold : ℕ) (h : List (ℕ × Bool)) (m : Monitor) : Type 0 where
  same_threshold : threshold_of m ≡ threshold
  state : m.latest_is_up ≡ official_state threshold h
  count : or_default m.cached_consecutive_down 0 ≡ min (failures_in_row h) threshold

threshold_pos : (m : Monitor) → 0 < threshold_of m
unfolding threshold_of or_default
threshold_pos m = ground arith

observe-Tracks :
    (threshold now : ℕ) (up : Bool) (h : List (ℕ × Bool)) (m : Monitor)
    → 0 < threshold
    → Tracks threshold h m
    → Tracks threshold ((now, up) ∷ h) (observe now up m)
unfolding observe threshold_of or_default
observe-Tracks threshold now true h m p t = ground arith
observe-Tracks threshold now false h m p t = ground arith

new-Tracks : (m : Monitor) → IsNew m → Tracks (threshold_of m) [] m
new-Tracks m new = record {
  same_threshold = refl;
  state = rw (lt→leb_false (threshold_of m) 0 (threshold_pos m)) new.no_state;
  count = omega (arith, new.no_failures);
}

after-Tracks : (m : Monitor) (h : List (ℕ × Bool)) → IsNew m → Tracks (threshold_of m) h (after m h)
unfolding after
after-Tracks m [] new = new-Tracks m new
after-Tracks m ((now, up) ∷ h) new =
    observe-Tracks (threshold_of m) now up h (after m h) (threshold_pos m) (after-Tracks m h new)

-- After any checks of a new monitor, its official state is down if at least as many of the latest
-- checks in a row failed as its confirmation threshold says, else up if any check succeeded, else
-- unknown; and the counter holds the failures in a row, capped at the threshold.
pub after_official :
    (m : Monitor) (h : List (ℕ × Bool))
    → IsNew m
    → ((after m h).latest_is_up ≡ official_state (threshold_of m) h)
      × (or_default (after m h).cached_consecutive_down 0
          ≡ min (failures_in_row h) (threshold_of m))
after_official m h new = let t = after-Tracks m h new in (t.state, t.count)
