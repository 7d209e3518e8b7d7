-- ===== src/Uptime/Debounce.antt =====
-- apps/uptime/tasks.py, `_next_state`: the official state of a monitor after one check.
pub mod History
pub mod Notices
use fork_glitchtip_glitchtip.Common.{
  ℕ, zero, ◌+◌, Bool, true, false, not, ◌&&◌, ◌||◌, Option, none, some, leb, if◌then◌else◌, min,
}
use fork_glitchtip_glitchtip.Uptime.Monitor.{Monitor}

-- `value or default`, for a number that may be missing
unfoldable pub or_default : Option ℕ → ℕ → ℕ
or_default none d = d
or_default (some zero) d = d
or_default (some n) d = n

abbrev pub known {ℓ} : {A : Type ℓ} → Option A → Bool
known none = false
known (some a) = true

-- `==` on states that may be missing
abbrev pub same_state : Option Bool → Option Bool → Bool
same_state none none = true
same_state (some true) (some true) = true
same_state (some false) (some false) = true
same_state _ _ = false

-- the four results of `_next_state`
pub record Next : Type 0 where
  pub new_state : Option Bool
  pub consecutive_down : ℕ
  pub is_change : Bool
  pub state_changed : Bool

unfoldable pub threshold_of : Monitor → ℕ
threshold_of result = or_default result.confirmation_threshold 1

unfoldable pub next_state : Monitor → Next
unfolding or_default threshold_of
next_state result =
    let prev_state = result.latest_is_up in
    let threshold = threshold_of result in
    let failures = min (or_default result.cached_consecutive_down 0 + 1) threshold in
    let consecutive_down = if result.is_up then 0 else failures in
    let new_state =
      if result.is_up
      then some true
      else if leb threshold failures
      then some false
      else prev_state in
    let state_changed = known new_state && not (same_state new_state prev_state) in
    record {
      new_state = new_state;
      consecutive_down = consecutive_down;
      is_change = known new_state && (state_changed || not (known result.last_change));
      state_changed = state_changed;
    }

-- the cached fields that `save_monitor_checks` writes to the monitor, for a check at `now`
unfoldable pub apply_check : ℕ → Monitor → Monitor
unfolding next_state
apply_check now result =
    let next = next_state result in
    record result {
      latest_is_up = next.new_state;
      last_change = if next.is_change then some now else result.last_change;
      cached_consecutive_down = some next.consecutive_down;
    }

-- the next check of a monitor has the raw result `up`
unfoldable pub observe : ℕ → Bool → Monitor → Monitor
unfolding apply_check
observe now up m = apply_check now (record m { is_up = up })

-- the notification that the check enqueues: whether the monitor went down
unfoldable pub notice : Bool → Monitor → Option Bool
unfolding next_state
notice up m =
    let next = next_state (record m { is_up = up }) in
    if next.state_changed then Option.some (not (same_state next.new_state (some true))) else none
