-- ===== src/Uptime/Dispatch/Window.antt =====
-- Each monitor is due once in every window of as many ticks as its interval.
use native.Mathlib.Nat.{
  mod-lt, div-add-mod, mul-add-mod_self_left, mod_self, add-mod-mod, mod-add-mod, mod-eq_of_lt,
}
use native.Mathlib.Decide.{dec_le}
use fork_glitchtip_glitchtip.Common.{
  ℕ, zero, suc, ◌+◌, ◌-◌, ◌*◌, ◌/◌, ◌%◌, ◌≡◌, ◌≤◌, ◌<◌, true, false, not, ◌&&◌, Option, some, List,
  arith, sym, ap, ◌∙◌, ◌↔◌, lt→ltb, lt→leb_false,
}
use fork_glitchtip_glitchtip.Uptime.Runner.{is_heartbeat}
use fork_glitchtip_glitchtip.Uptime.Fetch.{is_empty}
use fork_glitchtip_glitchtip.Uptime.Dispatch.{
  Scheduled, is_due, next_tick, store_tick, dispatch_checks, tick_expire,
}

-- the offset at which the window of `d` numbers from `a` holds a multiple of `d`
abbrev offset : ℕ → ℕ → ℕ
offset a d = (d - a % d) % d

offset_multiple : (a d : ℕ) → 0 < d → (a + offset a d) % d ≡ 0
offset_multiple a d pos =
    let whole : a + (d - a % d) ≡ d * (a / d) + d = omega (arith, div-add-mod a d, mod-lt a pos) in
    rw (add-mod-mod, whole, mul-add-mod_self_left) (mod_self d)

-- two multiples of `d` that are less than `d` apart are one
same_multiple : (a i j d : ℕ) → i ≤ j → j < i + d → (a + i) % d ≡ 0 → (a + j) % d ≡ 0 → i ≡ j
same_multiple a i j d le near first second =
    let parts : a + j ≡ (a + i) + (j - i) = omega arith in
    let back = mod-add-mod (a + i) d (j - i) in
    let low : (j - i) % d ≡ j - i = mod-eq_of_lt (omega arith) in
    let start : (a + i) % d + (j - i) ≡ j - i = omega arith in
    let gap : (j - i) % d ≡ 0 = rw (← start) (back ∙ rw (← parts) second) in omega (arith, gap, low)

-- The organization is not fully throttled, and the monitor has a URL or is a heartbeat.
abbrev pub IsEligible : Scheduled → Type 0
IsEligible m =
    (m.org_throttle < 100) × ((is_empty m.url && not (is_heartbeat m.monitor_type)) ≡ false)

due_iff :
    (tick : ℕ) (m : Scheduled)
    → IsEligible m
    → (is_due tick m ≡ true) ↔ ((tick + m.id) % m.interval ≡ 0)
unfolding is_due
due_iff tick m (free, real) = (λ h. ground arith, λ h. rw (real, h, lt→ltb m.org_throttle 100 free))

-- A monitor with an interval, whose organization is not fully throttled and which has a URL or is
-- a heartbeat, is due at exactly one of any `interval` ticks in a row.
pub due_once :
    (tick : ℕ) (m : Scheduled)
    → 0 < m.interval
    → IsEligible m
    → (k : ℕ) × (k < m.interval)
      × (is_due (tick + k) m ≡ true)
      × ((j : ℕ) → j < m.interval → is_due (tick + j) m ≡ true → j ≡ k)
due_once tick m pos ok =
    let a = tick + m.id in
    let k = offset a m.interval in
    let swap : (n : ℕ) → tick + n + m.id ≡ a + n = λ n. omega arith in
    let small : k < m.interval = mod-lt (m.interval - a % m.interval) pos in
    let due : is_due (tick + k) m ≡ true =
      (due_iff (tick + k) m ok).1 (rw (swap k) (offset_multiple a m.interval pos)) in
    (
      k,
      small,
      due,
      λ j near h.
          let multiple : (a + j) % m.interval ≡ 0 = rw (← swap j) ((due_iff (tick + j) m ok).0 h) in
          elim (dec_le j k) [
            | yes low ↦
                same_multiple a j k m.interval low (omega arith) multiple
                  (offset_multiple a m.interval pos)
            | no high ↦ sym (
                same_multiple a k j m.interval (omega arith) (omega arith)
                  (offset_multiple a m.interval pos) multiple)
          ],
    )

-- the tick counter after `n` dispatches
pub ticks : ℕ → Option ℕ → List Scheduled → Option ℕ
ticks zero cache monitors = cache
ticks (suc n) cache monitors = ticks n (dispatch_checks cache monitors).1 monitors

-- Below its expiry the counter makes every tick in turn: after `n` dispatches from the counter `c`
-- it stands at `c + n`.
pub ticks_in_turn :
    (n c : ℕ) (monitors : List Scheduled)
    → c + n < tick_expire
    → ticks n (some c) monitors ≡ some (c + n)
unfolding ticks dispatch_checks next_tick store_tick
ticks_in_turn zero c monitors h = ap some (omega arith)
ticks_in_turn (suc n) c monitors h =
    rw (lt→leb_false tick_expire (c + 1) (omega arith))
      (ticks_in_turn n (c + 1) monitors (omega arith) ∙ ap some (omega arith))
