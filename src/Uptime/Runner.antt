-- ===== src/Uptime/Runner.antt =====
-- apps/uptime/tasks.py, `run_checks`: probe results are buffered and saved in batches. Which tasks
-- are done after a wait, and what the clock reads, is the environment's choice: a round each.
pub mod Batches
use fork_glitchtip_glitchtip.Common.{
  ℕ, zero, ◌+◌, ◌-◌, ◌≡◌, Bool, true, false, not, ◌&&◌, ◌||◌, Option, none, some, List, [], ◌∷◌,
  ◌++◌, leb, if◌then◌else◌, length,
}
use fork_glitchtip_glitchtip.Uptime.Monitor.{Monitor, MonitorType, heartbeat}

-- `asyncio.wait` returned: the tasks that are done, each with its result, or `none` where it
-- raised; the monotonic clock (in milliseconds) at the flush test, and after a flush
pub record Round : Type 0 where
  pub done : List (Option Monitor)
  pub clock : ℕ
  pub flushed_at : ℕ

pub record Buffering : Type 0 where
  pub buffer : List Monitor
  pub last_flush : ℕ
  pub saved : List (List Monitor)  -- the batches given to `save_monitor_checks`, in order

abbrev pub batch_size : ℕ
batch_size = 100

abbrev pub flush_interval : ℕ
flush_interval = 1000

abbrev pub is_heartbeat : MonitorType → Bool
is_heartbeat heartbeat = true
is_heartbeat _ = false

-- heartbeats that are up are not saved
pub is_recorded : Monitor → Bool
is_recorded r = not (is_heartbeat r.monitor_type) || not r.is_up

-- the loop over the tasks that are done
pub collect : List Monitor → List (Option Monitor) → List Monitor
collect buffer [] = buffer
collect buffer (none ∷ done) = collect buffer done
collect buffer (some r ∷ done) = collect (if is_recorded r then buffer ++ r ∷ [] else buffer) done

abbrev pub non_empty : List Monitor → Bool
non_empty [] = false
non_empty (r ∷ rs) = true

pub flush_due : List Monitor → ℕ → ℕ → Bool
flush_due buffer clock last_flush =
    leb batch_size (length buffer) || (non_empty buffer && leb (flush_interval + last_flush) clock)

-- one turn of the `while`
pub round : Buffering → Round → Buffering
round s r =
    let buffer = collect s.buffer r.done in
    if flush_due buffer r.clock s.last_flush
    then record { buffer = []; last_flush = r.flushed_at; saved = s.saved ++ buffer ∷ [] }
    else record s { buffer = buffer }

pub rounds : Buffering → List Round → Buffering
rounds s [] = s
rounds s (r ∷ rs) = rounds (round s r) rs

-- the final flush
pub finish : Buffering → List (List Monitor)
finish s = if non_empty s.buffer then s.saved ++ s.buffer ∷ [] else s.saved

-- `run_checks`, from the clock at its start
pub run_checks : ℕ → List Round → List (List Monitor)
run_checks clock rs = finish (rounds (record { buffer = []; last_flush = clock; saved = [] }) rs)
