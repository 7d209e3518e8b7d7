-- ===== src/Spans/Compaction.antt =====
-- apps/performance/promotion.py: `_compact_org_date` and `_roll_sealed_day`, for one organization
-- and one date. A Parquet file is the list of its spans; a directory that holds no chunk is taken
-- as absent. Whether a copy finds a free DuckDB slot and whether a rollup is written are inputs;
-- deletions succeed.
pub mod Conserve
pub mod Loss
use fork_glitchtip_glitchtip.Common.{
  ℕ, zero, suc, ◌+◌, ◌*◌, ◌≡◌, ◌≤◌, ◌<◌, Bool, true, false, not, ◌&&◌, ◌||◌, Option, none, some,
  List, [], ◌∷◌, ◌++◌, leb, ltb, if◌then◌else◌, length, any,
}

-- What the tree holds of one hour: `{date}/{HH}/chunk_*.parquet`, `{date}/{HH}.parquet`, and the
-- hour file of the rollup tree, which stands for the spans that it aggregates.
pub record Hour : Type 0 where
  pub chunks : List (List ℕ)
  pub sealed : Option (List ℕ)
  pub rollup : Option (List ℕ)

-- the hours 0, 1, … of the date, and the day files of the two trees
pub record Day : Type 0 where
  pub hours : List Hour
  pub raw_day : Option (List ℕ)
  pub rollup_day : Option (List ℕ)

-- what happens to an hour in one run: whether its recovery rollup, its copy and its rollup succeed
pub record Luck : Type 0 where
  pub recovers : Bool
  pub copies : Bool
  pub rolls_up : Bool

abbrev pub hour_seconds : ℕ
hour_seconds = 3600

-- SEAL_GRACE
abbrev pub seal_grace : ℕ
seal_grace = 1200

abbrev pub flatten : List (List ℕ) → List ℕ
flatten [] = []
flatten (c ∷ cs) = c ++ flatten cs

abbrev pub spans : Option (List ℕ) → List ℕ
spans none = []
spans (some xs) = xs

abbrev pub is_file : Option (List ℕ) → Bool
is_file none = false
is_file (some xs) = true

-- `_write_hour_rollup`: no file for an hour file without rows
pub write_hour_rollup : Bool → List ℕ → Option (List ℕ)
write_hour_rollup ok [] = none
write_hour_rollup true (x ∷ xs) = some (x ∷ xs)
write_hour_rollup false (x ∷ xs) = none

-- the recovery loop, for an hour
pub recover : Luck → Hour → Hour
recover luck h =
    if is_file h.sealed && not (is_file h.rollup)
    then record h { rollup = write_hour_rollup luck.recovers (spans h.sealed) }
    else h

-- `now <= hour_start + timedelta(hours=1) + SEAL_GRACE`
pub still_open : ℕ → ℕ → Bool
still_open now hour_start = leb now (hour_start + hour_seconds + seal_grace)

-- the loop over the chunk directories, for an hour that has one
pub seal_chunks : Luck → Hour → Hour
seal_chunks luck h =
    if is_file h.sealed
    then record h { chunks = [] }
    else if luck.copies
    then record {
      chunks = [];
      sealed = some (flatten h.chunks);
      rollup = write_hour_rollup luck.rolls_up (flatten h.chunks);
    }
    else h

abbrev pub has_chunks : List (List ℕ) → Bool
has_chunks [] = false
has_chunks (c ∷ cs) = true

pub seal_hour : ℕ → ℕ → Luck → Hour → Hour
seal_hour now hour_start luck h =
    if not (has_chunks h.chunks) || still_open now hour_start then h else seal_chunks luck h

-- both loops over the hours from `hour_start`; the hours do not depend on one another
pub seal_hours : ℕ → ℕ → List Luck → List Hour → List Hour
seal_hours now hour_start [] hours = hours
seal_hours now hour_start (l ∷ ls) [] = []
seal_hours now hour_start (l ∷ ls) (h ∷ hs) =
    seal_hour now hour_start l (recover l h) ∷ seal_hours now (hour_start + hour_seconds) ls hs

-- the spans of the hour files, and of the hour files of the rollup tree
abbrev pub sealed_spans : List Hour → List ℕ
sealed_spans [] = []
sealed_spans (h ∷ hs) = spans h.sealed ++ sealed_spans hs

abbrev pub rollup_spans : List Hour → List ℕ
rollup_spans [] = []
rollup_spans (h ∷ hs) = spans h.rollup ++ rollup_spans hs

-- `_delete_subtree` on the date of the raw tree, and of the rollup tree
abbrev pub clear_raw : List Hour → List Hour
clear_raw [] = []
clear_raw (h ∷ hs) = record h { chunks = []; sealed = none } ∷ clear_raw hs

abbrev pub clear_rollup : List Hour → List Hour
clear_rollup [] = []
clear_rollup (h ∷ hs) = record h { rollup = none } ∷ clear_rollup hs

-- `_roll_sealed_day` on the raw tree; `slot` tells whether its copy finds a slot
pub roll_raw : Bool → Day → Day
roll_raw slot d =
    if is_file d.raw_day || not (any (λ h. is_file h.sealed) d.hours)
    then record d { hours = clear_raw d.hours }
    else if slot
    then record d { hours = clear_raw d.hours; raw_day = some (sealed_spans d.hours) }
    else d

-- `_roll_sealed_day` on the rollup tree
pub roll_rollup : Bool → Day → Day
roll_rollup slot d =
    if is_file d.rollup_day || not (any (λ h. is_file h.rollup) d.hours)
    then record d { hours = clear_rollup d.hours }
    else if slot
    then record d { hours = clear_rollup d.hours; rollup_day = some (rollup_spans d.hours) }
    else d

-- `now > day_start + timedelta(days=1) + SEAL_GRACE`
unfoldable pub day_over : ℕ → ℕ → Bool
day_over now day_start = ltb (day_start + 24 * hour_seconds + seal_grace) now

-- the outcomes of one run
pub record Run : Type 0 where
  pub now : ℕ
  pub lucks : List Luck
  pub raw_slot : Bool
  pub rollup_slot : Bool

-- `_compact_org_date`
pub compact_org_date : ℕ → Run → Day → Day
compact_org_date day_start run d =
    let sealed = record d { hours = seal_hours run.now day_start run.lucks d.hours } in
    if day_over run.now day_start
    then roll_rollup run.rollup_slot (roll_raw run.raw_slot sealed)
    else sealed
