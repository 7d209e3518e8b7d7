-- ===== src/Spans/Samples.antt =====
-- A date with its chunks, its runs, and a histogram, and the theorems about spans at them.
use fork_glitchtip_glitchtip.Common.{
  ℕ, zero, suc, ◌+◌, List, ◌≡◌, true, false, none, some, [], ◌∷◌, refl, arith, inl, inr,
}
use fork_glitchtip_glitchtip.Spans.Compaction.{Hour, Day, Luck, Run, day_over, compact_org_date}
use fork_glitchtip_glitchtip.Spans.Compaction.Conserve.{day_spans, compact_keeps_spans}
use fork_glitchtip_glitchtip.Spans.Compaction.Loss.{saturated_run_loses_day}

-- an hour that is sealed, and one whose spans are still in chunks
abbrev first_hour : Hour
first_hour = record { chunks = []; sealed = some (1 ∷ 2 ∷ []); rollup = none }

abbrev second_hour : Hour
second_hour = record { chunks = (3 ∷ []) ∷ (4 ∷ 5 ∷ []) ∷ []; sealed = none; rollup = none }

abbrev date : Day
date = record { hours = first_hour ∷ second_hour ∷ []; raw_day = none; rollup_day = none }

abbrev late_date : Day
late_date = record date { hours = second_hour ∷ second_hour ∷ [] }

abbrev lucky : Luck
lucky = record { recovers = true; copies = true; rolls_up = true }

abbrev refused : Luck
refused = record lucky { copies = false }

-- the day after, beyond the grace
abbrev run : Run
run = record { now = 90000; lucks = lucky ∷ lucky ∷ []; raw_slot = true; rollup_slot = true }

abbrev saturated : Run
saturated = record run { lucks = refused ∷ refused ∷ [] }

compact_keeps_spans_example : day_spans (compact_org_date 0 run date) ≡ day_spans date
compact_keeps_spans_example =
    compact_keeps_spans 0 run date (omega arith) refl (inr refl, (inl refl, tt)) (refl, (refl, tt))

saturated_run_loses_day_example : day_spans (compact_org_date 0 saturated late_date) ≡ []
unfolding day_over
saturated_run_loses_day_example =
    saturated_run_loses_day 0 saturated late_date refl refl (refl, (refl, tt)) (refl, (refl, tt))

-- fifty buckets, of which two have counts
abbrev zeros : ℕ → List ℕ
zeros zero = []
zeros (suc n) = 0 ∷ zeros n

abbrev buckets : List ℕ
buckets = 3 ∷ 7 ∷ zeros 48

-- the boundaries 1, 2, …
abbrev steps : ℕ → ℕ → List ℕ
steps from zero = []
steps from (suc n) = from ∷ steps (from + 1) n

abbrev durations : List ℕ
durations = 2 ∷ 60 ∷ []
