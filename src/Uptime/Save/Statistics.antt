-- ===== src/Uptime/Save/Statistics.antt =====
-- The hourly statistics count each result of a batch once, under its organization.
use fork_glitchtip_glitchtip.Common.{
  ℕ, ◌+◌, ◌≤◌, List, [], ◌∷◌, leb, ◌==◌, if◌then◌else◌, arith, Bool-cases, inl, inr,
}
use fork_glitchtip_glitchtip.Uptime.Monitor.{Monitor}
use fork_glitchtip_glitchtip.Uptime.Save.{insert_row, sort_rows}

-- what the rows count for an organization
abbrev pub tally : ℕ → List (ℕ × ℕ) → ℕ
tally org [] = 0
tally org ((k, n) ∷ rows) = (if k == org then n else 0) + tally org rows

-- how often the organization occurs
abbrev pub occurrences : ℕ → List ℕ → ℕ
occurrences org [] = 0
occurrences org (k ∷ ks) = (if k == org then 1 else 0) + occurrences org ks

-- The rows that are upserted are sorted by organization, so that concurrent batches lock them in
-- one order.
abbrev pub Sorted : ℕ → List (ℕ × ℕ) → Type 0
Sorted low [] = Unit
Sorted low ((k, n) ∷ rows) = (low ≤ k) × Sorted k rows

insert_row-Sorted :
    (low k n : ℕ) (rows : List (ℕ × ℕ))
    → low ≤ k
    → Sorted low rows
    → Sorted low (insert_row (k, n) rows)
unfolding insert_row
insert_row-Sorted low k n [] h s = (h, tt)
insert_row-Sorted low k n ((j, m) ∷ rows) h (hj, s) = elim (Bool-cases (leb k j)) [
  | inl before ↦ rw before (h, (ground arith, s))
  | inr behind ↦ rw behind (hj, insert_row-Sorted j k n rows (ground arith) s)
]

pub sort_rows-Sorted : (rows : List (ℕ × ℕ)) → Sorted 0 (sort_rows rows)
unfolding sort_rows
sort_rows-Sorted [] = tt
sort_rows-Sorted ((k, n) ∷ rows) =
    insert_row-Sorted 0 k n (sort_rows rows) (omega arith) (sort_rows-Sorted rows)
