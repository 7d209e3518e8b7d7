-- ===== src/Spans/Compaction/Conserve.antt =====
-- A run whose copies find a slot keeps every span.
use mathlib.Core.List.{append-nil}
use fork_glitchtip_glitchtip.Common.{
  ℕ, ◌+◌, ◌*◌, ◌≡◌, ◌≤◌, ◌<◌, Bool, true, false, not, ◌&&◌, ◌||◌, Option, none, some, List, [], ◌∷◌,
  ◌++◌, length, any, All, refl, arith, Bool-cases, inl, inr, ap, ap₂, lt→leb_false, ltb→lt, ◌∙◌,
  ◌⊎◌,
}
use fork_glitchtip_glitchtip.Spans.Compaction.{
  Hour, Day, Luck, Run, hour_seconds, seal_grace, flatten, spans, is_file, recover, still_open,
  seal_chunks, has_chunks, seal_hour, seal_hours, sealed_spans, clear_raw, clear_rollup, roll_raw,
  roll_rollup, day_over, compact_org_date,
}

-- the raw spans of an hour, and of a date, in the order of the hours
abbrev pub hour_spans : Hour → List ℕ
hour_spans h = spans h.sealed ++ flatten h.chunks

abbrev pub hours_spans : List Hour → List ℕ
hours_spans [] = []
hours_spans (h ∷ hs) = hour_spans h ++ hours_spans hs

abbrev pub day_spans : Day → List ℕ
day_spans d = spans d.raw_day ++ hours_spans d.hours

-- No chunk came late, for an hour that is sealed already.
abbrev pub NoLate : List Hour → Type 0
NoLate = All (λ h. (h.sealed ≡ none) ⊎ (h.chunks ≡ []))

-- Every hour is given its outcomes, and its copy finds a slot.
abbrev pub AllCopy : List Luck → List Hour → Type 0
AllCopy ls [] = Unit
AllCopy [] (h ∷ hs) = ⊥
AllCopy (l ∷ ls) (h ∷ hs) = (l.copies ≡ true) × AllCopy ls hs

pub hour_spans-recover :
    (l : Luck) (h : Hour) → ((recover l h).sealed ≡ h.sealed) × ((recover l h).chunks ≡ h.chunks)
unfolding recover
hour_spans-recover l h = elim (Bool-cases (is_file h.sealed && not (is_file h.rollup))) [
  | inl missing ↦ rw missing (refl, refl)
  | inr there ↦ rw there (refl, refl)
]

-- an hour that is not sealed keeps its spans
seal_chunks_spans :
    (l : Luck) (h : Hour)
    → l.copies ≡ true
    → h.sealed ≡ none
    → hour_spans (seal_chunks l h) ≡ hour_spans h
unfolding seal_chunks
seal_chunks_spans l h ok unsealed = rw (unsealed, ok) (append-nil (flatten h.chunks))

seal_hour_spans :
    (now start : ℕ) (l : Luck) (h : Hour)
    → l.copies ≡ true
    → (h.sealed ≡ none) ⊎ (h.chunks ≡ [])
    → hour_spans (seal_hour now start l h) ≡ hour_spans h
unfolding seal_hour
seal_hour_spans now start l h ok (inr none_left) = rw none_left
seal_hour_spans now start l h ok (inl unsealed) =
    elim (Bool-cases (not (has_chunks h.chunks) || still_open now start)) [
      | inl skip ↦ rw skip
      | inr due ↦ rw due (seal_chunks_spans l h ok unsealed)
    ]

seal_hours_spans :
    (now start : ℕ) (ls : List Luck) (hs : List Hour)
    → AllCopy ls hs
    → NoLate hs
    → hours_spans (seal_hours now start ls hs) ≡ hours_spans hs
unfolding seal_hours
seal_hours_spans now start [] hs a n = refl
seal_hours_spans now start (l ∷ ls) [] a n = refl
seal_hours_spans now start (l ∷ ls) (h ∷ hs) (ok, a) (fresh, n) =
    let (same_file, same_chunks) = hour_spans-recover l h in
    ap₂ ◌++◌
      (seal_hour_spans now start l (recover l h) ok (rw (same_file, same_chunks) fresh)
        ∙ ap₂ (λ (f : Option (List ℕ)) (c : List (List ℕ)). spans f ++ flatten c) same_file
            same_chunks)
      (seal_hours_spans now (start + hour_seconds) ls hs a n)

-- After its last hour is due, a date has no chunk left.
abbrev NoChunks : List Hour → Type 0
NoChunks = All (λ h. h.chunks ≡ [])

seal_hour-chunks :
    (now start : ℕ) (l : Luck) (h : Hour)
    → l.copies ≡ true
    → still_open now start ≡ false
    → (seal_hour now start l h).chunks ≡ []
unfolding seal_hour seal_chunks
seal_hour-chunks now start l h ok due = ground arith

-- the hours from `start` all end before the day is over
abbrev EndsBefore : ℕ → ℕ → List Hour → Type 0
EndsBefore now start hs = start + length hs * hour_seconds + seal_grace < now

due_hour :
    (now start : ℕ) (h : Hour) (hs : List Hour)
    → EndsBefore now start (h ∷ hs)
    → still_open now start ≡ false
unfolding still_open
due_hour now start h hs e = lt→leb_false now (start + hour_seconds + seal_grace) (omega arith)

seal_hours-NoChunks :
    (now start : ℕ) (ls : List Luck) (hs : List Hour)
    → AllCopy ls hs
    → EndsBefore now start hs
    → NoChunks (seal_hours now start ls hs)
unfolding seal_hours
seal_hours-NoChunks now start [] [] a e = tt
seal_hours-NoChunks now start [] (h ∷ hs) a e = elim a [ ]
seal_hours-NoChunks now start (l ∷ ls) [] a e = tt
seal_hours-NoChunks now start (l ∷ ls) (h ∷ hs) (ok, a) e = (
  seal_hour-chunks now start l (recover l h) ok (due_hour now start h hs e),
  seal_hours-NoChunks now (start + hour_seconds) ls hs a (omega arith),
)

pub cleared_spans : (hs : List Hour) → hours_spans (clear_raw hs) ≡ []
cleared_spans [] = refl
cleared_spans (h ∷ hs) = cleared_spans hs

sealed_of_NoChunks : (hs : List Hour) → NoChunks hs → hours_spans hs ≡ sealed_spans hs
sealed_of_NoChunks [] n = refl
sealed_of_NoChunks (h ∷ hs) (none_left, n) = rw (none_left, append-nil, sealed_of_NoChunks hs n)

no_file : (f : Option (List ℕ)) → is_file f ≡ false → spans f ≡ []
no_file none e = refl
no_file (some xs) e = ground arith

pub nothing_sealed :
    (hs : List Hour) → any (λ h. is_file h.sealed) hs ≡ false → sealed_spans hs ≡ []
nothing_sealed [] e = refl
nothing_sealed (h ∷ hs) e = elim (Bool-cases (is_file h.sealed)) [
  | inl there ↦ ground arith
  | inr absent ↦ rw (no_file h.sealed absent) (nothing_sealed hs (ground arith))
]

roll_raw_spans :
    (slot : Bool) (d : Day)
    → d.raw_day ≡ none
    → NoChunks d.hours
    → day_spans (roll_raw slot d) ≡ day_spans d
unfolding roll_raw
roll_raw_spans slot d absent n = elim (Bool-cases (any (λ h. is_file h.sealed) d.hours)) [
  | inr nothing ↦
      rw (
        absent,
        nothing,
        cleared_spans,
        sealed_of_NoChunks d.hours n,
        nothing_sealed d.hours nothing,
      )
  | inl hours ↦ elim (Bool-cases slot) [
    | inl free ↦ rw (absent, hours, free, cleared_spans, append-nil, sealed_of_NoChunks d.hours n)
    | inr taken ↦ rw (absent, hours, taken)
  ]
]

rollup_cleared : (hs : List Hour) → hours_spans (clear_rollup hs) ≡ hours_spans hs
rollup_cleared [] = refl
rollup_cleared (h ∷ hs) = ap (λ (t : List ℕ). hour_spans h ++ t) (rollup_cleared hs)

pub roll_rollup_spans : (slot : Bool) (d : Day) → day_spans (roll_rollup slot d) ≡ day_spans d
unfolding roll_rollup
roll_rollup_spans slot d =
    elim (Bool-cases (is_file d.rollup_day || not (any (λ h. is_file h.rollup) d.hours))) [
      | inl clear ↦ rw (clear, rollup_cleared d.hours)
      | inr roll ↦ elim (Bool-cases slot) [
        | inl free ↦ rw (roll, free, rollup_cleared d.hours)
        | inr taken ↦ rw (roll, taken)
      ]
    ]

-- A run over a date of 24 hours at most whose hour copies all find a slot keeps the raw spans, each
-- as often as before and in the order of the hours, whether or not the day is over, the day's own
-- copies find slots and the rollups are written, if the day was not rolled before and no chunk came
-- late for a sealed hour.
pub compact_keeps_spans :
    (day_start : ℕ) (run : Run) (d : Day)
    → length d.hours ≤ 24
    → d.raw_day ≡ none
    → NoLate d.hours
    → AllCopy run.lucks d.hours
    → day_spans (compact_org_date day_start run d) ≡ day_spans d
unfolding compact_org_date
compact_keeps_spans day_start run d few absent fresh ok =
    let hours = seal_hours run.now day_start run.lucks d.hours in
    let kept = seal_hours_spans run.now day_start run.lucks d.hours ok fresh in
    let same = ap (λ (t : List ℕ). spans d.raw_day ++ t) kept in
    elim (Bool-cases (day_over run.now day_start)) [
      | inr going ↦ rw going same
      | inl over ↦ rw over (
          roll_rollup_spans run.rollup_slot _
          ∙ roll_raw_spans run.raw_slot (record d { hours = hours }) absent
              (seal_hours-NoChunks run.now day_start run.lucks d.hours ok (
                unfold day_over in
                omega (arith, ltb→lt (day_start + 24 * hour_seconds + seal_grace) run.now over)))
          ∙ same)
    ]
