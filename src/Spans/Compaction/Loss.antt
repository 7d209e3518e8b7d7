-- ===== src/Spans/Compaction/Loss.antt =====
-- What a run loses on a day that is over, where a copy finds no slot or a rollup is not written.
use fork_glitchtip_glitchtip.Common.{
  ℕ, ◌+◌, ◌≡◌, true, false, not, ◌||◌, none, List, [], ◌∷◌, any, All, refl, Bool-cases, inl, inr,
  ◌∙◌,
}
use fork_glitchtip_glitchtip.Spans.Compaction.{
  Hour, Day, Luck, Run, hour_seconds, is_file, recover, still_open, seal_chunks, has_chunks,
  seal_hour, seal_hours, sealed_spans, roll_raw, day_over, compact_org_date,
}
use mathlib.Core.List.{append-nil}
use fork_glitchtip_glitchtip.Spans.Compaction.Conserve.{
  day_spans, hour_spans-recover, roll_rollup_spans, cleared_spans, nothing_sealed,
}

roll_raw_keeps_sealed :
    (d : Day) → d.raw_day ≡ none → day_spans (roll_raw true d) ≡ sealed_spans d.hours
unfolding roll_raw
roll_raw_keeps_sealed d absent = elim (Bool-cases (any (λ h. is_file h.sealed) d.hours)) [
  | inl hours ↦ rw (absent, hours, cleared_spans, append-nil)
  | inr nothing ↦ rw (absent, nothing, cleared_spans, nothing_sealed d.hours nothing)
]

-- On a day that is over and has no day file, a run whose day copy finds a slot leaves the spans of
-- the hours that are sealed by then, and no others: the chunks of an hour whose own copy found no
-- slot in that run are gone.
rolled_day_spans :
    (day_start : ℕ) (run : Run) (d : Day)
    → d.raw_day ≡ none
    → day_over run.now day_start ≡ true
    → run.raw_slot ≡ true
    → day_spans (compact_org_date day_start run d)
      ≡ sealed_spans (seal_hours run.now day_start run.lucks d.hours)
unfolding compact_org_date
rolled_day_spans day_start run d absent over slot =
    let hours = seal_hours run.now day_start run.lucks d.hours in
    rw (over, slot)
      (roll_rollup_spans run.rollup_slot _
        ∙ roll_raw_keeps_sealed (record d { hours = hours }) absent)

-- no copy of an hour finds a slot
abbrev pub NoCopy : List Luck → Type 0
NoCopy = All (λ l. l.copies ≡ false)

-- no hour has an hour file
abbrev pub Unsealed : List Hour → Type 0
Unsealed = All (λ h. h.sealed ≡ none)

seal_hour-stays :
    (now start : ℕ) (l : Luck) (h : Hour)
    → l.copies ≡ false
    → h.sealed ≡ none
    → (seal_hour now start l h).sealed ≡ none
unfolding seal_hour seal_chunks
seal_hour-stays now start l h refused unsealed =
    elim (Bool-cases (not (has_chunks h.chunks) || still_open now start)) [
      | inl skip ↦ rw skip unsealed
      | inr due ↦ rw (due, unsealed, refused) refl
    ]

seal_hours-Unsealed :
    (now start : ℕ) (ls : List Luck) (hs : List Hour)
    → NoCopy ls
    → Unsealed hs
    → Unsealed (seal_hours now start ls hs)
unfolding seal_hours
seal_hours-Unsealed now start [] hs r u = u
seal_hours-Unsealed now start (l ∷ ls) [] r u = tt
seal_hours-Unsealed now start (l ∷ ls) (h ∷ hs) (refused, r) (unsealed, u) = (
  seal_hour-stays now start l (recover l h) refused ((hour_spans-recover l h).0 ∙ unsealed),
  seal_hours-Unsealed now (start + hour_seconds) ls hs r u,
)

none_sealed : (hs : List Hour) → Unsealed hs → any (λ h. is_file h.sealed) hs ≡ false
none_sealed [] u = refl
none_sealed (h ∷ hs) (unsealed, u) = rw unsealed (none_sealed hs u)

-- On a day that is over, where no hour is sealed and no copy of an hour finds a slot, the run
-- deletes every span of the day, whether or not the day's copy would find a slot.
pub saturated_run_loses_day :
    (day_start : ℕ) (run : Run) (d : Day)
    → d.raw_day ≡ none
    → day_over run.now day_start ≡ true
    → Unsealed d.hours
    → NoCopy run.lucks
    → day_spans (compact_org_date day_start run d) ≡ []
unfolding compact_org_date roll_raw
saturated_run_loses_day day_start run d absent over unsealed refused =
    let hours = seal_hours run.now day_start run.lucks d.hours in
    let nothing =
      none_sealed hours
        (seal_hours-Unsealed run.now day_start run.lucks d.hours refused unsealed) in
    rw (over, roll_rollup_spans, absent, nothing) (cleared_spans hours)
