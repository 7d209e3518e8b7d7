-- ===== src/Uptime/Runner/Batches.antt =====
-- Every recorded result is saved once, in the order of completion, in batches that are not empty.
use mathlib.Core.List.{append-nil, append_assoc}
use fork_glitchtip_glitchtip.Common.{
  ℕ, ◌+◌, ◌≡◌, ◌≤◌, ◌<◌, true, false, Option, none, some, List, [], ◌∷◌, ◌++◌, if◌then◌else◌,
  length, keep, All, All-append, refl, arith, Bool-cases, inl, inr, length-append, ◌∙◌, sym,
}
use fork_glitchtip_glitchtip.Uptime.Monitor.{Monitor}
use fork_glitchtip_glitchtip.Uptime.Runner.{
  Round, Buffering, batch_size, is_recorded, collect, non_empty, flush_due, round, rounds, finish,
  run_checks,
}

-- the results of the tasks that did not raise
abbrev pub results : List (Option Monitor) → List Monitor
results [] = []
results (none ∷ done) = results done
results (some r ∷ done) = r ∷ results done

-- what a run has to save: the recorded results, in the order of completion
abbrev pub recorded_results : List Round → List Monitor
recorded_results [] = []
recorded_results (r ∷ rs) = keep is_recorded (results r.done) ++ recorded_results rs

abbrev pub concat : List (List Monitor) → List Monitor
concat [] = []
concat (b ∷ bs) = b ++ concat bs

concat-append :
    (bs : List (List Monitor)) (b : List Monitor) → concat (bs ++ b ∷ []) ≡ concat bs ++ b
concat-append [] b = append-nil b
concat-append (c ∷ bs) b = rw (concat-append bs b, append_assoc)

collect-eq-append :
    (buffer : List Monitor) (done : List (Option Monitor))
    → collect buffer done ≡ buffer ++ keep is_recorded (results done)
unfolding collect
collect-eq-append buffer [] = sym (append-nil buffer)
collect-eq-append buffer (none ∷ done) = collect-eq-append buffer done
collect-eq-append buffer (some r ∷ done) = elim (Bool-cases (is_recorded r)) [
  | inl kept ↦ rw kept (collect-eq-append (buffer ++ r ∷ []) done ∙ append_assoc buffer (r ∷ []) _)
  | inr dropped ↦ rw dropped (collect-eq-append buffer done)
]

-- what is saved and what is buffered, together
pending : Buffering → List Monitor
pending s = concat s.saved ++ s.buffer

pending-round :
    (s : Buffering) (r : Round)
    → pending (round s r) ≡ pending s ++ keep is_recorded (results r.done)
unfolding pending round
pending-round s r = elim (Bool-cases (flush_due (collect s.buffer r.done) r.clock s.last_flush)) [
  | inl due ↦ rw due (simp (append-nil, concat-append, collect-eq-append, append_assoc))
  | inr wait ↦ rw (wait) (simp (collect-eq-append, append_assoc))
]

pending-rounds :
    (s : Buffering) (rs : List Round) → pending (rounds s rs) ≡ pending s ++ recorded_results rs
unfolding rounds
pending-rounds s [] = sym (append-nil (pending s))
pending-rounds s (r ∷ rs) = pending-rounds (round s r) rs ∙ simp (pending-round, append_assoc)

concat-finish : (s : Buffering) → concat (finish s) ≡ pending s
unfolding finish pending
concat-finish s = last s.buffer
  where
    last :
        (buffer : List Monitor)
        → concat (if non_empty buffer then s.saved ++ buffer ∷ [] else s.saved)
          ≡ concat s.saved ++ buffer
    last [] = sym (append-nil (concat s.saved))
    last (r ∷ rs) = concat-append s.saved (r ∷ rs)

-- However the probes end and whatever the clock reads, the batches that a run saves hold, in the
-- order of completion, each result that is not an up heartbeat, once; a probe that raised leaves
-- nothing.
concat-run_checks :
    (clock : ℕ) (rs : List Round) → concat (run_checks clock rs) ≡ recorded_results rs
unfolding run_checks
concat-run_checks clock rs =
    concat-finish (rounds (record { buffer = []; last_flush = clock; saved = [] }) rs)
    ∙ pending-rounds (record { buffer = []; last_flush = clock; saved = [] }) rs
    ∙ unfold pending in refl

-- A batch that may be saved: it is not empty, and it is below the batch size but for the results
-- of one more round.
abbrev pub IsBatch : ℕ → List Monitor → Type 0
IsBatch most b = (non_empty b ≡ true) × (length b < batch_size + most)

abbrev pub RoundsUpTo : ℕ → List Round → Type 0
RoundsUpTo most = All (λ r. length r.done ≤ most)

length-collect :
    (buffer : List Monitor) (done : List (Option Monitor))
    → length (collect buffer done) ≤ length buffer + length done
unfolding collect
length-collect buffer [] = omega arith
length-collect buffer (none ∷ done) = omega (arith, length-collect buffer done)
length-collect buffer (some r ∷ done) = elim (Bool-cases (is_recorded r)) [
  | inl kept ↦
      rw kept (omega (arith, length-collect (buffer ++ r ∷ []) done, length-append buffer (r ∷ [])))
  | inr dropped ↦ rw dropped (omega (arith, length-collect buffer done))
]

record Batching (most : ℕ) (s : Buffering) : Type 0 where
  small : length s.buffer < batch_size
  batches : All (IsBatch most) s.saved

-- a buffer that is due is not empty, and one that is not is small
due_non_empty :
    (buffer : List Monitor) (clock last : ℕ)
    → flush_due buffer clock last ≡ true
    → non_empty buffer ≡ true
unfolding flush_due
due_non_empty [] clock last h = ground arith
due_non_empty (r ∷ rs) clock last h = refl

wait_small :
    (buffer : List Monitor) (clock last : ℕ)
    → flush_due buffer clock last ≡ false
    → length buffer < batch_size
unfolding flush_due
wait_small buffer clock last h = ground arith

round-Batching :
    (most : ℕ) (s : Buffering) (r : Round)
    → length r.done ≤ most
    → Batching most s
    → Batching most (round s r)
unfolding round
round-Batching most s r few b =
    let buffer = collect s.buffer r.done in
    elim (Bool-cases (flush_due buffer r.clock s.last_flush)) [
      | inl due ↦ rw due (record {
        small = omega arith;
        batches = All-append (IsBatch most) s.saved (buffer ∷ []) b.batches (
          (
            due_non_empty buffer r.clock s.last_flush due,
            omega (arith, length-collect s.buffer r.done, b.small),
          ),
          tt,
        );
      })
      | inr wait ↦
          rw wait
            (record { small = wait_small buffer r.clock s.last_flush wait; batches = b.batches })
    ]

rounds-Batching :
    (most : ℕ) (s : Buffering) (rs : List Round)
    → RoundsUpTo most rs
    → Batching most s
    → Batching most (rounds s rs)
unfolding rounds
rounds-Batching most s [] few b = b
rounds-Batching most s (r ∷ rs) few b =
    rounds-Batching most (round s r) rs few.1 (round-Batching most s r few.0 b)

-- No saved batch is empty, and each is below the batch size plus the number of tasks that one wait
-- may find done.
run_checks-IsBatch :
    (clock most : ℕ) (rs : List Round)
    → RoundsUpTo most rs
    → All (IsBatch most) (run_checks clock rs)
unfolding run_checks finish
run_checks-IsBatch clock most rs few =
    let start : Buffering = record { buffer = []; last_flush = clock; saved = [] } in
    let end = rounds-Batching most start rs few (record { small = omega arith; batches = tt }) in
    elim (Bool-cases (non_empty (rounds start rs).buffer)) [
      | inl rest ↦
          rw rest (
            All-append (IsBatch most) _ (_ ∷ []) end.batches ((rest, omega (arith, end.small)), tt))
      | inr nothing ↦ rw nothing end.batches
    ]
