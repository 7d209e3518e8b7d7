-- ===== src/Logs/Store/Written.antt =====
-- What the statements that write log rows leave in the table.
use fork_glitchtip_glitchtip.Common.{
  ℕ, suc, ◌≤◌, ◌≡◌, ◌⊎◌, inl, inr, Bool, true, false, ◌&&◌, not, some, List, [], ◌∷◌, ◌++◌, All,
  All-append, length, length-append, any, refl, ap, ◌∙◌, arith, Bool-cases,
}
use fork_glitchtip_glitchtip.Logs.Store.{
  LogRow, fits_bigint, same_log, Copied, copied, unique_violation, other_error, copy_rows,
  insert_logs, retried, write_logs,
}

-- no other row has the key
abbrev pub Distinct : List LogRow → Type 0
Distinct [] = Unit
Distinct (r ∷ logs) = (any (same_log r) logs ≡ false) × Distinct logs

-- `after` is `logs` with some more rows of a kind in front
pub record IsExtended (P : LogRow → Type 0) (most : ℕ) (logs after : List LogRow) : Type 0 where
  pub added : List LogRow
  pub in_front : after ≡ added ++ logs
  pub kind : All P added
  pub few : length added ≤ most
  pub distinct : Distinct logs → Distinct after

one_in_front :
    (P : LogRow → Type 0) (most : ℕ) (r : LogRow) (logs after : List LogRow)
    → P r
    → any (same_log r) logs ≡ false
    → IsExtended P most (r ∷ logs) after
    → IsExtended P (suc most) logs after
one_in_front P most r logs after is fresh more = record {
  added = more.added ++ r ∷ [];
  in_front = more.in_front ∙ regroup more.added;
  kind = All-append P more.added (r ∷ []) more.kind (is, tt);
  few = rw (length-append more.added (r ∷ [])) (omega (arith, more.few));
  distinct = λ d. more.distinct (fresh, d);
}
  where
    regroup : (xs : List LogRow) → xs ++ r ∷ logs ≡ (xs ++ r ∷ []) ++ logs
    regroup [] = refl
    regroup (x ∷ xs) = ap (λ ys. x ∷ ys) (regroup xs)

pub none_in_front :
    (P : LogRow → Type 0) (most : ℕ) (logs : List LogRow) → IsExtended P most logs logs
none_in_front P most logs = record {
  added = [];
  in_front = refl;
  kind = tt;
  few = omega arith;
  distinct = λ d. d;
}

copy_rows-IsExtended :
    (P : LogRow → Type 0) (takes : LogRow → Bool) (rows logs after : List LogRow)
    → All P rows
    → copy_rows takes rows logs ≡ copied after
    → IsExtended P (length rows) logs after
unfolding copy_rows
copy_rows-IsExtended P takes [] logs after is run =
    let same : logs ≡ after = cc in rw same (none_in_front P 0 after)
copy_rows-IsExtended P takes (r ∷ rows) logs after (one, is) run =
    elim (Bool-cases (not (takes r && fits_bigint r.span_id))) [
      | inl e ↦ absurd (ground (arith, rw e at run))
      | inr e ↦ elim (Bool-cases (any (same_log r) logs)) [
        | inl dup ↦ absurd (ground (arith, rw (e, dup) at run))
        | inr fresh ↦
            one_in_front P (length rows) r logs after one fresh
              (copy_rows-IsExtended P takes rows (r ∷ logs) after is (rw (e, fresh) at run))
      ]
    ]

one_skipped :
    (P : LogRow → Type 0) (most : ℕ) (logs after : List LogRow)
    → IsExtended P most logs after
    → IsExtended P (suc most) logs after
one_skipped P most logs after more = record {
  added = more.added;
  in_front = more.in_front;
  kind = more.kind;
  few = omega (arith, more.few);
  distinct = more.distinct;
}

insert_logs-IsExtended :
    (P : LogRow → Type 0) (takes : LogRow → Bool) (rows logs after : List LogRow)
    → All P rows
    → insert_logs takes rows logs ≡ some after
    → IsExtended P (length rows) logs after
unfolding insert_logs
insert_logs-IsExtended P takes [] logs after is run =
    let same : logs ≡ after = cc in rw same (none_in_front P 0 after)
insert_logs-IsExtended P takes (r ∷ rows) logs after (one, is) run =
    elim (Bool-cases (not (takes r && fits_bigint r.span_id))) [
      | inl e ↦ absurd (ground (arith, rw e at run))
      | inr e ↦ elim (Bool-cases (any (same_log r) logs)) [
        | inl dup ↦
            one_skipped P (length rows) logs after
              (insert_logs-IsExtended P takes rows logs after is (rw (e, dup) at run))
        | inr fresh ↦
            one_in_front P (length rows) r logs after one fresh
              (insert_logs-IsExtended P takes rows (r ∷ logs) after is (rw (e, fresh) at run))
      ]
    ]

pub write_logs-IsExtended :
    (P : LogRow → Type 0) (takes : LogRow → Bool) (rows logs after : List LogRow)
    → All P rows
    → write_logs takes rows logs ≡ some after
    → IsExtended P (length rows) logs after
unfolding write_logs
write_logs-IsExtended P takes rows logs after is run = by_copy (copy_rows takes rows logs) refl run
  where
    by_copy :
        (c : Copied)
        → copy_rows takes rows logs ≡ c
        → retried c (insert_logs takes rows logs) ≡ some after
        → IsExtended P (length rows) logs after
    by_copy (copied stored) at run =
        let same : stored ≡ after = cc in
        copy_rows-IsExtended P takes rows logs after is (at ∙ ap copied same)
    by_copy unique_violation at run = insert_logs-IsExtended P takes rows logs after is run
    by_copy other_error at run = cc

insert_logs_total :
    (takes : LogRow → Bool) (rows logs : List LogRow)
    → All (λ r. (takes r && fits_bigint r.span_id) ≡ true) rows
    → (after : List LogRow) × (insert_logs takes rows logs ≡ some after)
unfolding insert_logs
insert_logs_total takes [] logs ok = (logs, refl)
insert_logs_total takes (r ∷ rows) logs (one, ok) = elim (Bool-cases (any (same_log r) logs)) [
  | inl dup ↦ rw (one, dup) (insert_logs_total takes rows logs ok)
  | inr fresh ↦ rw (one, fresh) (insert_logs_total takes rows (r ∷ logs) ok)
]

copy_rows_total :
    (takes : LogRow → Bool) (rows logs : List LogRow)
    → All (λ r. (takes r && fits_bigint r.span_id) ≡ true) rows
    → ((after : List LogRow) × (copy_rows takes rows logs ≡ copied after))
      ⊎ (copy_rows takes rows logs ≡ unique_violation)
unfolding copy_rows
copy_rows_total takes [] logs ok = inl (logs, refl)
copy_rows_total takes (r ∷ rows) logs (one, ok) = elim (Bool-cases (any (same_log r) logs)) [
  | inl dup ↦ inr (rw (one, dup) refl)
  | inr fresh ↦ rw (one, fresh) (copy_rows_total takes rows (r ∷ logs) ok)
]

-- rows that the table takes are written, by the COPY or after it
pub write_logs_total :
    (takes : LogRow → Bool) (rows logs : List LogRow)
    → All (λ r. (takes r && fits_bigint r.span_id) ≡ true) rows
    → (after : List LogRow) × (write_logs takes rows logs ≡ some after)
unfolding write_logs
write_logs_total takes rows logs ok = elim (copy_rows_total takes rows logs ok) [
  | inl (after, e) ↦ rw e (after, refl)
  | inr e ↦ rw e (insert_logs_total takes rows logs ok)
]
