-- ===== src/Partitions/Manager/Filled.antt =====
-- The run of the statements that create the missing parts by hash of a partition.
use fork_glitchtip_glitchtip.Common.{
  ℕ, zero, suc, ◌+◌, ◌<◌, ◌≤◌, ◌≡◌, inl, inr, true, false, some, List, ◌∷◌, any, ◌==◌, ==_refl,
  refl, sym, ◌∙◌, ap, arith, Bool-cases,
}
use fork_glitchtip_glitchtip.Partitions.Tables.{
  Child, Partition, Statement, create_hash, named, found_partition, has_bucket, add_child, execute,
  execute_all,
}
use fork_glitchtip_glitchtip.Partitions.Tables.Fill.{
  count_bucket, HasParts, any_bucket_true, any_bucket_false, with_new, add_child-HasParts,
  with_new-count_same, with_new-count_other, with_new-HasParts, replaced, change_partition-found,
  replaced-found, replaced-replaced, replaced_self,
}
use fork_glitchtip_glitchtip.Partitions.Manager.{hash_statements, missing_children}

-- the tables after some statements: the partition of the day has every part from `i` on, and the
-- ones before as they were
pub record IsFilled (n day i : ℕ) (p : Partition) (db : List Partition) (sqls : List Statement)
    : Type 0 where
  pub filled : Partition
  pub same_day : filled.day ≡ p.day
  pub same_low : filled.low ≡ p.low
  pub same_high : filled.high ≡ p.high
  pub run : execute_all sqls db ≡ some (replaced day filled db)
  pub has : HasParts n filled
  pub before : (j : ℕ) → j < i → count_bucket j filled.children ≡ count_bucket j p.children
  pub after : (j : ℕ) → i ≤ j → j < n → count_bucket j filled.children ≡ 1

none_of :
    (i : ℕ) (children : List Child)
    → any (has_bucket i) children ≡ false
    → count_bucket i children ≡ 0
none_of i children e = ground (arith, e, any_bucket_true i children)

some_of :
    (i : ℕ) (children : List Child)
    → any (has_bucket i) children ≡ true
    → 0 < count_bucket i children
some_of i children e = ground (arith, e, any_bucket_false i children)

execute-hash :
    (n day i : ℕ) (p : Partition) (db : List Partition) (sqls : List Statement)
    → i < n
    → found_partition day db ≡ some p
    → HasParts n p
    → count_bucket i p.children ≡ 0
    → execute_all (create_hash day n i ∷ sqls) db
      ≡ execute_all sqls (replaced day (with_new n i p) db)
unfolding execute execute_all
execute-hash n day i p db sqls small found has free =
    rw
      (change_partition-found (add_child n i) day p (with_new n i p) db found
        (add_child-HasParts n i p small has free))
      refl

with_new-day :
    (n i : ℕ) (p : Partition)
    → ((with_new n i p).day ≡ p.day)
      × ((with_new n i p).low ≡ p.low)
      × ((with_new n i p).high ≡ p.high)
unfolding with_new
with_new-day n i p = (refl, refl, refl)

pub missing_children-IsFilled :
    (n day : ℕ) (existing : List Child) (k i : ℕ) (p : Partition) (db : List Partition)
    → p.day ≡ day
    → found_partition day db ≡ some p
    → HasParts n p
    → i + k ≡ n
    → ((j : ℕ) → i ≤ j → count_bucket j p.children ≡ count_bucket j existing)
    → IsFilled n day i p db (missing_children existing i (hash_statements day n i k))
unfolding missing_children hash_statements execute_all
missing_children-IsFilled n day existing zero i p db is found has end same = record {
  filled = p;
  same_day = refl;
  same_low = refl;
  same_high = refl;
  run = ap some (sym (replaced_self day p db found));
  has = has;
  before = λ j less. refl;
  after = λ j from to. absurd (omega arith);
}
missing_children-IsFilled n day existing (suc k) i p db is found has end same =
    elim (Bool-cases (any (has_bucket i) existing)) [
      | inl e ↦ rw e (
          let next =
            missing_children-IsFilled n day existing k (suc i) p db is found has (omega arith)
              (λ j from. same j (omega arith)) in
          let here : count_bucket i p.children ≡ 1 =
            omega (arith, same i (omega arith), has.once i, some_of i existing e) in
          record {
            filled = next.filled;
            same_day = next.same_day;
            same_low = next.same_low;
            same_high = next.same_high;
            run = next.run;
            has = next.has;
            before = λ j less. next.before j (omega arith);
            after = λ j from to.
                at_or_after n i j next.filled p (next.before i (omega arith) ∙ here) next.after from
                  to;
          })
      | inr e ↦ rw e (
          let free : count_bucket i p.children ≡ 0 =
            omega (arith, same i (omega arith), none_of i existing e) in
          let q = with_new n i p in
          let (day_q, low_q, high_q) = with_new-day n i p in
          let small : i < n = omega arith in
          let is_q : named day q ≡ true = rw (day_q, is) (==_refl day) in
          let next =
            missing_children-IsFilled n day existing k (suc i) q (replaced day q db) (day_q ∙ is)
              (replaced-found day p q db is_q found) (with_new-HasParts n i p small has free)
              (omega arith)
              (λ j from. with_new-count_other n i j p (omega arith) ∙ same j (omega arith)) in
          let here : count_bucket i q.children ≡ 1 =
            with_new-count_same n i p ∙ ap {B = ℕ} suc free in
          record {
            filled = next.filled;
            same_day = next.same_day ∙ day_q;
            same_low = next.same_low ∙ low_q;
            same_high = next.same_high ∙ high_q;
            run =
                execute-hash n day i p db _ small found has free
                ∙ next.run
                ∙ ap some (replaced-replaced day q next.filled db is_q);
            has = next.has;
            before =
                λ j less. next.before j (omega arith) ∙ with_new-count_other n i j p (omega arith);
            after = λ j from to.
                at_or_after n i j next.filled q (next.before i (omega arith) ∙ here) next.after from
                  to;
          })
    ]
  where
    at_or_after :
        (n i j : ℕ) (q p : Partition)
        → count_bucket i q.children ≡ 1
        → ((j : ℕ) → suc i ≤ j → j < n → count_bucket j q.children ≡ 1)
        → i ≤ j
        → j < n
        → count_bucket j q.children ≡ 1
    at_or_after n i j q p here later from to = elim (Bool-cases (i == j)) [
      | inl e ↦ let same : i ≡ j = ground (arith, e) in rw (← same) here
      | inr e ↦ later j (ground (arith, e, from)) to
    ]
