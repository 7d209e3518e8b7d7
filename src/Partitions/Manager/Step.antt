-- ===== src/Partitions/Manager/Step.antt =====
-- One round of the loop over the dates, on tables that stand on a grid.
use fork_glitchtip_glitchtip.Common.{
  ℕ, suc, ◌+◌, ◌*◌, ◌^◌, ◌<◌, ◌≡◌, ◌≢◌, inl, inr, true, false, none, some, List, [], ◌∷◌, any, All,
  ◌==◌, if◌then◌else◌, refl, sym, ◌∙◌, ap, arith, Bool-cases, Option-cases,
}
use fork_glitchtip_glitchtip.Partitions.Tables.{
  Partition, day_ms, named, found_partition, table_exists, overlaps,
}
use fork_glitchtip_glitchtip.Partitions.Tables.Fill.{replaced, replaced-found}
use fork_glitchtip_glitchtip.Partitions.Manager.{KeyType, execute_partition_creation}
use fork_glitchtip_glitchtip.Partitions.Manager.Creation.{point, IsComplete, create-new}
use fork_glitchtip_glitchtip.Partitions.Manager.Existing.{create-found, found_day}
use fork_glitchtip_glitchtip.Partitions.Manager.Grid.{OnGrid, count_day, IsGrid, apart}

module _ (key_type : KeyType) (n width base k : ℕ) where
  abbrev here : ℕ
  here = base + k * width

  abbrev here_ms : ℕ
  here_ms = (base + k * width) * day_ms

  abbrev next_ms : ℕ
  next_ms = (base + k * width + width) * day_ms

  complete-OnGrid :
      (p : Partition)
      → IsComplete n here (point key_type here_ms) (point key_type next_ms) p
      → OnGrid key_type n width base p
  complete-OnGrid p complete = record {
    index = k;
    at_index = complete.same_day;
    from_day = complete.same_low ∙ ap (λ d. point key_type (d * day_ms)) (sym complete.same_day);
    to_day =
        complete.same_high
        ∙ ap (λ d. point key_type ((d + width) * day_ms)) (sym complete.same_day);
    has = complete.has;
  }

  no_overlaps :
      (db : List Partition)
      → All (OnGrid key_type n width base) db
      → table_exists here db ≡ false
      → any (overlaps (point key_type here_ms) (point key_type next_ms)) db ≡ false
  unfolding table_exists
  no_overlaps [] grid absent = refl
  no_overlaps (p ∷ db) (on, grid) absent = elim (Bool-cases (named here p)) [
    | inl e ↦ absurd (ground (arith, absent, e))
    | inr e ↦
        let other : p.day ≢ here = ground (arith, e) in
        let free : overlaps (point key_type here_ms) (point key_type next_ms) p ≡ false =
          ground (arith, apart key_type n width base k p on other) in
        rw free (no_overlaps db grid (rw e at absent))
  ]

-- the tables of another day
found_none :
    (day : ℕ) (db : List Partition)
    → found_partition day db ≡ none
    → (table_exists day db ≡ false) × (count_day day db ≡ 0)
unfolding found_partition table_exists count_day
found_none day [] found = (refl, refl)
found_none day (p ∷ db) found = elim (Bool-cases (named day p)) [
  | inl e ↦ absurd (ground (arith, rw e at found))
  | inr e ↦ rw e (found_none day db (rw e at found))
]

replaced-count :
    (day e : ℕ) (q : Partition) (db : List Partition)
    → q.day ≡ day
    → count_day e (replaced day q db) ≡ count_day e db
unfolding replaced count_day
replaced-count day e q [] is = refl
replaced-count day e q (p ∷ db) is = elim (Bool-cases (named day p)) [
  | inl at ↦
      let same : p.day ≡ q.day = ground (arith, at, is) in
      rw at (ap (λ d. if d == e then suc (count_day e db) else count_day e db) (sym same))
  | inr at ↦ rw (at, replaced-count day e q db is) refl
]

replaced-All :
    (P : Partition → Type 0) (day : ℕ) (q : Partition) (db : List Partition)
    → P q
    → All P db
    → All P (replaced day q db)
unfolding replaced
replaced-All P day q [] is all = tt
replaced-All P day q (p ∷ db) is (one, all) = elim (Bool-cases (named day p)) [
  | inl at ↦ rw at (is, all)
  | inr at ↦ rw at (one, replaced-All P day q db is all)
]

replaced-other :
    (day e : ℕ) (q : Partition) (db : List Partition)
    → q.day ≡ day
    → e ≢ day
    → found_partition e (replaced day q db) ≡ found_partition e db
unfolding replaced found_partition
replaced-other day e q [] is other = refl
replaced-other day e q (p ∷ db) is other = elim (Bool-cases (named day p)) [
  | inl at ↦
      let left : named e q ≡ false = ground (arith, is, other) in
      let right : named e p ≡ false = ground (arith, at, other) in rw (at, left, right) refl
  | inr at ↦ rw (at, replaced-other day e q db is other) refl
]

found_All :
    (P : Partition → Type 0) (day : ℕ) (p : Partition) (db : List Partition)
    → found_partition day db ≡ some p
    → All P db
    → P p
unfolding found_partition
found_All P day p [] found all = cc
found_All P day p (q ∷ db) found (one, all) = elim (Bool-cases (named day q)) [
  | inl at ↦ let same : q ≡ p = cc (rw at at found) in rw (← same) one
  | inr at ↦ found_All P day p db (rw at at found) all
]

-- the tables after a round: the day is complete, and the other days are as they were
pub record IsStep (key_type : KeyType) (n width base k : ℕ) (db after : List Partition)
    : Type 0 where
  pub grid : IsGrid key_type n width base after
  pub created : Partition
  pub found : found_partition (base + k * width) after ≡ some created
  pub complete :
      IsComplete n
        (base + k * width)
        (point key_type ((base + k * width) * day_ms))
        (point key_type ((base + k * width + width) * day_ms))
        created
  pub others : (e : ℕ) → e ≢ base + k * width → found_partition e after ≡ found_partition e db

module _ (key_type : KeyType) (n width base k : ℕ) (positive : 0 < n) (wide : 0 < width)
    (small : (base + k * width + width) * day_ms < 2 ^ 48) where
  step_new :
      (db : List Partition)
      → IsGrid key_type n width base db
      → found_partition (base + k * width) db ≡ none
      → (count : ℕ) × (after : List Partition) × (execute_partition_creation key_type
            (base + k * width)
            ((base + k * width) * day_ms)
            ((base + k * width + width) * day_ms)
            n
            db
          ≡ some (count, after))
        × IsStep key_type n width base k db after
  unfolding count_day found_partition
  step_new db grid absent =
      let day = base + k * width in
      let (no_table, no_day) = found_none day db absent in
      let (p, run, complete) =
        create-new key_type n day (day * day_ms) ((day + width) * day_ms) db positive (omega arith)
          small no_table (no_overlaps key_type n width base k db grid.partitions no_table) in
      let is : named day p ≡ true = ground (arith, complete.same_day) in
      (
        suc n,
        p ∷ db,
        run,
        record {
          grid = record {
            partitions = (complete-OnGrid key_type n width base k p complete, grid.partitions);
            once = λ e. ground (arith, grid.once e, no_day, complete.same_day);
          };
          created = p;
          found = rw is refl;
          complete = complete;
          others = λ e other.
              let away : named e p ≡ false = ground (arith, complete.same_day, other) in
              rw away refl;
        },
      )

  step_found :
      (p : Partition) (db : List Partition)
      → IsGrid key_type n width base db
      → found_partition (base + k * width) db ≡ some p
      → (count : ℕ) × (after : List Partition) × (execute_partition_creation key_type
            (base + k * width)
            ((base + k * width) * day_ms)
            ((base + k * width + width) * day_ms)
            n
            db
          ≡ some (count, after))
        × IsStep key_type n width base k db after
  step_found p db grid found =
      let day = base + k * width in
      let on = found_All (OnGrid key_type n width base) day p db found grid.partitions in
      let at = found_day day p db found in
      let (count, q, run, filled) =
        create-found key_type n day (day * day_ms) ((day + width) * day_ms) p db positive
          (omega arith) small found on.has in
      let complete : IsComplete n day (point key_type (day * day_ms))
          (point key_type ((day + width) * day_ms)) q =
        record {
          same_day = filled.same_day;
          same_low = filled.same_low ∙ on.from_day ∙ ap (λ d. point key_type (d * day_ms)) at;
          same_high =
              filled.same_high ∙ on.to_day ∙ ap (λ d. point key_type ((d + width) * day_ms)) at;
          has = filled.has;
          full = filled.full;
        } in
      (
        count,
        replaced day q db,
        run,
        record {
          grid = record {
            partitions =
                replaced-All (OnGrid key_type n width base) day q db
                  (complete-OnGrid key_type n width base k q complete) grid.partitions;
            once = λ e. omega (arith, grid.once e, replaced-count day e q db filled.same_day);
          };
          created = q;
          found = replaced-found day p q db (ground (arith, filled.same_day)) found;
          complete = complete;
          others = λ e other. replaced-other day e q db filled.same_day other;
        },
      )

  pub step :
      (db : List Partition)
      → IsGrid key_type n width base db
      → (count : ℕ) × (after : List Partition) × (execute_partition_creation key_type
            (base + k * width)
            ((base + k * width) * day_ms)
            ((base + k * width + width) * day_ms)
            n
            db
          ≡ some (count, after))
        × IsStep key_type n width base k db after
  step db grid = elim (Option-cases (found_partition (base + k * width) db)) [
    | inl absent ↦ step_new db grid absent
    | inr (p, found) ↦ step_found p db grid found
  ]
