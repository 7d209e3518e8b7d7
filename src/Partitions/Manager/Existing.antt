-- ===== src/Partitions/Manager/Existing.antt =====
-- `execute_partition_creation` of a partition that exists, and its second run.
use fork_glitchtip_glitchtip.Common.{
  ℕ, zero, suc, ◌+◌, ◌^◌, ◌<◌, ◌≡◌, inl, inr, true, false, some, List, [], ◌∷◌, length, All,
  ==_refl, ==_iff, lt→ltb, refl, ◌∙◌, ap, arith, Bool-cases,
}
use fork_glitchtip_glitchtip.Partitions.Tables.{
  Child, Partition, named, found_partition, table_exists, list_partitions, execute_all,
}
use fork_glitchtip_glitchtip.Partitions.Tables.Fill.{
  count_bucket, IsPart, HasParts, any_bucket_true, replaced, replaced-found,
}
use fork_glitchtip_glitchtip.Partitions.Manager.{
  KeyType, hash_statements, create_time_partition, add_modulus, moduli_of, left_alone,
  missing_children, sqls_to_execute, execute_partition_creation,
}
use fork_glitchtip_glitchtip.Partitions.Manager.Filled.{missing_children-IsFilled}
use fork_glitchtip_glitchtip.Partitions.Manager.Creation.{range_values-point, IsComplete}

moduli_same :
    (n : ℕ) (c : Child) (children : List Child)
    → All (IsPart n) (c ∷ children)
    → moduli_of (c ∷ children) ≡ n ∷ []
unfolding moduli_of
moduli_same n c [] (part, parts) = ap (λ m. add_modulus m []) part.modulus_same
moduli_same n c (d ∷ children) (part, parts) =
    ap (λ m. add_modulus m (moduli_of (d ∷ children))) part.modulus_same
    ∙ rw (moduli_same n d children parts, ==_refl n) refl

same_left :
    (n : ℕ) (children : List Child) → All (IsPart n) children → left_alone n children ≡ false
unfolding left_alone
same_left n [] parts = refl
same_left n (c ∷ children) parts = rw (moduli_same n c children parts, ==_refl n) refl

found_exists :
    (day : ℕ) (p : Partition) (db : List Partition)
    → found_partition day db ≡ some p
    → table_exists day db ≡ true
unfolding found_partition table_exists
found_exists day p [] found = cc
found_exists day p (q ∷ db) found = elim (Bool-cases (named day q)) [
  | inl e ↦ rw e refl
  | inr e ↦ rw e (found_exists day p db (rw e at found))
]

pub found_day :
    (day : ℕ) (p : Partition) (db : List Partition) → found_partition day db ≡ some p → p.day ≡ day
unfolding found_partition
found_day day p [] found = cc
found_day day p (q ∷ db) found = elim (Bool-cases (named day q)) [
  | inl e ↦ let same : q ≡ p = cc (rw e at found) in rw (← same) ((==_iff q.day day).0 e)
  | inr e ↦ found_day day p db (rw e at found)
]

found_children :
    (day : ℕ) (p : Partition) (db : List Partition)
    → found_partition day db ≡ some p
    → list_partitions day db ≡ p.children
unfolding list_partitions
found_children day p db found = rw found refl

pub create-found :
    (key_type : KeyType) (n day start end : ℕ) (p : Partition) (db : List Partition)
    → 0 < n
    → start < 2 ^ 48
    → end < 2 ^ 48
    → found_partition day db ≡ some p
    → HasParts n p
    → (count : ℕ) × (q : Partition) × (execute_partition_creation key_type day start end n db
        ≡ some (count, replaced day q db))
      × IsComplete n day p.low p.high q
unfolding execute_partition_creation create_time_partition sqls_to_execute
create-found key_type n day start end p db some_parts small_start small_end found has =
    let all =
      missing_children-IsFilled n day p.children n 0 p db (found_day day p db found) found has
        (omega arith) (λ j from. refl) in
    (
      length (missing_children p.children 0 (hash_statements day n 0 n)),
      all.filled,
      rw
          (
            found_exists day p db found,
            lt→ltb 0 n some_parts,
            found_children day p db found,
            same_left n p.children has.parts,
            range_values-point key_type start end small_start small_end,
            lt→ltb 0 n some_parts,
            lt→ltb 0 n some_parts,
            all.run,
          )
          refl,
      record {
        same_day = all.same_day ∙ found_day day p db found;
        same_low = all.same_low;
        same_high = all.same_high;
        has = all.has;
        full = λ i. all.after i (omega arith);
      },
    )

missing-full :
    (n day : ℕ) (children : List Child) (k i : ℕ)
    → i + k ≡ n
    → ((j : ℕ) → j < n → count_bucket j children ≡ 1)
    → missing_children children i (hash_statements day n i k) ≡ []
unfolding missing_children hash_statements
missing-full n day children zero i end full = refl
missing-full n day children (suc k) i end full =
    rw (any_bucket_true i children (omega (arith, full i (omega arith))))
      (missing-full n day children k (suc i) (omega arith) full)

-- the run for a partition with a part for every remainder
create_complete :
    (key_type : KeyType) (n day start end low high : ℕ) (p : Partition) (db : List Partition)
    → 0 < n
    → start < 2 ^ 48
    → end < 2 ^ 48
    → found_partition day db ≡ some p
    → IsComplete n day low high p
    → execute_partition_creation key_type day start end n db ≡ some (0, db)
unfolding execute_partition_creation create_time_partition sqls_to_execute execute_all
create_complete key_type n day start end low high p db some_parts small_start small_end found
      complete =
    rw
      (
        found_exists day p db found,
        lt→ltb 0 n some_parts,
        found_children day p db found,
        same_left n p.children complete.has.parts,
        range_values-point key_type start end small_start small_end,
        lt→ltb 0 n some_parts,
        lt→ltb 0 n some_parts,
        missing-full n day p.children n 0 (omega arith) complete.full,
      )
      refl

-- For a partition that exists with parts by hash of the configured modulus, any of them missing,
-- and dates that fit in 48 bits: a run for it has no error, and a second run executes nothing and
-- leaves the tables as they are.
pub execute_partition_creation-again :
    (key_type : KeyType) (n day start end : ℕ) (p : Partition) (db : List Partition)
    → 0 < n
    → start < 2 ^ 48
    → end < 2 ^ 48
    → found_partition day db ≡ some p
    → HasParts n p
    → (count : ℕ) × (after : List Partition) × (execute_partition_creation key_type day start end n
          db
        ≡ some (count, after))
      × (execute_partition_creation key_type day start end n after ≡ some (0, after))
execute_partition_creation-again key_type n day start end p db some_parts small_start small_end
      found has =
    let (count, q, run, complete) =
      create-found key_type n day start end p db some_parts small_start small_end found has in
    let again : found_partition day (replaced day q db) ≡ some q =
      replaced-found day p q db (ground (arith, complete.same_day)) found in
    (
      count,
      replaced day q db,
      run,
      create_complete key_type n day start end p.low p.high q (replaced day q db) some_parts
          small_start small_end again complete,
    )
