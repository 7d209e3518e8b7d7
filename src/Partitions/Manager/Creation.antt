-- ===== src/Partitions/Manager/Creation.antt =====
-- `execute_partition_creation` of a new partition.
use fork_glitchtip_glitchtip.Common.{
  ℕ, zero, suc, ◌^◌, ◌<◌, ◌≡◌, true, false, some, List, [], ◌∷◌, length, any, ==_refl, lt→ltb, refl,
  ap, arith,
}
use fork_glitchtip_glitchtip.Partitions.Uuid7.Window.{first_uuid, get_range_small, first_uuid-lt}
use fork_glitchtip_glitchtip.Partitions.Tables.{
  Partition, found_partition, table_exists, overlaps, execute, execute_all,
}
use fork_glitchtip_glitchtip.Partitions.Tables.Fill.{count_bucket, HasParts, replaced}
use fork_glitchtip_glitchtip.Partitions.Manager.{
  KeyType, uuid7, datetime, range_values, hash_statements, create_time_partition, left_alone,
  missing_children, sqls_to_execute, execute_partition_creation,
}
use fork_glitchtip_glitchtip.Partitions.Manager.Filled.{missing_children-IsFilled}

-- the first key of a time
unfoldable pub point : KeyType → ℕ → ℕ
point uuid7 time = first_uuid time
point datetime time = time

pub point-lt : (key_type : KeyType) (a b : ℕ) → a < b → point key_type a < point key_type b
unfolding point
point-lt uuid7 a b p = first_uuid-lt a b p
point-lt datetime a b p = p

pub range_values-point :
    (key_type : KeyType) (start end : ℕ)
    → start < 2 ^ 48
    → end < 2 ^ 48
    → range_values key_type start end ≡ some (point key_type start, point key_type end)
unfolding point range_values
range_values-point uuid7 start end p q = get_range_small start end p q
range_values-point datetime start end p q = refl

-- a partition of the day with a part for every remainder
pub record IsComplete (n day low high : ℕ) (p : Partition) : Type 0 where
  pub same_day : p.day ≡ day
  pub same_low : p.low ≡ low
  pub same_high : p.high ≡ high
  pub has : HasParts n p
  pub full : (i : ℕ) → i < n → count_bucket i p.children ≡ 1

fresh_partition : ℕ → ℕ → ℕ → Partition
fresh_partition day low high = record {
  day = day;
  low = low;
  high = high;
  hashed = true;
  children = [];
}

missing-none :
    (day n i k : ℕ) → missing_children [] i (hash_statements day n i k) ≡ hash_statements day n i k
unfolding missing_children hash_statements
missing-none day n i zero = refl
missing-none day n i (suc k) = rw (missing-none day n (suc i) k) refl

length-hash : (day n i k : ℕ) → length (hash_statements day n i k) ≡ k
unfolding hash_statements
length-hash day n i zero = refl
length-hash day n i (suc k) = ap {B = ℕ} suc (length-hash day n (suc i) k)

fresh_filled :
    (n day low high : ℕ) (db : List Partition)
    → (p : Partition) × (execute_all (hash_statements day n 0 n) (fresh_partition day low high ∷ db)
        ≡ some (p ∷ db))
      × IsComplete n day low high p
unfolding fresh_partition found_partition count_bucket replaced
fresh_filled n day low high db =
    let p = fresh_partition day low high in
    let found : found_partition day (p ∷ db) ≡ some p = rw (==_refl day) refl in
    let has : HasParts n p = record { is_hashed = refl; parts = tt; once = λ i. omega arith } in
    let all =
      missing_children-IsFilled n day [] n 0 p (p ∷ db) refl found has (omega arith)
        (λ j from. refl) in
    (
      all.filled,
      rw (missing-none day n 0 n, ==_refl day) at all.run,
      record {
        same_day = all.same_day;
        same_low = all.same_low;
        same_high = all.same_high;
        has = all.has;
        full = λ i. all.after i (omega arith);
      },
    )

pub create-new :
    (key_type : KeyType) (n day start end : ℕ) (db : List Partition)
    → 0 < n
    → start < end
    → end < 2 ^ 48
    → table_exists day db ≡ false
    → any (overlaps (point key_type start) (point key_type end)) db ≡ false
    → (p : Partition) × (execute_partition_creation key_type day start end n db
        ≡ some (suc n, p ∷ db))
      × IsComplete n day (point key_type start) (point key_type end) p
unfolding execute_partition_creation create_time_partition left_alone sqls_to_execute execute
    execute_all fresh_partition
create-new key_type n day start end db some_parts order small absent apart =
    let low = point key_type start in
    let high = point key_type end in
    let (p, run, complete) = fresh_filled n day low high db in
    let values = range_values-point key_type start end (omega arith) small in
    let count : length (hash_statements day n 0 n) ≡ n = length-hash day n 0 n in
    (
      p,
      rw
          (
            absent,
            values,
            lt→ltb 0 n some_parts,
            absent,
            lt→ltb low high (point-lt key_type start end order),
            apart,
            count,
            run,
          )
          refl,
      complete,
    )
