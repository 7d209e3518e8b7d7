-- ===== src/Partitions/Manager.antt =====
-- glitchtip/partition_manager.py, `PartitionManager`, on the tables of Tables.antt.
pub mod Filled
pub mod Creation
pub mod Existing
pub mod Grid
pub mod Rows
pub mod Step
pub mod DateRange
pub mod Retention
use fork_glitchtip_glitchtip.Common.{
  ℕ, zero, suc, ◌+◌, ◌-◌, ◌*◌, ◌/◌, ◌%◌, Bool, true, false, ◌&&◌, ◌||◌, not, Option, none, some,
  List, [], ◌∷◌, length, any, ltb, leb, ◌==◌, if◌then◌else◌, min, ◌>>=◌,
}
use fork_glitchtip_glitchtip.Partitions.Tables.{
  Child, Partition, Statement, create_range, create_hash, day_ms, table_exists, list_partitions,
  has_bucket, execute_all,
}
use fork_glitchtip_glitchtip.Partitions.Uuid7.{pos, range_of_ms}

pub data KeyType : Type 0 where
  uuid7 : KeyType
  datetime : KeyType

-- `get_range_for_date` or the two dates; a date stands at its midnight, whose milliseconds Python
-- makes without rounding
pub range_values : KeyType → ℕ → ℕ → Option (ℕ × ℕ)
range_values uuid7 start_date end_date = range_of_ms (pos start_date) (pos end_date)
range_values datetime start_date end_date = some (start_date, end_date)

-- `for i in range(hash_buckets)`: `count` rounds from `i` on
pub hash_statements : ℕ → ℕ → ℕ → ℕ → List Statement
hash_statements day hash_buckets i zero = []
hash_statements day hash_buckets i (suc count) =
    create_hash day hash_buckets i ∷ hash_statements day hash_buckets (suc i) count

abbrev pub time_statements : ℕ → ℕ → Option (ℕ × ℕ) → Option (List Statement)
time_statements day hash_buckets none = none
time_statements day hash_buckets (some (low, high)) =
    let children = hash_statements day hash_buckets 0 hash_buckets in
    if ltb 0 hash_buckets
    then some (create_range day low high true ∷ children)
    else some (create_range day low high false ∷ [])

-- `create_time_partition`
pub create_time_partition : KeyType → ℕ → ℕ → ℕ → ℕ → Option (List Statement)
create_time_partition key_type day start_date end_date hash_buckets =
    time_statements day hash_buckets (range_values key_type start_date end_date)

-- `moduli`, a set
abbrev pub add_modulus : Option ℕ → List ℕ → List ℕ
add_modulus none moduli = moduli
add_modulus (some m) moduli = if any (λ k. k == m) moduli then moduli else m ∷ moduli

pub moduli_of : List Child → List ℕ
moduli_of [] = []
moduli_of (c ∷ children) = add_modulus c.modulus (moduli_of children)

-- whether the existing set is left as it is: for children, more than one modulus, none, or another
-- one
abbrev pub other_modulus : ℕ → List ℕ → Bool
other_modulus hash_buckets [] = true
other_modulus hash_buckets (m ∷ []) = not (m == hash_buckets)
other_modulus hash_buckets (m ∷ k ∷ moduli) = true

pub left_alone : ℕ → List Child → Bool
left_alone hash_buckets [] = false
left_alone hash_buckets (c ∷ children) = other_modulus hash_buckets (moduli_of (c ∷ children))

-- `sqls[1:]`
abbrev pub tail_of : List Statement → List Statement
tail_of [] = []
tail_of (sql ∷ sqls) = sqls

-- the statements of `enumerate` whose child does not exist
pub missing_children : List Child → ℕ → List Statement → List Statement
missing_children existing i [] = []
missing_children existing i (sql ∷ sqls) =
    let rest = missing_children existing (suc i) sqls in
    if any (has_bucket i) existing then rest else sql ∷ rest

pub sqls_to_execute : Bool → ℕ → List Child → List Statement → List Statement
sqls_to_execute range_exists hash_buckets existing sqls =
    let missing = missing_children existing 0 (tail_of sqls) in
    if not range_exists then sqls else if ltb 0 hash_buckets then missing else []

abbrev pub with_count : ℕ → Option (List Partition) → Option (ℕ × List Partition)
with_count n none = none
with_count n (some db) = some (n, db)

abbrev pub execute_new :
    Bool → ℕ → List Child → Option (List Statement) → List Partition → Option (ℕ × List Partition)
execute_new range_exists hash_buckets existing none db = none
execute_new range_exists hash_buckets existing (some sqls) db =
    let to_execute = sqls_to_execute range_exists hash_buckets existing sqls in
    with_count (length to_execute) (execute_all to_execute db)

-- `execute_partition_creation`: the number of statements, and the tables after them
pub execute_partition_creation :
    KeyType → ℕ → ℕ → ℕ → ℕ → List Partition → Option (ℕ × List Partition)
execute_partition_creation key_type day start_date end_date hash_buckets db =
    let range_exists = table_exists day db in
    let existing = if range_exists && ltb 0 hash_buckets then list_partitions day db else [] in
    let created =
      execute_new range_exists hash_buckets existing
        (create_time_partition key_type day start_date end_date hash_buckets) db in
    if left_alone hash_buckets existing then some (0, db) else created

-- how the loop over the dates ends; an error leaves what the rounds before it did
pub data Outcome : Type 0 where
  done : ℕ → List Partition → Outcome
  failed : List Partition → Outcome
  out_of_fuel : Outcome

-- `if executed: new_partitions_count += 1`
abbrev pub counted_new : ℕ → ℕ → ℕ
counted_new executed count = if executed == 0 then count else count + 1

-- `while current_date < end_date`; the name of a round is the day of its date
pub create_from : ℕ → KeyType → ℕ → ℕ → ℕ → ℕ → ℕ → List Partition → Outcome
create_from zero key_type interval hash_buckets end_date current_date count db = out_of_fuel
create_from (suc fuel) key_type interval hash_buckets end_date current_date count db =
    elim (ltb current_date end_date) [
      | true ↦
          let next_date = min (current_date + interval) end_date in
          elim (execute_partition_creation key_type (current_date / day_ms) current_date next_date
            hash_buckets db) [
              | none ↦ failed db
              | some (executed, after) ↦
                  create_from fuel key_type interval hash_buckets end_date next_date
                    (counted_new executed count) after
            ]
      | false ↦ done count db
    ]

-- `create_partitions_for_date_range`, with the interval in days
pub create_partitions_for_date_range : ℕ → KeyType → ℕ → ℕ → ℕ → ℕ → List Partition → Outcome
create_partitions_for_date_range fuel key_type partition_interval hash_buckets start_date end_date
      db =
    create_from fuel key_type (partition_interval * day_ms) hash_buckets end_date start_date 0 db

-- `drop_old_partitions` on `today`: the number of tables dropped, and the others
pub drop_old_partitions : ℕ → ℕ → ℕ → List Partition → ℕ × List Partition
drop_old_partitions today max_days interval [] = (0, [])
drop_old_partitions today max_days interval (p ∷ db) =
    let (dropped, rest) = drop_old_partitions today max_days interval db in
    if ltb (p.day + interval) (today - max_days) then (dropped + 1, rest) else (dropped, p ∷ rest)
