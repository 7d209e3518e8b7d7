-- ===== src/Partitions/Tables.antt =====
-- glitchtip/partition_manager.py: the partitions of one table by time, each with its parts by
-- hash, as the catalogue lists them, and what PostgreSQL does with the statements of
-- `create_time_partition` (its documented behaviour). A time is a number of milliseconds from the
-- epoch and a name `{parent_table}_{YYYYMMDD}` the number of its day, so that tables with other
-- names are left out. none stands for an error, which rolls the transaction back.
pub mod Fill
use fork_glitchtip_glitchtip.Common.{
  ℕ, zero, suc, ◌+◌, ◌-◌, ◌*◌, ◌/◌, ◌%◌, Bool, true, false, ◌&&◌, ◌||◌, not, Option, none, some,
  List, [], ◌∷◌, length, any, ltb, leb, ◌==◌, if◌then◌else◌, min, ◌>>=◌,
}

-- A part by hash: `bucket` is `some i` for a name that ends in `_h{i}`, and `modulus` what the
-- pattern `modulus\s+(\d+)` finds in its bounds.
pub record Child : Type 0 where
  pub bucket : Option ℕ
  pub modulus : Option ℕ
  pub remainder : ℕ

pub record Partition : Type 0 where
  pub day : ℕ
  pub low : ℕ
  pub high : ℕ
  pub hashed : Bool
  pub children : List Child

-- the two CREATE TABLE IF NOT EXISTS statements of `create_time_partition`
pub data Statement : Type 0 where
  create_range : ℕ → ℕ → ℕ → Bool → Statement
  create_hash : ℕ → ℕ → ℕ → Statement

-- 86400 seconds
abbrev pub day_ms : ℕ
day_ms = 86400000

abbrev pub named : ℕ → Partition → Bool
named day p = p.day == day

-- `table_exists`
unfoldable pub table_exists : ℕ → List Partition → Bool
table_exists day db = any (named day) db

unfoldable pub found_partition : ℕ → List Partition → Option Partition
found_partition day [] = none
found_partition day (p ∷ db) =
    let rest = found_partition day db in if named day p then some p else rest

abbrev pub children_of : Option Partition → List Child
children_of none = []
children_of (some p) = p.children

-- `list_partitions` of a partition
unfoldable pub list_partitions : ℕ → List Partition → List Child
list_partitions day db = children_of (found_partition day db)

abbrev pub is_bucket : ℕ → Option ℕ → Bool
is_bucket i none = false
is_bucket i (some j) = j == i

abbrev pub has_bucket : ℕ → Child → Bool
has_bucket i c = is_bucket i c.bucket

-- ranges that share a point
abbrev pub overlaps : ℕ → ℕ → Partition → Bool
overlaps low high p = ltb low p.high && ltb p.low high

-- Parts by hash that share a value, or whose moduli do not divide one another, which PostgreSQL
-- refuses. A part without a modulus does not stand below a table that is partitioned by hash.
abbrev pub clashes_with : ℕ → ℕ → Option ℕ → ℕ → Bool
clashes_with modulus remainder none r = true
clashes_with modulus remainder (some m) r =
    not ((m % modulus == 0) || (modulus % m == 0))
    || (remainder % min modulus m == r % min modulus m)

abbrev pub clashes : ℕ → ℕ → Child → Bool
clashes modulus remainder c = clashes_with modulus remainder c.modulus c.remainder

abbrev pub new_child : ℕ → ℕ → Child
new_child modulus i = record { bucket = some i; modulus = some modulus; remainder = i }

-- PARTITION OF a partition, FOR VALUES WITH (MODULUS, REMAINDER)
pub add_child : ℕ → ℕ → Partition → Option Partition
add_child modulus i p =
    if any (has_bucket i) p.children
    then some p
    else if p.hashed && not (any (clashes modulus i) p.children)
    then some (record p { children = new_child modulus i ∷ p.children })
    else none

abbrev pub put_back : Option Partition → List Partition → Option (List Partition)
put_back none db = none
put_back (some p) db = some (p ∷ db)

abbrev pub keep_first : Partition → Option (List Partition) → Option (List Partition)
keep_first p none = none
keep_first p (some db) = some (p ∷ db)

pub change_partition : (Partition → Option Partition) → ℕ → List Partition → Option (List Partition)
change_partition change day [] = none
change_partition change day (p ∷ db) =
    let rest = change_partition change day db in
    if named day p then put_back (change p) db else keep_first p rest

-- `cursor.execute(sql)`
unfoldable pub execute : Statement → List Partition → Option (List Partition)
execute (create_range day low high hashed) db =
    if table_exists day db
    then some db
    else if ltb low high && not (any (overlaps low high) db)
    then some (record { day = day; low = low; high = high; hashed = hashed; children = [] } ∷ db)
    else none
execute (create_hash day modulus i) db = change_partition (add_child modulus i) day db

unfoldable pub execute_all : List Statement → List Partition → Option (List Partition)
execute_all [] db = some db
execute_all (sql ∷ sqls) db = execute sql db >>= execute_all sqls
