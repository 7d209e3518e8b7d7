-- ===== src/Partitions/Manager/Grid.antt =====
-- Tables whose partitions stand on a grid of `width` days, and the tables that take a row of them.
use fork_glitchtip_glitchtip.Common.{
  ℕ, suc, ◌+◌, ◌*◌, ◌%◌, ◌<◌, ◌≤◌, ◌≡◌, ◌≢◌, ◌⊎◌, inl, inr, Bool, false, ◌&&◌, Option, none, some,
  List, [], ◌∷◌, All, ltb, leb, ◌==◌, if◌then◌else◌, ◌∙◌, ap, arith, Bool-cases,
}
use native.Mathlib.Nat.{mul-le-mul_right}
use fork_glitchtip_glitchtip.Partitions.Tables.{Child, Partition, day_ms, named}
use fork_glitchtip_glitchtip.Partitions.Tables.Fill.{HasParts}
use fork_glitchtip_glitchtip.Partitions.Manager.{KeyType}
use fork_glitchtip_glitchtip.Partitions.Manager.Creation.{point, point-lt}

pub record OnGrid (key_type : KeyType) (n width base : ℕ) (p : Partition) : Type 0 where
  pub index : ℕ
  pub at_index : p.day ≡ base + index * width
  pub from_day : p.low ≡ point key_type (p.day * day_ms)
  pub to_day : p.high ≡ point key_type ((p.day + width) * day_ms)
  pub has : HasParts n p

unfoldable pub count_day : ℕ → List Partition → ℕ
count_day day [] = 0
count_day day (p ∷ db) = let rest = count_day day db in if named day p then suc rest else rest

pub record IsGrid (key_type : KeyType) (n width base : ℕ) (db : List Partition) : Type 0 where
  pub partitions : All (OnGrid key_type n width base) db
  pub once : (day : ℕ) → count_day day db ≤ 1

abbrev pub takes : ℕ → Option ℕ → ℕ → Bool
takes h none r = false
takes h (some m) r = h % m == r

-- the parts that take a row whose hash is `h`
unfoldable pub parts_for : ℕ → List Child → ℕ
parts_for h [] = 0
parts_for h (c ∷ children) =
    let rest = parts_for h children in if takes h c.modulus c.remainder then suc rest else rest

abbrev pub contains : ℕ → Partition → Bool
contains key p = leb p.low key && ltb key p.high

-- the tables that take a row with this key and this hash
unfoldable pub tables_for : ℕ → ℕ → List Partition → ℕ
tables_for key h [] = 0
tables_for key h (p ∷ db) =
    let rest = tables_for key h db in
    let parts = if p.hashed then parts_for h p.children else 1 in
    if contains key p then parts + rest else rest

next_le : (i k width : ℕ) → i < k → i * width + width ≤ k * width
next_le i k width less =
    let le : suc i * width ≤ k * width = mul-le-mul_right width less in grind (arith, le)

pub point-le : (key_type : KeyType) (a b : ℕ) → a ≤ b → point key_type a ≤ point key_type b
point-le key_type a b p = elim (Bool-cases (a == b)) [
  | inl e ↦ let same : a ≡ b = ground (arith, e) in rw same (omega arith)
  | inr e ↦ omega (arith, point-lt key_type a b (ground (arith, p, e)))
]

-- two partitions of the grid: one ends before the other begins, or their days are one
module _ (key_type : KeyType) (n width base k : ℕ) where
  pub apart :
      (p : Partition)
      → OnGrid key_type n width base p
      → p.day ≢ base + k * width
      → (p.high ≤ point key_type ((base + k * width) * day_ms))
        ⊎ (point key_type ((base + k * width + width) * day_ms) ≤ p.low)
  apart p grid other = elim (Bool-cases (ltb grid.index k)) [
    | inl e ↦ inl (
        rw grid.to_day (
          point-le key_type ((p.day + width) * day_ms) ((base + k * width) * day_ms)
            (omega (arith, grid.at_index, next_le grid.index k width (ground (arith, e))))))
    | inr e ↦ inr (
        rw grid.from_day (
          point-le key_type ((base + k * width + width) * day_ms) (p.day * day_ms) (
            omega (
              arith,
              grid.at_index,
              next_le k grid.index width (
                  after grid.index (ground (arith, e))
                    (λ same. other (grid.at_index ∙ ap {B = ℕ} (λ i. base + i * width) same))),
            ))))
  ]
    where
      after : (i : ℕ) → k ≤ i → i ≢ k → k < i
      after i le other = ground (arith, le, other)
