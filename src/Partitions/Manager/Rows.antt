-- ===== src/Partitions/Manager/Rows.antt =====
-- A row of a day whose partition is complete has exactly one table.
use fork_glitchtip_glitchtip.Common.{
  ℕ, ◌+◌, ◌*◌, ◌%◌, ◌<◌, ◌≤◌, ◌≡◌, ◌≢◌, inl, inr, true, false, some, List, [], ◌∷◌, All, ◌==◌,
  if◌then◌else◌, refl, sym, ◌∙◌, ap, ap₂, arith, Bool-cases,
}
use native.Mathlib.Nat.{mod-lt}
use fork_glitchtip_glitchtip.Partitions.Tables.{
  Child, Partition, day_ms, named, found_partition, is_bucket, has_bucket,
}
use fork_glitchtip_glitchtip.Partitions.Tables.Fill.{count_bucket, IsPart}
use fork_glitchtip_glitchtip.Partitions.Manager.{KeyType}
use fork_glitchtip_glitchtip.Partitions.Manager.Creation.{point, IsComplete}
use fork_glitchtip_glitchtip.Partitions.Manager.Grid.{
  OnGrid, count_day, IsGrid, takes, parts_for, contains, tables_for, apart,
}

takes_bucket :
    (n h : ℕ) (c : Child) → IsPart n c → takes h c.modulus c.remainder ≡ has_bucket (h % n) c
takes_bucket n h c part =
    ap (λ m. takes h m c.remainder) part.modulus_same
    ∙ swap (h % n) c.remainder
    ∙ sym (ap (is_bucket (h % n)) part.bucket_same)
  where
    swap : (a b : ℕ) → (a == b) ≡ (b == a)
    swap a b = ground arith

parts_for-count :
    (n h : ℕ) (children : List Child)
    → All (IsPart n) children
    → parts_for h children ≡ count_bucket (h % n) children
unfolding parts_for count_bucket
parts_for-count n h [] parts = refl
parts_for-count n h (c ∷ children) (part, parts) =
    rw (takes_bucket n h c part, parts_for-count n h children parts) refl

module _ (key_type : KeyType) (n width base k : ℕ) where
  -- no partition of another day takes it
  outside :
      (p : Partition) (key : ℕ)
      → OnGrid key_type n width base p
      → p.day ≢ base + k * width
      → point key_type ((base + k * width) * day_ms) ≤ key
      → key < point key_type ((base + k * width + width) * day_ms)
      → contains key p ≡ false
  outside p key grid other from to =
      ground (arith, from, to, apart key_type n width base k p grid other)

  other_days :
      (key h : ℕ) (db : List Partition)
      → All (OnGrid key_type n width base) db
      → count_day (base + k * width) db ≡ 0
      → point key_type ((base + k * width) * day_ms) ≤ key
      → key < point key_type ((base + k * width + width) * day_ms)
      → tables_for key h db ≡ 0
  unfolding count_day tables_for
  other_days key h [] grid absent from to = refl
  other_days key h (p ∷ db) (on, grid) absent from to =
      elim (Bool-cases (named (base + k * width) p)) [
        | inl e ↦ absurd (ground (arith, absent, e))
        | inr e ↦
            let other : p.day ≢ base + k * width = ground (arith, e) in
            rw (outside p key on other from to) (other_days key h db grid (rw e at absent) from to)
      ]

  in_range :
      (key : ℕ) (p : Partition)
      → IsComplete n
          (base + k * width)
          (point key_type ((base + k * width) * day_ms))
          (point key_type ((base + k * width + width) * day_ms))
          p
      → point key_type ((base + k * width) * day_ms) ≤ key
      → key < point key_type ((base + k * width + width) * day_ms)
      → contains key p ≡ true
  in_range key p complete from to = ground (arith, from, to, complete.same_low, complete.same_high)

  pub tables_for_complete :
      (key h : ℕ) (p : Partition) (db : List Partition)
      → 0 < n
      → IsGrid key_type n width base db
      → found_partition (base + k * width) db ≡ some p
      → IsComplete n
          (base + k * width)
          (point key_type ((base + k * width) * day_ms))
          (point key_type ((base + k * width + width) * day_ms))
          p
      → point key_type ((base + k * width) * day_ms) ≤ key
      → key < point key_type ((base + k * width + width) * day_ms)
      → tables_for key h db ≡ 1
  unfolding count_day tables_for found_partition
  tables_for_complete key h p db positive grid found complete from to =
      go db grid.partitions (grid.once (base + k * width)) found
    where
      one : parts_for h p.children ≡ 1
      one =
          parts_for-count n h p.children complete.has.parts
          ∙ complete.full (h % n) (mod-lt h positive)

      parts_one : (if p.hashed then parts_for h p.children else 1) ≡ 1
      parts_one = ap₂ {C = ℕ} (λ b m. if b then m else 1) complete.has.is_hashed one

      here :
          (q : Partition) (db : List Partition)
          → q ≡ p
          → tables_for key h db ≡ 0
          → tables_for key h (q ∷ db) ≡ 1
      here q db same rest =
          rw (same, in_range key p complete from to, parts_one, rest) (omega arith)

      go :
          (db : List Partition)
          → All (OnGrid key_type n width base) db
          → count_day (base + k * width) db ≤ 1
          → found_partition (base + k * width) db ≡ some p
          → tables_for key h db ≡ 1
      go [] grid once found = cc
      go (q ∷ db) (on, grid) once found = elim (Bool-cases (named (base + k * width) q)) [
        | inl e ↦
            here q db (cc (rw e at found))
              (other_days key h db grid (ground (arith, once, e)) from to)
        | inr e ↦
            let other : q.day ≢ base + k * width = ground (arith, e) in
            rw (outside q key on other from to) (go db grid (rw e at once) (rw e at found))
      ]
