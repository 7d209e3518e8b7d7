-- ===== src/Partitions/Manager/Retention.antt =====
-- `drop_old_partitions` on tables that stand on a grid.
use fork_glitchtip_glitchtip.Common.{
  ℕ, ◌+◌, ◌-◌, ◌*◌, ◌≤◌, ◌≡◌, inl, inr, true, false, List, [], ◌∷◌, All, length, ltb, refl, ap,
  arith, Bool-cases,
}
use fork_glitchtip_glitchtip.Partitions.Tables.{Partition, day_ms}
use fork_glitchtip_glitchtip.Partitions.Manager.{KeyType, drop_old_partitions}
use fork_glitchtip_glitchtip.Partitions.Manager.Creation.{point}
use fork_glitchtip_glitchtip.Partitions.Manager.Grid.{
  OnGrid, count_day, IsGrid, contains, tables_for, point-le,
}

module _ (key_type : KeyType) (n width base today max_days : ℕ) where
  abbrev kept : List Partition → List Partition
  kept db = (drop_old_partitions today max_days width db).1

  drop-old :
      (p : Partition) (db : List Partition)
      → ltb (p.day + width) (today - max_days) ≡ true
      → drop_old_partitions today max_days width (p ∷ db)
        ≡ ((drop_old_partitions today max_days width db).0 + 1, kept db)
  unfolding drop_old_partitions
  drop-old p db e = rw (drop_old_partitions, e) refl

  drop-young :
      (p : Partition) (db : List Partition)
      → ltb (p.day + width) (today - max_days) ≡ false
      → drop_old_partitions today max_days width (p ∷ db)
        ≡ ((drop_old_partitions today max_days width db).0, p ∷ kept db)
  unfolding drop_old_partitions
  drop-young p db e = rw (drop_old_partitions, e) refl

  kept-old :
      (p : Partition) (db : List Partition)
      → ltb (p.day + width) (today - max_days) ≡ true
      → kept (p ∷ db) ≡ kept db
  kept-old p db e = ap (λ r. r.1) (drop-old p db e)

  kept-young :
      (p : Partition) (db : List Partition)
      → ltb (p.day + width) (today - max_days) ≡ false
      → kept (p ∷ db) ≡ p ∷ kept db
  kept-young p db e = ap (λ r. r.1) (drop-young p db e)

  kept-All : (P : Partition → Type 0) (db : List Partition) → All P db → All P (kept db)
  unfolding drop_old_partitions
  kept-All P [] all = tt
  kept-All P (p ∷ db) (one, all) = elim (Bool-cases (ltb (p.day + width) (today - max_days))) [
    | inl e ↦ rw (kept-old p db e) (kept-All P db all)
    | inr e ↦ rw (kept-young p db e) (one, kept-All P db all)
  ]

  kept-count : (db : List Partition) (day : ℕ) → count_day day (kept db) ≤ count_day day db
  unfolding count_day drop_old_partitions
  kept-count [] day = omega arith
  kept-count (p ∷ db) day = elim (Bool-cases (ltb (p.day + width) (today - max_days))) [
    | inl e ↦ rw (kept-old p db e) (ground (arith, kept-count db day))
    | inr e ↦ rw (kept-young p db e) (ground (arith, kept-count db day))
  ]

  pub kept-IsGrid :
      (db : List Partition)
      → IsGrid key_type n width base db
      → IsGrid key_type n width base (kept db)
  kept-IsGrid db grid = record {
    partitions = kept-All (OnGrid key_type n width base) db grid.partitions;
    once = λ day. omega (arith, grid.once day, kept-count db day);
  }

  old_row :
      (p : Partition) (key : ℕ)
      → OnGrid key_type n width base p
      → ltb (p.day + width) (today - max_days) ≡ true
      → point key_type ((today - max_days) * day_ms) ≤ key
      → contains key p ≡ false
  old_row p key on old from =
      let less : (p.day + width) * day_ms ≤ (today - max_days) * day_ms = ground (arith, old) in
      ground (
        arith,
        on.to_day,
        from,
        point-le key_type ((p.day + width) * day_ms) ((today - max_days) * day_ms) less,
      )

  pub kept-rows :
      (key h : ℕ) (db : List Partition)
      → All (OnGrid key_type n width base) db
      → point key_type ((today - max_days) * day_ms) ≤ key
      → tables_for key h (kept db) ≡ tables_for key h db
  unfolding tables_for drop_old_partitions
  kept-rows key h [] grid from = refl
  kept-rows key h (p ∷ db) (on, grid) from =
      elim (Bool-cases (ltb (p.day + width) (today - max_days))) [
        | inl e ↦ rw (kept-old p db e, old_row p key on e from) (kept-rows key h db grid from)
        | inr e ↦ rw (kept-young p db e, kept-rows key h db grid from) refl
      ]

  kept_young : (db : List Partition) → All (λ p. today - max_days ≤ p.day + width) (kept db)
  unfolding drop_old_partitions
  kept_young [] = tt
  kept_young (p ∷ db) = elim (Bool-cases (ltb (p.day + width) (today - max_days))) [
    | inl e ↦ rw (kept-old p db e) (kept_young db)
    | inr e ↦ rw (kept-young p db e) (ground (arith, e), kept_young db)
  ]

  kept_length :
      (db : List Partition)
      → (drop_old_partitions today max_days width db).0 + length (kept db) ≡ length db
  unfolding drop_old_partitions
  kept_length [] = refl
  kept_length (p ∷ db) = elim (Bool-cases (ltb (p.day + width) (today - max_days))) [
    | inl e ↦ rw (drop-old p db e, kept-old p db e) (omega (arith, kept_length db))
    | inr e ↦ rw (drop-young p db e, kept-young p db e) (omega (arith, kept_length db))
  ]

  -- For tables on a grid of `width` days: what is dropped and what is left are all the tables, as
  -- many as are counted, no table is left that ends before the day of the threshold, the grid is
  -- kept, and a row whose key is from the threshold on has the same tables as before.
  pub drop_old_partitions-keeps :
      (db : List Partition)
      → IsGrid key_type n width base db
      → ((drop_old_partitions today max_days width db).0
            + length (drop_old_partitions today max_days width db).1
          ≡ length db)
        × All
            (λ p. today - max_days ≤ p.day + width)
            (drop_old_partitions today max_days width db).1
        × IsGrid key_type n width base (drop_old_partitions today max_days width db).1
        × ((key h : ℕ)
            → point key_type ((today - max_days) * day_ms) ≤ key
            → tables_for key h (drop_old_partitions today max_days width db).1
              ≡ tables_for key h db)
  drop_old_partitions-keeps db grid = (
    kept_length db,
    kept_young db,
    kept-IsGrid db grid,
    λ key h from. kept-rows key h db grid.partitions from,
  )
