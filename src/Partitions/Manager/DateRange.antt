-- ===== src/Partitions/Manager/DateRange.antt =====
-- The loop over the dates: it ends, and on a grid every row of the dates has one table.
use fork_glitchtip_glitchtip.Common.{
  ℕ, zero, suc, ◌+◌, ◌*◌, ◌/◌, ◌^◌, ◌<◌, ◌≤◌, ◌≡◌, ◌≢◌, inl, inr, false, some, List, ltb, lt→ltb,
  le→ltb_false, min, refl, ◌∙◌, ap, arith, Bool-cases, Option-cases,
}
use native.Mathlib.Nat.{suc-mul, add-mul}
use fork_glitchtip_glitchtip.Partitions.Tables.{Partition, day_ms, found_partition}
use fork_glitchtip_glitchtip.Partitions.Manager.{
  KeyType, Outcome, done, out_of_fuel, counted_new, execute_partition_creation, create_from,
  create_partitions_for_date_range,
}
use fork_glitchtip_glitchtip.Partitions.Manager.Creation.{point}
use fork_glitchtip_glitchtip.Partitions.Manager.Grid.{IsGrid, tables_for}
use fork_glitchtip_glitchtip.Partitions.Manager.Rows.{tables_for_complete}
use fork_glitchtip_glitchtip.Partitions.Manager.Step.{step}

-- the loop from a date has its fuel left when it ends
create_from-ends :
    (fuel : ℕ) (key_type : KeyType) (interval n end current count : ℕ) (db : List Partition)
    → 0 < interval
    → end ≤ current + fuel * interval
    → create_from (suc fuel) key_type interval n end current count db ≢ out_of_fuel
unfolding create_from
create_from-ends zero key_type interval n end current count db positive enough =
    let over : ltb current end ≡ false = le→ltb_false current end (omega arith) in
    rw (create_from, over) (λ h. cc)
create_from-ends (suc fuel) key_type interval n end current count db positive enough =
    elim (Bool-cases (ltb current end)) [
      | inr e ↦ rw (create_from, e) (λ h. cc)
      | inl e ↦
          elim (Option-cases (
            execute_partition_creation key_type (current / day_ms) current
              (min (current + interval) end) n db)) [
                | inl error ↦ rw (create_from, e, error) (λ h. cc)
                | inr ((executed, after), ok) ↦
                    rw (create_from, e, ok)
                      (create_from-ends fuel key_type interval n end (min (current + interval) end)
                        (counted_new executed count) after positive
                        (omega (arith, suc-mul fuel interval)))
              ]
    ]

create_from-round :
    (fuel : ℕ) (key_type : KeyType) (interval n end current count day next executed : ℕ)
    (db after : List Partition)
    → current < end
    → current / day_ms ≡ day
    → min (current + interval) end ≡ next
    → execute_partition_creation key_type day current next n db ≡ some (executed, after)
    → create_from (suc fuel) key_type interval n end current count db
      ≡ create_from fuel key_type interval n end next (counted_new executed count) after
unfolding create_from
create_from-round fuel key_type interval n end current count day next executed db after less
      same_day same_next run =
    rw (create_from, lt→ltb current end less, same_day, same_next, run, same_next) refl

-- Whatever the tables are, for an interval of a day or more: the loop ends, with as many rounds as
-- there are intervals between the dates, counted up, and one more test.
pub create_partitions_for_date_range-ends :
    (fuel : ℕ) (key_type : KeyType) (interval n start end : ℕ) (db : List Partition)
    → 0 < interval
    → end ≤ start + fuel * (interval * day_ms)
    → create_partitions_for_date_range (suc fuel) key_type interval n start end db ≢ out_of_fuel
unfolding create_partitions_for_date_range
create_partitions_for_date_range-ends fuel key_type interval n start end db positive enough =
    create_from-ends fuel key_type (interval * day_ms) n end start 0 db (omega arith) enough

-- the end of the loop on a grid, from the day with the index `k`
record Covered (key_type : KeyType) (n width base k rounds : ℕ) (db : List Partition)
    (outcome : Outcome) : Type 0 where
  count : ℕ
  after : List Partition
  ended : outcome ≡ done count after
  grid : IsGrid key_type n width base after
  earlier : (e : ℕ) → e < base + k * width → found_partition e after ≡ found_partition e db
  one_table :
      (key h : ℕ)
      → point key_type ((base + k * width) * day_ms) ≤ key
      → key < point key_type ((base + (k + rounds) * width) * day_ms)
      → tables_for key h after ≡ 1

module _ (key_type : KeyType) (n width base end : ℕ) (positive : 0 < n) (wide : 0 < width)
    (small : end < 2 ^ 48) where
  create_from-Covered :
      (rounds fuel k count : ℕ) (db : List Partition)
      → rounds < fuel
      → end ≡ (base + (k + rounds) * width) * day_ms
      → IsGrid key_type n width base db
      → Covered key_type n width base k rounds db
          (create_from fuel key_type (width * day_ms) n end ((base + k * width) * day_ms) count db)
  unfolding create_from
  create_from-Covered rounds zero k count db enough last grid = absurd (omega arith)
  create_from-Covered zero (suc fuel) k count db enough last grid =
      let same : k + 0 ≡ k = omega arith in
      let over : ltb ((base + k * width) * day_ms) end ≡ false =
        le→ltb_false _ _ (omega (arith, rw same at last)) in
      rw (create_from, over)
        (record {
          count = count;
          after = db;
          ended = refl;
          grid = grid;
          earlier = λ e less. refl;
          one_table = λ key h from to. absurd (omega (arith, rw same at to));
        })
  create_from-Covered (suc rounds) (suc fuel) k count db enough last grid =
      let day = base + k * width in
      let product = add-mul (suc k) rounds width in
      let one_more = suc-mul k width in
      let sum : k + suc rounds ≡ suc k + rounds = omega arith in
      let last' : end ≡ (base + (suc k + rounds) * width) * day_ms = rw sum at last in
      let less : day * day_ms < end = omega (arith, last', product, one_more) in
      let same_day : day * day_ms / day_ms ≡ day = omega arith in
      let next : min (day * day_ms + width * day_ms) end ≡ (day + width) * day_ms =
        omega (arith, last', product, one_more) in
      let next' : (day + width) * day_ms ≡ (base + suc k * width) * day_ms =
        omega (arith, one_more) in
      let (executed, after, run, now) =
        step key_type n width base k positive wide (omega (arith, last', product, one_more, small))
          db grid in
      let rest =
        create_from-Covered rounds fuel (suc k) (counted_new executed count) after (omega arith)
          last' now.grid in
      let round =
        create_from-round fuel key_type (width * day_ms) n end (day * day_ms) count day
          ((day + width) * day_ms) executed db after less same_day next run in
      record {
        count = rest.count;
        after = rest.after;
        ended =
            round
            ∙ ap
                (λ t.
                  create_from fuel key_type (width * day_ms) n end t (counted_new executed count)
                    after)
                next'
            ∙ rest.ended;
        grid = rest.grid;
        earlier = λ e before. rest.earlier e (omega (arith, one_more)) ∙ now.others e (omega arith);
        one_table = λ key h from to.
            elim (Bool-cases (ltb key (point key_type ((day + width) * day_ms)))) [
              | inl e ↦
                  tables_for_complete key_type n width base k key h now.created rest.after positive
                    rest.grid (rest.earlier day (omega (arith, one_more)) ∙ now.found) now.complete
                    from (ground (arith, e))
              | inr e ↦ rest.one_table key h (rw (← next') (ground (arith, e))) (rw (← sum) to)
            ];
      }

-- For tables with a modulus above 0 that all stand on a grid of `width` days, at most one a day,
-- with parts by hash of that modulus, any of them missing: a run from a day of the grid over
-- `rounds` widths of days ends within its fuel and without an error, the tables stand on the grid
-- again, and every row whose key lies in the dates has exactly one table, whatever its hash is.
-- The dates are from the epoch on and fit in 48 bits.
pub create_partitions_for_date_range-covers :
    (fuel : ℕ) (key_type : KeyType) (n width base k rounds : ℕ) (db : List Partition)
    → 0 < n
    → 0 < width
    → rounds < fuel
    → (base + (k + rounds) * width) * day_ms < 2 ^ 48
    → IsGrid key_type n width base db
    → (count : ℕ) × (after : List Partition) × (create_partitions_for_date_range fuel key_type width
          n
          ((base + k * width) * day_ms)
          ((base + (k + rounds) * width) * day_ms)
          db
        ≡ done count after)
      × IsGrid key_type n width base after
      × ((key h : ℕ)
          → point key_type ((base + k * width) * day_ms) ≤ key
          → key < point key_type ((base + (k + rounds) * width) * day_ms)
          → tables_for key h after ≡ 1)
unfolding create_partitions_for_date_range
create_partitions_for_date_range-covers fuel key_type n width base k rounds db positive wide enough
      small grid =
    let all =
      create_from-Covered key_type n width base ((base + (k + rounds) * width) * day_ms) positive
        wide small rounds fuel k 0 db enough refl grid in
    (all.count, all.after, all.ended, all.grid, all.one_table)
