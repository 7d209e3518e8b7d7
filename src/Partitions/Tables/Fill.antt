-- ===== src/Partitions/Tables/Fill.antt =====
-- Partitions whose parts by hash all have one modulus, and the creation of those that are missing.
use fork_glitchtip_glitchtip.Common.{
  ℕ, suc, ◌%◌, ◌<◌, ◌≤◌, ◌≡◌, ◌≢◌, inl, inr, true, false, Option, some, List, [], ◌∷◌, any, All,
  ==_iff, ==_refl, if◌then◌else◌, min, refl, ◌∙◌, ap, arith, Bool-cases,
}
use native.Mathlib.Nat.{mod_self, mod-eq_of_lt}
use fork_glitchtip_glitchtip.Partitions.Tables.{
  Child, Partition, named, found_partition, is_bucket, has_bucket, clashes_with, clashes, new_child,
  add_child, change_partition,
}

unfoldable pub count_bucket : ℕ → List Child → ℕ
count_bucket i [] = 0
count_bucket i (c ∷ children) =
    let rest = count_bucket i children in if has_bucket i c then suc rest else rest

-- a part of a set with one modulus, named by its remainder
pub record IsPart (modulus : ℕ) (c : Child) : Type 0 where
  pub bucket_same : c.bucket ≡ some c.remainder
  pub modulus_same : c.modulus ≡ some modulus
  pub small : c.remainder < modulus

pub record HasParts (modulus : ℕ) (p : Partition) : Type 0 where
  pub is_hashed : p.hashed ≡ true
  pub parts : All (IsPart modulus) p.children
  pub once : (i : ℕ) → count_bucket i p.children ≤ 1

pub any_bucket_true :
    (i : ℕ) (children : List Child)
    → 0 < count_bucket i children
    → any (has_bucket i) children ≡ true
unfolding count_bucket
any_bucket_true i [] h = absurd (omega (arith, h))
any_bucket_true i (c ∷ children) h = elim (Bool-cases (has_bucket i c)) [
  | inl e ↦ rw e refl
  | inr e ↦ rw e (any_bucket_true i children (ground (arith, h, e)))
]

pub any_bucket_false :
    (i : ℕ) (children : List Child)
    → count_bucket i children ≡ 0
    → any (has_bucket i) children ≡ false
unfolding count_bucket
any_bucket_false i [] h = refl
any_bucket_false i (c ∷ children) h = elim (Bool-cases (has_bucket i c)) [
  | inl e ↦ absurd (ground (arith, h, e))
  | inr e ↦ rw e (any_bucket_false i children (ground (arith, h, e)))
]

-- `i` and `r` below the modulus of both parts
same_modulus : (n i r : ℕ) → i < n → r < n → r ≢ i → clashes_with n i (some n) r ≡ false
same_modulus n i r p q different =
    let whole : n % n ≡ 0 = mod_self n in
    let least : min n n ≡ n = omega arith in
    let left : i % n ≡ i = mod-eq_of_lt p in
    let right : r % n ≡ r = mod-eq_of_lt q in
    rw (whole, least, left, right) (ground (arith, different))

no_clash :
    (n i : ℕ) (children : List Child)
    → i < n
    → All (IsPart n) children
    → count_bucket i children ≡ 0
    → any (clashes n i) children ≡ false
unfolding count_bucket
no_clash n i [] p parts h = refl
no_clash n i (c ∷ children) p (part, parts) h = elim (Bool-cases (has_bucket i c)) [
  | inl e ↦ absurd (ground (arith, h, e))
  | inr e ↦
      let other : c.remainder ≢ i = λ same.
        absurd
          (ground (arith, e, ap (is_bucket i) part.bucket_same, (==_iff c.remainder i).1 same)) in
      let here : clashes n i c ≡ false =
        ap (λ m. clashes_with n i m c.remainder) part.modulus_same
        ∙ same_modulus n i c.remainder p part.small other in
      rw here (no_clash n i children p parts (ground (arith, h, e)))
]

unfoldable pub with_new : ℕ → ℕ → Partition → Partition
with_new n i p = record p { children = new_child n i ∷ p.children }

pub add_child-HasParts :
    (n i : ℕ) (p : Partition)
    → i < n
    → HasParts n p
    → count_bucket i p.children ≡ 0
    → add_child n i p ≡ some (with_new n i p)
unfolding add_child with_new
add_child-HasParts n i p small has h =
    rw (any_bucket_false i p.children h, has.is_hashed, no_clash n i p.children small has.parts h)
      refl

pub with_new-count_same :
    (n i : ℕ) (p : Partition)
    → count_bucket i (with_new n i p).children ≡ suc (count_bucket i p.children)
unfolding with_new count_bucket
with_new-count_same n i p = rw (==_refl i) refl

pub with_new-count_other :
    (n i j : ℕ) (p : Partition)
    → i ≢ j
    → count_bucket j (with_new n i p).children ≡ count_bucket j p.children
unfolding with_new count_bucket
with_new-count_other n i j p other = ground (arith, other)

pub with_new-HasParts :
    (n i : ℕ) (p : Partition)
    → i < n
    → HasParts n p
    → count_bucket i p.children ≡ 0
    → HasParts n (with_new n i p)
unfolding with_new count_bucket
with_new-HasParts n i p small has h = record {
  is_hashed = has.is_hashed;
  parts = (record { bucket_same = refl; modulus_same = refl; small = small }, has.parts);
  once = λ j. ground (arith, h, has.once j, has.once i);
}

-- the same tables with another partition of the day
unfoldable pub replaced : ℕ → Partition → List Partition → List Partition
replaced day q [] = []
replaced day q (p ∷ db) = let rest = replaced day q db in if named day p then q ∷ db else p ∷ rest

pub change_partition-found :
    (change : Partition → Option Partition) (day : ℕ) (p q : Partition) (db : List Partition)
    → found_partition day db ≡ some p
    → change p ≡ some q
    → change_partition change day db ≡ some (replaced day q db)
unfolding found_partition change_partition replaced
change_partition-found change day p q [] found e = cc
change_partition-found change day p q (r ∷ db) found e = elim (Bool-cases (named day r)) [
  | inl is ↦ let same : r ≡ p = cc (rw is at found) in rw (is, same, e) refl
  | inr is ↦ rw (is, change_partition-found change day p q db (rw is at found) e) refl
]

pub replaced-found :
    (day : ℕ) (p q : Partition) (db : List Partition)
    → named day q ≡ true
    → found_partition day db ≡ some p
    → found_partition day (replaced day q db) ≡ some q
unfolding found_partition replaced
replaced-found day p q [] is found = cc
replaced-found day p q (r ∷ db) is found = elim (Bool-cases (named day r)) [
  | inl here ↦ rw (here, is) refl
  | inr here ↦ rw (here, here) (replaced-found day p q db is (rw here at found))
]

pub replaced-replaced :
    (day : ℕ) (q r : Partition) (db : List Partition)
    → named day q ≡ true
    → replaced day r (replaced day q db) ≡ replaced day r db
unfolding replaced
replaced-replaced day q r [] is = refl
replaced-replaced day q r (p ∷ db) is = elim (Bool-cases (named day p)) [
  | inl here ↦ rw (here, is) refl
  | inr here ↦ rw (here, here, replaced-replaced day q r db is) refl
]

pub replaced_self :
    (day : ℕ) (p : Partition) (db : List Partition)
    → found_partition day db ≡ some p
    → replaced day p db ≡ db
unfolding found_partition replaced
replaced_self day p [] found = refl
replaced_self day p (q ∷ db) found = elim (Bool-cases (named day q)) [
  | inl here ↦ let same : p ≡ q = cc (rw here at found) in rw (here, same) refl
  | inr here ↦ rw (here, replaced_self day p db (rw here at found)) refl
]
