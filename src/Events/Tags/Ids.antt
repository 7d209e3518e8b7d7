-- ===== src/Events/Tags/Ids.antt =====
-- Every key and value of the tags of a batch gets an id, and texts keep the ids that they have.
use Prim.Native.Nat.{Ordering}
use Prim.Native.String
use Prim.Native.String.{String}
use text.Mathlib.TextEquality.{eq_iff, path_by_compare}
use fork_glitchtip_glitchtip.Common.{
  ℕ, ◌≡◌, inl, inr, Option, none, some, List, [], ◌∷◌, All, refl, sym, subst, Bool-cases,
}
use fork_glitchtip_glitchtip.Events.Tags.{
  TextTable, same_tag_text, placed, insert_sorted, sorted_set, insert_text, insert_texts,
}

-- The text has an id.
abbrev pub HasId : TextTable → String → Type 0
HasId table t = (i : ℕ) × (table.ids t ≡ some i)

ids_differ :
    (table : TextTable) (t u : String) (i : ℕ)
    → table.ids t ≡ none
    → table.ids u ≡ some i
    → ¬ (u ≡ t)
ids_differ table t u i missing there e = cc

insert-keeps :
    (t : String) (row : Option ℕ) (table : TextTable) (u : String) (i : ℕ)
    → table.ids t ≡ row
    → table.ids u ≡ some i
    → (insert_text t row table).ids u ≡ some i
unfolding insert_text
insert-keeps t (some old) table u i at mine = mine
insert-keeps t none table u i at mine = elim (Bool-cases (same_tag_text u t)) [
  | inl same ↦ let e = (eq_iff u t).0 same in absurd (ids_differ table t u i at mine e)
  | inr other ↦ rw other mine
]

pub insert_texts-keeps :
    (ts : List String) (table : TextTable) (u : String) (i : ℕ)
    → table.ids u ≡ some i
    → (insert_texts ts table).ids u ≡ some i
unfolding insert_texts
insert_texts-keeps [] table u i mine = mine
insert_texts-keeps (t ∷ ts) table u i mine =
    insert_texts-keeps ts _ u i (insert-keeps t (table.ids t) table u i refl mine)

insert-HasId :
    (t : String) (row : Option ℕ) (table : TextTable)
    → table.ids t ≡ row
    → HasId (insert_text t row table) t
unfolding insert_text
insert-HasId t (some old) table at = (old, at)
insert-HasId t none table at = (table.next_id, rw ((eq_iff t t).1 refl) refl)

insert_texts-HasId : (ts : List String) (table : TextTable) → All (HasId (insert_texts ts table)) ts
unfolding insert_texts
insert_texts-HasId [] table = tt
insert_texts-HasId (t ∷ ts) table =
    let (i, at) = insert-HasId t (table.ids t) table refl in
    ((i, insert_texts-keeps ts _ t i at), insert_texts-HasId ts _)

module _ (P : String → Type 0) where
  All-placed :
      (o : Ordering) (t u : String) (us rest : List String)
      → String.compare t u ≡ o
      → (All P rest → P t × All P us)
      → All P (placed o t u us rest)
      → P t × All P (u ∷ us)
  All-placed Ordering.lt t u us rest at go all = all
  All-placed Ordering.eq t u us rest at go (first, all) =
      (subst P (sym (path_by_compare t u at)) first, (first, all))
  All-placed Ordering.gt t u us rest at go (first, all) =
      let (mine, others) = go all in (mine, (first, others))

  All-insert_sorted : (t : String) (us : List String) → All P (insert_sorted t us) → P t × All P us
  unfolding insert_sorted
  All-insert_sorted t [] (first, rest) = (first, tt)
  All-insert_sorted t (u ∷ us) all =
      All-placed (String.compare t u) t u us (insert_sorted t us) refl (All-insert_sorted t us) all

  All-sorted_set : (ts : List String) → All P (sorted_set ts) → All P ts
  unfolding sorted_set
  All-sorted_set [] all = tt
  All-sorted_set (t ∷ ts) all =
      let (first, rest) = All-insert_sorted t (sorted_set ts) all in (first, All-sorted_set ts rest)

-- Each text of a batch has an id after its insert.
pub all_texts-HasId :
    (ts : List String) (table : TextTable) → All (HasId (insert_texts (sorted_set ts) table)) ts
all_texts-HasId ts table =
    All-sorted_set (HasId (insert_texts (sorted_set ts) table)) ts
      (insert_texts-HasId (sorted_set ts) table)
