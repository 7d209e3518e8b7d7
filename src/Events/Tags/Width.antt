-- ===== src/Events/Tags/Width.antt =====
-- The width of a sorted set of texts is at most that of the texts.
use Prim.Native.Nat.{Ordering}
use Prim.Native.String
use Prim.Native.String.{String}
use fork_glitchtip_glitchtip.Common.{ℕ, ◌+◌, ◌≤◌, List, [], ◌∷◌, arith}
use fork_glitchtip_glitchtip.Events.Tags.{placed, insert_sorted, sorted_set}

-- the characters of texts, each with a space behind it
unfoldable pub width : List String → ℕ
width [] = 0
width (s ∷ rest) = String.count s + 1 + width rest

width-placed :
    (o : Ordering) (t u : String) (us rest : List String)
    → width rest ≤ String.count t + 1 + width us
    → width (placed o t u us rest) ≤ String.count t + 1 + width (u ∷ us)
unfolding width
width-placed Ordering.lt t u us rest h = omega arith
width-placed Ordering.eq t u us rest h = omega arith
width-placed Ordering.gt t u us rest h = omega arith

width-insert_sorted :
    (t : String) (us : List String) → width (insert_sorted t us) ≤ String.count t + 1 + width us
unfolding insert_sorted
width-insert_sorted t [] = unfold width in omega arith
width-insert_sorted t (u ∷ us) =
    width-placed (String.compare t u) t u us (insert_sorted t us) (width-insert_sorted t us)

pub width-sorted_set : (ts : List String) → width (sorted_set ts) ≤ width ts
unfolding sorted_set width
width-sorted_set [] = omega arith
width-sorted_set (t ∷ ts) =
    omega (arith, width-insert_sorted t (sorted_set ts), width-sorted_set ts)
