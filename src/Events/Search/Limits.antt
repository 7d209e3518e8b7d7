-- ===== src/Events/Search/Limits.antt =====
-- The length of the searched text, and where it is cut.
use Prim.Native.Char.{Char, code}
use Prim.Native.String
use Prim.Native.String.{String}
use fork_glitchtip_glitchtip.Common.{
  ℕ, zero, suc, ◌≤◌, ◌<◌, ◌≡◌, ◌⊎◌, inl, inr, Bool, true, false, Option, none, some, ◌==◌,
  if◌then◌else◌, refl, arith, Bool-cases,
}
use fork_glitchtip_glitchtip.Events.Tags.{clean_string, cut_text}
use fork_glitchtip_glitchtip.Events.Tags.{nul_free}
use fork_glitchtip_glitchtip.Events.Tags.Clean.{nul_free-clean_string, count-clean_string}
use fork_glitchtip_glitchtip.Events.Search.{
  ParseResult, SearchedEvent, max_vector_length, rfind_space, limit_of, limit_vector,
  get_search_vector,
}
use fork_glitchtip_glitchtip.Events.Search.Parts.{joined, count-joined}

-- a space at a position
space_at : ℕ → String → Bool
space_at i String.[] = false
space_at zero (String.◌∷◌ c s) = code c == 32
space_at (suc i) (String.◌∷◌ c s) = space_at i s

-- No space from a position on, below another.
abbrev NoSpace : ℕ → ℕ → String → Type 0
NoSpace i n s = (j : ℕ) → i ≤ j → j < n → space_at j s ≡ false

-- what the search for the last space gives
abbrev IsLast : ℕ → String → Option ℕ → Type 0
IsLast n s none = NoSpace 0 n s
IsLast n s (some i) = (i < n) × (space_at i s ≡ true) × NoSpace (suc i) n s

IsLast-step :
    (n : ℕ) (c : Char) (s : String) (o : Option ℕ)
    → IsLast n s o
    → IsLast
        (suc n)
        (String.◌∷◌ c s)
        (elim o [ none ↦ if code c == 32 then some 0 else none | some i ↦ some (suc i) ])
unfolding space_at
IsLast-step n c s none clear = elim (Bool-cases (code c == 32)) [
  | inl space ↦ rw space (omega arith, space, λ j. later j)
  | inr other ↦ rw other (λ j. here other j)
]
  where
    later : (j : ℕ) → 1 ≤ j → j < suc n → space_at j (String.◌∷◌ c s) ≡ false
    later zero low high = absurd (omega arith)
    later (suc j) low high = clear j (omega arith) (omega arith)

    here :
        (code c == 32) ≡ false → (j : ℕ) → 0 ≤ j → j < suc n → space_at j (String.◌∷◌ c s) ≡ false
    here other zero low high = other
    here other (suc j) low high = clear j (omega arith) (omega arith)
IsLast-step n c s (some i) (near, space, clear) = (omega arith, space, λ j. later j)
  where
    later : (j : ℕ) → suc (suc i) ≤ j → j < suc n → space_at j (String.◌∷◌ c s) ≡ false
    later zero low high = absurd (omega arith)
    later (suc j) low high = clear j (omega arith) (omega arith)

rfind_space-IsLast : (n : ℕ) (s : String) → IsLast n s (rfind_space n s)
unfolding rfind_space space_at
rfind_space-IsLast zero s = λ j low high. absurd (omega arith)
rfind_space-IsLast (suc n) String.[] = λ j low high. refl
rfind_space-IsLast (suc n) (String.◌∷◌ c s) =
    IsLast-step n c s (rfind_space n s) (rfind_space-IsLast n s)

limit_vector_short : (s : String) → String.count s ≤ max_vector_length → limit_vector s ≡ s
unfolding limit_vector
limit_vector_short s short = ground arith

-- Whatever the title, the transaction, the URL and the filenames are, the searched text of an event has at
-- most 1258 characters, none of them NUL, and is that of the sorted parts joined by spaces: the cut
-- at 2048 characters is never reached.
pub get_search_vector-bounded :
    (urlparse : String → Option ParseResult) (basename : String → String) (e : SearchedEvent)
    → (String.count (get_search_vector urlparse basename e) ≤ 1258)
      × (nul_free (get_search_vector urlparse basename e) ≡ true)
      × (get_search_vector urlparse basename e ≡ clean_string (joined urlparse basename e))
unfolding get_search_vector
get_search_vector-bounded urlparse basename e =
    let s = joined urlparse basename e in
    let few = count-joined urlparse basename e in
    let whole = limit_vector_short s (omega (arith, few)) in
    rw whole (omega (arith, few, count-clean_string s), nul_free-clean_string s, refl)

-- what is left of a text that is too long: it is cut at the last of the spaces among its first 2048
-- characters, or after 2048 characters where none of them is a space
IsCutAtSpace : String → ℕ → Type 0
IsCutAtSpace s i =
    ((i < max_vector_length) × (space_at i s ≡ true) × NoSpace (suc i) max_vector_length s)
    ⊎ ((i ≡ max_vector_length) × NoSpace 0 max_vector_length s)

limit-IsCutAtSpace :
    (s : String) (o : Option ℕ) → IsLast max_vector_length s o → IsCutAtSpace s (limit_of o)
unfolding IsCutAtSpace
limit-IsCutAtSpace s none last = inr (refl, last)
limit-IsCutAtSpace s (some i) last = inl last

-- A text of more than 2048 characters is cut at the last space among its first 2048 characters, and after
-- 2048 characters where there is none, so that no word is broken but one that is too long itself.
limit_vector-IsCutAtSpace :
    (s : String)
    → max_vector_length < String.count s
    → (i : ℕ) × (limit_vector s ≡ cut_text i s) × IsCutAtSpace s i
unfolding limit_vector
limit_vector-IsCutAtSpace s long = (
  limit_of (rfind_space max_vector_length s),
  ground (arith, long),
  limit-IsCutAtSpace s (rfind_space max_vector_length s) (rfind_space-IsLast max_vector_length s),
)
