-- ===== src/Events/Tags/Clean.antt =====
-- What the cleaning of an event's tags leaves.
use Prim.Native.Char.{code}
use Prim.Native.String
use Prim.Native.String.{String}
use text.Mathlib.TextEquality.{eq_iff}
use text.Mathlib.TextLemmas.{length-cons}
use fork_glitchtip_glitchtip.Common.{
  ℕ, zero, suc, ◌≤◌, ◌≡◌, inl, inr, Bool, true, false, ◌||◌, List, [], ◌∷◌, ◌==◌, refl, sym, arith,
  Bool-cases,
}
use fork_glitchtip_glitchtip.Events.Tags.{
  max_tag_length, nul_free, clean_string, cut_text, tag_text, same_tag_text, set_tag, clean_tags,
}

-- At most 255 characters, none of them NUL.
unfoldable pub IsStorable : String → Type 0
IsStorable s = (String.count s ≤ max_tag_length) × (nul_free s ≡ true)

pub nul_free-clean_string : (s : String) → nul_free (clean_string s) ≡ true
unfolding clean_string nul_free
nul_free-clean_string String.[] = refl
nul_free-clean_string (String.◌∷◌ c s) = elim (Bool-cases (code c == 0)) [
  | inl bad ↦ rw bad (nul_free-clean_string s)
  | inr good ↦ rw (good, good) (nul_free-clean_string s)
]

pub count-clean_string : (s : String) → String.count (clean_string s) ≤ String.count s
unfolding clean_string
count-clean_string String.[] = omega arith
count-clean_string (String.◌∷◌ c s) =
    let rest = count-clean_string s in
    let whole = length-cons c s in
    elim (Bool-cases (code c == 0)) [
      | inl bad ↦ rw bad (omega (arith, rest, whole))
      | inr good ↦ rw good (omega (arith, rest, whole, length-cons c (clean_string s)))
    ]

pub count-cut_text : (n : ℕ) (s : String) → String.count (cut_text n s) ≤ n
unfolding cut_text
count-cut_text zero s = omega arith
count-cut_text (suc n) String.[] = omega arith
count-cut_text (suc n) (String.◌∷◌ c s) =
    omega (arith, count-cut_text n s, length-cons c (cut_text n s))

nul_free-cut_text : (n : ℕ) (s : String) → nul_free s ≡ true → nul_free (cut_text n s) ≡ true
unfolding cut_text nul_free
nul_free-cut_text zero s free = refl
nul_free-cut_text (suc n) String.[] free = refl
nul_free-cut_text (suc n) (String.◌∷◌ c s) free = elim (Bool-cases (code c == 0)) [
  | inl bad ↦ absurd (ground arith)
  | inr good ↦ rw good (nul_free-cut_text n s (ground arith))
]

tag_text-IsStorable : (s : String) → IsStorable (tag_text s)
unfolding tag_text IsStorable
tag_text-IsStorable s = (
  count-cut_text max_tag_length (clean_string s),
  nul_free-cut_text max_tag_length (clean_string s) (nul_free-clean_string s),
)

pub has_key : String → List (String × String) → Bool
has_key key [] = false
has_key key ((k, v) ∷ tags) = same_tag_text k key || has_key key tags

-- Different keys, and texts that can be stored.
unfoldable pub IsClean : List (String × String) → Type 0
IsClean [] = Unit
IsClean ((k, v) ∷ tags) = (has_key k tags ≡ false) × IsStorable k × IsStorable v × IsClean tags

neither : (a b : Bool) → (a || b) ≡ false → (a ≡ false) × (b ≡ false)
neither true b none_holds = absurd (ground arith)
neither false b none_holds = (refl, none_holds)

other_way : (s t : String) → same_tag_text s t ≡ false → same_tag_text t s ≡ false
other_way s t apart = elim (Bool-cases (same_tag_text t s)) [
  | inl same ↦
      let there = (eq_iff s t).1 (sym ((eq_iff t s).0 same)) in
      absurd (ground (arith, there, apart))
  | inr other ↦ other
]

has_key-set_tag :
    (k key value : String) (tags : List (String × String))
    → has_key k tags ≡ false
    → same_tag_text key k ≡ false
    → has_key k (set_tag key value tags) ≡ false
unfolding has_key set_tag
has_key-set_tag k key value [] free other = rw other refl
has_key-set_tag k key value ((l, v) ∷ tags) free other =
    let (apart, rest) = neither (same_tag_text l k) (has_key k tags) free in
    elim (Bool-cases (same_tag_text l key)) [
      | inl same ↦ rw same free
      | inr away ↦ rw (away, apart) (has_key-set_tag k key value tags rest other)
    ]

set_tag-IsClean :
    (key value : String) (tags : List (String × String))
    → IsStorable key
    → IsStorable value
    → IsClean tags
    → IsClean (set_tag key value tags)
unfolding set_tag IsClean has_key
set_tag-IsClean key value [] k v clean = (refl, k, v, tt)
set_tag-IsClean key value ((l, w) ∷ tags) k v (free, a, b, clean) =
    elim (Bool-cases (same_tag_text l key)) [
      | inl same ↦ rw same (free, a, v, clean)
      | inr other ↦ rw other (
        has_key-set_tag l key value tags free (other_way l key other),
        a,
        b,
        set_tag-IsClean key value tags k v clean,
      )
    ]

IsClean-clean_tags :
    (tags done : List (String × String)) → IsClean done → IsClean (clean_tags tags done)
unfolding clean_tags
IsClean-clean_tags [] done clean = clean
IsClean-clean_tags ((k, v) ∷ tags) done clean =
    IsClean-clean_tags tags (set_tag (tag_text k) (tag_text v) done) (
      set_tag-IsClean (tag_text k) (tag_text v) done (tag_text-IsStorable k) (tag_text-IsStorable v)
        clean)

-- The tags that `update_tags` stores of an event have different keys, and keys and values of at most 255
-- characters without NUL.
pub clean_tags-IsClean : (tags : List (String × String)) → IsClean (clean_tags tags [])
clean_tags-IsClean tags = IsClean-clean_tags tags [] (unfold IsClean in tt)
