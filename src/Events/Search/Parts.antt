-- ===== src/Events/Search/Parts.antt =====
-- How long the joined parts of the searched text can be.
use Prim.Native.String
use Prim.Native.String.{String}
use text.Mathlib.TextLemmas.{length-append}
use fork_glitchtip_glitchtip.Common.{
  ℕ, zero, suc, ◌+◌, ◌*◌, ◌≤◌, ◌≡◌, inl, inr, Bool, true, false, not, Option, none, some, List, [],
  ◌∷◌, ◌++◌, keep, if◌then◌else◌, All, All-append, arith, Bool-cases,
}
use fork_glitchtip_glitchtip.Events.Tags.{sorted_set}
use fork_glitchtip_glitchtip.Events.Tags.Width.{width, width-sorted_set}
use fork_glitchtip_glitchtip.Events.Tags.Clean.{count-cut_text}
use fork_glitchtip_glitchtip.Events.Search.{
  ParseResult, SearchedEvent, max_search_part_length, max_filename_len, max_total_filenames,
  is_blank, is_nil, truncate_string, text_part, url_part, scheme_netloc, take, short_name,
  frame_names, filenames_to_add, join_spaces, search_parts, reversed, max_frames_per_stacktrace,
  max_stacktraces_to_process,
}

width-append : (xs ys : List String) → width (xs ++ ys) ≡ width xs + width ys
unfolding width
width-append [] ys = omega arith
width-append (x ∷ xs) ys = omega (arith, width-append xs ys)

width-keep : (p : String → Bool) (xs : List String) → width (keep p xs) ≤ width xs
unfolding width
width-keep p [] = omega arith
width-keep p (x ∷ xs) = elim (Bool-cases (p x)) [
  | inl kept ↦ rw kept (omega (arith, width-keep p xs))
  | inr gone ↦ rw gone (omega (arith, width-keep p xs))
]

count-join_spaces : (ts : List String) → String.count (join_spaces ts) ≤ width ts
unfolding join_spaces width
count-join_spaces [] = omega arith
count-join_spaces (s ∷ []) = omega arith
count-join_spaces (s ∷ t ∷ rest) =
    let others = count-join_spaces (t ∷ rest) in
    let inner = length-append " " (join_spaces (t ∷ rest)) in
    omega (arith, others, inner, length-append s (String.◌++◌ " " (join_spaces (t ∷ rest))))

count-truncate_string : (s : String) (n : ℕ) → String.count (truncate_string s n) ≤ n
unfolding truncate_string
count-truncate_string s n = elim (Bool-cases (is_blank s)) [
  | inl blank ↦ rw blank (omega arith)
  | inr full ↦ rw full (count-cut_text n s)
]

-- Each text has at most that many characters.
abbrev IsShort : ℕ → List String → Type 0
IsShort n = All (λ s. String.count s ≤ n)

short_name-le :
    (basename : String → String) (f : String)
    → String.count (short_name basename f) ≤ max_filename_len
unfolding short_name
short_name-le basename f = elim (Bool-cases (is_blank f)) [
  | inl blank ↦ rw blank (omega arith)
  | inr full ↦ rw full (count-truncate_string (basename f) max_filename_len)
]

frame_names-IsShort :
    (basename : String → String) (n : ℕ) (frames : List String)
    → IsShort max_filename_len (frame_names basename n frames)
unfolding frame_names
frame_names-IsShort basename zero frames = tt
frame_names-IsShort basename (suc n) [] = tt
frame_names-IsShort basename (suc n) (f ∷ frames) =
    elim (Bool-cases (is_blank (short_name basename f))) [
      | inl blank ↦ rw blank (frame_names-IsShort basename (suc n) frames)
      | inr full ↦ rw full (short_name-le basename f, frame_names-IsShort basename n frames)
    ]

filenames-IsShort :
    (basename : String → String) (n : ℕ) (exceptions : List (Option (List String)))
    → IsShort max_filename_len (filenames_to_add basename n exceptions)
unfolding filenames_to_add
filenames-IsShort basename zero exceptions = tt
filenames-IsShort basename (suc n) [] = tt
filenames-IsShort basename (suc n) (none ∷ exceptions) =
    filenames-IsShort basename (suc n) exceptions
filenames-IsShort basename (suc n) (some frames ∷ exceptions) =
    let names = frame_names basename max_frames_per_stacktrace (reversed frames []) in
    elim (Bool-cases (is_nil basename names)) [
      | inl empty ↦ rw empty (filenames-IsShort basename (suc n) exceptions)
      | inr full ↦ rw full (
          All-append (λ s. String.count s ≤ max_filename_len) names _
            (frame_names-IsShort basename max_frames_per_stacktrace (reversed frames []))
            (filenames-IsShort basename n exceptions))
    ]

width-take : (n m : ℕ) (xs : List String) → IsShort m xs → width (take n xs) ≤ n * (m + 1)
unfolding width take
width-take zero m xs short = omega arith
width-take (suc n) m [] short = omega arith
width-take (suc n) m (x ∷ xs) (first, short) = grind (arith, width-take n m xs short)

width-truncated :
    (s : String)
    → width (truncate_string s max_search_part_length ∷ []) ≤ max_search_part_length + 1
unfolding width
width-truncated s = omega (arith, count-truncate_string s max_search_part_length)

width-text_part : (s : String) → width (text_part s) ≤ max_search_part_length + 1
unfolding width
width-text_part s = elim (Bool-cases (is_blank s)) [
  | inl blank ↦ rw blank (omega arith)
  | inr full ↦ rw full (width-truncated s)
]

width-url_part :
    (o : Option ParseResult) (url : String) → width (url_part o url) ≤ max_search_part_length + 1
unfolding url_part width
width-url_part none url = width-truncated url
width-url_part (some parsed) url = elim (Bool-cases (is_blank (scheme_netloc parsed))) [
  | inl nowhere ↦
      elim (Bool-cases (is_blank (truncate_string parsed.path max_search_part_length))) [
        | inl blank ↦ rw (nowhere, blank) (omega arith)
        | inr full ↦ rw (nowhere, full) (width-truncated _)
      ]
  | inr placed ↦ rw placed (width-truncated _)
]

width-url :
    (b : Bool) (o : Option ParseResult) (url : String)
    → width (if b then [] else url_part o url) ≤ max_search_part_length + 1
width-url true o url = unfold width in omega arith
width-url false o url = width-url_part o url

width-search_parts :
    (urlparse : String → Option ParseResult) (basename : String → String) (e : SearchedEvent)
    → width (search_parts urlparse basename e) ≤ 1258
unfolding search_parts
width-search_parts urlparse basename e =
    let names = filenames_to_add basename max_stacktraces_to_process e.exception_frames in
    let url = if is_blank e.url then [] else url_part (urlparse e.url) e.url in
    let files =
      width-take max_total_filenames max_filename_len names
        (filenames-IsShort basename max_stacktraces_to_process e.exception_frames) in
    let place = width-url (is_blank e.url) (urlparse e.url) e.url in
    omega (
      arith,
      files,
      place,
      width-text_part e.title,
      width-text_part e.transaction,
      width-append (text_part e.title)
          (text_part e.transaction ++ (url ++ take max_total_filenames names)),
      width-append (text_part e.transaction) (url ++ take max_total_filenames names),
      width-append url (take max_total_filenames names),
    )

-- the parts, sorted and joined
abbrev pub joined : (String → Option ParseResult) → (String → String) → SearchedEvent → String
joined urlparse basename e =
    join_spaces (sorted_set (keep (λ p. not (is_blank p)) (search_parts urlparse basename e)))

pub count-joined :
    (urlparse : String → Option ParseResult) (basename : String → String) (e : SearchedEvent)
    → String.count (joined urlparse basename e) ≤ 1258
count-joined urlparse basename e =
    let parts = search_parts urlparse basename e in
    let full = keep (λ p. not (is_blank p)) parts in
    omega (
      arith,
      count-join_spaces (sorted_set full),
      width-sorted_set full,
      width-keep (λ p. not (is_blank p)) parts,
      width-search_parts urlparse basename e,
    )
