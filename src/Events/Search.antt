-- ===== src/Events/Search.antt =====
-- apps/event_ingest/process_event.py, `get_search_vector` and `_truncate_string`: the text of an event
-- that is searched. `urlparse` and `os.path.basename` are Python's, so parameters.
pub mod Limits
pub mod Parts
mod Samples
use Prim.Native.Char.{Char, code}
use Prim.Native.String
use Prim.Native.String.{String}
use fork_glitchtip_glitchtip.Common.{
  ℕ, zero, suc, ◌+◌, ◌≤◌, Bool, true, false, not, Option, none, some, List, [], ◌∷◌, ◌++◌, keep,
  leb, ltb, ◌==◌, if◌then◌else◌,
}
use fork_glitchtip_glitchtip.Events.Tags.{clean_string, cut_text, sorted_set}

abbrev pub max_search_part_length : ℕ
max_search_part_length = 250

abbrev pub max_filename_len : ℕ
max_filename_len = 100

abbrev pub max_total_filenames : ℕ
max_total_filenames = 5

abbrev pub max_frames_per_stacktrace : ℕ
max_frames_per_stacktrace = 3

abbrev pub max_stacktraces_to_process : ℕ
max_stacktraces_to_process = 2

abbrev pub max_vector_length : ℕ
max_vector_length = 2048

-- what `urlparse` gives
pub record ParseResult : Type 0 where
  pub scheme : String
  pub netloc : String
  pub path : String

-- the fields that are read; a missing text and an empty one count the same; `frames` are those of each
-- exception, none where it has no stacktrace
pub record SearchedEvent : Type 0 where
  pub title : String
  pub transaction : String
  pub url : String
  pub exception_frames : List (Option (List String))

abbrev pub is_blank : String → Bool
is_blank String.[] = true
is_blank (String.◌∷◌ c s) = false

-- `_truncate_string`; an empty text stays empty
pub truncate_string : String → ℕ → String
truncate_string s max_len = if is_blank s then "" else cut_text max_len s

-- `if text: parts.add(_truncate_string(text, ...))`
abbrev pub text_part : String → List String
text_part s = if is_blank s then [] else truncate_string s max_search_part_length ∷ []

-- `scheme_netloc`
pub scheme_netloc : ParseResult → String
scheme_netloc parsed =
    if not (is_blank parsed.scheme)
    then (if not (is_blank parsed.netloc)
        then String.◌++◌ parsed.scheme (String.◌++◌ "://" parsed.netloc)
        else "")
    else parsed.netloc

-- the part for the URL that `urlparse` read, or for one that it refuses with ValueError
pub url_part : Option ParseResult → String → List String
url_part none url = truncate_string url max_search_part_length ∷ []
url_part (some parsed) url =
    let path = truncate_string parsed.path max_search_part_length in
    let place = scheme_netloc parsed in
    if is_blank place
    then (if is_blank path
        then []
        else truncate_string (String.◌++◌ place path) max_search_part_length ∷ [])
    else truncate_string (String.◌++◌ place path) max_search_part_length ∷ []

pub reversed {ℓ} : {A : Type ℓ} → List A → List A → List A
reversed [] done = done
reversed (a ∷ rest) done = reversed rest (a ∷ done)

pub take {ℓ} : {A : Type ℓ} → ℕ → List A → List A
take zero xs = []
take (suc n) [] = []
take (suc n) (x ∷ xs) = x ∷ take n xs

module _ (basename : String → String) where
  -- `_truncate_string(os.path.basename(...), MAX_FILENAME_LEN)`, empty where there is no filename
  pub short_name : String → String
  short_name filename =
      if is_blank filename then "" else truncate_string (basename filename) max_filename_len

  -- the loop over the frames, from the last, for that many more names
  pub frame_names : ℕ → List String → List String
  frame_names zero frames = []
  frame_names (suc n) [] = []
  frame_names (suc n) (filename ∷ frames) =
      let name = short_name filename in
      let others = frame_names (suc n) frames in
      let fewer = frame_names n frames in if is_blank name then others else name ∷ fewer

  abbrev pub is_nil : List String → Bool
  is_nil [] = true
  is_nil (name ∷ names) = false

  -- the loop over the exceptions, for that many more stacktraces
  pub filenames_to_add : ℕ → List (Option (List String)) → List String
  filenames_to_add zero exceptions = []
  filenames_to_add (suc n) [] = []
  filenames_to_add (suc n) (none ∷ exceptions) = filenames_to_add (suc n) exceptions
  filenames_to_add (suc n) (some frames ∷ exceptions) =
      let names = frame_names max_frames_per_stacktrace (reversed frames []) in
      let others = filenames_to_add (suc n) exceptions in
      let fewer = filenames_to_add n exceptions in if is_nil names then others else names ++ fewer

-- `" ".join`
pub join_spaces : List String → String
join_spaces [] = ""
join_spaces (s ∷ []) = s
join_spaces (s ∷ t ∷ rest) = String.◌++◌ s (String.◌++◌ " " (join_spaces (t ∷ rest)))

-- `rfind(" ", 0, n)`: the last space among the first n characters
pub rfind_space : ℕ → String → Option ℕ
rfind_space zero s = none
rfind_space (suc n) String.[] = none
rfind_space (suc n) (String.◌∷◌ c s) = elim (rfind_space n s) [
  | none ↦ if code c == 32 then some 0 else none
  | some i ↦ some (suc i)
]

abbrev pub limit_of : Option ℕ → ℕ
limit_of none = max_vector_length
limit_of (some i) = i

-- the cut of a text that is too long
pub limit_vector : String → String
limit_vector s =
    if ltb max_vector_length (String.count s)
    then cut_text (limit_of (rfind_space max_vector_length s)) s
    else s

module _ (urlparse : String → Option ParseResult) (basename : String → String) where
  pub search_parts : SearchedEvent → List String
  search_parts e =
      let url = if is_blank e.url then [] else url_part (urlparse e.url) e.url in
      let names =
        take max_total_filenames
          (filenames_to_add basename max_stacktraces_to_process e.exception_frames) in
      text_part e.title ++ (text_part e.transaction ++ (url ++ names))

  pub get_search_vector : SearchedEvent → String
  get_search_vector e =
      clean_string
        (limit_vector (join_spaces (sorted_set (keep (λ p. not (is_blank p)) (search_parts e)))))
