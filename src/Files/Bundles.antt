-- ===== src/Files/Bundles.antt =====
-- apps/files/assemble.py, the end of `assemble_artifacts`: the bundles of the files of an upload,
-- one per debug identifier, and how they are saved. The headers have debug identifiers as texts,
-- the column is of UUIDs, and Python's `UUID` of a text is an argument: the table of the
-- organization's bundles is a function of the number of the UUID.
pub mod Saved
pub mod Built
use Prim.Native.String.{String}
use fork_glitchtip_glitchtip.Common.{
  ℕ, Bool, true, false, ◌&&◌, ◌||◌, not, Option, none, some, List, [], ◌∷◌, ◌++◌, any, ◌==◌,
  if◌then◌else◌, ◌>>=◌,
}
use fork_glitchtip_glitchtip.Ingest.Scrub.Keys.{same_text}
use fork_glitchtip_glitchtip.Files.Assemble.{is_in}

pub data ArtifactType : Type 0 where
  minified_source : ArtifactType
  source_map : ArtifactType
  other_artifact : ArtifactType

-- a file with its headers: "sourcemap", or else "Sourcemap", and "debug-id"
pub record Artifact : Type 0 where
  pub id : ℕ
  pub name : String
  pub kind : ArtifactType
  pub sourcemap : Option String
  pub debug_id : Option String

pub record Bundle : Type 0 where
  pub debug_id : Option String
  pub release : Option ℕ
  pub sourcemap_file : Option ℕ
  pub file : ℕ

abbrev pub is_source_map : ArtifactType → Bool
is_source_map source_map = true
is_source_map other = false

abbrev pub is_name : Option String → String → Bool
is_name none name = false
is_name (some s) name = same_text s name

-- `value.headers.get("debug-id") and ... == ...`
abbrev pub same_debug_id : Option String → Option String → Bool
same_debug_id none other = false
same_debug_id (some s) none = false
same_debug_id (some s) (some t) = not (same_text s "") && same_text s t

-- the first source map of the files that belongs to a file
pub sourcemap_of : Artifact → List Artifact → Option ℕ
sourcemap_of file [] = none
sourcemap_of file (value ∷ files) =
    let rest = sourcemap_of file files in
    if is_source_map value.kind
      && (is_name file.sourcemap value.name || same_debug_id value.debug_id file.debug_id)
    then some value.id
    else rest

abbrev pub sourcemap_for : ArtifactType → Artifact → List Artifact → Option ℕ
sourcemap_for minified_source file files = sourcemap_of file files
sourcemap_for source_map file files = none
sourcemap_for other_artifact file files = none

pub bundle_of : Option ℕ → List Artifact → Artifact → Bundle
bundle_of release files file = record {
  debug_id = file.debug_id;
  release = release;
  sourcemap_file = sourcemap_for file.kind file files;
  file = file.id;
}

abbrev pub is_present : Option ℕ → Bool
is_present none = false
is_present (some n) = true

abbrev pub is_complete : Bundle → Bool
is_complete b = is_present b.sourcemap_file

abbrev pub has_id : String → Option String → Bool
has_id d none = false
has_id d (some s) = same_text s d

-- `bundles_by_debug_id[debug_id] = bundle`, unless there is one and the new one has no source map
pub put_bundle : String → Bundle → List Bundle → List Bundle
put_bundle d b [] = b ∷ []
put_bundle d b (x ∷ bundles) =
    let rest = put_bundle d b bundles in
    if has_id d x.debug_id then (if is_complete b then b ∷ bundles else x ∷ bundles) else x ∷ rest

abbrev pub place_bundle :
    Option String → Bundle → List Bundle × List Bundle → List Bundle × List Bundle
place_bundle none b (by_id, without_id) = (by_id, without_id ++ b ∷ [])
place_bundle (some d) b (by_id, without_id) = (put_bundle d b by_id, without_id)

pub place_files :
    Option ℕ → List Artifact → List Artifact → List Bundle × List Bundle → List Bundle × List Bundle
place_files release files [] placed = placed
place_files release files (file ∷ rest) placed =
    place_files release files rest
      (place_bundle file.debug_id (bundle_of release files file) placed)

-- `bundles`
pub build_bundles : Option ℕ → List Artifact → List Bundle
build_bundles release files =
    let (by_id, without_id) = place_files release files files ([], []) in by_id ++ without_id

-- the rows with one of the debug identifiers, or without a change
unfoldable pub complete_bundles : List Bundle → List Bundle
complete_bundles [] = []
complete_bundles (b ∷ bundles) =
    let rest = complete_bundles bundles in if is_complete b then b ∷ rest else rest

unfoldable pub incomplete_bundles : List Bundle → List Bundle
incomplete_bundles [] = []
incomplete_bundles (b ∷ bundles) =
    let rest = incomplete_bundles bundles in if is_complete b then rest else b ∷ rest

abbrev pub present_ids : Option ℕ → List ℕ
present_ids none = []
present_ids (some n) = n ∷ []

abbrev pub file_ids : Option Bundle → List ℕ
file_ids none = []
file_ids (some b) = b.file ∷ present_ids b.sourcemap_file

-- the bundles with the values of their column; none where a text is not a UUID
abbrev pub uuid_value : (String → Option ℕ) → Option String → Option (Option ℕ)
uuid_value uuid_int none = some none
uuid_value uuid_int (some s) = uuid_int s >>= λ n. some (some n)

unfoldable pub with_uuids : (String → Option ℕ) → List Bundle → Option (List (Option ℕ × Bundle))
with_uuids uuid_int [] = some []
with_uuids uuid_int (b ∷ bundles) = do
  uuid ← uuid_value uuid_int b.debug_id
  rest ← with_uuids uuid_int bundles
  some ((uuid, b) ∷ rest)

abbrev pub is_uuid : ℕ → Option ℕ → Bool
is_uuid d none = false
is_uuid d (some n) = n == d

abbrev pub row_of : (ℕ → Option Bundle) → Option ℕ → Option Bundle
row_of table none = none
row_of table (some d) = table d

-- `old_file_ids`
unfoldable pub old_file_ids : (ℕ → Option Bundle) → List (Option ℕ × Bundle) → List ℕ
old_file_ids table [] = []
old_file_ids table ((uuid, b) ∷ rows) = file_ids (row_of table uuid) ++ old_file_ids table rows

-- `new_file_ids`
pub new_file_ids : List Bundle → List ℕ
new_file_ids [] = []
new_file_ids (b ∷ bundles) = file_ids (some b) ++ new_file_ids bundles

-- A statement that would update a row a second time raises.
unfoldable pub repeats_uuid : List (Option ℕ × Bundle) → Bool
repeats_uuid [] = false
repeats_uuid ((none, b) ∷ rows) = repeats_uuid rows
repeats_uuid ((some d, b) ∷ rows) = any (λ row. is_uuid d row.0) rows || repeats_uuid rows

-- ON CONFLICT (organization, debug_id) DO UPDATE SET file, sourcemap_file, release
pub upsert_bundles : List (Option ℕ × Bundle) → (ℕ → Option Bundle) → ℕ → Option Bundle
upsert_bundles [] table d = table d
upsert_bundles ((uuid, b) ∷ rows) table d =
    let rest = upsert_bundles rows table d in if is_uuid d uuid then some b else rest

abbrev pub or_row : Option Bundle → Bundle → Option Bundle
or_row none b = some b
or_row (some row) b = some row

-- ON CONFLICT DO NOTHING
pub insert_bundles : List (Option ℕ × Bundle) → (ℕ → Option Bundle) → ℕ → Option Bundle
insert_bundles [] table d = table d
insert_bundles ((uuid, b) ∷ rows) table d =
    let rest = insert_bundles rows table d in if is_uuid d uuid then or_row (table d) b else rest

pub without : List ℕ → List ℕ → List ℕ
without new [] = []
without new (id ∷ old) = let rest = without new old in if is_in new id then rest else id ∷ rest

abbrev pub kept_file : List ℕ → Option ℕ → Option ℕ
kept_file orphaned none = none
kept_file orphaned (some s) = if is_in orphaned s then none else some s

-- the deletion of files: a bundle goes with its file, and loses its source map
abbrev pub after_delete : List ℕ → Option Bundle → Option Bundle
after_delete orphaned none = none
after_delete orphaned (some b) =
    if is_in orphaned b.file
    then none
    else some (record b { sourcemap_file = kept_file orphaned b.sourcemap_file })

-- lines 213 to 253; none where one of the statements raises
pub save_bundles :
    (String → Option ℕ) → List Bundle → (ℕ → Option Bundle) → Option (ℕ → Option Bundle)
save_bundles uuid_int bundles table = do
  complete ← with_uuids uuid_int (complete_bundles bundles)
  incomplete ← with_uuids uuid_int (incomplete_bundles bundles)
  let orphaned = without (new_file_ids bundles) (old_file_ids table complete)
  let inserted = insert_bundles incomplete (upsert_bundles complete table)
  if repeats_uuid complete then none else some (λ d. after_delete orphaned (inserted d))
