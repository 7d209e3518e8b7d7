-- ===== src/Files/Samples.antt =====
-- The theorems on files at concrete inputs.
use Prim.Native.String.{String}
use fork_glitchtip_glitchtip.Ingest.Scrub.Keys.{same_text}
use fork_glitchtip_glitchtip.Common.{
  Option, ℕ, ◌+◌, ◌≤◌, ◌≡◌, none, some, List, [], ◌∷◌, any, if◌then◌else◌,
}
use fork_glitchtip_glitchtip.Files.Assemble.{FileBlob}
use fork_glitchtip_glitchtip.Files.Bundles.{
  Artifact, minified_source, source_map, Bundle, build_bundles,
}
use fork_glitchtip_glitchtip.Files.Bundles.Built.{
  count_id, has_complete, gets_sourcemap, build_bundles-once,
}

abbrev first_blob : FileBlob
first_blob = record { id = 1; checksum = 30; size = some 2; blob = 10 ∷ 20 ∷ [] }

abbrev second_blob : FileBlob
second_blob = record { id = 2; checksum = 7; size = some 1; blob = 7 ∷ [] }

-- the sum of the bytes
abbrev sum_bytes : List ℕ → ℕ
sum_bytes [] = 0
sum_bytes (x ∷ xs) = x + sum_bytes xs

abbrev script : Artifact
script = record {
  id = 11;
  name = "app.js";
  kind = minified_source;
  sourcemap = some "app.js.map";
  debug_id = some "d1";
}

abbrev script_map : Artifact
script_map = record {
  id = 12;
  name = "app.js.map";
  kind = source_map;
  sourcemap = none;
  debug_id = some "d1";
}

build_bundles-once_example :
    (count_id "d1" (build_bundles (some 3) (script ∷ script_map ∷ [])) ≤ 1)
    × (has_complete "d1" (build_bundles (some 3) (script ∷ script_map ∷ []))
        ≡ any (gets_sourcemap (script ∷ script_map ∷ []) "d1") (script ∷ script_map ∷ []))
build_bundles-once_example = build_bundles-once (some 3) (script ∷ script_map ∷ []) "d1"

abbrev debug_text : String
debug_text = "6BA7B810-9DAD-11D1-80B4-00C04FD430C8"

-- `UUID(_).int`, at one text
abbrev one_uuid : String → Option ℕ
one_uuid s = if same_text s debug_text then some 143098242404177361603877621312831893704 else none

abbrev half_bundle : Bundle
half_bundle = record {
  debug_id = some debug_text;
  release = some 3;
  sourcemap_file = none;
  file = 11;
}

abbrev full_bundle : Bundle
full_bundle = record {
  debug_id = some "6ba7b8109dad11d180b400c04fd430c8";
  release = some 2;
  sourcemap_file = some 6;
  file = 5;
}
