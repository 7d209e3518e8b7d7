-- ===== src/Files/Assemble/Contents.antt =====
-- The content of an assembled file.
use fork_glitchtip_glitchtip.Common.{
  ℕ, ◌≡◌, false, Option, none, some, List, [], ◌∷◌, any, ◌==◌, if◌then◌else◌,
}
use fork_glitchtip_glitchtip.Files.Assemble.{FileBlob}

-- the blob of a chunk
unfoldable pub blob_of_checksum : List FileBlob → ℕ → Option FileBlob
blob_of_checksum [] c = none
blob_of_checksum (b ∷ table) c =
    let rest = blob_of_checksum table c in if b.checksum == c then some b else rest

-- no two rows with one checksum or one identifier
abbrev pub IsKeyed : List FileBlob → Type 0
IsKeyed [] = Unit
IsKeyed (b ∷ table) =
    (any (λ x. x.checksum == b.checksum) table ≡ false)
    × (any (λ x. x.id == b.id) table ≡ false)
    × IsKeyed table

ids_of : List FileBlob → List ℕ
ids_of [] = []
ids_of (b ∷ blobs) = b.id ∷ ids_of blobs
