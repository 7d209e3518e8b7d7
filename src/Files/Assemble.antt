-- ===== src/Files/Assemble.antt =====
-- apps/files/assemble.py, `assemble_file`, and apps/files/models.py,
-- `assemble_from_file_blob_ids`. A content is a list of bytes and SHA-1 an argument; a checksum is
-- its number. The rows of FileBlob are given; the row of a combined content is not modelled but for
-- its size.
pub mod Contents
use fork_glitchtip_glitchtip.Common.{
  ℕ, zero, suc, ◌+◌, ◌^◌, Bool, true, false, ◌&&◌, not, Option, none, some, List, [], ◌∷◌, ◌++◌,
  any, keep, ltb, ◌==◌, if◌then◌else◌,
}

pub record FileBlob : Type 0 where
  pub id : ℕ
  pub checksum : ℕ
  pub size : Option ℕ
  pub blob : List ℕ

-- MAX_FILE_SIZE
abbrev pub max_file_size : ℕ
max_file_size = 2 ^ 31

-- the largest value of a PositiveIntegerField
abbrev pub max_integer : ℕ
max_integer = 2147483647

pub data AssembleResult : Type 0 where
  exceeds_maximum_size : AssembleResult
  not_all_chunks : AssembleResult
  checksum_mismatch : AssembleResult
  -- the content of the temporary file and the blobs that it is made of
  assembled : List ℕ → List FileBlob → AssembleResult

abbrev pub is_in : List ℕ → ℕ → Bool
is_in set c = any (λ k. k == c) set

-- `filter(checksum__in=chunks)`
unfoldable pub select_blobs : List ℕ → List FileBlob → List FileBlob
select_blobs chunks [] = []
select_blobs chunks (b ∷ table) =
    let rest = select_blobs chunks table in if is_in chunks b.checksum then b ∷ rest else rest

abbrev pub known_size : Option ℕ → ℕ
known_size none = 0
known_size (some n) = n

unfoldable pub sum_sizes : List FileBlob → ℕ
sum_sizes [] = 0
sum_sizes (b ∷ blobs) = known_size b.size + sum_sizes blobs

abbrev pub or_else {ℓ} : {A : Type ℓ} → Option A → Option A → Option A
or_else none other = other
or_else (some x) other = some x

-- `ids_by_checksum[c]` and `blobs_by_id[blob_id]`, where the last entry of a key counts; none is a
-- KeyError
pub id_of_checksum : List FileBlob → ℕ → Option ℕ
id_of_checksum [] c = none
id_of_checksum (b ∷ blobs) c =
    let later = id_of_checksum blobs c in
    or_else later (if b.checksum == c then some b.id else none)

pub blob_of_id : List FileBlob → ℕ → Option FileBlob
blob_of_id [] id = none
blob_of_id (b ∷ blobs) id =
    let later = blob_of_id blobs id in or_else later (if b.id == id then some b else none)

abbrev pub cons_found {ℓ} : {A : Type ℓ} → Option A → Option (List A) → Option (List A)
cons_found none xs = none
cons_found (some x) none = none
cons_found (some x) (some xs) = some (x ∷ xs)

unfoldable pub all_found {ℓ} : {A : Type ℓ} → (ℕ → Option A) → List ℕ → Option (List A)
all_found find [] = some []
all_found find (k ∷ keys) = cons_found (find k) (all_found find keys)

-- `set(checksums) != set(chunks)`: the blobs found have only checksums of the chunks
pub all_available : List FileBlob → List ℕ → Bool
all_available blobs [] = true
all_available blobs (c ∷ chunks) = any (λ b. b.checksum == c) blobs && all_available blobs chunks

pub joined : List FileBlob → List ℕ
joined [] = []
joined (b ∷ blobs) = b.blob ++ joined blobs

abbrev pub has_size : Option ℕ → Bool
has_size none = false
has_size (some n) = true

-- `offset += blob.size` of every row, which raises TypeError for a size that is NULL
unfoldable pub sizes_known : List FileBlob → Bool
sizes_known [] = true
sizes_known (b ∷ blobs) = has_size b.size && sizes_known blobs

-- the rows of the file and of a combined blob are saved with the whole size, `offset`
abbrev pub saved : List FileBlob → Option AssembleResult
saved blobs =
    if ltb max_integer (sum_sizes blobs) then none else some (assembled (joined blobs) blobs)

abbrev pub checked : (List ℕ → ℕ) → ℕ → Option (List FileBlob) → Option AssembleResult
checked sha1 checksum none = none
checked sha1 checksum (some blobs) =
    let compared =
      if sha1 (joined blobs) == checksum then saved blobs else some checksum_mismatch in
    if sizes_known blobs then compared else none

-- `assemble_from_file_blob_ids`, on the rows of the identifiers
pub assemble_from_file_blob_ids :
    (List ℕ → ℕ) → List FileBlob → ℕ → Option (List ℕ) → Option AssembleResult
assemble_from_file_blob_ids sha1 table checksum none = none
assemble_from_file_blob_ids sha1 table checksum (some ids) =
    checked sha1 checksum (all_found (blob_of_id (keep (λ b. is_in ids b.id) table)) ids)

-- `assemble_file`; none is a KeyError, a TypeError or the DataError of a size out of range
pub assemble_file : (List ℕ → ℕ) → List FileBlob → ℕ → List ℕ → Option AssembleResult
assemble_file sha1 table checksum chunks =
    let file_blobs = select_blobs chunks table in
    let result =
      assemble_from_file_blob_ids sha1 table checksum
        (all_found (id_of_checksum file_blobs) chunks) in
    if ltb max_file_size (sum_sizes file_blobs)
    then some exceeds_maximum_size
    else if not (all_available file_blobs chunks)
    then some not_all_chunks
    else result
