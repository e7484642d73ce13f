-- ===== src/Pack.antt =====
-- Packs of small blobs: crates/majutsu-pack/src/lib.rs. `pack_index_issues` compares a pack's index
-- with the blobs of the database, `pack_object_issues` the object's size with them. Offsets, lengths
-- and sizes are `u64`, numbers below 2 ^ 64.
pub mod Tests
pub mod Issues
use majutsu.Base.{
  ℕ, ◌+◌, ◌*◌, ◌^◌, ◌≡◌, Bool, true, false, not, ◌&&◌, ◌||◌, Option, none, some, List, [], ◌∷◌,
  ◌++◌, ◌==◌, ltb, leb, if◌then◌else◌, length,
}
use majutsu.Base.Text.{Str, codes, str_eq}
use majutsu.Base.Sets.{mem, insert}
use majutsu.Large.{u64_mod}

pub record PackEntry : Type 0 where
  pub oid : Str
  pub offset : ℕ
  pub len : ℕ

pub record PackIndex : Type 0 where
  pub version : ℕ
  pub pack_id : Str
  pub pack_key : Str
  pub entries : List PackEntry

pub record PackExport : Type 0 where
  pub pack_id : Str
  pub pack_key : Str
  pub index_key : Str
  pub object_count : ℕ
  pub size : ℕ

pub matches_index : PackExport → PackIndex → Bool
matches_index pack index =
    str_eq pack.pack_id index.pack_id
    && str_eq pack.pack_key index.pack_key
    && pack.object_count == length index.entries

pub record PackedBlobMetadata : Type 0 where
  pub oid : Str
  pub pack_offset : Option ℕ
  pub pack_len : Option ℕ

pub data PackIndexIssue : Type 0 where
  pack_metadata_mismatch : PackIndexIssue
  entry_without_blob_metadata entry_offset_mismatch missing_blob_entry :
      (oid : Str) → PackIndexIssue

-- `iter().find(|blob| blob.oid == oid)`.
pub find_blob : Str → List PackedBlobMetadata → Option PackedBlobMetadata
find_blob oid [] = none
find_blob oid (blob ∷ blobs) = if str_eq blob.oid oid then some blob else find_blob oid blobs

-- `field == Some(value)`.
pub is_some_of : Option ℕ → ℕ → Bool
is_some_of none n = false
is_some_of (some m) n = m == n

-- The first loop: `seen` and the issues of the entries.
pub entry_issues :
    List PackedBlobMetadata → List PackEntry → List Str → List Str × List PackIndexIssue
unfolding find_blob is_some_of
entry_issues blobs [] seen = (seen, [])
entry_issues blobs (entry ∷ entries) seen = elim (find_blob entry.oid blobs) [
  | none ↦
      let (seen', issues) = entry_issues blobs entries seen in
      (seen', entry_without_blob_metadata entry.oid ∷ issues)
  | some blob ↦
      let (seen', issues) = entry_issues blobs entries (insert entry.oid seen) in
      (
        seen',
        if not (is_some_of blob.pack_offset entry.offset)
              || not (is_some_of blob.pack_len entry.len)
            then entry_offset_mismatch entry.oid ∷ issues
            else issues,
      )
]

-- The second loop.
pub blob_issues : List Str → List PackedBlobMetadata → List PackIndexIssue
blob_issues seen [] = []
blob_issues seen (blob ∷ blobs) =
    if not (mem blob.oid seen)
    then missing_blob_entry blob.oid ∷ blob_issues seen blobs
    else blob_issues seen blobs

pub pack_index_issues : PackExport → PackIndex → List PackedBlobMetadata → List PackIndexIssue
unfolding matches_index entry_issues blob_issues
pack_index_issues pack index expected_blobs =
    if not (matches_index pack index) || not (length index.entries == length expected_blobs)
    then pack_metadata_mismatch ∷ []
    else let (seen, issues) = entry_issues expected_blobs index.entries [] in
      issues ++ blob_issues seen expected_blobs

pub data PackObjectIssue : Type 0 where
  size_mismatch : PackObjectIssue
  missing_blob_offset missing_blob_length blob_range_out_of_bounds : (oid : Str) → PackObjectIssue

pub checked_add : ℕ → ℕ → Option ℕ
checked_add a b = if ltb (a + b) u64_mod then some (a + b) else none

-- `end.is_none_or(|end| end > limit)`.
pub is_beyond : ℕ → Option ℕ → Bool
is_beyond limit none = true
is_beyond limit (some end) = ltb limit end

pub range_issues : PackExport → ℕ → List PackedBlobMetadata → List PackObjectIssue
unfolding checked_add is_beyond
range_issues pack actual_size [] = []
range_issues pack actual_size (blob ∷ blobs) =
    let rest = range_issues pack actual_size blobs in
    elim blob.pack_offset [
      | none ↦ missing_blob_offset blob.oid ∷ rest
      | some offset ↦ elim blob.pack_len [
        | none ↦ missing_blob_length blob.oid ∷ rest
        | some len ↦
            if is_beyond pack.size (checked_add offset len)
              || is_beyond actual_size (checked_add offset len)
            then blob_range_out_of_bounds blob.oid ∷ rest
            else rest
      ]
    ]

pub pack_object_issues : PackExport → ℕ → List PackedBlobMetadata → List PackObjectIssue
unfolding range_issues
pack_object_issues pack actual_size expected_blobs =
    if not (actual_size == pack.size)
    then size_mismatch ∷ range_issues pack actual_size expected_blobs
    else range_issues pack actual_size expected_blobs

-- The second list comes in as the set of its elements.
missing_from : List Str → List Str → List Str → List Str
missing_from metadata missing [] = missing
missing_from metadata missing (pack_id ∷ pack_ids) =
    if not (mem pack_id metadata) && not (mem pack_id missing)
    then missing_from metadata (missing ++ (pack_id ∷ [])) pack_ids
    else missing_from metadata missing pack_ids

missing_pack_metadata_ids : List Str → List Str → List Str
unfolding missing_from
missing_pack_metadata_ids blob_pack_ids metadata_pack_ids =
    missing_from metadata_pack_ids [] blob_pack_ids

pub data PackTier : Type 0 where
  small normal : PackTier

abbrev small_blob_max_size : ℕ
small_blob_max_size = 128 * 1024

tier_for_blob : ℕ → PackTier
tier_for_blob size = if leb size small_blob_max_size then small else normal
