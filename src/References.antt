-- ===== src/References.antt =====
-- What a snapshot references, and what no snapshot references any more: `Payload`,
-- `LiveMetadataReferences` and `metadata_reference_issues` of crates/majutsu-core/src/lib.rs, and the
-- loop of `validate_local_metadata_references` of src/fsck_runtime.rs without sampling. Of
-- `FileRecord` and the manifests the fields stand that these functions read.

pub mod Tests
pub mod Live
use majutsu.Base.{
  ℕ, ◌≡◌, Bool, true, false, not, ◌&&◌, ◌||◌, Option, none, some, List, [], ◌∷◌, ◌++◌, ◌==◌,
  if◌then◌else◌, length, is_empty,
}
use majutsu.Base.Text.{Str, str_eq}
use majutsu.Base.Sets.{mem, insert}
use majutsu.Large.Object.{LargeChunk, LargeManifest}

pub data Payload : Type 0 where
  directory : Payload
  inline_small normal_blob : (oid object_key : Str) → Payload
  chunked_blob : (oid manifest_key : Str) (chunk_count : ℕ) → Payload
  large_object :
      (oid manifest_key : Str) (chunk_count : ℕ) (media_type : Option Str) (binary : Bool)
      (chunking compression encryption storage_tier_hint hydrate_policy : Str)
      → Payload
  blob : (oid object_key : Str) → Payload
  large : (oid manifest_key : Str) (chunk_count : ℕ) → Payload
  symlink : (target : Str) → Payload
  special : (special_kind : Str) → Payload

pub payload_blob_ref : Payload → Option (Str × Str)
payload_blob_ref (inline_small oid object_key) = some (oid, object_key)
payload_blob_ref (normal_blob oid object_key) = some (oid, object_key)
payload_blob_ref (blob oid object_key) = some (oid, object_key)
payload_blob_ref directory = none
payload_blob_ref (chunked_blob oid manifest_key chunk_count) = none
payload_blob_ref (large_object oid manifest_key chunk_count m b c z e s h) = none
payload_blob_ref (large oid manifest_key chunk_count) = none
payload_blob_ref (symlink target) = none
payload_blob_ref (special special_kind) = none

pub payload_large_ref : Payload → Option (Str × Str × ℕ)
payload_large_ref (chunked_blob oid manifest_key chunk_count) =
    some (oid, manifest_key, chunk_count)
payload_large_ref (large_object oid manifest_key chunk_count m b c z e s h) =
    some (oid, manifest_key, chunk_count)
payload_large_ref (large oid manifest_key chunk_count) = some (oid, manifest_key, chunk_count)
payload_large_ref directory = none
payload_large_ref (inline_small oid object_key) = none
payload_large_ref (normal_blob oid object_key) = none
payload_large_ref (blob oid object_key) = none
payload_large_ref (symlink target) = none
payload_large_ref (special special_kind) = none

pub record FileRecord : Type 0 where
  pub root_id : Str
  pub path : Str
  pub kind : Str
  pub size : ℕ
  pub mode : ℕ
  pub payload : Payload

-- `roots` of a `SnapshotManifest`: the records of each root.
abbrev pub Roots : Type 0
Roots = List (Str × List FileRecord)

-- The three sets.
pub record LiveMetadataReferences : Type 0 where
  pub blobs : List Str
  pub large_objects : List Str
  pub chunks : List Str

pub add_record : LiveMetadataReferences → List Str → Payload → LiveMetadataReferences × List Str
unfolding payload_blob_ref payload_large_ref insert
add_record live keys payload = elim (payload_blob_ref payload) [
  | some (oid, object_key) ↦ (record live { blobs = insert oid live.blobs }, keys)
  | none ↦ elim (payload_large_ref payload) [
    | some (oid, manifest_key, chunk_count) ↦
        (record live { large_objects = insert oid live.large_objects }, keys ++ (manifest_key ∷ []))
    | none ↦ (live, keys)
  ]
]

pub add_records :
    LiveMetadataReferences → List Str → List FileRecord → LiveMetadataReferences × List Str
add_records live keys [] = (live, keys)
add_records live keys (r ∷ records) =
    let (live', keys') = add_record live keys r.payload in add_records live' keys' records

pub add_roots : LiveMetadataReferences → List Str → Roots → LiveMetadataReferences × List Str
add_roots live keys [] = (live, keys)
add_roots live keys ((root, records) ∷ roots) =
    let (live', keys') = add_records live keys records in add_roots live' keys' roots

-- The new sets and the keys of the large manifests, in the order of the records.
pub add_snapshot_manifest : LiveMetadataReferences → Roots → LiveMetadataReferences × List Str
unfolding add_roots
add_snapshot_manifest live roots = add_roots live [] roots

pub add_chunks : List Str → List LargeChunk → List Str
add_chunks chunks [] = chunks
add_chunks chunks (c ∷ cs) = add_chunks (insert c.oid chunks) cs

pub add_large_manifest : LiveMetadataReferences → LargeManifest → LiveMetadataReferences
unfolding add_chunks
add_large_manifest live manifest = record live { chunks = add_chunks live.chunks manifest.chunks }

-- A snapshot's inline records and the records of its trees that the visit reaches, by root.
pub record SnapshotRecords : Type 0 where
  pub roots : Roots
  pub trees : Roots

-- A manifest that cannot be read or parsed is passed over.
pub add_manifests :
    (Str → Option LargeManifest) → LiveMetadataReferences → List Str → LiveMetadataReferences
unfolding add_large_manifest
add_manifests load live [] = live
add_manifests load live (key ∷ keys) = elim (load key) [
  | none ↦ add_manifests load live keys
  | some manifest ↦ add_manifests load (add_large_manifest live manifest) keys
]

pub add_snapshot :
    (Str → Option LargeManifest) → LiveMetadataReferences → SnapshotRecords → LiveMetadataReferences
unfolding add_snapshot_manifest add_roots add_manifests
add_snapshot load live s =
    let (live', keys) = add_snapshot_manifest live s.roots in
    let (live'', keys') = add_roots live' keys s.trees in add_manifests load live'' keys'

pub add_snapshots :
    (Str → Option LargeManifest)
    → LiveMetadataReferences
    → List SnapshotRecords
    → LiveMetadataReferences
add_snapshots load live [] = live
add_snapshots load live (s ∷ snapshots) = add_snapshots load (add_snapshot load live s) snapshots

pub data MetadataReferenceIssue : Type 0 where
  dangling_blob dangling_large_object dangling_chunk : (oid : Str) → MetadataReferenceIssue

pub dangling : (Str → MetadataReferenceIssue) → List Str → List Str → List MetadataReferenceIssue
dangling issue live [] = []
dangling issue live (oid ∷ oids) =
    if not (mem oid live) then issue oid ∷ dangling issue live oids else dangling issue live oids

pub metadata_reference_issues :
    List Str → List Str → List Str → LiveMetadataReferences → List MetadataReferenceIssue
unfolding dangling
metadata_reference_issues blob_oids large_object_oids chunk_oids live =
    dangling dangling_blob live.blobs blob_oids
    ++ (dangling dangling_large_object live.large_objects large_object_oids
        ++ dangling dangling_chunk live.chunks chunk_oids)

-- What the loop of `validate_local_metadata_references` ends with.
pub local_metadata_issues :
    (Str → Option LargeManifest)
    → List SnapshotRecords
    → List Str
    → List Str
    → List Str
    → List MetadataReferenceIssue
unfolding add_snapshots metadata_reference_issues
local_metadata_issues load snapshots blob_oids large_oids chunk_oids =
    metadata_reference_issues blob_oids large_oids chunk_oids
      (add_snapshots load (record { blobs = []; large_objects = []; chunks = [] }) snapshots)
