-- ===== src/References/Tests.antt =====
-- A snapshot with a small blob in its records and a large file in a tree.
use majutsu.Base.{◌≡◌, ◌↔◌, true, Option, none, some, [], ◌∷◌, any, all}
use majutsu.Base.Text.{Str, codes}
use majutsu.Large.Object.{LargeManifest}
use majutsu.References.{Payload, blob, large, FileRecord, SnapshotRecords, local_metadata_issues}
use majutsu.References.Live.{
  names_blob, names_large, names_manifest, lists_chunk, snapshot_names, local_metadata_issues_none,
}

abbrev recorded : Payload → FileRecord
recorded payload = record {
  root_id = codes "home";
  path = codes "f";
  kind = codes "file";
  size = 1;
  mode = 0o644;
  payload = payload;
}

abbrev snapshot : SnapshotRecords
snapshot = record {
  roots = (codes "home", recorded (blob (codes "b1") (codes "k1")) ∷ []) ∷ [];
  trees = (codes "home", recorded (large (codes "l1") (codes "m1") 1) ∷ []) ∷ [];
}

abbrev one_chunk : Str → Option LargeManifest
one_chunk key = some (record {
  version = 1;
  oid = codes "l1";
  size = 1;
  chunking = codes "fixed";
  chunk_size = 1;
  chunks =
      record {
        index = 0;
        offset = 0;
        len = 1;
        stored_len = none;
        compression = codes "none";
        oid = codes "c1";
        object_key = codes "k";
      }
      ∷ [];
})

local_metadata_issues_none_example :
    (local_metadata_issues one_chunk
        (snapshot ∷ [])
        (codes "b1" ∷ [])
        (codes "l1" ∷ [])
        (codes "c1" ∷ [])
      ≡ [])
    ↔ ((all (λ oid. any (snapshot_names (names_blob oid)) (snapshot ∷ [])) (codes "b1" ∷ []) ≡ true)
        × (all (λ oid. any (snapshot_names (names_large oid)) (snapshot ∷ [])) (codes "l1" ∷ [])
            ≡ true)
        × (all
              (λ oid.
                any (snapshot_names (names_manifest (lists_chunk one_chunk oid))) (snapshot ∷ []))
              (codes "c1" ∷ [])
            ≡ true))
local_metadata_issues_none_example =
    local_metadata_issues_none one_chunk (snapshot ∷ []) (codes "b1" ∷ []) (codes "l1" ∷ [])
      (codes "c1" ∷ [])
