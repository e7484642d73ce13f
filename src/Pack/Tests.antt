-- ===== src/Pack/Tests.antt =====
-- A pack of two blobs, with its index and the rows of the database.
use majutsu.Base.{◌+◌, ◌≤◌, ◌≡◌, ◌↔◌, refl, true, some, List, [], ◌∷◌, length, All, arith}
use majutsu.Base.Text.{codes, str_eq, str_lt}
use majutsu.Base.Sets.{mem, insert}
use majutsu.Pack.{
  PackEntry, PackIndex, PackExport, PackedBlobMetadata, matches_index, find_blob, is_some_of,
  entry_issues, blob_issues, pack_index_issues, checked_add, is_beyond, range_issues,
  pack_object_issues,
}
use majutsu.Pack.Issues.{InBounds, oids, pack_object_issues_none, pack_issues_none}

abbrev pack : PackExport
pack = record {
  pack_id = codes "p";
  pack_key = codes "k";
  index_key = codes "i";
  object_count = 2;
  size = 7;
}

abbrev entries : List PackEntry
entries =
    record { oid = codes "a"; offset = 0; len = 4 }
    ∷ record { oid = codes "b"; offset = 4; len = 3 }
    ∷ []

abbrev index : PackIndex
index = record { version = 1; pack_id = codes "p"; pack_key = codes "k"; entries = entries }

abbrev blobs : List PackedBlobMetadata
blobs =
    record { oid = codes "a"; pack_offset = some 0; pack_len = some 4 }
    ∷ record { oid = codes "b"; pack_offset = some 4; pack_len = some 3 }
    ∷ []

no_index_issue : pack_index_issues pack index blobs ≡ []
unfolding pack_index_issues matches_index entry_issues blob_issues find_blob is_some_of str_eq
    str_lt mem insert
no_index_issue = refl

no_object_issue : pack_object_issues pack 7 blobs ≡ []
unfolding pack_object_issues range_issues checked_add is_beyond
no_object_issue = refl

pack_object_issues_none_example :
    (pack_object_issues pack 7 blobs ≡ []) ↔ ((pack.size ≡ 7) × All (InBounds 7) blobs)
pack_object_issues_none_example = pack_object_issues_none pack 7 blobs (omega arith)

pack_issues_none_example :
    All (λ entry. entry.offset + entry.len ≤ 7) entries
    × All (λ blob. mem blob.oid (oids entries) ≡ true) blobs
    × (length entries ≡ 2)
pack_issues_none_example = pack_issues_none pack index 7 blobs no_index_issue no_object_issue
