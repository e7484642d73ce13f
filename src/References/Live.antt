-- ===== src/References/Live.antt =====
-- An object that a record or a chunk list names is never reported as dangling, and every other is.
use majutsu.Base.{
  ◌≡◌, ◌↔◌, ap, ◌∙◌, Bool, true, false, ◌||◌, Option, none, some, List, [], ◌∷◌, ◌++◌, any, all,
  arith, Option-cases, inl, inr,
}
use majutsu.Base.Text.{Str, str_eq}
use majutsu.Base.Sets.{mem, insert, mem-insert}
use majutsu.Large.Object.{LargeChunk, LargeManifest}
use majutsu.References.{
  Payload, directory, inline_small, normal_blob, chunked_blob, large_object, blob, large, symlink,
  special, payload_blob_ref, payload_large_ref, FileRecord, Roots, LiveMetadataReferences,
  add_record, add_records, add_roots, add_snapshot_manifest, add_chunks, add_large_manifest,
  SnapshotRecords, add_manifests, add_snapshot, add_snapshots, local_metadata_issues, dangling_blob,
  dangling_large_object, dangling_chunk, MetadataReferenceIssue, dangling,
  metadata_reference_issues,
}

-- The payload names the object, as a small blob or as a large file.
abbrev pub names_blob : Str → Payload → Bool
names_blob oid (inline_small o k) = str_eq oid o
names_blob oid (normal_blob o k) = str_eq oid o
names_blob oid (blob o k) = str_eq oid o
names_blob oid directory = false
names_blob oid (chunked_blob o k n) = false
names_blob oid (large_object o k n m b c z e s h) = false
names_blob oid (large o k n) = false
names_blob oid (symlink target) = false
names_blob oid (special kind) = false

abbrev pub names_large : Str → Payload → Bool
names_large oid (chunked_blob o k n) = str_eq oid o
names_large oid (large_object o k n m b c z e s h) = str_eq oid o
names_large oid (large o k n) = str_eq oid o
names_large oid directory = false
names_large oid (inline_small o k) = false
names_large oid (normal_blob o k) = false
names_large oid (blob o k) = false
names_large oid (symlink target) = false
names_large oid (special kind) = false

-- The payload names a large manifest under a key that passes the test.
abbrev pub names_manifest : (Str → Bool) → Payload → Bool
names_manifest q (chunked_blob o k n) = q k
names_manifest q (large_object o k n m b c z e s h) = q k
names_manifest q (large o k n) = q k
names_manifest q directory = false
names_manifest q (inline_small o k) = false
names_manifest q (normal_blob o k) = false
names_manifest q (blob o k) = false
names_manifest q (symlink target) = false
names_manifest q (special kind) = false

-- Some record of some root passes the test.
abbrev any_record : (Payload → Bool) → Roots → Bool
any_record p roots = any (λ root. any (λ r. p r.payload) root.1) roots

any-snoc :
    (q : Str → Bool) (keys : List Str) (k : Str) → any q (keys ++ (k ∷ [])) ≡ (any q keys || q k)
any-snoc q [] k = ground arith
any-snoc q (key ∷ keys) k = ground (arith, any-snoc q keys k)

-- The sets and keys `after` have gained, over `before`, what the tests find.
abbrev Gained :
    Str
    → (Str → Bool)
    → LiveMetadataReferences × List Str
    → LiveMetadataReferences × List Str
    → Bool
    → Bool
    → Bool
    → Type 0
Gained oid q before after named named_large named_key =
    (mem oid after.0.blobs ≡ (mem oid before.0.blobs || named))
    × (mem oid after.0.large_objects ≡ (mem oid before.0.large_objects || named_large))
    × (after.0.chunks ≡ before.0.chunks)
    × (any q after.1 ≡ (any q before.1 || named_key))

module _ (oid : Str) (q : Str → Bool) where
  add_record_lem :
      (live : LiveMetadataReferences) (keys : List Str) (payload : Payload)
      → Gained oid q
          (live, keys)
          (add_record live keys payload)
          (names_blob oid payload)
          (names_large oid payload)
          (names_manifest q payload)
  unfolding add_record payload_blob_ref payload_large_ref
  add_record_lem live keys directory = ground arith
  add_record_lem live keys (inline_small o k) = ground (arith, mem-insert o oid live.blobs)
  add_record_lem live keys (normal_blob o k) = ground (arith, mem-insert o oid live.blobs)
  add_record_lem live keys (blob o k) = ground (arith, mem-insert o oid live.blobs)
  add_record_lem live keys (chunked_blob o k n) =
      ground (arith, mem-insert o oid live.large_objects, any-snoc q keys k)
  add_record_lem live keys (large_object o k n m b c z e s h) =
      ground (arith, mem-insert o oid live.large_objects, any-snoc q keys k)
  add_record_lem live keys (large o k n) =
      ground (arith, mem-insert o oid live.large_objects, any-snoc q keys k)
  add_record_lem live keys (symlink target) = ground arith
  add_record_lem live keys (special kind) = ground arith

  add_records_lem :
      (live : LiveMetadataReferences) (keys : List Str) (records : List FileRecord)
      → Gained oid q
          (live, keys)
          (add_records live keys records)
          (any (λ r. names_blob oid r.payload) records)
          (any (λ r. names_large oid r.payload) records)
          (any (λ r. names_manifest q r.payload) records)
  unfolding add_records
  add_records_lem live keys [] = ground arith
  add_records_lem live keys (r ∷ records) =
      let (live', keys') = add_record live keys r.payload in
      let (a, b, c, d) = add_record_lem live keys r.payload in
      let (a', b', c', d') = add_records_lem live' keys' records in ground arith

  add_roots_lem :
      (live : LiveMetadataReferences) (keys : List Str) (roots : Roots)
      → Gained oid q
          (live, keys)
          (add_roots live keys roots)
          (any_record (names_blob oid) roots)
          (any_record (names_large oid) roots)
          (any_record (names_manifest q) roots)
  unfolding add_roots
  add_roots_lem live keys [] = ground arith
  add_roots_lem live keys ((root, records) ∷ roots) =
      let (live', keys') = add_records live keys records in
      let (a, b, c, d) = add_records_lem live keys records in
      let (a', b', c', d') = add_roots_lem live' keys' roots in ground arith

mem-add_chunks :
    (oid : Str) (chunks : List Str) (cs : List LargeChunk)
    → mem oid (add_chunks chunks cs) ≡ (mem oid chunks || any (λ c. str_eq oid c.oid) cs)
unfolding add_chunks
mem-add_chunks oid chunks [] = ground arith
mem-add_chunks oid chunks (c ∷ cs) =
    ground (arith, mem-add_chunks oid (insert c.oid chunks) cs, mem-insert c.oid oid chunks)

-- The manifest under the key lists the chunk.
abbrev pub lists_chunk : (Str → Option LargeManifest) → Str → Str → Bool
lists_chunk load oid key = elim (load key) [
  | none ↦ false
  | some m ↦ any (λ c. str_eq oid c.oid) m.chunks
]

abbrev pub snapshot_names : (Payload → Bool) → SnapshotRecords → Bool
snapshot_names p s = any_record p s.roots || any_record p s.trees

module _ (load : Str → Option LargeManifest) (oid : Str) where
  add_manifests_lem :
      (live : LiveMetadataReferences) (keys : List Str)
      → let live' = add_manifests load live keys in
        (live'.blobs ≡ live.blobs)
        × (live'.large_objects ≡ live.large_objects)
        × (mem oid live'.chunks ≡ (mem oid live.chunks || any (lists_chunk load oid) keys))
  unfolding add_manifests add_large_manifest
  add_manifests_lem live [] = ground arith
  add_manifests_lem live (key ∷ keys) = elim (Option-cases (load key)) [
    | inl unread ↦
        let unlisted : lists_chunk load oid key ≡ false = rw (unread, lists_chunk) in
        let (a, b, c) = add_manifests_lem live keys in rw (unread, add_manifests) (ground arith)
    | inr (m, found) ↦
        let chunks = mem-add_chunks oid live.chunks m.chunks in
        let (a, b, c) = add_manifests_lem (add_large_manifest live m) keys in
        let listed : lists_chunk load oid key ≡ any (λ c. str_eq oid c.oid) m.chunks =
          rw (found, lists_chunk) in
        rw (found, add_manifests) (ground arith)
  ]

  add_snapshots_lem :
      (live : LiveMetadataReferences) (snapshots : List SnapshotRecords)
      → let live' = add_snapshots load live snapshots in
        (mem oid live'.blobs
          ≡ (mem oid live.blobs || any (snapshot_names (names_blob oid)) snapshots))
        × (mem oid live'.large_objects
            ≡ (mem oid live.large_objects || any (snapshot_names (names_large oid)) snapshots))
        × (mem oid live'.chunks ≡ (
            mem oid live.chunks
            || any (snapshot_names (names_manifest (lists_chunk load oid))) snapshots))
  unfolding add_snapshots add_snapshot add_snapshot_manifest
  add_snapshots_lem live [] = ground arith
  add_snapshots_lem live (s ∷ snapshots) =
      let q = lists_chunk load oid in
      let (live1, keys1) = add_roots live [] s.roots in
      let (live2, keys2) = add_roots live1 keys1 s.trees in
      let (a, b, c, d) = add_roots_lem oid q live [] s.roots in
      let (a', b', c', d') = add_roots_lem oid q live1 keys1 s.trees in
      let (e, f, g) = add_manifests_lem live2 keys2 in
      let e' = ap (mem oid) e in
      let f' = ap (mem oid) f in
      let c'' = ap (mem oid) (c' ∙ c) in
      let (x, y, z) = add_snapshots_lem (add_manifests load live2 keys2) snapshots in ground arith

dangling_none :
    (issue : Str → MetadataReferenceIssue) (live oids : List Str) (p : Str → Bool)
    → ((oid : Str) → mem oid live ≡ p oid)
    → (dangling issue live oids ≡ []) ↔ (all p oids ≡ true)
unfolding dangling
dangling_none issue live [] p h = ground arith
dangling_none issue live (oid ∷ oids) p h = ground (arith, h oid, dangling_none issue live oids p h)

three_empty {ℓ} :
    {A : Type ℓ} (xs ys zs : List A) → (xs ++ (ys ++ zs) ≡ []) ↔ ((xs ≡ []) × (ys ≡ []) × (zs ≡ []))
three_empty [] [] [] = ground arith
three_empty [] [] (z ∷ zs) = ground arith
three_empty [] (y ∷ ys) zs = ground arith
three_empty (x ∷ xs) ys zs = ground arith

-- The check of a metadata export reports nothing exactly when every blob and every large object of the
-- database is named by a record of a snapshot, inline or in a tree, and every chunk is listed by a
-- large manifest that such a record names: nothing referenced is reported, and nothing else is spared.
pub local_metadata_issues_none :
    (load : Str → Option LargeManifest) (snapshots : List SnapshotRecords)
    (blob_oids large_oids chunk_oids : List Str)
    → (local_metadata_issues load snapshots blob_oids large_oids chunk_oids ≡ []) ↔ (
        (all (λ oid. any (snapshot_names (names_blob oid)) snapshots) blob_oids ≡ true)
        × (all (λ oid. any (snapshot_names (names_large oid)) snapshots) large_oids ≡ true)
        × (all
              (λ oid. any (snapshot_names (names_manifest (lists_chunk load oid))) snapshots)
              chunk_oids
            ≡ true))
unfolding local_metadata_issues metadata_reference_issues mem
local_metadata_issues_none load snapshots blob_oids large_oids chunk_oids =
    let none_ : LiveMetadataReferences = record { blobs = []; large_objects = []; chunks = [] } in
    let live = add_snapshots load none_ snapshots in
    let b =
      dangling_none dangling_blob live.blobs blob_oids _
        (λ oid. (add_snapshots_lem load oid none_ snapshots).0) in
    let l =
      dangling_none dangling_large_object live.large_objects large_oids _
        (λ oid. (add_snapshots_lem load oid none_ snapshots).1) in
    let c =
      dangling_none dangling_chunk live.chunks chunk_oids _
        (λ oid. (add_snapshots_lem load oid none_ snapshots).2) in
    let e =
      three_empty (dangling dangling_blob live.blobs blob_oids)
        (dangling dangling_large_object live.large_objects large_oids)
        (dangling dangling_chunk live.chunks chunk_oids) in
    ((λ h. let (x, y, z) = e.0 h in (b.0 x, l.0 y, c.0 z)), λ (x, y, z). e.1 (b.1 x, l.1 y, c.1 z))
