-- ===== src/Lib.antt =====
-- A model of majutsu, a program that keeps the history of directories: it stores files as
-- content-addressed objects in a state home, records snapshots and operations, uploads the objects
-- to remote stores, and restores or mounts what it has stored. The paths below start at the
-- repository's root.
--
-- The parts, and the files that model them:
-- - Base: text, lists, ordered sets and maps that the parts share. A text is the list of its code
--   points, a byte string the list of its bytes, both as numbers. A `BTreeSet<String>` is the
--   increasing list of its elements, a table the list of its rows, latest first.
-- - Large: crates/majutsu-large/src/lib.rs. Large itself has the chunkers (`fixed_ranges`,
--   `content_defined_ranges`, `chunk_ranges_for_bytes`), Large/Compress the compression of a chunk,
--   Large/Object the chunk store of src/main.rs (`store_large_bytes_buffered`,
--   `store_large_chunk_bytes`, `read_large_chunk`, `write_large_chunks_atomic`) with the object files
--   and the table `chunks` as its state, and Large/Pipeline the parallel restore of a file
--   (`write_large_chunks_atomic_pipelined`), a step relation over the workers, the bounded channel
--   and the receiver that puts the chunks in order.
-- - Crypto: crates/majutsu-crypto/src/lib.rs, the envelope of an object. Crypto/Envelope is the
--   interface that the chunk store takes; the theorems of Crypto/RoundTrip fill it.
-- - ObjectKey: the keys of objects, src/util.rs and crates/majutsu-db/src/lib.rs. The chunk store reads
--   no object whose key it refuses.
-- - Fuse: `read_file` of src/fuse_mount.rs for a large file, on top of the chunk store.
-- - Pack: crates/majutsu-pack/src/lib.rs, the checks of packs of small blobs.
-- - References: the payloads of crates/majutsu-core/src/lib.rs and the check of
--   src/fsck_runtime.rs for objects that no snapshot references.
-- - History: the checks of the operation log and the history graph, crates/majutsu-core/src/lib.rs.
-- - Prune: crates/majutsu-policy/src/lib.rs, which snapshots a retention plan keeps.
-- - Branches: src/branch_runtime.rs over the refs of src/db_refs.rs. A database is its rows of refs and its
--   recorded operations; what a snapshot (src/main.rs) and `op restore` (src/history_runtime.rs) write to
--   the refs stands beside the commands in one relation, Life, of what can happen to a database.
-- - TreeDiff: the comparison of two trees in src/history_runtime.rs (`append_node_diff`,
--   `append_entry_map_diff`), over the node manifests of crates/majutsu-core/src/lib.rs.
-- - UploadQueue: the drain of the upload queue in src/queue_runtime.rs (`drain_upload_queue`,
--   `upload_queue_item`), with the queue and the objects of the remote store as its state;
--   the keys and aliases are those of RemoteKeys.
-- - RemoteKeys: the keys of objects in a remote store, crates/majutsu-store/src/lib.rs
--   (`canonical_remote_alias`, `host_remote_key`) and src/object_paths.rs.
-- - Restore: crates/majutsu-restore/src/lib.rs, the queue of restores, with the life of a job in
--   src/main.rs and src/restore_runtime.rs as a step relation (Restore/Queue).
-- - WatchRetry: src/watch_recovery.rs, the retries of the watcher, as runs over their state file.
-- - SnapshotRules: src/snapshot_rules.rs, which paths of a root a snapshot takes and which directories its walk
--   enters: SnapshotRules has the patterns, SnapshotRules/Rules the rules of a root (`root_record_is_managed`,
--   `root_dir_allows_descend`), SnapshotRules/Literal the patterns without wildcards, and SnapshotRules/Walk
--   compares the two rules. Glob matching and the ignore rules are parameters.
-- - Cluster: the durable store of the cluster master, src/cluster_runtime.rs. Cluster has its files for one
--   key and the monad of operations whose writes may fail; Cluster/Puts the puts, deletions and intents
--   (`process_puts`, `durable_delete`, `recover_master_write_intent_for_key`), Cluster/Backend the worker,
--   the collector and the readers (`upload_backend_queue_item`, `run_local_gc`, `master_get_optional`),
--   Cluster/Dependencies the order of the backend queue. Cluster/Rules has the rules by which
--   Cluster/Replay, Acknowledged, Repeated, Outcome, Uploading and Finishing carry what Cluster/Fine
--   states through every write; Cluster/Life and Histories are the step relations over it,
--   Cluster/Present the keys that the store holds, Cluster/Promises what clients rely on, and Cluster/Batch a
--   request over many keys. The hash of contents is a parameter that is taken to be injective; a write of a file takes place whole or not at all.
-- - Journal: the event journal of crates/majutsu-db/src/lib.rs and its compaction in
--   src/queue_runtime.rs, as one step on the list of records.
--
-- Numbers: a `usize` and a `u64` are numbers below 2 ^ 64, and an operation that could leave that range
-- is reduced modulo 2 ^ 64, or checked where the source checks it. Files below 2 ^ 63 bytes and chunk
-- sizes below 2 ^ 61 keep the chunkers inside. The loops of the chunkers run on fuel, one more than the
-- length of the file: every round of them advances, so this is enough, and the theorem on
-- `chunk_ranges_for_bytes` shows that they return.
-- The receiver of a parallel restore and the batches of the upload queue have a round of fuel for each
-- entry, and each round takes one at least. The comparison of trees runs on fuel too, and the
-- theorem on `append_node_diff` shows that it returns with fuel for the levels of the trees.
--
-- Errors and panics are `none`; a command on branches and a drain of the upload queue return whether they
-- succeed together with the state that they leave, also on an error. Third-party code is a parameter: the
-- ciphers and `age`, zstd, the hash, the calendar, RFC 3339, globs and ignore rules. What is relied on of it
-- is a record of hypotheses (`IsLawful`, `Zstd`, `IsReliable`), and the tests give functions for which they
-- hold. What a theorem asks of the data beside these is named: `AllStorable` of the chunks of a file,
-- `OpensOwn` of the key files, `IsPlain` of patterns, and `AreTimely` and `AllTimely` of the readers of the
-- cluster master, which read the backend without the lock and store what they have read later.
--
-- Not modelled: remote stores and synchronisation, the watcher's loop, daemon registration, lifecycle
-- policies, configuration, the network protocol and the status of the cluster, its limits on clients and
-- its lists, the presets and command-line overrides of a root's rules, and the reading and writing of
-- directories. In the chunk store the early return for a file that is already stored, the streaming
-- store and the manifest object are left out.
pub mod Base
pub mod Large
pub mod Branches
pub mod Cluster
pub mod Crypto
pub mod ObjectKey
pub mod Fuse
pub mod Prune
pub mod Pack
pub mod References
pub mod History
pub mod Restore
pub mod WatchRetry
pub mod Journal
pub mod TreeDiff
pub mod RemoteKeys
pub mod SnapshotRules
pub mod UploadQueue
