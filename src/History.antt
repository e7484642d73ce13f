-- ===== src/History.antt =====
-- The operation log and the history graph: `OperationLogEntry::validation_issues`,
-- `operation_log_comparison_issues`, and `history_graph_issues` of
-- crates/majutsu-core/src/lib.rs. RFC 3339 parsing is a parameter; an error's text is left out.
pub mod Tests
pub mod Graph
pub mod Log
use majutsu.Base.{
  ℕ, suc, ◌≡◌, Bool, true, false, not, ◌&&◌, ◌||◌, Option, none, some, List, [], ◌∷◌, ◌++◌, ◌==◌,
  if◌then◌else◌, length, any, map,
}
use majutsu.Base.Text.{Str, codes, str_eq, starts_with, is_blank}
use majutsu.Base.Sets.{mem}

pub record SnapshotExport : Type 0 where
  pub id : Str
  pub parent_id : Option Str
  pub op_id : Str
  pub created_at : Str
  pub manifest_key : Str
  pub manifest_json : Str

-- The fields that the checks below read.
pub record OperationLogEntry : Type 0 where
  pub id : Str
  pub parent_op : Option Str
  pub kind : Str
  pub actor : Str
  pub status : Str
  pub created_at : Str
  pub error : Option Str
  pub remote_sync_state : Option Str

-- `field == Some(value)`.
pub is_some_str : Option Str → Str → Bool
is_some_str none value = false
is_some_str (some s) value = str_eq s value

pub data HistoryGraphIssue : Type 0 where
  snapshot_self_parent : (snapshot_id : Str) → HistoryGraphIssue
  snapshot_missing_operation : (snapshot_id operation_id : Str) → HistoryGraphIssue
  operation_missing_parent : (operation_id parent_id : Str) → HistoryGraphIssue
  operation_self_parent : (operation_id : Str) → HistoryGraphIssue

abbrev pub operation_ids : List OperationLogEntry → List Str
operation_ids [] = []
operation_ids (operation ∷ operations) = operation.id ∷ operation_ids operations

-- The issue, pushed if the test holds.
abbrev pub when {ℓ} : {A : Type ℓ} → Bool → A → List A
when true issue = issue ∷ []
when false issue = []

pub snapshot_issues : List Str → List SnapshotExport → List HistoryGraphIssue
unfolding is_some_str
snapshot_issues ids [] = []
snapshot_issues ids (snapshot ∷ snapshots) =
    when (is_some_str snapshot.parent_id snapshot.id) (snapshot_self_parent snapshot.id)
    ++ (when (not (mem snapshot.op_id ids)) (snapshot_missing_operation snapshot.id snapshot.op_id)
        ++ snapshot_issues ids snapshots)

pub parent_issues : List Str → Str → Option Str → List HistoryGraphIssue
parent_issues ids id none = []
parent_issues ids id (some parent) =
    when (not (mem parent ids)) (operation_missing_parent id parent)
    ++ when (str_eq parent id) (operation_self_parent id)

pub operation_issues : List Str → List OperationLogEntry → List HistoryGraphIssue
unfolding parent_issues
operation_issues ids [] = []
operation_issues ids (operation ∷ operations) =
    parent_issues ids operation.id operation.parent_op ++ operation_issues ids operations

pub history_graph_issues : List SnapshotExport → List OperationLogEntry → List HistoryGraphIssue
unfolding snapshot_issues operation_issues
history_graph_issues snapshots operations =
    snapshot_issues (operation_ids operations) snapshots
    ++ operation_issues (operation_ids operations) operations

abbrev operation_kinds : List Str
operation_kinds =
    codes "init"
    ∷ codes "root-added"
    ∷ codes "config-change"
    ∷ codes "root-removed"
    ∷ codes "root-paused"
    ∷ codes "root-resumed"
    ∷ codes "root-mark-deleted"
    ∷ codes "root-missing"
    ∷ codes "root-unmounted"
    ∷ codes "root-permission-denied"
    ∷ codes "path-tracked"
    ∷ codes "path-untracked"
    ∷ codes "initial-scan"
    ∷ codes "manual-snapshot"
    ∷ codes "file-events-batch"
    ∷ codes "op-restore"
    ∷ codes "restore"
    ∷ codes "restore-prepare"
    ∷ codes "restore-resume"
    ∷ codes "mount"
    ∷ codes "mount-fuse"
    ∷ codes "unmount"
    ∷ codes "unmount-fuse"
    ∷ codes "hydrate"
    ∷ codes "large-pin"
    ∷ codes "large-unpin"
    ∷ codes "remote-sync"
    ∷ codes "remote-repair"
    ∷ codes "key-rotation"
    ∷ codes "pack"
    ∷ codes "pack-compact"
    ∷ codes "prune"
    ∷ codes "gc"
    ∷ codes "cache-prune"
    ∷ codes "lifecycle-apply"
    ∷ codes "fsck"
    ∷ []

pub valid_operation_kind_label : Str → Bool
valid_operation_kind_label kind = mem kind operation_kinds

pub valid_operation_status_label : Str → Bool
valid_operation_status_label status =
    str_eq status (codes "done")
    || str_eq status (codes "running")
    || str_eq status (codes "failed")

pub valid_remote_sync_state_label : Str → Bool
valid_remote_sync_state_label state =
    str_eq state (codes "not-synced")
    || str_eq state (codes "queued")
    || str_eq state (codes "synced")
    || str_eq state (codes "failed")

pub data OperationLogEntryIssue : Type 0 where
  invalid_id failed_without_error remote_sync_missing_state empty_actor : OperationLogEntryIssue
  invalid_kind invalid_status invalid_remote_sync_state invalid_created_at :
      (value : Str) → OperationLogEntryIssue
  remote_sync_state_mismatch : (status remote_sync_state : Str) → OperationLogEntryIssue

-- The `match` on the state of a remote sync.
pub remote_sync_issues : Str → Option Str → List OperationLogEntryIssue
unfolding valid_remote_sync_state_label
remote_sync_issues status none = remote_sync_missing_state ∷ []
remote_sync_issues status (some state) =
    if str_eq state (codes "queued") && str_eq status (codes "running")
    then []
    else if str_eq state (codes "synced") && str_eq status (codes "done")
    then []
    else if str_eq state (codes "failed") && str_eq status (codes "failed")
    then []
    else if valid_remote_sync_state_label state
    then remote_sync_state_mismatch status state ∷ []
    else []

pub state_label_issues : Option Str → List OperationLogEntryIssue
unfolding valid_remote_sync_state_label
state_label_issues none = []
state_label_issues (some state) =
    when (not (valid_remote_sync_state_label state)) (invalid_remote_sync_state state)

pub has_no_text : Option Str → Bool
unfolding is_blank
has_no_text none = true
has_no_text (some error) = is_blank error

-- One list after the other.
abbrev pub flatten {ℓ} : {A : Type ℓ} → List (List A) → List A
flatten [] = []
flatten (xs ∷ xss) = xs ++ flatten xss

-- What each check of `validation_issues` pushes.
pub validation_checks : (Str → Bool) → OperationLogEntry → List (List OperationLogEntryIssue)
unfolding valid_operation_kind_label valid_operation_status_label remote_sync_issues
    state_label_issues has_no_text
validation_checks is_rfc3339 e =
    when (not (starts_with (codes "op-") e.id)) invalid_id
    ∷ when (not (valid_operation_kind_label e.kind)) (invalid_kind e.kind)
    ∷ when (not (valid_operation_status_label e.status)) (invalid_status e.status)
    ∷ state_label_issues e.remote_sync_state
    ∷ when (str_eq e.status (codes "failed") && has_no_text e.error) failed_without_error
    ∷ (if str_eq e.kind (codes "remote-sync")
        then remote_sync_issues e.status e.remote_sync_state
        else [])
    ∷ when (is_blank e.actor) empty_actor
    ∷ when (not (is_rfc3339 e.created_at)) (invalid_created_at e.created_at)
    ∷ []

pub validation_issues : (Str → Bool) → OperationLogEntry → List OperationLogEntryIssue
unfolding validation_checks
validation_issues is_rfc3339 e = flatten (validation_checks is_rfc3339 e)

pub data OperationLogComparisonIssue : Type 0 where
  count_mismatch : (expected actual : ℕ) → OperationLogComparisonIssue
  entry_mismatch : (index : ℕ) (id : Str) → OperationLogComparisonIssue

-- Over any type of entries, with the derived equality and the id of one.
module _ {ℓ} {E : Type ℓ} (matches : E → E → Bool) (id : E → Str) where
  -- The pairs that differ, in order.
  pub entry_mismatches : ℕ → List E → List E → List OperationLogComparisonIssue
  entry_mismatches index [] expected = []
  entry_mismatches index (a ∷ actual) [] = []
  entry_mismatches index (a ∷ actual) (e ∷ expected) =
      if not (matches a e)
      then entry_mismatch index (id a) ∷ entry_mismatches (suc index) actual expected
      else entry_mismatches (suc index) actual expected

  pub operation_log_comparison_issues : List E → List E → List OperationLogComparisonIssue
  unfolding entry_mismatches
  operation_log_comparison_issues actual expected =
      if not (length actual == length expected)
      then count_mismatch (length expected) (length actual) ∷ []
      else entry_mismatches 0 actual expected
