-- ===== src/History/Tests.antt =====
-- A small history, and runs of its checks.
use majutsu.Base.{◌≡◌, ◌↔◌, refl, true, none, some, [], ◌∷◌, All}
use majutsu.Base.Text.{codes, str_eq, starts_with, is_blank, trim, skip_while, is_whitespace}
use majutsu.Base.Sets.{mem}
use majutsu.History.{
  SnapshotExport, OperationLogEntry, history_graph_issues, valid_operation_kind_label,
  valid_operation_status_label, valid_remote_sync_state_label, remote_sync_issues,
  state_label_issues, has_no_text, validation_checks, validation_issues,
}
use majutsu.History.Graph.{SnapshotLinked, OperationLinked, history_graph_issues_none}

abbrev sync : OperationLogEntry
sync = record {
  id = codes "op-2";
  parent_op = some (codes "op-1");
  kind = codes "remote-sync";
  actor = codes "local";
  status = codes "done";
  created_at = codes "2026-06-07T00:00:00Z";
  error = none;
  remote_sync_state = some (codes "synced");
}

abbrev first_snapshot : SnapshotExport
first_snapshot = record {
  id = codes "s1";
  parent_id = none;
  op_id = codes "op-2";
  created_at = codes "2026-06-07T00:00:00Z";
  manifest_key = codes "k";
  manifest_json = [];
}

history_graph_issues_none_example :
    (history_graph_issues (first_snapshot ∷ []) (sync ∷ []) ≡ []) ↔ (
      All (SnapshotLinked (codes "op-2" ∷ [])) (first_snapshot ∷ [])
      × All (OperationLinked (codes "op-2" ∷ [])) (sync ∷ []))
history_graph_issues_none_example = history_graph_issues_none (first_snapshot ∷ []) (sync ∷ [])

sync_fine : validation_issues (λ s. true) sync ≡ []
unfolding validation_issues validation_checks valid_operation_kind_label
    valid_operation_status_label valid_remote_sync_state_label remote_sync_issues state_label_issues
    has_no_text mem str_eq starts_with is_blank trim skip_while is_whitespace
sync_fine = refl
