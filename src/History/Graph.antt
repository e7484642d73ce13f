-- ===== src/History/Graph.antt =====
-- A history without issues.
use majutsu.Base.{◌≡◌, ◌≢◌, ◌↔◌, true, Option, none, some, List, [], ◌∷◌, ◌++◌, All, arith}
use majutsu.Base.Text.{Str, str_eq_iff}
use majutsu.Base.Sets.{mem}
use majutsu.History.{
  SnapshotExport, OperationLogEntry, is_some_str, operation_ids, snapshot_issues, parent_issues,
  operation_issues, history_graph_issues,
}

-- The snapshot is not its own parent, and its operation is in the log.
abbrev pub SnapshotLinked : List Str → SnapshotExport → Type 0
SnapshotLinked ids s = (s.parent_id ≢ some s.id) × (mem s.op_id ids ≡ true)

-- The operation's parent, if it has one, is another one of the log.
abbrev ParentLinked : List Str → Str → Option Str → Type 0
ParentLinked ids id none = Unit
ParentLinked ids id (some parent) = (mem parent ids ≡ true) × (parent ≢ id)

abbrev pub OperationLinked : List Str → OperationLogEntry → Type 0
OperationLinked ids o = ParentLinked ids o.id o.parent_op

is_some_str_iff : (o : Option Str) (s : Str) → (is_some_str o s ≡ true) ↔ (o ≡ some s)
unfolding is_some_str
is_some_str_iff none s = ground arith
is_some_str_iff (some a) s = ground (arith, str_eq_iff a s)

snapshot_issues_none :
    (ids : List Str) (snapshots : List SnapshotExport)
    → (snapshot_issues ids snapshots ≡ []) ↔ All (SnapshotLinked ids) snapshots
unfolding snapshot_issues
snapshot_issues_none ids [] = ground arith
snapshot_issues_none ids (s ∷ snapshots) =
    ground (arith, is_some_str_iff s.parent_id s.id, snapshot_issues_none ids snapshots)

parent_issues_none :
    (ids : List Str) (id : Str) (parent : Option Str)
    → (parent_issues ids id parent ≡ []) ↔ ParentLinked ids id parent
unfolding parent_issues
parent_issues_none ids id none = ground arith
parent_issues_none ids id (some parent) = ground (arith, str_eq_iff parent id)

both_empty {ℓ} : {A : Type ℓ} (xs ys : List A) → (xs ++ ys ≡ []) ↔ ((xs ≡ []) × (ys ≡ []))
both_empty [] ys = ground arith
both_empty (x ∷ xs) ys = ground arith

operation_issues_none :
    (ids : List Str) (operations : List OperationLogEntry)
    → (operation_issues ids operations ≡ []) ↔ All (OperationLinked ids) operations
unfolding operation_issues
operation_issues_none ids [] = ground arith
operation_issues_none ids (o ∷ operations) =
    let e = both_empty (parent_issues ids o.id o.parent_op) (operation_issues ids operations) in
    let p = parent_issues_none ids o.id o.parent_op in
    let rest = operation_issues_none ids operations in
    ((λ h. let (x, y) = e.0 h in (p.0 x, rest.0 y)), λ (x, y). e.1 (p.1 x, rest.1 y))

-- The history check reports nothing exactly when no snapshot is its own parent, every snapshot's
-- operation is in the log, and every operation without a parent is a root of it, every other one the
-- child of another operation of the log.
pub history_graph_issues_none :
    (snapshots : List SnapshotExport) (operations : List OperationLogEntry)
    → (history_graph_issues snapshots operations ≡ []) ↔ (
        All (SnapshotLinked (operation_ids operations)) snapshots
        × All (OperationLinked (operation_ids operations)) operations)
unfolding history_graph_issues
history_graph_issues_none snapshots operations =
    let ids = operation_ids operations in
    let e = both_empty (snapshot_issues ids snapshots) (operation_issues ids operations) in
    let s = snapshot_issues_none ids snapshots in
    let o = operation_issues_none ids operations in
    ((λ h. let (x, y) = e.0 h in (s.0 x, o.0 y)), λ (x, y). e.1 (s.1 x, o.1 y))
