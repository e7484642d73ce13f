-- ===== src/Branches/Kept.antt =====
-- Each command on branches, and what else writes the refs, keeps them consistent.
use majutsu.Base.{
  ◌≡◌, inl, inr, refl, sym, ◌∙◌, Bool, true, false, not, ◌&&◌, ◌||◌, Option, none, some,
  if◌then◌else◌, arith, Option-cases, All, is_some,
}
use majutsu.Base.Text.{Str, str_eq, str_eq_refl}
use majutsu.Base.Maps.{lookup}
use majutsu.Branches.{
  current_branch_ref, current_ref, default_branch, Database, Host, branch_ref_name,
  validate_branch_name, set_ref_value, current_snapshot, active_branch, branch_head, is_active,
  ensure_default_branch, update_active_branch_head, resolve_snapshot, switch_to_branch, add_branch,
  create_branch, switch_branch, set_branch_head, delete_branch, rename_branch, BranchCommand, list,
  create, switch, set_head, delete, rename, run_command, branch_cmd, take_snapshot,
  restore_operation, Life, fresh, commanded, snapshotted, restored,
}
use majutsu.Branches.Refs.{set_ref}
use majutsu.Branches.Views.{
  active, head, active-set_active, active-set_current, current-set_current, head-set_current,
  active-set_head, head-set_head, IsRow,
}
use majutsu.Branches.Consistent.{
  IsConsistent, IsSettled, switched-IsConsistent, pointed-IsConsistent, set_active-IsRow,
  set_current-IsRow, set_head-IsRow,
}
use majutsu.Branches.Commands.{
  move_head-IsConsistent, drop_branch-IsConsistent, carry_over-IsConsistent, active-valid,
  main_valid, ensure_default_branch-IsConsistent,
}

abbrev IsSound : Bool × Database → Type 0
IsSound (done, db) = IsConsistent db.refs

-- Both ways of a test.
either-IsSound :
    (b : Bool) (r s : Bool × Database)
    → (b ≡ true → IsSound r)
    → (b ≡ false → IsSound s)
    → IsSound (if b then r else s)
either-IsSound true r s f g = f refl
either-IsSound false r s f g = g refl

found-IsSound :
    (o : Option Str) (r : Bool × Database) (s : Str → Bool × Database)
    → (o ≡ none → IsSound r)
    → ((a : Str) → o ≡ some a → IsSound (s a))
    → IsSound (elim o [ none ↦ r | some a ↦ s a ])
found-IsSound none r s f g = f refl
found-IsSound (some a) r s f g = g a refl

module _ (host : Host) (db : Database) (fine : IsConsistent db.refs) where
  switch_to_branch-IsSound :
      (name : Str) (restore : Bool) → IsSound (switch_to_branch host name restore db)
  unfolding switch_to_branch
  switch_to_branch-IsSound name restore =
      found-IsSound (branch_head name db) _ _ (λ e. fine)
        (λ id e.
          either-IsSound (not (host.snapshot_loads id)) _ _ (λ e'. fine)
            (λ e'.
              either-IsSound (restore && not (host.restores id)) _ _ (λ e''. fine)
                (λ e''. switched-IsConsistent db.refs fine name id e)))

module _ (host : Host) (db : Database) (fine : IsConsistent db.refs)
    (settled : IsSettled db.refs) where
  create_branch-IsSound :
      (name : Str) (snapshot at : Option Str) (force switching restore : Bool)
      → IsSound (create_branch host name snapshot at force switching restore db)
  unfolding create_branch add_branch
  create_branch-IsSound name snapshot at force switching restore =
      either-IsSound (not (validate_branch_name name)) _ _ (λ e. fine)
        (λ v.
          found-IsSound (resolve_snapshot host snapshot at db) _ _ (λ e. fine)
            (λ id e.
              either-IsSound (is_some (branch_head name db) && not force) _ _ (λ e. fine)
                (λ e.
                  either-IsSound (not (host.snapshot_loads id)) _ _ (λ e. fine)
                    (λ e.
                      let added =
                        move_head-IsConsistent db fine settled name id (ground (arith, v)) in
                      either-IsSound (switching || restore) _ _
                        (λ e.
                          switch_to_branch-IsSound host (add_branch name id db) added name restore)
                        (λ e. added)))))

  switch_branch-IsSound :
      (name : Str) (restore : Bool) → IsSound (switch_branch host name restore db)
  unfolding switch_branch
  switch_branch-IsSound name restore =
      either-IsSound (validate_branch_name name) _ _
        (λ e. switch_to_branch-IsSound host db fine name restore) (λ e. fine)

  set_branch_head-IsSound :
      (name : Str) (snapshot at : Option Str) → IsSound (set_branch_head host name snapshot at db)
  unfolding set_branch_head
  set_branch_head-IsSound name snapshot at =
      either-IsSound (not (validate_branch_name name)) _ _ (λ e. fine)
        (λ v.
          found-IsSound (branch_head name db) _ _ (λ e. fine)
            (λ old e.
              found-IsSound (resolve_snapshot host snapshot at db) _ _ (λ e. fine)
                (λ id e.
                  either-IsSound (host.snapshot_loads id) _ _
                    (λ e. move_head-IsConsistent db fine settled name id (ground (arith, v)))
                    (λ e. fine))))

  delete_branch-IsSound : (name : Str) (force : Bool) → IsSound (delete_branch name force db)
  unfolding delete_branch
  delete_branch-IsSound name force =
      either-IsSound (not (validate_branch_name name)) _ _ (λ e. fine)
        (λ v.
          found-IsSound (branch_head name db) _ _ (λ e. fine)
            (λ old e.
              either-IsSound (is_active name db && not force) _ _ (λ e. fine)
                (λ e. drop_branch-IsConsistent db fine settled name)))

  rename_branch-IsSound : (old new : Str) (force : Bool) → IsSound (rename_branch old new force db)
  unfolding rename_branch
  rename_branch-IsSound old new force =
      either-IsSound
        (not (validate_branch_name old) || not (validate_branch_name new) || str_eq old new) _ _
        (λ e. fine)
        (λ v.
          either-IsSound (is_some (branch_head new db) && not force) _ _ (λ e. fine)
            (λ e.
              found-IsSound (branch_head old db) _ _ (λ e. fine)
                (λ id h.
                  either-IsSound (is_active new db && not (is_active old db) && not force) _ _
                    (λ e. fine)
                    (λ e.
                      carry_over-IsConsistent db fine settled old new id (ground (arith, v))
                        (ground (arith, v)) h))))

  run_command-IsSound : (command : BranchCommand) → IsSound (run_command host command db)
  unfolding run_command
  run_command-IsSound list = fine
  run_command-IsSound BranchCommand.current = fine
  run_command-IsSound (create name snapshot at force switching restore) =
      create_branch-IsSound name snapshot at force switching restore
  run_command-IsSound (switch name restore) = switch_branch-IsSound name restore
  run_command-IsSound (set_head name snapshot at) = set_branch_head-IsSound name snapshot at
  run_command-IsSound (delete name force) = delete_branch-IsSound name force
  run_command-IsSound (rename old new force) = rename_branch-IsSound old new force

branch_cmd-IsSound :
    (host : Host) (command : BranchCommand) (db : Database)
    → IsConsistent db.refs
    → IsSound (branch_cmd host command db)
unfolding branch_cmd
branch_cmd-IsSound host command db fine =
    let (fine', settled) = ensure_default_branch-IsConsistent db fine in
    run_command-IsSound host (ensure_default_branch db) fine' settled command

-- Where a database is pointed by a snapshot that is recorded.
abbrev pub IsRecorded : Str → Bool × Database → Type 0
IsRecorded id (done, db) =
    (done ≡ true)
    × ((b : Str) × (active_branch db ≡ some b)
        × (branch_head b db ≡ some id)
        × (current_snapshot db ≡ some id))

update_active_branch_head-IsRecorded :
    (id : Str) (db : Database)
    → All (IsRow db.refs) db.refs
    → ((b : Str) → active db.refs ≡ some b → validate_branch_name b ≡ true)
    → IsRecorded id (update_active_branch_head id db) × IsSound (update_active_branch_head id db)
unfolding update_active_branch_head
update_active_branch_head-IsRecorded id db rows valid = elim (Option-cases (active_branch db)) [
  | inl e ↦ rw (e, main_valid, update_active_branch_head) (at_branch default_branch main_valid)
  | inr (b, e) ↦ let v = valid b e in rw (e, v, update_active_branch_head) (at_branch b v)
]
  where
    at_branch :
        (b : Str)
        → validate_branch_name b ≡ true
        → IsRecorded id (
          true,
          set_ref_value current_ref id
              (set_ref_value (branch_ref_name b) id (set_ref_value current_branch_ref b db)),
        )
          × IsSound (
            true,
            set_ref_value current_ref id
                (set_ref_value (branch_ref_name b) id (set_ref_value current_branch_ref b db)),
          )
    at_branch b v =
        let u = set_ref current_branch_ref b db.refs in
        let w = set_ref (branch_ref_name b) id u in
        let a : active (set_ref current_ref id w) ≡ some b =
          active-set_current w b id ∙ (active-set_head u b id ∙ active-set_active db.refs b b) in
        let h : head b (set_ref current_ref id w) ≡ some id =
          head-set_current w b id ∙ (head-set_head u b id b ∙ rw (str_eq_refl b)) in
        let c = current-set_current w b id in
        (
          (refl, (b, a, h, c)),
          pointed-IsConsistent (set_ref current_ref id w) b id
              (set_current-IsRow id w (set_head-IsRow b id u v (set_active-IsRow b db.refs rows)))
              (a, h, c),
        )

-- A snapshot that is made current, as in both uses.
adopted :
    (id : Str) (db : Database)
    → IsConsistent db.refs
    → IsRecorded id (update_active_branch_head id (set_ref_value current_ref id db))
      × IsSound (update_active_branch_head id (set_ref_value current_ref id db))
adopted id db fine =
    update_active_branch_head-IsRecorded id (set_ref_value current_ref id db)
      (set_current-IsRow id db.refs fine.rows)
      (λ b e. active-valid db.refs fine b (sym (active-set_current db.refs b id) ∙ e))

taken :
    (id : Str) (db : Database)
    → IsConsistent db.refs
    → IsRecorded id (take_snapshot id db) × IsSound (take_snapshot id db)
unfolding take_snapshot
taken id db fine =
    let both = adopted id db fine in
    let done = both.0.0 in rw (done, take_snapshot) ((refl, both.0.1), both.1)

-- Through every life of a database, in which commands on branches, new snapshots and restored operations
-- come in any order and any of them may fail, the refs stay consistent: the active branch has a head,
-- which is the current snapshot unless none is set; without an active branch no branch has a head or
-- there is no current snapshot; every row is what a look at its name finds; and every branch has a valid
-- name. A command that fails half-way, as a creation whose switch fails, is no exception.
pub Life-IsConsistent : (host : Host) (db : Database) → Life host db → IsConsistent db.refs
unfolding lookup restore_operation
Life-IsConsistent host db (fresh operations) = record {
  rows = tt;
  headed = λ b a. absurd (cc a);
  loose = λ a. inr a;
}
Life-IsConsistent host db (commanded {db = before} life command) =
    branch_cmd-IsSound host command before (Life-IsConsistent host before life)
Life-IsConsistent host db (snapshotted {db = before} life id) =
    (taken id before (Life-IsConsistent host before life)).1
Life-IsConsistent host db (restored {db = before} life id) =
    (adopted id before (Life-IsConsistent host before life)).1

-- Whatever commands came before, a new snapshot is always recorded: the write of the refs does not fail,
-- and behind it some branch is active, and that branch and the current snapshot are the new one.
pub Life-take_snapshot :
    (host : Host) (db : Database) (id : Str) → Life host db → IsRecorded id (take_snapshot id db)
Life-take_snapshot host db id life = (taken id db (Life-IsConsistent host db life)).0
