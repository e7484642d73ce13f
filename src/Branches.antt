-- ===== src/Branches.antt =====
-- Branches: src/branch_runtime.rs over the table `refs` of the database (src/db_refs.rs), with the
-- operations that the commands record. What is taken of the rest of the program is a `Host`: which
-- snapshots load, the snapshot at a time, and whether a restore succeeds, which leaves the refs alone.
-- An error of the database and what the commands print are left out.
pub mod Refs
mod Views
mod Heads
mod Tests
pub mod Consistent
mod Commands
pub mod Kept
use majutsu.Base.{
  ◌≡◌, Bool, true, false, not, ◌&&◌, ◌||◌, Option, none, some, List, [], ◌∷◌, ◌++◌, if◌then◌else◌,
  any, is_some,
}
use majutsu.Base.Text.{
  Str, codes, str_eq, has_char, has_infix, is_blank, is_whitespace, strip_prefix,
}
use majutsu.Base.Maps.{lookup}
use majutsu.Branches.Refs.{set_ref, delete_ref}

abbrev pub current_branch_ref : Str
current_branch_ref = codes "current-branch"

abbrev pub current_ref : Str
current_ref = codes "current"

abbrev pub branch_ref_prefix : Str
branch_ref_prefix = codes "branches/"

abbrev pub default_branch : Str
default_branch = codes "main"

-- The columns of an operation that `record_op` is given.
pub record Operation : Type 0 where
  pub kind : Str
  pub before : Option Str
  pub after : Option Str
  pub message : Str

-- The rows of `refs` and the recorded operations, the latest first.
pub record Database : Type 0 where
  pub refs : List (Str × Str)
  pub operations : List Operation

pub record Host : Type 0 where
  pub snapshot_loads : Str → Bool
  pub snapshot_id_at : Str → Option Str
  pub restores : Str → Bool

pub record BranchHead : Type 0 where
  pub name : Str
  pub snapshot_id : Str

abbrev pub branch_ref_name : Str → Str
branch_ref_name name = branch_ref_prefix ++ name

pub validate_branch_name : Str → Bool
unfolding is_blank has_infix has_char is_whitespace str_eq
validate_branch_name name =
    not (is_blank name)
    && not (str_eq name (codes ".") || str_eq name (codes "..") || has_infix (codes "..") name)
    && not (has_char b'/' name || has_char b'\\' name)
    && not (any is_whitespace name)
    && not (
        str_eq name (codes "current")
        || str_eq name (codes "last-synced")
        || str_eq name current_branch_ref)

abbrev pub set_ref_value : Str → Str → Database → Database
set_ref_value name value db = record db { refs = set_ref name value db.refs }

abbrev pub delete_ref_value : Str → Database → Database
delete_ref_value name db = record db { refs = delete_ref name db.refs }

abbrev record_op : Option Str → Option Str → Str → Database → Database
record_op before after message db = record db {
  operations =
      record { kind = codes "config-change"; before = before; after = after; message = message }
      ∷ db.operations;
}

abbrev ref_value : Str → Database → Option Str
ref_value name db = lookup name db.refs

abbrev pub current_snapshot : Database → Option Str
current_snapshot db = ref_value current_ref db

abbrev pub active_branch : Database → Option Str
active_branch db = ref_value current_branch_ref db

abbrev pub branch_head : Str → Database → Option Str
branch_head name db = ref_value (branch_ref_name name) db

abbrev pub is_active : Str → Database → Bool
is_active name db = elim (active_branch db) [ none ↦ false | some active ↦ str_eq active name ]

-- The rows below the prefix, in the order of their names, as the table has them.
pub heads_of : List (Str × Str) → List BranchHead
heads_of [] = []
heads_of ((name, value) ∷ rows) = elim (strip_prefix branch_ref_prefix name) [
  | none ↦ heads_of rows
  | some branch ↦ record { name = branch; snapshot_id = value } ∷ heads_of rows
]

abbrev branch_heads : Database → List BranchHead
branch_heads db = heads_of db.refs

pub find_head : Str → List BranchHead → Option BranchHead
find_head id [] = none
find_head id (head ∷ heads) = if str_eq head.snapshot_id id then some head else find_head id heads

-- The branch that becomes active: one at the current snapshot, or else the first.
pub selected : Option Str → BranchHead → List BranchHead → Str
selected none head heads = head.name
selected (some id) head heads = elim (find_head id (head ∷ heads)) [
  | some found ↦ found.name
  | none ↦ head.name
]

pub ensure_default_branch : Database → Database
ensure_default_branch db = elim (branch_heads db) [
  | head ∷ heads ↦ elim (active_branch db) [
    | some active ↦ db
    | none ↦ set_ref_value current_branch_ref (selected (current_snapshot db) head heads) db
  ]
  | [] ↦ elim (current_snapshot db) [
    | none ↦ db
    | some id ↦
        set_ref_value (branch_ref_name default_branch) id
          (set_ref_value current_branch_ref default_branch db)
  ]
]

-- Whether a command succeeds, and the database behind it: an error does not take back what was
-- written before it.
pub update_active_branch_head : Str → Database → Bool × Database
update_active_branch_head snapshot_id db =
    let branch : Str = elim (active_branch db) [ none ↦ default_branch | some active ↦ active ] in
    if validate_branch_name branch
    then (
      true,
      set_ref_value current_ref snapshot_id (
          set_ref_value (branch_ref_name branch) snapshot_id
            (set_ref_value current_branch_ref branch db)),
    )
    else (false, db)

-- `unwrap_or_else` of an active branch is above; what follows are the commands.
pub resolve_snapshot : Host → Option Str → Option Str → Database → Option Str
resolve_snapshot host (some snapshot) (some at) db = none
resolve_snapshot host (some snapshot) none db =
    if host.snapshot_loads snapshot then some snapshot else none
resolve_snapshot host none (some at) db = host.snapshot_id_at at
resolve_snapshot host none none db = current_snapshot db

-- The branch's head, and the current snapshot too when the branch is the active one.
pub move_head : Str → Str → Database → Database
move_head name snapshot_id db =
    let moved = set_ref_value (branch_ref_name name) snapshot_id db in
    if is_active name db then set_ref_value current_ref snapshot_id moved else moved

pub switch_to_branch : Host → Str → Bool → Database → Bool × Database
switch_to_branch host name restore db = elim (branch_head name db) [
  | none ↦ (false, db)
  | some snapshot_id ↦
      if not (host.snapshot_loads snapshot_id)
      then (false, db)
      else if restore && not (host.restores snapshot_id)
      then (false, db)
      else (
        true,
        record_op (current_snapshot db) (some snapshot_id) (codes "branch-switch " ++ name)
            (set_ref_value current_ref snapshot_id (set_ref_value current_branch_ref name db)),
      )
]

-- The branch and its operation, before a switch.
pub add_branch : Str → Str → Database → Database
unfolding move_head
add_branch name snapshot_id db =
    record_op (current_snapshot db)
      (if is_active name db then some snapshot_id else current_snapshot db)
      (codes "branch-create " ++ (name ++ (codes " -> " ++ snapshot_id)))
      (move_head name snapshot_id db)

pub create_branch :
    Host → Str → Option Str → Option Str → Bool → Bool → Bool → Database → Bool × Database
unfolding resolve_snapshot switch_to_branch add_branch
create_branch host name snapshot at force switching restore db =
    if not (validate_branch_name name)
    then (false, db)
    else elim (resolve_snapshot host snapshot at db) [
      | none ↦ (false, db)
      | some snapshot_id ↦
          if is_some (branch_head name db) && not force
          then (false, db)
          else if not (host.snapshot_loads snapshot_id)
          then (false, db)
          else if switching || restore
          then switch_to_branch host name restore (add_branch name snapshot_id db)
          else (true, add_branch name snapshot_id db)
    ]

pub switch_branch : Host → Str → Bool → Database → Bool × Database
unfolding switch_to_branch
switch_branch host name restore db =
    if validate_branch_name name then switch_to_branch host name restore db else (false, db)

pub set_branch_head : Host → Str → Option Str → Option Str → Database → Bool × Database
unfolding resolve_snapshot move_head
set_branch_head host name snapshot at db =
    if not (validate_branch_name name) then (false, db) else elim (branch_head name db) [
      | none ↦ (false, db)
      | some old_head ↦ elim (resolve_snapshot host snapshot at db) [
        | none ↦ (false, db)
        | some snapshot_id ↦
            if host.snapshot_loads snapshot_id
            then (
              true,
              record_op (some old_head) (some snapshot_id)
                  (codes "branch-set-head "
                    ++ (name ++ (codes " " ++ (old_head ++ (codes " -> " ++ snapshot_id)))))
                  (move_head name snapshot_id db),
            )
            else (false, db)
      ]
    ]

-- The branch is gone; when it was the active one, the first that is left takes its place.
pub drop_branch : Str → Database → Database
drop_branch name db =
    let dropped = delete_ref_value (branch_ref_name name) db in
    if is_active name db
    then elim (branch_heads dropped) [
      | head ∷ heads ↦
          set_ref_value current_ref head.snapshot_id
            (set_ref_value current_branch_ref head.name dropped)
      | [] ↦ delete_ref_value current_branch_ref dropped
    ]
    else dropped

pub delete_branch : Str → Bool → Database → Bool × Database
unfolding drop_branch
delete_branch name force db =
    if not (validate_branch_name name) then (false, db) else elim (branch_head name db) [
      | none ↦ (false, db)
      | some head ↦ if is_active name db && not force then (false, db) else (
        true,
        record_op (some head) (current_snapshot (drop_branch name db))
            (codes "branch-delete " ++ name) (drop_branch name db),
      )
    ]

pub carry_over : Str → Str → Str → Database → Database
carry_over old new head db =
    let carried =
      delete_ref_value (branch_ref_name old) (set_ref_value (branch_ref_name new) head db) in
    let renamed =
      if is_active old db then set_ref_value current_branch_ref new carried else carried in
    if is_active old db || is_active new db then set_ref_value current_ref head renamed else renamed

pub rename_branch : Str → Str → Bool → Database → Bool × Database
unfolding carry_over
rename_branch old new force db =
    if not (validate_branch_name old) || not (validate_branch_name new) || str_eq old new
    then (false, db)
    else if is_some (branch_head new db) && not force
    then (false, db)
    else elim (branch_head old db) [
      | none ↦ (false, db)
      | some head ↦
          if is_active new db && not (is_active old db) && not force then (false, db) else (
            true,
            record_op (current_snapshot db) (current_snapshot (carry_over old new head db))
                (codes "branch-rename " ++ (old ++ (codes " -> " ++ new)))
                (carry_over old new head db),
          )
    ]

pub data BranchCommand : Type 0 where
  list current : BranchCommand
  create : (name : Str) (snapshot at : Option Str) (force switching restore : Bool) → BranchCommand
  switch : (name : Str) (restore : Bool) → BranchCommand
  set_head : (name : Str) (snapshot at : Option Str) → BranchCommand
  delete : (name : Str) (force : Bool) → BranchCommand
  rename : (old new : Str) (force : Bool) → BranchCommand

pub run_command : Host → BranchCommand → Database → Bool × Database
unfolding create_branch switch_branch set_branch_head delete_branch rename_branch
run_command host list db = (true, db)
run_command host current db = (true, db)
run_command host (create name snapshot at force switching restore) db =
    create_branch host name snapshot at force switching restore db
run_command host (switch name restore) db = switch_branch host name restore db
run_command host (set_head name snapshot at) db = set_branch_head host name snapshot at db
run_command host (delete name force) db = delete_branch name force db
run_command host (rename old new force) db = rename_branch old new force db

pub branch_cmd : Host → BranchCommand → Database → Bool × Database
branch_cmd host command db = run_command host command (ensure_default_branch db)

-- What a snapshot (`snapshot_cmd`) and `op restore` write to `refs`; the first in a transaction.
pub take_snapshot : Str → Database → Bool × Database
take_snapshot snapshot_id db =
    let (done, db') =
      update_active_branch_head snapshot_id (set_ref_value current_ref snapshot_id db) in
    if done then (true, db') else (false, db)

pub restore_operation : Str → Database → Bool × Database
restore_operation snapshot_id db =
    update_active_branch_head snapshot_id (set_ref_value current_ref snapshot_id db)

-- The databases that are reached from one without refs.
pub data Life (host : Host) : Database → Type 0 where
  fresh : (operations : List Operation) → Life host (record { refs = []; operations = operations })
  commanded :
      {db : Database}
      → Life host db
      → (command : BranchCommand) → Life host (branch_cmd host command db).1
  snapshotted :
      {db : Database}
      → Life host db
      → (snapshot_id : Str) → Life host (take_snapshot snapshot_id db).1
  restored :
      {db : Database}
      → Life host db
      → (snapshot_id : Str) → Life host (restore_operation snapshot_id db).1
