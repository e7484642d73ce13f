-- ===== src/Branches/Tests.antt =====
-- A database with two branches, made by commands of which one fails half-way.
use majutsu.Base.{true, false, none, some, []}
use majutsu.Base.Text.{codes, str_eq}
use majutsu.Branches.{
  Database, Host, create, rename, branch_cmd, take_snapshot, Life, fresh, commanded, snapshotted,
}
use majutsu.Branches.Consistent.{IsConsistent}
use majutsu.Branches.Kept.{IsRecorded, Life-IsConsistent, Life-take_snapshot}

abbrev host : Host
host = record {
  snapshot_loads = λ id. true;
  snapshot_id_at = λ at. none;
  restores = λ id. str_eq id (codes "s1");
}

abbrev database : Database
database =
    (branch_cmd host (rename (codes "main") (codes "trunk") false)
      (branch_cmd host (create (codes "side") (some (codes "s2")) none false true true)
        (take_snapshot (codes "s1") (record { refs = []; operations = [] })).1).1).1

database-Life : Life host database
database-Life =
    commanded
      (commanded (snapshotted (fresh []) (codes "s1"))
        (create (codes "side") (some (codes "s2")) none false true true))
      (rename (codes "main") (codes "trunk") false)

Life-IsConsistent_example : IsConsistent database.refs
Life-IsConsistent_example = Life-IsConsistent host database database-Life

Life-take_snapshot_example : IsRecorded (codes "s3") (take_snapshot (codes "s3") database)
Life-take_snapshot_example = Life-take_snapshot host database (codes "s3") database-Life
