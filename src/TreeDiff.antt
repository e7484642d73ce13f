-- ===== src/TreeDiff.antt =====
-- The differences of two trees of one root: `append_v2_tree_diff` and what it calls in
-- src/history_runtime.rs. A `BTreeMap` is the list of its bindings in the order of its keys. What a change
-- takes of a record (`RecordView`: whether it is large, when it was changed, and the derived equality) and
-- the root's rule for volatile files are parameters, and so is the reading of a tree node. The recursion
-- over the nodes runs on fuel: one more than the depth of the trees is enough.
pub mod Entries
pub mod Pruned
mod Tests
use majutsu.Base.{
  ℕ, zero, suc, ◌≡◌, Bool, true, false, Option, none, some, List, [], ◌∷◌, ◌++◌, if◌then◌else◌, map,
}
use majutsu.Base.Text.{Str, codes, str_eq}
use majutsu.Base.Sets.{insert}
use majutsu.Base.Maps.{lookup}
use majutsu.Crypto.{◌>>=◌}

-- `warning` and `order_priority`, which the functions here leave at `None` and 0, are left out.
pub record FileChange : Type 0 where
  pub status : Str
  pub path : Str
  pub large : Bool
  pub volatile_mode : Option Str
  pub order_time : Option Str

pub record RecordView (R : Type 0) : Type 0 where
  pub path : R → Str
  pub is_large : R → Bool
  pub order_time : R → Option Str
  pub equals : R → R → Bool

pub record TreeNodeRef : Type 0 where
  pub node_id : Str
  pub node_key : Str
  pub file_count : ℕ
  pub total_size : ℕ

pub record TreeNodeManifest (R : Type 0) : Type 0 where
  pub child_nodes : List (Str × TreeNodeRef)
  pub entries : List (Str × R)

pub keys {ℓ} : {V : Type ℓ} → List (Str × V) → List Str
keys [] = []
keys ((k, v) ∷ m) = k ∷ keys m

-- `collect::<BTreeSet<_>>()`.
pub collect : List Str → List Str
collect [] = []
collect (k ∷ ks) = insert k (collect ks)

pub merged_keys {ℓ} : {V : Type ℓ} → List (Str × V) → List (Str × V) → List Str
unfolding keys collect
merged_keys from to = collect (keys from ++ keys to)

module _ {R : Type 0} (view : RecordView R) (root_id : Str) (volatile_mode : Str → Option Str) where
  abbrev pub full_path : Str → Str
  full_path path = root_id ++ (codes "/" ++ path)

  -- `FileChange::from_records`; a change always has a record on one side.
  pub from_records : Str → Str → R → Option Str → FileChange
  from_records status rel_path shown time = record {
    status = status;
    path = full_path rel_path;
    large = view.is_large shown;
    volatile_mode = volatile_mode rel_path;
    order_time = time;
  }

  pub from_record : Str → Str → R → FileChange
  unfolding from_records
  from_record status rel_path r = from_records status rel_path r (view.order_time r)

  pub entry_change : Str → Option R → Option R → List FileChange
  entry_change path none none = []
  entry_change path none (some r) = from_record (codes "A") path r ∷ []
  entry_change path (some r) none = from_record (codes "D") path r ∷ []
  entry_change path (some a) (some b) =
      if view.equals a b then [] else from_records (codes "M") path a (view.order_time b) ∷ []

  pub entry_changes : List (Str × R) → List (Str × R) → List Str → List FileChange
  entry_changes from to [] = []
  entry_changes from to (path ∷ paths) =
      entry_change path (lookup path from) (lookup path to) ++ entry_changes from to paths

  pub append_entry_map_diff : List (Str × R) → List (Str × R) → List FileChange
  append_entry_map_diff from to = entry_changes from to (merged_keys from to)

  module _ (read_tree_node : Str → Option (TreeNodeManifest R)) where
    pub record_changes : Str → List (Str × R) → List FileChange
    record_changes status [] = []
    record_changes status ((path, r) ∷ entries) =
        from_record status (view.path r) r ∷ record_changes status entries

    pub each_child :
        (TreeNodeRef → Option (List FileChange))
        → List (Str × TreeNodeRef)
        → Option (List FileChange)
    each_child f [] = some []
    each_child f ((path, child) ∷ children) = do
      changes ← f child
      rest ← each_child f children
      some (changes ++ rest)

    pub append_node_records_with_status : ℕ → Str → TreeNodeRef → Option (List FileChange)
    append_node_records_with_status zero status node = none
    append_node_records_with_status (suc fuel) status node = do
      manifest ← read_tree_node node.node_key
      rest ← each_child (append_node_records_with_status fuel status) manifest.child_nodes
      some (record_changes status manifest.entries ++ rest)

    pub each_path :
        (Option TreeNodeRef → Option TreeNodeRef → Option (List FileChange))
        → List (Str × TreeNodeRef)
        → List (Str × TreeNodeRef)
        → List Str
        → Option (List FileChange)
    each_path f from to [] = some []
    each_path f from to (path ∷ paths) = do
      changes ← f (lookup path from) (lookup path to)
      rest ← each_path f from to paths
      some (changes ++ rest)

    -- Both nodes read, their entries compared, and then their children.
    pub compare_nodes :
        (Option TreeNodeRef → Option TreeNodeRef → Option (List FileChange))
        → TreeNodeRef
        → TreeNodeRef
        → Option (List FileChange)
    compare_nodes f a b = do
      from ← read_tree_node a.node_key
      to ← read_tree_node b.node_key
      rest ←
          each_path f from.child_nodes to.child_nodes (merged_keys from.child_nodes to.child_nodes)
      some (append_entry_map_diff from.entries to.entries ++ rest)

    pub append_node_diff : ℕ → Option TreeNodeRef → Option TreeNodeRef → Option (List FileChange)
    append_node_diff zero none none = some []
    append_node_diff zero none (some node) = none
    append_node_diff zero (some node) to = none
    append_node_diff (suc fuel) none none = some []
    append_node_diff (suc fuel) none (some node) =
        append_node_records_with_status (suc fuel) (codes "A") node
    append_node_diff (suc fuel) (some node) none =
        append_node_records_with_status (suc fuel) (codes "D") node
    append_node_diff (suc fuel) (some a) (some b) =
        let compared = compare_nodes (append_node_diff fuel) a b in
        if str_eq a.node_key b.node_key then some [] else compared
