-- ===== src/TreeDiff/Tests.antt =====
-- Two small trees with a subtree in common.
use majutsu.Base.{ℕ, ◌≡◌, refl, ◌==◌, true, arith, Option, none, some, List, [], ◌∷◌}
use majutsu.Base.Text.{Str, codes, str_eq}
use majutsu.Base.Maps.{lookup}
use majutsu.Base.Sets.{IsSorted}
use majutsu.TreeDiff.{
  FileChange, RecordView, TreeNodeRef, TreeNodeManifest, full_path, append_entry_map_diff,
  append_node_diff,
}
use majutsu.TreeDiff.Entries.{
  find_change, change_status, expected_status, paths_of, append_entry_map_diff_lem,
}
use majutsu.TreeDiff.Pruned.{whole_node_diff, IsReadable, append_node_diff-whole}

abbrev view : RecordView ℕ
view = record {
  path = λ r. codes "a";
  is_large = λ r. r == 9;
  order_time = λ r. none;
  equals = λ a b. a == b;
}

abbrev no_volatile : Str → Option Str
no_volatile path = none

abbrev old_entries : List (Str × ℕ)
old_entries = (codes "a", 1) ∷ ((codes "c", 2) ∷ [])

abbrev new_entries : List (Str × ℕ)
new_entries = (codes "a", 3) ∷ ((codes "b", 4) ∷ [])

abbrev node : Str → TreeNodeRef
node key = record { node_id = key; node_key = key; file_count = 1; total_size = 1 }

abbrev nodes : List (Str × TreeNodeManifest ℕ)
nodes =
    (
      codes "old",
      record { child_nodes = (codes "d", node (codes "leaf")) ∷ []; entries = old_entries },
    )
    ∷ ((
      codes "new",
      record { child_nodes = (codes "d", node (codes "leaf")) ∷ []; entries = new_entries },
    )
        ∷ ((codes "leaf", record { child_nodes = []; entries = (codes "d/x", 9) ∷ [] }) ∷ []))

abbrev read_tree_node : Str → Option (TreeNodeManifest ℕ)
read_tree_node key = lookup key nodes

equal_to_itself : (r : ℕ) → (r == r) ≡ true
equal_to_itself r = ground arith

append_entry_map_diff_lem_example :
    ((p : Str)
      → change_status (
          find_change
            (full_path view (codes "r") no_volatile p)
            (append_entry_map_diff view (codes "r") no_volatile old_entries new_entries))
        ≡ expected_status view
            (codes "r")
            no_volatile
            (lookup p old_entries)
            (lookup p new_entries))
    × IsSorted
        (paths_of (append_entry_map_diff view (codes "r") no_volatile old_entries new_entries))
append_entry_map_diff_lem_example =
    append_entry_map_diff_lem view (codes "r") no_volatile old_entries new_entries

old_IsReadable : IsReadable view (codes "r") no_volatile read_tree_node 2 (node (codes "old"))
unfolding lookup str_eq
old_IsReadable = (_, refl, ((_, refl, tt), tt))

new_IsReadable : IsReadable view (codes "r") no_volatile read_tree_node 2 (node (codes "new"))
unfolding lookup str_eq
new_IsReadable = (_, refl, ((_, refl, tt), tt))

append_node_diff-whole_example :
    (changes : List FileChange) × (append_node_diff view
        (codes "r")
        no_volatile
        read_tree_node
        2
        (some (node (codes "old")))
        (some (node (codes "new")))
      ≡ some changes)
    × (whole_node_diff view
          (codes "r")
          no_volatile
          read_tree_node
          2
          (some (node (codes "old")))
          (some (node (codes "new")))
        ≡ some changes)
append_node_diff-whole_example =
    append_node_diff-whole view (codes "r") no_volatile read_tree_node equal_to_itself 2
      (some (node (codes "old"))) (some (node (codes "new"))) old_IsReadable new_IsReadable
