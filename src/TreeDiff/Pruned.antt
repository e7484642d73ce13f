-- ===== src/TreeDiff/Pruned.antt =====
-- Subtrees with one key are skipped, and nothing is missed by that.
use majutsu.Base.{
  ℕ, zero, suc, ◌≡◌, refl, sym, ap, ◌∙◌, true, inl, inr, Option, none, some, List, [], ◌∷◌, ◌++◌,
  All, Bool-cases, Option-cases, is_some,
}
use majutsu.Base.Text.{Str, codes, str_eq, str_eq_iff}
use majutsu.Base.Maps.{lookup}
use majutsu.TreeDiff.{
  FileChange, RecordView, TreeNodeRef, TreeNodeManifest, merged_keys, entry_change, entry_changes,
  append_entry_map_diff, record_changes, each_child, append_node_records_with_status, each_path,
  compare_nodes, append_node_diff,
}

module _ {R : Type 0} (view : RecordView R) (root_id : Str) (volatile_mode : Str → Option Str)
    (read_tree_node : Str → Option (TreeNodeManifest R)) where
  -- The same comparison that looks into every subtree.
  pub whole_node_diff : ℕ → Option TreeNodeRef → Option TreeNodeRef → Option (List FileChange)
  whole_node_diff zero none none = some []
  whole_node_diff zero none (some node) = none
  whole_node_diff zero (some node) to = none
  whole_node_diff (suc fuel) none none = some []
  whole_node_diff (suc fuel) none (some node) =
      append_node_records_with_status view root_id volatile_mode read_tree_node (suc fuel)
        (codes "A") node
  whole_node_diff (suc fuel) (some node) none =
      append_node_records_with_status view root_id volatile_mode read_tree_node (suc fuel)
        (codes "D") node
  whole_node_diff (suc fuel) (some a) (some b) =
      compare_nodes view root_id volatile_mode read_tree_node (whole_node_diff fuel) a b

  -- A tree of which every node can be read, with at most so many levels.
  abbrev pub IsReadable : ℕ → TreeNodeRef → Type 0
  IsReadable zero node = ⊥
  IsReadable (suc depth) node =
      (m : TreeNodeManifest R) × (read_tree_node node.node_key ≡ some m)
      × All (λ c. IsReadable depth c.1) m.child_nodes

  abbrev IsReadableOr : ℕ → Option TreeNodeRef → Type 0
  IsReadableOr depth none = Unit
  IsReadableOr depth (some node) = IsReadable depth node

  lookup-IsReadableOr :
      (depth : ℕ) (p : Str) (m : List (Str × TreeNodeRef))
      → All (λ c. IsReadable depth c.1) m
      → IsReadableOr depth (lookup p m)
  unfolding lookup
  lookup-IsReadableOr depth p [] h = tt
  lookup-IsReadableOr depth p ((k, c) ∷ m) h = elim (Bool-cases (str_eq k p)) [
    | inl e ↦ rw (e, lookup) h.0
    | inr e ↦ rw (e, lookup) (lookup-IsReadableOr depth p m h.1)
  ]

  each_child_returns :
      (depth : ℕ) (f : TreeNodeRef → Option (List FileChange))
      → ((c : TreeNodeRef)
          → IsReadable depth c
          → (changes : List FileChange) × (f c ≡ some changes))
      → (cs : List (Str × TreeNodeRef)) → All (λ c. IsReadable depth c.1) cs
      → (changes : List FileChange) × (each_child view root_id volatile_mode read_tree_node f cs
          ≡ some changes)
  unfolding each_child
  each_child_returns depth f h [] r = ([], refl)
  each_child_returns depth f h ((p, c) ∷ cs) r =
      let (one, e) = h c r.0 in
      let (rest, e') = each_child_returns depth f h cs r.1 in (one ++ rest, rw (e, e'))

  append_node_records_returns :
      (depth : ℕ) (status : Str) (node : TreeNodeRef)
      → IsReadable depth node
      → (changes : List FileChange) × (append_node_records_with_status view root_id volatile_mode
            read_tree_node depth status node
          ≡ some changes)
  unfolding append_node_records_with_status
  append_node_records_returns zero status node h = absurd h
  append_node_records_returns (suc depth) status node (m, e, children) =
      let f =
        append_node_records_with_status view root_id volatile_mode read_tree_node depth status in
      let (rest, e') =
        each_child_returns depth f (append_node_records_returns depth status) m.child_nodes
          children in
      (
        record_changes view root_id volatile_mode read_tree_node status m.entries ++ rest,
        rw (e, e'),
      )

  -- Two comparisons of children that agree, and return, on what can be read.
  each_path-agree :
      (depth : ℕ) (f g : Option TreeNodeRef → Option TreeNodeRef → Option (List FileChange))
      → ((a b : Option TreeNodeRef)
          → IsReadableOr depth a
          → IsReadableOr depth b
          → (changes : List FileChange) × (f a b ≡ some changes) × (g a b ≡ some changes))
      → (from to : List (Str × TreeNodeRef)) → All (λ c. IsReadable depth c.1) from
      → All (λ c. IsReadable depth c.1) to
      → (ps : List Str)
      → (changes : List FileChange) × (each_path view root_id volatile_mode read_tree_node f from to
            ps
          ≡ some changes)
        × (each_path view root_id volatile_mode read_tree_node g from to ps ≡ some changes)
  unfolding each_path
  each_path-agree depth f g h from to rf rt [] = ([], refl, refl)
  each_path-agree depth f g h from to rf rt (p ∷ ps) =
      let (one, e, e') =
        h (lookup p from) (lookup p to) (lookup-IsReadableOr depth p from rf)
          (lookup-IsReadableOr depth p to rt) in
      let (rest, d, d') = each_path-agree depth f g h from to rf rt ps in
      (one ++ rest, rw (e, d), rw (e', d'))

  module _ (reflexive : (r : R) → view.equals r r ≡ true) where
    entry_changes_self :
        (m : List (Str × R)) (ps : List Str) → entry_changes view root_id volatile_mode m m ps ≡ []
    unfolding entry_changes entry_change
    entry_changes_self m [] = refl
    entry_changes_self m (p ∷ ps) = elim (Option-cases (lookup p m)) [
      | inl e ↦ rw (e, entry_change) (entry_changes_self m ps)
      | inr (r, e) ↦ let same = reflexive r in rw (e, entry_change, same) (entry_changes_self m ps)
    ]

    each_path_self :
        (depth : ℕ) (f : Option TreeNodeRef → Option TreeNodeRef → Option (List FileChange))
        → ((a : Option TreeNodeRef) → IsReadableOr depth a → f a a ≡ some [])
        → (m : List (Str × TreeNodeRef)) → All (λ c. IsReadable depth c.1) m
        → (ps : List Str) → each_path view root_id volatile_mode read_tree_node f m m ps ≡ some []
    unfolding each_path
    each_path_self depth f h m r [] = refl
    each_path_self depth f h m r (p ∷ ps) =
        let one = h (lookup p m) (lookup-IsReadableOr depth p m r) in
        let rest = each_path_self depth f h m r ps in rw (one, rest)

    -- Nodes with one key do not differ.
    whole_node_diff_self :
        (depth : ℕ) (a b : Option TreeNodeRef)
        → IsReadableOr depth a
        → ((x y : TreeNodeRef) → a ≡ some x → b ≡ some y → x.node_key ≡ y.node_key)
        → (is_some a ≡ is_some b)
        → whole_node_diff depth a b ≡ some []
    unfolding whole_node_diff compare_nodes append_entry_map_diff
    whole_node_diff_self zero none none r k s = refl
    whole_node_diff_self (suc depth) none none r k s = refl
    whole_node_diff_self depth none (some y) r k s = absurd (cc s)
    whole_node_diff_self depth (some x) none r k s = absurd (cc s)
    whole_node_diff_self zero (some x) (some y) r k s = absurd r
    whole_node_diff_self (suc depth) (some x) (some y) (m, e, children) k s =
        let same = k x y refl refl in
        let e' : read_tree_node y.node_key ≡ some m = ap read_tree_node (sym same) ∙ e in
        let inner =
          each_path_self depth (whole_node_diff depth)
            (λ a r.
              whole_node_diff_self depth a a r
                (λ x y p q. (let xy : some x ≡ some y = sym p ∙ q in cc xy)) refl)
            m.child_nodes children (merged_keys m.child_nodes m.child_nodes) in
        let outer = entry_changes_self m.entries (merged_keys m.entries m.entries) in
        rw (e, e', inner, outer)

    -- Skipping subtrees of one key misses no change: on two trees of which every node can be read, with
    -- fuel for their levels, the comparison returns, and what it returns is what the comparison returns
    -- that looks into every subtree. Condition: a record equals itself.
    pub append_node_diff-whole :
        (depth : ℕ) (a b : Option TreeNodeRef)
        → IsReadableOr depth a
        → IsReadableOr depth b
        → (changes : List FileChange) × (append_node_diff view root_id volatile_mode read_tree_node
              depth a b
            ≡ some changes)
          × (whole_node_diff depth a b ≡ some changes)
    unfolding append_node_diff whole_node_diff compare_nodes
    append_node_diff-whole zero none none ra rb = ([], refl, refl)
    append_node_diff-whole zero none (some y) ra rb = absurd rb
    append_node_diff-whole zero (some x) b ra rb = absurd ra
    append_node_diff-whole (suc depth) none none ra rb = ([], refl, refl)
    append_node_diff-whole (suc depth) none (some y) ra rb =
        let (changes, e) = append_node_records_returns (suc depth) (codes "A") y rb in
        (changes, e, e)
    append_node_diff-whole (suc depth) (some x) none ra rb =
        let (changes, e) = append_node_records_returns (suc depth) (codes "D") x ra in
        (changes, e, e)
    append_node_diff-whole (suc depth) (some x) (some y) ra rb =
        elim (Bool-cases (str_eq x.node_key y.node_key)) [
          | inl same ↦
              let key = (str_eq_iff x.node_key y.node_key).0 same in
              (
                [],
                rw (same, append_node_diff),
                whole_node_diff_self (suc depth) (some x) (some y) ra (λ u v p q. cc (key, p, q))
                    refl,
              )
          | inr other ↦
              let (m, e, cs) = ra in
              let (n, e', ds) = rb in
              let (rest, d, d') =
                each_path-agree depth
                  (append_node_diff view root_id volatile_mode read_tree_node depth)
                  (whole_node_diff depth) (append_node_diff-whole depth) m.child_nodes n.child_nodes
                  cs ds (merged_keys m.child_nodes n.child_nodes) in
              (
                append_entry_map_diff view root_id volatile_mode m.entries n.entries ++ rest,
                rw (other, append_node_diff, compare_nodes, e, e', d),
                rw (e, e', d'),
              )
        ]
