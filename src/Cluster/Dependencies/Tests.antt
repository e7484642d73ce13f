-- ===== src/Cluster/Dependencies/Tests.antt =====
-- The queue's order at a concrete queue.
use majutsu.Base.{ℕ, ◌≡◌, refl, true, false, none, List, [], ◌∷◌, any, All}
use majutsu.Base.Text.{Str, codes, str_eq, starts_with, ends_with, has_infix}
use majutsu.Cluster.{BackendQueueItem, BackendQueueOperation, put}
use majutsu.Cluster.Dependencies.{
  from_items, blocks, holds_back, put_hosts, select_round, is_put, backend_publish_priority, is_ref,
  is_metadata,
}
use majutsu.Cluster.Dependencies.Waiting.{blocks-from_items, IsReady, select_round-IsReady}

abbrev item_of : Str → Str → BackendQueueOperation → ℕ → BackendQueueItem
item_of host key operation at = record {
  generation = at;
  key = key;
  source_host = host;
  operation = operation;
  created_at = at;
  updated_at = at;
  attempts = 0;
  retry_after = none;
}

abbrev blob : BackendQueueItem
blob = item_of (codes "a") (codes "a/b/x") (put [] 0 true) 1

abbrev ref : BackendQueueItem
ref = item_of (codes "a") (codes "a/refs/m") (put [] 0 false) 2

abbrev other : BackendQueueItem
other = item_of (codes "c") (codes "c/current") (put [] 0 false) 2

abbrev queue : List BackendQueueItem
queue = blob ∷ ref ∷ other ∷ []

blocks-from_items_example : blocks (from_items queue) ref ≡ any (holds_back ref) queue
blocks-from_items_example = blocks-from_items queue ref

-- The ref waits for the blob of its host, and the ref of another host does not.
waits : any (holds_back ref) queue ≡ true
unfolding holds_back is_put backend_publish_priority is_ref is_metadata str_eq starts_with ends_with
    has_infix
waits = refl

waits_not : any (holds_back other) queue ≡ false
unfolding holds_back is_put backend_publish_priority is_ref is_metadata str_eq starts_with ends_with
    has_infix
waits_not = refl

select_round-IsReady_example :
    All (IsReady false 5 (put_hosts queue) queue) (select_round false 5 10 (put_hosts queue) queue)
select_round-IsReady_example = select_round-IsReady false 5 10 (put_hosts queue) queue
