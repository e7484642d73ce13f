-- ===== src/Cluster/Dependencies.antt =====
-- Which items of the backend queue wait for others: `BackendQueueDependencies`, `backend_publish_priority`
-- and the selection of a round of `drain_backend_queue`, of src/cluster_runtime.rs.
pub mod Waiting
mod Tests
use majutsu.Base.{
  ℕ, ◌-◌, ◌≤◌, ◌≡◌, ◌⊎◌, refl, sym, ap, ◌∙◌, ◌==◌, Bool, true, false, not, ◌&&◌, ◌||◌, Option, none,
  some, List, [], ◌∷◌, if◌then◌else◌, ltb, leb, any, filter, take, All, arith, inl, inr, Bool-cases,
}
use majutsu.Base.Text.{Str, codes, str_eq, str_eq_iff, starts_with, ends_with, has_infix}
use majutsu.Base.Sets.{mem}
use majutsu.Cluster.{BackendQueueOperation, put, delete, BackendQueueItem}

pub is_ref : Str → Bool
unfolding starts_with ends_with has_infix
is_ref key =
    starts_with (codes "refs/") key
    || has_infix (codes "/refs/") key
    || ends_with (codes "/current") key
    || ends_with (codes "/head.cbor.zst.enc") key

pub is_metadata : Str → Bool
unfolding starts_with ends_with has_infix str_eq
is_metadata key =
    has_infix (codes "/journal/") key
    || starts_with (codes "journal/") key
    || starts_with (codes "metadata/") key
    || ends_with (codes "/metadata/export.json.zst") key
    || ends_with (codes "/metadata/export.json") key
    || str_eq key (codes "metadata/export.json")

pub backend_publish_priority : Str → ℕ
backend_publish_priority key = if is_ref key then 3 else if is_metadata key then 2 else 1

-- The earliest `updated_at` of the puts of a host, for each priority: an array of four.
pub record Earliest : Type 0 where
  pub slot0 : Option ℕ
  pub slot1 : Option ℕ
  pub slot2 : Option ℕ
  pub slot3 : Option ℕ

abbrev pub no_put : Earliest
no_put = record { slot0 = none; slot1 = none; slot2 = none; slot3 = none }

pub earlier : ℕ → Option ℕ → Option ℕ
earlier t none = some t
earlier t (some u) = if ltb t u then some t else some u

pub note : ℕ → ℕ → Earliest → Earliest
unfolding earlier
note priority t e =
    if priority == 0
    then record e { slot0 = earlier t e.slot0 }
    else if priority == 1
    then record e { slot1 = earlier t e.slot1 }
    else if priority == 2
    then record e { slot2 = earlier t e.slot2 }
    else record e { slot3 = earlier t e.slot3 }

-- The entry of a host, made where there is none.
pub note_host : Str → ℕ → ℕ → List (Str × Earliest) → List (Str × Earliest)
unfolding note
note_host host priority t [] = (host, note priority t no_put) ∷ []
note_host host priority t ((h, e) ∷ m) =
    if str_eq h host then (h, note priority t e) ∷ m else (h, e) ∷ note_host host priority t m

pub find_host : Str → List (Str × Earliest) → Option Earliest
find_host host [] = none
find_host host ((h, e) ∷ m) = if str_eq h host then some e else find_host host m

pub is_put : BackendQueueOperation → Bool
is_put (put digest size conditional) = true
is_put delete = false

pub note_item : BackendQueueItem → List (Str × Earliest) → List (Str × Earliest)
unfolding is_put note_host
note_item item m =
    if is_put item.operation
    then note_host item.source_host (backend_publish_priority item.key) item.updated_at m
    else m

-- The items are noted in their order.
pub note_items : List BackendQueueItem → List (Str × Earliest) → List (Str × Earliest)
unfolding note_item
note_items [] m = m
note_items (item ∷ items) m = note_items items (note_item item m)

unfoldable pub from_items : List BackendQueueItem → List (Str × Earliest)
unfolding note_items
from_items items = note_items items []

pub due : ℕ → Option ℕ → Bool
due t none = false
due t (some u) = leb u t

-- Whether one of the slots before the priority is due.
pub due_below : ℕ → ℕ → Earliest → Bool
unfolding due
due_below priority t e =
    (ltb 0 priority && due t e.slot0)
    || ((ltb 1 priority && due t e.slot1)
        || ((ltb 2 priority && due t e.slot2) || (ltb 3 priority && due t e.slot3)))

pub blocks_by : BackendQueueItem → Option Earliest → Bool
unfolding due_below is_put
blocks_by item none = false
blocks_by item (some e) =
    if is_put item.operation
    then due_below (backend_publish_priority item.key) item.updated_at e
    else true

unfoldable pub blocks : List (Str × Earliest) → BackendQueueItem → Bool
unfolding blocks_by find_host
blocks dependencies item = blocks_by item (find_host item.source_host dependencies)

-- One item that another waits for: a put of its host, and for a put one of a lower priority that was queued
-- or replaced no later.
pub holds_back : BackendQueueItem → BackendQueueItem → Bool
unfolding is_put
holds_back item other =
    is_put other.operation
    && (str_eq other.source_host item.source_host
        && (not (is_put item.operation)
            || (ltb (backend_publish_priority other.key) (backend_publish_priority item.key)
                && leb other.updated_at item.updated_at)))

-- The hosts with a put in the queue.
pub put_hosts : List BackendQueueItem → List Str
unfolding is_put
put_hosts [] = []
put_hosts (item ∷ items) =
    if is_put item.operation then item.source_host ∷ put_hosts items else put_hosts items

pub is_retry_due : ℕ → Option ℕ → Bool
is_retry_due now none = true
is_retry_due now (some t) = leb t now

-- The items of a round of `drain_backend_queue`: `hosts` are those with a put when the drain began.
pub select_round : Bool → ℕ → ℕ → List Str → List BackendQueueItem → List BackendQueueItem
unfolding is_put
select_round force now count hosts queued = take count (
    filter (λ item. force || is_retry_due now item.retry_after)
      (filter (λ item. is_put item.operation || not (mem item.source_host hosts))
        (filter (λ item. not (blocks (from_items queued) item)) queued)))
