-- ===== src/Cluster/Puts.antt =====
-- `process_puts` for one item, `recover_master_write_intent_for_key`, `durable_delete` and what they call,
-- of src/cluster_runtime.rs. The hash of contents is a parameter.
use majutsu.Base.{
  ℕ, ◌+◌, ◌-◌, ◌==◌, Bool, true, false, not, ◌&&◌, ◌||◌, Option, none, some, if◌then◌else◌, leb,
  ltb, is_some, length,
}
use majutsu.Base.Text.{Str, str_eq}
use majutsu.Cluster.{
  Bytes, ClusterPutItem, MasterWriteIntent, BackendQueueOperation, put, delete, BackendQueueItem,
  Files, quota_exceeded, digest_collision, invalid_intent, intent_conflict, ok, err, Action, pure,
  fail, reading, ◌>>=◌, ◌>>◌, when, write, next_generation, operation_eq, len,
}

pub record ClusterPutResult : Type 0 where
  pub master_durable : Bool
  pub newly_stored : Bool
  pub stored_bytes : ℕ

-- Whether the store would grow beyond its limit.
unfoldable pub over_quota : Option ℕ → ℕ → ℕ → ℕ → Bool
over_quota none current old_len new_len = false
over_quota (some limit) current old_len new_len = ltb limit (current - old_len + new_len)

unfoldable pub enforce_store_quota : ℕ → ℕ → Action (Unit {0})
unfolding over_quota
enforce_store_quota old_len new_len c =
    if leb new_len old_len
    then (ok tt, c)
    else if over_quota c.store_max_bytes c.store_bytes old_len new_len
    then (err quota_exceeded, c)
    else (ok tt, c)

unfoldable pub update_store_bytes : ℕ → ℕ → Action (Unit {0})
update_store_bytes old_len new_len c =
    (ok tt, record c { store_bytes = c.store_bytes - old_len + new_len })

-- The item that `write_backend_queue_item` writes, over the one that it replaces.
unfoldable pub new_item :
    Str → Str → BackendQueueOperation → ℕ → ℕ → Option BackendQueueItem → BackendQueueItem
new_item key source_host operation now generation existing = record {
  generation = generation;
  key = key;
  source_host = source_host;
  operation = operation;
  created_at = elim existing [ none ↦ now | some q ↦ q.created_at ];
  updated_at = now;
  attempts = 0;
  retry_after = none;
}

unfoldable pub holds_operation : BackendQueueOperation → Option BackendQueueItem → Bool
holds_operation operation none = false
holds_operation operation (some q) = operation_eq q.operation operation

pub data BackendEnqueueOutcome : Type 0 where
  created reused replaced : BackendEnqueueOutcome

unfoldable pub write_backend_queue_item :
    Str → Str → BackendQueueOperation → ℕ → Action BackendEnqueueOutcome
unfolding new_item holds_operation
write_backend_queue_item key source_host operation now = reading λ f.
    if holds_operation operation f.queued then pure reused else (do
      generation ← next_generation
      write (λ g. record g {
        queued = some (new_item key source_host operation now generation f.queued);
      })
      pure (if is_some f.queued then replaced else created))

-- `cancel_local_gc`, without the catalog in memory.
unfoldable pub cancel_local_gc : Action (Unit {0})
cancel_local_gc = reading λ f. when (is_some f.retained) (write (λ g. record g { retained = none }))

unfoldable pub remove_intent : Action (Unit {0})
remove_intent = write (λ g. record g { intent = none })

unfoldable pub put_store : Bytes → Action (Unit {0})
put_store bytes = write (λ g. record g { stored = some bytes })

-- The checks of an intent that is read back.
unfoldable pub is_valid_intent : Str → MasterWriteIntent → Bool
is_valid_intent key i = i.version == 1 && str_eq i.item.key key

unfoldable pub receipt_matches : Str → Option Str → Bool
receipt_matches digest none = false
receipt_matches digest (some d) = str_eq d digest

module _ (hash : Bytes → Str) where
  unfoldable pub has_digest : Str → Option Bytes → Bool
  has_digest digest none = false
  has_digest digest (some x) = str_eq (hash x) digest

  unfoldable pub enqueue_backend_put : Str → ClusterPutItem → Str → ℕ → Action BackendEnqueueOutcome
  enqueue_backend_put source_host item digest now =
      write_backend_queue_item item.key source_host
        (put digest (length item.bytes) item.conditional) now

  -- The store takes the bytes of an intent that it does not hold yet.
  unfoldable pub restore_intent : ClusterPutItem → Str → Action (Unit {0})
  restore_intent item digest = reading λ f. when (not (has_digest digest f.stored)) (
      if item.conditional && is_some f.stored then fail intent_conflict else (do
        enforce_store_quota (len f.stored) (length item.bytes)
        put_store item.bytes
        update_store_bytes (len f.stored) (length item.bytes)))

  unfoldable pub replay_intent : Str → ℕ → MasterWriteIntent → Action (Unit {0})
  unfolding restore_intent
  replay_intent key now i =
      if is_valid_intent key i
      then (do
        restore_intent i.item (hash i.item.bytes)
        outcome ← enqueue_backend_put i.source_host i.item (hash i.item.bytes) now
        cancel_local_gc
        remove_intent)
      else fail invalid_intent

  unfoldable pub recover_master_write_intent_for_key : Str → ℕ → Action (Unit {0})
  unfolding replay_intent
  recover_master_write_intent_for_key key now =
      reading λ f. elim f.intent [ none ↦ pure tt | some i ↦ replay_intent key now i ]

  -- `store.put_if_absent` or `store.put`, by the kind of the put: whether the store took the bytes.
  unfoldable pub store_item : ClusterPutItem → Str → Option Bytes → Action Bool
  store_item item digest existing =
      if item.conditional
      then (elim existing [
        | some x ↦ if str_eq (hash x) digest then pure false else fail digest_collision
        | none ↦ (do enforce_store_quota 0 (length item.bytes); put_store item.bytes; pure true)
      ])
      else (do
        enforce_store_quota (len existing) (length item.bytes)
        when (not (has_digest digest existing)) (put_store item.bytes)
        pure (not (has_digest digest existing)))

  -- The intent, where the put has to reach the backend.
  unfoldable pub write_intent : Str → ClusterPutItem → ℕ → Action (Unit {0})
  write_intent source_host item existing_len = do
    enforce_store_quota existing_len (length item.bytes)
    write (λ g. record g {
      intent = some (record { version = 1; source_host = source_host; item = item });
    })

  -- Whether the put has to reach the backend.
  unfoldable pub is_backup_needed : Str → Files → Bool
  unfolding receipt_matches has_digest
  is_backup_needed digest f =
      not (has_digest digest f.stored)
      || is_some f.retained
      || is_some f.queued
      || not (receipt_matches digest f.receipt)

  unfoldable pub enqueue_and_forget : Str → ClusterPutItem → ℕ → Action (Unit {0})
  unfolding enqueue_backend_put
  enqueue_and_forget source_host item now = do
    outcome ← enqueue_backend_put source_host item (hash item.bytes) now
    remove_intent

  -- The writes after that of the intent, by the files as they are before it.
  unfoldable pub after_intent : Bool → Str → ClusterPutItem → ℕ → Files → Action ClusterPutResult
  unfolding store_item enqueue_and_forget
  after_intent needs_backup source_host item now f = do
    newly_stored ← store_item item (hash item.bytes) f.stored
    when newly_stored (update_store_bytes (len f.stored) (length item.bytes))
    when (is_some f.retained) cancel_local_gc
    when needs_backup (enqueue_and_forget source_host item now)
    pure (record {
      master_durable = true;
      newly_stored = newly_stored;
      stored_bytes = if newly_stored then length item.bytes else 0;
    })

  unfoldable pub put_steps : Bool → Str → ClusterPutItem → ℕ → Files → Action ClusterPutResult
  unfolding write_intent after_intent
  put_steps needs_backup source_host item now f = do
    when needs_backup (write_intent source_host item (len f.stored))
    after_intent needs_backup source_host item now f

  -- What follows the recovery of an earlier intent.
  unfoldable pub store_and_enqueue : Str → ClusterPutItem → ℕ → Action ClusterPutResult
  unfolding put_steps is_backup_needed
  store_and_enqueue source_host item now = reading λ f.
      if item.conditional && not (has_digest (hash item.bytes) f.stored) && is_some f.stored
      then fail digest_collision
      else put_steps (is_backup_needed (hash item.bytes) f) source_host item now f

  unfoldable pub process_put : Str → ClusterPutItem → ℕ → Action ClusterPutResult
  unfolding recover_master_write_intent_for_key store_and_enqueue
  process_put source_host item now = do
    recover_master_write_intent_for_key item.key now
    store_and_enqueue source_host item now

  unfoldable pub durable_delete : Str → Str → ℕ → Action (Unit {0})
  unfolding recover_master_write_intent_for_key
  durable_delete source_host key now = do
    recover_master_write_intent_for_key key now
    outcome ← write_backend_queue_item key source_host delete now
    pure tt
