-- ===== src/Cluster/Present.antt =====
-- A key whose bytes are in the store keeps them there while no put and no deletion of it comes.
use majutsu.Base.{
  ℕ, ◌≡◌, ◌==◌, refl, Bool, true, false, not, ◌||◌, Option, none, some, is_some, if◌then◌else◌, ◌+◌,
  arith,
}
use majutsu.Base.Text.{Str, str_eq}
use majutsu.Cluster.{
  Bytes, BackendQueueOperation, put, delete, BackendQueueItem, LocalGcItem, Upload, Files, Cell,
  Result, Action, pure, fail, object_missing, digest_changed, ◌>>=◌, ◌>>◌, next_generation,
  key_is_logically_deleted, is_deletion,
}
use majutsu.Cluster.Puts.{recover_master_write_intent_for_key}
use majutsu.Cluster.Backend.{
  is_current, holding, remove_queue_file, publish, record_backend_put_receipt,
  complete_backend_queue_item_without_upload, read_payload, begin_upload, retain_stored,
  retain_local_after_backend_delete, retain_deleted, complete_uploaded_backend_queue_item,
  collect_current, collect_local_gc, retry_queued, record_backend_queue_failure, hydrate_store,
}
use majutsu.Cluster.Rules.{Ends, bind_rule, write_rule, last_rule, if_rule}
use majutsu.Cluster.Fine.{contents}
use majutsu.Cluster.Replay.{At}
use majutsu.Cluster.Life.{
  Quiet, disk, restarted, other_keys, recovered, begun, published, completed, failed, skipped,
  collected, hydrated, IsTimely, state_of, Quiet-At, Quietly, here, next, AreTimely, idle,
}

abbrev pub IsPresent : Cell → Type 0
IsPresent c = (is_some c.files.stored ≡ true) × (c.files.intent ≡ none)

-- What an operation leaves that keeps the store of the key.
abbrev Keeps : {A : Type 0} → Result A × Cell → Type 0
Keeps {A} r = Ends IsPresent (λ (_ : A) d. IsPresent d) r

receipt-Keeps :
    (o : BackendQueueOperation) (c : Cell) → IsPresent c → Keeps (record_backend_put_receipt o c)
unfolding record_backend_put_receipt
receipt-Keeps (put digest size conditional) c h =
    last_rule IsPresent (λ _ d. IsPresent d) _ c h (λ w. h)
receipt-Keeps delete c h = last_rule IsPresent (λ _ d. IsPresent d) _ c h (λ w. h)

finish-Keeps :
    (o : BackendQueueOperation) (c : Cell)
    → IsPresent c
    → Keeps ((record_backend_put_receipt o >>= (λ _. remove_queue_file >> pure true)) c)
unfolding remove_queue_file
finish-Keeps o c h =
    bind_rule IsPresent (λ (_ : Bool) d. IsPresent d) (λ (_ : Unit {0}) d. IsPresent d)
      (record_backend_put_receipt o) (λ _. remove_queue_file >> pure true) c (receipt-Keeps o c h)
      (λ _ d h'.
        write_rule IsPresent (λ (_ : Bool) d. IsPresent d) _ (λ _. pure true) d h' (λ w. h'))

skip-Keeps :
    (item : BackendQueueItem) (c : Cell)
    → IsPresent c
    → Keeps (complete_backend_queue_item_without_upload item c)
unfolding complete_backend_queue_item_without_upload
skip-Keeps item c h =
    if_rule IsPresent (λ (_ : Bool) d. IsPresent d) (is_current item.generation c.files.queued) _ _
      c (λ _. finish-Keeps item.operation c h) (λ _. h)

module _ (hash : Bytes → Str) where
  retain_stored-Keeps :
      (item : BackendQueueItem) (now grace : ℕ) (o : Option Bytes) (c : Cell)
      → IsPresent c
      → Keeps (retain_stored hash item now grace o c)
  unfolding retain_stored next_generation ◌>>=◌
  retain_stored-Keeps item now grace none c h =
      last_rule IsPresent (λ _ d. IsPresent d) _ c h (λ w. h)
  retain_stored-Keeps item now grace (some x) c h =
      last_rule IsPresent (λ _ d. IsPresent d) _ (record c { serial = c.serial + 1 }) h (λ w. h)

  retain_deleted-Keeps :
      (item : BackendQueueItem) (now grace : ℕ) (o : BackendQueueOperation) (c : Cell)
      → IsPresent c
      → Keeps (retain_deleted hash item now grace o c)
  unfolding retain_deleted retain_local_after_backend_delete
  retain_deleted-Keeps item now grace (put digest size conditional) c h = h
  retain_deleted-Keeps item now grace delete c h =
      retain_stored-Keeps item now grace c.files.stored c h

  complete-Keeps :
      (item : BackendQueueItem) (now grace : ℕ) (c : Cell)
      → IsPresent c
      → Keeps (complete_uploaded_backend_queue_item hash item now grace c)
  unfolding complete_uploaded_backend_queue_item
  complete-Keeps item now grace c h =
      if_rule IsPresent (λ (_ : Bool) d. IsPresent d) (is_current item.generation c.files.queued) _
        _ c
        (λ _.
          bind_rule IsPresent (λ (_ : Bool) d. IsPresent d) (λ (_ : Unit {0}) d. IsPresent d)
            (retain_deleted hash item now grace item.operation) _ c
            (retain_deleted-Keeps item now grace item.operation c h)
            (λ _ d h'. finish-Keeps item.operation d h'))
        (λ _. h)

  stored_payload-Keeps :
      (digest : Str) (o : Option Bytes) (c : Cell)
      → IsPresent c
      → Keeps {A = Option Bytes} (
          let m : Action (Option Bytes) = elim o [
            | none ↦ fail object_missing
            | some x ↦ if str_eq (hash x) digest then pure (some x) else fail digest_changed
          ] in
          m c)
  stored_payload-Keeps digest none c h = h
  stored_payload-Keeps digest (some x) c h =
      if_rule IsPresent (λ (_ : Option Bytes) d. IsPresent d) (str_eq (hash x) digest) _ _ c
        (λ _. h) (λ _. h)

  read_payload-Keeps :
      (o : BackendQueueOperation) (c : Cell) → IsPresent c → Keeps (read_payload hash o c)
  unfolding read_payload
  read_payload-Keeps delete c h = h
  read_payload-Keeps (put digest size conditional) c h =
      stored_payload-Keeps digest c.files.stored c h

  begin_upload-Keeps :
      (blocked : Bool) (item : BackendQueueItem) (c : Cell)
      → IsPresent c
      → Keeps (begin_upload hash blocked item c)
  unfolding begin_upload holding ◌>>=◌
  begin_upload-Keeps blocked item c h =
      if_rule IsPresent (λ (_ : Bool) d. IsPresent d)
        (not (is_current item.generation c.files.queued) || blocked) _ _ c (λ _. h)
        (λ _.
          bind_rule IsPresent (λ (_ : Bool) d. IsPresent d) (λ (_ : Option Bytes) d. IsPresent d)
            (read_payload hash item.operation)
            (λ payload.
              holding (some (record { item = item; payload = payload; done = false })) >> pure true)
            c (read_payload-Keeps item.operation c h) (λ payload d h'. h'))

  publish-Keeps :
      (u : Option Upload) (c : Cell)
      → c.files.upload ≡ u
      → IsPresent c
      → IsPresent (record c { files = publish c.files })
  unfolding publish
  publish-Keeps none c e h = rw (e, publish) h
  publish-Keeps (some u) c e h = rw (e, publish) h

  retry-Keeps :
      (item : BackendQueueItem) (at : ℕ) (o : Option BackendQueueItem) (c : Cell)
      → IsPresent c
      → Keeps (retry_queued item at o c)
  unfolding retry_queued
  retry-Keeps item at none c h = h
  retry-Keeps item at (some q) c h =
      if_rule IsPresent (λ (_ : Unit {0}) d. IsPresent d) (q.generation == item.generation) _ _ c
        (λ _. last_rule IsPresent (λ _ d. IsPresent d) _ c h (λ w. h)) (λ _. h)

  -- A key that stands for bytes, with no intent pending, has no tombstone.
  no_tomb : (f : Files) (x : Bytes) → contents f ≡ some x → f.intent ≡ none → f.retained ≡ none
  unfolding contents key_is_logically_deleted is_deletion
  no_tomb f x h e = ground (arith, h, e)

  collect-Keeps :
      (item : LocalGcItem) (now : ℕ) (o : Option LocalGcItem) (c : Cell)
      → o ≡ none
      → IsPresent c
      → Keeps (collect_current hash item now o c.files.queued c)
  unfolding collect_current
  collect-Keeps item now none c e h = h
  collect-Keeps item now (some r) c e h = absurd (cc e)

  hydrate-Keeps : (x : Bytes) (c : Cell) → IsPresent c → IsPresent (hydrate_store x c).1
  unfolding hydrate_store
  hydrate-Keeps x c h = rw (h.0, hydrate_store) h

  recover-Keeps :
      (key : Str) (now : ℕ) (c : Cell)
      → IsPresent c
      → IsPresent (recover_master_write_intent_for_key hash key now c).1
  unfolding recover_master_write_intent_for_key
  recover-Keeps key now c h = rw (h.1, recover_master_write_intent_for_key) (h.0, refl)

  step-Keeps :
      (key : Str) (x : Bytes) {c d : Cell} (s : Quiet hash key c d)
      → contents c.files ≡ some x
      → IsPresent c
      → IsPresent d
  step-Keeps key x (disk c n) v h = h
  step-Keeps key x (restarted c bytes) v h = h
  step-Keeps key x (other_keys c bytes) v h = h
  step-Keeps key x (recovered c now) v h = recover-Keeps key now c h
  step-Keeps key x (begun c item blocked u snap) v h =
      state_of IsPresent (begin_upload hash blocked item c) (begin_upload-Keeps blocked item c h)
  step-Keeps key x (published c) v h = publish-Keeps c.files.upload c refl h
  step-Keeps key x (completed c u now grace e done) v h =
      state_of IsPresent (complete_uploaded_backend_queue_item hash u.item now grace (idle c))
        (complete-Keeps u.item now grace (idle c) h)
  step-Keeps key x (failed c item retry_at) v h =
      state_of IsPresent (record_backend_queue_failure item retry_at (idle c))
        (unfold record_backend_queue_failure in retry-Keeps item retry_at c.files.queued (idle c) h)
  step-Keeps key x (skipped c item u snap p) v h =
      state_of IsPresent (complete_backend_queue_item_without_upload item c) (skip-Keeps item c h)
  step-Keeps key x (collected c item now) v h =
      state_of IsPresent (collect_local_gc hash item now c) (
        unfold collect_local_gc in
        collect-Keeps item now c.files.retained c (no_tomb c.files x v h.1) h)
  step-Keeps key x (hydrated c y) v h = hydrate-Keeps y c h

  step-IsTimely :
      (key : Str) {c d : Cell} (s : Quiet hash key c d) → IsPresent c → IsTimely hash key s
  unfolding IsTimely
  step-IsTimely key (disk c n) h = tt
  step-IsTimely key (restarted c bytes) h = tt
  step-IsTimely key (other_keys c bytes) h = tt
  step-IsTimely key (recovered c now) h = tt
  step-IsTimely key (begun c item blocked u snap) h = tt
  step-IsTimely key (published c) h = tt
  step-IsTimely key (completed c u now grace e done) h = tt
  step-IsTimely key (failed c item retry_at) h = tt
  step-IsTimely key (skipped c item u snap p) h = tt
  step-IsTimely key (collected c item now) h = tt
  step-IsTimely key (hydrated c y) h = λ e. absurd (ground (arith, h.0, e))

module _ (hash : Bytes → Str) (injective : (x y : Bytes) → hash x ≡ hash y → x ≡ y) (key : Str)
    (x : Bytes) where
  IsPresent-At :
      {c d : Cell} (q : Quietly hash key c d)
      → At hash (some x) c
      → IsPresent c
      → AreTimely hash key q × At hash (some x) d × IsPresent d
  unfolding AreTimely
  IsPresent-At here a h = (tt, a, h)
  IsPresent-At (next q s) a h =
      let (timely, a', h') = IsPresent-At q a h in
      let now = step-IsTimely hash key s h' in
      (
        (timely, now),
        Quiet-At hash injective key (some x) s now a',
        step-Keeps hash key x s a'.1 h',
      )

  -- Every hydration is timely while the bytes of the key are in the store.
  pub IsPresent-AreTimely :
      {c d : Cell} (q : Quietly hash key c d)
      → At hash (some x) c
      → IsPresent c
      → AreTimely hash key q
  IsPresent-AreTimely q a h = (IsPresent-At q a h).0
