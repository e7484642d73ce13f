-- ===== src/Cluster/Life.antt =====
-- The life of the files of one key: every operation that touches them, each with a failure of its own choice,
-- in any order that the lock and the one worker allow; and what it keeps.
use mathlib.Core.Path.{subst}
use majutsu.Base.{
  ℕ, ◌+◌, ◌≡◌, ◌⊎◌, refl, sym, ap, ◌∙◌, Bool, true, false, Option, none, some, is_some, inl, inr,
  arith,
}
use majutsu.Base.Text.{Str}
use majutsu.Cluster.{
  Bytes, BackendQueueItem, BackendQueueOperation, delete, LocalGcItem, Upload, Files, Cell, Result,
  ok, err, ◌>>=◌, next_generation, key_is_logically_deleted, is_deletion,
}
use majutsu.Cluster.Puts.{
  BackendEnqueueOutcome, write_backend_queue_item, holds_operation, new_item, durable_delete,
  recover_master_write_intent_for_key,
}
use majutsu.Cluster.Backend.{
  begin_upload, publish, complete_uploaded_backend_queue_item,
  complete_backend_queue_item_without_upload, record_backend_queue_failure, collect_local_gc,
  hydrate_store,
}
use majutsu.Cluster.Rules.{Ends, bind_rule, if_rule, write_rule, weaken_rule}
use majutsu.Cluster.Fine.{contents, fits_upload, IsFine}
use majutsu.Cluster.Moves.{enqueue_delete-Stands, next_generation-Stands, holds_operation_sound}
use majutsu.Cluster.Replay.{At, recover-Ends}
use majutsu.Cluster.Worker.{is_snapshot, no_upload-Stands, publish-Stands}
use majutsu.Cluster.Uploading.{deletes, begin_upload-Ends}
use majutsu.Cluster.Finishing.{
  complete-Ends, skip-Ends, record_failure-Ends, collect_local_gc-Ends, hydrate_store-Ends,
}

-- The worker's upload is over.
abbrev pub idle : Cell → Cell
idle c = record c { files = record c.files { upload = none } }

module _ (hash : Bytes → Str) (key : Str) where
  -- What may happen beside puts and deletions. The disk may take any number of writes from here on; the
  -- process may start again, with the size of its store counted anew.
  pub data Quiet : Cell → Cell → Type 0 where
    disk : (c : Cell) (n : ℕ) → Quiet c (record c { writes = n })
    restarted : (c : Cell) (bytes : ℕ) → Quiet c (record (idle c) { store_bytes = bytes })
    other_keys : (c : Cell) (bytes : ℕ) → Quiet c (record c { store_bytes = bytes })
    recovered :
        (c : Cell) (now : ℕ) → Quiet c (recover_master_write_intent_for_key hash key now c).1
    begun :
        (c : Cell) (item : BackendQueueItem) (blocked : Bool)
        → c.files.upload ≡ none
        → is_snapshot item c.files.queued ≡ true
        → Quiet c (begin_upload hash blocked item c).1
    published : (c : Cell) → Quiet c (record c { files = publish c.files })
    completed :
        (c : Cell) (u : Upload) (now grace : ℕ)
        → c.files.upload ≡ some u
        → u.done ≡ true
        → Quiet c (complete_uploaded_backend_queue_item hash u.item now grace (idle c)).1
    failed :
        (c : Cell) (item : BackendQueueItem) (retry_at : ℕ)
        → Quiet c (record_backend_queue_failure item retry_at (idle c)).1
    skipped :
        (c : Cell) (item : BackendQueueItem)
        → c.files.upload ≡ none
        → is_snapshot item c.files.queued ≡ true
        → deletes item.operation ≡ false
        → Quiet c (complete_backend_queue_item_without_upload item c).1
    collected :
        (c : Cell) (item : LocalGcItem) (now : ℕ) → Quiet c (collect_local_gc hash item now c).1
    -- The bytes are those that a reader has got from the backend at some time, without the lock.
    hydrated : (c : Cell) (x : Bytes) → Quiet c (hydrate_store x c).1

  pub data Quietly (c : Cell) : Cell → Type 0 where
    here : Quietly c c
    next : {d e : Cell} → Quietly c d → Quiet d e → Quietly c e

  -- A reader that finds no bytes in the store, when it has the lock, stores those that the backend has then.
  unfoldable pub IsTimely : {c d : Cell} → Quiet c d → Type 0
  IsTimely (disk c n) = Unit
  IsTimely (restarted c bytes) = Unit
  IsTimely (other_keys c bytes) = Unit
  IsTimely (recovered c now) = Unit
  IsTimely (begun c item blocked u snap) = Unit
  IsTimely (published c) = Unit
  IsTimely (completed c u now grace e done) = Unit
  IsTimely (failed c item retry_at) = Unit
  IsTimely (skipped c item u snap p) = Unit
  IsTimely (collected c item now) = Unit
  IsTimely (hydrated c x) = c.files.stored ≡ none → c.files.published ≡ some x

  unfoldable pub AreTimely : {c d : Cell} → Quietly c d → Type 0
  unfolding IsTimely
  AreTimely here = Unit
  AreTimely (next q s) = AreTimely q × IsTimely s

-- What holds of the state, however the action ended.
pub state_of :
    {A : Type 0} (P : Cell → Type 0) (r : Result A × Cell) → Ends P (λ _ c. P c) r → P r.1
state_of P (ok a, c) h = h
state_of P (err e, c) h = h

-- What a returned action leaves.
pub returned :
    {A : Type 0} (E : Cell → Type 0) (Q : A → Cell → Type 0) (r : Result A × Cell) {a : A}
    → Ends E Q r
    → r.0 ≡ ok a
    → Q a r.1
returned E Q (ok b, c) h e = subst (λ x. Q x c) (cc e) h
returned E Q (err x, c) h e = absurd (cc e)

-- The upload that is done is one of a current operation, or of none.
upload_done :
    (hash : Bytes → Str) (f : Files) (n : ℕ) (u : Upload)
    → IsFine hash f n
    → f.upload ≡ some u
    → u.done ≡ true
    → (is_snapshot u.item f.queued ≡ true)
      × ((deletes u.item.operation ≡ false) ⊎ (f.published ≡ none))
unfolding fits_upload is_snapshot
upload_done hash f n u fine e d =
    let k : fits_upload hash n (some u) f ≡ true =
      ap (λ o. fits_upload hash n o f) (sym e) ∙ fine.uploading in
    (ground (arith, k), of_upload u.item.operation f.published (ground (arith, k)))
  where
    of_upload :
        (o : BackendQueueOperation) (published : Option Bytes)
        → (deletes o ≡ false) ⊎ (is_some published ≡ false)
        → (deletes o ≡ false) ⊎ (published ≡ none)
    of_upload o none h = inr refl
    of_upload o (some x) (inl h) = inl h
    of_upload o (some x) (inr h) = absurd (cc h)

deleted_contents :
    (f : Files) (q : BackendQueueItem)
    → f.intent ≡ none
    → f.queued ≡ some q
    → q.operation ≡ delete
    → contents f ≡ none
unfolding contents key_is_logically_deleted is_deletion
deleted_contents f q e h o = ground arith

module _ (hash : Bytes → Str) (injective : (x y : Bytes) → hash x ≡ hash y → x ≡ y) (key : Str)
    (v : Option Bytes) where
  idle-At : (c : Cell) → At hash v c → At hash v (idle c)
  idle-At c h = no_upload-Stands hash c.files c.serial h

  pub Quiet-At :
      {c d : Cell} → (s : Quiet hash key c d) → IsTimely hash key s → At hash v c → At hash v d
  unfolding IsTimely
  Quiet-At (disk c n) timely h = h
  Quiet-At (restarted c bytes) timely h = idle-At c h
  Quiet-At (other_keys c bytes) timely h = h
  Quiet-At (recovered c now) timely h =
      state_of (At hash v) (recover_master_write_intent_for_key hash key now c) (
        weaken_rule (At hash v) (At hash v) (λ _ d. At hash v d × (d.files.intent ≡ none))
          (λ _ d. At hash v d) (recover_master_write_intent_for_key hash key now c)
          (recover-Ends hash injective v key now c h) (λ _ z. z) (λ _ _ z. z.0))
  Quiet-At (begun c item blocked u snap) timely h =
      state_of (At hash v) (begin_upload hash blocked item c)
        (begin_upload-Ends hash v blocked item c h snap)
  Quiet-At (published c) timely h = publish-Stands hash c.files c.serial h
  Quiet-At (completed c u now grace e d) timely h =
      let (snap, p) = upload_done hash c.files c.serial u h.0 e d in
      state_of (At hash v) (complete_uploaded_backend_queue_item hash u.item now grace (idle c))
        (complete-Ends hash v u.item now grace (idle c) (idle-At c h) refl snap p)
  Quiet-At (failed c item retry_at) timely h =
      state_of (At hash v) (record_backend_queue_failure item retry_at (idle c))
        (record_failure-Ends hash v item retry_at (idle c) (idle-At c h))
  Quiet-At (skipped c item u snap p) timely h =
      state_of (At hash v) (complete_backend_queue_item_without_upload item c)
        (skip-Ends hash v item c h u snap p)
  Quiet-At (collected c item now) timely h =
      state_of (At hash v) (collect_local_gc hash item now c)
        (collect_local_gc-Ends hash v item now c h)
  Quiet-At (hydrated c x) timely h =
      state_of (At hash v) (hydrate_store x c) (hydrate_store-Ends hash v x c h timely)

  pub Quietly-At :
      {c d : Cell} (q : Quietly hash key c d) → AreTimely hash key q → At hash v c → At hash v d
  unfolding AreTimely
  Quietly-At here timely h = h
  Quietly-At (next q s) timely h = Quiet-At s timely.1 (Quietly-At q timely.0 h)

  enqueue_delete-Ends :
      (host : Str) (now : ℕ) (c : Cell)
      → At hash v c
      → c.files.intent ≡ none
      → Ends
          (At hash v)
          (λ (_ : BackendEnqueueOutcome) d. At hash none d × (d.files.intent ≡ none))
          (write_backend_queue_item key host delete now c)
  unfolding write_backend_queue_item next_generation ◌>>=◌
  enqueue_delete-Ends host now c h e =
      let Q : BackendEnqueueOutcome → Cell → Type 0 =
        λ _ d. At hash none d × (d.files.intent ≡ none) in
      if_rule (At hash v) Q (holds_operation delete c.files.queued) _ _ c
        (λ q.
          let (item, hq, ho) = holds_operation_sound delete c.files.queued q in
          ((h.0, deleted_contents c.files item e hq ho), e))
        (λ _.
          let item = new_item key host delete now c.serial c.files.queued in
          let d : Cell = record c { serial = c.serial + 1 } in
          write_rule (At hash v) Q (λ g. record g { queued = some item }) _ d
            (next_generation-Stands hash c.files c.serial h)
            (λ w. (enqueue_delete-Stands hash c.files c.serial h e item refl refl, e)))

  pub durable_delete-Ends :
      (host : Str) (now : ℕ) (c : Cell)
      → At hash v c
      → Ends
          (At hash v)
          (λ (_ : Unit {0}) d. At hash none d × (d.files.intent ≡ none))
          (durable_delete hash host key now c)
  unfolding durable_delete
  durable_delete-Ends host now c h =
      let E = At hash v in
      let Q : Unit {0} → Cell → Type 0 = λ _ d. At hash none d × (d.files.intent ≡ none) in
      bind_rule E Q (λ (_ : Unit {0}) d. At hash v d × (d.files.intent ≡ none)) _ _ c
        (recover-Ends hash injective v key now c h)
        (λ _ d (h', e).
          bind_rule E Q (λ (_ : BackendEnqueueOutcome) d. At hash none d × (d.files.intent ≡ none))
            _ _ d (enqueue_delete-Ends host now d h' e) (λ _ _ z. z))
