-- ===== src/Cluster/Finishing.antt =====
-- The end of an upload, a failure, a collection and a hydration, wherever they stop: the files stay fine,
-- and stand for the same contents.
use majutsu.Base.{
  ℕ, ◌≡◌, ◌⊎◌, refl, sym, ◌∙◌, ◌==◌, Bool, true, false, not, ◌||◌, Option, none, some, ltb, length,
  is_some, arith, inl, inr,
}
use majutsu.Base.Text.{Str}
use majutsu.Cluster.{
  Bytes, BackendQueueOperation, put, delete, BackendQueueItem, LocalGcItem, Cell, Result, ok, err,
  Action, pure, ◌>>◌, write, is_deletion, len,
}
use majutsu.Cluster.Puts.{has_digest, update_store_bytes, enforce_store_quota, put_store}
use majutsu.Cluster.Backend.{
  is_current, remove_queue_file, record_backend_put_receipt, complete_uploaded_backend_queue_item,
  complete_backend_queue_item_without_upload, remove_collected, collect_current, collect_local_gc,
  retry_queued, record_backend_queue_failure, hydrate_when, hydrate_store,
}
use majutsu.Cluster.Rules.{Ends, bind_rule, write_rule, if_rule, last_rule}
use majutsu.Cluster.Replay.{At}
use majutsu.Cluster.Worker.{
  is_snapshot, receipt-Stands, finish_put-Stands, retry-Stands, collect_bytes-Stands,
  collect_tomb-Stands, hydrate-Stands,
}
use majutsu.Cluster.Uploading.{deletes, same_deletion, snapshot_current, finish-Ends}

none_stored : {A : Type 0} (o : Option A) → is_some o ≡ false → o ≡ none
none_stored none h = refl
none_stored (some a) h = absurd (cc h)

module _ (hash : Bytes → Str) (v : Option Bytes) where
  pub complete-Ends :
      (item : BackendQueueItem) (now grace : ℕ) (c : Cell)
      → At hash v c
      → c.files.upload ≡ none
      → is_snapshot item c.files.queued ≡ true
      → (deletes item.operation ≡ false) ⊎ (c.files.published ≡ none)
      → Ends
          (At hash v)
          (λ (_ : Bool) d. At hash v d)
          (complete_uploaded_backend_queue_item hash item now grace c)
  unfolding complete_uploaded_backend_queue_item
  complete-Ends item now grace c h u snap p =
      let Q : Bool → Cell → Type 0 = λ _ d. At hash v d in
      if_rule (At hash v) Q (is_current item.generation c.files.queued) _ _ c
        (λ e.
          let d =
            same_deletion item c.files.queued e (snapshot_current item c.files.queued snap e) in
          finish-Ends hash v item now grace item.operation c h d u p)
        (λ _. h)

  abbrev Put : Cell → Type 0
  Put c = At hash v c × (is_deletion c.files.queued ≡ false) × (c.files.upload ≡ none)

  receipt-Ends :
      (o : BackendQueueOperation) (c : Cell)
      → Put c
      → Ends (At hash v) (λ (_ : Unit {0}) d. Put d) (record_backend_put_receipt o c)
  unfolding record_backend_put_receipt
  receipt-Ends (put digest size conditional) c (h, d, u) =
      last_rule (At hash v) (λ _ d. Put d) _ c h
        (λ w. (receipt-Stands hash c.files c.serial h (some digest), d, u))
  receipt-Ends delete c (h, d, u) =
      last_rule (At hash v) (λ _ d. Put d) _ c h
        (λ w. (receipt-Stands hash c.files c.serial h none, d, u))

  pub skip-Ends :
      (item : BackendQueueItem) (c : Cell)
      → At hash v c
      → c.files.upload ≡ none
      → is_snapshot item c.files.queued ≡ true
      → deletes item.operation ≡ false
      → Ends
          (At hash v)
          (λ (_ : Bool) d. At hash v d)
          (complete_backend_queue_item_without_upload item c)
  unfolding complete_backend_queue_item_without_upload remove_queue_file
  skip-Ends item c h u snap p =
      let E = At hash v in
      let Q : Bool → Cell → Type 0 = λ _ d. At hash v d in
      if_rule E Q (is_current item.generation c.files.queued) _ _ c
        (λ e.
          let d =
            same_deletion item c.files.queued e (snapshot_current item c.files.queued snap e) ∙ p in
          bind_rule E Q (λ (_ : Unit {0}) d. Put d) (record_backend_put_receipt item.operation)
            (λ _. remove_queue_file >> pure true) c (receipt-Ends item.operation c (h, d, u))
            (λ _ e (h, d, u).
              write_rule E Q _ (λ _. pure true) e h
                (λ w. finish_put-Stands hash e.files e.serial h d u)))
        (λ _. h)

  retry_queued-Ends :
      (attempted : BackendQueueItem) (at : ℕ) (queued : Option BackendQueueItem) (c : Cell)
      → queued ≡ c.files.queued
      → At hash v c
      → Ends (At hash v) (λ (_ : Unit {0}) d. At hash v d) (retry_queued attempted at queued c)
  unfolding retry_queued
  retry_queued-Ends attempted at none c e h = h
  retry_queued-Ends attempted at (some q) c e h =
      let Q : Unit {0} → Cell → Type 0 = λ _ d. At hash v d in
      if_rule (At hash v) Q (q.generation == attempted.generation) _ _ c
        (λ _.
          last_rule (At hash v) Q _ c h
            (λ w. retry-Stands hash c.files c.serial h q _ (sym e) refl refl))
        (λ _. h)

  pub record_failure-Ends :
      (attempted : BackendQueueItem) (at : ℕ) (c : Cell)
      → At hash v c
      → Ends
          (At hash v)
          (λ (_ : Unit {0}) d. At hash v d)
          (record_backend_queue_failure attempted at c)
  unfolding record_backend_queue_failure
  record_failure-Ends attempted at c h = retry_queued-Ends attempted at c.files.queued c refl h

  remove_collected-Ends :
      (r : LocalGcItem) (c : Cell)
      → At hash v c
      → c.files.retained ≡ some r
      → c.files.queued ≡ none
      → Ends (At hash v) (λ (_ : Bool) d. At hash v d) (remove_collected hash r c)
  unfolding remove_collected update_store_bytes
  remove_collected-Ends r c h t q =
      let E = At hash v in
      let Q : Bool → Cell → Type 0 = λ _ d. At hash v d in
      let rest : Action Bool = write (λ g. record g { retained = none }) >> pure true in
      let IsEmptied : Cell → Type 0 = λ e.
        At hash v e
        × (e.files.retained ≡ some r)
        × (e.files.queued ≡ none)
        × (e.files.stored ≡ none) in
      if_rule E Q (has_digest hash r.digest c.files.stored) _ _ c
        (λ _.
          write_rule E Q _ (λ _. update_store_bytes (len c.files.stored) 0 >> rest) c h
            (λ w.
              let d : Cell = record c { files = record c.files { stored = none }; writes = w } in
              bind_rule E Q (λ (_ : Unit {0}) e. IsEmptied e)
                (update_store_bytes (len c.files.stored) 0) (λ _. rest) d
                (collect_bytes-Stands hash c.files c.serial h r t q, t, q, refl)
                (λ _ e (h, t, q, s).
                  write_rule E Q _ (λ _. pure true) e h
                    (λ w. collect_tomb-Stands hash e.files e.serial h r t q (inl s)))))
        (λ e.
          write_rule E Q _ (λ _. pure false) c h
            (λ w. collect_tomb-Stands hash c.files c.serial h r t q (inr e)))

  hydrate_when-Ends :
      (allowed : Result (Unit {0})) (x : Bytes) (c : Cell)
      → At hash v c
      → c.files.stored ≡ none
      → c.files.published ≡ some x
      → Ends (At hash v) (λ (_ : Unit {0}) d. At hash v d) (hydrate_when allowed x c)
  unfolding hydrate_when put_store update_store_bytes
  hydrate_when-Ends (err e) x c h s p = h
  hydrate_when-Ends (ok _) x c h s p =
      write_rule (At hash v) (λ (_ : Unit {0}) d. At hash v d) _
        (λ _. update_store_bytes 0 (length x)) c h
        (λ w. hydrate-Stands hash c.files c.serial h x s p)

  pub hydrate_store-Ends :
      (x : Bytes) (c : Cell)
      → At hash v c
      → (c.files.stored ≡ none → c.files.published ≡ some x)
      → Ends (At hash v) (λ (_ : Unit {0}) d. At hash v d) (hydrate_store x c)
  unfolding hydrate_store
  hydrate_store-Ends x c h p =
      if_rule (At hash v) (λ (_ : Unit {0}) d. At hash v d) (is_some c.files.stored) (pure tt)
        (hydrate_when (enforce_store_quota 0 (length x) c).0 x) c (λ _. h)
        (λ e.
          let empty = none_stored c.files.stored e in
          hydrate_when-Ends (enforce_store_quota 0 (length x) c).0 x c h empty (p empty))

  collect_current-Ends :
      (item : LocalGcItem) (now : ℕ) (o : Option LocalGcItem) (c : Cell)
      → o ≡ c.files.retained
      → At hash v c
      → Ends
          (At hash v)
          (λ (_ : Bool) d. At hash v d)
          (collect_current hash item now o c.files.queued c)
  unfolding collect_current
  collect_current-Ends item now none c e h = h
  collect_current-Ends item now (some r) c e h =
      if_rule (At hash v) (λ (_ : Bool) d. At hash v d)
        (not (r.generation == item.generation) || ltb now r.delete_after || is_some c.files.queued)
        (pure false) (remove_collected hash r) c (λ _. h)
        (λ t. remove_collected-Ends r c h (sym e) (none_stored c.files.queued (ground (arith, t))))

  pub collect_local_gc-Ends :
      (item : LocalGcItem) (now : ℕ) (c : Cell)
      → At hash v c
      → Ends (At hash v) (λ (_ : Bool) d. At hash v d) (collect_local_gc hash item now c)
  unfolding collect_local_gc
  collect_local_gc-Ends item now c h = collect_current-Ends item now c.files.retained c refl h
