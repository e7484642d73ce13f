-- ===== src/Cluster/Replay.antt =====
-- The replay of an intent and the queueing of a put, wherever they stop.
use majutsu.Base.{
  ℕ, ◌+◌, ◌≡◌, refl, sym, ap, ◌∙◌, true, not, ◌&&◌, Option, none, some, leb, is_some, length, arith,
  inl, inr, Bool-cases,
}
use majutsu.Base.Text.{Str, str_eq_refl}
use majutsu.Cluster.{
  Bytes, MasterWriteIntent, BackendQueueOperation, put, BackendQueueItem, LocalGcItem, Files, write,
  Cell, Action, pure, ◌>>=◌, when, next_generation,
}
use majutsu.Cluster.Puts.{
  enforce_store_quota, over_quota, update_store_bytes, holds_operation, new_item,
  write_backend_queue_item, cancel_local_gc, remove_intent, put_store, is_valid_intent, has_digest,
  enqueue_backend_put, restore_intent, replay_intent, recover_master_write_intent_for_key,
}
use majutsu.Cluster.Rules.{Ends, bind_rule, write_rule, if_rule, last_rule}
use majutsu.Cluster.Fine.{Stands}
use majutsu.Cluster.Moves.{
  put_store-Stands, cancel_local_gc-Stands, enqueue_pending-Stands, holds_operation_sound,
  contents_pending, next_generation-Stands, remove_intent-Stands,
}

-- The cell's files are fine and stand for `v`.
abbrev pub At : (Bytes → Str) → Option Bytes → Cell → Type 0
At hash v c = Stands hash v c.files c.serial

-- A check of the quota changes nothing.
pub quota_rule :
    {A : Type 0} (E : Cell → Type 0) (Q : A → Cell → Type 0) (old new : ℕ) (k : Unit {0} → Action A)
    (c : Cell)
    → E c
    → Ends E Q (k tt c)
    → Ends E Q ((enforce_store_quota old new >>= k) c)
unfolding ◌>>=◌ enforce_store_quota
quota_rule E Q old new k c h next = elim (Bool-cases (leb new old)) [
  | inl e ↦ rw (e, enforce_store_quota) next
  | inr e ↦ elim (Bool-cases (over_quota c.store_max_bytes c.store_bytes old new)) [
    | inl e' ↦ rw (e, e', enforce_store_quota) h
    | inr e' ↦ rw (e, e', enforce_store_quota) next
  ]
]

-- What holds once a put is queued while an intent is pending.
abbrev pub Queued : (Bytes → Str) → Option Bytes → BackendQueueOperation → Files → Cell → Type 0
Queued hash v o f c =
    At hash v c
    × (c.files.intent ≡ f.intent)
    × (c.files.retained ≡ f.retained)
    × (c.files.stored ≡ f.stored)
    × ((q : BackendQueueItem) × (c.files.queued ≡ some q) × (q.operation ≡ o))

-- What holds once the tombstone is gone.
abbrev pub Cancelled : (Bytes → Str) → Option Bytes → Files → Cell → Type 0
Cancelled hash v f c =
    At hash v c
    × (c.files.intent ≡ f.intent)
    × (c.files.queued ≡ f.queued)
    × (c.files.stored ≡ f.stored)
    × (c.files.retained ≡ none)

module _ (hash : Bytes → Str) (v : Option Bytes) where
  pub enqueue-Ends :
      (key host : Str) (o : BackendQueueOperation) (now : ℕ) (c : Cell)
      → At hash v c
      → is_some c.files.intent ≡ true
      → Ends
          (At hash v)
          (λ _ d. Queued hash v o c.files d)
          (write_backend_queue_item key host o now c)
  unfolding write_backend_queue_item next_generation ◌>>=◌
  enqueue-Ends key host o now c h pending =
      if_rule (At hash v) (λ _ d. Queued hash v o c.files d) (holds_operation o c.files.queued) _ _
        c
        (λ e.
          let (q, hq, ho) = holds_operation_sound o c.files.queued e in
          (h, refl, refl, refl, (q, hq, ho)))
        (λ e.
          let q = new_item key host o now c.serial c.files.queued in
          let d : Cell = record c { serial = c.serial + 1 } in
          write_rule (At hash v) (λ _ d'. Queued hash v o c.files d')
            (λ g. record g { queued = some q }) _ d (next_generation-Stands hash c.files c.serial h)
            (λ w. (
              enqueue_pending-Stands hash c.files c.serial h pending q refl,
              refl,
              refl,
              refl,
              (q, refl, refl),
            )))

  cancel-Ends :
      (o : Option LocalGcItem) (c : Cell)
      → o ≡ c.files.retained
      → At hash v c
      → is_some c.files.intent ≡ true
      → Ends
          (At hash v)
          (λ _ d. Cancelled hash v c.files d)
          (when (is_some o) (write (λ g. record g { retained = none })) c)
  unfolding when
  cancel-Ends none c e h pending = (h, refl, refl, refl, sym e)
  cancel-Ends (some r) c e h pending =
      last_rule (At hash v) (λ _ d. Cancelled hash v c.files d) _ c h
        (λ w. (cancel_local_gc-Stands hash c.files c.serial h pending, refl, refl, refl, refl))

  -- The tombstone goes while the intent is pending.
  pub cancel_local_gc-Ends :
      (c : Cell)
      → At hash v c
      → is_some c.files.intent ≡ true
      → Ends (At hash v) (λ _ d. Cancelled hash v c.files d) (cancel_local_gc c)
  unfolding cancel_local_gc
  cancel_local_gc-Ends c h pending = cancel-Ends c.files.retained c refl h pending

module _ (hash : Bytes → Str) (v : Option Bytes) (i : MasterWriteIntent) where
  -- The store holds the bytes of the intent.
  abbrev Restored : Cell → Type 0
  Restored c =
      At hash v c
      × (c.files.intent ≡ some i)
      × (has_digest hash (hash i.item.bytes) c.files.stored ≡ true)

  pub restore_intent-Ends :
      (c : Cell)
      → At hash v c
      → c.files.intent ≡ some i
      → Ends (At hash v) (λ _ d. Restored d) (restore_intent hash i.item (hash i.item.bytes) c)
  unfolding restore_intent when update_store_bytes put_store has_digest
  restore_intent-Ends c h pending =
      if_rule (At hash v) (λ _ d. Restored d)
        (not (has_digest hash (hash i.item.bytes) c.files.stored)) _ _ c
        (λ e.
          if_rule (At hash v) (λ _ d. Restored d) (i.item.conditional && is_some c.files.stored) _ _
            c (λ e'. h)
            (λ e'.
              quota_rule (At hash v) (λ _ d. Restored d) _ _ _ c h
                (write_rule (At hash v) (λ _ d. Restored d) _ _ c h
                  (λ w. (
                    put_store-Stands hash c.files c.serial h (ground (arith, pending)) i.item.bytes,
                    pending,
                    str_eq_refl (hash i.item.bytes),
                  )))))
        (λ e. (h, pending, ground (arith, e)))

module _ (hash : Bytes → Str) (injective : (x y : Bytes) → hash x ≡ hash y → x ≡ y) where
  -- The last writes of a put and of a replay: the put is queued, its tombstone and its intent go.
  pub replay_intent-Ends :
      (v : Option Bytes) (key : Str) (now : ℕ) (i : MasterWriteIntent) (c : Cell)
      → At hash v c
      → c.files.intent ≡ some i
      → Ends
          (At hash v)
          (λ _ d. At hash v d × (d.files.intent ≡ none))
          (replay_intent hash key now i c)
  unfolding replay_intent enqueue_backend_put remove_intent
  replay_intent-Ends v key now i c h pending =
      let Q : Unit {0} → Cell → Type 0 = λ _ d. At hash v d × (d.files.intent ≡ none) in
      let E = At hash v in
      let o = put (hash i.item.bytes) (length i.item.bytes) i.item.conditional in
      if_rule E Q (is_valid_intent key i) _ _ c
        (λ _.
          bind_rule E Q (λ _ d. Restored hash v i d) _ _ c
            (restore_intent-Ends hash v i c h pending)
            (λ _ d (h1, p1, s1).
              bind_rule E Q (λ _ d'. Queued hash v o d.files d') _ _ d
                (enqueue-Ends hash v i.item.key i.source_host o now d h1 (ground (arith, p1)))
                (λ _ d' (h2, p2, r2, s2, (q, hq, ho)).
                  bind_rule E Q (λ _ d''. Cancelled hash v d'.files d'') _ _ d'
                    (cancel_local_gc-Ends hash v d' h2 (ground (arith, p1, p2)))
                    (λ _ d'' (h3, p3, q3, s3, r3). last_rule E Q _ d'' h3 (λ w.
                      let stored = ap (has_digest hash (hash i.item.bytes)) (s3 ∙ s2) ∙ s1 in
                      (
                        remove_intent-Stands hash injective d''.files d''.serial v i.item.bytes q
                            (length i.item.bytes) i.item.conditional h3
                            (contents_pending c.files i pending h.1) r3 stored (q3 ∙ hq) ho,
                        refl,
                      ))))))
        (λ _. h)

  pub recover-Ends :
      (v : Option Bytes) (key : Str) (now : ℕ) (c : Cell)
      → At hash v c
      → Ends
          (At hash v)
          (λ _ d. At hash v d × (d.files.intent ≡ none))
          (recover_master_write_intent_for_key hash key now c)
  unfolding recover_master_write_intent_for_key
  recover-Ends v key now c h = at c.files.intent refl
    where
      at :
          (o : Option MasterWriteIntent)
          → o ≡ c.files.intent
          → Ends
              (At hash v)
              (λ _ d. At hash v d × (d.files.intent ≡ none))
              (let m : Action (Unit {0}) = elim o [
                | none ↦ pure tt
                | some i ↦ replay_intent hash key now i
              ] in
                m c)
      at none e = (h, sym e)
      at (some i) e = replay_intent-Ends v key now i c h (sym e)
