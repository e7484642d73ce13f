-- ===== src/Cluster/Uploading.antt =====
-- The worker's operations, a hydration and a collection, wherever they stop: the files stay fine, and stand
-- for the same contents.
use mathlib.Core.Path.{subst}
use majutsu.Base.{
  ℕ, ◌+◌, ◌≡◌, ◌⊎◌, refl, sym, ap, ◌∙◌, Bool, true, false, not, ◌||◌, Option, none, some,
  if◌then◌else◌, is_some, arith, inl, inr,
}
use majutsu.Base.Text.{Str, str_eq}
use majutsu.Cluster.{
  Bytes, BackendQueueOperation, put, delete, BackendQueueItem, Files, Cell, Action, object_missing,
  digest_changed, pure, fail, ◌>>=◌, ◌>>◌, write, next_generation, operation_eq, is_deletion,
}
use majutsu.Cluster.Puts.{has_digest}
use majutsu.Cluster.Backend.{
  is_current, holding, remove_queue_file, read_payload, begin_upload,
  retain_local_after_backend_delete, record_backend_put_receipt, retain_stored, retain_deleted,
}
use majutsu.Cluster.Rules.{Ends, bind_rule, write_rule, if_rule, last_rule}
use majutsu.Cluster.Fine.{same_item}
use majutsu.Cluster.Moves.{next_generation-Stands}
use majutsu.Cluster.Replay.{At}
use majutsu.Cluster.Worker.{
  is_snapshot, is_payload, receipt-Stands, begin_upload-Stands, finish_put-Stands, untomb-Stands,
  tomb-Stands, finish_delete-Stands,
}

-- Wherever an action stops, the files are fine and stand for `v`.
abbrev pub Kept : (Bytes → Str) → Option Bytes → {A : Type 0} → A → Cell → Type 0
Kept hash v _ c = At hash v c

pub snapshot_current :
    (item : BackendQueueItem) (queued : Option BackendQueueItem)
    → is_snapshot item queued ≡ true
    → is_current item.generation queued ≡ true
    → same_item item queued ≡ true
unfolding is_snapshot
snapshot_current item queued h e = sym (rw e) ∙ h

module _ (hash : Bytes → Str) (v : Option Bytes) where
  abbrev Read : BackendQueueOperation → Files → Option Bytes → Cell → Type 0
  Read o f payload c = At hash v c × (c.files ≡ f) × (is_payload hash o payload ≡ true)

  stored_payload-Ends :
      (digest : Str) (size : ℕ) (conditional : Bool) (stored : Option Bytes) (c : Cell)
      → At hash v c
      → Ends (At hash v) (Read (put digest size conditional) c.files) (
          let m : Action (Option Bytes) = elim stored [
            | none ↦ fail object_missing
            | some x ↦ if str_eq (hash x) digest then pure (some x) else fail digest_changed
          ] in
          m c)
  unfolding is_payload has_digest
  stored_payload-Ends digest size conditional none c h = h
  stored_payload-Ends digest size conditional (some x) c h =
      if_rule (At hash v) (Read (put digest size conditional) c.files) (str_eq (hash x) digest) _ _
        c (λ e. (h, refl, e)) (λ _. h)

  read_payload-Ends :
      (o : BackendQueueOperation) (c : Cell)
      → At hash v c
      → Ends (At hash v) (Read o c.files) (read_payload hash o c)
  unfolding read_payload is_payload
  read_payload-Ends delete c h = (h, refl, refl)
  read_payload-Ends (put digest size conditional) c h =
      stored_payload-Ends digest size conditional c.files.stored c h

  pub begin_upload-Ends :
      (blocked : Bool) (item : BackendQueueItem) (c : Cell)
      → At hash v c
      → is_snapshot item c.files.queued ≡ true
      → Ends (At hash v) (λ _ d. At hash v d) (begin_upload hash blocked item c)
  unfolding begin_upload holding ◌>>=◌
  begin_upload-Ends blocked item c h snap =
      let E = At hash v in
      let Q : Bool → Cell → Type 0 = λ _ d. At hash v d in
      if_rule E Q (not (is_current item.generation c.files.queued) || blocked) _ _ c (λ _. h)
        (λ e.
          let cur : is_current item.generation c.files.queued ≡ true = ground (arith, e) in
          let same = snapshot_current item c.files.queued snap cur in
          bind_rule E Q (Read item.operation c.files) (read_payload hash item.operation)
            (λ payload.
              holding (some (record { item = item; payload = payload; done = false })) >> pure true)
            c (read_payload-Ends item.operation c h)
            (λ payload d (h', e', p).
              begin_upload-Stands hash d.files d.serial h' item payload
                (ap (λ (f : Files). is_current item.generation f.queued) e' ∙ cur)
                (ap (λ (f : Files). same_item item f.queued) e' ∙ same) p))

abbrev pub deletes : BackendQueueOperation → Bool
deletes (put digest size conditional) = false
deletes delete = true

pub same_deletion :
    (item : BackendQueueItem) (queued : Option BackendQueueItem)
    → is_current item.generation queued ≡ true
    → same_item item queued ≡ true
    → is_deletion queued ≡ deletes item.operation
unfolding is_current same_item is_deletion operation_eq
same_deletion item queued e h = ground (arith, e, h)

module _ (hash : Bytes → Str) (v : Option Bytes) (item : BackendQueueItem) (now grace : ℕ) where
  -- What holds between the tombstone of a deletion and its end.
  abbrev Entombed : Cell → Type 0
  Entombed c =
      At hash v c
      × (is_deletion c.files.queued ≡ true)
      × (c.files.upload ≡ none)
      × (c.files.published ≡ none)
      × ((is_some c.files.retained || not (is_some c.files.stored)) ≡ true)

  retain-Ends :
      (stored : Option Bytes) (c : Cell)
      → stored ≡ c.files.stored
      → At hash v c
      → is_deletion c.files.queued ≡ true
      → c.files.upload ≡ none
      → c.files.published ≡ none
      → Ends
          (At hash v)
          (λ (_ : Unit {0}) d. Entombed d)
          (retain_stored hash item now grace stored c)
  unfolding retain_stored next_generation ◌>>=◌
  retain-Ends none c e h d u p =
      last_rule (At hash v) (λ _ d. Entombed d) _ c h
        (λ w. (untomb-Stands hash c.files c.serial h d u, d, u, p, ground (arith, e)))
  retain-Ends (some x) c e h d u p =
      let later : Cell = record c { serial = c.serial + 1 } in
      let h' = next_generation-Stands hash c.files c.serial h in
      last_rule (At hash v) (λ _ d. Entombed d) _ later h'
        (λ w. (tomb-Stands hash c.files later.serial h' _ x d u p (sym e) refl, d, u, p, refl))

  pub finish-Ends :
      (o : BackendQueueOperation) (c : Cell)
      → At hash v c
      → is_deletion c.files.queued ≡ deletes o
      → c.files.upload ≡ none
      → (deletes o ≡ false) ⊎ (c.files.published ≡ none)
      → Ends
          (At hash v)
          (λ (_ : Bool) d. At hash v d)
          ((do
            retain_deleted hash item now grace o
            record_backend_put_receipt o
            remove_queue_file
            pure true)
            c)
  unfolding retain_deleted retain_local_after_backend_delete record_backend_put_receipt
      remove_queue_file
  finish-Ends (put digest size conditional) c h d u p =
      let E = At hash v in
      let Q : Bool → Cell → Type 0 = λ _ d. At hash v d in
      bind_rule E Q (λ (_ : Unit {0}) e. e ≡ c) (pure tt)
        (λ _. do write (λ g. record g { receipt = some digest }); remove_queue_file; pure true) c
        refl
        (λ _ e same.
          subst
            (λ (x : Cell). Ends E Q (
              (do write (λ g. record g { receipt = some digest }); remove_queue_file; pure true) x))
            (sym same)
            (write_rule E Q _ (λ _. remove_queue_file >> pure true) c h
              (λ w.
                let f = record c.files { receipt = some digest } in
                let h' = receipt-Stands hash c.files c.serial h (some digest) in
                write_rule E Q _ (λ _. pure true) (record c { files = f; writes = w }) h'
                  (λ w. finish_put-Stands hash f c.serial h' d u))))
  finish-Ends delete c h d u p =
      let E = At hash v in
      let Q : Bool → Cell → Type 0 = λ _ d. At hash v d in
      bind_rule E Q (λ (_ : Unit {0}) e. Entombed e)
        (retain_local_after_backend_delete hash item now grace)
        (λ _. do write (λ g. record g { receipt = none }); remove_queue_file; pure true) c
        (retain-Ends c.files.stored c refl h d u (elim p [ inl e ↦ absurd (cc e) | inr e ↦ e ]))
        (λ _ e (h, d, u, p, t).
          write_rule E Q _ (λ _. remove_queue_file >> pure true) e h
            (λ w.
              let f = record e.files { receipt = none } in
              let h' = receipt-Stands hash e.files e.serial h none in
              write_rule E Q _ (λ _. pure true) (record e { files = f; writes = w }) h'
                (λ w. finish_delete-Stands hash f e.serial h' d u p t)))
