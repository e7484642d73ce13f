-- ===== src/Cluster/Promises.antt =====
-- What the cluster master promises of one key: puts and deletions that are acknowledged last, whatever else
-- happens and wherever it stops.
use majutsu.Base.{ap, is_some, ℕ, ◌≡◌, ◌⊎◌, refl, ◌∙◌, Option, none, some, inl, inr, arith}
use majutsu.Base.Text.{Str}
use majutsu.Cluster.{Bytes, ClusterPutItem, Files, Cell, ok}
use majutsu.Cluster.Puts.{
  process_put, durable_delete, recover_master_write_intent_for_key, ClusterPutResult,
}
use majutsu.Cluster.Backend.{master_get_optional}
use majutsu.Cluster.Rules.{weaken_rule}
use majutsu.Cluster.Fine.{contents, IsFine}
use majutsu.Cluster.Replay.{At, recover-Ends}
use majutsu.Cluster.Acknowledged.{IsDurable}
use majutsu.Cluster.Outcome.{process_put-Ends}
use majutsu.Cluster.Present.{IsPresent, IsPresent-AreTimely}
use majutsu.Cluster.Life.{Quietly, AreTimely, returned, state_of, Quietly-At, durable_delete-Ends}

-- A reader gets the contents when no intent is pending.
get-contents : (f : Files) → f.intent ≡ none → master_get_optional f ≡ contents f
unfolding master_get_optional contents
get-contents f e = ground (arith, e)

-- The empty directories of a key that the backend may have already.
abbrev pub new_files : Option Bytes → Files
new_files remote = record {
  stored = none;
  queued = none;
  intent = none;
  receipt = none;
  retained = none;
  published = remote;
  upload = none;
}

module _ (hash : Bytes → Str) (injective : (x y : Bytes) → hash x ≡ hash y → x ≡ y) where
  recovered_get :
      (key : Str) (now : ℕ) (v : Option Bytes) (c : Cell)
      → At hash v c
      → (recover_master_write_intent_for_key hash key now c).0 ≡ ok tt
      → master_get_optional (recover_master_write_intent_for_key hash key now c).1.files ≡ v
  recovered_get key now v c h e =
      let (h', i) =
        returned (At hash v) (λ (_ : Unit {0}) d. At hash v d × (d.files.intent ≡ none))
          (recover_master_write_intent_for_key hash key now c)
          (recover-Ends hash injective v key now c h) e in
      get-contents _ i ∙ h'.1

  -- A put that is acknowledged is not lost: whatever uploads, collections, failed writes, failed uploads,
  -- restarts and readers that store bytes late follow it, if no put and no deletion of the key does, then after
  -- a recovery that returns a reader of the master gets the bytes of the put. The files are fine before the
  -- put, and no two contents have one hash.
  pub get-process_put :
      (host : Str) (item : ClusterPutItem) (now later : ℕ) (c d : Cell) (r : ClusterPutResult)
      → IsFine hash c.files c.serial
      → (process_put hash host item now c).0 ≡ ok r
      → Quietly hash item.key (process_put hash host item now c).1 d
      → (recover_master_write_intent_for_key hash item.key later d).0 ≡ ok tt
      → master_get_optional (recover_master_write_intent_for_key hash item.key later d).1.files
        ≡ some item.bytes
  get-process_put host item now later c d r fine e quiet done =
      let v = contents c.files in
      let w = some item.bytes in
      let (h, durable) =
        returned (λ d. At hash v d ⊎ At hash w d)
          (λ (_ : ClusterPutResult) d. At hash w d × IsDurable hash item.bytes d.files)
          (process_put hash host item now c)
          (process_put-Ends hash injective v host item now c (fine, refl)) e in
      let present : IsPresent (process_put hash host item now c).1 =
        (ap is_some durable.stored, durable.settled) in
      let timely = IsPresent-AreTimely hash injective item.key item.bytes quiet h present in
      recovered_get item.key later w d (Quietly-At hash injective item.key w quiet timely h) done

  -- A deletion that is acknowledged is not undone: whatever follows it, if no put of the key does, then after
  -- a recovery that returns a reader of the master finds nothing. The files are fine before the deletion, no
  -- two contents have one hash, and a reader that finds the store without bytes stores only those that the
  -- backend has at that time.
  pub get-durable_delete :
      (host key : Str) (now later : ℕ) (c d : Cell)
      → IsFine hash c.files c.serial
      → (durable_delete hash host key now c).0 ≡ ok tt
      → (quiet : Quietly hash key (durable_delete hash host key now c).1 d)
      → AreTimely hash key quiet
      → (recover_master_write_intent_for_key hash key later d).0 ≡ ok tt
      → master_get_optional (recover_master_write_intent_for_key hash key later d).1.files ≡ none
  get-durable_delete host key now later c d fine e quiet timely done =
      let v = contents c.files in
      let (h, _) =
        returned (At hash v) (λ (_ : Unit {0}) d. At hash none d × (d.files.intent ≡ none))
          (durable_delete hash host key now c)
          (durable_delete-Ends hash injective key v host now c (fine, refl)) e in
      recovered_get key later none d (Quietly-At hash injective key none quiet timely h) done

  -- Wherever a put stops, with an error, at a write that fails or with an acknowledgement, the files are fine,
  -- and their contents are those before the put or the bytes of the put.
  pub contents-process_put :
      (host : Str) (item : ClusterPutItem) (now : ℕ) (c : Cell)
      → IsFine hash c.files c.serial
      → IsFine hash
          (process_put hash host item now c).1.files
          (process_put hash host item now c).1.serial
        × ((contents (process_put hash host item now c).1.files ≡ contents c.files)
            ⊎ (contents (process_put hash host item now c).1.files ≡ some item.bytes))
  contents-process_put host item now c fine =
      let v = contents c.files in
      let w = some item.bytes in
      let E : Cell → Type 0 = λ d. At hash v d ⊎ At hash w d in
      either v w (process_put hash host item now c).1 (
        state_of E (process_put hash host item now c) (
          weaken_rule E E
            (λ (_ : ClusterPutResult) d. At hash w d × IsDurable hash item.bytes d.files)
            (λ _ d. E d) (process_put hash host item now c)
            (process_put-Ends hash injective v host item now c (fine, refl)) (λ _ z. z)
            (λ _ _ z. inr z.0)))
    where
      either :
          (v w : Option Bytes) (d : Cell)
          → At hash v d ⊎ At hash w d
          → IsFine hash d.files d.serial × ((contents d.files ≡ v) ⊎ (contents d.files ≡ w))
      either v w d (inl h) = (h.0, inl h.1)
      either v w d (inr h) = (h.0, inr h.1)

  -- What an acknowledged put has reached: the master stores its bytes, the key is not deleted, no intent is
  -- pending, and a put of these bytes is queued for the backend or the backend's receipt is one of them. The
  -- files are fine before, and no two contents have one hash.
  pub process_put-IsDurable :
      (host : Str) (item : ClusterPutItem) (now : ℕ) (c : Cell) (r : ClusterPutResult)
      → IsFine hash c.files c.serial
      → (process_put hash host item now c).0 ≡ ok r
      → IsDurable hash item.bytes (process_put hash host item now c).1.files
  process_put-IsDurable host item now c r fine e =
      let v = contents c.files in
      let w = some item.bytes in
      (returned (λ d. At hash v d ⊎ At hash w d)
        (λ (_ : ClusterPutResult) d. At hash w d × IsDurable hash item.bytes d.files)
        (process_put hash host item now c)
        (process_put-Ends hash injective v host item now c (fine, refl)) e).1
