-- ===== src/Cluster/Flush.antt =====
-- What an upload of the cluster master finds and leaves.
use mathlib.Core.Path.{subst}
use majutsu.Base.{
  ℕ, suc, ◌≡◌, ◌==◌, ◌⊎◌, inl, inr, refl, sym, Bool, true, false, Option, none, some, arith,
}
use majutsu.Base.Text.{Str, str_eq_refl, str_eq_iff}
use majutsu.Cluster.{
  Bytes, BackendQueueItem, put, Cell, Result, ok, ◌>>=◌, write, spend, key_is_logically_deleted,
  is_deletion,
}
use majutsu.Cluster.Puts.{has_digest}
use majutsu.Cluster.Backend.{
  read_payload, is_current, upload_backend_queue_item, begin_upload, retain_deleted,
  record_backend_put_receipt, remove_queue_file, operated, publish, publish_upload, holding,
  complete_uploaded_backend_queue_item, is_backend_committed,
}
use majutsu.Cluster.Fine.{fits_queue, is_settled, IsFine}

-- The bytes of a queued put are stored.
payload_stored :
    (hash : Bytes → Str) (digest : Str) (stored : Option Bytes)
    → has_digest hash digest stored ≡ true
    → (x : Bytes) × (stored ≡ some x) × (hash x ≡ digest)
unfolding has_digest
payload_stored hash digest none h = absurd (cc h)
payload_stored hash digest (some x) h = (x, refl, (str_eq_iff (hash x) digest).0 h)

settled_put :
    (hash : Bytes → Str) (c : Cell) (q : BackendQueueItem) (digest : Str) (size : ℕ)
    (conditional : Bool)
    → IsFine hash c.files c.serial
    → c.files.intent ≡ none
    → c.files.queued ≡ some q
    → q.operation ≡ put digest size conditional
    → has_digest hash digest c.files.stored ≡ true
unfolding is_settled fits_queue
settled_put hash c q digest size conditional fine i e o = ground (arith, fine.settled)

-- The upload of a put never finds its bytes missing or changed: where the files are fine and no intent is
-- pending, the bytes of a queued put are stored, with the digest of the put, and they are what the upload
-- sends.
pub read_payload_stored :
    (hash : Bytes → Str) (c : Cell) (q : BackendQueueItem) (digest : Str) (size : ℕ)
    (conditional : Bool)
    → IsFine hash c.files c.serial
    → c.files.intent ≡ none
    → c.files.queued ≡ some q
    → q.operation ≡ put digest size conditional
    → (x : Bytes) × (c.files.stored ≡ some x)
      × (hash x ≡ digest)
      × ((read_payload hash q.operation c).0 ≡ ok (some x))
unfolding read_payload
read_payload_stored hash c q digest size conditional fine i e o =
    let (x, s, k) =
      payload_stored hash digest c.files.stored
        (settled_put hash c q digest size conditional fine i e o) in
    (x, s, k, ground (arith, str_eq_iff (hash x) digest))

same : (n : ℕ) → (n == n) ≡ true
same n = ground arith

-- What an upload of a put leaves, in the state and in its result.
module _ (hash : Bytes → Str) (x : Bytes) (q : BackendQueueItem) (size : ℕ) (now grace : ℕ)
    (conditional : Bool) (receipt : Option Str) (remote : Option Bytes) (store_bytes : ℕ)
    (store_max_bytes : Option ℕ) (serial n : ℕ) where
  abbrev before : Cell
  before = record {
    files = record {
      stored = some x;
      queued = some (record q { operation = put (hash x) size conditional });
      intent = none;
      receipt = receipt;
      retained = none;
      published = remote;
      upload = none;
    };
    store_bytes = store_bytes;
    store_max_bytes = store_max_bytes;
    serial = serial;
    writes = suc (suc n);
  }

  abbrev after : Cell
  after = record {
    files = record {
      stored = some x;
      queued = none;
      intent = none;
      receipt = some (hash x);
      retained = none;
      published = some x;
      upload = none;
    };
    store_bytes = store_bytes;
    store_max_bytes = store_max_bytes;
    serial = serial;
    writes = n;
  }

  upload_at :
      operated (put (hash x) size conditional) (some x) remote ≡ some x
      → upload_backend_queue_item hash false
          (record q { operation = put (hash x) size conditional })
          now
          grace
          before
        ≡ (ok true, after)
  unfolding upload_backend_queue_item begin_upload read_payload retain_deleted
      record_backend_put_receipt remove_queue_file complete_uploaded_backend_queue_item is_current
      publish_upload publish holding ◌>>=◌ write spend
  upload_at takes =
      rw (same q.generation, str_eq_refl (hash x))
        (rw (same q.generation, complete_uploaded_backend_queue_item, takes))

settled_tomb :
    (hash : Bytes → Str) (c : Cell) (q : BackendQueueItem) (digest : Str) (size : ℕ)
    (conditional : Bool)
    → IsFine hash c.files c.serial
    → c.files.intent ≡ none
    → c.files.queued ≡ some q
    → q.operation ≡ put digest size conditional
    → c.files.retained ≡ none
unfolding is_settled fits_queue
settled_tomb hash c q digest size conditional fine i e o = ground (arith, fine.settled)

-- What the backend and the master's answer are after an upload.
abbrev pub IsFlushed : (Bytes → Str) → Bytes → Result Bool × Cell → Type 0
IsFlushed hash x r =
    (r.0 ≡ ok true)
    × (r.1.files.published ≡ some x)
    × (r.1.files.stored ≡ some x)
    × (is_backend_committed hash r.1.files ≡ true)

after-IsFlushed :
    (hash : Bytes → Str) (x : Bytes) (q : BackendQueueItem) (size now grace : ℕ)
    (conditional : Bool) (receipt : Option Str) (remote : Option Bytes) (store_bytes : ℕ)
    (store_max_bytes : Option ℕ) (serial n : ℕ)
    → IsFlushed hash x (
      ok true,
      after hash x q size now grace conditional receipt remote store_bytes store_max_bytes serial n,
    )
unfolding is_backend_committed key_is_logically_deleted is_deletion has_digest
after-IsFlushed hash x q size now grace conditional receipt remote store_bytes store_max_bytes
      serial n =
    (refl, refl, refl, str_eq_refl (hash x))

takes_put :
    (digest : Str) (size : ℕ) (conditional : Bool) (x : Bytes) (remote : Option Bytes)
    → (conditional ≡ true → (remote ≡ none) ⊎ (remote ≡ some x))
    → operated (put digest size conditional) (some x) remote ≡ some x
unfolding operated
takes_put digest size false x remote h = refl
takes_put digest size true x remote h = elim (h refl) [ inl e ↦ rw e refl | inr e ↦ rw e refl ]

-- An upload brings a put to the backend: where the files are fine, no intent is pending, no upload is under
-- way, the put is queued, nothing blocks it, two writes succeed and nothing comes between its steps, the upload
-- returns true, the backend and the master hold the same bytes, of the digest of the put, and the master answers
-- that the key is committed. A conditional put is one of a key that the backend does not have, or has with
-- these bytes.
pub upload_backend_queue_item-IsFlushed :
    (hash : Bytes → Str) (c : Cell) (q : BackendQueueItem) (digest : Str) (size now grace n : ℕ)
    (conditional : Bool)
    → IsFine hash c.files c.serial
    → c.files.intent ≡ none
    → c.files.upload ≡ none
    → c.files.queued ≡ some q
    → q.operation ≡ put digest size conditional
    → (conditional ≡ true → (c.files.published ≡ none) ⊎ (c.files.published ≡ c.files.stored))
    → c.writes ≡ suc (suc n)
    → (x : Bytes) × (hash x ≡ digest)
      × IsFlushed hash x (upload_backend_queue_item hash false q now grace c)
upload_backend_queue_item-IsFlushed hash c q digest size now grace n conditional fine i u e o
      same_bytes w =
    let (x, s, k) =
      payload_stored hash digest c.files.stored
        (settled_put hash c q digest size conditional fine i e o) in
    let r = settled_tomb hash c q digest size conditional fine i e o in
    let item : record q { operation = put (hash x) size conditional } ≡ q = ground (arith, k, o) in
    let takes : operated (put (hash x) size conditional) (some x) c.files.published ≡ some x =
      takes_put (hash x) size conditional x c.files.published
        (λ t. subst (λ y. (c.files.published ≡ none) ⊎ (c.files.published ≡ y)) s (same_bytes t)) in
    let shape : before hash x q size now grace conditional c.files.receipt c.files.published
          c.store_bytes c.store_max_bytes c.serial n
        ≡ c =
      ground (arith, s, r, k, o) in
    (
      x,
      k,
      subst (λ p. IsFlushed hash x (upload_backend_queue_item hash false p now grace c)) item
          (subst
            (λ d. IsFlushed hash x (
              upload_backend_queue_item hash false
                (record q { operation = put (hash x) size conditional }) now grace d))
            shape
            (subst (IsFlushed hash x)
              (sym (
                upload_at hash x q size now grace conditional c.files.receipt c.files.published
                  c.store_bytes c.store_max_bytes c.serial n takes))
              (after-IsFlushed hash x q size now grace conditional c.files.receipt c.files.published
                c.store_bytes c.store_max_bytes c.serial n))),
    )
