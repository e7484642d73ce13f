-- ===== src/Cluster/Acknowledged.antt =====
-- What a put that is acknowledged has reached, and what one that fails may have left.
use majutsu.Base.{
  ℕ, ◌≡◌, ◌⊎◌, refl, sym, ap, ◌∙◌, Bool, true, false, not, Option, none, some, is_some, length,
  arith, inl, inr,
}
use majutsu.Base.Text.{Str, str_eq, str_eq_refl}
use majutsu.Cluster.{
  Bytes, ClusterPutItem, MasterWriteIntent, put, delete, BackendQueueItem, LocalGcItem, Files, Cell,
  pure, ◌>>=◌, ◌>>◌, when, len, key_is_logically_deleted, is_deletion,
}
use majutsu.Cluster.Puts.{
  update_store_bytes, ClusterPutResult, cancel_local_gc, remove_intent, put_store, has_digest,
  receipt_matches, store_item, write_intent, enqueue_and_forget, enqueue_backend_put, put_steps,
  after_intent,
}
use majutsu.Cluster.Rules.{Ends, bind_rule, write_rule, if_rule, last_rule, weaken_rule}
use majutsu.Cluster.Moves.{
  put_store-Stands, write_intent-Stands, remove_intent-Stands, has_digest_sound,
}
use majutsu.Cluster.Replay.{At, Queued, Cancelled, quota_rule, enqueue-Ends, cancel_local_gc-Ends}

-- The queue holds a put of these contents, or the backend's receipt is one of them.
unfoldable pub is_backed_up : (Bytes → Str) → Bytes → Files → Bool
unfolding receipt_matches
is_backed_up hash x f = elim f.queued [
  | some q ↦ elim q.operation [ put d s c ↦ str_eq d (hash x) | delete ↦ false ]
  | none ↦ receipt_matches (hash x) f.receipt
]

-- The master holds the bytes, a reader gets them, and they are on their way to the backend.
pub record IsDurable (hash : Bytes → Str) (x : Bytes) (f : Files) : Type 0 where
  pub stored : f.stored ≡ some x
  pub live : key_is_logically_deleted f ≡ false
  pub settled : f.intent ≡ none
  pub backed_up : is_backed_up hash x f ≡ true

module _ (hash : Bytes → Str) (i : MasterWriteIntent) where
  abbrev Stored : Option LocalGcItem → Cell → Type 0
  Stored r c =
      At hash (some i.item.bytes) c
      × (c.files.intent ≡ some i)
      × (c.files.retained ≡ r)
      × (has_digest hash (hash i.item.bytes) c.files.stored ≡ true)

  put_unless-Ends :
      (held : Bool) (r : Option LocalGcItem) (c : Cell)
      → held ≡ has_digest hash (hash i.item.bytes) c.files.stored
      → At hash (some i.item.bytes) c
      → c.files.intent ≡ some i
      → c.files.retained ≡ r
      → Ends
          (At hash (some i.item.bytes))
          (λ _ d. Stored r d)
          ((when (not held) (put_store i.item.bytes) >> pure (not held)) c)
  unfolding put_store has_digest when ◌>>=◌
  put_unless-Ends true r c e h p hr = (h, p, hr, sym e)
  put_unless-Ends false r c e h p hr =
      write_rule (At hash (some i.item.bytes)) (λ _ d. Stored r d) _ (λ _. pure true) c h
        (λ w. (
          put_store-Stands hash c.files c.serial h (ground (arith, p)) i.item.bytes,
          p,
          hr,
          str_eq_refl _,
        ))

  store_item-Ends :
      (existing : Option Bytes) (r : Option LocalGcItem) (c : Cell)
      → existing ≡ c.files.stored
      → At hash (some i.item.bytes) c
      → c.files.intent ≡ some i
      → c.files.retained ≡ r
      → Ends
          (At hash (some i.item.bytes))
          (λ _ d. Stored r d)
          (store_item hash i.item (hash i.item.bytes) existing c)
  unfolding store_item put_store has_digest when
  store_item-Ends none r c e h p hr =
      let E = At hash (some i.item.bytes) in
      let Q : Bool → Cell → Type 0 = λ _ d. Stored r d in
      let keep = put_store-Stands hash c.files c.serial h (ground (arith, p)) i.item.bytes in
      if_rule E Q i.item.conditional _ _ c
        (λ _. quota_rule E Q _ _ _ c h (write_rule E Q _ _ c h (λ w. (keep, p, hr, str_eq_refl _))))
        (λ _. quota_rule E Q _ _ _ c h (write_rule E Q _ _ c h (λ w. (keep, p, hr, str_eq_refl _))))
  store_item-Ends (some x) r c e h p hr =
      let E = At hash (some i.item.bytes) in
      let Q : Bool → Cell → Type 0 = λ _ d. Stored r d in
      let keep = put_store-Stands hash c.files c.serial h (ground (arith, p)) i.item.bytes in
      if_rule E Q i.item.conditional _ _ c
        (λ _.
          if_rule E Q (str_eq (hash x) (hash i.item.bytes)) _ _ c
            (λ s. (h, p, hr, ap (has_digest hash (hash i.item.bytes)) (sym e) ∙ s)) (λ _. h))
        (λ _. quota_rule E Q _ _ _ c h (
          put_unless-Ends (str_eq (hash x) (hash i.item.bytes)) r c
            (ap (has_digest hash (hash i.item.bytes)) e) h p hr))

  counted-Ends :
      (b : Bool) (r : Option LocalGcItem) (old new : ℕ) (c : Cell)
      → Stored r c
      → Ends
          (At hash (some i.item.bytes))
          (λ _ d. Stored r d)
          (when b (update_store_bytes old new) c)
  unfolding when update_store_bytes
  counted-Ends true r old new c h = h
  counted-Ends false r old new c h = h

  untombed-Ends :
      (r : Option LocalGcItem) (c : Cell)
      → Stored r c
      → Ends
          (At hash (some i.item.bytes))
          (λ _ d. Stored none d)
          (when (is_some r) cancel_local_gc c)
  unfolding when
  untombed-Ends none c h = h
  untombed-Ends (some r) c (h, p, hr, s) =
      let E = At hash (some i.item.bytes) in
      let Q : Unit {0} → Cell → Type 0 = λ _ d. Cancelled hash (some i.item.bytes) c.files d in
      weaken_rule E E Q (λ _ d. Stored none d) (cancel_local_gc c)
        (cancel_local_gc-Ends hash (some i.item.bytes) c h (ground (arith, p))) (λ d e. e)
        (λ _ d (h', p', _, s', r').
          (h', p' ∙ p, r', ap (has_digest hash (hash i.item.bytes)) s' ∙ s))

module _ (hash : Bytes → Str) (injective : (x y : Bytes) → hash x ≡ hash y → x ≡ y) where
  queued-IsDurable :
      (x : Bytes) (size : ℕ) (conditional : Bool) (q : BackendQueueItem) (f : Files)
      → f.queued ≡ some q
      → q.operation ≡ put (hash x) size conditional
      → f.retained ≡ none
      → has_digest hash (hash x) f.stored ≡ true
      → IsDurable hash x (record f { intent = none })
  unfolding key_is_logically_deleted is_deletion is_backed_up
  queued-IsDurable x size conditional q f hq ho hr hs = record {
    stored = has_digest_sound hash injective x f.stored hs;
    live = ground arith;
    settled = refl;
    backed_up = ground (arith, str_eq_refl (hash x));
  }

  enqueue_and_forget-Ends :
      (host : Str) (now : ℕ) (i : MasterWriteIntent) (c : Cell)
      → Stored hash i none c
      → Ends
          (At hash (some i.item.bytes))
          (λ _ d. At hash (some i.item.bytes) d × IsDurable hash i.item.bytes d.files)
          (enqueue_and_forget hash host i.item now c)
  unfolding enqueue_and_forget enqueue_backend_put remove_intent
  enqueue_and_forget-Ends host now i c (h, p, r, s) =
      let b = i.item.bytes in
      let o = put (hash b) (length b) i.item.conditional in
      let E = At hash (some b) in
      let Q : Unit {0} → Cell → Type 0 = λ _ d. At hash (some b) d × IsDurable hash b d.files in
      bind_rule E Q (λ _ d. Queued hash (some b) o c.files d) _ _ c
        (enqueue-Ends hash (some b) i.item.key host o now c h (ground (arith, p)))
        (λ _ d (h', _, r', s', (q, hq, ho)).
          let stored = ap (has_digest hash (hash b)) s' ∙ s in
          last_rule E Q _ d h' (λ w. (
            remove_intent-Stands hash injective d.files d.serial (some b) b q (length b)
                i.item.conditional h' refl (r' ∙ r) stored hq ho,
            queued-IsDurable b (length b) i.item.conditional q d.files hq ho (r' ∙ r) stored,
          )))

  -- What follows the intent of a put.
  store_and_forget-Ends :
      (f : Files) (i : MasterWriteIntent) (host : Str) (now : ℕ) (c : Cell)
      → At hash (some i.item.bytes) c
      → c.files ≡ record f { intent = some i }
      → Ends
          (At hash (some i.item.bytes))
          (λ (_ : ClusterPutResult) d.
            At hash (some i.item.bytes) d × IsDurable hash i.item.bytes d.files)
          (after_intent hash true host i.item now f c)
  unfolding after_intent when
  store_and_forget-Ends f i host now c h same =
      let b = i.item.bytes in
      let E = At hash (some b) in
      let P : Cell → Type 0 = λ d. At hash (some b) d × IsDurable hash b d.files in
      let Q : ClusterPutResult → Cell → Type 0 = λ _ d. P d in
      let S : Option LocalGcItem → Cell → Type 0 = Stored hash i in
      bind_rule E Q (λ _ d. S f.retained d) _ _ c
        (store_item-Ends hash i f.stored f.retained c (sym (ap (λ (g : Files). g.stored) same)) h
          (ap (λ (g : Files). g.intent) same) (ap (λ (g : Files). g.retained) same))
        (λ newly d st.
          bind_rule E Q (λ _ d. S f.retained d) _ _ d
            (counted-Ends hash i newly f.retained (len f.stored) (length b) d st)
            (λ _ d st.
              bind_rule E Q (λ _ d. S none d) _ _ d (untombed-Ends hash i f.retained d st)
                (λ _ d st.
                  bind_rule E Q (λ _ d. P d) _ _ d (enqueue_and_forget-Ends host now i d st)
                    (λ _ _ z. z))))

  -- A put that has to reach the backend.
  pub backed_put-Ends :
      (v : Option Bytes) (host : Str) (item : ClusterPutItem) (now : ℕ) (c : Cell)
      → At hash v c
      → Ends
          (λ d. At hash v d ⊎ At hash (some item.bytes) d)
          (λ (_ : ClusterPutResult) d.
            At hash (some item.bytes) d × IsDurable hash item.bytes d.files)
          (put_steps hash true host item now c.files c)
  unfolding put_steps write_intent when
  backed_put-Ends v host item now c h =
      let w = some item.bytes in
      let i : MasterWriteIntent = record { version = 1; source_host = host; item = item } in
      let E : Cell → Type 0 = λ d. At hash v d ⊎ At hash w d in
      let Q : ClusterPutResult → Cell → Type 0 =
        λ _ d. At hash w d × IsDurable hash item.bytes d.files in
      let F : Unit {0} → Cell → Type 0 =
        λ _ d. At hash w d × (d.files ≡ record c.files { intent = some i }) in
      bind_rule E Q F _ _ c
        (quota_rule E F _ _ _ c (inl h)
          (last_rule E F _ c (inl h) (λ n. (write_intent-Stands hash c.files c.serial h i, refl))))
        (λ _ d (h', same).
          weaken_rule (At hash w) E Q Q (after_intent hash true host item now c.files d)
            (store_and_forget-Ends c.files i host now d h' same) (λ _. inr) (λ _ _ z. z))
