-- ===== src/Cluster/Repeated.antt =====
-- A put of bytes that are stored and backed up already, which writes nothing.
use majutsu.Base.{ℕ, ◌≡◌, Bool, true, false, Option, none, some, is_some, length, arith}
use majutsu.Base.Text.{Str, str_eq}
use majutsu.Cluster.{
  Bytes, ClusterPutItem, LocalGcItem, Files, Cell, ◌>>=◌, when, len, key_is_logically_deleted,
  is_deletion,
}
use majutsu.Cluster.Puts.{
  update_store_bytes, ClusterPutResult, cancel_local_gc, has_digest, store_item, is_backup_needed,
  put_steps, after_intent,
}
use majutsu.Cluster.Rules.{Ends, bind_rule, if_rule}
use majutsu.Cluster.Fine.{Stands, contents}
use majutsu.Cluster.Moves.{has_digest_sound}
use majutsu.Cluster.Replay.{At, quota_rule}
use majutsu.Cluster.Acknowledged.{IsDurable, is_backed_up}

module _ (hash : Bytes → Str) (injective : (x y : Bytes) → hash x ≡ hash y → x ≡ y) where
  -- A put of what is stored and backed up already.
  repeated-IsDurable :
      (x : Bytes) (f : Files)
      → f.intent ≡ none
      → is_backup_needed hash (hash x) f ≡ false
      → IsDurable hash x f
  unfolding is_backup_needed key_is_logically_deleted is_deletion is_backed_up
  repeated-IsDurable x f e h = record {
    stored = has_digest_sound hash injective x f.stored (ground (arith, h));
    live = ground (arith, h);
    settled = e;
    backed_up = ground (arith, h);
  }

  contents-IsDurable : (x : Bytes) (f : Files) → IsDurable hash x f → contents f ≡ some x
  unfolding contents
  contents-IsDurable x f d = ground (arith, d.stored, d.live, d.settled)

  module _ (E : Cell → Type 0) (P : Files → ℕ → Type 0) (item : ClusterPutItem) where
    held-Ends :
        (existing : Option Bytes) (c : Cell)
        → has_digest hash (hash item.bytes) existing ≡ true
        → E c
        → P c.files c.serial
        → Ends E (λ _ d. P d.files d.serial) (store_item hash item (hash item.bytes) existing c)
    unfolding store_item has_digest when ◌>>=◌
    held-Ends none c h e p = absurd (cc h)
    held-Ends (some x) c h e p =
        let Q : Bool → Cell → Type 0 = λ _ d. P d.files d.serial in
        if_rule E Q item.conditional _ _ c
          (λ _. if_rule E Q (str_eq (hash x) (hash item.bytes)) _ _ c (λ _. p) (λ _. e))
          (λ _. quota_rule E Q _ _ _ c e (rw h p))

    same-Ends :
        (b : Bool) (old new : ℕ) (c : Cell)
        → P c.files c.serial
        → Ends E (λ _ d. P d.files d.serial) (when b (update_store_bytes old new) c)
    unfolding when update_store_bytes
    same-Ends true old new c p = p
    same-Ends false old new c p = p

    tombless-Ends :
        (o : Option LocalGcItem) (c : Cell)
        → is_some o ≡ false
        → P c.files c.serial
        → Ends E (λ _ d. P d.files d.serial) (when (is_some o) cancel_local_gc c)
    unfolding when
    tombless-Ends none c h p = p
    tombless-Ends (some r) c h p = absurd (cc h)

  needed_parts :
      (digest : Str) (f : Files)
      → is_backup_needed hash digest f ≡ false
      → (has_digest hash digest f.stored ≡ true) × (is_some f.retained ≡ false)
  unfolding is_backup_needed
  needed_parts digest f h = ground (arith, h)

  repeated_after-Ends :
      (v : Option Bytes) (host : Str) (item : ClusterPutItem) (now : ℕ) (c : Cell)
      → At hash v c
      → c.files.intent ≡ none
      → is_backup_needed hash (hash item.bytes) c.files ≡ false
      → Ends
          (At hash v)
          (λ (_ : ClusterPutResult) d.
            At hash (some item.bytes) d × IsDurable hash item.bytes d.files)
          (after_intent hash false host item now c.files c)
  unfolding after_intent when
  repeated_after-Ends v host item now c h e n =
      let durable = repeated-IsDurable item.bytes c.files e n in
      let P : Files → ℕ → Type 0 =
        λ f m. Stands hash (some item.bytes) f m × IsDurable hash item.bytes f in
      let Q : ClusterPutResult → Cell → Type 0 = λ _ d. P d.files d.serial in
      let E = At hash v in
      let p : P c.files c.serial =
        ((h.0, contents-IsDurable item.bytes c.files durable), durable) in
      let (held, untombed) = needed_parts (hash item.bytes) c.files n in
      bind_rule E Q (λ _ d. P d.files d.serial) _ _ c (held-Ends E P item c.files.stored c held h p)
        (λ newly d q.
          bind_rule E Q (λ _ d. P d.files d.serial) _ _ d
            (same-Ends E P item newly (len c.files.stored) (length item.bytes) d q)
            (λ _ d q.
              bind_rule E Q (λ _ d. P d.files d.serial) _ _ d
                (tombless-Ends E P item c.files.retained d untombed q)
                (λ _ d q. bind_rule E Q (λ _ d. P d.files d.serial) _ _ d q (λ _ d q. q))))

  pub repeated_put-Ends :
      (v : Option Bytes) (host : Str) (item : ClusterPutItem) (now : ℕ) (c : Cell)
      → At hash v c
      → c.files.intent ≡ none
      → is_backup_needed hash (hash item.bytes) c.files ≡ false
      → Ends
          (At hash v)
          (λ (_ : ClusterPutResult) d.
            At hash (some item.bytes) d × IsDurable hash item.bytes d.files)
          (put_steps hash false host item now c.files c)
  unfolding put_steps when ◌>>=◌
  repeated_put-Ends v host item now c h e n = repeated_after-Ends v host item now c h e n
