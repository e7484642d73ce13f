-- ===== src/Cluster/Outcome.antt =====
-- A put from the recovery of an earlier intent to its result, wherever it stops.
use majutsu.Base.{ℕ, ◌≡◌, ◌⊎◌, refl, Bool, true, false, not, ◌&&◌, Option, none, some, is_some, inl}
use majutsu.Base.Text.{Str}
use majutsu.Cluster.{Bytes, ClusterPutItem, Cell, fail, digest_collision}
use majutsu.Cluster.Puts.{
  ClusterPutResult, has_digest, is_backup_needed, put_steps, store_and_enqueue, process_put,
  recover_master_write_intent_for_key,
}
use majutsu.Cluster.Rules.{Ends, bind_rule, if_rule, weaken_rule}
use majutsu.Cluster.Replay.{At, recover-Ends}
use majutsu.Cluster.Acknowledged.{IsDurable, backed_put-Ends}
use majutsu.Cluster.Repeated.{repeated_put-Ends}

module _ (hash : Bytes → Str) (injective : (x y : Bytes) → hash x ≡ hash y → x ≡ y) where
  put_steps-Ends :
      (needed : Bool) (v : Option Bytes) (host : Str) (item : ClusterPutItem) (now : ℕ) (c : Cell)
      → At hash v c
      → c.files.intent ≡ none
      → is_backup_needed hash (hash item.bytes) c.files ≡ needed
      → Ends
          (λ d. At hash v d ⊎ At hash (some item.bytes) d)
          (λ (_ : ClusterPutResult) d.
            At hash (some item.bytes) d × IsDurable hash item.bytes d.files)
          (put_steps hash needed host item now c.files c)
  put_steps-Ends true v host item now c h e n = backed_put-Ends hash injective v host item now c h
  put_steps-Ends false v host item now c h e n =
      let E : Cell → Type 0 = λ d. At hash v d ⊎ At hash (some item.bytes) d in
      let Q : ClusterPutResult → Cell → Type 0 =
        λ _ d. At hash (some item.bytes) d × IsDurable hash item.bytes d.files in
      weaken_rule (At hash v) E Q Q (put_steps hash false host item now c.files c)
        (repeated_put-Ends hash injective v host item now c h e n) (λ _. inl) (λ _ _ z. z)

  -- A put, wherever it stops: the files are fine and stand for the contents before it or for its bytes; and
  -- when it returns, for its bytes, which are durable.
  pub process_put-Ends :
      (v : Option Bytes) (host : Str) (item : ClusterPutItem) (now : ℕ) (c : Cell)
      → At hash v c
      → Ends
          (λ d. At hash v d ⊎ At hash (some item.bytes) d)
          (λ (_ : ClusterPutResult) d.
            At hash (some item.bytes) d × IsDurable hash item.bytes d.files)
          (process_put hash host item now c)
  unfolding process_put store_and_enqueue
  process_put-Ends v host item now c h =
      let E : Cell → Type 0 = λ d. At hash v d ⊎ At hash (some item.bytes) d in
      let Q : ClusterPutResult → Cell → Type 0 =
        λ _ d. At hash (some item.bytes) d × IsDurable hash item.bytes d.files in
      let R : Unit {0} → Cell → Type 0 = λ _ d. At hash v d × (d.files.intent ≡ none) in
      bind_rule E Q R _ _ c
        (weaken_rule (At hash v) E R R (recover_master_write_intent_for_key hash item.key now c)
          (recover-Ends hash injective v item.key now c h) (λ _. inl) (λ _ _ z. z))
        (λ _ d (h', e).
          let test =
            item.conditional
            && not (has_digest hash (hash item.bytes) d.files.stored)
            && is_some d.files.stored in
          let steps =
            put_steps hash (is_backup_needed hash (hash item.bytes) d.files) host item now
              d.files in
          if_rule E Q test (fail digest_collision) steps d (λ _. inl h')
            (λ _.
              put_steps-Ends (is_backup_needed hash (hash item.bytes) d.files) v host item now d h'
                e refl))
