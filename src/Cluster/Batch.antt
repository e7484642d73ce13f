-- ===== src/Cluster/Batch.antt =====
-- `process_puts` of src/cluster_runtime.rs for the items of a request, over the directories of all keys. The
-- generations of a key count by themselves: only those of one key are ever compared.
use mathlib.Core.Path.{subst}
use majutsu.Base.{
  ℕ, ◌≡◌, refl, sym, ◌∙◌, Option, none, some, List, [], ◌∷◌, if◌then◌else◌, inl, inr, Bool-cases,
}
use majutsu.Base.Text.{Str, str_eq}
use majutsu.Cluster.{Bytes, ClusterPutItem, Files, Cell, Result, ok, err}
use majutsu.Cluster.Puts.{ClusterPutResult, process_put}
use majutsu.Cluster.Fine.{IsFine}
use majutsu.Cluster.Acknowledged.{IsDurable}
use majutsu.Cluster.Promises.{contents-process_put, process_put-IsDurable}

pub record Master : Type 0 where
  pub files : Str → Files
  pub serials : Str → ℕ
  pub store_bytes : ℕ
  pub store_max_bytes : Option ℕ
  pub writes : ℕ

-- What an operation on a key sees of the master, and what it leaves of it.
unfoldable pub load : Str → Master → Cell
load key m = record {
  files = m.files key;
  store_bytes = m.store_bytes;
  store_max_bytes = m.store_max_bytes;
  serial = m.serials key;
  writes = m.writes;
}

unfoldable pub save : Str → Cell → Master → Master
save key c m = record {
  files = λ k. if str_eq key k then c.files else m.files k;
  serials = λ k. if str_eq key k then c.serial else m.serials k;
  store_bytes = c.store_bytes;
  store_max_bytes = c.store_max_bytes;
  writes = c.writes;
}

-- The result of the first item before those of the others.
unfoldable pub with_first :
    ClusterPutResult
    → Result (List ClusterPutResult) × Master
    → Result (List ClusterPutResult) × Master
with_first r (ok rs, m) = (ok (r ∷ rs), m)
with_first r (err e, m) = (err e, m)

module _ (hash : Bytes → Str) (host : Str) (now : ℕ) where
  unfoldable pub put_then :
      Str
      → (Master → Result (List ClusterPutResult) × Master)
      → Result ClusterPutResult × Cell
      → Master
      → Result (List ClusterPutResult) × Master
  unfolding with_first save
  put_then key rest (ok r, c) m = with_first r (rest (save key c m))
  put_then key rest (err e, c) m = (err e, save key c m)

  unfoldable pub process_puts :
      List ClusterPutItem → Master → Result (List ClusterPutResult) × Master
  unfolding put_then load
  process_puts [] m = (ok [], m)
  process_puts (item ∷ items) m =
      put_then item.key (process_puts items) (process_put hash host item now (load item.key m)) m

-- The bytes that the last put of a key in the request has.
unfoldable pub last_put : Str → List ClusterPutItem → Option Bytes
last_put key [] = none
last_put key (item ∷ items) = elim (last_put key items) [
  | some x ↦ some x
  | none ↦ if str_eq item.key key then some item.bytes else none
]

-- A key of the request has the bytes of its last put, durable; any other key's files are as they were.
abbrev pub IsPut : (Bytes → Str) → Option Bytes → Files → Files → Type 0
IsPut hash none f g = g ≡ f
IsPut hash (some x) f g = IsDurable hash x g

module _ (hash : Bytes → Str) (injective : (x y : Bytes) → hash x ≡ hash y → x ≡ y) (host : Str)
    (now : ℕ) where
  AllFine : Master → Type 0
  AllFine m = (key : Str) → IsFine hash (m.files key) (m.serials key)

  save-AllFine :
      (key : Str) (c : Cell) (m : Master)
      → AllFine m
      → IsFine hash c.files c.serial
      → AllFine (save key c m)
  unfolding AllFine save
  save-AllFine key c m all fine k = elim (Bool-cases (str_eq key k)) [
    | inl e ↦ rw (e, save) fine
    | inr e ↦ rw (e, save) (all k)
  ]

  -- What the rest of a request does, from any state.
  abbrev Does : (Master → Result (List ClusterPutResult) × Master) → (Str → Option Bytes) → Type 0
  Does rest puts =
      (m : Master)
      → AllFine m
      → AllFine (rest m).1
        × ((rs : List ClusterPutResult)
            → (rest m).0 ≡ ok rs
            → (key : Str) → IsPut hash (puts key) (m.files key) ((rest m).1.files key))

  with_first_ok :
      (r : ClusterPutResult) (q : Result (List ClusterPutResult) × Master)
      (rs : List ClusterPutResult)
      → (with_first r q).0 ≡ ok rs
      → (rs' : List ClusterPutResult) × (q.0 ≡ ok rs')
  unfolding with_first
  with_first_ok r (ok rs', m) rs h = (rs', refl)
  with_first_ok r (err e, m) rs h = absurd (cc h)

  with_first_state :
      (r : ClusterPutResult) (q : Result (List ClusterPutResult) × Master)
      → (with_first r q).1 ≡ q.1
  unfolding with_first
  with_first_state r (ok rs', m) = refl
  with_first_state r (err e, m) = refl

  -- The first put, as the rest sees it.
  IsPut-or :
      (x : Bytes) (later : Option Bytes) (at key : Str) (c : Cell) (m : Master) (g : Files)
      → IsDurable hash x c.files
      → IsPut hash later ((save at c m).files key) g
      → IsPut hash
          (elim later [ some y ↦ some y | none ↦ if str_eq at key then some x else none ])
          (m.files key)
          g
  unfolding save
  IsPut-or x (some y) at key c m g first h = h
  IsPut-or x none at key c m g first h = elim (Bool-cases (str_eq at key)) [
    | inl e ↦ rw e (subst (IsDurable hash x) (sym (h ∙ rw e)) first)
    | inr e ↦ rw e (h ∙ rw e)
  ]

  put_then-Does :
      (item : ClusterPutItem) (items : List ClusterPutItem)
      (rest : Master → Result (List ClusterPutResult) × Master) (q : Result ClusterPutResult × Cell)
      (m : Master)
      → Does rest (λ key. last_put key items)
      → AllFine m
      → IsFine hash q.1.files q.1.serial
      → ((r : ClusterPutResult) → q.0 ≡ ok r → IsDurable hash item.bytes q.1.files)
      → AllFine (put_then hash host now item.key rest q m).1
        × ((rs : List ClusterPutResult)
            → (put_then hash host now item.key rest q m).0 ≡ ok rs
            → (key : Str)
            → IsPut hash
                (last_put key (item ∷ items))
                (m.files key)
                ((put_then hash host now item.key rest q m).1.files key))
  unfolding put_then last_put
  put_then-Does item items rest (err e, c) m does all fine durable =
      (save-AllFine item.key c m all fine, λ rs h key. absurd (cc h))
  put_then-Does item items rest (ok r, c) m does all fine durable =
      let m' = save item.key c m in
      let (all', puts) = does m' (save-AllFine item.key c m all fine) in
      let same = sym (with_first_state r (rest m')) in
      (
        subst AllFine same all',
        λ rs h key.
            subst (λ n. IsPut hash (last_put key (item ∷ items)) (m.files key) (n.files key)) same
              (IsPut-or item.bytes (last_put key items) item.key key c m ((rest m').1.files key)
                (durable r refl) (let (rs', e) = with_first_ok r (rest m') rs h in puts rs' e key)),
      )

  process_puts-Does :
      (items : List ClusterPutItem)
      → Does (process_puts hash host now items) (λ key. last_put key items)
  unfolding process_puts last_put load AllFine
  process_puts-Does [] m all = (all, λ rs h key. refl)
  process_puts-Does (item ∷ items) m all =
      put_then-Does item items (process_puts hash host now items)
        (process_put hash host item now (load item.key m)) m (process_puts-Does items) all
        (contents-process_put hash injective host item now (load item.key m) (all item.key)).0
        (λ r e.
          process_put-IsDurable hash injective host item now (load item.key m) r (all item.key) e)

  -- A request of several puts that is acknowledged has stored each of its keys and nothing else: a key of the
  -- request has the bytes of the last put of it, durable (stored, not deleted, with no intent, queued for the
  -- backend or covered by its receipt), and the files of any other key are as they were. The files of every
  -- key are fine before, and no two contents have one hash.
  pub process_puts-IsPut :
      (items : List ClusterPutItem) (m : Master) (rs : List ClusterPutResult) (key : Str)
      → ((k : Str) → IsFine hash (m.files k) (m.serials k))
      → (process_puts hash host now items m).0 ≡ ok rs
      → IsPut hash
          (last_put key items)
          (m.files key)
          ((process_puts hash host now items m).1.files key)
  unfolding AllFine
  process_puts-IsPut items m rs key fine e = (process_puts-Does items m fine).1 rs e key
