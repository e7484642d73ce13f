-- ===== src/Large/Pipeline.antt =====
-- The parallel restore of a large file: `write_large_chunks_atomic_pipelined` of src/main.rs. Workers take
-- chunks by a shared counter, read them, and send them through a bounded channel; the receiver keeps
-- what comes early and writes the chunks in order. A state is one of the whole system, and a step one of
-- one thread, in any order. A poisoned lock, a panic of a worker and an error of the file that is written
-- are left out.
mod Tests
mod Output
mod Cover
mod Progress
mod Restore
mod Stuck
mod Whole
use majutsu.Base.{
  ℕ, zero, suc, ◌+◌, ◌≤◌, ◌<◌, ◌≡◌, Bool, true, false, not, ◌&&◌, ◌||◌, Option, none, some, List,
  [], ◌∷◌, ◌++◌, ◌==◌, if◌then◌else◌, length, all,
}

-- Where a worker stands: it looks for a chunk, reads one, has bytes or an error to send, or is gone.
pub data Worker : Type 0 where
  idle stopped : Worker
  reading : (index : ℕ) → Worker
  holding : (index : ℕ) (result : Option (List ℕ)) → Worker

pub data Receiver : Type 0 where
  running : Receiver
  closed : (written : Bool) → Receiver

pub record Pipeline : Type 0 where
  pub next : ℕ
  pub workers : List Worker
  pub channel : List (Option (ℕ × List ℕ))
  pub pending : List (ℕ × List ℕ)
  pub next_write : ℕ
  pub out : List ℕ
  pub receiver : Receiver

abbrev pub is_stopped : Worker → Bool
is_stopped stopped = true
is_stopped idle = false
is_stopped (reading i) = false
is_stopped (holding i r) = false

-- What a worker sends, and where it stands behind it.
abbrev pub message : ℕ → Option (List ℕ) → Option (ℕ × List ℕ)
message i none = none
message i (some bytes) = some (i, bytes)

abbrev pub after_send : Option (List ℕ) → Worker
after_send none = stopped
after_send (some bytes) = idle

-- The `BTreeMap` of what came early.
pub find_pending : ℕ → List (ℕ × List ℕ) → Option (List ℕ)
find_pending i [] = none
find_pending i ((j, bytes) ∷ pending) = if i == j then some bytes else find_pending i pending

pub remove_pending : ℕ → List (ℕ × List ℕ) → List (ℕ × List ℕ)
remove_pending i [] = []
remove_pending i ((j, bytes) ∷ pending) =
    let rest = remove_pending i pending in if i == j then rest else (j, bytes) ∷ rest

pub insert_pending : ℕ → List ℕ → List (ℕ × List ℕ) → List (ℕ × List ℕ)
insert_pending i bytes pending = (i, bytes) ∷ remove_pending i pending

-- `while let Some(bytes) = pending.remove(&next_write)`; a round takes one entry at least.
pub drain : ℕ → Pipeline → Pipeline
drain zero s = s
drain (suc fuel) s = elim (find_pending s.next_write s.pending) [
  | none ↦ s
  | some bytes ↦ drain fuel (record s {
    pending = remove_pending s.next_write s.pending;
    next_write = s.next_write + 1;
    out = s.out ++ bytes;
  })
]

pub receive : Option (ℕ × List ℕ) → Pipeline → Pipeline
receive none s = record s { receiver = closed false }
receive (some (i, bytes)) s =
    let pending = insert_pending i bytes s.pending in
    drain (suc (length pending)) (record s { pending = pending })

abbrev pub idle_workers : ℕ → List Worker
idle_workers zero = []
idle_workers (suc k) = idle ∷ idle_workers k

abbrev pub initial : ℕ → Pipeline
initial parallelism = record {
  next = 0;
  workers = idle_workers parallelism;
  channel = [];
  pending = [];
  next_write = 0;
  out = [];
  receiver = running;
}

-- `read` reads the chunk with an index, `chunks` is their number, `capacity` that of the channel.
module _ (read : ℕ → Option (List ℕ)) (chunks capacity : ℕ) where
  pub data Step (s : Pipeline) : Pipeline → Type 0 where
    take_chunk :
        (before after : List Worker)
        → s.workers ≡ before ++ (idle ∷ after)
        → s.next < chunks
        → Step s (record s { next = s.next + 1; workers = before ++ (reading s.next ∷ after) })
    leave :
        (before after : List Worker)
        → s.workers ≡ before ++ (idle ∷ after)
        → chunks ≤ s.next
        → Step s (record s { workers = before ++ (stopped ∷ after) })
    read_chunk :
        (before after : List Worker) (i : ℕ)
        → s.workers ≡ before ++ (reading i ∷ after)
        → Step s (record s { workers = before ++ (holding i (read i) ∷ after) })
    send :
        (before after : List Worker) (i : ℕ) (result : Option (List ℕ))
        → s.receiver ≡ running
        → length s.channel < capacity
        → s.workers ≡ before ++ (holding i result ∷ after)
        → Step s (record s {
          workers = before ++ (after_send result ∷ after);
          channel = s.channel ++ (message i result ∷ []);
        })
    give_up :
        (before after : List Worker) (i : ℕ) (result : Option (List ℕ)) (written : Bool)
        → s.receiver ≡ closed written
        → s.workers ≡ before ++ (holding i result ∷ after)
        → Step s (record s { workers = before ++ (stopped ∷ after) })
    receive_one :
        (m : Option (ℕ × List ℕ)) (rest : List (Option (ℕ × List ℕ)))
        → s.receiver ≡ running
        → s.channel ≡ m ∷ rest
        → Step s (receive m (record s { channel = rest }))
    finish :
        s.receiver ≡ running
        → s.channel ≡ []
        → all is_stopped s.workers ≡ true
        → Step s (record s { receiver = closed (s.next_write == chunks) })

  -- The states behind `k` steps from `s`.
  pub data Steps (s : Pipeline) : ℕ → Pipeline → Type 0 where
    here : Steps s 0 s
    later : {k : ℕ} {t u : Pipeline} → Steps s k t → Step t u → Steps s (suc k) u
