-- ===== src/Large/Pipeline/Tests.antt =====
-- A parallel restore of two chunks by two workers, of which the second chunk comes first.
use majutsu.Base.{ℕ, ◌+◌, ◌≤◌, ◌*◌, ◌≡◌, refl, true, some, Option, List, [], ◌∷◌, ◌++◌, arith}
use majutsu.Base.Text.{codes, str_eq, has_char, starts_with, split}
use majutsu.Base.Maps.{lookup}
use majutsu.ObjectKey.{is_unsafe_part, validate_local_object_key}
use majutsu.Crypto.{decode_object, decode_legacy_envelope, decode_legacy_envelope_with_key_hex}
use majutsu.Crypto.Envelope.{object_envelope}
use majutsu.Large.Compress.{decode_large_chunk_payload}
use majutsu.Large.Object.{LargeChunk, read_object_raw, read_large_chunk, write_large_chunks}
use majutsu.Large.Object.Tests.{platform, hi_home, hi_key}
use majutsu.Large.Pipeline.{
  Pipeline, closed, idle, stopped, reading, initial, find_pending, remove_pending, insert_pending,
  drain, receive, Steps, take_chunk, leave, read_chunk, send, receive_one, finish, here, later,
}
use majutsu.Large.Pipeline.Progress.{Steps-bounded}
use majutsu.Large.Pipeline.Stuck.{all-stuck}
use majutsu.Large.Pipeline.Restore.{read_at, write-Steps, Steps-write}

abbrev hi_chunk : ℕ → LargeChunk
hi_chunk i = record {
  index = i;
  offset = i * 2;
  len = 2;
  stored_len = some 2;
  compression = codes "zstd";
  oid = codes "hhx";
  object_key = hi_key;
}

abbrev two_chunks : List LargeChunk
two_chunks = hi_chunk 0 ∷ (hi_chunk 1 ∷ [])

abbrev two_read : ℕ → Option (List ℕ)
two_read = read_at platform hi_home two_chunks

abbrev hi : List ℕ
hi = codes "hi"

abbrev ended : Pipeline
ended = record {
  next = 2;
  workers = stopped ∷ (stopped ∷ []);
  channel = [];
  pending = [];
  next_write = 2;
  out = hi ++ hi;
  receiver = closed true;
}

hi_read : (i : ℕ) (c : LargeChunk) → c ≡ hi_chunk i → read_large_chunk platform hi_home c ≡ some hi
unfolding read_large_chunk read_object_raw lookup str_eq validate_local_object_key has_char
    starts_with split is_unsafe_part object_envelope decode_object decode_legacy_envelope
    decode_legacy_envelope_with_key_hex decode_large_chunk_payload
hi_read i c e = rw e refl

hi_written : write_large_chunks platform hi_home two_chunks ≡ some (hi ++ hi)
unfolding write_large_chunks
hi_written = rw (hi_read 0 (hi_chunk 0) refl, hi_read 1 (hi_chunk 1) refl)

run : Steps two_read 2 4 (initial 2) 11 ended
unfolding read_at read_large_chunk read_object_raw lookup str_eq validate_local_object_key has_char
    starts_with split is_unsafe_part object_envelope decode_object decode_legacy_envelope
    decode_legacy_envelope_with_key_hex decode_large_chunk_payload find_pending remove_pending
    insert_pending drain receive
run =
    later
      (later
        (later
          (later
            (later
              (later
                (later
                  (later
                    (later
                      (later (later here (take_chunk [] (idle ∷ []) refl (omega arith)))
                        (take_chunk (reading 0 ∷ []) [] refl (omega arith)))
                      (read_chunk (reading 0 ∷ []) [] 1 refl))
                    (send (reading 0 ∷ []) [] 1 (some hi) refl (omega arith) refl))
                  (receive_one (some (1, hi)) [] refl refl))
                (leave (reading 0 ∷ []) [] refl (omega arith)))
              (read_chunk [] (stopped ∷ []) 0 refl))
            (send [] (stopped ∷ []) 0 (some hi) refl (omega arith) refl))
          (receive_one (some (0, hi)) [] refl refl))
        (leave [] (stopped ∷ []) refl (omega arith)))
      (finish refl refl refl)

Steps-bounded_example : 11 ≤ 4 * 2 + 2 + 1
Steps-bounded_example = Steps-bounded 2 two_read 4 2 11 ended run

write-Steps_example : write_large_chunks platform hi_home two_chunks ≡ some (codes "hihi")
write-Steps_example = write-Steps platform hi_home two_chunks 4 2 11 ended run refl

Steps-write_example : (ended.receiver ≡ closed true) × (ended.out ≡ codes "hihi")
Steps-write_example =
    Steps-write platform hi_home two_chunks (codes "hihi") 4 2 11 ended hi_written (omega arith)
      (omega arith) run (all-stuck two_read 2 4 true ended refl refl)
