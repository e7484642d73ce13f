-- ===== src/UploadQueue/Backoff.antt =====
-- How long an upload that failed waits.
use majutsu.Base.{ℕ, zero, suc, ◌+◌, ◌-◌, ◌^◌, ◌≤◌, min, arith}
use majutsu.UploadQueue.{retry_backoff_secs, next_retry_after}

one_le_pow : (k : ℕ) → 1 ≤ 2 ^ k
one_le_pow zero = omega arith
one_le_pow (suc k) = omega (arith, one_le_pow k)

retry_backoff_secs-bounds :
    (attempts : ℕ) → (5 ≤ retry_backoff_secs attempts) × (retry_backoff_secs attempts ≤ 300)
unfolding retry_backoff_secs
retry_backoff_secs-bounds attempts =
    let p = one_le_pow (min (attempts - 1) 6) in (omega (arith, p), omega arith)

-- A failed upload waits four seconds at least and six minutes at most, after however many attempts and
-- with whatever random number.
pub next_retry_after-bounds :
    (now random attempts : ℕ)
    → (now + 4 ≤ next_retry_after now random attempts)
      × (next_retry_after now random attempts ≤ now + 360)
unfolding next_retry_after
next_retry_after-bounds now random attempts =
    let (low, high) = retry_backoff_secs-bounds attempts in
    (omega (arith, low, high), omega (arith, low, high))
