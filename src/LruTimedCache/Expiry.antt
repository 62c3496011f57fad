-- ===== src/LruTimedCache/Expiry.antt =====
-- How long an entry of an LRUTimedCache lives.
use ezbake_common.Common.{ℕ, ◌+◌, ◌*◌, ◌/◌, ◌^◌, ◌≤◌, ◌<◌, ◌≡◌, ◌≢◌, true, false, arith}
use ezbake_common.LruTimedCache.{stamp, expired, microseconds, ticks, epoch_ticks, end_of_dates}

-- A date that a ptime holds does not wrap around.
ticks_of_lt : (x : ℕ) → x < end_of_dates → ticks x ≡ x + (epoch_ticks + 2 ^ 63)
unfolding ticks
ticks_of_lt x h = omega arith

-- With an expiration of `expiration` seconds, of which the end after a put is a date that a ptime
-- holds, an entry that is put at `put` has expired after that many seconds, and has not while less
-- than that many seconds less one have passed. Between the two the fraction of the second at which
-- it was put decides.
pub expired-stamp {ℓ} :
    {V : Type ℓ} (expiration put now : ℕ) (v : V)
    → expiration ≢ 0
    → put + expiration * microseconds < end_of_dates
    → now < end_of_dates
    → (put + expiration * microseconds ≤ now
        → expired expiration now (stamp put v).timestamp ≡ true)
      × (now + microseconds ≤ put + expiration * microseconds
          → expired expiration now (stamp put v).timestamp ≡ false)
unfolding expired stamp
expired-stamp expiration put now v h bound date =
    let a = ticks_of_lt ((put / microseconds + expiration) * microseconds) (omega arith) in
    let b = ticks_of_lt now date in (λ p. ground arith, λ p. ground arith)
