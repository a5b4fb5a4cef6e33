-- ===== src/RateLimit/Bucket/Laws.antt =====
-- What each operation of a bucket does to its tokens.
use caas_lite.Prelude.{ℕ, ◌*◌, ◌≡◌}
use caas_lite.Prelude.{arith}
use caas_lite.Prelude.Int.{pos, ◌≤ℤ◌, int_laws, min_ℤ_le}
use caas_lite.RateLimit.Bucket.{TokenBucket, unit, new, refill, consume}

-- Never more tokens than the capacity.
abbrev pub IsBounded : TokenBucket → Type 0
IsBounded b = b.tokens ≤ℤ pos (b.capacity * unit)

pub new-IsBounded : (now cap rpm : ℕ) → IsBounded (new now cap rpm)
unfolding new
new-IsBounded now cap rpm = omega arith

pub refill-IsBounded : (now : ℕ) (b : TokenBucket) → IsBounded (refill now b)
unfolding refill
refill-IsBounded now b = (min_ℤ_le (pos (b.capacity * unit)) _).0

pub refill_fields :
    (now : ℕ) (b : TokenBucket)
    → ((refill now b).last_refill_ms ≡ now)
      × ((refill now b).requests_per_minute ≡ b.requests_per_minute)
      × ((refill now b).capacity ≡ b.capacity)
unfolding refill
refill_fields now b = ground arith

-- Whatever the clock does, a bucket holds at most its capacity after a request, and the request
-- leaves capacity and rate as they were.
pub consume-IsBounded :
    (now : ℕ) (b : TokenBucket)
    → IsBounded (consume now b).1
      × ((consume now b).1.capacity ≡ b.capacity)
      × ((consume now b).1.requests_per_minute ≡ b.requests_per_minute)
unfolding consume
consume-IsBounded now b = grind (int_laws, refill-IsBounded now b, refill_fields now b)
