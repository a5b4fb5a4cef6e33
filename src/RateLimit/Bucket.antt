-- ===== src/RateLimit/Bucket.antt =====
-- `TokenBucket` of src/middleware/rateLimiter.ts. Tokens are counted in sixty-thousandths, in which
-- a refill of `elapsed * requestsPerMinute / 60000` tokens is a whole number: the doubles of the
-- source are taken as exact. Clock readings are milliseconds, and may run backwards.
pub mod Laws
pub mod Admission
use caas_lite.Prelude.{ℕ, ◌+◌, ◌*◌, ◌/◌, ◌-◌, Bool, true, false, Option, none, some}
use caas_lite.Prelude.{if◌then◌else◌, ◌==◌}
use caas_lite.Prelude.Int.{ℤ, pos, negsuc, ◌+ℤ◌, ◌-ℤ◌, scale, leb_ℤ, min_ℤ, pos_part, neg_part}

-- One token, and a token's worth of milliseconds at one request a minute.
abbrev pub unit : ℕ
unit = 60000

pub record TokenBucket : Type 0 where
  pub tokens : ℤ
  pub last_refill_ms : ℕ
  pub capacity : ℕ
  pub requests_per_minute : ℕ

-- The constructor: a new bucket is full.
unfoldable pub new : ℕ → ℕ → ℕ → TokenBucket
new now capacity rpm = record {
  tokens = pos (capacity * unit);
  last_refill_ms = now;
  capacity = capacity;
  requests_per_minute = rpm;
}

unfoldable pub refill : ℕ → TokenBucket → TokenBucket
refill now b =
    let elapsed = pos now -ℤ pos b.last_refill_ms in
    let added = scale elapsed b.requests_per_minute in
    record b { tokens = min_ℤ (pos (b.capacity * unit)) (b.tokens +ℤ added); last_refill_ms = now }

-- `consume(1)`, the only count that the program asks for.
unfoldable pub consume : ℕ → TokenBucket → Bool × TokenBucket
consume now b =
    let b' = refill now b in
    if leb_ℤ (pos unit) b'.tokens
    then (true, record b' { tokens = b'.tokens -ℤ pos unit })
    else (false, b')

-- `Math.floor` of a count of tokens.
unfoldable pub floor_tokens : ℤ → ℤ
floor_tokens (pos n) = pos (n / unit)
floor_tokens (negsuc n) = negsuc (n / unit)

-- The `remaining` getter refills first.
unfoldable pub remaining : ℕ → TokenBucket → ℤ × TokenBucket
unfolding floor_tokens
remaining now b = let b' = refill now b in (floor_tokens b'.tokens, b')

-- `Math.ceil(a / b)` for `b > 0`.
ceil_div : ℕ → ℕ → ℕ
ceil_div a b = (a + b - 1) / b

-- `none` is the `Infinity` that a rate of zero gives.
unfoldable pub reset_epoch : ℕ → TokenBucket → Option ℕ
unfolding ceil_div
reset_epoch now b =
    let missing = pos_part (pos (b.capacity * unit) -ℤ b.tokens) in
    if leb_ℤ (pos (b.capacity * unit)) b.tokens
    then some (now / 1000)
    else if b.requests_per_minute == 0
    then none
    else some (ceil_div (now * b.requests_per_minute + missing) (1000 * b.requests_per_minute))

unfoldable pub retry_after_seconds : TokenBucket → Option ℕ
unfolding ceil_div
retry_after_seconds b =
    if leb_ℤ (pos unit) b.tokens
    then some 0
    else if b.requests_per_minute == 0
    then none
    else some (ceil_div (pos_part (pos unit -ℤ b.tokens)) (1000 * b.requests_per_minute))
