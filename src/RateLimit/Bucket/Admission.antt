-- ===== src/RateLimit/Bucket/Admission.antt =====
-- How many requests a bucket lets through over a stretch of time.
use caas_lite.Prelude.{ℕ, ◌+◌, ◌*◌, ◌-◌, ◌≤◌, ◌≡◌, List, [], ◌∷◌}
use caas_lite.Prelude.{arith, if◌then◌else◌}
use caas_lite.Prelude.Int.{pos, ◌≤ℤ◌, pos_part, int_laws, min_ℤ, ◌+ℤ◌, ◌-ℤ◌, scale}
use caas_lite.RateLimit.Bucket.Laws.{refill_fields}
use caas_lite.RateLimit.Bucket.{TokenBucket, unit, new, refill, consume}

-- The requests that a bucket lets through when they arrive at the listed times.
pub admitted : List ℕ → TokenBucket → ℕ
admitted [] b = 0
admitted (now ∷ later) b =
    let (allowed, b') = consume now b in (if allowed then 1 else 0) + admitted later b'

-- The times do not decrease, and the last of them.
abbrev pub Ascends : ℕ → List ℕ → Type 0
Ascends t [] = Unit
Ascends t (u ∷ us) = (t ≤ u) × Ascends u us

abbrev pub last : ℕ → List ℕ → ℕ
last t [] = t
last t (u ∷ us) = last u us

last-ge : (t : ℕ) (us : List ℕ) → Ascends t us → t ≤ last t us
last-ge t [] _ = omega arith
last-ge t (u ∷ us) (h, hs) = omega (arith, last-ge u us hs)

-- A refill at a later time adds at most the elapsed milliseconds times the rate.
refill_gain :
    (now : ℕ) (b : TokenBucket)
    → b.last_refill_ms ≤ now
    → pos 0 ≤ℤ b.tokens
    → (pos 0 ≤ℤ (refill now b).tokens)
      × (pos_part (refill now b).tokens
          ≤ pos_part b.tokens + (now - b.last_refill_ms) * b.requests_per_minute)
unfolding refill min_ℤ ◌+ℤ◌ ◌-ℤ◌ scale
refill_gain now b h p = ground arith

consume_cost :
    (now : ℕ) (b : TokenBucket)
    → b.last_refill_ms ≤ now
    → pos 0 ≤ℤ b.tokens
    → let (allowed, b') = consume now b in
      (pos 0 ≤ℤ b'.tokens)
      × (b'.last_refill_ms ≡ now)
      × (b'.requests_per_minute ≡ b.requests_per_minute)
      × ((if allowed then unit else 0) + pos_part b'.tokens
          ≤ pos_part b.tokens + (now - b.last_refill_ms) * b.requests_per_minute)
unfolding consume
consume_cost now b h p = grind (int_laws, refill_gain now b h p, refill_fields now b)

split_time : (r a b c : ℕ) → a ≤ b → b ≤ c → (c - b) * r + (b - a) * r ≡ (c - a) * r
split_time r a b c h k = let e : c - a ≡ (c - b) + (b - a) = omega arith in rw e (omega arith)

admitted_le :
    (times : List ℕ) (b : TokenBucket)
    → Ascends b.last_refill_ms times
    → pos 0 ≤ℤ b.tokens
    → admitted times b * unit
      ≤ pos_part b.tokens + (last b.last_refill_ms times - b.last_refill_ms) * b.requests_per_minute
unfolding admitted
admitted_le [] b _ p = omega arith
admitted_le (now ∷ later) b (h, hs) p =
    let c = consume_cost now b h p in
    let ascending : Ascends (consume now b).1.last_refill_ms later = rw c.1 hs in
    let ih = admitted_le later (consume now b).1 ascending c.0 in
    let at_now : admitted later (consume now b).1 * unit
        ≤ pos_part (consume now b).1.tokens + (last now later - now) * b.requests_per_minute =
      rw (c.1, c.2) at ih in
    ground (
      arith,
      at_now,
      c.3,
      split_time b.requests_per_minute b.last_refill_ms now (last now later) h
          (last-ge now later hs),
    )

-- However the requests arrive, a bucket that is created at `start` lets through at most its
-- capacity and what the rate allows for the time up to the last request, provided that the clock
-- does not run backwards.
pub new-admitted_le :
    (start capacity rpm : ℕ) (times : List ℕ)
    → Ascends start times
    → admitted times (new start capacity rpm) * unit
      ≤ capacity * unit + (last start times - start) * rpm
unfolding new
new-admitted_le start capacity rpm times h =
    admitted_le times (new start capacity rpm) h (omega arith)
