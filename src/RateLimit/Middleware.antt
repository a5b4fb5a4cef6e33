-- ===== src/RateLimit/Middleware.antt =====
-- The request path of src/middleware/rateLimiter.ts, from the headers to the response. The rate
-- counter is the list of the labels that it was raised with; the console lines are left out.
mod Tiers
pub mod Laws
pub use Tiers.{Tier, pay_as_you_go, growth, enterprise, TierConfig, Override}
unfoldable pub use Tiers.{tier_configs, parse_tier, header}
use caas_lite.Prelude.{
  ℕ, ◌/◌, String, Bool, true, false, Option, none, some, List, [], ◌∷◌, ◌++◌, ◌&&◌, ◌||◌, any,
  if◌then◌else◌, str_eq, to_lower, includes, before, trim,
}
use caas_lite.Prelude.Int.{ℤ, pos}
use caas_lite.RateLimit.Bucket.{TokenBucket, consume, remaining, reset_epoch, retry_after_seconds}
use caas_lite.RateLimit.Store.{BucketStore, get_or_create, write}
use text.Mathlib.Text.{starts_with}
use Prim.Native.String

pub record Request : Type 0 where
  pub headers : List (String × String)
  pub remote_address : Option String
  pub path : String

-- `Required<RateLimiterOptions>`.
pub record Options : Type 0 where
  pub tier_header : String
  pub tenant_header : String
  pub allow_unknown_tier : Bool
  pub max_buckets : ℕ
  pub tier_overrides : Tier → Override
  pub bypass_paths : List String

-- The readings that `Date.now()` gives during one request, in the order of the calls.
pub record Clock : Type 0 where
  pub created : ℕ
  pub consumed : ℕ
  pub counted : ℕ
  pub reset : ℕ

-- `none` in `retry_after` is `null`; a number of seconds of `none` is `Infinity`.
pub record RateLimitResult : Type 0 where
  pub allowed : Bool
  pub tier : Tier
  pub limit : ℕ
  pub left : ℤ
  pub reset_at : Option ℕ
  pub retry_after : Option (Option ℕ)
  pub bucket_key : String
  pub invalid_tier : Bool

-- The middleware's state: the store and the rejections counted.
pub record Limiter : Type 0 where
  pub store : BucketStore
  pub rejections : List (Tier × String)

pub record Headers : Type 0 where
  pub limit : ℕ
  pub left : ℤ
  pub reset_at : Option ℕ
  -- the number before `;w=60`
  pub policy : ℕ
  pub retry_after : Option (Option ℕ)

-- `range_error` is thrown by `toISOString` at a reset time of `Infinity`.
pub data Reply : Type 0 where
  next : Reply
  next_with : Headers → Reply
  bad_request : Headers → String → Reply
  too_many : Headers → RateLimitResult → Reply
  range_error : Headers → Reply

unfoldable pub resolve_tier : Request → String → Bool → Option Tier
unfolding header
resolve_tier req tier_header allow_unknown =
    let unknown = if allow_unknown then some pay_as_you_go else none in
    elim (header (to_lower tier_header) req.headers) [
      | none ↦ unknown
      | some raw ↦ elim (parse_tier raw) [ some tier ↦ some tier | none ↦ unknown ]
    ]

-- The spread of the override over the tier's own configuration.
unfoldable pub resolve_tier_config : Tier → (Tier → Override) → TierConfig
resolve_tier_config tier overrides =
    let base = tier_configs tier in
    let over = overrides tier in
    record {
      requests_per_minute = elim over.requests_per_minute [
        | some n ↦ n
        | none ↦ base.requests_per_minute
      ];
      burst_capacity = elim over.burst_capacity [ some n ↦ n | none ↦ base.burst_capacity ];
      label = elim over.label [ some l ↦ l | none ↦ base.label ];
    }

client_ip : Request → String
unfolding header
client_ip req = elim (header "x-forwarded-for" req.headers) [
  | some list ↦ trim (before b',' list)
  | none ↦ elim req.remote_address [ some ip ↦ ip | none ↦ "unknown" ]
]

unfoldable pub build_bucket_key : Request → String → String
unfolding client_ip header
build_bucket_key req tenant_header =
    let by_ip = String.◌++◌ "ip:" (client_ip req) in
    elim (header (to_lower tenant_header) req.headers) [
      | none ↦ by_ip
      | some tenant ↦ if str_eq tenant "" then by_ip else String.◌++◌ "t:" tenant
    ]

-- Used for the log alone.
unfoldable pub is_automation_client : Request → Bool
unfolding header
is_automation_client req =
    let ua : String = elim (header "user-agent" req.headers) [ some s ↦ to_lower s | none ↦ "" ] in
    any (includes ua)
      ("zapier" ∷ "mulesoft" ∷ "n8n" ∷ "make.com" ∷ "workato" ∷ "tray.io" ∷ "pipedream" ∷ [])

abbrev pub invalid : ℕ → RateLimitResult
invalid now = record {
  allowed = false;
  tier = pay_as_you_go;
  limit = 0;
  left = pos 0;
  reset_at = some (now / 1000);
  retry_after = none;
  bucket_key = "invalid";
  invalid_tier = true;
}

-- The part of `evaluateRateLimit` after the tier is known.
unfoldable pub charge :
    Tier → Request → Clock → Options → BucketStore → RateLimitResult × BucketStore
charge tier req clock opts store =
    let config = resolve_tier_config tier opts.tier_overrides in
    let key = build_bucket_key req opts.tenant_header in
    let (bucket, store') =
      get_or_create opts.max_buckets clock.created key config.burst_capacity
        config.requests_per_minute store in
    let (ok, spent) = consume clock.consumed bucket in
    let (shown, counted) = remaining clock.counted spent in
    (
      record {
        allowed = ok;
        tier = tier;
        limit = config.requests_per_minute;
        left = shown;
        reset_at = reset_epoch clock.reset counted;
        retry_after = if ok then none else some (retry_after_seconds counted);
        bucket_key = key;
        invalid_tier = false;
      },
      write key counted store',
    )

unfoldable pub evaluate_rate_limit :
    Request → Clock → Options → BucketStore → RateLimitResult × BucketStore
evaluate_rate_limit req clock opts store =
    elim (resolve_tier req opts.tier_header opts.allow_unknown_tier) [
      | none ↦ (invalid clock.created, store)
      | some tier ↦ charge tier req clock opts store
    ]

unfoldable pub rate_limit_headers : RateLimitResult → Headers
rate_limit_headers r = record {
  limit = r.limit;
  left = r.left;
  reset_at = r.reset_at;
  policy = r.limit;
  retry_after = r.retry_after;
}

abbrev pub always_bypass : List String
always_bypass = "/health" ∷ "/health/db" ∷ "/metrics" ∷ "/favicon.ico" ∷ []

unfoldable pub is_bypassed : List String → String → Bool
is_bypassed extra path =
    any (λ p. str_eq path p || starts_with path (String.◌++◌ p "/")) (always_bypass ++ extra)

-- The answer to a request that was charged or refused.
unfoldable pub respond : Request → Options → RateLimitResult → Reply
unfolding rate_limit_headers
respond req opts r =
    let h = rate_limit_headers r in
    if r.allowed
    then next_with h
    else if r.invalid_tier
    then bad_request h req.path
    else elim r.reset_at [ none ↦ range_error h | some t ↦ too_many h r ]

abbrev tenant_label : Request → Options → String
tenant_label req opts = elim (header (to_lower opts.tenant_header) req.headers) [
  | some t ↦ t
  | none ↦ "unknown"
]

-- `rateLimiterMiddleware`; the closure's store and the counter are the state.
unfoldable pub rate_limiter_middleware : Options → Request → Clock → Limiter → Reply × Limiter
rate_limiter_middleware opts req clock l =
    let (r, store') = evaluate_rate_limit req clock opts l.store in
    let counted =
      if r.allowed || r.invalid_tier
      then l.rejections
      else (r.tier, tenant_label req opts) ∷ l.rejections in
    if is_bypassed opts.bypass_paths req.path
    then (next, l)
    else (respond req opts r, record { store = store'; rejections = counted })
