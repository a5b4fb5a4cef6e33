-- ===== src/RateLimit/Tests.antt =====
-- The theorems on the rate limiter at concrete inputs.
use caas_lite.Prelude.{◌+◌, ◌*◌, ◌-◌, ◌≤◌, ◌≡◌, ◌↔◌, refl, false, none, some, [], ◌∷◌, inl, arith}
use caas_lite.Prelude.Int.{pos, ◌≤ℤ◌}
use caas_lite.RateLimit.Bucket.{unit, new, refill}
use caas_lite.RateLimit.Bucket.Admission.{admitted, new-admitted_le}
use caas_lite.RateLimit.Store.{BucketStore, lookup}
use caas_lite.RateLimit.Middleware.{
  Tier, Request, Options, Clock, Limiter, Headers, next_with, resolve_tier, is_bypassed,
  rate_limiter_middleware,
}
use caas_lite.RateLimit.Middleware.Laws.{
  IsSound, client_bucket, rate_limiter_middleware-IsSound, let_through_iff,
}

-- Five requests in two seconds at sixty a minute, from a bucket of two.
new-admitted_le_example :
    admitted (1000 ∷ 1000 ∷ 1000 ∷ 2000 ∷ 3000 ∷ []) (new 1000 2 60) * unit
    ≤ 2 * unit + (3000 - 1000) * 60
new-admitted_le_example =
    new-admitted_le 1000 2 60 (1000 ∷ 1000 ∷ 1000 ∷ 2000 ∷ 3000 ∷ [])
      (ground arith, (ground arith, (ground arith, (ground arith, (ground arith, tt)))))

abbrev full_store : BucketStore
full_store = ("t:acme", new 100 75 300) ∷ ("t:zeta", new 200 15 60) ∷ []

abbrev options : Options
options = record {
  tier_header = "X-Caas-Tier";
  tenant_header = "X-Tenant-Id";
  allow_unknown_tier = false;
  max_buckets = 2;
  tier_overrides = λ _. record { requests_per_minute = none; burst_capacity = none; label = none };
  bypass_paths = [];
}

abbrev request : Request
request = record {
  headers = ("x-caas-tier", "growth") ∷ ("x-tenant-id", "new") ∷ [];
  remote_address = some "10.0.0.1";
  path = "/v1/events";
}

abbrev lite_request : Request
lite_request = record request { headers = ("x-caas-tier", "LITE") ∷ [] }

abbrev clock : Clock
clock = record { created = 900; consumed = 901; counted = 901; reset = 902 }

abbrev limiter : Limiter
limiter = record { store = full_store; rejections = [] }

limiter-IsSound : IsSound 2 full_store
unfolding lookup new
limiter-IsSound = record {
  map = (refl, (refl, tt));
  fits = inl (ground arith);
  bounded = λ j b e. ground (arith, e);
}

rate_limiter_middleware-IsSound_example :
    IsSound 2 (rate_limiter_middleware options request clock limiter).1.store
rate_limiter_middleware-IsSound_example =
    rate_limiter_middleware-IsSound options request clock limiter limiter-IsSound

let_through_iff_example :
    ((h : Headers) × ((rate_limiter_middleware options request clock limiter).0 ≡ next_with h)) ↔ (
      (tier : Tier) × (resolve_tier request "X-Caas-Tier" false ≡ some tier)
      × (pos unit ≤ℤ (refill 901 (client_bucket tier request clock options full_store)).tokens))
unfolding is_bypassed
let_through_iff_example = let_through_iff options request clock limiter refl
