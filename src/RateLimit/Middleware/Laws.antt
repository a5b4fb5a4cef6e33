-- ===== src/RateLimit/Middleware/Laws.antt =====
-- What the middleware answers, and what it keeps of its store.
use caas_lite.Prelude.{
  ℕ, ◌≤◌, ◌≡◌, ◌≢◌, ◌⊎◌, ◌↔◌, refl, String, true, false, none, some, inl, inr, str_eq, eq_iff,
  arith, length, Option-cases, Bool-cases, ap, sym, ◌∙◌,
}
use mathlib.Core.Path.{subst}
use mathlib.Core.Option.{some-injective}
use caas_lite.Prelude.Int.{pos, ◌≤ℤ◌}
use caas_lite.RateLimit.Bucket.{TokenBucket, new, refill, consume, remaining, unit}
use caas_lite.RateLimit.Bucket.Laws.{IsBounded, refill-IsBounded}
use caas_lite.RateLimit.Store.{BucketStore, lookup, write}
use caas_lite.RateLimit.Store.Laws.{
  get_or_create_bucket, IsMap, Fits, IsTouched, get_or_create-IsTouched, write-IsMap, lookup-write,
  lookup-write_ne, length-write_old,
}
use caas_lite.RateLimit.Middleware.{
  Tier, Request, Options, Clock, Limiter, Headers, next_with, bad_request, RateLimitResult,
  resolve_tier, resolve_tier_config, build_bucket_key, charge, evaluate_rate_limit, respond,
  rate_limit_headers, invalid, rate_limiter_middleware, is_bypassed,
}

-- A store between two requests: a map within its bound, whose buckets are within their capacity.
pub record IsSound (max : ℕ) (s : BucketStore) : Type 0 where
  pub map : IsMap s
  pub fits : Fits max s
  pub bounded : (j : String) (b : TokenBucket) → lookup j s ≡ some b → IsBounded b

remaining-IsBounded : (now : ℕ) (b : TokenBucket) → IsBounded (remaining now b).1
unfolding remaining
remaining-IsBounded now b = refill-IsBounded now b

touched-IsBounded :
    (max : ℕ) (k j : String) (made b c d : TokenBucket) (s s' : BucketStore)
    → IsSound max s
    → IsTouched max k made s b s'
    → IsBounded c
    → lookup j (write k c s') ≡ some d
    → IsBounded d
touched-IsBounded max k j made b c d s s' h t p e = elim (Bool-cases (str_eq k j)) [
  | inl same ↦ ground (arith, lookup-write j k c s')
  | inr other ↦
      let ne : j ≢ k = ground (arith, eq_iff k j) in
      elim (t.others j ne) [
        | inl kept ↦ h.bounded j d (ground (arith, lookup-write j k c s'))
        | inr (_, gone, _) ↦ absurd (ground (arith, lookup-write j k c s'))
      ]
]

write-IsSound :
    (max : ℕ) (k : String) (made b c : TokenBucket) (s s' : BucketStore)
    → IsSound max s
    → IsTouched max k made s b s'
    → IsBounded c
    → IsSound max (write k c s')
write-IsSound max k made b c s s' h t p = record {
  map = write-IsMap k c s' t.map;
  fits = ground (arith, t.fits, length-write_old k c s', t.stored);
  bounded = λ j d. touched-IsBounded max k j made b c d s s' h t p;
}

charge-IsSound :
    (tier : Tier) (req : Request) (clock : Clock) (opts : Options) (s : BucketStore)
    → IsSound opts.max_buckets s
    → IsSound opts.max_buckets (charge tier req clock opts s).1
unfolding charge
charge-IsSound tier req clock opts s h =
    write-IsSound opts.max_buckets _ _ _ _ s _ h
      (get_or_create-IsTouched opts.max_buckets clock.created
        (build_bucket_key req opts.tenant_header) _ _ s h.map h.fits)
      (remaining-IsBounded clock.counted _)

evaluate_rate_limit-IsSound :
    (req : Request) (clock : Clock) (opts : Options) (s : BucketStore)
    → IsSound opts.max_buckets s
    → IsSound opts.max_buckets (evaluate_rate_limit req clock opts s).1
unfolding evaluate_rate_limit
evaluate_rate_limit-IsSound req clock opts s h =
    elim (Option-cases (resolve_tier req opts.tier_header opts.allow_unknown_tier)) [
      | inl e ↦ rw (e, evaluate_rate_limit) h
      | inr (tier, e) ↦ rw (e, evaluate_rate_limit) (charge-IsSound tier req clock opts s h)
    ]

-- If the store has distinct keys, no more buckets than configured, or one, and no bucket above its
-- capacity, it is so after a request, whatever the clock shows.
pub rate_limiter_middleware-IsSound :
    (opts : Options) (req : Request) (clock : Clock) (l : Limiter)
    → IsSound opts.max_buckets l.store
    → IsSound opts.max_buckets (rate_limiter_middleware opts req clock l).1.store
unfolding rate_limiter_middleware
rate_limiter_middleware-IsSound opts req clock l h =
    elim (Bool-cases (is_bypassed opts.bypass_paths req.path)) [
      | inl e ↦ rw (e, rate_limiter_middleware) h
      | inr e ↦
          rw (e, rate_limiter_middleware) (evaluate_rate_limit-IsSound req clock opts l.store h)
    ]

-- The bucket that a client has, or would be given.
abbrev pub client_bucket : Tier → Request → Clock → Options → BucketStore → TokenBucket
client_bucket tier req clock opts s =
    let config = resolve_tier_config tier opts.tier_overrides in
    elim (lookup (build_bucket_key req opts.tenant_header) s) [
      | some old ↦ old
      | none ↦ new clock.created config.burst_capacity config.requests_per_minute
    ]

charge_bucket :
    (tier : Tier) (req : Request) (clock : Clock) (opts : Options) (s : BucketStore)
    → (charge tier req clock opts s).0.allowed
      ≡ (consume clock.consumed (client_bucket tier req clock opts s)).0
unfolding charge
charge_bucket tier req clock opts s =
    ap (λ b. (consume clock.consumed b).0) (get_or_create_bucket _ _ _ _ _ s)

consume_iff :
    (now : ℕ) (b : TokenBucket) → ((consume now b).0 ≡ true) ↔ (pos unit ≤ℤ (refill now b).tokens)
unfolding consume
consume_iff now b = ground arith

evaluate_allowed_iff :
    (req : Request) (clock : Clock) (opts : Options) (s : BucketStore)
    → ((evaluate_rate_limit req clock opts s).0.allowed ≡ true) ↔ (
        (tier : Tier) × (resolve_tier req opts.tier_header opts.allow_unknown_tier ≡ some tier)
        × (pos unit ≤ℤ (refill clock.consumed (client_bucket tier req clock opts s)).tokens))
unfolding evaluate_rate_limit
evaluate_allowed_iff req clock opts s =
    elim (Option-cases (resolve_tier req opts.tier_header opts.allow_unknown_tier)) [
      | inl e ↦ rw (e, evaluate_rate_limit) ((λ h. cc), (λ h. cc (h.1)))
      | inr (tier, e) ↦
          let iff = consume_iff clock.consumed (client_bucket tier req clock opts s) in
          rw (e, evaluate_rate_limit)
            (
              (λ h. (tier, refl, iff.0 (sym (charge_bucket tier req clock opts s) ∙ h))),
              (λ h.
                  charge_bucket tier req clock opts s
                  ∙ iff.1 (
                      subst
                        (λ t.
                          pos unit
                          ≤ℤ (refill clock.consumed (client_bucket t req clock opts s)).tokens)
                        (sym (some-injective _ _ h.1)) h.2)),
            )
    ]

respond_next_iff :
    (req : Request) (opts : Options) (r : RateLimitResult)
    → ((h : Headers) × (respond req opts r ≡ next_with h)) ↔ (r.allowed ≡ true)
unfolding respond
respond_next_iff req opts r =
    ((λ (h, e). ground arith), (λ a. (rate_limit_headers r, ground arith)))

-- Outside the bypassed paths a request goes on to its handler exactly if its tier is known and
-- its client's bucket, refilled up to now, holds a whole token.
pub let_through_iff :
    (opts : Options) (req : Request) (clock : Clock) (l : Limiter)
    → is_bypassed opts.bypass_paths req.path ≡ false
    → ((h : Headers) × ((rate_limiter_middleware opts req clock l).0 ≡ next_with h)) ↔ (
        (tier : Tier) × (resolve_tier req opts.tier_header opts.allow_unknown_tier ≡ some tier)
        × (pos unit ≤ℤ (refill clock.consumed (client_bucket tier req clock opts l.store)).tokens))
unfolding rate_limiter_middleware
let_through_iff opts req clock l e =
    let r = (evaluate_rate_limit req clock opts l.store).0 in
    let (to, from) = respond_next_iff req opts r in
    let (allowed_to, allowed_from) = evaluate_allowed_iff req clock opts l.store in
    rw (e, rate_limiter_middleware) ((λ h. allowed_to (to h)), (λ h. from (allowed_from h)))

-- Outside the bypassed paths a request without a known tier is answered 400, spends no token and
-- counts as no rejection.
pub unknown_tier_reply :
    (opts : Options) (req : Request) (clock : Clock) (l : Limiter)
    → is_bypassed opts.bypass_paths req.path ≡ false
    → resolve_tier req opts.tier_header opts.allow_unknown_tier ≡ none
    → ((h : Headers) × (rate_limiter_middleware opts req clock l ≡ (bad_request h req.path, l)))
unfolding rate_limiter_middleware evaluate_rate_limit respond
unknown_tier_reply opts req clock l e f = (rate_limit_headers (invalid clock.created), ground arith)

charge_others :
    (tier : Tier) (req : Request) (clock : Clock) (opts : Options) (s : BucketStore) (j : String)
    → IsSound opts.max_buckets s
    → j ≢ build_bucket_key req opts.tenant_header
    → let s' = (charge tier req clock opts s).1 in
      (lookup j s' ≡ lookup j s)
      ⊎ ((lookup (build_bucket_key req opts.tenant_header) s ≡ none)
          × (lookup j s' ≡ none)
          × (opts.max_buckets ≤ length s))
unfolding charge
charge_others tier req clock opts s j h ne =
    let k = build_bucket_key req opts.tenant_header in
    let config = resolve_tier_config tier opts.tier_overrides in
    let t =
      get_or_create-IsTouched opts.max_buckets clock.created k config.burst_capacity
        config.requests_per_minute s h.map h.fits in
    rw (lookup-write_ne j k _ _ ne) (t.others j ne)

-- On a sound store a request leaves the bucket of every other key as it was, unless the store was
-- full, this client new, and the other key's bucket evicted.
pub other_buckets_kept :
    (opts : Options) (req : Request) (clock : Clock) (l : Limiter) (j : String)
    → IsSound opts.max_buckets l.store
    → j ≢ build_bucket_key req opts.tenant_header
    → let s' = (rate_limiter_middleware opts req clock l).1.store in
      (lookup j s' ≡ lookup j l.store)
      ⊎ ((lookup (build_bucket_key req opts.tenant_header) l.store ≡ none)
          × (lookup j s' ≡ none)
          × (opts.max_buckets ≤ length l.store))
unfolding rate_limiter_middleware evaluate_rate_limit charge
other_buckets_kept opts req clock l j h ne =
    grind (arith, λ (tier : Tier). charge_others tier req clock opts l.store j h ne)
