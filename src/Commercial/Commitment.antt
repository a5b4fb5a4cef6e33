-- ===== src/Commercial/Commitment.antt =====
-- `evaluateMonthlyCommitment` of src/services/commercialEngine.ts: what a tenant owes for the
-- current period. `now` is the clock reading with which tokens are compared.
pub mod Laws
pub mod Choice
use caas_lite.Prelude.{
  ℕ, ◌+◌, ◌-◌, ◌*◌, String, Bool, true, false, ◌&&◌, Option, none, some, List, [], ◌∷◌,
  if◌then◌else◌, str_eq, ltb,
}
use caas_lite.Commercial.Money.{to_grains, cents_to_grains, min, round_cents, tax_cents}
use caas_lite.Commercial.Tables.{
  SubscriptionTier, Subscription, Registry, Token, TokenStatus, Tables, Result, ok, ◌>>=◌, Platform,
}
use caas_lite.Commercial.Subscriptions.{need_subscription}

abbrev pub token_status_eq : TokenStatus → TokenStatus → Bool
token_status_eq TokenStatus.issued TokenStatus.issued = true
token_status_eq TokenStatus.applied TokenStatus.applied = true
token_status_eq TokenStatus.expired TokenStatus.expired = true
token_status_eq TokenStatus.revoked TokenStatus.revoked = true
token_status_eq _ _ = false

-- `WHERE tenant_id = ? AND status = 'issued' AND expires_at > ?`
abbrev pub is_usable : String → ℕ → Token → Bool
is_usable tenant now k =
    str_eq k.tenant_id tenant && token_status_eq k.status TokenStatus.issued && ltb now k.expires_at

abbrev pub larger : Token → Option Token → Token
larger k none = k
larger k (some q) = if ltb k.discount_pct q.discount_pct then q else k

-- `ORDER BY discount_pct DESC LIMIT 1`; of tokens that tie, the one inserted first.
unfoldable pub best_token : String → ℕ → List Token → Option Token
best_token tenant now [] = none
best_token tenant now (k ∷ ks) =
    let rest = best_token tenant now ks in
    if is_usable tenant now k then some (larger k rest) else rest

-- `WHERE tenant_id = ? AND status = 'active' LIMIT 1`
unfoldable pub find_policy : String → List Registry → Option Registry
find_policy tenant [] = none
find_policy tenant (r ∷ rs) =
    if str_eq r.tenant_id tenant && str_eq r.status "active" then some r else find_policy tenant rs

-- The units above a limit that is set.
unfoldable pub units_over : ℕ → ℕ → ℕ
units_over limit n = if ltb 0 limit then n - limit else 0

-- The amounts before rounding, in grains: the monthly premium is a twelfth of the annual one.
pub record Amounts : Type 0 where
  pub base : ℕ
  pub runs : ℕ
  pub monitors : ℕ
  pub premium : ℕ
  pub discount : ℕ

abbrev pub annual_premium : Option Registry → ℕ
annual_premium none = 0
annual_premium (some r) = r.base_annual_premium

abbrev pub discount_of : Option Token → ℕ → ℕ
discount_of none premium = 0
discount_of (some k) premium = min (cents_to_grains k.discount_value) premium

unfoldable pub amounts : Subscription → Option Registry → Option Token → Amounts
amounts s policy token = record {
  base = to_grains s.monthly_fee;
  runs = to_grains (units_over s.included_runs s.runs_this_period * s.overage_rate);
  monitors = to_grains (units_over s.included_monitors s.monitors_this_period * s.monitor_overage);
  premium = annual_premium policy;
  discount = discount_of token (annual_premium policy);
}

abbrev pub subtotal : Amounts → ℕ
subtotal a = a.base + a.runs + a.monitors + a.premium - a.discount

-- `MonthlyCommitmentResult`, its amounts in cents.
pub record MonthlyCommitmentResult : Type 0 where
  pub period_start : String
  pub period_end : String
  pub tier : SubscriptionTier
  pub base_fee_usd : ℕ
  pub included_runs : ℕ
  pub actual_runs : ℕ
  pub overage_runs : ℕ
  pub overage_runs_usd : ℕ
  pub included_monitors : ℕ
  pub actual_monitors : ℕ
  pub overage_monitors : ℕ
  pub overage_monitors_usd : ℕ
  pub insurance_premium_usd : ℕ
  pub premium_discount_usd : ℕ
  pub subtotal_usd : ℕ
  pub tax_usd : ℕ
  pub total_usd : ℕ

-- The amounts that are rounded to cents.
pub data Part : Type 0 where
  base_part runs_part monitors_part premium_part discount_part subtotal_part total_part : Part

-- The cents to which a part, of an exact value in grains, is rounded, and those of the tax on a
-- subtotal. Doubles may round a part by how it is computed from the subscription and the amounts.
pub record Rounding : Type 0 where
  pub cents : Subscription → Amounts → Part → ℕ → ℕ
  pub tax : Subscription → Amounts → ℕ → ℕ

-- On exact amounts, which the rest of the model computes with.
abbrev pub exact : Rounding
exact = record { cents = λ _ _ _. round_cents; tax = λ _ _. tax_cents }

unfoldable pub commitment_with : Rounding → Subscription → Amounts → MonthlyCommitmentResult
commitment_with r s a = record {
  period_start = s.current_period_start;
  period_end = s.current_period_end;
  tier = s.tier;
  base_fee_usd = r.cents s a base_part a.base;
  included_runs = s.included_runs;
  actual_runs = s.runs_this_period;
  overage_runs = units_over s.included_runs s.runs_this_period;
  overage_runs_usd = r.cents s a runs_part a.runs;
  included_monitors = s.included_monitors;
  actual_monitors = s.monitors_this_period;
  overage_monitors = units_over s.included_monitors s.monitors_this_period;
  overage_monitors_usd = r.cents s a monitors_part a.monitors;
  insurance_premium_usd = r.cents s a premium_part a.premium;
  premium_discount_usd = r.cents s a discount_part a.discount;
  subtotal_usd = r.cents s a subtotal_part (subtotal a);
  tax_usd = r.tax s a (subtotal a);
  total_usd = r.cents s a total_part (subtotal a + cents_to_grains (r.tax s a (subtotal a)));
}

abbrev pub commitment : Subscription → Amounts → MonthlyCommitmentResult
commitment s a = commitment_with exact s a

-- With the rounding of doubles as a parameter.
unfoldable pub evaluate_with :
    Rounding → Platform → String → ℕ → Tables → Result MonthlyCommitmentResult
evaluate_with r pf tenant now t = need_subscription pf tenant t >>= λ s. ok (
    commitment_with r s
      (amounts s (find_policy tenant t.registries) (best_token tenant now t.tokens)))

abbrev pub evaluate_monthly_commitment :
    Platform → String → ℕ → Tables → Result MonthlyCommitmentResult
evaluate_monthly_commitment pf tenant now t = evaluate_with exact pf tenant now t
