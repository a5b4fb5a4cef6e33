-- ===== src/Commercial/Subscriptions.antt =====
-- Subscriptions of src/services/commercialEngine.ts: their tiers, reading and creating one, and
-- counting a validation run. `now` is the clock reading of a call.
pub mod Laws
pub mod Runs
use caas_lite.Prelude.{
  ℕ, ◌+◌, String, Bool, ◌&&◌, Option, none, some, List, [], ◌∷◌, ◌++◌, if◌then◌else◌, str_eq, ltb,
  any,
}
use caas_lite.Commercial.Tables.{
  SubscriptionTier, pay_as_you_go, growth, enterprise, custom, Subscription, OverageCharge, Tables,
  no_subscription, subscription_exists, integrity_failed, constraint, Result, ok, err, ◌>>=◌,
  Platform,
}
use caas_lite.Commercial.Digest.{subscription_integrity_hash}

pub record Terms : Type 0 where
  pub monthly_fee : ℕ
  pub included_runs : ℕ
  pub included_monitors : ℕ
  pub overage_rate : ℕ
  pub monitor_overage : ℕ

abbrev pub config : ℕ → ℕ → ℕ → ℕ → ℕ → Terms
config fee runs monitors rate monitor = record {
  monthly_fee = fee;
  included_runs = runs;
  included_monitors = monitors;
  overage_rate = rate;
  monitor_overage = monitor;
}

-- `TIER_CONFIG`; a limit of 0 is none.
unfoldable pub tier_config : SubscriptionTier → Terms
tier_config pay_as_you_go = config 0 100 2 500 100000
tier_config growth = config 2990000 5000 10 300 75000
tier_config enterprise = config 14990000 0 0 0 0
tier_config custom = config 0 0 0 0 0

unfoldable pub find_subscription : String → List Subscription → Option Subscription
find_subscription tenant [] = none
find_subscription tenant (s ∷ ss) =
    if str_eq s.tenant_id tenant then some s else find_subscription tenant ss

-- `UPDATE tenant_commercial_subscriptions ... WHERE tenant_id = ?`
unfoldable pub update_subscription :
    String → (Subscription → Subscription) → List Subscription → List Subscription
update_subscription tenant f [] = []
update_subscription tenant f (s ∷ ss) =
    (if str_eq s.tenant_id tenant then f s else s) ∷ update_subscription tenant f ss

abbrev pub default_to {ℓ} : {A : Type ℓ} → Option A → A → A
default_to none d = d
default_to (some a) d = a

pub record NewSubscription : Type 0 where
  pub tenant_id : String
  pub tier : SubscriptionTier
  pub billing_cycle : Option String
  pub contract_ref : Option String
  pub invoice_currency : Option String
  pub custom_fee : Option ℕ
  pub custom_runs : Option ℕ
  pub custom_monitors : Option ℕ
  pub custom_overage_rate : Option ℕ
  pub custom_monitor_overage : Option ℕ

-- What `recordValidationRun` answers.
pub record RunCharge : Type 0 where
  pub is_overage : Bool
  pub charge : ℕ

-- `newCount` of a subscription, and whether it is above a limit that is set.
abbrev pub is_over : Subscription → Bool
is_over s = ltb 0 s.included_runs && ltb s.included_runs (s.runs_this_period + 1)

abbrev pub run_charge : Subscription → RunCharge
run_charge s = record { is_overage = is_over s; charge = if is_over s then s.overage_rate else 0 }

abbrev pub overage_row : String → ℕ → Subscription → OverageCharge
overage_row tenant now s = record {
  tenant_id = tenant;
  included_limit = s.included_runs;
  actual_count = s.runs_this_period + 1;
  unit_rate = s.overage_rate;
  charge = s.overage_rate;
  recorded_at = now;
}

-- A row that has its run with_runs, from the count that was read.
abbrev pub with_runs : ℕ → ℕ → Subscription → Subscription
with_runs runs now s = record s { runs_this_period = runs; updated_at = now }

module _ (pf : Platform) where
  open pf use {day_start, next_month}

  abbrev pub expected_hash : Subscription → String
  expected_hash s =
      subscription_integrity_hash pf s.id s.tenant_id s.tier s.monthly_fee s.current_period_start

  unfoldable pub get_subscription : String → Tables → Result (Option Subscription)
  get_subscription tenant t = elim (find_subscription tenant t.subscriptions) [
    | none ↦ ok none
    | some s ↦
        if str_eq s.integrity_hash (expected_hash s) then ok (some s) else err integrity_failed
  ]

  -- `getSubscription` where the caller throws on a missing one.
  unfoldable pub need_subscription : String → Tables → Result Subscription
  need_subscription tenant t =
      get_subscription tenant t >>= λ o. elim o [ none ↦ err no_subscription | some s ↦ ok s ]

  unfoldable pub new_subscription : NewSubscription → String → ℕ → Subscription
  new_subscription p id now =
      let defaults = tier_config p.tier in
      let fee = default_to p.custom_fee defaults.monthly_fee in
      record {
        id = id;
        tenant_id = p.tenant_id;
        tier = p.tier;
        monthly_fee = fee;
        included_runs = default_to p.custom_runs defaults.included_runs;
        included_monitors = default_to p.custom_monitors defaults.included_monitors;
        overage_rate = default_to p.custom_overage_rate defaults.overage_rate;
        monitor_overage = default_to p.custom_monitor_overage defaults.monitor_overage;
        billing_cycle = default_to p.billing_cycle "monthly";
        invoice_currency = default_to p.invoice_currency "USD";
        status = "active";
        contract_ref = p.contract_ref;
        current_period_start = day_start now;
        current_period_end = next_month now;
        runs_this_period = 0;
        monitors_this_period = 0;
        integrity_hash = subscription_integrity_hash pf id p.tenant_id p.tier fee (day_start now);
        created_at = now;
        updated_at = now;
      }

  unfoldable pub create_subscription :
      NewSubscription → String → ℕ → Tables → Result (Subscription × Tables)
  create_subscription p id now t = elim (find_subscription p.tenant_id t.subscriptions) [
    | some _ ↦ err subscription_exists
    | none ↦
        if any (λ (s : Subscription). str_eq s.id id) t.subscriptions
        then err constraint
        else (let s = new_subscription p id now in
            ok (s, record t { subscriptions = t.subscriptions ++ s ∷ [] }))
  ]

  unfoldable pub record_validation_run : String → ℕ → Tables → Result (RunCharge × Tables)
  record_validation_run tenant now t = need_subscription tenant t >>= λ s. ok (
    run_charge s,
    record t {
      subscriptions =
          update_subscription tenant (with_runs (s.runs_this_period + 1) now) t.subscriptions;
      overages = if is_over s then t.overages ++ overage_row tenant now s ∷ [] else t.overages;
    },
  )
