-- ===== src/Commercial/Tables.antt =====
-- The tables that the commercial engine reads and writes, its errors, and what it takes from the
-- runtime. Instants are milliseconds. Texts that no code tests are strings.
use caas_lite.Prelude.{ℕ, String, Bool, Option, List}
use caas_lite.Prelude.Int.{ℤ}
use caas_lite.Database.{Fraction}

pub data SubscriptionTier : Type 0 where
  pay_as_you_go growth enterprise custom : SubscriptionTier

pub data LedgerStatus : Type 0 where
  draft issued paid overdue voided disputed : LedgerStatus

pub data RiskBand : Type 0 where
  green amber orange red : RiskBand

pub data TokenStatus : Type 0 where
  issued applied expired revoked : TokenStatus

-- A row of `tenant_commercial_subscriptions`.
pub record Subscription : Type 0 where
  pub id : String
  pub tenant_id : String
  pub tier : SubscriptionTier
  pub monthly_fee : ℕ
  pub included_runs : ℕ
  pub included_monitors : ℕ
  pub overage_rate : ℕ
  pub monitor_overage : ℕ
  pub billing_cycle : String
  pub invoice_currency : String
  pub status : String
  pub contract_ref : Option String
  pub current_period_start : String
  pub current_period_end : String
  pub runs_this_period : ℕ
  pub monitors_this_period : ℕ
  pub integrity_hash : String
  pub created_at : ℕ
  pub updated_at : ℕ

-- A row of `commercial_billing_ledgers` without the time of creation, the payment and the notes,
-- to which the engine gives the same time as `issued_at` and NULL. Amounts are cents.
pub record Ledger : Type 0 where
  pub id : String
  pub tenant_id : String
  pub invoice_number : String
  pub period_start : String
  pub period_end : String
  pub tier_snapshot : SubscriptionTier
  pub monthly_fee_snapshot : ℕ
  pub included_runs_snapshot : ℕ
  pub overage_rate_snapshot : ℕ
  pub actual_runs : ℕ
  pub actual_monitors : ℕ
  pub base_fee : ℕ
  pub overage_runs : ℕ
  pub overage_monitors : ℕ
  pub insurance_premium : ℕ
  pub premium_discount : ℕ
  pub tax : ℕ
  pub total : ℤ
  pub invoice_currency : String
  pub fx_rate : Fraction
  pub total_local : ℤ
  pub status : LedgerStatus
  pub issued_at : ℕ
  pub due_at : ℕ
  pub applied_token_id : Option String
  pub invoice_hash : String
  pub signature : String
  pub updated_at : ℕ

pub data ItemType : Type 0 where
  base_fee overage_runs overage_monitors insurance_premium premium_discount tax : ItemType

-- A row of `invoice_line_items`; its id, description and date are left out. The price of a unit
-- counts ten-thousandths of a dollar, the line's total cents.
pub record LineItem : Type 0 where
  pub ledger_id : String
  pub tenant_id : String
  pub item_type : ItemType
  pub quantity : ℕ
  pub unit_price : ℤ
  pub line_total : ℤ
  pub is_credit : Bool
  pub sort_order : ℕ

-- A row of `overage_charge_log`.
pub record OverageCharge : Type 0 where
  pub tenant_id : String
  pub included_limit : ℕ
  pub actual_count : ℕ
  pub unit_rate : ℕ
  pub charge : ℕ
  pub recorded_at : ℕ

-- A row of `insurance_underwriting_registry`; the discount is in percent.
pub record Registry : Type 0 where
  pub id : String
  pub tenant_id : String
  pub carrier_name : String
  pub carrier_id : String
  pub policy_number : String
  pub coverage_type : String
  pub coverage_limit : ℕ
  pub deductible : ℕ
  pub base_annual_premium : ℕ
  pub risk_score : ℕ
  pub risk_band : RiskBand
  pub verified_discount_pct : Option ℕ
  pub effective_annual_premium : ℕ
  pub golden_thread_hash : String
  pub policy_start_date : String
  pub policy_end_date : String
  pub last_audit_at : ℕ
  pub next_audit_at : ℕ
  pub consecutive_clean_audits : ℕ
  pub status : String
  pub jurisdiction : String
  pub created_at : ℕ
  pub updated_at : ℕ

-- What an audit counts over its window.
pub record AuditInputs : Type 0 where
  pub total_runs : ℕ
  pub failed_runs : ℕ
  pub duplicate_runs : ℕ
  pub count_high : ℕ
  pub count_critical : ℕ
  pub count_lockouts : ℕ
  pub slow_count : ℕ
  -- the sum of the durations, whose mean is over `slow_count`
  pub slow_duration : ℕ
  pub regulatory_breaches : ℕ
  pub failover_events : ℕ
  pub db_integrity_ok : Bool

pub record ComponentScores : Type 0 where
  pub operational : ℕ
  pub security : ℕ
  pub compliance : ℕ
  pub financial : ℕ

-- A row of `underwriting_audit_snapshots`.
pub record Snapshot : Type 0 where
  pub id : String
  pub registry_id : String
  pub tenant_id : String
  pub audit_period_start : ℕ
  pub audit_period_end : ℕ
  pub inputs : AuditInputs
  pub scores : ComponentScores
  pub composite_risk_score : ℕ
  pub resulting_risk_band : RiskBand
  pub discount_pct_emitted : Option ℕ
  pub token_id : Option String
  pub snapshot_hash : String
  pub chained_hash : String

-- A row of `premium_reduction_tokens`; the discount's value is in cents.
pub record Token : Type 0 where
  pub id : String
  pub tenant_id : String
  pub registry_id : String
  pub snapshot_id : String
  pub discount_pct : ℕ
  pub discount_value : ℕ
  pub status : TokenStatus
  pub expires_at : ℕ
  pub applied_to_invoice : Option String
  pub applied_at : Option ℕ
  pub token_signature : String
  pub issued_at : ℕ

-- The rows of other components that an audit counts.
pub record PayoutLog : Type 0 where
  pub tenant_id : String
  pub status : String
  pub created_at : ℕ

pub record AnomalyLog : Type 0 where
  pub tenant_id : String
  pub risk_level : String
  pub lockout_applied : Option String
  pub created_at : ℕ

pub record SlowQuery : Type 0 where
  pub label : String
  pub duration_ms : ℕ
  pub recorded_at : ℕ

pub record Tables : Type 0 where
  pub subscriptions : List Subscription
  pub ledgers : List Ledger
  pub lines : List LineItem
  pub overages : List OverageCharge
  pub registries : List Registry
  pub snapshots : List Snapshot
  pub tokens : List Token
  pub payouts : List PayoutLog
  pub anomalies : List AnomalyLog
  pub slow_queries : List SlowQuery
  -- the instants at which regulatory reports were dispatched
  pub regulatory_reports : List ℕ
  -- what `PRAGMA integrity_check` answers
  pub integrity_ok : Bool

-- What the engine throws. `constraint` is a refused INSERT.
pub data Error : Type 0 where
  no_subscription subscription_exists integrity_failed constraint no_registry : Error
  ledger_not_found token_not_found token_tenant_mismatch token_expired token_tampered : Error
  ledger_closed : LedgerStatus → Error
  token_unavailable : TokenStatus → Error

pub data Result (A : Type 0) : Type 0 where
  ok : A → Result A
  err : Error → Result A

infixl 5 ◌>>=◌
abbrev pub ◌>>=◌ : {A B : Type 0} → Result A → (A → Result B) → Result B
ok a >>= f = f a
err e >>= f = err e

-- What the engine takes from the runtime: keyed and plain digests, texts of numbers and instants,
-- the JSON texts that it hashes, and the calendar.
pub record Platform : Type 0 where
  pub hmac : String → String
  pub sha256 : String → String
  pub decimal : ℕ → String
  pub amount_text : ℕ → String
  pub cents_text : ℤ → String
  pub iso : ℕ → String
  pub tier_text : SubscriptionTier → String
  pub status_text : LedgerStatus → String
  -- `JSON.stringify` of a snapshot's payload, of a new invoice's and of a ledger
  pub snapshot_json :
      String → String → String → ℕ → RiskBand → Option ℕ → ComponentScores → AuditInputs → String
  pub invoice_json : String → String → String → String → String → ℤ → String
  pub ledger_json : Ledger → String
  -- the start of the day and of the next month, and the year, of an instant
  pub day_start : ℕ → String
  pub next_month : ℕ → String
  pub year : ℕ → String
  -- SQLite's `text LIKE pattern`
  pub like : String → String → Bool
  -- SQLite's order of texts
  pub text_before : String → String → Bool
  -- `String(n).padStart(4, "0")`
  pub pad4 : ℕ → String
