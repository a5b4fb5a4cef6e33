-- ===== src/Commercial/Sample.antt =====
-- A small database with which the theorems on the commercial engine are tried.
use caas_lite.Prelude.{ℕ, String, true, false, none, [], ◌∷◌, ◌==◌, if◌then◌else◌}
use caas_lite.Commercial.Tables.{
  growth, TokenStatus, amber, Subscription, Ledger, Registry, Token, Tables, Platform,
}
use caas_lite.Commercial.Digest.{subscription_integrity_hash, token_signature}

-- Digests that keep the text, and short texts for all else.
abbrev pub platform : Platform
platform = record {
  hmac = λ s. s;
  sha256 = λ s. s;
  decimal = λ n. "20";
  amount_text = λ n. "299";
  cents_text = λ z. "321.43";
  iso = λ n. "2026-07-01";
  tier_text = λ t. "GROWTH";
  status_text = λ s. "issued";
  snapshot_json = λ id r t score band pct scores inputs. id;
  invoice_json = λ id number tenant start end total. id;
  ledger_json = λ (l : Ledger). l.id;
  day_start = λ n. "2026-05-01";
  next_month = λ n. "2026-06-01";
  year = λ n. "2026";
  like = λ a b. true;
  text_before = λ a b. false;
  pad4 = λ n. if n == 1 then "0001" else "0002";
}

abbrev pub subscription : String → String → ℕ → Subscription
subscription id tenant runs = record {
  id = id;
  tenant_id = tenant;
  tier = growth;
  monthly_fee = 2990000;
  included_runs = 5000;
  included_monitors = 10;
  overage_rate = 300;
  monitor_overage = 75000;
  billing_cycle = "monthly";
  invoice_currency = "USD";
  status = "active";
  contract_ref = none;
  current_period_start = "2026-05-01";
  current_period_end = "2026-06-01";
  runs_this_period = runs;
  monitors_this_period = 12;
  integrity_hash = subscription_integrity_hash platform id tenant growth 2990000 "2026-05-01";
  created_at = 1;
  updated_at = 1;
}

-- A policy of 1200 dollars a year.
abbrev pub policy : Registry
policy = record {
  id = "r1";
  tenant_id = "harbour-north";
  carrier_name = "Carrier";
  carrier_id = "c1";
  policy_number = "P-1";
  coverage_type = "cyber_liability";
  coverage_limit = 10000000000;
  deductible = 0;
  base_annual_premium = 12000000;
  risk_score = 50;
  risk_band = amber;
  verified_discount_pct = none;
  effective_annual_premium = 12000000;
  golden_thread_hash = "r1|harbour-north|P-1|Carrier";
  policy_start_date = "2026-01-01";
  policy_end_date = "2026-12-31";
  last_audit_at = 1;
  next_audit_at = 2;
  consecutive_clean_audits = 0;
  status = "active";
  jurisdiction = "GH";
  created_at = 1;
  updated_at = 1;
}

-- A token worth 20 dollars.
abbrev pub token : Token
token = record {
  id = "k1";
  tenant_id = "harbour-north";
  registry_id = "r1";
  snapshot_id = "s1";
  discount_pct = 20;
  discount_value = 2000;
  status = TokenStatus.issued;
  expires_at = 5000000;
  applied_to_invoice = none;
  applied_at = none;
  token_signature = token_signature platform "k1" "harbour-north" 20 "s1" 5000000;
  issued_at = 1;
}

abbrev pub tables : Tables
tables = record {
  subscriptions = subscription "s1" "harbour-north" 4999 ∷ subscription "s2" "harbour-south" 0 ∷ [];
  ledgers = [];
  lines = [];
  overages = [];
  registries = policy ∷ [];
  snapshots = [];
  tokens = token ∷ [];
  payouts = [];
  anomalies = [];
  slow_queries = [];
  regulatory_reports = [];
  integrity_ok = true;
}
