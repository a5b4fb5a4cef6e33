-- ===== src/Commercial/System.antt =====
-- The calls of `CommercialEngine` in src/services/commercialEngine.ts that change a table, and
-- sequences of them. A call that throws keeps the tables, but an audit what it has written.
use caas_lite.Prelude.{ℕ, String, List, [], ◌∷◌}
use caas_lite.Database.{Fraction}
use caas_lite.Commercial.Tables.{Tables, Result, ok, err, Platform}
use caas_lite.Commercial.Subscriptions.{NewSubscription, create_subscription, record_validation_run}
use caas_lite.Commercial.Invoices.{generate_invoice}
use caas_lite.Commercial.Underwriting.{NewPolicy, register_policy, compute_underwriting_risk_score}
use caas_lite.Commercial.Tokens.{apply_premium_reduction_token}

pub data Call : Type 0 where
  subscribe : NewSubscription → String → ℕ → Call
  run : String → ℕ → Call
  invoice : String → Fraction → String → String → ℕ → ℕ → Call
  register : NewPolicy → String → ℕ → Call
  audit : String → String → String → String → ℕ → Call
  apply : String → String → ℕ → Call

-- The tables after a call that keeps them where it throws.
abbrev pub after_call : {A : Type 0} → Tables → (A → Tables) → Result A → Tables
after_call t f (ok a) = f a
after_call t f (err e) = t

unfoldable pub step : Platform → Tables → Call → Tables
step pf t (subscribe p id now) = after_call t (λ r. r.1) (create_subscription pf p id now t)
step pf t (run tenant now) = after_call t (λ r. r.1) (record_validation_run pf tenant now t)
step pf t (invoice tenant fx currency id evaluated now) =
    after_call t (λ r. r.2) (generate_invoice pf tenant fx currency id evaluated now t)
step pf t (register p id now) = after_call t (λ r. r.1) (register_policy pf p id now t)
step pf t (audit tenant registry snapshot token now) =
    (compute_underwriting_risk_score pf tenant registry snapshot token now t).1
step pf t (apply ledger token now) =
    after_call t (λ r. r.1) (apply_premium_reduction_token pf ledger token now t)

unfoldable pub steps : Platform → Tables → List Call → Tables
steps pf t [] = t
steps pf t (c ∷ cs) = steps pf (step pf t c) cs
