-- ===== src/Insurance/Evaluate.antt =====
-- `evaluatePolicyState` of src/routes/insurance.ts. The clock readings of one evaluation are one.
pub mod Laws
use caas_lite.Prelude.{
  ℕ, ◌-◌, ◌*◌, String, Bool, true, false, not, ◌&&◌, Option, none, some, List, [], ◌∷◌,
  if◌then◌else◌, str_eq, ltb, leb, filter, count, length,
}
use caas_lite.Database.{
  Fraction, frac_lt, PolicyState, active, void_by_compliance_drift, void_by_anomaly_ratio, Evidence,
  Metric, Database,
}

abbrev pub anomaly_ratio_threshold : Fraction
anomaly_ratio_threshold = record { num = 2; den = 100 }

abbrev pub anomaly_window_days : ℕ
anomaly_window_days = 7

abbrev pub drift_boundary_threshold : ℕ
drift_boundary_threshold = 10

abbrev pub drift_window_days : ℕ
drift_window_days = 30

-- An instant before 1970 comes out as 1970, before which no row is dated either.
unfoldable pub days_ago : ℕ → ℕ → ℕ
days_ago now days = now - days * 86400000

-- The rows of a tenant after an instant, `user_tenant_id = ? AND evaluated_at > ?`.
unfoldable pub in_window : String → ℕ → Metric → Bool
in_window tenant from m = str_eq m.user_tenant_id tenant && ltb from m.evaluated_at

abbrev pub is_denied : Metric → Bool
is_denied m = not m.access_granted

abbrev pub is_crossing : Metric → Bool
is_crossing m = m.is_boundary_crossing

unfoldable pub total_requests : String → ℕ → List Metric → ℕ
unfolding days_ago in_window
total_requests tenant now ms = count (in_window tenant (days_ago now anomaly_window_days)) ms

unfoldable pub denied_requests : String → ℕ → List Metric → ℕ
unfolding days_ago in_window
denied_requests tenant now ms =
    count (λ m. in_window tenant (days_ago now anomaly_window_days) m && is_denied m) ms

unfoldable pub boundary_crossings : String → ℕ → List Metric → ℕ
unfolding days_ago in_window
boundary_crossings tenant now ms =
    count (λ m. in_window tenant (days_ago now drift_window_days) m && is_crossing m) ms

-- `denied / total`, or 0 where there is no request.
unfoldable pub anomaly_ratio : ℕ → ℕ → Fraction
anomaly_ratio denied total =
    if ltb 0 total then record { num = denied; den = total } else record { num = 0; den = 1 }

abbrev pub anomaly_evidence : Fraction → ℕ → ℕ → Evidence
anomaly_evidence ratio total denied = record {
  trigger = some "anomaly_ratio";
  anomaly_ratio = some ratio;
  threshold = some anomaly_ratio_threshold;
  window_days = some anomaly_window_days;
  total_requests = some total;
  denied_requests = some denied;
  boundary_crossings = none;
  checked_at = none;
}

abbrev pub drift_evidence : ℕ → Evidence
drift_evidence crossings = record {
  trigger = some "compliance_drift";
  anomaly_ratio = none;
  threshold = some (record { num = drift_boundary_threshold; den = 1 });
  window_days = some drift_window_days;
  total_requests = none;
  denied_requests = none;
  boundary_crossings = some crossings;
  checked_at = none;
}

abbrev pub active_evidence : Fraction → ℕ → ℕ → Evidence
active_evidence ratio crossings now = record {
  trigger = none;
  anomaly_ratio = some ratio;
  threshold = some anomaly_ratio_threshold;
  window_days = none;
  total_requests = none;
  denied_requests = none;
  boundary_crossings = some crossings;
  checked_at = some now;
}

-- The decision on the three counts.
unfoldable pub decide_policy_state : ℕ → ℕ → ℕ → ℕ → PolicyState × Evidence
decide_policy_state total denied crossings now =
    let ratio = anomaly_ratio denied total in
    if ltb 0 total && frac_lt anomaly_ratio_threshold ratio
    then (void_by_anomaly_ratio, anomaly_evidence ratio total denied)
    else if leb drift_boundary_threshold crossings
    then (void_by_compliance_drift, drift_evidence crossings)
    else (active, active_evidence ratio crossings now)

unfoldable pub evaluate_policy_state : ℕ → String → Database → PolicyState × Evidence
evaluate_policy_state now tenant db =
    decide_policy_state (total_requests tenant now db.metrics)
      (denied_requests tenant now db.metrics) (boundary_crossings tenant now db.metrics) now
