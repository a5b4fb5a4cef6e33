-- ===== src/Commercial/Scores.antt =====
-- The scores of `computeUnderwritingRiskScore` in src/services/commercialEngine.ts, with what an
-- audit counts. Rates and weights, which the source holds in doubles, are exact fractions.
pub mod Laws
use caas_lite.Prelude.{
  ℕ, ◌+◌, ◌*◌, ◌/◌, String, Bool, true, false, ◌&&◌, Option, none, some, List, [], ◌∷◌,
  if◌then◌else◌, str_eq, ltb, leb, filter, count, length, includes, to_lower,
}
use caas_lite.Commercial.Money.{min}
use caas_lite.Commercial.Tables.{
  RiskBand, green, amber, orange, red, AuditInputs, ComponentScores, PayoutLog, AnomalyLog,
  SlowQuery, Tables,
}

-- `AUDIT_WINDOW_DAYS`, in milliseconds.
abbrev pub audit_window_ms : ℕ
audit_window_ms = 30 * 86400000

unfoldable pub derive_risk_band : ℕ → RiskBand
derive_risk_band score =
    if leb score 25
    then green
    else if leb score 50
    then amber
    else if leb score 75
    then orange
    else red

-- In percent.
unfoldable pub discount_for_band : RiskBand → Option ℕ
discount_for_band green = some 20
discount_for_band amber = some 15
discount_for_band orange = some 10
discount_for_band red = none

abbrev pub is_some {ℓ} : {A : Type ℓ} → Option A → Bool
is_some none = false
is_some (some _) = true

unfoldable pub total_duration : List SlowQuery → ℕ
total_duration [] = 0
total_duration (q ∷ qs) = q.duration_ms + total_duration qs

-- The counts since an instant. SQLite's LIKE ignores the case of ASCII letters.
unfoldable pub collect_inputs : String → ℕ → Tables → AuditInputs
collect_inputs tenant since t =
    let payouts =
      filter (λ (p : PayoutLog). str_eq p.tenant_id tenant && leb since p.created_at) t.payouts in
    let anomalies =
      filter (λ (a : AnomalyLog). str_eq a.tenant_id tenant && leb since a.created_at)
        t.anomalies in
    let slow = filter (λ (q : SlowQuery). leb since q.recorded_at) t.slow_queries in
    record {
      total_runs = length payouts;
      failed_runs = count (λ (p : PayoutLog). str_eq p.status "failed") payouts;
      duplicate_runs = count (λ (p : PayoutLog). str_eq p.status "duplicate") payouts;
      count_high = count (λ (a : AnomalyLog). str_eq a.risk_level "high") anomalies;
      count_critical = count (λ (a : AnomalyLog). str_eq a.risk_level "critical") anomalies;
      count_lockouts = count (λ (a : AnomalyLog). is_some a.lockout_applied) anomalies;
      slow_count = length slow;
      slow_duration = total_duration slow;
      regulatory_breaches = count (leb since) t.regulatory_reports;
      failover_events = count (λ (q : SlowQuery). includes (to_lower q.label) "failover") slow;
      db_integrity_ok = t.integrity_ok;
    }

-- The four parts of the operational score.
unfoldable pub integrity_points : Bool → ℕ
integrity_points ok = if ok then 0 else 40

unfoldable pub failover_points : ℕ → ℕ
failover_points n = if ltb 0 n then min (n * 15) 30 else 0

unfoldable pub slow_points : ℕ → ℕ
slow_points n = if ltb 50 n then 20 else if ltb 20 n then 10 else if ltb 5 n then 5 else 0

-- The mean duration is compared through the sum, which is 0 where there is none.
unfoldable pub duration_points : ℕ → ℕ → ℕ
duration_points n sum = if ltb (500 * n) sum then 10 else if ltb (200 * n) sum then 5 else 0

abbrev pub operational_points : AuditInputs → ℕ
operational_points i =
    integrity_points i.db_integrity_ok
    + failover_points i.failover_events
    + slow_points i.slow_count
    + duration_points i.slow_count i.slow_duration

unfoldable pub score_operational : AuditInputs → ℕ
score_operational i = min (operational_points i) 100

unfoldable pub score_security : AuditInputs → ℕ
score_security i =
    min (min (i.count_critical * 12) 48 + min (i.count_high * 4) 24 + min (i.count_lockouts * 3) 18)
      100

unfoldable pub score_compliance : AuditInputs → ℕ
score_compliance i = min (min (i.regulatory_breaches * 20) 60 + min (i.duplicate_runs * 8) 40) 100

-- Whether the rate of failed payouts is above a number of hundredths.
abbrev pub fails_above : ℕ → AuditInputs → Bool
fails_above pct i = ltb 0 i.total_runs && ltb (pct * i.total_runs) (100 * i.failed_runs)

unfoldable pub score_financial : AuditInputs → ℕ
score_financial i =
    if fails_above 25 i
    then 100
    else if fails_above 15 i
    then 75
    else if fails_above 8 i
    then 50
    else if fails_above 3 i
    then 25
    else if fails_above 1 i
    then 10
    else 0

unfoldable pub component_scores : AuditInputs → ComponentScores
component_scores i = record {
  operational = score_operational i;
  security = score_security i;
  compliance = score_compliance i;
  financial = score_financial i;
}

-- The weighted sum, `Math.round`ed: the weights are tenths.
unfoldable pub composite_score : ComponentScores → ℕ
composite_score c =
    (3 * c.operational + 3 * c.security + 2 * c.compliance + 2 * c.financial + 5) / 10
