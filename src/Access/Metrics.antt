-- ===== src/Access/Metrics.antt =====
-- The metrics that guards leave, and what the evaluation of warranties in src/routes/insurance.ts
-- counts of them.
use caas_lite.Prelude.{
  ℕ, ◌+◌, ◌<◌, ◌≡◌, refl, ap, ◌∙◌, inl, inr, String, Bool, true, false, ◌&&◌, Option, none, some,
  List, [], ◌∷◌, ◌++◌, if◌then◌else◌, eq_iff, arith, count, Bool-cases, Option-cases,
}
use caas_lite.Database.{Metric}
use caas_lite.Insurance.Evaluate.{
  anomaly_window_days, drift_window_days, days_ago, in_window, is_denied, is_crossing,
  total_requests, denied_requests, boundary_crossings,
}
use caas_lite.Access.Boundary.{
  DualPlanePrincipal, DualPlaneRequirement, BoundaryEvaluationResult, unauthenticated, read_only,
  evaluate_boundary,
}
use caas_lite.Access.Middleware.{
  AccessRequest, AccessTables, AccessMetricRow, Answer, next, access_denied_403, tenant_of, metric,
  refusal, resolve_principal, is_blocked_write, write_access_metric, decide, require_dual_plane,
}

-- The columns that the evaluation of warranties reads; it never meets a row without a tenant.
abbrev pub to_metric : String → AccessMetricRow → Metric
to_metric tenant m = record {
  user_tenant_id = tenant;
  access_granted = m.access_granted;
  is_boundary_crossing = m.is_boundary_crossing;
  evaluated_at = m.evaluated_at;
}

unfoldable pub to_metrics : List AccessMetricRow → List Metric
to_metrics [] = []
to_metrics (m ∷ ms) = elim m.user_tenant_id [
  | none ↦ to_metrics ms
  | some tenant ↦ to_metric tenant m ∷ to_metrics ms
]

abbrev pub lets_through : Answer → Bool
lets_through (next p) = true
lets_through _ = false

abbrev pub names_crossing : Answer → Bool
names_crossing (access_denied_403 p e) = e.is_boundary_crossing
names_crossing _ = false

granted_not_crossing :
    (p : DualPlanePrincipal) (r : DualPlaneRequirement) (o : Option String)
    → (evaluate_boundary p r o).granted ≡ true
    → (evaluate_boundary p r o).is_boundary_crossing ≡ false
unfolding evaluate_boundary
granted_not_crossing p r o e = ground arith

-- The row goes with the answer.
abbrev pub Records : Answer × AccessTables → AccessTables → Option String → ℕ → Type 0
Records w db tenant now =
    (m : AccessMetricRow) × (w.1.metrics ≡ db.metrics ++ m ∷ [])
    × (m.user_tenant_id ≡ tenant)
    × (m.evaluated_at ≡ now)
    × (m.access_granted ≡ lets_through w.0)
    × (m.is_boundary_crossing ≡ names_crossing w.0)

decide-Records :
    (req : AccessRequest) (p : DualPlanePrincipal) (r : DualPlaneRequirement)
    (e : BoundaryEvaluationResult) (now : ℕ) (db : AccessTables)
    → (e.granted ≡ true → e.is_boundary_crossing ≡ false)
    → Records (decide req p r e now db) db p.tenant_id now
unfolding decide write_access_metric metric
decide-Records req p r e now db h = elim (Bool-cases (e.granted && is_blocked_write p req.method)) [
  | inl b ↦
      rw (b, decide)
        (
          metric req (some p) r (refusal (read_only p.plane_role req.method) true) now db.metrics,
          refl,
          refl,
          refl,
          refl,
          refl,
        )
  | inr b ↦ elim (Bool-cases e.granted) [
    | inl g ↦
        let done : decide req p r e now db ≡ (next p, write_access_metric req (some p) r e now db) =
          ground arith in
        rw done (metric req (some p) r e now db.metrics, refl, refl, refl, g, h g)
    | inr g ↦
        let done : decide req p r e now db
            ≡ (access_denied_403 p e, write_access_metric req (some p) r e now db) =
          ground arith in
        rw done (metric req (some p) r e now db.metrics, refl, refl, refl, g, refl)
  ]
]

-- Every request leaves one metric, of the user's tenant and the time of the request, which says
-- whether the request was let through and whether the answer names a boundary crossing.
pub require_dual_plane-Records :
    (r : DualPlaneRequirement) (req : AccessRequest) (now : ℕ) (db : AccessTables)
    → Records (require_dual_plane r req now db) db (tenant_of (resolve_principal req db)) now
unfolding require_dual_plane write_access_metric metric
require_dual_plane-Records r req now db = elim (Option-cases (resolve_principal req db)) [
  | inl e ↦
      rw (e, require_dual_plane)
        (
          metric req none r (refusal unauthenticated false) now db.metrics,
          refl,
          refl,
          refl,
          refl,
          refl,
        )
  | inr (p, e) ↦
      rw (e, require_dual_plane)
        (decide-Records req p r _ now db (granted_not_crossing p r req.x_tenant_id))
]

count-to_metrics :
    (q : Metric → Bool) (tenant : String) (ms : List AccessMetricRow) (m : AccessMetricRow)
    → m.user_tenant_id ≡ some tenant
    → count q (to_metrics (ms ++ m ∷ []))
      ≡ count q (to_metrics ms) + (if q (to_metric tenant m) then 1 else 0)
unfolding to_metrics
count-to_metrics q tenant [] m e = rw (e, to_metrics) (ground arith)
count-to_metrics q tenant (k ∷ ms) m e = elim (Option-cases k.user_tenant_id) [
  | inl n ↦ rw (n, to_metrics) (count-to_metrics q tenant ms m e)
  | inr (o, n) ↦ rw (n, to_metrics) (ground (arith, count-to_metrics q tenant ms m e))
]

inside :
    (tenant : String) (from : ℕ) (m : AccessMetricRow) (now : ℕ)
    → m.evaluated_at ≡ now
    → from < now
    → in_window tenant from (to_metric tenant m) ≡ true
unfolding in_window
inside tenant from m now e h = ground (arith, eq_iff tenant tenant)

-- While a request of a tenant's user is in the windows of an evaluation of the tenant's warranties,
-- the evaluation counts one more request, one more denial if the request was not let through, and
-- one more crossing if the answer names one.
pub evaluation_counts_request :
    (r : DualPlaneRequirement) (req : AccessRequest) (now later : ℕ) (db : AccessTables)
    (p : DualPlanePrincipal) (tenant : String)
    → resolve_principal req db ≡ some p
    → p.tenant_id ≡ some tenant
    → days_ago later anomaly_window_days < now
    → days_ago later drift_window_days < now
    → let w = require_dual_plane r req now db in
      let before = to_metrics db.metrics in
      let after = to_metrics w.1.metrics in
      (total_requests tenant later after ≡ total_requests tenant later before + 1)
      × (denied_requests tenant later after
          ≡ denied_requests tenant later before + (if lets_through w.0 then 0 else 1))
      × (boundary_crossings tenant later after
          ≡ boundary_crossings tenant later before + (if names_crossing w.0 then 1 else 0))
unfolding total_requests denied_requests boundary_crossings
evaluation_counts_request r req now later db p tenant e own week month =
    let (m, appended, of_tenant, at, passed, crossed) = require_dual_plane-Records r req now db in
    let mine : m.user_tenant_id ≡ some tenant = of_tenant ∙ ap tenant_of e ∙ own in
    let counts = λ (q : Metric → Bool). count-to_metrics q tenant db.metrics m mine in
    let in_week = inside tenant (days_ago later anomaly_window_days) m now at week in
    let in_month = inside tenant (days_ago later drift_window_days) m now at month in
    rw appended (
      (counts (in_window tenant (days_ago later anomaly_window_days)) ∙ ground (arith, in_week)),
      (counts (λ x. in_window tenant (days_ago later anomaly_window_days) x && is_denied x)
          ∙ ground (arith, in_week, passed)),
      (counts (λ x. in_window tenant (days_ago later drift_window_days) x && is_crossing x)
          ∙ ground (arith, in_month, crossed)),
    )
