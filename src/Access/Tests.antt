-- ===== src/Access/Tests.antt =====
-- The theorems on access at concrete inputs.
use caas_lite.Prelude.{◌+◌, ◌≡◌, ◌≢◌, ◌↔◌, refl, String, none, some, [], ◌∷◌, arith, if◌then◌else◌}
use caas_lite.Insurance.Evaluate.{days_ago, total_requests, denied_requests, boundary_crossings}
use caas_lite.Access.Roles.{business, client, platform_ops, client_auditor}
use caas_lite.Access.Middleware.{
  User, AccessRequest, AccessTables, next, find_user, principal_of, tenant_of, resolve_principal,
  require_dual_plane,
}
use caas_lite.Access.Guards.{replication_guard, require_platform_ops, require_client_plane}
use caas_lite.Access.Laws.{MayPass, require_dual_plane_iff, business_reads_only}
use caas_lite.Access.Metrics.{
  Records, to_metrics, lets_through, names_crossing, require_dual_plane-Records,
  evaluation_counts_request,
}

abbrev operator : User
operator = record {
  id = "u1";
  username = "ops";
  control_plane = some business;
  plane_role = some platform_ops;
  plane_tenant_scope = none;
  legacy_role = "ADMIN";
  tenant_id = none;
}

abbrev auditor : User
auditor = record {
  id = "u2";
  username = "auditor";
  control_plane = some client;
  plane_role = some client_auditor;
  plane_tenant_scope = some "acme";
  legacy_role = "AUDITOR";
  tenant_id = some "acme";
}

abbrev db : AccessTables
db = record { users = operator ∷ auditor ∷ []; metrics = [] }

abbrev request : String → String → AccessRequest
request user method = record {
  method = method;
  path = "/api/v1/admin/backup";
  caas_user_id = some user;
  x_tenant_id = some "acme";
  x_request_id = none;
  x_forwarded_for = none;
  remote_address = some "10.0.0.1";
  user_agent = none;
}

operator_resolved : resolve_principal (request "u1" "POST") db ≡ some (principal_of operator)
unfolding resolve_principal find_user
operator_resolved = refl

auditor_resolved : resolve_principal (request "u2" "GET") db ≡ some (principal_of auditor)
unfolding resolve_principal find_user
auditor_resolved = refl

require_dual_plane_iff_example :
    ((require_dual_plane (require_client_plane none) (request "u2" "GET") 9 db).0
      ≡ next (principal_of auditor))
    ↔ ((resolve_principal (request "u2" "GET") db ≡ some (principal_of auditor))
        × MayPass (principal_of auditor) (require_client_plane none) (request "u2" "GET"))
require_dual_plane_iff_example =
    require_dual_plane_iff (require_client_plane none) (request "u2" "GET") 9 db
      (principal_of auditor)

-- The guard of backups names the role, and a backup is started by a POST.
business_reads_only_example :
    (require_dual_plane replication_guard (request "u1" "POST") 9 db).0
    ≢ next (principal_of operator)
business_reads_only_example =
    business_reads_only replication_guard (request "u1" "POST") 9 db (principal_of operator)
      (principal_of operator) operator_resolved refl (λ e. cc) refl

require_dual_plane-Records_example :
    Records
      (require_dual_plane replication_guard (request "u2" "GET") 9 db)
      db
      (tenant_of (resolve_principal (request "u2" "GET") db))
      9
require_dual_plane-Records_example =
    require_dual_plane-Records replication_guard (request "u2" "GET") 9 db

evaluation_counts_request_example :
    let w = require_dual_plane require_platform_ops (request "u2" "GET") 9 db in
    let after = to_metrics w.1.metrics in
    (total_requests "acme" 10 after ≡ total_requests "acme" 10 (to_metrics []) + 1)
    × (denied_requests "acme" 10 after
        ≡ denied_requests "acme" 10 (to_metrics []) + (if lets_through w.0 then 0 else 1))
    × (boundary_crossings "acme" 10 after
        ≡ boundary_crossings "acme" 10 (to_metrics []) + (if names_crossing w.0 then 1 else 0))
unfolding days_ago
evaluation_counts_request_example =
    evaluation_counts_request require_platform_ops (request "u2" "GET") 9 10 db
      (principal_of auditor) "acme" auditor_resolved refl (omega arith) (omega arith)
