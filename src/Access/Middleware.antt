-- ===== src/Access/Middleware.antt =====
-- `requireDualPlane` of src/middleware/dualPlaneAuth.ts, the guards made of it, and the metric that
-- each request leaves. `now` is the clock reading of a request. A failure of the database while a
-- metric is written, which the source catches, is left out.
use caas_lite.Prelude.{
  ℕ, ◌+◌, ◌-◌, String, Bool, true, false, not, ◌&&◌, Option, none, some, List, [], ◌∷◌, ◌++◌,
  if◌then◌else◌, str_eq, leb, any, count,
}
use Prim.Native.String
use caas_lite.Access.Roles.{
  ControlPlane, business, client, plane_eq, PlaneRole, global_super_admin, client_partner, role_eq,
  capabilities,
}
use caas_lite.Access.Boundary.{
  DualPlanePrincipal, DualPlaneRequirement, Denial, unauthenticated, read_only,
  BoundaryEvaluationResult, listed, evaluate_boundary,
}

-- The columns of `users` that are read.
pub record User : Type 0 where
  pub id : String
  pub username : String
  pub control_plane : Option ControlPlane
  pub plane_role : Option PlaneRole
  pub plane_tenant_scope : Option String
  pub legacy_role : String
  pub tenant_id : Option String

-- A row of `role_access_metrics`, its id left out.
pub record AccessMetricRow : Type 0 where
  pub user_id : String
  pub username : String
  pub user_plane : Option ControlPlane
  pub user_plane_role : Option PlaneRole
  pub user_tenant_id : Option String
  pub requested_resource : String
  pub requested_method : String
  pub required_plane : Option ControlPlane
  pub required_roles : List PlaneRole
  pub access_granted : Bool
  pub denial_reason : Option Denial
  pub is_boundary_crossing : Bool
  pub is_tenant_violation : Bool
  pub is_elevation_attempt : Bool
  pub ip_address : Option String
  pub user_agent : Option String
  pub request_id : Option String
  pub evaluated_at : ℕ
  pub denial_count_1h : ℕ

pub record AccessTables : Type 0 where
  pub users : List User
  pub metrics : List AccessMetricRow

-- What is read of a request; `caas_user_id` is set by the check of its token.
pub record AccessRequest : Type 0 where
  pub method : String
  pub path : String
  pub caas_user_id : Option String
  pub x_tenant_id : Option String
  pub x_request_id : Option String
  pub x_forwarded_for : Option String
  pub remote_address : Option String
  pub user_agent : Option String

-- The next handler with the principal attached, or the answer.
pub data Answer : Type 0 where
  next : DualPlanePrincipal → Answer
  unauthenticated_401 : Answer
  write_denied_403 : DualPlanePrincipal → Answer
  access_denied_403 : DualPlanePrincipal → BoundaryEvaluationResult → Answer

abbrev pub first_of : Option String → Option String → Option String
first_of none b = b
first_of (some a) b = some a

abbrev pub default_of {ℓ} : {A : Type ℓ} → Option A → A → A
default_of none d = d
default_of (some a) d = a

-- Who is recorded: nobody is "anonymous".
abbrev pub user_id_of : Option DualPlanePrincipal → String
user_id_of none = "anonymous"
user_id_of (some p) = p.user_id

abbrev pub username_of : Option DualPlanePrincipal → String
username_of none = "anonymous"
username_of (some p) = p.username

abbrev pub plane_of : Option DualPlanePrincipal → Option ControlPlane
plane_of none = none
plane_of (some p) = some p.control_plane

abbrev pub role_of : Option DualPlanePrincipal → Option PlaneRole
role_of none = none
role_of (some p) = some p.plane_role

abbrev pub tenant_of : Option DualPlanePrincipal → Option String
tenant_of none = none
tenant_of (some p) = p.tenant_id

abbrev pub is_recent_denial : String → ℕ → AccessMetricRow → Bool
is_recent_denial user since m =
    str_eq m.user_id user && not m.access_granted && leb since m.evaluated_at

-- The denials of the user in the last hour, this one included.
unfoldable pub denial_count : Option DualPlanePrincipal → Bool → ℕ → List AccessMetricRow → ℕ
denial_count none granted now ms = 0
denial_count (some p) granted now ms =
    if granted then 0 else count (is_recent_denial p.user_id (now - 3600000)) ms + 1

abbrev pub required_roles : DualPlaneRequirement → List PlaneRole
required_roles r = listed r.roles ++ listed r.business_roles ++ listed r.client_roles

abbrev pub resource_label : AccessRequest → DualPlaneRequirement → String
resource_label req r =
    default_of r.resource_label (String.◌++◌ req.method (String.◌++◌ " " req.path))

unfoldable pub metric :
    AccessRequest
    → Option DualPlanePrincipal
    → DualPlaneRequirement
    → BoundaryEvaluationResult
    → ℕ
    → List AccessMetricRow
    → AccessMetricRow
metric req p r e now ms = record {
  user_id = user_id_of p;
  username = username_of p;
  user_plane = plane_of p;
  user_plane_role = role_of p;
  user_tenant_id = tenant_of p;
  requested_resource = resource_label req r;
  requested_method = req.method;
  required_plane = r.plane;
  required_roles = required_roles r;
  access_granted = e.granted;
  denial_reason = e.denial_reason;
  is_boundary_crossing = e.is_boundary_crossing;
  is_tenant_violation = e.is_tenant_violation;
  is_elevation_attempt = e.is_elevation_attempt;
  ip_address = first_of req.x_forwarded_for req.remote_address;
  user_agent = req.user_agent;
  request_id = req.x_request_id;
  evaluated_at = now;
  denial_count_1h = denial_count p e.granted now ms;
}

-- After five denials the code also writes to `anomaly_logs`; that statement names the column
-- metadata_json, which the table lacks, so that it throws, is caught and changes nothing.
unfoldable pub write_access_metric :
    AccessRequest
    → Option DualPlanePrincipal
    → DualPlaneRequirement
    → BoundaryEvaluationResult
    → ℕ
    → AccessTables
    → AccessTables
write_access_metric req p r e now db =
    let m = metric req p r e now db.metrics in record db { metrics = db.metrics ++ m ∷ [] }

unfoldable pub find_user : String → List User → Option User
find_user id [] = none
find_user id (u ∷ us) = if str_eq u.id id then some u else find_user id us

abbrev pub principal_of : User → DualPlanePrincipal
principal_of u = record {
  user_id = u.id;
  username = u.username;
  control_plane = default_of u.control_plane client;
  plane_role = default_of u.plane_role client_partner;
  plane_tenant_scope = u.plane_tenant_scope;
  legacy_role = u.legacy_role;
  tenant_id = u.tenant_id;
}

-- An empty id counts as none.
unfoldable pub resolve_principal : AccessRequest → AccessTables → Option DualPlanePrincipal
resolve_principal req db = elim req.caas_user_id [
  | none ↦ none
  | some id ↦
      if str_eq id ""
      then none
      else elim (find_user id db.users) [ none ↦ none | some u ↦ some (principal_of u) ]
]

abbrev pub is_mutation : String → Bool
is_mutation method = any (str_eq method) ("POST" ∷ "PUT" ∷ "PATCH" ∷ "DELETE" ∷ [])

-- The test of the write protection, but for `evaluation.granted`.
unfoldable pub is_blocked_write : DualPlanePrincipal → String → Bool
is_blocked_write p method =
    plane_eq p.control_plane business
    && not (role_eq p.plane_role global_super_admin)
    && not (capabilities p.plane_role).can_write_all_tenants
    && is_mutation method

abbrev pub refusal : Denial → Bool → BoundaryEvaluationResult
refusal reason elevation = record {
  granted = false;
  denial_reason = some reason;
  is_boundary_crossing = false;
  is_tenant_violation = false;
  is_elevation_attempt = elevation;
}

-- The middleware for a principal whose boundary is evaluated.
unfoldable pub decide :
    AccessRequest
    → DualPlanePrincipal
    → DualPlaneRequirement
    → BoundaryEvaluationResult
    → ℕ
    → AccessTables
    → Answer × AccessTables
decide req p r e now db =
    if e.granted && is_blocked_write p req.method
    then (
      write_denied_403 p,
      write_access_metric req (some p) r (refusal (read_only p.plane_role req.method) true) now db,
    )
    else if not e.granted
    then (access_denied_403 p e, write_access_metric req (some p) r e now db)
    else (next p, write_access_metric req (some p) r e now db)

unfoldable pub require_dual_plane :
    DualPlaneRequirement → AccessRequest → ℕ → AccessTables → Answer × AccessTables
require_dual_plane r req now db = elim (resolve_principal req db) [
  | none ↦
      (unauthenticated_401, write_access_metric req none r (refusal unauthenticated false) now db)
  | some p ↦ decide req p r (evaluate_boundary p r req.x_tenant_id) now db
]
