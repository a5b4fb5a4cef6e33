-- ===== src/Access/Boundary.antt =====
-- `evaluateBoundary` of src/middleware/dualPlaneAuth.ts. The reason of a denial is a value in place
-- of its text.
use caas_lite.Prelude.{
  String, Bool, true, false, not, ◌&&◌, ◌||◌, Option, none, some, List, [], ◌∷◌, ◌++◌,
  if◌then◌else◌, str_eq, any,
}
use caas_lite.Access.Roles.{
  ControlPlane, client, plane_eq, PlaneRole, role_eq, Capabilities, capabilities,
}

pub record DualPlanePrincipal : Type 0 where
  pub user_id : String
  pub username : String
  pub control_plane : ControlPlane
  pub plane_role : PlaneRole
  pub plane_tenant_scope : Option String
  pub legacy_role : String
  pub tenant_id : Option String

pub record DualPlaneRequirement : Type 0 where
  pub plane : Option ControlPlane
  pub roles : Option (List PlaneRole)
  pub business_roles : Option (List PlaneRole)
  pub client_roles : Option (List PlaneRole)
  pub enforce_tenant_isolation : Option Bool
  pub resource_label : Option String

pub data Denial : Type 0 where
  unauthenticated : Denial
  plane_mismatch : ControlPlane → ControlPlane → Denial
  insufficient_role : List PlaneRole → PlaneRole → Denial
  tenant_mismatch : String → String → Denial
  read_only : PlaneRole → String → Denial

pub record BoundaryEvaluationResult : Type 0 where
  pub granted : Bool
  pub denial_reason : Option Denial
  pub is_boundary_crossing : Bool
  pub is_tenant_violation : Bool
  pub is_elevation_attempt : Bool

abbrev pub listed : Option (List PlaneRole) → List PlaneRole
listed none = []
listed (some rs) = rs

unfoldable pub allowed_roles : DualPlaneRequirement → List PlaneRole
allowed_roles r = elim r.plane [
  | some _ ↦ listed r.roles
  | none ↦ listed r.business_roles ++ listed r.client_roles
]

-- The required plane where the user is not on it.
unfoldable pub missed_plane : DualPlanePrincipal → DualPlaneRequirement → Option ControlPlane
missed_plane p r = elim r.plane [
  | none ↦ none
  | some plane ↦ if plane_eq p.control_plane plane then none else some plane
]

unfoldable pub includes_role : PlaneRole → List PlaneRole → Bool
includes_role role rs = any (role_eq role) rs

abbrev pub is_empty {ℓ} : {A : Type ℓ} → List A → Bool
is_empty [] = true
is_empty (x ∷ xs) = false

-- Whether the one set of capabilities has what the other lacks, of those that elevate.
unfoldable pub exceeds : Capabilities → Capabilities → Bool
exceeds cap user =
    (cap.can_write_all_tenants && not user.can_write_all_tenants)
    || (cap.can_manage_platform && not user.can_manage_platform)
    || (cap.can_trigger_backup && not user.can_trigger_backup)
    || (cap.can_manage_users && not user.can_manage_users)

unfoldable pub is_elevation : PlaneRole → List PlaneRole → Bool
is_elevation role rs = any (λ (r : PlaneRole). exceeds (capabilities r) (capabilities role)) rs

abbrev pub isolation : DualPlaneRequirement → Bool
isolation r = elim r.enforce_tenant_isolation [ none ↦ true | some b ↦ b ]

-- The scope and the target of a client whose request is for another tenant.
unfoldable pub strays :
    DualPlanePrincipal → DualPlaneRequirement → Option String → Option (String × String)
strays p r request_tenant =
    if isolation r && plane_eq p.control_plane client
    then elim request_tenant [
      | none ↦ none
      | some target ↦ elim p.plane_tenant_scope [
        | none ↦ none
        | some scope ↦ if str_eq scope target then none else some (scope, target)
      ]
    ]
    else none

abbrev pub denied : Denial → Bool → Bool → Bool → BoundaryEvaluationResult
denied reason crossing violation elevation = record {
  granted = false;
  denial_reason = some reason;
  is_boundary_crossing = crossing;
  is_tenant_violation = violation;
  is_elevation_attempt = elevation;
}

abbrev pub granted_result : BoundaryEvaluationResult
granted_result = record {
  granted = true;
  denial_reason = none;
  is_boundary_crossing = false;
  is_tenant_violation = false;
  is_elevation_attempt = false;
}

unfoldable pub evaluate_boundary :
    DualPlanePrincipal → DualPlaneRequirement → Option String → BoundaryEvaluationResult
evaluate_boundary p r request_tenant =
    let allowed = allowed_roles r in
    elim (missed_plane p r) [
      | some plane ↦ denied (plane_mismatch plane p.control_plane) true false false
      | none ↦
          if not (is_empty allowed) && not (includes_role p.plane_role allowed)
          then denied (insufficient_role allowed p.plane_role) false false
              (is_elevation p.plane_role allowed)
          else elim (strays p r request_tenant) [
            | some (scope, target) ↦ denied (tenant_mismatch scope target) false true false
            | none ↦ granted_result
          ]
    ]
