-- ===== src/Access/Guards.antt =====
-- The guards that src/middleware/dualPlaneAuth.ts makes of `requireDualPlane`.
use caas_lite.Prelude.{String, Bool, true, Option, none, some, List, [], ◌∷◌}
use caas_lite.Access.Roles.{
  ControlPlane, business, client, PlaneRole, global_super_admin, platform_ops, business_plane_roles,
  client_plane_roles,
}
use caas_lite.Access.Boundary.{DualPlanePrincipal, DualPlaneRequirement}
use caas_lite.Access.Middleware.{default_of, AccessRequest, AccessTables, resolve_principal}

abbrev pub on_plane :
    ControlPlane → List PlaneRole → Option Bool → Option String → DualPlaneRequirement
on_plane plane roles isolation label = record {
  plane = some plane;
  roles = some roles;
  business_roles = none;
  client_roles = none;
  enforce_tenant_isolation = isolation;
  resource_label = label;
}

abbrev pub on_both : List PlaneRole → List PlaneRole → Option String → DualPlaneRequirement
on_both business_roles client_roles label = record {
  plane = none;
  roles = none;
  business_roles = some business_roles;
  client_roles = some client_roles;
  enforce_tenant_isolation = none;
  resource_label = label;
}

-- Each is the requirement that the guard passes to `requireDualPlane`.
unfoldable pub require_any_plane : DualPlaneRequirement
require_any_plane = on_both business_plane_roles client_plane_roles (some "any-plane-resource")

unfoldable pub require_business_plane : Option (List PlaneRole) → DualPlaneRequirement
require_business_plane roles = on_plane business (default_of roles business_plane_roles) none none

unfoldable pub require_client_plane : Option (List PlaneRole) → DualPlaneRequirement
require_client_plane roles = on_plane client (default_of roles client_plane_roles) (some true) none

unfoldable pub require_global_super_admin : DualPlaneRequirement
require_global_super_admin =
    on_plane business (global_super_admin ∷ []) none (some "global-super-admin-resource")

unfoldable pub require_platform_ops : DualPlaneRequirement
require_platform_ops =
    on_plane business (global_super_admin ∷ platform_ops ∷ []) none (some "platform-ops-resource")

unfoldable pub replication_guard : DualPlaneRequirement
replication_guard =
    on_both (global_super_admin ∷ platform_ops ∷ []) [] (some "db-replication-backup")

-- `injectPlaneContext`: the principal that it attaches.
unfoldable pub inject_plane_context : AccessRequest → AccessTables → Option DualPlanePrincipal
inject_plane_context req db = resolve_principal req db
