-- ===== src/Access/Roles.antt =====
-- The planes, the roles and what a role can do: src/middleware/dualPlaneAuth.ts and
-- src/db/migrations/phase12_roles.ts.
use caas_lite.Prelude.{ℕ, ◌≡◌, ◌↔◌, Bool, true, false, List, [], ◌∷◌, ◌==◌, arith}

pub data ControlPlane : Type 0 where
  business client : ControlPlane

abbrev pub plane_eq : ControlPlane → ControlPlane → Bool
plane_eq business business = true
plane_eq client client = true
plane_eq _ _ = false

pub data PlaneRole : Type 0 where
  global_super_admin platform_auditor platform_finance platform_ops platform_support : PlaneRole
  client_super_admin client_executive client_auditor client_finance client_partner : PlaneRole

abbrev pub business_plane_roles : List PlaneRole
business_plane_roles =
    global_super_admin ∷ platform_auditor ∷ platform_finance ∷ platform_ops ∷ platform_support ∷ []

abbrev pub client_plane_roles : List PlaneRole
client_plane_roles =
    client_super_admin ∷ client_executive ∷ client_auditor ∷ client_finance ∷ client_partner ∷ []

abbrev index : PlaneRole → ℕ
index global_super_admin = 0
index platform_auditor = 1
index platform_finance = 2
index platform_ops = 3
index platform_support = 4
index client_super_admin = 5
index client_executive = 6
index client_auditor = 7
index client_finance = 8
index client_partner = 9

-- `===` on roles.
unfoldable pub role_eq : PlaneRole → PlaneRole → Bool
role_eq a b = index a == index b

same_index : (a b : PlaneRole) → index a ≡ index b → a ≡ b
same_index a b h = ground arith

pub role_eq_iff : (a b : PlaneRole) → (role_eq a b ≡ true) ↔ (a ≡ b)
unfolding role_eq
role_eq_iff a b = ((λ e. same_index a b (ground arith)), (λ e. rw e (ground arith)))

pub record Capabilities : Type 0 where
  pub can_read_all_tenants : Bool
  pub can_write_all_tenants : Bool
  pub can_manage_users : Bool
  pub can_manage_billing : Bool
  pub can_trigger_backup : Bool
  pub can_view_metrics : Bool
  pub can_manage_platform : Bool
  pub can_read_own_tenant : Bool
  pub can_write_own_tenant : Bool
  pub can_read_own_profile : Bool

abbrev pub capability_row :
    Bool → Bool → Bool → Bool → Bool → Bool → Bool → Bool → Bool → Bool → Capabilities
capability_row read write users billing backup metrics platform own_read own_write profile =
    record {
      can_read_all_tenants = read;
      can_write_all_tenants = write;
      can_manage_users = users;
      can_manage_billing = billing;
      can_trigger_backup = backup;
      can_view_metrics = metrics;
      can_manage_platform = platform;
      can_read_own_tenant = own_read;
      can_write_own_tenant = own_write;
      can_read_own_profile = profile;
    }

-- `PLANE_ROLE_CAPABILITIES`, a row for each role.
unfoldable pub capabilities : PlaneRole → Capabilities
capabilities global_super_admin = capability_row true true true true true true true true true true
capabilities platform_auditor =
    capability_row true false false false false true false true false true
capabilities platform_finance =
    capability_row true false false true false true false true false true
capabilities platform_ops = capability_row true false false false true true true true false true
capabilities platform_support =
    capability_row true false false false false false false true false true
capabilities client_super_admin =
    capability_row false false true true false true false true true true
capabilities client_executive =
    capability_row false false false true false true false true true true
capabilities client_auditor =
    capability_row false false false false false true false true false true
capabilities client_finance =
    capability_row false false false true false false false true false true
capabilities client_partner =
    capability_row false false false false false false false false false true
