-- ===== src/Access/Laws.antt =====
-- Who passes a guard.
use caas_lite.Prelude.{
  ℕ, ◌≡◌, ◌≢◌, ◌↔◌, ◌⊎◌, refl, sym, ap, ◌∙◌, inl, inr, String, true, false, not, ◌&&◌, Option, none,
  some, List, [], ◌∷◌, eq_iff, arith, In, Option-cases,
}
use mathlib.Core.Path.{subst}
use caas_lite.Access.Roles.{
  business, client, PlaneRole, global_super_admin, role_eq_iff, capabilities,
}
use caas_lite.Access.Boundary.{
  DualPlanePrincipal, DualPlaneRequirement, BoundaryEvaluationResult, allowed_roles, missed_plane,
  includes_role, is_empty, isolation, strays, evaluate_boundary,
}
use caas_lite.Access.Middleware.{
  AccessRequest, AccessTables, Answer, next, unauthenticated_401, resolve_principal, is_mutation,
  is_blocked_write, decide, require_dual_plane,
}

-- The user is on the required plane, if one is required.
abbrev pub PlaneFits : DualPlanePrincipal → DualPlaneRequirement → Type 0
PlaneFits p r = elim r.plane [ none ↦ Unit | some plane ↦ p.control_plane ≡ plane ]

-- No role is required, or the user's is among those that are.
abbrev pub RoleFits : DualPlanePrincipal → DualPlaneRequirement → Type 0
RoleFits p r = (allowed_roles r ≡ []) ⊎ In p.plane_role (allowed_roles r)

-- A client with a scope asks for no tenant or its own, unless isolation is turned off.
abbrev pub InScope : DualPlanePrincipal → DualPlaneRequirement → Option String → Type 0
InScope p r request_tenant = elim request_tenant [
  | none ↦ Unit
  | some target ↦ elim p.plane_tenant_scope [
    | none ↦ Unit
    | some scope ↦ (scope ≡ target) ⊎ ((p.control_plane ≡ business) ⊎ (isolation r ≡ false))
  ]
]

-- On the business plane only the super admin changes anything.
abbrev pub MayWrite : DualPlanePrincipal → String → Type 0
MayWrite p method =
    (is_mutation method ≡ false)
    ⊎ ((p.control_plane ≡ client) ⊎ (p.plane_role ≡ global_super_admin))

plane_iff :
    (p : DualPlanePrincipal) (r : DualPlaneRequirement) → (missed_plane p r ≡ none) ↔ PlaneFits p r
unfolding missed_plane
plane_iff p r = ground arith

includes_iff :
    (role : PlaneRole) (rs : List PlaneRole) → (includes_role role rs ≡ true) ↔ In role rs
unfolding includes_role
includes_iff role [] = ground arith
includes_iff role (r ∷ rs) = ground (arith, role_eq_iff role r, includes_iff role rs)

role_iff :
    (p : DualPlanePrincipal) (rs : List PlaneRole)
    → ((not (is_empty rs) && not (includes_role p.plane_role rs)) ≡ false)
      ↔ ((rs ≡ []) ⊎ In p.plane_role rs)
role_iff p [] = ((λ _. inl refl), (λ _. refl))
role_iff p (r ∷ rs) = ground (arith, includes_iff p.plane_role (r ∷ rs))

scope_iff :
    (p : DualPlanePrincipal) (r : DualPlaneRequirement) (o : Option String)
    → (strays p r o ≡ none) ↔ InScope p r o
unfolding strays
scope_iff p r none = ground arith
scope_iff p r (some target) = elim (Option-cases p.plane_tenant_scope) [
  | inl e ↦ ground arith
  | inr (scope, e) ↦ ground (arith, eq_iff scope target)
]

super_writes :
    (role : PlaneRole)
    → ((capabilities role).can_write_all_tenants ≡ true) ↔ (role ≡ global_super_admin)
unfolding capabilities
super_writes role = ground arith

write_iff :
    (p : DualPlanePrincipal) (method : String)
    → (is_blocked_write p method ≡ false) ↔ MayWrite p method
unfolding is_blocked_write
write_iff p method =
    ground (arith, super_writes p.plane_role, role_eq_iff p.plane_role global_super_admin)

granted_iff :
    (p : DualPlanePrincipal) (r : DualPlaneRequirement) (o : Option String)
    → ((evaluate_boundary p r o).granted ≡ true) ↔ (
        (missed_plane p r ≡ none)
        × ((not (is_empty (allowed_roles r)) && not (includes_role p.plane_role (allowed_roles r)))
            ≡ false)
        × (strays p r o ≡ none))
unfolding evaluate_boundary
granted_iff p r o = ground arith

decide_iff :
    (req : AccessRequest) (p q : DualPlanePrincipal) (r : DualPlaneRequirement)
    (e : BoundaryEvaluationResult) (now : ℕ) (db : AccessTables)
    → ((decide req p r e now db).0 ≡ next q)
      ↔ ((p ≡ q) × (e.granted ≡ true) × (is_blocked_write p req.method ≡ false))
unfolding decide
decide_iff req p q r e now db = ground arith

resolved :
    (r : DualPlaneRequirement) (req : AccessRequest) (now : ℕ) (db : AccessTables)
    (p : DualPlanePrincipal)
    → resolve_principal req db ≡ some p
    → require_dual_plane r req now db
      ≡ decide req p r (evaluate_boundary p r req.x_tenant_id) now db
unfolding require_dual_plane
resolved r req now db p e = rw (e, require_dual_plane) refl

unresolved :
    (r : DualPlaneRequirement) (req : AccessRequest) (now : ℕ) (db : AccessTables)
    → resolve_principal req db ≡ none
    → (require_dual_plane r req now db).0 ≡ unauthenticated_401
unfolding require_dual_plane
unresolved r req now db e = rw (e, require_dual_plane) refl

-- What is asked of the user and the request.
abbrev pub MayPass : DualPlanePrincipal → DualPlaneRequirement → AccessRequest → Type 0
MayPass p r req = PlaneFits p r × RoleFits p r × InScope p r req.x_tenant_id × MayWrite p req.method

passes :
    (p : DualPlanePrincipal) (r : DualPlaneRequirement) (req : AccessRequest)
    → (evaluate_boundary p r req.x_tenant_id).granted ≡ true
    → is_blocked_write p req.method ≡ false
    → MayPass p r req
passes p r req g w =
    let (plane, role, scope) = (granted_iff p r req.x_tenant_id).0 g in
    (
      (plane_iff p r).0 plane,
      (role_iff p (allowed_roles r)).0 role,
      (scope_iff p r req.x_tenant_id).0 scope,
      (write_iff p req.method).0 w,
    )

may_pass :
    (p : DualPlanePrincipal) (r : DualPlaneRequirement) (req : AccessRequest)
    → MayPass p r req
    → ((evaluate_boundary p r req.x_tenant_id).granted ≡ true)
      × (is_blocked_write p req.method ≡ false)
may_pass p r req (plane, role, scope, write) = (
  (granted_iff p r req.x_tenant_id).1 (
    (plane_iff p r).1 plane,
    (role_iff p (allowed_roles r)).1 role,
    (scope_iff p r req.x_tenant_id).1 scope,
  ),
  (write_iff p req.method).1 write,
)

pass_sound :
    (r : DualPlaneRequirement) (req : AccessRequest) (now : ℕ) (db : AccessTables)
    (p : DualPlanePrincipal)
    → (require_dual_plane r req now db).0 ≡ next p
    → (resolve_principal req db ≡ some p) × MayPass p r req
pass_sound r req now db p h = elim (Option-cases (resolve_principal req db)) [
  | inl e ↦ absurd (ground (arith, unresolved r req now db e))
  | inr (q, e) ↦
      let decided = ap (λ (x : Answer × AccessTables). x.0) (sym (resolved r req now db q e)) ∙ h in
      let (same, granted, free) = (decide_iff req q p r _ now db).0 decided in
      (e ∙ ap some same, subst (λ x. MayPass x r req) same (passes q r req granted free))
]

-- A request passes a guard, with a user attached, exactly if it is that user's, the user is on the
-- plane that is required, has a role that is required, as a client asks for no tenant but its own,
-- and on the business plane changes nothing unless it is the global super admin. No plane, no role
-- and no scope are no restriction, and isolation can be turned off.
pub require_dual_plane_iff :
    (r : DualPlaneRequirement) (req : AccessRequest) (now : ℕ) (db : AccessTables)
    (p : DualPlanePrincipal)
    → ((require_dual_plane r req now db).0 ≡ next p)
      ↔ ((resolve_principal req db ≡ some p) × MayPass p r req)
require_dual_plane_iff r req now db p = (
  pass_sound r req now db p,
  (λ (e, may).
      let (granted, free) = may_pass p r req may in
      ap (λ (x : Answer × AccessTables). x.0) (resolved r req now db p e)
      ∙ (decide_iff req p p r _ now db).1 (refl, granted, free)),
)

-- On the business plane nobody but the global super admin passes any guard with a request that
-- changes something, be it a guard that names the role of the user.
pub business_reads_only :
    (r : DualPlaneRequirement) (req : AccessRequest) (now : ℕ) (db : AccessTables)
    (p q : DualPlanePrincipal)
    → resolve_principal req db ≡ some p
    → p.control_plane ≡ business
    → p.plane_role ≢ global_super_admin
    → is_mutation req.method ≡ true
    → (require_dual_plane r req now db).0 ≢ next q
business_reads_only r req now db p q e plane role write h =
    let (found, may) = (require_dual_plane_iff r req now db q).0 h in
    let same : p ≡ q = cc in
    let writes = subst (λ x. MayWrite x req.method) (sym same) may.3 in ground arith
