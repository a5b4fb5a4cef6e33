-- ===== src/Insurance/Handlers.antt =====
-- The handlers of src/routes/insurance.ts, after their parameters and bodies have been validated.
-- A caller is what the access token says: the user's id and the tenant's.
pub mod Laws
use caas_lite.Prelude.{
  ℕ, String, Bool, true, false, not, ◌&&◌, ◌||◌, Option, none, some, List, [], ◌∷◌, ◌++◌,
  if◌then◌else◌, str_eq, leb, filter, length,
}
use caas_lite.Database.{
  PolicyState, active, WarrantyRow, AuditValue, null, state, external, Metadata, empty, of_binding,
  UserRow, AccountRow, Database, Runtime,
}
use caas_lite.Badge.Secrets.{ResolvedSecrets}
use caas_lite.Badge.Sync.{SyncBadgeResult, sync_badge}
use caas_lite.Insurance.Recompute.{
  RecomputeResult, commercial_audit_log, find_warranty, update_warranty, recompute_warranty,
}

pub record Caller : Type 0 where
  pub user_id : Option String
  pub tenant_id : Option String

pub data Reply : Type 0 where
  not_found : String → Reply
  policies : List WarrantyRow → ℕ → Reply
  policy : WarrantyRow → Reply
  bound : WarrantyRow → Reply
  recomputed : RecomputeResult → SyncBadgeResult → Reply
  attached : String → ℕ → Reply

abbrev pub get_actor_id : Caller → String
get_actor_id c = elim c.user_id [ some id ↦ id | none ↦ "system" ]

abbrev pub get_tenant_id : Caller → String
get_tenant_id c = elim c.tenant_id [ some id ↦ id | none ↦ "" ]

unfoldable pub has_super_role : String → List UserRow → Bool
has_super_role id [] = false
has_super_role id (u ∷ us) =
    if str_eq u.id id
    then elim u.plane_role [ some role ↦ str_eq role "global_super_admin" | none ↦ false ]
    else has_super_role id us

unfoldable pub is_caller_super_admin : Caller → Database → Bool
is_caller_super_admin c db = elim c.user_id [
  | none ↦ false
  | some id ↦ if str_eq id "" then false else has_super_role id db.users
]

-- The ownership check that every handler for one row makes.
unfoldable pub may_access : Caller → String → Database → Bool
may_access c tenant db = str_eq tenant (get_tenant_id c) || is_caller_super_admin c db

-- `ORDER BY state_changed_at DESC`
unfoldable pub insert_by_time : WarrantyRow → List WarrantyRow → List WarrantyRow
insert_by_time w [] = w ∷ []
insert_by_time w (v ∷ vs) =
    if leb v.state_changed_at w.state_changed_at then w ∷ v ∷ vs else v ∷ insert_by_time w vs

unfoldable pub sort_by_time : List WarrantyRow → List WarrantyRow
sort_by_time [] = []
sort_by_time (w ∷ ws) = insert_by_time w (sort_by_time ws)

unfoldable pub list_policies : Caller → Database → Reply
list_policies c db =
    let rows =
      sort_by_time
        (filter (λ (w : WarrantyRow). str_eq w.tenant_id (get_tenant_id c)) db.warranties) in
    policies rows (length rows)

unfoldable pub get_policy : Caller → String → Database → Reply
get_policy c id db = elim (find_warranty id db.warranties) [
  | none ↦ not_found "Policy not found"
  | some w ↦ if may_access c w.tenant_id db then policy w else not_found "Policy not found"
]

unfoldable pub find_account : String → List AccountRow → Option AccountRow
find_account id [] = none
find_account id (a ∷ as_) = if str_eq a.id id then some a else find_account id as_

abbrev pub new_warranty : String → ℕ → AccountRow → Option String → WarrantyRow
new_warranty id now a ends = record {
  id = id;
  tenant_id = a.tenant_id;
  account_id = a.id;
  policy_state = active;
  external_carrier_id = none;
  external_policy_number = none;
  state_evidence = none;
  coverage_started_at = now;
  coverage_ends_at = ends;
  state_changed_at = now;
  created_at = now;
  updated_at = now;
}

-- `bindPolicy`, with the ids of the warranty, the history row and the audit row.
unfoldable pub bind_policy :
    Runtime
    → ResolvedSecrets
    → ℕ
    → String × String × String
    → Caller
    → String
    → Option String
    → Database
    → Reply × Database
bind_policy rt secrets now (id, history_id, audit_id) c account_id ends db =
    elim (find_account account_id db.accounts) [
      | none ↦ (not_found "Account not found", db)
      | some a ↦
          let row = new_warranty id now a ends in
          let inserted : Database = record db { warranties = db.warranties ++ row ∷ [] } in
          let (_, synced) =
            sync_badge rt secrets now history_id a.tenant_id a.id
              (record { policy_state = some active; evidence = none }) inserted in
          if may_access c a.tenant_id db
          then (
            bound row,
            commercial_audit_log audit_id now a.tenant_id (some (get_actor_id c)) "warranty" id
                "bind" null (state active) (of_binding account_id ends) synced,
          )
          else (not_found "Account not found", db)
    ]

-- `recomputePolicy`
unfoldable pub recompute_policy :
    Runtime → ResolvedSecrets → ℕ → String × String → Caller → String → Database → Reply × Database
recompute_policy rt secrets now ids c id db = elim (find_warranty id db.warranties) [
  | none ↦ (not_found "Policy not found", db)
  | some w ↦
      let (result, badge, after) =
        recompute_warranty rt secrets now ids (some (get_actor_id c)) w db in
      if may_access c w.tenant_id db
      then (recomputed result badge, after)
      else (not_found "Policy not found", db)
]

abbrev pub or_else : Option String → Option String → Option String
or_else (some s) old = some s
or_else none old = old

abbrev pub with_external : Option String → Option String → ℕ → WarrantyRow → WarrantyRow
with_external carrier number now w = record w {
  external_carrier_id = carrier;
  external_policy_number = number;
  updated_at = now;
}

-- `attachExternal`
unfoldable pub attach_external :
    ℕ → String → Caller → String → Option String → Option String → Database → Reply × Database
attach_external now audit_id c id carrier number db = elim (find_warranty id db.warranties) [
  | none ↦ (not_found "Policy not found", db)
  | some w ↦
      let carrier' = or_else carrier w.external_carrier_id in
      let number' = or_else number w.external_policy_number in
      if may_access c w.tenant_id db
      then (
        attached id now,
        commercial_audit_log audit_id now w.tenant_id (some (get_actor_id c)) "warranty" id
            "external_attach" (external w.external_carrier_id w.external_policy_number)
            (external carrier' number') empty
            (record db {
              warranties =
                  update_warranty id w.tenant_id (with_external carrier' number' now) db.warranties;
            }),
      )
      else (not_found "Policy not found", db)
]
