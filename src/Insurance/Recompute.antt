-- ===== src/Insurance/Recompute.antt =====
-- State transitions of a warranty, and the transaction that recomputes one: `applyStateTransition`
-- and the body of `recomputePolicy` in src/routes/insurance.ts, `commercialAuditLog` of
-- src/lib/audit.ts. A transaction that is not said to fail runs to its end.
pub mod Laws
pub mod Repeat
use caas_lite.Prelude.{
  ℕ, String, Bool, true, false, ◌&&◌, Option, none, some, List, [], ◌∷◌, ◌++◌, if◌then◌else◌,
  str_eq,
}
use caas_lite.Database.{
  PolicyState, policy_state_eq, Evidence, WarrantyRow, AuditRow, AuditValue, state, Metadata,
  of_evidence, Database, Runtime,
}
use caas_lite.Badge.Secrets.{ResolvedSecrets}
use caas_lite.Badge.Sync.{SyncBadgeResult, sync_badge}
use caas_lite.Insurance.Evaluate.{evaluate_policy_state}

pub record RecomputeResult : Type 0 where
  pub previous_state : PolicyState
  pub current_state : PolicyState
  pub changed : Bool
  pub evidence : Evidence

unfoldable pub commercial_audit_log :
    String
    → ℕ
    → String
    → Option String
    → String
    → String
    → String
    → AuditValue
    → AuditValue
    → Metadata
    → Database
    → Database
commercial_audit_log id now tenant actor entity_type entity_id action old new metadata db =
    record db {
      audit =
          db.audit
          ++ record {
            id = id;
            tenant_id = tenant;
            actor_user_id = actor;
            entity_type = entity_type;
            entity_id = entity_id;
            action = action;
            old_value = old;
            new_value = new;
            metadata = metadata;
            created_at = now;
          }
            ∷ [];
    }

unfoldable pub find_warranty : String → List WarrantyRow → Option WarrantyRow
find_warranty id [] = none
find_warranty id (w ∷ ws) = if str_eq w.id id then some w else find_warranty id ws

-- `UPDATE ai_insurance_warranties ... WHERE id = ? AND tenant_id = ?`
unfoldable pub update_warranty :
    String → String → (WarrantyRow → WarrantyRow) → List WarrantyRow → List WarrantyRow
update_warranty id tenant f [] = []
update_warranty id tenant f (w ∷ ws) =
    (if str_eq w.id id && str_eq w.tenant_id tenant then f w else w)
    ∷ update_warranty id tenant f ws

abbrev pub moved : PolicyState → Evidence → ℕ → WarrantyRow → WarrantyRow
moved new_state evidence now w = record w {
  policy_state = new_state;
  state_evidence = some evidence;
  state_changed_at = now;
  updated_at = now;
}

unfoldable pub apply_state_transition :
    ℕ
    → String
    → WarrantyRow
    → PolicyState
    → Evidence
    → Option String
    → Database
    → RecomputeResult × Database
apply_state_transition now audit_id w new_state evidence actor db =
    let same = policy_state_eq w.policy_state new_state in
    let result : RecomputeResult = record {
      previous_state = w.policy_state;
      current_state = new_state;
      changed = if same then false else true;
      evidence = evidence;
    } in
    if same then (result, db) else (
      result,
      commercial_audit_log audit_id now w.tenant_id actor "warranty" w.id "state_change"
          (state w.policy_state) (state new_state) (of_evidence evidence)
          (record db {
            warranties =
                update_warranty w.id w.tenant_id (moved new_state evidence now) db.warranties;
          }),
    )

-- Evaluation, transition and badge, as the transaction of `recomputePolicy` runs them.
unfoldable pub recompute_warranty :
    Runtime
    → ResolvedSecrets
    → ℕ
    → String × String
    → Option String
    → WarrantyRow
    → Database
    → RecomputeResult × SyncBadgeResult × Database
recompute_warranty rt secrets now (audit_id, history_id) actor w db =
    let (new_state, evidence) = evaluate_policy_state now w.tenant_id db in
    let (result, moved_db) = apply_state_transition now audit_id w new_state evidence actor db in
    let (badge, after) =
      sync_badge rt secrets now history_id w.tenant_id w.account_id
        (record { policy_state = some result.current_state; evidence = some evidence }) moved_db in
    (result, badge, after)
