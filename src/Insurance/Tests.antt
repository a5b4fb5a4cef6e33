-- ===== src/Insurance/Tests.antt =====
-- The theorems on the warranties at concrete inputs.
use caas_lite.Prelude.{
  ℕ, ◌*◌, ◌≡◌, ◌≢◌, refl, String, Bool, true, false, none, some, List, [], ◌∷◌, arith, eq_iff, All,
  filter, str_eq, if◌then◌else◌,
}
use caas_lite.Database.{
  PolicyState, Evidence, active, void_by_compliance_drift, red, Metric, WarrantyRow, Database,
  Runtime,
}
use caas_lite.Badge.Secrets.{ResolvedSecrets}
use caas_lite.Badge.Sync.Laws.{badge_of}
use caas_lite.Insurance.Evaluate.{
  total_requests, denied_requests, boundary_crossings, evaluate_policy_state,
}
use caas_lite.Insurance.Evaluate.Laws.{
  IsDecided, evaluate_policy_state-IsDecided, IsBadgeFor, badge_for,
  evaluate_policy_state-IsBadgeFor,
}
use caas_lite.Insurance.Recompute.{find_warranty, moved, recompute_warranty}
use caas_lite.Insurance.Recompute.Laws.{IsRecomputed, recompute_warranty-IsRecomputed}
use caas_lite.Insurance.Recompute.Repeat.{recompute_warranty_idempotent, voided_reinstated}
use caas_lite.Insurance.Handlers.{
  Caller, not_found, get_policy, recompute_policy, attach_external, is_caller_super_admin,
  has_super_role,
}
use caas_lite.Insurance.Handlers.Laws.{foreign_not_found}
use caas_lite.Insurance.Scheduler.{
  no_fault, in_badge_sync, Environment, Summary, is_active, recompute_all_warranties,
}
use caas_lite.Insurance.Scheduler.Laws.{IsRun, IsDistinct}
use caas_lite.Insurance.Scheduler.Result.{recompute_all_warranties-IsRun}

abbrev runtime : Runtime
runtime = record {
  hmac = λ k m. k;
  sha256 = λ s. s;
  iso = λ n. "2026-05-14T10:00:00.000Z";
  percent = λ x. "2.5";
  decimal = λ n. "12";
}

abbrev secrets : ResolvedSecrets
secrets = record { current = "one"; previous = none; is_dev_fallback = false }

abbrev day : ℕ
day = 86400000

abbrev request_at : Bool → Metric
request_at granted = record {
  user_tenant_id = "acme";
  access_granted = granted;
  is_boundary_crossing = false;
  evaluated_at = 99 * day;
}

-- One request of a hundred days ago, as good as now, that was denied.
abbrev now : ℕ
now = 100 * day

abbrev warranty : String → WarrantyRow
warranty id = record {
  id = id;
  tenant_id = "acme";
  account_id = "a1";
  policy_state = active;
  external_carrier_id = none;
  external_policy_number = none;
  state_evidence = none;
  coverage_started_at = 1;
  coverage_ends_at = none;
  state_changed_at = 1;
  created_at = 1;
  updated_at = 1;
}

abbrev voided : WarrantyRow
voided = record (warranty "w3") { policy_state = void_by_compliance_drift }

-- Two active warranties and a voided one, and two requests of which one was denied.
abbrev database : Database
database = record {
  warranties = warranty "w1" ∷ warranty "w2" ∷ voided ∷ [];
  metrics = request_at true ∷ request_at false ∷ [];
  registry = [];
  history = [];
  audit = [];
  secret = none;
  users = [];
  accounts = record { id = "a1"; tenant_id = "acme" } ∷ [];
}

abbrev quiet : Database
quiet = record database { metrics = [] }

abbrev stranger : Caller
stranger = record { user_id = some "u9"; tenant_id = some "other" }

-- The first warranty's transaction is clean, and the second's fails at its last call.
abbrev env : Environment
env = record {
  fault = λ id. if str_eq id "w2" then in_badge_sync else no_fault;
  now = λ _. now;
  ids = λ id. (id, id);
}

evaluate_policy_state-IsDecided_example :
    IsDecided
      (total_requests "acme" now database.metrics)
      (denied_requests "acme" now database.metrics)
      (boundary_crossings "acme" now database.metrics)
      (evaluate_policy_state now "acme" database).0
evaluate_policy_state-IsDecided_example = evaluate_policy_state-IsDecided now "acme" database

evaluate_policy_state-IsBadgeFor_example :
    IsBadgeFor
      (total_requests "acme" now database.metrics)
      (denied_requests "acme" now database.metrics)
      (boundary_crossings "acme" now database.metrics)
      (badge_for runtime (evaluate_policy_state now "acme" database))
evaluate_policy_state-IsBadgeFor_example =
    evaluate_policy_state-IsBadgeFor runtime now "acme" database

-- One denial in fifty requests.
abbrev granted : List Metric
granted =
    let r = request_at true in
    let ten = λ (rest : List Metric). r ∷ r ∷ r ∷ r ∷ r ∷ r ∷ r ∷ r ∷ r ∷ r ∷ rest in
    ten (ten (ten (ten (r ∷ r ∷ r ∷ r ∷ r ∷ r ∷ r ∷ r ∷ r ∷ []))))

abbrev edge : Database
edge = record database { metrics = request_at false ∷ granted }

recompute_warranty-IsRecomputed_example :
    let (answer, _, after) =
      recompute_warranty runtime secrets now ("i", "h") none (warranty "w1") database in
    IsRecomputed now "i" none
      (warranty "w1")
      (evaluate_policy_state now "acme" database)
      database
      answer
      after
unfolding find_warranty
recompute_warranty-IsRecomputed_example =
    recompute_warranty-IsRecomputed runtime secrets now ("i", "h") none (warranty "w1") database
      refl

-- The row that a recompute of the first warranty leaves.
abbrev after_first : Database
after_first = (recompute_warranty runtime secrets now ("i", "h") none (warranty "w1") database).2

abbrev left : WarrantyRow
left =
    let (answer, _, _) =
      recompute_warranty runtime secrets now ("i", "h") none (warranty "w1") database in
    let decided : PolicyState × Evidence = evaluate_policy_state now "acme" database in
    if answer.changed then moved decided.0 decided.1 now (warranty "w1") else warranty "w1"

recompute_warranty_idempotent_example :
    let (_, badge, after) =
      recompute_warranty runtime secrets now ("i", "h") none (warranty "w1") database in
    let (answer', badge', after') =
      recompute_warranty runtime secrets now ("j", "g") (some "u1") left after in
    (after' ≡ after) × (answer'.changed ≡ false) × (badge'.signature ≡ badge.signature)
unfolding find_warranty
recompute_warranty_idempotent_example =
    recompute_warranty_idempotent runtime secrets now ("i", "h") ("j", "g") none (some "u1")
      (warranty "w1") left database refl
      (recompute_warranty-IsRecomputed runtime secrets now ("i", "h") none (warranty "w1") database
        refl).row

voided_reinstated_example :
    let (answer, badge, after) =
      recompute_warranty runtime secrets now ("i", "h") none voided quiet in
    (answer.current_state ≡ active)
    × (answer.changed ≡ true)
    × ((v : WarrantyRow) × (find_warranty "w3" after.warranties ≡ some v)
        × (v.policy_state ≡ active))
    × (badge_of "acme" after.registry ≢ some red)
unfolding find_warranty total_requests denied_requests boundary_crossings
voided_reinstated_example =
    voided_reinstated runtime secrets now ("i", "h") none voided quiet refl (ground arith)
      (ground arith) (ground arith)

foreign_not_found_example :
    (get_policy stranger "w1" database ≡ not_found "Policy not found")
    × (recompute_policy runtime secrets now ("i", "h") stranger "w1" database
        ≡ (not_found "Policy not found", database))
    × (attach_external now "i" stranger "w1" (some "carrier") none database
        ≡ (not_found "Policy not found", database))
unfolding find_warranty is_caller_super_admin has_super_role
foreign_not_found_example =
    foreign_not_found runtime secrets now ("i", "h") stranger "w1" (some "carrier") none database
      (λ w e. (ground (arith, e, eq_iff "acme" "other"), refl))

database-IsDistinct : IsDistinct database.warranties
database-IsDistinct = (
  (ground (arith, eq_iff "w2" "w1"), (ground (arith, eq_iff "w3" "w1"), tt)),
  ((ground (arith, eq_iff "w3" "w2"), tt), (tt, tt)),
)

recompute_all_warranties-IsRun_example :
    All
      (λ w. IsRun env database w (recompute_all_warranties runtime secrets env database).1)
      (filter is_active database.warranties)
recompute_all_warranties-IsRun_example =
    recompute_all_warranties-IsRun runtime secrets env database database-IsDistinct

abbrev none_yet : Summary
none_yet = record { scanned = 0; state_changes = 0; badge_changes = 0; errors = 0 }
