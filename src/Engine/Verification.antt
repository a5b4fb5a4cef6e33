-- ===== src/Engine/Verification.antt =====
-- `VerificationEngine` of src/engine/verification.ts. `none` is the error of an invalid pattern or
-- of a value that cannot be converted, with which the promise of `verify` is rejected. Ids and clock
-- readings are drawn from the environment.
pub mod Laws
pub mod Answers
use Prim.Native.String
use caas_lite.Prelude.{
  ℕ, suc, String, Bool, true, false, not, ◌&&◌, ◌||◌, Option, none, some, List, [], ◌∷◌,
  if◌then◌else◌, str_eq, includes, split, filter, any, every, length,
}
use caas_lite.Engine.Domain.{
  Value, undefined, null, boolean, number, string, array, object, callable, Values, end, item,
  Members, closed, member, Js, DomainEvent, eq, neq, contains, exists, gt, lt, matches, unknown,
  PolicyCondition, PolicyTemplate, VerificationOutcome, pass, fail, inconclusive, ConditionResult,
  VerificationResult, ComplianceAlert,
}
use caas_lite.Engine.Policy.{Store, get_applicable_policies}
use caas_lite.Engine.Condition.{concat, evaluate_condition}

abbrev pub force_fail_event_types : List String
force_fail_event_types = "secret.exposed" ∷ "audit.log_tampered" ∷ []

abbrev pub is_forced : DomainEvent → Bool
is_forced e = any (str_eq e.type) force_fail_event_types

module _ (js : Js) where
  open js use {decimal}

  -- `policy.conditions.map(...)`
  unfoldable pub evaluate_conditions :
      DomainEvent → List PolicyCondition → Option (List ConditionResult)
  evaluate_conditions e [] = some []
  evaluate_conditions e (c ∷ cs) =
      let rest = evaluate_conditions e cs in
      elim (evaluate_condition js e c) [
        | none ↦ none
        | some r ↦ elim rest [ none ↦ none | some rs ↦ some (r ∷ rs) ]
      ]

  abbrev result_of :
      DomainEvent
      → PolicyTemplate
      → String
      → VerificationOutcome
      → List ConditionResult
      → String
      → VerificationResult
  result_of e p now outcome rs summary = record {
    event_id = e.id;
    policy_id = p.id;
    control_id = p.control_id;
    framework = p.framework;
    outcome = outcome;
    condition_results = rs;
    evaluated_at = now;
    summary = summary;
  }

  -- The explanations of the failed conditions, `join('; ')`.
  unfoldable pub joined : List ConditionResult → String
  joined [] = ""
  joined (r ∷ []) = r.explanation
  joined (r ∷ s ∷ rs) = String.◌++◌ r.explanation (String.◌++◌ "; " (joined (s ∷ rs)))

  unfoldable pub summarise : PolicyTemplate → List ConditionResult → String
  unfolding concat
  summarise p rs =
      let failed = filter (λ (r : ConditionResult). not r.passed) rs in
      if every (λ (r : ConditionResult). r.passed) rs
      then concat (
          "All "
          ∷ decimal (length rs)
          ∷ " condition(s) passed for policy \""
          ∷ p.name
          ∷ "\" ("
          ∷ p.control_id
          ∷ ")."
          ∷ [])
      else concat (
          decimal (length failed)
          ∷ " of "
          ∷ decimal (length rs)
          ∷ " condition(s) failed for policy \""
          ∷ p.name
          ∷ "\" ("
          ∷ p.control_id
          ∷ "): "
          ∷ joined failed
          ∷ [])

  -- `evaluatePolicy` on the policy's conditions.
  unfoldable pub check_conditions :
      String → DomainEvent → PolicyTemplate → List PolicyCondition → Option VerificationResult
  unfolding concat
  check_conditions now e p [] = some (
      result_of e p now pass [] (
        concat (
          "Policy \"" ∷ p.name ∷ "\" has no conditions — event type presence is sufficient." ∷ [])))
  check_conditions now e p (c ∷ cs) = elim (evaluate_conditions e (c ∷ cs)) [
    | none ↦ none
    | some rs ↦
        let outcome = if every (λ (r : ConditionResult). r.passed) rs then pass else fail in
        some (result_of e p now outcome rs (summarise p rs))
  ]

  -- `evaluatePolicy`
  unfoldable pub evaluate_policy : String → DomainEvent → PolicyTemplate → Option VerificationResult
  unfolding concat
  evaluate_policy now e p =
      if is_forced e
      then some (
          result_of e p now fail [] (
            concat (
              "Event type \"" ∷ e.type ∷ "\" is unconditionally treated as a control failure ("
              ∷ p.control_id ∷ ")." ∷ [])))
      else check_conditions now e p p.conditions

abbrev pub outcome_eq : VerificationOutcome → VerificationOutcome → Bool
outcome_eq pass pass = true
outcome_eq fail fail = true
outcome_eq inconclusive inconclusive = true
outcome_eq _ _ = false

abbrev pub has_outcome : VerificationOutcome → VerificationResult → Bool
has_outcome o r = outcome_eq r.outcome o

unfoldable pub aggregate_outcome : List VerificationResult → VerificationOutcome
aggregate_outcome rs =
    if any (has_outcome fail) rs
    then fail
    else if every (has_outcome pass) rs
    then pass
    else inconclusive

unfoldable pub build_alert :
    String → String → DomainEvent → PolicyTemplate → VerificationResult → ComplianceAlert
build_alert id now e p r = record {
  id = id;
  event_id = e.id;
  policy_id = p.id;
  control_id = p.control_id;
  framework = p.framework;
  severity = p.failure_severity;
  message = r.summary;
  event = e;
  verification_result = r;
  triggered_at = now;
  acknowledged = false;
}

pub record VerificationBatch : Type 0 where
  pub event : DomainEvent
  pub verification_results : List VerificationResult
  pub overall_outcome : VerificationOutcome
  pub alerts : List ComplianceAlert

-- The result where no policy applies.
abbrev no_policies : String → DomainEvent → VerificationResult
no_policies now e = record {
  event_id = e.id;
  policy_id = "none";
  control_id = "N/A";
  framework = "SOC2";
  outcome = inconclusive;
  condition_results = [];
  evaluated_at = now;
  summary = String.◌++◌ "No policies found for event type \"" (
      String.◌++◌ e.type (
        String.◌++◌ "\" in environment \""
          (String.◌++◌ e.environment "\". Manual review recommended.")));
}

-- The loop of `verify`, with the ids of the alerts by the number of policies left.
unfoldable pub evaluate_all :
    Js
    → (ℕ → String)
    → String
    → DomainEvent
    → List PolicyTemplate
    → Option (List VerificationResult × List ComplianceAlert)
evaluate_all js uuid now e [] = some ([], [])
evaluate_all js uuid now e (p ∷ ps) =
    let rest = evaluate_all js uuid now e ps in
    elim (evaluate_policy js now e p) [
      | none ↦ none
      | some r ↦ elim rest [
        | none ↦ none
        | some (rs, alerts) ↦ some (
          r ∷ rs,
          if has_outcome fail r then build_alert (uuid (length ps)) now e p r ∷ alerts else alerts,
        )
      ]
    ]

unfoldable pub verify : Js → (ℕ → String) → String → Store → DomainEvent → Option VerificationBatch
verify js uuid now s e = elim (get_applicable_policies e.type e.environment s) [
  | [] ↦ some (record {
    event = e;
    verification_results = no_policies now e ∷ [];
    overall_outcome = inconclusive;
    alerts = [];
  })
  | p ∷ ps ↦ elim (evaluate_all js uuid now e (p ∷ ps)) [
    | none ↦ none
    | some (rs, alerts) ↦ some (record {
      event = e;
      verification_results = rs;
      overall_outcome = aggregate_outcome rs;
      alerts = alerts;
    })
  ]
]
