-- ===== src/Engine/Verification/Laws.antt =====
-- The outcome and the alerts of a verification, and when there is one.
use caas_lite.Prelude.{
  ℕ, ◌≡◌, ◌≢◌, ◌⊎◌, ◌↔◌, refl, String, Bool, true, false, ◌&&◌, some, List, [], ◌∷◌, inl, inr,
  arith, Option-cases, Bool-cases, if◌then◌else◌, length, count, any, every, All, suc,
}
use caas_lite.Engine.Domain.{
  Js, DomainEvent, PolicyTemplate, PolicyCondition, pass, fail, inconclusive, VerificationResult,
  ConditionResult, ComplianceAlert,
}
use caas_lite.Engine.Policy.{Store, get_applicable_policies}
use caas_lite.Engine.Condition.{resolve_field, holds, evaluate_condition}
use caas_lite.Engine.Verification.{
  evaluate_conditions, evaluate_policy, has_outcome, aggregate_outcome, VerificationBatch,
  evaluate_all, verify, check_conditions, is_forced,
}

-- Whether a policy holds of an event: not a kind of event that always fails, and every condition.
module _ (js : Js) (e : DomainEvent) where
  abbrev pub Holds : PolicyCondition → Type 0
  Holds c = holds js c (resolve_field js e c.field) ≡ some true

  evaluate_conditions_lem :
      (cs : List PolicyCondition) (rs : List ConditionResult)
      → evaluate_conditions js e cs ≡ some rs
      → (every (λ (r : ConditionResult). r.passed) rs ≡ true) ↔ All Holds cs
  unfolding evaluate_conditions evaluate_condition
  evaluate_conditions_lem [] rs f = (λ _. tt, λ _. ground (arith, f))
  evaluate_conditions_lem (c ∷ cs) rs f =
      elim (Option-cases (holds js c (resolve_field js e c.field))) [
        | inl e1 ↦ absurd (ground (arith, f, e1))
        | inr (b, e1) ↦ elim (Option-cases (evaluate_conditions js e cs)) [
          | inl e2 ↦ absurd (ground (arith, f, e1, e2))
          | inr (qs, e2) ↦
              let (to, from) = evaluate_conditions_lem cs qs e2 in
              let both : every (λ (r : ConditionResult). r.passed) rs
                  ≡ (b && every (λ (r : ConditionResult). r.passed) qs) =
                ground (arith, f, e1, e2) in
              (
                (λ h. (ground (arith, e1, both, h), to (ground (arith, both, h)))),
                (λ (h, hs).
                    let here : b ≡ true = ground (arith, e1, h) in
                    ground (arith, both, here, from hs)),
              )
        ]
      ]

  check_conditions_lem :
      (now : String) (p : PolicyTemplate) (cs : List PolicyCondition) (r : VerificationResult)
      → check_conditions js now e p cs ≡ some r
      → ((r.outcome ≡ pass) ↔ All Holds cs) × ((r.outcome ≡ pass) ⊎ (r.outcome ≡ fail))
  unfolding check_conditions
  check_conditions_lem now p [] r f = (((λ _. tt), (λ _. ground (arith, f))), ground (arith, f))
  check_conditions_lem now p (c ∷ cs) r f =
      elim (Option-cases (evaluate_conditions js e (c ∷ cs))) [
        | inl e1 ↦ absurd (ground (arith, f, e1))
        | inr (rs, e1) ↦
            let (to, from) = evaluate_conditions_lem (c ∷ cs) rs e1 in
            (
              ((λ h. to (ground (arith, f, e1, h))), (λ h. ground (arith, f, e1, from h))),
              ground (arith, f, e1),
            )
      ]

  -- A policy that evaluates to a result passes exactly if the event is not of a kind that always
  -- fails and every condition holds, and fails otherwise.
  evaluate_policy_lem :
      (now : String) (p : PolicyTemplate) (r : VerificationResult)
      → evaluate_policy js now e p ≡ some r
      → ((r.outcome ≡ pass) ↔ ((is_forced e ≡ false) × All Holds p.conditions))
        × ((r.outcome ≡ pass) ⊎ (r.outcome ≡ fail))
  unfolding evaluate_policy
  evaluate_policy_lem now p r f = elim (Bool-cases (is_forced e)) [
    | inl forced ↦ (
      (
        (λ h. absurd (ground (arith, f, forced, h))),
        (λ (free, _). absurd (ground (arith, free, forced))),
      ),
      ground (arith, f, forced),
    )
    | inr free ↦
        let (iff, two) = check_conditions_lem now p p.conditions r (ground (arith, f, free)) in
        (((λ h. (free, iff.0 h)), (λ (_, h). iff.1 h)), two)
  ]

-- An event passes a policy.
abbrev pub Passes : Js → DomainEvent → PolicyTemplate → Type 0
Passes js e p = (is_forced e ≡ false) × All (Holds js e) p.conditions

-- What a run over some policies gives: one result for each, an alert for each failure.
record IsEvaluated (js : Js) (e : DomainEvent) (ps : List PolicyTemplate)
    (rs : List VerificationResult) (alerts : List ComplianceAlert) : Type 0 where
  pub results : length rs ≡ length ps
  pub alerted : length alerts ≡ count (has_outcome fail) rs
  pub passed : (every (has_outcome pass) rs ≡ true) ↔ All (Passes js e) ps
  pub two : (any (has_outcome fail) rs ≡ true) ⊎ (every (has_outcome pass) rs ≡ true)

evaluate_all-IsEvaluated :
    (js : Js) (uuid : ℕ → String) (now : String) (e : DomainEvent) (ps : List PolicyTemplate)
    (rs : List VerificationResult) (alerts : List ComplianceAlert)
    → evaluate_all js uuid now e ps ≡ some (rs, alerts)
    → IsEvaluated js e ps rs alerts
unfolding evaluate_all
evaluate_all-IsEvaluated js uuid now e [] rs alerts f = record {
  results = ground (arith, f);
  alerted = ground (arith, f);
  passed = ((λ _. tt), (λ _. ground (arith, f)));
  two = ground (arith, f);
}
evaluate_all-IsEvaluated js uuid now e (p ∷ ps) rs alerts f =
    elim (Option-cases (evaluate_policy js now e p)) [
      | inl e1 ↦ absurd (ground (arith, f, e1))
      | inr (r, e1) ↦ elim (Option-cases (evaluate_all js uuid now e ps)) [
        | inl e2 ↦ absurd (ground (arith, f, e1, e2))
        | inr ((qs, more), e2) ↦
            let ih = evaluate_all-IsEvaluated js uuid now e ps qs more e2 in
            let (iff, two) = evaluate_policy_lem js e now p r e1 in
            let shape : rs ≡ r ∷ qs = ground (arith, f, e1, e2) in
            let alerted : length alerts
                ≡ (if has_outcome fail r then suc (length more) else length more) =
              ground (arith, f, e1, e2) in
            record {
              results = ground (arith, shape, ih.results);
              alerted = ground (arith, shape, alerted, ih.alerted);
              passed = (
                (λ h. (iff.0 (ground (arith, shape, h)), ih.passed.0 (ground (arith, shape, h)))),
                (λ (h, hs). ground (arith, shape, iff.1 h, ih.passed.1 hs)),
              );
              two = ground (arith, shape, two, ih.two);
            }
      ]
    ]

pub List-cases :
    (ps : List PolicyTemplate)
    → (ps ≡ []) ⊎ ((p : PolicyTemplate) × ((qs : List PolicyTemplate) × (ps ≡ p ∷ qs)))
List-cases [] = inl refl
List-cases (p ∷ qs) = inr (p, (qs, refl))

any_iff :
    (test : VerificationResult → Bool) (rs : List VerificationResult)
    → (any test rs ≡ true) ↔ (count test rs ≢ 0)
any_iff test [] = ground arith
any_iff test (r ∷ rs) = ground (arith, any_iff test rs)

no_failure :
    (rs : List VerificationResult)
    → every (has_outcome pass) rs ≡ true
    → any (has_outcome fail) rs ≡ false
no_failure [] h = refl
no_failure (r ∷ rs) h = ground (arith, h, no_failure rs)

-- What a batch says of the policies that apply.
pub record IsVerified (js : Js) (e : DomainEvent) (ps : List PolicyTemplate) (b : VerificationBatch)
    : Type 0 where
  pub inconclusive_iff : (b.overall_outcome ≡ inconclusive) ↔ (ps ≡ [])
  pub pass_iff : (b.overall_outcome ≡ pass) ↔ ((ps ≢ []) × All (Passes js e) ps)
  pub fail_iff : (b.overall_outcome ≡ fail) ↔ (length b.alerts ≢ 0)
  pub alerted : length b.alerts ≡ count (has_outcome fail) b.verification_results

-- If a verification gives a batch, its outcome is inconclusive exactly if no policy applies, a pass
-- exactly if some policy applies and the event passes each one that does, and a failure exactly if
-- there is an alert; there is one alert for each result that is a failure.
pub verify-IsVerified :
    (js : Js) (uuid : ℕ → String) (now : String) (s : Store) (e : DomainEvent)
    (b : VerificationBatch)
    → verify js uuid now s e ≡ some b
    → IsVerified js e (get_applicable_policies e.type e.environment s) b
unfolding verify aggregate_outcome
verify-IsVerified js uuid now s e b f =
    elim (List-cases (get_applicable_policies e.type e.environment s)) [
      | inl e0 ↦ rw e0 (record {
        inconclusive_iff = ((λ _. refl), (λ _. ground (arith, f, e0)));
        pass_iff = ((λ h. absurd (ground (arith, f, e0, h))), (λ (h, _). absurd (h refl)));
        fail_iff =
            ((λ h. absurd (ground (arith, f, e0, h))), (λ h. absurd (ground (arith, f, e0, h))));
        alerted = ground (arith, f, e0);
      })
      | inr (p, (qs, e0)) ↦ elim (Option-cases (evaluate_all js uuid now e (p ∷ qs))) [
        | inl e1 ↦ absurd (ground (arith, f, e0, e1))
        | inr ((rs, alerts), e1) ↦
            let run = evaluate_all-IsEvaluated js uuid now e (p ∷ qs) rs alerts e1 in
            let outcome : b.overall_outcome ≡ aggregate_outcome rs = ground (arith, f, e0, e1) in
            let shown : b.verification_results ≡ rs = ground (arith, f, e0, e1) in
            let raised : b.alerts ≡ alerts = ground (arith, f, e0, e1) in
            let failures = any_iff (has_outcome fail) rs in
            let clear = no_failure rs in
            rw e0 (record {
              inconclusive_iff = (
                (λ h. absurd (ground (arith, outcome, h, run.two))),
                (λ h. absurd (ground (arith, h))),
              );
              pass_iff = (
                (λ h.
                    ((λ k. ground (arith, k)), run.passed.0 (ground (arith, outcome, h, run.two)))),
                (λ (_, h). ground (arith, outcome, clear, run.passed.1 h)),
              );
              fail_iff = (
                (λ h. ground (arith, raised, outcome, h, run.alerted, failures, run.two)),
                (λ h. ground (arith, raised, outcome, h, run.alerted, failures)),
              );
              alerted = ground (arith, raised, shown, run.alerted);
            })
      ]
    ]
