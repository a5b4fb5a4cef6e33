-- ===== src/Engine/Verification/Answers.antt =====
-- When a verification gives a batch rather than an error.
use caas_lite.Prelude.{
  ℕ, ◌≡◌, ◌≢◌, refl, String, Bool, none, some, List, [], ◌∷◌, inl, inr, arith, Option-cases, All,
}
use caas_lite.Engine.Domain.{matches, Value, Js, DomainEvent, PolicyTemplate, PolicyCondition}
use caas_lite.Engine.Policy.{Store, get_applicable_policies}
use caas_lite.Engine.Condition.{
  text_or_empty, holds, explain, template, evaluate_condition, resolve_field,
}
use caas_lite.Engine.Verification.{
  evaluate_conditions, check_conditions, evaluate_policy, VerificationBatch, evaluate_all, verify,
}
use caas_lite.Engine.Verification.Laws.{List-cases}

-- A value of which `String` and `Number` do not throw.
abbrev pub IsConvertible : Js → Value → Type 0
IsConvertible js v = (js.to_text v ≢ none) × (js.to_number v ≢ none)

-- A pattern that a condition may ask to match compiles.
abbrev pub IsCompilable : Js → PolicyCondition → Type 0
IsCompilable js c =
    (pattern : String)
    → c.operator ≡ matches
    → text_or_empty js c.value ≡ some pattern
    → js.compile pattern ≢ none

-- What a condition asks of the values that it reads.
abbrev pub IsAnswerable : Js → DomainEvent → PolicyCondition → Type 0
IsAnswerable js e c =
    IsConvertible js c.value × IsConvertible js (resolve_field js e c.field) × IsCompilable js c

module _ (js : Js) (e : DomainEvent) where
  text_or_empty_answers : (v : Value) → js.to_text v ≢ none → text_or_empty js v ≢ none
  text_or_empty_answers v h = ground (arith, h)

  holds_answers :
      (c : PolicyCondition) (v : Value)
      → IsConvertible js c.value
      → IsConvertible js v
      → IsCompilable js c
      → holds js c v ≢ none
  unfolding holds
  holds_answers c v (ct, cn) (vt, vn) p = elim (Option-cases (text_or_empty js c.value)) [
    | inl e1 ↦ absurd (text_or_empty_answers c.value ct e1)
    | inr (pattern, e1) ↦ ground (arith, p pattern, e1)
  ]

  explain_answers :
      (c : PolicyCondition) (v : Value) (passed : Bool)
      → IsConvertible js c.value
      → IsConvertible js v
      → explain js c v passed ≢ none
  unfolding explain template
  explain_answers c v passed (ct, cn) (vt, vn) = ground arith

  evaluate_condition_answers :
      (c : PolicyCondition) → IsAnswerable js e c → evaluate_condition js e c ≢ none
  unfolding evaluate_condition
  evaluate_condition_answers c (cv, vv, p) =
      let v = resolve_field js e c.field in
      elim (Option-cases (holds js c v)) [
        | inl e1 ↦ absurd (holds_answers c v cv vv p e1)
        | inr (b, e1) ↦ elim (Option-cases (explain js c v b)) [
          | inl e2 ↦ absurd (explain_answers c v b cv vv e2)
          | inr (text, e2) ↦ ground (arith, e1, e2)
        ]
      ]

  evaluate_conditions_answers :
      (cs : List PolicyCondition) → All (IsAnswerable js e) cs → evaluate_conditions js e cs ≢ none
  unfolding evaluate_conditions evaluate_condition
  evaluate_conditions_answers [] all = ground arith
  evaluate_conditions_answers (c ∷ cs) (h, hs) =
      ground (arith, evaluate_condition_answers c h, evaluate_conditions_answers cs hs)

  check_conditions_answers :
      (now : String) (p : PolicyTemplate) (cs : List PolicyCondition)
      → All (IsAnswerable js e) cs
      → check_conditions js now e p cs ≢ none
  unfolding check_conditions
  check_conditions_answers now p [] all = ground arith
  check_conditions_answers now p (c ∷ cs) all =
      ground (arith, evaluate_conditions_answers (c ∷ cs) all)

  evaluate_policy_answers :
      (now : String) (p : PolicyTemplate)
      → All (IsAnswerable js e) p.conditions
      → evaluate_policy js now e p ≢ none
  unfolding evaluate_policy
  evaluate_policy_answers now p all =
      ground (arith, check_conditions_answers now p p.conditions all)

  evaluate_all_answers :
      (uuid : ℕ → String) (now : String) (ps : List PolicyTemplate)
      → All (λ (p : PolicyTemplate). All (IsAnswerable js e) p.conditions) ps
      → evaluate_all js uuid now e ps ≢ none
  unfolding evaluate_all
  evaluate_all_answers uuid now [] all = ground arith
  evaluate_all_answers uuid now (p ∷ ps) (h, hs) =
      ground (arith, evaluate_policy_answers now p h, evaluate_all_answers uuid now ps hs)

  -- If in the policies that apply the value of every condition and the value that its field resolves
  -- to convert to a text and to a number, and every pattern that a condition matches compiles, a
  -- verification gives a batch.
  pub verify_answers :
      (uuid : ℕ → String) (now : String) (s : Store)
      → All
          (λ (p : PolicyTemplate). All (IsAnswerable js e) p.conditions)
          (get_applicable_policies e.type e.environment s)
      → (b : VerificationBatch) × (verify js uuid now s e ≡ some b)
  unfolding verify
  verify_answers uuid now s all =
      elim (List-cases (get_applicable_policies e.type e.environment s)) [
        | inl e0 ↦ rw (e0, verify) (_, refl)
        | inr (p, (ps, e0)) ↦
            let every : All (λ (q : PolicyTemplate). All (IsAnswerable js e) q.conditions)
                (p ∷ ps) =
              rw e0 at all in
            elim (Option-cases (evaluate_all js uuid now e (p ∷ ps))) [
              | inl e1 ↦ absurd (evaluate_all_answers uuid now (p ∷ ps) every e1)
              | inr (found, e1) ↦ rw (e0, verify) (rw (e1, verify) (_, refl))
            ]
      ]
