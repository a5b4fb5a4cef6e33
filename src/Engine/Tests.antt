-- ===== src/Engine/Tests.antt =====
-- The theorems on the engine at concrete inputs.
use caas_lite.Prelude.{
  ◌≡◌, ◌≢◌, refl, All, Bool, String, true, false, Option, ◌||◌, split, arith, none, some, [], ◌∷◌,
  str_eq, if◌then◌else◌,
}
use mathlib.Core.Path.{subst}
use caas_lite.Engine.Domain.{
  number, Value, object, Members, undefined, string, boolean, closed, member, Js, DomainEvent, eq,
  matches, PolicyTemplate,
}
use caas_lite.Engine.Policy.{get_applicable_policies, is_applicable, has}
use caas_lite.Engine.Condition.{
  is_present, walk, step_into, event_value, property, holds, explain, template, strict_equal,
  evaluate_condition, resolve_field,
}
use caas_lite.Engine.Verification.{VerificationBatch, verify}
use caas_lite.Engine.Verification.Laws.{IsVerified, verify-IsVerified}
use caas_lite.Engine.Verification.Answers.{IsAnswerable, verify_answers}

-- Whether an object has a `toString` of its own, which no JSON value can call.
abbrev has_own : Members → Bool
has_own closed = false
has_own (member k v ms) = str_eq k "toString" || has_own ms

abbrev text_of : Value → Option String
text_of (object ms) = if has_own ms then none else some "[object Object]"
text_of (string s) = some s
text_of v = some "text"

abbrev number_of : Value → Option String
number_of (object ms) = if has_own ms then none else some "NaN"
number_of v = some "NaN"

-- A runtime in which every pattern but "(" compiles, and matches every text.
abbrev js : Js
js = record {
  inherited = λ _. undefined;
  element = λ _ _. undefined;
  to_text = text_of;
  to_number = number_of;
  greater = λ _ _. false;
  compile = λ p. if str_eq p "(" then none else some (λ _. true);
  decimal = λ _. "1";
}

abbrev policy : PolicyTemplate
policy = record {
  id = "soc2-cc8.1";
  name = "Change approval";
  framework = "SOC2";
  control_id = "CC8.1";
  applies_to = "deploy.completed" ∷ [];
  environments = some ("production" ∷ []);
  conditions =
      record { field = "metadata.approved"; operator = eq; value = boolean true }
      ∷ record { field = "actor.kind"; operator = matches; value = string "human" }
      ∷ [];
  failure_severity = "high";
  enabled = true;
}

abbrev retired : PolicyTemplate
retired = record policy { name = "Change approval, retired"; enabled = false }

abbrev event : DomainEvent
event = record {
  id = "e1";
  type = "deploy.completed";
  occurred_at = "2026-05-14T10:00:00.000Z";
  received_at = "2026-05-14T10:00:01.000Z";
  source = "github";
  actor = record { id = "dev"; name = "Dev"; kind = "human"; ip_address = none };
  metadata = member "approved" (boolean false) closed;
  environment = "production";
}

some_given : {A : Type 0} (a : A) → some a ≢ none
some_given a e = cc

approved : resolve_field js event "metadata.approved" ≡ boolean false
unfolding resolve_field walk split step_into event_value property
approved = refl

kind : resolve_field js event "actor.kind" ≡ string "human"
unfolding resolve_field walk split step_into event_value property
kind = refl

human_compiles : (pattern : String) → some "human" ≡ some pattern → js.compile pattern ≢ none
human_compiles pattern e =
    let same : "human" ≡ pattern = cc in
    subst (λ p. js.compile p ≢ none) same (some_given (λ _. true))

answerable : All (IsAnswerable js event) policy.conditions
unfolding is_present
answerable = (
  (
    (some_given "text", some_given "NaN"),
    rw approved (some_given "text", some_given "NaN"),
    (λ _ clash _. absurd (ground (arith, clash))),
  ),
  (
    (
      (some_given "human", some_given "NaN"),
      rw kind (some_given "human", some_given "NaN"),
      (λ pattern _ e. human_compiles pattern e),
    ),
    tt,
  ),
)

-- A condition on an object that cannot be converted throws.
unanswered :
    evaluate_condition js
      (record event {
        metadata = member "approved" (object (member "toString" (number "1") closed)) closed;
      })
      (record { field = "metadata.approved"; operator = eq; value = boolean true })
    ≡ none
unfolding evaluate_condition holds explain template strict_equal resolve_field walk split step_into
    event_value property
unanswered = refl

verify_answers_example :
    (b : VerificationBatch) × (verify js (λ _. "a1") "now" (policy ∷ []) event ≡ some b)
unfolding get_applicable_policies is_applicable has
verify_answers_example = verify_answers js event (λ _. "a1") "now" (policy ∷ []) (answerable, tt)

answered : (b : VerificationBatch) × (verify js (λ _. "a1") "now" (policy ∷ []) event ≡ some b)
unfolding get_applicable_policies is_applicable has
answered = verify_answers js event (λ _. "a1") "now" (policy ∷ []) (answerable, tt)

verify-IsVerified_example :
    IsVerified js event
      (get_applicable_policies "deploy.completed" "production" (policy ∷ []))
      answered.0
verify-IsVerified_example =
    verify-IsVerified js (λ _. "a1") "now" (policy ∷ []) event answered.0 answered.1
