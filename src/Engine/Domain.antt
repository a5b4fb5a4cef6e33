-- ===== src/Engine/Domain.antt =====
-- The types of src/types/domain.ts that the engine uses. Texts that no code tests, such as the
-- framework and the severity, are strings; a policy's description and version are left out.
use caas_lite.Prelude.{ℕ, String, Bool, Option, List}

-- What a JSON text can hold, and what a missing or inherited property reads as. A number is the
-- text that `String` gives of it: one text for each number. A callable stands for a function.
mutual
  pub data Value : Type 0 where
    undefined : Value
    null : Value
    boolean : Bool → Value
    number : String → Value
    string : String → Value
    array : Values → Value
    object : Members → Value
    callable : String → Value

  pub data Values : Type 0 where
    end : Values
    item : Value → Values → Values

  pub data Members : Type 0 where
    closed : Members
    member : String → Value → Members → Members

-- What the engine asks of JavaScript's runtime.
pub record Js : Type 0 where
  -- a property that an object or an array does not have itself
  pub inherited : String → Value
  -- `length` and the elements of an array by their index
  pub element : Values → String → Value
  -- `String(v)` and the text of `Number(v)`, which throw on an object without a usable `toString`
  pub to_text : Value → Option String
  pub to_number : Value → Option String
  -- `m > n` of the numbers with these texts
  pub greater : String → String → Bool
  -- `new RegExp(s)`, which throws on an invalid pattern, and its `test`
  pub compile : String → Option (String → Bool)
  -- `String(n)` of a count
  pub decimal : ℕ → String

pub record DomainEventActor : Type 0 where
  pub id : String
  pub name : String
  pub kind : String
  pub ip_address : Option String

pub record DomainEvent : Type 0 where
  pub id : String
  pub type : String
  pub occurred_at : String
  pub received_at : String
  pub source : String
  pub actor : DomainEventActor
  pub metadata : Members
  pub environment : String

pub data Operator : Type 0 where
  eq neq contains exists gt lt matches : Operator
  unknown : String → Operator

-- An absent `value` is `undefined`.
pub record PolicyCondition : Type 0 where
  pub field : String
  pub operator : Operator
  pub value : Value

pub record PolicyTemplate : Type 0 where
  pub id : String
  pub name : String
  pub framework : String
  pub control_id : String
  pub applies_to : List String
  pub environments : Option (List String)
  pub conditions : List PolicyCondition
  pub failure_severity : String
  pub enabled : Bool

pub data VerificationOutcome : Type 0 where
  pass fail inconclusive : VerificationOutcome

pub record ConditionResult : Type 0 where
  pub condition : PolicyCondition
  pub resolved_value : Value
  pub passed : Bool
  pub explanation : String

pub record VerificationResult : Type 0 where
  pub event_id : String
  pub policy_id : String
  pub control_id : String
  pub framework : String
  pub outcome : VerificationOutcome
  pub condition_results : List ConditionResult
  pub evaluated_at : String
  pub summary : String

pub record ComplianceAlert : Type 0 where
  pub id : String
  pub event_id : String
  pub policy_id : String
  pub control_id : String
  pub framework : String
  pub severity : String
  pub message : String
  pub event : DomainEvent
  pub verification_result : VerificationResult
  pub triggered_at : String
  pub acknowledged : Bool
