-- ===== src/Engine/Condition.antt =====
-- `resolveField` and `evaluateCondition` of src/engine/verification.ts. `none` is the error that an
-- invalid pattern throws, or a value that has no text or no number.
use Prim.Native.String
use caas_lite.Prelude.{
  String, Bool, true, false, not, ◌&&◌, ◌||◌, Option, none, some, List, [], ◌∷◌, if◌then◌else◌,
  str_eq, includes, split,
}
use caas_lite.Engine.Domain.{
  Value, undefined, null, boolean, number, string, array, object, Values, end, item, Members,
  closed, member, Js, DomainEvent, eq, neq, contains, exists, gt, lt, matches, unknown,
  PolicyCondition, ConditionResult,
}

-- The parts of a template text.
unfoldable pub concat : List String → String
concat [] = ""
concat (s ∷ ss) = String.◌++◌ s (concat ss)

abbrev bool_eq : Bool → Bool → Bool
bool_eq true b = b
bool_eq false b = not b

-- `===`; an object of an event is never the object of a policy.
unfoldable pub strict_equal : Value → Value → Bool
strict_equal undefined undefined = true
strict_equal null null = true
strict_equal (boolean a) (boolean b) = bool_eq a b
strict_equal (number a) (number b) = str_eq a b
strict_equal (string a) (string b) = str_eq a b
strict_equal _ _ = false

-- `Array.includes`.
unfoldable pub array_includes : Values → Value → Bool
array_includes end v = false
array_includes (item u us) v = strict_equal u v || array_includes us v

unfoldable pub is_present : Value → Bool
is_present undefined = false
is_present null = false
is_present _ = true

abbrev text_or_undefined : Option String → Value
text_or_undefined (some s) = string s
text_or_undefined none = undefined

-- The event as the object that it is.
unfoldable pub event_value : DomainEvent → Value
event_value e = object (
    member "id" (string e.id) (
      member "type" (string e.type) (
        member "occurredAt" (string e.occurred_at) (
          member "receivedAt" (string e.received_at) (
            member "source" (string e.source) (
              member "actor"
                (object (
                  member "id" (string e.actor.id) (
                    member "name" (string e.actor.name) (
                      member "kind" (string e.actor.kind)
                        (member "ipAddress" (text_or_undefined e.actor.ip_address) closed)))))
                (member "metadata" (object e.metadata)
                  (member "environment" (string e.environment) closed))))))))

-- A template text, which throws where a part of it does.
unfoldable pub template : List (Option String) → Option String
template [] = some ""
template (none ∷ parts) = none
template (some s ∷ parts) = elim (template parts) [
  | none ↦ none
  | some rest ↦ some (String.◌++◌ s rest)
]

abbrev pub is_nan : String → Bool
is_nan n = str_eq n "NaN"

module _ (js : Js) where
  open js use {inherited, element, to_text, to_number, greater, compile, decimal}

  unfoldable pub property : Members → String → Value
  property closed name = inherited name
  property (member k v ms) name = if str_eq k name then v else property ms name

  -- One step of a path: only objects and arrays have properties here.
  unfoldable pub step_into : Value → String → Value
  step_into (object ms) name = property ms name
  step_into (array vs) name = element vs name
  step_into _ name = undefined

  unfoldable pub walk : Value → List String → Value
  walk v [] = v
  walk v (name ∷ names) = walk (step_into v name) names

  -- `resolveField`; the separator is the full stop.
  unfoldable pub resolve_field : DomainEvent → String → Value
  resolve_field e field = walk (event_value e) (split b'.' field)

  -- `String(value ?? '')`
  abbrev pub text_or_empty : Value → Option String
  text_or_empty v = if is_present v then to_text v else some ""

  -- `!isNaN(num) && !isNaN(threshold) && num > threshold`
  abbrev pub is_above : String → String → Bool
  is_above m n = not (is_nan m) && not (is_nan n) && greater m n

  -- A comparison of two numbers.
  abbrev pub compared : (String → String → Bool) → Option String → Option String → Option Bool
  compared test (some m) (some n) = some (test m n)
  compared test _ _ = none

  abbrev pub includes_text : String → Option String → Option Bool
  includes_text s (some part) = some (includes s part)
  includes_text s none = none

  abbrev pub match_text : String → Option String → Option Bool
  match_text s none = none
  match_text s (some pattern) = elim (compile pattern) [ none ↦ none | some test ↦ some (test s) ]

  -- Whether a condition holds of the value that its field resolved to.
  unfoldable pub holds : PolicyCondition → Value → Option Bool
  holds c v = elim c.operator [
    | eq ↦ some (strict_equal v c.value)
    | neq ↦ some (not (strict_equal v c.value))
    | exists ↦ some (is_present v)
    | contains ↦ elim v [
      | array vs ↦ some (array_includes vs c.value)
      | string s ↦ includes_text s (text_or_empty c.value)
      | _ ↦ some false
    ]
    | gt ↦ compared is_above (to_number v) (to_number c.value)
    | lt ↦ compared (λ m n. is_above n m) (to_number v) (to_number c.value)
    | matches ↦ elim v [ string s ↦ match_text s (text_or_empty c.value) | _ ↦ some false ]
    | unknown _ ↦ some false
  ]

  abbrev quoted : String → String → List (Option String) → Option String
  quoted field said rest = template (some "\"" ∷ some field ∷ some "\"" ∷ some said ∷ rest)

  abbrev array_quoted : String → String → Option String → Option String
  array_quoted field said value =
      template (some "array \"" ∷ some field ∷ some "\"" ∷ some said ∷ value ∷ some "\"" ∷ [])

  -- The explanation of a result.
  unfoldable pub explain : PolicyCondition → Value → Bool → Option String
  explain c v passed =
      let value = to_text c.value in
      elim c.operator [
        | eq ↦
            if passed
            then quoted c.field " equals expected value \"" (value ∷ some "\"" ∷ [])
            else quoted c.field " is \""
                (to_text v ∷ some "\" but expected \"" ∷ value ∷ some "\"" ∷ [])
        | neq ↦
            if passed
            then quoted c.field " correctly differs from \"" (value ∷ some "\"" ∷ [])
            else quoted c.field " must not equal \"" (value ∷ some "\" but it does" ∷ [])
        | exists ↦
            if passed
            then quoted c.field " is present" []
            else quoted c.field " is missing or null" []
        | contains ↦ elim v [
          | array _ ↦
              if passed
              then array_quoted c.field " contains \"" value
              else array_quoted c.field " does not contain \"" value
          | string _ ↦
              if passed
              then quoted c.field " contains substring \"" (value ∷ some "\"" ∷ [])
              else quoted c.field " does not contain \"" (value ∷ some "\"" ∷ [])
          | _ ↦ quoted c.field " is not a string or array — cannot apply \"contains\"" []
        ]
        | gt ↦
            if passed
            then quoted c.field " ("
                (to_number v ∷ some ") is greater than " ∷ to_number c.value ∷ [])
            else quoted c.field " ("
                (to_text v ∷ some ") is not greater than " ∷ to_number c.value ∷ [])
        | lt ↦
            if passed
            then quoted c.field " (" (to_number v ∷ some ") is less than " ∷ to_number c.value ∷ [])
            else quoted c.field " ("
                (to_text v ∷ some ") is not less than " ∷ to_number c.value ∷ [])
        | matches ↦ elim v [
          | string _ ↦
              if passed
              then quoted c.field " matches pattern /" (value ∷ some "/" ∷ [])
              else quoted c.field " does not match pattern /" (value ∷ some "/" ∷ [])
          | _ ↦ quoted c.field " is not a string — cannot apply regex \"matches\"" []
        ]
        | unknown name ↦ template (some "unknown operator \"" ∷ some name ∷ some "\"" ∷ [])
      ]

  unfoldable pub evaluate_condition : DomainEvent → PolicyCondition → Option ConditionResult
  evaluate_condition e c =
      let v = resolve_field e c.field in
      elim (holds c v) [
        | none ↦ none
        | some passed ↦ elim (explain c v passed) [
          | none ↦ none
          | some explanation ↦ some (record {
            condition = c;
            resolved_value = v;
            passed = passed;
            explanation = explanation;
          })
        ]
      ]
