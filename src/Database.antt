-- ===== src/Database.antt =====
-- The tables that the badge and insurance code of src/ reads and writes, one list of rows each in
-- the order of insertion. Instants are milliseconds, in the order of the ISO texts of the program.
-- Ratios, which the program holds in doubles, are exact fractions.
use caas_lite.Prelude.{ℕ, ◌*◌, String, Bool, true, false, Option, List, ltb, leb}

-- A fraction with a denominator above zero, and its order by cross multiplication.
pub record Fraction : Type 0 where
  pub num : ℕ
  pub den : ℕ

abbrev pub frac_lt : Fraction → Fraction → Bool
frac_lt a b = ltb (a.num * b.den) (b.num * a.den)

abbrev pub frac_le : Fraction → Fraction → Bool
frac_le a b = leb (a.num * b.den) (b.num * a.den)

-- `PolicyState` of src/routes/insurance.ts.
pub data PolicyState : Type 0 where
  active void_by_compliance_drift void_by_anomaly_ratio : PolicyState

abbrev pub policy_state_eq : PolicyState → PolicyState → Bool
policy_state_eq active active = true
policy_state_eq void_by_compliance_drift void_by_compliance_drift = true
policy_state_eq void_by_anomaly_ratio void_by_anomaly_ratio = true
policy_state_eq _ _ = false

-- The evidence of an evaluation: the properties that some evaluation sets. `threshold` is a ratio
-- or, for compliance drift, a whole number.
pub record Evidence : Type 0 where
  pub trigger : Option String
  pub anomaly_ratio : Option Fraction
  pub threshold : Option Fraction
  pub window_days : Option ℕ
  pub total_requests : Option ℕ
  pub denied_requests : Option ℕ
  pub boundary_crossings : Option ℕ
  pub checked_at : Option ℕ

-- A row of `ai_insurance_warranties`; `{}` as evidence is `none`.
pub record WarrantyRow : Type 0 where
  pub id : String
  pub tenant_id : String
  pub account_id : String
  pub policy_state : PolicyState
  pub external_carrier_id : Option String
  pub external_policy_number : Option String
  pub state_evidence : Option Evidence
  pub coverage_started_at : ℕ
  pub coverage_ends_at : Option String
  pub state_changed_at : ℕ
  pub created_at : ℕ
  pub updated_at : ℕ

-- A row of `role_access_metrics`.
pub record Metric : Type 0 where
  pub user_tenant_id : String
  pub access_granted : Bool
  pub is_boundary_crossing : Bool
  pub evaluated_at : ℕ

pub data BadgeState : Type 0 where
  green amber red : BadgeState

abbrev pub badge_state_eq : BadgeState → BadgeState → Bool
badge_state_eq green green = true
badge_state_eq amber amber = true
badge_state_eq red red = true
badge_state_eq _ _ = false

-- A row of `trust_badge_registry`.
pub record BadgeRow : Type 0 where
  pub tenant_id : String
  pub account_id : String
  pub badge_state : BadgeState
  pub state_signature : String
  pub state_reason : Option String
  pub state_changed_at : ℕ
  pub created_at : ℕ
  pub updated_at : ℕ

-- A row of `trust_badge_history`.
pub record BadgeHistoryRow : Type 0 where
  pub id : String
  pub tenant_id : String
  pub account_id : String
  pub from_state : Option BadgeState
  pub to_state : BadgeState
  pub reason : Option String
  pub changed_at : ℕ

-- The JSON in the audit log's last column.
pub data Metadata : Type 0 where
  empty : Metadata
  of_evidence : Evidence → Metadata
  of_binding : String → Option String → Metadata

-- A value of the audit log: none, a policy state, or the external references of a warranty.
pub data AuditValue : Type 0 where
  null : AuditValue
  state : PolicyState → AuditValue
  external : Option String → Option String → AuditValue

-- A row of `commercial_audit_log`.
pub record AuditRow : Type 0 where
  pub id : String
  pub tenant_id : String
  pub actor_user_id : Option String
  pub entity_type : String
  pub entity_id : String
  pub action : String
  pub old_value : AuditValue
  pub new_value : AuditValue
  pub metadata : Metadata
  pub created_at : ℕ

-- The row of `secret_state` for the badge secret, with the count in its metadata.
pub record SecretRow : Type 0 where
  pub fingerprint : String
  pub last_seen_at : ℕ
  pub last_rotated_at : ℕ
  pub resigned_count : Option ℕ

pub record UserRow : Type 0 where
  pub id : String
  pub plane_role : Option String

pub record AccountRow : Type 0 where
  pub id : String
  pub tenant_id : String

pub record Database : Type 0 where
  pub warranties : List WarrantyRow
  pub metrics : List Metric
  pub registry : List BadgeRow
  pub history : List BadgeHistoryRow
  pub audit : List AuditRow
  pub secret : Option SecretRow
  pub users : List UserRow
  pub accounts : List AccountRow

-- What the code takes from the runtime and from node's crypto module.
pub record Runtime : Type 0 where
  -- `createHmac("sha256", secret).update(text).digest("hex")`
  pub hmac : String → String → String
  -- `createHash("sha256").update(text).digest("hex")`
  pub sha256 : String → String
  -- `toISOString`
  pub iso : ℕ → String
  -- `(x * 100).toFixed(1)`
  pub percent : Fraction → String
  -- `String(n)`
  pub decimal : ℕ → String
