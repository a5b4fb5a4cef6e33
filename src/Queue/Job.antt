-- ===== src/Queue/Job.antt =====
-- The types of src/services/queue.ts. Payloads and results stand as the JSON text that the table
-- stores; instants are milliseconds, in the order of the ISO texts that the table compares.
use caas_lite.Prelude.{ℕ, String, Bool, true, false, Option}

pub data JobPriority : Type 0 where
  critical high normal low : JobPriority

pub data JobStatus : Type 0 where
  queued processing completed failed dead : JobStatus

pub data JobType : Type 0 where
  payout_sweep payout_single wht_receipt_generate bulk_statement_generate anomaly_scan : JobType
  fx_rate_refresh regulatory_report notification_dispatch analyze_db : JobType

abbrev pub status_eq : JobStatus → JobStatus → Bool
status_eq queued queued = true
status_eq processing processing = true
status_eq completed completed = true
status_eq failed failed = true
status_eq dead dead = true
status_eq _ _ = false

abbrev pub type_eq : JobType → JobType → Bool
type_eq payout_sweep payout_sweep = true
type_eq payout_single payout_single = true
type_eq wht_receipt_generate wht_receipt_generate = true
type_eq bulk_statement_generate bulk_statement_generate = true
type_eq anomaly_scan anomaly_scan = true
type_eq fx_rate_refresh fx_rate_refresh = true
type_eq regulatory_report regulatory_report = true
type_eq notification_dispatch notification_dispatch = true
type_eq analyze_db analyze_db = true
type_eq _ _ = false

-- A type as the table and the messages spell it.
unfoldable pub type_text : JobType → String
type_text payout_sweep = "payout_sweep"
type_text payout_single = "payout_single"
type_text wht_receipt_generate = "wht_receipt_generate"
type_text bulk_statement_generate = "bulk_statement_generate"
type_text anomaly_scan = "anomaly_scan"
type_text fx_rate_refresh = "fx_rate_refresh"
type_text regulatory_report = "regulatory_report"
type_text notification_dispatch = "notification_dispatch"
type_text analyze_db = "analyze_db"

-- A job as it is submitted.
pub record JobDefinition : Type 0 where
  pub type : JobType
  pub payload : String
  pub priority : Option JobPriority
  pub max_attempts : Option ℕ
  pub idempotency_key : Option String

-- A row of `job_queue`.
pub record Row : Type 0 where
  pub id : String
  pub type : JobType
  pub payload_json : String
  pub priority : JobPriority
  pub status : JobStatus
  pub attempts : ℕ
  pub max_attempts : ℕ
  pub idempotency_key : Option String
  pub result_json : Option String
  pub error : Option String
  pub queued_at : ℕ
  pub started_at : Option ℕ
  pub completed_at : Option ℕ
  pub next_attempt_at : Option ℕ

-- A job in memory, with the properties that the worker reads. `max_attempts` stands for the
-- property `maxAttempts`: `none` is `undefined`.
pub record Job : Type 0 where
  pub id : String
  pub type : JobType
  pub payload : String
  pub attempts : ℕ
  pub max_attempts : Option ℕ

abbrev pub default_max_attempts : ℕ
default_max_attempts = 3

abbrev pub base_retry_delay_ms : ℕ
base_retry_delay_ms = 2000

-- The last instant of a `Date`: beyond it `toISOString` throws.
abbrev pub max_date : ℕ
max_date = 8640000000000000

-- `CASE priority WHEN ... END`, and `PRIORITY_ORDER`.
unfoldable pub rank : JobPriority → ℕ
rank critical = 0
rank high = 1
rank normal = 2
rank low = 3

pub record QueueStats : Type 0 where
  pub queued : ℕ
  pub processing : ℕ
  pub completed : ℕ
  pub failed : ℕ
  pub dead : ℕ
  pub total : ℕ
