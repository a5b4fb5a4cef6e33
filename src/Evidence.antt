-- ===== src/Evidence.antt =====
-- `EvidenceDb` of src/evidenceDb.ts: the evidence of batches and the billing meters with their trials.
-- `now` is the clock reading of a call; `read_back` says what `new Date` makes of the text that
-- CURRENT_TIMESTAMP stores at an instant: whole seconds of UTC, read as local time.
pub mod Laws
pub mod Trials
pub mod Tests
use caas_lite.Prelude.{
  ℕ, suc, ◌+◌, ◌*◌, String, Bool, true, false, ◌||◌, Option, none, some, List, [], ◌∷◌, ◌++◌,
  if◌then◌else◌, str_eq, ltb, filter, length, sort_by, take,
}

pub data MeterMetric : Type 0 where
  runs monitors : MeterMetric

pub data BillingTier : Type 0 where
  pay_as_you_go growth enterprise : BillingTier

pub data TrialStatus : Type 0 where
  active expired_converted expired_locked : TrialStatus

-- A row of `billing_meters`.
pub record Meter : Type 0 where
  pub client_id : String
  pub verification_runs : ℕ
  pub active_monitors : ℕ
  pub tenant_id : String
  pub billing_tier : BillingTier
  pub trial_start_timestamp : ℕ
  pub trial_status : TrialStatus

-- A row of `evidence`; ids count from 1.
pub record EvidenceRow : Type 0 where
  pub id : ℕ
  pub timestamp : ℕ
  pub batch_data : String

pub record EvidenceTables : Type 0 where
  pub evidence : List EvidenceRow
  pub next_id : ℕ
  pub meters : List Meter

-- What a batch's text says when it is parsed.
pub record Batch : Type 0 where
  pub actor_id : Option String
  pub event_id : Option String
  pub event_type : Option String
  pub overall_outcome : Option String
  pub alerts : Option ℕ

pub record LedgerEntry : Type 0 where
  pub evidence_id : ℕ
  pub timestamp : ℕ
  pub client_id : String
  pub event_id : String
  pub event_type : String
  pub overall_outcome : String
  pub alert_count : ℕ

pub record SignedLedger : Type 0 where
  pub client_id : String
  pub exported_at : ℕ
  pub record_count : ℕ
  pub entries : List LedgerEntry
  pub checksum : String

abbrev pub trial_duration_ms : ℕ
trial_duration_ms = 7 * 24 * 60 * 60 * 1000

unfoldable pub append : String → ℕ → EvidenceTables → EvidenceTables
append batch now t = record t {
  evidence = t.evidence ++ record { id = t.next_id; timestamp = now; batch_data = batch } ∷ [];
  next_id = suc t.next_id;
}

unfoldable pub get_history : ℕ → EvidenceTables → List EvidenceRow
get_history limit t =
    take limit (sort_by (λ (a : EvidenceRow) (b : EvidenceRow). ltb b.id a.id) t.evidence)

abbrev pub first_meter : (ℕ → ℕ) → String → MeterMetric → ℕ → Meter
first_meter read_back client metric now = record {
  client_id = client;
  verification_runs = elim metric [ runs ↦ 1 | monitors ↦ 0 ];
  active_monitors = 1;
  tenant_id = "default_tenant";
  billing_tier = pay_as_you_go;
  trial_start_timestamp = read_back now;
  trial_status = active;
}

abbrev pub incremented : MeterMetric → Meter → Meter
incremented runs m = record m { verification_runs = m.verification_runs + 1 }
incremented monitors m = record m { active_monitors = m.active_monitors + 1 }

-- The upsert on the primary key `client_id`.
unfoldable pub upsert_meter : (ℕ → ℕ) → String → MeterMetric → ℕ → List Meter → List Meter
upsert_meter read_back client metric now [] = first_meter read_back client metric now ∷ []
upsert_meter read_back client metric now (m ∷ ms) =
    let rest = upsert_meter read_back client metric now ms in
    if str_eq m.client_id client then incremented metric m ∷ ms else m ∷ rest

unfoldable pub increment_meter :
    (ℕ → ℕ) → String → MeterMetric → ℕ → EvidenceTables → EvidenceTables
increment_meter read_back client metric now t = record t {
  meters = upsert_meter read_back client metric now t.meters;
}

unfoldable pub find_meter : String → List Meter → Option Meter
find_meter client [] = none
find_meter client (m ∷ ms) = if str_eq m.client_id client then some m else find_meter client ms

abbrev pub more_runs : Meter → Meter → Bool
more_runs a b = ltb b.verification_runs a.verification_runs

unfoldable pub get_meter_by_tenant : String → List Meter → List Meter
get_meter_by_tenant tenant ms =
    sort_by more_runs (filter (λ (m : Meter). str_eq m.tenant_id tenant) ms)

-- `SET trial_status = 'EXPIRED_LOCKED' WHERE tenant_id = ?`
unfoldable pub lock_trials : String → List Meter → List Meter
lock_trials tenant [] = []
lock_trials tenant (m ∷ ms) =
    (if str_eq m.tenant_id tenant then record m { trial_status = expired_locked } else m)
    ∷ lock_trials tenant ms

abbrev pub trial_is_over : ℕ → Meter → Bool
trial_is_over now m = ltb (m.trial_start_timestamp + trial_duration_ms) now

abbrev pub after_trial : String → ℕ → List Meter → Meter → TrialStatus → TrialStatus × List Meter
after_trial tenant now ms m active =
    if trial_is_over now m then (expired_locked, lock_trials tenant ms) else (active, ms)
after_trial tenant now ms m expired_converted = (expired_converted, ms)
after_trial tenant now ms m expired_locked = (expired_locked, ms)

abbrev pub trial_of : String → ℕ → List Meter → List Meter → TrialStatus × List Meter
trial_of tenant now ms [] = (active, ms)
trial_of tenant now ms (m ∷ _) = after_trial tenant now ms m m.trial_status

-- The status from the tenant's meter with the most runs, and the meters afterwards.
unfoldable pub evaluate_trial_status : String → ℕ → List Meter → TrialStatus × List Meter
evaluate_trial_status tenant now ms = trial_of tenant now ms (get_meter_by_tenant tenant ms)

abbrev pub or_unknown : Option String → String
or_unknown none = "unknown"
or_unknown (some s) = s

abbrev pub or_zero : Option ℕ → ℕ
or_zero none = 0
or_zero (some n) = n

abbrev pub is_given : Option String → Bool
is_given none = false
is_given (some _) = true

abbrev pub ledger_entry : String → EvidenceRow → Batch → LedgerEntry
ledger_entry client row b = record {
  evidence_id = row.id;
  timestamp = row.timestamp;
  client_id = client;
  event_id = or_unknown b.event_id;
  event_type = or_unknown b.event_type;
  overall_outcome = or_unknown b.overall_outcome;
  alert_count = or_zero b.alerts;
}

-- The entry of a row before the entries of the rest, if it parses and names an actor or an event.
abbrev pub entry_before : String → EvidenceRow → Option Batch → List LedgerEntry → List LedgerEntry
entry_before client row none rest = rest
entry_before client row (some b) rest =
    if is_given b.actor_id || is_given b.event_id then ledger_entry client row b ∷ rest else rest

-- In the order of the ids, which is that of the table. `parse` is `JSON.parse` and the JSON
-- functions of SQLite.
unfoldable pub entries_of : (String → Option Batch) → String → List EvidenceRow → List LedgerEntry
entries_of parse client [] = []
entries_of parse client (row ∷ rows) =
    entry_before client row (parse row.batch_data) (entries_of parse client rows)

unfoldable pub exported_entries :
    (String → Option Batch) → String → EvidenceTables → List LedgerEntry
exported_entries parse client t = elim (find_meter client t.meters) [
  | none ↦ []
  | some _ ↦ entries_of parse client t.evidence
]

-- `checksum` is the digest of the payload's JSON text.
unfoldable pub export_signed_ledger :
    (String → Option Batch)
    → (String → ℕ → List LedgerEntry → String)
    → String
    → ℕ
    → EvidenceTables
    → SignedLedger
export_signed_ledger parse checksum client now t = record {
  client_id = client;
  exported_at = now;
  record_count = length (exported_entries parse client t);
  entries = exported_entries parse client t;
  checksum = checksum client now (exported_entries parse client t);
}
