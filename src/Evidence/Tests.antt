-- ===== src/Evidence/Tests.antt =====
-- Two clients of the default tenant, one after the end of its trial, and a batch of the first.
use caas_lite.Prelude.{
  ℕ, ◌≡◌, refl, sym, ◌∙◌, ◌+◌, ◌*◌, ◌/◌, ◌↔◌, In, String, Option, none, some, List, [], length,
  sort_by, insert_by, take,
}
use caas_lite.Evidence.{
  EvidenceTables, EvidenceRow, ledger_entry, Batch, LedgerEntry, runs, monitors, expired_locked,
  append, get_history, increment_meter, upsert_meter, find_meter, get_meter_by_tenant,
  evaluate_trial_status, entries_of, exported_entries, export_signed_ledger, trial_duration_ms,
}
use caas_lite.Evidence.Laws.{export_shows_everyone, IsEntryOf}
use caas_lite.Evidence.Trials.{evaluate_trial_status_final}

abbrev empty_tables : EvidenceTables
empty_tables = record { evidence = []; next_id = 1; meters = [] }

-- A clock in a zone an hour behind UTC.
abbrev whole_seconds : ℕ → ℕ
whole_seconds now = now / 1000 * 1000 + 3600000

abbrev tables : EvidenceTables
tables = append "batch" 5 (
    increment_meter whole_seconds "c2" monitors 4 (
      increment_meter whole_seconds "c1" runs 3
        (increment_meter whole_seconds "c1" runs 2 empty_tables)))

abbrev parse_batch : String → Option Batch
parse_batch text = some record {
  actor_id = some "actor";
  event_id = none;
  event_type = some "MODEL_DEPLOY";
  overall_outcome = some "PASS";
  alerts = none;
}

abbrev no_checksum : String → ℕ → List LedgerEntry → String
no_checksum client now es = "sum"

history_test : length (get_history 50 tables) ≡ 1
unfolding get_history append sort_by insert_by take increment_meter
history_test = refl

ledger_test : (export_signed_ledger parse_batch no_checksum "c2" 9 tables).record_count ≡ 1
unfolding export_signed_ledger exported_entries entries_of find_meter increment_meter upsert_meter
    append
ledger_test = refl

stranger_test : (export_signed_ledger parse_batch no_checksum "c3" 9 tables).record_count ≡ 0
unfolding export_signed_ledger exported_entries entries_of find_meter increment_meter upsert_meter
    append
stranger_test = refl

-- The batch is shown to a client that has only a monitor.
export_shows_everyone_example :
    let row : EvidenceRow = record { id = 1; timestamp = 5; batch_data = "batch" } in
    let batch : Batch = record {
      actor_id = some "actor";
      event_id = none;
      event_type = some "MODEL_DEPLOY";
      overall_outcome = some "PASS";
      alerts = none;
    } in
    In
      (ledger_entry "c2" row batch)
      (export_signed_ledger parse_batch no_checksum "c2" 9 tables).entries
    ↔ IsEntryOf parse_batch "c2" tables.evidence (ledger_entry "c2" row batch)
unfolding find_meter increment_meter upsert_meter append
export_shows_everyone_example = export_shows_everyone parse_batch no_checksum "c2" 9 tables _ _ refl

status_test :
    (evaluate_trial_status "default_tenant" (trial_duration_ms + 3600001) tables.meters).0
    ≡ expired_locked
unfolding evaluate_trial_status get_meter_by_tenant sort_by insert_by increment_meter upsert_meter
    append
status_test = refl

evaluate_trial_status_final_example :
    evaluate_trial_status "default_tenant" 0
      (evaluate_trial_status "default_tenant" (trial_duration_ms + 3600001) tables.meters).1
    ≡ evaluate_trial_status "default_tenant" (trial_duration_ms + 3600001) tables.meters
evaluate_trial_status_final_example =
    evaluate_trial_status_final "default_tenant" tables.meters (trial_duration_ms + 3600001) 0
      (λ e. let over = sym status_test ∙ e in cc)
