-- ===== src/Badge/Tests.antt =====
-- The theorems on the badges at concrete inputs.
use caas_lite.Prelude.{
  ◌≡◌, refl, String, false, none, some, [], ◌∷◌, arith, eq_iff, str_eq, if◌then◌else◌, if_both,
}
use caas_lite.Database.{void_by_anomaly_ratio, red, BadgeRow, SecretRow, Database, Runtime}
use caas_lite.Badge.Secrets.{
  Env, ResolvedSecrets, badge_text, badge_state_text, current, previous, sign_badge_state,
  verify_badge_signature, get_current_secret_fingerprint, utf16_length, utf8_length,
}
use caas_lite.Badge.Secrets.Laws.{HasDigests, verify-sign_rotated}
use caas_lite.Badge.Sync.{
  BadgeStateInputs, compute_badge_state, find_badge, history_row, sync_badge,
}
use caas_lite.Badge.Sync.Laws.{last_state}
use caas_lite.Badge.Sync.Registry.{IsSynced, sync_badge-IsSynced}
use caas_lite.Badge.Sync.History.{IsRecorded, IsSigned, sync_badge-IsRecorded, sync_badge-IsSigned}
use caas_lite.Badge.Rotation.{detect_and_apply_rotation}
use caas_lite.Badge.Rotation.Laws.{rotation-IsSigned}

abbrev digest_one : String
digest_one = "1111111111111111111111111111111111111111111111111111111111111111"

abbrev digest_two : String
digest_two = "2222222222222222222222222222222222222222222222222222222222222222"

-- A runtime with one digest for the secret "one" and another for all else.
abbrev runtime : Runtime
runtime = record {
  hmac = λ k m. if str_eq k "one" then digest_one else digest_two;
  sha256 = λ s. s;
  iso = λ n. "2026-05-14T10:00:00.000Z";
  percent = λ x. "2.5";
  decimal = λ n. "12";
}

runtime-HasDigests : HasDigests runtime
unfolding utf16_length utf8_length
runtime-HasDigests k m =
    if_both (λ d. (utf16_length d ≡ 64) × (utf8_length d ≡ 64)) (str_eq k "one") digest_one
      digest_two (refl, refl) (refl, refl)

abbrev first : ResolvedSecrets
first = record { current = "one"; previous = none; is_dev_fallback = false }

abbrev second : ResolvedSecrets
second = record { current = "two"; previous = some "one"; is_dev_fallback = false }

abbrev env : Env
env = record { current = some "two"; previous = some "one"; legacy = none }

abbrev badge : BadgeRow
badge = record {
  tenant_id = "acme";
  account_id = "a1";
  badge_state = red;
  state_signature = digest_one;
  state_reason = some "Coverage void: 10 boundary crossings detected";
  state_changed_at = 5;
  created_at = 5;
  updated_at = 5;
}

abbrev empty_database : Database
empty_database = record {
  warranties = [];
  metrics = [];
  registry = [];
  history = [];
  audit = [];
  secret = none;
  users = [];
  accounts = [];
}

abbrev database : Database
database = record empty_database {
  registry = badge ∷ [];
  history =
      history_row "h1" "acme" "a1" none (red, some "Coverage void: 10 boundary crossings detected")
        5
      ∷ [];
  secret = some (record {
    fingerprint = "one";
    last_seen_at = 5;
    last_rotated_at = 5;
    resigned_count = none;
  });
}

abbrev prior : SecretRow
prior = record { fingerprint = "one"; last_seen_at = 5; last_rotated_at = 5; resigned_count = none }

abbrev void : BadgeStateInputs
void = record { policy_state = some void_by_anomaly_ratio; evidence = none }

verify-sign_rotated_example :
    let text = badge_text "acme" (badge_state_text red) (runtime.iso 5) in
    verify_badge_signature runtime second
      (sign_badge_state runtime first "acme" red 5)
      "acme"
      (badge_state_text red)
      (runtime.iso 5)
    ≡ some
        (if str_eq (runtime.hmac "one" text) (runtime.hmac "two" text) then current else previous)
verify-sign_rotated_example =
    verify-sign_rotated runtime first second "acme" red 5 runtime-HasDigests refl

sync_badge-IsSynced_example :
    let (answer, after) = sync_badge runtime first 9 "h2" "acme" "a1" void database in
    IsSynced (compute_badge_state runtime void) "acme" database answer after
sync_badge-IsSynced_example = sync_badge-IsSynced runtime first 9 "h2" "acme" "a1" void database

database-IsRecorded : IsRecorded database
unfolding last_state find_badge
database-IsRecorded = record { chained = (refl, tt); current = λ t. ground arith }

sync_badge-IsRecorded_example :
    IsRecorded (sync_badge runtime first 9 "h2" "acme" "a1" void database).1
sync_badge-IsRecorded_example =
    sync_badge-IsRecorded runtime first 9 "h2" "acme" "a1" void database database-IsRecorded

database-IsSigned : IsSigned runtime first database.registry
unfolding find_badge sign_badge_state
database-IsSigned t r e = ground (arith, e)

sync_badge-IsSigned_example :
    IsSigned runtime first (sync_badge runtime first 9 "h2" "acme" "a1" void database).1.registry
sync_badge-IsSigned_example =
    sync_badge-IsSigned runtime first 9 "h2" "acme" "a1" void database database-IsSigned

rotation-IsSigned_example :
    IsSigned runtime second
      (detect_and_apply_rotation runtime second 20 (λ n. "u") database).1.registry
unfolding find_badge get_current_secret_fingerprint
rotation-IsSigned_example =
    rotation-IsSigned runtime second 20 (λ n. "u") database prior (refl, tt) refl
      (ground (arith, eq_iff "one" "two"))
