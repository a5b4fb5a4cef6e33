-- ===== src/Badge/Rotation.antt =====
-- src/lib/badge-rotation.ts: detecting a new badge secret at boot, and signing every badge again.
-- `now` is the one clock reading of a detection and `uuid` the ids in the order they are drawn.
pub mod Laws
use Prim.Native.Nat.{suc}
use caas_lite.Prelude.{
  ℕ, ◌+◌, String, Bool, true, false, Option, none, some, List, [], ◌∷◌, ◌++◌, if◌then◌else◌, str_eq,
  length,
}
use caas_lite.Database.{
  BadgeState, BadgeRow, AuditRow, AuditValue, null, Metadata, empty, SecretRow, Database, Runtime,
}
use caas_lite.Badge.Secrets.{ResolvedSecrets, sign_badge_state, get_current_secret_fingerprint}
use caas_lite.Badge.Sync.{update_badge}

pub data RotationOutcome : Type 0 where
  established unchanged rotated : RotationOutcome

pub record RotationDetectionResult : Type 0 where
  pub outcome : RotationOutcome
  pub badges_resigned : ℕ
  pub detected_at : ℕ

-- The row that `updateSig` writes.
abbrev pub resigned : String → ℕ → BadgeRow → BadgeRow
resigned signature now r = record r { state_signature = signature; updated_at = now }

-- The row that `insertAudit` writes.
abbrev pub rotation_audit : String → String → ℕ → AuditRow
rotation_audit id tenant now = record {
  id = id;
  tenant_id = tenant;
  actor_user_id = none;
  entity_type = "badge";
  entity_id = tenant;
  action = "secret_rotation";
  old_value = null;
  new_value = null;
  metadata = empty;
  created_at = now;
}

-- The loop of `resignAllBadges` over the rows that were selected.
unfoldable pub resign_rows :
    Runtime → ResolvedSecrets → ℕ → (ℕ → String) → ℕ → List BadgeRow → Database → Database
resign_rows rt s now uuid n [] db = db
resign_rows rt s now uuid n (r ∷ rs) db =
    let signature = sign_badge_state rt s r.tenant_id r.badge_state r.state_changed_at in
    resign_rows rt s now uuid (suc n) rs (record db {
      registry = update_badge r.tenant_id (resigned signature now) db.registry;
      audit = db.audit ++ rotation_audit (uuid n) r.tenant_id now ∷ [];
    })

-- `resignAllBadges`, with the number of badges.
unfoldable pub resign_all_badges :
    Runtime → ResolvedSecrets → ℕ → (ℕ → String) → Database → ℕ × Database
resign_all_badges rt s now uuid db =
    (length db.registry, resign_rows rt s now uuid 0 db.registry db)

unfoldable pub detect_and_apply_rotation :
    Runtime → ResolvedSecrets → ℕ → (ℕ → String) → Database → RotationDetectionResult × Database
detect_and_apply_rotation rt s now uuid db =
    let fingerprint = get_current_secret_fingerprint rt s in
    let (count, after) = resign_all_badges rt s now uuid db in
    elim db.secret [
      | none ↦ (
        record { outcome = established; badges_resigned = 0; detected_at = now },
        record db {
          secret = some (record {
            fingerprint = fingerprint;
            last_seen_at = now;
            last_rotated_at = now;
            resigned_count = none;
          });
        },
      )
      | some prior ↦
          if str_eq prior.fingerprint fingerprint
          then (
            record { outcome = unchanged; badges_resigned = 0; detected_at = now },
            record db { secret = some (record prior { last_seen_at = now }) },
          )
          else (
            record { outcome = rotated; badges_resigned = count; detected_at = now },
            record after {
              secret = some (record {
                fingerprint = fingerprint;
                last_seen_at = now;
                last_rotated_at = now;
                resigned_count = some count;
              });
            },
          )
    ]
