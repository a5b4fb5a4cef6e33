-- ===== src/Badge/Sync.antt =====
-- src/lib/badge-sync.ts: the state of a tenant's badge, and its registry and history.
pub mod Laws
pub mod Registry
pub mod History
use Prim.Native.String
use caas_lite.Prelude.{
  ℕ, ◌*◌, ◌+◌, String, Bool, true, false, ◌&&◌, not, Option, none, some, List, [], ◌∷◌, ◌++◌,
  if◌then◌else◌, str_eq, ltb, leb,
}
use caas_lite.Database.{
  Fraction, frac_lt, frac_le, PolicyState, active, void_by_compliance_drift, void_by_anomaly_ratio,
  Evidence, BadgeState, green, amber, red, badge_state_eq, BadgeRow, BadgeHistoryRow, Database,
  Runtime,
}
use caas_lite.Badge.Secrets.{ResolvedSecrets, sign_badge_state}

-- `none` is an absent state or absent evidence.
pub record BadgeStateInputs : Type 0 where
  pub policy_state : Option PolicyState
  pub evidence : Option Evidence

-- `threshold * AMBER_THRESHOLD_RATIO`, with the ratio of three quarters.
abbrev pub amber_from : Fraction → Fraction
amber_from t = record { num = 3 * t.num; den = 4 * t.den }

-- From three quarters of the threshold up to, not including, the threshold.
unfoldable pub is_amber : Fraction → Fraction → Bool
is_amber ratio threshold =
    ltb 0 threshold.num && frac_le (amber_from threshold) ratio && frac_lt ratio threshold

module _ (rt : Runtime) where
  open rt use {percent, decimal}

  unfoldable pub approaching : Fraction → Fraction → String
  approaching ratio threshold = String.◌++◌ "Anomaly ratio " (
      String.◌++◌ (percent ratio)
        (String.◌++◌ "% approaching " (String.◌++◌ (percent threshold) "% threshold")))

  -- The state without a void: green, or amber where the evidence nears its threshold.
  unfoldable pub standing : Option Evidence → BadgeState × Option String
  standing none = (green, none)
  standing (some ev) = elim ev.anomaly_ratio [
    | none ↦ (green, none)
    | some ratio ↦ elim ev.threshold [
      | none ↦ (green, none)
      | some threshold ↦
          if is_amber ratio threshold
          then (amber, some (approaching ratio threshold))
          else (green, none)
    ]
  ]

  unfoldable pub anomaly_reason : Option Evidence → String
  anomaly_reason ev = elim ev [
    | none ↦ "Coverage void: anomaly ratio exceeds threshold"
    | some e ↦ elim e.anomaly_ratio [
      | none ↦ "Coverage void: anomaly ratio exceeds threshold"
      | some ratio ↦
          String.◌++◌ "Coverage void: anomaly ratio "
            (String.◌++◌ (percent ratio) "% exceeds threshold")
    ]
  ]

  unfoldable pub drift_reason : Option Evidence → String
  drift_reason ev = elim ev [
    | none ↦ "Coverage void: compliance drift detected"
    | some e ↦ elim e.boundary_crossings [
      | none ↦ "Coverage void: compliance drift detected"
      | some n ↦
          String.◌++◌ "Coverage void: " (String.◌++◌ (decimal n) " boundary crossings detected")
    ]
  ]

  unfoldable pub compute_badge_state : BadgeStateInputs → BadgeState × Option String
  compute_badge_state inputs = elim inputs.policy_state [
    | none ↦ standing inputs.evidence
    | some p ↦ elim p [
      | active ↦ standing inputs.evidence
      | void_by_anomaly_ratio ↦ (red, some (anomaly_reason inputs.evidence))
      | void_by_compliance_drift ↦ (red, some (drift_reason inputs.evidence))
    ]
  ]

pub record SyncBadgeResult : Type 0 where
  pub state : BadgeState
  pub reason : Option String
  pub changed : Bool
  pub signature : String

unfoldable pub find_badge : String → List BadgeRow → Option BadgeRow
find_badge tenant [] = none
find_badge tenant (r ∷ rs) = if str_eq r.tenant_id tenant then some r else find_badge tenant rs

unfoldable pub update_badge : String → (BadgeRow → BadgeRow) → List BadgeRow → List BadgeRow
update_badge tenant f [] = []
update_badge tenant f (r ∷ rs) =
    (if str_eq r.tenant_id tenant then f r else r) ∷ update_badge tenant f rs

abbrev pub reason_eq : Option String → Option String → Bool
reason_eq none none = true
reason_eq (some a) (some b) = str_eq a b
reason_eq _ _ = false

-- The no-op test: state and reason both unchanged.
unfoldable pub is_unchanged : BadgeState × Option String → BadgeRow → Bool
is_unchanged (state, reason) r =
    badge_state_eq r.badge_state state && reason_eq r.state_reason reason

abbrev pub history_row :
    String → String → String → Option BadgeState → BadgeState × Option String → ℕ → BadgeHistoryRow
history_row id tenant account from (state, reason) now = record {
  id = id;
  tenant_id = tenant;
  account_id = account;
  from_state = from;
  to_state = state;
  reason = reason;
  changed_at = now;
}

abbrev pub renewed : BadgeState × Option String → String → ℕ → BadgeRow → BadgeRow
renewed (state, reason) signature now r = record r {
  badge_state = state;
  state_signature = signature;
  state_reason = reason;
  state_changed_at = now;
  updated_at = now;
}

abbrev pub first_row : String → String → BadgeState × Option String → String → ℕ → BadgeRow
first_row tenant account (state, reason) signature now = record {
  tenant_id = tenant;
  account_id = account;
  badge_state = state;
  state_signature = signature;
  state_reason = reason;
  state_changed_at = now;
  created_at = now;
  updated_at = now;
}

abbrev pub written : BadgeState × Option String → String → SyncBadgeResult
written (state, reason) signature = record {
  state = state;
  reason = reason;
  changed = true;
  signature = signature;
}

abbrev pub kept : BadgeRow → SyncBadgeResult
kept r = record {
  state = r.badge_state;
  reason = r.state_reason;
  changed = false;
  signature = r.state_signature;
}

-- `syncBadge` once the state is computed; the signature is used only where a row is written.
unfoldable pub write_badge :
    BadgeState × Option String
    → String
    → ℕ
    → String
    → String
    → String
    → Database
    → SyncBadgeResult × Database
write_badge computed signature now id tenant account db = elim (find_badge tenant db.registry) [
  | some r ↦ if is_unchanged computed r then (kept r, db) else (
    written computed signature,
    record db {
      registry = update_badge tenant (renewed computed signature now) db.registry;
      history = db.history ++ history_row id tenant account (some r.badge_state) computed now ∷ [];
    },
  )
  | none ↦ (
    written computed signature,
    record db {
      registry = db.registry ++ first_row tenant account computed signature now ∷ [];
      history = db.history ++ history_row id tenant account none computed now ∷ [];
    },
  )
]

-- `syncBadge`, at one clock reading `now` and with the history row's id.
unfoldable pub sync_badge :
    Runtime
    → ResolvedSecrets
    → ℕ
    → String
    → String
    → String
    → BadgeStateInputs
    → Database
    → SyncBadgeResult × Database
sync_badge rt secrets now id tenant account inputs db =
    let computed = compute_badge_state rt inputs in
    write_badge computed (sign_badge_state rt secrets tenant computed.0 now) now id tenant account
      db
