-- ===== src/Badge/Rotation/Laws.antt =====
-- After a rotation every badge verifies under the new secret, and nothing else has changed.
use mathlib.Core.List.{append-nil, append_assoc}
use caas_lite.Prelude.{
  ℕ, suc, ◌≡◌, ◌≢◌, refl, sym, ap, ◌∙◌, String, none, some, List, [], ◌∷◌, ◌++◌, inl, inr, str_eq,
  eq_iff, arith, Option-cases, Bool-cases, length,
}
use caas_lite.Database.{BadgeRow, AuditRow, SecretRow, Database, Runtime}
use caas_lite.Badge.Secrets.{ResolvedSecrets, sign_badge_state, get_current_secret_fingerprint}
use caas_lite.Badge.Sync.{find_badge, update_badge}
use caas_lite.Badge.Sync.Laws.{find_badge-update_badge}
use caas_lite.Badge.Sync.History.{IsSigned}
use caas_lite.Badge.Rotation.{
  unchanged, rotated, resigned, rotation_audit, resign_rows, resign_all_badges,
  detect_and_apply_rotation,
}

-- One badge for each tenant, as the table's primary key has it.
abbrev pub HasKeys : List BadgeRow → Type 0
HasKeys [] = Unit
HasKeys (r ∷ rs) = (find_badge r.tenant_id rs ≡ none) × HasKeys rs

find_badge_tenant :
    (t : String) (r : BadgeRow) (rs : List BadgeRow) → find_badge t rs ≡ some r → r.tenant_id ≡ t
unfolding find_badge
find_badge_tenant t r [] e = cc
find_badge_tenant t r (q ∷ rs) e = ground (arith, eq_iff q.tenant_id t, find_badge_tenant t r rs)

module _ (rt : Runtime) (s : ResolvedSecrets) (now : ℕ) (uuid : ℕ → String) where
  -- The badge of a row as a rotation leaves it.
  abbrev pub fresh : BadgeRow → BadgeRow
  fresh r = resigned (sign_badge_state rt s r.tenant_id r.badge_state r.state_changed_at) now r

  resign_rows-find_other :
      (n : ℕ) (t : String) (rs : List BadgeRow) (db : Database)
      → find_badge t rs ≡ none
      → find_badge t (resign_rows rt s now uuid n rs db).registry ≡ find_badge t db.registry
  unfolding resign_rows find_badge
  resign_rows-find_other n t [] db e = refl
  resign_rows-find_other n t (q ∷ rs) db e =
      let sig = sign_badge_state rt s q.tenant_id q.badge_state q.state_changed_at in
      let db' : Database = record db {
        registry = update_badge q.tenant_id (resigned sig now) db.registry;
        audit = db.audit ++ rotation_audit (uuid n) q.tenant_id now ∷ [];
      } in
      ground (
        arith,
        eq_iff q.tenant_id t,
        resign_rows-find_other (suc n) t rs db',
        find_badge-update_badge t q.tenant_id (resigned sig now) db.registry (λ r. refl),
      )

  resign_rows-find :
      (n : ℕ) (t : String) (rs : List BadgeRow) (db : Database) (r : BadgeRow)
      → HasKeys rs
      → find_badge t rs ≡ some r
      → find_badge t db.registry ≡ some r
      → find_badge t (resign_rows rt s now uuid n rs db).registry ≡ some (fresh r)
  unfolding resign_rows find_badge
  resign_rows-find n t [] db r k e f = cc
  resign_rows-find n t (q ∷ rs) db r (absent, k) e f =
      let sig = sign_badge_state rt s q.tenant_id q.badge_state q.state_changed_at in
      let db' : Database = record db {
        registry = update_badge q.tenant_id (resigned sig now) db.registry;
        audit = db.audit ++ rotation_audit (uuid n) q.tenant_id now ∷ [];
      } in
      let updated =
        find_badge-update_badge t q.tenant_id (resigned sig now) db.registry (λ p. refl) in
      elim (Bool-cases (str_eq q.tenant_id t)) [
        | inl hit ↦
            let gone : find_badge t rs ≡ none = ground (arith, hit, eq_iff q.tenant_id t, absent) in
            let same : q ≡ r = ground (arith, hit, e) in
            let here : find_badge t db'.registry ≡ some (fresh q) =
              ground (arith, hit, updated, f, same) in
            resign_rows-find_other (suc n) t rs db' gone ∙ here ∙ ap (λ p. some (fresh p)) same
        | inr miss ↦
            resign_rows-find (suc n) t rs db' r k (ground (arith, miss, e))
              (ground (arith, miss, updated, f))
      ]

  -- The audit rows of a rotation, one for each badge.
  abbrev pub rotation_audits : ℕ → List BadgeRow → List AuditRow
  rotation_audits n [] = []
  rotation_audits n (r ∷ rs) = rotation_audit (uuid n) r.tenant_id now ∷ rotation_audits (suc n) rs

  resign_rows_rest :
      (n : ℕ) (rs : List BadgeRow) (db : Database)
      → let after = resign_rows rt s now uuid n rs db in
        (after.audit ≡ db.audit ++ rotation_audits n rs)
        × (after.history ≡ db.history)
        × (after.warranties ≡ db.warranties)
  unfolding resign_rows
  resign_rows_rest n [] db = (sym (append-nil db.audit), refl, refl)
  resign_rows_rest n (r ∷ rs) db =
      let (audit, history, warranties) = resign_rows_rest (suc n) rs _ in
      (audit ∙ append_assoc db.audit _ _, history, warranties)

  module _ (db : Database) (prior : SecretRow) (keys : HasKeys db.registry)
      (stored : db.secret ≡ some prior)
      (changed : prior.fingerprint ≢ get_current_secret_fingerprint rt s) where
    abbrev after : Database
    after = (detect_and_apply_rotation rt s now uuid db).1

    rotated_eq : detect_and_apply_rotation rt s now uuid db ≡ (
      record { outcome = rotated; badges_resigned = length db.registry; detected_at = now },
      record (resign_rows rt s now uuid 0 db.registry db) {
        secret = some (record {
          fingerprint = get_current_secret_fingerprint rt s;
          last_seen_at = now;
          last_rotated_at = now;
          resigned_count = some (length db.registry);
        });
      },
    )
    unfolding detect_and_apply_rotation resign_all_badges
    rotated_eq =
        ground (arith, stored, eq_iff prior.fingerprint (get_current_secret_fingerprint rt s))

    -- At a boot whose secret is not the one last seen, with one badge for each tenant, every badge is
    -- signed under the new secret and otherwise keeps its row but for the time of its update; the
    -- answer counts the badges, each has one row appended to the audit log, and the history and the
    -- warranties are as they were.
    pub rotation_resigns :
        ((t : String) (r : BadgeRow)
          → find_badge t db.registry ≡ some r
          → find_badge t after.registry ≡ some (fresh r))
        × ((detect_and_apply_rotation rt s now uuid db).0.badges_resigned ≡ length db.registry)
        × (after.audit ≡ db.audit ++ rotation_audits 0 db.registry)
        × (after.history ≡ db.history)
        × (after.warranties ≡ db.warranties)
    rotation_resigns =
        let (audit, history, warranties) = resign_rows_rest 0 db.registry db in
        (
          (λ t r e.
              ap (λ p. find_badge t p.1.registry) rotated_eq
              ∙ resign_rows-find 0 t db.registry db r keys e e),
          ap (λ p. p.0.badges_resigned) rotated_eq,
          ap (λ p. p.1.audit) rotated_eq ∙ audit,
          ap (λ p. p.1.history) rotated_eq ∙ history,
          ap (λ p. p.1.warranties) rotated_eq ∙ warranties,
        )

    -- After a boot whose secret is not the one last seen, with one badge for each tenant, every badge in
    -- the registry carries the signature of its state and time under the new secret.
    pub rotation-IsSigned : IsSigned rt s after.registry
    rotation-IsSigned t r f =
        let registry : after.registry ≡ (resign_rows rt s now uuid 0 db.registry db).registry =
          ap (λ p. p.1.registry) rotated_eq in
        let f' : find_badge t (resign_rows rt s now uuid 0 db.registry db).registry ≡ some r =
          rw registry at f in
        elim (Option-cases (find_badge t db.registry)) [
          | inl none_before ↦
              let none_after = resign_rows-find_other 0 t db.registry db none_before in cc
          | inr (q, e) ↦
              let now_fresh = resign_rows-find 0 t db.registry db q keys e e in
              let same : fresh q ≡ r = cc in
              let tenant = find_badge_tenant t q db.registry e in ground (arith, same, tenant)
        ]

  stored_fingerprint :
      (db : Database)
      → (row : SecretRow) × ((detect_and_apply_rotation rt s now uuid db).1.secret ≡ some row)
        × (row.fingerprint ≡ get_current_secret_fingerprint rt s)
  unfolding detect_and_apply_rotation
  stored_fingerprint db = elim (Option-cases db.secret) [
    | inl e ↦ rw (e, detect_and_apply_rotation) (_, refl, refl)
    | inr (prior, e) ↦
        elim (Bool-cases (str_eq prior.fingerprint (get_current_secret_fingerprint rt s))) [
          | inl same ↦
              rw (e, detect_and_apply_rotation)
                (rw (same, detect_and_apply_rotation)
                  (
                    _,
                    refl,
                    (eq_iff prior.fingerprint (get_current_secret_fingerprint rt s)).0 same,
                  ))
          | inr other ↦
              rw (e, detect_and_apply_rotation)
                (rw (other, detect_and_apply_rotation) (_, refl, refl))
        ]
  ]

  detect_same :
      (db : Database) (prior : SecretRow)
      → db.secret ≡ some prior
      → prior.fingerprint ≡ get_current_secret_fingerprint rt s
      → detect_and_apply_rotation rt s now uuid db ≡ (
        record { outcome = unchanged; badges_resigned = 0; detected_at = now },
        record db { secret = some (record prior { last_seen_at = now }) },
      )
  unfolding detect_and_apply_rotation
  detect_same db prior e same =
      ground (arith, e, same, eq_iff prior.fingerprint (get_current_secret_fingerprint rt s))

-- Whatever a boot found, the next one with the same secret answers that it is unchanged and leaves
-- registry, history and audit log as they are.
pub rotation_once :
    (rt : Runtime) (s : ResolvedSecrets) (now later : ℕ) (uuid uuid' : ℕ → String) (db : Database)
    → let after = (detect_and_apply_rotation rt s now uuid db).1 in
      let (result, again) = detect_and_apply_rotation rt s later uuid' after in
      (result.outcome ≡ unchanged)
      × (again.registry ≡ after.registry)
      × (again.history ≡ after.history)
      × (again.audit ≡ after.audit)
rotation_once rt s now later uuid uuid' db =
    let (row, e, same) = stored_fingerprint rt s now uuid db in
    let boot = detect_same rt s later uuid' _ row e same in
    (
      ap (λ p. p.0.outcome) boot,
      ap (λ p. p.1.registry) boot,
      ap (λ p. p.1.history) boot,
      ap (λ p. p.1.audit) boot,
    )
