-- ===== src/Badge/Sync/Registry.antt =====
-- A sync on the registry: the row it leaves, other tenants' rows, signatures, and a second sync.
use caas_lite.Prelude.{
  ℕ, ◌≡◌, ◌≢◌, refl, ap, ◌∙◌, String, true, false, Option, some, inl, inr, eq_iff, arith,
}
use caas_lite.Database.{BadgeState, BadgeRow, Database, Runtime}
use caas_lite.Badge.Secrets.{ResolvedSecrets, sign_badge_state}
use caas_lite.Badge.Sync.{
  BadgeStateInputs, compute_badge_state, SyncBadgeResult, find_badge, renewed, first_row,
  write_badge, sync_badge,
}
use caas_lite.Badge.Sync.Laws.{
  find_badge-update_badge, find_badge-append_one, write_badge_cases, write_badge_same,
}

-- What a sync achieves: the tenant's row shows the computed state and reason and the signature
-- that is handed back, it is written exactly if it showed something else before, and every other
-- tenant's row is as it was.
pub record IsSynced (c : BadgeState × Option String) (tenant : String) (before : Database)
    (answer : SyncBadgeResult) (after : Database) : Type 0 where
  pub row : BadgeRow
  pub found : find_badge tenant after.registry ≡ some row
  pub state : row.badge_state ≡ c.0
  pub reason : row.state_reason ≡ c.1
  pub signature : row.state_signature ≡ answer.signature
  pub answered : (answer.state ≡ c.0) × (answer.reason ≡ c.1)
  pub unchanged : answer.changed ≡ false → after ≡ before
  pub changed :
      answer.changed ≡ true
      → (r : BadgeRow) → find_badge tenant before.registry ≡ some r
      → ¬ ((r.badge_state ≡ c.0) × (r.state_reason ≡ c.1))
  pub others :
      (j : String) → j ≢ tenant → find_badge j after.registry ≡ find_badge j before.registry

pub renewed_tenant :
    (c : BadgeState × Option String) (sig : String) (now : ℕ) (r : BadgeRow)
    → (renewed c sig now r).tenant_id ≡ r.tenant_id
renewed_tenant c sig now r = refl

module _ (c : BadgeState × Option String) (sig : String) (now : ℕ) (id tenant account : String)
    (db : Database) where
  pub write_badge-IsSynced :
      let (answer, after) = write_badge c sig now id tenant account db in
      IsSynced c tenant db answer after
  write_badge-IsSynced = elim (write_badge_cases c sig now id tenant account db) [
    | inl (r, e, (same_state, same_reason), w) ↦ rw w (record {
      row = r;
      found = e;
      state = same_state;
      reason = same_reason;
      signature = refl;
      answered = (same_state, same_reason);
      unchanged = λ _. refl;
      changed = λ a. absurd (ground arith);
      others = λ j ne. refl;
    })
    | inr rest ↦ elim rest [
      | inl (r, e, differs, w) ↦ rw w (record {
        row = renewed c sig now r;
        found = ground (
          arith,
          e,
          eq_iff tenant tenant,
          find_badge-update_badge tenant tenant (renewed c sig now) db.registry
              (renewed_tenant c sig now),
        );
        state = refl;
        reason = refl;
        signature = refl;
        answered = (refl, refl);
        unchanged = λ a. absurd (ground arith);
        changed = λ _ q f same. differs (ground (arith, f, e, same));
        others = λ j ne. ground (
          arith,
          eq_iff tenant j,
          find_badge-update_badge j tenant (renewed c sig now) db.registry
              (renewed_tenant c sig now),
        );
      })
      | inr (e, w) ↦ rw w (record {
        row = first_row tenant account c sig now;
        found = ground (
          arith,
          e,
          eq_iff tenant tenant,
          find_badge-append_one tenant (first_row tenant account c sig now) db.registry,
        );
        state = refl;
        reason = refl;
        signature = refl;
        answered = (refl, refl);
        unchanged = λ a. absurd (ground arith);
        changed = λ _ q f same. cc;
        others = λ j ne. ground (
          arith,
          eq_iff tenant j,
          find_badge-append_one j (first_row tenant account c sig now) db.registry,
        );
      })
    ]
  ]

module _ (rt : Runtime) (s : ResolvedSecrets) (now : ℕ) (id tenant account : String)
    (inputs : BadgeStateInputs) (db : Database) where
  -- After a sync the tenant's badge shows the computed state and reason and the signature that is
  -- handed back; a sync that answers unchanged leaves the database as it was, one that answers
  -- changed found no badge or one with another state or reason, and no other tenant's badge changes.
  pub sync_badge-IsSynced :
      let (answer, after) = sync_badge rt s now id tenant account inputs db in
      IsSynced (compute_badge_state rt inputs) tenant db answer after
  unfolding sync_badge
  sync_badge-IsSynced =
      write_badge-IsSynced (compute_badge_state rt inputs) _ now id tenant account db

  -- A second sync with the same inputs, at any time, changes nothing, and gives back the
  -- signature of the first.
  pub sync_badge_idempotent :
      (now' : ℕ) (id' : String)
      → let (answer, after) = sync_badge rt s now id tenant account inputs db in
        let (answer', after') = sync_badge rt s now' id' tenant account inputs after in
        (after' ≡ after) × (answer'.changed ≡ false) × (answer'.signature ≡ answer.signature)
  unfolding sync_badge
  sync_badge_idempotent now' id' =
      let c = compute_badge_state rt inputs in
      let first =
        write_badge-IsSynced c (sign_badge_state rt s tenant c.0 now) now id tenant account db in
      let again =
        write_badge_same c (sign_badge_state rt s tenant c.0 now') now' id' tenant account _
          first.row first.found (first.state, first.reason) in
      (
        ap (λ p. p.1) again,
        ap (λ p. p.0.changed) again,
        ap (λ p. p.0.signature) again ∙ first.signature,
      )
