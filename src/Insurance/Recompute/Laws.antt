-- ===== src/Insurance/Recompute/Laws.antt =====
-- What one recompute does to the warranty, the other warranties, the audit log and the badge.
use mathlib.Core.Option
use caas_lite.Prelude.{
  ℕ, ◌≡◌, ◌≢◌, ◌↔◌, refl, ap, ◌∙◌, String, true, Option, none, some, List, [], ◌∷◌, ◌++◌, inl, inr,
  str_eq, eq_iff, arith, Bool-cases, if◌then◌else◌, ◌&&◌,
}
use caas_lite.Database.{
  PolicyState, active, void_by_compliance_drift, void_by_anomaly_ratio, policy_state_eq,
  WarrantyRow, BadgeRow, AuditRow, state, of_evidence, Evidence, Database, Runtime,
}
use caas_lite.Badge.Secrets.{ResolvedSecrets, sign_badge_state}
use caas_lite.Badge.Sync.{compute_badge_state, sync_badge, BadgeStateInputs}
use caas_lite.Badge.Sync.Laws.{write_badge_cases, badge_of}
use caas_lite.Badge.Sync.Registry.{sync_badge-IsSynced}
use caas_lite.Insurance.Evaluate.{evaluate_policy_state}
use caas_lite.Insurance.Evaluate.Laws.{badge_for}
use caas_lite.Insurance.Recompute.{
  RecomputeResult, commercial_audit_log, find_warranty, update_warranty, moved,
  apply_state_transition, recompute_warranty,
}

-- A sync writes the registry and the history only.
pub record OnlyBadges (before after : Database) : Type 0 where
  pub warranties : after.warranties ≡ before.warranties
  pub audit : after.audit ≡ before.audit
  pub metrics : after.metrics ≡ before.metrics
  pub accounts : after.accounts ≡ before.accounts
  pub users : after.users ≡ before.users

pub sync_badge-OnlyBadges :
    (rt : Runtime) (s : ResolvedSecrets) (now : ℕ) (id tenant account : String)
    (inputs : BadgeStateInputs) (db : Database)
    → OnlyBadges db (sync_badge rt s now id tenant account inputs db).1
unfolding sync_badge
sync_badge-OnlyBadges rt s now id tenant account inputs db =
    let c = compute_badge_state rt inputs in
    elim (write_badge_cases c (sign_badge_state rt s tenant c.0 now) now id tenant account db) [
      | inl (r, e, same, f) ↦ rw f (record {
        warranties = refl;
        audit = refl;
        metrics = refl;
        accounts = refl;
        users = refl;
      })
      | inr rest ↦ elim rest [
        | inl (r, e, differs, f) ↦ rw f (record {
          warranties = refl;
          audit = refl;
          metrics = refl;
          accounts = refl;
          users = refl;
        })
        | inr (e, f) ↦ rw f (record {
          warranties = refl;
          audit = refl;
          metrics = refl;
          accounts = refl;
          users = refl;
        })
      ]
    ]

pub find_warranty_id :
    (id : String) (ws : List WarrantyRow) (w : WarrantyRow)
    → find_warranty id ws ≡ some w
    → w.id ≡ id
unfolding find_warranty
find_warranty_id id [] w e = absurd (ground arith)
find_warranty_id id (v ∷ vs) w e = ground (arith, e, eq_iff v.id id, find_warranty_id id vs w)

-- An update that keeps ids reaches the first row of its id, if that is the tenant's.
pub find_warranty-update_warranty :
    (i id tenant : String) (f : WarrantyRow → WarrantyRow) (ws : List WarrantyRow)
    → ((v : WarrantyRow) → (f v).id ≡ v.id)
    → find_warranty i (update_warranty id tenant f ws) ≡ elim (find_warranty i ws) [
      | none ↦ none
      | some v ↦ some (if str_eq id i && str_eq v.tenant_id tenant then f v else v)
    ]
unfolding find_warranty update_warranty
find_warranty-update_warranty i id tenant f [] h = refl
find_warranty-update_warranty i id tenant f (v ∷ vs) h = ground (
  arith,
  eq_iff v.id id,
  eq_iff v.id i,
  eq_iff id i,
  h v,
  find_warranty-update_warranty i id tenant f vs h,
)

pub policy_state_eq_iff : (a b : PolicyState) → (policy_state_eq a b ≡ true) ↔ (a ≡ b)
policy_state_eq_iff active b = ground arith
policy_state_eq_iff void_by_compliance_drift b = ground arith
policy_state_eq_iff void_by_anomaly_ratio b = ground arith

abbrev pub transition_audit :
    String → ℕ → Option String → WarrantyRow → PolicyState → Evidence → AuditRow
transition_audit id now actor w new_state evidence = record {
  id = id;
  tenant_id = w.tenant_id;
  actor_user_id = actor;
  entity_type = "warranty";
  entity_id = w.id;
  action = "state_change";
  old_value = state w.policy_state;
  new_value = state new_state;
  metadata = of_evidence evidence;
  created_at = now;
}

-- What a recompute of a warranty that is in the table does: the answer tells the states before and
-- after, the row is moved and the move is audited exactly if the two differ, and nothing else of
-- the warranties, the audit log or the metrics is touched.
pub record IsRecomputed (now : ℕ) (audit_id : String) (actor : Option String) (w : WarrantyRow)
    (decided : PolicyState × Evidence) (before : Database) (answer : RecomputeResult)
    (after : Database) : Type 0 where
  pub previous : answer.previous_state ≡ w.policy_state
  pub current : answer.current_state ≡ decided.0
  pub changed : (answer.changed ≡ true) ↔ (w.policy_state ≢ decided.0)
  pub row :
      find_warranty w.id after.warranties
      ≡ some (if answer.changed then moved decided.0 decided.1 now w else w)
  pub others :
      (i : String) → i ≢ w.id → find_warranty i after.warranties ≡ find_warranty i before.warranties
  pub audit : after.audit ≡ (
      if answer.changed
      then before.audit ++ transition_audit audit_id now actor w decided.0 decided.1 ∷ []
      else before.audit)
  pub metrics : after.metrics ≡ before.metrics

module _ (now : ℕ) (audit_id : String) (actor : Option String) (w : WarrantyRow)
    (decided : PolicyState × Evidence) (db : Database)
    (stored : find_warranty w.id db.warranties ≡ some w) where
  pub apply_state_transition-IsRecomputed :
      let (answer, after) = apply_state_transition now audit_id w decided.0 decided.1 actor db in
      IsRecomputed now audit_id actor w decided db answer after
  unfolding apply_state_transition commercial_audit_log
  apply_state_transition-IsRecomputed =
      elim (Bool-cases (policy_state_eq w.policy_state decided.0)) [
        | inl e ↦ rw e (record {
          previous = refl;
          current = refl;
          changed = ground (arith, policy_state_eq_iff w.policy_state decided.0, e);
          row = stored;
          others = λ i ne. refl;
          audit = refl;
          metrics = refl;
        })
        | inr e ↦ rw e (record {
          previous = refl;
          current = refl;
          changed = ground (arith, policy_state_eq_iff w.policy_state decided.0, e);
          row = ground (
            arith,
            stored,
            eq_iff w.id w.id,
            eq_iff w.tenant_id w.tenant_id,
            find_warranty-update_warranty w.id w.id w.tenant_id (moved decided.0 decided.1 now)
                db.warranties (λ v. refl),
          );
          others = λ i ne. ground (
            arith,
            eq_iff w.id i,
            find_warranty-update_warranty i w.id w.tenant_id (moved decided.0 decided.1 now)
                db.warranties (λ v. refl),
          );
          audit = refl;
          metrics = refl;
        })
      ]

module _ (rt : Runtime) (s : ResolvedSecrets) (now : ℕ) (ids : String × String)
    (actor : Option String) (w : WarrantyRow) (db : Database)
    (stored : find_warranty w.id db.warranties ≡ some w) where
  -- A recompute of a stored warranty answers with the states before and after, the latter as its
  -- evaluation decides; it moves the row to that state and audits the move exactly if the two
  -- differ, and touches no other warranty, no other audit row and no metric.
  pub recompute_warranty-IsRecomputed :
      let (answer, _, after) = recompute_warranty rt s now ids actor w db in
      IsRecomputed now ids.0 actor w (evaluate_policy_state now w.tenant_id db) db answer after
  unfolding recompute_warranty
  recompute_warranty-IsRecomputed =
      let decided : PolicyState × Evidence = evaluate_policy_state now w.tenant_id db in
      let (answer, moved_db) = apply_state_transition now ids.0 w decided.0 decided.1 actor db in
      let here = apply_state_transition-IsRecomputed now ids.0 actor w decided db stored in
      let rest =
        sync_badge-OnlyBadges rt s now ids.1 w.tenant_id w.account_id
          (record { policy_state = some answer.current_state; evidence = some decided.1 })
          moved_db in
      record {
        previous = here.previous;
        current = here.current;
        changed = here.changed;
        row = ap (find_warranty w.id) rest.warranties ∙ here.row;
        others = λ i ne. ap (find_warranty i) rest.warranties ∙ here.others i ne;
        audit = rest.audit ∙ here.audit;
        metrics = rest.metrics ∙ here.metrics;
      }

  -- After a recompute of a stored warranty the tenant's badge in the registry, and the one in the
  -- answer, is the one that goes with the evaluation.
  pub recompute_warranty-badge :
      let (_, badge, after) = recompute_warranty rt s now ids actor w db in
      (badge_of w.tenant_id after.registry
        ≡ some (badge_for rt (evaluate_policy_state now w.tenant_id db)))
      × (badge.state ≡ badge_for rt (evaluate_policy_state now w.tenant_id db))
  unfolding recompute_warranty
  recompute_warranty-badge =
      let decided : PolicyState × Evidence = evaluate_policy_state now w.tenant_id db in
      let (answer, moved_db) = apply_state_transition now ids.0 w decided.0 decided.1 actor db in
      let here = apply_state_transition-IsRecomputed now ids.0 actor w decided db stored in
      let synced =
        sync_badge-IsSynced rt s now ids.1 w.tenant_id w.account_id
          (record { policy_state = some answer.current_state; evidence = some decided.1 })
          moved_db in
      let shown = ap (λ p. badge_for rt (p, decided.1)) here.current in
      (
        ap (Option.map (λ (r : BadgeRow). r.badge_state)) synced.found
            ∙ ap some (synced.state ∙ shown),
        synced.answered.0 ∙ shown,
      )
