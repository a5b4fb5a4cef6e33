-- ===== src/Insurance/Scheduler/Laws.antt =====
-- What a run of the scheduler does to each warranty, whatever faults occur, and what it counts.
use caas_lite.Prelude.{
  ℕ, ◌≡◌, ◌≢◌, refl, ap, ◌∙◌, String, Bool, true, false, Option, none, some, List, [], ◌∷◌, arith,
  Bool-cases, All, inl, inr, eq_iff,
}
use caas_lite.Database.{PolicyState, Evidence, policy_state_eq, WarrantyRow, Database, Runtime}
use caas_lite.Badge.Secrets.{ResolvedSecrets}
use caas_lite.Insurance.Evaluate.{evaluate_policy_state}
use caas_lite.Insurance.Recompute.{
  find_warranty, moved, apply_state_transition, recompute_warranty, commercial_audit_log,
}
use caas_lite.Insurance.Recompute.Laws.{sync_badge-OnlyBadges, find_warranty-update_warranty}
use caas_lite.Insurance.Scheduler.{
  Fault, no_fault, in_evaluation, in_transition, in_badge_sync, Environment, Summary, commit,
  attempt, attempt_all,
}

-- A transition and the recompute around it touch no other warranty, be the row stored or not.
apply_state_transition_frame :
    (i : String) (now : ℕ) (audit_id : String) (w : WarrantyRow) (decided : PolicyState × Evidence)
    (actor : Option String) (db : Database)
    → let after = (apply_state_transition now audit_id w decided.0 decided.1 actor db).1 in
      (i ≢ w.id → find_warranty i after.warranties ≡ find_warranty i db.warranties)
      × (after.metrics ≡ db.metrics)
unfolding apply_state_transition commercial_audit_log
apply_state_transition_frame i now audit_id w decided actor db =
    elim (Bool-cases (policy_state_eq w.policy_state decided.0)) [
      | inl e ↦ rw e (λ ne. refl, refl)
      | inr e ↦ rw e (
        λ ne. ground (
          arith,
          eq_iff w.id i,
          find_warranty-update_warranty i w.id w.tenant_id (moved decided.0 decided.1 now)
              db.warranties (λ v. refl),
        ),
        refl,
      )
    ]

pub recompute_warranty_frame :
    (i : String) (rt : Runtime) (s : ResolvedSecrets) (now : ℕ) (ids : String × String)
    (actor : Option String) (w : WarrantyRow) (db : Database)
    → let after = (recompute_warranty rt s now ids actor w db).2 in
      (i ≢ w.id → find_warranty i after.warranties ≡ find_warranty i db.warranties)
      × (after.metrics ≡ db.metrics)
unfolding recompute_warranty
recompute_warranty_frame i rt s now ids actor w db =
    let decided : PolicyState × Evidence = evaluate_policy_state now w.tenant_id db in
    let (answer, moved_db) = apply_state_transition now ids.0 w decided.0 decided.1 actor db in
    let here = apply_state_transition_frame i now ids.0 w decided actor db in
    let rest =
      sync_badge-OnlyBadges rt s now ids.1 w.tenant_id w.account_id
        (record { policy_state = some answer.current_state; evidence = some decided.1 }) moved_db in
    (λ ne. ap (find_warranty i) rest.warranties ∙ here.0 ne, rest.metrics ∙ here.1)

-- A commit is one of the two databases.
commit_both :
    (P : Database → Type 0) (f : Fault) (before after : Database)
    → P before
    → P after
    → P (commit f before after)
unfolding commit
commit_both P no_fault before after b a = a
commit_both P in_evaluation before after b a = b
commit_both P in_transition before after b a = b
commit_both P in_badge_sync before after b a = b

abbrev pub is_clean : Fault → Bool
is_clean no_fault = true
is_clean _ = false

pub commit_faulty :
    (f : Fault) (before after : Database) → is_clean f ≡ false → commit f before after ≡ before
unfolding commit
commit_faulty no_fault before after e = absurd (ground arith)
commit_faulty in_evaluation before after e = refl
commit_faulty in_transition before after e = refl
commit_faulty in_badge_sync before after e = refl

pub commit_clean :
    (f : Fault) (before after : Database) → is_clean f ≡ true → commit f before after ≡ after
unfolding commit
commit_clean no_fault before after e = refl
commit_clean in_evaluation before after e = absurd (ground arith)
commit_clean in_transition before after e = absurd (ground arith)
commit_clean in_badge_sync before after e = absurd (ground arith)

-- No two warranties have one id, as the primary key of the table asks.
abbrev pub IsDistinct : List WarrantyRow → Type 0
IsDistinct [] = Unit
IsDistinct (w ∷ ws) = All (λ (v : WarrantyRow). v.id ≢ w.id) ws × IsDistinct ws

-- What a run leaves of one warranty that it took up.
pub record IsRun (env : Environment) (before : Database) (w : WarrantyRow) (after : Database)
    : Type 0 where
  pub row : WarrantyRow
  pub found : find_warranty w.id after.warranties ≡ some row
  pub clean :
      is_clean (env.fault w.id) ≡ true
      → row.policy_state ≡ (evaluate_policy_state (env.now w.id) w.tenant_id before).0
  pub faulty : is_clean (env.fault w.id) ≡ false → row ≡ w

module _ (rt : Runtime) (s : ResolvedSecrets) (env : Environment) where
  pub attempt_others :
      (i : String) (w : WarrantyRow) (n : Summary) (db : Database)
      → i ≢ w.id
      → find_warranty i (attempt rt s env w (n, db)).1.warranties ≡ find_warranty i db.warranties
  unfolding attempt
  attempt_others i w n db ne =
      commit_both (λ d. find_warranty i d.warranties ≡ find_warranty i db.warranties)
        (env.fault w.id) db _ refl
        ((recompute_warranty_frame i rt s (env.now w.id) (env.ids w.id) none w db).0 ne)

  pub attempt_metrics :
      (w : WarrantyRow) (n : Summary) (db : Database)
      → (attempt rt s env w (n, db)).1.metrics ≡ db.metrics
  unfolding attempt
  attempt_metrics w n db =
      commit_both (λ d. d.metrics ≡ db.metrics) (env.fault w.id) db _ refl
        (recompute_warranty_frame "" rt s (env.now w.id) (env.ids w.id) none w db).1

  pub attempt_all_others :
      (i : String) (ws : List WarrantyRow) (n : Summary) (db : Database)
      → All (λ (w : WarrantyRow). i ≢ w.id) ws
      → find_warranty i (attempt_all rt s env ws (n, db)).1.warranties
        ≡ find_warranty i db.warranties
  unfolding attempt_all
  attempt_all_others i [] n db away = refl
  attempt_all_others i (w ∷ ws) n db (ne, away) =
      attempt_all_others i ws _ _ away ∙ attempt_others i w n db ne
