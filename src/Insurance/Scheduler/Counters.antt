-- ===== src/Insurance/Scheduler/Counters.antt =====
-- The counters of a run of the scheduler, and what a transaction that is rolled back leaves in them.
use caas_lite.Prelude.{
  ◌+◌, ◌≤◌, ◌≡◌, ◌≢◌, refl, Bool, none, some, List, [], ◌∷◌, arith, filter, length, count, not,
}
use caas_lite.Database.{WarrantyRow, Database, Runtime}
use caas_lite.Badge.Secrets.{ResolvedSecrets}
use caas_lite.Insurance.Evaluate.{evaluate_policy_state}
use caas_lite.Insurance.Recompute.{find_warranty, recompute_warranty}
use caas_lite.Insurance.Recompute.Laws.{recompute_warranty-IsRecomputed}
use caas_lite.Insurance.Scheduler.{
  in_badge_sync, Environment, Summary, tally, attempt, commit, attempt_all, is_active,
  recompute_all_warranties,
}
use caas_lite.Insurance.Scheduler.Laws.{is_clean}

-- The counters of a run over some rows.
pub record IsCounted (env : Environment) (ws : List WarrantyRow) (before after : Summary)
    : Type 0 where
  pub scanned : after.scanned ≡ before.scanned + length ws
  pub errors :
      after.errors ≡ before.errors + count (λ (w : WarrantyRow). not (is_clean (env.fault w.id))) ws
  pub state_changes :
      (before.state_changes ≤ after.state_changes)
      × (after.state_changes ≤ before.state_changes + length ws)
  pub badge_changes :
      after.badge_changes
      ≤ before.badge_changes + count (λ (w : WarrantyRow). is_clean (env.fault w.id)) ws

tally-IsCounted :
    (env : Environment) (w : WarrantyRow) (state_changed badge_changed : Bool) (n : Summary)
    → IsCounted env (w ∷ []) n (tally (env.fault w.id) state_changed badge_changed n)
unfolding tally
tally-IsCounted env w state_changed badge_changed n = record {
  scanned = ground arith;
  errors = ground arith;
  state_changes = ground arith;
  badge_changes = ground arith;
}

attempt_all-IsCounted :
    (rt : Runtime) (s : ResolvedSecrets) (env : Environment) (ws : List WarrantyRow) (n : Summary)
    (db : Database)
    → IsCounted env ws n (attempt_all rt s env ws (n, db)).0
unfolding attempt_all attempt
attempt_all-IsCounted rt s env [] n db = record {
  scanned = omega arith;
  errors = omega arith;
  state_changes = omega arith;
  badge_changes = omega arith;
}
attempt_all-IsCounted rt s env (w ∷ ws) n db =
    let (n', mid) = attempt rt s env w (n, db) in
    let (result, badge, after) = recompute_warranty rt s (env.now w.id) (env.ids w.id) none w db in
    let head = tally-IsCounted env w result.changed badge.changed n in
    let tail = attempt_all-IsCounted rt s env ws n' mid in
    record {
      scanned = ground (arith, head.scanned, tail.scanned);
      errors = ground (arith, head.errors, tail.errors);
      state_changes = ground (arith, head.state_changes, tail.state_changes);
      badge_changes = ground (arith, head.badge_changes, tail.badge_changes);
    }

-- A run scans every active warranty once and counts an error for each one whose transaction has a
-- fault; it counts at most one change of state for each scanned warranty, and at most one change of
-- a badge for each one without a fault.
pub recompute_all_warranties-IsCounted :
    (rt : Runtime) (s : ResolvedSecrets) (env : Environment) (db : Database)
    → IsCounted env
        (filter is_active db.warranties)
        (record { scanned = 0; state_changes = 0; badge_changes = 0; errors = 0 })
        (recompute_all_warranties rt s env db).0
unfolding recompute_all_warranties
recompute_all_warranties-IsCounted rt s env db =
    attempt_all-IsCounted rt s env (filter is_active db.warranties) _ db

-- A warranty whose state is to change and whose badge sync throws is counted as a change of state
-- and as an error, while its transaction leaves the database as it was.
pub rolled_back_counted :
    (rt : Runtime) (s : ResolvedSecrets) (env : Environment) (w : WarrantyRow) (n : Summary)
    (db : Database)
    → find_warranty w.id db.warranties ≡ some w
    → env.fault w.id ≡ in_badge_sync
    → w.policy_state ≢ (evaluate_policy_state (env.now w.id) w.tenant_id db).0
    → let (n', after) = attempt rt s env w (n, db) in
      (n'.state_changes ≡ n.state_changes + 1) × (n'.errors ≡ n.errors + 1) × (after ≡ db)
unfolding attempt tally commit
rolled_back_counted rt s env w n db stored fault differs =
    let changed =
      (recompute_warranty-IsRecomputed rt s (env.now w.id) (env.ids w.id) none w db
          stored).changed.1
        differs in
    rw (fault, changed) (refl, refl, refl)
