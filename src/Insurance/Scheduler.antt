-- ===== src/Insurance/Scheduler.antt =====
-- `recomputeAllWarranties` of src/lib/recompute-scheduler.ts. Where in a warranty's transaction a
-- statement throws, if one does, is the environment's; so are the clock readings and ids.
pub mod Laws
pub mod Run
pub mod Result
pub mod Counters
use caas_lite.Prelude.{
  ℕ, suc, ◌+◌, String, Bool, true, false, Option, none, some, List, [], ◌∷◌, if◌then◌else◌, filter,
}
use caas_lite.Database.{active, policy_state_eq, WarrantyRow, Database, Runtime}
use caas_lite.Badge.Secrets.{ResolvedSecrets}
use caas_lite.Badge.Sync.{SyncBadgeResult}
use caas_lite.Insurance.Recompute.{RecomputeResult, recompute_warranty}

-- The call of the transaction in which a statement throws.
pub data Fault : Type 0 where
  no_fault in_evaluation in_transition in_badge_sync : Fault

-- What the environment of one run decides for each warranty, by its id.
pub record Environment : Type 0 where
  pub fault : String → Fault
  pub now : String → ℕ
  pub ids : String → String × String

-- The counters of the run; the durations and times of the summary are left out.
pub record Summary : Type 0 where
  pub scanned : ℕ
  pub state_changes : ℕ
  pub badge_changes : ℕ
  pub errors : ℕ

abbrev pub one_if : Bool → ℕ
one_if true = 1
one_if false = 0

-- The counters are raised inside the transaction, and stay raised when it is rolled back.
unfoldable pub tally : Fault → Bool → Bool → Summary → Summary
tally no_fault state_changed badge_changed n = record n {
  scanned = n.scanned + 1;
  state_changes = n.state_changes + one_if state_changed;
  badge_changes = n.badge_changes + one_if badge_changed;
}
tally in_badge_sync state_changed badge_changed n = record n {
  scanned = n.scanned + 1;
  state_changes = n.state_changes + one_if state_changed;
  errors = n.errors + 1;
}
tally in_evaluation _ _ n = record n { scanned = n.scanned + 1; errors = n.errors + 1 }
tally in_transition _ _ n = record n { scanned = n.scanned + 1; errors = n.errors + 1 }

-- The database after a transaction: a fault rolls it back.
unfoldable pub commit : Fault → Database → Database → Database
commit no_fault before after = after
commit in_evaluation before after = before
commit in_transition before after = before
commit in_badge_sync before after = before

-- The rows that the run selects, `policy_state = 'ACTIVE'`.
abbrev pub is_active : WarrantyRow → Bool
is_active w = policy_state_eq w.policy_state active

module _ (rt : Runtime) (secrets : ResolvedSecrets) (env : Environment) where
  -- One round of the loop.
  unfoldable pub attempt : WarrantyRow → Summary × Database → Summary × Database
  attempt w (n, db) =
      let (result, badge, after) =
        recompute_warranty rt secrets (env.now w.id) (env.ids w.id) none w db in
      (tally (env.fault w.id) result.changed badge.changed n, commit (env.fault w.id) db after)

  unfoldable pub attempt_all : List WarrantyRow → Summary × Database → Summary × Database
  attempt_all [] s = s
  attempt_all (w ∷ ws) s = attempt_all ws (attempt w s)

  unfoldable pub recompute_all_warranties : Database → Summary × Database
  recompute_all_warranties db =
      attempt_all (filter is_active db.warranties)
        (record { scanned = 0; state_changes = 0; badge_changes = 0; errors = 0 }, db)
