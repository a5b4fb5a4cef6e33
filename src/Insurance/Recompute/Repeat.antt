-- ===== src/Insurance/Recompute/Repeat.antt =====
-- Recomputes one after the other: a second one, and one of a warranty that was voided before.
use caas_lite.Prelude.{
  ℕ, ◌*◌, ◌≤◌, ◌<◌, ◌≡◌, ◌≢◌, ◌↔◌, refl, sym, ap, ◌∙◌, String, Bool, true, false, Option, some,
  arith, if◌then◌else◌,
}
use caas_lite.Database.{PolicyState, active, Evidence, WarrantyRow, red, Database, Runtime}
use caas_lite.Badge.Secrets.{ResolvedSecrets}
use caas_lite.Badge.Sync.{SyncBadgeResult, sync_badge, BadgeStateInputs}
use caas_lite.Badge.Sync.Laws.{badge_of}
use caas_lite.Badge.Sync.Registry.{sync_badge_idempotent}
use caas_lite.Insurance.Evaluate.{
  evaluate_policy_state, total_requests, denied_requests, boundary_crossings,
}
use caas_lite.Insurance.Evaluate.Laws.{
  evaluate_metrics, evaluate_policy_state-IsDecided, evaluate_policy_state-IsBadgeFor,
}
use caas_lite.Insurance.Recompute.{
  RecomputeResult, find_warranty, moved, apply_state_transition, recompute_warranty,
}
use caas_lite.Insurance.Recompute.Laws.{
  policy_state_eq_iff, apply_state_transition-IsRecomputed, recompute_warranty-IsRecomputed,
  recompute_warranty-badge,
}

-- The answer where the state is as decided already.
abbrev pub unmoved : WarrantyRow → PolicyState → Evidence → RecomputeResult
unmoved w p ev = record {
  previous_state = w.policy_state;
  current_state = p;
  changed = false;
  evidence = ev;
}

apply_state_transition_same :
    (now : ℕ) (audit_id : String) (w : WarrantyRow) (p : PolicyState) (ev : Evidence)
    (actor : Option String) (db : Database)
    → w.policy_state ≡ p
    → apply_state_transition now audit_id w p ev actor db ≡ (unmoved w p ev, db)
unfolding apply_state_transition
apply_state_transition_same now audit_id w p ev actor db same =
    rw ((policy_state_eq_iff w.policy_state p).1 same) refl

-- A second sync, from the database that the first left.
sync_again :
    (rt : Runtime) (s : ResolvedSecrets) (now : ℕ) (id id' tenant tenant' account account' : String)
    (inputs : BadgeStateInputs) (before after : Database) (first : SyncBadgeResult)
    → tenant' ≡ tenant
    → account' ≡ account
    → first ≡ (sync_badge rt s now id tenant account inputs before).0
    → after ≡ (sync_badge rt s now id tenant account inputs before).1
    → let (badge, after') = sync_badge rt s now id' tenant' account' inputs after in
      (after' ≡ after) × (badge.signature ≡ first.signature)
sync_again rt s now id id' tenant tenant' account account' inputs before after first same_t same_a e
      f =
    let again = sync_badge_idempotent rt s now id tenant account inputs before now id' in
    rw (same_t, same_a, e, f) (again.0, again.2)

-- A row that a recompute left.
left_row :
    (now : ℕ) (w w' : WarrantyRow) (decided : PolicyState × Evidence) (changed : Bool)
    → ((changed ≡ true) ↔ (w.policy_state ≢ decided.0))
    → some w' ≡ some (if changed then moved decided.0 decided.1 now w else w)
    → (w'.policy_state ≡ decided.0) × (w'.tenant_id ≡ w.tenant_id) × (w'.account_id ≡ w.account_id)
left_row now w w' decided changed iff e = (
  ground (arith, iff, e, policy_state_eq_iff w.policy_state decided.0),
  ground (arith, e),
  ground (arith, e),
)

module _ (rt : Runtime) (s : ResolvedSecrets) (now : ℕ) (ids : String × String)
    (actor : Option String) (w : WarrantyRow) (decided : PolicyState × Evidence) (db : Database)
    (evaluated : evaluate_policy_state now w.tenant_id db ≡ decided) where
  abbrev inputs : BadgeStateInputs
  inputs = record { policy_state = some decided.0; evidence = some decided.1 }

  -- The recompute of a row that is as decided comes down to the sync of the badge.
  recompute_warranty_same :
      w.policy_state ≡ decided.0
      → recompute_warranty rt s now ids actor w db ≡ (
          let (badge, after) = sync_badge rt s now ids.1 w.tenant_id w.account_id inputs db in
          (unmoved w decided.0 decided.1, badge, after))
  unfolding recompute_warranty
  recompute_warranty_same same =
      rw (evaluated, apply_state_transition_same now ids.0 w decided.0 decided.1 actor db same) refl

  -- Of any recompute the last part is a sync with the decided state.
  recompute_warranty_sync :
      find_warranty w.id db.warranties ≡ some w
      → (before : Database) × ((recompute_warranty rt s now ids actor w db).1
          ≡ (sync_badge rt s now ids.1 w.tenant_id w.account_id inputs before).0)
        × ((recompute_warranty rt s now ids actor w db).2
            ≡ (sync_badge rt s now ids.1 w.tenant_id w.account_id inputs before).1)
  unfolding recompute_warranty
  recompute_warranty_sync stored =
      let (answer, moved_db) = apply_state_transition now ids.0 w decided.0 decided.1 actor db in
      let here = apply_state_transition-IsRecomputed now ids.0 actor w decided db stored in
      rw evaluated (moved_db, rw here.current refl, rw here.current refl)

module _ (rt : Runtime) (s : ResolvedSecrets) (now : ℕ) (ids ids' : String × String)
    (actor actor' : Option String) (w w' : WarrantyRow) (db : Database)
    (stored : find_warranty w.id db.warranties ≡ some w) where
  -- A second recompute, at the same time, of the row that a recompute of a stored warranty left
  -- changes neither the database nor the badge's signature, whoever makes it.
  pub recompute_warranty_idempotent :
      let (_, badge, after) = recompute_warranty rt s now ids actor w db in
      let (answer', badge', after') = recompute_warranty rt s now ids' actor' w' after in
      find_warranty w.id after.warranties ≡ some w'
      → (after' ≡ after) × (answer'.changed ≡ false) × (badge'.signature ≡ badge.signature)
  unfolding recompute_warranty
  recompute_warranty_idempotent found =
      let decided : PolicyState × Evidence = evaluate_policy_state now w.tenant_id db in
      let (_, _, after) = recompute_warranty rt s now ids actor w db in
      let here = recompute_warranty-IsRecomputed rt s now ids actor w db stored in
      let left = left_row now w w' decided _ here.changed (sym found ∙ here.row) in
      let evaluated : evaluate_policy_state now w'.tenant_id after ≡ decided =
        ap (λ t. evaluate_policy_state now t after) left.1
        ∙ evaluate_metrics now w.tenant_id after db here.metrics in
      let second = recompute_warranty_same rt s now ids' actor' w' decided after evaluated left.0 in
      let (before, first_badge, first_after) =
        recompute_warranty_sync rt s now ids actor w decided db refl stored in
      let again =
        sync_again rt s now ids.1 ids'.1 w.tenant_id w'.tenant_id w.account_id w'.account_id
          (record { policy_state = some decided.0; evidence = some decided.1 }) before after _
          left.1 left.2 first_badge first_after in
      (
        ap (λ q. q.2) second ∙ again.0,
        ap (λ q. q.0.changed) second,
        ap (λ q. q.1.signature) second ∙ again.1,
      )

module _ (rt : Runtime) (s : ResolvedSecrets) (now : ℕ) (ids : String × String)
    (actor : Option String) (w : WarrantyRow) (db : Database)
    (stored : find_warranty w.id db.warranties ≡ some w) where
  -- A recompute of a stored warranty that was voided, when at most 2 in 100 of the tenant's requests
  -- of seven days were denied and it crossed boundaries fewer than ten times in thirty days, leaves
  -- it active, and the tenant's badge is not red.
  pub voided_reinstated :
      w.policy_state ≢ active
      → 100 * denied_requests w.tenant_id now db.metrics
        ≤ 2 * total_requests w.tenant_id now db.metrics
      → boundary_crossings w.tenant_id now db.metrics < 10
      → let (answer, badge, after) = recompute_warranty rt s now ids actor w db in
        (answer.current_state ≡ active)
        × (answer.changed ≡ true)
        × ((v : WarrantyRow) × (find_warranty w.id after.warranties ≡ some v)
            × (v.policy_state ≡ active))
        × (badge_of w.tenant_id after.registry ≢ some red)
  voided_reinstated void few_denied few_crossings =
      let decided : PolicyState × Evidence = evaluate_policy_state now w.tenant_id db in
      let is_active : decided.0 ≡ active =
        (evaluate_policy_state-IsDecided now w.tenant_id db).active.1 (few_denied, few_crossings) in
      let here = recompute_warranty-IsRecomputed rt s now ids actor w db stored in
      let changed = here.changed.1 (λ same. void (same ∙ is_active)) in
      let shown = recompute_warranty-badge rt s now ids actor w db stored in
      let not_red = (evaluate_policy_state-IsBadgeFor rt now w.tenant_id db).red in
      (
        here.current ∙ is_active,
        changed,
        (
          moved decided.0 decided.1 now w,
          here.row ∙ ap (λ c. some (if c then moved decided.0 decided.1 now w else w)) changed,
          is_active,
        ),
        λ e. not_red.0 (ground (arith, e, shown.0)) (few_denied, few_crossings),
      )
