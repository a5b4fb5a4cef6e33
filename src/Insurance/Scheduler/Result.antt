-- ===== src/Insurance/Scheduler/Result.antt =====
-- The result of a whole run of the scheduler.
use mathlib.Core.Path.{subst}
use caas_lite.Prelude.{
  ◌≡◌, ◌≢◌, ◌∙◌, String, false, some, List, [], ◌∷◌, arith, Bool-cases, filter, All, if_both, inl,
  inr, eq_iff, str_eq,
}
use caas_lite.Database.{active, WarrantyRow, Database, Runtime}
use caas_lite.Badge.Secrets.{ResolvedSecrets}
use caas_lite.Insurance.Recompute.{find_warranty}
use caas_lite.Insurance.Recompute.Laws.{policy_state_eq_iff}
use caas_lite.Insurance.Scheduler.{Environment, is_active, recompute_all_warranties}
use caas_lite.Insurance.Scheduler.Laws.{IsRun, IsDistinct, attempt_all_others}
use caas_lite.Insurance.Scheduler.Run.{IsAway, away_back, attempt_all-IsRun}

-- Selecting the active rows.
IsAway-filter :
    (w : WarrantyRow) (ws : List WarrantyRow)
    → All (IsAway w) ws
    → All (IsAway w) (filter is_active ws)
IsAway-filter w [] away = tt
IsAway-filter w (v ∷ vs) (ne, away) =
    if_both (All (IsAway w)) (is_active v) _ _ (ne, IsAway-filter w vs away)
      (IsAway-filter w vs away)

IsDistinct-filter : (ws : List WarrantyRow) → IsDistinct ws → IsDistinct (filter is_active ws)
IsDistinct-filter [] d = tt
IsDistinct-filter (w ∷ ws) (away, d) =
    if_both IsDistinct (is_active w) _ _ (IsAway-filter w ws away, IsDistinct-filter ws d)
      (IsDistinct-filter ws d)

-- Under distinct ids every row is the one that its id finds.
stored-All :
    (w : WarrantyRow) (ws vs : List WarrantyRow)
    → All (IsAway w) vs
    → All (λ v. find_warranty v.id ws ≡ some v) vs
    → All (λ v. find_warranty v.id (w ∷ ws) ≡ some v) vs
unfolding find_warranty
stored-All w ws [] away all = tt
stored-All w ws (v ∷ vs) (ne, away) (here, all) =
    (ground (arith, ne, here, eq_iff w.id v.id), stored-All w ws vs away all)

stored_filter :
    (ws : List WarrantyRow)
    → IsDistinct ws
    → All (λ v. find_warranty v.id ws ≡ some v) (filter is_active ws)
unfolding find_warranty
stored_filter [] d = tt
stored_filter (w ∷ ws) (away, d) =
    let rest =
      stored-All w ws (filter is_active ws) (IsAway-filter w ws away) (stored_filter ws d) in
    if_both (All (λ v. find_warranty v.id (w ∷ ws) ≡ some v)) (is_active w) _ _
      (ground (arith, eq_iff w.id w.id), rest) rest

inactive_filter :
    (i : String) (v : WarrantyRow) (ws : List WarrantyRow)
    → IsDistinct ws
    → find_warranty i ws ≡ some v
    → is_active v ≡ false
    → All (λ (w : WarrantyRow). i ≢ w.id) (filter is_active ws)
unfolding find_warranty
inactive_filter i v [] d e inactive = tt
inactive_filter i v (w ∷ ws) (away, d) e inactive = elim (Bool-cases (str_eq w.id i)) [
  | inl same ↦
      let voided : is_active w ≡ false = ground (arith, e, same, inactive) in
      let rest : All (λ (u : WarrantyRow). w.id ≢ u.id) (filter is_active ws) =
        away_back w _ (IsAway-filter w ws away) in
      rw voided (
        subst (λ x. All (λ (u : WarrantyRow). x ≢ u.id) (filter is_active ws))
          ((eq_iff w.id i).0 same) rest)
  | inr other ↦
      let rest = inactive_filter i v ws d (ground (arith, e, other)) inactive in
      if_both (All (λ (u : WarrantyRow). i ≢ u.id)) (is_active w) _ _
        ((λ q. ground (arith, other, q, eq_iff w.id i)), rest) rest
]

module _ (rt : Runtime) (s : ResolvedSecrets) (env : Environment) (db : Database)
    (distinct : IsDistinct db.warranties) where
  -- A run over a table of distinct ids leaves of each active warranty whose transaction has no
  -- fault a row in the state that the metrics decide, and each one whose transaction has a fault
  -- exactly as it was, whatever faults the others have.
  pub recompute_all_warranties-IsRun :
      All
        (λ w. IsRun env db w (recompute_all_warranties rt s env db).1)
        (filter is_active db.warranties)
  unfolding recompute_all_warranties
  recompute_all_warranties-IsRun =
      attempt_all-IsRun rt s env (filter is_active db.warranties) _ db
        (IsDistinct-filter db.warranties distinct) (stored_filter db.warranties distinct)

  -- A run over a table of distinct ids leaves every warranty as it was that is not active, whatever
  -- the metrics and the faults are.
  pub voided_untouched :
      (v : WarrantyRow)
      → find_warranty v.id db.warranties ≡ some v
      → v.policy_state ≢ active
      → find_warranty v.id (recompute_all_warranties rt s env db).1.warranties ≡ some v
  unfolding recompute_all_warranties
  voided_untouched v found void =
      let inactive : is_active v ≡ false =
        ground (arith, policy_state_eq_iff v.policy_state active, void) in
      attempt_all_others rt s env v.id (filter is_active db.warranties) _ db
        (inactive_filter v.id v db.warranties distinct found inactive)
      ∙ found
