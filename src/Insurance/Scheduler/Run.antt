-- ===== src/Insurance/Scheduler/Run.antt =====
-- The rounds of a run over rows of distinct ids, each of them stored.
use caas_lite.Prelude.{
  ℕ, ◌≡◌, ◌≢◌, ◌↔◌, refl, sym, ap, ◌∙◌, String, Bool, true, none, some, List, [], ◌∷◌, arith,
  Bool-cases, All, if◌then◌else◌, inl, inr,
}
use caas_lite.Database.{PolicyState, Evidence, WarrantyRow, Database, Runtime}
use caas_lite.Badge.Secrets.{ResolvedSecrets}
use caas_lite.Insurance.Evaluate.Laws.{evaluate_metrics}
use caas_lite.Insurance.Recompute.{find_warranty, moved, recompute_warranty}
use caas_lite.Insurance.Recompute.Laws.{policy_state_eq_iff, recompute_warranty-IsRecomputed}
use caas_lite.Insurance.Scheduler.{Environment, Summary, attempt, attempt_all}
use caas_lite.Insurance.Scheduler.Laws.{
  IsRun, IsDistinct, is_clean, commit_clean, commit_faulty, attempt_others, attempt_metrics,
  attempt_all_others,
}

moved_state :
    (p : Bool) (now : ℕ) (decided : PolicyState × Evidence) (w : WarrantyRow)
    → ((p ≡ true) ↔ (w.policy_state ≢ decided.0))
    → (if p then moved decided.0 decided.1 now w else w).policy_state ≡ decided.0
moved_state p now decided w iff = ground (arith, iff, policy_state_eq_iff w.policy_state decided.0)

abbrev pub IsStored : Database → WarrantyRow → Type 0
IsStored db w = find_warranty w.id db.warranties ≡ some w

abbrev pub IsAway : WarrantyRow → WarrantyRow → Type 0
IsAway w v = v.id ≢ w.id

IsStored-still :
    (w : WarrantyRow) (before after : Database)
    → ((i : String)
        → i ≢ w.id
        → find_warranty i after.warranties ≡ find_warranty i before.warranties)
    → (ws : List WarrantyRow) → All (IsAway w) ws
    → All (IsStored before) ws
    → All (IsStored after) ws
IsStored-still w before after same [] away stored = tt
IsStored-still w before after same (v ∷ vs) (ne, away) (here, stored) =
    (same v.id ne ∙ here, IsStored-still w before after same vs away stored)

IsRun-from :
    (env : Environment) (a b after : Database)
    → a.metrics ≡ b.metrics
    → (ws : List WarrantyRow) → All (λ w. IsRun env a w after) ws
    → All (λ w. IsRun env b w after) ws
IsRun-from env a b after same [] all = tt
IsRun-from env a b after same (w ∷ ws) (r, all) = (
  record {
    row = r.row;
    found = r.found;
    clean = λ e. r.clean e ∙ ap (λ q. q.0) (evaluate_metrics (env.now w.id) w.tenant_id a b same);
    faulty = r.faulty;
  },
  IsRun-from env a b after same ws all,
)

pub away_back :
    (w : WarrantyRow) (ws : List WarrantyRow)
    → All (IsAway w) ws
    → All (λ (v : WarrantyRow). w.id ≢ v.id) ws
away_back w [] away = tt
away_back w (v ∷ vs) (ne, away) = (λ e. ne (sym e), away_back w vs away)

module _ (rt : Runtime) (s : ResolvedSecrets) (env : Environment) where
  attempt-IsRun :
      (w : WarrantyRow) (n : Summary) (db : Database)
      → IsStored db w
      → IsRun env db w (attempt rt s env w (n, db)).1
  unfolding attempt
  attempt-IsRun w n db stored =
      let (answer, _, after) = recompute_warranty rt s (env.now w.id) (env.ids w.id) none w db in
      let here =
        recompute_warranty-IsRecomputed rt s (env.now w.id) (env.ids w.id) none w db stored in
      elim (Bool-cases (is_clean (env.fault w.id))) [
        | inl e ↦ rw (commit_clean (env.fault w.id) db after e) (record {
          row = _;
          found = here.row;
          clean = λ _. moved_state answer.changed _ _ w here.changed;
          faulty = λ f. absurd (ground (arith, e, f));
        })
        | inr e ↦ rw (commit_faulty (env.fault w.id) db after e) (record {
          row = w;
          found = stored;
          clean = λ f. absurd (ground (arith, e, f));
          faulty = λ _. refl;
        })
      ]

  pub attempt_all-IsRun :
      (ws : List WarrantyRow) (n : Summary) (db : Database)
      → IsDistinct ws
      → All (IsStored db) ws
      → All (λ w. IsRun env db w (attempt_all rt s env ws (n, db)).1) ws
  unfolding attempt_all
  attempt_all-IsRun [] n db distinct stored = tt
  attempt_all-IsRun (w ∷ ws) n db (away, distinct) (here, stored) =
      let (n', mid) = attempt rt s env w (n, db) in
      let head = attempt-IsRun w n db here in
      let after : Database = (attempt_all rt s env ws (n', mid)).1 in
      let tail =
        attempt_all-IsRun ws n' mid distinct
          (IsStored-still w db mid (λ i ne. attempt_others rt s env i w n db ne) ws away stored) in
      (
        record {
          row = head.row;
          found = attempt_all_others rt s env w.id ws n' mid (away_back w ws away) ∙ head.found;
          clean = head.clean;
          faulty = head.faulty;
        },
        IsRun-from env mid db after (attempt_metrics rt s env w n db) ws tail,
      )
