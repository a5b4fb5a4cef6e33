-- ===== src/Insurance/Evaluate/Laws.antt =====
-- What the evaluation of a warranty decides, as inequalities between whole numbers, the rows that
-- it depends on, and the badge that goes with its answer.
use caas_lite.Prelude.{
  ℕ, ◌*◌, ◌≤◌, ◌<◌, ◌≡◌, ◌↔◌, ◌⊎◌, inl, inr, refl, String, Bool, true, ◌&&◌, some, List, [], ◌∷◌,
  filter, count, arith,
}
use caas_lite.Database.{
  PolicyState, active, void_by_compliance_drift, void_by_anomaly_ratio, Evidence, BadgeState, green,
  amber, red, Metric, Database, Runtime,
}
use caas_lite.Badge.Sync.{compute_badge_state, standing, is_amber}
use caas_lite.Insurance.Evaluate.{
  days_ago, in_window, is_denied, is_crossing, total_requests, denied_requests, boundary_crossings,
  anomaly_ratio, decide_policy_state, evaluate_policy_state, drift_window_days, anomaly_window_days,
}

-- A count of fewer conditions is no smaller.
pub count_and_le :
    {A : Type 0} (p q : A → Bool) (xs : List A) → count (λ x. p x && q x) xs ≤ count p xs
count_and_le p q [] = ground arith
count_and_le p q (x ∷ xs) = ground (arith, count_and_le p q xs)

-- Rows that no counted row is among can be dropped.
pub count-filter :
    {A : Type 0} (p q : A → Bool)
    → ((x : A) → p x ≡ true → q x ≡ true)
    → (xs : List A) → count p (filter q xs) ≡ count p xs
count-filter p q imp [] = refl
count-filter p q imp (x ∷ xs) = ground (arith, count-filter p q imp xs, imp x)

-- What each state means for the counts of one evaluation.
pub record IsDecided (total denied crossings : ℕ) (answer : PolicyState) : Type 0 where
  pub anomaly : (answer ≡ void_by_anomaly_ratio) ↔ (2 * total < 100 * denied)
  pub drift : (answer ≡ void_by_compliance_drift) ↔ ((100 * denied ≤ 2 * total) × (10 ≤ crossings))
  pub active : (answer ≡ active) ↔ ((100 * denied ≤ 2 * total) × (crossings < 10))

pub decide_policy_state-IsDecided :
    (total denied crossings now : ℕ)
    → denied ≤ total
    → IsDecided total denied crossings (decide_policy_state total denied crossings now).0
unfolding decide_policy_state anomaly_ratio
decide_policy_state-IsDecided total denied crossings now le = record {
  anomaly = ground arith;
  drift = ground arith;
  active = ground arith;
}

pub denied_le_total :
    (tenant : String) (now : ℕ) (ms : List Metric)
    → denied_requests tenant now ms ≤ total_requests tenant now ms
unfolding denied_requests total_requests
denied_le_total tenant now ms = count_and_le _ is_denied ms

-- An evaluation voids for the anomaly ratio exactly if more than 2 in 100 of the tenant's requests
-- of seven days were denied; it voids for compliance drift exactly if not so and the tenant crossed
-- boundaries ten times or more in thirty days; otherwise, and only then, it answers active.
pub evaluate_policy_state-IsDecided :
    (now : ℕ) (tenant : String) (db : Database)
    → IsDecided
        (total_requests tenant now db.metrics)
        (denied_requests tenant now db.metrics)
        (boundary_crossings tenant now db.metrics)
        (evaluate_policy_state now tenant db).0
unfolding evaluate_policy_state
evaluate_policy_state-IsDecided now tenant db =
    decide_policy_state-IsDecided _ _ _ now (denied_le_total tenant now db.metrics)

-- The window of seven days lies in the one of thirty.
pub in_window_wider :
    (tenant : String) (now : ℕ) (m : Metric)
    → in_window tenant (days_ago now anomaly_window_days) m ≡ true
    → in_window tenant (days_ago now drift_window_days) m ≡ true
unfolding in_window days_ago
in_window_wider tenant now m h = ground arith

-- An evaluation answers, state and evidence, as it does with only the tenant's own rows of the last
-- thirty days in the table: rows of other tenants and older rows do not matter.
pub only_recent_own_rows :
    (now : ℕ) (tenant : String) (db : Database)
    → evaluate_policy_state now tenant (record db {
      metrics = filter (in_window tenant (days_ago now drift_window_days)) db.metrics;
    })
      ≡ evaluate_policy_state now tenant db
unfolding evaluate_policy_state total_requests denied_requests boundary_crossings
only_recent_own_rows now tenant db =
    let wide : Metric → Bool = in_window tenant (days_ago now drift_window_days) in
    let recent : Metric → Bool = in_window tenant (days_ago now anomaly_window_days) in
    let total = count-filter recent wide (in_window_wider tenant now) db.metrics in
    let denied =
      count-filter (λ m. recent m && is_denied m) wide
        (λ m h. in_window_wider tenant now m (ground (arith, h))) db.metrics in
    let crossing =
      count-filter (λ m. wide m && is_crossing m) wide (λ m h. ground (arith, h)) db.metrics in
    rw (total, denied, crossing) refl

pub evaluate_metrics :
    (now : ℕ) (tenant : String) (a b : Database)
    → a.metrics ≡ b.metrics
    → evaluate_policy_state now tenant a ≡ evaluate_policy_state now tenant b
unfolding evaluate_policy_state
evaluate_metrics now tenant a b e = rw e refl

-- The badge for an evaluation's answer.
abbrev pub badge_for : Runtime → PolicyState × Evidence → BadgeState
badge_for rt (p, ev) =
    (compute_badge_state rt (record { policy_state = some p; evidence = some ev })).0

pub record IsBadgeFor (total denied crossings : ℕ) (badge : BadgeState) : Type 0 where
  pub red : (badge ≡ red) ↔ ¬ ((100 * denied ≤ 2 * total) × (crossings < 10))
  pub amber :
      (badge ≡ amber) ↔ ((3 * total ≤ 200 * denied) × (100 * denied < 2 * total) × (crossings < 10))

BadgeState-cases : (b : BadgeState) → (b ≡ green) ⊎ ((b ≡ amber) ⊎ (b ≡ red))
BadgeState-cases green = inl refl
BadgeState-cases amber = inr (inl refl)
BadgeState-cases red = inr (inr refl)

pub decide_policy_state-IsBadgeFor :
    (rt : Runtime) (total denied crossings now : ℕ)
    → denied ≤ total
    → IsBadgeFor total denied crossings
        (badge_for rt (decide_policy_state total denied crossings now))
unfolding decide_policy_state anomaly_ratio compute_badge_state standing is_amber
decide_policy_state-IsBadgeFor rt total denied crossings now le = record {
  red = ground arith;
  amber = ground arith;
}

-- The badge that goes with a warranty's evaluation is red exactly if more than 2 in 100 of the
-- tenant's requests of seven days were denied or the tenant crossed boundaries ten times or more
-- in thirty days; it is amber exactly if neither holds and at least 1.5 in 100 but fewer than 2
-- in 100 were denied.
pub evaluate_policy_state-IsBadgeFor :
    (rt : Runtime) (now : ℕ) (tenant : String) (db : Database)
    → IsBadgeFor
        (total_requests tenant now db.metrics)
        (denied_requests tenant now db.metrics)
        (boundary_crossings tenant now db.metrics)
        (badge_for rt (evaluate_policy_state now tenant db))
unfolding evaluate_policy_state
evaluate_policy_state-IsBadgeFor rt now tenant db =
    decide_policy_state-IsBadgeFor rt _ _ _ now (denied_le_total tenant now db.metrics)

-- With exactly 2 in 100 requests denied and fewer than ten crossings the warranty is active and
-- its badge is green, though from 1.5 in 100 up to that ratio the badge is amber.
pub threshold_green :
    (rt : Runtime) (now : ℕ) (tenant : String) (db : Database)
    → 100 * denied_requests tenant now db.metrics ≡ 2 * total_requests tenant now db.metrics
    → boundary_crossings tenant now db.metrics < 10
    → ((evaluate_policy_state now tenant db).0 ≡ active)
      × (badge_for rt (evaluate_policy_state now tenant db) ≡ green)
threshold_green rt now tenant db exact few =
    let state = evaluate_policy_state-IsDecided now tenant db in
    let badge = evaluate_policy_state-IsBadgeFor rt now tenant db in
    (
      ground (arith, state.active, exact, few),
      elim (BadgeState-cases (badge_for rt (evaluate_policy_state now tenant db))) [
        | inl g ↦ g
        | inr rest ↦ elim rest [
          | inl a ↦ absurd (ground (arith, badge.amber, a, exact))
          | inr r ↦ absurd (ground (arith, badge.red, r, exact, few))
        ]
      ],
    )
