-- ===== src/Commercial/Scores/Laws.antt =====
-- Bounds and monotonicity of the risk scores.
use caas_lite.Prelude.{ℕ, zero, suc, ◌*◌, ◌<◌, ◌⊎◌, inl, inr, ◌≤◌, ◌≡◌, refl, Bool, true, arith}
use caas_lite.Commercial.Tables.{AuditInputs}
use caas_lite.Commercial.Subscriptions.{default_to}
use caas_lite.Commercial.Money.{min}
use caas_lite.Commercial.Scores.{
  derive_risk_band, discount_for_band, score_operational, score_security, score_compliance,
  score_financial, component_scores, composite_score, operational_points, integrity_points,
  failover_points, slow_points, duration_points, fails_above,
}

-- Worse figures: payouts where there were some, no lower rate of failed ones, no lower mean
-- duration of the slow queries, none of the other counts lower, and no integrity regained. Products
-- stand for the quotients; slow queries that are none have no duration.
abbrev pub IsWorse : AuditInputs → AuditInputs → Type 0
IsWorse i j =
    (0 < i.total_runs → 0 < j.total_runs)
    × (i.failed_runs * j.total_runs ≤ j.failed_runs * i.total_runs)
    × (i.duplicate_runs ≤ j.duplicate_runs)
    × (i.count_high ≤ j.count_high)
    × (i.count_critical ≤ j.count_critical)
    × (i.count_lockouts ≤ j.count_lockouts)
    × (i.slow_count ≤ j.slow_count)
    × (i.slow_count ≡ 0 → i.slow_duration ≡ 0)
    × (i.slow_duration * j.slow_count ≤ j.slow_duration * i.slow_count)
    × (i.regulatory_breaches ≤ j.regulatory_breaches)
    × (i.failover_events ≤ j.failover_events)
    × (j.db_integrity_ok ≡ true → i.db_integrity_ok ≡ true)

le_or_lt : (m n : ℕ) → (m ≤ n) ⊎ (n < m)
le_or_lt m n = ground arith

mul_le : (k m n : ℕ) → m ≤ n → m * k ≤ n * k
mul_le zero m n h = omega arith
mul_le (suc k) m n h = let rest = mul_le k m n h in omega arith

-- A quotient that is no lower is above what the other one is above.
above_worse : (c m a b a' b' : ℕ) → a * b' ≤ a' * b → 0 < b' → c * b < m * a → c * b' < m * a'
above_worse c m a b a' b' le pos lt = elim (le_or_lt (m * a') (c * b')) [
  | inr goal ↦ goal
  | inl under ↦
      let h1 = mul_le b (m * a') (c * b') under in
      let h2 = mul_le b' (suc (c * b)) (m * a) lt in
      let h3 = mul_le m (a * b') (a' * b) le in absurd (omega (arith, h1, h2, h3, pos))
]

min_worse : (m n c : ℕ) → m ≤ n → min m c ≤ min n c
min_worse m n c h = ground arith

security_bound : (i : AuditInputs) → score_security i ≤ 90
unfolding score_security
security_bound i = ground arith

compliance_bound : (i : AuditInputs) → score_compliance i ≤ 100
unfolding score_compliance
compliance_bound i = ground arith

financial_bound : (i : AuditInputs) → score_financial i ≤ 100
unfolding score_financial
financial_bound i = ground arith

operational_bound : (i : AuditInputs) → score_operational i ≤ 100
unfolding score_operational
operational_bound i = ground arith

pub composite_bound : (i : AuditInputs) → composite_score (component_scores i) ≤ 97
unfolding composite_score component_scores
composite_bound i =
    ground (arith, security_bound i, compliance_bound i, financial_bound i, operational_bound i)

security_worse : (i j : AuditInputs) → IsWorse i j → score_security i ≤ score_security j
unfolding score_security
security_worse i j h = ground arith

compliance_worse : (i j : AuditInputs) → IsWorse i j → score_compliance i ≤ score_compliance j
unfolding score_compliance
compliance_worse i j h = ground arith

fails_worse :
    (pct : ℕ) (i j : AuditInputs)
    → IsWorse i j
    → fails_above pct i ≡ true
    → fails_above pct j ≡ true
fails_worse pct i j (some_runs, rate, _, _, _, _, _, _, _, _, _, _) e =
    let runs : 0 < i.total_runs = ground arith in
    let above : pct * i.total_runs < 100 * i.failed_runs = ground arith in
    let after =
      above_worse pct 100 i.failed_runs i.total_runs j.failed_runs j.total_runs rate
        (some_runs runs) above in
    ground (arith, after, some_runs runs)

financial_worse : (i j : AuditInputs) → IsWorse i j → score_financial i ≤ score_financial j
unfolding score_financial
financial_worse i j h = ground (
  arith,
  fails_worse 25 i j h,
  fails_worse 15 i j h,
  fails_worse 8 i j h,
  fails_worse 3 i j h,
  fails_worse 1 i j h,
)

failover_worse : (m n : ℕ) → m ≤ n → failover_points m ≤ failover_points n
unfolding failover_points
failover_worse m n h = ground arith

slow_worse : (m n : ℕ) → m ≤ n → slow_points m ≤ slow_points n
unfolding slow_points
slow_worse m n h = ground arith

mean_worse : (c m a n b : ℕ) → m ≤ n → (m ≡ 0 → a ≡ 0) → a * n ≤ b * m → c * m < a → c * n < b
mean_worse c zero a n b le none_slow mean above = absurd (omega (arith, none_slow refl, above))
mean_worse c (suc m) a n b le none_slow mean above =
    let after = above_worse c 1 a (suc m) b n mean (omega arith) (omega arith) in omega arith

duration_worse :
    (m a n b : ℕ)
    → m ≤ n
    → (m ≡ 0 → a ≡ 0)
    → a * n ≤ b * m
    → duration_points m a ≤ duration_points n b
unfolding duration_points
duration_worse m a n b le none_slow mean =
    let long = mean_worse 500 m a n b le none_slow mean in
    let short = mean_worse 200 m a n b le none_slow mean in ground (arith, long, short)

integrity_worse : (a b : Bool) → (b ≡ true → a ≡ true) → integrity_points a ≤ integrity_points b
unfolding integrity_points
integrity_worse a b h = ground arith

operational_worse : (i j : AuditInputs) → IsWorse i j → score_operational i ≤ score_operational j
unfolding score_operational
operational_worse i j (_, _, _, _, _, _, more, none_slow, mean, _, failovers, broken) =
    let duration = duration_worse i.slow_count i.slow_duration _ _ more none_slow mean in
    let slow = slow_worse _ _ more in
    let integrity = integrity_worse i.db_integrity_ok j.db_integrity_ok broken in
    let failover = failover_worse _ _ failovers in
    min_worse (operational_points i) (operational_points j) 100 (omega arith)

-- Worse figures never lower the composite score.
composite_worse :
    (i j : AuditInputs)
    → IsWorse i j
    → composite_score (component_scores i) ≤ composite_score (component_scores j)
unfolding composite_score component_scores
composite_worse i j h = omega (
  arith,
  operational_worse i j h,
  security_worse i j h,
  compliance_worse i j h,
  financial_worse i j h,
)

-- The discount of a score, none counting as 0.
abbrev pub percent_of : ℕ → ℕ
percent_of score = default_to (discount_for_band (derive_risk_band score)) 0

percent_worse : (m n : ℕ) → m ≤ n → percent_of n ≤ percent_of m
unfolding discount_for_band derive_risk_band
percent_worse m n h = ground arith

-- Figures with payouts where there were some, no lower rate of failed ones, no lower mean duration
-- of the slow queries, which is none where there are none, no other count lower (the number of slow
-- queries among them) and no integrity regained never lower the composite score, which is at most
-- 97, and never raise the discount.
pub score-monotone :
    (i j : AuditInputs)
    → IsWorse i j
    → let m = composite_score (component_scores i) in
      let n = composite_score (component_scores j) in
      (m ≤ n) × (n ≤ 97) × (percent_of n ≤ percent_of m)
score-monotone i j h =
    let worse = composite_worse i j h in (worse, composite_bound j, percent_worse _ _ worse)
