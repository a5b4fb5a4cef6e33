-- ===== src/Commercial/Commitment/Laws.antt =====
-- The amounts of a commitment.
use caas_lite.Prelude.{ℕ, ◌+◌, ◌*◌, ◌≤◌, ◌≡◌, Option, none, some, arith}
use caas_lite.Commercial.Money.{round_cents, tax_cents}
use caas_lite.Commercial.Tables.{Subscription, Registry, Token, Tables}
use caas_lite.Commercial.Commitment.{
  amounts, Amounts, Rounding, commitment_with, Part, premium_part, discount_part, exact,
  discount_of, annual_premium, commitment, MonthlyCommitmentResult,
}

abbrev pub charges : MonthlyCommitmentResult → ℕ
charges c = c.base_fee_usd + c.overage_runs_usd + c.overage_monitors_usd + c.insurance_premium_usd

-- The exact amounts, rounded, fit together.
abbrev pub IsExact : MonthlyCommitmentResult → Type 0
IsExact c =
    (c.total_usd ≡ c.subtotal_usd + c.tax_usd)
    × (charges c ≤ c.subtotal_usd + c.premium_discount_usd + 2)
    × (c.subtotal_usd + c.premium_discount_usd ≤ charges c + 2)

-- So do the program's amounts, within cents.
abbrev pub IsCoherent : MonthlyCommitmentResult → Type 0
IsCoherent c =
    (c.premium_discount_usd ≤ c.insurance_premium_usd)
    × (c.total_usd ≤ c.subtotal_usd + c.tax_usd + 1)
    × (c.subtotal_usd + c.tax_usd ≤ c.total_usd + 1)
    × (charges c ≤ c.subtotal_usd + c.premium_discount_usd + 3)
    × (c.subtotal_usd + c.premium_discount_usd ≤ charges c + 3)
    × (1000 * c.tax_usd ≤ 75 * c.subtotal_usd + 540)
    × (75 * c.subtotal_usd ≤ 1000 * c.tax_usd + 540)

-- A billion dollars.
abbrev pub double_limit : ℕ
double_limit = 120000 * 1000000000

-- What doubles keep up to that amount: a result is within half a cent and a grain of what it rounds,
-- and a discount that is not above the premium is not rounded to above it.
pub record IsRounding (r : Rounding) : Type 0 where
  pub near :
      (s : Subscription) (a : Amounts) (p : Part) (g : ℕ)
      → g ≤ double_limit
      → (1200 * r.cents s a p g ≤ g + 601) × (g ≤ 1200 * r.cents s a p g + 601)
  pub near_tax :
      (s : Subscription) (a : Amounts) (g : ℕ)
      → g ≤ double_limit
      → (1200000 * r.tax s a g ≤ 75 * g + 601000) × (75 * g ≤ 1200000 * r.tax s a g + 601000)
  pub ordered :
      (s : Subscription) (a : Amounts)
      → a.discount ≤ a.premium
      → r.cents s a discount_part a.discount ≤ r.cents s a premium_part a.premium

pub exact-IsRounding : IsRounding exact
unfolding round_cents tax_cents
exact-IsRounding = record {
  near = λ _ _ _ g _. (omega arith, omega arith);
  near_tax = λ _ _ g _. (omega arith, omega arith);
  ordered = λ s a h. omega (arith, h);
}

discount_le : (token : Option Token) (premium : ℕ) → discount_of token premium ≤ premium
discount_le none premium = omega arith
discount_le (some k) premium = ground arith

pub commitment-IsExact :
    (s : Subscription) (policy : Option Registry) (token : Option Token)
    → IsExact (commitment s (amounts s policy token))
unfolding commitment_with amounts round_cents tax_cents
commitment-IsExact s policy token = ground (arith, discount_le token (annual_premium policy))

-- The amounts before the discount.
abbrev pub gross : Amounts → ℕ
gross a = a.base + a.runs + a.monitors + a.premium
