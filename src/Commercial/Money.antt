-- ===== src/Commercial/Money.antt =====
-- Amounts of src/services/commercialEngine.ts, which holds them in doubles, as whole numbers.
-- A fee or a rate counts ten-thousandths of a dollar, what an invoice shows counts cents, and
-- in between a grain is the 120,000th of a dollar, so that a twelfth of a premium is whole.
use caas_lite.Prelude.{ℕ, ◌+◌, ◌-◌, ◌*◌, ◌/◌, ◌≤◌, ◌<◌, ◌≡◌, if◌then◌else◌, leb, arith}
use caas_lite.Prelude.Int.{ℤ, pos, negsuc}

abbrev pub grains_per_cent : ℕ
grains_per_cent = 1200

-- Ten-thousandths as grains.
abbrev pub to_grains : ℕ → ℕ
to_grains n = 12 * n

abbrev pub cents_to_grains : ℕ → ℕ
cents_to_grains n = grains_per_cent * n

abbrev pub min : ℕ → ℕ → ℕ
min a b = if leb a b then a else b

-- `Math.round(x * 100) / 100` of an amount in grains, as cents.
unfoldable pub round_cents : ℕ → ℕ
round_cents g = (g + 600) / grains_per_cent

-- `Math.round(x * TAX_RATE * 100) / 100` for the rate of 0.075.
unfoldable pub tax_cents : ℕ → ℕ
tax_cents g = (g * 75 + 600000) / 1200000

-- `Math.round` of the quotient of an integer by a number: half goes up, also below zero.
unfoldable pub round_ratio : ℤ → ℕ → ℤ
round_ratio (pos n) d = pos ((2 * n + d) / (2 * d))
round_ratio (negsuc n) d = if leb (2 * n + 2) d then pos 0 else negsuc ((2 * n + 1 - d) / (2 * d))

-- The whole cent nearest to the exact amount; a tie goes up.
pub round_cents_nearest :
    (g : ℕ)
    → (cents_to_grains (round_cents g) ≤ g + 600) × (g < cents_to_grains (round_cents g) + 600)
unfolding round_cents
round_cents_nearest g = omega arith

pub round_cents-add : (g c : ℕ) → round_cents (g + cents_to_grains c) ≡ round_cents g + c
unfolding round_cents
round_cents-add g c = omega arith

pub round_cents-whole : (c : ℕ) → round_cents (cents_to_grains c) ≡ c
unfolding round_cents
round_cents-whole c = omega arith
