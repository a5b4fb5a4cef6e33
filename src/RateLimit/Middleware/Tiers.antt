-- ===== src/RateLimit/Middleware/Tiers.antt =====
-- The tiers and their limits, and the headers of a request.
use caas_lite.Prelude.{
  ℕ, String, Option, none, some, List, [], ◌∷◌, if◌then◌else◌, str_eq, to_upper,
}

pub data Tier : Type 0 where
  pay_as_you_go growth enterprise : Tier

pub record TierConfig : Type 0 where
  pub requests_per_minute : ℕ
  pub burst_capacity : ℕ
  pub label : String

-- `Partial<TierConfig>`; a tier without an override has one with no field.
pub record Override : Type 0 where
  pub requests_per_minute : Option ℕ
  pub burst_capacity : Option ℕ
  pub label : Option String

unfoldable pub tier_configs : Tier → TierConfig
tier_configs pay_as_you_go = record {
  requests_per_minute = 60;
  burst_capacity = 15;
  label = "Pay-As-You-Go";
}
tier_configs growth = record { requests_per_minute = 300; burst_capacity = 75; label = "Growth" }
tier_configs enterprise = record {
  requests_per_minute = 1500;
  burst_capacity = 300;
  label = "Enterprise";
}

-- `VALID_TIERS.has(raw.toUpperCase())`; an empty header is in no tier.
unfoldable pub parse_tier : String → Option Tier
parse_tier raw =
    let upper = to_upper raw in
    if str_eq upper "PAY_AS_YOU_GO"
    then some pay_as_you_go
    else if str_eq upper "GROWTH"
    then some growth
    else if str_eq upper "ENTERPRISE"
    then some enterprise
    else none

-- `req.headers[name]`: Node keeps the names in lower case.
unfoldable pub header : String → List (String × String) → Option String
header k [] = none
header k ((j, v) ∷ hs) = if str_eq j k then some v else header k hs
