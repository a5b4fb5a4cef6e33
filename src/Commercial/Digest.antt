-- ===== src/Commercial/Digest.antt =====
-- The texts that src/services/commercialEngine.ts signs, and the choice of its secret.
use caas_lite.Prelude.{
  ℕ, String, Bool, false, Option, none, some, List, [], ◌∷◌, if◌then◌else◌, str_eq,
}
use caas_lite.Prelude.Int.{ℤ}
use caas_lite.Commercial.Tables.{SubscriptionTier, LedgerStatus, Platform}
use Prim.Native.String

-- The environment variables that `loadHmacSecret` reads.
pub record SecretEnv : Type 0 where
  pub payout_hmac_secret : Option String
  pub node_env : Option String

abbrev is_production : Option String → Bool
is_production none = false
is_production (some e) = str_eq e "production"

abbrev fallback : Option String → Option String
fallback e = if is_production e then none else some "dev_hmac_secret"

-- `loadHmacSecret`; `none` is its exception. An empty secret counts as unset.
unfoldable pub load_hmac_secret : SecretEnv → Option String
load_hmac_secret env = elim env.payout_hmac_secret [
  | none ↦ fallback env.node_env
  | some s ↦ if str_eq s "" then fallback env.node_env else some s
]

-- Parts with bars between them.
abbrev pub bars : List String → String
bars [] = ""
bars (s ∷ []) = s
bars (s ∷ t ∷ rest) = String.◌++◌ s (String.◌++◌ "|" (bars (t ∷ rest)))

module _ (pf : Platform) where
  open pf use {hmac, decimal, amount_text, cents_text, iso, tier_text, status_text}

  unfoldable pub subscription_integrity_hash :
      String → String → SubscriptionTier → ℕ → String → String
  subscription_integrity_hash id tenant tier fee start =
      hmac (bars (id ∷ tenant ∷ tier_text tier ∷ amount_text fee ∷ start ∷ []))

  unfoldable pub invoice_signature : String → ℤ → String → String → LedgerStatus → String
  invoice_signature number total start end status =
      hmac (bars (number ∷ cents_text total ∷ start ∷ end ∷ status_text status ∷ []))

  unfoldable pub token_signature : String → String → ℕ → String → ℕ → String
  token_signature id tenant pct snapshot expires =
      hmac (bars (id ∷ tenant ∷ decimal pct ∷ snapshot ∷ iso expires ∷ []))
