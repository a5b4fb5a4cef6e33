-- ===== src/Badge/Secrets.antt =====
-- src/lib/badge-secrets.ts: which secrets are in force, and badge signatures under them.
pub mod Laws
use Prim.Native.Char.{code}
use Prim.Native.String
use Prim.Native.String.{◌∷◌}
use caas_lite.Prelude.{
  ℕ, ◌+◌, String, Bool, true, false, ◌&&◌, not, Option, none, some, if◌then◌else◌, str_eq, ltb,
  ◌==◌,
}
use caas_lite.Database.{BadgeState, green, amber, red, Runtime}

-- The environment variables read.
pub record Env : Type 0 where
  pub current : Option String
  pub previous : Option String
  pub legacy : Option String

pub record ResolvedSecrets : Type 0 where
  pub current : String
  pub previous : Option String
  pub is_dev_fallback : Bool

abbrev pub dev_fallback_secret : String
dev_fallback_secret = "dev-only-badge-secret-do-not-ship"

-- A variable that is set to something.
abbrev pub non_empty : Option String → Option String
non_empty none = none
non_empty (some s) = if str_eq s "" then none else some s

-- The choice between the variables, those that are set to nothing left out.
unfoldable pub resolve_from : Option String → Option String → Option String → ResolvedSecrets
resolve_from (some c) p l = record { current = c; previous = p; is_dev_fallback = false }
resolve_from none p (some l) = record { current = l; previous = none; is_dev_fallback = false }
resolve_from none p none = record {
  current = dev_fallback_secret;
  previous = none;
  is_dev_fallback = true;
}

unfoldable pub resolve : Env → ResolvedSecrets
resolve env = resolve_from (non_empty env.current) (non_empty env.previous) (non_empty env.legacy)

-- `getBadgeSecrets` on the module's cache.
unfoldable pub get_badge_secrets :
    Env → Option ResolvedSecrets → ResolvedSecrets × Option ResolvedSecrets
get_badge_secrets env (some cached) = (cached, some cached)
get_badge_secrets env none = (resolve env, some (resolve env))

unfoldable pub invalidate_cache : Option ResolvedSecrets → Option ResolvedSecrets
invalidate_cache cached = none

abbrev pub badge_state_text : BadgeState → String
badge_state_text green = "green"
badge_state_text amber = "amber"
badge_state_text red = "red"

-- `parts.join("|")`
unfoldable pub badge_text : String → String → String → String
badge_text tenant state changed =
    String.◌++◌ tenant (String.◌++◌ "|" (String.◌++◌ state (String.◌++◌ "|" changed)))

-- The lengths of a text in UTF-16 units, as `.length` counts, and in UTF-8 bytes, as a Buffer does.
unfoldable pub utf16_length : String → ℕ
utf16_length String.[] = 0
utf16_length (c ∷ s) = (if ltb (code c) 65536 then 1 else 2) + utf16_length s

unfoldable pub utf8_length : String → ℕ
utf8_length String.[] = 0
utf8_length (c ∷ s) =
    (if ltb (code c) 128
      then 1
      else if ltb (code c) 2048
      then 2
      else if ltb (code c) 65536
      then 3
      else 4)
    + utf8_length s

-- `safeEqual`; `none` is the RangeError that `timingSafeEqual` throws on buffers of two lengths.
unfoldable pub safe_equal : String → String → Option Bool
safe_equal a b =
    if not (utf16_length a == utf16_length b)
    then some false
    else if utf8_length a == utf8_length b
    then some (str_eq a b)
    else none

pub data SignatureMatch : Type 0 where
  current previous invalid : SignatureMatch

module _ (rt : Runtime) where
  open rt use {hmac, sha256, iso}

  -- `signBadgeState`, whose last argument is an ISO text.
  unfoldable pub sign_badge_state : ResolvedSecrets → String → BadgeState → ℕ → String
  sign_badge_state s tenant state changed =
      hmac s.current (badge_text tenant (badge_state_text state) (iso changed))

  -- The comparison with the previous secret.
  unfoldable pub match_previous : ResolvedSecrets → String → String → Option SignatureMatch
  match_previous s presented text = elim s.previous [
    | none ↦ some invalid
    | some p ↦ elim (safe_equal presented (hmac p text)) [
      | none ↦ none
      | some same ↦ some (if same then previous else invalid)
    ]
  ]

  -- `verifyBadgeSignature`; `none` is the error that `safeEqual` throws.
  unfoldable pub verify_badge_signature :
      ResolvedSecrets → String → String → String → String → Option SignatureMatch
  verify_badge_signature s presented tenant state changed =
      let text = badge_text tenant state changed in
      elim (safe_equal presented (hmac s.current text)) [
        | none ↦ none
        | some same ↦ if same then some current else match_previous s presented text
      ]

  unfoldable pub get_current_secret_fingerprint : ResolvedSecrets → String
  get_current_secret_fingerprint s = sha256 s.current
