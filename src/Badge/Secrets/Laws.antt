-- ===== src/Badge/Secrets/Laws.antt =====
-- Signing, verifying and rotating.
use caas_lite.Prelude.{
  ℕ, ◌≡◌, ◌≢◌, ◌↔◌, String, true, Option, none, some, inl, inr, str_eq, eq_iff, arith, Option-cases,
  if◌then◌else◌,
}
use caas_lite.Database.{BadgeState, Runtime}
use caas_lite.Badge.Secrets.{
  Env, ResolvedSecrets, non_empty, resolve_from, dev_fallback_secret, resolve, badge_text,
  badge_state_text, utf16_length, utf8_length, safe_equal, current, previous, sign_badge_state,
  match_previous, verify_badge_signature,
}

non_empty_sound : (o : Option String) → non_empty o ≢ some ""
non_empty_sound none = cc
non_empty_sound (some s) = ground (arith, eq_iff s "")

resolve_from_sound :
    (c p l : Option String)
    → c ≢ some ""
    → p ≢ some ""
    → l ≢ some ""
    → let r = resolve_from c p l in
      (r.current ≢ "")
      × (r.previous ≢ some "")
      × (r.previous ≢ none → c ≡ some r.current)
      × (r.is_dev_fallback ≡ true → (c ≡ none) × (l ≡ none))
unfolding resolve_from
resolve_from_sound (some c) p l hc hp hl = ground arith
resolve_from_sound none p (some l) hc hp hl = ground arith
resolve_from_sound none p none hc hp hl = ground (arith, eq_iff dev_fallback_secret "")

-- The secret for signing is never empty, a previous secret is never empty and never used without
-- an explicit current one, and the fallback secret is in force only if neither is configured.
pub resolve_sound :
    (env : Env)
    → let r = resolve env in
      (r.current ≢ "")
      × (r.previous ≢ some "")
      × (r.previous ≢ none → non_empty env.current ≡ some r.current)
      × (r.is_dev_fallback ≡ true → (non_empty env.current ≡ none) × (non_empty env.legacy ≡ none))
unfolding resolve
resolve_sound env =
    resolve_from_sound _ _ _ (non_empty_sound env.current) (non_empty_sound env.previous)
      (non_empty_sound env.legacy)

safe_equal-true_iff : (a b : String) → (safe_equal a b ≡ some true) ↔ (a ≡ b)
unfolding safe_equal
safe_equal-true_iff a b =
    ((λ e. ground (arith, eq_iff a b)), (λ e. rw e (ground (arith, eq_iff b b))))

module _ (rt : Runtime) (s : ResolvedSecrets) (presented tenant state changed : String) where
  abbrev text : String
  text = badge_text tenant state changed

  -- A signature is accepted as current exactly if it is the text's digest under the current secret.
  pub verify_current_iff :
      (verify_badge_signature rt s presented tenant state changed ≡ some current)
      ↔ (presented ≡ rt.hmac s.current text)
  unfolding verify_badge_signature match_previous
  verify_current_iff = (
    (λ e. ground (arith, safe_equal-true_iff presented (rt.hmac s.current text))),
    (λ e. ground (arith, safe_equal-true_iff presented (rt.hmac s.current text))),
  )

  -- A signature that is accepted as previous is the text's digest under a previous secret that is
  -- configured.
  pub verify_previous_sound :
      verify_badge_signature rt s presented tenant state changed ≡ some previous
      → (p : String) × (s.previous ≡ some p) × (presented ≡ rt.hmac p text)
  unfolding verify_badge_signature match_previous
  verify_previous_sound e = elim (Option-cases s.previous) [
    | inl none_set ↦ ground arith
    | inr (p, is_set) ↦
        (p, is_set, ground (arith, is_set, safe_equal-true_iff presented (rt.hmac p text)))
  ]

-- Digests are hexadecimal texts of one length.
abbrev pub HasDigests : Runtime → Type 0
HasDigests rt =
    (k m : String) → (utf16_length (rt.hmac k m) ≡ 64) × (utf8_length (rt.hmac k m) ≡ 64)

-- If digests are texts of 64 units and bytes, a badge signed under one secret still verifies after
-- a rotation that keeps it as the previous one: as previous, or as current where both digests agree.
pub verify-sign_rotated :
    (rt : Runtime) (old new : ResolvedSecrets) (tenant : String) (state : BadgeState) (changed : ℕ)
    → HasDigests rt
    → new.previous ≡ some old.current
    → let text = badge_text tenant (badge_state_text state) (rt.iso changed) in
      verify_badge_signature rt new
        (sign_badge_state rt old tenant state changed)
        tenant
        (badge_state_text state)
        (rt.iso changed)
      ≡ some (
          if str_eq (rt.hmac old.current text) (rt.hmac new.current text)
          then current
          else previous)
unfolding verify_badge_signature match_previous sign_badge_state safe_equal
verify-sign_rotated rt old new tenant state changed d e =
    let text = badge_text tenant (badge_state_text state) (rt.iso changed) in
    ground (
      arith,
      e,
      d old.current text,
      d new.current text,
      eq_iff (rt.hmac old.current text) (rt.hmac old.current text),
    )
