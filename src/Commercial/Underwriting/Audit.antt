-- ===== src/Commercial/Underwriting/Audit.antt =====
-- The ways an audit can end.
use caas_lite.Prelude.{
  ℕ, ◌≡◌, String, Bool, true, false, none, some, List, str_eq, any, Bool-cases, Option-cases, inl,
  inr,
}
use caas_lite.Commercial.Tables.{
  Registry, Snapshot, Token, Tables, constraint, no_registry, Result, err, Platform,
}
use caas_lite.Commercial.Underwriting.{
  find_registry, RiskResult, assess, new_snapshot, new_token, close_audit, with_snapshot, emitted,
  succeeded, write_token, write_audit, compute_underwriting_risk_score,
}

abbrev pub has_token : String → List Token → Bool
has_token id ks = any (λ (k : Token). str_eq k.id id) ks

abbrev pub has_snapshot : String → List Snapshot → Bool
has_snapshot id ss = any (λ (s : Snapshot). str_eq s.id id) ss

-- What holds at each end of an audit holds of it: without the registry's entry, with an id that is
-- taken, without a discount, and with a token.
pub audit_cases :
    (P : Result RiskResult × Tables → Type 0) (pf : Platform)
    (tenant registry snapshot token : String) (now : ℕ) (t : Tables)
    → (find_registry registry tenant t.registries ≡ none → P (err no_registry, t))
    → ((r : Registry)
        → find_registry registry tenant t.registries ≡ some r
        → let a = assess tenant now t in
          let s = new_snapshot pf snapshot r now a in
          (has_snapshot s.id t.snapshots ≡ true → P (err constraint, t))
          × (has_snapshot s.id t.snapshots ≡ false
              → a.pct ≡ none
              → P (succeeded (close_audit pf r a s none now (with_snapshot s t))))
          × ((pct : ℕ)
              → has_snapshot s.id t.snapshots ≡ false
              → a.pct ≡ some pct
              → (has_token token t.tokens ≡ true → P (err constraint, with_snapshot s t))
                × (has_token token t.tokens ≡ false
                    → P (
                        succeeded (
                          close_audit pf r a s (some token) now (
                            emitted
                              (new_token pf token s.id r pct now)
                              r
                              s
                              (with_snapshot s t)))))))
    → P (compute_underwriting_risk_score pf tenant registry snapshot token now t)
unfolding compute_underwriting_risk_score write_audit write_token
audit_cases P pf tenant registry snapshot token now t missing found =
    elim (Option-cases (find_registry registry tenant t.registries)) [
      | inl h ↦ rw (h, compute_underwriting_risk_score) (missing h)
      | inr (r, h) ↦
          let (clash, bare, with_token) = found r h in
          let a = assess tenant now t in
          let s = new_snapshot pf snapshot r now a in
          rw (h, compute_underwriting_risk_score)
            (elim (Bool-cases (has_snapshot s.id t.snapshots)) [
              | inl e ↦ rw (e, write_audit) (clash e)
              | inr e ↦
                  rw (e, write_audit)
                    (elim (Option-cases a.pct) [
                      | inl p ↦ rw (p, write_token) (bare e p)
                      | inr (pct, p) ↦
                          rw (p, write_token)
                            (elim (Bool-cases (has_token token t.tokens)) [
                              | inl k ↦ rw (k) ((with_token pct e p).0 k)
                              | inr k ↦ rw (k) ((with_token pct e p).1 k)
                            ])
                    ])
            ])
    ]
