-- ===== src/Commercial/Tokens/Laws.antt =====
-- When `applyPremiumReductionToken` succeeds, and what it leaves behind.
use caas_lite.Prelude.{
  ℕ, ◌≤◌, ◌≡◌, ◌⊎◌, ◌↔◌, refl, sym, ap, ◌∙◌, inl, inr, String, none, some, eq_iff, arith,
  Option-cases,
}
use mathlib.Core.Path.{subst}
use caas_lite.Commercial.Tables.{
  Ledger, LedgerStatus, Token, TokenStatus, Tables, ledger_not_found, token_not_found, ok, err,
  ◌>>=◌, Platform,
}
use caas_lite.Commercial.Digest.{token_signature}
use caas_lite.Commercial.Results.{bind-ok, ok-injective}
use caas_lite.Commercial.Tokens.{
  find_ledger, find_token, open_ledger, issued_token, check_token, verify_token, save_discount,
  apply_premium_reduction_token,
}

-- What is checked of a ledger and a token.
abbrev pub MayApply : Platform → ℕ → Ledger → Token → Type 0
MayApply pf now l k =
    ((l.status ≡ LedgerStatus.draft) ⊎ (l.status ≡ LedgerStatus.issued))
    × (k.status ≡ TokenStatus.issued)
    × (k.tenant_id ≡ l.tenant_id)
    × (now ≤ k.expires_at)
    × (k.token_signature
        ≡ token_signature pf k.id k.tenant_id k.discount_pct k.snapshot_id k.expires_at)

open_ledger-ok :
    (l l' : Ledger)
    → open_ledger l ≡ ok l'
    → (l ≡ l') × ((l.status ≡ LedgerStatus.draft) ⊎ (l.status ≡ LedgerStatus.issued))
unfolding open_ledger
open_ledger-ok l l' e = ground arith

issued_token-ok :
    (k k' : Token) → issued_token k ≡ ok k' → (k ≡ k') × (k.status ≡ TokenStatus.issued)
unfolding issued_token
issued_token-ok k k' e = ground arith

verify_token-ok :
    (pf : Platform) (l : Ledger) (now : ℕ) (k k' : Token)
    → verify_token pf l now k ≡ ok k'
    → (k ≡ k')
      × (k.tenant_id ≡ l.tenant_id)
      × (now ≤ k.expires_at)
      × (k.token_signature
          ≡ token_signature pf k.id k.tenant_id k.discount_pct k.snapshot_id k.expires_at)
unfolding verify_token
verify_token-ok pf l now k k' e = ground (
  arith,
  eq_iff k.tenant_id l.tenant_id,
  eq_iff k.token_signature
      (token_signature pf k.id k.tenant_id k.discount_pct k.snapshot_id k.expires_at),
)

verify_token-may :
    (pf : Platform) (l : Ledger) (now : ℕ) (k : Token)
    → MayApply pf now l k
    → verify_token pf l now k ≡ ok k
unfolding verify_token
verify_token-may pf l now k (_, _, same, early, signed) = ground (
  arith,
  eq_iff k.tenant_id l.tenant_id,
  eq_iff k.token_signature
      (token_signature pf k.id k.tenant_id k.discount_pct k.snapshot_id k.expires_at),
)

check_token-ok :
    (pf : Platform) (l : Ledger) (id : String) (now : ℕ) (t : Tables) (k : Token)
    → ((l.status ≡ LedgerStatus.draft) ⊎ (l.status ≡ LedgerStatus.issued))
    → check_token pf l id now t ≡ ok k
    → (find_token id t.tokens ≡ some k) × MayApply pf now l k
unfolding check_token
check_token-ok pf l id now t k h e = elim (Option-cases (find_token id t.tokens)) [
  | inl g ↦
      let bad : check_token pf l id now t ≡ err token_not_found = rw (g, check_token) refl in
      absurd (ground arith)
  | inr (q, g) ↦
      let found : check_token pf l id now t ≡ (issued_token q >>= verify_token pf l now) =
        rw (g, check_token) refl in
      let (q', e1, e2) = bind-ok (issued_token q) _ k (sym found ∙ e) in
      let (same, status) = issued_token-ok q q' e1 in
      let (same', tenant, early, signed) = verify_token-ok pf l now q' k e2 in
      let all : q ≡ k = same ∙ same' in
      (
        g ∙ ap some all,
        subst (MayApply pf now l) same'
            (h, sym (ap (λ (x : Token). x.status) same) ∙ status, tenant, early, signed),
      )
]

check_token-may :
    (pf : Platform) (l : Ledger) (id : String) (now : ℕ) (t : Tables) (k : Token)
    → find_token id t.tokens ≡ some k
    → MayApply pf now l k
    → check_token pf l id now t ≡ ok k
unfolding issued_token check_token
check_token-may pf l id now t k g may =
    let status = may.1 in
    let opened : issued_token k ≡ ok k = ground arith in
    let found : check_token pf l id now t ≡ (issued_token k >>= verify_token pf l now) =
      rw (g, check_token) refl in
    found ∙ rw opened (verify_token-may pf l now k may)

module _ (pf : Platform) (ledger id : String) (now : ℕ) (t : Tables) where
  on_ledger :
      (l : Ledger)
      → find_ledger ledger t.ledgers ≡ some l
      → apply_premium_reduction_token pf ledger id now t ≡ (
          open_ledger l >>= λ l. check_token pf l id now t >>= λ k. ok (save_discount pf l k now t))
  unfolding apply_premium_reduction_token
  on_ledger l h = rw (h, apply_premium_reduction_token) refl

  no_ledger :
      find_ledger ledger t.ledgers ≡ none
      → apply_premium_reduction_token pf ledger id now t ≡ err ledger_not_found
  unfolding apply_premium_reduction_token
  no_ledger h = rw (h, apply_premium_reduction_token) refl

  -- What a call that succeeds has found.
  pub applied_from :
      (r : Ledger × Tables)
      → apply_premium_reduction_token pf ledger id now t ≡ ok r
      → (l : Ledger) × (k : Token) × (find_ledger ledger t.ledgers ≡ some l)
        × (find_token id t.tokens ≡ some k)
        × MayApply pf now l k
        × (r ≡ save_discount pf l k now t)
  applied_from r e = elim (Option-cases (find_ledger ledger t.ledgers)) [
    | inl h ↦ absurd (ground (arith, no_ledger h))
    | inr (l, h) ↦
        let (l1, e1, e2) = bind-ok (open_ledger l) _ r (sym (on_ledger l h) ∙ e) in
        let (same, status) = open_ledger-ok l l1 e1 in
        let (k, e3, e4) = bind-ok (check_token pf l1 id now t) _ r e2 in
        let status' =
          subst (λ (x : Ledger). (x.status ≡ LedgerStatus.draft) ⊎ (x.status ≡ LedgerStatus.issued))
            same status in
        let (found, may) = check_token-ok pf l1 id now t k status' e3 in
        (l1, k, h ∙ ap some same, found, may, sym (ok-injective e4))
  ]

  -- What passes the checks is applied.
  pub applied_to :
      (l : Ledger) (k : Token)
      → find_ledger ledger t.ledgers ≡ some l
      → find_token id t.tokens ≡ some k
      → MayApply pf now l k
      → apply_premium_reduction_token pf ledger id now t ≡ ok (save_discount pf l k now t)
  unfolding open_ledger
  applied_to l k h g may =
      let status = may.0 in
      let opened : open_ledger l ≡ ok l = ground arith in
      on_ledger l h ∙ rw (opened, check_token-may pf l id now t k g may) refl

  -- A token is applied to an invoice exactly if both are found, the invoice is a draft or issued,
  -- and the token is issued, the same tenant's, not expired and rightly signed.
  pub apply_premium_reduction_token_iff :
      ((r : Ledger × Tables) × (apply_premium_reduction_token pf ledger id now t ≡ ok r)) ↔ (
        (l : Ledger) × (k : Token) × (find_ledger ledger t.ledgers ≡ some l)
        × (find_token id t.tokens ≡ some k)
        × MayApply pf now l k)
  apply_premium_reduction_token_iff = (
    (λ (r, e). let (l, k, h, g, may, _) = applied_from r e in (l, k, h, g, may)),
    (λ (l, k, h, g, may). (save_discount pf l k now t, applied_to l k h g may)),
  )
