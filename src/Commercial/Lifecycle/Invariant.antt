-- ===== src/Commercial/Lifecycle/Invariant.antt =====
-- The tokens over any sequence of the engine's calls.
use caas_lite.Prelude.{
  ℕ, ◌≤◌, ◌≡◌, refl, sym, inl, inr, String, false, Option, none, some, List, [], ◌∷◌, ◌++◌, eq_iff,
  arith, In, Option-cases,
}
use caas_lite.Database.{Fraction}
use caas_lite.Commercial.Tables.{Token, Tables, Subscription, constraint, Result, ok, err, Platform}
use caas_lite.Commercial.Results.{bind-ok, ok-injective, guarded-ok}
use caas_lite.Commercial.Subscriptions.{
  NewSubscription, create_subscription, record_validation_run, need_subscription, find_subscription,
}
use caas_lite.Commercial.Commitment.{best_token}
use caas_lite.Commercial.Commitment.Choice.{best_token-some}
use caas_lite.Commercial.Invoices.{update_token, spent, spend, generate_invoice, new_ledger}
use caas_lite.Commercial.Invoices.Laws.{generated}
use caas_lite.Commercial.Underwriting.{
  NewPolicy, register_policy, new_token, new_snapshot, assess, close_audit, revoke_others,
  compute_underwriting_risk_score, RiskResult,
}
use caas_lite.Commercial.Underwriting.Audit.{audit_cases, has_token}
use caas_lite.Commercial.Tokens.{find_token, save_discount, apply_premium_reduction_token}
use caas_lite.Commercial.Tokens.Laws.{applied_from}
use caas_lite.Commercial.System.{
  Call, subscribe, run, invoice, register, audit, apply, after_call, step, steps,
}
use caas_lite.Commercial.Lifecycle.{
  LivesOn, LivesOn-refl, LivesOn-trans, LivesOn-append, Without, IsKeyed, IsOpen, keyed-IsOpen,
  spent-LivesOn, spent-IsKeyed, revoke_others-LivesOn, revoke_others-IsKeyed, append_one-IsKeyed,
}
use caas_lite.Commercial.Lifecycle.Single.{issued_count, spent-count, supersede-count}

-- Every token has an id of its own, and no tenant has two issued tokens.
abbrev pub IsSound : List Token → Type 0
IsSound ks = IsKeyed ks × ((o : String) → issued_count o ks ≤ 1)

-- A step from one list of tokens to another that keeps what is wanted.
abbrev pub IsGood : List Token → List Token → Type 0
IsGood ks qs = IsSound qs × LivesOn ks qs

IsGood-refl : (ks : List Token) → IsSound ks → IsGood ks ks
IsGood-refl ks h = (h, LivesOn-refl ks)

spent-IsGood :
    (id ledger : String) (now : ℕ) (ks : List Token)
    → IsSound ks
    → IsOpen id ks
    → IsGood ks (update_token id (spent ledger now) ks)
spent-IsGood id ledger now ks (keyed, single) h = (
  (
    spent-IsKeyed id ledger now ks keyed,
    (λ o. omega (arith, spent-count o id ledger now ks, single o)),
  ),
  spent-LivesOn id ledger now ks h,
)

supersede-IsGood :
    (tenant : String) (k : Token) (ks : List Token)
    → IsSound ks
    → k.tenant_id ≡ tenant
    → Without k.id ks
    → IsGood ks (revoke_others tenant k.id (ks ++ k ∷ []))
supersede-IsGood tenant k ks (keyed, single) e w = (
  (
    revoke_others-IsKeyed tenant k.id (ks ++ k ∷ []) (append_one-IsKeyed k ks keyed w),
    (λ o. supersede-count o tenant k ks e w (single o)),
  ),
  LivesOn-trans ks (ks ++ k ∷ []) _ (LivesOn-append ks (k ∷ []))
      (revoke_others-LivesOn tenant k.id (ks ++ k ∷ [])),
)

has_token-Without : (id : String) (ks : List Token) → has_token id ks ≡ false → Without id ks
has_token-Without id [] h = tt
has_token-Without id (k ∷ ks) h =
    ((λ e. ground (arith, eq_iff k.id id)), has_token-Without id ks (ground arith))

find_token-In : (id : String) (ks : List Token) (k : Token) → find_token id ks ≡ some k → In k ks
unfolding find_token
find_token-In id [] k e = cc
find_token-In id (q ∷ ks) k e = ground (arith, find_token-In id ks k)

-- A call that answers leaves good tokens, one that throws leaves them as they are.
after_call-IsGood :
    {A : Type 0} (t : Tables) (f : A → Tables) (r : Result A)
    → IsSound t.tokens
    → ((a : A) → r ≡ ok a → IsGood t.tokens (f a).tokens)
    → IsGood t.tokens (after_call t f r).tokens
after_call-IsGood t f (ok a) h k = k a refl
after_call-IsGood t f (err e) h k = IsGood-refl t.tokens h

spend-IsGood :
    (tenant ledger : String) (now : ℕ) (ks : List Token) (o : Option Token)
    → best_token tenant now ks ≡ o
    → IsSound ks
    → IsGood ks (spend o ledger now ks)
spend-IsGood tenant ledger now ks none e h = IsGood-refl ks h
spend-IsGood tenant ledger now ks (some k) e h =
    let (here, usable) = best_token-some tenant now ks k e in
    spent-IsGood k.id ledger now ks h (keyed-IsOpen ks k h.0 here (ground arith))

create_subscription-tokens :
    (pf : Platform) (p : NewSubscription) (id : String) (now : ℕ) (t : Tables)
    (r : Subscription × Tables)
    → create_subscription pf p id now t ≡ ok r
    → r.1.tokens ≡ t.tokens
unfolding create_subscription
create_subscription-tokens pf p id now t r e =
    elim (Option-cases (find_subscription p.tenant_id t.subscriptions)) [
      | inl none_yet ↦ ground arith
      | inr (s, found) ↦ ground arith
    ]

module _ (pf : Platform) (t : Tables) (h : IsSound t.tokens) where
  audit-IsGood :
      (tenant registry snapshot token : String) (now : ℕ)
      → IsGood t.tokens
          (compute_underwriting_risk_score pf tenant registry snapshot token now t).1.tokens
  unfolding new_token close_audit
  audit-IsGood tenant registry snapshot token now =
      audit_cases (λ (w : Result RiskResult × Tables). IsGood t.tokens w.1.tokens) pf tenant
        registry snapshot token now t (λ _. IsGood-refl t.tokens h)
        (λ r found. (
          (λ _. IsGood-refl t.tokens h),
          (λ _ _. IsGood-refl t.tokens h),
          (λ pct _ _. (
            (λ _. IsGood-refl t.tokens h),
            (λ free.
                supersede-IsGood r.tenant_id
                  (new_token pf token (new_snapshot pf snapshot r now (assess tenant now t)).id r
                    pct now)
                  t.tokens h refl (has_token-Without token t.tokens free)),
          )),
        ))

  invoice-IsGood :
      (tenant : String) (fx : Fraction) (currency id : String) (evaluated now : ℕ)
      → IsGood t.tokens (step pf t (invoice tenant fx currency id evaluated now)).tokens
  unfolding step new_ledger
  invoice-IsGood tenant fx currency id evaluated now =
      after_call-IsGood t _ (generate_invoice pf tenant fx currency id evaluated now t) h
        λ (l, items, t') e.
          let (s, _, _, _, _, final) =
            generated pf tenant fx currency id evaluated now t l items t' e in
          rw final (spend-IsGood tenant id now t.tokens (best_token tenant now t.tokens) refl h)

  apply-IsGood :
      (ledger token : String) (now : ℕ)
      → IsGood t.tokens (step pf t (apply ledger token now)).tokens
  unfolding step save_discount
  apply-IsGood ledger token now =
      after_call-IsGood t _ (apply_premium_reduction_token pf ledger token now t) h λ r e.
        let (l, k, _, found, may, same) = applied_from pf ledger token now t r e in
        rw same (
          spent-IsGood k.id l.id now t.tokens h
            (keyed-IsOpen t.tokens k h.0 (find_token-In token t.tokens k found) may.1))

  run-IsGood : (tenant : String) (now : ℕ) → IsGood t.tokens (step pf t (run tenant now)).tokens
  unfolding step record_validation_run
  run-IsGood tenant now = after_call-IsGood t _ (record_validation_run pf tenant now t) h λ r e.
      let (s, _, e2) = bind-ok (need_subscription pf tenant t) _ r e in
      rw (sym (ok-injective e2)) (IsGood-refl t.tokens h)

  subscribe-IsGood :
      (p : NewSubscription) (id : String) (now : ℕ)
      → IsGood t.tokens (step pf t (subscribe p id now)).tokens
  unfolding step create_subscription
  subscribe-IsGood p id now = after_call-IsGood t _ (create_subscription pf p id now t) h λ r e.
      let same = create_subscription-tokens pf p id now t r e in rw same (IsGood-refl t.tokens h)

  register-IsGood :
      (p : NewPolicy) (id : String) (now : ℕ)
      → IsGood t.tokens (step pf t (register p id now)).tokens
  unfolding step register_policy
  register-IsGood p id now =
      after_call-IsGood t _ (register_policy pf p id now t) h λ r e.
        let (_, same) = guarded-ok _ constraint _ r e in rw (sym same) (IsGood-refl t.tokens h)

  pub step-IsGood : (c : Call) → IsGood t.tokens (step pf t c).tokens
  unfolding step
  step-IsGood (subscribe p id now) = subscribe-IsGood p id now
  step-IsGood (run tenant now) = run-IsGood tenant now
  step-IsGood (invoice tenant fx currency id evaluated now) =
      invoice-IsGood tenant fx currency id evaluated now
  step-IsGood (register p id now) = register-IsGood p id now
  step-IsGood (audit tenant registry snapshot token now) =
      audit-IsGood tenant registry snapshot token now
  step-IsGood (apply ledger token now) = apply-IsGood ledger token now

-- Over any sequence of calls every token keeps its id, its tenant and its value, its status only
-- moves from issued to applied or to revoked, an applied token does not change at all, ids stay
-- unique and no tenant gets two issued tokens, if it had none such at the start.
pub steps-IsGood :
    (pf : Platform) (cs : List Call) (t : Tables)
    → IsSound t.tokens
    → IsGood t.tokens (steps pf t cs).tokens
unfolding steps
steps-IsGood pf [] t h = IsGood-refl t.tokens h
steps-IsGood pf (c ∷ cs) t h =
    let (sound, lives) = step-IsGood pf t h c in
    let (sound', lives') = steps-IsGood pf cs (step pf t c) sound in
    (sound', LivesOn-trans t.tokens (step pf t c).tokens _ lives lives')
