-- ===== src/Commercial/Lifecycle/Once.antt =====
-- A token that `applyPremiumReductionToken` has applied, over the calls that follow.
use caas_lite.Prelude.{
  ℕ, ◌≡◌, ◌≢◌, refl, sym, ap, ◌∙◌, String, some, List, [], ◌∷◌, eq_iff, arith, Bool-cases, inl, inr,
  str_eq,
}
use mathlib.Core.Path.{subst}
use caas_lite.Commercial.Tables.{Ledger, Token, TokenStatus, Tables, ok, Platform}
use caas_lite.Commercial.Invoices.{update_token, spent}
use caas_lite.Commercial.Tokens.{
  find_ledger, find_token, save_discount, apply_premium_reduction_token,
}
use caas_lite.Commercial.Tokens.Laws.{applied_from}
use caas_lite.Commercial.System.{Call, apply, after_call, step, steps}
use caas_lite.Commercial.Lifecycle.{LivesOn}
use caas_lite.Commercial.Lifecycle.Invariant.{IsSound, IsGood, step-IsGood, steps-IsGood}

find_ledger_id :
    (id : String) (ls : List Ledger) (l : Ledger) → find_ledger id ls ≡ some l → l.id ≡ id
unfolding find_ledger
find_ledger_id id [] l e = cc
find_ledger_id id (q ∷ ls) l e = ground (arith, eq_iff q.id id, find_ledger_id id ls l)

find_token_id : (id : String) (ks : List Token) (k : Token) → find_token id ks ≡ some k → k.id ≡ id
unfolding find_token
find_token_id id [] k e = cc
find_token_id id (q ∷ ks) k e = ground (arith, eq_iff q.id id, find_token_id id ks k)

find_token-spent :
    (id ledger : String) (now : ℕ) (ks : List Token) (k : Token)
    → find_token id ks ≡ some k
    → find_token id (update_token id (spent ledger now) ks) ≡ some (spent ledger now k)
unfolding find_token update_token
find_token-spent id ledger now [] k e = cc
find_token-spent id ledger now (q ∷ ks) k e = elim (Bool-cases (str_eq q.id id)) [
  | inl t ↦ ground (arith, t, e)
  | inr f ↦ rw f (rw f (find_token-spent id ledger now ks k (rw f at e)))
]

-- An applied token is found as it was.
find_token-LivesOn :
    (id : String) (ks qs : List Token) (k : Token)
    → LivesOn ks qs
    → find_token id ks ≡ some k
    → k.status ≡ TokenStatus.applied
    → find_token id qs ≡ some k
unfolding find_token
find_token-LivesOn id [] qs k h e s = cc
find_token-LivesOn id (x ∷ ks) [] k h e s = absurd h
find_token-LivesOn id (x ∷ ks) (q ∷ qs) k (same, _, _, _, kept, h) e s =
    elim (Bool-cases (str_eq x.id id)) [
      | inl t ↦
          let here : x ≡ k = ground (arith, t, e) in
          let unchanged = kept (ap (λ (y : Token). y.status) here ∙ s) in
          rw unchanged (rw t (ap some here))
      | inr f ↦ rw same (rw f (find_token-LivesOn id ks qs k h (rw f at e) s))
    ]

module _ (pf : Platform) (ledger id : String) (now : ℕ) (t : Tables) (r : Ledger × Tables)
    (sound : IsSound t.tokens) (e : apply_premium_reduction_token pf ledger id now t ≡ ok r) where
  applied_step : step pf t (apply ledger id now) ≡ r.1
  unfolding step
  applied_step = rw (e, after_call) refl

  found_after :
      (k : Token) × (find_token id t.tokens ≡ some k)
      × (find_token id r.1.tokens ≡ some (spent ledger now k))
  unfolding save_discount
  found_after =
      let (l, k, here, found, _, same) = applied_from pf ledger id now t r e in
      let written = find_token-spent id l.id now t.tokens k found in
      (
        k,
        found,
        rw same (
            subst
              (λ i.
                find_token id (update_token i (spent l.id now) t.tokens)
                ≡ some (spent ledger now k))
              (sym (find_token_id id t.tokens k found))
              (written ∙ ap (λ i. some (spent i now k)) (find_ledger_id ledger t.ledgers l here))),
      )

  after_steps :
      (cs : List Call) (k : Token)
      → find_token id r.1.tokens ≡ some (spent ledger now k)
      → find_token id (steps pf r.1 cs).tokens ≡ some (spent ledger now k)
  after_steps cs k found =
      let good : IsGood t.tokens r.1.tokens =
        subst (λ (u : Tables). IsGood t.tokens u.tokens) applied_step
          (step-IsGood pf t sound (apply ledger id now)) in
      let lives = (steps-IsGood pf cs r.1 good.0).1 in
      find_token-LivesOn id r.1.tokens _ _ lives found refl

  -- From tables with unique token ids and at most one issued token for each tenant, a token that
  -- was applied to an invoice stays, through any calls that follow, as that call left it, applied to
  -- that invoice, and no later call applies it.
  pub token_once :
      (cs : List Call) (other : String) (later : ℕ) (r' : Ledger × Tables)
      → ((k : Token) × (find_token id t.tokens ≡ some k)
          × (find_token id (steps pf r.1 cs).tokens ≡ some (spent ledger now k)))
        × (apply_premium_reduction_token pf other id later (steps pf r.1 cs) ≢ ok r')
  token_once cs other later r' =
      let (k, first, written) = found_after in
      let found = after_steps cs k written in
      (
        (k, first, found),
        (λ e'.
            let (_, k', _, found', may, _) = applied_from pf other id later _ r' e' in
            let same : some (spent ledger now k) ≡ some k' = sym found ∙ found' in
            ground (arith, same, may.1)),
      )
