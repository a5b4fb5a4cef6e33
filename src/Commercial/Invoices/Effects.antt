-- ===== src/Commercial/Invoices/Effects.antt =====
-- What an invoice leaves behind: balanced lines, counters at zero and a token that is spent.
use caas_lite.Prelude.{
  ℕ, ◌≡◌, ◌≢◌, refl, sym, ap, ◌∙◌, String, false, Option, none, some, List, [], ◌∷◌, ◌++◌,
  if◌then◌else◌, str_eq, eq_iff, arith, All, In, inl, inr,
}
use mathlib.Core.Path.{subst}
use caas_lite.Prelude.Int.{int_laws}
use caas_lite.Database.{Fraction}
use caas_lite.Commercial.Tables.{
  Subscription, Ledger, LineItem, Token, TokenStatus, Tables, ok, Platform,
}
use caas_lite.Commercial.Subscriptions.{find_subscription, need_subscription}
use caas_lite.Commercial.Subscriptions.Laws.{
  find_subscription-update, need_subscription-ok, need_subscription-found,
}
use caas_lite.Commercial.Commitment.{best_token, find_policy}
use caas_lite.Commercial.Commitment.Laws.{commitment-IsExact}
use caas_lite.Commercial.Commitment.Choice.{best_token-some}
use caas_lite.Commercial.Invoices.{
  update_token, spent, spend, refuses, token_id, reset_counters, new_ledger, saved,
  generate_invoice,
}
use caas_lite.Commercial.Invoices.Lines.{IsBalanced, line_items-sum}
use caas_lite.Commercial.Invoices.Laws.{generated}

-- All tokens with an id are applied.
abbrev pub IsSpent : String → List Token → Type 0
IsSpent id ks = All (λ k. k.id ≡ id → k.status ≡ TokenStatus.applied) ks

pub update_token-IsSpent :
    (id ledger : String) (now : ℕ) (ks : List Token)
    → IsSpent id (update_token id (spent ledger now) ks)
unfolding update_token
update_token-IsSpent id ledger now [] = tt
update_token-IsSpent id ledger now (k ∷ ks) =
    ((λ e. ground (arith, eq_iff k.id id)), update_token-IsSpent id ledger now ks)

IsSpent-In :
    (id : String) (ks : List Token) (q : Token)
    → IsSpent id ks
    → In q ks
    → q.id ≡ id
    → q.status ≡ TokenStatus.applied
IsSpent-In id [] q h i e = absurd i
IsSpent-In id (k ∷ ks) q (h, hs) (inl same) e =
    rw same (h (ap (λ (x : Token). x.id) (sym same) ∙ e))
IsSpent-In id (k ∷ ks) q (h, hs) (inr later) e = IsSpent-In id ks q hs later e

-- A spent token is not taken into account again.
pub best_token-unspent :
    (tenant id : String) (now : ℕ) (ks : List Token) (q : Token)
    → IsSpent id ks
    → best_token tenant now ks ≡ some q
    → q.id ≢ id
best_token-unspent tenant id now ks q h e same =
    let (here, usable) = best_token-some tenant now ks q e in
    let status = IsSpent-In id ks q h here same in ground arith

-- The token that is named, if one is, is spent.
abbrev pub NamedIsSpent : Option String → List Token → Type 0
NamedIsSpent none ks = Unit
NamedIsSpent (some id) ks = IsSpent id ks

spend-NamedIsSpent :
    (o : Option Token) (ledger : String) (now : ℕ) (ks : List Token)
    → NamedIsSpent (token_id o) (spend o ledger now ks)
spend-NamedIsSpent none ledger now ks = tt
spend-NamedIsSpent (some k) ledger now ks = update_token-IsSpent k.id ledger now ks

-- The subscription of an invoiced tenant is sound, its counters are at zero.
reset_lem :
    (pf : Platform) (tenant : String) (now : ℕ) (t : Tables) (s : Subscription) (l : Ledger)
    (items : List LineItem) (token : Option Token)
    → need_subscription pf tenant t ≡ ok s
    → need_subscription pf tenant (saved tenant l items token now t) ≡ ok (reset_counters now s)
reset_lem pf tenant now t s l items token h =
    let (found, sound) = need_subscription-ok pf tenant t s h in
    need_subscription-found pf tenant (saved tenant l items token now t) (reset_counters now s)
      (ground (
        arith,
        eq_iff tenant tenant,
        find_subscription-update tenant tenant (reset_counters now) t.subscriptions (λ _. refl),
      ))
      sound

module _ (pf : Platform) (tenant : String) (fx : Fraction) (currency id : String)
    (evaluated now : ℕ) (t : Tables) (l : Ledger) (items : List LineItem) (t' : Tables) where
  -- The lines of an invoice sum up to its total within two cents.
  pub generate_invoice-IsBalanced :
      generate_invoice pf tenant fx currency id evaluated now t ≡ ok (l, items, t')
      → IsBalanced l items
  unfolding new_ledger
  generate_invoice-IsBalanced e =
      let (s, _, _, same, lines, _) =
        generated pf tenant fx currency id evaluated now t l items t' e in
      let policy = find_policy tenant t.registries in
      let token = best_token tenant evaluated t.tokens in
      let sum = line_items-sum id tenant s policy token in
      let coherent = commitment-IsExact s policy token in
      rw (same, lines, sum) (grind (int_laws, coherent))

  -- An invoice is stored with its lines under an id and a number that no other has, it sets the
  -- tenant's counters to zero, leaves the other tenants' subscriptions alone, and spends the token
  -- that it names.
  pub generate_invoice_effect :
      generate_invoice pf tenant fx currency id evaluated now t ≡ ok (l, items, t')
      → (t'.ledgers ≡ t.ledgers ++ l ∷ [])
        × (t'.lines ≡ t.lines ++ items)
        × (refuses l.id l.invoice_number t.ledgers ≡ false)
        × ((s : Subscription) × (need_subscription pf tenant t' ≡ ok s)
            × (s.runs_this_period ≡ 0)
            × (s.monitors_this_period ≡ 0))
        × ((o : String)
            → find_subscription o t'.subscriptions ≡ elim (find_subscription o t.subscriptions) [
              | none ↦ none
              | some s ↦ some (if str_eq o tenant then reset_counters now s else s)
            ])
        × NamedIsSpent l.applied_token_id t'.tokens
  unfolding new_ledger
  generate_invoice_effect e =
      let (s, need, free, same, lines, final) =
        generated pf tenant fx currency id evaluated now t l items t' e in
      let token = best_token tenant now t.tokens in
      (
        rw (final, same) refl,
        rw (final, lines) refl,
        rw same free,
        (reset_counters now s, rw final (reset_lem pf tenant now t s _ _ token need), refl, refl),
        (λ o.
            rw final
              (find_subscription-update o tenant (reset_counters now) t.subscriptions (λ _. refl))),
        rw (final, same) (spend-NamedIsSpent token id now t.tokens),
      )

  -- The token that an invoice names is taken into account by no later commitment or invoice.
  pub named_token_unused :
      (k : String) (later : ℕ) (q : Token)
      → generate_invoice pf tenant fx currency id evaluated now t ≡ ok (l, items, t')
      → l.applied_token_id ≡ some k
      → best_token tenant later t'.tokens ≡ some q
      → q.id ≢ k
  named_token_unused k later q e named best =
      let (_, _, _, _, _, spent_all) = generate_invoice_effect e in
      best_token-unspent tenant k later t'.tokens q
        (subst (λ o. NamedIsSpent o t'.tokens) named spent_all) best
