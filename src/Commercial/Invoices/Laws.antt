-- ===== src/Commercial/Invoices/Laws.antt =====
-- What `generateInvoice` writes.
use caas_lite.Prelude.{
  ℕ, ◌≡◌, refl, sym, ap, ◌∙◌, String, Bool, true, false, List, if◌then◌else◌, arith, inl, inr,
}
use caas_lite.Database.{Fraction}
use caas_lite.Commercial.Tables.{
  Subscription, Ledger, LineItem, Tables, Error, constraint, ok, err, ◌>>=◌, Platform,
}
use caas_lite.Commercial.Results.{Result-cases, guarded-ok}
use caas_lite.Commercial.Subscriptions.{need_subscription}
use caas_lite.Commercial.Commitment.{best_token, find_policy, amounts, commitment, evaluate_with}
use caas_lite.Commercial.Invoices.{
  refuses, line_items, next_invoice_number, new_ledger, saved, save_invoice, generate_invoice,
}

module _ (pf : Platform) (tenant : String) (fx : Fraction) (currency id : String)
    (evaluated now : ℕ) (t : Tables) where
  -- The ledger of an invoice over a subscription.
  abbrev pub invoice : Subscription → Ledger
  invoice s =
      new_ledger pf id tenant s
        (commitment s
          (amounts s (find_policy tenant t.registries) (best_token tenant evaluated t.tokens)))
        (best_token tenant now t.tokens) fx currency (next_invoice_number pf tenant now t.ledgers)
        now

  abbrev pub invoice_lines : Subscription → List LineItem
  invoice_lines s = line_items id tenant s (
      commitment s
        (amounts s (find_policy tenant t.registries) (best_token tenant evaluated t.tokens)))

  abbrev pub after : Subscription → Tables
  after s = saved tenant (invoice s) (invoice_lines s) (best_token tenant now t.tokens) now t

  saved_or_refused :
      {A : Type 0} (b : Bool) (x : Tables) (f : Tables → A)
      → ((if b then err constraint else ok x) >>= λ t'. ok (f t'))
        ≡ (if b then err constraint else ok (f x))
  saved_or_refused true x f = refl
  saved_or_refused false x f = refl

  -- With a sound subscription the invoice is written, unless its id or its number is taken.
  pub generate_from :
      (s : Subscription)
      → need_subscription pf tenant t ≡ ok s
      → generate_invoice pf tenant fx currency id evaluated now t ≡ (
          if refuses id (next_invoice_number pf tenant now t.ledgers) t.ledgers
          then err constraint
          else ok (invoice s, invoice_lines s, after s))
  unfolding generate_invoice evaluate_with save_invoice new_ledger
  generate_from s h = rw h (saved_or_refused _ _ _)

  -- Without one the error is that of the subscription.
  pub generate_without :
      (e : Error)
      → need_subscription pf tenant t ≡ err e
      → generate_invoice pf tenant fx currency id evaluated now t ≡ err e
  unfolding generate_invoice evaluate_with
  generate_without e h = rw h refl

  pub generated :
      (l : Ledger) (items : List LineItem) (t' : Tables)
      → generate_invoice pf tenant fx currency id evaluated now t ≡ ok (l, items, t')
      → (s : Subscription) × (need_subscription pf tenant t ≡ ok s)
        × (refuses id (next_invoice_number pf tenant now t.ledgers) t.ledgers ≡ false)
        × (l ≡ invoice s)
        × (items ≡ invoice_lines s)
        × (t' ≡ after s)
  generated l items t' e = elim (Result-cases (need_subscription pf tenant t)) [
    | inl (d, h) ↦ absurd (ground (arith, generate_without d h))
    | inr (s, h) ↦
        let (free, same) =
          guarded-ok _ constraint (invoice s, invoice_lines s, after s) (l, items, t')
            (sym (generate_from s h) ∙ e) in
        (s, h, free, ap (λ x. x.0) (sym same), ap (λ x. x.1) (sym same), ap (λ x. x.2) (sym same))
  ]
