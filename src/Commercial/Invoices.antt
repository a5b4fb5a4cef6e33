-- ===== src/Commercial/Invoices.antt =====
-- `generateInvoice` of src/services/commercialEngine.ts. `evaluated` is the clock reading of the
-- commitment and `now` that of the invoice; `id` is the id drawn for the ledger.
pub mod Lines
pub mod Laws
pub mod Effects
pub mod Numbers
use Prim.Native.String
use Prim.Native.String.{[], ◌∷◌}
use caas_lite.Prelude.{
  ℕ, zero, suc, ◌+◌, ◌*◌, String, Bool, true, false, ◌&&◌, ◌||◌, Option, none, some, List, [], ◌∷◌,
  ◌++◌, if◌then◌else◌, str_eq, ltb, count, to_upper,
}
use caas_lite.Prelude.Int.{ℤ, pos, ◌-ℤ◌, scale}
use caas_lite.Database.{Fraction}
use caas_lite.Commercial.Money.{round_ratio}
use caas_lite.Commercial.Tables.{
  Subscription, Ledger, LedgerStatus, ItemType, LineItem, Token, TokenStatus, Tables, constraint,
  Result, ok, err, ◌>>=◌, Platform,
}
use caas_lite.Commercial.Digest.{invoice_signature}
use caas_lite.Commercial.Subscriptions.{need_subscription, update_subscription}
use caas_lite.Commercial.Commitment.{
  best_token, MonthlyCommitmentResult, evaluate_monthly_commitment,
}

-- `s.slice(0, n)`
unfoldable pub slice : ℕ → String → String
slice zero s = []
slice (suc n) [] = []
slice (suc n) (c ∷ s) = c ∷ slice n s

unfoldable pub update_token : String → (Token → Token) → List Token → List Token
update_token id f [] = []
update_token id f (k ∷ ks) = (if str_eq k.id id then f k else k) ∷ update_token id f ks

-- `status='applied', applied_to_invoice=?, applied_at=?`
abbrev pub spent : String → ℕ → Token → Token
spent ledger now k = record k {
  status = TokenStatus.applied;
  applied_to_invoice = some ledger;
  applied_at = some now;
}

-- Whether the primary key or the UNIQUE invoice number refuses a new ledger.
unfoldable pub refuses : String → String → List Ledger → Bool
refuses id number [] = false
refuses id number (l ∷ ls) =
    str_eq l.id id || str_eq l.invoice_number number || refuses id number ls

abbrev pub token_id : Option Token → Option String
token_id none = none
token_id (some k) = some k.id

abbrev pub spend : Option Token → String → ℕ → List Token → List Token
spend none ledger now ks = ks
spend (some k) ledger now ks = update_token k.id (spent ledger now) ks

abbrev pub reset_counters : ℕ → Subscription → Subscription
reset_counters now s = record s { runs_this_period = 0; monitors_this_period = 0; updated_at = now }

-- The local `addLine`; a price counts ten-thousandths of a dollar.
abbrev pub line_item : String → String → ItemType → ℕ → ℤ → Bool → ℕ → LineItem
line_item ledger tenant type quantity price credit order = record {
  ledger_id = ledger;
  tenant_id = tenant;
  item_type = type;
  quantity = quantity;
  unit_price = price;
  line_total = round_ratio (scale price quantity) 100;
  is_credit = credit;
  sort_order = order;
}

abbrev pub when {ℓ} : {A : Type ℓ} → Bool → A → List A
when b a = if b then a ∷ [] else []

-- Cents as a price.
abbrev pub price_of : ℕ → ℤ
price_of c = pos (100 * c)

unfoldable pub line_items : String → String → Subscription → MonthlyCommitmentResult → List LineItem
line_items ledger tenant s c =
    line_item ledger tenant ItemType.base_fee 1 (price_of c.base_fee_usd) false 10
      ∷ when (ltb 0 c.overage_runs) (
          line_item ledger tenant ItemType.overage_runs c.overage_runs (pos s.overage_rate) false
            20)
    ++ when (ltb 0 c.overage_monitors) (
        line_item ledger tenant ItemType.overage_monitors c.overage_monitors (pos s.monitor_overage)
          false 30)
    ++ when (ltb 0 c.insurance_premium_usd) (
        line_item ledger tenant ItemType.insurance_premium 1 (price_of c.insurance_premium_usd)
          false 40)
    ++ when (ltb 0 c.premium_discount_usd) (
        line_item ledger tenant ItemType.premium_discount 1
          (pos 0 -ℤ price_of c.premium_discount_usd) true 50)
    ++ when (ltb 0 c.tax_usd) (line_item ledger tenant ItemType.tax 1 (price_of c.tax_usd) false 90)

abbrev pub saved : String → Ledger → List LineItem → Option Token → ℕ → Tables → Tables
saved tenant l items token now t = record t {
  ledgers = t.ledgers ++ l ∷ [];
  lines = t.lines ++ items;
  tokens = spend token l.id now t.tokens;
  subscriptions = update_subscription tenant (reset_counters now) t.subscriptions;
}

module _ (pf : Platform) where
  open pf use {sha256, invoice_json, year, pad4, like}

  -- `INV-`, six characters of the tenant's id in upper case, and the year.
  unfoldable pub number_prefix : String → ℕ → String
  number_prefix tenant now =
      String.◌++◌ "INV-"
        (String.◌++◌ (to_upper (slice 6 tenant)) (String.◌++◌ "-" (String.◌++◌ (year now) "-")))

  unfoldable pub next_invoice_number : String → ℕ → List Ledger → String
  next_invoice_number tenant now ls =
      let prefix = number_prefix tenant now in
      let n =
        count
          (λ (l : Ledger).
            str_eq l.tenant_id tenant && like l.invoice_number (String.◌++◌ prefix "%"))
          ls in
      String.◌++◌ prefix (pad4 (n + 1))

  unfoldable pub new_ledger :
      String
      → String
      → Subscription
      → MonthlyCommitmentResult
      → Option Token
      → Fraction
      → String
      → String
      → ℕ
      → Ledger
  new_ledger id tenant s c token fx currency number now = record {
    id = id;
    tenant_id = tenant;
    invoice_number = number;
    period_start = c.period_start;
    period_end = c.period_end;
    tier_snapshot = s.tier;
    monthly_fee_snapshot = s.monthly_fee;
    included_runs_snapshot = s.included_runs;
    overage_rate_snapshot = s.overage_rate;
    actual_runs = c.actual_runs;
    actual_monitors = c.actual_monitors;
    base_fee = c.base_fee_usd;
    overage_runs = c.overage_runs_usd;
    overage_monitors = c.overage_monitors_usd;
    insurance_premium = c.insurance_premium_usd;
    premium_discount = c.premium_discount_usd;
    tax = c.tax_usd;
    total = pos c.total_usd;
    invoice_currency = currency;
    fx_rate = fx;
    total_local = round_ratio (pos (c.total_usd * fx.num)) fx.den;
    status = LedgerStatus.issued;
    issued_at = now;
    due_at = now + 14 * 86400000;
    applied_token_id = token_id token;
    invoice_hash =
        sha256 (invoice_json id number tenant c.period_start c.period_end (pos c.total_usd));
    signature =
        invoice_signature pf number (pos c.total_usd) c.period_start c.period_end
          LedgerStatus.issued;
    updated_at = now;
  }

  -- The transaction of `generateInvoice`.
  unfoldable pub save_invoice :
      String → Ledger → List LineItem → Option Token → ℕ → Tables → Result Tables
  save_invoice tenant l items token now t =
      if refuses l.id l.invoice_number t.ledgers
      then err constraint
      else ok (saved tenant l items token now t)

  unfoldable pub generate_invoice :
      String
      → Fraction
      → String
      → String
      → ℕ
      → ℕ
      → Tables
      → Result (Ledger × List LineItem × Tables)
  generate_invoice tenant fx currency id evaluated now t =
      evaluate_monthly_commitment pf tenant evaluated t >>= λ c.
      need_subscription pf tenant t >>= λ s.
      (let token = best_token tenant now t.tokens in
        let number = next_invoice_number tenant now t.ledgers in
        let l = new_ledger id tenant s c token fx currency number now in
        let items = line_items id tenant s c in
        save_invoice tenant l items token now t >>= λ t'. ok (l, items, t'))
