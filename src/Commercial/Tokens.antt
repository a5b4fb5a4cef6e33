-- ===== src/Commercial/Tokens.antt =====
-- `applyPremiumReductionToken` of src/services/commercialEngine.ts, and its reads of one row.
pub mod Laws
pub mod Effects
mod Tests
use caas_lite.Prelude.{
  ℕ, ◌*◌, String, true, not, Option, none, some, List, [], ◌∷◌, ◌++◌, if◌then◌else◌, str_eq, ltb,
}
use caas_lite.Prelude.Int.{ℤ, pos, ◌-ℤ◌, scale}
use caas_lite.Database.{Fraction}
use caas_lite.Commercial.Money.{min, round_ratio}
use caas_lite.Commercial.Tables.{
  Ledger, LedgerStatus, ItemType, LineItem, Token, TokenStatus, Tables, ledger_not_found,
  ledger_closed, token_not_found, token_unavailable, token_tenant_mismatch, token_expired,
  token_tampered, Result, ok, err, ◌>>=◌, Platform,
}
use caas_lite.Commercial.Digest.{invoice_signature, token_signature}
use caas_lite.Commercial.Invoices.{update_token, spent}

unfoldable pub find_ledger : String → List Ledger → Option Ledger
find_ledger id [] = none
find_ledger id (l ∷ ls) = if str_eq l.id id then some l else find_ledger id ls

unfoldable pub update_ledger : String → (Ledger → Ledger) → List Ledger → List Ledger
update_ledger id f [] = []
update_ledger id f (l ∷ ls) = (if str_eq l.id id then f l else l) ∷ update_ledger id f ls

unfoldable pub find_token : String → List Token → Option Token
find_token id [] = none
find_token id (k ∷ ks) = if str_eq k.id id then some k else find_token id ks

unfoldable pub open_ledger : Ledger → Result Ledger
open_ledger l = elim l.status [
  | LedgerStatus.draft ↦ ok l
  | LedgerStatus.issued ↦ ok l
  | s ↦ err (ledger_closed s)
]

unfoldable pub issued_token : Token → Result Token
issued_token k = elim k.status [ TokenStatus.issued ↦ ok k | s ↦ err (token_unavailable s) ]

-- The credit's line: its price is below zero, its total is not.
unfoldable pub credit_line : Ledger → ℕ → LineItem
credit_line l discount = record {
  ledger_id = l.id;
  tenant_id = l.tenant_id;
  item_type = ItemType.premium_discount;
  quantity = 1;
  unit_price = pos 0 -ℤ pos (100 * discount);
  line_total = pos discount;
  is_credit = true;
  sort_order = 55;
}

-- `Math.min(token.discount_value_usd, ledger.insurance_premium_usd)`
abbrev pub credit : Token → Ledger → ℕ
credit k l = min k.discount_value l.insurance_premium

-- `newTotal`: both amounts are whole cents, which the rounding keeps.
abbrev pub new_total : Token → Ledger → ℤ
new_total k l = l.total -ℤ pos (credit k l)

-- `Math.round(newTotal * fx_rate * 100) / 100`
abbrev pub in_currency : ℤ → Fraction → ℤ
in_currency total fx = round_ratio (scale total fx.num) fx.den

module _ (pf : Platform) where
  open pf use {sha256, ledger_json}

  -- The checks on an issued token, in order.
  unfoldable pub verify_token : Ledger → ℕ → Token → Result Token
  verify_token l now k =
      if not (str_eq k.tenant_id l.tenant_id)
      then err token_tenant_mismatch
      else if ltb k.expires_at now
      then err token_expired
      else if str_eq k.token_signature
          (token_signature pf k.id k.tenant_id k.discount_pct k.snapshot_id k.expires_at)
      then ok k
      else err token_tampered

  unfoldable pub check_token : Ledger → String → ℕ → Tables → Result Token
  check_token l id now t = elim (find_token id t.tokens) [
    | none ↦ err token_not_found
    | some k ↦ issued_token k >>= verify_token l now
  ]

  -- What the update writes to a row, from the ledger that was read.
  unfoldable pub discounted : Token → ℕ → Ledger → Ledger → Ledger
  discounted k now l row = record row {
    premium_discount = credit k l;
    total = new_total k l;
    total_local = in_currency (new_total k l) l.fx_rate;
    applied_token_id = some k.id;
    invoice_hash =
        sha256 (ledger_json (record l { total = new_total k l; applied_token_id = some k.id }));
    signature =
        invoice_signature pf l.invoice_number (new_total k l) l.period_start l.period_end l.status;
    updated_at = now;
  }

  -- The transaction, whose statements cannot fail, and the row that is read back.
  unfoldable pub save_discount : Ledger → Token → ℕ → Tables → Ledger × Tables
  save_discount l k now t = (
    discounted k now l l,
    record t {
      ledgers = update_ledger l.id (discounted k now l) t.ledgers;
      lines = t.lines ++ credit_line l (credit k l) ∷ [];
      tokens = update_token k.id (spent l.id now) t.tokens;
    },
  )

  unfoldable pub apply_premium_reduction_token :
      String → String → ℕ → Tables → Result (Ledger × Tables)
  apply_premium_reduction_token ledger id now t = elim (find_ledger ledger t.ledgers) [
    | none ↦ err ledger_not_found
    | some l ↦ open_ledger l >>= λ l. check_token l id now t >>= λ k. ok (save_discount l k now t)
  ]
