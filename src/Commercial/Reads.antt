-- ===== src/Commercial/Reads.antt =====
-- The retrieval helpers of src/services/commercialEngine.ts. A limit is not negative.
pub mod Laws
use caas_lite.Prelude.{ℕ, String, Option, List, str_eq, ltb, filter, sort_by, take}
use caas_lite.Commercial.Tables.{Ledger, LineItem, Registry, Snapshot, Token, Tables, Platform}
use caas_lite.Commercial.Commitment.{is_usable, find_policy}

unfoldable pub get_ledger_history : Platform → String → ℕ → Tables → List Ledger
get_ledger_history pf tenant limit t = take limit (
    sort_by (λ (a : Ledger) (b : Ledger). pf.text_before b.period_start a.period_start)
      (filter (λ (l : Ledger). str_eq l.tenant_id tenant) t.ledgers))

unfoldable pub get_line_items : String → Tables → List LineItem
get_line_items ledger t =
    sort_by (λ (a : LineItem) (b : LineItem). ltb a.sort_order b.sort_order)
      (filter (λ (l : LineItem). str_eq l.ledger_id ledger) t.lines)

unfoldable pub get_underwriting_registry : String → Tables → Option Registry
get_underwriting_registry tenant t = find_policy tenant t.registries

unfoldable pub get_audit_snapshots : String → ℕ → Tables → List Snapshot
get_audit_snapshots registry limit t = take limit (
    sort_by (λ (a : Snapshot) (b : Snapshot). ltb b.audit_period_end a.audit_period_end)
      (filter (λ (s : Snapshot). str_eq s.registry_id registry) t.snapshots))

unfoldable pub get_active_tokens : String → ℕ → Tables → List Token
get_active_tokens tenant now t =
    sort_by (λ (a : Token) (b : Token). ltb b.discount_pct a.discount_pct)
      (filter (is_usable tenant now) t.tokens)
