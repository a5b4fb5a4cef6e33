-- ===== src/Commercial/Tokens/Tests.antt =====
-- The theorems on tokens, audits and sequences of calls at concrete inputs.
use caas_lite.Prelude.{
  ℕ, ◌+◌, ◌*◌, ◌≤◌, ◌≡◌, ◌≢◌, ◌↔◌, refl, true, false, none, some, List, [], ◌∷◌, ◌++◌, inr, arith,
}
use caas_lite.Prelude.Int.{pos, ◌+ℤ◌, ◌-ℤ◌, scale}
use caas_lite.Commercial.Tables.{
  LedgerStatus, AuditInputs, LineItem, ItemType, Ledger, Token, Tables, ok,
}
use caas_lite.Commercial.Money.{round_ratio}
use caas_lite.Commercial.Digest.{token_signature}
use caas_lite.Commercial.Invoices.{spent, line_item, price_of, new_ledger}
use caas_lite.Commercial.Invoices.Lines.{IsBalanced}
use caas_lite.Commercial.Scores.{component_scores, composite_score}
use caas_lite.Commercial.Scores.Laws.{percent_of, score-monotone}
use caas_lite.Commercial.Underwriting.{seed_hash}
use caas_lite.Commercial.Underwriting.Thread.{IsChained, thread}
use caas_lite.Commercial.Underwriting.Trace.{steps-IsChained}
use caas_lite.Commercial.System.{Call, audit, invoice as invoice_of, steps}
use caas_lite.Commercial.Lifecycle.Invariant.{IsGood, IsSound, steps-IsGood}
use caas_lite.Commercial.Tokens.{
  find_ledger, find_token, credit_line, save_discount, apply_premium_reduction_token,
}
use caas_lite.Commercial.Tokens.Laws.{MayApply, applied_to, apply_premium_reduction_token_iff}
use caas_lite.Commercial.Tokens.Effects.{applied_token_unbalances}
use caas_lite.Commercial.Lifecycle.Once.{token_once}
use caas_lite.Commercial.Sample.{platform, token, tables}
use caas_lite.Commercial.Tests.{dollar, first_ledger}

-- An invoice of 100 dollars, all of it the premium.
abbrev open_invoice : Ledger
open_invoice = record first_ledger {
  insurance_premium = 10000;
  premium_discount = 0;
  total = pos 10000;
  status = LedgerStatus.issued;
  applied_token_id = none;
}

abbrev billed : Tables
billed = record tables { ledgers = open_invoice ∷ [] }

found_invoice : find_ledger "l1" billed.ledgers ≡ some open_invoice
unfolding find_ledger new_ledger
found_invoice = refl

found_token : find_token "k1" billed.tokens ≡ some token
unfolding find_token
found_token = refl

may : MayApply platform 4 open_invoice token
unfolding token_signature new_ledger
may = (inr refl, refl, refl, omega arith, refl)

apply_premium_reduction_token_iff_example :
    ((r : Ledger × Tables) × (apply_premium_reduction_token platform "l1" "k1" 4 billed ≡ ok r)) ↔ (
      (l : Ledger) × (k : Token) × (find_ledger "l1" billed.ledgers ≡ some l)
      × (find_token "k1" billed.tokens ≡ some k)
      × MayApply platform 4 l k)
apply_premium_reduction_token_iff_example =
    apply_premium_reduction_token_iff platform "l1" "k1" 4 billed

abbrev discounted_tables : Ledger × Tables
discounted_tables = save_discount platform open_invoice token 4 billed

billed-IsSound : IsSound billed.tokens
billed-IsSound = ((tt, tt), (λ o. ground arith))

-- After the token has been applied, an invoice and an audit follow.
abbrev later_calls : List Call
later_calls =
    audit "harbour-north" "r1" "s1" "k2" 7 ∷ invoice_of "harbour-north" dollar "USD" "l2" 8 8 ∷ []

token_once_example :
    ((k : Token) × (find_token "k1" billed.tokens ≡ some k)
      × (find_token "k1" (steps platform discounted_tables.1 later_calls).tokens
          ≡ some (spent "l1" 4 k)))
    × (apply_premium_reduction_token platform "l1" "k1" 5
          (steps platform discounted_tables.1 later_calls)
        ≢ ok (open_invoice, billed))
token_once_example =
    token_once platform "l1" "k1" 4 billed discounted_tables billed-IsSound
      (applied_to platform "l1" "k1" 4 billed open_invoice token found_invoice found_token may)
      later_calls "l1" 5 (open_invoice, billed)

one_line : List LineItem
one_line =
    line_item "l1" "harbour-north" ItemType.insurance_premium 1 (price_of 10000) false 40 ∷ []

balanced : IsBalanced open_invoice one_line
unfolding one_line round_ratio scale ◌+ℤ◌
balanced = (omega arith, omega arith)

applied_token_unbalances_example :
    (r : Ledger × Tables) × (apply_premium_reduction_token platform "l1" "k1" 4 billed ≡ ok r)
    × (r.0.total ≡ pos 10000 -ℤ pos 2000)
    × (r.1.lines ≡ credit_line open_invoice 2000 ∷ [])
    × ¬ IsBalanced r.0 (one_line ++ credit_line open_invoice 2000 ∷ [])
applied_token_unbalances_example =
    applied_token_unbalances platform "l1" "k1" 4 billed open_invoice token one_line found_invoice
      found_token may balanced (omega arith)

abbrev figures : ℕ → AuditInputs
figures n = record {
  total_runs = 100 + n;
  failed_runs = n;
  duplicate_runs = n;
  count_high = 1;
  count_critical = n;
  count_lockouts = 0;
  slow_count = 10 + n;
  slow_duration = 1000 * n;
  regulatory_breaches = 0;
  failover_events = n;
  db_integrity_ok = true;
}

score-monotone_example :
    let m = composite_score (component_scores (figures 0)) in
    let n = composite_score (component_scores (figures 30)) in
    (m ≤ n) × (n ≤ 97) × (percent_of n ≤ percent_of m)
score-monotone_example = score-monotone (figures 0) (figures 30) (
  (λ _. omega arith),
  omega arith,
  omega arith,
  omega arith,
  omega arith,
  omega arith,
  omega arith,
  (λ e. absurd (omega (arith, e))),
  omega arith,
  omega arith,
  omega arith,
  (λ e. e),
)

-- An audit, and an invoice that spends the audit's token.
abbrev calls : List Call
calls =
    audit "harbour-north" "r1" "s1" "k2" 7 ∷ invoice_of "harbour-north" dollar "USD" "l1" 8 8 ∷ []

steps-IsGood_example : IsGood tables.tokens (steps platform tables calls).tokens
steps-IsGood_example = steps-IsGood platform calls tables ((tt, tt), (λ o. ground arith))

steps-IsChained_example :
    let t = steps platform tables calls in IsChained platform t.registries t.snapshots
unfolding thread seed_hash
steps-IsChained_example =
    steps-IsChained platform calls tables (refl, (tt, tt)) ((refl, tt), (refl, tt), tt)
