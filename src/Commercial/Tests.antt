-- ===== src/Commercial/Tests.antt =====
-- The theorems on subscriptions, commitments and invoices at concrete inputs.
use caas_lite.Prelude.{
  ◌+◌, ◌*◌, ◌/◌, ◌≡◌, refl, String, false, none, some, [], ◌∷◌, str_eq, if◌then◌else◌, arith,
  eq_iff,
}
use caas_lite.Database.{Fraction}
use caas_lite.Commercial.Tables.{Subscription, Ledger, Tables, constraint, ok, err}
use caas_lite.Commercial.Digest.{subscription_integrity_hash}
use caas_lite.Commercial.Subscriptions.{
  find_subscription, update_subscription, get_subscription, need_subscription,
}
use caas_lite.Commercial.Subscriptions.Runs.{record_runs, logged, record_runs_lem}
use caas_lite.Commercial.Invoices.{slice, refuses, reset_counters, generate_invoice}
use caas_lite.Commercial.Invoices.Laws.{invoice, invoice_lines, after, generate_from}
use caas_lite.Commercial.Invoices.Lines.{IsBalanced}
use caas_lite.Commercial.Invoices.Effects.{
  NamedIsSpent, generate_invoice-IsBalanced, generate_invoice_effect,
}
use caas_lite.Commercial.Invoices.Numbers.{first_numbers_collide}
use caas_lite.Commercial.Reads.{get_active_tokens}
use caas_lite.Commercial.Reads.Laws.{head_of, get_active_tokens_head}
use caas_lite.Commercial.Commitment.{best_token, units_over, Rounding}
use caas_lite.Commercial.Sample.{platform, subscription, token, tables}

north :
    need_subscription platform "harbour-north" tables ≡ ok (subscription "s1" "harbour-north" 4999)
unfolding need_subscription get_subscription find_subscription subscription_integrity_hash
north = refl

-- The second of three runs is the first above the limit.
record_runs_lem_example :
    (t' : Tables) × (s' : Subscription) × (record_runs platform "harbour-north"
        (7 ∷ 8 ∷ 9 ∷ [])
        tables
      ≡ ok t')
    × (need_subscription platform "harbour-north" t' ≡ ok s')
    × (s' ≡ record (subscription "s1" "harbour-north" 4999) {
      runs_this_period = 5002;
      updated_at = s'.updated_at;
    })
    × (logged "harbour-north" t'.overages + units_over 5000 4999 * 300
        ≡ logged "harbour-north" [] + units_over 5000 5002 * 300)
record_runs_lem_example =
    record_runs_lem platform "harbour-north" (7 ∷ 8 ∷ 9 ∷ []) tables
      (subscription "s1" "harbour-north" 4999) north

-- Half a cent goes down, as it may in doubles.
abbrev ties_down : Rounding
ties_down = record {
  cents = λ _ _ _ g. (g + 599) / 1200;
  tax = λ _ _ g. (g * 75 + 600000) / 1200000;
}

get_active_tokens_head_example :
    head_of (get_active_tokens "harbour-north" 3 tables) ≡ best_token "harbour-north" 3 (token ∷ [])
get_active_tokens_head_example = get_active_tokens_head "harbour-north" 3 tables

abbrev pub dollar : Fraction
dollar = record { num = 1; den = 1 }

abbrev pub first_ledger : Ledger
first_ledger =
    invoice platform "harbour-north" dollar "USD" "l1" 3 3 tables
      (subscription "s1" "harbour-north" 4999)

abbrev first_after : Tables
first_after =
    after platform "harbour-north" dollar "USD" "l1" 3 3 tables
      (subscription "s1" "harbour-north" 4999)

first_invoice :
    generate_invoice platform "harbour-north" dollar "USD" "l1" 3 3 tables
    ≡ ok (
      first_ledger,
      invoice_lines platform "harbour-north" dollar "USD" "l1" 3 3 tables
          (subscription "s1" "harbour-north" 4999),
      first_after,
    )
unfolding refuses
first_invoice =
    generate_from platform "harbour-north" dollar "USD" "l1" 3 3 tables
      (subscription "s1" "harbour-north" 4999) north

generate_invoice-IsBalanced_example : IsBalanced first_ledger (
    invoice_lines platform "harbour-north" dollar "USD" "l1" 3 3 tables
      (subscription "s1" "harbour-north" 4999))
generate_invoice-IsBalanced_example =
    generate_invoice-IsBalanced platform "harbour-north" dollar "USD" "l1" 3 3 tables _ _ _
      first_invoice

generate_invoice_effect_example :
    (first_after.ledgers ≡ first_ledger ∷ [])
    × (first_after.lines
        ≡ invoice_lines platform "harbour-north" dollar "USD" "l1" 3 3 tables
            (subscription "s1" "harbour-north" 4999))
    × (refuses first_ledger.id first_ledger.invoice_number [] ≡ false)
    × ((s : Subscription) × (need_subscription platform "harbour-north" first_after ≡ ok s)
        × (s.runs_this_period ≡ 0)
        × (s.monitors_this_period ≡ 0))
    × ((o : String)
        → find_subscription o first_after.subscriptions
          ≡ elim (find_subscription o tables.subscriptions) [
            | none ↦ none
            | some s ↦ some (if str_eq o "harbour-north" then reset_counters 3 s else s)
          ])
    × NamedIsSpent first_ledger.applied_token_id first_after.tokens
generate_invoice_effect_example =
    generate_invoice_effect platform "harbour-north" dollar "USD" "l1" 3 3 tables first_ledger _
      first_after first_invoice

south :
    need_subscription platform "harbour-south" first_after
    ≡ ok (subscription "s2" "harbour-south" 0)
unfolding need_subscription get_subscription find_subscription subscription_integrity_hash
    update_subscription
south = refl

-- Two tenants whose ids begin with "harbou".
first_numbers_collide_example :
    generate_invoice platform "harbour-south" dollar "USD" "l2" 4 4 first_after ≡ err constraint
unfolding slice
first_numbers_collide_example =
    first_numbers_collide platform "harbour-north" "harbour-south" dollar dollar "USD" "l1" "l2" 3 3
      4 4 tables first_after first_ledger _ (subscription "s2" "harbour-south" 0)
      (ground (arith, eq_iff "harbour-north" "harbour-south")) refl refl tt tt first_invoice south
