-- ===== src/Commercial/Tokens/Effects.antt =====
-- What an applied token changes: the total, the lines, and the token.
use caas_lite.Prelude.{ℕ, ◌<◌, ◌≡◌, refl, String, some, List, [], ◌∷◌, ◌++◌}
use caas_lite.Prelude.Int.{pos, ◌-ℤ◌, int_laws}
use caas_lite.Commercial.Tables.{Ledger, LineItem, Token, Tables, ok, Platform}
use caas_lite.Commercial.Invoices.Lines.{line_sum-append, IsBalanced}
use caas_lite.Commercial.Tokens.{
  find_ledger, find_token, credit, credit_line, discounted, save_discount,
  apply_premium_reduction_token,
}
use caas_lite.Commercial.Tokens.Laws.{MayApply, applied_to}

-- A line of the amount by which the total falls tips the balance by twice the amount.
tips :
    (items : List LineItem) (l l' : Ledger) (d : ℕ)
    → l'.total ≡ l.total -ℤ pos d
    → 2 < d
    → IsBalanced l items
    → ¬ IsBalanced l' (items ++ credit_line l d ∷ [])
unfolding credit_line
tips items l l' d e h b b' =
    let sum = line_sum-append items (credit_line l d ∷ []) in grind (int_laws, e, sum)

-- Where a token may be applied to an invoice whose lines sum up to its total within two cents, and
-- its value or the premium, whichever is less, is above two cents, the total falls by that amount
-- while the new line for it has that amount as its total, so that the lines no longer sum up to
-- the total within two cents.
pub applied_token_unbalances :
    (pf : Platform) (ledger id : String) (now : ℕ) (t : Tables) (l : Ledger) (k : Token)
    (items : List LineItem)
    → find_ledger ledger t.ledgers ≡ some l
    → find_token id t.tokens ≡ some k
    → MayApply pf now l k
    → IsBalanced l items
    → 2 < credit k l
    → (r : Ledger × Tables) × (apply_premium_reduction_token pf ledger id now t ≡ ok r)
      × (r.0.total ≡ l.total -ℤ pos (credit k l))
      × (r.1.lines ≡ t.lines ++ credit_line l (credit k l) ∷ [])
      × ¬ IsBalanced r.0 (items ++ credit_line l (credit k l) ∷ [])
unfolding save_discount discounted
applied_token_unbalances pf ledger id now t l k items h g may balanced large = (
  save_discount pf l k now t,
  applied_to pf ledger id now t l k h g may,
  refl,
  refl,
  tips items l (discounted pf k now l l) (credit k l) refl large balanced,
)
