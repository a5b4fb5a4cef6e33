-- ===== src/Commercial/Invoices/Lines.antt =====
-- The lines of an invoice and its total.
use caas_lite.Prelude.{
  ℕ, ◌+◌, ◌*◌, ◌≡◌, refl, String, Bool, true, false, Option, List, [], ◌∷◌, ◌++◌, ltb, arith,
}
use caas_lite.Prelude.Int.{ℤ, pos, ◌+ℤ◌, ◌-ℤ◌, ◌≤ℤ◌, scale, int_laws}
use caas_lite.Commercial.Money.{round_cents, to_grains, round_ratio}
use caas_lite.Commercial.Tables.{Subscription, Registry, Token, LineItem, ItemType, Ledger}
use caas_lite.Commercial.Commitment.{commitment, commitment_with, amounts}
use caas_lite.Commercial.Commitment.Laws.{charges}
use caas_lite.Commercial.Invoices.{line_items, line_item, when, price_of}

-- The sum of the lines' totals.
abbrev pub line_sum : List LineItem → ℤ
line_sum [] = pos 0
line_sum (l ∷ ls) = l.line_total +ℤ line_sum ls

pub line_sum-append : (xs ys : List LineItem) → line_sum (xs ++ ys) ≡ line_sum xs +ℤ line_sum ys
line_sum-append [] ys = grind int_laws
line_sum-append (x ∷ xs) ys = grind (int_laws, line_sum-append xs ys)

line_sum-when :
    (b : Bool) (item : LineItem) (v : ℤ)
    → (b ≡ false → v ≡ pos 0)
    → item.line_total ≡ v
    → line_sum (when b item) ≡ v
line_sum-when true item v h e = grind (int_laws, e)
line_sum-when false item v h e = grind (int_laws, h refl)

whole_price : (c : ℕ) → round_ratio (scale (price_of c) 1) 100 ≡ pos c
unfolding round_ratio scale
whole_price c = ground arith

credit_price : (c : ℕ) → round_ratio (scale (pos 0 -ℤ price_of c) 1) 100 ≡ pos 0 -ℤ pos c
unfolding round_ratio scale ◌-ℤ◌
credit_price c = ground arith

unit_price :
    (n rate : ℕ) → round_ratio (scale (pos rate) n) 100 ≡ pos (round_cents (to_grains (n * rate)))
unfolding round_ratio scale round_cents
unit_price n rate = ground arith

module _ (id tenant : String) (type : ItemType) (order : ℕ) where
  whole_sum :
      (c : ℕ)
      → line_sum (when (ltb 0 c) (line_item id tenant type 1 (price_of c) false order)) ≡ pos c
  whole_sum c = line_sum-when _ _ (pos c) (λ e. ground arith) (whole_price c)

  unit_sum :
      (n rate : ℕ)
      → line_sum (when (ltb 0 n) (line_item id tenant type n (pos rate) false order))
        ≡ pos (round_cents (to_grains (n * rate)))
  unfolding round_cents
  unit_sum n rate = line_sum-when _ _ _ (λ e. ground arith) (unit_price n rate)

  credit_sum :
      (c : ℕ)
      → line_sum (when (ltb 0 c) (line_item id tenant type 1 (pos 0 -ℤ price_of c) true order))
        ≡ pos 0 -ℤ pos c
  unfolding ◌-ℤ◌
  credit_sum c = line_sum-when _ _ _ (λ e. ground arith) (credit_price c)

six_sums :
    (x : LineItem) (a b c d e : List LineItem)
    → line_sum (x ∷ a ++ b ++ c ++ d ++ e)
      ≡ x.line_total +ℤ line_sum a +ℤ line_sum b +ℤ line_sum c +ℤ line_sum d +ℤ line_sum e
six_sums x a b c d e = rw (line_sum-append, line_sum-append, line_sum-append, line_sum-append) refl

pub line_items-sum :
    (id tenant : String) (s : Subscription) (policy : Option Registry) (token : Option Token)
    → let c = commitment s (amounts s policy token) in
      line_sum (line_items id tenant s c)
      ≡ pos (charges c + c.tax_usd) -ℤ pos c.premium_discount_usd
unfolding line_items commitment_with amounts
line_items-sum id tenant s policy token =
    rw (six_sums, whole_price, unit_sum, unit_sum, whole_sum, credit_sum, whole_sum)
      (grind int_laws)

-- A line's total is a whole amount of cents, and so may the sum of the lines be off the rounded
-- total by two.
abbrev pub IsBalanced : Ledger → List LineItem → Type 0
IsBalanced l items = (line_sum items ≤ℤ l.total +ℤ pos 2) × (l.total ≤ℤ line_sum items +ℤ pos 2)
