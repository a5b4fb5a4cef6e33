-- ===== src/Commercial/Invoices/Numbers.antt =====
-- The numbers of invoices, which name a tenant by the first six characters of its id.
use Prim.Native.String
use caas_lite.Prelude.{
  ℕ, ◌+◌, ◌≡◌, ◌≢◌, refl, sym, ap, ◌∙◌, String, Bool, true, ◌&&◌, List, [], ◌∷◌, ◌++◌, str_eq,
  eq_iff, arith, All, count, to_upper,
}
use caas_lite.Database.{Fraction}
use caas_lite.Commercial.Tables.{
  Subscription, Ledger, LineItem, Tables, constraint, ok, err, Platform,
}
use caas_lite.Commercial.Subscriptions.{need_subscription}
use caas_lite.Commercial.Invoices.{
  slice, refuses, number_prefix, next_invoice_number, new_ledger, generate_invoice,
}
use caas_lite.Commercial.Invoices.Laws.{generate_from, generated}

-- None of the ledgers is the tenant's.
abbrev pub Unbilled : String → List Ledger → Type 0
Unbilled tenant ls = All (λ l. l.tenant_id ≢ tenant) ls

Unbilled-append_one :
    (tenant : String) (ls : List Ledger) (l : Ledger)
    → Unbilled tenant ls
    → l.tenant_id ≢ tenant
    → Unbilled tenant (ls ++ l ∷ [])
Unbilled-append_one tenant [] l h k = (k, tt)
Unbilled-append_one tenant (q ∷ ls) l (h, hs) k = (h, Unbilled-append_one tenant ls l hs k)

count-Unbilled :
    (tenant : String) (p : Ledger → Bool) (ls : List Ledger)
    → Unbilled tenant ls
    → count (λ (l : Ledger). str_eq l.tenant_id tenant && p l) ls ≡ 0
count-Unbilled tenant p [] h = refl
count-Unbilled tenant p (l ∷ ls) (h, hs) =
    ground (arith, eq_iff l.tenant_id tenant, count-Unbilled tenant p ls hs)

first_number :
    (pf : Platform) (tenant : String) (now : ℕ) (ls : List Ledger)
    → Unbilled tenant ls
    → next_invoice_number pf tenant now ls ≡ String.◌++◌ (number_prefix pf tenant now) (pf.pad4 1)
unfolding next_invoice_number
first_number pf tenant now ls h =
    ap (λ n. String.◌++◌ (number_prefix pf tenant now) (pf.pad4 (n + 1)))
      (count-Unbilled tenant _ ls h)

refuses_taken :
    (id number : String) (ls : List Ledger) (l : Ledger)
    → l.invoice_number ≡ number
    → refuses id number (ls ++ l ∷ []) ≡ true
unfolding refuses
refuses_taken id number [] l e = ground (arith, eq_iff l.invoice_number number)
refuses_taken id number (q ∷ ls) l e = ground (arith, refuses_taken id number ls l e)

-- Of two tenants whose ids begin with the same six characters, up to case, and that have no invoice
-- yet, the second cannot be invoiced in the year of the first one's invoice: the numbers are equal,
-- and the database refuses the second.
pub first_numbers_collide :
    (pf : Platform) (a b : String) (fx gx : Fraction) (currency id_a id_b : String)
    (evaluated now evaluated' later : ℕ) (t t' : Tables) (l : Ledger) (items : List LineItem)
    (s : Subscription)
    → a ≢ b
    → to_upper (slice 6 a) ≡ to_upper (slice 6 b)
    → pf.year now ≡ pf.year later
    → Unbilled a t.ledgers
    → Unbilled b t.ledgers
    → generate_invoice pf a fx currency id_a evaluated now t ≡ ok (l, items, t')
    → need_subscription pf b t' ≡ ok s
    → generate_invoice pf b gx currency id_b evaluated' later t' ≡ err constraint
unfolding number_prefix new_ledger
first_numbers_collide pf a b fx gx currency id_a id_b evaluated now evaluated' later t t' l items s
      differ same_name same_year no_a no_b done need =
    let (s', _, _, same, _, final) =
      generated pf a fx currency id_a evaluated now t l items t' done in
    let ledgers : t'.ledgers ≡ t.ledgers ++ l ∷ [] = rw (final, same) refl in
    let mine : l.tenant_id ≡ a = ap (λ (x : Ledger). x.tenant_id) same in
    let unbilled : Unbilled b t'.ledgers =
      rw ledgers (Unbilled-append_one b t.ledgers l no_b (λ e. differ (sym mine ∙ e))) in
    let number_a : l.invoice_number ≡ String.◌++◌ (number_prefix pf a now) (pf.pad4 1) =
      ap (λ (x : Ledger). x.invoice_number) same ∙ first_number pf a now t.ledgers no_a in
    let prefixes : number_prefix pf a now ≡ number_prefix pf b later =
      rw (same_name, same_year) refl in
    let taken : refuses id_b (next_invoice_number pf b later t'.ledgers) t'.ledgers ≡ true =
      rw (first_number pf b later t'.ledgers unbilled, ledgers)
        (refuses_taken id_b _ t.ledgers l
          (number_a ∙ ap (λ x. String.◌++◌ x (pf.pad4 1)) prefixes)) in
    generate_from pf b gx currency id_b evaluated' later t' s need ∙ rw taken refl
