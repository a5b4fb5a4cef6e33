-- ===== src/Commercial/Underwriting/Trace.antt =====
-- The golden threads over any sequence of the engine's calls.
use caas_lite.Prelude.{
  ℕ, ◌≡◌, refl, sym, ◌∙◌, inl, inr, String, false, ◌||◌, List, [], ◌∷◌, ◌++◌, str_eq, eq_iff, arith,
  any, All-append_one, All-mono, Option-cases,
}
use caas_lite.Commercial.Tables.{
  Registry, Snapshot, Subscription, Tables, constraint, Result, ok, err, Platform,
}
use caas_lite.Commercial.Results.{guarded-ok, bind-ok, ok-injective}
use caas_lite.Commercial.Subscriptions.{
  NewSubscription, create_subscription, record_validation_run, need_subscription, find_subscription,
}
use caas_lite.Commercial.Invoices.{generate_invoice}
use caas_lite.Commercial.Invoices.Laws.{generated}
use caas_lite.Commercial.Underwriting.{new_registry, register_policy}
use caas_lite.Commercial.Underwriting.Audit.{has_token}
use caas_lite.Commercial.Underwriting.Thread.{
  seed, has_registry, IsKeyed, IsChained, thread_unreferenced,
}
use caas_lite.Commercial.Underwriting.Chain.{audit-IsChained}
use caas_lite.Commercial.Tokens.{save_discount, apply_premium_reduction_token}
use caas_lite.Commercial.Tokens.Laws.{applied_from}
use caas_lite.Commercial.System.{
  Call, subscribe, run, invoice, register, audit, apply, after_call, step, steps,
}

has_registry-append_one :
    (i : String) (rs : List Registry) (r : Registry)
    → has_registry i (rs ++ r ∷ []) ≡ (has_registry i rs || str_eq r.id i)
has_registry-append_one i [] r = ground arith
has_registry-append_one i (q ∷ rs) r = ground (arith, has_registry-append_one i rs r)

append_one-IsKeyed :
    (rs : List Registry) (r : Registry)
    → has_registry r.id rs ≡ false
    → IsKeyed rs
    → IsKeyed (rs ++ r ∷ [])
append_one-IsKeyed [] r h k = (refl, tt)
append_one-IsKeyed (q ∷ rs) r h (k, ks) = ground (
  arith,
  eq_iff q.id r.id,
  eq_iff r.id q.id,
  has_registry-append_one q.id rs r,
  append_one-IsKeyed rs r (ground arith) ks,
)

-- The ids of the entries among ids and policy numbers.
id_free :
    (id number : String) (rs : List Registry)
    → any (λ (r : Registry). str_eq r.id id || str_eq r.policy_number number) rs ≡ false
    → has_registry id rs ≡ false
id_free id number [] h = refl
id_free id number (r ∷ rs) h = ground (arith, id_free id number rs)

new-IsChained :
    (pf : Platform) (rs : List Registry) (ss : List Snapshot) (r : Registry)
    → has_registry r.id rs ≡ false
    → r.golden_thread_hash ≡ seed pf r
    → IsChained pf rs ss
    → IsChained pf (rs ++ r ∷ []) ss
new-IsChained pf rs ss r free e (keyed, golden, referenced) = (
  append_one-IsKeyed rs r free keyed,
  All-append_one _ rs r golden
      (e ∙ sym (thread_unreferenced pf r.id (seed pf r) rs ss free referenced)),
  All-mono _ _ ss (λ s h. ground (arith, h, has_registry-append_one s.registry_id rs r)) referenced,
)

abbrev Keeps : Platform → Tables → Type 0
Keeps pf t = IsChained pf t.registries t.snapshots

after_call-Keeps :
    {A : Type 0} (pf : Platform) (t : Tables) (f : A → Tables) (r : Result A)
    → Keeps pf t
    → ((a : A) → r ≡ ok a → Keeps pf (f a))
    → Keeps pf (after_call t f r)
after_call-Keeps pf t f (ok a) h k = k a refl
after_call-Keeps pf t f (err e) h k = h

create_subscription-threads :
    (pf : Platform) (p : NewSubscription) (id : String) (now : ℕ) (t : Tables)
    (r : Subscription × Tables)
    → create_subscription pf p id now t ≡ ok r
    → (r.1.registries ≡ t.registries) × (r.1.snapshots ≡ t.snapshots)
unfolding create_subscription
create_subscription-threads pf p id now t r e =
    elim (Option-cases (find_subscription p.tenant_id t.subscriptions)) [
      | inl none_yet ↦ ground arith
      | inr (s, found) ↦ ground arith
    ]

-- The token id that an audit draws is not in use.
abbrev pub DrawsNew : Tables → Call → Type 0
DrawsNew t (audit tenant registry snapshot token now) = has_token token t.tokens ≡ false
DrawsNew t _ = Unit

abbrev pub AllDrawNew : Platform → Tables → List Call → Type 0
AllDrawNew pf t [] = Unit
AllDrawNew pf t (c ∷ cs) = DrawsNew t c × AllDrawNew pf (step pf t c) cs

step-IsChained :
    (pf : Platform) (t : Tables) (c : Call)
    → DrawsNew t c
    → IsChained pf t.registries t.snapshots
    → let t' = step pf t c in IsChained pf t'.registries t'.snapshots
unfolding step new_registry register_policy record_validation_run save_discount
step-IsChained pf t (subscribe p id now) d h =
    after_call-Keeps pf t _ (create_subscription pf p id now t) h
      λ r e. let (same, same') = create_subscription-threads pf p id now t r e in rw (same, same') h
step-IsChained pf t (run tenant now) d h =
    after_call-Keeps pf t _ (record_validation_run pf tenant now t) h λ r e.
      let (s, _, e2) = bind-ok (need_subscription pf tenant t) _ r e in rw (sym (ok-injective e2)) h
step-IsChained pf t (invoice tenant fx currency id evaluated now) d h =
    after_call-Keeps pf t _ (generate_invoice pf tenant fx currency id evaluated now t) h
      λ (l, items, t') e.
        let (s, _, _, _, _, final) =
          generated pf tenant fx currency id evaluated now t l items t' e in
        rw final h
step-IsChained pf t (register p id now) d h =
    after_call-Keeps pf t _ (register_policy pf p id now t) h λ r e.
      let (free, same) = guarded-ok _ constraint _ r e in
      rw (sym same) (
        new-IsChained pf t.registries t.snapshots (new_registry pf p id now)
          (id_free id p.policy_number t.registries free) refl h)
step-IsChained pf t (audit tenant registry snapshot token now) d h =
    audit-IsChained pf tenant registry snapshot token now t d h
step-IsChained pf t (apply ledger token now) d h =
    after_call-Keeps pf t _ (apply_premium_reduction_token pf ledger token now t) h
      λ r e. let (l, k, _, _, _, same) = applied_from pf ledger token now t r e in rw same h

-- Over any sequence of calls in which no audit draws the id of a token in use, the hash of every
-- registered policy stays the chain from its seed over the snapshots of all its audits, in order.
pub steps-IsChained :
    (pf : Platform) (cs : List Call) (t : Tables)
    → AllDrawNew pf t cs
    → IsChained pf t.registries t.snapshots
    → let t' = steps pf t cs in IsChained pf t'.registries t'.snapshots
unfolding steps
steps-IsChained pf [] t d h = h
steps-IsChained pf (c ∷ cs) t (d, ds) h =
    steps-IsChained pf cs (step pf t c) ds (step-IsChained pf t c d h)
