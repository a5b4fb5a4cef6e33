-- ===== src/Commercial/Subscriptions/Laws.antt =====
-- Reading and writing the subscriptions' table.
use caas_lite.Prelude.{
  ◌≡◌, refl, String, none, some, List, [], ◌∷◌, if◌then◌else◌, str_eq, eq_iff, arith, Option-cases,
  inl, inr,
}
use caas_lite.Commercial.Tables.{Subscription, Tables, ok, Platform}
use caas_lite.Commercial.Subscriptions.{
  find_subscription, update_subscription, expected_hash, get_subscription, need_subscription,
}

pub find_subscription-update :
    (o tenant : String) (f : Subscription → Subscription) (ss : List Subscription)
    → ((s : Subscription) → (f s).tenant_id ≡ s.tenant_id)
    → find_subscription o (update_subscription tenant f ss) ≡ elim (find_subscription o ss) [
      | none ↦ none
      | some s ↦ some (if str_eq o tenant then f s else s)
    ]
unfolding find_subscription update_subscription
find_subscription-update o tenant f [] h = refl
find_subscription-update o tenant f (s ∷ ss) h = ground (
  arith,
  eq_iff s.tenant_id tenant,
  eq_iff s.tenant_id o,
  eq_iff o tenant,
  h s,
  find_subscription-update o tenant f ss h,
)

pub find_subscription_tenant :
    (tenant : String) (s : Subscription) (ss : List Subscription)
    → find_subscription tenant ss ≡ some s
    → s.tenant_id ≡ tenant
unfolding find_subscription
find_subscription_tenant tenant s [] e = cc
find_subscription_tenant tenant s (q ∷ ss) e =
    ground (arith, eq_iff q.tenant_id tenant, find_subscription_tenant tenant s ss)

-- The subscription that a call works on is the stored one, and its hash is right.
pub need_subscription-ok :
    (pf : Platform) (tenant : String) (t : Tables) (s : Subscription)
    → need_subscription pf tenant t ≡ ok s
    → (find_subscription tenant t.subscriptions ≡ some s) × (s.integrity_hash ≡ expected_hash pf s)
unfolding need_subscription get_subscription
need_subscription-ok pf tenant t s e =
    elim (Option-cases (find_subscription tenant t.subscriptions)) [
      | inl h ↦ ground arith
      | inr (q, h) ↦ ground (arith, eq_iff q.integrity_hash (expected_hash pf q))
    ]

pub need_subscription-found :
    (pf : Platform) (tenant : String) (t : Tables) (s : Subscription)
    → find_subscription tenant t.subscriptions ≡ some s
    → s.integrity_hash ≡ expected_hash pf s
    → need_subscription pf tenant t ≡ ok s
unfolding need_subscription get_subscription
need_subscription-found pf tenant t s h k =
    ground (arith, eq_iff s.integrity_hash (expected_hash pf s))
