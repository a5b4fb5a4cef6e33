-- ===== src/Commercial/Lifecycle/Single.antt =====
-- How many issued tokens a tenant has.
use caas_lite.Prelude.{
  ℕ, ◌+◌, ◌≤◌, ◌≡◌, ◌≢◌, refl, String, Bool, ◌&&◌, List, [], ◌∷◌, ◌++◌, if◌then◌else◌, str_eq,
  eq_iff, arith, count, Bool-cases, inl, inr,
}
use caas_lite.Commercial.Tables.{Token, TokenStatus}
use caas_lite.Commercial.Commitment.{token_status_eq}
use caas_lite.Commercial.Invoices.{update_token, spent}
use caas_lite.Commercial.Underwriting.{revoke_others}
use caas_lite.Commercial.Lifecycle.{Without}

abbrev pub is_issued_to : String → Token → Bool
is_issued_to tenant k = str_eq k.tenant_id tenant && token_status_eq k.status TokenStatus.issued

abbrev pub issued_count : String → List Token → ℕ
issued_count tenant ks = count (is_issued_to tenant) ks

pub spent-count :
    (o id ledger : String) (now : ℕ) (ks : List Token)
    → issued_count o (update_token id (spent ledger now) ks) ≤ issued_count o ks
unfolding update_token
spent-count o id ledger now [] = omega arith
spent-count o id ledger now (k ∷ ks) = ground (arith, spent-count o id ledger now ks)

pub append_one-count :
    (o : String) (k : Token) (ks : List Token)
    → issued_count o (ks ++ k ∷ []) ≡ issued_count o ks + (if is_issued_to o k then 1 else 0)
append_one-count o k [] = ground arith
append_one-count o k (q ∷ ks) = ground (arith, append_one-count o k ks)

pub revoke_others-other :
    (o tenant id : String) (ks : List Token)
    → o ≢ tenant
    → issued_count o (revoke_others tenant id ks) ≡ issued_count o ks
unfolding revoke_others
revoke_others-other o tenant id [] h = refl
revoke_others-other o tenant id (k ∷ ks) h =
    ground
      (arith, eq_iff k.tenant_id tenant, eq_iff k.tenant_id o, revoke_others-other o tenant id ks h)

-- Of the tenant's tokens only those with the kept id remain issued.
pub revoke_others-none :
    (tenant id : String) (ks : List Token)
    → Without id ks
    → issued_count tenant (revoke_others tenant id ks) ≡ 0
unfolding revoke_others
revoke_others-none tenant id [] h = refl
revoke_others-none tenant id (k ∷ ks) (h, hs) =
    ground (arith, eq_iff k.id id, revoke_others-none tenant id ks hs)

revoke_others-append :
    (tenant id : String) (ks qs : List Token)
    → revoke_others tenant id (ks ++ qs) ≡ revoke_others tenant id ks ++ revoke_others tenant id qs
unfolding revoke_others
revoke_others-append tenant id [] qs = refl
revoke_others-append tenant id (k ∷ ks) qs = rw (revoke_others-append tenant id ks qs) refl

kept_one :
    (tenant : String) (k : Token)
    → k.tenant_id ≡ tenant
    → revoke_others tenant k.id (k ∷ []) ≡ k ∷ []
unfolding revoke_others
kept_one tenant k e = ground (arith, eq_iff k.id k.id)

-- A tenant's new token supersedes its others, and leaves those of the other tenants.
pub supersede-count :
    (o tenant : String) (k : Token) (ks : List Token)
    → k.tenant_id ≡ tenant
    → Without k.id ks
    → issued_count o ks ≤ 1
    → issued_count o (revoke_others tenant k.id (ks ++ k ∷ [])) ≤ 1
supersede-count o tenant k ks e w h =
    rw (revoke_others-append, kept_one tenant k e, append_one-count)
      (elim (Bool-cases (str_eq o tenant)) [
        | inl same ↦ ground (arith, eq_iff o tenant, revoke_others-none tenant k.id ks w)
        | inr other ↦
            ground
              (arith, eq_iff o tenant, eq_iff k.tenant_id o, revoke_others-other o tenant k.id ks)
      ])
