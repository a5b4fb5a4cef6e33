-- ===== src/Commercial/Lifecycle.antt =====
-- The life of a premium reduction token: from issued to applied or to revoked.
pub mod Single
pub mod Invariant
pub mod Once
use caas_lite.Prelude.{
  ℕ, suc, ◌+◌, ◌≤◌, ◌≡◌, ◌≢◌, refl, sym, ap, ◌∙◌, ◌⊎◌, inl, inr, String, Bool, true, false, ◌&&◌,
  not, Option, none, some, List, [], ◌∷◌, ◌++◌, if◌then◌else◌, str_eq, eq_iff, arith, All, In,
  count, Bool-cases,
}
use mathlib.Core.Path.{subst}
use caas_lite.Commercial.Tables.{Token, TokenStatus}
use caas_lite.Commercial.Commitment.{token_status_eq}
use caas_lite.Commercial.Invoices.{update_token, spent}
use caas_lite.Commercial.Underwriting.{revoke_others}

-- The transitions of a token's status.
pub data Moves : TokenStatus → TokenStatus → Type 0 where
  stays : {s : TokenStatus} → Moves s s
  applies : Moves TokenStatus.issued TokenStatus.applied
  revokes : Moves TokenStatus.issued TokenStatus.revoked

pub Moves-trans : {a b c : TokenStatus} → Moves a b → Moves b c → Moves a c
Moves-trans stays k = k
Moves-trans applies stays = applies
Moves-trans revokes stays = revokes

-- The tokens of a list live on in another one in the same places, with their identity and value,
-- their status has moved along the transitions, and an applied token is the same.
abbrev pub LivesOn : List Token → List Token → Type 0
LivesOn [] qs = Unit
LivesOn (k ∷ ks) [] = ⊥
LivesOn (k ∷ ks) (q ∷ qs) =
    (q.id ≡ k.id)
    × (q.tenant_id ≡ k.tenant_id)
    × (q.discount_value ≡ k.discount_value)
    × Moves k.status q.status
    × (k.status ≡ TokenStatus.applied → q ≡ k)
    × LivesOn ks qs

pub LivesOn-refl : (ks : List Token) → LivesOn ks ks
LivesOn-refl [] = tt
LivesOn-refl (k ∷ ks) = (refl, refl, refl, stays, (λ _. refl), LivesOn-refl ks)

pub LivesOn-trans : (ks qs rs : List Token) → LivesOn ks qs → LivesOn qs rs → LivesOn ks rs
LivesOn-trans [] qs rs h h' = tt
LivesOn-trans (k ∷ ks) (q ∷ qs) [] h h' = absurd h'
LivesOn-trans (k ∷ ks) [] rs h h' = absurd h
LivesOn-trans (k ∷ ks) (q ∷ qs) (r ∷ rs) (i, n, v, m, a, h) (i', n', v', m', a', h') = (
  i' ∙ i,
  n' ∙ n,
  v' ∙ v,
  Moves-trans m m',
  (λ e. a' (ap (λ (x : Token). x.status) (a e) ∙ e) ∙ a e),
  LivesOn-trans ks qs rs h h',
)

pub LivesOn-append : (ks qs : List Token) → LivesOn ks (ks ++ qs)
LivesOn-append [] qs = tt
LivesOn-append (k ∷ ks) qs = (refl, refl, refl, stays, (λ _. refl), LivesOn-append ks qs)

-- Every token has an id of its own.
abbrev pub Without : String → List Token → Type 0
Without id ks = All (λ k. k.id ≢ id) ks

abbrev pub IsKeyed : List Token → Type 0
IsKeyed [] = Unit
IsKeyed (k ∷ ks) = Without k.id ks × IsKeyed ks

-- The tokens with an id are issued ones.
abbrev pub IsOpen : String → List Token → Type 0
IsOpen id ks = All (λ k. k.id ≡ id → k.status ≡ TokenStatus.issued) ks

Without-IsOpen : (id : String) (ks : List Token) → Without id ks → IsOpen id ks
Without-IsOpen id [] h = tt
Without-IsOpen id (k ∷ ks) (h, hs) = ((λ e. absurd (h e)), Without-IsOpen id ks hs)

Without-In : (id : String) (ks : List Token) (q : Token) → Without id ks → In q ks → q.id ≢ id
Without-In id [] q h i e = absurd i
Without-In id (k ∷ ks) q (h, hs) (inl same) e = h (ap (λ (x : Token). x.id) (sym same) ∙ e)
Without-In id (k ∷ ks) q (h, hs) (inr later) e = Without-In id ks q hs later e

pub keyed-IsOpen :
    (ks : List Token) (q : Token)
    → IsKeyed ks
    → In q ks
    → q.status ≡ TokenStatus.issued
    → IsOpen q.id ks
keyed-IsOpen [] q h i e = tt
keyed-IsOpen (k ∷ ks) q (h, hs) (inl same) e = (
  (λ _. ap (λ (x : Token). x.status) (sym same) ∙ e),
  subst (λ (x : Token). IsOpen x.id ks) (sym same) (Without-IsOpen k.id ks h),
)
keyed-IsOpen (k ∷ ks) q (h, hs) (inr later) e =
    ((λ clash. absurd (Without-In k.id ks q h later (sym clash))), keyed-IsOpen ks q hs later e)

spent-Without :
    (o id ledger : String) (now : ℕ) (ks : List Token)
    → Without o ks
    → Without o (update_token id (spent ledger now) ks)
unfolding update_token
spent-Without o id ledger now [] h = tt
spent-Without o id ledger now (k ∷ ks) (h, hs) = elim (Bool-cases (str_eq k.id id)) [
  | inl e ↦ rw e (h, spent-Without o id ledger now ks hs)
  | inr e ↦ rw e (h, spent-Without o id ledger now ks hs)
]

-- Which tokens `revoke_others` revokes.
abbrev is_other : String → String → Token → Bool
is_other tenant id k =
    str_eq k.tenant_id tenant && token_status_eq k.status TokenStatus.issued && not (str_eq k.id id)

revoke_others-Without :
    (o tenant id : String) (ks : List Token) → Without o ks → Without o (revoke_others tenant id ks)
unfolding revoke_others
revoke_others-Without o tenant id [] h = tt
revoke_others-Without o tenant id (k ∷ ks) (h, hs) = elim (Bool-cases (is_other tenant id k)) [
  | inl e ↦ rw e (h, revoke_others-Without o tenant id ks hs)
  | inr e ↦ rw e (h, revoke_others-Without o tenant id ks hs)
]

append_one-Without :
    (o : String) (k : Token) (ks : List Token) → Without o ks → k.id ≢ o → Without o (ks ++ k ∷ [])
append_one-Without o k [] h w = (w, tt)
append_one-Without o k (q ∷ ks) (h, hs) w = (h, append_one-Without o k ks hs w)

pub spent-LivesOn :
    (id ledger : String) (now : ℕ) (ks : List Token)
    → IsOpen id ks
    → LivesOn ks (update_token id (spent ledger now) ks)
unfolding update_token
spent-LivesOn id ledger now [] h = tt
spent-LivesOn id ledger now (k ∷ ks) (h, hs) =
    let rest = spent-LivesOn id ledger now ks hs in
    elim (Bool-cases (str_eq k.id id)) [
      | inl e ↦
          let was_issued : k.status ≡ TokenStatus.issued = h (ground (arith, eq_iff k.id id)) in
          rw e (
            refl,
            refl,
            refl,
            subst (λ s. Moves s TokenStatus.applied) (sym was_issued) applies,
            (λ e'. absurd (ground (arith, was_issued, e'))),
            rest,
          )
      | inr e ↦ rw e (refl, refl, refl, stays, (λ _. refl), rest)
    ]

pub spent-IsKeyed :
    (id ledger : String) (now : ℕ) (ks : List Token)
    → IsKeyed ks
    → IsKeyed (update_token id (spent ledger now) ks)
unfolding update_token
spent-IsKeyed id ledger now [] h = tt
spent-IsKeyed id ledger now (k ∷ ks) (h, hs) =
    ground (arith, spent-IsKeyed id ledger now ks hs, spent-Without k.id id ledger now ks h)

pub revoke_others-LivesOn :
    (tenant id : String) (ks : List Token) → LivesOn ks (revoke_others tenant id ks)
unfolding revoke_others
revoke_others-LivesOn tenant id [] = tt
revoke_others-LivesOn tenant id (k ∷ ks) =
    let rest = revoke_others-LivesOn tenant id ks in
    elim (Bool-cases (is_other tenant id k)) [
      | inl e ↦
          let was_issued : k.status ≡ TokenStatus.issued = ground arith in
          rw e (
            refl,
            refl,
            refl,
            subst (λ s. Moves s TokenStatus.revoked) (sym was_issued) revokes,
            (λ e'. absurd (ground (arith, was_issued, e'))),
            rest,
          )
      | inr e ↦ rw e (refl, refl, refl, stays, (λ _. refl), rest)
    ]

pub revoke_others-IsKeyed :
    (tenant id : String) (ks : List Token) → IsKeyed ks → IsKeyed (revoke_others tenant id ks)
unfolding revoke_others
revoke_others-IsKeyed tenant id [] h = tt
revoke_others-IsKeyed tenant id (k ∷ ks) (h, hs) =
    ground (arith, revoke_others-IsKeyed tenant id ks hs, revoke_others-Without k.id tenant id ks h)

pub append_one-IsKeyed :
    (k : Token) (ks : List Token) → IsKeyed ks → Without k.id ks → IsKeyed (ks ++ k ∷ [])
append_one-IsKeyed k [] h w = (tt, tt)
append_one-IsKeyed k (q ∷ ks) (h, hs) (w, ws) =
    (append_one-Without q.id k ks h (λ e. w (sym e)), append_one-IsKeyed k ks hs ws)
