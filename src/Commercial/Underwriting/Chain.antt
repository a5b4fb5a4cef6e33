-- ===== src/Commercial/Underwriting/Chain.antt =====
-- Registering a policy and auditing one keep the golden threads.
use caas_lite.Prelude.{
  ℕ, ◌≡◌, refl, sym, ap, ◌∙◌, inl, inr, String, true, false, some, List, [], ◌∷◌, ◌++◌, str_eq,
  eq_iff, arith, All, All-append_one, All-mono, Bool-cases,
}
use caas_lite.Commercial.Tables.{Registry, Snapshot, Tables, Result, Platform}
use caas_lite.Commercial.Underwriting.{
  find_registry, update_registry, set_token, audited, assess, new_snapshot, new_token, chain_hash,
  close_audit, RiskResult, compute_underwriting_risk_score,
}
use caas_lite.Commercial.Underwriting.Audit.{audit_cases, has_token}
use caas_lite.Commercial.Underwriting.Thread.{
  thread, seed, has_registry, IsChained, thread-append_one, thread-set_token, found_has, same_entry,
  has-update, update-IsKeyed,
}

-- The threads of the entries after one of them took up a new snapshot of its own.
golden_update :
    (pf : Platform) (s : Snapshot) (h id : String) (f : Registry → Registry) (rs : List Registry)
    (ss : List Snapshot)
    → s.registry_id ≡ id
    → ((r : Registry) → (f r).golden_thread_hash ≡ chain_hash pf h s.snapshot_hash)
    → ((r : Registry) → ((f r).id ≡ r.id) × (seed pf (f r) ≡ seed pf r))
    → All (λ q. q.id ≡ id → q.golden_thread_hash ≡ h) rs
    → All (λ r. r.golden_thread_hash ≡ thread pf r.id (seed pf r) ss) rs
    → All
        (λ r. r.golden_thread_hash ≡ thread pf r.id (seed pf r) (ss ++ s ∷ []))
        (update_registry id f rs)
unfolding update_registry
golden_update pf s h id f [] ss e g k a c = tt
golden_update pf s h id f (r ∷ rs) ss e g k (a, as') (c, cs) =
    let rest = golden_update pf s h id f rs ss e g k as' cs in
    let grown = thread-append_one pf r.id ss (seed pf r) s in
    elim (Bool-cases (str_eq r.id id)) [
      | inl same ↦
          let same_id : r.id ≡ id = ground (arith, eq_iff r.id id) in
          let grows : thread pf r.id (seed pf r) (ss ++ s ∷ []) ≡ chain_hash pf h s.snapshot_hash =
            ground (arith, grown, c, a same_id, eq_iff s.registry_id r.id) in
          let kept : thread pf (f r).id (seed pf (f r)) (ss ++ s ∷ [])
              ≡ thread pf r.id (seed pf r) (ss ++ s ∷ []) =
            ap (λ i. thread pf i (seed pf (f r)) (ss ++ s ∷ [])) (k r).0
            ∙ ap (λ h. thread pf r.id h (ss ++ s ∷ [])) (k r).1 in
          rw same (g r ∙ sym grows ∙ sym kept, rest)
      | inr other ↦ rw other (c ∙ sym (ground (arith, grown, eq_iff s.registry_id r.id)), rest)
    ]

-- An audit's snapshot and its update of the entry.
audit-IsChained_lem :
    (pf : Platform) (tenant registry : String) (r : Registry) (s : Snapshot)
    (f : Registry → Registry) (rs : List Registry) (ss : List Snapshot)
    → find_registry registry tenant rs ≡ some r
    → s.registry_id ≡ r.id
    → ((q : Registry)
        → (f q).golden_thread_hash ≡ chain_hash pf r.golden_thread_hash s.snapshot_hash)
    → ((q : Registry) → ((f q).id ≡ q.id) × (seed pf (f q) ≡ seed pf q))
    → IsChained pf rs ss
    → IsChained pf (update_registry r.id f rs) (ss ++ s ∷ [])
audit-IsChained_lem pf tenant registry r s f rs ss found e g k (keyed, golden, referenced) =
    let ids = λ (q : Registry). (k q).0 in
    let has = λ (i : String). has-update i r.id f rs ids in
    (
      update-IsKeyed r.id f rs ids keyed,
      golden_update pf s r.golden_thread_hash r.id f rs ss e g k
          (same_entry registry tenant rs r keyed found) golden,
      All-append_one _ ss s (All-mono _ _ ss (λ q h. has q.registry_id ∙ h) referenced) (
          has s.registry_id ∙ ap (λ i. has_registry i rs) e ∙ found_has registry tenant rs r found),
    )

set_token-IsReferenced :
    (snapshot token : String) (rs : List Registry) (ss : List Snapshot)
    → All (λ s. has_registry s.registry_id rs ≡ true) ss
    → All (λ s. has_registry s.registry_id rs ≡ true) (set_token snapshot token ss)
unfolding set_token
set_token-IsReferenced snapshot token rs [] h = tt
set_token-IsReferenced snapshot token rs (s ∷ ss) (h, hs) =
    let rest = set_token-IsReferenced snapshot token rs ss hs in
    elim (Bool-cases (str_eq s.id snapshot)) [ inl e ↦ rw e (h, rest) | inr e ↦ rw e (h, rest) ]

set_token-IsChained :
    (pf : Platform) (snapshot token : String) (rs : List Registry) (ss : List Snapshot)
    → IsChained pf rs ss
    → IsChained pf rs (set_token snapshot token ss)
set_token-IsChained pf snapshot token rs ss (keyed, golden, referenced) = (
  keyed,
  All-mono _ _ rs (λ r h. h ∙ sym (thread-set_token pf r.id snapshot token ss (seed pf r))) golden,
  set_token-IsReferenced snapshot token rs ss referenced,
)

-- An audit keeps the golden threads, unless the id drawn for its token is taken.
pub audit-IsChained :
    (pf : Platform) (tenant registry snapshot token : String) (now : ℕ) (t : Tables)
    → has_token token t.tokens ≡ false
    → IsChained pf t.registries t.snapshots
    → let t' = (compute_underwriting_risk_score pf tenant registry snapshot token now t).1 in
      IsChained pf t'.registries t'.snapshots
unfolding close_audit new_snapshot new_token audited
audit-IsChained pf tenant registry snapshot token now t free h =
    audit_cases (λ (w : Result RiskResult × Tables). IsChained pf w.1.registries w.1.snapshots) pf
      tenant registry snapshot token now t (λ _. h)
      (λ r found.
        let a = assess tenant now t in
        let s = new_snapshot pf snapshot r now a in
        let chained_up = λ (f : Registry → Registry).
          audit-IsChained_lem pf tenant registry r s f t.registries t.snapshots found refl in
        (
          (λ _. h),
          (λ _ _. chained_up _ (λ _. refl) (λ _. (refl, refl)) h),
          (λ pct _ _. (
            (λ clash. absurd (ground arith)),
            (λ _.
                set_token-IsChained pf s.id token _ _
                  (chained_up _ (λ _. refl) (λ _. (refl, refl)) h)),
          )),
        ))
