-- ===== src/Commercial/Underwriting/Thread.antt =====
-- The golden thread: the hash of a registry's entry against the chain of its audits' snapshots.
use caas_lite.Prelude.{
  ◌≡◌, refl, sym, ap, inl, inr, String, Bool, true, false, ◌&&◌, some, List, [], ◌∷◌, ◌++◌,
  if◌then◌else◌, str_eq, eq_iff, arith, any, All, Bool-cases,
}
use caas_lite.Commercial.Tables.{Registry, Snapshot, Platform}
use caas_lite.Commercial.Underwriting.{
  find_registry, update_registry, set_token, seed_hash, chain_hash,
}

-- The chain from a hash over the snapshots of a registry's entry.
unfoldable pub thread : Platform → String → String → List Snapshot → String
thread pf id h [] = h
thread pf id h (s ∷ ss) =
    thread pf id (if str_eq s.registry_id id then chain_hash pf h s.snapshot_hash else h) ss

abbrev pub seed : Platform → Registry → String
seed pf r = seed_hash pf r.id r.tenant_id r.policy_number r.carrier_name

abbrev pub has_registry : String → List Registry → Bool
has_registry id rs = any (λ (r : Registry). str_eq r.id id) rs

-- Every entry has an id of its own.
abbrev pub IsKeyed : List Registry → Type 0
IsKeyed [] = Unit
IsKeyed (r ∷ rs) = (has_registry r.id rs ≡ false) × IsKeyed rs

-- Every entry's hash is the chain from its seed over all snapshots of it, and every snapshot is one
-- of a registered entry.
abbrev pub IsChained : Platform → List Registry → List Snapshot → Type 0
IsChained pf rs ss =
    IsKeyed rs
    × All (λ r. r.golden_thread_hash ≡ thread pf r.id (seed pf r) ss) rs
    × All (λ s. has_registry s.registry_id rs ≡ true) ss

module _ (pf : Platform) where
  pub thread-append_one :
      (id : String) (ss : List Snapshot) (h : String) (s : Snapshot)
      → thread pf id h (ss ++ s ∷ []) ≡ (
          if str_eq s.registry_id id
          then chain_hash pf (thread pf id h ss) s.snapshot_hash
          else thread pf id h ss)
  unfolding thread
  thread-append_one id [] h s = refl
  thread-append_one id (q ∷ ss) h s = thread-append_one id ss _ s

  pub thread-set_token :
      (id snapshot token : String) (ss : List Snapshot) (h : String)
      → thread pf id h (set_token snapshot token ss) ≡ thread pf id h ss
  unfolding thread set_token
  thread-set_token id snapshot token [] h = refl
  thread-set_token id snapshot token (s ∷ ss) h = elim (Bool-cases (str_eq s.id snapshot)) [
    | inl e ↦ rw e (thread-set_token id snapshot token ss _)
    | inr e ↦ rw e (thread-set_token id snapshot token ss _)
  ]

  -- A chain without snapshots of the entry is its start.
  pub thread_unreferenced :
      (id h : String) (rs : List Registry) (ss : List Snapshot)
      → has_registry id rs ≡ false
      → All (λ s. has_registry s.registry_id rs ≡ true) ss
      → thread pf id h ss ≡ h
  unfolding thread
  thread_unreferenced id h rs [] e a = refl
  thread_unreferenced id h rs (s ∷ ss) e (a, as') = elim (Bool-cases (str_eq s.registry_id id)) [
    | inl same ↦
        let same_id : s.registry_id ≡ id = ground (arith, eq_iff s.registry_id id) in
        absurd (ground (arith, ap (λ i. has_registry i rs) same_id))
    | inr other ↦ rw other (thread_unreferenced id h rs ss e as')
  ]

pub found_has :
    (id tenant : String) (rs : List Registry) (r : Registry)
    → find_registry id tenant rs ≡ some r
    → has_registry r.id rs ≡ true
unfolding find_registry
found_has id tenant [] r e = cc
found_has id tenant (q ∷ rs) r e = ground (arith, eq_iff q.id r.id, found_has id tenant rs r)

absent :
    (id h : String) (rs : List Registry)
    → has_registry id rs ≡ false
    → All (λ q. q.id ≡ id → q.golden_thread_hash ≡ h) rs
absent id h [] e = tt
absent id h (q ∷ rs) e =
    ((λ same. absurd (ground (arith, eq_iff q.id id))), absent id h rs (ground arith))

-- The entries with the id of the one found have its hash.
pub same_entry :
    (id tenant : String) (rs : List Registry) (r : Registry)
    → IsKeyed rs
    → find_registry id tenant rs ≡ some r
    → All (λ q. q.id ≡ r.id → q.golden_thread_hash ≡ r.golden_thread_hash) rs
unfolding find_registry
same_entry id tenant [] r k e = tt
same_entry id tenant (q ∷ rs) r (k, ks) e =
    elim (Bool-cases (str_eq q.id id && str_eq q.tenant_id tenant)) [
      | inl here ↦
          let same : q ≡ r = ground arith in
          (
            (λ _. ap (λ (x : Registry). x.golden_thread_hash) same),
            absent r.id r.golden_thread_hash rs (rw (sym same) k),
          )
      | inr later ↦
          let e' : find_registry id tenant rs ≡ some r = ground arith in
          let has = found_has id tenant rs r e' in
          (
            (λ clash. absurd (ground (arith, ap (λ i. has_registry i rs) clash))),
            same_entry id tenant rs r ks e',
          )
    ]

pub has-update :
    (i id : String) (f : Registry → Registry) (rs : List Registry)
    → ((r : Registry) → (f r).id ≡ r.id)
    → has_registry i (update_registry id f rs) ≡ has_registry i rs
unfolding update_registry
has-update i id f [] h = refl
has-update i id f (r ∷ rs) h = ground (arith, h r, has-update i id f rs h)

pub update-IsKeyed :
    (id : String) (f : Registry → Registry) (rs : List Registry)
    → ((r : Registry) → (f r).id ≡ r.id)
    → IsKeyed rs
    → IsKeyed (update_registry id f rs)
unfolding update_registry
update-IsKeyed id f [] h k = tt
update-IsKeyed id f (r ∷ rs) h (k, ks) =
    ground (arith, h r, has-update r.id id f rs h, update-IsKeyed id f rs h ks)
