-- ===== src/Insurance/Handlers/Laws.antt =====
-- What the handlers keep from a caller of another tenant, and the order of the listing.
use caas_lite.Prelude.{
  ℕ, ◌≤◌, ◌≡◌, ◌≢◌, refl, String, Bool, false, Option, some, List, [], ◌∷◌, str_eq, eq_iff, arith,
  Option-cases, if_both, ◌&&◌, filter, length, All, count, leb, Bool-cases, inl, inr,
}
use caas_lite.Database.{WarrantyRow, AccountRow, Database, Runtime}
use caas_lite.Badge.Secrets.{ResolvedSecrets}
use caas_lite.Insurance.Recompute.{find_warranty}
use caas_lite.Insurance.Handlers.{
  Caller, not_found, policies, get_tenant_id, is_caller_super_admin, may_access, insert_by_time,
  sort_by_time, list_policies, get_policy, find_account, bind_policy, recompute_policy,
  attach_external,
}

-- The caller belongs to another tenant than the row's, and has no platform-wide role.
abbrev pub IsForeign : Caller → String → Database → Type 0
IsForeign c tenant db = (tenant ≢ get_tenant_id c) × (is_caller_super_admin c db ≡ false)

foreign_denied :
    (c : Caller) (tenant : String) (db : Database)
    → IsForeign c tenant db
    → may_access c tenant db ≡ false
unfolding may_access
foreign_denied c tenant db (other, no_role) =
    ground (arith, other, no_role, eq_iff tenant (get_tenant_id c))

-- To a caller who is foreign to the warranty of an id, if there is one, reading, recomputing and
-- attaching answer that there is no such warranty, and the database stays as it was.
pub foreign_not_found :
    (rt : Runtime) (s : ResolvedSecrets) (now : ℕ) (ids : String × String) (c : Caller)
    (id : String) (carrier number : Option String) (db : Database)
    → ((w : WarrantyRow) → find_warranty id db.warranties ≡ some w → IsForeign c w.tenant_id db)
    → (get_policy c id db ≡ not_found "Policy not found")
      × (recompute_policy rt s now ids c id db ≡ (not_found "Policy not found", db))
      × (attach_external now ids.0 c id carrier number db ≡ (not_found "Policy not found", db))
unfolding get_policy recompute_policy attach_external
foreign_not_found rt s now ids c id carrier number db foreign =
    elim (Option-cases (find_warranty id db.warranties)) [
      | inl e ↦ (ground (arith, e), ground (arith, e), ground (arith, e))
      | inr (w, e) ↦
          let denied = foreign_denied c w.tenant_id db (foreign w e) in
          (ground (arith, e, denied), ground (arith, e, denied), ground (arith, e, denied))
    ]

-- To a caller who is foreign to the account of an id, if there is one, binding a warranty answers
-- that there is no such account, and the database stays as it was.
pub foreign_bind_not_found :
    (rt : Runtime) (s : ResolvedSecrets) (now : ℕ) (ids : String × String × String) (c : Caller)
    (account : String) (ends : Option String) (db : Database)
    → ((a : AccountRow) → find_account account db.accounts ≡ some a → IsForeign c a.tenant_id db)
    → bind_policy rt s now ids c account ends db ≡ (not_found "Account not found", db)
unfolding bind_policy
foreign_bind_not_found rt s now ids c account ends db foreign =
    elim (Option-cases (find_account account db.accounts)) [
      | inl e ↦ ground (arith, e)
      | inr (a, e) ↦
          let denied = foreign_denied c a.tenant_id db (foreign a e) in ground (arith, e, denied)
    ]

-- The listing: newest first, and every one of the caller's rows as often as in the table.
abbrev pub Descends : List WarrantyRow → Type 0
Descends [] = Unit
Descends (w ∷ ws) =
    All (λ (v : WarrantyRow). v.state_changed_at ≤ w.state_changed_at) ws × Descends ws

All-map :
    (P Q : WarrantyRow → Type 0)
    → ((w : WarrantyRow) → P w → Q w)
    → (ws : List WarrantyRow) → All P ws
    → All Q ws
All-map P Q f [] all = tt
All-map P Q f (w ∷ ws) (p, all) = (f w p, All-map P Q f ws all)

All-insert_by_time :
    (P : WarrantyRow → Type 0) (w : WarrantyRow) (ws : List WarrantyRow)
    → P w
    → All P ws
    → All P (insert_by_time w ws)
unfolding insert_by_time
All-insert_by_time P w [] p all = (p, tt)
All-insert_by_time P w (v ∷ vs) p (q, all) =
    if_both (All P) (leb v.state_changed_at w.state_changed_at) (w ∷ v ∷ vs)
      (v ∷ insert_by_time w vs) (p, (q, all)) (q, All-insert_by_time P w vs p all)

insert_by_time-Descends :
    (w : WarrantyRow) (ws : List WarrantyRow) → Descends ws → Descends (insert_by_time w ws)
unfolding insert_by_time
insert_by_time-Descends w [] d = (tt, tt)
insert_by_time-Descends w (v ∷ vs) (below, d) =
    elim (Bool-cases (leb v.state_changed_at w.state_changed_at)) [
      | inl e ↦
          let le : v.state_changed_at ≤ w.state_changed_at = ground (arith, e) in
          rw e ((le, All-map _ _ (λ u l. omega (arith, le, l)) vs below), (below, d))
      | inr e ↦
          let le : w.state_changed_at ≤ v.state_changed_at = ground (arith, e) in
          rw e (All-insert_by_time _ w vs le below, insert_by_time-Descends w vs d)
    ]

sort_by_time-Descends : (ws : List WarrantyRow) → Descends (sort_by_time ws)
unfolding sort_by_time
sort_by_time-Descends [] = tt
sort_by_time-Descends (w ∷ ws) =
    insert_by_time-Descends w (sort_by_time ws) (sort_by_time-Descends ws)

count-insert_by_time :
    (p : WarrantyRow → Bool) (w : WarrantyRow) (ws : List WarrantyRow)
    → count p (insert_by_time w ws) ≡ count p (w ∷ ws)
unfolding insert_by_time
count-insert_by_time p w [] = refl
count-insert_by_time p w (v ∷ vs) = ground (arith, count-insert_by_time p w vs)

count-sort_by_time :
    (p own : WarrantyRow → Bool) (ws : List WarrantyRow)
    → count p (sort_by_time (filter own ws)) ≡ count (λ w. own w && p w) ws
unfolding sort_by_time
count-sort_by_time p own [] = refl
count-sort_by_time p own (w ∷ ws) =
    ground
      (arith, count-insert_by_time p w (sort_by_time (filter own ws)), count-sort_by_time p own ws)

-- The listing answers with rows in descending order of their last change of state, of which any
-- test holds as often as it holds, together with being of the caller's tenant, in the table; so
-- it shows all rows of the caller's tenant, each once, and no other.
pub list_policies_own :
    (c : Caller) (db : Database)
    → (rows : List WarrantyRow) × (list_policies c db ≡ policies rows (length rows))
      × Descends rows
      × ((p : WarrantyRow → Bool)
          → count p rows
            ≡ count
                (λ (w : WarrantyRow). str_eq w.tenant_id (get_tenant_id c) && p w)
                db.warranties)
unfolding list_policies
list_policies_own c db = (
  _,
  refl,
  sort_by_time-Descends _,
  λ p.
      count-sort_by_time p (λ (w : WarrantyRow). str_eq w.tenant_id (get_tenant_id c))
        db.warranties,
)
