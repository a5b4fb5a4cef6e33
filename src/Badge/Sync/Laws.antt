-- ===== src/Badge/Sync/Laws.antt =====
-- What a sync leaves in the registry and the history.
use mathlib.Core.Option
use caas_lite.Prelude.{
  ℕ, ◌≡◌, ◌⊎◌, ◌↔◌, refl, String, true, Option, none, some, List, [], ◌∷◌, ◌++◌, inl, inr, str_eq,
  eq_iff, arith, Option-cases, Bool-cases, if◌then◌else◌,
}
use caas_lite.Database.{BadgeState, BadgeRow, BadgeHistoryRow, Database}
use caas_lite.Badge.Sync.{
  SyncBadgeResult, find_badge, update_badge, is_unchanged, history_row, renewed, first_row, written,
  kept, write_badge,
}

pub find_badge-update_badge :
    (j k : String) (f : BadgeRow → BadgeRow) (rs : List BadgeRow)
    → ((r : BadgeRow) → (f r).tenant_id ≡ r.tenant_id)
    → find_badge j (update_badge k f rs)
      ≡ elim (find_badge j rs) [ none ↦ none | some r ↦ some (if str_eq k j then f r else r) ]
unfolding find_badge update_badge
find_badge-update_badge j k f [] h = refl
find_badge-update_badge j k f (r ∷ rs) h = ground (
  arith,
  eq_iff r.tenant_id k,
  eq_iff r.tenant_id j,
  eq_iff k j,
  h r,
  find_badge-update_badge j k f rs h,
)

pub find_badge-append_one :
    (j : String) (r : BadgeRow) (rs : List BadgeRow)
    → find_badge j (rs ++ r ∷ []) ≡ elim (find_badge j rs) [
      | some q ↦ some q
      | none ↦ if str_eq r.tenant_id j then some r else none
    ]
unfolding find_badge
find_badge-append_one j r [] = refl
find_badge-append_one j r (q ∷ rs) = ground (arith, find_badge-append_one j r rs)

is_unchanged_iff :
    (c : BadgeState × Option String) (r : BadgeRow)
    → (is_unchanged c r ≡ true) ↔ ((r.badge_state ≡ c.0) × (r.state_reason ≡ c.1))
unfolding is_unchanged
is_unchanged_iff (state, none) r = ground arith
is_unchanged_iff (state, some reason) r = grind (arith, eq_iff)

-- The badge that a tenant has.
abbrev pub badge_of : String → List BadgeRow → Option BadgeState
badge_of tenant rs = Option.map (λ (r : BadgeRow). r.badge_state) (find_badge tenant rs)

-- The state that the history last records for a tenant.
unfoldable pub last_state : String → Option BadgeState → List BadgeHistoryRow → Option BadgeState
last_state tenant before [] = before
last_state tenant before (h ∷ hs) =
    last_state tenant (if str_eq h.tenant_id tenant then some h.to_state else before) hs

pub last_state-append_one :
    (j : String) (before : Option BadgeState) (h : BadgeHistoryRow) (hs : List BadgeHistoryRow)
    → last_state j before (hs ++ h ∷ [])
      ≡ (if str_eq h.tenant_id j then some h.to_state else last_state j before hs)
unfolding last_state
last_state-append_one j before h [] = refl
last_state-append_one j before h (g ∷ hs) =
    last_state-append_one j (if str_eq g.tenant_id j then some g.to_state else before) h hs

module _ (c : BadgeState × Option String) (sig : String) (now : ℕ) (id tenant account : String)
    (db : Database) where
  abbrev after : Database
  after = (write_badge c sig now id tenant account db).1

  abbrev answer : SyncBadgeResult
  answer = (write_badge c sig now id tenant account db).0

  -- The three ways in which a sync can go.
  abbrev Kept : Type 0
  Kept =
      (r : BadgeRow) × (find_badge tenant db.registry ≡ some r)
      × ((r.badge_state ≡ c.0) × (r.state_reason ≡ c.1))
      × (write_badge c sig now id tenant account db ≡ (kept r, db))

  abbrev Renewed : Type 0
  Renewed =
      (r : BadgeRow) × (find_badge tenant db.registry ≡ some r)
      × (¬ ((r.badge_state ≡ c.0) × (r.state_reason ≡ c.1)))
      × (write_badge c sig now id tenant account db ≡ (
        written c sig,
        record db {
          registry = update_badge tenant (renewed c sig now) db.registry;
          history = db.history ++ history_row id tenant account (some r.badge_state) c now ∷ [];
        },
      ))

  abbrev Created : Type 0
  Created =
      (find_badge tenant db.registry ≡ none)
      × (write_badge c sig now id tenant account db ≡ (
        written c sig,
        record db {
          registry = db.registry ++ first_row tenant account c sig now ∷ [];
          history = db.history ++ history_row id tenant account none c now ∷ [];
        },
      ))

  pub write_badge_cases : Kept ⊎ Renewed ⊎ Created
  unfolding write_badge
  write_badge_cases = elim (Option-cases (find_badge tenant db.registry)) [
    | inl e ↦ inr (inr (e, ground arith))
    | inr (r, e) ↦ elim (Bool-cases (is_unchanged c r)) [
      | inl u ↦ inl (r, e, (is_unchanged_iff c r).0 u, ground arith)
      | inr u ↦ inr (inl (r, e, (λ same. ground (arith, is_unchanged_iff c r)), ground arith))
    ]
  ]

  -- Where the row shows the computed state and reason already, nothing is written.
  pub write_badge_same :
      (r : BadgeRow)
      → find_badge tenant db.registry ≡ some r
      → (r.badge_state ≡ c.0) × (r.state_reason ≡ c.1)
      → write_badge c sig now id tenant account db ≡ (kept r, db)
  unfolding write_badge
  write_badge_same r e same =
      let u : is_unchanged c r ≡ true = (is_unchanged_iff c r).1 same in ground (arith, e, u)
