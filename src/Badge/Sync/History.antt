-- ===== src/Badge/Sync/History.antt =====
-- The history of badges against the registry, and the signatures in the registry.
use mathlib.Core.List.{append-nil, append_assoc}
use caas_lite.Prelude.{
  ℕ, ◌≡◌, ◌≢◌, refl, String, true, Option, none, some, List, [], ◌∷◌, ◌++◌, inl, inr, str_eq,
  eq_iff, arith, Bool-cases,
}
use caas_lite.Database.{BadgeState, BadgeRow, BadgeHistoryRow, Database, Runtime}
use caas_lite.Badge.Secrets.{ResolvedSecrets, sign_badge_state}
use caas_lite.Badge.Sync.{
  BadgeStateInputs, compute_badge_state, find_badge, history_row, renewed, first_row, write_badge,
  sync_badge,
}
use caas_lite.Badge.Sync.Laws.{
  find_badge-update_badge, find_badge-append_one, write_badge_cases, badge_of, last_state,
  last_state-append_one,
}
use caas_lite.Badge.Sync.Registry.{renewed_tenant}

-- Each row of the history starts from the state that the rows before it last record.
abbrev pub IsChained : List BadgeHistoryRow → List BadgeHistoryRow → Type 0
IsChained seen [] = Unit
IsChained seen (h ∷ hs) =
    (h.from_state ≡ last_state h.tenant_id none seen) × IsChained (seen ++ h ∷ []) hs

-- The history is one chain of states for each tenant, which ends in the state of its badge.
pub record IsRecorded (db : Database) : Type 0 where
  pub chained : IsChained [] db.history
  pub current : (t : String) → last_state t none db.history ≡ badge_of t db.registry

IsChained-append_one :
    (h : BadgeHistoryRow) (seen hs : List BadgeHistoryRow)
    → IsChained seen hs
    → h.from_state ≡ last_state h.tenant_id none (seen ++ hs)
    → IsChained seen (hs ++ h ∷ [])
IsChained-append_one h seen [] k e = (rw append-nil at e, tt)
IsChained-append_one h seen (g ∷ hs) (here, later) e =
    (here, IsChained-append_one h (seen ++ g ∷ []) hs later (rw append_assoc e))

module _ (c : BadgeState × Option String) (sig : String) (now : ℕ) (id tenant account : String)
    (db : Database) (k : IsRecorded db) where
  write_badge-IsRecorded : IsRecorded (write_badge c sig now id tenant account db).1
  write_badge-IsRecorded = elim (write_badge_cases c sig now id tenant account db) [
    | inl (r, e, same, w) ↦ rw w k
    | inr rest ↦ elim rest [
      | inl (r, e, differs, w) ↦ rw w (record {
        chained =
            IsChained-append_one _ [] db.history k.chained (ground (arith, k.current tenant, e));
        current = λ t. ground (
          arith,
          eq_iff tenant t,
          k.current t,
          e,
          last_state-append_one t none (history_row id tenant account (some r.badge_state) c now)
              db.history,
          find_badge-update_badge t tenant (renewed c sig now) db.registry
              (renewed_tenant c sig now),
        );
      })
      | inr (e, w) ↦ rw w (record {
        chained =
            IsChained-append_one _ [] db.history k.chained (ground (arith, k.current tenant, e));
        current = λ t. ground (
          arith,
          eq_iff tenant t,
          k.current t,
          e,
          last_state-append_one t none (history_row id tenant account none c now) db.history,
          find_badge-append_one t (first_row tenant account c sig now) db.registry,
        );
      })
    ]
  ]

-- Every badge in the registry carries the signature of its state under the secret.
abbrev pub IsSigned : Runtime → ResolvedSecrets → List BadgeRow → Type 0
IsSigned rt s rs =
    (t : String) (r : BadgeRow)
    → find_badge t rs ≡ some r
    → r.state_signature ≡ sign_badge_state rt s t r.badge_state r.state_changed_at

module _ (rt : Runtime) (s : ResolvedSecrets) (now : ℕ) (id tenant account : String)
    (inputs : BadgeStateInputs) (db : Database) where
  abbrev computed : BadgeState × Option String
  computed = compute_badge_state rt inputs

  -- If each tenant's history is a chain of states that ends in the state of its badge, it is so
  -- after a sync.
  pub sync_badge-IsRecorded :
      IsRecorded db → IsRecorded (sync_badge rt s now id tenant account inputs db).1
  unfolding sync_badge
  sync_badge-IsRecorded k = write_badge-IsRecorded computed _ now id tenant account db k

  -- If every badge carries the signature of its state and time under the secret in force, it is so
  -- after a sync.
  pub sync_badge-IsSigned :
      IsSigned rt s db.registry
      → IsSigned rt s (sync_badge rt s now id tenant account inputs db).1.registry
  unfolding sync_badge
  sync_badge-IsSigned k =
      let sig = sign_badge_state rt s tenant computed.0 now in
      elim (write_badge_cases computed sig now id tenant account db) [
        | inl (r, e, same, w) ↦ rw w k
        | inr rest ↦ elim rest [
          | inl (r, e, differs, w) ↦ rw w (λ t q f. elim (Bool-cases (str_eq tenant t)) [
            | inl hit ↦ ground (
              arith,
              hit,
              eq_iff tenant t,
              e,
              find_badge-update_badge t tenant (renewed computed sig now) db.registry
                  (renewed_tenant computed sig now),
            )
            | inr miss ↦ k t q (
                ground (
                  arith,
                  miss,
                  find_badge-update_badge t tenant (renewed computed sig now) db.registry
                      (renewed_tenant computed sig now),
                ))
          ])
          | inr (e, w) ↦ rw w (λ t q f. elim (Bool-cases (str_eq tenant t)) [
            | inl hit ↦ ground (
              arith,
              hit,
              eq_iff tenant t,
              e,
              find_badge-append_one t (first_row tenant account computed sig now) db.registry,
            )
            | inr miss ↦ k t q (
                ground (
                  arith,
                  miss,
                  find_badge-append_one t (first_row tenant account computed sig now) db.registry,
                ))
          ])
        ]
      ]

  -- Where the tenant's badge has the computed state and another reason, a sync answers changed and
  -- appends a history row from the state to itself.
  pub reason_change_recorded :
      (r : BadgeRow)
      → find_badge tenant db.registry ≡ some r
      → r.badge_state ≡ computed.0
      → r.state_reason ≢ computed.1
      → let (answer, after) = sync_badge rt s now id tenant account inputs db in
        (answer.changed ≡ true)
        × (after.history
            ≡ db.history ++ history_row id tenant account (some computed.0) computed now ∷ [])
  unfolding sync_badge
  reason_change_recorded r e same other =
      let sig = sign_badge_state rt s tenant computed.0 now in
      elim (write_badge_cases computed sig now id tenant account db) [
        | inl (q, f, (_, same_reason), w) ↦ absurd (other (ground (arith, e, f, same_reason)))
        | inr rest ↦ elim rest [
          | inl (q, f, _, w) ↦
              let state : q.badge_state ≡ computed.0 = ground (arith, e, f, same) in
              rw (w, state) (refl, refl)
          | inr (f, w) ↦ absurd (ground (arith, e, f))
        ]
      ]
