-- ===== src/Queue/Worker/Tracking.antt =====
-- The worker pool's invariant, and the lemmas on the jobs in flight that it rests on.
use caas_lite.Prelude.{
  ◌+◌, ◌≤◌, ◌≡◌, ◌≢◌, ◌⊎◌, refl, String, some, List, [], ◌∷◌, inl, inr, str_eq, eq_iff, arith,
  length, Bool-cases,
}
use mathlib.Core.Path.{subst}
use caas_lite.Queue.Job.{processing, Row, Job}
use caas_lite.Queue.Table.{Table, update_row, find_row}
use caas_lite.Queue.Table.Laws.{IsKeyed, find_row-update_row}
use caas_lite.Queue.Worker.{Phase, working, settled, Queue, settle, drop_settled}

-- No working entry for an id.
abbrev pub IsIdle : String → List (Job × Phase) → Type 0
IsIdle id [] = Unit
IsIdle id ((j, working) ∷ js) = (j.id ≢ id) × IsIdle id js
IsIdle id ((j, settled) ∷ js) = IsIdle id js

-- Every working entry is of a row that is marked as processing, and no two are of one row.
abbrev pub IsTracked : Table → List (Job × Phase) → Type 0
IsTracked t [] = Unit
IsTracked t ((j, working) ∷ js) =
    ((r : Row) × (find_row j.id t ≡ some r) × (r.status ≡ processing))
    × IsIdle j.id js
    × IsTracked t js
IsTracked t ((j, settled) ∷ js) = IsTracked t js

-- Between two steps: ids are distinct, no row is worked on twice, every working job's row is
-- processing, and the count of active jobs is that of the slots taken, within the concurrency.
pub record IsConsistent (q : Queue) : Type 0 where
  pub keyed : IsKeyed q.jobs
  pub tracked : IsTracked q.jobs q.in_flight
  pub counted : q.active ≡ length q.in_flight
  pub limited : q.active ≤ q.concurrency

-- A row that is not processing has no working entry.
pub IsIdle-of_status :
    (t : Table) (r : Row) (js : List (Job × Phase))
    → find_row r.id t ≡ some r
    → r.status ≢ processing
    → IsTracked t js
    → IsIdle r.id js
IsIdle-of_status t r [] e n h = tt
IsIdle-of_status t r ((j, working) ∷ js) e n ((p, found, status), idle, h) =
    ((λ same. ground arith), IsIdle-of_status t r js e n h)
IsIdle-of_status t r ((j, settled) ∷ js) e n h = IsIdle-of_status t r js e n h

-- A change of a row without a working entry, that keeps ids, keeps the entries tracked.
pub update_row-IsTracked :
    (id : String) (f : Row → Row) (t : Table) (js : List (Job × Phase))
    → ((r : Row) → (f r).id ≡ r.id)
    → IsIdle id js
    → IsTracked t js
    → IsTracked (update_row id f t) js
update_row-IsTracked id f t [] k i h = tt
update_row-IsTracked id f t ((j, working) ∷ js) k (ne, i) ((r, found, status), idle, h) = (
  (r, ground (arith, find_row-update_row j.id id f t k, eq_iff id j.id), status),
  idle,
  update_row-IsTracked id f t js k i h,
)
update_row-IsTracked id f t ((j, settled) ∷ js) k i h = update_row-IsTracked id f t js k i h

settle-IsIdle_other :
    (id k : String) (js : List (Job × Phase)) → IsIdle k js → IsIdle k (settle id js)
unfolding settle
settle-IsIdle_other id k [] i = tt
settle-IsIdle_other id k ((j, working) ∷ js) i = ground (arith, settle-IsIdle_other id k js i.1)
settle-IsIdle_other id k ((j, settled) ∷ js) i = settle-IsIdle_other id k js i

pub settle-IsTracked :
    (id : String) (t : Table) (js : List (Job × Phase))
    → IsTracked t js
    → IsTracked t (settle id js) × IsIdle id (settle id js)
unfolding settle
settle-IsTracked id t [] h = (tt, tt)
settle-IsTracked id t ((j, working) ∷ js) (found, idle, h) = elim (Bool-cases (str_eq j.id id)) [
  | inl e ↦
      let same : j.id ≡ id = (eq_iff j.id id).0 e in
      rw (e, settle) (h, subst (λ x. IsIdle x js) same idle)
  | inr e ↦
      let (tracked, now_idle) = settle-IsTracked id t js h in
      rw (e, settle)
        (
          (found, settle-IsIdle_other id j.id js idle, tracked),
          ((λ same. ground (arith, eq_iff j.id id)), now_idle),
        )
]
settle-IsTracked id t ((j, settled) ∷ js) h = settle-IsTracked id t js h

pub length-settle : (id : String) (js : List (Job × Phase)) → length (settle id js) ≡ length js
unfolding settle
length-settle id [] = refl
length-settle id ((j, working) ∷ js) = ground (arith, length-settle id js)
length-settle id ((j, settled) ∷ js) = ground (arith, length-settle id js)

drop_settled-IsIdle :
    (id k : String) (js : List (Job × Phase)) → IsIdle k js → IsIdle k (drop_settled id js)
unfolding drop_settled
drop_settled-IsIdle id k [] i = tt
drop_settled-IsIdle id k ((j, working) ∷ js) i = (i.0, drop_settled-IsIdle id k js i.1)
drop_settled-IsIdle id k ((j, settled) ∷ js) i = ground (arith, drop_settled-IsIdle id k js i)

pub drop_settled-IsTracked :
    (id : String) (t : Table) (js : List (Job × Phase))
    → IsTracked t js
    → IsTracked t (drop_settled id js)
unfolding drop_settled
drop_settled-IsTracked id t [] h = tt
drop_settled-IsTracked id t ((j, working) ∷ js) (found, idle, h) =
    (found, drop_settled-IsIdle id j.id js idle, drop_settled-IsTracked id t js h)
drop_settled-IsTracked id t ((j, settled) ∷ js) h = ground (arith, drop_settled-IsTracked id t js h)

-- An entry that waits for its slot to be released.
abbrev pub HasSettled : String → List (Job × Phase) → Type 0
HasSettled id [] = ⊥
HasSettled id ((j, working) ∷ js) = HasSettled id js
HasSettled id ((j, settled) ∷ js) = (j.id ≡ id) ⊎ HasSettled id js

pub length-drop_settled :
    (id : String) (js : List (Job × Phase))
    → HasSettled id js
    → length (drop_settled id js) + 1 ≡ length js
unfolding drop_settled
length-drop_settled id [] h = absurd h
length-drop_settled id ((j, working) ∷ js) h = ground (arith, length-drop_settled id js h)
length-drop_settled id ((j, settled) ∷ js) h =
    ground (arith, eq_iff j.id id, length-drop_settled id js)
