-- ===== src/Queue/Worker/Invariant.antt =====
-- Every operation of the queue keeps the worker pool consistent.
use caas_lite.Prelude.{
  ℕ, ◌+◌, ◌≡◌, refl, String, true, not, List, [], ◌∷◌, ◌++◌, inl, inr, leb, arith, filter,
  Option-cases, Bool-cases,
}
use mathlib.Core.Path.{subst}
use caas_lite.Queue.Job.{processing, dead, status_eq, JobDefinition, Row, Job, max_date}
use caas_lite.Queue.Table.{
  Table, update_row, find_row, conflicts, mark_completed, mark_dead, mark_retry, revive, recover,
  is_purged,
}
use caas_lite.Queue.Table.Laws.{
  IsKeyed, update_row-IsKeyed, find_row_id, find_row-append_one, append_one-IsKeyed,
  find_row_of_not_conflicts, filter-IsKeyed, find_row-filter, map-IsKeyed,
}
use caas_lite.Queue.Worker.{
  Phase, working, settled, Queue, create, is_exhausted, mark_failed, retry_delay, new_row,
  find_duplicate, enqueue, Outcome, done, threw, settle, finish_job, release, retry_dead, purge,
}
use caas_lite.Queue.Worker.Tracking.{
  IsIdle, IsTracked, IsConsistent, HasSettled, IsIdle-of_status, update_row-IsTracked,
  settle-IsTracked, length-settle, drop_settled-IsTracked, length-drop_settled,
}
use caas_lite.Queue.Worker.Dispatch.{
  mark_completed_id, mark_dead_id, mark_retry_id, revive_id, recover_id, tick-IsConsistent,
}

-- A new queue is consistent, whatever an earlier process left in the table.
pub create-IsConsistent : (t : Table) (n : ℕ) → IsKeyed t → IsConsistent (create t n)
unfolding create
create-IsConsistent t n k = record {
  keyed = map-IsKeyed recover t recover_id k;
  tracked = tt;
  counted = refl;
  limited = omega arith;
}

append_row-IsTracked :
    (r : Row) (t : Table) (js : List (Job × Phase)) → IsTracked t js → IsTracked (t ++ r ∷ []) js
append_row-IsTracked r t [] h = tt
append_row-IsTracked r t ((j, working) ∷ js) ((p, found, status), idle, h) =
    ((p, ground (arith, find_row-append_one j.id r t), status), idle, append_row-IsTracked r t js h)
append_row-IsTracked r t ((j, settled) ∷ js) h = append_row-IsTracked r t js h

pub enqueue-IsConsistent :
    (now : ℕ) (id : String) (def : JobDefinition) (q : Queue)
    → IsConsistent q
    → IsConsistent (enqueue now id def q).1
unfolding enqueue
enqueue-IsConsistent now id def q h =
    elim (Option-cases (find_duplicate def.idempotency_key q.jobs)) [
      | inr (r, e) ↦ rw (e, enqueue) h
      | inl e ↦ elim (Bool-cases (conflicts id def.idempotency_key q.jobs)) [
        | inl clash ↦ rw (e, enqueue) (rw (clash, enqueue) h)
        | inr free ↦
            rw (e, enqueue)
              (rw (free, enqueue)
                (tick-IsConsistent now _ (record {
                  keyed =
                      append_one-IsKeyed (new_row now id def) q.jobs h.keyed
                        (find_row_of_not_conflicts id def.idempotency_key q.jobs free);
                  tracked = append_row-IsTracked (new_row now id def) q.jobs q.in_flight h.tracked;
                  counted = h.counted;
                  limited = h.limited;
                })))
      ]
    ]

-- An update of the row of a job that has just settled.
settled-IsConsistent :
    (j : Job) (f : Row → Row) (q q' : Queue)
    → IsConsistent q
    → ((r : Row) → (f r).id ≡ r.id)
    → q'.jobs ≡ update_row j.id f q.jobs
    → q'.in_flight ≡ settle j.id q.in_flight
    → q'.active ≡ q.active
    → q'.concurrency ≡ q.concurrency
    → IsConsistent q'
settled-IsConsistent j f q q' h k jobs flight active conc =
    let (tracked, idle) = settle-IsTracked j.id q.jobs q.in_flight h.tracked in
    record {
      keyed = rw jobs (update_row-IsKeyed j.id f q.jobs k h.keyed);
      tracked =
          rw (jobs, flight)
            (update_row-IsTracked j.id f q.jobs (settle j.id q.in_flight) k idle tracked);
      counted = rw flight (omega (arith, active, h.counted, length-settle j.id q.in_flight));
      limited = omega (arith, active, conc, h.limited);
    }

module _ (now : ℕ) (j : Job) (q : Queue) (h : IsConsistent q) where
  abbrev only_settled : Queue
  only_settled = record q { in_flight = settle j.id q.in_flight }

  only_settled-IsConsistent : IsConsistent only_settled
  only_settled-IsConsistent = record {
    keyed = h.keyed;
    tracked = (settle-IsTracked j.id q.jobs q.in_flight h.tracked).0;
    counted = omega (arith, h.counted, length-settle j.id q.in_flight);
    limited = h.limited;
  }

  pub finish_job-IsConsistent : (o : Outcome) → IsConsistent (finish_job now j o q)
  unfolding finish_job mark_failed
  finish_job-IsConsistent (done result) =
      settled-IsConsistent j (mark_completed now result) q _ h (mark_completed_id now result) refl
        refl refl refl
  finish_job-IsConsistent (threw error) = elim (Bool-cases (is_exhausted j)) [
    | inl e ↦
        rw (e, finish_job, mark_failed)
          (settled-IsConsistent j (mark_dead now error) q _ h (mark_dead_id now error) refl refl
            refl refl)
    | inr e ↦ elim (Bool-cases (leb (now + retry_delay j) max_date)) [
      | inl f ↦
          rw (e, finish_job, mark_failed)
            (rw (f, finish_job, mark_failed)
              (settled-IsConsistent j (mark_retry _ error) q _ h (mark_retry_id _ error) refl refl
                refl refl))
      | inr f ↦
          rw (e, finish_job, mark_failed)
            (rw (f, finish_job, mark_failed) only_settled-IsConsistent)
    ]
  ]

pub release-IsConsistent :
    (now : ℕ) (id : String) (q : Queue)
    → IsConsistent q
    → HasSettled id q.in_flight
    → IsConsistent (release now id q)
unfolding release
release-IsConsistent now id q h s = tick-IsConsistent now _ (record {
  keyed = h.keyed;
  tracked = drop_settled-IsTracked id q.jobs q.in_flight h.tracked;
  counted = omega (arith, h.counted, length-drop_settled id q.in_flight s);
  limited = omega (arith, h.limited);
})

pub retry_dead-IsConsistent :
    (now : ℕ) (id : String) (q : Queue) → IsConsistent q → IsConsistent (retry_dead now id q).1
unfolding retry_dead
retry_dead-IsConsistent now id q h = elim (Option-cases (find_row id q.jobs)) [
  | inl e ↦ rw (e, retry_dead) h
  | inr (r, e) ↦
      let same : r.id ≡ id = find_row_id id r q.jobs e in
      elim (Bool-cases (status_eq r.status dead)) [
        | inr f ↦ rw (e, retry_dead) (rw (f, retry_dead) h)
        | inl f ↦
            let idle : IsIdle id q.in_flight =
              subst (λ x. IsIdle x q.in_flight) same
                (IsIdle-of_status q.jobs r q.in_flight (cc) (λ p. ground arith) h.tracked) in
            rw (e, retry_dead)
              (rw (f, retry_dead)
                (tick-IsConsistent now _ (record {
                  keyed = update_row-IsKeyed id revive q.jobs revive_id h.keyed;
                  tracked =
                      update_row-IsTracked id revive q.jobs q.in_flight revive_id idle h.tracked;
                  counted = h.counted;
                  limited = h.limited;
                })))
      ]
]

kept_if_processing :
    (cutoff : ℕ) (r : Row) → r.status ≡ processing → not (is_purged cutoff r) ≡ true
unfolding is_purged
kept_if_processing cutoff r e = ground arith

purged-IsTracked :
    (cutoff : ℕ) (t : Table) (js : List (Job × Phase))
    → IsTracked t js
    → IsTracked (filter (λ r. not (is_purged cutoff r)) t) js
purged-IsTracked cutoff t [] h = tt
purged-IsTracked cutoff t ((j, working) ∷ js) ((r, found, status), idle, h) = (
  (r, find_row-filter j.id _ t r found (kept_if_processing cutoff r status), status),
  idle,
  purged-IsTracked cutoff t js h,
)
purged-IsTracked cutoff t ((j, settled) ∷ js) h = purged-IsTracked cutoff t js h

pub purge-IsConsistent :
    (now days : ℕ) (q : Queue) → IsConsistent q → IsConsistent (purge now days q).1
unfolding purge
purge-IsConsistent now days q h = record {
  keyed = filter-IsKeyed _ q.jobs h.keyed;
  tracked = purged-IsTracked _ q.jobs q.in_flight h.tracked;
  counted = h.counted;
  limited = h.limited;
}
