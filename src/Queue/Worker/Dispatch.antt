-- ===== src/Queue/Worker/Dispatch.antt =====
-- Handing out jobs keeps the worker pool consistent.
use caas_lite.Prelude.{
  ℕ, zero, suc, ◌+◌, ◌-◌, ◌≤◌, ◌<◌, ◌≡◌, refl, String, true, some, inl, inr, eq_iff, arith,
  Option-cases, Bool-cases, if_both,
}
use caas_lite.Queue.Job.{queued, processing, Row, Job}
use caas_lite.Queue.Table.{
  Table, update_row, find_row, is_eligible, select_next, mark_processing, mark_completed, mark_dead,
  mark_retry, revive, recover,
}
use caas_lite.Queue.Table.Laws.{IsKeyed, find_row-update_row, update_row-IsKeyed, select_next-found}
use caas_lite.Queue.Worker.{Queue, job_of_row, dequeue_next, has_handler, begin_job, fill, tick}
use caas_lite.Queue.Worker.Tracking.{
  IsIdle, IsTracked, IsConsistent, IsIdle-of_status, update_row-IsTracked,
}

-- The updates keep ids.
mark_processing_id : (now : ℕ) (r : Row) → (mark_processing now r).id ≡ r.id
unfolding mark_processing
mark_processing_id now r = refl

pub mark_completed_id : (now : ℕ) (s : String) (r : Row) → (mark_completed now s r).id ≡ r.id
unfolding mark_completed
mark_completed_id now s r = refl

pub mark_dead_id : (now : ℕ) (s : String) (r : Row) → (mark_dead now s r).id ≡ r.id
unfolding mark_dead
mark_dead_id now s r = refl

pub mark_retry_id : (now : ℕ) (s : String) (r : Row) → (mark_retry now s r).id ≡ r.id
unfolding mark_retry
mark_retry_id now s r = refl

pub revive_id : (r : Row) → (revive r).id ≡ r.id
unfolding revive
revive_id r = ground arith

pub recover_id : (r : Row) → (recover r).id ≡ r.id
unfolding recover
recover_id r = ground arith

queued_of_is_eligible : (now : ℕ) (r : Row) → is_eligible now r ≡ true → r.status ≡ queued
unfolding is_eligible
queued_of_is_eligible now r e = ground arith

mark_processing_status : (now : ℕ) (r : Row) → (mark_processing now r).status ≡ processing
unfolding mark_processing
mark_processing_status now r = refl

-- Handing out the next row keeps the pool consistent while a slot is free.
module _ (now : ℕ) (q : Queue) (r : Row) (h : IsConsistent q) (room : q.active < q.concurrency)
    (next : select_next now q.jobs ≡ some r) where
  abbrev handed : Table
  handed = update_row r.id (mark_processing now) q.jobs

  found : find_row r.id q.jobs ≡ some r
  found = (select_next-found now r q.jobs h.keyed next).0

  idle : IsIdle r.id q.in_flight
  idle =
      IsIdle-of_status q.jobs r q.in_flight found
        (λ e. cc (queued_of_is_eligible now r (select_next-found now r q.jobs h.keyed next).1))
        h.tracked

  handed-IsTracked : IsTracked handed q.in_flight
  handed-IsTracked =
      update_row-IsTracked r.id (mark_processing now) q.jobs q.in_flight (mark_processing_id now)
        idle h.tracked

  handed-IsKeyed : IsKeyed handed
  handed-IsKeyed =
      update_row-IsKeyed r.id (mark_processing now) q.jobs (mark_processing_id now) h.keyed

  handed-found : find_row r.id handed ≡ some (mark_processing now r)
  handed-found = ground (
    arith,
    found,
    eq_iff r.id r.id,
    find_row-update_row r.id r.id (mark_processing now) q.jobs (mark_processing_id now),
  )

  begin_job-IsConsistent :
      IsConsistent
        (begin_job now (job_of_row r) (record q { jobs = handed; active = q.active + 1 }))
  unfolding begin_job job_of_row
  begin_job-IsConsistent = elim (Bool-cases (has_handler r.type q.handlers)) [
    | inl e ↦
        rw (e, begin_job)
          (record {
            keyed = handed-IsKeyed;
            tracked = (
              (mark_processing now r, handed-found, mark_processing_status now r),
              idle,
              handed-IsTracked,
            );
            counted = omega (arith, h.counted);
            limited = omega arith;
          })
    | inr e ↦
        rw (e, begin_job)
          (record {
            keyed = update_row-IsKeyed r.id _ handed (mark_dead_id now _) handed-IsKeyed;
            tracked =
                update_row-IsTracked r.id _ handed q.in_flight (mark_dead_id now _) idle
                  handed-IsTracked;
            counted = omega (arith, h.counted);
            limited = omega arith;
          })
  ]

begin_job_rest :
    (now : ℕ) (j : Job) (q : Queue)
    → ((begin_job now j q).concurrency ≡ q.concurrency) × ((begin_job now j q).active ≡ q.active)
unfolding begin_job
begin_job_rest now j q = ground arith

fill-IsConsistent :
    (now slots : ℕ) (q : Queue)
    → IsConsistent q
    → q.active + slots ≤ q.concurrency
    → IsConsistent (fill now slots q)
unfolding fill dequeue_next
fill-IsConsistent now zero q h room = h
fill-IsConsistent now (suc slots) q h room = elim (Option-cases (select_next now q.jobs)) [
  | inl e ↦ rw (e, fill, dequeue_next) h
  | inr (r, e) ↦
      let taken : Queue = record q {
        jobs = update_row r.id (mark_processing now) q.jobs;
        active = q.active + 1;
      } in
      let (same, counted) = begin_job_rest now (job_of_row r) taken in
      let rest =
        fill-IsConsistent now slots (begin_job now (job_of_row r) taken)
          (begin_job-IsConsistent now q r h (omega arith) e) (omega (arith, same, counted)) in
      rw (e, fill, dequeue_next) rest
]

pub tick-IsConsistent : (now : ℕ) (q : Queue) → IsConsistent q → IsConsistent (tick now q)
unfolding tick
tick-IsConsistent now q h =
    if_both IsConsistent q.running (fill now (q.concurrency - q.active) q) q
      (fill-IsConsistent now _ q h (omega (arith, h.limited))) h
