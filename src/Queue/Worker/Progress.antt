-- ===== src/Queue/Worker/Progress.antt =====
-- A tick leaves no job waiting while a slot is free.
use caas_lite.Prelude.{
  sym, ℕ, zero, suc, ◌+◌, ◌-◌, ◌≤◌, ◌≡◌, ◌⊎◌, true, false, inl, inr, arith, All, Option-cases,
}
use mathlib.Core.Path.{subst}
use caas_lite.Queue.Table.{is_eligible, select_next, update_row, mark_processing}
use caas_lite.Queue.Table.Laws.{Chosen, select_next-Chosen}
use caas_lite.Queue.Job.{Job}
use caas_lite.Queue.Worker.{Queue, job_of_row, dequeue_next, begin_job, fill, tick}

-- Every slot is taken, or no job of the table can be started.
abbrev pub IsBusy : ℕ → Queue → Type 0
IsBusy now q = (q.concurrency ≤ q.active) ⊎ All (λ r. is_eligible now r ≡ false) q.jobs

begin_job_slots :
    (now : ℕ) (j : Job) (q : Queue)
    → ((begin_job now j q).active ≡ q.active) × ((begin_job now j q).concurrency ≡ q.concurrency)
unfolding begin_job
begin_job_slots now j q = ground arith

fill-IsBusy :
    (now slots : ℕ) (q : Queue) → q.concurrency ≤ q.active + slots → IsBusy now (fill now slots q)
unfolding fill dequeue_next
fill-IsBusy now zero q h = inl (omega arith)
fill-IsBusy now (suc slots) q h = elim (Option-cases (select_next now q.jobs)) [
  | inl e ↦
      rw (e, fill, dequeue_next) (inr (subst (Chosen now q.jobs) e (select_next-Chosen now q.jobs)))
  | inr (r, e) ↦
      let q' = record q {
        jobs = update_row r.id (mark_processing now) q.jobs;
        active = q.active + 1;
      } in
      let (active, limit) = begin_job_slots now (job_of_row r) q' in
      rw (e, fill, dequeue_next)
        (fill-IsBusy now slots (begin_job now (job_of_row r) q') (omega arith))
]

tick_running :
    (now : ℕ) (q : Queue) → q.running ≡ true → tick now q ≡ fill now (q.concurrency - q.active) q
unfolding tick
tick_running now q e = ground arith

-- After a tick of a running queue every slot is taken or no job in the table can be started.
pub tick-IsBusy : (now : ℕ) (q : Queue) → q.running ≡ true → IsBusy now (tick now q)
tick-IsBusy now q e =
    subst (IsBusy now) (sym (tick_running now q e))
      (fill-IsBusy now (q.concurrency - q.active) q (omega arith))
