-- ===== src/Queue/Tests.antt =====
-- The theorems on the queue at concrete inputs.
use caas_lite.Prelude.{eq_iff, ℕ, ◌≡◌, refl, String, none, some, [], ◌∷◌, inl, arith}
use caas_lite.Queue.Job.{
  high, critical, queued, processing, dead, payout_sweep, JobDefinition, Row, JobStatus,
}
use caas_lite.Queue.Table.{Table, find_row, select_next, recover}
use caas_lite.Queue.Table.Laws.{Chosen, select_next-Chosen}
use caas_lite.Queue.Worker.{
  tick, Queue, create, register, start, enqueue, existing, refused, threw, finish_job, job_of_row,
}
use caas_lite.Queue.Worker.Tracking.{IsConsistent}
use caas_lite.Queue.Worker.Steps.{here, next, registers, submits, starts, Reach-IsConsistent}
use caas_lite.Queue.Worker.Progress.{IsBusy, tick-IsBusy}
use caas_lite.Queue.Worker.Submission.{IsOnly, enqueue_same_key}
use caas_lite.Queue.Worker.Retry.{failed_job_requeued}

abbrev sweep : JobDefinition
sweep = record {
  type = payout_sweep;
  payload = "{}";
  priority = some high;
  max_attempts = none;
  idempotency_key = some "sweep-1";
}

abbrev row_of : String → JobStatus → ℕ → Row
row_of id status attempts = record {
  id = id;
  type = payout_sweep;
  payload_json = "{}";
  priority = high;
  status = status;
  attempts = attempts;
  max_attempts = 3;
  idempotency_key = some "sweep-1";
  result_json = none;
  error = none;
  queued_at = 7;
  started_at = none;
  completed_at = none;
  next_attempt_at = none;
}

abbrev urgent : Row
urgent = record (row_of "j2" queued 0) {
  priority = critical;
  idempotency_key = none;
  queued_at = 9;
}

abbrev two_rows : Table
two_rows = row_of "j1" queued 0 ∷ urgent ∷ []

abbrev finished : Queue
finished = create (row_of "j1" dead 3 ∷ []) 2

abbrev at_work : Queue
at_work = record (create [] 2) { jobs = row_of "j1" processing 6 ∷ [] }

Reach-IsConsistent_example :
    IsConsistent (enqueue 5 "j1" sweep (start (register payout_sweep (create two_rows 2)))).1
unfolding find_row
Reach-IsConsistent_example =
    Reach-IsConsistent two_rows 2 (refl, (refl, tt))
      (next (next (next here (registers payout_sweep)) starts) (submits 5 "j1" sweep))

select_next-Chosen_example : Chosen 10 two_rows (select_next 10 two_rows)
select_next-Chosen_example = select_next-Chosen 10 two_rows

row_of-IsOnly :
    (id : String) (status : JobStatus) (attempts : ℕ)
    → IsOnly "sweep-1" (row_of id status attempts) (row_of id status attempts ∷ [])
row_of-IsOnly id status attempts = ((λ _. refl), tt)

enqueue_same_key_example : enqueue 20 "j9" sweep at_work ≡ (existing "j1", at_work)
enqueue_same_key_example =
    enqueue_same_key 20 "j9" "sweep-1" sweep at_work (row_of "j1" processing 6) refl
      (ground (arith, eq_iff "sweep-1" "")) (inl refl) refl (row_of-IsOnly "j1" processing 6)

-- The same submission once the job is dead.
refused_when_dead : enqueue 20 "j9" sweep finished ≡ (refused, finished)
unfolding create recover
refused_when_dead =
    enqueue_same_key 20 "j9" "sweep-1" sweep finished (row_of "j1" dead 3) refl
      (ground (arith, eq_iff "sweep-1" "")) (inl refl) refl (row_of-IsOnly "j1" dead 3)

-- The job has failed six times, and its limit was three.
failed_job_requeued_example :
    find_row "j1"
      (finish_job 1000 (job_of_row (row_of "j1" processing 5)) (threw "down") at_work).jobs
    ≡ some (record (row_of "j1" processing 6) {
      status = queued;
      error = some "down";
      next_attempt_at = some 33000;
    })
unfolding create find_row
failed_job_requeued_example =
    failed_job_requeued 1000 "down" at_work (row_of "j1" processing 5) (row_of "j1" processing 6)
      refl (ground arith)

tick-IsBusy_example : IsBusy 10 (tick 10 (start (register payout_sweep (create two_rows 2))))
unfolding start
tick-IsBusy_example = tick-IsBusy 10 (start (register payout_sweep (create two_rows 2))) refl
