-- ===== src/Queue/Worker/Retry.antt =====
-- What becomes of a job whose handler fails.
use caas_lite.Prelude.{
  ℕ, suc, ◌+◌, ◌*◌, ◌^◌, ◌≤◌, ◌≡◌, refl, String, true, some, arith, eq_iff, leb, [], ◌∷◌,
}
use caas_lite.Queue.Job.{queued, Row, max_date}
use caas_lite.Queue.Table.{Table, find_row, mark_retry, get_stats}
use caas_lite.Queue.Table.Laws.{find_row-update_row}
use caas_lite.Queue.Worker.{
  Queue, job_of_row, is_exhausted, retry_delay, mark_failed, threw, finish_job,
}
use caas_lite.Queue.Worker.Dispatch.{mark_retry_id}

-- When the handler of a stored job fails, the job is queued again however often it was tried and
-- whatever its `max_attempts`, with its error, and is due after one second doubled for each attempt
-- made before, as long as that time is within the dates that there are.
pub failed_job_requeued :
    (now : ℕ) (error : String) (q : Queue) (taken r : Row)
    → find_row taken.id q.jobs ≡ some r
    → now + 1000 * 2 ^ taken.attempts ≤ max_date
    → find_row taken.id (finish_job now (job_of_row taken) (threw error) q).jobs
      ≡ some (record r {
        status = queued;
        error = some error;
        next_attempt_at = some (now + 1000 * 2 ^ taken.attempts);
      })
unfolding finish_job mark_failed job_of_row is_exhausted retry_delay mark_retry
failed_job_requeued now error q taken r e h =
    let delay : retry_delay (job_of_row taken) ≡ 1000 * 2 ^ taken.attempts = omega arith in
    let within : leb (now + retry_delay (job_of_row taken)) max_date ≡ true =
      ground (arith, delay) in
    ground (
      arith,
      within,
      delay,
      e,
      eq_iff taken.id taken.id,
      find_row-update_row taken.id taken.id
          (mark_retry (now + retry_delay (job_of_row taken)) error) q.jobs (mark_retry_id _ error),
    )

count_cons :
    (r : Row) (t : Table)
    → let c = get_stats t in
      let d = get_stats (r ∷ t) in
      d.queued + d.processing + d.completed + d.failed + d.dead
      ≡ suc (c.queued + c.processing + c.completed + c.failed + c.dead)
unfolding get_stats
count_cons r t = ground arith

-- The statistics count every row once: the five statuses add up to the total.
pub get_stats_total :
    (t : Table)
    → let c = get_stats t in c.queued + c.processing + c.completed + c.failed + c.dead ≡ c.total
unfolding get_stats
get_stats_total [] = refl
get_stats_total (r ∷ t) = omega (arith, get_stats_total t, count_cons r t)
