-- ===== src/Queue/Worker/Steps.antt =====
-- The queue as it is driven: by submissions, the timer, handlers that settle, and operators.
use caas_lite.Prelude.{ℕ, String, In}
use caas_lite.Queue.Job.{JobType, JobDefinition, Job}
use caas_lite.Queue.Table.{Table}
use caas_lite.Queue.Table.Laws.{IsKeyed}
use caas_lite.Queue.Worker.{
  working, Queue, create, register, enqueue, start, stop, tick, Outcome, finish_job, release,
  retry_dead, purge,
}
use caas_lite.Queue.Worker.Tracking.{IsConsistent, HasSettled}
use caas_lite.Queue.Worker.Dispatch.{tick-IsConsistent}
use caas_lite.Queue.Worker.Invariant.{
  create-IsConsistent, enqueue-IsConsistent, finish_job-IsConsistent, release-IsConsistent,
  retry_dead-IsConsistent, purge-IsConsistent,
}

-- One turn of the event loop. Only a job in flight settles, and only one that has settled is
-- released.
pub data Step (q : Queue) : Queue → Type 0 where
  registers : (type : JobType) → Step q (register type q)
  submits : (now : ℕ) (id : String) (def : JobDefinition) → Step q (enqueue now id def q).1
  starts : Step q (start q)
  stops : Step q (stop q)
  ticks : (now : ℕ) → Step q (tick now q)
  settles :
      (now : ℕ) (j : Job) (o : Outcome)
      → In (j, working) q.in_flight
      → Step q (finish_job now j o q)
  releases : (now : ℕ) (id : String) → HasSettled id q.in_flight → Step q (release now id q)
  retries : (now : ℕ) (id : String) → Step q (retry_dead now id q).1
  purges : (now days : ℕ) → Step q (purge now days q).1

pub data Reach (q : Queue) : Queue → Type 0 where
  here : Reach q q
  next : {r s : Queue} → Reach q r → Step r s → Reach q s

Step-IsConsistent : {q r : Queue} → Step q r → IsConsistent q → IsConsistent r
unfolding register start stop
Step-IsConsistent (registers type) h = record {
  keyed = h.keyed;
  tracked = h.tracked;
  counted = h.counted;
  limited = h.limited;
}
Step-IsConsistent (submits now id def) h = enqueue-IsConsistent now id def _ h
Step-IsConsistent starts h = record {
  keyed = h.keyed;
  tracked = h.tracked;
  counted = h.counted;
  limited = h.limited;
}
Step-IsConsistent stops h = record {
  keyed = h.keyed;
  tracked = h.tracked;
  counted = h.counted;
  limited = h.limited;
}
Step-IsConsistent (ticks now) h = tick-IsConsistent now _ h
Step-IsConsistent (settles now j o _) h = finish_job-IsConsistent now j _ h o
Step-IsConsistent (releases now id s) h = release-IsConsistent now id _ h s
Step-IsConsistent (retries now id) h = retry_dead-IsConsistent now id _ h
Step-IsConsistent (purges now days) h = purge-IsConsistent now days _ h

-- However a queue that was created on a table of distinct ids is driven, the ids stay distinct,
-- the jobs in flight are within the concurrency and are the number that `activeCount` shows, and
-- every job being worked on has its row marked as processing and no second worker.
pub Reach-IsConsistent :
    (t : Table) (n : ℕ) {q : Queue} → IsKeyed t → Reach (create t n) q → IsConsistent q
Reach-IsConsistent t n k here = create-IsConsistent t n k
Reach-IsConsistent t n k (next r s) = Step-IsConsistent s (Reach-IsConsistent t n k r)
