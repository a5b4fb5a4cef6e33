-- ===== src/Queue/Worker.antt =====
-- `ProcessingQueue` of src/services/queue.ts as a state and its operations. A handler is the
-- environment's: a job in flight is working until its handler settles, with a result or an error.
pub mod Tracking
pub mod Dispatch
pub mod Invariant
pub mod Steps
pub mod Submission
pub mod Retry
pub mod Progress
use Prim.Native.String
use caas_lite.Prelude.{
  ℕ, zero, suc, ◌+◌, ◌-◌, ◌*◌, ◌^◌, ◌/◌, String, Bool, true, false, not, ◌&&◌, ◌||◌, Option, none,
  some, List, [], ◌∷◌, ◌++◌, map, if◌then◌else◌, str_eq, ltb, leb, ◌==◌, filter, count, length, any,
}
use caas_lite.Queue.Job.{
  JobPriority, normal, JobStatus, queued, processing, dead, status_eq, JobType, type_eq, type_text,
  JobDefinition, Row, Job, default_max_attempts, base_retry_delay_ms, max_date,
}
use caas_lite.Queue.Table.{
  Table, update_row, find_row, find_live, conflicts, select_next, mark_processing, mark_completed,
  mark_dead, mark_retry, revive, recover, is_purged,
}

-- A job in flight: its handler runs, or it has settled and its slot is about to be released.
pub data Phase : Type 0 where
  working settled : Phase

pub data Event : Type 0 where
  enqueued : String → Event
  started : String → ℕ → Event
  completed : String → String → Event
  failed : String → String → Bool → Event

pub record Queue : Type 0 where
  pub jobs : Table
  pub handlers : List JobType
  pub concurrency : ℕ
  pub active : ℕ
  pub running : Bool
  -- what `activeCount` counts
  pub in_flight : List (Job × Phase)
  pub events : List Event

-- The constructor, on the table that an earlier process left.
unfoldable pub create : Table → ℕ → Queue
create t concurrency = record {
  jobs = map recover t;
  handlers = [];
  concurrency = concurrency;
  active = 0;
  running = false;
  in_flight = [];
  events = [];
}

unfoldable pub register : JobType → Queue → Queue
register type q = record q { handlers = type ∷ q.handlers }

-- `{ ...row, payload, result, error }`: the row spells its limit `max_attempts`, and the job is
-- read from before the update, so it shows the attempts made so far and no `maxAttempts`.
unfoldable pub job_of_row : Row → Job
job_of_row r = record {
  id = r.id;
  type = r.type;
  payload = r.payload_json;
  attempts = r.attempts;
  max_attempts = none;
}

unfoldable pub dequeue_next : ℕ → Table → Option (Job × Table)
dequeue_next now t = elim (select_next now t) [
  | none ↦ none
  | some r ↦ some (job_of_row r, update_row r.id (mark_processing now) t)
]

-- `job.attempts >= job.maxAttempts`, which is false of `undefined`.
unfoldable pub is_exhausted : Job → Bool
is_exhausted j = elim j.max_attempts [ none ↦ false | some m ↦ leb m j.attempts ]

-- `BASE_RETRY_DELAY_MS * 2 ** (attempts - 1)`
unfoldable pub retry_delay : Job → ℕ
retry_delay j = base_retry_delay_ms * 2 ^ j.attempts / 2

-- `markFailed`; `none` is the RangeError of a retry time beyond the last date.
unfoldable pub mark_failed : ℕ → Job → String → Bool → Table → Option Table
mark_failed now j error exhausted t =
    if exhausted
    then some (update_row j.id (mark_dead now error) t)
    else if leb (now + retry_delay j) max_date
    then some (update_row j.id (mark_retry (now + retry_delay j) error) t)
    else none

abbrev pub has_handler : JobType → List JobType → Bool
has_handler type = any (type_eq type)

abbrev no_handler : JobType → String
no_handler type = String.◌++◌ "No handler registered for job type: " (type_text type)

-- `processJob` up to the point where it waits for the handler.
unfoldable pub begin_job : ℕ → Job → Queue → Queue
begin_job now j q =
    let shown = started j.id j.attempts ∷ q.events in
    if has_handler j.type q.handlers
    then record q { in_flight = (j, working) ∷ q.in_flight; events = shown }
    else record q {
      jobs = update_row j.id (mark_dead now (no_handler j.type)) q.jobs;
      in_flight = (j, settled) ∷ q.in_flight;
      events = shown;
    }

-- The loop of `tick`, for as many rounds as there are free slots.
unfoldable pub fill : ℕ → ℕ → Queue → Queue
fill now zero q = q
fill now (suc slots) q = elim (dequeue_next now q.jobs) [
  | none ↦ q
  | some (j, t) ↦ fill now slots (begin_job now j (record q { jobs = t; active = q.active + 1 }))
]

unfoldable pub tick : ℕ → Queue → Queue
tick now q = if q.running then fill now (q.concurrency - q.active) q else q

-- What an `enqueue` gives back; `refused` is the constraint error that the INSERT throws.
pub data Submitted : Type 0 where
  accepted : String → Submitted
  existing : String → Submitted
  refused : Submitted

abbrev new_row : ℕ → String → JobDefinition → Row
new_row now id def = record {
  id = id;
  type = def.type;
  payload_json = def.payload;
  priority = elim def.priority [ some p ↦ p | none ↦ normal ];
  status = queued;
  attempts = 0;
  max_attempts = elim def.max_attempts [ some m ↦ m | none ↦ default_max_attempts ];
  idempotency_key = def.idempotency_key;
  result_json = none;
  error = none;
  queued_at = now;
  started_at = none;
  completed_at = none;
  next_attempt_at = none;
}

-- The idempotency check, which an empty key skips.
unfoldable pub find_duplicate : Option String → Table → Option Row
find_duplicate none t = none
find_duplicate (some k) t = if str_eq k "" then none else find_live k t

-- `enqueue`, with the id that `randomUUID` gives.
unfoldable pub enqueue : ℕ → String → JobDefinition → Queue → Submitted × Queue
enqueue now id def q = elim (find_duplicate def.idempotency_key q.jobs) [
  | some r ↦ (existing r.id, q)
  | none ↦ if conflicts id def.idempotency_key q.jobs then (refused, q) else (
    accepted id,
    tick now
        (record q { jobs = q.jobs ++ new_row now id def ∷ []; events = enqueued id ∷ q.events }),
  )
]

-- The interval's first tick comes later: `start` runs none itself.
unfoldable pub start : Queue → Queue
start q = record q { running = true }

-- `stop` lets the jobs in flight go on.
unfoldable pub stop : Queue → Queue
stop q = record q { running = false }

-- How a handler settles.
pub data Outcome : Type 0 where
  done : String → Outcome
  threw : String → Outcome

-- The entry of a job whose handler has settled, and the list without such an entry.
unfoldable pub settle : String → List (Job × Phase) → List (Job × Phase)
settle id [] = []
settle id ((j, working) ∷ js) =
    if str_eq j.id id then (j, settled) ∷ js else (j, working) ∷ settle id js
settle id ((j, settled) ∷ js) = (j, settled) ∷ settle id js

unfoldable pub drop_settled : String → List (Job × Phase) → List (Job × Phase)
drop_settled id [] = []
drop_settled id ((j, working) ∷ js) = (j, working) ∷ drop_settled id js
drop_settled id ((j, settled) ∷ js) =
    if str_eq j.id id then js else (j, settled) ∷ drop_settled id js

-- `processJob` from where its handler has settled.
unfoldable pub finish_job : ℕ → Job → Outcome → Queue → Queue
finish_job now j (done result) q = record q {
  jobs = update_row j.id (mark_completed now result) q.jobs;
  in_flight = settle j.id q.in_flight;
  events = completed j.id result ∷ q.events;
}
finish_job now j (threw error) q = elim (mark_failed now j error (is_exhausted j) q.jobs) [
  | none ↦ record q { in_flight = settle j.id q.in_flight }
  | some t ↦ record q {
    jobs = t;
    in_flight = settle j.id q.in_flight;
    events = failed j.id error (is_exhausted j) ∷ q.events;
  }
]

-- The `finally` after a job: its slot is free, and the queue ticks.
unfoldable pub release : ℕ → String → Queue → Queue
release now id q =
    tick now (record q { active = q.active - 1; in_flight = drop_settled id q.in_flight })

-- `retryDead`
unfoldable pub retry_dead : ℕ → String → Queue → Bool × Queue
retry_dead now id q = elim (find_row id q.jobs) [
  | none ↦ (false, q)
  | some r ↦
      if status_eq r.status dead
      then (true, tick now (record q { jobs = update_row id revive q.jobs }))
      else (false, q)
]

-- `purge`, with the number of rows that it deletes.
unfoldable pub purge : ℕ → ℕ → Queue → ℕ × Queue
purge now retention_days q =
    let cutoff = now - retention_days * 86400000 in
    (
      count (is_purged cutoff) q.jobs,
      record q { jobs = filter (λ r. not (is_purged cutoff r)) q.jobs },
    )
