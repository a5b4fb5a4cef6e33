-- ===== src/Queue/Table.antt =====
-- The statements that src/services/queue.ts runs on `job_queue`, a list of rows in the order of
-- their insertion.
pub mod Laws
use caas_lite.Prelude.{
  ℕ, ◌+◌, ◌-◌, ◌*◌, ◌^◌, ◌/◌, String, Bool, true, false, not, ◌&&◌, ◌||◌, Option, none, some, List,
  [], ◌∷◌, ◌++◌, if◌then◌else◌, str_eq, ltb, leb, ◌==◌, filter, count, length,
}
use caas_lite.Queue.Job.{
  JobStatus, queued, processing, completed, failed, dead, status_eq, Row, QueueStats, rank,
}

abbrev pub Table : Type 0
Table = List Row

-- `UPDATE ... WHERE id = ?`: the key is primary, so at most one row is meant.
unfoldable pub update_row : String → (Row → Row) → Table → Table
update_row id f [] = []
update_row id f (r ∷ t) = (if str_eq r.id id then f r else r) ∷ update_row id f t

unfoldable pub find_row : String → Table → Option Row
find_row id [] = none
find_row id (r ∷ t) = if str_eq r.id id then some r else find_row id t

abbrev pub key_eq : Option String → String → Bool
key_eq none k = false
key_eq (some j) k = str_eq j k

-- The row that blocks a second submission: the same key, queued or processing.
unfoldable pub find_live : String → Table → Option Row
find_live k [] = none
find_live k (r ∷ t) =
    if key_eq r.idempotency_key k && (status_eq r.status queued || status_eq r.status processing)
    then some r
    else find_live k t

-- Whether the UNIQUE or the PRIMARY KEY constraint refuses a new row.
unfoldable pub conflicts : String → Option String → Table → Bool
conflicts id key [] = false
conflicts id key (r ∷ t) =
    str_eq r.id id
    || elim key [ none ↦ false | some k ↦ key_eq r.idempotency_key k ]
    || conflicts id key t

-- `next_attempt_at IS NULL OR next_attempt_at <= now`
abbrev pub is_due : ℕ → Option ℕ → Bool
is_due now none = true
is_due now (some t) = leb t now

unfoldable pub is_eligible : ℕ → Row → Bool
is_eligible now r = status_eq r.status queued && is_due now r.next_attempt_at

-- Strictly earlier in `ORDER BY priority rank, queued_at`.
unfoldable pub goes_before : Row → Row → Bool
goes_before a b =
    ltb (rank a.priority) (rank b.priority)
    || (rank a.priority == rank b.priority && ltb a.queued_at b.queued_at)

-- The better of a row and the best of the rows behind it.
pub first_of_two : Row → Option Row → Row
first_of_two r none = r
first_of_two r (some q) = if goes_before q r then q else r

-- `SELECT ... ORDER BY ... LIMIT 1`; of rows that tie, the one inserted first.
unfoldable pub select_next : ℕ → Table → Option Row
unfolding first_of_two
select_next now [] = none
select_next now (r ∷ t) =
    if is_eligible now r then some (first_of_two r (select_next now t)) else select_next now t

-- The status update of `dequeueNext`.
unfoldable pub mark_processing : ℕ → Row → Row
mark_processing now r = record r {
  status = processing;
  started_at = some now;
  attempts = r.attempts + 1;
}

unfoldable pub mark_completed : ℕ → String → Row → Row
mark_completed now result r = record r {
  status = completed;
  result_json = some result;
  completed_at = some now;
  error = none;
}

unfoldable pub mark_dead : ℕ → String → Row → Row
mark_dead now error r = record r { status = dead; error = some error; completed_at = some now }

unfoldable pub mark_retry : ℕ → String → Row → Row
mark_retry at error r = record r { status = queued; error = some error; next_attempt_at = some at }

-- The reset of `retryDead`, which counts as a change only on a dead row.
unfoldable pub revive : Row → Row
revive r =
    if status_eq r.status dead
    then record r { status = queued; error = none; attempts = 0; next_attempt_at = none }
    else r

-- The recovery in the constructor.
unfoldable pub recover : Row → Row
recover r =
    if status_eq r.status processing then record r { status = queued; started_at = none } else r

-- The rows that `purge` deletes.
unfoldable pub is_purged : ℕ → Row → Bool
is_purged cutoff r =
    (status_eq r.status completed || status_eq r.status dead)
    && elim r.completed_at [ none ↦ false | some t ↦ ltb t cutoff ]

abbrev pub with_status : JobStatus → Row → Bool
with_status s r = status_eq r.status s

-- `getStats`
unfoldable pub get_stats : Table → QueueStats
get_stats t = record {
  queued = count (with_status queued) t;
  processing = count (with_status processing) t;
  completed = count (with_status completed) t;
  failed = count (with_status failed) t;
  dead = count (with_status dead) t;
  total = length t;
}
