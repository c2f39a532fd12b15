-- ===== src/Queue.antt =====
-- The table `_chimpbase_queue_jobs` as packages/bun/src/sqlite_adapter.ts reads and writes it: rows in
-- the order of their ids, which is the order of insertion. The columns that hold SQL timestamps
-- (created_at, updated_at, completed_at) are left out, since no query reads them.
pub mod Rows
pub mod Claim
pub mod Leases
mod Tests
use chimpbase.Prelude.{
  ℕ, ◌+◌, String, Bool, true, false, ◌&&◌, ◌||◌, Option, none, some, List, [], ◌∷◌, ◌++◌, map, leb,
  some_le, ◌==◌, str_eq, find, if◌then◌else◌,
}
use chimpbase.Prelude.Int.{ℤ, pos, negsuc}

pub data JobStatus : Type 0 where
  pending processing completed failed dlq : JobStatus

-- The value whose JSON text is stored as `payload_json`: the text of user code, or one of the
-- engine's own messages and envelopes (`CronQueuePayload`, `SubscriptionQueuePayload`,
-- `WorkflowQueuePayload`, `ChimpbaseDlqEnvelope`).
pub data Payload : Type 0 where
  json : String → Payload
  cron_run : String → ℕ → Payload
  subscription_run : Option ℕ → String → String → Payload
  workflow_run : String → Payload
  dead_letter : ℕ → String → ℕ → Payload → String → Payload

pub record QueueJob : Type 0 where
  pub id : ℕ
  pub queue_name : String
  pub payload : Payload
  pub status : JobStatus
  pub available_at_ms : ℕ
  pub attempt_count : ℕ
  pub lease_expires_at_ms : Option ℕ
  pub last_error : Option String

-- `ChimpbaseQueueJobRecord`
pub record ClaimedJob : Type 0 where
  pub id : ℕ
  pub queue_name : String
  pub payload : Payload
  pub attempt_count : ℕ

abbrev pub JobTable : Type 0
JobTable = List QueueJob

-- The row id that SQLite gives an `INTEGER PRIMARY KEY`: one more than the last row's, as no row is
-- ever deleted.
unfoldable pub next_id : JobTable → ℕ
next_id [] = 1
next_id (row ∷ []) = row.id + 1
next_id (row ∷ row' ∷ rows) = next_id (row' ∷ rows)

-- `Math.max(0, options?.delayMs ?? 0)`
abbrev pub delay_of : Option ℤ → ℕ
delay_of none = 0
delay_of (some (pos n)) = n
delay_of (some (negsuc n)) = 0

unfoldable pub queue_enqueue : ℕ → String → Payload → Option ℤ → JobTable → JobTable
unfolding next_id
queue_enqueue now name payload delay rows =
    rows
    ++ record {
      id = next_id rows;
      queue_name = name;
      payload = payload;
      status = pending;
      available_at_ms = now + delay_of delay;
      attempt_count = 0;
      lease_expires_at_ms = none;
      last_error = none;
    }
      ∷ []

-- `queue_name IN (...)`
unfoldable pub one_of : String → List String → Bool
one_of name [] = false
one_of name (n ∷ names) = str_eq n name || one_of name names

abbrev pub is_pending : JobStatus → Bool
is_pending pending = true
is_pending _ = false

abbrev pub is_processing : JobStatus → Bool
is_processing processing = true
is_processing _ = false

-- The `WHERE` clause of `claimNextQueueJob`.
unfoldable pub is_due : ℕ → List String → QueueJob → Bool
unfolding one_of
is_due now names row =
    one_of row.queue_name names
    && ((is_pending row.status && leb row.available_at_ms now)
        || (is_processing row.status && some_le row.lease_expires_at_ms now))

-- `UPDATE ... WHERE id = ?`
unfoldable pub update_job : ℕ → (QueueJob → QueueJob) → JobTable → JobTable
update_job id f [] = []
update_job id f (row ∷ rows) = (if row.id == id then f row else row) ∷ update_job id f rows

abbrev pub claimed_row : ℕ → QueueJob → QueueJob
claimed_row lease_expires row = record row {
  status = processing;
  attempt_count = row.attempt_count + 1;
  lease_expires_at_ms = some lease_expires;
}

-- `ORDER BY id ASC LIMIT 1`, the update, and the record that is returned.
unfoldable pub claim_next_queue_job : ℕ → ℕ → List String → JobTable → Option ClaimedJob × JobTable
unfolding is_due update_job
claim_next_queue_job now lease_ms names rows = elim (find (is_due now names) rows) [
  | none ↦ (none, rows)
  | some job ↦ (
    some (record {
      id = job.id;
      queue_name = job.queue_name;
      payload = job.payload;
      attempt_count = job.attempt_count + 1;
    }),
    update_job job.id (claimed_row (now + lease_ms)) rows,
  )
]

abbrev pub completed_row : QueueJob → QueueJob
completed_row row = record row { status = completed; lease_expires_at_ms = none }

unfoldable pub complete_queue_job : ℕ → JobTable → JobTable
unfolding update_job
complete_queue_job id rows = update_job id completed_row rows

abbrev pub failed_row : JobStatus → ℕ → String → QueueJob → QueueJob
failed_row status next_available error row = record row {
  status = status;
  available_at_ms = next_available;
  lease_expires_at_ms = none;
  last_error = some error;
}

unfoldable pub mark_queue_job_failure : ℕ → JobStatus → ℕ → String → JobTable → JobTable
unfolding update_job
mark_queue_job_failure id status next_available error rows =
    update_job id (failed_row status next_available error) rows

unfoldable pub get_queue_job_payload : ℕ → JobTable → Option Payload
get_queue_job_payload id [] = none
get_queue_job_payload id (row ∷ rows) =
    if row.id == id then some row.payload else get_queue_job_payload id rows
