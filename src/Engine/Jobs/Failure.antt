-- ===== src/Engine/Jobs/Failure.antt =====
-- What `failQueueJob` does to the table.
use chimpbase.Prelude.{
  ℕ, ◌+◌, ◌≤◌, ◌<◌, ◌≡◌, ◌≢◌, refl, ◌∙◌, inl, inr, String, Bool, true, false, Option, none, some,
  [], ◌∷◌, ◌++◌, In, All-In, arith, leb, ◌==◌, Bool-cases, if◌then◌else◌,
}
use chimpbase.Queue.{
  Payload, dead_letter, JobStatus, pending, failed, dlq, QueueJob, JobTable, next_id, queue_enqueue,
  failed_row, mark_queue_job_failure, get_queue_job_payload,
}
use chimpbase.Queue.Rows.{
  IsOrdered, get_job, map_job, get_job-update_job, update_job-IsOrdered, queue_enqueue-IsOrdered,
  get_job-queue_enqueue, get_job_of_In, get_job-In, below_next,
}
use chimpbase.Engine.{Engine}
use chimpbase.Engine.Jobs.{
  Registry, get_worker, dlq_of, add_dead_letter, next_status, fail_queue_job,
}

payload-eq-some :
    (id : ℕ) (rows : JobTable) (row : QueueJob)
    → get_job id rows ≡ some row
    → get_queue_job_payload id rows ≡ some row.payload
unfolding get_job get_queue_job_payload
payload-eq-some id [] row e = cc
payload-eq-some id (r ∷ rows) row e = elim (Bool-cases (r.id == id)) [
  | inl here ↦ ground arith
  | inr later ↦ ground (arith, payload-eq-some id rows row)
]

In-last : (x : QueueJob) (rows : JobTable) → In x (rows ++ x ∷ [])
In-last x [] = inl refl
In-last x (r ∷ rows) = inr (In-last x rows)

-- How a job ends up when an attempt has failed: it waits for the next attempt, or there is none,
-- and it has failed or gone to the dead letter queue, where a new job holds the envelope.
pub data Verdict (registry : Registry) (now : ℕ) (queue : String) (attempts : ℕ)
    (envelope : Payload) (status : JobStatus) (after : JobTable) : Type 0 where
  retries :
      attempts < registry.max_attempts
      → status ≡ pending
      → Verdict registry now queue attempts envelope status after
  gives_up :
      registry.max_attempts ≤ attempts
      → dlq_of (get_worker queue registry.workers) ≡ none
      → status ≡ failed
      → Verdict registry now queue attempts envelope status after
  goes_to_dlq :
      (name : String) (job : QueueJob)
      → registry.max_attempts ≤ attempts
      → dlq_of (get_worker queue registry.workers) ≡ some name
      → status ≡ dlq
      → In job after
      → job.queue_name ≡ name
      → job.payload ≡ envelope
      → job.status ≡ pending
      → job.available_at_ms ≡ now + 0
      → job.attempt_count ≡ 0
      → Verdict registry now queue attempts envelope status after

-- The table after an attempt at the job of `row` has failed.
pub record IsFailed (registry : Registry) (now id : ℕ) (queue message : String) (attempts : ℕ)
    (row : QueueJob) (before after : JobTable) : Type 0 where
  pub status : JobStatus
  pub own : get_job id after ≡ some (failed_row status (now + registry.retry_delay_ms) message row)
  pub others :
      (i : ℕ) (r : QueueJob) → i ≢ id → get_job i before ≡ some r → get_job i after ≡ some r
  pub verdict :
      Verdict registry now queue attempts
        (dead_letter attempts message now row.payload queue)
        status
        after
  pub ordered : IsOrdered after

module _ (registry : Registry) (id : ℕ) (queue message : String) (attempts : ℕ) (s : Engine)
    (row : QueueJob) (ordered : IsOrdered s.db.jobs) (found : get_job id s.db.jobs ≡ some row) where
  abbrev dlq_name : Option String
  dlq_name = dlq_of (get_worker queue registry.workers)

  abbrev exhausted : Bool
  exhausted = leb registry.max_attempts attempts

  abbrev rows : JobTable
  rows =
      add_dead_letter dlq_name exhausted s.now queue message attempts
        (get_queue_job_payload id s.db.jobs) s.db.jobs

  abbrev next_available : ℕ
  next_available = s.now + registry.retry_delay_ms

  added :
      (d : Option String) (over : Bool) (payload : Option Payload) (i : ℕ) (r : QueueJob)
      → get_job i s.db.jobs ≡ some r
      → get_job i (add_dead_letter d over s.now queue message attempts payload s.db.jobs) ≡ some r
  added none over payload i r e = e
  added (some name) false payload i r e = e
  added (some name) true none i r e = e
  added (some name) true (some payload) i r e =
      get_job-queue_enqueue s.now name (dead_letter attempts message s.now payload queue) none
        s.db.jobs i r e

  after-eq :
      (i : ℕ)
      → get_job i (fail_queue_job registry id queue message attempts s).db.jobs ≡ (
          if i == id
          then map_job
              (failed_row (next_status dlq_name exhausted) next_available message)
              (get_job i rows)
          else get_job i rows)
  unfolding fail_queue_job mark_queue_job_failure
  after-eq i =
      get_job-update_job (failed_row (next_status dlq_name exhausted) next_available message)
        (λ r. refl) id i rows

  own :
      get_job id (fail_queue_job registry id queue message attempts s).db.jobs
      ≡ some (failed_row (next_status dlq_name exhausted) next_available message row)
  own =
      let mine = added dlq_name exhausted (get_queue_job_payload id s.db.jobs) id row found in
      after-eq id ∙ ground (arith, mine)

  others :
      (i : ℕ) (r : QueueJob)
      → i ≢ id
      → get_job i s.db.jobs ≡ some r
      → get_job i (fail_queue_job registry id queue message attempts s).db.jobs ≡ some r
  others i r other e =
      let kept = added dlq_name exhausted (get_queue_job_payload id s.db.jobs) i r e in
      after-eq i ∙ ground (arith, kept)

  added-IsOrdered :
      (d : Option String) (over : Bool) (payload : Option Payload)
      → IsOrdered (add_dead_letter d over s.now queue message attempts payload s.db.jobs)
  added-IsOrdered none over payload = ordered
  added-IsOrdered (some name) false payload = ordered
  added-IsOrdered (some name) true none = ordered
  added-IsOrdered (some name) true (some payload) =
      queue_enqueue-IsOrdered s.now name (dead_letter attempts message s.now payload queue) none
        s.db.jobs ordered

  after-IsOrdered : IsOrdered (fail_queue_job registry id queue message attempts s).db.jobs
  unfolding fail_queue_job mark_queue_job_failure
  after-IsOrdered =
      update_job-IsOrdered (failed_row (next_status dlq_name exhausted) next_available message)
        (λ r. refl) id rows
        (added-IsOrdered dlq_name exhausted (get_queue_job_payload id s.db.jobs))

  abbrev letter : String → QueueJob
  letter name = record {
    id = next_id s.db.jobs;
    queue_name = name;
    payload = dead_letter attempts message s.now row.payload queue;
    status = pending;
    available_at_ms = s.now + 0;
    attempt_count = 0;
    lease_expires_at_ms = none;
    last_error = none;
  }

  letter-In :
      (name : String)
      → In (letter name) (
          queue_enqueue s.now name
            (dead_letter attempts message s.now row.payload queue)
            none
            s.db.jobs)
  unfolding queue_enqueue
  letter-In name = In-last (letter name) s.db.jobs

  letter_kept :
      (name : String)
      → dlq_name ≡ some name
      → exhausted ≡ true
      → In (letter name) (fail_queue_job registry id queue message attempts s).db.jobs
  letter_kept name d over =
      let queued =
        queue_enqueue s.now name (dead_letter attempts message s.now row.payload queue) none
          s.db.jobs in
      let payload = payload-eq-some id s.db.jobs row found in
      let new_rows : rows ≡ queued = rw (d, over, payload) refl in
      let there : get_job (next_id s.db.jobs) queued ≡ some (letter name) =
        get_job_of_In (letter name) queued
          (queue_enqueue-IsOrdered s.now name (dead_letter attempts message s.now row.payload queue)
            none s.db.jobs ordered)
          (letter-In name) in
      let there' : get_job (next_id s.db.jobs) rows ≡ some (letter name) = rw new_rows there in
      let (at, i) = get_job-In id s.db.jobs row found in
      let below =
        All-In (λ r. r.id < next_id s.db.jobs) s.db.jobs (below_next s.db.jobs ordered) row i in
      let other : (next_id s.db.jobs == id) ≡ false = ground arith in
      (get_job-In (next_id s.db.jobs) _ (letter name)
        (after-eq (next_id s.db.jobs) ∙ rw other there')).1

  decided :
      (d : Option String) (over : Bool)
      → dlq_name ≡ d
      → exhausted ≡ over
      → Verdict registry s.now queue attempts
          (dead_letter attempts message s.now row.payload queue)
          (next_status d over)
          (fail_queue_job registry id queue message attempts s).db.jobs
  decided none false d over = retries (ground arith) refl
  decided (some name) false d over = retries (ground arith) refl
  decided none true d over = gives_up (ground arith) d refl
  decided (some name) true d over =
      goes_to_dlq name (letter name) (ground arith) d refl (letter_kept name d over) refl refl refl
        refl refl

  -- On an ordered table, failQueueJob of a job that is there sets its row to wait for the next
  -- attempt while attempts are left, and otherwise to failed, or to dlq with a new job for the
  -- envelope if its worker names a dead letter queue, and keeps every other row.
  pub fail_queue_job-IsFailed :
      IsFailed registry s.now id queue message attempts row s.db.jobs
        (fail_queue_job registry id queue message attempts s).db.jobs
  fail_queue_job-IsFailed = record {
    status = next_status dlq_name exhausted;
    own = own;
    others = others;
    verdict = decided dlq_name exhausted refl refl;
    ordered = after-IsOrdered;
  }
