-- ===== src/Engine/Jobs/Retries.antt =====
-- The attempts at a job come to an end.
use chimpbase.Prelude.{ℕ, ◌+◌, ◌≤◌, ◌≡◌, ◌≢◌, sym, subst, String, some, List, In, arith}
use chimpbase.Prelude.Result.{Result, err}
use chimpbase.Queue.{
  JobStatus, pending, processing, QueueJob, ClaimedJob, JobTable, Payload, failed_row,
}
use chimpbase.Queue.Rows.{IsOrdered, get_job}
use chimpbase.Queue.Leases.{Call, run, AllQuiet, settled_final}
use chimpbase.Engine.{Event, Engine}
use chimpbase.Engine.Transaction.{IsIdle, IsInner, body}
use chimpbase.Engine.Jobs.{Worker, Registry, get_worker, process_claimed_queue_job}
use chimpbase.Engine.Jobs.Failure.{Verdict, retries, gives_up, goes_to_dlq, fail_queue_job-IsFailed}
use chimpbase.Engine.Jobs.Outcome.{failed_with, process-rolled_back}

no_attempt_left :
    (registry : Registry) (now : ℕ) (queue : String) (attempts : ℕ) (envelope : Payload)
    (status : JobStatus) (after : JobTable)
    → registry.max_attempts ≤ attempts
    → Verdict registry now queue attempts envelope status after
    → (status ≢ pending) × (status ≢ processing)
no_attempt_left registry now queue attempts envelope status after last v = elim v [
  | retries few s ↦ absurd (omega (arith, last, few))
  | gives_up many d s ↦ rw s (λ e. cc, λ e. cc)
  | goes_to_dlq name job many d s i q p st av at ↦ rw s (λ e. cc, λ e. cc)
]

module _ (registry : Registry) (job : ClaimedJob) (worker : Worker)
    (registered : get_worker job.queue_name registry.workers ≡ some worker)
    (inner : IsInner (worker.handler job.payload)) (s : Engine) (idle : IsIdle s) where
  -- If the handler of a registered worker keeps the transaction and throws on the last allowed
  -- attempt at a job, on an idle engine with an ordered table that has the job, no claim returns
  -- the job again, through any calls that are made before a given time, which may be any, and do
  -- not report on it.
  pub exhausted_final :
      (row : QueueJob) (message : String) (t : Engine) (until : ℕ) (cs : List Call)
      → IsOrdered s.db.jobs
      → get_job job.id s.db.jobs ≡ some row
      → body (worker.handler job.payload) inner s ≡ (err message, t)
      → registry.max_attempts ≤ job.attempt_count
      → AllQuiet job.id until cs
      → ¬ In job.id (run cs (process_claimed_queue_job registry job s).1.db.jobs).0
  exhausted_final row message t until cs ordered found throws last quiet =
      let failed_state = failed_with registry job message (record s { now = t.now }) in
      let f =
        fail_queue_job-IsFailed registry job.id job.queue_name message job.attempt_count
          (record s { now = t.now }) row ordered found in
      let (not_pending, not_processing) = no_attempt_left registry _ _ _ _ _ _ last f.verdict in
      let never =
        (settled_final job.id until failed_state.db.jobs
          (failed_row f.status (t.now + registry.retry_delay_ms) message row) cs f.ordered f.own
          not_pending not_processing quiet).0 in
      let result =
        process-rolled_back registry job worker registered inner s idle message t throws in
      subst (λ (r : Result String (List Event) × Engine). ¬ In job.id (run cs r.1.db.jobs).0)
        (sym result) never
