-- ===== src/Engine/Jobs.antt =====
-- Workers and the jobs of their queues (packages/core/engine.ts). A worker's handler is code of the
-- application, or one of the engine's own that its constructor registers.
pub mod Failure
pub mod Outcome
pub mod Retries
mod Tests
use chimpbase.Prelude.{
  ℕ, ◌+◌, ◌≡◌, String, Bool, true, false, ◌&&◌, ◌||◌, not, Option, none, some, List, [], ◌∷◌, ◌++◌,
  leb, str_eq, concat, if◌then◌else◌,
}
use chimpbase.Prelude.Result.{Result, ok, err}
use chimpbase.Text.{Text}
use chimpbase.Queue.{
  Payload, json, cron_run, subscription_run, workflow_run, dead_letter, JobStatus, pending, failed,
  dlq, ClaimedJob, JobTable, queue_enqueue, claim_next_queue_job, complete_queue_job,
  mark_queue_job_failure, get_queue_job_payload,
}
use chimpbase.Engine.{
  Event, Db, Engine, Run, ◌>>=◌, ◌>>◌, pure, throw, on_db, run_in_transaction,
  take_committed_events,
}
use chimpbase.Engine.Dispatch.{
  Subscriptions, internal_subscription_queue_name, dispatch_subscriptions, handle_committed_events,
}

abbrev pub internal_cron_queue_name : String
internal_cron_queue_name = "__chimpbase.cron.run"

abbrev pub internal_workflow_queue_name : String
internal_workflow_queue_name = "__chimpbase.workflow.run"

-- A registered worker: `definition.dlq` where it is a name, and the handler.
pub record Worker : Type 0 where
  pub dlq_name : Option String
  pub handler : Payload → Run Unit

pub record CronRegistration : Type 0 where
  pub name : String
  pub schedule : Text
  pub handler : ℕ → Run Unit

-- The maps of `ChimpbaseRegistry` and the options of the engine that job processing reads.
pub record Registry : Type 0 where
  pub workers : List (String × Worker)
  pub crons : List CronRegistration
  pub subscriptions : Subscriptions
  pub workflow_names : List String
  pub is_async : Bool
  pub lease_ms : ℕ
  pub max_attempts : ℕ
  pub retry_delay_ms : ℕ

unfoldable pub get_worker : String → List (String × Worker) → Option Worker
get_worker name [] = none
get_worker name ((n, worker) ∷ rest) = if str_eq n name then some worker else get_worker name rest

unfoldable pub get_cron : String → List CronRegistration → Option CronRegistration
get_cron name [] = none
get_cron name (cron ∷ rest) = if str_eq cron.name name then some cron else get_cron name rest

abbrev pub dlq_of : Option Worker → Option String
dlq_of none = none
dlq_of (some worker) = worker.dlq_name

-- The envelope goes to the dead letter queue, if the job's row is there.
abbrev pub add_dead_letter :
    Option String → Bool → ℕ → String → String → ℕ → Option Payload → JobTable → JobTable
add_dead_letter (some name) true now queue error attempts (some payload) rows =
    queue_enqueue now name (dead_letter attempts error now payload queue) none rows
add_dead_letter _ _ now queue error attempts payload rows = rows

abbrev pub next_status : Option String → Bool → JobStatus
next_status (some name) true = dlq
next_status none true = failed
next_status _ false = pending

module _ (registry : Registry) where
  unfoldable pub fail_queue_job : ℕ → String → String → ℕ → Engine → Engine
  unfolding get_worker get_queue_job_payload mark_queue_job_failure
  fail_queue_job id queue message attempts s =
      let dlq_name = dlq_of (get_worker queue registry.workers) in
      let exhausted = leb registry.max_attempts attempts in
      let rows =
        add_dead_letter dlq_name exhausted s.now queue message attempts
          (get_queue_job_payload id s.db.jobs) s.db.jobs in
      record s {
        db = record (s.db) {
          jobs =
              mark_queue_job_failure id (next_status dlq_name exhausted)
                (s.now + registry.retry_delay_ms) message rows;
        };
      }

  abbrev pub complete_job : ℕ → Db → Db
  complete_job id db = record db { jobs = complete_queue_job id db.jobs }

  -- The `try` of `processClaimedQueueJob`, and its `catch`.
  abbrev pub attempt : Worker → ClaimedJob → Run (List Event)
  attempt worker job = do
    run_in_transaction (worker.handler job.payload)
    events ← take_committed_events
    cascaded ← handle_committed_events registry.is_async registry.subscriptions events
    on_db (complete_job job.id)
    pure (events ++ cascaded)

  abbrev pub or_fail :
      ClaimedJob → Result String (List Event) × Engine → Result String (List Event) × Engine
  or_fail job (ok events, s) = (ok events, s)
  or_fail job (err message, s) =
      (err message, fail_queue_job job.id job.queue_name message job.attempt_count s)

  unfoldable pub process_claimed_queue_job : ClaimedJob → Run (List Event)
  unfolding get_worker fail_queue_job
  process_claimed_queue_job job s = elim (get_worker job.queue_name registry.workers) [
    | none ↦
        let message = concat "queue handler not found: " job.queue_name in
        (err message, fail_queue_job job.id job.queue_name message job.attempt_count s)
    | some worker ↦ or_fail job (attempt worker job s)
  ]

  is_internal : String → Bool
  is_internal name =
      str_eq name internal_cron_queue_name
      || (str_eq name internal_subscription_queue_name || str_eq name internal_workflow_queue_name)

  user_queues : List (String × Worker) → List String
  unfolding is_internal
  user_queues [] = []
  user_queues ((name, worker) ∷ rest) =
      let names = user_queues rest in if is_internal name then names else name ∷ names

  abbrev queue_if : Bool → String → List String
  queue_if true name = name ∷ []
  queue_if false name = []

  abbrev is_empty : {A : Type 0} → List A → Bool
  is_empty [] = true
  is_empty (x ∷ xs) = false

  unfoldable pub get_claimable_queue_names : List String
  unfolding user_queues
  get_claimable_queue_names =
      user_queues registry.workers
      ++ queue_if (not (is_empty registry.crons)) internal_cron_queue_name
      ++ queue_if (registry.is_async && not (is_empty registry.subscriptions))
          internal_subscription_queue_name
      ++ queue_if (not (is_empty registry.workflow_names)) internal_workflow_queue_name

  abbrev pub process_claim : Option ClaimedJob × JobTable → Run (Option (List Event))
  process_claim (none, rows) = pure none
  process_claim (some job, rows) =
      on_db (λ db. record db { jobs = rows }) >> process_claimed_queue_job job >>= λ events.
      pure (some events)

  -- `processNextQueueJob` over an adapter that claims one job at a time; `none` is an empty batch.
  unfoldable pub process_next_queue_job : Run (Option (List Event))
  unfolding get_claimable_queue_names claim_next_queue_job process_claimed_queue_job
  process_next_queue_job s =
      process_claim
        (claim_next_queue_job s.now registry.lease_ms get_claimable_queue_names s.db.jobs) s

-- `processCronQueuePayload`; a payload that the engine did not write itself has no name or time.
unfoldable pub process_cron_queue_payload : List CronRegistration → Payload → Run Unit
unfolding get_cron
process_cron_queue_payload crons (cron_run name fire_at_ms) =
    if str_eq name ""
    then throw "cron queue payload requires scheduleName and fireAtMs"
    else elim (get_cron name crons) [
      | none ↦ throw (concat "cron handler not found: " name)
      | some cron ↦ cron.handler fire_at_ms
    ]
process_cron_queue_payload crons payload =
    throw "cron queue payload requires scheduleName and fireAtMs"

abbrev pub subscription_event : Payload → List Event
subscription_event (subscription_run id name payload_json) =
    record { id = id; name = name; payload_json = payload_json } ∷ []
subscription_event payload = []

-- The workers that the constructor registers for cron runs and deferred dispatches.
abbrev pub cron_worker : Registry → Worker
cron_worker registry = record {
  dlq_name = none;
  handler = process_cron_queue_payload registry.crons;
}

abbrev pub subscription_worker : Registry → Worker
subscription_worker registry = record {
  dlq_name = none;
  handler = λ payload. dispatch_subscriptions registry.subscriptions (subscription_event payload);
}
