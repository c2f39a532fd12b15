-- ===== src/Engine/Jobs/Outcome.antt =====
-- What processing a claimed job leaves behind.
use chimpbase.Prelude.{◌≡◌, refl, sym, ap, ◌∙◌, inl, inr, String, some, List, [], ◌++◌}
use chimpbase.Prelude.Result.{Result, ok, err, Result-cases}
use chimpbase.Queue.{ClaimedJob}
use chimpbase.Engine.{
  Event, Engine, begin_transaction, enter, run_in_transaction, take_committed_events,
}
use chimpbase.Engine.Transaction.{
  IsIdle, IsInner, run_in_transaction_fails, run_in_transaction_commits, body,
}
use chimpbase.Engine.Dispatch.{handle_committed_events}
use chimpbase.Engine.Jobs.{
  Worker, Registry, get_worker, fail_queue_job, complete_job, process_claimed_queue_job, attempt,
  or_fail,
}

module _ (registry : Registry) (job : ClaimedJob) where
  -- `failQueueJob` with the arguments of this job.
  abbrev pub failed_with : String → Engine → Engine
  failed_with message s = fail_queue_job registry job.id job.queue_name message job.attempt_count s

  -- The three ways in which processing a job of a registered worker can go.
  pub data Outcome (worker : Worker) (s : Engine) (result : Result String (List Event) × Engine)
      : Type 0 where
    rolled_back :
        (message : String) (t : Engine)
        → worker.handler job.payload (enter (begin_transaction s)) ≡ (err message, t)
        → result ≡ (err message, failed_with message (record s { now = t.now }))
        → Outcome worker s result
    dispatch_failed :
        (message : String) (committed : Engine) (after_dispatch : Engine)
        → run_in_transaction (worker.handler job.payload) s ≡ (ok tt, committed)
        → handle_committed_events registry.is_async registry.subscriptions
            committed.committed_events
            (record committed { committed_events = [] })
          ≡ (err message, after_dispatch)
        → result ≡ (err message, failed_with message after_dispatch)
        → Outcome worker s result
    finished :
        (cascaded : List Event) (committed after_dispatch : Engine)
        → run_in_transaction (worker.handler job.payload) s ≡ (ok tt, committed)
        → handle_committed_events registry.is_async registry.subscriptions
            committed.committed_events
            (record committed { committed_events = [] })
          ≡ (ok cascaded, after_dispatch)
        → result ≡ (
          ok (committed.committed_events ++ cascaded),
          record after_dispatch { db = complete_job registry job.id after_dispatch.db },
        )
        → Outcome worker s result

  pair-eq :
      {A : Type 0} (r : Result String A × Engine) (q : Result String A) → r.0 ≡ q → r ≡ (q, r.1)
  pair-eq r q e = ap (λ (x : Result String _). (x, r.1)) e

  module _ (worker : Worker) (registered : get_worker job.queue_name registry.workers ≡ some worker)
      (inner : IsInner (worker.handler job.payload)) (s : Engine) (idle : IsIdle s) where
    abbrev ran : Result String Unit × Engine
    ran = run_in_transaction (worker.handler job.payload) s

    processed :
        process_claimed_queue_job registry job s
        ≡ or_fail registry job (attempt registry worker job s)
    unfolding process_claimed_queue_job
    processed = rw (registered, process_claimed_queue_job) refl

    pub process-rolled_back :
        (message : String) (t : Engine)
        → body (worker.handler job.payload) inner s ≡ (err message, t)
        → process_claimed_queue_job registry job s
          ≡ (err message, failed_with message (record s { now = t.now }))
    process-rolled_back message t e =
        let fails =
          run_in_transaction_fails (worker.handler job.payload) inner s t message idle e in
        processed ∙ rw fails refl

    abbrev handled : Engine → Result String (List Event) × Engine
    handled committed =
        handle_committed_events registry.is_async registry.subscriptions committed.committed_events
          (record committed { committed_events = [] })

    after_commit :
        (committed : Engine) (q : Result String (List Event)) (t : Engine)
        → ran ≡ (ok tt, committed)
        → handled committed ≡ (q, t)
        → Outcome worker s (or_fail registry job (attempt registry worker job s))
    unfolding take_committed_events
    after_commit committed (ok cascaded) t e h = finished cascaded committed t e h (rw (e, h) refl)
    after_commit committed (err message) t e h =
        dispatch_failed message committed t e h (rw (e, h) refl)

    -- Processing a claimed job of a registered worker whose handler keeps the transaction, on an
    -- idle engine, goes one of three ways: the handler threw inside the transaction, and all it
    -- did but the clock is undone before the job is reported as failed with its error; or its
    -- transaction is committed and the dispatch of its events throws, and the job is reported as
    -- failed on top of what was committed; or both succeed, and the job is completed.
    pub process_claimed_queue_job-Outcome :
        Outcome worker s (process_claimed_queue_job registry job s)
    process_claimed_queue_job-Outcome =
        let m = worker.handler job.payload in
        let r = body m inner s in
        rw processed (elim (Result-cases r.0) [
          | inr (message, bad) ↦
              let throws = pair-eq r (err message) bad in
              let fails = process-rolled_back message r.1 throws in
              rolled_back message r.1 throws (sym processed ∙ fails)
          | inl (tt, good) ↦
              let commits =
                run_in_transaction_commits m inner s r.1 tt idle (pair-eq r (ok tt) good) in
              after_commit _ (handled _).0 (handled _).1 commits refl
        ])
