-- ===== src/Engine/Tests.antt =====
-- Transactions that throw and return, and the theorems at these inputs.
use chimpbase.Prelude.{◌≡◌, refl, none, []}
use chimpbase.Prelude.Result.{err}
use chimpbase.Queue.{json, queue_enqueue}
use chimpbase.Engine.{
  Db, Engine, Run, begin_transaction, enter, run_in_transaction, publish, on_db, throw, ◌>>◌,
}
use chimpbase.Engine.Transaction.{
  IsIdle, Keeps, IsInner, publish-IsInner, on_db-IsInner, >>=-IsInner, throw-IsInner,
}
use chimpbase.Engine.Transaction.Commits.{IsCommitted}
use chimpbase.Engine.Transaction.Commits
use chimpbase.Engine.Transaction

abbrev pub idle_engine : Engine
idle_engine = record {
  db = record {
    jobs = [];
    events = [];
    seen = [];
    workflows = [];
    signals = [];
    cron_schedules = [];
    cron_runs = [];
  };
  saved = none;
  transaction_depth = 0;
  pending_events = [];
  committed_events = [];
  published = [];
  now = 1000;
}

pub idle_engine-IsIdle : IsIdle idle_engine
idle_engine-IsIdle = record { depth = refl; saved = refl; pending = refl }

abbrev pub add_job : Db → Db
add_job db = record db { jobs = queue_enqueue 1000 "mail" (json "{}") none db.jobs }

-- Enqueues a job and publishes an event.
abbrev pub order : Run Unit
order = on_db add_job >> publish "order.created" "{}"

abbrev pub broken_order : Run Unit
broken_order = order >> throw "no stock"

pub order-IsInner : IsInner order
order-IsInner =
    >>=-IsInner (on_db add_job) (λ u. publish "order.created" "{}") (on_db-IsInner add_job)
      (λ u. publish-IsInner "order.created" "{}")

pub broken_order-IsInner : IsInner broken_order
broken_order-IsInner =
    >>=-IsInner order (λ u. throw "no stock") order-IsInner (λ u. throw-IsInner Unit "no stock")

run_in_transaction_fails_example :
    run_in_transaction broken_order idle_engine ≡ (err "no stock", idle_engine)
unfolding publish begin_transaction
run_in_transaction_fails_example =
    Transaction.run_in_transaction_fails broken_order broken_order-IsInner idle_engine
      (broken_order (enter (begin_transaction idle_engine))).1 "no stock" idle_engine-IsIdle refl

abbrev order_state : Engine
order_state = (order (enter (begin_transaction idle_engine))).1

run_in_transaction-IsCommitted_example :
    IsCommitted idle_engine order_state tt (run_in_transaction order idle_engine)
unfolding publish begin_transaction
run_in_transaction-IsCommitted_example =
    Commits.run_in_transaction-IsCommitted order order-IsInner idle_engine order_state tt
      idle_engine-IsIdle refl
