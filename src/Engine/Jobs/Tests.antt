-- ===== src/Engine/Jobs/Tests.antt =====
-- Jobs whose handlers succeed and throw, a subscription, and the theorems at these inputs.
use chimpbase.Prelude.{
  inl, inr, Bool-cases, ◌==◌, String, ℕ, ◌≡◌, refl, true, false, none, some, [], ◌∷◌, In, arith,
  length,
}
use chimpbase.Queue.{json, processing, QueueJob, ClaimedJob}
use chimpbase.Queue.Rows.{get_job}
use chimpbase.Queue.Leases.{claim, run}
use chimpbase.Engine.{
  Event, Engine, publish, begin_transaction, commit_transaction, enter, run_in_transaction,
}
use chimpbase.Engine.Transaction.{IsIdle, publish-IsInner}
use chimpbase.Engine.Tests.{idle_engine, order, broken_order, broken_order-IsInner}
use chimpbase.Engine.Dispatch.{Subscription, deliver, is_seen}
use chimpbase.Engine.Dispatch.Delivery.{Delivery}
use chimpbase.Prelude.Result.{ok}
use chimpbase.Engine.Dispatch.Delivery
use chimpbase.Engine.Dispatch.Delivery.Once.{Target, IsRegular, deliver_to, deliver_all}
use chimpbase.Engine.Dispatch.Delivery.Once
use chimpbase.Engine.Jobs.{Worker, Registry, get_worker, fail_queue_job, process_claimed_queue_job}
use chimpbase.Engine.Jobs.Failure.{IsFailed}
use chimpbase.Engine.Jobs.Failure
use chimpbase.Engine.Jobs.Outcome.{Outcome}
use chimpbase.Engine.Jobs.Outcome
use chimpbase.Engine.Jobs.Retries

abbrev mailer : Subscription
mailer = record {
  name = "mailer";
  idempotent = true;
  handler = λ event. publish "mail.sent" event.payload_json;
}

abbrev created : Event
created = record { id = some 7; name = "order.created"; payload_json = "{}" }

deliver-IsDelivery_example :
    Delivery mailer created 7 idle_engine (run_in_transaction (deliver mailer created) idle_engine)
deliver-IsDelivery_example =
    Delivery.deliver-IsDelivery mailer created 7 refl refl (publish-IsInner "mail.sent" "{}")
      idle_engine (record { depth = refl; saved = refl; pending = refl })

abbrev delivered : Engine
delivered = record idle_engine { db = record (idle_engine.db) { seen = (7, "mailer") ∷ [] } }

abbrev delivered_to_other : Engine
delivered_to_other = record idle_engine {
  db = record (idle_engine.db) { seen = (7, "archive") ∷ [] };
}

-- The delivery to one subscription counts for that one alone.
skips_and_delivers :
    ((run_in_transaction (deliver mailer created) delivered).1.published ≡ [])
    × (length (run_in_transaction (deliver mailer created) delivered_to_other).1.published ≡ 1)
unfolding is_seen deliver publish begin_transaction run_in_transaction commit_transaction
skips_and_delivers = (refl, refl)

abbrev target : String → Target
target name = record {
  sub = record { name = name; idempotent = true; handler = λ event. publish "mail.sent" "{}" };
  event = created;
  id = 7;
}

publish_keys :
    (s : Engine) (key : ℕ × String)
    → In key s.db.seen
    → In key (publish "mail.sent" "{}" s).1.db.seen
unfolding publish
publish_keys s key i = elim (Bool-cases (s.transaction_depth == 0)) [
  | inl e ↦ rw (e, publish) i
  | inr e ↦ rw (e, publish) i
]

target-IsRegular : (name : String) → IsRegular (target name)
target-IsRegular name = record {
  idempotent = refl;
  stored = refl;
  inner = publish-IsInner "mail.sent" "{}";
  keys = publish_keys;
}

abbrev delivered_once : Engine
delivered_once = (deliver_to (target "mailer") idle_engine).1

delivery_returns : deliver_to (target "mailer") idle_engine ≡ (ok tt, delivered_once)
unfolding deliver publish begin_transaction run_in_transaction is_seen
delivery_returns = refl

deliver_once_example :
    deliver_to
      (target "mailer")
      (deliver_all (target "archive" ∷ target "mailer" ∷ []) delivered_once)
    ≡ (ok tt, deliver_all (target "archive" ∷ target "mailer" ∷ []) delivered_once)
deliver_once_example =
    Once.deliver_once (target "mailer") (target "archive" ∷ target "mailer" ∷ []) idle_engine
      delivered_once (target-IsRegular "mailer")
      (target-IsRegular "archive", (target-IsRegular "mailer", tt))
      (record { depth = refl; saved = refl; pending = refl }) delivery_returns

-- Orders are worked off; broken ones throw, and their dead letters are kept.
abbrev registry : Registry
registry = record {
  workers =
      ("orders", record { dlq_name = none; handler = λ payload. order })
      ∷ ("broken", record { dlq_name = some "graveyard"; handler = λ payload. broken_order })
      ∷ [];
  crons = [];
  subscriptions = ("order.created", mailer ∷ []) ∷ [];
  workflow_names = [];
  is_async = false;
  lease_ms = 30;
  max_attempts = 1;
  retry_delay_ms = 50;
}

abbrev broken_worker : Worker
broken_worker = record { dlq_name = some "graveyard"; handler = λ payload. broken_order }

abbrev broken_row : QueueJob
broken_row = record {
  id = 1;
  queue_name = "broken";
  payload = json "{}";
  status = processing;
  available_at_ms = 900;
  attempt_count = 1;
  lease_expires_at_ms = some 1030;
  last_error = none;
}

abbrev broken_job : ClaimedJob
broken_job = record { id = 1; queue_name = "broken"; payload = json "{}"; attempt_count = 1 }

abbrev busy_engine : Engine
busy_engine = record idle_engine { db = record (idle_engine.db) { jobs = broken_row ∷ [] } }

is_registered : get_worker "broken" registry.workers ≡ some broken_worker
unfolding get_worker
is_registered = refl

broken_row_found : get_job 1 busy_engine.db.jobs ≡ some broken_row
unfolding get_job
broken_row_found = refl

busy_engine-IsIdle : IsIdle busy_engine
busy_engine-IsIdle = record { depth = refl; saved = refl; pending = refl }

fail_queue_job-IsFailed_example :
    IsFailed registry 1000 1 "broken" "no stock" 1 broken_row busy_engine.db.jobs
      (fail_queue_job registry 1 "broken" "no stock" 1 busy_engine).db.jobs
fail_queue_job-IsFailed_example =
    Failure.fail_queue_job-IsFailed registry 1 "broken" "no stock" 1 busy_engine broken_row (tt, tt)
      broken_row_found

process_claimed_queue_job-Outcome_example :
    Outcome registry broken_job broken_worker busy_engine
      (process_claimed_queue_job registry broken_job busy_engine)
process_claimed_queue_job-Outcome_example =
    Outcome.process_claimed_queue_job-Outcome registry broken_job broken_worker is_registered
      broken_order-IsInner busy_engine busy_engine-IsIdle

exhausted_final_example :
    ¬ In {A = ℕ} 1
      (run
        (claim 2000 30 ("broken" ∷ []) ∷ [])
        (process_claimed_queue_job registry broken_job busy_engine).1.db.jobs).0
unfolding publish begin_transaction
exhausted_final_example =
    Retries.exhausted_final registry broken_job broken_worker is_registered broken_order-IsInner
      busy_engine busy_engine-IsIdle broken_row "no stock"
      (broken_order (enter (begin_transaction busy_engine))).1 3000
      (claim 2000 30 ("broken" ∷ []) ∷ []) (tt, tt) broken_row_found refl (omega arith)
      (omega arith, tt)
