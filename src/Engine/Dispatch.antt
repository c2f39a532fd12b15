-- ===== src/Engine/Dispatch.antt =====
-- The dispatch of committed events to subscriptions (packages/core/engine.ts). The handler of a
-- subscription is code of the application.
pub mod Delivery
use chimpbase.Prelude.{
  ℕ, ◌≡◌, String, Bool, true, false, ◌&&◌, ◌||◌, Option, none, some, List, [], ◌∷◌, ◌==◌, str_eq,
  if◌then◌else◌,
}
use chimpbase.Prelude.Result.{ok}
use chimpbase.Queue.{subscription_run, queue_enqueue}
use chimpbase.Engine.{
  Event, Db, Engine, Run, ◌>>=◌, ◌>>◌, pure, on_db, run_in_transaction, take_committed_events,
}

-- The name of the queue that carries deferred dispatches.
abbrev pub internal_subscription_queue_name : String
internal_subscription_queue_name = "__chimpbase.subscription.run"

pub record Subscription : Type 0 where
  pub name : String
  pub idempotent : Bool
  pub handler : Event → Run Unit

-- `registry.subscriptions`, and `.get(event.name) ?? []` on it.
abbrev pub Subscriptions : Type 0
Subscriptions = List (String × List Subscription)

unfoldable pub subscriptions_of : String → Subscriptions → List Subscription
subscriptions_of name [] = []
subscriptions_of name ((n, subs) ∷ rest) =
    if str_eq n name then subs else subscriptions_of name rest

-- `kvGet` and `kvSet` of the key of an event and a subscription.
unfoldable pub is_seen : ℕ → String → List (ℕ × String) → Bool
is_seen id name [] = false
is_seen id name ((i, n) ∷ seen) = ((i == id) && str_eq n name) || is_seen id name seen

unfoldable pub mark_seen : ℕ → String → Db → Db
unfolding is_seen
mark_seen id name db =
    if is_seen id name db.seen then db else record db { seen = (id, name) ∷ db.seen }

-- `sub.idempotent && event.id !== undefined`
abbrev pub idempotency_key : Bool → Option ℕ → Option ℕ
idempotency_key true id = id
idempotency_key false id = none

abbrev pub deliver_with : Option ℕ → Subscription → Event → Run Unit
deliver_with none sub event s = sub.handler event s
deliver_with (some id) sub event s =
    if is_seen id sub.name s.db.seen
    then (ok tt, s)
    else (sub.handler event >> on_db (mark_seen id sub.name)) s

-- What `dispatchSubscriptions` runs inside the transaction of one subscription.
unfoldable pub deliver : Subscription → Event → Run Unit
unfolding is_seen mark_seen
deliver sub event = deliver_with (idempotency_key sub.idempotent event.id) sub event

-- `for (const x of xs) await f(x)`
pub each : {A : Type 0} → (A → Run Unit) → List A → Run Unit
each f [] = pure tt
each f (x ∷ xs) = f x >> each f xs

unfoldable pub dispatch_subscriptions : Subscriptions → List Event → Run Unit
unfolding each deliver subscriptions_of run_in_transaction
dispatch_subscriptions subscriptions events =
    each
      (λ event.
        each (λ sub. run_in_transaction (deliver sub event))
          (subscriptions_of event.name subscriptions))
      events

abbrev pub dispatch_job : Event → Db → ℕ → Db
dispatch_job event db now = record db {
  jobs =
      queue_enqueue now internal_subscription_queue_name
        (subscription_run event.id event.name event.payload_json) none db.jobs;
}

abbrev pub enqueue_dispatch : Subscriptions → Event → Run Unit
enqueue_dispatch subscriptions event s = elim (subscriptions_of event.name subscriptions) [
  | [] ↦ (ok tt, s)
  | sub ∷ subs ↦ (ok tt, record s { db = dispatch_job event s.db s.now })
]

unfoldable pub enqueue_subscription_dispatch_jobs : Subscriptions → List Event → Run Unit
unfolding each subscriptions_of
enqueue_subscription_dispatch_jobs subscriptions events =
    each (enqueue_dispatch subscriptions) events

-- `is_async` is `subscriptionsConfig.dispatch === "async"`.
unfoldable pub handle_committed_events : Bool → Subscriptions → List Event → Run (List Event)
unfolding enqueue_subscription_dispatch_jobs dispatch_subscriptions take_committed_events
handle_committed_events true subscriptions events =
    enqueue_subscription_dispatch_jobs subscriptions events >> pure []
handle_committed_events false subscriptions events =
    dispatch_subscriptions subscriptions events >> take_committed_events
