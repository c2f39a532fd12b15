-- ===== src/Engine.antt =====
-- The state of `ChimpbaseEngine` (packages/core/engine.ts) over a SQLite database, and
-- `runInTransaction`. Code of the user (handlers of actions, workers and subscriptions) is a function
-- on the engine's state that returns or throws; the calls of the database itself do not fail.
pub mod Transaction
pub mod Dispatch
pub mod Jobs
pub mod Crons
pub mod Workflows
pub mod Drain
mod Tests
use chimpbase.Prelude.{
  ℕ, zero, suc, ◌+◌, ◌-◌, String, Bool, true, false, Option, none, some, List, [], ◌∷◌, ◌++◌, ◌==◌,
  length, if◌then◌else◌,
}
use chimpbase.Prelude.Result.{Result, ok, err}
use chimpbase.Queue.{JobTable}
use chimpbase.Schedules.{ScheduleTable, CronRun}
use chimpbase.Workflow.{WorkflowInstance, WorkflowSignal}

-- `ChimpbaseEventRecord`; the payload is its JSON text.
pub record Event : Type 0 where
  pub id : Option ℕ
  pub name : String
  pub payload_json : String

-- The tables. `seen` holds the keys `_chimpbase.sub.seen:<event id>:<subscription name>` of the
-- key-value table.
pub record Db : Type 0 where
  pub jobs : JobTable
  pub events : List Event
  pub seen : List (ℕ × String)
  pub workflows : List WorkflowInstance
  pub signals : List WorkflowSignal
  pub cron_schedules : ScheduleTable
  pub cron_runs : List CronRun

-- `saved` is the database as it was at `BEGIN` while a transaction is open, `published` what the
-- event bus was given, and `now` the platform's clock.
pub record Engine : Type 0 where
  pub db : Db
  pub saved : Option Db
  pub transaction_depth : ℕ
  pub pending_events : List Event
  pub committed_events : List Event
  pub published : List Event
  pub now : ℕ

abbrev pub Run : Type 0 → Type 0
Run A = Engine → Result String A × Engine

-- A promise that resolves, and the `await` of one.
abbrev pub after :
    {A B : Type 0} → Result String A × Engine → (A → Run B) → Result String B × Engine
after (ok a, s) f = f a s
after (err e, s) f = (err e, s)

infixl 5 ◌>>=◌ ◌>>◌
abbrev pub ◌>>=◌ : {A B : Type 0} → Run A → (A → Run B) → Run B
◌>>=◌ m f s = after (m s) f

abbrev pub ◌>>◌ : {A B : Type 0} → Run A → Run B → Run B
m >> k = m >>= λ _. k

abbrev pub pure : {A : Type 0} → A → Run A
pure a s = (ok a, s)

abbrev pub throw : {A : Type 0} → String → Run A
throw e s = (err e, s)

abbrev pub on_db : (Db → Db) → Run (Unit {0})
on_db f s = (ok tt, record s { db = f s.db })

-- `persistEvents`: the rows get the next ids, and so do the records. No row is ever deleted, so the
-- last id is the number of rows.
unfoldable pub with_ids : ℕ → List Event → List Event
with_ids n [] = []
with_ids n (e ∷ es) = record e { id = some n } ∷ with_ids (n + 1) es

unfoldable pub begin_transaction : Engine → Engine
begin_transaction s = record s { saved = some s.db }

-- `commitTransaction`, the move of the pending events, and the call of the event bus.
unfoldable pub commit_transaction : Engine → Engine
unfolding with_ids
commit_transaction s =
    let events = with_ids (length s.db.events + 1) s.pending_events in
    record s {
      db = record (s.db) { events = s.db.events ++ events };
      saved = none;
      pending_events = [];
      committed_events = s.committed_events ++ events;
      published = s.published ++ events;
    }

abbrev pub saved_or : Option Db → Db → Db
saved_or none db = db
saved_or (some saved) db = saved

-- `pendingEvents.splice(0)` and `rollbackTransaction`.
unfoldable pub rollback_transaction : Engine → Engine
rollback_transaction s = record s { db = saved_or s.saved s.db; saved = none; pending_events = [] }

abbrev pub enter : Engine → Engine
enter s = record s { transaction_depth = s.transaction_depth + 1 }

abbrev pub leave : Engine → Engine
leave s = record s { transaction_depth = s.transaction_depth - 1 }

abbrev finish : {A : Type 0} → Bool → Result String A × Engine → Result String A × Engine
finish true (ok a, s) = (ok a, commit_transaction (leave s))
finish true (err e, s) = (err e, rollback_transaction (leave s))
finish false (r, s) = (r, leave s)

unfoldable pub run_in_transaction : {A : Type 0} → Run A → Run A
run_in_transaction callback s =
    let is_root = s.transaction_depth == 0 in
    finish is_root (callback (enter (if is_root then begin_transaction s else s)))

-- `publish` of a context: the event waits for the commit if a transaction is open.
unfoldable pub publish : String → String → Run (Unit {0})
publish topic payload s =
    let event : Event = record { id = none; name = topic; payload_json = payload } in
    if s.transaction_depth == 0
    then (ok tt, record s { committed_events = s.committed_events ++ event ∷ [] })
    else (ok tt, record s { pending_events = s.pending_events ++ event ∷ [] })

unfoldable pub take_committed_events : Run (List Event)
take_committed_events s = (ok s.committed_events, record s { committed_events = [] })
