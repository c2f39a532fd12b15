-- ===== src/Engine/Transaction/Commits.antt =====
-- The events of a transaction that is committed, and their ids (`persistEvents`).
use chimpbase.Prelude.{
  ℕ, zero, suc, ◌+◌, ◌≡◌, refl, subst, String, Option, none, some, List, [], ◌∷◌, ◌++◌, arith,
  length,
}
use chimpbase.Prelude.Result.{Result, ok}
use chimpbase.Engine.{Event, Engine, Run, with_ids, begin_transaction, enter, run_in_transaction}
use chimpbase.Engine.Transaction.{IsIdle, IsInner, run_in_transaction_commits}

abbrev pub event_at : ℕ → List Event → Option Event
event_at i [] = none
event_at zero (e ∷ es) = some e
event_at (suc i) (e ∷ es) = event_at i es

abbrev pub with_id : ℕ → Option Event → Option Event
with_id n none = none
with_id n (some e) = some (record e { id = some n })

event_at-with_ids :
    (n i : ℕ) (es : List Event) → event_at i (with_ids n es) ≡ with_id (n + i) (event_at i es)
unfolding with_ids
event_at-with_ids n i [] = refl
event_at-with_ids n zero (e ∷ es) = let same : n + 0 ≡ n = omega arith in rw same refl
event_at-with_ids n (suc i) (e ∷ es) =
    let same : n + 1 + i ≡ n + suc i = omega arith in
    subst (λ k. event_at i (with_ids (n + 1) es) ≡ with_id k (event_at i es)) same
      (event_at-with_ids (n + 1) i es)

-- The state after a commit of what the callback left in `t`: the pending events, in their order and
-- with the ids that follow the number of rows, are behind the rows, the committed events and those
-- that the bus was given, and nothing else has changed.
pub record IsCommitted {A : Type 0} (s t : Engine) (a : A) (r : Result String A × Engine)
    : Type 0 where
  pub events : List Event
  pub numbered :
      (i : ℕ)
      → event_at i events ≡ with_id (length t.db.events + 1 + i) (event_at i t.pending_events)
  pub state : r ≡ (
    ok a,
    record t {
      db = record (t.db) { events = t.db.events ++ events };
      saved = none;
      transaction_depth = 0;
      pending_events = [];
      committed_events = s.committed_events ++ events;
      published = s.published ++ events;
    },
  )

-- If the callback keeps the transaction, no transaction is open and the callback returns,
-- runInTransaction returns its value and puts the pending events, each with the id that its
-- position behind the stored rows gives, once and in their order behind the rows, the committed
-- events and those that the bus was given, closes the transaction and changes nothing else that
-- the callback left.
pub run_in_transaction-IsCommitted :
    {A : Type 0} (callback : Run A)
    → IsInner callback
    → (s t : Engine) (a : A) → IsIdle s
    → callback (enter (begin_transaction s)) ≡ (ok a, t)
    → IsCommitted s t a (run_in_transaction callback s)
run_in_transaction-IsCommitted callback inner s t a idle returns = record {
  events = with_ids (length t.db.events + 1) t.pending_events;
  numbered = λ i. event_at-with_ids (length t.db.events + 1) i t.pending_events;
  state = run_in_transaction_commits callback inner s t a idle returns;
}
