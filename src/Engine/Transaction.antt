-- ===== src/Engine/Transaction.antt =====
-- `runInTransaction` with callbacks that throw, that return, and that stand in a transaction already.
pub mod Commits
use chimpbase.Prelude.{
  ◌+◌, ◌<◌, ◌≡◌, refl, sym, subst, ap, ◌∙◌, inl, inr, String, true, false, none, List, [], ◌++◌,
  arith, ◌==◌, length,
}
use chimpbase.Prelude.Result.{Result, ok, err, Result-cases}
use chimpbase.Engine.{
  Event, Db, Engine, Run, with_ids, begin_transaction, commit_transaction, rollback_transaction,
  enter, leave, finish, run_in_transaction, publish, on_db, throw, after, ◌>>=◌,
}

-- No transaction is open.
pub record IsIdle (s : Engine) : Type 0 where
  pub depth : s.transaction_depth ≡ 0
  pub saved : s.saved ≡ none
  pub pending : s.pending_events ≡ []

-- What code inside a transaction leaves to the transaction.
pub record Keeps (s s' : Engine) : Type 0 where
  pub depth : s'.transaction_depth ≡ s.transaction_depth
  pub saved : s'.saved ≡ s.saved
  pub committed : s'.committed_events ≡ s.committed_events
  pub published : s'.published ≡ s.published

-- Inside an open transaction the code neither ends it nor commits events.
abbrev pub IsInner : {A : Type 0} → Run A → Type 0
IsInner m = (s : Engine) → 0 < s.transaction_depth → Keeps s (m s).1

pub publish-IsInner : (topic payload : String) → IsInner (publish topic payload)
unfolding publish
publish-IsInner topic payload s open_ = ground arith

pub on_db-IsInner : (f : Db → Db) → IsInner (on_db f)
on_db-IsInner f s open_ = record { depth = refl; saved = refl; committed = refl; published = refl }

pub throw-IsInner : (A : Type 0) (e : String) → IsInner (throw {A = A} e)
throw-IsInner A e s open_ = record {
  depth = refl;
  saved = refl;
  committed = refl;
  published = refl;
}

Keeps-trans : {a b c : Engine} → Keeps a b → Keeps b c → Keeps a c
Keeps-trans h k = record {
  depth = k.depth ∙ h.depth;
  saved = k.saved ∙ h.saved;
  committed = k.committed ∙ h.committed;
  published = k.published ∙ h.published;
}

after-Keeps :
    {A B : Type 0} (s : Engine) (r : Result String A × Engine) (f : A → Run B)
    → ((a : A) → IsInner (f a))
    → 0 < s.transaction_depth
    → Keeps s r.1
    → Keeps s (after r f).1
after-Keeps s (ok a, t) f inner open_ k =
    let depth = k.depth in Keeps-trans k (inner a t (omega arith))
after-Keeps s (err e, t) f inner open_ k = k

pub >>=-IsInner :
    {A B : Type 0} (m : Run A) (f : A → Run B)
    → IsInner m
    → ((a : A) → IsInner (f a))
    → IsInner (m >>= f)
>>=-IsInner m f im inner s open_ = after-Keeps s (m s) f inner open_ (im s open_)

module _ {A : Type 0} (callback : Run A) (inner : IsInner callback) where
  -- A nested call.
  pub run_in_transaction_nested :
      (s : Engine)
      → 0 < s.transaction_depth
      → ((run_in_transaction callback s).0 ≡ (callback (enter s)).0)
        × ((run_in_transaction callback s).1.db ≡ (callback (enter s)).1.db)
        × ((run_in_transaction callback s).1.pending_events ≡ (callback (enter s)).1.pending_events)
        × Keeps s (run_in_transaction callback s).1
  unfolding run_in_transaction
  run_in_transaction_nested s open_ =
      let k = inner (enter s) (omega arith) in
      let e : (s.transaction_depth == 0) ≡ false = ground arith in
      rw (e, finish)
        (
          refl,
          refl,
          refl,
          record {
            depth = omega (arith, k.depth);
            saved = k.saved;
            committed = k.committed;
            published = k.published;
          },
        )

  pub run_in_transaction-IsInner : IsInner (run_in_transaction callback)
  run_in_transaction-IsInner s open_ = (run_in_transaction_nested s open_).3

  abbrev pub body : Engine → Result String A × Engine
  body s = callback (enter (begin_transaction s))

  root : (s : Engine) → IsIdle s → run_in_transaction callback s ≡ finish true (body s)
  unfolding run_in_transaction
  root s idle = let e : (s.transaction_depth == 0) ≡ true = ground (arith, idle.depth) in rw e

  body-Keeps : (s : Engine) → IsIdle s → Keeps (enter (begin_transaction s)) (body s).1
  unfolding begin_transaction
  body-Keeps s idle = inner (enter (begin_transaction s)) (omega arith)

  rolled_back :
      (s t : Engine)
      → IsIdle s
      → Keeps (enter (begin_transaction s)) t
      → rollback_transaction (leave t) ≡ record s { now = t.now }
  unfolding begin_transaction rollback_transaction
  rolled_back s t idle k =
      let d = idle.depth in
      let v = idle.saved in
      let p = idle.pending in
      let kd = k.depth in
      let ks = k.saved in let kc = k.committed in let kp = k.published in ground arith

  -- If the callback keeps the transaction (it neither ends it nor commits events) and no
  -- transaction is open, runInTransaction of a callback that throws hands the error on and leaves
  -- the engine as it was, database, events and depth, but for the clock.
  pub run_in_transaction_fails :
      (s t : Engine) (e : String)
      → IsIdle s
      → body s ≡ (err e, t)
      → run_in_transaction callback s ≡ (err e, record s { now = t.now })
  run_in_transaction_fails s t e idle fails =
      let k : Keeps (enter (begin_transaction s)) t =
        subst (λ (r : Result String A × Engine). Keeps (enter (begin_transaction s)) r.1) fails
          (body-Keeps s idle) in
      root s idle ∙ rw fails (ap (λ (u : Engine). (err e, u)) (rolled_back s t idle k))

  -- A root call whose callback returns, with the ids that `persistEvents` gives.
  pub run_in_transaction_commits :
      (s t : Engine) (a : A)
      → IsIdle s
      → body s ≡ (ok a, t)
      → let events = with_ids (length t.db.events + 1) t.pending_events in
        run_in_transaction callback s ≡ (
          ok a,
          record t {
            db = record (t.db) { events = t.db.events ++ events };
            saved = none;
            transaction_depth = 0;
            pending_events = [];
            committed_events = s.committed_events ++ events;
            published = s.published ++ events;
          },
        )
  unfolding begin_transaction commit_transaction
  run_in_transaction_commits s t a idle returns =
      let k : Keeps (enter (begin_transaction s)) t =
        subst (λ (r : Result String A × Engine). Keeps (enter (begin_transaction s)) r.1) returns
          (body-Keeps s idle) in
      let d = idle.depth in
      let kd = k.depth in
      let kc = k.committed in let kp = k.published in root s idle ∙ rw returns (ground arith)

  -- What holds of the database, whatever events are stored, still holds after a root transaction,
  -- if it held before and a callback that returns keeps it.
  pub run_in_transaction-keeps :
      (P : Db → Type 0)
      → ((db : Db) (events : List Event) → P db → P (record db { events = events }))
      → (s : Engine) → IsIdle s
      → P s.db
      → ((a : A) (t : Engine) → body s ≡ (ok a, t) → P t.db)
      → P (run_in_transaction callback s).1.db
  run_in_transaction-keeps P any_events s idle before kept = elim (Result-cases (body s).0) [
    | inl (a, good) ↦
        let returns : body s ≡ (ok a, (body s).1) =
          ap (λ (r : Result String A). (r, (body s).1)) good in
        subst (λ (r : Result String A × Engine). P r.1.db)
          (sym (run_in_transaction_commits s (body s).1 a idle returns))
          (any_events (body s).1.db _ (kept a (body s).1 returns))
    | inr (e, bad) ↦
        let fails : body s ≡ (err e, (body s).1) =
          ap (λ (r : Result String A). (r, (body s).1)) bad in
        subst (λ (r : Result String A × Engine). P r.1.db)
          (sym (run_in_transaction_fails s (body s).1 e idle fails)) before
  ]
