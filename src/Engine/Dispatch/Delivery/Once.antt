-- ===== src/Engine/Dispatch/Delivery/Once.antt =====
-- Deliveries one after another, of which some throw and are made again.
use chimpbase.Prelude.{
  ℕ, ◌≡◌, refl, sym, subst, ap, ◌∙◌, inl, inr, String, true, some, List, [], ◌∷◌, In, All,
}
use chimpbase.Prelude.Result.{Result, ok, err}
use chimpbase.Engine.{Event, Engine, begin_transaction, enter, run_in_transaction}
use chimpbase.Engine.Transaction.{IsIdle, IsInner}
use chimpbase.Engine.Dispatch.{Subscription, deliver}
use chimpbase.Engine.Dispatch.Delivery.{
  IsDelivered, Delivery, skips, throws, delivers, deliver_again, deliver-IsDelivery,
}

-- An event for a subscription.
pub record Target : Type 0 where
  pub sub : Subscription
  pub event : Event
  pub id : ℕ

-- The subscription is idempotent, the event is stored, and the handler keeps the transaction and the
-- keys that are there.
pub record IsRegular (target : Target) : Type 0 where
  pub idempotent : target.sub.idempotent ≡ true
  pub stored : target.event.id ≡ some target.id
  pub inner : IsInner (target.sub.handler target.event)
  pub keys :
      (s : Engine) (key : ℕ × String)
      → In key s.db.seen
      → In key (target.sub.handler target.event s).1.db.seen

-- The key of the target is in the table.
abbrev pub HasKey : Target → Engine → Type 0
HasKey target s = IsDelivered target.sub target.event target.id s

abbrev pub deliver_to : Target → Engine → Result String Unit × Engine
deliver_to target = run_in_transaction (deliver target.sub target.event)

-- One delivery after another, whether they return or throw.
unfoldable pub deliver_all : List Target → Engine → Engine
deliver_all [] s = s
deliver_all (target ∷ targets) s = deliver_all targets (deliver_to target s).1

deliver_to-keeps :
    (target : Target) (s : Engine) (r : Result String Unit × Engine) (key : ℕ × String)
    → IsRegular target
    → IsIdle s
    → Delivery target.sub target.event target.id s r
    → In key s.db.seen
    → In key r.1.db.seen × IsIdle r.1
unfolding begin_transaction
deliver_to-keeps target s r key regular idle (skips there e) i = rw e (i, idle)
deliver_to-keeps target s r key regular idle (throws message t new ran e) i =
    rw e (i, record { depth = idle.depth; saved = idle.saved; pending = idle.pending })
deliver_to-keeps target s r key regular idle (delivers handled t new ran e keys rest idle') i =
    let kept = regular.keys (enter (begin_transaction s)) key i in
    let kept' = subst (λ (q : Result String Unit × Engine). In key q.1.db.seen) ran kept in
    rw e ((keys key).1 (inl kept'), idle')

deliver_all-keeps :
    (targets : List Target) (s : Engine) (key : ℕ × String)
    → All IsRegular targets
    → IsIdle s
    → In key s.db.seen
    → In key (deliver_all targets s).db.seen × IsIdle (deliver_all targets s)
unfolding deliver_all
deliver_all-keeps [] s key h idle i = (i, idle)
deliver_all-keeps (target ∷ targets) s key h idle i =
    let regular : IsRegular target = h.0 in
    let (there, idle') =
      deliver_to-keeps target s (deliver_to target s) key regular idle
        (deliver-IsDelivery target.sub target.event target.id regular.idempotent regular.stored
          regular.inner s idle)
        i in
    deliver_all-keeps targets (deliver_to target s).1 key h.1 idle' there

returned_key :
    (target : Target) (s t : Engine) (r : Result String Unit × Engine)
    → IsIdle s
    → Delivery target.sub target.event target.id s r
    → r ≡ (ok tt, t)
    → HasKey target t × IsIdle t
returned_key target s t r idle (skips there e) returns =
    let same : s ≡ t = ap (λ (q : Result String Unit × Engine). q.1) (sym e ∙ returns) in
    subst (λ u. HasKey target u × IsIdle u) same (there, idle)
returned_key target s t r idle (throws message u new ran e) returns =
    let apart : ◌≡◌ {A = Result String Unit × Engine} (err message, record s { now = u.now })
        (ok tt, t) =
      sym e ∙ returns in
    cc
returned_key target s t r idle (delivers handled u new ran e keys rest idle') returns =
    let same : u ≡ t = ap (λ (q : Result String Unit × Engine). q.1) (sym e ∙ returns) in
    subst (λ v. HasKey target v × IsIdle v) same
      ((keys (target.id, target.sub.name)).1 (inr refl), idle')

-- After the delivery of a stored event to an idempotent subscription has returned, on an idle
-- engine, and after any further deliveries of stored events to idempotent subscriptions, whether
-- they return or throw, delivering the event to the subscription again returns and changes
-- nothing, so its handler is not called again; all the handlers keep the transaction and the keys
-- that are there.
pub deliver_once :
    (target : Target) (targets : List Target) (s t : Engine)
    → IsRegular target
    → All IsRegular targets
    → IsIdle s
    → deliver_to target s ≡ (ok tt, t)
    → deliver_to target (deliver_all targets t) ≡ (ok tt, deliver_all targets t)
deliver_once target targets s t regular all idle returns =
    let (there, idle') =
      returned_key target s t (deliver_to target s) idle
        (deliver-IsDelivery target.sub target.event target.id regular.idempotent regular.stored
          regular.inner s idle)
        returns in
    let kept = deliver_all-keeps targets t (target.id, target.sub.name) all idle' there in
    deliver_again target.sub target.event target.id regular.idempotent regular.stored regular.inner
      (deliver_all targets t) kept.1 kept.0
