-- ===== src/Engine/Dispatch/Delivery.antt =====
-- The delivery of an event to an idempotent subscription, in a transaction of its own.
pub mod Once
use chimpbase.Prelude.{
  ℕ, ◌≡◌, refl, sym, ap, subst, ◌∙◌, ◌⊎◌, ◌↔◌, inl, inr, String, true, some, List, [], ◌∷◌, ◌++◌,
  arith, eq_iff, ◌==◌, str_eq, false, In, Bool-cases,
}
use chimpbase.Prelude.Result.{Result, ok, err, Result-cases}
use chimpbase.Engine.{
  Event, Db, Engine, Run, ◌>>◌, on_db, with_ids, begin_transaction, enter, run_in_transaction,
}
use chimpbase.Engine.Transaction.{
  IsIdle, IsInner, on_db-IsInner, >>=-IsInner, run_in_transaction_fails, run_in_transaction_commits,
}
use chimpbase.Engine.Dispatch.{Subscription, is_seen, mark_seen, deliver_with, deliver}

append-nil : {A : Type 0} (xs : List A) → xs ++ [] ≡ xs
append-nil [] = refl
append-nil (x ∷ xs) = ap (λ t. x ∷ t) (append-nil xs)

is_seen-In :
    (id : ℕ) (name : String) (seen : List (ℕ × String))
    → is_seen id name seen ≡ true
    → In (id, name) seen
unfolding is_seen
is_seen-In id name [] e = cc
is_seen-In id name ((i, n) ∷ seen) e = elim (Bool-cases (i == id)) [
  | inr other ↦ inr (is_seen-In id name seen (ground (arith, e, other)))
  | inl same_id ↦ elim (Bool-cases (str_eq n name)) [
    | inr other ↦ inr (is_seen-In id name seen (ground (arith, e, same_id, other)))
    | inl same_name ↦
        let first : id ≡ i = ground (arith, same_id) in
        let second = sym ((eq_iff n name).0 same_name) in inl (λ k. (first k, second k))
  ]
]

In-is_seen :
    (id : ℕ) (name : String) (seen : List (ℕ × String))
    → In (id, name) seen
    → is_seen id name seen ≡ true
unfolding is_seen
In-is_seen id name [] i = absurd i
In-is_seen id name ((j, n) ∷ seen) (inl e) =
    let first = ap (λ (k : ℕ × String). k.0) e in
    let second = (eq_iff n name).1 (sym (ap (λ (k : ℕ × String). k.1) e)) in
    ground (arith, first, second)
In-is_seen id name ((j, n) ∷ seen) (inr i) =
    let later = In-is_seen id name seen i in ground (arith, later)

mark_seen-keys :
    (id : ℕ) (name : String) (db : Db) (key : ℕ × String)
    → In key (mark_seen id name db).seen ↔ (In key db.seen ⊎ (key ≡ (id, name)))
unfolding mark_seen
mark_seen-keys id name db key = elim (Bool-cases (is_seen id name db.seen)) [
  | inl e ↦
      rw (e, mark_seen)
        (
          λ i. inl i,
          λ i. elim i [
            | inl old ↦ old
            | inr new ↦ subst (λ k. In k db.seen) (sym new) (is_seen-In id name db.seen e)
          ],
        )
  | inr e ↦
      rw (e, mark_seen)
        (
          λ i. elim i [ inl new ↦ inr new | inr old ↦ inl old ],
          λ i. elim i [ inl old ↦ inr old | inr new ↦ inl new ],
        )
]

-- A mark changes the keys only.
mark_seen_events :
    (id : ℕ) (name : String) (db : Db)
    → record (mark_seen id name db) { seen = db.seen; events = db.events } ≡ db
unfolding mark_seen
mark_seen_events id name db = elim (Bool-cases (is_seen id name db.seen)) [
  | inl e ↦ rw (e, mark_seen) refl
  | inr e ↦ rw (e, mark_seen) refl
]

true_ne_false : true ≡ false → ⊥
true_ne_false e = cc

module _ (sub : Subscription) (event : Event) (id : ℕ) where
  -- The table of keys says that the subscription has had the event.
  abbrev pub IsDelivered : Engine → Type 0
  IsDelivered s = In (id, sub.name) s.db.seen

  -- How a delivery in a transaction can go, from what the handler does there.
  pub data Delivery (s : Engine) (result : Result String Unit × Engine) : Type 0 where
    skips : IsDelivered s → result ≡ (ok tt, s) → Delivery s result
    throws :
        (message : String) (t : Engine)
        → ¬ IsDelivered (enter (begin_transaction s))
        → sub.handler event (enter (begin_transaction s)) ≡ (err message, t)
        → result ≡ (err message, record s { now = t.now })
        → Delivery s result
    delivers :
        (handled t : Engine)
        → ¬ IsDelivered (enter (begin_transaction s))
        → sub.handler event (enter (begin_transaction s)) ≡ (ok tt, handled)
        → result ≡ (ok tt, t)
        → ((key : ℕ × String)
            → In key t.db.seen ↔ (In key handled.db.seen ⊎ (key ≡ (id, sub.name))))
        → record (t.db) { seen = handled.db.seen; events = handled.db.events } ≡ handled.db
        → IsIdle t
        → Delivery s result

module _ (sub : Subscription) (event : Event) (id : ℕ) (idempotent : sub.idempotent ≡ true)
    (stored : event.id ≡ some id) where
  deliver-eq-deliver_with : deliver sub event ≡ deliver_with (some id) sub event
  unfolding deliver
  deliver-eq-deliver_with = rw (idempotent, stored) refl

  abbrev handled : Run Unit
  handled = sub.handler event >> on_db (mark_seen id sub.name)

  deliver-cases :
      (s : Engine)
      → (IsDelivered sub event id s × (deliver sub event s ≡ (ok tt, s)))
        ⊎ (¬ IsDelivered sub event id s × (deliver sub event s ≡ handled s))
  deliver-cases s = elim (Bool-cases (is_seen id sub.name s.db.seen)) [
    | inl e ↦ inl (is_seen-In id sub.name s.db.seen e, rw (deliver-eq-deliver_with, e) refl)
    | inr e ↦ inr (
      λ there. true_ne_false (sym (In-is_seen id sub.name s.db.seen there) ∙ e),
      rw (deliver-eq-deliver_with, e) refl,
    )
  ]

  module _ (inner : IsInner (sub.handler event)) where
    pub deliver-IsInner : IsInner (deliver sub event)
    deliver-IsInner s open_ = elim (deliver-cases s) [
      | inl (_, stays) ↦
          rw stays (record { depth = refl; saved = refl; committed = refl; published = refl })
      | inr (_, runs) ↦ rw runs (
          >>=-IsInner (sub.handler event) (λ u. on_db (mark_seen id sub.name)) inner
            (λ u. on_db-IsInner (mark_seen id sub.name)) s open_)
    ]

    -- A key that is there when the delivery begins ends it at once.
    pub deliver_again :
        (s : Engine)
        → IsIdle s
        → IsDelivered sub event id s
        → run_in_transaction (deliver sub event) s ≡ (ok tt, s)
    unfolding begin_transaction with_ids
    deliver_again s idle there =
        let t = enter (begin_transaction s) in
        let seen = In-is_seen id sub.name s.db.seen there in
        let stays : deliver sub event t ≡ (ok tt, t) = rw (deliver-eq-deliver_with, seen) refl in
        let p = idle.pending in
        let d = idle.depth in
        let v = idle.saved in
        let nil = append-nil s.db.events in
        let nil' = append-nil s.committed_events in
        let nil'' = append-nil s.published in
        run_in_transaction_commits (deliver sub event) deliver-IsInner s t tt idle stays
        ∙ ground arith

    -- A delivery of a stored event to an idempotent subscription whose handler keeps the
    -- transaction, on an idle engine, goes one of three ways: the key of the event and the
    -- subscription is in the table, and nothing changes; or it is not, the handler threw in the
    -- transaction, and nothing but the clock changes; or it is not, the handler returned in the
    -- transaction, and then the keys are those that the handler left and this one, the rest of the
    -- database but the events is as the handler left it, and the engine is idle.
    pub deliver-IsDelivery :
        (s : Engine) → IsIdle s → Delivery sub event id s (run_in_transaction (deliver sub event) s)
    unfolding begin_transaction
    deliver-IsDelivery s idle =
        let m = deliver sub event in
        let start = enter (begin_transaction s) in
        elim (deliver-cases start) [
          | inl (there, _) ↦ skips there (deliver_again s idle there)
          | inr (new, runs) ↦ elim (Result-cases (sub.handler event start).0) [
            | inl (tt, good) ↦
                let u = (sub.handler event start).1 in
                let ran : sub.handler event start ≡ (ok tt, u) =
                  ap (λ (q : Result String Unit). (q, u)) good in
                let returns : m start ≡ (ok tt, record u { db = mark_seen id sub.name u.db }) =
                  runs ∙ rw ran refl in
                delivers u _ new ran
                  (run_in_transaction_commits m deliver-IsInner s _ tt idle returns)
                  (mark_seen-keys id sub.name u.db) (mark_seen_events id sub.name u.db)
                  (record { depth = refl; saved = refl; pending = refl })
            | inr (message, bad) ↦
                let u = (sub.handler event start).1 in
                let ran : sub.handler event start ≡ (err message, u) =
                  ap (λ (q : Result String Unit). (q, u)) bad in
                let fails : m start ≡ (err message, u) = runs ∙ rw ran refl in
                throws message u new ran
                  (run_in_transaction_fails m deliver-IsInner s u message idle fails)
          ]
        ]
