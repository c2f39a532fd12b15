-- ===== src/Contracts/Steps/Prefix.antt =====
-- What the verdict on two lists of steps says of them.
use chimpbase.Prelude.{
  ℕ, suc, ◌≤◌, ◌≡◌, refl, sym, ap, subst, ◌∙◌, ◌⊎◌, inl, inr, String, Bool, true, false, ◌&&◌, ◌||◌,
  Option, none, some, List, [], ◌∷◌, ◌++◌, map, length, length-append, In, All, ◌==◌, ==_iff,
  str_eq, eq_iff, find, if◌then◌else◌, Bool-cases, Option-cases, arith,
}
use chimpbase.Prelude.Maps.{includes}
use chimpbase.Contracts.Steps.{
  Compatibility, identical, additive, requires_migration, breaking, StepKind, workflow_action,
  workflow_sleep, workflow_wait_for_signal, RegisteredStep, same_kind, same_text, same_step,
  step_ids, keeps_steps, starts_with, rest_of, is_some_left, match_ids, verdict_of,
  compare_workflow_steps,
}

-- The ids stand among the others in their order.
abbrev pub IsWithin : List String → List String → Type 0
IsWithin [] ys = Unit
IsWithin (x ∷ xs) [] = ⊥
IsWithin (x ∷ xs) (y ∷ ys) = ((x ≡ y) × IsWithin xs ys) ⊎ IsWithin (x ∷ xs) ys

same_kind_lem : (a b : StepKind) → same_kind a b ≡ true → a ≡ b
same_kind_lem workflow_action workflow_action e = refl
same_kind_lem workflow_action workflow_sleep e = cc
same_kind_lem workflow_action workflow_wait_for_signal e = cc
same_kind_lem workflow_sleep workflow_action e = cc
same_kind_lem workflow_sleep workflow_sleep e = refl
same_kind_lem workflow_sleep workflow_wait_for_signal e = cc
same_kind_lem workflow_wait_for_signal workflow_action e = cc
same_kind_lem workflow_wait_for_signal workflow_sleep e = cc
same_kind_lem workflow_wait_for_signal workflow_wait_for_signal e = refl

same_text_lem : (a b : Option String) → same_text a b ≡ true → a ≡ b
same_text_lem none none e = refl
same_text_lem none (some b) e = cc
same_text_lem (some a) none e = cc
same_text_lem (some a) (some b) e = ap some ((eq_iff a b).0 e)

and_left : (a b : Bool) → (a && b) ≡ true → a ≡ true
and_left true b e = refl
and_left false b e = e

and_right : (a b : Bool) → (a && b) ≡ true → b ≡ true
and_right true b e = e
and_right false b e = cc

same_step_lem : (a b : RegisteredStep) → str_eq a.id b.id ≡ true → same_step a b ≡ true → a ≡ b
same_step_lem a b same_id same =
    let texts =
      and_right (same_kind a.kind b.kind)
        (same_text a.action b.action && same_text a.signal b.signal) same in
    let kind = same_kind_lem a.kind b.kind (
      and_left (same_kind a.kind b.kind)
        (same_text a.action b.action && same_text a.signal b.signal) same) in
    let action =
      same_text_lem a.action b.action
        (and_left (same_text a.action b.action) (same_text a.signal b.signal) texts) in
    let signal =
      same_text_lem a.signal b.signal
        (and_right (same_text a.action b.action) (same_text a.signal b.signal) texts) in
    let id = (eq_iff a.id b.id).0 same_id in
    λ i. record { action = action i; id = id i; kind = kind i; signal = signal i }

find-In :
    {A : Type 0} (p : A → Bool) (xs : List A) (x : A) → find p xs ≡ some x → In x xs × (p x ≡ true)
find-In p [] x e = cc
find-In p (y ∷ xs) x e = elim (Bool-cases (p y)) [
  | inl passes ↦
      let same : y ≡ x = ground (arith, e, passes) in (inl (sym same), ap p (sym same) ∙ passes)
  | inr fails ↦
      let (there, passes) = find-In p xs x (ground (arith, e, fails)) in (inr there, passes)
]

keeps_steps-All :
    (previous next : List RegisteredStep)
    → keeps_steps previous next ≡ true
    → All (λ step. In step next) previous
unfolding keeps_steps
keeps_steps-All [] next e = tt
keeps_steps-All (step ∷ previous) next e =
    elim (Option-cases (find (λ candidate. str_eq candidate.id step.id) next)) [
      | inl nothing ↦ cc (subst kept nothing e)
      | inr (other, found) ↦
          let both = subst kept found e in
          let (there, same_id) =
            find-In (λ candidate. str_eq candidate.id step.id) next other found in
          let same =
            same_step_lem other step same_id
              (and_left (same_step other step) (keeps_steps previous next) both) in
          (
            subst (λ x. In x next) same there,
            keeps_steps-All previous next
                (and_right (same_step other step) (keeps_steps previous next) both),
          )
    ]
  where
    kept : Option RegisteredStep → Type 0
    kept o =
        (elim o [ none ↦ false | some other ↦ same_step other step && keeps_steps previous next ])
        ≡ true

abbrev Outcome : Type 0
Outcome = Option (Bool × List String)

flag_of : Outcome → Bool
flag_of none = true
flag_of (some (inserted, left)) = inserted

left_of : Outcome → List String
left_of none = []
left_of (some (inserted, left)) = left

or_false : (a b : Bool) → (a || b) ≡ false → (a ≡ false) × (b ≡ false)
or_false true b e = cc
or_false false b e = (refl, e)

rest_taken :
    (here known : Bool) (rest : Outcome) (r : Bool × List String)
    → (if here then rest else if known then none else rest) ≡ some r
    → rest ≡ some r
rest_taken true known rest r e = e
rest_taken false true rest r e = cc
rest_taken false false rest r e = e

-- A round that does not break off hands on the outcome of the rest.
next_round :
    (all_ids expected : List String) (inserted here : Bool) (n : String) (ns : List String)
    (r : Bool × List String)
    → starts_with n expected ≡ here
    → match_ids all_ids expected inserted (n ∷ ns) ≡ some r
    → match_ids all_ids
        (if here then rest_of expected else expected)
        (if here then inserted else inserted || is_some_left expected)
        ns
      ≡ some r
unfolding match_ids
next_round all_ids expected inserted here n ns r same e =
    subst
      (λ (h : Bool).
        match_ids all_ids (if h then rest_of expected else expected)
          (if h then inserted else inserted || is_some_left expected) ns
        ≡ some r)
      same
      (rest_taken (starts_with n expected) (includes n all_ids)
        (match_ids all_ids (if starts_with n expected then rest_of expected else expected)
          (if starts_with n expected then inserted else inserted || is_some_left expected) ns)
        r e)

-- A prefix, if nothing is inserted before a step that is left.
match_ids_prefix :
    (all_ids expected : List String) (inserted : Bool) (next : List String)
    → match_ids all_ids expected inserted next ≡ some (false, [])
    → (inserted ≡ false) × ((extra : List String) × (next ≡ expected ++ extra))
unfolding match_ids flag_of left_of
match_ids_prefix all_ids [] inserted [] e = (ap flag_of e, ([], refl))
match_ids_prefix all_ids (x ∷ xs) inserted [] e = cc (ap left_of e)
match_ids_prefix all_ids [] inserted (n ∷ ns) e =
    let (clean, (extra, same)) =
      match_ids_prefix all_ids [] (inserted || false) ns
        (next_round all_ids [] inserted false n ns (false, []) refl e) in
    ((or_false inserted false clean).0, (n ∷ ns, refl))
match_ids_prefix all_ids (x ∷ xs) inserted (n ∷ ns) e = elim (Bool-cases (str_eq x n)) [
  | inl here ↦
      let (clean, (extra, same)) =
        match_ids_prefix all_ids xs inserted ns
          (next_round all_ids (x ∷ xs) inserted true n ns (false, []) here e) in
      let first = (eq_iff x n).0 here in
      (clean, (extra, subst (λ y. n ∷ ns ≡ y ∷ (xs ++ extra)) (sym first) (ap (λ ys. n ∷ ys) same)))
  | inr off ↦
      let (clean, rest) =
        match_ids_prefix all_ids (x ∷ xs) (inserted || true) ns
          (next_round all_ids (x ∷ xs) inserted false n ns (false, []) off e) in
      cc ((or_false inserted true clean).1)
]

-- In any case, what was matched stands in `next` in its order.
match_ids-IsWithin :
    (all_ids expected : List String) (inserted b : Bool) (next : List String)
    → match_ids all_ids expected inserted next ≡ some (b, [])
    → IsWithin expected next
unfolding match_ids left_of
match_ids-IsWithin all_ids [] inserted b next e = tt
match_ids-IsWithin all_ids (x ∷ xs) inserted b [] e = cc (ap left_of e)
match_ids-IsWithin all_ids (x ∷ xs) inserted b (n ∷ ns) e = elim (Bool-cases (str_eq x n)) [
  | inl here ↦ inl (
    (eq_iff x n).0 here,
    match_ids-IsWithin all_ids xs inserted b ns
        (next_round all_ids (x ∷ xs) inserted true n ns (b, []) here e),
  )
  | inr off ↦ inr (
      match_ids-IsWithin all_ids (x ∷ xs) (inserted || true) b ns
        (next_round all_ids (x ∷ xs) inserted false n ns (b, []) off e))
]

length-map : {A B : Type 0} (f : A → B) (xs : List A) → length (map f xs) ≡ length xs
length-map f [] = refl
length-map f (x ∷ xs) = ap suc (length-map f xs)

not_equal : (a b : ℕ) → suc b ≤ a → (a == b) ≡ false
not_equal a b h = ground (arith, h)

append_empty : {A : Type 0} (xs : List A) → xs ++ [] ≡ xs
append_empty [] = refl
append_empty (x ∷ xs) = ap (λ ys. x ∷ ys) (append_empty xs)

-- What each verdict but `breaking` says: the steps of `previous` stand in `next` as they were, and their
-- ids in the same order, as all of the ids, as the first of them, or among them.
abbrev pub IsKept : Compatibility → List RegisteredStep → List RegisteredStep → Type 0
IsKept breaking previous next = Unit
IsKept requires_migration previous next =
    All (λ step. In step next) previous × IsWithin (step_ids previous) (step_ids next)
IsKept additive previous next =
    All (λ step. In step next) previous
    × ((id : String) × (ids : List String) × (step_ids next ≡ step_ids previous ++ id ∷ ids))
IsKept identical previous next =
    All (λ step. In step next) previous × (step_ids next ≡ step_ids previous)

module _ (previous next : List RegisteredStep) where
  prefix-IsKept :
      (extra : List String)
      → All (λ step. In step next) previous
      → step_ids next ≡ step_ids previous ++ extra
      → IsKept (if length next == length previous then identical else additive) previous next
  prefix-IsKept [] all e =
      let total = ap length (e ∙ append_empty (step_ids previous)) in
      let after = length-map (λ (step : RegisteredStep). step.id) next in
      let before = length-map (λ (step : RegisteredStep). step.id) previous in
      let same : length next ≡ length previous = sym after ∙ (total ∙ before) in
      rw ((==_iff (length next) (length previous)).1 same)
        (all, e ∙ append_empty (step_ids previous))
  prefix-IsKept (id ∷ ids) all e =
      let total = ap length e ∙ length-append (step_ids previous) (id ∷ ids) in
      let after = length-map (λ (step : RegisteredStep). step.id) next in
      let before = length-map (λ (step : RegisteredStep). step.id) previous in
      let longer : (length next == length previous) ≡ false =
        not_equal (length next) (length previous) (omega (arith, sym after ∙ total, before)) in
      rw longer (all, (id, ids, e))

  verdict-IsKept :
      (o : Option (Bool × List String))
      → match_ids (step_ids previous) (step_ids previous) false (step_ids next) ≡ o
      → All (λ step. In step next) previous
      → IsKept (verdict_of (length previous) (length next) o) previous next
  verdict-IsKept none e all = tt
  verdict-IsKept (some (inserted, id ∷ left)) e all = tt
  verdict-IsKept (some (true, [])) e all =
      (all, match_ids-IsWithin (step_ids previous) (step_ids previous) false true (step_ids next) e)
  verdict-IsKept (some (false, [])) e all =
      let (clean, (extra, same)) =
        match_ids_prefix (step_ids previous) (step_ids previous) false (step_ids next) e in
      prefix-IsKept extra all same

  -- `compareWorkflowSteps` says of two lists of steps what holds of them.
  pub compare-IsKept : IsKept (compare_workflow_steps previous next) previous next
  unfolding compare_workflow_steps
  compare-IsKept = elim (Bool-cases (keeps_steps previous next)) [
    | inl kept ↦
        rw (kept, compare_workflow_steps)
          (verdict-IsKept (match_ids (step_ids previous) (step_ids previous) false (step_ids next))
            refl (keeps_steps-All previous next kept))
    | inr lost ↦ rw (lost, compare_workflow_steps) tt
  ]
