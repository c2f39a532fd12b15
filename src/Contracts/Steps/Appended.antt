-- ===== src/Contracts/Steps/Appended.antt =====
-- Steps that are kept, with others behind them.
use chimpbase.Prelude.{
  ◌≡◌, refl, ap, subst, inl, inr, String, true, false, Option, none, some, List, [], ◌∷◌, ◌++◌,
  length, In, All, All-of_In, ◌==◌, str_eq, eq_refl, find, if◌then◌else◌,
}
use chimpbase.Prelude.Maps.{includes}
use chimpbase.Contracts.Steps.{
  identical, additive, StepKind, workflow_action, workflow_sleep, workflow_wait_for_signal,
  RegisteredStep, same_kind, same_text, step_ids, keeps_steps, match_ids, compare_workflow_steps,
}

abbrev pub IsDistinct : List String → Type 0
IsDistinct [] = Unit
IsDistinct (x ∷ xs) = All (λ y. str_eq x y ≡ false) xs × IsDistinct xs

differs :
    (id : String) (step : RegisteredStep) (steps : List RegisteredStep)
    → All (λ y. str_eq id y ≡ false) (step_ids steps)
    → In step steps
    → str_eq id step.id ≡ false
differs id step [] h i = absurd i
differs id step (s ∷ steps) h (inl e) = rw e h.0
differs id step (s ∷ steps) h (inr i) = differs id step steps h.1 i

find-there :
    (step : RegisteredStep) (steps : List RegisteredStep)
    → IsDistinct (step_ids steps)
    → In step steps
    → find (λ candidate. str_eq candidate.id step.id) steps ≡ some step
find-there step [] d i = absurd i
find-there step (s ∷ steps) d (inl e) = rw (e, eq_refl s.id) refl
find-there step (s ∷ steps) d (inr i) =
    rw (differs s.id step steps d.0 i) (find-there step steps d.1 i)

same_kind_refl : (k : StepKind) → same_kind k k ≡ true
same_kind_refl workflow_action = refl
same_kind_refl workflow_sleep = refl
same_kind_refl workflow_wait_for_signal = refl

same_text_refl : (o : Option String) → same_text o o ≡ true
same_text_refl none = refl
same_text_refl (some t) = eq_refl t

keeps_steps-true :
    (previous next : List RegisteredStep)
    → IsDistinct (step_ids next)
    → All (λ step. In step next) previous
    → keeps_steps previous next ≡ true
unfolding keeps_steps
keeps_steps-true [] next d h = refl
keeps_steps-true (step ∷ previous) next d h =
    rw
      (
        find-there step next d h.0,
        keeps_steps,
        same_kind_refl step.kind,
        same_text_refl step.action,
        same_text_refl step.signal,
      )
      (keeps_steps-true previous next d h.1)

In-left : {A : Type 0} (x : A) (xs ys : List A) → In x xs → In x (xs ++ ys)
In-left x [] ys i = absurd i
In-left x (y ∷ xs) ys (inl e) = inl e
In-left x (y ∷ xs) ys (inr i) = inr (In-left x xs ys i)

All-right : {A : Type 0} (P : A → Type 0) (xs ys : List A) → All P (xs ++ ys) → All P ys
All-right P [] ys h = h
All-right P (x ∷ xs) ys h = All-right P xs ys h.1

-- What stands behind distinct ids is not among them.
new_ids : (xs ys : List String) → IsDistinct (xs ++ ys) → All (λ y. includes y xs ≡ false) ys
unfolding includes
new_ids [] ys d = All-of_In (λ y. false ≡ false) ys (λ y i. refl)
new_ids (x ∷ xs) ys d =
    All-both ys (All-right (λ y. str_eq x y ≡ false) xs ys d.0) (new_ids xs ys d.1)
  where
    All-both :
        (zs : List String)
        → All (λ y. str_eq x y ≡ false) zs
        → All (λ y. includes y xs ≡ false) zs
        → All (λ y. includes y (x ∷ xs) ≡ false) zs
    All-both [] a b = tt
    All-both (z ∷ zs) a b = (rw a.0 b.0, All-both zs a.1 b.1)

match_new :
    (all_ids ys : List String)
    → All (λ y. includes y all_ids ≡ false) ys
    → match_ids all_ids [] false ys ≡ some (false, [])
unfolding match_ids
match_new all_ids [] h = refl
match_new all_ids (y ∷ ys) h = rw h.0 (match_new all_ids ys h.1)

match_appended :
    (all_ids xs ys : List String)
    → All (λ y. includes y all_ids ≡ false) ys
    → match_ids all_ids xs false (xs ++ ys) ≡ some (false, [])
unfolding match_ids
match_appended all_ids [] ys h = match_new all_ids ys h
match_appended all_ids (x ∷ xs) ys h = rw (eq_refl x) (match_appended all_ids xs ys h)

step_ids-append : (xs ys : List RegisteredStep) → step_ids (xs ++ ys) ≡ step_ids xs ++ step_ids ys
step_ids-append [] ys = refl
step_ids-append (x ∷ xs) ys = ap (λ ids. x.id ∷ ids) (step_ids-append xs ys)

-- If the ids are distinct, compareWorkflowSteps calls steps that are followed by others identical
-- if none was added, and additive otherwise.
pub compare_appended :
    (previous extra : List RegisteredStep)
    → IsDistinct (step_ids (previous ++ extra))
    → compare_workflow_steps previous (previous ++ extra)
      ≡ (if length (previous ++ extra) == length previous then identical else additive)
unfolding compare_workflow_steps
compare_appended previous extra d =
    let ids = step_ids-append previous extra in
    let kept = keeps_steps-true previous (previous ++ extra) d (
      All-of_In (λ step. In step (previous ++ extra)) previous
        (λ step i. In-left step previous extra i)) in
    let matched =
      match_appended (step_ids previous) (step_ids previous) (step_ids extra)
        (new_ids (step_ids previous) (step_ids extra) (subst IsDistinct ids d)) in
    rw (kept, compare_workflow_steps, ids, matched) refl
