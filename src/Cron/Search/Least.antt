-- ===== src/Cron/Search/Least.antt =====
-- A loop over ascending values that returns at its first hit returns the least of all hits.
use chimpbase.Prelude.{
  ℕ, zero, suc, ◌+◌, ◌-◌, ◌≤◌, ◌<◌, ◌≡◌, refl, ◌⊎◌, inl, inr, Option, none, some, List, [], ◌∷◌, In,
  All, All-In, arith, subst, sym,
}
use chimpbase.Cron.Search.{first_some, count_up, range}

-- `o` is the least number that satisfies `Q`, or `Q` has none.
abbrev pub Least : (ℕ → Type 0) → Option ℕ → Type 0
Least Q none = (t : ℕ) → Q t → ⊥
Least Q (some r) = Q r × ((t : ℕ) → Q t → r ≤ t)

pub Least-iff :
    (P Q : ℕ → Type 0) (o : Option ℕ)
    → ((t : ℕ) → P t → Q t)
    → ((t : ℕ) → Q t → P t)
    → Least P o
    → Least Q o
Least-iff P Q none f g h = λ t q. h t (g t q)
Least-iff P Q (some r) f g h = (f r h.0, λ t q. h.1 t (g t q))

abbrev pub IsAscending : List ℕ → Type 0
IsAscending [] = Unit
IsAscending (x ∷ xs) = All (λ y. x < y) xs × IsAscending xs

-- Hits of an earlier value come before those of a later one.
module _ (f : ℕ → Option ℕ) (Q : ℕ → ℕ → Type 0)
    (ordered : (x x' t t' : ℕ) → x < x' → Q x t → Q x' t' → t ≤ t') where
  abbrev Hit : List ℕ → ℕ → Type 0
  Hit xs t = (x : ℕ) × In x xs × Q x t

  from_tail : (x : ℕ) (xs : List ℕ) (t : ℕ) → Hit xs t → Hit (x ∷ xs) t
  from_tail x xs t (y, i, q) = (y, inr i, q)

  to_tail : (x : ℕ) (xs : List ℕ) → ((t : ℕ) → Q x t → ⊥) → (t : ℕ) → Hit (x ∷ xs) t → Hit xs t
  to_tail x xs no_hit t (y, inl e, q) = absurd (no_hit t (subst (λ z. Q z t) e q))
  to_tail x xs no_hit t (y, inr i, q) = (y, i, q)

  head_least :
      (x : ℕ) (xs : List ℕ) (r : ℕ)
      → Q x r
      → ((t : ℕ) → Q x t → r ≤ t)
      → All (λ y. x < y) xs
      → (t : ℕ) → Hit (x ∷ xs) t
      → r ≤ t
  head_least x xs r q low later t (y, inl e, q') = low t (subst (λ z. Q z t) e q')
  head_least x xs r q low later t (y, inr i, q') =
      ordered x y r t (All-In (λ y. x < y) xs later y i) q q'

  first_some-step :
      (x : ℕ) (xs : List ℕ) (o : Option ℕ)
      → Least (Q x) o
      → All (λ y. x < y) xs
      → Least (Hit xs) (first_some f xs)
      → f x ≡ o
      → Least (Hit (x ∷ xs)) (first_some f (x ∷ xs))
  unfolding first_some
  first_some-step x xs none here later ih e =
      rw (e, first_some)
        (Least-iff (Hit xs) (Hit (x ∷ xs)) (first_some f xs) (from_tail x xs) (to_tail x xs here)
          ih)
  first_some-step x xs (some r) here later ih e =
      rw (e, first_some) ((x, inl refl, here.0), head_least x xs r here.0 here.1 later)

  pub first_some-Least :
      (xs : List ℕ)
      → IsAscending xs
      → ((x : ℕ) → In x xs → Least (Q x) (f x))
      → Least (Hit xs) (first_some f xs)
  unfolding first_some
  first_some-Least [] up h = λ t (x, i, q). i
  first_some-Least (x ∷ xs) up h =
      first_some-step x xs (f x) (h x (inl refl)) up.0
        (first_some-Least xs up.1 (λ y i. h y (inr i))) refl

count_up-In-low : (n a x : ℕ) → In x (count_up n a) → (a ≤ x) × (x < a + n)
unfolding count_up
count_up-In-low zero a x i = absurd i
count_up-In-low (suc n) a x (inl e) = omega arith
count_up-In-low (suc n) a x (inr i) = omega (arith, count_up-In-low n (a + 1) x i)

In-count_up : (n a x : ℕ) → a ≤ x → x < a + n → In x (count_up n a)
unfolding count_up
In-count_up zero a x h k = absurd (omega arith)
In-count_up (suc n) a x h k = elim (compare_cases a x h) [
  | inl e ↦ inl (sym e)
  | inr lt ↦ inr (In-count_up n (a + 1) x (omega arith) (omega arith))
]
  where
    compare_cases : (a x : ℕ) → a ≤ x → (a ≡ x) ⊎ (a < x)
    compare_cases a x h = grind arith

count_up-IsAscending : (n a : ℕ) → IsAscending (count_up n a)
unfolding count_up
count_up-IsAscending zero a = tt
count_up-IsAscending (suc n) a = (above n (a + 1) (omega arith), count_up-IsAscending n (a + 1))
  where
    above : (n b : ℕ) → a < b → All (λ y. a < y) (count_up n b)
    above zero b h = tt
    above (suc n) b h = (h, above n (b + 1) (omega arith))

pub range-In : (first last x : ℕ) → In x (range first last) → (first ≤ x) × (x ≤ last)
unfolding range
range-In first last x i = omega (arith, count_up-In-low (last + 1 - first) first x i)

pub In-range : (first last x : ℕ) → first ≤ x → x ≤ last → In x (range first last)
unfolding range
In-range first last x h k = In-count_up (last + 1 - first) first x h (omega arith)

pub range-IsAscending : (first last : ℕ) → IsAscending (range first last)
unfolding range
range-IsAscending first last = count_up-IsAscending (last + 1 - first) first
