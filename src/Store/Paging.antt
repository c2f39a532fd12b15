-- ===== src/Store/Paging.antt =====
-- Reading an ordered table page by page, each page after the key of the last row of the one before.
use chimpbase.Prelude.{
  ℕ, zero, suc, ◌≤◌, ◌≡◌, refl, sym, ap, subst, ◌∙◌, ◌⊎◌, inl, inr, Bool, true, false, ◌&&◌, List,
  [], ◌∷◌, ◌++◌, length, All, Bool-cases, if◌then◌else◌, arith,
}

module _ {A : Type 0} where
  -- `WHERE`
  unfoldable pub where_passes : (A → Bool) → List A → List A
  where_passes p [] = []
  where_passes p (x ∷ xs) = let rest = where_passes p xs in if p x then x ∷ rest else rest

  -- `LIMIT`, or the start of a list.
  unfoldable pub take : ℕ → List A → List A
  take zero xs = []
  take (suc n) [] = []
  take (suc n) (x ∷ xs) = x ∷ take n xs

  unfoldable pub drop : ℕ → List A → List A
  drop zero xs = xs
  drop (suc n) [] = []
  drop (suc n) (x ∷ xs) = drop n xs

  pub take-drop : (n : ℕ) (xs : List A) → take n xs ++ drop n xs ≡ xs
  unfolding take drop
  take-drop zero xs = refl
  take-drop (suc n) [] = refl
  take-drop (suc n) (x ∷ xs) = ap (λ ys. x ∷ ys) (take-drop n xs)

  pub length-drop : (n : ℕ) (xs : List A) → length (drop n xs) ≤ length xs
  unfolding drop
  length-drop zero xs = omega arith
  length-drop (suc n) [] = omega arith
  length-drop (suc n) (x ∷ xs) = omega (arith, length-drop n xs)

  pub where_passes-append :
      (p : A → Bool) (xs ys : List A)
      → where_passes p (xs ++ ys) ≡ where_passes p xs ++ where_passes p ys
  unfolding where_passes
  where_passes-append p [] ys = refl
  where_passes-append p (x ∷ xs) ys = elim (Bool-cases (p x)) [
    | inl e ↦ rw (e, where_passes-append p xs ys) refl
    | inr e ↦ rw (e, where_passes-append p xs ys) refl
  ]

  pub length-where_passes : (p : A → Bool) (xs : List A) → length (where_passes p xs) ≤ length xs
  unfolding where_passes
  length-where_passes p [] = omega arith
  length-where_passes p (x ∷ xs) =
      let rest = length-where_passes p xs in
      elim (Bool-cases (p x)) [ inl e ↦ rw e (omega arith) | inr e ↦ rw e (omega arith) ]

  pub where_passes-All :
      (P : A → Type 0) (p : A → Bool) (xs : List A) → All P xs → All P (where_passes p xs)
  unfolding where_passes
  where_passes-All P p [] h = tt
  where_passes-All P p (x ∷ xs) h = elim (Bool-cases (p x)) [
    | inl e ↦ rw e (h.0, where_passes-All P p xs h.1)
    | inr e ↦ rw e (where_passes-All P p xs h.1)
  ]

  pub where_passes_and :
      (p q : A → Bool) (xs : List A)
      → where_passes (λ x. p x && q x) xs ≡ where_passes q (where_passes p xs)
  unfolding where_passes
  where_passes_and p q [] = refl
  where_passes_and p q (x ∷ xs) = elim (Bool-cases (p x)) [
    | inl e ↦ rw (e, where_passes_and p q xs) refl
    | inr e ↦ rw (e, where_passes_and p q xs) refl
  ]

  pub where_passes-passes : (p : A → Bool) (xs : List A) → All (λ x. p x ≡ true) (where_passes p xs)
  unfolding where_passes
  where_passes-passes p [] = tt
  where_passes-passes p (x ∷ xs) = elim (Bool-cases (p x)) [
    | inl e ↦ rw e (e, where_passes-passes p xs)
    | inr e ↦ rw e (where_passes-passes p xs)
  ]

  where_passes_every :
      (p : A → Bool) (xs : List A) → All (λ x. p x ≡ true) xs → where_passes p xs ≡ xs
  unfolding where_passes
  where_passes_every p [] h = refl
  where_passes_every p (x ∷ xs) h = rw (h.0, where_passes_every p xs h.1) refl

  -- A test that implies another.
  where_passes-where_passes :
      (p q : A → Bool) (xs : List A)
      → ((x : A) → q x ≡ true → p x ≡ true)
      → where_passes q (where_passes p xs) ≡ where_passes q xs
  unfolding where_passes
  where_passes-where_passes p q [] h = refl
  where_passes-where_passes p q (x ∷ xs) h = elim (Bool-cases (p x)) [
    | inl e ↦ rw (e, where_passes-where_passes p q xs h) refl
    | inr e ↦ elim (Bool-cases (q x)) [
      | inl f ↦ cc (e, h x f)
      | inr f ↦ rw (e, f, where_passes-where_passes p q xs h) refl
    ]
  ]

module _ {A K : Type 0} (key : A → K) where
  -- The key of the last row of a page that starts with `x`.
  abbrev pub last_key : A → List A → K
  last_key x [] = key x
  last_key x (y ∷ ys) = last_key y ys

module _ {A K : Type 0} (key : A → K) (before : K → K → Bool) where
  -- The keys are ascending.
  abbrev pub IsOrdered : List A → Type 0
  IsOrdered [] = Unit
  IsOrdered (x ∷ xs) = All (λ y. before (key x) (key y) ≡ true) xs × IsOrdered xs

  -- `ORDER BY ... LIMIT`, from a key on.
  abbrev pub page_after : K → ℕ → List A → List A
  page_after k limit rows = take limit (where_passes (λ y. before k (key y)) rows)

module _ {A K : Type 0} (key : A → K) (before : K → K → Bool)
    (irreflexive : (k : K) → before k k ≡ false)
    (transitive : (a b c : K) → before a b ≡ true → before b c ≡ true → before a c ≡ true) where
  pub where_passes-IsOrdered :
      (p : A → Bool) (xs : List A)
      → IsOrdered key before xs
      → IsOrdered key before (where_passes p xs)
  unfolding where_passes
  where_passes-IsOrdered p [] h = tt
  where_passes-IsOrdered p (x ∷ xs) h = elim (Bool-cases (p x)) [
    | inl e ↦ rw e (
      where_passes-All (λ y. before (key x) (key y) ≡ true) p xs h.0,
      where_passes-IsOrdered p xs h.1,
    )
    | inr e ↦ rw e (where_passes-IsOrdered p xs h.1)
  ]

  last_key-after :
      (x : A) (n : ℕ) (xs : List A)
      → IsOrdered key before (x ∷ xs)
      → (last_key key x (take n xs) ≡ key x) ⊎ (before (key x) (last_key key x (take n xs)) ≡ true)
  unfolding take
  last_key-after x zero xs h = inl refl
  last_key-after x (suc n) [] h = inl refl
  last_key-after x (suc n) (y ∷ xs) ((first, others), (more, rest)) =
      elim (last_key-after y n xs (more, rest)) [
        | inl e ↦ inr (rw e first)
        | inr after ↦ inr (transitive (key x) (key y) (last_key key y (take n xs)) first after)
      ]

  not_before : (a b : K) → (b ≡ a) ⊎ (before a b ≡ true) → before b a ≡ false
  not_before a b (inl e) = rw e (irreflexive a)
  not_before a b (inr e) = elim (Bool-cases (before b a)) [
    | inl f ↦ cc (irreflexive a, transitive a b a e f)
    | inr f ↦ f
  ]

  -- The rows after a page are the rest of the rows.
  after_page :
      (x : A) (n : ℕ) (xs : List A)
      → IsOrdered key before (x ∷ xs)
      → where_passes (λ y. before (last_key key x (take n xs)) (key y)) (x ∷ xs) ≡ drop n xs
  unfolding take drop where_passes
  after_page x zero xs h =
      rw (irreflexive (key x)) (where_passes_every (λ y. before (key x) (key y)) xs h.0)
  after_page x (suc n) [] h = rw (irreflexive (key x)) refl
  after_page x (suc n) (y ∷ xs) ((first, others), (more, rest)) =
      let last = last_key key y (take n xs) in
      rw
        (not_before (key x) last
          (last_key-after x (suc n) (y ∷ xs) ((first, others), (more, rest))))
        (after_page y n xs (more, rest))

  before_last :
      (k : K) (x : A) (n : ℕ) (xs : List A)
      → All (λ z. before k (key z) ≡ true) (x ∷ xs)
      → before k (last_key key x (take n xs)) ≡ true
  unfolding take
  before_last k x zero xs h = h.0
  before_last k x (suc n) [] h = h.0
  before_last k x (suc n) (y ∷ xs) h = before_last k y n xs h.1

  -- The rows that are left after a page that is not empty.
  pub rest_after_page :
      (k : K) (x : A) (n : ℕ) (xs rows : List A)
      → IsOrdered key before rows
      → where_passes (λ y. before k (key y)) rows ≡ x ∷ xs
      → where_passes (λ y. before (last_key key x (take n xs)) (key y)) rows ≡ drop n xs
  rest_after_page k x n xs rows o e =
      let last = last_key key x (take n xs) in
      let later =
        subst (IsOrdered key before) e (where_passes-IsOrdered (λ y. before k (key y)) rows o) in
      sym (
        where_passes-where_passes (λ y. before k (key y)) (λ y. before last (key y)) rows
          (λ y after.
            transitive k last (key y)
              (before_last k x n xs (
                subst (All (λ z. before k (key z) ≡ true)) e
                  (where_passes-passes (λ z. before k (key z)) rows)))
              after))
      ∙ (ap (where_passes (λ y. before last (key y))) e ∙ after_page x n xs later)
