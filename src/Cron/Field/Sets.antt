-- ===== src/Cron/Field/Sets.antt =====
-- The set of a field: no value twice, and sorted into a strictly ascending list of the same values.
use chimpbase.Prelude.{
  ℕ, suc, ◌+◌, ◌-◌, ◌≤◌, ◌<◌, ◌≡◌, ◌↔◌, refl, sym, subst, ◌⊎◌, inl, inr, List, [], ◌∷◌, ◌++◌, In,
  All, All-In, All-of_In, arith, leb, length, Bool-cases,
}
use chimpbase.Cron.Search.{has}
use chimpbase.Cron.Search.Least.{IsAscending}
use chimpbase.Cron.Search.Spec.{has→In, In→has}
use chimpbase.Cron.Field.{set_add, insert_sorted, sort_numbers}

abbrev pub IsDistinct : List ℕ → Type 0
IsDistinct [] = Unit
IsDistinct (x ∷ xs) = ¬ In x xs × IsDistinct xs

In-append : (v : ℕ) (xs ys : List ℕ) → In v (xs ++ ys) → In v xs ⊎ In v ys
In-append v [] ys i = inr i
In-append v (x ∷ xs) ys (inl e) = inl (inl e)
In-append v (x ∷ xs) ys (inr i) = elim (In-append v xs ys i) [ inl j ↦ inl (inr j) | inr j ↦ inr j ]

In-append_left : (v : ℕ) (xs ys : List ℕ) → In v xs → In v (xs ++ ys)
In-append_left v [] ys i = absurd i
In-append_left v (x ∷ xs) ys (inl e) = inl e
In-append_left v (x ∷ xs) ys (inr i) = inr (In-append_left v xs ys i)

In-append_right : (v : ℕ) (xs ys : List ℕ) → In v ys → In v (xs ++ ys)
In-append_right v [] ys i = i
In-append_right v (x ∷ xs) ys i = inr (In-append_right v xs ys i)

-- Adding a value adds that value and no other.
pub set_add-In : (set : List ℕ) (x v : ℕ) → In v (set_add set x) ↔ (In v set ⊎ (v ≡ x))
unfolding set_add
set_add-In set x v = elim (Bool-cases (has set x)) [
  | inl e ↦ rw e (
    λ i. inl i,
    λ j. elim j [ inl i ↦ i | inr same ↦ subst (λ z. In z set) (sym same) (has→In set x e) ],
  )
  | inr e ↦ rw e (
    λ i. elim (In-append v set (x ∷ []) i) [
      | inl j ↦ inl j
      | inr (inl same) ↦ inr same
      | inr (inr none) ↦ absurd none
    ],
    λ j. elim j [
      | inl i ↦ In-append_left v set (x ∷ []) i
      | inr same ↦ In-append_right v set (x ∷ []) (inl same)
    ],
  )
]

IsDistinct-concat : (xs : List ℕ) (x : ℕ) → IsDistinct xs → ¬ In x xs → IsDistinct (xs ++ x ∷ [])
IsDistinct-concat [] x d new = (λ i. i, tt)
IsDistinct-concat (y ∷ ys) x d new = (
  λ i. elim (In-append y ys (x ∷ []) i) [
    | inl j ↦ d.0 j
    | inr (inl same) ↦ new (inl (sym same))
    | inr (inr none) ↦ none
  ],
  IsDistinct-concat ys x d.1 (λ i. new (inr i)),
)

pub set_add-IsDistinct : (set : List ℕ) (x : ℕ) → IsDistinct set → IsDistinct (set_add set x)
unfolding set_add
set_add-IsDistinct set x d = elim (Bool-cases (has set x)) [
  | inl e ↦ rw e d
  | inr e ↦ rw e (IsDistinct-concat set x d (λ i. cc (In→has set x i)))
]

insert_sorted-In : (v x : ℕ) (xs : List ℕ) → In v (insert_sorted x xs) ↔ ((v ≡ x) ⊎ In v xs)
unfolding insert_sorted
insert_sorted-In v x [] = (λ i. i, λ i. i)
insert_sorted-In v x (y ∷ ys) = elim (Bool-cases (leb x y)) [
  | inl e ↦ rw e (λ i. i, λ i. i)
  | inr e ↦
      let ih = insert_sorted-In v x ys in
      rw e (
        λ i. elim i [
          | inl same ↦ inr (inl same)
          | inr j ↦ elim (ih.0 j) [ inl same ↦ inl same | inr k ↦ inr (inr k) ]
        ],
        λ i. elim i [
          | inl same ↦ inr (ih.1 (inl same))
          | inr (inl same) ↦ inl same
          | inr (inr k) ↦ inr (ih.1 (inr k))
        ],
      )
]

pub sort_numbers-In : (v : ℕ) (xs : List ℕ) → In v (sort_numbers xs) ↔ In v xs
unfolding sort_numbers
sort_numbers-In v [] = (λ i. i, λ i. i)
sort_numbers-In v (x ∷ xs) =
    let ih = sort_numbers-In v xs in
    let at = insert_sorted-In v x (sort_numbers xs) in
    (
      λ i. elim (at.0 i) [ inl same ↦ inl same | inr j ↦ inr (ih.0 j) ],
      λ i. at.1 (elim i [ inl same ↦ inl same | inr j ↦ inr (ih.1 j) ]),
    )

insert_sorted-IsAscending :
    (x : ℕ) (xs : List ℕ) → IsAscending xs → ¬ In x xs → IsAscending (insert_sorted x xs)
unfolding insert_sorted
insert_sorted-IsAscending x [] up new = (tt, tt)
insert_sorted-IsAscending x (y ∷ ys) up new = elim (Bool-cases (leb x y)) [
  | inl e ↦
      let lt : x < y = ground (arith, λ (e : x ≡ y). new (inl e)) in
      rw e (
        (
          lt,
          All-of_In (λ z. x < z) ys
              (λ z i. let above = All-In (λ z. y < z) ys up.0 z i in omega arith),
        ),
        up,
      )
  | inr e ↦
      let lt : y < x = ground arith in
      rw e (
        All-of_In (λ z. y < z) (insert_sorted x ys)
            (λ z i. elim ((insert_sorted-In z x ys).0 i) [
              | inl same ↦ omega arith
              | inr j ↦ All-In (λ z. y < z) ys up.0 z j
            ]),
        insert_sorted-IsAscending x ys up.1 (λ i. new (inr i)),
      )
]

pub sort_numbers-IsAscending : (xs : List ℕ) → IsDistinct xs → IsAscending (sort_numbers xs)
unfolding sort_numbers
sort_numbers-IsAscending [] d = tt
sort_numbers-IsAscending (x ∷ xs) d =
    insert_sorted-IsAscending x (sort_numbers xs) (sort_numbers-IsAscending xs d.1)
      (λ i. d.0 ((sort_numbers-In x xs).0 i))

length-insert_sorted : (x : ℕ) (xs : List ℕ) → length (insert_sorted x xs) ≡ suc (length xs)
unfolding insert_sorted
length-insert_sorted x [] = refl
length-insert_sorted x (y ∷ ys) = ground (arith, length-insert_sorted x ys)

pub length-sort_numbers : (xs : List ℕ) → length (sort_numbers xs) ≡ length xs
unfolding sort_numbers
length-sort_numbers [] = refl
length-sort_numbers (x ∷ xs) =
    omega (arith, length-insert_sorted x (sort_numbers xs), length-sort_numbers xs)

-- A strictly ascending list between two bounds is no longer than the range.
ascending_length :
    (low high : ℕ) (xs : List ℕ)
    → IsAscending xs
    → All (λ x. (low ≤ x) × (x ≤ high)) xs
    → length xs ≤ high + 1 - low
ascending_length low high [] up within = omega arith
ascending_length low high (x ∷ xs) up within =
    let (a, b) = within.0 in
    omega (
      arith,
      ascending_length (x + 1) high xs up.1 (
          All-of_In (λ z. (x + 1 ≤ z) × (z ≤ high)) xs
            (λ z i. (
              omega (arith, All-In (λ z. x < z) xs up.0 z i),
              (All-In (λ z. (low ≤ z) × (z ≤ high)) xs within.1 z i).1,
            ))),
    )

-- If it is as long as the range, it is the range.
pub ascending_full :
    (low high : ℕ) (xs : List ℕ)
    → IsAscending xs
    → All (λ x. (low ≤ x) × (x ≤ high)) xs
    → length xs ≡ high + 1 - low
    → (v : ℕ) → low ≤ v
    → v ≤ high
    → In v xs
ascending_full low high [] up within full v l h = absurd (omega arith)
ascending_full low high (x ∷ xs) up within full v l h =
    let rest =
      All-of_In (λ z. (x + 1 ≤ z) × (z ≤ high)) xs
        (λ z i. (
          omega (arith, All-In (λ z. x < z) xs up.0 z i),
          (All-In (λ z. (low ≤ z) × (z ≤ high)) xs within.1 z i).1,
        )) in
    let short = ascending_length (x + 1) high xs up.1 rest in
    let (a, b) = within.0 in
    let first : x ≡ low = omega arith in
    elim (Bool-cases (leb v x)) [
      | inl e ↦ inl (ground arith)
      | inr e ↦ inr (ascending_full (x + 1) high xs up.1 rest (omega arith) v (ground arith) h)
    ]
