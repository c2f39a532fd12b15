-- ===== src/Prelude/Maps.antt =====
-- A `Map` of the source with strings for keys: its entries in the order in which the keys were first set.
use chimpbase.Prelude.{
  Bool, true, false, String, str_eq, eq_iff, eq_refl, ◌≡◌, refl, sym, ◌∙◌, ◌≢◌, inl, inr, false,
  Option, none, some, List, [], ◌∷◌, if◌then◌else◌, Bool-cases,
}

pub str_ne : (a b : String) → a ≢ b → str_eq a b ≡ false
str_ne a b h = elim (Bool-cases (str_eq a b)) [ inl e ↦ absurd (h ((eq_iff a b).0 e)) | inr e ↦ e ]

-- Whether a list or a set of strings has the string.
unfoldable pub includes : String → List String → Bool
includes name [] = false
includes name (n ∷ names) = if str_eq n name then true else includes name names

abbrev pub Map : Type 0 → Type 0
Map V = List (String × V)

module _ {V : Type 0} where
  unfoldable pub get_key : String → Map V → Option V
  get_key k [] = none
  get_key k ((j, v) ∷ m) = if str_eq j k then some v else get_key k m

  unfoldable pub set_key : String → V → Map V → Map V
  set_key k v [] = (k, v) ∷ []
  set_key k v ((j, w) ∷ m) =
      let rest = set_key k v m in if str_eq j k then (j, v) ∷ m else (j, w) ∷ rest

  unfoldable pub delete_key : String → Map V → Map V
  delete_key k [] = []
  delete_key k ((j, w) ∷ m) =
      let rest = delete_key k m in if str_eq j k then rest else (j, w) ∷ rest

  pub get-set_same : (k : String) (v : V) (m : Map V) → get_key k (set_key k v m) ≡ some v
  unfolding get_key set_key
  get-set_same k v [] = rw (eq_refl k) refl
  get-set_same k v ((j, w) ∷ m) = elim (Bool-cases (str_eq j k)) [
    | inl e ↦ rw (e, e) refl
    | inr e ↦ rw (e, e) (get-set_same k v m)
  ]

  pub get-set_other :
      (k : String) (v : V) (m : Map V) (i : String)
      → k ≢ i
      → get_key i (set_key k v m) ≡ get_key i m
  unfolding get_key set_key
  get-set_other k v [] i h = rw (str_ne k i h) refl
  get-set_other k v ((j, w) ∷ m) i h = elim (Bool-cases (str_eq j k)) [
    | inl e ↦ rw e (rw (str_ne j i (λ same. h (sym ((eq_iff j k).0 e) ∙ same))) refl)
    | inr e ↦ rw e (elim (Bool-cases (str_eq j i)) [
      | inl f ↦ rw f refl
      | inr f ↦ rw f (get-set_other k v m i h)
    ])
  ]

  pub get-delete_same : (k : String) (m : Map V) → get_key k (delete_key k m) ≡ none
  unfolding get_key delete_key
  get-delete_same k [] = refl
  get-delete_same k ((j, w) ∷ m) = elim (Bool-cases (str_eq j k)) [
    | inl e ↦ rw e (get-delete_same k m)
    | inr e ↦ rw (e, e) (get-delete_same k m)
  ]

  pub get-delete_other :
      (k : String) (m : Map V) (i : String) → k ≢ i → get_key i (delete_key k m) ≡ get_key i m
  unfolding get_key delete_key
  get-delete_other k [] i h = refl
  get-delete_other k ((j, w) ∷ m) i h = elim (Bool-cases (str_eq j k)) [
    | inl e ↦
        rw (e, str_ne j i (λ same. h (sym ((eq_iff j k).0 e) ∙ same))) (get-delete_other k m i h)
    | inr e ↦ rw e (elim (Bool-cases (str_eq j i)) [
      | inl f ↦ rw f refl
      | inr f ↦ rw f (get-delete_other k m i h)
    ])
  ]
