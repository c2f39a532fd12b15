-- ===== src/Cron/Field/Values.antt =====
-- What `parseCronField` guarantees of the field that it returns.
use chimpbase.Prelude.{
  ℕ, zero, suc, ◌+◌, ◌*◌, ◌≤◌, ◌<◌, ◌≡◌, ◌↔◌, sym, subst, ap, ◌∙◌, leb→le, ◌⊎◌, inl, inr, List, In,
  arith, leb, Bool-cases, Option,
}
use chimpbase.Prelude.Result.{Result, ok, ◌>>=◌, >>=-eq-ok}
use chimpbase.Cron.Field.{
  CronError, normalize_cron_value, apply_normalize, set_add, add_values, max_input,
}
use chimpbase.Cron.Field.Sets.{IsDistinct, set_add-In, set_add-IsDistinct}

-- The numbers of a set are in range, and none stands in it twice.
pub record IsSetWithin (low high : ℕ) (set : List ℕ) : Type 0 where
  pub distinct : IsDistinct set
  pub within : (v : ℕ) → In v set → (low ≤ v) × (v ≤ high)

set_add-IsSetWithin :
    (low high : ℕ) (set : List ℕ) (x : ℕ)
    → low ≤ x
    → x ≤ high
    → IsSetWithin low high set
    → IsSetWithin low high (set_add set x)
set_add-IsSetWithin low high set x l h w = record {
  distinct = set_add-IsDistinct set x w.distinct;
  within = λ v i. elim ((set_add-In set x v).0 i) [
    | inl old ↦ w.within v old
    | inr same ↦ rw same (l, h)
  ];
}

normalize_within :
    (value min max max_input : ℕ) (f : Option (ℕ → ℕ)) (v : ℕ)
    → normalize_cron_value value min max max_input f ≡ ok v
    → (min ≤ v) × (v ≤ max) × (v ≡ apply_normalize f value)
unfolding normalize_cron_value
normalize_within value min max max_input f v e = ground arith

module _ (min max max_input : ℕ) (f : Option (ℕ → ℕ)) where
  abbrev normalize : ℕ → Result CronError ℕ
  normalize v = normalize_cron_value v min max max_input f

  pub add_values-IsSetWithin :
      (fuel value end step : ℕ) (set result : List ℕ)
      → IsSetWithin min max set
      → add_values fuel value end step normalize set ≡ ok result
      → IsSetWithin min max result
  unfolding add_values
  add_values-IsSetWithin zero value end step set result w e = subst (IsSetWithin min max) (cc) w
  add_values-IsSetWithin (suc fuel) value end step set result w e =
      elim (Bool-cases (leb value end)) [
        | inl more ↦
            let run : (normalize value >>= λ v.
            add_values fuel (value + step) end step normalize (set_add set v))
                ≡ ok result =
              ground arith in
            let (v, at, rest) = >>=-eq-ok (normalize value) _ run in
            let (low, high, _) = normalize_within value min max max_input f v at in
            add_values-IsSetWithin fuel (value + step) end step (set_add set v) result
              (set_add-IsSetWithin min max set v low high w) rest
        | inr done ↦ let same : set ≡ result = ground arith in subst (IsSetWithin min max) same w
      ]

  -- `x` is one of value, value + step, value + 2 * step, ... up to `end`.
  abbrev pub Stepped : ℕ → ℕ → ℕ → ℕ → Type 0
  Stepped value end step x = (k : ℕ) × (x ≡ value + k * step) × (x ≤ end)

  Stepped-first :
      (value end step v : ℕ)
      → value ≤ end
      → v ≡ apply_normalize f value
      → (x : ℕ) × Stepped value end step x × (v ≡ apply_normalize f x)
  Stepped-first value end step v le e = (value, (0, omega arith, le), e)

  Stepped-next :
      (value end step x : ℕ) → Stepped (value + step) end step x → Stepped value end step x
  Stepped-next value end step x (k, e, le) = (suc k, grind arith, le)

  Stepped-cases :
      (value end step x : ℕ)
      → Stepped value end step x
      → (x ≡ value) ⊎ Stepped (value + step) end step x
  Stepped-cases value end step x (zero, e, le) = inl (omega arith)
  Stepped-cases value end step x (suc k, e, le) = inr (k, grind arith, le)

  -- With a positive step and a round for every number of the range, the loop that adds values, if
  -- it does not throw, ends with exactly the old values and the normalized values of start, start
  -- + step, and so on up to the end.
  pub add_values-In :
      (fuel value end step : ℕ) (set result : List ℕ)
      → 1 ≤ step
      → end < value + fuel
      → add_values fuel value end step normalize set ≡ ok result
      → (v : ℕ)
      → In v result ↔ (In v set ⊎ ((x : ℕ) × Stepped value end step x × (v ≡ apply_normalize f x)))
  unfolding add_values
  add_values-In zero value end step set result pos room e v =
      let same : set ≡ result = cc in
      (
        λ i. inl (subst (In v) (sym same) i),
        λ j. elim j [
          | inl i ↦ subst (In v) same i
          | inr (x, (k, at, le), _) ↦ absurd (grind arith)
        ],
      )
  add_values-In (suc fuel) value end step set result pos room e v =
      elim (Bool-cases (leb value end)) [
        | inl more ↦
            let run : (normalize value >>= λ v.
            add_values fuel (value + step) end step normalize (set_add set v))
                ≡ ok result =
              ground arith in
            let (w, at, rest) = >>=-eq-ok (normalize value) _ run in
            let (_, _, image) = normalize_within value min max max_input f w at in
            let ih =
              add_values-In fuel (value + step) end step (set_add set w) result pos (omega arith)
                rest v in
            let added = set_add-In set w v in
            (
              λ i. elim (ih.0 i) [
                | inl j ↦ elim (added.0 j) [
                  | inl old ↦ inl old
                  | inr same ↦
                      inr (Stepped-first value end step v (leb→le value end more) (same ∙ image))
                ]
                | inr (x, st, img) ↦ inr (x, Stepped-next value end step x st, img)
              ],
              λ j. ih.1 (elim j [
                | inl old ↦ inl (added.1 (inl old))
                | inr (x, st, img) ↦ elim (Stepped-cases value end step x st) [
                  | inl here ↦ inl (added.1 (inr (img ∙ ap (apply_normalize f) here ∙ sym image)))
                  | inr later ↦ inr (x, later, img)
                ]
              ]),
            )
        | inr done ↦
            let same : set ≡ result = ground arith in
            (
              λ i. inl (subst (In v) (sym same) i),
              λ j. elim j [
                | inl i ↦ subst (In v) same i
                | inr (x, (k, at, le), _) ↦ absurd (grind arith)
              ],
            )
      ]
