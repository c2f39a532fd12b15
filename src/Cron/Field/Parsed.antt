-- ===== src/Cron/Field/Parsed.antt =====
-- Every field that `parseCronField` returns is sorted and in range, and a wildcard is the full range.
use chimpbase.Prelude.{
  ℕ, ◌+◌, ◌-◌, ◌≤◌, ◌≡◌, refl, sym, ◌∙◌, subst, Bool, true, false, ◌&&◌, List, [], ◌∷◌, In,
  All-of_In, arith, ltb, ◌==◌, length, get_or, Bool-cases, inl, inr,
}
use chimpbase.Prelude.Result.{Result, ok, err, ◌>>=◌, >>=-eq-ok}
use chimpbase.Text.{Text, trim, split}
use chimpbase.Cron.Search.{ParsedCronField}
use chimpbase.Cron.Search.Spec.{IsField}
use chimpbase.Cron.Field.{
  CronError, FieldOptions, Number, max_input, parse_step, parse_token, parse_tokens, finish_field,
  parse_cron_field, parse_cron_range, sort_numbers, invalid_field,
}
use chimpbase.Cron.Field.Sets.{
  sort_numbers-In, sort_numbers-IsAscending, length-sort_numbers, ascending_full,
}
use chimpbase.Cron.Field.Values.{IsSetWithin, add_values-IsSetWithin}

module _ (other : Number) (min max : ℕ) (options : FieldOptions) where
  parse_token-IsSetWithin :
      (token : Text) (set : List ℕ) (saw : Bool) (state : List ℕ × Bool)
      → IsSetWithin min max set
      → parse_token other min max options token (set, saw) ≡ ok state
      → IsSetWithin min max state.0
  unfolding parse_token
  parse_token-IsSetWithin token set saw state w e =
      let segments = split b'/' token in
      let base = get_or segments 0 [] in
      elim (Bool-cases (ltb 2 (length segments))) [
        | inl many ↦ cc (rw many at e)
        | inr few ↦
            let (step, _, run) =
              >>=-eq-ok (parse_step other min max options segments) _ (rw few at e) in
            let (bounds, _, run') =
              >>=-eq-ok (parse_cron_range other base min (max_input other min max options)) _ run in
            let (values, at, run'') = >>=-eq-ok _ _ run' in
            let same : values ≡ state.0 = ground arith in
            subst (IsSetWithin min max) same (
              add_values-IsSetWithin min max (max_input other min max options)
                options.normalize_value (bounds.1 + 1 - bounds.0) bounds.0 bounds.1 step set values
                w at)
      ]

  or_invalid : Text → List Text → List ℕ × Bool → Result CronError (List ℕ × Bool)
  or_invalid [] rest state = err invalid_field
  or_invalid (c ∷ cs) rest state = parse_token other min max options (c ∷ cs) state >>= λ next.
      parse_tokens other min max options rest next

  or_invalid-eq-ok :
      (token : Text) (rest : List Text) (state result : List ℕ × Bool)
      → or_invalid token rest state ≡ ok result
      → (next : List ℕ × Bool) × (parse_token other min max options token state ≡ ok next)
        × (parse_tokens other min max options rest next ≡ ok result)
  unfolding or_invalid
  or_invalid-eq-ok [] rest state result e = cc
  or_invalid-eq-ok (c ∷ cs) rest state result e = >>=-eq-ok _ _ e

  parse_tokens-or_invalid :
      (raw : Text) (rest : List Text) (state : List ℕ × Bool)
      → parse_tokens other min max options (raw ∷ rest) state ≡ or_invalid (trim raw) rest state
  unfolding parse_tokens or_invalid
  parse_tokens-or_invalid raw rest state = ground arith

  parse_tokens-IsSetWithin :
      (tokens : List Text) (state result : List ℕ × Bool)
      → IsSetWithin min max state.0
      → parse_tokens other min max options tokens state ≡ ok result
      → IsSetWithin min max result.0
  unfolding parse_tokens
  parse_tokens-IsSetWithin [] state result w e =
      let same : state.0 ≡ result.0 = ground arith in subst (IsSetWithin min max) same w
  parse_tokens-IsSetWithin (raw ∷ rest) state result w e =
      let (next, at, run) =
        or_invalid-eq-ok (trim raw) rest state result
          (sym (parse_tokens-or_invalid raw rest state) ∙ e) in
      parse_tokens-IsSetWithin rest next result
        (parse_token-IsSetWithin (trim raw) state.0 state.1 next w at) run

  -- A field is a list of numbers in range, sorted and without repetition; it is a wildcard only if
  -- its values are the whole range.
  finish_field-IsField :
      (set : List ℕ) (saw : Bool) (f : ParsedCronField)
      → IsSetWithin min max set
      → finish_field other min max options (set, saw) ≡ ok f
      → IsField min max f
        × ((v : ℕ) × In v f.values)
        × (f.wildcard ≡ true → (v : ℕ) → min ≤ v → v ≤ max → In v f.values)
  unfolding finish_field
  finish_field-IsField [] saw f w e = cc
  finish_field-IsField (x ∷ xs) saw f w e =
      let set = x ∷ xs in
      let up = sort_numbers-IsAscending set w.distinct in
      let made : ParsedCronField = record {
        value_set = set;
        values = sort_numbers set;
        wildcard = saw && (length set == max + 1 - min);
      } in
      let same : made ≡ f = cc in
      subst
        (λ (f : ParsedCronField).
          IsField min max f
          × ((v : ℕ) × In v f.values)
          × (f.wildcard ≡ true → (v : ℕ) → min ≤ v → v ≤ max → In v f.values))
        same
        (
          record {
            sorted = up;
            same_set = λ v. sort_numbers-In v set;
            within = λ v i. w.within v ((sort_numbers-In v set).0 i);
          },
          (x, (sort_numbers-In x set).1 (inl refl)),
          λ wild v low high.
              ascending_full min max (sort_numbers set) up
                (All-of_In (λ z. (min ≤ z) × (z ≤ max)) (sort_numbers set)
                  (λ z i. w.within z ((sort_numbers-In z set).0 i)))
                (length-sort_numbers set ∙ ground arith) v low high,
        )

  pub parse_cron_field-IsField :
      (expression : Text) (f : ParsedCronField)
      → parse_cron_field other min max options expression ≡ ok f
      → IsField min max f
        × ((v : ℕ) × In v f.values)
        × (f.wildcard ≡ true → (v : ℕ) → min ≤ v → v ≤ max → In v f.values)
  unfolding parse_cron_field
  parse_cron_field-IsField expression f e =
      let ((set, saw), at, run) =
        >>=-eq-ok (parse_tokens other min max options (split b',' expression) ([], false)) _ e in
      finish_field-IsField set saw f
        (parse_tokens-IsSetWithin (split b',' expression) ([], false) (set, saw)
          (record { distinct = tt; within = λ v i. absurd i }) at)
        run
