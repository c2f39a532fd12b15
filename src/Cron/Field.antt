-- ===== src/Cron/Field.antt =====
-- `parseCronField` of core/cron.ts and what it calls. `Number` is modelled on blank text and on runs
-- of at most 15 decimal digits, whose numbers are exact; on other text (more digits, a sign, a
-- fraction, an exponent, a radix prefix) it is the parameter `other`: the integer that it gives, if it
-- gives one.
pub mod Sets
pub mod Values
pub mod Parsed
use chimpbase.Prelude.{
  ℕ, zero, suc, ◌+◌, ◌-◌, Bool, true, false, not, ◌&&◌, ◌||◌, Option, none, some, List, [], ◌∷◌,
  ◌++◌, leb, ltb, ◌==◌, if◌then◌else◌, length, get_or,
}
use chimpbase.Prelude.Int.{ℤ, pos, negsuc}
use chimpbase.Prelude.Result.{Result, ok, err, ◌>>=◌}
use chimpbase.Text.{Text, trim, split, includes, text_eq, all_digits, decimal}
use chimpbase.Cron.Search.{ParsedCronField, has}

pub data CronError : Type 0 where
  field_count invalid_field invalid_token not_an_integer out_of_range range_not_ascending
        step_not_positive no_values no_fire_time :
      CronError

-- `options` of `parseCronField`.
pub record FieldOptions : Type 0 where
  pub max_input_value : Option ℕ
  pub normalize_value : Option (ℕ → ℕ)

abbrev pub Number : Type 0
Number = Text → Option ℤ

unfoldable pub to_number : Number → Text → Option ℤ
unfolding trim all_digits decimal
to_number other raw = elim (trim raw) [
  | [] ↦ some (pos 0)
  | c ∷ cs ↦
      if all_digits (c ∷ cs) && ltb (length cs) 15
      then some (pos (decimal 0 (c ∷ cs)))
      else other (c ∷ cs)
]

-- The range test of `parseRawCronValue`; `min` is never negative.
abbrev pub check_range : ℤ → ℕ → ℕ → Result CronError ℕ
check_range (pos n) min max = if ltb n min || ltb max n then err out_of_range else ok n
check_range (negsuc n) min max = err out_of_range

unfoldable pub parse_raw_cron_value : Number → Text → ℕ → ℕ → Result CronError ℕ
unfolding to_number
parse_raw_cron_value other raw min max_input = elim (to_number other raw) [
  | none ↦ err not_an_integer
  | some parsed ↦ check_range parsed min max_input
]

unfoldable pub parse_cron_range : Number → Text → ℕ → ℕ → Result CronError (ℕ × ℕ)
unfolding parse_raw_cron_value text_eq includes split
parse_cron_range other base min max_input =
    if text_eq base (b'*' ∷ [])
    then ok (min, max_input)
    else if includes b'-' base
    then (do
      start ← parse_raw_cron_value other (get_or (split b'-' base) 0 []) min max_input
      end ← parse_raw_cron_value other (get_or (split b'-' base) 1 []) min max_input
      if ltb end start then err range_not_ascending else ok (start, end))
    else do value ← parse_raw_cron_value other base min max_input; ok (value, value)

abbrev check_step : ℤ → Result CronError ℕ
check_step (pos zero) = err step_not_positive
check_step (pos (suc n)) = ok (suc n)
check_step (negsuc n) = err step_not_positive

unfoldable pub parse_positive_integer : Number → Text → Result CronError ℕ
unfolding to_number
parse_positive_integer other raw = elim (to_number other raw) [
  | none ↦ err step_not_positive
  | some parsed ↦ check_step parsed
]

abbrev pub apply_normalize : Option (ℕ → ℕ) → ℕ → ℕ
apply_normalize none v = v
apply_normalize (some f) v = f v

unfoldable pub normalize_cron_value : ℕ → ℕ → ℕ → ℕ → Option (ℕ → ℕ) → Result CronError ℕ
normalize_cron_value value min max max_input normalize_value =
    if ltb value min || ltb max_input value
    then err out_of_range
    else let normalized = apply_normalize normalize_value value in
      if ltb normalized min || ltb max normalized then err out_of_range else ok normalized

-- `Set.add`, in the order of insertion.
unfoldable pub set_add : List ℕ → ℕ → List ℕ
unfolding has
set_add set v = if has set v then set else set ++ v ∷ []

-- `for (value = start; value <= end; value += step)`, with `fuel` for the rounds left.
unfoldable pub add_values :
    ℕ → ℕ → ℕ → ℕ → (ℕ → Result CronError ℕ) → List ℕ → Result CronError (List ℕ)
unfolding set_add
add_values zero value end step normalize set = ok set
add_values (suc fuel) value end step normalize set = elim (leb value end) [
  | false ↦ ok set
  | true ↦
      normalize value >>= λ v. add_values fuel (value + step) end step normalize (set_add set v)
]

-- `sort((left, right) => left - right)`
unfoldable pub insert_sorted : ℕ → List ℕ → List ℕ
insert_sorted v [] = v ∷ []
insert_sorted v (x ∷ xs) = if leb v x then v ∷ x ∷ xs else x ∷ insert_sorted v xs

unfoldable pub sort_numbers : List ℕ → List ℕ
unfolding insert_sorted
sort_numbers [] = []
sort_numbers (x ∷ xs) = insert_sorted x (sort_numbers xs)

abbrev pub get_or_else : Option ℕ → ℕ → ℕ
get_or_else none d = d
get_or_else (some v) d = v

module _ (other : Number) (min max : ℕ) (options : FieldOptions) where
  abbrev pub max_input : ℕ
  max_input = get_or_else options.max_input_value max

  -- `segments[1] === undefined ? 1 : parsePositiveInteger(segments[1], token)`
  pub parse_step : List Text → Result CronError ℕ
  parse_step (base ∷ step ∷ rest) = parse_positive_integer other step
  parse_step segments = ok 1

  -- The body of the loop over the tokens, from the trimmed token on.
  pub parse_token : Text → List ℕ × Bool → Result CronError (List ℕ × Bool)
  unfolding parse_step
  parse_token token (values, saw) =
      let segments = split b'/' token in
      let base = get_or segments 0 [] in
      if ltb 2 (length segments) then err invalid_token else do
        step ← parse_step segments
        bounds ← parse_cron_range other base min max_input
        values' ←
            add_values (bounds.1 + 1 - bounds.0) bounds.0 bounds.1 step
              (λ v. normalize_cron_value v min max max_input options.normalize_value) values
        ok (values', saw || includes b'*' base)

  pub parse_tokens : List Text → List ℕ × Bool → Result CronError (List ℕ × Bool)
  unfolding parse_token
  parse_tokens [] state = ok state
  parse_tokens (raw ∷ rest) state = elim (trim raw) [
    | [] ↦ err invalid_field
    | c ∷ cs ↦ parse_token (c ∷ cs) state >>= λ next. parse_tokens rest next
  ]

  -- The checks and the record behind the loop.
  pub finish_field : List ℕ × Bool → Result CronError ParsedCronField
  finish_field ([], saw) = err no_values
  finish_field (v ∷ vs, saw) = ok (record {
    value_set = v ∷ vs;
    values = sort_numbers (v ∷ vs);
    wildcard = saw && (length (v ∷ vs) == max + 1 - min);
  })

  unfoldable pub parse_cron_field : Text → Result CronError ParsedCronField
  unfolding parse_cron_range parse_positive_integer normalize_cron_value add_values sort_numbers
      parse_tokens finish_field
  parse_cron_field expression = parse_tokens (split b',' expression) ([], false) >>= finish_field
