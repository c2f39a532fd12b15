-- ===== src/Cron/Expression/Parsed.antt =====
-- A parsed expression is well formed, and the cache never changes what an expression parses to.
use chimpbase.Prelude.{
  ℕ, ◌≤◌, ◌≡◌, refl, sym, subst, ap, ◌∙◌, inl, inr, true, some, List, [], ◌∷◌, In, arith,
  Bool-cases, Option-cases,
}
use chimpbase.Prelude.Result.{ok, >>=-eq-ok, Result-cases}
use chimpbase.Text.{Text, split, text_eq, text_eq_sound}
use chimpbase.Cron.Search.{ParsedCronField, ParsedCronExpression}
use chimpbase.Cron.Search.Spec.{IsField, IsExpression}
use chimpbase.Cron.Field.{FieldOptions, Number, parse_cron_field}
use chimpbase.Cron.Field.Parsed.{parse_cron_field-IsField}
use chimpbase.Cron.Expression.{
  no_options, weekday_options, Cache, cache_get, normalize_expression, five_fields, parse_fields,
  parse_cron_expression,
}

-- A field in range, with some value, whose wildcard flag stands for the whole range.
pub record IsParsedField (low high : ℕ) (f : ParsedCronField) : Type 0 where
  pub field : IsField low high f
  pub some_value : (v : ℕ) × In v f.values
  pub full : f.wildcard ≡ true → (v : ℕ) → low ≤ v → v ≤ high → In v f.values

pub record IsParsed (p : ParsedCronExpression) : Type 0 where
  pub minute : IsParsedField 0 59 p.minute
  pub hour : IsParsedField 0 23 p.hour
  pub day_of_month : IsParsedField 1 31 p.day_of_month
  pub month : IsParsedField 1 12 p.month
  pub day_of_week : IsParsedField 0 6 p.day_of_week

pub IsParsed→IsExpression : {p : ParsedCronExpression} → IsParsed p → IsExpression p
IsParsed→IsExpression w = record {
  minute = w.minute.field;
  hour = w.hour.field;
  day_of_month = w.day_of_month.field;
  month = w.month.field;
  day_of_week = w.day_of_week.field;
}

module _ (other : Number) where
  parsed_field :
      (low high : ℕ) (options : FieldOptions) (text : Text) (f : ParsedCronField)
      → parse_cron_field other low high options text ≡ ok f
      → IsParsedField low high f
  parsed_field low high options text f e =
      let (field, value, full) = parse_cron_field-IsField other low high options text f e in
      record { field = field; some_value = value; full = full }

  five_fields-IsParsed :
      (parts : List Text) (p : ParsedCronExpression) → five_fields other parts ≡ ok p → IsParsed p
  unfolding five_fields
  five_fields-IsParsed (a ∷ b ∷ c ∷ d ∷ e ∷ []) p run =
      let (minute, m, run₁) = >>=-eq-ok (parse_cron_field other 0 59 no_options a) _ run in
      let (hour, h, run₂) = >>=-eq-ok (parse_cron_field other 0 23 no_options b) _ run₁ in
      let (day, d', run₃) = >>=-eq-ok (parse_cron_field other 1 31 no_options c) _ run₂ in
      let (month, o, run₄) = >>=-eq-ok (parse_cron_field other 1 12 no_options d) _ run₃ in
      let (week, w, run₅) = >>=-eq-ok (parse_cron_field other 0 6 weekday_options e) _ run₄ in
      let made : ParsedCronExpression = record {
        minute = minute;
        hour = hour;
        day_of_month = day;
        month = month;
        day_of_week = week;
      } in
      let same : made ≡ p = cc (run₅) in
      subst IsParsed same (record {
        minute = parsed_field 0 59 no_options a minute m;
        hour = parsed_field 0 23 no_options b hour h;
        day_of_month = parsed_field 1 31 no_options c day d';
        month = parsed_field 1 12 no_options d month o;
        day_of_week = parsed_field 0 6 weekday_options e week w;
      })
  five_fields-IsParsed parts p run = cc

  -- In an expression that parses every field is ascending, within its range and not empty, and a
  -- wildcard field is full.
  pub parse_fields-IsParsed :
      (normalized : Text) (p : ParsedCronExpression)
      → parse_fields other normalized ≡ ok p
      → IsParsed p
  unfolding parse_fields
  parse_fields-IsParsed normalized p e = five_fields-IsParsed (split b' ' normalized) p e

  -- Every entry of the cache is what its key parses to.
  abbrev pub IsCoherent : Cache → Type 0
  IsCoherent [] = Unit
  IsCoherent ((k, parsed) ∷ rest) = (parse_fields other k ≡ ok parsed) × IsCoherent rest

  cache_get-IsCoherent :
      (key : Text) (cache : Cache) (p : ParsedCronExpression)
      → IsCoherent cache
      → cache_get key cache ≡ some p
      → parse_fields other key ≡ ok p
  unfolding cache_get
  cache_get-IsCoherent key [] p c e = cc
  cache_get-IsCoherent key ((k, parsed) ∷ rest) p c e = elim (Bool-cases (text_eq k key)) [
    | inl hit ↦
        let same : k ≡ key = text_eq_sound k key hit in
        let got : parsed ≡ p = ground arith in rw (← same) (c.0 ∙ ap ok got)
    | inr miss ↦ cache_get-IsCoherent key rest p c.1 (ground arith)
  ]

  -- With a coherent cache parseCronExpression returns or throws what the parser without a cache
  -- does, and the cache stays coherent.
  pub parse_cron_expression-eq-parse_fields :
      (cache : Cache) (expression : Text)
      → IsCoherent cache
      → ((parse_cron_expression other cache expression).0
          ≡ parse_fields other (normalize_expression expression))
        × IsCoherent (parse_cron_expression other cache expression).1
  unfolding parse_cron_expression
  parse_cron_expression-eq-parse_fields cache expression c =
      let normalized = normalize_expression expression in
      elim (Option-cases (cache_get normalized cache)) [
        | inr (cached, hit) ↦
            rw (hit, parse_cron_expression)
              (sym (cache_get-IsCoherent normalized cache cached c hit), c)
        | inl miss ↦ elim (Result-cases (parse_fields other normalized)) [
          | inl (parsed, good) ↦ rw (miss, good, parse_cron_expression) (refl, (good, c))
          | inr (e, bad) ↦ rw (miss, bad, parse_cron_expression) (refl, c)
        ]
      ]
