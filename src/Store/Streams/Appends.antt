-- ===== src/Store/Streams/Appends.antt =====
-- What an append adds to what is read.
use chimpbase.Prelude.{
  ℕ, suc, ◌≤◌, ◌<◌, ◌≡◌, refl, sym, ap, ◌∙◌, inl, inr, String, Bool, true, ◌&&◌, Option, List, [],
  ◌∷◌, ◌++◌, map, length, length-append, All, ltb, lt→ltb, str_eq, eq_refl, Bool-cases, arith,
}
use chimpbase.Store.Paging.{where_passes, where_passes-append}
use chimpbase.Store.Streams.{StreamRow, StreamEvent, next_row_id, stream_append, to_event}
use chimpbase.Store.Streams.Reads.{IsTable, read_pages, read_pages_complete, events_of-append}

-- The next id is larger than every id of the table.
next_row_id-cons :
    (row : StreamRow) (rows : List StreamRow)
    → (suc row.id ≤ next_row_id (row ∷ rows)) × (next_row_id rows ≤ next_row_id (row ∷ rows))
unfolding next_row_id
next_row_id-cons row rows = elim (Bool-cases (ltb (next_row_id rows) (suc row.id))) [
  | inl e ↦ (rw (e, next_row_id) (omega arith), rw (e, next_row_id) (ground (arith, e)))
  | inr e ↦ (rw (e, next_row_id) (ground (arith, e)), rw (e, next_row_id) (omega arith))
]

above :
    (bound : ℕ) (rows : List StreamRow)
    → next_row_id rows ≤ bound
    → All (λ row. row.id < bound) rows
above bound [] le = tt
above bound (row ∷ rows) le =
    let (here, later) = next_row_id-cons row rows in
    (omega (arith, here, le), above bound rows (omega (arith, later, le)))

both : {a b : Bool} → a ≡ true → b ≡ true → (a && b) ≡ true
both e f = rw (e, f) refl

where_passes_one :
    (p : StreamRow → Bool) (row : StreamRow) → p row ≡ true → where_passes p (row ∷ []) ≡ row ∷ []
unfolding where_passes
where_passes_one p row e = rw e refl

All-snoc :
    {A : Type 0} (P : A → Type 0) (xs : List A) (x : A) → All P xs → P x → All P (xs ++ x ∷ [])
All-snoc P [] x h p = (p, tt)
All-snoc P (y ∷ xs) x h p = (h.0, All-snoc P xs x h.1 p)

append_last :
    (rows : List StreamRow) (row : StreamRow)
    → IsTable rows
    → All (λ r. r.id < row.id) rows
    → IsTable (rows ++ row ∷ [])
append_last [] row o h = (tt, tt)
append_last (r ∷ rows) row o h = (
  All-snoc (λ y. ltb r.id y.id ≡ true) rows row o.0 (lt→ltb r.id row.id h.0),
  append_last rows row o.1 h.1,
)

-- The event that an append stores.
abbrev pub appended :
    {Payload : Type 0} → String → ℕ → ℕ → String → Option Payload → StreamEvent Payload
appended stream now id event payload = record {
  created_at = now;
  event = event;
  id = id;
  payload = payload;
  stream = stream;
}

module _ {Payload : Type 0} (stringify : Option Payload → String) (parse : String → Option Payload)
    (stream : String) (n : ℕ) where
  -- In a table with ascending ids, streamAppend of a payload that JSON reads back as it was keeps
  -- the ids ascending, and from any cursor below the new id the pages then give the events of
  -- before and, behind them, the new one with the id that was returned, its name and its payload.
  pub append-read :
      (now fuel since : ℕ) (event : String) (payload : Option Payload) (rows : List StreamRow)
      → parse (stringify payload) ≡ payload
      → IsTable rows
      → suc (length rows) ≤ fuel
      → since < (stream_append stringify parse now stream event payload rows).0
      → IsTable (stream_append stringify parse now stream event payload rows).1
        × (read_pages stringify parse stream
              (suc n)
              fuel
              since
              (stream_append stringify parse now stream event payload rows).1
            ≡ read_pages stringify parse stream (suc n) fuel since rows
              ++ appended stream now
                  (stream_append stringify parse now stream event payload rows).0
                  event
                  payload
                ∷ [])
  unfolding stream_append
  append-read now fuel since event payload rows round o le lt =
      let id = next_row_id rows in
      let row : StreamRow = record {
        id = id;
        stream_name = stream;
        event_name = event;
        payload_json = stringify payload;
        created_at = now;
      } in
      let test = λ (r : StreamRow). str_eq r.stream_name stream && ltb since r.id in
      let table = append_last rows row o (above (next_row_id rows) rows (omega arith)) in
      let long = length-append rows (row ∷ []) in
      let kept = where_passes_one test row (both (eq_refl stream) (lt→ltb since id lt)) in
      let before =
        read_pages_complete stringify parse stream n fuel since rows o (omega (arith, le)) in
      let shown = to_event stringify parse in
      (
        table,
        read_pages_complete stringify parse stream n fuel since (rows ++ row ∷ []) table
              (omega (arith, le))
            ∙ (ap (map shown) (where_passes-append test rows (row ∷ []))
                ∙ (ap (λ rs. map shown (where_passes test rows ++ rs)) kept
                    ∙ (sym (events_of-append shown (where_passes test rows) (row ∷ []))
                        ∙ (ap
                              (λ p.
                                map shown (where_passes test rows)
                                ++ appended stream now id event p ∷ [])
                              round
                            ∙ ap (λ es. es ++ appended stream now id event payload ∷ [])
                                (sym before))))),
      )
