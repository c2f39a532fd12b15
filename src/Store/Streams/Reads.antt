-- ===== src/Store/Streams/Reads.antt =====
-- Reading a stream page by page, and what an append adds to that.
use chimpbase.Prelude.{
  ℕ, zero, suc, ◌≤◌, ◌≡◌, refl, sym, ap, ◌∙◌, String, true, false, ◌&&◌, Option, some, List, [],
  ◌∷◌, ◌++◌, map, length, ltb, str_eq, arith,
}
use chimpbase.Store.Paging.{
  where_passes, take, drop, take-drop, length-drop, length-where_passes, where_passes_and,
  IsOrdered, last_key, rest_after_page, where_passes-IsOrdered,
}
use chimpbase.Store.Streams.{StreamRow, StreamEvent, to_event, stream_read}

abbrev pub row_id : StreamRow → ℕ
row_id row = row.id

ltb_irreflexive : (k : ℕ) → ltb k k ≡ false
ltb_irreflexive k = ground arith

ltb_transitive : (a b c : ℕ) → ltb a b ≡ true → ltb b c ≡ true → ltb a c ≡ true
ltb_transitive a b c h h' = ground arith

-- The ids of the table are ascending.
abbrev pub IsTable : List StreamRow → Type 0
IsTable rows = IsOrdered row_id ltb rows

module _ {Payload : Type 0} (stringify : Option Payload → String) (parse : String → Option Payload)
    (stream : String) (limit : ℕ) where
  abbrev pub read_page : ℕ → List StreamRow → List (StreamEvent Payload)
  read_page since rows = stream_read stringify parse stream (some since) (some limit) rows

  -- Pages from the cursor on, until one is empty.
  abbrev pub last_event_id : StreamEvent Payload → List (StreamEvent Payload) → ℕ
  last_event_id event [] = event.id
  last_event_id event (e ∷ events) = last_event_id e events

  abbrev pub read_pages : ℕ → ℕ → List StreamRow → List (StreamEvent Payload)
  read_pages zero since rows = []
  read_pages (suc fuel) since rows = elim (read_page since rows) [
    | [] ↦ []
    | event ∷ events ↦ (event ∷ events) ++ read_pages fuel (last_event_id event events) rows
  ]

  abbrev events_of : List StreamRow → List (StreamEvent Payload)
  events_of rows = map (to_event stringify parse) rows

  -- The rows of the stream, and those of them after the cursor.
  abbrev pub rows_of : List StreamRow → List StreamRow
  rows_of rows = where_passes (λ row. str_eq row.stream_name stream) rows

  abbrev pub rows_after : ℕ → List StreamRow → List StreamRow
  rows_after since rows = where_passes (λ row. ltb since row.id) (rows_of rows)

  read_page_lem :
      (since : ℕ) (rows : List StreamRow)
      → read_page since rows ≡ events_of (take limit (rows_after since rows))
  unfolding stream_read
  read_page_lem since rows =
      ap (λ rs. events_of (take limit rs))
        (where_passes_and (λ (row : StreamRow). str_eq row.stream_name stream)
          (λ row. ltb since row.id) rows)

  last_event-last_key :
      (x : StreamRow) (xs : List StreamRow)
      → last_event_id (to_event stringify parse x) (events_of xs) ≡ last_key row_id x xs
  last_event-last_key x [] = refl
  last_event-last_key x (y ∷ xs) = last_event-last_key y xs

pub events_of-append :
    {A B : Type 0} (f : A → B) (xs ys : List A) → map f xs ++ map f ys ≡ map f (xs ++ ys)
events_of-append f [] ys = refl
events_of-append f (x ∷ xs) ys = ap (λ zs. f x ∷ zs) (events_of-append f xs ys)

module _ {Payload : Type 0} (stringify : Option Payload → String) (parse : String → Option Payload)
    (stream : String) (n : ℕ) where
  pages_lem :
      (fuel since : ℕ) (rows : List StreamRow) (after : List StreamRow)
      → IsTable rows
      → rows_after stringify parse stream (suc n) since rows ≡ after
      → length after ≤ fuel
      → read_pages stringify parse stream (suc n) fuel since rows
        ≡ map (to_event stringify parse) after
  unfolding take
  pages_lem zero since rows [] o e le = refl
  pages_lem zero since rows (x ∷ xs) o e le = absurd (omega (arith, le))
  pages_lem (suc fuel) since rows [] o e le =
      let first =
        read_page_lem stringify parse stream (suc n) since rows
        ∙ ap (λ rs. map (to_event stringify parse) (take (suc n) rs)) e in
      rw (first, read_pages) refl
  pages_lem (suc fuel) since rows (x ∷ xs) o e le =
      let first =
        read_page_lem stringify parse stream (suc n) since rows
        ∙ ap (λ rs. map (to_event stringify parse) (take (suc n) rs)) e in
      let cursor = last_key row_id x (take n xs) in
      let rest =
        rest_after_page row_id ltb ltb_irreflexive ltb_transitive since x n xs
          (rows_of stringify parse stream (suc n) rows)
          (where_passes-IsOrdered row_id ltb ltb_irreflexive ltb_transitive
            (λ row. str_eq row.stream_name stream) rows o)
          e in
      let short = length-drop n xs in
      let later = pages_lem fuel cursor rows (drop n xs) o rest (omega (arith, le)) in
      rw (first, read_pages)
        (ap
            (λ c.
              to_event stringify parse x
              ∷ (map (to_event stringify parse) (take n xs)
                  ++ read_pages stringify parse stream (suc n) fuel c rows))
            (last_event-last_key stringify parse stream (suc n) x (take n xs))
          ∙ ap (λ es. to_event stringify parse x ∷ es)
              (ap (λ es. map (to_event stringify parse) (take n xs) ++ es) later
                ∙ (events_of-append (to_event stringify parse) (take n xs) (drop n xs)
                    ∙ ap (map (to_event stringify parse)) (take-drop n xs))))

  -- In a table with ascending ids and with a positive limit, reading a stream page by page, each
  -- from the id of the last event of the page before until a page is empty, gives exactly the
  -- events of the stream after the first cursor, each once and in their order, and as many pages
  -- as there are rows are enough.
  pub read_pages_complete :
      (fuel since : ℕ) (rows : List StreamRow)
      → IsTable rows
      → length rows ≤ fuel
      → read_pages stringify parse stream (suc n) fuel since rows
        ≡ map
            (to_event stringify parse)
            (where_passes (λ row. str_eq row.stream_name stream && ltb since row.id) rows)
  read_pages_complete fuel since rows o le =
      let named = λ (row : StreamRow). str_eq row.stream_name stream in
      let same = where_passes_and named (λ row. ltb since row.id) rows in
      let short = length-where_passes (λ (row : StreamRow). named row && ltb since row.id) rows in
      pages_lem fuel since rows
        (where_passes (λ row. str_eq row.stream_name stream && ltb since row.id) rows) o (sym same)
        (omega (arith, le))
