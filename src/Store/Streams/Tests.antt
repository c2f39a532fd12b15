-- ===== src/Store/Streams/Tests.antt =====
-- A table with the events of two streams.
use chimpbase.Prelude.{
  ℕ, ◌≡◌, refl, String, Bool, true, false, Option, none, some, List, [], ◌∷◌, ◌++◌, str_eq,
  if◌then◌else◌, arith,
}
use chimpbase.Store.Paging.{where_passes}
use chimpbase.Store.Streams.{StreamRow, stream_append, to_event, stream_read}
use chimpbase.Store.Streams.Reads.{IsTable, read_pages}
use chimpbase.Store.Streams.Appends.{appended}
use chimpbase.Store.Streams.Reads
use chimpbase.Store.Streams.Appends

-- JSON for Booleans.
abbrev stringify : Option Bool → String
stringify none = "null"
stringify (some true) = "true"
stringify (some false) = "false"

abbrev parse : String → Option Bool
parse json =
    if str_eq json "true" then some true else if str_eq json "false" then some false else none

abbrev row_at : ℕ → String → StreamRow
row_at id stream = record {
  id = id;
  stream_name = stream;
  event_name = "added";
  payload_json = "true";
  created_at = 5;
}

abbrev table : List StreamRow
table = row_at 1 "orders" ∷ row_at 2 "users" ∷ row_at 4 "orders" ∷ row_at 5 "orders" ∷ []

two_read :
    stream_read stringify parse "orders" (some 1) (some 1) table
    ≡ to_event stringify parse (row_at 4 "orders") ∷ []
unfolding stream_read
two_read = refl

table-IsTable : IsTable table
table-IsTable = ((refl, (refl, (refl, tt))), ((refl, (refl, tt)), ((refl, tt), (tt, tt))))

read_pages_complete_example :
    read_pages stringify parse "orders" 1 4 1 table
    ≡ to_event stringify parse (row_at 4 "orders")
      ∷ to_event stringify parse (row_at 5 "orders")
      ∷ []
unfolding where_passes
read_pages_complete_example =
    Reads.read_pages_complete stringify parse "orders" 0 4 1 table table-IsTable (omega arith)

append-read_example :
    IsTable (stream_append stringify parse 9 "orders" "paid" (some false) table).1
    × (read_pages stringify parse "orders" 2 5 4
          (stream_append stringify parse 9 "orders" "paid" (some false) table).1
        ≡ read_pages stringify parse "orders" 2 5 4 table
          ++ appended "orders" 9
              (stream_append stringify parse 9 "orders" "paid" (some false) table).0
              "paid"
              (some false)
            ∷ [])
unfolding stream_append
append-read_example =
    Appends.append-read stringify parse "orders" 1 9 5 4 "paid" (some false) table refl
      table-IsTable (omega arith) (omega arith)
