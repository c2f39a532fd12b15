-- ===== src/Store/Streams.antt =====
-- The table `_chimpbase_stream_events` (packages/bun/src/sqlite_adapter.ts), in the order of its ids.
-- `Payload` stands for the values of JavaScript other than null and undefined, and `stringify` and
-- `parse` for `JSON.stringify` and `JSON.parse`, where none is null. A negative limit, with which SQLite
-- reads without a limit, is not modelled.
mod Reads
mod Appends
mod Tests
use chimpbase.Prelude.{
  ℕ, suc, ◌+◌, String, Bool, true, false, ◌&&◌, Option, none, some, List, [], ◌∷◌, ◌++◌, map, ltb,
  str_eq, if◌then◌else◌,
}
use chimpbase.Store.Paging.{where_passes, take}

pub record StreamRow : Type 0 where
  pub id : ℕ
  pub stream_name : String
  pub event_name : String
  pub payload_json : String
  pub created_at : ℕ

pub record StreamEvent (Payload : Type 0) : Type 0 where
  pub created_at : ℕ
  pub event : String
  pub id : ℕ
  pub payload : Option Payload
  pub stream : String

-- The id that SQLite gives a new row: one more than the largest, which is 0 in the empty table.
unfoldable pub next_row_id : List StreamRow → ℕ
next_row_id [] = 1
next_row_id (row ∷ rows) =
    let rest = next_row_id rows in if ltb rest (suc row.id) then suc row.id else rest

-- `options?.sinceId ?? 0` and the like.
abbrev pub or_default : Option ℕ → ℕ → ℕ
or_default none d = d
or_default (some n) d = n

module _ {Payload : Type 0} (stringify : Option Payload → String)
    (parse : String → Option Payload) where
  -- The id of the event, and the table with it.
  unfoldable pub stream_append :
      ℕ → String → String → Option Payload → List StreamRow → ℕ × List StreamRow
  unfolding next_row_id
  stream_append now stream event payload rows =
      let id = next_row_id rows in
      (
        id,
        rows
            ++ record {
              id = id;
              stream_name = stream;
              event_name = event;
              payload_json = stringify payload;
              created_at = now;
            }
              ∷ [],
      )

  abbrev pub to_event : StreamRow → StreamEvent Payload
  to_event row = record {
    created_at = row.created_at;
    event = row.event_name;
    id = row.id;
    payload = parse row.payload_json;
    stream = row.stream_name;
  }

  unfoldable pub stream_read :
      String → Option ℕ → Option ℕ → List StreamRow → List (StreamEvent Payload)
  unfolding where_passes take
  stream_read stream since_id limit rows = map to_event (
      take (or_default limit 100) (
        where_passes (λ row. str_eq row.stream_name stream && ltb (or_default since_id 0) row.id)
          rows))
