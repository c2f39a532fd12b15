-- ===== src/Blobs/Memory.antt =====
-- The driver of packages/blobs/src/memory_driver.ts. The stream of a body is the list of its bytes.
-- `hash` stands for the digest of `node:crypto`.
use chimpbase.Prelude.{
  ℕ, ◌+◌, ◌-◌, String, concat, Option, none, some, List, [], ◌∷◌, ◌++◌, length, leb, ◌==◌,
  if◌then◌else◌, or_else,
}
use chimpbase.Prelude.Result.{Result, ok, err, ◌>>=◌}
use chimpbase.Prelude.Maps.{Map, get_key, set_key, delete_key}
use chimpbase.Store.Paging.{take, drop}

abbrev pub Bytes : Type 0
Bytes = List ℕ

pub record BlobRecord : Type 0 where
  pub bytes : Bytes
  pub sha256 : String

-- A `Map` with numbers for keys.
abbrev pub Staged : Type 0
Staged = List (ℕ × BlobRecord)

pub record MemoryDriver : Type 0 where
  pub blobs : Map BlobRecord
  pub uploads : Map Staged

pub record PutResult : Type 0 where
  pub driver_ref : String
  pub size : ℕ
  pub sha256 : String

pub record BlobRange : Type 0 where
  pub start : ℕ
  pub end : Option ℕ

abbrev pub blob_key : String → String → String
blob_key bucket key = concat bucket (concat "\0" key)

unfoldable pub get_part : ℕ → Staged → Option BlobRecord
get_part n [] = none
get_part n ((m, r) ∷ staged) = if m == n then some r else get_part n staged

unfoldable pub set_part : ℕ → BlobRecord → Staged → Staged
set_part n r [] = (n, r) ∷ []
set_part n r ((m, s) ∷ staged) =
    let rest = set_part n r staged in if m == n then (m, r) ∷ staged else (m, s) ∷ rest

unfoldable pub insert_number : ℕ → List ℕ → List ℕ
insert_number n [] = n ∷ []
insert_number n (m ∷ ms) = let rest = insert_number n ms in if leb n m then n ∷ m ∷ ms else m ∷ rest

-- `parts.slice().sort((a, b) => a.partNumber - b.partNumber)`
unfoldable pub sort_numbers : List ℕ → List ℕ
unfolding insert_number
sort_numbers [] = []
sort_numbers (n ∷ ns) = insert_number n (sort_numbers ns)

unfoldable pub slice_range : Bytes → Option BlobRange → Bytes
unfolding take drop
slice_range bytes none = bytes
slice_range bytes (some range) =
    let end_exclusive : ℕ = elim range.end [
      | none ↦ length bytes
      | some e ↦ if leb (e + 1) (length bytes) then e + 1 else length bytes
    ] in
    if leb end_exclusive range.start
    then []
    else take (end_exclusive - range.start) (drop range.start bytes)

abbrev pub path : String → String → String
path a b = concat a (concat "/" b)

-- `show` writes a number in decimal, as a template string does.
module _ (hash : Bytes → String) (show : ℕ → String) where
  abbrev pub stored : Bytes → BlobRecord
  stored bytes = record { bytes = bytes; sha256 = hash bytes }

  unfoldable pub put : String → String → Bytes → MemoryDriver → PutResult × MemoryDriver
  unfolding set_key
  put bucket key body d = (
    record { driver_ref = path bucket key; size = length body; sha256 = hash body },
    record d { blobs = set_key (blob_key bucket key) (stored body) d.blobs },
  )

  unfoldable pub put_part : String → ℕ → Bytes → MemoryDriver → PutResult × MemoryDriver
  unfolding get_key set_key set_part
  put_part upload_id part_number body d =
      let parts : Staged = or_else (get_key upload_id d.uploads) [] in
      (
        record {
          driver_ref = path upload_id (show part_number);
          size = length body;
          sha256 = hash body;
        },
        record d {
          uploads = set_key upload_id (set_part part_number (stored body) parts) d.uploads;
        },
      )

  -- The bytes of the parts one after the other.
  unfoldable pub join_parts : List ℕ → Staged → Result String Bytes
  unfolding get_part
  join_parts [] staged = ok []
  join_parts (n ∷ numbers) staged = elim (get_part n staged) [
    | none ↦ err (concat "memory driver assemble missing part " (show n))
    | some r ↦ join_parts numbers staged >>= (λ rest. ok (r.bytes ++ rest))
  ]

  unfoldable pub assemble :
      String → List ℕ → String → String → MemoryDriver → Result String PutResult × MemoryDriver
  unfolding get_key set_key delete_key sort_numbers join_parts
  assemble upload_id parts bucket key d = elim (get_key upload_id d.uploads) [
    | none ↦ (err (concat "memory driver assemble missing upload " upload_id), d)
    | some staged ↦ elim (join_parts (sort_numbers parts) staged) [
      | err e ↦ (err e, d)
      | ok out ↦ (
        ok (record { driver_ref = path bucket key; size = length out; sha256 = hash out }),
        record {
          blobs = set_key (blob_key bucket key) (stored out) d.blobs;
          uploads = delete_key upload_id d.uploads;
        },
      )
    ]
  ]

  unfoldable pub copy :
      String × String → String × String → MemoryDriver → Result String PutResult × MemoryDriver
  unfolding get_key set_key
  copy (src_bucket, src_key) (dst_bucket, dst_key) d =
      elim (get_key (blob_key src_bucket src_key) d.blobs) [
        | none ↦ (err (concat "memory driver copy missing source " (path src_bucket src_key)), d)
        | some r ↦ (
          ok (record {
            driver_ref = path dst_bucket dst_key;
            size = length r.bytes;
            sha256 = r.sha256;
          }),
          record d { blobs = set_key (blob_key dst_bucket dst_key) r d.blobs },
        )
      ]

-- The bytes in the range, if the blob is there; the size is their number.
unfoldable pub get : String → String → Option BlobRange → MemoryDriver → Option Bytes
unfolding get_key slice_range
get bucket key range d = elim (get_key (blob_key bucket key) d.blobs) [
  | none ↦ none
  | some r ↦ some (slice_range r.bytes range)
]

unfoldable pub delete : String → String → MemoryDriver → MemoryDriver
unfolding delete_key
delete bucket key d = record d { blobs = delete_key (blob_key bucket key) d.blobs }

unfoldable pub abort_upload : String → MemoryDriver → MemoryDriver
unfolding delete_key
abort_upload upload_id d = record d { uploads = delete_key upload_id d.uploads }
