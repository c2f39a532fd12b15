-- ===== src/Blobs/Client.antt =====
-- `createBlobsClient` (packages/core/engine.ts) over the tables of the adapter and the driver that keeps
-- the bytes in memory, whose `ensureBucket` does nothing and is left out. A header that is an empty string
-- counts as none. Telemetry, lists and signed URLs are left out.
mod Puts
mod Tests
use chimpbase.Prelude.{
  ℕ, suc, ◌+◌, String, concat, Bool, true, false, not, ◌&&◌, ◌||◌, Option, none, some, List, [],
  ◌∷◌, ◌++◌, length, str_eq, if◌then◌else◌, or_else,
}
use chimpbase.Prelude.Result.{Result, ok, err}
use chimpbase.Prelude.Maps.{includes}
use chimpbase.Blobs.Memory.{Bytes, MemoryDriver, PutResult, BlobRange, path, put, get, delete, copy}
use chimpbase.Blobs.Tables.{
  BlobMetaRow, BlobUploadRow, BlobPartRow, blob_put_metadata, blob_get_metadata,
  blob_delete_metadata,
}

-- What the client reads and changes: the tables, the driver's maps, and the time.
pub record BlobState (Metadata : Type 0) : Type 0 where
  pub blobs : List (BlobMetaRow Metadata)
  pub uploads : List (BlobUploadRow Metadata)
  pub parts : List BlobPartRow
  pub driver : MemoryDriver
  pub now : ℕ

pub data BlobError : Type 0 where
  failed : String → BlobError
  precondition_failed : String → BlobError
  not_modified : String → BlobError

pub record PutOptions (Metadata : Type 0) : Type 0 where
  pub if_match : Option String
  pub if_none_match : Option String
  pub content_type : Option String
  pub metadata : Option Metadata

pub record BlobMetadata (Metadata : Type 0) : Type 0 where
  pub bucket : String
  pub key : String
  pub size : ℕ
  pub etag : String
  pub content_type : String
  pub metadata : Metadata
  pub created_at : ℕ
  pub updated_at : ℕ

pub record BlobInfo : Type 0 where
  pub bucket : String
  pub key : String
  pub size : ℕ
  pub etag : String

-- A string that is not empty.
abbrev pub truthy : Option String → Option String
truthy none = none
truthy (some s) = if str_eq s "" then none else some s

abbrev pub Call : Type 0 → Type 0 → Type 0
Call Metadata A = BlobState Metadata → Result BlobError A × BlobState Metadata

abbrev pub is_none : {A : Type 0} → Option A → Bool
is_none none = true
is_none (some a) = false

-- `buckets` are those of the configuration; none of them means that all are allowed.
abbrev pub is_allowed : List String → String → Bool
is_allowed [] bucket = true
is_allowed (b ∷ buckets) bucket = includes bucket (b ∷ buckets)

module _ {Metadata A : Type 0} where
  -- `assertBucket`, and the rest of the call.
  unfoldable pub assert_bucket : List String → String → Call Metadata A → Call Metadata A
  assert_bucket buckets bucket rest s =
      if is_allowed buckets bucket
      then rest s
      else (err (failed (concat "unknown blob bucket: " bucket)), s)

module _ {Metadata : Type 0} where
  abbrev pub has_etag : String → Option (BlobMetaRow Metadata) → Bool
  has_etag etag none = false
  has_etag etag (some row) = str_eq row.etag etag

  -- `ifMatch && (!existing || existing.etag !== ifMatch)`
  abbrev pub mismatches : Option String → Option (BlobMetaRow Metadata) → Bool
  mismatches none existing = false
  mismatches (some etag) existing = not (has_etag etag existing)

  -- `ifNoneMatch === "*" && existing`
  abbrev pub collides : Option String → Option (BlobMetaRow Metadata) → Bool
  collides none existing = false
  collides (some tag) existing = str_eq tag "*" && not (is_none existing)

  -- What forbids a put, if something does.
  unfoldable pub put_precondition :
      String → String → PutOptions Metadata → Option (BlobMetaRow Metadata) → Option BlobError
  put_precondition bucket key options existing =
      if collides options.if_none_match existing
      then some (precondition_failed (concat "blob " (concat (path bucket key) " already exists")))
      else if mismatches (truthy options.if_match) existing
      then some (precondition_failed (concat "blob " (concat (path bucket key) " etag mismatch")))
      else none

  abbrev pub to_metadata : BlobMetaRow Metadata → BlobMetadata Metadata
  to_metadata row = record {
    bucket = row.bucket;
    key = row.key;
    size = row.size;
    etag = row.etag;
    content_type = row.content_type;
    metadata = row.metadata;
    created_at = row.created_at;
    updated_at = row.updated_at;
  }

  abbrev pub meta_row : String → String → PutResult → String → Metadata → ℕ → BlobMetaRow Metadata
  meta_row bucket key result content_type metadata now = record {
    bucket = bucket;
    key = key;
    size = result.size;
    etag = result.sha256;
    content_type = content_type;
    metadata = metadata;
    driver_ref = result.driver_ref;
    created_at = now;
    updated_at = now;
  }

module _ {Metadata : Type 0} (no_metadata : Metadata) (hash : Bytes → String) (show : ℕ → String)
    (buckets : List String) where
  unfoldable pub store_blob : String → String → Bytes → PutOptions Metadata → Call Metadata BlobInfo
  unfolding put blob_put_metadata
  store_blob bucket key body options s =
      let (result, driver') = put hash show bucket key body s.driver in
      (
        ok (record { bucket = bucket; key = key; size = result.size; etag = result.sha256 }),
        record s {
          driver = driver';
          blobs =
              blob_put_metadata
                (meta_row bucket key result
                  (or_else options.content_type "application/octet-stream")
                  (or_else options.metadata no_metadata) s.now)
                s.blobs;
        },
      )

  unfoldable pub client_put : String → String → Bytes → PutOptions Metadata → Call Metadata BlobInfo
  unfolding assert_bucket blob_get_metadata put_precondition store_blob
  client_put bucket key body options = assert_bucket buckets bucket (λ s.
      elim (put_precondition bucket key options (blob_get_metadata bucket key s.blobs)) [
        | some e ↦ (err e, s)
        | none ↦ store_blob bucket key body options s
      ])

  -- The metadata with the size and the bytes that the driver gives.
  unfoldable pub client_get :
      String
      → String
      → Option String
      → Option BlobRange
      → Call Metadata (Option (BlobMetadata Metadata × Bytes))
  unfolding assert_bucket blob_get_metadata get
  client_get bucket key if_none_match range = assert_bucket buckets bucket (λ s.
      elim (blob_get_metadata bucket key s.blobs) [
        | none ↦ (ok none, s)
        | some row ↦
            if not (is_none (truthy if_none_match)) && str_eq (or_else if_none_match "") row.etag
            then (err (not_modified (concat "blob " (concat (path bucket key) " not modified"))), s)
            else elim (get bucket key range s.driver) [
              | none ↦ (ok none, s)
              | some body ↦ (ok (some (record (to_metadata row) { size = length body }, body)), s)
            ]
      ])

  unfoldable pub client_head : String → String → Call Metadata (Option (BlobMetadata Metadata))
  unfolding assert_bucket blob_get_metadata
  client_head bucket key = assert_bucket buckets bucket (λ s.
      elim (blob_get_metadata bucket key s.blobs) [
        | none ↦ (ok none, s)
        | some row ↦ (ok (some (to_metadata row)), s)
      ])

  abbrev pub remove_blob : String → String → Call Metadata Bool
  remove_blob bucket key s =
      let (deleted, blobs') = blob_delete_metadata bucket key s.blobs in
      (ok deleted, record s { driver = delete bucket key s.driver; blobs = blobs' })

  unfoldable pub client_delete : String → String → Call Metadata Bool
  unfolding assert_bucket blob_get_metadata blob_delete_metadata delete
  client_delete bucket key = assert_bucket buckets bucket (λ s.
      elim (blob_get_metadata bucket key s.blobs) [
        | none ↦ (ok false, s)
        | some row ↦ remove_blob bucket key s
      ])

  -- The row of the copy, or the error of the driver.
  abbrev copied :
      String
      → String
      → BlobMetaRow Metadata
      → Option String
      → Option Metadata
      → BlobState Metadata
      → Result String PutResult × MemoryDriver
      → Result BlobError BlobInfo × BlobState Metadata
  copied bucket key row content_type metadata s (err e, driver') =
      (err (failed e), record s { driver = driver' })
  copied bucket key row content_type metadata s (ok result, driver') = (
    ok (record { bucket = bucket; key = key; size = result.size; etag = result.sha256 }),
    record s {
      driver = driver';
      blobs =
          blob_put_metadata
            (meta_row bucket key result (or_else content_type row.content_type)
              (or_else metadata row.metadata) s.now)
            s.blobs;
    },
  )

  unfoldable pub client_copy :
      String × String → String × String → Option String → Option Metadata → Call Metadata BlobInfo
  unfolding assert_bucket blob_get_metadata copy blob_put_metadata
  client_copy (src_bucket, src_key) (bucket, key) content_type metadata =
      assert_bucket buckets src_bucket (
        assert_bucket buckets bucket (λ s. elim (blob_get_metadata src_bucket src_key s.blobs) [
          | none ↦ (
            err (failed (concat "source blob " (concat (path src_bucket src_key) " not found"))),
            s,
          )
          | some row ↦
              copied bucket key row content_type metadata s
                (copy hash show (src_bucket, src_key) (bucket, key) s.driver)
        ]))
