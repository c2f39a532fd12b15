-- ===== src/Blobs/Uploads.antt =====
-- Uploads in parts: `createUpload`, `resumeUpload` and the upload that `buildUpload` makes
-- (packages/core/engine.ts). The random id is an argument, and `hash_text` stands for the digest of a
-- text in hexadecimal.
mod Parts
mod Assembly
mod Completion
mod Tests
use chimpbase.Prelude.{
  ℕ, zero, suc, ◌+◌, ◌*◌, String, concat, Bool, true, false, Option, none, some, List, [], ◌∷◌,
  ◌++◌, map, length, or_else,
}
use chimpbase.Prelude.Result.{Result, ok, err}
use chimpbase.Blobs.Memory.{Bytes, MemoryDriver, PutResult, put_part, assemble, abort_upload}
use chimpbase.Blobs.Tables.{
  BlobUploadRow, BlobPartRow, blob_put_metadata, blob_init_upload, blob_get_upload,
  blob_abort_upload, blob_record_part, blob_list_parts,
}
use chimpbase.Blobs.Client.{BlobState, BlobError, failed, BlobInfo, Call, assert_bucket, meta_row}

pub record UploadOptions (Metadata : Type 0) : Type 0 where
  pub content_type : Option String
  pub metadata : Option Metadata
  pub ttl_ms : Option ℕ

pub record PartInfo : Type 0 where
  pub etag : String
  pub size : ℕ

-- `etags.join("")`
unfoldable pub join_texts : List String → String
join_texts [] = ""
join_texts (t ∷ texts) = concat t (join_texts texts)

abbrev pub composite_etag : (String → String) → (ℕ → String) → List BlobPartRow → String
composite_etag hash_text show parts =
    concat (hash_text (join_texts (map (λ part. part.etag) parts)))
      (concat "-" (show (length parts)))

module _ {Metadata : Type 0} (no_metadata : Metadata) (buckets : List String) where
  -- A lifetime of one day by default.
  unfoldable pub create_upload :
      String → String → String → UploadOptions Metadata → Call Metadata (BlobUploadRow Metadata)
  unfolding assert_bucket blob_init_upload
  create_upload upload_id bucket key options = assert_bucket buckets bucket (λ s.
      let row : BlobUploadRow Metadata = record {
        upload_id = upload_id;
        bucket = bucket;
        key = key;
        content_type = options.content_type;
        metadata = or_else options.metadata no_metadata;
        driver_ref = upload_id;
        created_at_ms = s.now;
        expires_at_ms = s.now + or_else options.ttl_ms (24 * 60 * 60 * 1000);
      } in
      (ok row, record s { uploads = blob_init_upload row s.uploads }))

module _ {Metadata : Type 0} where
  unfoldable pub resume_upload : String → Call Metadata (BlobUploadRow Metadata)
  unfolding blob_get_upload
  resume_upload upload_id s = elim (blob_get_upload upload_id s.uploads) [
    | none ↦ (err (failed (concat "upload " (concat upload_id " not found"))), s)
    | some row ↦ (ok row, s)
  ]

  unfoldable pub abort : BlobUploadRow Metadata → Call Metadata Unit
  unfolding abort_upload blob_abort_upload
  abort row s = (
    ok tt,
    record s {
      driver = abort_upload row.upload_id s.driver;
      uploads = blob_abort_upload row.upload_id s.uploads;
    },
  )

  unfoldable pub list_parts : BlobUploadRow Metadata → BlobState Metadata → List BlobPartRow
  unfolding blob_list_parts
  list_parts row s = blob_list_parts row.upload_id s.parts

module _ {Metadata : Type 0} (hash : Bytes → String) (hash_text : String → String)
    (show : ℕ → String) where
  unfoldable pub write_part : BlobUploadRow Metadata → ℕ → Bytes → Call Metadata PartInfo
  unfolding put_part blob_record_part
  write_part row zero body s = (err (failed "partNumber must be a positive integer"), s)
  write_part row (suc n) body s =
      let (result, driver') = put_part hash show row.upload_id (suc n) body s.driver in
      let part : BlobPartRow = record {
        upload_id = row.upload_id;
        part_number = suc n;
        size = result.size;
        etag = result.sha256;
        driver_ref = result.driver_ref;
        created_at = s.now;
      } in
      (
        ok (record { etag = result.sha256; size = result.size }),
        record s { driver = driver'; parts = blob_record_part part s.parts },
      )

  -- What is stored of the assembled blob, or the error of the driver.
  unfoldable pub finalize :
      BlobUploadRow Metadata
      → List BlobPartRow
      → Result String PutResult × MemoryDriver
      → Call Metadata BlobInfo
  unfolding blob_put_metadata blob_abort_upload
  finalize row parts (err e, driver') s = (err (failed e), record s { driver = driver' })
  finalize row parts (ok assembled, driver') s =
      let result : PutResult = record assembled { sha256 = composite_etag hash_text show parts } in
      (
        ok (record {
          bucket = row.bucket;
          key = row.key;
          size = assembled.size;
          etag = composite_etag hash_text show parts;
        }),
        record s {
          driver = driver';
          blobs =
              blob_put_metadata
                (meta_row row.bucket row.key result
                  (or_else row.content_type "application/octet-stream") row.metadata s.now)
                s.blobs;
          uploads = blob_abort_upload row.upload_id s.uploads;
        },
      )

  abbrev pub complete_with : BlobUploadRow Metadata → List BlobPartRow → Call Metadata BlobInfo
  complete_with row [] s =
      (err (failed (concat "upload " (concat row.upload_id " has no parts"))), s)
  complete_with row (part ∷ parts) s =
      finalize row (part ∷ parts)
        (assemble hash show row.upload_id (map (λ p. p.part_number) (part ∷ parts)) row.bucket
          row.key s.driver)
        s

  unfoldable pub complete : BlobUploadRow Metadata → Call Metadata BlobInfo
  unfolding list_parts assemble finalize
  complete row s = complete_with row (list_parts row s) s
