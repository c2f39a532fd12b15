-- ===== src/Blobs/Tables.antt =====
-- The tables `_chimpbase_blobs`, `_chimpbase_blob_uploads` and `_chimpbase_blob_upload_parts`
-- (packages/bun/src/sqlite_adapter.ts). `Metadata` stands for the records of strings that the JSON
-- columns hold. The parts of an upload stay when it is deleted: the adapter does not turn on the
-- foreign keys of SQLite. The lists of blobs and of uploads by prefix are not modelled.
use chimpbase.Prelude.{
  ℕ, String, Bool, true, false, ◌&&◌, not, Option, none, some, List, [], ◌∷◌, ◌++◌, leb, ◌==◌,
  str_eq, map, if◌then◌else◌,
}
use chimpbase.Store.Paging.{where_passes}

pub record BlobMetaRow (Metadata : Type 0) : Type 0 where
  pub bucket : String
  pub key : String
  pub size : ℕ
  pub etag : String
  pub content_type : String
  pub metadata : Metadata
  pub driver_ref : String
  pub created_at : ℕ
  pub updated_at : ℕ

pub record BlobUploadRow (Metadata : Type 0) : Type 0 where
  pub upload_id : String
  pub bucket : String
  pub key : String
  pub content_type : Option String
  pub metadata : Metadata
  pub driver_ref : String
  pub created_at_ms : ℕ
  pub expires_at_ms : ℕ

pub record BlobPartRow : Type 0 where
  pub upload_id : String
  pub part_number : ℕ
  pub size : ℕ
  pub etag : String
  pub driver_ref : String
  pub created_at : ℕ

module _ {Metadata : Type 0} where
  abbrev pub is_blob : String → String → BlobMetaRow Metadata → Bool
  is_blob bucket key row = str_eq row.bucket bucket && str_eq row.key key

  -- An update keeps the time of the creation.
  unfoldable pub blob_put_metadata :
      BlobMetaRow Metadata → List (BlobMetaRow Metadata) → List (BlobMetaRow Metadata)
  blob_put_metadata row [] = row ∷ []
  blob_put_metadata row (r ∷ rows) =
      let rest = blob_put_metadata row rows in
      if is_blob row.bucket row.key r
      then record row { bucket = r.bucket; key = r.key; created_at = r.created_at } ∷ rows
      else r ∷ rest

  unfoldable pub blob_get_metadata :
      String → String → List (BlobMetaRow Metadata) → Option (BlobMetaRow Metadata)
  blob_get_metadata bucket key [] = none
  blob_get_metadata bucket key (r ∷ rows) =
      if is_blob bucket key r then some r else blob_get_metadata bucket key rows

  -- Whether a row was deleted, and the table without it.
  unfoldable pub blob_delete_metadata :
      String → String → List (BlobMetaRow Metadata) → Bool × List (BlobMetaRow Metadata)
  blob_delete_metadata bucket key [] = (false, [])
  blob_delete_metadata bucket key (r ∷ rows) =
      let (deleted, rest) = blob_delete_metadata bucket key rows in
      if is_blob bucket key r then (true, rest) else (deleted, r ∷ rest)

  unfoldable pub blob_init_upload :
      BlobUploadRow Metadata → List (BlobUploadRow Metadata) → List (BlobUploadRow Metadata)
  blob_init_upload row rows = rows ++ row ∷ []

  unfoldable pub blob_get_upload :
      String → List (BlobUploadRow Metadata) → Option (BlobUploadRow Metadata)
  blob_get_upload upload_id [] = none
  blob_get_upload upload_id (r ∷ rows) =
      if str_eq r.upload_id upload_id then some r else blob_get_upload upload_id rows

  -- `DELETE FROM _chimpbase_blob_uploads WHERE upload_id = ?1`
  unfoldable pub blob_abort_upload :
      String → List (BlobUploadRow Metadata) → List (BlobUploadRow Metadata)
  unfolding where_passes
  blob_abort_upload upload_id rows = where_passes (λ r. not (str_eq r.upload_id upload_id)) rows

  -- The ids of the uploads that have expired, and the table without them.
  unfoldable pub blob_gc_expired_uploads :
      ℕ → List (BlobUploadRow Metadata) → List String × List (BlobUploadRow Metadata)
  unfolding where_passes
  blob_gc_expired_uploads now rows = (
    map (λ r. r.upload_id) (where_passes (λ r. leb r.expires_at_ms now) rows),
    where_passes (λ r. not (leb r.expires_at_ms now)) rows,
  )

abbrev pub is_part : String → ℕ → BlobPartRow → Bool
is_part upload_id n row = str_eq row.upload_id upload_id && (row.part_number == n)

unfoldable pub blob_record_part : BlobPartRow → List BlobPartRow → List BlobPartRow
blob_record_part row [] = row ∷ []
blob_record_part row (r ∷ rows) =
    let rest = blob_record_part row rows in
    if is_part row.upload_id row.part_number r then row ∷ rows else r ∷ rest

unfoldable pub insert_row : BlobPartRow → List BlobPartRow → List BlobPartRow
insert_row row [] = row ∷ []
insert_row row (r ∷ rows) =
    let rest = insert_row row rows in
    if leb row.part_number r.part_number then row ∷ r ∷ rows else r ∷ rest

-- `ORDER BY part_number ASC`
unfoldable pub sort_rows : List BlobPartRow → List BlobPartRow
unfolding insert_row
sort_rows [] = []
sort_rows (row ∷ rows) = insert_row row (sort_rows rows)

unfoldable pub blob_list_parts : String → List BlobPartRow → List BlobPartRow
unfolding where_passes sort_rows
blob_list_parts upload_id rows = sort_rows (where_passes (λ r. str_eq r.upload_id upload_id) rows)
