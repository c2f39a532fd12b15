-- ===== src/Blobs/Uploads/Tests.antt =====
-- An upload whose parts come out of order, one of them twice.
use chimpbase.Prelude.{ℕ, ◌≡◌, refl, String, none, some, [], ◌∷◌, arith}
use chimpbase.Prelude.Maps.{get_key}
use chimpbase.Store.Paging.{where_passes}
use chimpbase.Blobs.Memory.{get}
use chimpbase.Blobs.Tables.{BlobUploadRow}
use chimpbase.Blobs.Client.{BlobState}
use chimpbase.Blobs.Tests.{digest, show, empty_state}
use chimpbase.Blobs.Uploads.{write_part, complete}
use chimpbase.Blobs.Uploads.Parts.{Writes}
use chimpbase.Blobs.Uploads.Assembly.{write_all, IsPositive, IsFresh}
use chimpbase.Blobs.Uploads.Completion.{IsCompleted}
use chimpbase.Blobs.Uploads.Completion

abbrev upload : BlobUploadRow ℕ
upload = record {
  upload_id = "u";
  bucket = "pics";
  key = "cat";
  content_type = none;
  metadata = 0;
  driver_ref = "u";
  created_at_ms = 5;
  expires_at_ms = 100;
}

abbrev label : String → String
label text = text

abbrev writes : Writes
writes = (1, 4 ∷ []) ∷ (2, 9 ∷ []) ∷ []

abbrev after_writes : BlobState ℕ
after_writes = write_all digest label show upload ((2, 8 ∷ []) ∷ writes) empty_state

-- Part 1 and then the second version of part 2.
cat_joined :
    get "pics" "cat" none (complete digest label show upload after_writes).1.driver
    ≡ some (4 ∷ 9 ∷ [])
unfolding complete write_part get
cat_joined = refl

empty-IsFresh : IsFresh digest label show upload empty_state
unfolding where_passes get_key
empty-IsFresh = (refl, refl)

writes-IsPositive : IsPositive digest label show upload ((2, 8 ∷ []) ∷ writes)
writes-IsPositive = (omega arith, (omega arith, (omega arith, tt)))

complete-IsCompleted_example :
    IsCompleted digest label show upload 2
      (8 ∷ [])
      writes
      empty_state
      writes-IsPositive
      empty-IsFresh
      (complete digest label show upload after_writes)
complete-IsCompleted_example =
    Completion.complete-IsCompleted digest label show upload 2 (8 ∷ []) writes empty_state
      writes-IsPositive empty-IsFresh
