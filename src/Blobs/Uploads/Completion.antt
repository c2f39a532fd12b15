-- ===== src/Blobs/Uploads/Completion.antt =====
-- What a completed upload leaves.
use chimpbase.Prelude.{
  ℕ, ◌≡◌, refl, sym, ap, subst, ◌∙◌, String, none, some, List, [], ◌∷◌, map, length, str_eq,
}
use chimpbase.Prelude.Result.{Result, ok}
use chimpbase.Prelude.Maps.{set_key, delete_key, get-set_same}
use chimpbase.Store.Paging.{where_passes}
use chimpbase.Blobs.Memory.{
  Bytes, MemoryDriver, PutResult, blob_key, path, sort_numbers, stored, assemble, get, slice_range,
}
use chimpbase.Blobs.Tables.{BlobUploadRow, BlobPartRow, blob_list_parts}
use chimpbase.Blobs.Client.{BlobState, BlobError, BlobInfo}
use chimpbase.Blobs.Uploads.{list_parts, finalize, complete_with, complete, composite_etag}
use chimpbase.Blobs.Uploads.Parts.{Writes, noted, joined, sorted_once}
use chimpbase.Blobs.Uploads.Assembly.{
  noted_there, sort_there, write_all, IsPositive, numbers-write_all, first_kept, sorted_numbers,
  IsFresh, join_written,
}

module _ {Metadata : Type 0} (hash : Bytes → String) (hash_text : String → String)
    (show : ℕ → String) (row : BlobUploadRow Metadata) (n : ℕ) (b : Bytes) (writes : Writes)
    (s : BlobState Metadata) (positive : IsPositive hash hash_text show row ((n, b) ∷ writes))
    (fresh : IsFresh hash hash_text show row s) where
  abbrev pub all_writes : Writes
  all_writes = (n, b) ∷ writes

  abbrev pub written : BlobState Metadata
  written = write_all hash hash_text show row all_writes s

  abbrev pub body : Bytes
  body = joined all_writes (sorted_numbers hash hash_text show row all_writes)

  listed :
      sort_numbers (map (λ r. r.part_number) (list_parts row written))
      ≡ sorted_numbers hash hash_text show row all_writes
  unfolding list_parts blob_list_parts
  listed =
      sorted_once (where_passes (λ r. str_eq r.upload_id row.upload_id) written.parts)
      ∙ ap sort_numbers (
          numbers-write_all hash hash_text show row all_writes s positive
          ∙ ap (λ rows. noted all_writes (map (λ r. r.part_number) rows)) fresh.0)

  assembled :
      (numbers : List ℕ)
      → sort_numbers numbers ≡ sorted_numbers hash hash_text show row all_writes
      → assemble hash show row.upload_id numbers row.bucket row.key written.driver ≡ (
        ok (record {
          driver_ref = path row.bucket row.key;
          size = length body;
          sha256 = hash body;
        }),
        record {
          blobs =
              set_key (blob_key row.bucket row.key) (stored hash show body) written.driver.blobs;
          uploads = delete_key row.upload_id written.driver.uploads;
        },
      )
  unfolding assemble
  assembled numbers same =
      rw
        (
          first_kept hash hash_text show row n b writes s positive,
          assemble,
          same,
          join_written hash hash_text show row all_writes s positive fresh,
        )
        refl

  -- A call that returns, after which the blob has the bytes of the parts.
  abbrev pub IsCompleted : Result BlobError BlobInfo × BlobState Metadata → Type 0
  IsCompleted out =
      (info : BlobInfo) × (out.0 ≡ ok info)
      × (info.size ≡ length body)
      × (get row.bucket row.key none out.1.driver ≡ some body)

  not_empty : sorted_numbers hash hash_text show row all_writes ≡ [] → ⊥
  not_empty e =
      let (m, ms, noted_so) = noted_there writes n [] in
      let (k, ks, sorted) = sort_there m ms in cc (e, noted_so, sorted)

  completed :
      (parts : List BlobPartRow)
      → list_parts row written ≡ parts
      → IsCompleted (complete_with hash hash_text show row parts written)
  unfolding finalize get slice_range sort_numbers
  completed [] e =
      absurd
        (not_empty (sym (ap (λ ps. sort_numbers (map (λ r. r.part_number) ps)) (sym e) ∙ listed)))
  completed (part ∷ parts) e =
      let result =
        assembled (map (λ r. r.part_number) (part ∷ parts))
          (ap (λ ps. sort_numbers (map (λ r. r.part_number) ps)) (sym e) ∙ listed) in
      subst
        (λ (r : Result String PutResult × MemoryDriver).
          IsCompleted (finalize hash hash_text show row (part ∷ parts) r written))
        (sym result)
        (
          record {
            bucket = row.bucket;
            key = row.key;
            size = length body;
            etag = composite_etag hash_text show (part ∷ parts);
          },
          refl,
          refl,
          rw
              (
                get-set_same (blob_key row.bucket row.key) (stored hash show body)
                    written.driver.blobs,
                get,
              )
              refl,
        )

  -- If an upload without parts receives some, in any order, with positive numbers and perhaps the
  -- same number several times, complete returns, and the blob that it leaves in the driver is the
  -- concatenation, in the order of the numbers, of the bytes that were last written under each.
  pub complete-IsCompleted : IsCompleted (complete hash hash_text show row written)
  unfolding complete
  complete-IsCompleted = completed (list_parts row written) refl
