-- ===== src/Blobs/Client/Puts.antt =====
-- What a put stores, and when it is refused.
use chimpbase.Prelude.{
  ℕ, ◌≡◌, refl, sym, ap, subst, ◌∙◌, ◌≢◌, inl, inr, String, concat, true, Option, none, some, List,
  [], ◌∷◌, length, eq_iff, eq_refl, or_else, Bool-cases, arith,
}
use chimpbase.Prelude.Result.{Result, ok, err}
use chimpbase.Prelude.Maps.{get-set_same, str_ne}
use chimpbase.Blobs.Memory.{Bytes, blob_key, path, stored, slice_range, put, get}
use chimpbase.Blobs.Tables.{BlobMetaRow, is_blob, blob_put_metadata, blob_get_metadata}
use chimpbase.Blobs.Client.{
  BlobState, BlobError, precondition_failed, PutOptions, BlobMetadata, BlobInfo, truthy, is_allowed,
  assert_bucket, put_precondition, to_metadata, meta_row, store_blob, client_put, client_get,
}

module _ {Metadata : Type 0} where
  -- The time of the creation, which a row that is there keeps.
  abbrev pub created : Option (BlobMetaRow Metadata) → ℕ → ℕ
  created none now = now
  created (some row) now = row.created_at

  is_blob_same :
      (bucket key : String) (row : BlobMetaRow Metadata)
      → is_blob bucket key row ≡ true
      → (row.bucket ≡ bucket) × (row.key ≡ key)
  is_blob_same bucket key row e =
      ((eq_iff row.bucket bucket).0 (ground arith), (eq_iff row.key key).0 (ground arith))

  get-put_metadata :
      (row : BlobMetaRow Metadata) (rows : List (BlobMetaRow Metadata))
      → blob_get_metadata row.bucket row.key (blob_put_metadata row rows)
        ≡ some (record row {
          created_at = created (blob_get_metadata row.bucket row.key rows) row.created_at;
        })
  unfolding blob_get_metadata blob_put_metadata
  get-put_metadata row [] = rw (eq_refl row.bucket, eq_refl row.key) refl
  get-put_metadata row (r ∷ rows) = elim (Bool-cases (is_blob row.bucket row.key r)) [
    | inl e ↦
        let (same_bucket, same_key) = is_blob_same row.bucket row.key r e in
        rw (e, e, same_bucket, same_key) refl
    | inr e ↦ rw (e, e) (get-put_metadata row rows)
  ]

module _ {Metadata : Type 0} (no_metadata : Metadata) (hash : Bytes → String) (show : ℕ → String)
    (buckets : List String) (bucket key : String) where
  -- What a get shows of a blob that was put.
  abbrev pub put_metadata : Bytes → PutOptions Metadata → BlobState Metadata → BlobMetadata Metadata
  put_metadata body options s = record {
    bucket = bucket;
    key = key;
    size = length body;
    etag = hash body;
    content_type = or_else options.content_type "application/octet-stream";
    metadata = or_else options.metadata no_metadata;
    created_at = created (blob_get_metadata bucket key s.blobs) s.now;
    updated_at = s.now;
  }

  abbrev puts :
      Bytes
      → PutOptions Metadata
      → BlobState Metadata
      → Result BlobError BlobInfo × BlobState Metadata
  puts body options s = client_put no_metadata hash show buckets bucket key body options s

  abbrev pub is_forbidden : PutOptions Metadata → BlobState Metadata → Option BlobError
  is_forbidden options s =
      put_precondition bucket key options (blob_get_metadata bucket key s.blobs)

  client_put-stores :
      (body : Bytes) (options : PutOptions Metadata) (s : BlobState Metadata)
      → is_allowed buckets bucket ≡ true
      → is_forbidden options s ≡ none
      → puts body options s ≡ store_blob no_metadata hash show buckets bucket key body options s
  unfolding client_put assert_bucket
  client_put-stores body options s allowed e = rw (allowed, client_put, e) refl

  client_put-refused :
      (body : Bytes) (options : PutOptions Metadata) (s : BlobState Metadata) (error : BlobError)
      → is_allowed buckets bucket ≡ true
      → is_forbidden options s ≡ some error
      → puts body options s ≡ (err error, s)
  unfolding client_put assert_bucket
  client_put-refused body options s error allowed e = rw (allowed, client_put, e) refl

  -- The row of a blob after a put.
  row_put :
      (body : Bytes) (options : PutOptions Metadata) (s : BlobState Metadata)
      → (row : BlobMetaRow Metadata) × (blob_get_metadata bucket key
            (store_blob no_metadata hash show buckets bucket key body options s).1.blobs
          ≡ some row)
        × (to_metadata row ≡ put_metadata body options s)
  unfolding store_blob put
  row_put body options s =
      let row =
        meta_row bucket key (put hash show bucket key body s.driver).0
          (or_else options.content_type "application/octet-stream")
          (or_else options.metadata no_metadata) s.now in
      (
        record row { created_at = created (blob_get_metadata bucket key s.blobs) s.now },
        get-put_metadata row s.blobs,
        refl,
      )

  body_put :
      (body : Bytes) (options : PutOptions Metadata) (s : BlobState Metadata)
      → get bucket key none
          (store_blob no_metadata hash show buckets bucket key body options s).1.driver
        ≡ some body
  unfolding store_blob put get slice_range
  body_put body options s =
      rw (get-set_same (blob_key bucket key) (stored hash show body) s.driver.blobs, get) refl

  -- A get of a blob that is there.
  get_there :
      (s : BlobState Metadata) (row : BlobMetaRow Metadata) (body : Bytes)
      → is_allowed buckets bucket ≡ true
      → blob_get_metadata bucket key s.blobs ≡ some row
      → get bucket key none s.driver ≡ some body
      → client_get no_metadata hash show buckets bucket key none none s
        ≡ (ok (some (record (to_metadata row) { size = length body }, body)), s)
  unfolding client_get assert_bucket
  get_there s row body allowed there held = rw (allowed, client_get, there, held) refl

  -- In a bucket that is allowed and with no precondition against it, a get after a put gives the
  -- bytes that were put, with their number, their digest as the etag, the content type and
  -- metadata of the put or the defaults, and the time of the first put as that of the creation.
  pub put-get :
      (body : Bytes) (options : PutOptions Metadata) (s : BlobState Metadata)
      → is_allowed buckets bucket ≡ true
      → is_forbidden options s ≡ none
      → client_get no_metadata hash show buckets bucket key none none (puts body options s).1
        ≡ (ok (some (put_metadata body options s, body)), (puts body options s).1)
  put-get body options s allowed e =
      let (row, there, shown) = row_put body options s in
      let after = (store_blob no_metadata hash show buckets bucket key body options s).1 in
      subst
        (λ (r : Result BlobError BlobInfo × BlobState Metadata).
          client_get no_metadata hash show buckets bucket key none none r.1
          ≡ (ok (some (put_metadata body options s, body)), r.1))
        (sym (client_put-stores body options s allowed e))
        (get_there after row body allowed there (body_put body options s)
          ∙ ap
              (λ (m : BlobMetadata Metadata).
                (ok (some (record m { size = length body }, body)), after))
              shown)

  -- The etag of a blob after a put.
  etag_put :
      (body : Bytes) (options : PutOptions Metadata) (s : BlobState Metadata)
      → is_allowed buckets bucket ≡ true
      → is_forbidden options s ≡ none
      → (row : BlobMetaRow Metadata) × (blob_get_metadata bucket key (puts body options s).1.blobs
          ≡ some row)
        × (row.etag ≡ hash body)
  etag_put body options s allowed e =
      let (row, there, shown) = row_put body options s in
      (
        row,
        ap
              (λ (r : Result BlobError BlobInfo × BlobState Metadata).
                blob_get_metadata bucket key r.1.blobs)
              (client_put-stores body options s allowed e)
            ∙ there,
        ap (λ (m : BlobMetadata Metadata). m.etag) shown,
      )

  create_only :
      (options : PutOptions Metadata) (row : BlobMetaRow Metadata)
      → options.if_none_match ≡ some "*"
      → put_precondition bucket key options (some row)
        ≡ some (precondition_failed (concat "blob " (concat (path bucket key) " already exists")))
  unfolding put_precondition
  create_only options row star = rw (star, put_precondition) refl

  other_etag :
      (options : PutOptions Metadata) (row : BlobMetaRow Metadata) (etag : String)
      → options.if_none_match ≡ none
      → truthy options.if_match ≡ some etag
      → row.etag ≢ etag
      → put_precondition bucket key options (some row)
        ≡ some (precondition_failed (concat "blob " (concat (path bucket key) " etag mismatch")))
  unfolding put_precondition
  other_etag options row etag any given differ =
      rw (any, given, put_precondition, str_ne row.etag etag differ) refl

  same_etag :
      (options : PutOptions Metadata) (row : BlobMetaRow Metadata) (etag : String)
      → options.if_none_match ≡ none
      → truthy options.if_match ≡ some etag
      → row.etag ≡ etag
      → put_precondition bucket key options (some row) ≡ none
  unfolding put_precondition
  same_etag options row etag any given same =
      rw (any, given, put_precondition, same, eq_refl etag) refl

  -- What a later put with conditions does.
  pub record IsGuarded (body' : Bytes) (options' : PutOptions Metadata) (etag : String)
      (s : BlobState Metadata) : Type 0 where
    pub exists_already :
        options'.if_none_match ≡ some "*"
        → puts body' options' s ≡ (
          err (precondition_failed (concat "blob " (concat (path bucket key) " already exists"))),
          s,
        )
    pub changed_meanwhile :
        (etag' : String)
        → options'.if_none_match ≡ none
        → truthy options'.if_match ≡ some etag'
        → etag ≢ etag'
        → puts body' options' s ≡ (
          err (precondition_failed (concat "blob " (concat (path bucket key) " etag mismatch"))),
          s,
        )
    pub unchanged :
        options'.if_none_match ≡ none
        → truthy options'.if_match ≡ some etag
        → puts body' options' s
          ≡ store_blob no_metadata hash show buckets bucket key body' options' s

  -- After a put that was stored, a second put to the key with ifNoneMatch "*" throws and changes
  -- nothing, one with an ifMatch other than the etag of the first throws and changes nothing, and
  -- one with that etag is stored.
  pub put-IsGuarded :
      (body body' : Bytes) (options options' : PutOptions Metadata) (s : BlobState Metadata)
      → is_allowed buckets bucket ≡ true
      → is_forbidden options s ≡ none
      → IsGuarded body' options' (hash body) (puts body options s).1
  put-IsGuarded body body' options options' s allowed e =
      let (row, there, etag) = etag_put body options s allowed e in
      let after = (puts body options s).1 in
      let found = ap (put_precondition bucket key options') there in
      record {
        exists_already = λ star.
            client_put-refused body' options' after
              (precondition_failed (concat "blob " (concat (path bucket key) " already exists")))
              allowed (found ∙ create_only options' row star);
        changed_meanwhile = λ etag' any given differ.
            client_put-refused body' options' after
              (precondition_failed (concat "blob " (concat (path bucket key) " etag mismatch")))
              allowed
              (found ∙ other_etag options' row etag' any given (λ same. differ (sym etag ∙ same)));
        unchanged = λ any given.
            client_put-stores body' options' after allowed
              (found ∙ same_etag options' row (hash body) any given etag);
      }
