-- ===== src/Blobs/Uploads/Assembly.antt =====
-- The blob that an upload in parts becomes.
use chimpbase.Prelude.{
  ℕ, zero, suc, ◌<◌, ◌≡◌, refl, sym, ap, ◌∙◌, inl, inr, String, Bool, true, false, Option, none,
  some, List, [], ◌∷◌, map, length, In, All, leb, ◌==◌, ==_iff, str_eq, eq_refl, if◌then◌else◌,
  or_else, Bool-cases, arith,
}
use chimpbase.Prelude.Result.{ok}
use chimpbase.Prelude.Maps.{get_key, get-set_same}
use chimpbase.Store.Paging.{where_passes}
use chimpbase.Blobs.Memory.{
  Bytes, BlobRecord, Staged, path, get_part, set_part, insert_number, sort_numbers, join_parts,
  stored, put_part,
}
use chimpbase.Blobs.Tables.{BlobUploadRow, BlobPartRow, blob_record_part}
use chimpbase.Blobs.Client.{BlobState}
use chimpbase.Blobs.Uploads.{write_part}
use chimpbase.Blobs.Uploads.Parts.{
  Writes, later, last_written, note, noted, joined, All-sort, All-note,
}

-- The numbers of the parts of an upload.
abbrev pub numbers_of : String → List BlobPartRow → List ℕ
numbers_of id rows = map (λ r. r.part_number) (where_passes (λ r. str_eq r.upload_id id) rows)

numbers-record :
    (row : BlobPartRow) (rows : List BlobPartRow)
    → numbers_of row.upload_id (blob_record_part row rows)
      ≡ note row.part_number (numbers_of row.upload_id rows)
unfolding blob_record_part where_passes
numbers-record row [] = rw (eq_refl row.upload_id) refl
numbers-record row (r ∷ rows) = elim (Bool-cases (str_eq r.upload_id row.upload_id)) [
  | inl mine ↦ elim (Bool-cases (r.part_number == row.part_number)) [
    | inl same ↦
        rw (mine, same, eq_refl row.upload_id)
          (ap (λ n. n ∷ numbers_of row.upload_id rows)
            (sym ((==_iff r.part_number row.part_number).0 same)))
    | inr other ↦ rw (mine, other, mine) (ap (λ ns. r.part_number ∷ ns) (numbers-record row rows))
  ]
  | inr not_mine ↦ rw (not_mine, not_mine) (numbers-record row rows)
]

get-set_part :
    (n m : ℕ) (r : BlobRecord) (staged : Staged)
    → get_part m (set_part n r staged) ≡ (if n == m then some r else get_part m staged)
unfolding get_part set_part
get-set_part n m r [] = refl
get-set_part n m r ((k, s) ∷ staged) = elim (Bool-cases (k == n)) [
  | inl same ↦
      let here = (==_iff k n).0 same in
      rw (same, here) (elim (Bool-cases (n == m)) [ inl e ↦ rw e refl | inr e ↦ rw e refl ])
  | inr other ↦ rw other (elim (Bool-cases (k == m)) [
    | inl e ↦ let apart : (n == m) ≡ false = ground (arith, other, e) in rw (e, apart) refl
    | inr e ↦ rw e (get-set_part n m r staged)
  ])
]

-- The record that a read finds after some writes.
abbrev chosen : (Bytes → String) → Option Bytes → Option BlobRecord → Option BlobRecord
chosen digest (some b) other = some (record { bytes = b; sha256 = digest b })
chosen digest none other = other

chosen-later :
    (digest : Bytes → String) (o : Option Bytes) (here : Bool) (b : Bytes)
    (other : Option BlobRecord)
    → chosen digest o (if here then some (record { bytes = b; sha256 = digest b }) else other)
      ≡ chosen digest (later o (if here then some b else none)) other
chosen-later digest (some c) here b other = refl
chosen-later digest none true b other = refl
chosen-later digest none false b other = refl

-- Every number of a write is written.
IsWritten-In :
    (n : ℕ) (b : Bytes) (writes : Writes)
    → In (n, b) writes
    → (c : Bytes) × (last_written n writes ≡ some c)
IsWritten-In n b [] i = absurd i
IsWritten-In n b ((m, d) ∷ writes) i =
    go (last_written n writes) refl i (λ j. IsWritten-In n b writes j)
  where
    go :
        (o : Option Bytes)
        → last_written n writes ≡ o
        → In (n, b) ((m, d) ∷ writes)
        → (In (n, b) writes → (c : Bytes) × (last_written n writes ≡ some c))
        → (c : Bytes) × (last_written n ((m, d) ∷ writes) ≡ some c)
    go (some c) e j before = (c, rw e refl)
    go none e (inl same) before =
        (d, rw (e, (==_iff m n).1 (sym (ap (λ (w : ℕ × Bytes). w.0) same))) refl)
    go none e (inr j) before = let (c, f) = before j in cc (e, f)

All-noted :
    (P : ℕ → Type 0) (writes : Writes) (ns : List ℕ)
    → ((n : ℕ) (b : Bytes) → In (n, b) writes → P n)
    → All P ns
    → All P (noted writes ns)
All-noted P [] ns each h = h
All-noted P ((n, b) ∷ writes) ns each h =
    All-noted P writes (note n ns) (λ m c i. each m c (inr i))
      (All-note P n ns (each n b (inl refl)) h)

pub noted_there :
    (writes : Writes) (n : ℕ) (ns : List ℕ)
    → (m : ℕ) × (ms : List ℕ) × (noted writes (n ∷ ns) ≡ m ∷ ms)
noted_there [] n ns = (n, ns, refl)
noted_there ((k, b) ∷ writes) n ns = elim (Bool-cases (n == k)) [
  | inl e ↦ rw e (noted_there writes n ns)
  | inr e ↦ rw e (noted_there writes n (note k ns))
]

pub sort_there : (n : ℕ) (ns : List ℕ) → (m : ℕ) × (ms : List ℕ) × (sort_numbers (n ∷ ns) ≡ m ∷ ms)
unfolding sort_numbers insert_number
sort_there n ns = go (sort_numbers ns)
  where
    go : (ks : List ℕ) → (m : ℕ) × (ms : List ℕ) × (insert_number n ks ≡ m ∷ ms)
    go [] = (n, [], refl)
    go (k ∷ ks) = elim (Bool-cases (leb n k)) [
      | inl e ↦ (n, k ∷ ks, rw e refl)
      | inr e ↦ (k, insert_number n ks, rw e refl)
    ]

module _ {Metadata : Type 0} (hash : Bytes → String) (hash_text : String → String)
    (show : ℕ → String) (row : BlobUploadRow Metadata) where
  abbrev pub write_all : Writes → BlobState Metadata → BlobState Metadata
  write_all [] s = s
  write_all ((n, b) ∷ writes) s = write_all writes (write_part hash hash_text show row n b s).1

  abbrev pub IsPositive : Writes → Type 0
  IsPositive writes = All (λ w. 0 < w.0) writes

  abbrev pub staged_of : BlobState Metadata → Staged
  staged_of s = or_else (get_key row.upload_id s.driver.uploads) []

  -- The row of a part.
  abbrev part_of : ℕ → Bytes → BlobState Metadata → BlobPartRow
  part_of n b s = record {
    upload_id = row.upload_id;
    part_number = n;
    size = length b;
    etag = hash b;
    driver_ref = path row.upload_id (show n);
    created_at = s.now;
  }

  pub numbers-write_all :
      (writes : Writes) (s : BlobState Metadata)
      → IsPositive writes
      → numbers_of row.upload_id (write_all writes s).parts
        ≡ noted writes (numbers_of row.upload_id s.parts)
  unfolding write_part
  numbers-write_all [] s p = refl
  numbers-write_all ((zero, b) ∷ writes) s p = absurd (omega (arith, p.0))
  numbers-write_all ((suc n, b) ∷ writes) s p =
      let after = (write_part hash hash_text show row (suc n) b s).1 in
      numbers-write_all writes after p.1
      ∙ ap (noted writes) (numbers-record (part_of (suc n) b s) s.parts)

  staged-write_all :
      (m : ℕ) (writes : Writes) (s : BlobState Metadata)
      → IsPositive writes
      → get_part m (staged_of (write_all writes s))
        ≡ chosen hash (last_written m writes) (get_part m (staged_of s))
  unfolding write_part put_part
  staged-write_all m [] s p = refl
  staged-write_all m ((zero, b) ∷ writes) s p = absurd (omega (arith, p.0))
  staged-write_all m ((suc n, b) ∷ writes) s p =
      let after = (write_part hash hash_text show row (suc n) b s).1 in
      staged-write_all m writes after p.1
      ∙ (ap (chosen hash (last_written m writes)) (
            ap (λ o. get_part m (or_else o []))
              (get-set_same row.upload_id (set_part (suc n) (stored hash show b) (staged_of s))
                s.driver.uploads)
            ∙ get-set_part (suc n) m (stored hash show b) (staged_of s))
          ∙ chosen-later hash (last_written m writes) (suc n == m) b (get_part m (staged_of s)))

  -- The driver keeps the parts of the upload once there is one.
  kept :
      (writes : Writes) (s : BlobState Metadata) (staged : Staged)
      → IsPositive writes
      → get_key row.upload_id s.driver.uploads ≡ some staged
      → get_key row.upload_id (write_all writes s).driver.uploads
        ≡ some (staged_of (write_all writes s))
  unfolding write_part put_part
  kept [] s staged p e = e ∙ ap (λ o. some (or_else o [])) (sym e)
  kept ((zero, b) ∷ writes) s staged p e = absurd (omega (arith, p.0))
  kept ((suc n, b) ∷ writes) s staged p e =
      let next = set_part (suc n) (stored hash show b) (staged_of s) in
      kept writes (write_part hash hash_text show row (suc n) b s).1 next p.1
        (get-set_same row.upload_id next s.driver.uploads)

  pub first_kept :
      (n : ℕ) (b : Bytes) (writes : Writes) (s : BlobState Metadata)
      → IsPositive ((n, b) ∷ writes)
      → get_key row.upload_id (write_all ((n, b) ∷ writes) s).driver.uploads
        ≡ some (staged_of (write_all ((n, b) ∷ writes) s))
  unfolding write_part put_part
  first_kept zero b writes s p = absurd (omega (arith, p.0))
  first_kept (suc n) b writes s p =
      let next = set_part (suc n) (stored hash show b) (staged_of s) in
      kept writes (write_part hash hash_text show row (suc n) b s).1 next p.1
        (get-set_same row.upload_id next s.driver.uploads)

  -- Parts that were all written are joined.
  join_parts_lem :
      (writes : Writes) (staged : Staged) (ns : List ℕ)
      → ((m : ℕ) (b : Bytes)
          → last_written m writes ≡ some b
          → get_part m staged ≡ some (stored hash show b))
      → All (λ n. (b : Bytes) × (last_written n writes ≡ some b)) ns
      → join_parts hash show ns staged ≡ ok (joined writes ns)
  unfolding join_parts
  join_parts_lem writes staged [] find h = refl
  join_parts_lem writes staged (n ∷ ns) find ((b, e), h) =
      rw (e, find n b e, join_parts, join_parts_lem writes staged ns find h) refl

  -- The numbers that were written, in their order.
  abbrev pub sorted_numbers : Writes → List ℕ
  sorted_numbers writes = sort_numbers (noted writes [])

  abbrev pub IsFresh : BlobState Metadata → Type 0
  IsFresh s =
      (where_passes (λ r. str_eq r.upload_id row.upload_id) s.parts ≡ [])
      × (get_key row.upload_id s.driver.uploads ≡ none)

  pub join_written :
      (writes : Writes) (s : BlobState Metadata)
      → IsPositive writes
      → IsFresh s
      → join_parts hash show (sorted_numbers writes) (staged_of (write_all writes s))
        ≡ ok (joined writes (sorted_numbers writes))
  join_written writes s p (no_rows, no_parts) =
      join_parts_lem writes (staged_of (write_all writes s)) (sorted_numbers writes)
        (λ m b e. staged-write_all m writes s p ∙ rw e refl)
        (All-sort (λ n. (b : Bytes) × (last_written n writes ≡ some b)) (noted writes [])
          (All-noted (λ n. (b : Bytes) × (last_written n writes ≡ some b)) writes []
            (λ n b i. IsWritten-In n b writes i) tt))
