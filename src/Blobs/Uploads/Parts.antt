-- ===== src/Blobs/Uploads/Parts.antt =====
-- The parts that an upload holds after some writes: their numbers, and the bytes of each.
use chimpbase.Prelude.{
  ℕ, ◌≤◌, ◌≡◌, refl, ap, ◌∙◌, inl, inr, Option, none, some, List, [], ◌∷◌, ◌++◌, map, All, All-map,
  leb, ◌==◌, if◌then◌else◌, or_else, Bool-cases, le→leb, arith,
}
use chimpbase.Blobs.Memory.{Bytes, insert_number, sort_numbers}
use chimpbase.Blobs.Tables.{BlobPartRow, insert_row, sort_rows}

abbrev pub Writes : Type 0
Writes = List (ℕ × Bytes)

-- The bytes that were written last under a number.
abbrev pub later : Option Bytes → Option Bytes → Option Bytes
later (some b) other = some b
later none other = other

abbrev pub last_written : ℕ → Writes → Option Bytes
last_written n [] = none
last_written n ((m, b) ∷ writes) = later (last_written n writes) (if m == n then some b else none)

-- The numbers in the order in which they were first written, after those of `ns`.
abbrev pub note : ℕ → List ℕ → List ℕ
note n [] = n ∷ []
note n (m ∷ ns) = let rest = note n ns in if m == n then m ∷ ns else m ∷ rest

abbrev pub noted : Writes → List ℕ → List ℕ
noted [] ns = ns
noted ((n, b) ∷ writes) ns = noted writes (note n ns)

-- The bytes under the numbers, one after the other.
abbrev pub joined : Writes → List ℕ → Bytes
joined writes [] = []
joined writes (n ∷ ns) = or_else (last_written n writes) [] ++ joined writes ns

pub All-note : (P : ℕ → Type 0) (n : ℕ) (ns : List ℕ) → P n → All P ns → All P (note n ns)
All-note P n [] p h = (p, tt)
All-note P n (m ∷ ns) p h = elim (Bool-cases (m == n)) [
  | inl e ↦ rw e h
  | inr e ↦ rw e (h.0, All-note P n ns p h.1)
]

All-insert : (P : ℕ → Type 0) (n : ℕ) (ns : List ℕ) → P n → All P ns → All P (insert_number n ns)
unfolding insert_number
All-insert P n [] p h = (p, tt)
All-insert P n (m ∷ ns) p h = elim (Bool-cases (leb n m)) [
  | inl e ↦ rw e (p, h)
  | inr e ↦ rw e (h.0, All-insert P n ns p h.1)
]

pub All-sort : (P : ℕ → Type 0) (ns : List ℕ) → All P ns → All P (sort_numbers ns)
unfolding sort_numbers
All-sort P [] h = tt
All-sort P (n ∷ ns) h = All-insert P n (sort_numbers ns) h.0 (All-sort P ns h.1)

-- Sorted lists.
abbrev IsAscending : List ℕ → Type 0
IsAscending [] = Unit
IsAscending (n ∷ ns) = All (λ m. n ≤ m) ns × IsAscending ns

insert-IsAscending : (n : ℕ) (ns : List ℕ) → IsAscending ns → IsAscending (insert_number n ns)
unfolding insert_number
insert-IsAscending n [] h = (tt, tt)
insert-IsAscending n (m ∷ ns) h = elim (Bool-cases (leb n m)) [
  | inl e ↦
      let le : n ≤ m = ground (arith, e) in
      rw e ((le, All-map (λ k. m ≤ k) (λ k. n ≤ k) ns (λ k h'. omega (arith, le, h')) h.0), h)
  | inr e ↦ rw e (All-insert (λ k. m ≤ k) n ns (ground (arith, e)) h.0, insert-IsAscending n ns h.1)
]

sort-IsAscending : (ns : List ℕ) → IsAscending (sort_numbers ns)
unfolding sort_numbers
sort-IsAscending [] = tt
sort-IsAscending (n ∷ ns) = insert-IsAscending n (sort_numbers ns) (sort-IsAscending ns)

sort_ascending : (ns : List ℕ) → IsAscending ns → sort_numbers ns ≡ ns
unfolding sort_numbers insert_number
sort_ascending [] h = refl
sort_ascending (n ∷ ns) h = rw (sort_ascending ns h.1) (first ns h.0)
  where
    first : (ms : List ℕ) → All (λ m. n ≤ m) ms → insert_number n ms ≡ n ∷ ms
    first [] a = refl
    first (m ∷ ms) a = rw (le→leb n m a.0) refl

-- The rows in the order of their numbers have the sorted numbers.
abbrev numbers : List BlobPartRow → List ℕ
numbers rows = map (λ r. r.part_number) rows

numbers-insert :
    (row : BlobPartRow) (rows : List BlobPartRow)
    → numbers (insert_row row rows) ≡ insert_number row.part_number (numbers rows)
unfolding insert_row insert_number
numbers-insert row [] = refl
numbers-insert row (r ∷ rows) = elim (Bool-cases (leb row.part_number r.part_number)) [
  | inl e ↦ rw e refl
  | inr e ↦ rw e (ap (λ ns. r.part_number ∷ ns) (numbers-insert row rows))
]

numbers-sort : (rows : List BlobPartRow) → numbers (sort_rows rows) ≡ sort_numbers (numbers rows)
unfolding sort_rows sort_numbers
numbers-sort [] = refl
numbers-sort (row ∷ rows) =
    numbers-insert row (sort_rows rows) ∙ ap (insert_number row.part_number) (numbers-sort rows)

-- The driver sorts once more, to no effect.
pub sorted_once :
    (rows : List BlobPartRow)
    → sort_numbers (map (λ r. r.part_number) (sort_rows rows))
      ≡ sort_numbers (map (λ r. r.part_number) rows)
sorted_once rows =
    ap sort_numbers (numbers-sort rows)
    ∙ sort_ascending (sort_numbers (numbers rows)) (sort-IsAscending (numbers rows))
