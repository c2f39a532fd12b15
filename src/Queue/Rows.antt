-- ===== src/Queue/Rows.antt =====
-- The table as a map from ids to rows, and its order.
use chimpbase.Prelude.{
  ℕ, ◌<◌, ◌≡◌, sym, ap, inl, inr, String, Option, none, some, [], ◌∷◌, ◌++◌, In, All, All-In, arith,
  ◌==◌, Bool-cases, if◌then◌else◌,
}
use chimpbase.Prelude.Int.{ℤ}
use chimpbase.Queue.{Payload, QueueJob, JobTable, next_id, queue_enqueue, update_job}

-- The ids rise along the table.
abbrev pub IsOrdered : JobTable → Type 0
IsOrdered [] = Unit
IsOrdered (row ∷ rows) = All (λ r. row.id < r.id) rows × IsOrdered rows

unfoldable pub get_job : ℕ → JobTable → Option QueueJob
get_job id [] = none
get_job id (row ∷ rows) = if row.id == id then some row else get_job id rows

abbrev pub map_job : (QueueJob → QueueJob) → Option QueueJob → Option QueueJob
map_job f none = none
map_job f (some row) = some (f row)

-- An update by id changes the row of that id and no other.
pub get_job-update_job :
    (f : QueueJob → QueueJob) (keeps_id : (row : QueueJob) → (f row).id ≡ row.id) (id i : ℕ)
    (rows : JobTable)
    → get_job i (update_job id f rows)
      ≡ (if i == id then map_job f (get_job i rows) else get_job i rows)
unfolding get_job update_job
get_job-update_job f keeps_id id i [] = ground arith
get_job-update_job f keeps_id id i (row ∷ rows) =
    ground (arith, keeps_id row, get_job-update_job f keeps_id id i rows)

All-update_job :
    (f : QueueJob → QueueJob) (keeps_id : (row : QueueJob) → (f row).id ≡ row.id) (id n : ℕ)
    (rows : JobTable)
    → All (λ r. n < r.id) rows
    → All (λ r. n < r.id) (update_job id f rows)
unfolding update_job
All-update_job f keeps_id id n [] a = tt
All-update_job f keeps_id id n (row ∷ rows) a =
    (ground (arith, keeps_id row, a.0), All-update_job f keeps_id id n rows a.1)

pub update_job-IsOrdered :
    (f : QueueJob → QueueJob) (keeps_id : (row : QueueJob) → (f row).id ≡ row.id) (id : ℕ)
    (rows : JobTable)
    → IsOrdered rows
    → IsOrdered (update_job id f rows)
unfolding update_job
update_job-IsOrdered f keeps_id id [] o = tt
update_job-IsOrdered f keeps_id id (row ∷ rows) o = elim (Bool-cases (row.id == id)) [
  | inl e ↦
      rw (e, keeps_id row)
        (All-update_job f keeps_id id row.id rows o.0, update_job-IsOrdered f keeps_id id rows o.1)
  | inr e ↦
      rw e
        (All-update_job f keeps_id id row.id rows o.0, update_job-IsOrdered f keeps_id id rows o.1)
]

-- A row that stands in an ordered table is the one that its id finds.
pub get_job_of_In :
    (row : QueueJob) (rows : JobTable)
    → IsOrdered rows
    → In row rows
    → get_job row.id rows ≡ some row
unfolding get_job
get_job_of_In row [] o i = absurd i
get_job_of_In row (r ∷ rows) o (inl e) = rw e (ground arith)
get_job_of_In row (r ∷ rows) o (inr i) =
    let later = All-In (λ x. r.id < x.id) rows o.0 row i in
    ground (arith, get_job_of_In row rows o.1 i)

-- The row that an id finds has that id, and stands in the table.
pub get_job-In :
    (id : ℕ) (rows : JobTable) (row : QueueJob)
    → get_job id rows ≡ some row
    → (row.id ≡ id) × In row rows
unfolding get_job
get_job-In id [] row e = cc
get_job-In id (r ∷ rows) row e = elim (Bool-cases (r.id == id)) [
  | inl here ↦
      let same : r ≡ row = ground arith in
      (ground (arith, ap (λ (x : QueueJob). x.id) same), inl (sym same))
  | inr later ↦ let (at, i) = get_job-In id rows row (ground arith) in (at, inr i)
]

last_lt_next :
    (row : QueueJob) (rows : JobTable) → IsOrdered (row ∷ rows) → row.id < next_id (row ∷ rows)
unfolding next_id
last_lt_next row [] o = omega arith
last_lt_next row (r ∷ rows) o = omega (arith, last_lt_next r rows o.1, o.0.0)

All-append :
    (n : ℕ) (rows : JobTable) (last : QueueJob)
    → All (λ r. n < r.id) rows
    → n < last.id
    → All (λ r. n < r.id) (rows ++ last ∷ [])
All-append n [] last a h = (h, tt)
All-append n (r ∷ rows) last a h = (a.0, All-append n rows last a.1 h)

append-IsOrdered :
    (rows : JobTable) (last : QueueJob)
    → IsOrdered rows
    → All (λ r. r.id < last.id) rows
    → IsOrdered (rows ++ last ∷ [])
append-IsOrdered [] last o a = (tt, tt)
append-IsOrdered (r ∷ rows) last o a =
    (All-append r.id rows last o.0 a.0, append-IsOrdered rows last o.1 a.1)

pub below_next : (rows : JobTable) → IsOrdered rows → All (λ r. r.id < next_id rows) rows
unfolding next_id
below_next [] o = tt
below_next (r ∷ []) o = (omega arith, tt)
below_next (r ∷ r' ∷ rows) o =
    (omega (arith, o.0.0, last_lt_next r' rows o.1), below_next (r' ∷ rows) o.1)

-- A new job gets an id above all others.
pub queue_enqueue-IsOrdered :
    (now : ℕ) (name : String) (payload : Payload) (delay : Option ℤ) (rows : JobTable)
    → IsOrdered rows
    → IsOrdered (queue_enqueue now name payload delay rows)
unfolding queue_enqueue
queue_enqueue-IsOrdered now name payload delay rows o =
    append-IsOrdered rows _ o (below_next rows o)

pub get_job-append :
    (i : ℕ) (rows : JobTable) (last : QueueJob) (row : QueueJob)
    → get_job i rows ≡ some row
    → get_job i (rows ++ last ∷ []) ≡ some row
unfolding get_job
get_job-append i [] last row e = cc
get_job-append i (r ∷ rows) last row e = ground (arith, get_job-append i rows last row)

-- Adding a job leaves every row as it was.
pub get_job-queue_enqueue :
    (now : ℕ) (name : String) (payload : Payload) (delay : Option ℤ) (rows : JobTable) (i : ℕ)
    (row : QueueJob)
    → get_job i rows ≡ some row
    → get_job i (queue_enqueue now name payload delay rows) ≡ some row
unfolding queue_enqueue
get_job-queue_enqueue now name payload delay rows i row e = get_job-append i rows _ row e
