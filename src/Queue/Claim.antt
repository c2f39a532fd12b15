-- ===== src/Queue/Claim.antt =====
-- Which job a claim returns, and what it does to the table.
use chimpbase.Prelude.{
  ℕ, ◌+◌, ◌≤◌, ◌<◌, ◌≡◌, ◌↔◌, refl, sym, ap, ◌∙◌, ◌⊎◌, inl, inr, String, Bool, true, false, ◌&&◌,
  ◌||◌, Option, none, some, List, [], ◌∷◌, In, All-In, arith, leb, some_le, ◌==◌, str_eq, eq_iff,
  find, find-eq-none, find_passes, Bool-cases, Option-cases, if◌then◌else◌,
}
use chimpbase.Queue.{
  JobStatus, pending, processing, completed, failed, dlq, QueueJob, ClaimedJob, JobTable, one_of,
  is_pending, is_processing, is_due, update_job, claimed_row, claim_next_queue_job,
}
use chimpbase.Queue.Rows.{
  IsOrdered, get_job, get_job-update_job, update_job-IsOrdered, get_job_of_In,
}

-- When a job may be claimed: it waits and its time has come, or its worker's lease has run out.
pub data IsDue (now : ℕ) (row : QueueJob) : Type 0 where
  waiting : row.status ≡ pending → row.available_at_ms ≤ now → IsDue now row
  expired :
      (lease : ℕ)
      → row.status ≡ processing
      → row.lease_expires_at_ms ≡ some lease
      → lease ≤ now
      → IsDue now row

one_of_iff : (name : String) (names : List String) → (one_of name names ≡ true) ↔ In name names
unfolding one_of
one_of_iff name [] = (λ e. cc, λ i. absurd i)
one_of_iff name (n ∷ names) = (
  λ e. elim (Bool-cases (str_eq n name)) [
    | inl h ↦ inl (sym ((eq_iff n name).0 h))
    | inr h ↦ inr ((one_of_iff name names).0 (ground arith))
  ],
  λ i. elim i [
    | inl e ↦ rw ((eq_iff n name).1 (sym e))
    | inr j ↦ ground (arith, (one_of_iff name names).1 j)
  ],
)

IsDue-status :
    (now : ℕ) (row : QueueJob) (s : JobStatus) (l : Option ℕ)
    → row.status ≡ s
    → row.lease_expires_at_ms ≡ l
    → ((is_pending s && leb row.available_at_ms now) || (is_processing s && some_le l now)) ≡ true
    → IsDue now row
IsDue-status now row pending l e e' h = waiting e (ground arith)
IsDue-status now row processing none e e' h = cc
IsDue-status now row processing (some lease) e e' h = expired lease e e' (ground arith)
IsDue-status now row completed l e e' h = cc
IsDue-status now row failed l e e' h = cc
IsDue-status now row dlq l e e' h = cc

pub is_due_iff :
    (now : ℕ) (names : List String) (row : QueueJob)
    → (is_due now names row ≡ true) ↔ (In row.queue_name names × IsDue now row)
unfolding is_due
is_due_iff now names row = (
  λ h. (
    (one_of_iff row.queue_name names).0 (ground arith),
    IsDue-status now row row.status row.lease_expires_at_ms refl refl (ground arith),
  ),
  λ (i, due). elim due [
    | waiting e le ↦ ground (arith, (one_of_iff row.queue_name names).1 i)
    | expired lease e e' le ↦ ground (arith, (one_of_iff row.queue_name names).1 i)
  ],
)

find_first :
    (p : QueueJob → Bool) (rows : JobTable) (row : QueueJob)
    → IsOrdered rows
    → find p rows ≡ some row
    → In row rows × ((other : QueueJob) → In other rows → p other ≡ true → row.id ≤ other.id)
find_first p [] row o e = cc
find_first p (r ∷ rows) row o e = elim (Bool-cases (p r)) [
  | inl h ↦
      let same : r ≡ row = ground arith in
      (
        inl (sym same),
        λ other i passes. elim i [
          | inl here ↦
              omega (arith, ap (λ (x : QueueJob). x.id) here, ap (λ (x : QueueJob). x.id) same)
          | inr later ↦ omega (
            arith,
            All-In (λ x. r.id < x.id) rows o.0 other later,
            ap (λ (x : QueueJob). x.id) same,
          )
        ],
      )
  | inr h ↦
      let (i, least) = find_first p rows row o.1 (ground arith) in
      (
        inr i,
        λ other j passes. elim j [
          | inl here ↦ absurd (true_ne_false (sym passes ∙ (ap p here ∙ h)))
          | inr later ↦ least other later passes
        ],
      )
]
  where
    true_ne_false : true ≡ false → ⊥
    true_ne_false e = cc

update_row :
    (now lease_ms : ℕ) (row : QueueJob) (rows : JobTable)
    → IsOrdered rows
    → In row rows
    → (k : ℕ)
    → get_job k (update_job row.id (claimed_row (now + lease_ms)) rows)
      ≡ (if k == row.id then some (claimed_row (now + lease_ms) row) else get_job k rows)
update_row now lease_ms row rows o i k =
    let law =
      get_job-update_job (claimed_row (now + lease_ms)) (λ (r : QueueJob). refl) row.id k rows in
    elim (Bool-cases (k == row.id)) [
      | inl e ↦
          let same : k ≡ row.id = ground arith in
          let found : get_job k rows ≡ some row = rw same (get_job_of_In row rows o i) in
          rw e (law ∙ rw (e, found))
      | inr e ↦ rw e (law ∙ rw e)
    ]

-- The claim of the due job with the least id: what is returned, and the table behind it.
pub record IsClaim (now lease_ms : ℕ) (names : List String) (rows : JobTable) (job : ClaimedJob)
    (after : JobTable) : Type 0 where
  pub row : QueueJob
  pub listed : In row rows
  pub in_queue : In row.queue_name names
  pub due : IsDue now row
  pub first :
      (other : QueueJob)
      → In other rows
      → In other.queue_name names
      → IsDue now other
      → row.id ≤ other.id
  pub returned : job ≡ record {
    id = row.id;
    queue_name = row.queue_name;
    payload = row.payload;
    attempt_count = row.attempt_count + 1;
  }
  pub stored :
      (i : ℕ)
      → get_job i after
        ≡ (if i == row.id then some (claimed_row (now + lease_ms) row) else get_job i rows)

-- On an ordered table a claim returns nothing and changes nothing if no job of the given queues is
-- due, and otherwise claims the due job with the least id, one attempt and a lease added, and
-- leaves every other row as it was.
pub claim_next_queue_job-IsClaim :
    (now lease_ms : ℕ) (names : List String) (rows : JobTable)
    → IsOrdered rows
    → ((claim_next_queue_job now lease_ms names rows ≡ (none, rows))
        × ((row : QueueJob) → In row rows → In row.queue_name names → ¬ IsDue now row))
      ⊎ ((job : ClaimedJob) × (after : JobTable) × (claim_next_queue_job now lease_ms names rows
            ≡ (some job, after))
          × IsClaim now lease_ms names rows job after)
unfolding claim_next_queue_job
claim_next_queue_job-IsClaim now lease_ms names rows o =
    elim (Option-cases (find (is_due now names) rows)) [
      | inl e ↦ inl (
        rw (e, claim_next_queue_job),
        λ row i q due. false_ne_true (
            sym (
              All-In (λ x. is_due now names x ≡ false) rows (find-eq-none (is_due now names) rows e)
                row i)
            ∙ (is_due_iff now names row).1 (q, due)),
      )
      | inr (row, e) ↦
          let (i, least) = find_first (is_due now names) rows row o e in
          let (q, due) = (is_due_iff now names row).0 (find_passes (is_due now names) rows row e) in
          inr (
            record {
              id = row.id;
              queue_name = row.queue_name;
              payload = row.payload;
              attempt_count = row.attempt_count + 1;
            },
            update_job row.id (claimed_row (now + lease_ms)) rows,
            rw (e, claim_next_queue_job),
            record {
              row = row;
              listed = i;
              in_queue = q;
              due = due;
              first = λ other j q' due'. least other j ((is_due_iff now names other).1 (q', due'));
              returned = refl;
              stored = update_row now lease_ms row rows o i;
            },
          )
    ]
  where
    false_ne_true : false ≡ true → ⊥
    false_ne_true e = cc

pub claim_next_queue_job-IsOrdered :
    (now lease_ms : ℕ) (names : List String) (rows : JobTable)
    → IsOrdered rows
    → IsOrdered (claim_next_queue_job now lease_ms names rows).1
unfolding claim_next_queue_job
claim_next_queue_job-IsOrdered now lease_ms names rows o =
    elim (Option-cases (find (is_due now names) rows)) [
      | inl e ↦ rw (e, claim_next_queue_job) o
      | inr (row, e) ↦
          rw (e, claim_next_queue_job)
            (update_job-IsOrdered (claimed_row (now + lease_ms)) (λ r. refl) row.id rows o)
    ]
