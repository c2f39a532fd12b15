-- ===== src/Queue/Leases.antt =====
-- Workers that share the table: what they do to a job that another worker holds.
use chimpbase.Prelude.{
  ℕ, ◌+◌, ◌<◌, ◌≡◌, ◌≢◌, refl, sym, subst, ap, ◌∙◌, inl, inr, String, false, Option, none, some,
  List, [], ◌∷◌, ◌++◌, In, arith, ◌==◌, Bool-cases,
}
use chimpbase.Prelude.Int.{ℤ}
use chimpbase.Queue.{
  Payload, JobStatus, pending, processing, QueueJob, ClaimedJob, JobTable, queue_enqueue,
  update_job, claimed_row, claim_next_queue_job, completed_row, complete_queue_job, failed_row,
  mark_queue_job_failure,
}
use chimpbase.Queue.Rows.{
  IsOrdered, get_job, get_job-update_job, update_job-IsOrdered, get_job_of_In,
  queue_enqueue-IsOrdered, get_job-queue_enqueue,
}
use chimpbase.Queue.Claim.{
  IsDue, waiting, expired, claim_next_queue_job-IsClaim, claim_next_queue_job-IsOrdered,
}

-- A call of the adapter by any worker, with the time at which it is made.
pub data Call : Type 0 where
  enqueue : ℕ → String → Payload → Option ℤ → Call
  claim : ℕ → ℕ → List String → Call
  complete : ℕ → Call
  fail : ℕ → JobStatus → ℕ → String → Call

abbrev pub claim_ids : Option ClaimedJob × JobTable → List ℕ × JobTable
claim_ids (none, after) = ([], after)
claim_ids (some job, after) = (job.id ∷ [], after)

-- The claimed ids, and the table after the call.
unfoldable pub step : Call → JobTable → List ℕ × JobTable
step (enqueue now name payload delay) rows = ([], queue_enqueue now name payload delay rows)
step (claim now lease_ms names) rows = claim_ids (claim_next_queue_job now lease_ms names rows)
step (complete id) rows = ([], complete_queue_job id rows)
step (fail id status next_available error) rows =
    ([], mark_queue_job_failure id status next_available error rows)

unfoldable pub run : List Call → JobTable → List ℕ × JobTable
run [] rows = ([], rows)
run (c ∷ cs) rows =
    let (ids, after) = step c rows in let (later, last) = run cs after in (ids ++ later, last)

-- The call is made before `until`, and does not report on the job.
abbrev pub IsQuiet : ℕ → ℕ → Call → Type 0
IsQuiet id until (enqueue now name payload delay) = Unit
IsQuiet id until (claim now lease_ms names) = now < until
IsQuiet id until (complete i) = i ≢ id
IsQuiet id until (fail i status next_available error) = i ≢ id

abbrev pub AllQuiet : ℕ → ℕ → List Call → Type 0
AllQuiet id until [] = Unit
AllQuiet id until (c ∷ cs) = IsQuiet id until c × AllQuiet id until cs

not-In-append : (x : ℕ) (xs ys : List ℕ) → ¬ In x xs → ¬ In x ys → ¬ In x (xs ++ ys)
not-In-append x [] ys a b i = b i
not-In-append x (y ∷ xs) ys a b (inl e) = a (inl e)
not-In-append x (y ∷ xs) ys a b (inr i) = not-In-append x xs ys (λ j. a (inr j)) b i

module _ (id until : ℕ) (row : QueueJob) (held : (now : ℕ) → now < until → ¬ IsDue now row) where
  abbrev Kept : List ℕ × JobTable → Type 0
  Kept r = ¬ In id r.0 × (get_job id r.1 ≡ some row) × IsOrdered r.1

  claim-keeps :
      (now lease_ms : ℕ) (names : List String) (rows : JobTable)
      → now < until
      → IsOrdered rows
      → get_job id rows ≡ some row
      → Kept (claim_ids (claim_next_queue_job now lease_ms names rows))
  claim-keeps now lease_ms names rows early o e =
      elim (claim_next_queue_job-IsClaim now lease_ms names rows o) [
        | inl (nothing, _) ↦ subst (λ r. Kept (claim_ids r)) (sym nothing) (λ i. i, e, o)
        | inr (job, after, got, c) ↦
            let other : (id == c.row.id) ≡ false = elim (Bool-cases (id == c.row.id)) [
              | inr no_match ↦ no_match
              | inl same ↦
                  let eq : id ≡ c.row.id = ground arith in
                  let here : some row ≡ some c.row =
                    sym e ∙ rw eq (get_job_of_In c.row rows o c.listed) in
                  let at : c.row ≡ row = ground arith in
                  absurd (held now early (subst (IsDue now) at c.due))
            ] in
            let same_id : job.id ≡ c.row.id = ap (λ (j : ClaimedJob). j.id) c.returned in
            subst (λ r. Kept (claim_ids r)) (sym got)
              (
                λ i. elim i [ inl at ↦ ground arith | inr nowhere ↦ nowhere ],
                c.stored id ∙ rw other e,
                subst IsOrdered (ap (λ (r : Option ClaimedJob × JobTable). r.1) got)
                    (claim_next_queue_job-IsOrdered now lease_ms names rows o),
              )
      ]

  update-keeps :
      (i : ℕ) (f : QueueJob → QueueJob)
      → ((r : QueueJob) → (f r).id ≡ r.id)
      → (rows : JobTable) → i ≢ id
      → get_job id rows ≡ some row
      → get_job id (update_job i f rows) ≡ some row
  update-keeps i f keeps_id rows other e = get_job-update_job f keeps_id i id rows ∙ ground arith

  step-keeps :
      (c : Call) (rows : JobTable)
      → IsQuiet id until c
      → IsOrdered rows
      → get_job id rows ≡ some row
      → Kept (step c rows)
  unfolding step complete_queue_job mark_queue_job_failure
  step-keeps (enqueue now name payload delay) rows q o e = (
    λ i. i,
    get_job-queue_enqueue now name payload delay rows id row e,
    queue_enqueue-IsOrdered now name payload delay rows o,
  )
  step-keeps (claim now lease_ms names) rows q o e = claim-keeps now lease_ms names rows q o e
  step-keeps (complete i) rows q o e = (
    λ i. i,
    update-keeps i completed_row (λ r. refl) rows q e,
    update_job-IsOrdered completed_row (λ r. refl) i rows o,
  )
  step-keeps (fail i status next_available error) rows q o e = (
    λ i. i,
    update-keeps i (failed_row status next_available error) (λ r. refl) rows q e,
    update_job-IsOrdered (failed_row status next_available error) (λ r. refl) i rows o,
  )

  -- A job that is not due stays untouched and unclaimed through any calls that are made before it
  -- is due and do not report on it.
  pub run-keeps :
      (cs : List Call) (rows : JobTable)
      → AllQuiet id until cs
      → IsOrdered rows
      → get_job id rows ≡ some row
      → Kept (run cs rows)
  unfolding run
  run-keeps [] rows q o e = (λ i. i, e, o)
  run-keeps (c ∷ cs) rows q o e =
      let (mine, kept, ordered) = step-keeps c rows q.0 o e in
      let (later, kept', ordered') = run-keeps cs (step c rows).1 q.1 ordered kept in
      (not-In-append id (step c rows).0 (run cs (step c rows).1).0 mine later, kept', ordered')

-- On an ordered table, through any calls that are made before the lease of a claimed job runs out
-- and do not report on the job, no claim returns the job and its row stays as the claim left it.
pub claim_exclusive :
    (now lease_ms : ℕ) (names : List String) (rows after : JobTable) (job : ClaimedJob)
    (cs : List Call)
    → IsOrdered rows
    → claim_next_queue_job now lease_ms names rows ≡ (some job, after)
    → AllQuiet job.id (now + lease_ms) cs
    → ¬ In job.id (run cs after).0 × (get_job job.id (run cs after).1 ≡ get_job job.id after)
claim_exclusive now lease_ms names rows after job cs o got quiet =
    elim (claim_next_queue_job-IsClaim now lease_ms names rows o) [
      | inl (nothing, _) ↦ absurd (some_ne_none (sym got ∙ nothing))
      | inr (job', after', got', c) ↦
          let same_job : job.id ≡ c.row.id =
            claimed_id (sym got ∙ got') ∙ ap (λ (j : ClaimedJob). j.id) c.returned in
          let same_after : after' ≡ after =
            ap (λ (r : Option ClaimedJob × JobTable). r.1) (sym got' ∙ got) in
          let row = claimed_row (now + lease_ms) c.row in
          let stored : get_job job.id after ≡ some row =
            rw (← same_after) (c.stored job.id ∙ ground (arith, same_job)) in
          let held : (t : ℕ) → t < now + lease_ms → ¬ IsDue t row =
            λ t early due. elim due [ waiting s le ↦ cc | expired lease s l le ↦ ground arith ] in
          let ordered : IsOrdered after =
            subst IsOrdered (ap (λ (r : Option ClaimedJob × JobTable). r.1) got)
              (claim_next_queue_job-IsOrdered now lease_ms names rows o) in
          let (never, kept, _) =
            run-keeps job.id (now + lease_ms) row held cs after quiet ordered stored in
          (never, kept ∙ sym stored)
    ]
  where
    some_ne_none :
        {j : ClaimedJob} {a b : JobTable}
        → ◌≡◌ {A = Option ClaimedJob × JobTable} (some j, a) (none, b)
        → ⊥
    some_ne_none e = ground arith

    claimed_id :
        {j k : ClaimedJob} {a b : JobTable}
        → ◌≡◌ {A = Option ClaimedJob × JobTable} (some j, a) (some k, b)
        → j.id ≡ k.id
    claimed_id e = ground arith

-- On an ordered table a job that is neither pending nor processing is not claimed and its row does
-- not change, through any calls that are made before a given time, which may be any, and do not
-- report on it.
pub settled_final :
    (id until : ℕ) (rows : JobTable) (row : QueueJob) (cs : List Call)
    → IsOrdered rows
    → get_job id rows ≡ some row
    → row.status ≢ pending
    → row.status ≢ processing
    → AllQuiet id until cs
    → ¬ In id (run cs rows).0 × (get_job id (run cs rows).1 ≡ some row)
settled_final id until rows row cs o e not_pending not_processing quiet =
    let held : (now : ℕ) → now < until → ¬ IsDue now row = λ now early due. elim due [
      | waiting s le ↦ not_pending s
      | expired lease s l le ↦ not_processing s
    ] in
    let (never, same, _) = run-keeps id until row held cs rows quiet o e in (never, same)
