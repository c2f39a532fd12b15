-- ===== src/Queue/Tests.antt =====
-- A table of jobs, what claims and reports do to it, and the theorems at these inputs.
use chimpbase.Prelude.{ℕ, ◌≡◌, ◌≢◌, refl, ◌⊎◌, Option, none, some, List, [], ◌∷◌, In, arith}
use chimpbase.Prelude.Int.{pos}
use chimpbase.Queue.{
  json, completed, QueueJob, ClaimedJob, JobTable, queue_enqueue, claim_next_queue_job,
  complete_queue_job,
}
use chimpbase.Queue.Rows.{IsOrdered, get_job, queue_enqueue-IsOrdered}
use chimpbase.Queue.Claim.{IsDue, IsClaim}
use chimpbase.Queue.Claim
use chimpbase.Queue.Leases.{Call, enqueue, claim, complete, run, AllQuiet}
use chimpbase.Queue.Leases

-- The first job waits until 1050, the second is due at once.
abbrev two_jobs : JobTable
two_jobs =
    queue_enqueue 1000 "mail" (json "2") none
      (queue_enqueue 1000 "mail" (json "1") (some (pos 50)) [])

abbrev claimed : Option ClaimedJob × JobTable
claimed = claim_next_queue_job 1001 30 ("mail" ∷ []) two_jobs

abbrev second : ClaimedJob
second = record { id = 2; queue_name = "mail"; payload = json "2"; attempt_count = 1 }

two_jobs-IsOrdered : IsOrdered two_jobs
two_jobs-IsOrdered =
    queue_enqueue-IsOrdered 1000 "mail" (json "2") none
      (queue_enqueue 1000 "mail" (json "1") (some (pos 50)) [])
      (queue_enqueue-IsOrdered 1000 "mail" (json "1") (some (pos 50)) [] tt)

claims_second : claimed ≡ (some second, claimed.1)
unfolding claim_next_queue_job queue_enqueue
claims_second = refl

not_second : ◌≢◌ {A = ℕ} 1 2
not_second e = omega (arith, e)

-- Another worker enqueues a job, claims the first one and completes it.
abbrev others : List Call
others = enqueue 1002 "mail" (json "3") none ∷ claim 1030 30 ("mail" ∷ []) ∷ complete 1 ∷ []

others_quiet : AllQuiet 2 1031 others
others_quiet = (tt, (omega arith, (not_second, tt)))

claim_next_queue_job-IsClaim_example :
    ((claimed ≡ (none, two_jobs))
      × ((row : QueueJob) → In row two_jobs → In row.queue_name ("mail" ∷ []) → ¬ IsDue 1001 row))
    ⊎ ((job : ClaimedJob) × (after : JobTable) × (claimed ≡ (some job, after))
        × IsClaim 1001 30 ("mail" ∷ []) two_jobs job after)
claim_next_queue_job-IsClaim_example =
    Claim.claim_next_queue_job-IsClaim 1001 30 ("mail" ∷ []) two_jobs two_jobs-IsOrdered

claim_exclusive_example :
    ¬ In {A = ℕ} 2 (run others claimed.1).0
    × (get_job 2 (run others claimed.1).1 ≡ get_job 2 claimed.1)
claim_exclusive_example =
    Leases.claim_exclusive 1001 30 ("mail" ∷ []) two_jobs claimed.1 second others two_jobs-IsOrdered
      claims_second others_quiet

-- The second job is completed; then the first is claimed and fails.
abbrev second_done : JobTable
second_done = complete_queue_job 2 claimed.1

abbrev second_row : QueueJob
second_row = record {
  id = 2;
  queue_name = "mail";
  payload = json "2";
  status = completed;
  available_at_ms = 1000;
  attempt_count = 1;
  lease_expires_at_ms = none;
  last_error = none;
}

second_done-IsOrdered : IsOrdered second_done
unfolding complete_queue_job claim_next_queue_job queue_enqueue
second_done-IsOrdered = ((omega arith, tt), (tt, tt))

second_is_done : get_job 2 second_done ≡ some second_row
unfolding complete_queue_job claim_next_queue_job queue_enqueue get_job
second_is_done = refl

settled_final_example :
    ¬ In {A = ℕ} 2 (run others second_done).0
    × (get_job 2 (run others second_done).1 ≡ some second_row)
settled_final_example =
    Leases.settled_final 2 1031 second_done second_row others second_done-IsOrdered second_is_done
      (λ e. cc) (λ e. cc) others_quiet
