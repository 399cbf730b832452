-- ===== src/JobQueue/Steps.antt =====
-- The runs of src/beachops/services/job_queue.py: any interleaving of calls and of worker turns.
use beachops.Base.{ℕ, ◌≡◌, List, [], ◌∷◌, ◌++◌}
use beachops.JobQueue.{
  JobQueue, SubmitResult, started, queued, rejected, Outcome, submit, worker, clear_pending,
  request_cancel, clear_cancel,
}

-- What a step does to a user's jobs.
pub data Event (J : Type 0) : Type 0 where
  accepts begins : ℕ → J → Event J
  clears kills : ℕ → Event J

module _ {J : Type 0} where
  abbrev pub submitted : ℕ → J → SubmitResult → List (Event J)
  submitted u job started = accepts u job ∷ begins u job ∷ []
  submitted u job queued = accepts u job ∷ []
  submitted u job rejected = []

  -- A worker that takes the next job begins it.
  abbrev pub taken : ℕ → List J → List (Event J)
  taken u [] = []
  taken u (job ∷ rest) = begins u job ∷ []

  abbrev pub turned : ℕ → List J → Outcome → List (Event J)
  turned u waiting Outcome.returned = taken u waiting
  turned u waiting Outcome.failed = taken u waiting
  turned u waiting Outcome.killed = kills u ∷ []

pub data Step {J : Type 0} (q q' : JobQueue J) : List (Event J) → Type 0 where
  submits :
      (u : ℕ) (job : J)
      → q' ≡ (submit q u job).1
      → Step q q' (submitted u job (submit q u job).0.result)
  works :
      (u : ℕ) (before : List J) (job : J) (after : List J) (outcome : Outcome)
      → q.workers u ≡ before ++ job ∷ after
      → q' ≡ worker q u before after outcome
      → Step q q' (turned u (q.pending u) outcome)
  clears_pending : (u : ℕ) → q' ≡ (clear_pending q u).1 → Step q q' (clears u ∷ [])
  requests_cancel : (u : ℕ) → q' ≡ request_cancel q u → Step q q' []
  clears_cancel : (u : ℕ) → q' ≡ clear_cancel q u → Step q q' []

pub data Reach {J : Type 0} (q : JobQueue J) : JobQueue J → List (Event J) → Type 0 where
  here : Reach q q []
  next :
      {t v : JobQueue J} {past new : List (Event J)}
      → Reach q t past
      → Step t v new
      → Reach q v (past ++ new)
