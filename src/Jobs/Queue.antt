-- ===== src/Jobs/Queue.antt =====
-- The queue of durable jobs: `cancel_queued_for_actor` and `claim_for_worker` of
-- src/beachops/db/repositories/jobs.py.
use beachops.Base.{
  ℕ, ◌+◌, ◌==◌, Bool, true, ◌&&◌, not, Option, none, some, List, [], ◌∷◌, Text, text, text_eq,
  filter, sort_by, head?, coalesce,
}
use beachops.Security.{Job, cancelled, running}
use beachops.Database.{Db, Result, ok, status_in, update_returning}
use beachops.Jobs.{has_id, transition}
use beachops.Jobs.Queries.{waiting_statuses, list_queued_for_actor}

-- 1 for a transition that returned a job.
abbrev pub count_updated : Result (Option Job) → ℕ → ℕ
count_updated (ok (some j)) n = n + 1
count_updated _ n = n

-- The loop of `cancel_queued_for_actor` over the jobs that its SELECT returned.
unfoldable pub cancel_jobs : (Text → Text) → Db → ℕ → ℕ → List Job → ℕ → ℕ × Db
unfolding transition
cancel_jobs redact db now actor_id [] count = (count, db)
cancel_jobs redact db now actor_id (j ∷ rest) count =
    let (updated, db') =
      transition redact db now actor_id j.id (j.status ∷ []) cancelled (text "user.cancel_queued")
        none in
    cancel_jobs redact db' now actor_id rest (count_updated updated count)

unfoldable pub cancel_queued_for_actor : (Text → Text) → Db → ℕ → ℕ → ℕ × Db
unfolding cancel_jobs list_queued_for_actor
cancel_queued_for_actor redact db now actor_id =
    cancel_jobs redact db now actor_id (list_queued_for_actor db actor_id) 0

-- `worker_node_id IS NULL OR worker_node_id = $3`
unfoldable pub is_free_for : ℕ → Option ℕ → Bool
is_free_for worker none = true
is_free_for worker (some w) = w == worker

-- The WHERE clause of the claim; `locked` holds of the rows that another transaction has locked,
-- which FOR UPDATE SKIP LOCKED passes over.
unfoldable pub is_claimable : (ℕ → Bool) → ℕ → Text → Job → Bool
unfolding status_in is_free_for text_eq
is_claimable locked worker runtime j =
    text_eq j.runtime runtime
    && status_in j.status waiting_statuses
    && is_free_for worker j.worker_node_id
    && not (locked j.id)

abbrev pub with_claim : ℕ → ℕ → Job → Job
with_claim worker now j = record j {
  status = running;
  worker_node_id = some worker;
  attempt = j.attempt + 1;
  started_at = coalesce j.started_at (some now);
  updated_at = now;
}

-- The oldest claimable row.
unfoldable pub next_claim : (ℕ → Bool) → Db → ℕ → Text → Option Job
unfolding filter sort_by is_claimable
next_claim locked db worker runtime =
    head?
      (sort_by (λ (j : Job). j.created_at) (filter (is_claimable locked worker runtime) db.jobs))

unfoldable pub claim_for_worker : (ℕ → Bool) → Db → ℕ → ℕ → Text → Option Job × Db
unfolding next_claim update_returning
claim_for_worker locked db now worker runtime = elim (next_claim locked db worker runtime) [
  | none ↦ (none, db)
  | some row ↦
      let (claimed, rows) = update_returning (has_id row.id) (with_claim worker now) db.jobs in
      (claimed, record db { jobs = rows })
]
