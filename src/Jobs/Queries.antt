-- ===== src/Jobs/Queries.antt =====
-- The reads of JobRepository, src/beachops/db/repositories/jobs.py. Rows with equal sort keys come
-- in the order of insertion; SQL leaves that order open.
use mathlib.Core.List.{reverse}
use beachops.Base.{
  ℕ, suc, ◌==◌, min, max, Bool, ◌&&◌, Option, List, [], ◌∷◌, length, take, head?, filter, find?,
  sort_by, any, if◌then◌else◌,
}
use beachops.Security.{Job, JobStatus, queued, approved, revision_requested, running, planning}
use beachops.Database.{Db, JobEvent, Artifact, status_in}
use beachops.Jobs.{owned, has_id}

unfoldable pub get : Db → (actor_id job_id : ℕ) → Option Job
unfolding find?
get db actor_id job_id = find? (owned actor_id job_id) db.jobs

unfoldable pub get_internal : Db → ℕ → Option Job
unfolding find?
get_internal db job_id = find? (has_id job_id) db.jobs

-- `max(1, min(limit, bound))`; a negative limit gives what 0 gives.
unfoldable pub clamp_limit : ℕ → ℕ → ℕ
clamp_limit bound limit = max 1 (min limit bound)

unfoldable pub list_for_actor : Db → (actor_id limit : ℕ) → List Job
unfolding filter sort_by clamp_limit
list_for_actor db actor_id limit =
    let rows = filter (λ (j : Job). j.actor_id == actor_id) db.jobs in
    take (clamp_limit 200 limit) (reverse (sort_by (λ (j : Job). j.created_at) rows))

unfoldable pub list_by_status_internal : Db → List JobStatus → ℕ → List Job
unfolding filter sort_by status_in clamp_limit
list_by_status_internal db [] limit = []
list_by_status_internal db (s ∷ statuses) limit =
    let rows = filter (λ (j : Job). status_in j.status (s ∷ statuses)) db.jobs in
    take (clamp_limit 1000 limit) (sort_by (λ (j : Job). j.created_at) rows)

unfoldable pub list_all_internal : Db → ℕ → List Job
unfolding sort_by clamp_limit
list_all_internal db limit =
    take (clamp_limit 500 limit) (reverse (sort_by (λ (j : Job). j.created_at) db.jobs))

-- The statuses of a job that waits for a worker.
abbrev pub waiting_statuses : List JobStatus
waiting_statuses = queued ∷ approved ∷ revision_requested ∷ []

abbrev pub is_waiting_for : ℕ → Job → Bool
is_waiting_for actor_id j = (j.actor_id == actor_id) && status_in j.status waiting_statuses

unfoldable pub list_queued_for_actor : Db → ℕ → List Job
unfolding filter sort_by status_in
list_queued_for_actor db actor_id =
    sort_by (λ (j : Job). j.created_at) (filter (is_waiting_for actor_id) db.jobs)

unfoldable pub count_pending_for_actor : Db → ℕ → ℕ
unfolding filter status_in
count_pending_for_actor db actor_id = length (
    filter
      (λ (j : Job).
        (j.actor_id == actor_id)
        && status_in j.status (queued ∷ approved ∷ revision_requested ∷ running ∷ planning ∷ []))
      db.jobs)

-- The loop of `queue_position`: `index` counts from 1, and 0 means that the job does not wait.
unfoldable pub position_from : ℕ → ℕ → List Job → ℕ
position_from index job_id [] = 0
position_from index job_id (j ∷ rows) =
    let rest = position_from (suc index) job_id rows in if j.id == job_id then index else rest

unfoldable pub queue_position : Db → (actor_id job_id : ℕ) → ℕ
unfolding position_from list_queued_for_actor
queue_position db actor_id job_id = position_from 1 job_id (list_queued_for_actor db actor_id)

unfoldable pub latest_active_for_actor : Db → ℕ → Option Job
unfolding filter sort_by status_in
latest_active_for_actor db actor_id =
    let active =
      λ (j : Job). (j.actor_id == actor_id) && status_in j.status (running ∷ planning ∷ []) in
    head? (reverse (sort_by (λ (j : Job). j.updated_at) (filter active db.jobs)))

unfoldable pub list_artifacts : Db → (actor_id job_id : ℕ) → List Artifact
unfolding filter any
list_artifacts db actor_id job_id =
    let owner_has = any (owned actor_id job_id) db.jobs in
    sort_by (λ (a : Artifact). a.id)
      (filter (λ (a : Artifact). (a.job_id == job_id) && owner_has) db.artifacts)

unfoldable pub list_events : Db → (actor_id job_id limit : ℕ) → List JobEvent
unfolding filter sort_by clamp_limit
list_events db actor_id job_id limit =
    let rows =
      filter (λ (e : JobEvent). (e.job_id == job_id) && (e.actor_id == actor_id)) db.job_events in
    take (clamp_limit 500 limit) (sort_by (λ (e : JobEvent). e.id) rows)
