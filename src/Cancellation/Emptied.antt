-- ===== src/Cancellation/Emptied.antt =====
-- The jobs that wait, under /cancel: src/beachops/services/cancel_service.py.
use beachops.Base.{
  ℕ, ◌≡◌, ◌≢◌, ap, ◌∙◌, inl, inr, false, ◌||◌, Option, none, [], ◌∷◌, Text, text, All-map,
  All-update_where, head?, filter-nil, filter_nil-of-All, sort_by, sort_by-ne-nil, Bool-cases,
  Option-cases, arith,
}
use beachops.Security.{Job, JobStatus}
use beachops.Database.{Db, status_in}
use beachops.Jobs.{owned, transition, transition_row, with_status}
use beachops.Jobs.Queries.{get, list_queued_for_actor, is_waiting_for, latest_active_for_actor}
use beachops.Jobs.Transition.{transition-cases, transition-compare_and_set}
use beachops.Runs.{active_statuses}
use beachops.Cancellation.{is_missing, cancel_active, durable_ids}

-- The jobs of a user that wait are gone, and those of the others are as they were.
abbrev pub Emptied : (a : ℕ) → Db → Db → Type 0
Emptied a before after =
    (list_queued_for_actor after a ≡ []) × ((b k : ℕ) → b ≢ a → get after b k ≡ get before b k)

module _ (redact : Text → Text) (now a : ℕ) where
  transition-stays_empty :
      (db : Db) (i : ℕ) (s : JobStatus)
      → list_queued_for_actor db a ≡ []
      → list_queued_for_actor
          (transition redact db now a i (s ∷ []) JobStatus.cancelled (text "user.cancel") none).1
          a
        ≡ []
  unfolding list_queued_for_actor transition_row sort_by status_in
  transition-stays_empty db i s empty =
      elim (transition-cases redact db now a i s [] JobStatus.cancelled (text "user.cancel") none) [
        | inl (refused, kept) ↦ rw kept empty
        | inr (j, accepted, moved) ↦ rw moved (
            ap (sort_by (λ (x : Job). x.created_at)) (
              filter_nil-of-All (is_waiting_for a) _ (
                All-update_where (λ x. is_waiting_for a x ≡ false) (owned j.actor_id j.id)
                  (with_status JobStatus.cancelled now) db.jobs (λ x e. ground arith)
                  (All-map (λ x. is_waiting_for a x ≡ false)
                    (λ x. owned j.actor_id j.id x ≡ false → is_waiting_for a x ≡ false)
                    (λ x idle e. idle) db.jobs
                    (filter-nil (is_waiting_for a) db.jobs
                      (sort_by-ne-nil (λ (x : Job). x.created_at) _ (ap head? empty)))))))
      ]

  cancel_active-Emptied :
      (before db : Db) (job : Job)
      → Emptied a before db
      → Emptied a before (cancel_active redact db now a job)
  unfolding cancel_active
  cancel_active-Emptied before db job (empty, others) =
      elim (Bool-cases (status_in job.status active_statuses)) [
        | inr e ↦ rw (e, cancel_active) (empty, others)
        | inl e ↦
            rw (e, cancel_active)
              (
                transition-stays_empty db job.id job.status empty,
                λ b k other.
                    elim (transition-compare_and_set redact db now a job.id job.status []
                      JobStatus.cancelled (text "user.cancel") none) [
                        | inl (refused, kept) ↦ rw kept (others b k other)
                        | inr (j, accepted, moved) ↦ moved.2 b k (inl other) ∙ others b k other
                      ],
              )
      ]

  pub durable_ids-Emptied :
      (before db : Db) (agent run : Option Text)
      → Emptied a before db
      → Emptied a before (durable_ids redact db now a agent run).1
  unfolding durable_ids
  durable_ids-Emptied before db agent run h =
      elim (Bool-cases (is_missing agent || is_missing run)) [
        | inr e ↦ rw (e, durable_ids) h
        | inl e ↦ elim (Option-cases (latest_active_for_actor db a)) [
          | inl none_left ↦ rw (e, none_left, durable_ids) h
          | inr (job, latest) ↦ rw (e, latest, durable_ids) (cancel_active-Emptied before db job h)
        ]
      ]
