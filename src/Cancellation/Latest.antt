-- ===== src/Cancellation/Latest.antt =====
-- What /cancel does to the job that runs: src/beachops/services/cancel_service.py.
use mathlib.Core.List.{reverse, reverse-append}
use beachops.Base.{
  ℕ, ◌==◌, ◌≡◌, ◌≢◌, ◌⊎◌, refl, ◌∙◌, inl, inr, Bool, true, ◌&&◌, ◌||◌, Option, none, some, List, [],
  ◌∷◌, Text, text, All, All-append, All-head, All-map₂, All-sort_by, All-filter, filter, filter-All,
  find?, find?-narrow, Distinct-find?, Bool-cases, Option-cases, arith,
}
use beachops.Security.{Job, JobStatus, running, planning}
use beachops.Database.{Db, status_in}
use beachops.Jobs.{owned, has_id}
use beachops.Jobs.Audit.{transitions}
use beachops.Jobs.Cancel.{status_in_self}
use beachops.Jobs.History.{History, begin, later, writes}
use beachops.Jobs.Queries.{get, latest_active_for_actor, list_queued_for_actor}
use beachops.Jobs.Queue.{cancel_jobs, cancel_queued_for_actor}
use beachops.Jobs.Transition.{transition-compare_and_set}
use beachops.Jobs.Unique.{IsUnique, History-IsUnique, same_id, same_id_comm}
use beachops.Runs.{active_statuses}
use beachops.Cancellation.{is_missing, cancel_active, durable_ids}
use beachops.Cancellation.Calls.{first_of, is_missing-first, known-first}

-- The user's latest job that is running or planning, if there is one, is cancelled, and no other of
-- the user's jobs changes.
abbrev pub LatestCancelled : (now a : ℕ) → (before after : Db) → Type 0
LatestCancelled now a before after =
    ((latest_active_for_actor before a ≡ none) × (after ≡ before))
    ⊎ ((job : Job) × (latest_active_for_actor before a ≡ some job)
        × ((job.status ≡ running) ⊎ (job.status ≡ planning))
        × (get after a job.id
            ≡ some (record job { status = JobStatus.cancelled; updated_at = now }))
        × ((k : ℕ) → k ≢ job.id → get after a k ≡ get before a k))

All-reverse : {A : Type 0} (P : A → Type 0) (xs : List A) → All P xs → All P (reverse xs)
All-reverse P [] h = tt
All-reverse P (x ∷ xs) h =
    rw (reverse-append (x ∷ []) xs)
      (All-append P (reverse xs) (x ∷ []) (All-reverse P xs h.1) (h.0, tt))

active_status :
    (s : JobStatus) → status_in s active_statuses ≡ true → (s ≡ running) ⊎ (s ≡ planning)
unfolding status_in
active_status JobStatus.draft h = absurd (ground arith)
active_status JobStatus.queued h = absurd (ground arith)
active_status JobStatus.planning h = inr refl
active_status JobStatus.awaiting_approval h = absurd (ground arith)
active_status JobStatus.approved h = absurd (ground arith)
active_status JobStatus.running h = inl refl
active_status JobStatus.review_required h = absurd (ground arith)
active_status JobStatus.revision_requested h = absurd (ground arith)
active_status JobStatus.paused h = absurd (ground arith)
active_status JobStatus.accepted h = absurd (ground arith)
active_status JobStatus.rejected h = absurd (ground arith)
active_status JobStatus.succeeded h = absurd (ground arith)
active_status JobStatus.failed h = absurd (ground arith)
active_status JobStatus.cancelled h = absurd (ground arith)
active_status JobStatus.blocked h = absurd (ground arith)

module _ (redact : Text → Text) (now a : ℕ) where
  cancel_jobs-History :
      (start : ℕ → ℕ → JobStatus) (ls : List Job) (base db : Db) (count : ℕ)
      → History redact start base db
      → History redact start base (cancel_jobs redact db now a ls count).1
  unfolding cancel_jobs
  cancel_jobs-History start [] base db count r = r
  cancel_jobs-History start (j ∷ ls) base db count r = cancel_jobs-History start ls base _ _ (
      later r (
        writes (
          transitions now a j.id (j.status ∷ []) JobStatus.cancelled (text "user.cancel_queued")
            none refl)))

  -- Cancelling a user's queue keeps the identifiers and the keys unique.
  pub cancel_queued-IsUnique :
      (db : Db) → IsUnique db → IsUnique (cancel_queued_for_actor redact db now a).1
  unfolding cancel_queued_for_actor
  cancel_queued-IsUnique db unique =
      History-IsUnique
        (cancel_jobs-History (λ b k. JobStatus.queued) (list_queued_for_actor db a) db db 0 begin)
        unique

  latest-found :
      (db : Db) (job : Job)
      → IsUnique db
      → latest_active_for_actor db a ≡ some job
      → (get db a job.id ≡ some job) × (status_in job.status active_statuses ≡ true)
  unfolding latest_active_for_actor get
  latest-found db job unique latest =
      All-head Good _
        (All-reverse Good _ (
          All-sort_by Good (λ (j : Job). j.updated_at) _
            (All-map₂ (λ j. find? (has_id j.id) db.jobs ≡ some j) (λ j. active j ≡ true) Good
              (λ j found on. (
                find?-narrow (has_id j.id) (owned a j.id) db.jobs (λ y h. ground arith) found
                    (ground arith),
                ground arith,
              ))
              (filter active db.jobs)
              (All-filter (λ j. find? (has_id j.id) db.jobs ≡ some j) active db.jobs
                (Distinct-find? same_id db.jobs (λ j. ground arith) same_id_comm unique.ids))
              (filter-All active db.jobs))))
        latest
    where
      active : Job → Bool
      active j = (j.actor_id == a) && status_in j.status active_statuses

      Good : Job → Type 0
      Good j = (find? (owned a j.id) db.jobs ≡ some j) × (status_in j.status active_statuses ≡ true)

  cancel_active-cancels :
      (db : Db) (job : Job)
      → IsUnique db
      → latest_active_for_actor db a ≡ some job
      → LatestCancelled now a db (cancel_active redact db now a job)
  unfolding cancel_active
  cancel_active-cancels db job unique latest =
      let (found, on) = latest-found db job unique latest in
      rw (on, cancel_active)
        (elim (transition-compare_and_set redact db now a job.id job.status [] JobStatus.cancelled
          (text "user.cancel") none) [
            | inl (inl missing, kept) ↦ absurd (ground arith)
            | inl (inr (k, at_k, other), kept) ↦ absurd (ground (arith, status_in_self k.status))
            | inr (k, (at_k, expected), (answered, after, frame, event)) ↦ inr (
              job,
              latest,
              active_status job.status on,
              after ∙ ground arith,
              λ i other. frame a i (inr other),
            )
          ])

  -- Where the agent or the run is not known, the latest active job is cancelled; else the tables stay.
  pub durable_ids-cancels :
      (db : Db) (agent run : Option Text)
      → IsUnique db
      → let after = (durable_ids redact db now a agent run).1 in
        ((t u : Text) × (first_of (agent ∷ []) ≡ some t)
          × (first_of (run ∷ []) ≡ some u)
          × (after ≡ db))
        ⊎ (((first_of (agent ∷ []) ≡ none) ⊎ (first_of (run ∷ []) ≡ none))
            × LatestCancelled now a db after)
  unfolding durable_ids
  durable_ids-cancels db agent run unique = elim (Bool-cases (is_missing agent || is_missing run)) [
    | inr e ↦
        let (t, is_t) = known-first agent (ground arith) in
        let (u, is_u) = known-first run (ground arith) in
        rw (e, durable_ids) (inl (t, u, is_t, is_u, refl))
    | inl e ↦ inr (
      lost agent run e,
      elim (Option-cases (latest_active_for_actor db a)) [
        | inl nothing ↦ inl (nothing, kept e nothing)
        | inr (job, latest) ↦ rw (moved e job latest) (cancel_active-cancels db job unique latest)
      ],
    )
  ]
    where
      lost :
          (agent run : Option Text)
          → (is_missing agent || is_missing run) ≡ true
          → (first_of (agent ∷ []) ≡ none) ⊎ (first_of (run ∷ []) ≡ none)
      lost agent run e = elim (Bool-cases (is_missing agent)) [
        | inl f ↦ inl (is_missing-first agent f)
        | inr f ↦ inr (is_missing-first run (ground arith))
      ]

      kept :
          (is_missing agent || is_missing run) ≡ true
          → latest_active_for_actor db a ≡ none
          → (durable_ids redact db now a agent run).1 ≡ db
      kept e nothing = rw (e, nothing, durable_ids) refl

      moved :
          (is_missing agent || is_missing run) ≡ true
          → (job : Job) → latest_active_for_actor db a ≡ some job
          → (durable_ids redact db now a agent run).1 ≡ cancel_active redact db now a job
      moved e job latest = rw (e, latest, durable_ids) refl
