-- ===== src/Jobs/Audit/Trail.antt =====
-- The log of a job tells its status: src/beachops/db/repositories/jobs.py over whole histories.
use beachops.Base.{ℕ, ◌≡◌, refl, none, some, [], Text, find?, arith}
use beachops.Security.{Job, JobStatus}
use beachops.Database.{Db}
use beachops.Jobs.Queries.{get}
use beachops.Jobs.Runtime.{set_runtime, set_result, mark_finalized}
use beachops.Jobs.Audit.{
  replay, IsAudited, Step, creates, transitions, notes, runs, results, finalizes,
}
use beachops.Jobs.History.{Write, writes, claims, History, begin, later}
use beachops.Jobs.Audit.Keep.{
  transition-IsAudited, append_event-IsAudited, update_owned-IsAudited, create-IsAudited,
  claim_for_worker-IsAudited,
}

Step-IsAudited :
    {redact : Text → Text} {start : ℕ → ℕ → JobStatus} {t u : Db}
    → IsAudited start t
    → Step redact start t u
    → IsAudited start u
unfolding set_runtime set_result mark_finalized
Step-IsAudited {redact} {start} {t} old (creates now n starts e) =
    rw e (create-IsAudited start t old redact now n starts)
Step-IsAudited {redact} {start} {t} old (transitions now a i from to event_type details e) =
    rw e (transition-IsAudited start t old redact now a i from to event_type details)
Step-IsAudited {redact} {start} {t} old (notes now a i event_type details e) =
    rw e (append_event-IsAudited start t old redact now a i event_type details)
Step-IsAudited {redact} {start} {t} old (runs now a i c e) =
    rw e
      (update_owned-IsAudited start t old a i _ _ (λ j. refl) (λ j. refl) (λ j. refl) (λ j. refl))
Step-IsAudited {redact} {start} {t} old (results now a i r e) =
    rw e
      (update_owned-IsAudited start t old a i _ _ (λ j. refl) (λ j. refl) (λ j. refl) (λ j. refl))
Step-IsAudited {redact} {start} {t} old (finalizes now a i e) =
    rw e
      (update_owned-IsAudited start t old a i _ _ (λ j. refl) (λ j. refl) (λ j. refl) (λ j. refl))

Write-IsAudited :
    {redact : Text → Text} {start : ℕ → ℕ → JobStatus} {t u : Db}
    → IsAudited start t
    → Write redact start t u
    → IsAudited start u
Write-IsAudited old (writes s) = Step-IsAudited old s
Write-IsAudited {start = start} {t = t} old (claims locked now worker runtime e) =
    rw e (claim_for_worker-IsAudited start t old locked now worker runtime)

History-IsAudited :
    {redact : Text → Text} {start : ℕ → ℕ → JobStatus} {db t : Db}
    → IsAudited start db
    → History redact start db t
    → IsAudited start t
History-IsAudited old begin = old
History-IsAudited old (later r w) = Write-IsAudited (History-IsAudited old r) w

empty-IsAudited :
    (start : ℕ → ℕ → JobStatus) (db : Db) → db.jobs ≡ [] → db.job_events ≡ [] → IsAudited start db
unfolding get find? replay
empty-IsAudited start db no_jobs no_events = record {
  present = λ a i j h free. absurd (ground arith);
  absent = λ a i h. rw no_events;
}

-- From tables without jobs and job events, after any history of the writes of jobs and job events,
-- claims of Windows workers included, the events of each job that no Windows worker has claimed
-- replay without a break from the status that the job was created in to the status that it has.
-- Nothing is said of a claimed job: the claim makes it running and writes no event.
pub audit_trail :
    (redact : Text → Text) (start : ℕ → ℕ → JobStatus) (db t : Db)
    → db.jobs ≡ []
    → db.job_events ≡ []
    → History redact start db t
    → (a i : ℕ) (j : Job) → get t a i ≡ some j
    → j.worker_node_id ≡ none
    → replay a i (start a i) t.job_events ≡ some j.status
audit_trail redact start db t no_jobs no_events r a i j h free =
    (History-IsAudited (empty-IsAudited start db no_jobs no_events) r).present a i j h free
