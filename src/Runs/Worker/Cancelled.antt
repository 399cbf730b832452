-- ===== src/Runs/Worker/Cancelled.antt =====
-- The cancel flag at the start of a job: src/beachops/worker.py.
use beachops.Base.{
  ℕ, ◌≡◌, ◌≢◌, ◌⊎◌, refl, inl, inr, Bool, true, false, Option, none, some, [], ◌∷◌, Text, text,
  find?-sound, find?-narrow, arith,
}
use beachops.Security.{Job, JobStatus}
use beachops.Database.{Db, ok, status_in}
use beachops.Jobs.{owned, has_id, transition, with_status}
use beachops.Jobs.Queries.{get, get_internal, waiting_statuses}
use beachops.Jobs.Cancel.{status_in_self}
use beachops.Jobs.Transition.{transition-compare_and_set}
use beachops.Runs.{App}
use beachops.Runs.Failed.{HasStatus}
use beachops.Runs.Reconciler.{Draws}
use beachops.Runs.Worker.{Env, execute_job}

get-of-get_internal :
    (db : Db) (i : ℕ) (j : Job) → get_internal db i ≡ some j → get db j.actor_id i ≡ some j
unfolding get get_internal
get-of-get_internal db i j found =
    let here : has_id i j ≡ true = find?-sound (has_id i) db.jobs found in
    find?-narrow (has_id i) (owned j.actor_id i) db.jobs (λ y h. ground arith) found (ground arith)

-- Nothing but the rows of the jobs and their events is written.
abbrev pub OnlyJobs : App → App → Type 0
OnlyJobs before after =
    (after.cancel_store ≡ before.cancel_store)
    × (after.slots ≡ before.slots)
    × (after.st.arq ≡ before.st.arq)
    × (after.deferred ≡ before.deferred)

cancel-moves :
    (redact : Text → Text) (db : Db) (now : ℕ) (j : Job)
    → get db j.actor_id j.id ≡ some j
    → let after =
        (transition redact db now j.actor_id j.id
          (j.status ∷ [])
          JobStatus.cancelled
          (text "user.cancel_before_start")
          none).1 in
      HasStatus after j.actor_id j.id JobStatus.cancelled
      × ((b k : ℕ) → (b ≢ j.actor_id) ⊎ (k ≢ j.id) → get after b k ≡ get db b k)
cancel-moves redact db now j found =
    elim (transition-compare_and_set redact db now j.actor_id j.id j.status [] JobStatus.cancelled
      (text "user.cancel_before_start") none) [
        | inl (inl missing, kept) ↦ absurd (lost missing found)
        | inl (inr (x, at_x, other), kept) ↦ absurd (differs (same_row at_x found) other)
        | inr (x, accepted, moved) ↦
            ((with_status JobStatus.cancelled now x, moved.1, refl), moved.2)
      ]
  where
    lost : {o : Option Job} {x : Job} → o ≡ none → o ≡ some x → ⊥
    lost e f = cc

    same_row : {o : Option Job} {x y : Job} → o ≡ some x → o ≡ some y → x.status ≡ y.status
    same_row e f = ground arith

    differs : {s t : JobStatus} → s ≡ t → status_in s (t ∷ []) ≡ false → ⊥
    differs {s} {t} e other = let hit : status_in s (t ∷ []) ≡ true = rw e (status_in_self t) in cc

-- As long as the cancel flag of a user is set, each job of the user that waits is cancelled when the
-- worker comes to it, and nothing is started: no slot and no queue changes and no other job. The flag
-- stays, so that the next job of the user meets it too.
pub execute_job-cancels :
    (env : Env) (w : App) (d : Draws) (acquired : Bool) (j : Job)
    → get_internal w.st.db j.id ≡ some j
    → status_in j.status waiting_statuses ≡ true
    → w.cancel_store j.actor_id ≡ true
    → ((execute_job env w d j.id acquired).0 ≡ ok tt)
      × HasStatus (execute_job env w d j.id acquired).1.st.db j.actor_id j.id JobStatus.cancelled
      × OnlyJobs w (execute_job env w d j.id acquired).1
      × ((b k : ℕ)
          → (b ≢ j.actor_id) ⊎ (k ≢ j.id)
          → get (execute_job env w d j.id acquired).1.st.db b k ≡ get w.st.db b k)
unfolding execute_job
execute_job-cancels env w d acquired j found waits flag =
    let (cancelled, others) =
      cancel-moves env.redact w.st.db d.now j (get-of-get_internal w.st.db j.id j found) in
    rw (found, waits, flag, execute_job) (refl, cancelled, (refl, refl, refl, refl), others)
