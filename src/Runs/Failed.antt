-- ===== src/Runs/Failed.antt =====
-- Where src/beachops/services/run_finalizer.py leads a job.
use beachops.Base.{
  ℕ, ◌≡◌, refl, ap, ◌∙◌, inl, inr, Bool, true, false, not, ◌&&◌, Option, none, some, is_some, [],
  ◌∷◌, Text, find?, find?-sound, find?-narrow, find?-none_iff, find?-any-none, find?-update_where,
  Bool-cases, Option-cases, arith, if◌then◌else◌, text, text_eq, is_empty,
}
use beachops.Security.{UserMode, Job, JobStatus, running, planning}
use beachops.Database.{Db, Result, ok, status_in}
use beachops.Jobs.{owned, has_id, update_owned, with_status}
use beachops.Jobs.Queries.{get, get_internal}
use beachops.Jobs.Runtime.{
  mark_finalized, with_finalized, set_result, set_runtime, with_result, with_runtime,
}
use beachops.Jobs.Transition.{transition-compare_and_set}
use beachops.Dispatch.{State}
use beachops.Runs.Verdict.{verdict-fate}
use beachops.Runs.{
  App, Tools, RunOutcome, StreamState, with_db, still_runs, is_plan, is_success, verdict, settle,
  settle_details, active_statuses, columns_of, conclude, store_run, finish, finalize,
}

-- The status of the actor's job.
abbrev pub HasStatus : Db → (a i : ℕ) → JobStatus → Type 0
HasStatus db a i s = (j : Job) × (get db a i ≡ some j) × (j.status ≡ s)

pub HasStatus-at :
    (db : Db) (a i : ℕ) {s t : JobStatus} → HasStatus db a i s → s ≡ t → HasStatus db a i t
HasStatus-at db a i (j, found, at_s) e = (j, found, at_s ∙ e)

update_owned-HasStatus :
    (db : Db) (a i : ℕ) (s : JobStatus) (extra : Job → Bool) (f : Job → Job)
    → ((j : Job) → (f j).id ≡ j.id)
    → ((j : Job) → (f j).actor_id ≡ j.actor_id)
    → ((j : Job) → (f j).status ≡ j.status)
    → HasStatus db a i s
    → HasStatus (update_owned db a i extra f).1 a i s
unfolding update_owned get
update_owned-HasStatus db a i s extra f id actor status (j, found, at_s) = (
  (if owned a i j && extra j then f j else j),
  find?-update_where (λ x. owned a i x && extra x) (owned a i) f db.jobs
        (λ x. ground (arith, id x, actor x))
      ∙ rw found refl,
  elim (Bool-cases (owned a i j && extra j)) [ inl e ↦ rw e (status j ∙ at_s) | inr e ↦ rw e at_s ],
)

module _ (k : Tools) (now a i : ℕ) where
  store_run-HasStatus :
      (db : Db) (s : JobStatus) (run : StreamState)
      → HasStatus db a i s
      → HasStatus (store_run k db now a i run) a i s
  unfolding store_run set_result set_runtime
  store_run-HasStatus db s run h =
      update_owned-HasStatus _ a i s (λ _. true) (with_runtime (columns_of run) now) (λ j. refl)
        (λ j. refl) (λ j. refl)
        (update_owned-HasStatus db a i s (λ _. true) (with_result k.services.redact run.result now)
          (λ j. refl) (λ j. refl) (λ j. refl) h)

  -- The transition takes running and planning jobs, and no other.
  settle-HasStatus :
      (db : Db) (s : JobStatus) (outcome : RunOutcome)
      → HasStatus db a i s
      → HasStatus
          (settle k db now a i outcome)
          a
          i
          (if status_in s active_statuses then (verdict outcome).0 else s)
  unfolding settle
  settle-HasStatus db s outcome (j, found, at_s) =
      elim (transition-compare_and_set k.services.redact db now a i running (planning ∷ [])
        (verdict outcome).0 (verdict outcome).1 (settle_details outcome)) [
          | inl (inl missing, kept) ↦ absurd (lost missing found)
          | inl (inr (x, at_x, other), kept) ↦
              let at_x_s : x.status ≡ s = one_row at_x found ∙ at_s in
              let miss : status_in s active_statuses ≡ false = rw (← at_x_s) other in
              rw miss (x, ap (λ (r : Result (Option Job) × Db). get r.1 a i) kept ∙ at_x, at_x_s)
          | inr (x, accepted, moved) ↦
              let at_x_s : x.status ≡ s = one_row accepted.0 found ∙ at_s in
              let hit : status_in s active_statuses ≡ true = rw (← at_x_s) accepted.1 in
              rw hit (with_status (verdict outcome).0 now x, moved.1, refl)
        ]
    where
      lost : {o : Option Job} {x : Job} → o ≡ none → o ≡ some x → ⊥
      lost e f = cc

      one_row : {o : Option Job} {x y : Job} → o ≡ some x → o ≡ some y → x.status ≡ y.status
      one_row e f = ground arith

get_internal-some :
    (db : Db) (a i : ℕ) {j : Job} → get db a i ≡ some j → (x : Job) × (get_internal db i ≡ some x)
unfolding get get_internal
get_internal-some db a i {j} found = elim (Option-cases (find? (has_id i) db.jobs)) [
  | inr x ↦ x
  | inl missing ↦ absurd (
      lost
        (find?-any-none (owned a i) (has_id i) db.jobs (find?-none_iff (has_id i) db.jobs missing)
          (λ x h. ground arith))
        found)
]
  where
    lost : {o : Option Job} {x : Job} → o ≡ none → o ≡ some x → ⊥
    lost e f = cc

mark_finalized-claims :
    (db : Db) (now a i : ℕ) (j : Job)
    → get db a i ≡ some j
    → j.finalized_at ≡ none
    → (mark_finalized db now a i).0 ≡ true
unfolding mark_finalized update_owned get
mark_finalized-claims db now a i j found unset =
    let hit : find? (λ x. owned a i x && not (is_some x.finalized_at)) db.jobs ≡ some j =
      find?-narrow (owned a i) (λ x. owned a i x && not (is_some x.finalized_at)) db.jobs
        (λ x h. ground arith) found (ground (arith, find?-sound (owned a i) db.jobs found)) in
    ap
      (λ (o : Option Job).
        is_some
          (elim o as (λ o. Option Job) [ none ↦ none | some row ↦ some (with_finalized now row) ]))
      hit

pub mark_finalized-HasStatus :
    (db : Db) (now a i : ℕ) (s : JobStatus)
    → HasStatus db a i s
    → HasStatus (mark_finalized db now a i).1 a i s
unfolding mark_finalized
mark_finalized-HasStatus db now a i s h =
    update_owned-HasStatus db a i s (λ j. not (is_some j.finalized_at)) (with_finalized now)
      (λ j. refl) (λ j. refl) (λ j. refl) h

conclude-settles :
    (k : Tools) (st : State) (now id a i : ℕ) (mode : UserMode) (outcome : RunOutcome)
    (tokens : ℕ → Text × Text)
    → (is_plan mode && is_success outcome) ≡ false
    → conclude k st now id a i mode outcome tokens
      ≡ (ok tt, record st { db = settle k st.db now a i outcome })
unfolding conclude
conclude-settles k st now id a i mode outcome tokens other = rw other refl

finish-HasStatus :
    (k : Tools) (w : App) (now id i a : ℕ) (mode : UserMode) (outcome : RunOutcome)
    (tokens : ℕ → Text × Text) (s : JobStatus)
    → HasStatus w.st.db a i s
    → (is_plan mode && is_success outcome) ≡ false
    → ((finish k w now id i a mode outcome tokens).0 ≡ ok true)
      × HasStatus
          (finish k w now id i a mode outcome tokens).1.st.db
          a
          i
          (if status_in s active_statuses then (verdict outcome).0 else s)
unfolding finish
finish-HasStatus k w now id i a mode outcome tokens s h other =
    let stored : HasStatus (store_run k w.st.db now a i outcome.state) a i s =
      store_run-HasStatus k now a i w.st.db s outcome.state h in
    let settled =
      settle-HasStatus k now a i (store_run k w.st.db now a i outcome.state) s outcome stored in
    let (x, there) = get_internal-some (store_run k w.st.db now a i outcome.state) a i stored.1 in
    let ended =
      conclude-settles k (with_db w (store_run k w.st.db now a i outcome.state)).st now id a i mode
        outcome tokens other in
    rw (there, ended, finish) (refl, rw ended settled)

-- The first finalization of a terminal run that is not a plan, by `verdict`.
pub finalize-verdict :
    (k : Tools) (w : App) (now id i a : ℕ) (mode : UserMode) (outcome : RunOutcome)
    (tokens : ℕ → Text × Text) (j : Job)
    → get w.st.db a i ≡ some j
    → j.finalized_at ≡ none
    → still_runs outcome.status ≡ false
    → (is_plan mode && is_success outcome) ≡ false
    → ((finalize k w now id i a mode outcome tokens).0 ≡ ok true)
      × HasStatus
          (finalize k w now id i a mode outcome tokens).1.st.db
          a
          i
          (if status_in j.status active_statuses then (verdict outcome).0 else j.status)
unfolding finalize
finalize-verdict k w now id i a mode outcome tokens j found unset over other =
    let claimed = mark_finalized-claims w.st.db now a i j found unset in
    rw (over, claimed, finalize)
      (finish-HasStatus k (with_db w (mark_finalized w.st.db now a i).1) now id i a mode outcome
        tokens j.status (mark_finalized-HasStatus w.st.db now a i j.status (j, found, refl)) other)

-- Where a terminal run that is not a plan leads the actor's job, when it is finalized for the first
-- time: a running or planning job is cancelled if the run was, succeeded if the run finished without
-- an error message or with an empty one, and failed else. A job of any other status keeps it, though
-- the call answers true.
pub finalize-HasStatus :
    (k : Tools) (w : App) (now id i a : ℕ) (mode : UserMode) (outcome : RunOutcome)
    (tokens : ℕ → Text × Text) (j : Job)
    → get w.st.db a i ≡ some j
    → j.finalized_at ≡ none
    → still_runs outcome.status ≡ false
    → (is_plan mode && is_success outcome) ≡ false
    → ((finalize k w now id i a mode outcome tokens).0 ≡ ok true)
      × HasStatus (finalize k w now id i a mode outcome tokens).1.st.db a i (
          if status_in j.status (running ∷ planning ∷ [])
          then (if text_eq outcome.status (text "cancelled")
              then JobStatus.cancelled
              else if text_eq outcome.status (text "finished")
                  && elim outcome.error_message [ none ↦ true | some message ↦ is_empty message ]
              then JobStatus.succeeded
              else JobStatus.failed)
          else j.status)
finalize-HasStatus k w now id i a mode outcome tokens j found unset over other =
    let (told, at_verdict) =
      finalize-verdict k w now id i a mode outcome tokens j found unset over other in
    (
      told,
      HasStatus-at _ a i at_verdict (
          ap (λ s. if status_in j.status active_statuses then s else j.status)
            (verdict-fate outcome)),
    )
