-- ===== src/Runs/Reconciler/Settles.antt =====
-- Where the reconciler leads a job: src/beachops/services/run_reconciler.py.
use beachops.Base.{
  ◌≡◌, refl, ap, ◌∙◌, inl, inr, Bool, true, false, not, ◌&&◌, Option, none, some, text, is_empty,
  text_eq, text_eq_iff, Text, Bool-cases, Option-cases, lower, if◌then◌else◌,
}
use beachops.Security.{Job, JobStatus}
use beachops.Database.{Result, ok, Result-cases, status_in}
use beachops.Jobs.Queries.{get}
use beachops.AgentSlots.{AgentSlot, RepoConfig, SlotDb}
use beachops.SlotService.{get_run_context}
use beachops.Runs.{
  App, RunOutcome, still_runs, is_plan, is_success, verdict, active_statuses, finalize, has_error,
}
use beachops.Runs.Failed.{HasStatus, HasStatus-at, finalize-verdict, mark_finalized-HasStatus}
use beachops.Runs.Reconciler.{
  Env, Draws, RunInfo, finalized, still_running, moved, ReconcileResult, UsageBreakdown, Move,
  report, close, recover, fetch_run, run_ids, next_move, mode_of, outcome_of, with_slots, reported,
  answer, recover_run, reconcile_job,
}

module _ (env : Env) (w : App) (d : Draws) (j : Job) (info : RunInfo) where
  abbrev Settled : RunOutcome → Result (Option ReconcileResult) × App → Type 0
  Settled outcome (result, after) =
      (result ≡ answer j finalized info)
      × HasStatus after.st.db j.actor_id j.id
          (if status_in j.status active_statuses then (verdict outcome).0 else j.status)

  -- `finalize`, as the reconciler calls it.
  finalize-Settled :
      (slots : SlotDb) (usage : Option UsageBreakdown)
      → get w.st.db j.actor_id j.id ≡ some j
      → j.finalized_at ≡ none
      → still_runs (lower info.status) ≡ false
      → is_plan (mode_of env.tools.crypto j) ≡ false
      → Settled (outcome_of j info usage) (
          let (done, after) =
            finalize env.tools
              (with_slots w slots)
              d.now
              d.approval_id
              j.id
              j.actor_id
              (mode_of env.tools.crypto j)
              (outcome_of j info usage)
              d.tokens in
          (reported done j info, after))
  unfolding outcome_of
  finalize-Settled slots usage found unset over other =
      let (told, status) =
        finalize-verdict env.tools (with_slots w slots) d.now d.approval_id j.id j.actor_id
          (mode_of env.tools.crypto j) (outcome_of j info usage) d.tokens j found unset over
          (rw other refl) in
      (ap (λ r. reported r j info) told, status)

  recover_run-settles :
      (agent run : Text) (usage : Option UsageBreakdown) (ctx : Option (AgentSlot × RepoConfig))
      → get w.st.db j.actor_id j.id ≡ some j
      → j.finalized_at ≡ none
      → still_runs (lower info.status) ≡ false
      → is_plan (mode_of env.tools.crypto j) ≡ false
      → env.api.fetch_run_usage j.cursor_token_key agent run ≡ ok usage
      → (get_run_context env.collate env.settings w.slots d.now d.repo_id j.actor_id d.label).0
        ≡ ok ctx
      → Settled (outcome_of j info usage) (recover_run env w d j agent run info)
  unfolding recover_run
  recover_run-settles agent run usage ctx found unset over other known there =
      rw (known, there, recover_run) (finalize-Settled _ usage found unset over other)

  -- Where the call for the usage or the slot service raises, only the slots are written.
  recover_run-keeps :
      (agent run : Text)
      → get w.st.db j.actor_id j.id ≡ some j
      → j.finalized_at ≡ none
      → still_runs (lower info.status) ≡ false
      → is_plan (mode_of env.tools.crypto j) ≡ false
      → status_in j.status active_statuses ≡ false
      → HasStatus (recover_run env w d j agent run info).1.st.db j.actor_id j.id j.status
  unfolding recover_run
  recover_run-keeps agent run found unset over other at_rest =
      elim (Result-cases (env.api.fetch_run_usage j.cursor_token_key agent run)) [
        | inl (e, lost) ↦ rw (lost, recover_run) (j, found, refl)
        | inr (usage, known) ↦
            elim (Result-cases
              (get_run_context env.collate env.settings w.slots d.now d.repo_id j.actor_id
                d.label).0) [
                  | inl (e, lost) ↦ rw (known, lost, recover_run) (j, found, refl)
                  | inr (ctx, there) ↦
                      HasStatus-at _ _ _
                        (recover_run-settles agent run usage ctx found unset over other known
                          there).1
                        (kept usage)
                ]
      ]
    where
      kept :
          (usage : Option UsageBreakdown)
          → (if status_in j.status active_statuses
              then (verdict (outcome_of j info usage)).0
              else j.status)
            ≡ j.status
      kept usage = rw at_rest refl

is_resting : (s : JobStatus) → s ≡ JobStatus.failed → status_in s active_statuses ≡ false
unfolding status_in
is_resting s e = rw e refl

-- What is recovered, of a failed or a running job, is a run that has ended.
recover-over :
    (s : JobStatus) (gone : Bool) (status : Text)
    → next_move s gone status ≡ recover
    → still_runs status ≡ false
unfolding next_move
recover-over s gone status moved = elim (Bool-cases (still_runs status)) [
  | inr over ↦ over
  | inl runs ↦ absurd (reports (rw runs refl ∙ moved))
]
  where
    reports : report still_running ≡ recover → ⊥
    reports e = cc

-- A failed job that is not finalized and not of mode PLAN stays FAILED when it is reconciled, whatever Cursor reports
-- of its run and whatever its payload is, also where the call raises.
pub reconcile_job-stays_failed :
    (env : Env) (w : App) (d : Draws) (j : Job)
    → get w.st.db j.actor_id j.id ≡ some j
    → j.finalized_at ≡ none
    → j.status ≡ JobStatus.failed
    → is_plan (mode_of env.tools.crypto j) ≡ false
    → HasStatus (reconcile_job env w d j).1.st.db j.actor_id j.id JobStatus.failed
unfolding reconcile_job
reconcile_job-stays_failed env w d j found unset at_s other = elim (Option-cases (run_ids j)) [
  | inl missing ↦ rw (missing, reconcile_job) here
  | inr ((agent, run), ids) ↦
      elim (Option-cases (fetch_run (env.api.get_run_snapshot j.cursor_token_key agent run))) [
        | inl missing ↦ rw (ids, missing, reconcile_job) here
        | inr (info, fetched) ↦ rw (ids, fetched, reconcile_job) (go agent run info _ refl)
      ]
]
  where
    here : HasStatus w.st.db j.actor_id j.id JobStatus.failed
    here = (j, found, at_s)

    go :
        (agent run : Text) (info : RunInfo) (m : Move)
        → next_move j.status info.gone (lower info.status) ≡ m
        → HasStatus (moved env w d j agent run info m).1.st.db j.actor_id j.id JobStatus.failed
    go agent run info (report action) e = here
    go agent run info close e =
        mark_finalized-HasStatus w.st.db d.now j.actor_id j.id JobStatus.failed here
    go agent run info recover e =
        HasStatus-at _ _ _
          (recover_run-keeps env w d j info agent run found unset
            (recover-over j.status info.gone (lower info.status) e) other
            (is_resting j.status at_s))
          at_s

recover-active :
    (s : JobStatus) (gone : Bool) (status : Text)
    → status_in s active_statuses ≡ true
    → still_runs status ≡ false
    → next_move s gone status ≡ recover
unfolding next_move status_in
recover-active JobStatus.draft gone status active over = cc
recover-active JobStatus.queued gone status active over = cc
recover-active JobStatus.planning gone status active over = rw over refl
recover-active JobStatus.awaiting_approval gone status active over = cc
recover-active JobStatus.approved gone status active over = cc
recover-active JobStatus.running gone status active over = rw over refl
recover-active JobStatus.review_required gone status active over = cc
recover-active JobStatus.revision_requested gone status active over = cc
recover-active JobStatus.paused gone status active over = cc
recover-active JobStatus.accepted gone status active over = cc
recover-active JobStatus.rejected gone status active over = cc
recover-active JobStatus.succeeded gone status active over = cc
recover-active JobStatus.failed gone status active over = cc
recover-active JobStatus.cancelled gone status active over = cc
recover-active JobStatus.blocked gone status active over = cc

verdict-outcome_of :
    (j : Job) (info : RunInfo) (usage : Option UsageBreakdown)
    → (verdict (outcome_of j info usage)).0 ≡ (
        if text_eq (lower info.status) (text "cancelled")
        then JobStatus.cancelled
        else if text_eq (lower info.status) (text "finished") && not info.gone
        then JobStatus.succeeded
        else JobStatus.failed)
unfolding verdict is_success outcome_of text_eq is_empty
verdict-outcome_of j info usage =
    go (text_eq (lower info.status) (text "cancelled"))
      (text_eq (lower info.status) (text "finished")) (text_eq (lower info.status) (text "error"))
      info.gone (λ e. rw ((text_eq_iff (lower info.status) (text "error")).0 e) refl)
  where
    go :
        (c f e g : Bool)
        → (e ≡ true → f ≡ false)
        → let decided : JobStatus × Text =
            (if c
              then (JobStatus.cancelled, text "finalizer.cancelled")
              else if f
                  && not (
                      has_error (
                        if g
                        then some (text "Cursor agent disappeared")
                        else if e
                        then some (text "Run finished with error")
                        else none))
              then (JobStatus.succeeded, text "finalizer.finished")
              else (JobStatus.failed, text "finalizer.failed")) in
          decided.0 ≡ (
            if c
            then JobStatus.cancelled
            else if f && not g
            then JobStatus.succeeded
            else JobStatus.failed)
    go true f e g apart = refl
    go false false e g apart = refl
    go false true e true apart = refl
    go false true true false apart = (let clash = apart refl in cc)
    go false true false false apart = refl

-- A running or planning job that is not finalized, whose run Cursor knows to have ended, or not to be there, is settled by
-- the reconciler, where the usage and the slot's context can be read and the mode is not PLAN: it
-- answers that it finalized the job, and the job is cancelled if the run was, succeeded if it
-- finished and its agent is not gone, and failed else.
pub reconcile_job-settles :
    (env : Env) (w : App) (d : Draws) (j : Job) (agent run : Text) (info : RunInfo)
    (usage : Option UsageBreakdown) (ctx : Option (AgentSlot × RepoConfig))
    → get w.st.db j.actor_id j.id ≡ some j
    → j.finalized_at ≡ none
    → status_in j.status active_statuses ≡ true
    → is_plan (mode_of env.tools.crypto j) ≡ false
    → run_ids j ≡ some (agent, run)
    → fetch_run (env.api.get_run_snapshot j.cursor_token_key agent run) ≡ some info
    → still_runs (lower info.status) ≡ false
    → env.api.fetch_run_usage j.cursor_token_key agent run ≡ ok usage
    → (get_run_context env.collate env.settings w.slots d.now d.repo_id j.actor_id d.label).0
      ≡ ok ctx
    → ((reconcile_job env w d j).0 ≡ answer j finalized info)
      × HasStatus (reconcile_job env w d j).1.st.db j.actor_id j.id (
          if text_eq (lower info.status) (text "cancelled")
          then JobStatus.cancelled
          else if text_eq (lower info.status) (text "finished") && not info.gone
          then JobStatus.succeeded
          else JobStatus.failed)
unfolding reconcile_job
reconcile_job-settles env w d j agent run info usage ctx found unset active other ids fetched over
      known there =
    let (told, (x, found', at_x)) =
      recover_run-settles env w d j info agent run usage ctx found unset over other known there in
    rw
      (
        ids,
        fetched,
        recover-active j.status info.gone (lower info.status) active over,
        reconcile_job,
      )
      (told, (x, found', at_x ∙ rw active (verdict-outcome_of j info usage)))
