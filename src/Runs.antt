-- ===== src/Runs.antt =====
-- What a run of a cloud agent leaves behind: RunFinalizer, src/beachops/services/run_finalizer.py.
-- `now` is the clock of every statement, `id` a fresh identifier (of a job or an approval), `tokens`
-- what the random source draws for an owner. Of the messages, the one to an owner who is to approve a
-- plan is an argument, since its exception is not caught; the others, the memory index and the
-- delivery of artifacts are left out, whose exceptions are caught.
pub mod Model
pub mod Plan
pub mod Chain
pub mod Once
pub mod Verdict
pub mod Failed
pub mod Reconciler
pub mod Worker
use beachops.Base.{
  ℕ, ◌+◌, ◌*◌, ◌==◌, Bool, true, false, not, ◌&&◌, ◌||◌, Option, none, some, is_some, List, [], ◌∷◌,
  ◌++◌, Text, text, text_eq, text_in, is_empty, any, update_where, if◌then◌else◌,
}
use beachops.Security.{
  Role, owner, UserMode, ask, plan, do_mode, Job, JobStatus, ApprovalKind, plan_execution, running,
  planning, awaiting_approval,
}
use beachops.Redaction
use beachops.Redaction.{Json}
use beachops.Database.{Db, User, Error, Result, ok, raise}
use beachops.Jobs.{transition}
use beachops.Jobs.Queries.{get_internal}
use beachops.Jobs.Runtime.{RuntimeColumns, set_runtime, RunResult, set_result, mark_finalized}
use beachops.Approvals
use beachops.Tokens.{issue_for_recipient}
use beachops.AgentSlots.{AgentSlot, SlotDb, get_active}
use beachops.AgentSlots.Config.{set_active_run}
use beachops.Dispatch.{Services, State}
use beachops.Decisions.{Outcome, Crypto, approve_job}
pub use beachops.Runs.Model.{App, RunSettings, StreamState, RunOutcome, Tools, with_db}
unfoldable pub use beachops.Runs.Plan.{
  ensure_owner, distinct_ids, owner_ids, notify_owner, notify_owners, request_approval,
  kind_details, auto_approve, request_plan, finalize_plan,
}

unfoldable pub still_runs : Text → Bool
unfolding text_in
still_runs status =
    text_in status (text "" ∷ text "running" ∷ text "creating" ∷ text "in_progress" ∷ [])

abbrev pub active_statuses : List JobStatus
active_statuses = running ∷ planning ∷ []

unfoldable pub is_plan : UserMode → Bool
is_plan ask = false
is_plan plan = true
is_plan do_mode = false

-- `outcome.status == "finished" and not outcome.error_message`
abbrev pub has_error : Option Text → Bool
has_error none = false
has_error (some message) = not (is_empty message)

unfoldable pub is_success : RunOutcome → Bool
unfolding text_eq is_empty
is_success outcome =
    text_eq outcome.status (text "finished") && not (has_error outcome.error_message)

-- Where the transition leads, and its event.
unfoldable pub verdict : RunOutcome → JobStatus × Text
unfolding text_eq is_success
verdict outcome =
    if text_eq outcome.status (text "cancelled")
    then (JobStatus.cancelled, text "finalizer.cancelled")
    else if is_success outcome
    then (JobStatus.succeeded, text "finalizer.finished")
    else (JobStatus.failed, text "finalizer.failed")

-- The `details` of the transition to FAILED.
abbrev pub reason_of : RunOutcome → Text
reason_of outcome = elim outcome.error_message [
  | none ↦ outcome.status
  | some message ↦ if is_empty message then outcome.status else message
]

abbrev pub settle_details : RunOutcome → Option Json
settle_details outcome =
    if text_eq outcome.status (text "cancelled") || is_success outcome
    then none
    else some
        (Json.obj (Redaction.field (text "reason") (Json.str (reason_of outcome)) Redaction.end))

unfoldable pub settle : Tools → Db → (now : ℕ) → (actor_id job_id : ℕ) → RunOutcome → Db
unfolding transition verdict
settle k db now actor_id job_id outcome =
    (transition k.services.redact db now actor_id job_id active_statuses (verdict outcome).0
      (verdict outcome).1 (settle_details outcome)).1

-- The branches on the mode and the outcome.
unfoldable pub conclude :
    Tools
    → State
    → (now id : ℕ) → (actor_id job_id : ℕ) → UserMode
    → RunOutcome
    → (ℕ → Text × Text)
    → Result (Unit {0}) × State
unfolding is_plan is_success finalize_plan settle
conclude k st now id actor_id job_id mode outcome tokens =
    if is_plan mode && is_success outcome
    then finalize_plan k st now id actor_id job_id tokens
    else (ok tt, record st { db = settle k st.db now actor_id job_id outcome })

abbrev pub same_run : Option Text → Option Text → Bool
same_run none none = true
same_run none (some r) = false
same_run (some q) none = false
same_run (some q) (some r) = text_eq q r

-- The active slot lets go of the run.
unfoldable pub release_slot : SlotDb → (now actor_id : ℕ) → Option Text → SlotDb
unfolding get_active set_active_run text_eq
release_slot slots now actor_id run_id = elim (get_active slots actor_id) [
  | none ↦ slots
  | some slot ↦
      if same_run slot.active_run_id run_id then set_active_run slots now slot.id none else slots
]

abbrev pub columns_of : StreamState → RuntimeColumns
columns_of s = record {
  cursor_agent_id = s.agent_id;
  cursor_run_id = s.run_id;
  cursor_token_key = none;
  cursor_last_event_id = s.last_event_id;
  cursor_run_status = some s.status;
  telegram_message_id = none;
  telegram_chat_id = none;
}

-- What is stored of the run before the branches.
unfoldable pub store_run : Tools → Db → (now : ℕ) → (actor_id job_id : ℕ) → StreamState → Db
unfolding set_result set_runtime
store_run k db now actor_id job_id s =
    (set_runtime (set_result k.services.redact db now actor_id job_id s.result).1 now actor_id
      job_id (columns_of s)).1

-- `finalize` once the job is claimed.
unfoldable pub finish :
    Tools
    → App
    → (now id : ℕ) → (job_id actor_id : ℕ) → UserMode
    → RunOutcome
    → (ℕ → Text × Text)
    → Result Bool × App
unfolding store_run get_internal conclude release_slot
finish k w now id job_id actor_id mode outcome tokens =
    let stored = with_db w (store_run k w.st.db now actor_id job_id outcome.state) in
    elim (get_internal stored.st.db job_id) [
      | none ↦ (ok true, stored)
      | some job ↦
          let (told, st) = conclude k stored.st now id actor_id job_id mode outcome tokens in
          elim told [
            | raise e ↦ (raise e, record stored { st = st })
            | ok _ ↦ (
              ok true,
              record stored {
                st = st;
                slots = release_slot stored.slots now actor_id outcome.state.run_id;
              },
            )
          ]
    ]

unfoldable pub finalize :
    Tools
    → App
    → (now id : ℕ) → (job_id actor_id : ℕ) → UserMode
    → RunOutcome
    → (ℕ → Text × Text)
    → Result Bool × App
unfolding still_runs mark_finalized finish
finalize k w now id job_id actor_id mode outcome tokens =
    if still_runs outcome.status
    then (ok false, w)
    else (let (claimed, db) = mark_finalized w.st.db now actor_id job_id in
        if claimed
        then finish k (with_db w db) now id job_id actor_id mode outcome tokens
        else (ok false, with_db w db))
