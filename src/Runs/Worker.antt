-- ===== src/Runs/Worker.antt =====
-- How the ARQ worker starts a job: `execute_job` of src/beachops/worker.py. `acquired` says whether
-- the actor's lock is got. `launch` stands for the start of the run, with all that it writes. Messages
-- and the log are left out.
pub mod Cancelled
use beachops.Base.{
  ℕ, ◌*◌, ◌-◌, ◌==◌, leb, Bool, true, false, not, ◌&&◌, Option, none, some, is_some, List, [], ◌∷◌,
  ◌++◌, Text, text, is_empty, if◌then◌else◌,
}
use beachops.Security.{
  UserMode, ask, plan, do_mode, Job, JobStatus, queued, planning, running, approved,
  revision_requested,
}
use beachops.Redaction
use beachops.Redaction.{Json}
use beachops.Database.{Db, Result, ok, raise, status_in, value_error, runtime_error}
use beachops.Jobs.{transition}
use beachops.Jobs.Queries.{get_internal, latest_active_for_actor, waiting_statuses}
use beachops.Jobs.Runtime.{mark_finalized}
use beachops.AgentSlots.{AgentSlot, RepoConfig}
use beachops.Dispatch.{PromptBody}
use beachops.Decisions.{or_blank}
use beachops.Repos.{Settings}
use beachops.SlotService.{get_run_context}
use beachops.Runs.{App, with_db, active_statuses}
use beachops.Runs.Reconciler.{Draws, with_slots}

-- `decrypt_json` raises, or gives a payload without a mode or a prompt, or the body.
pub data Payload : Type 0 where
  unreadable invalid : Payload
  body : PromptBody → Payload

-- How `launch_durable_cloud_job` ends: it returns, or raises because of Telegram's flood control, of
-- Cursor's limit of agents, or else.
pub data Launch : Type 0 where
  launched : Launch
  flood exhausted broken : Text → Launch

-- What the worker uses and does not define.
pub record Env : Type 0 where
  pub redact : Text → Text
  pub collate : Text → ℕ
  pub settings : Settings
  pub decrypt : Text → Payload
  pub decodes_images : PromptBody → Bool
  pub launch : App → Job → PromptBody → AgentSlot × RepoConfig → Launch × App

abbrev pub details_of : (key value : Text) → Option Json
details_of key value = some (Json.obj (Redaction.field key (Json.str value) Redaction.end))

abbrev pub reason_or_unknown : Text → Text
reason_or_unknown reason = if is_empty reason then text "unknown" else reason

unfoldable pub fail_job : Env → App → ℕ → Job → Text → App
unfolding transition mark_finalized is_empty
fail_job env w now job reason =
    let db =
      (transition env.redact w.st.db now job.actor_id job.id
        (queued ∷ planning ∷ running ∷ approved ∷ revision_requested ∷ []) JobStatus.failed
        (text "worker.failed") (details_of (text "reason") (reason_or_unknown reason))).1 in
    with_db w (mark_finalized db now job.actor_id job.id).1

abbrev pub defer : App → (job_id seconds : ℕ) → App
defer w job_id seconds = record w { deferred = w.deferred ++ (job_id, seconds) ∷ [] }

unfoldable pub requeue :
    Env → App → (now : ℕ) → Job → (seconds : ℕ) → (event_type reason : Text) → App
unfolding transition
requeue env w now job seconds event_type reason =
    defer
      (with_db w
        (transition env.redact w.st.db now job.actor_id job.id active_statuses queued event_type
          (details_of (text "reason") reason)).1)
      job.id seconds

abbrev pub has_text : Option Text → Bool
has_text none = false
has_text (some t) = not (is_empty t)

-- The job has reached Cursor, and is left to the reconciler.
unfoldable pub is_under_way : Option Job → Bool
unfolding is_empty status_in
is_under_way none = false
is_under_way (some job) =
    has_text job.cursor_agent_id
    && has_text job.cursor_run_id
    && status_in job.status active_statuses

-- The `except` clause around the launch.
unfoldable pub after_launch : Env → App → (now : ℕ) → Job → Launch → App
unfolding get_internal is_under_way requeue fail_job
after_launch env w now job launched = w
after_launch env w now job (flood reason) =
    if is_under_way (get_internal w.st.db job.id)
    then w
    else requeue env w now job 15 (text "worker.requeue_flood") reason
after_launch env w now job (exhausted reason) =
    if is_under_way (get_internal w.st.db job.id)
    then w
    else requeue env w now job 60 (text "worker.requeue_capacity")
        (text "Cursor agent capacity exhausted")
after_launch env w now job (broken reason) =
    if is_under_way (get_internal w.st.db job.id) then w else fail_job env w now job reason

abbrev pub target_status : UserMode → JobStatus
target_status ask = running
target_status plan = planning
target_status do_mode = running

abbrev pub mode_value : UserMode → Text
mode_value ask = text "ask"
mode_value plan = text "plan"
mode_value do_mode = text "do"

-- From the transition to the end of the launch.
unfoldable pub start_job :
    Env → App → (now : ℕ) → Job → PromptBody → AgentSlot × RepoConfig → Result (Unit {0}) × App
unfolding transition after_launch
start_job env w now job payload run_context =
    let (transitioned, db) =
      transition env.redact w.st.db now job.actor_id job.id (job.status ∷ [])
        (target_status payload.mode) (text "worker.started")
        (details_of (text "mode") (mode_value payload.mode)) in
    elim transitioned [
      | raise e ↦ (raise e, with_db w db)
      | ok found ↦ elim found [
        | none ↦ (ok tt, with_db w db)
        | some started ↦
            let (ended, after) = env.launch (with_db w db) job payload run_context in
            (ok tt, after_launch env after now started ended)
      ]
    ]

-- `_execute_locked`
unfoldable pub execute_locked : Env → App → Draws → Job → Result (Unit {0}) × App
unfolding fail_job get_run_context start_job
execute_locked env w d job = elim (env.decrypt (or_blank job.payload_ciphertext)) [
  | unreadable ↦ (raise value_error, w)
  | invalid ↦ (raise runtime_error, fail_job env w d.now job (text "invalid encrypted payload"))
  | body payload ↦ elim (env.decodes_images payload) [
    | false ↦ (ok tt, fail_job env w d.now job (text "invalid images payload"))
    | true ↦
        let (ctx, slots) =
          get_run_context env.collate env.settings w.slots d.now d.repo_id job.actor_id d.label in
        elim ctx [
          | raise e ↦ (raise e, with_slots w slots)
          | ok found ↦ elim found [
            | none ↦ (
              ok tt,
              fail_job env (with_slots w slots) d.now job
                  (text "repository context is unavailable"),
            )
            | some run_context ↦ start_job env (with_slots w slots) d.now job payload run_context
          ]
        ]
  ]
]

-- Another run of the actor that is under way.
unfoldable pub blocks : Job → Job → Bool
unfolding is_empty
blocks job active =
    not (active.id == job.id)
    && has_text active.cursor_agent_id
    && has_text active.cursor_run_id
    && not (is_some active.finalized_at)

unfoldable pub blocker : Db → Job → Option Job
unfolding latest_active_for_actor blocks
blocker db job = elim (latest_active_for_actor db job.actor_id) [
  | none ↦ none
  | some active ↦ if blocks job active then some active else none
]

-- Twenty minutes without an update.
abbrev pub is_stale : ℕ → Job → Bool
is_stale now active = leb (20 * 60) (now - active.updated_at)

unfoldable pub fail_stale : Env → Db → (now : ℕ) → Job → Db
unfolding transition mark_finalized
fail_stale env db now active =
    (mark_finalized
      (transition env.redact db now active.actor_id active.id active_statuses JobStatus.failed
        (text "worker.zombie_timeout")
        (details_of (text "reason") (text "stale active run blocked queue"))).1
      now active.actor_id active.id).1

-- The lock of the actor, and what it guards.
unfoldable pub with_lock : Env → App → Draws → Job → Bool → Result (Unit {0}) × App
unfolding execute_locked
with_lock env w d job acquired =
    if acquired then execute_locked env w d job else (ok tt, defer w job.id 5)

-- A job that waits, once the cancel flag is read.
unfoldable pub pass_gate : Env → App → Draws → Job → Bool → Result (Unit {0}) × App
unfolding blocker fail_stale with_lock
pass_gate env w d job acquired = elim (blocker w.st.db job) [
  | none ↦ with_lock env w d job acquired
  | some active ↦
      if is_stale d.now active
      then with_lock env (with_db w (fail_stale env w.st.db d.now active)) d job acquired
      else (ok tt, defer w job.id 5)
]

abbrev pub cancel_before_start : Env → App → (now : ℕ) → Job → App
cancel_before_start env w now job =
    with_db w
      (transition env.redact w.st.db now job.actor_id job.id (job.status ∷ []) JobStatus.cancelled
        (text "user.cancel_before_start") none).1

unfoldable pub execute_job : Env → App → Draws → (job_id : ℕ) → Bool → Result (Unit {0}) × App
unfolding get_internal status_in transition pass_gate
execute_job env w d job_id acquired = elim (get_internal w.st.db job_id) [
  | none ↦ (ok tt, w)
  | some job ↦
      if not (status_in job.status waiting_statuses)
      then (ok tt, w)
      else if w.cancel_store job.actor_id
      then (ok tt, cancel_before_start env w d.now job)
      else pass_gate env w d job acquired
]
