-- ===== src/Cancellation.antt =====
-- What /cancel does: src/beachops/services/cancel_service.py, with the flag of
-- services/cancel_store.py, which its time to live ends. `cancel_run` is the call of the Cursor API;
-- the notices in the chat are left out.
pub mod Calls
pub mod Latest
pub mod Emptied
pub mod Stops
use beachops.Base.{
  ℕ, ◌+◌, Bool, true, ◌||◌, Option, none, some, [], ◌∷◌, Text, text, text_in, is_empty, ltb, put,
  if◌then◌else◌,
}
use beachops.Security.{Job, JobStatus}
use beachops.Database.{Db, Result, ok, raise, status_in}
use beachops.Jobs.{transition}
use beachops.Jobs.Queries.{latest_active_for_actor}
use beachops.Jobs.Queue.{cancel_queued_for_actor}
use beachops.JobQueue.{JobQueue, clear_pending, request_cancel}
use beachops.AgentSlots.{AgentSlot, SlotDb, get_active}
use beachops.AgentSlots.Config.{set_active_run}
use beachops.Runs.{active_statuses}

pub record ActiveRunInfo : Type 0 where
  pub message_id : ℕ
  pub chat_id : ℕ
  pub run_id : Option Text
  pub agent_id : Option Text

pub record CancelOutcome : Type 0 where
  pub cancelled_run : Bool
  pub cleared_queue : ℕ
  pub cancel_requested : Bool

unfoldable pub cancel_was_successful :
    CancelOutcome → (cleared_forward cleared_coalesce : Bool) → Bool
cancel_was_successful outcome cleared_forward cleared_coalesce =
    outcome.cancel_requested
    || outcome.cancelled_run
    || ltb 0 outcome.cleared_queue
    || cleared_forward
    || cleared_coalesce

-- The parts of the application that it reads and writes; `J` as in JobQueue.
pub record Work (J : Type 0) : Type 0 where
  pub job_queue : JobQueue J
  pub cancel_store : ℕ → Bool
  pub db : Db
  pub slots : SlotDb
  pub active_runs : ℕ → Option ActiveRunInfo

unfoldable pub normalize_cursor_token_key : Option Text → Text
unfolding text_in
normalize_cursor_token_key none = text "mt"
normalize_cursor_token_key (some key) =
    if text_in key (text "mt" ∷ text "mt2" ∷ text "mt3" ∷ []) then key else text "mt"

abbrev pub is_missing : Option Text → Bool
is_missing none = true
is_missing (some t) = is_empty t

-- `a or b`
abbrev pub or_else : Option Text → Option Text → Option Text
or_else a b = if is_missing a then b else a

abbrev pub slot_agent : Option AgentSlot → Option Text
slot_agent none = none
slot_agent (some slot) = slot.cursor_agent_id

abbrev pub slot_run : Option AgentSlot → Option Text
slot_run none = none
slot_run (some slot) = slot.active_run_id

abbrev pub slot_token_key : Option AgentSlot → Option Text
slot_token_key none = none
slot_token_key (some slot) = slot.cursor_token_key

abbrev pub memory_agent : Option ActiveRunInfo → Option Text
memory_agent none = none
memory_agent (some active) = active.agent_id

abbrev pub memory_run : Option ActiveRunInfo → Option Text
memory_run none = none
memory_run (some active) = active.run_id

-- The transition of the latest running or planning job.
unfoldable pub cancel_active : (Text → Text) → Db → (now user_id : ℕ) → Job → Db
unfolding status_in transition
cancel_active redact db now user_id job =
    if status_in job.status active_statuses
    then (transition redact db now user_id job.id (job.status ∷ []) JobStatus.cancelled
        (text "user.cancel") none).1
    else db

-- The agent and the run, which the latest job gives where they are not known, and the tables.
unfoldable pub durable_ids :
    (Text → Text)
    → Db
    → (now user_id : ℕ) → (agent run : Option Text) → (Option Text × Option Text) × Db
unfolding is_empty latest_active_for_actor cancel_active
durable_ids redact db now user_id agent run =
    if is_missing agent || is_missing run
    then (elim (latest_active_for_actor db user_id) [
      | none ↦ ((agent, run), db)
      | some job ↦ (
        (or_else agent job.cursor_agent_id, or_else run job.cursor_run_id),
        cancel_active redact db now user_id job,
      )
    ])
    else ((agent, run), db)

-- `if agent_id and run_id: …cancel_run(…)`
unfoldable pub stop_run :
    (Text → Text → Text → Result Bool) → Text → (agent run : Option Text) → Result Bool
unfolding is_empty
stop_run cancel_run key none run = ok Bool.false
stop_run cancel_run key (some agent) none = ok Bool.false
stop_run cancel_run key (some agent) (some run) =
    if is_empty agent || is_empty run then ok Bool.false else cancel_run key agent run

abbrev pub release : SlotDb → ℕ → Option AgentSlot → SlotDb
release slots now none = slots
release slots now (some slot) = set_active_run slots now slot.id none

module _ {J : Type 0} (redact : Text → Text) (cancel_run : Text → Text → Text → Result Bool) where
  -- The flags and the queues, and what was cleared of them.
  unfoldable pub clear_waiting : Work J → (now user_id : ℕ) → ℕ × Work J
  unfolding clear_pending cancel_queued_for_actor
  clear_waiting w now user_id =
      let (cleared, queue) = clear_pending w.job_queue user_id in
      let (cancelled, db) = cancel_queued_for_actor redact w.db now user_id in
      (
        cleared + cancelled,
        record w {
          job_queue = request_cancel queue user_id;
          cancel_store = put w.cancel_store user_id true;
          db = db;
        },
      )

  -- The end of `cancel_user_work`, on the answer for the run.
  abbrev pub unbind :
      Work J
      → (now user_id : ℕ) → Option AgentSlot
      → ℕ
      → Result Bool
      → Result CancelOutcome × Work J
  unbind w now user_id slot cleared (raise e) = (raise e, w)
  unbind w now user_id slot cleared (ok stopped) = (
    ok (record { cancelled_run = stopped; cleared_queue = cleared; cancel_requested = true }),
    record w { slots = release w.slots now slot; active_runs = put w.active_runs user_id none },
  )

  unfoldable pub cancel_user_work : Work J → (now user_id : ℕ) → Result CancelOutcome × Work J
  unfolding clear_waiting get_active durable_ids stop_run normalize_cursor_token_key set_active_run
      is_empty
  cancel_user_work w now user_id =
      let (cleared, waiting) = clear_waiting w now user_id in
      let slot = get_active w.slots user_id in
      let active = w.active_runs user_id in
      let (ids, db) =
        durable_ids redact waiting.db now user_id (or_else (slot_agent slot) (memory_agent active))
          (or_else (slot_run slot) (memory_run active)) in
      unbind (record waiting { db = db }) now user_id slot cleared
        (stop_run cancel_run (normalize_cursor_token_key (slot_token_key slot)) ids.0 ids.1)
